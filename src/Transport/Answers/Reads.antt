-- ===== src/Transport/Answers/Reads.antt =====
-- The loops of go/adapters/grpctransport/replay.go over a replay handle.
use poly_xrr.Common.{
  ℕ, zero, suc, ◌+◌, ◌≤◌, Bytes, none, some, List, [], ◌∷◌, drop, length, ◌≡◌, refl, arith,
  Option-cases, inl, inr,
}
use native.Mathlib.Numerals.{add-one}
use poly_xrr.Errors.{stream_mismatch}
use poly_xrr.Stream.Model.{StreamFrame}
use poly_xrr.Recording.Holds.{messages}
use poly_xrr.Replay.{StreamReplay, terminal_err}
use poly_xrr.Replay.Reads.{Left, recv-end, recv-next, recv-mismatched}
use poly_xrr.Transport.Answers.{Delivered, recv_all}

-- With fuel for one read more than messages are left, the loop ends, and it has read them all in their
-- order.
pub recv_all_lem :
    (ms : List Bytes) (k : ℕ) (rp : StreamReplay)
    → length ms ≤ k
    → rp.mismatch ≡ none
    → Left rp ms
    → (rp' : StreamReplay) × (recv_all (suc k) rp ≡ some (ms, rp', terminal_err rp))
      × (rp'.pair ≡ rp.pair)
unfolding recv_all terminal_err
recv_all_lem [] k rp h matched left = (rp, simp (recv-end rp matched left), refl)
recv_all_lem (m ∷ ms) zero rp h matched left = absurd (omega arith)
recv_all_lem (m ∷ ms) (suc k) rp h matched left =
    let (next, rest) = recv-next rp m ms matched left in
    let (rp', later, same) =
      recv_all_lem ms k (record rp { recv_idx = rp.recv_idx + 1 }) (omega arith) matched rest in
    (rp', simp (next, later), same)

pub length-messages-drop :
    (i : ℕ) (fs : List StreamFrame) → length (messages (drop i fs)) ≤ length fs
length-messages-drop zero [] = omega arith
length-messages-drop zero (f ∷ fs) = omega (arith, length-messages-drop zero fs)
length-messages-drop (suc i) [] = omega arith
length-messages-drop (suc i) (f ∷ fs) = omega (arith, length-messages-drop i fs)

-- The loop of `deliver` ends on every handle, with the fuel that it has.
pub recv_all-total :
    (rp : StreamReplay) → (d : Delivered) × (recv_all (length rp.pair.resp.frames + 1) rp ≡ some d)
unfolding recv_all
recv_all-total rp = elim (Option-cases rp.mismatch) [
  | inl matched ↦
      let ms = messages (drop rp.recv_idx rp.pair.resp.frames) in
      let (rp', done, same) =
        recv_all_lem ms (length rp.pair.resp.frames) rp
          (length-messages-drop rp.recv_idx rp.pair.resp.frames) matched refl in
      ((ms, rp', terminal_err rp), rw add-one done)
  | inr ((op, n), e) ↦
      (([], rp, stream_mismatch op n), rw add-one (simp (recv-mismatched rp op n e)))
]
