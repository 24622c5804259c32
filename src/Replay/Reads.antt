-- ===== src/Replay/Reads.antt =====
-- Reads of a replay, go/stream_session.go, do not depend on the send side.
use poly_xrr.Common.{
  ℕ, ◌+◌, Bytes, none, some, List, [], ◌∷◌, drop, ◌≡◌, refl, ap, ap₂, ◌∙◌, arith, Option-cases, inl,
  inr,
}
use native.Mathlib.Numerals.{add-one}
use poly_xrr.Errors.{StreamOp, stream_mismatch, Error, Result, ok, err}
use poly_xrr.Recording.Holds.{messages}
use poly_xrr.Replay
use poly_xrr.Replay.{
  StreamReplay, terminal_err, Act, do_send, do_recv, do_close, Outcome, sent, received, closed, act,
  play,
}
use poly_xrr.Replay.Script.{frame_at, no_frame_at, terminal-pair}
use poly_xrr.Replay.Divergence.{play_mismatched}

-- The results of the reads of a script.
pub reads : List Outcome → List (Result Bytes)
reads [] = []
reads (received o ∷ os) = o ∷ reads os
reads (sent o ∷ os) = reads os
reads (closed o ∷ os) = reads os

-- A read of what is left, and what is left after it.
next_read : Error → List Bytes → Result Bytes
next_read e [] = err e
next_read e (m ∷ rs) = ok m

left_after : List Bytes → List Bytes
left_after [] = []
left_after (m ∷ rs) = rs

-- What the reads of a script get: the messages that are left, in order, and then the terminal. The
-- sends and half-closes of the script do not matter.
pub served : Error → List Bytes → List Act → List (Result Bytes)
served e rs [] = []
served e rs (do_recv ∷ acts) = next_read e rs ∷ served e (left_after rs) acts
served e rs (do_send m ∷ acts) = served e rs acts
served e rs (do_close ∷ acts) = served e rs acts

-- What a call that is no read leaves alone.
record Keeps (r r' : StreamReplay) : Type 0 where
  same_pair : r'.pair ≡ r.pair
  same_recv : r'.recv_idx ≡ r.recv_idx

send-Keeps : (r : StreamReplay) (m : Bytes) → Keeps r (Replay.send r m).0
unfolding Replay.send
send-Keeps r m = record { same_pair = ground arith; same_recv = ground arith }

half_close-Keeps : (r : StreamReplay) → Keeps r (Replay.half_close r).0
unfolding Replay.half_close
half_close-Keeps r = record { same_pair = ground arith; same_recv = ground arith }

abbrev pub Left : StreamReplay → List Bytes → Type 0
Left r rs = messages (drop r.recv_idx r.pair.resp.frames) ≡ rs

Keeps-Left : (r r' : StreamReplay) (rs : List Bytes) → Keeps r r' → Left r rs → Left r' rs
Keeps-Left r r' rs k h = cc (k.same_pair, k.same_recv)

recv_lem :
    (r : StreamReplay) (rs : List Bytes)
    → r.mismatch ≡ none
    → Left r rs
    → ((Replay.recv r).1 ≡ next_read (terminal_err r) rs)
      × Left (Replay.recv r).0 (left_after rs)
      × ((Replay.recv r).0.pair ≡ r.pair)
unfolding Replay.recv next_read left_after
recv_lem r [] matched h =
    let (at, le) = no_frame_at r.pair.resp.frames r.recv_idx h in
    (simp (matched, at), simp (matched, at) h, simp (matched, at))
recv_lem r (m ∷ rs) matched h =
    let (f, at, same, rest) = frame_at r.pair.resp.frames r.recv_idx m rs h in
    (simp (matched, at, same), simp (matched, at) (rw add-one rest), simp (matched, at))

-- A handle that ends unmatched was unmatched before.
unmatched :
    (acts : List Act) (r : StreamReplay) → (play r acts).0.mismatch ≡ none → r.mismatch ≡ none
unmatched acts r h = elim (Option-cases r.mismatch) [
  | inl e ↦ e
  | inr ((op, n), e) ↦ absurd (
      cc (
        e,
        h,
        ap (λ (x : StreamReplay × List Outcome). x.0.mismatch) (play_mismatched acts r op n e),
      ))
]

reads_from :
    (acts : List Act) (r : StreamReplay) (rs : List Bytes)
    → (play r acts).0.mismatch ≡ none
    → Left r rs
    → reads (play r acts).1 ≡ served (terminal_err r) rs acts
unfolding play act reads served
reads_from [] r rs ended h = refl
reads_from (do_send m ∷ acts) r rs ended h =
    let k = send-Keeps r m in
    reads_from acts (Replay.send r m).0 rs ended (Keeps-Left r _ rs k h)
    ∙ ap (λ e. served e rs acts) (terminal-pair _ r k.same_pair)
reads_from (do_close ∷ acts) r rs ended h =
    let k = half_close-Keeps r in
    reads_from acts (Replay.half_close r).0 rs ended (Keeps-Left r _ rs k h)
    ∙ ap (λ e. served e rs acts) (terminal-pair _ r k.same_pair)
reads_from (do_recv ∷ acts) r rs ended h =
    let (got, left, same) = recv_lem r rs (unmatched (do_recv ∷ acts) r ended) h in
    ap₂ ◌∷◌ got (
      reads_from acts (Replay.recv r).0 (left_after rs) ended left
      ∙ ap (λ e. served e (left_after rs) acts) (terminal-pair _ r same))

-- In any script that ends without a mismatch the reads get the recorded messages in order and then
-- the terminal, however many sends and half-closes stand before or between them.
pub reads-served :
    (acts : List Act) (r : StreamReplay)
    → (play r acts).0.mismatch ≡ none
    → reads (play r acts).1
      ≡ served (terminal_err r) (messages (drop r.recv_idx r.pair.resp.frames)) acts
reads-served acts r ended = reads_from acts r _ ended refl

-- The same, read by read: at the end, and before it.
pub recv-end :
    (r : StreamReplay) → r.mismatch ≡ none → Left r [] → Replay.recv r ≡ (r, err (terminal_err r))
unfolding Replay.recv
recv-end r matched h =
    let (at, le) = no_frame_at r.pair.resp.frames r.recv_idx h in simp (matched, at)

pub recv-next :
    (r : StreamReplay) (m : Bytes) (rs : List Bytes)
    → r.mismatch ≡ none
    → Left r (m ∷ rs)
    → (Replay.recv r ≡ (record r { recv_idx = r.recv_idx + 1 }, ok m))
      × Left (record r { recv_idx = r.recv_idx + 1 }) rs
unfolding Replay.recv
recv-next r m rs matched h =
    let (f, at, same, rest) = frame_at r.pair.resp.frames r.recv_idx m rs h in
    (simp (matched, at, same), rw add-one rest)

pub recv-mismatched :
    (r : StreamReplay) (op : StreamOp) (n : ℕ)
    → r.mismatch ≡ some (op, n)
    → Replay.recv r ≡ (r, err (stream_mismatch op n))
unfolding Replay.recv
recv-mismatched r op n h = simp h
