-- ===== src/Replay/Divergence.antt =====
-- How a replay, go/stream_session.go, answers a client that leaves the recording.
use poly_xrr.Common.{
  ℕ, zero, suc, ◌+◌, ◌<◌, ltb, Bytes, bytes_eq, bytes_eq_iff, true, false, some, List, [], ◌∷◌, ◌≡◌,
  ◌≢◌, map, ◌++◌, refl, sym, ap, ◌∙◌, arith, length, get_elem?, inl, inr, Bool-cases,
}
use poly_xrr.Errors.{
  StreamOp, send_op, half_close_op, eof, recorded, Error, stream_mismatch, ok, err,
}
use poly_xrr.Stream.Model.{StreamFrame}
use poly_xrr.Stream.Scrub.{stream_send, scrub_frame}
use poly_xrr.Replay
use poly_xrr.Replay.{
  StreamReplay, terminal_err, compare_frame, deliver, Act, do_send, do_recv, do_close, Outcome,
  sent, received, closed, act, play,
}
use poly_xrr.Replay.Script.{Stands, frame_at, no_frame_at, send_step, recv_step}

-- Every call of a script fails with one error.
abbrev pub all_fail : Error → List Act → List Outcome
all_fail e [] = []
all_fail e (do_send m ∷ acts) = sent (err e) ∷ all_fail e acts
all_fail e (do_recv ∷ acts) = received (err e) ∷ all_fail e acts
all_fail e (do_close ∷ acts) = closed (err e) ∷ all_fail e acts

-- A mismatch is terminal: every later call, in any order, returns the same error and changes
-- nothing.
pub play_mismatched :
    (acts : List Act) (r : StreamReplay) (op : StreamOp) (n : ℕ)
    → r.mismatch ≡ some (op, n)
    → play r acts ≡ (r, all_fail (stream_mismatch op n) acts)
unfolding play act Replay.send Replay.recv Replay.half_close
play_mismatched [] r op n h = refl
play_mismatched (do_send m ∷ acts) r op n h = simp (h, play_mismatched acts r op n h)
play_mismatched (do_recv ∷ acts) r op n h = simp (h, play_mismatched acts r op n h)
play_mismatched (do_close ∷ acts) r op n h = simp (h, play_mismatched acts r op n h)

send_differs :
    (r : StreamReplay) (m x : Bytes) (ss rs : List Bytes)
    → Stands r (x ∷ ss) rs
    → scrub_frame r.scrub stream_send r.info m ≢ x
    → Replay.send r m ≡ (
      record r { mismatch = some (send_op, r.send_idx) },
      err (stream_mismatch send_op r.send_idx),
    )
unfolding Replay.send
send_differs r m x ss rs h ne =
    let (f, at, same, rest) = frame_at r.pair.req.frames r.send_idx x ss h.sends_left in
    let differ : bytes_eq (scrub_frame r.scrub stream_send r.info m) f.message ≡ false =
      elim (Bool-cases (bytes_eq (scrub_frame r.scrub stream_send r.info m) f.message)) [
        | inl e ↦ absurd (ne ((bytes_eq_iff _ f.message).0 e ∙ same))
        | inr e ↦ e
      ] in
    simp (h.matched, at, differ)

-- Sends that agree with the recording, and then one that differs from the recorded frame after
-- scrubbing: the first are accepted, the last fails with its ordinal, and so does every call that
-- follows, of whatever kind.
pub play_diverging :
    (agreeing : List Bytes) (r : StreamReplay) (m x : Bytes) (ss rs : List Bytes) (later : List Act)
    → Stands r (map (scrub_frame r.scrub stream_send r.info) agreeing ++ (x ∷ ss)) rs
    → scrub_frame r.scrub stream_send r.info m ≢ x
    → (play r (map do_send agreeing ++ (do_send m ∷ later))).1
      ≡ map (λ _. sent (ok tt)) agreeing
        ++ all_fail (stream_mismatch send_op (r.send_idx + length agreeing)) (do_send m ∷ later)
unfolding play
play_diverging [] r m x ss rs later h ne =
    let after = record r { mismatch = some (send_op, r.send_idx) } in
    let here : r.send_idx + length {A = Bytes} [] ≡ r.send_idx = omega arith in
    unfold act in
    simp (send_differs r m x ss rs h ne, play_mismatched later after send_op r.send_idx refl)
      (ap (λ k. all_fail (stream_mismatch send_op k) (do_send m ∷ later)) (sym here))
play_diverging (a ∷ agreeing) r m x ss rs later h ne =
    let (e, h') = send_step r _ rs a h in
    let ih =
      play_diverging agreeing (record r { send_idx = r.send_idx + 1 }) m x ss rs later h' ne in
    let moved : r.send_idx + 1 + length agreeing ≡ r.send_idx + length (a ∷ agreeing) =
      omega arith in
    let fails = λ (k : ℕ). all_fail (stream_mismatch send_op k) (do_send m ∷ later) in
    simp e (
      ap (λ os. sent (ok tt) ∷ os)
        (ih ∙ ap (λ k. map (λ (_ : Bytes). sent (ok tt)) agreeing ++ fails k) moved))

lt-get_elem? :
    (fs : List StreamFrame) (i : ℕ) (f : StreamFrame) → get_elem? fs i ≡ some f → i < length fs
lt-get_elem? [] i f h = cc
lt-get_elem? (g ∷ fs) zero f h = omega arith
lt-get_elem? (g ∷ fs) (suc i) f h = omega (arith, lt-get_elem? fs i f h)

half_close_fails :
    (r : StreamReplay) (x : Bytes) (ss rs : List Bytes)
    → Stands r (x ∷ ss) rs
    → Replay.half_close r ≡ (
      record r { mismatch = some (half_close_op, r.send_idx) },
      err (stream_mismatch half_close_op r.send_idx),
    )
unfolding Replay.half_close
half_close_fails r x ss rs h =
    let (f, at, same, rest) = frame_at r.pair.req.frames r.send_idx x ss h.sends_left in
    let within : ltb r.send_idx (length r.pair.req.frames) ≡ true =
      ground (arith, lt-get_elem? r.pair.req.frames r.send_idx f at) in
    simp (h.matched, within)

-- Sends that agree with the recording, and then a half-close while a recorded send is left: the sends
-- are accepted, the half-close fails with the number of sends so far, and so does every call that
-- follows, of whatever kind.
pub play_closing_early :
    (agreeing : List Bytes) (r : StreamReplay) (x : Bytes) (ss rs : List Bytes) (later : List Act)
    → Stands r (map (scrub_frame r.scrub stream_send r.info) agreeing ++ (x ∷ ss)) rs
    → (play r (map do_send agreeing ++ (do_close ∷ later))).1
      ≡ map (λ _. sent (ok tt)) agreeing
        ++ all_fail
            (stream_mismatch half_close_op (r.send_idx + length agreeing))
            (do_close ∷ later)
unfolding play
play_closing_early [] r x ss rs later h =
    let after = record r { mismatch = some (half_close_op, r.send_idx) } in
    let here : r.send_idx + length {A = Bytes} [] ≡ r.send_idx = omega arith in
    unfold act in
    simp (half_close_fails r x ss rs h, play_mismatched later after half_close_op r.send_idx refl)
      (ap (λ k. all_fail (stream_mismatch half_close_op k) (do_close ∷ later)) (sym here))
play_closing_early (a ∷ agreeing) r x ss rs later h =
    let (e, h') = send_step r _ rs a h in
    let ih =
      play_closing_early agreeing (record r { send_idx = r.send_idx + 1 }) x ss rs later h' in
    let moved : r.send_idx + 1 + length agreeing ≡ r.send_idx + length (a ∷ agreeing) =
      omega arith in
    let fails = λ (k : ℕ). all_fail (stream_mismatch half_close_op k) (do_close ∷ later) in
    simp e (
      ap (λ os. sent (ok tt) ∷ os)
        (ih ∙ ap (λ k. map (λ (_ : Bytes). sent (ok tt)) agreeing ++ fails k) moved))

-- The end of a recording with this error text.
abbrev pub recorded_end : Bytes → Error
recorded_end [] = eof
recorded_end (c ∷ cs) = recorded (c ∷ cs)

terminal-recorded_end :
    (r : StreamReplay) (t : Bytes) → r.pair.recorded_err ≡ t → terminal_err r ≡ recorded_end t
unfolding terminal_err
terminal-recorded_end r [] h =
    ap (λ (t : Bytes). elim t [ [] ↦ eof | c ∷ cs ↦ recorded (c ∷ cs) ]) h
terminal-recorded_end r (x ∷ t) h =
    ap (λ (t : Bytes). elim t [ [] ↦ eof | c ∷ cs ↦ recorded (c ∷ cs) ]) h

send_beyond :
    (r : StreamReplay) (m : Bytes) (rs : List Bytes)
    → Stands r [] rs
    → Replay.send r m ≡ (r, err (recorded_end r.pair.recorded_err))
unfolding Replay.send
send_beyond r m rs h =
    let (at, le) = no_frame_at r.pair.req.frames r.send_idx h.sends_left in
    let end = terminal-recorded_end r r.pair.recorded_err refl in
    simp (h.matched, at) (ap (λ e. (r, err e)) end)

play_reads :
    (r : StreamReplay) (ss rs : List Bytes)
    → Stands r ss rs
    → (play r (map (λ _. do_recv) rs)).1 ≡ map (λ m. received (ok m)) rs
unfolding play
play_reads r ss [] h = refl
play_reads r ss (m ∷ rs) h =
    let (e, h') = recv_step r ss rs m h in
    simp e (
      ap (λ os. received (ok m) ∷ os)
        (play_reads (record r { recv_idx = r.recv_idx + 1 }) ss rs h'))

-- A client that repeats all sends that are left and then sends once more, whatever it holds, gets the
-- recorded terminal for that send alone: its sends are accepted, and it goes on to read the messages
-- that are left, in their order.
pub play_sending_beyond :
    (agreeing : List Bytes) (r : StreamReplay) (m : Bytes) (rs : List Bytes)
    → Stands r (map (scrub_frame r.scrub stream_send r.info) agreeing) rs
    → (play r (map do_send agreeing ++ (do_send m ∷ map (λ _. do_recv) rs))).1
      ≡ map (λ _. sent (ok tt)) agreeing
        ++ (sent (err (recorded_end r.pair.recorded_err)) ∷ map (λ x. received (ok x)) rs)
unfolding play
play_sending_beyond [] r m rs h =
    unfold act in
    simp (send_beyond r m rs h)
      (ap (λ os. sent (err (recorded_end r.pair.recorded_err)) ∷ os) (play_reads r [] rs h))
play_sending_beyond (a ∷ agreeing) r m rs h =
    let (e, h') = send_step r _ rs a h in
    simp e (
      ap (λ os. sent (ok tt) ∷ os)
        (play_sending_beyond agreeing (record r { send_idx = r.send_idx + 1 }) m rs h'))
