-- ===== src/Recording/Closing.antt =====
-- Where `RecordHalfClose` of go/stream_session.go puts the half-close.
use poly_xrr.Common.{
  ℕ, ◌+◌, ◌++◌, ◌||◌, ℤ, pos, true, false, if_both, if◌then◌else◌, Option, none, some, List, [],
  ◌∷◌, ◌≡◌, refl, ap, ◌∙◌, arith,
}
use poly_xrr.Stream.Model.{StreamEvent}
use poly_xrr.Stream.Scrub.{stream_send, stream_recv}
use poly_xrr.Recording.{
  StreamRecording, Call, send, recv, close, is_set, elapsed_ms, next_frame, record_send,
  record_recv, record_half_close, record_call, record_calls,
}

abbrev pub position : Option StreamEvent → Option ℤ
position none = none
position (some e) = some e.seq

-- The position of the first half-close among calls of which the first has the position `n`.
abbrev pub first_close : ℕ → List Call → Option ℤ
first_close n [] = none
first_close n (close since ∷ cs) = some (pos n)
first_close n (c ∷ cs) = first_close (n + 1) cs

-- A half-close that is there stays.
half_close-kept :
    (cs : List Call) (r : StreamRecording) (e : StreamEvent)
    → r.half_close ≡ some e
    → (record_calls r cs).half_close ≡ some e
unfolding record_calls record_call record_send record_recv record_half_close is_set
half_close-kept [] r e h = h
half_close-kept (send since m ∷ cs) r e h =
    if_both (λ x. (record_calls x cs).half_close ≡ some e) r.finished (half_close-kept cs r e h)
      (half_close-kept cs _ e h)
half_close-kept (recv since m ∷ cs) r e h =
    if_both (λ x. (record_calls x cs).half_close ≡ some e) r.finished (half_close-kept cs r e h)
      (half_close-kept cs _ e h)
half_close-kept (close since ∷ cs) r e h =
    let set : (r.finished || is_set r.half_close) ≡ true = ground arith in
    simp set (half_close-kept cs r e h)

-- The half-close of a recording has the position that its call has among the calls.
pub position-record_calls :
    (cs : List Call) (r : StreamRecording)
    → r.finished ≡ false
    → r.half_close ≡ none
    → position (record_calls r cs).half_close ≡ first_close r.seq cs
unfolding record_calls record_call record_send record_recv record_half_close is_set
position-record_calls [] r live h = ap position h
position-record_calls (send since m ∷ cs) r live h =
    let next = record r {
      seq = r.seq + 1;
      sends = r.sends ++ next_frame r stream_send since m ∷ [];
    } in
    ap (λ b. position (record_calls (if b then r else next) cs).half_close) live
    ∙ position-record_calls cs next live h
position-record_calls (recv since m ∷ cs) r live h =
    let next = record r {
      seq = r.seq + 1;
      recvs = r.recvs ++ next_frame r stream_recv since m ∷ [];
    } in
    ap (λ b. position (record_calls (if b then r else next) cs).half_close) live
    ∙ position-record_calls cs next live h
position-record_calls (close since ∷ cs) r live h =
    let next = record r {
      seq = r.seq + 1;
      half_close = some (record { seq = pos r.seq; at_ms = some (elapsed_ms since) });
    } in
    ap (λ b. position (record_calls (if b || is_set r.half_close then r else next) cs).half_close)
      live
    ∙ ap (λ o. position (record_calls (if is_set o then r else next) cs).half_close) h
    ∙ ap position (half_close-kept cs next _ refl)
