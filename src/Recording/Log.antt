-- ===== src/Recording/Log.antt =====
-- The event log of a recording, go/stream_session.go: every sequence of `RecordSend`, `RecordRecv`
-- and `RecordHalfClose` calls keeps the positions ascending, distinct and below the counter.
use poly_xrr.Common.{
  ℕ, ◌+◌, ℤ, pos, negsuc, ◌≤ℤ◌, ◌<ℤ◌, Bytes, Option-cases, if_both, ◌||◌, List, [], ◌∷◌, ◌++◌,
  map-append, append_assoc, append-nil, All, All-append_left, All-append_right, All-map, All-insert,
  Distinct, Distinct-insert, ◌≡◌, ◌≢◌, refl, sym, ap, subst, ◌∙◌, inl, inr, arith,
}
use poly_xrr.Stream.Model.{StreamFrame, seqs}
use poly_xrr.Stream.Scrub.{stream_send, stream_recv}
use poly_xrr.Stream.Validate.Spec.{AscendsFrom, half_close_seqs}
use poly_xrr.Recording.{
  StreamRecording, next_frame, record_send, record_recv, record_half_close, is_set, Call, send,
  recv, close, record_call, record_calls,
}

abbrev log_seqs : StreamRecording → List ℤ
log_seqs r = (seqs r.sends ++ seqs r.recvs) ++ half_close_seqs r.half_close

pub record IsLogged (r : StreamRecording) : Type 0 where
  pub sends_ascend : AscendsFrom (negsuc 0) (seqs r.sends)
  pub recvs_ascend : AscendsFrom (negsuc 0) (seqs r.recvs)
  pub nonnegative : All (λ s. pos 0 ≤ℤ s) (log_seqs r)
  pub distinct : Distinct (log_seqs r)
  pub below : All (λ s. s <ℤ pos r.seq) (log_seqs r)

AscendsFrom-snoc :
    (prev s : ℤ) (ss : List ℤ)
    → AscendsFrom prev ss
    → prev <ℤ s
    → All (λ x. x <ℤ s) ss
    → AscendsFrom prev (ss ++ s ∷ [])
AscendsFrom-snoc prev s [] up h b = (h, tt)
AscendsFrom-snoc prev s (x ∷ ss) (lt, up) h (b, bs) = (lt, AscendsFrom-snoc x s ss up b bs)

-- A position below the counter differs from it, on either side.
ne_left : (n : ℕ) (ss : List ℤ) → All (λ s. s <ℤ pos n) ss → All (λ y. pos n ≢ y) ss
ne_left n ss = All-map (λ s. s <ℤ pos n) (λ y. pos n ≢ y) (λ s h e. ground arith) ss

ne_right : (n : ℕ) (ss : List ℤ) → All (λ s. s <ℤ pos n) ss → All (λ y. y ≢ pos n) ss
ne_right n ss = All-map (λ s. s <ℤ pos n) (λ y. y ≢ pos n) (λ s h e. ground arith) ss

raise : (n : ℕ) (ss : List ℤ) → All (λ s. s <ℤ pos n) ss → All (λ s. s <ℤ pos (n + 1)) ss
raise n ss = All-map (λ s. s <ℤ pos n) (λ s. s <ℤ pos (n + 1)) (λ s h. omega arith) ss

-- The three facts about a log that one more position at the counter keeps.
record Bounded (n : ℕ) (ss : List ℤ) : Type 0 where
  nonneg : All (λ s. pos 0 ≤ℤ s) ss
  dist : Distinct ss
  below : All (λ s. s <ℤ pos n) ss

Bounded-insert :
    (n : ℕ) (xs ys : List ℤ) → Bounded n (xs ++ ys) → Bounded (n + 1) ((xs ++ pos n ∷ []) ++ ys)
Bounded-insert n xs ys b = record {
  nonneg = All-insert _ xs (pos n) ys b.nonneg (omega arith);
  dist =
      Distinct-insert xs (pos n) ys b.dist (ne_left n (xs ++ ys) b.below)
        (ne_right n (xs ++ ys) b.below);
  below = All-insert _ xs (pos n) ys (raise n (xs ++ ys) b.below) (omega arith);
}

IsLogged-Bounded : (r : StreamRecording) → IsLogged r → Bounded r.seq (log_seqs r)
IsLogged-Bounded r h = record { nonneg = h.nonnegative; dist = h.distinct; below = h.below }

-- What a log keeps when the counter has grown past one more position of it.
IsLogged-Bounded' :
    (r : StreamRecording)
    → AscendsFrom (negsuc 0) (seqs r.sends)
    → AscendsFrom (negsuc 0) (seqs r.recvs)
    → Bounded r.seq (log_seqs r)
    → IsLogged r
IsLogged-Bounded' r up up' b = record {
  sends_ascend = up;
  recvs_ascend = up';
  nonnegative = b.nonneg;
  distinct = b.dist;
  below = b.below;
}

seqs-snoc : (fs : List StreamFrame) (f : StreamFrame) → seqs (fs ++ f ∷ []) ≡ seqs fs ++ f.seq ∷ []
seqs-snoc fs f = map-append (λ (x : StreamFrame). x.seq) fs (f ∷ [])

-- One more frame, at the counter's position, leaves a direction ascending.
frames_ascend :
    (fs : List StreamFrame) (f : StreamFrame) (n : ℕ)
    → f.seq ≡ pos n
    → AscendsFrom (negsuc 0) (seqs fs)
    → All (λ s. s <ℤ pos n) (seqs fs)
    → AscendsFrom (negsuc 0) (seqs (fs ++ f ∷ []))
frames_ascend fs f n e up b =
    subst (AscendsFrom (negsuc 0)) (sym (seqs-snoc fs f ∙ ap (λ s. seqs fs ++ s ∷ []) e))
      (AscendsFrom-snoc (negsuc 0) (pos n) (seqs fs) up (omega arith) b)

module _ (r : StreamRecording) (since : ℤ) (m : Bytes) (h : IsLogged r) where
  below_sends : All (λ s. s <ℤ pos r.seq) (seqs r.sends)
  below_sends =
      All-append_left _ (seqs r.sends) (seqs r.recvs)
        (All-append_left _ (seqs r.sends ++ seqs r.recvs) (half_close_seqs r.half_close) h.below)

  below_recvs : All (λ s. s <ℤ pos r.seq) (seqs r.recvs)
  below_recvs =
      All-append_right _ (seqs r.sends) (seqs r.recvs)
        (All-append_left _ (seqs r.sends ++ seqs r.recvs) (half_close_seqs r.half_close) h.below)

  record_send-IsLogged : IsLogged (record_send r since m)
  unfolding record_send
  record_send-IsLogged =
      let f = next_frame r stream_send since m in
      let rest = seqs r.recvs ++ half_close_seqs r.half_close in
      let e : (seqs (r.sends ++ f ∷ []) ++ seqs r.recvs) ++ half_close_seqs r.half_close
          ≡ (seqs r.sends ++ pos r.seq ∷ []) ++ rest =
        rw (seqs-snoc r.sends f) (append_assoc _ (seqs r.recvs) (half_close_seqs r.half_close)) in
      let b =
        subst (Bounded r.seq) (append_assoc (seqs r.sends) (seqs r.recvs) _)
          (IsLogged-Bounded r h) in
      if_both IsLogged r.finished h (
        IsLogged-Bounded' _ (frames_ascend r.sends f r.seq refl h.sends_ascend below_sends)
          h.recvs_ascend
          (subst (Bounded (r.seq + 1)) (sym e) (Bounded-insert r.seq (seqs r.sends) rest b)))

  record_recv-IsLogged : IsLogged (record_recv r since m)
  unfolding record_recv
  record_recv-IsLogged =
      let f = next_frame r stream_recv since m in
      let before = seqs r.sends ++ seqs r.recvs in
      let close = half_close_seqs r.half_close in
      let e : (seqs r.sends ++ seqs (r.recvs ++ f ∷ [])) ++ close
          ≡ (before ++ pos r.seq ∷ []) ++ close =
        ap (λ x. x ++ close)
          (ap (λ x. seqs r.sends ++ x) (seqs-snoc r.recvs f)
            ∙ sym (append_assoc (seqs r.sends) (seqs r.recvs) (pos r.seq ∷ []))) in
      if_both IsLogged r.finished h (
        IsLogged-Bounded' _ h.sends_ascend
          (frames_ascend r.recvs f r.seq refl h.recvs_ascend below_recvs)
          (subst (Bounded (r.seq + 1)) (sym e)
            (Bounded-insert r.seq before close (IsLogged-Bounded r h))))

record_half_close-IsLogged :
    (r : StreamRecording) (since : ℤ) → IsLogged r → IsLogged (record_half_close r since)
unfolding record_half_close
record_half_close-IsLogged r since h = elim (Option-cases r.half_close) [
  | inl unset ↦
      let before = seqs r.sends ++ seqs r.recvs in
      let b =
        subst (λ o. Bounded r.seq (before ++ half_close_seqs o)) unset (IsLogged-Bounded r h) in
      let b' =
        subst (Bounded (r.seq + 1)) (append-nil (before ++ pos r.seq ∷ []))
          (Bounded-insert r.seq before [] b) in
      if_both IsLogged (r.finished || is_set r.half_close) h
        (IsLogged-Bounded' _ h.sends_ascend h.recvs_ascend b')
  | inr (e, set) ↦ subst IsLogged (ground arith) h
]

record_call-IsLogged : (r : StreamRecording) (c : Call) → IsLogged r → IsLogged (record_call r c)
unfolding record_call
record_call-IsLogged r (send since m) h = record_send-IsLogged r since m h
record_call-IsLogged r (recv since m) h = record_recv-IsLogged r since m h
record_call-IsLogged r (close since) h = record_half_close-IsLogged r since h

pub record_calls-IsLogged :
    (r : StreamRecording) (cs : List Call) → IsLogged r → IsLogged (record_calls r cs)
unfolding record_calls
record_calls-IsLogged r [] h = h
record_calls-IsLogged r (c ∷ cs) h =
    record_calls-IsLogged (record_call r c) cs (record_call-IsLogged r c h)
