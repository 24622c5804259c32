-- ===== src/Stream/Validate/Sound.antt =====
-- What `ValidateStreamPair` of go/stream.go accepts keeps the rules.
use poly_xrr.Common.{
  ℤ, pos, negsuc, ◌≤ℤ◌, ◌<ℤ◌, eqb_ℤ, eqb_ℤ_iff, List, [], ◌∷◌, ◌++◌, All, ◌≡◌, ◌≢◌, sym, ap, subst,
  ◌∙◌, arith, if◌then◌else◌, Distinct, ltb_ℤ, true,
}
use poly_xrr.Errors.{ok, >>=-eq-ok, req_frame, resp_frame, end_event}
use poly_xrr.Stream.Model.{StreamType, StreamPair, seqs}
use poly_xrr.Stream.Model.StreamType.{server, client, bidi, other}
use poly_xrr.Stream.Validate.{
  Seen, nothing_seen, check_type, add, add_frames, add_half_close, validate_stream_pair,
}
use poly_xrr.Stream.Validate.Spec.{IsKnown, IsValid, body_seqs, half_close_seqs}
use poly_xrr.Stream.Validate.Tracks.{
  Tracks-nothing_seen, pushed_all, pushed_all-append, seen-pushed_all, add_sound, add_frames_sound,
  add_half_close_sound, Fresh,
}

check_type-IsKnown : (t : StreamType) → check_type t ≡ ok tt → IsKnown t
unfolding check_type
check_type-IsKnown server h = tt
check_type-IsKnown client h = tt
check_type-IsKnown bidi h = tt
check_type-IsKnown (other t) h = absurd (ground arith)

-- The states of the closure in the order of the calls.
pub pushed_all-body_seqs :
    (p : StreamPair)
    → pushed_all nothing_seen (body_seqs p)
      ≡ pushed_all
          (pushed_all (pushed_all nothing_seen (seqs p.req.frames)) (seqs p.resp.frames))
          (half_close_seqs p.req.half_close)
pushed_all-body_seqs p =
    pushed_all-append nothing_seen (seqs p.req.frames ++ seqs p.resp.frames)
      (half_close_seqs p.req.half_close)
    ∙ ap (λ st. pushed_all st (half_close_seqs p.req.half_close))
        (pushed_all-append nothing_seen (seqs p.req.frames) (seqs p.resp.frames))

strictly_below : (s m e : ℤ) → s ≤ℤ m → s ≢ e → (if ltb_ℤ m e then e else m) ≡ e → s <ℤ e
strictly_below s m e le ne h = ground arith

-- The maximum is above what it bounds, where it is new.
below_end :
    (ss : List ℤ) (m e : ℤ)
    → All (λ s. s ≤ℤ m) ss
    → Fresh ss e
    → (if ltb_ℤ m e then e else m) ≡ e
    → All (λ s. s <ℤ e) ss
below_end [] m e b f h = tt
below_end (s ∷ ss) m e (le, b) (ne, f) h = (strictly_below s m e le ne h, below_end ss m e b f h)

-- A pair that `ValidateStreamPair` accepts keeps every rule.
pub validate_sound : (p : StreamPair) → validate_stream_pair p ≡ ok tt → IsValid p
unfolding validate_stream_pair
validate_sound p h =
    let (u, known, h₁) = >>=-eq-ok (check_type p.req.typ) _ h in
    let (a, sent, h₂) =
      >>=-eq-ok (add_frames req_frame 0 nothing_seen (negsuc 0) p.req.frames) _ h₁ in
    let (b, received, h₃) = >>=-eq-ok (add_frames resp_frame 0 a (negsuc 0) p.resp.frames) _ h₂ in
    let (c, closed, h₄) = >>=-eq-ok (add_half_close b p.req.half_close) _ h₃ in
    let (d, ended, h₅) = >>=-eq-ok (add c p.resp.end.seq end_event) _ h₄ in
    let (ea, up, ta) =
      add_frames_sound req_frame 0 nothing_seen a (negsuc 0) p.req.frames Tracks-nothing_seen
        sent in
    let (eb, up', tb) = add_frames_sound resp_frame 0 a b (negsuc 0) p.resp.frames ta received in
    let (ec, tc) = add_half_close_sound b c p.req.half_close tb closed in
    let (ed, pe, fresh) = add_sound c d p.resp.end.seq end_event ended in
    let whole : c ≡ pushed_all nothing_seen (body_seqs p) =
      (ec
        ∙ ap (λ x. pushed_all x (half_close_seqs p.req.half_close))
            (eb ∙ ap (λ x. pushed_all x (seqs p.resp.frames)) ea))
      ∙ sym (pushed_all-body_seqs p) in
    let is_max : eqb_ℤ p.resp.end.seq d.max_seq ≡ true = ground arith in
    let body : c.seen ≡ body_seqs p =
      ap (λ (x : Seen). x.seen) whole ∙ seen-pushed_all nothing_seen (body_seqs p) in
    record {
      known_type = check_type-IsKnown p.req.typ known;
      req_ascends = up;
      resp_ascends = up';
      nonnegative = subst (All (λ s. pos 0 ≤ℤ s)) body tc.nonnegative;
      distinct = subst Distinct body tc.distinct;
      end_last = subst (All (λ s. s <ℤ p.resp.end.seq)) body (
          below_end c.seen c.max_seq p.resp.end.seq tc.bound fresh (
            ap (λ (x : Seen). x.max_seq) (sym ed)
            ∙ sym ((eqb_ℤ_iff p.resp.end.seq d.max_seq).0 is_max)));
      end_nonnegative = pe;
    }
