-- ===== src/Stream/Validate/Complete.antt =====
-- `ValidateStreamPair` of go/stream.go accepts whatever keeps the rules.
use poly_xrr.Common.{
  ℤ, pos, negsuc, ◌≤ℤ◌, ◌<ℤ◌, List, ◌++◌, All, All-map, All-append_left, All-append_right,
  Distinct-append_left, ◌≡◌, ◌≢◌, refl, sym, ap, subst, ◌∙◌, arith, Distinct, ◌↔◌,
}
use poly_xrr.Errors.{ok, req_frame, resp_frame, end_event}
use poly_xrr.Stream.Model.{StreamType, StreamPair, seqs}
use poly_xrr.Stream.Model.StreamType.{server, client, bidi, other}
use poly_xrr.Stream.Validate.{nothing_seen, check_type, validate_stream_pair}
use poly_xrr.Stream.Validate.Spec.{IsKnown, IsValid, body_seqs, half_close_seqs}
use poly_xrr.Stream.Validate.Tracks.{
  Tracks, Tracks-nothing_seen, Tracks-pushed_all, pushed_all, seen-pushed_all, add_complete,
  add_frames_complete, add_half_close_complete, Fresh,
}
use poly_xrr.Stream.Validate.Sound.{validate_sound, pushed_all-body_seqs}

IsKnown-check_type : (t : StreamType) → IsKnown t → check_type t ≡ ok tt
unfolding check_type
IsKnown-check_type server h = refl
IsKnown-check_type client h = refl
IsKnown-check_type bidi h = refl
IsKnown-check_type (other t) h = absurd h

Fresh-end : (ss : List ℤ) (e : ℤ) → All (λ s. s <ℤ e) ss → Fresh ss e
Fresh-end ss e = All-map (λ s. s <ℤ e) (λ s. s ≢ e) (λ s h eq. ground arith) ss

-- A pair that keeps every rule is accepted.
pub validate_complete : (p : StreamPair) → IsValid p → validate_stream_pair p ≡ ok tt
unfolding validate_stream_pair
validate_complete p v =
    let reqs = seqs p.req.frames in
    let resps = seqs p.resp.frames in
    let close = half_close_seqs p.req.half_close in
    let distinct_frames = Distinct-append_left (reqs ++ resps) close v.distinct in
    let nonneg_frames = All-append_left (λ s. pos 0 ≤ℤ s) (reqs ++ resps) close v.nonnegative in
    let a = pushed_all nothing_seen reqs in
    let b = pushed_all a resps in
    let c = pushed_all b close in
    let seen_a : a.seen ≡ reqs = seen-pushed_all nothing_seen reqs in
    let seen_b : b.seen ≡ reqs ++ resps = seen-pushed_all a resps ∙ ap (λ x. x ++ resps) seen_a in
    let seen_c : c.seen ≡ body_seqs p = seen-pushed_all b close ∙ ap (λ x. x ++ close) seen_b in
    let tracks : Tracks c =
      subst Tracks (pushed_all-body_seqs p) (
        Tracks-pushed_all nothing_seen (body_seqs p) Tracks-nothing_seen v.nonnegative
          v.distinct) in
    let below = subst (All (λ s. s <ℤ p.resp.end.seq)) (sym seen_c) v.end_last in
    let highest = tracks.least p.resp.end.seq v.end_nonnegative below in
    let sent =
      add_frames_complete req_frame 0 nothing_seen (negsuc 0) p.req.frames
        (All-append_left _ reqs resps nonneg_frames)
        (Distinct-append_left reqs resps distinct_frames) v.req_ascends in
    let received =
      add_frames_complete resp_frame 0 a (negsuc 0) p.resp.frames
        (All-append_right _ reqs resps nonneg_frames)
        (subst (λ x. Distinct (x ++ resps)) (sym seen_a) distinct_frames) v.resp_ascends in
    let closed =
      add_half_close_complete b p.req.half_close
        (All-append_right _ (reqs ++ resps) close v.nonnegative)
        (subst (λ x. Distinct (x ++ close)) (sym seen_b) v.distinct) in
    let ended =
      add_complete c p.resp.end.seq end_event v.end_nonnegative
        (Fresh-end c.seen p.resp.end.seq below) in
    rw (IsKnown-check_type p.req.typ v.known_type, sent, received, closed, ended) (ground arith)

-- `ValidateStreamPair` accepts a pair exactly when it keeps the format's rules: a known type, both
-- directions strictly ascending, no negative and no repeated position among frames and half-close,
-- and a terminal event behind all of them.
pub validate_iff : (p : StreamPair) → (validate_stream_pair p ≡ ok tt) ↔ IsValid p
validate_iff p = (validate_sound p, validate_complete p)
