-- ===== src/Stream/Validate.antt =====
-- `ValidateStreamPair` of go/stream.go. The map `seen` is the list of its keys, in the order in
-- which they were added; `max_seq` and `prev` start at -1 as in the source.
pub mod Spec
pub mod Tests
mod Tracks
pub mod Sound
pub mod Complete
use poly_xrr.Common.{
  ℕ, ◌+◌, ℤ, pos, negsuc, ltb_ℤ, leb_ℤ, eqb_ℤ, Bool, true, false, ◌||◌, Option, none, some, List,
  [], ◌∷◌, ◌++◌, if◌then◌else◌,
}
use poly_xrr.Errors.{
  Part, req_frame, resp_frame, half_close_event, end_event, Error, invalid_type, negative_seq,
  duplicate_seq, not_ascending, end_not_max, Result, ok, err, ◌>>=◌, ◌>>◌,
}
use poly_xrr.Stream.Model.{StreamType, StreamFrame, StreamEvent, StreamPair}
use poly_xrr.Stream.Model.StreamType.{server, client, bidi, other}

-- The closure's variables `seen` and `maxSeq`.
pub record Seen : Type 0 where
  pub seen : List ℤ
  pub max_seq : ℤ

abbrev pub nothing_seen : Seen
nothing_seen = record { seen = []; max_seq = negsuc 0 }

-- `_, dup := seen[seq]`.
pub has_seq : List ℤ → ℤ → Bool
has_seq [] seq = false
has_seq (s ∷ ss) seq = eqb_ℤ s seq || has_seq ss seq

pub check_type : StreamType → Result (Unit {0})
check_type (other t) = err (invalid_type t)
check_type _ = ok tt

-- The closure `add`.
pub add : Seen → ℤ → Part → Result Seen
add st seq what =
    if ltb_ℤ seq (pos 0)
    then err (negative_seq what)
    else if has_seq st.seen seq
    then err (duplicate_seq what)
    else ok (record {
      seen = st.seen ++ seq ∷ [];
      max_seq = if ltb_ℤ st.max_seq seq then seq else st.max_seq;
    })

-- The loop of the closure `addFrames`, at frame `i`.
pub add_frames : (ℕ → Part) → ℕ → Seen → ℤ → List StreamFrame → Result Seen
add_frames side i st prev [] = ok st
add_frames side i st prev (f ∷ fs) = do
  st' ← add st f.seq (side i)
  let rest = add_frames side (i + 1) st' f.seq fs
  if leb_ℤ f.seq prev then err (not_ascending (side i)) else rest

pub add_half_close : Seen → Option StreamEvent → Result Seen
add_half_close st none = ok st
add_half_close st (some e) = add st e.seq half_close_event

pub validate_stream_pair : StreamPair → Result (Unit {0})
validate_stream_pair p = do
  check_type p.req.typ
  sent ← add_frames req_frame 0 nothing_seen (negsuc 0) p.req.frames
  received ← add_frames resp_frame 0 sent (negsuc 0) p.resp.frames
  closed ← add_half_close received p.req.half_close
  ended ← add closed p.resp.end.seq end_event
  if eqb_ℤ p.resp.end.seq ended.max_seq then ok tt else err end_not_max
