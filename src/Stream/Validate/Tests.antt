-- ===== src/Stream/Validate/Tests.antt =====
-- `ValidateStreamPair` on concrete pairs.
use poly_xrr.Common.{ℕ, pos, Bytes, codes, false, none, some, [], ◌∷◌, ◌≡◌, ◌↔◌, refl}
use poly_xrr.Errors.{end_not_max, duplicate_seq, not_ascending, req_frame, resp_frame, ok, err}
use poly_xrr.Stream.Model.{StreamFrame, StreamEvent, StreamPair}
use poly_xrr.Stream.Model.StreamType.{client}
use poly_xrr.Stream.Validate.{
  check_type, has_seq, add, add_frames, add_half_close, validate_stream_pair,
}
use poly_xrr.Stream.Validate.Spec.{IsValid}
use poly_xrr.Stream.Validate.Complete.{validate_iff}

abbrev frame : ℕ → Bytes → StreamFrame
frame n m = record { seq = pos n; message = m; text = false; at_ms = none }

abbrev event : ℕ → StreamEvent
event n = record { seq = pos n; at_ms = none }

-- Two sends, an answer between them, a half-close and the end.
abbrev pub pair : StreamPair
pair = record {
  req = record {
    typ = client;
    frames = frame 0 (codes "a") ∷ frame 2 (codes "b") ∷ [];
    half_close = some (event 3);
  };
  resp = record { frames = frame 1 (codes "x") ∷ []; end = event 4 };
  req_payload = [];
  resp_payload = [];
  recorded_at = [];
  recorded_err = [];
}

accepted : validate_stream_pair pair ≡ ok tt
unfolding validate_stream_pair check_type add_frames add_half_close add has_seq
accepted = refl

early_end :
    validate_stream_pair (record pair { resp = record { frames = []; end = event 1 } })
    ≡ err end_not_max
unfolding validate_stream_pair check_type add_frames add_half_close add has_seq
early_end = refl

repeated :
    validate_stream_pair (record pair { resp = record { frames = frame 2 [] ∷ []; end = event 4 } })
    ≡ err (duplicate_seq (resp_frame 0))
unfolding validate_stream_pair check_type add_frames add_half_close add has_seq
repeated = refl

descending :
    validate_stream_pair (record pair {
      req = record { typ = client; frames = frame 3 [] ∷ frame 2 [] ∷ []; half_close = none };
    })
    ≡ err (not_ascending (req_frame 1))
unfolding validate_stream_pair check_type add_frames add_half_close add has_seq
descending = refl

validate_iff_example : (validate_stream_pair pair ≡ ok tt) ↔ IsValid pair
validate_iff_example = validate_iff pair
