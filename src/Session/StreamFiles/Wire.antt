-- ===== src/Session/StreamFiles/Wire.antt =====
-- The frames of go/stream_cassette.go: what `framesOut` writes and what `parseWireFrames` makes of it.
use poly_xrr.Common.{
  ℕ, ◌+◌, Bytes, AreBytes, All, Bool-cases, ◌&&◌, Option, none, some, List, [], ◌∷◌, map, ◌≡◌, refl,
  ap, inl, inr,
}
use poly_xrr.Errors.{Part, ok}
use poly_xrr.Base64.RoundTrip.{decode_strict_b64-encode}
use poly_xrr.Stream.Model.{StreamFrame, StreamEvent, seqs}
use poly_xrr.Stream.Cassette.{content}
use poly_xrr.Common.Utf8.{utf8_valid}
use poly_xrr.Session.WireFormat.{
  MessageNode, absent, scalar_value, WireFrame, WireEvent, WireStream, WireFrameOut, StreamOut,
  req_out, resp_out, need, parse_message, parse_wire_frame, parse_wire_frames, parse_wire_event,
  parse_half_close,
}
use poly_xrr.Session.StreamFiles.{frame_out, frames_out}
use poly_xrr.Session.Streams.{type_text}

-- How the YAML form of what is written is read: `omitempty` leaves an unset field out.
abbrev pub node_of : Option Bytes → MessageNode
node_of none = absent
node_of (some v) = scalar_value v

abbrev pub wire_frame : WireFrameOut → WireFrame
wire_frame f = record {
  seq = some f.seq;
  message_b64 = node_of f.message_b64;
  message_text = node_of f.message_text;
  at_ms = f.at_ms;
}

abbrev pub wire_event : StreamEvent → WireEvent
wire_event e = record { seq = some e.seq; at_ms = e.at_ms }

abbrev pub wire_half_close : Option StreamEvent → Option WireEvent
wire_half_close none = none
wire_half_close (some e) = some (wire_event e)

abbrev pub wire_stream : StreamOut → WireStream
wire_stream (req_out typ fs half_close) = record {
  typ = some (type_text typ);
  frames = map wire_frame fs;
  half_close = wire_half_close half_close;
  end = none;
}
wire_stream (resp_out fs end) = record {
  typ = none;
  frames = map wire_frame fs;
  half_close = none;
  end = some (wire_event end);
}

-- A frame as it is read again: bytes that are no text lose the flag.
abbrev pub stored_frame : StreamFrame → StreamFrame
stored_frame f = record f { text = f.text && utf8_valid f.message }

parse-frame_out :
    (what : Part) (f : StreamFrame)
    → AreBytes f.message
    → parse_wire_frame what (wire_frame (frame_out f)) ≡ ok (stored_frame f)
unfolding parse_wire_frame parse_message need frame_out
parse-frame_out what f h = elim (Bool-cases (f.text && utf8_valid f.message)) [
  | inl is_text ↦ simp is_text
  | inr is_bytes ↦ simp (is_bytes, decode_strict_b64-encode f.message h)
]

pub parse-frames_out :
    (side : ℕ → Part) (i : ℕ) (fs : List StreamFrame)
    → All AreBytes (map (λ (f : StreamFrame). f.message) fs)
    → parse_wire_frames side i (map wire_frame (frames_out fs)) ≡ ok (map stored_frame fs)
unfolding parse_wire_frames frames_out
parse-frames_out side i [] h = refl
parse-frames_out side i (f ∷ fs) (hf, h) =
    simp (parse-frame_out (side i) f hf, parse-frames_out side (i + 1) fs h)

pub content-stored : (fs : List StreamFrame) → map content fs ≡ map content (map stored_frame fs)
content-stored [] = refl
content-stored (f ∷ fs) = ap (λ x. content f ∷ x) (content-stored fs)

pub seqs-stored : (fs : List StreamFrame) → seqs fs ≡ seqs (map stored_frame fs)
seqs-stored [] = refl
seqs-stored (f ∷ fs) = ap (λ x. f.seq ∷ x) (seqs-stored fs)

pub parse_half_close-wire : (e : Option StreamEvent) → parse_half_close (wire_half_close e) ≡ ok e
unfolding parse_half_close parse_wire_event need
parse_half_close-wire none = refl
parse_half_close-wire (some e) = refl
