-- ===== src/Session/WireFormat.antt =====
-- The stream half of a streamed cassette file, as it is read and as it is written: the wire types of
-- go/stream_cassette.go, `parseWireFrames`, `parseWireEvent` and `LoadStream` behind the files.
use poly_xrr.Common.{
  ℕ, ◌+◌, ℤ, Bytes, codes, bytes_eq, Bool, true, false, Option, none, some, List, [], ◌∷◌,
  if◌then◌else◌,
}
use poly_xrr.Errors.{
  Part, req_frame, resp_frame, half_close_event, end_event, Error, shape_mismatch, one_sided_stream,
  missing_type, missing_seq, bad_encoding, not_scalar, bad_b64, missing_end, Result, ok, err, ◌>>=◌,
  ◌>>◌,
}
use poly_xrr.Base64.{decode_strict_b64}
use poly_xrr.Stream.Model.{Payload, StreamType, StreamFrame, StreamEvent, StreamPair}
use poly_xrr.Stream.Model.StreamType.{server, client, bidi, other}
use poly_xrr.Stream.Validate.{validate_stream_pair}

-- `yaml.Node` of a message: an absent field has kind 0.
pub data MessageNode : Type 0 where
  absent other_kind : MessageNode
  scalar_value : Bytes → MessageNode

pub record WireFrame : Type 0 where
  pub seq : Option ℤ
  pub message_b64 : MessageNode
  pub message_text : MessageNode
  pub at_ms : Option ℤ

pub record WireEvent : Type 0 where
  pub seq : Option ℤ
  pub at_ms : Option ℤ

-- `wireStream`, for both files: a request has no end, a response no type and no half-close.
pub record WireStream : Type 0 where
  pub typ : Option Bytes
  pub frames : List WireFrame
  pub half_close : Option WireEvent
  pub end : Option WireEvent

pub record StreamFile : Type 0 where
  pub payload : Payload
  pub recorded_at : Bytes
  pub recorded_err : Bytes
  pub stream : Option WireStream

pub record WireFrameOut : Type 0 where
  pub seq : ℤ
  pub message_b64 : Option Bytes
  pub message_text : Option Bytes
  pub at_ms : Option ℤ

-- `wireReqStreamOut` and `wireRespStreamOut`; their events are as in the model.
pub data StreamOut : Type 0 where
  req_out : StreamType → List WireFrameOut → Option StreamEvent → StreamOut
  resp_out : List WireFrameOut → StreamEvent → StreamOut

pub record StreamEnvelope : Type 0 where
  pub adapter : Bytes
  pub fingerprint : Bytes
  pub recorded_at : Bytes
  pub error : Bytes
  pub payload : Payload
  pub stream : StreamOut

-- `StreamType(*reqFile.stream.Type)`.
unfoldable pub type_of : Bytes → StreamType
type_of t =
    if bytes_eq t (codes "server")
    then server
    else if bytes_eq t (codes "client")
    then client
    else if bytes_eq t (codes "bidi")
    then bidi
    else other t

unfoldable pub need {ℓ} : {A : Type ℓ} → Error → Option A → Result A
need e none = err e
need e (some a) = ok a

-- The message of a frame, and whether it was text: exactly one of the two fields is there.
unfoldable pub parse_message : Part → MessageNode → MessageNode → Result (Bytes × Bool)
unfolding need
parse_message what absent absent = err (bad_encoding what)
parse_message what absent other_kind = err (not_scalar what)
parse_message what absent (scalar_value v) = ok (v, true)
parse_message what other_kind absent = err (not_scalar what)
parse_message what (scalar_value v) absent = do
  message ← need (bad_b64 what) (decode_strict_b64 v)
  ok (message, false)
parse_message what _ _ = err (bad_encoding what)

unfoldable pub parse_wire_frame : Part → WireFrame → Result StreamFrame
unfolding need parse_message
parse_wire_frame what wf = do
  seq ← need (missing_seq what) wf.seq
  (message, text) ← parse_message what wf.message_b64 wf.message_text
  ok (record { seq = seq; message = message; text = text; at_ms = wf.at_ms })

-- `parseWireFrames`, from frame `i` on.
unfoldable pub parse_wire_frames : (ℕ → Part) → ℕ → List WireFrame → Result (List StreamFrame)
unfolding parse_wire_frame
parse_wire_frames side i [] = ok []
parse_wire_frames side i (wf ∷ wfs) = do
  frame ← parse_wire_frame (side i) wf
  frames ← parse_wire_frames side (i + 1) wfs
  ok (frame ∷ frames)

-- `parseWireEvent` of an event that is there.
unfoldable pub parse_wire_event : Part → WireEvent → Result StreamEvent
unfolding need
parse_wire_event what we = do
  seq ← need (missing_seq what) we.seq
  ok (record { seq = seq; at_ms = we.at_ms })

unfoldable pub parse_half_close : Option WireEvent → Result (Option StreamEvent)
unfolding parse_wire_event
parse_half_close none = ok none
parse_half_close (some we) = do event ← parse_wire_event half_close_event we; ok (some event)

unfoldable pub parse_end : Option WireEvent → Result StreamEvent
unfolding parse_wire_event
parse_end none = err missing_end
parse_end (some we) = parse_wire_event end_event we

-- The stream halves of both files.
unfoldable pub both_streams :
    Option WireStream → Option WireStream → Result (WireStream × WireStream)
both_streams none none = err shape_mismatch
both_streams (some a) (some b) = ok (a, b)
both_streams _ _ = err one_sided_stream

abbrev pub loaded_pair :
    StreamFile
    → StreamFile
    → Bytes
    → List StreamFrame
    → Option StreamEvent
    → List StreamFrame
    → StreamEvent
    → StreamPair
loaded_pair req resp typ sends half_close recvs end = record {
  req = record { typ = type_of typ; frames = sends; half_close = half_close };
  resp = record { frames = recvs; end = end };
  req_payload = req.payload;
  resp_payload = resp.payload;
  recorded_at = req.recorded_at;
  recorded_err = resp.recorded_err;
}

-- `LoadStream`, behind the reading of the files.
unfoldable pub parse_pair : StreamFile → StreamFile → Result StreamPair
unfolding both_streams need parse_wire_frames parse_half_close parse_end
parse_pair req resp = do
  (req_stream, resp_stream) ← both_streams req.stream resp.stream
  typ ← need missing_type req_stream.typ
  sends ← parse_wire_frames req_frame 0 req_stream.frames
  half_close ← parse_half_close req_stream.half_close
  recvs ← parse_wire_frames resp_frame 0 resp_stream.frames
  end ← parse_end resp_stream.end
  let pair = loaded_pair req resp typ sends half_close recvs end
  validate_stream_pair pair
  ok pair
