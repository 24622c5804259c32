-- ===== src/Transport/Demux.antt =====
-- `connDecoder` of go/adapters/grpctransport/demux.go: one direction of an HTTP/2 connection. What
-- the framer of golang.org/x/net reads is a list of frames with the end of the input behind it.
pub mod Order
mod Tests
use poly_xrr.Common.{
  ℕ, Bytes, Bool, true, false, ◌&&◌, ◌==◌, Option, none, some, List, [], ◌∷◌, if◌then◌else◌,
}
use poly_xrr.Errors.{Error, eof, Result, ok, err}
use poly_xrr.Redact.{Redactor}
use poly_xrr.Transport.Headers.{HeaderField, sanitize_headers}
use poly_xrr.Transport.Reassembly.{feed}

-- `wireEvent`: a message event that only carries the half-close has no message.
pub data WireEvent : Type 0 where
  wire_headers : ℕ → List HeaderField → Bool → WireEvent
  wire_message : ℕ → Option Bytes → Bool → WireEvent
  wire_reset : ℕ → WireEvent
  wire_go_away : WireEvent

-- A frame: its stream, and the flag END_STREAM.
pub data Frame : Type 0 where
  headers_frame : ℕ → List HeaderField → Bool → Frame
  data_frame : ℕ → Bytes → Bool → Frame
  reset_frame : ℕ → Frame
  go_away_frame other_frame : Frame

pub record PendingMsgs : Type 0 where
  pub stream_id : ℕ
  pub msgs : List Bytes
  pub end_stream : Bool

-- `streams` gives the buffer of a stream; one that has no decoder yet starts with an empty one.
pub record ConnDecoder : Type 0 where
  pub streams : ℕ → Bytes
  pub queued : PendingMsgs

abbrev pub new_conn_decoder : ConnDecoder
new_conn_decoder = record {
  streams = λ id. [];
  queued = record { stream_id = 0; msgs = []; end_stream = false };
}

abbrev pub set_stream : (ℕ → Bytes) → ℕ → Bytes → ℕ → Bytes
set_stream streams id buf = λ j. if j == id then buf else streams j

pub is_last : List Bytes → Bool
is_last [] = true
is_last (m ∷ ms) = false

-- `drainQueued`, by the queued messages.
pub drain_msgs : ConnDecoder → List Bytes → Option (ConnDecoder × WireEvent)
unfolding is_last
drain_msgs c [] = none
drain_msgs c (m ∷ ms) = some (
  record c {
    queued = record { stream_id = c.queued.stream_id; msgs = ms; end_stream = c.queued.end_stream };
  },
  wire_message c.queued.stream_id (some m) (is_last ms && c.queued.end_stream),
)

pub drain_queued : ConnDecoder → Option (ConnDecoder × WireEvent)
unfolding drain_msgs
drain_queued c = drain_msgs c c.queued.msgs

-- `feedData`, behind `feed`: the first message is an event, the others are queued.
pub fed :
    ConnDecoder → ℕ → Bool → Bytes × Result (List Bytes) → ConnDecoder × Result (Option WireEvent)
unfolding is_last
fed c id ended (buf, err e) = (record c { streams = set_stream c.streams id buf }, err e)
fed c id ended (buf, ok []) = (record c { streams = set_stream c.streams id buf }, ok none)
fed c id ended (buf, ok (m ∷ ms)) = (
  record {
    streams = set_stream c.streams id buf;
    queued = record { stream_id = id; msgs = ms; end_stream = ended };
  },
  ok (some (wire_message id (some m) (is_last ms && ended))),
)

pub feed_data : ConnDecoder → ℕ → Bytes → Bool → ConnDecoder × Result (Option WireEvent)
unfolding fed
feed_data c id bytes ended = fed c id ended (feed (c.streams id) bytes)

-- What the loop of `next` does with a frame: an event or an error to return, or none to go on.
pub frame_event :
    (Bytes → Bool) → Redactor → ConnDecoder → Frame → ConnDecoder × Result (Option WireEvent)
unfolding feed_data
frame_event secret_value r c (headers_frame id fields ended) =
    (c, ok (some (wire_headers id (sanitize_headers secret_value r fields) ended)))
frame_event secret_value r c (data_frame id bytes ended) =
    let (c', got) = feed_data c id bytes ended in
    (
      c',
      elim got [
        | err e ↦ err e
        | ok (some ev) ↦ ok (some ev)
        | ok none ↦ if ended then ok (some (wire_message id none true)) else ok none
      ],
    )
frame_event secret_value r c (reset_frame id) =
    (record c { streams = set_stream c.streams id [] }, ok (some (wire_reset id)))
frame_event secret_value r c go_away_frame = (c, ok (some wire_go_away))
frame_event secret_value r c other_frame = (c, ok none)

abbrev pub Read : Type 0
Read = ConnDecoder × List Frame × Result WireEvent

-- One round of the loop of `next`, by what is queued and what the frame gives; `later` is what the
-- rounds behind it return.
pub turn :
    Frame
    → List Frame
    → Option (ConnDecoder × WireEvent)
    → ConnDecoder × Result (Option WireEvent)
    → Read
    → Read
turn f fs (some (c, ev)) got later = (c, f ∷ fs, ok ev)
turn f fs none (c, err e) later = (c, fs, err e)
turn f fs none (c, ok (some ev)) later = (c, fs, ok ev)
turn f fs none (c, ok none) later = later

pub at_end : ConnDecoder → Option (ConnDecoder × WireEvent) → Read
at_end c none = (c, [], err eof)
at_end c (some (c', ev)) = (c', [], ok ev)

-- `next`: the decoder, the frames that are left, and the event or the error.
pub next : (Bytes → Bool) → Redactor → ConnDecoder → List Frame → Read
unfolding turn at_end
next secret_value r c [] = at_end c (drain_queued c)
next secret_value r c (f ∷ fs) =
    let got = frame_event secret_value r c f in
    let later = next secret_value r got.0 fs in turn f fs (drain_queued c) got later
