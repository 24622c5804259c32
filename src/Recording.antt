-- ===== src/Recording.antt =====
-- The record path of go/stream_session.go: `StreamRecording` and its methods. A method takes the
-- reading of the monotonic clock, in milliseconds since the stream was opened, as `since`. The
-- mutex makes each method one step. The counter `seq` is a Go int: the model lets it grow without
-- bound, where the code would wrap after 2^63 events of one stream.
pub mod Log
pub mod Closing
pub mod Finished
pub mod Holds
pub mod Tests
use poly_xrr.Common.{
  ℕ, ◌+◌, ℤ, pos, ltb_ℤ, Bytes, Bool, true, false, ◌||◌, Option, none, some, List, [], ◌∷◌, ◌++◌,
  if◌then◌else◌,
}
use poly_xrr.Errors.{Error, already_finished, save_failed, Result, ok, err}
use poly_xrr.Stream.Model.{Payload, StreamType, StreamFrame, StreamEvent, StreamPair}
use poly_xrr.Stream.Scrub.{
  StreamScrubFunc, StreamScrubInfo, StreamDirection, stream_send, stream_recv, scrub_frame,
}
use poly_xrr.Stream.Cassette.{StreamCassette}

pub record StreamRecording : Type 0 where
  pub adapter_id : Bytes
  pub fingerprint : Bytes
  pub typ : StreamType
  pub req_payload : Payload
  pub scrub : Option StreamScrubFunc
  pub seq : ℕ
  pub sends : List StreamFrame
  pub recvs : List StreamFrame
  pub half_close : Option StreamEvent
  pub finished : Bool

pub elapsed_ms : ℤ → ℤ
elapsed_ms since = if ltb_ℤ since (pos 0) then pos 0 else since

abbrev pub scrub_info : StreamRecording → StreamScrubInfo
scrub_info r = record { adapter_id = r.adapter_id; typ = r.typ }

-- The frame that `RecordSend` and `RecordRecv` append.
abbrev pub next_frame : StreamRecording → StreamDirection → ℤ → Bytes → StreamFrame
next_frame r dir since message = record {
  seq = pos r.seq;
  message = scrub_frame r.scrub dir (scrub_info r) message;
  text = false;
  at_ms = some (elapsed_ms since);
}

pub record_send : StreamRecording → ℤ → Bytes → StreamRecording
record_send r since message = if r.finished then r else record r {
  seq = r.seq + 1;
  sends = r.sends ++ next_frame r stream_send since message ∷ [];
}

pub record_recv : StreamRecording → ℤ → Bytes → StreamRecording
record_recv r since message = if r.finished then r else record r {
  seq = r.seq + 1;
  recvs = r.recvs ++ next_frame r stream_recv since message ∷ [];
}

pub is_set : Option StreamEvent → Bool
is_set none = false
is_set (some e) = true

pub record_half_close : StreamRecording → ℤ → StreamRecording
unfolding is_set
record_half_close r since = if r.finished || is_set r.half_close then r else record r {
  seq = r.seq + 1;
  half_close = some (record { seq = pos r.seq; at_ms = some (elapsed_ms since) });
}

-- The text of a terminal error, or "" for an OK terminal.
unfoldable pub err_text : Option Bytes → Bytes
err_text none = []
err_text (some e) = e

-- The pair that `Finish` saves.
unfoldable pub finished_pair : StreamRecording → ℤ → Payload → Option Bytes → StreamPair
unfolding err_text
finished_pair r since resp_payload terminal_err = record {
  req = record { typ = r.typ; frames = r.sends; half_close = r.half_close };
  resp = record {
    frames = r.recvs;
    end = record { seq = pos r.seq; at_ms = some (elapsed_ms since) };
  };
  req_payload = r.req_payload;
  resp_payload = resp_payload;
  recorded_at = [];
  recorded_err = err_text terminal_err;
}

abbrev wrap_save : Result (Unit {0}) → Result (Unit {0})
wrap_save (ok u) = ok u
wrap_save (err e) = err (save_failed e)

-- A nil `respPayload` becomes an empty map, which is what an absent payload is here.
pub finish :
    {Store : Type 0}
    → StreamCassette Store
    → Store
    → StreamRecording
    → ℤ
    → Payload
    → Option Bytes
    → StreamRecording × Store × Result (Unit {0})
unfolding finished_pair
finish cassette store r since resp_payload terminal_err =
    if r.finished
    then (r, store, err already_finished)
    else (let pair = finished_pair r since resp_payload terminal_err in
        let (store', saved) = cassette.save_stream store r.adapter_id r.fingerprint pair in
        (record r { seq = r.seq + 1; finished = true }, store', wrap_save saved))

-- One call on the handle, with the clock's reading.
pub data Call : Type 0 where
  send recv : ℤ → Bytes → Call
  close : ℤ → Call

unfoldable pub record_call : StreamRecording → Call → StreamRecording
record_call r (send since m) = record_send r since m
record_call r (recv since m) = record_recv r since m
record_call r (close since) = record_half_close r since

unfoldable pub record_calls : StreamRecording → List Call → StreamRecording
record_calls r [] = r
record_calls r (c ∷ cs) = record_calls (record_call r c) cs
