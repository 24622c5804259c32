-- ===== src/Transport/Tracker.antt =====
-- `streamTracker` of go/adapters/grpctransport/record.go: one recording for each RPC of a connection.
-- Its mutex makes each event one step. What grpc-go writes for a status is `status_error`, and the
-- clock gives the reading at each call of a recording.
pub mod Log
pub mod Streams
pub mod Inferred
pub mod Calls
pub mod Saved
mod Tests
use poly_xrr.Common.{
  ℕ, suc, ◌+◌, ℤ, pos, Bytes, codes, Bool, true, false, ◌||◌, ◌==◌, Option, none, some, List, [],
  ◌∷◌, ◌++◌, length, if◌then◌else◌,
}
use poly_xrr.Common.Strings.{is_empty}
use poly_xrr.Errors.{Error, compressed_stream, Result, ok, err}
use poly_xrr.Stream.Model.{Payload, int}
use poly_xrr.Stream.Cassette.{StreamCassette}
use poly_xrr.Canonical.{Digest}
use poly_xrr.Recording.{StreamRecording, Call, send, recv, close, record_calls, finish}
use poly_xrr.Session.{FileCassette, FileSession}
use poly_xrr.Session.Streams.{open_stream_record}
use poly_xrr.Transport.Headers.{HeaderField, header_value, split_path, grpc_status, is_compressed}
use poly_xrr.Transport.Demux.{WireEvent, wire_headers, wire_message, wire_reset, wire_go_away}
use poly_xrr.Transport.Shape.{
  RecEvent, ev_send, ev_recv, ev_half_close, RecStream, new_rec_stream, note_half_close,
  infer_stream_type, first_or_nil, stream_open_for,
}

pub data Direction : Type 0 where
  client_to_server server_to_client : Direction

-- What a request's header block does to its stream.
pub named :
    RecStream → List HeaderField → Bool → Option (Bytes × Bytes) → RecStream × Result (Unit {0})
unfolding note_half_close
named s headers ended none = (s, ok tt)
named s headers ended (some (service, method)) =
    let s' = record s { service = service; method = method } in
    if is_compressed headers
    then (
      record s' { compressed = true },
      err (compressed_stream service method (header_value headers (codes "grpc-encoding"))),
    )
    else (if ended then note_half_close s' else s', ok tt)

pub client_headers : RecStream → List HeaderField → Bool → RecStream × Result (Unit {0})
unfolding named
client_headers s headers ended =
    named s headers ended (split_path (header_value headers (codes ":path")))

pub sent : RecStream → Option Bytes → RecStream
sent s none = s
sent s (some m) = record s {
  sends = s.sends ++ m ∷ [];
  sent_count = s.sent_count + 1;
  events = s.events ++ ev_send m ∷ [];
}

pub client_message : RecStream → Option Bytes → Bool → RecStream
unfolding sent note_half_close
client_message s message ended =
    let s' = sent s message in
    if is_empty s.service then s else if ended then note_half_close s' else s'

-- The status that a response's header block carries, if it ends the call.
pub server_headers : RecStream → List HeaderField → Result (Option (ℕ × Bytes))
server_headers s headers =
    if is_empty s.service
    then ok none
    else if is_compressed headers
    then err (compressed_stream s.service s.method (header_value headers (codes "grpc-encoding")))
    else ok (grpc_status headers)

pub received : RecStream → Option Bytes → RecStream
received s none = s
received s (some m) = record s {
  recv_count = s.recv_count + 1;
  events = s.events ++ ev_recv m ∷ [];
}

pub server_message : RecStream → Option Bytes → RecStream
unfolding received
server_message s message = if is_empty s.service then s else received s message

-- The loop of `finish` over the log, as calls on the recording.
pub calls_of : (ℕ → ℤ) → ℕ → List RecEvent → List Call
calls_of clock i [] = []
calls_of clock i (ev_send m ∷ evs) = send (clock i) m ∷ calls_of clock (i + 1) evs
calls_of clock i (ev_recv m ∷ evs) = recv (clock i) m ∷ calls_of clock (i + 1) evs
calls_of clock i (ev_half_close ∷ evs) = close (clock i) ∷ calls_of clock (i + 1) evs

pub record Tracker (Store : Type 0) : Type 0 where
  pub session : FileSession
  pub store : Store
  pub streams : ℕ → Option RecStream

abbrev pub new_stream_tracker : {Store : Type 0} → FileSession → Store → Tracker Store
new_stream_tracker s store = record { session = s; store = store; streams = λ id. none }

-- `get`: an event on an unknown stream makes an entry for it.
unfoldable pub or_new : Option RecStream → RecStream
or_new none = new_rec_stream
or_new (some s) = s

abbrev pub set_stream : {Store : Type 0} → Tracker Store → ℕ → Option RecStream → Tracker Store
set_stream t id s = record t { streams = λ j. if j == id then s else t.streams j }

abbrev pub canceled : ℕ
canceled = 1

abbrev pub stream_of : WireEvent → ℕ
stream_of (wire_headers id headers end) = id
stream_of (wire_message id m end) = id
stream_of (wire_reset id) = id
stream_of wire_go_away = 0

abbrev pub abandon_all : {Store : Type 0} → Tracker Store → Tracker Store
abandon_all t = record t { streams = λ id. none }

pub terminal_of : (ℕ → Bytes → Bytes) → ℕ → Bytes → Option Bytes
terminal_of status_error code msg = if code == 0 then none else some (status_error code msg)

abbrev pub status_payload : ℕ → Payload
status_payload code = (codes "status_code", int (pos code)) ∷ []

module _ {Store : Type 0} (media : FileCassette → StreamCassette Store) (d : Digest) (clock : ℕ → ℤ)
    (status_error : ℕ → Bytes → Bytes) where
  -- `finish` behind the open, whose failure drops the stream.
  pub persisted :
      Tracker Store
      → List RecEvent
      → ℕ
      → Bytes
      → Result (FileCassette × StreamRecording)
      → Tracker Store
  unfolding terminal_of calls_of
  persisted t events code msg (err e) = t
  persisted t events code msg (ok (c, r)) = record t {
    store =
        (finish (media c) t.store (record_calls r (calls_of clock 0 events)) (clock (length events))
          (status_payload code) (terminal_of status_error code msg)).1;
  }

  pub persist : Tracker Store → RecStream → ℕ → Bytes → Tracker Store
  unfolding persisted infer_stream_type first_or_nil
  persist t s code msg =
      let open_call =
        stream_open_for d t.session (infer_stream_type s) s.service s.method
          (first_or_nil s.sends) in
      let (session, opened) = open_stream_record d t.session open_call in
      persisted (record t { session = session }) s.events code msg opened

  -- `finish`.
  pub finish_stream : Tracker Store → ℕ → RecStream → ℕ → Bytes → Tracker Store
  unfolding persist
  finish_stream t id s code msg =
      let t' =
        if s.finished || (is_empty s.service || s.compressed) then t else persist t s code msg in
      set_stream t' id none

  -- What the trailers of a response do.
  pub ended :
      Tracker Store
      → ℕ
      → RecStream
      → Result (Option (ℕ × Bytes))
      → Tracker Store × Result (Unit {0})
  unfolding finish_stream
  ended t id s (err e) = (set_stream t id (some s), err e)
  ended t id s (ok none) = (set_stream t id (some s), ok tt)
  ended t id s (ok (some (code, msg))) = (finish_stream t id s code msg, ok tt)

  -- `handle`, of an event on the stream `id` whose state is `s`.
  pub handle_event :
      Tracker Store → Direction → ℕ → RecStream → WireEvent → Tracker Store × Result (Unit {0})
  unfolding finish_stream client_headers client_message ended server_headers server_message
  handle_event t dir id s wire_go_away = (t, ok tt)
  handle_event t dir id s (wire_reset _) =
      (finish_stream t id s canceled (codes "stream reset"), ok tt)
  handle_event t client_to_server id s (wire_headers _ headers end) =
      let (s', r) = client_headers s headers end in (set_stream t id (some s'), r)
  handle_event t client_to_server id s (wire_message _ m end) =
      (set_stream t id (some (client_message s m end)), ok tt)
  handle_event t server_to_client id s (wire_headers _ headers end) =
      ended t id s (server_headers s headers)
  handle_event t server_to_client id s (wire_message _ m end) =
      (set_stream t id (some (server_message s m)), ok tt)

  -- `handle`. GOAWAY has no stream.
  pub handle : Tracker Store → Direction → WireEvent → Tracker Store × Result (Unit {0})
  unfolding handle_event or_new
  handle t dir ev =
      if stream_of ev == 0
      then (t, ok tt)
      else handle_event t dir (stream_of ev) (or_new (t.streams (stream_of ev))) ev

  -- Events of both directions, in the order in which they take the mutex.
  pub handle_all : Tracker Store → List (Direction × WireEvent) → Tracker Store
  unfolding handle
  handle_all t [] = t
  handle_all t ((dir, ev) ∷ evs) = handle_all (handle t dir ev).0 evs
