-- ===== src/Grpc/Record.antt =====
-- `recordStream` of go/adapters/grpc/stream.go. The live stream is the result that its method gives; a
-- method of the wrapper is one step, with the clock's reading as `since`.
pub mod Once
pub mod Teed
use poly_xrr.Common.{
  ℕ, ℤ, pos, Bytes, codes, Bool, true, false, not, ◌&&◌, ◌==◌, Option, none, some, List, [], ◌∷◌,
  if◌then◌else◌,
}
use poly_xrr.Errors.{Error, eof, Result, ok, err, ◌>>=◌}
use poly_xrr.Stream.Model.{Payload, int, StreamType}
use poly_xrr.Stream.Cassette.{StreamCassette}
use poly_xrr.Canonical.{Digest}
use poly_xrr.Recording
use poly_xrr.Recording.{StreamRecording, record_send, record_recv, record_half_close}
use poly_xrr.Session.{FileCassette, FileSession}
use poly_xrr.Session.Streams.{open_stream_record}
use poly_xrr.Grpc.{Grpc, StreamDesc, is_server, stream_open, call_of}

pub record RecordStream : Type 0 where
  pub typ : StreamType
  pub service : Bytes
  pub method : Bytes
  pub server_streams : Bool
  pub rec : Option (FileCassette × StreamRecording)
  pub finished : Bool

-- The wrapper with the session and the cassettes that it changes.
pub record Recorder (Store : Type 0) : Type 0 where
  pub session : FileSession
  pub store : Store
  pub stream : RecordStream

abbrev pub set_rec :
    {Store : Type 0} → Recorder Store → FileCassette → StreamRecording → Recorder Store
set_rec w c r = record w { stream = record w.stream { rec = some (c, r) } }

abbrev pub ok_code : ℕ
ok_code = 0

abbrev pub unknown_code : ℕ
unknown_code = 2

-- An error never has the code OK.
unfoldable pub terminal_code : ℕ → Option Bytes → ℕ
terminal_code code none = code
terminal_code code (some text) = if code == ok_code then unknown_code else code

abbrev pub status_payload : ℕ → Payload
status_payload code = (codes "status_code", int (pos code)) ∷ []

module _ {Store Msg : Type 0} (media : FileCassette → StreamCassette Store) (d : Digest)
    (g : Grpc Msg) where
  -- `newRecordStream`, with the error of the live stream's open, if any. A server stream is opened by
  -- its first message.
  pub opened :
      FileSession
      → StreamType
      → Bytes
      → Bytes
      → FileSession × Result (Option (FileCassette × StreamRecording))
  opened s typ service method =
      if is_server typ
      then (s, ok none)
      else (let (s', r) = open_stream_record d s (stream_open d s typ service method []) in
          (s', (do rec ← r; ok (some rec))))

  pub started :
      StreamDesc
      → Option Error
      → StreamType × Bytes × Bytes
      → FileSession × Result (Option (FileCassette × StreamRecording))
      → FileSession × Result RecordStream
  started desc live call (s, err e) = (s, err e)
  started desc (some e) call (s, ok rec) = (s, err e)
  started desc none (typ, service, method) (s, ok rec) = (
    s,
    ok (record {
      typ = typ;
      service = service;
      method = method;
      server_streams = desc.server_streams;
      rec = rec;
      finished = false;
    }),
  )

  pub new_record_stream :
      FileSession → StreamDesc → Bytes → Option Error → FileSession × Result RecordStream
  unfolding call_of opened started
  new_record_stream s desc full live = elim (call_of desc full) [
    | err e ↦ (s, err e)
    | ok (typ, service, method) ↦
        started desc live (typ, service, method) (opened s typ service method)
  ]

  pub now_open :
      Recorder Store
      → FileSession × Result (FileCassette × StreamRecording)
      → Recorder Store × Result (FileCassette × StreamRecording)
  now_open w (s, err e) = (record w { session = s }, err e)
  now_open w (s, ok (c, r)) = (set_rec (record w { session = s }) c r, ok (c, r))

  pub ensure_open :
      Recorder Store
      → Bytes
      → Option (FileCassette × StreamRecording)
      → Recorder Store × Result (FileCassette × StreamRecording)
  unfolding now_open
  ensure_open w message (some rec) = (w, ok rec)
  ensure_open w message none = now_open w (
      open_stream_record d w.session
        (stream_open d w.session w.stream.typ w.stream.service w.stream.method message))

  -- `finish`. The pair is saved once.
  pub saved :
      Recorder Store
      → FileCassette
      → StreamRecording × Store × Result (Unit {0})
      → Recorder Store × Result (Unit {0})
  saved w c (r, store, result) = (
    record w { store = store; stream = record w.stream { rec = some (c, r); finished = true } },
    result,
  )

  pub finish_rec :
      Recorder Store
      → ℤ
      → ℕ
      → Option Bytes
      → Option (FileCassette × StreamRecording)
      → Recorder Store × Result (Unit {0})
  unfolding saved terminal_code
  finish_rec w since code terminal none = (w, ok tt)
  finish_rec w since code terminal (some (c, r)) = saved w c (
      Recording.finish (media c) w.store r since (status_payload (terminal_code code terminal))
        terminal)

  pub finish_call : Recorder Store → ℤ → ℕ → Option Bytes → Recorder Store × Result (Unit {0})
  unfolding finish_rec
  finish_call w since code terminal =
      if w.stream.finished then (w, ok tt) else finish_rec w since code terminal w.stream.rec

  -- `SendMsg`, with the error of the live send, if any.
  pub after_live_send :
      Option Error
      → ℤ
      → Bytes
      → Recorder Store × Result (FileCassette × StreamRecording)
      → Recorder Store × Result (Unit {0})
  after_live_send live since message (w, err e) = (w, err e)
  after_live_send (some e) since message (w, ok rec) = (w, err e)
  after_live_send none since message (w, ok (c, r)) =
      (set_rec w c (record_send r since message), ok tt)

  pub send_marshaled :
      Recorder Store → ℤ → Option Error → Result Bytes → Recorder Store × Result (Unit {0})
  unfolding after_live_send ensure_open
  send_marshaled w since live (err e) = (w, err e)
  send_marshaled w since live (ok message) =
      after_live_send live since message (ensure_open w message w.stream.rec)

  pub send_msg : Recorder Store → ℤ → Msg → Option Error → Recorder Store × Result (Unit {0})
  unfolding send_marshaled
  send_msg w since m live = send_marshaled w since live (g.marshal m)

  -- A failure to save comes before the result of the call.
  pub unless_failed : Recorder Store × Result (Unit {0}) → Result Msg → Recorder Store × Result Msg
  unless_failed (w, err e) result = (w, err e)
  unless_failed (w, ok done) result = (w, result)

  pub recv_marshaled :
      Recorder Store
      → ℤ
      → Msg
      → FileCassette
      → StreamRecording
      → Result Bytes
      → Recorder Store × Result Msg
  unfolding unless_failed finish_call
  recv_marshaled w since m c r (err e) = (w, err e)
  recv_marshaled w since m c r (ok message) =
      let w' = set_rec w c (record_recv r since message) in
      if w.stream.server_streams
      then (w', ok m)
      else unless_failed (finish_call w' since ok_code none) (ok m)

  pub recv_ok :
      Recorder Store
      → ℤ
      → Msg
      → Option (FileCassette × StreamRecording)
      → Recorder Store × Result Msg
  unfolding recv_marshaled
  recv_ok w since m none = (w, ok m)
  recv_ok w since m (some (c, r)) = recv_marshaled w since m c r (g.marshal m)

  -- `RecvMsg`, with the result of the live receive.
  pub recv_msg : Recorder Store → ℤ → Result Msg → Recorder Store × Result Msg
  unfolding recv_ok unless_failed finish_call
  recv_msg w since (ok m) = recv_ok w since m w.stream.rec
  recv_msg w since (err eof) = unless_failed (finish_call w since ok_code none) (err eof)
  recv_msg w since (err e) =
      unless_failed (finish_call w since (g.status_code e) (some (g.error_text e))) (err e)

  pub close_rec : Recorder Store → ℤ → Option (FileCassette × StreamRecording) → Recorder Store
  close_rec w since none = w
  close_rec w since (some (c, r)) = set_rec w c (record_half_close r since)

  -- `CloseSend`, with the error of the live one, if any.
  pub close_send : Recorder Store → ℤ → Option Error → Recorder Store × Result (Unit {0})
  unfolding close_rec
  close_send w since (some e) = (w, err e)
  close_send w since none = (close_rec w since w.stream.rec, ok tt)
