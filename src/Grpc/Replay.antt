-- ===== src/Grpc/Replay.antt =====
-- `replayStream` of go/adapters/grpc/stream.go.
pub mod Terminal
pub mod Script
use poly_xrr.Common.{
  ℕ, zero, ℤ, pos, Bytes, codes, Bool, true, false, ◌==◌, Option, none, some, List, [], ◌∷◌, ◌++◌,
  drop, length, if◌then◌else◌,
}
use poly_xrr.Common.Maps.{lookup}
use poly_xrr.Common.Strings.{has_prefix}
use poly_xrr.Errors.{Error, eof, stream_mismatch, status_error, no_request, Result, ok, err, ◌>>=◌}
use poly_xrr.Stream.Model.{Payload, Scalar, int, StreamType}
use poly_xrr.Stream.Cassette.{StreamCassette}
use poly_xrr.Canonical.{Digest}
use poly_xrr.Replay
use poly_xrr.Replay.{StreamReplay}
use poly_xrr.Session.{FileCassette, FileSession}
use poly_xrr.Session.Streams.{open_stream_replay}
use poly_xrr.Transport.Headers.{code_of}
use poly_xrr.Grpc.{Grpc, StreamDesc, is_server, stream_open, call_of}

pub record ReplayStream : Type 0 where
  pub typ : StreamType
  pub service : Bytes
  pub method : Bytes
  pub rp : Option StreamReplay
  pub open_err : Option Error

-- The wrapper with its session.
pub record Replayer : Type 0 where
  pub session : FileSession
  pub stream : ReplayStream

abbrev pub set_rp : Replayer → StreamReplay → Replayer
set_rp w rp = record w { stream = record w.stream { rp = some rp } }

-- `statusCodeFrom` with the conversion of its result.
unfoldable pub status_code_from : Option Scalar → ℕ
unfolding code_of
status_code_from (some (int n)) = code_of n
status_code_from _ = 2

-- What grpc-go writes for a status, up to its description.
abbrev pub rendering : Bytes → Bytes
rendering name = codes "rpc error: code = " ++ (name ++ codes " desc = ")

-- `strings.CutPrefix`, or the whole text.
unfoldable pub cut_prefix : Bytes → Bytes → Bytes
cut_prefix s prefix = if has_prefix s prefix then drop (length prefix) s else s

module _ {Msg : Type 0} (g : Grpc Msg) where
  unfoldable pub recorded_status_err : Payload → Bytes → Error
  unfolding status_code_from cut_prefix
  recorded_status_err payload msg =
      let recorded = status_code_from (lookup (codes "status_code") payload) in
      let code = if recorded == 0 then 2 else recorded in
      status_error code (cut_prefix msg (rendering (g.code_name code)))

  unfoldable pub map_err : StreamReplay → Error → Error
  unfolding recorded_status_err
  map_err rp eof = eof
  map_err rp (stream_mismatch op n) = stream_mismatch op n
  map_err rp e = recorded_status_err rp.pair.resp_payload (g.error_text e)

  pub mapped {ℓ} : {A : Type ℓ} → StreamReplay → Result A → Result A
  unfolding map_err
  mapped rp (ok a) = ok a
  mapped rp (err e) = err (map_err rp e)

  module _ {Store : Type 0} (media : FileCassette → StreamCassette Store) (store : Store)
      (d : Digest) where
    -- `newReplayStream`.
    pub located :
        FileSession → StreamType → Bytes → Bytes → FileSession × Result (Option StreamReplay)
    located s typ service method =
        if is_server typ
        then (s, ok none)
        else (let (s', r) =
              open_stream_replay media store d s (stream_open d s typ service method []) in
            (s', (do rp ← r; ok (some rp))))

    pub start :
        StreamType × Bytes × Bytes
        → FileSession × Result (Option StreamReplay)
        → FileSession × Result ReplayStream
    start call (s, err e) = (s, err e)
    start (typ, service, method) (s, ok rp) =
        (s, ok (record { typ = typ; service = service; method = method; rp = rp; open_err = none }))

    pub new_replay_stream : FileSession → StreamDesc → Bytes → FileSession × Result ReplayStream
    unfolding call_of located start
    new_replay_stream s desc full = elim (call_of desc full) [
      | err e ↦ (s, err e)
      | ok (typ, service, method) ↦ start (typ, service, method) (located s typ service method)
    ]

    pub now_located : Replayer → FileSession × Result StreamReplay → Replayer × Result StreamReplay
    now_located w (s, err e) =
        (record { session = s; stream = record w.stream { open_err = some e } }, err e)
    now_located w (s, ok rp) = (set_rp (record w { session = s }) rp, ok rp)

    -- `ensureOpen`: a failed open is never tried again.
    pub ensure_open :
        Replayer → Bytes → Option Error → Option StreamReplay → Replayer × Result StreamReplay
    unfolding now_located
    ensure_open w message (some e) rp = (w, err e)
    ensure_open w message none (some rp) = (w, ok rp)
    ensure_open w message none none = now_located w (
        open_stream_replay media store d w.session
          (stream_open d w.session w.stream.typ w.stream.service w.stream.method message))

    -- `replay`.
    pub replay_of : Option Error → Option StreamReplay → Result StreamReplay
    replay_of (some e) rp = err e
    replay_of none none = err no_request
    replay_of none (some rp) = ok rp

    pub after_send : Replayer → StreamReplay × Result (Unit {0}) → Replayer × Result (Unit {0})
    unfolding mapped
    after_send w (rp, r) = (set_rp w rp, mapped rp r)

    pub send_open : Bytes → Replayer × Result StreamReplay → Replayer × Result (Unit {0})
    unfolding after_send
    send_open message (w, err e) = (w, err e)
    send_open message (w, ok rp) = after_send w (Replay.send rp message)

    pub send_marshaled : Replayer → Result Bytes → Replayer × Result (Unit {0})
    unfolding send_open ensure_open
    send_marshaled w (err e) = (w, err e)
    send_marshaled w (ok message) =
        send_open message (ensure_open w message w.stream.open_err w.stream.rp)

    -- `SendMsg`, `RecvMsg` and `CloseSend`.
    pub send_msg : Replayer → Msg → Replayer × Result (Unit {0})
    unfolding send_marshaled
    send_msg w m = send_marshaled w (g.marshal m)

    pub after_recv : Replayer → StreamReplay × Result Bytes → Replayer × Result Msg
    unfolding mapped
    after_recv w (rp, r) = (set_rp w rp, (do message ← mapped rp r; g.unmarshal message))

    pub recv_open : Replayer → Result StreamReplay → Replayer × Result Msg
    unfolding after_recv
    recv_open w (err e) = (w, err e)
    recv_open w (ok rp) = after_recv w (Replay.recv rp)

    pub recv_msg : Replayer → Replayer × Result Msg
    unfolding recv_open replay_of
    recv_msg w = recv_open w (replay_of w.stream.open_err w.stream.rp)

    pub close_open : Replayer → Result StreamReplay → Replayer × Result (Unit {0})
    unfolding after_send
    close_open w (err e) = (w, err e)
    close_open w (ok rp) = after_send w (Replay.half_close rp)

    pub close_send : Replayer → Replayer × Result (Unit {0})
    unfolding close_open replay_of
    close_send w = close_open w (replay_of w.stream.open_err w.stream.rp)
