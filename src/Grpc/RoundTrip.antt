-- ===== src/Grpc/RoundTrip.antt =====
-- A bidi call through the interceptor's streams, go/adapters/grpc/stream.go: recorded, then replayed.
mod Tests
use poly_xrr.Common.{ℕ, ℤ, Bytes, true, Option, none, some, List, [], map, ◌≡◌, arith}
use poly_xrr.Errors.{Error, Result, ok, err}
use poly_xrr.Stream.Model.StreamType.{bidi}
use poly_xrr.Stream.Scrub.{StreamScrubInfo}
use poly_xrr.Stream.Cassette.{StreamCassette}
use poly_xrr.Canonical.{Digest}
use poly_xrr.Recording
use poly_xrr.Recording.{StreamRecording, Call}
use poly_xrr.Replay.{StreamReplay}
use poly_xrr.Session.{FileCassette, FileSession, replay_mode}
use poly_xrr.Session.RoundTrip.{in_mode, info_of, terminal_of}
use poly_xrr.Grpc.{Grpc, stream_open}
use poly_xrr.Grpc.Exchange.{Exchange, Answer, bidi_desc, call_of_exchange, answer_of}
use poly_xrr.Grpc.Interceptor.{recording, replaying, intercept}
use poly_xrr.Grpc.Record
use poly_xrr.Grpc.Record.{RecordStream, Recorder, new_record_stream}
use poly_xrr.Grpc.Record.Once.{live_calls}
use poly_xrr.Grpc.Record.Teed
use poly_xrr.Grpc.Record.Teed.{as_live, ending}
use poly_xrr.Grpc.Replay
use poly_xrr.Grpc.Replay.{ReplayStream, Replayer, map_err, new_replay_stream}
use poly_xrr.Grpc.Replay.Script
use poly_xrr.Grpc.Replay.Script.{repeat_all}

-- What the client of the recorded call and the one of the replayed call see.
pub record SeenTwice {Store Msg : Type 0} (media : FileCassette → StreamCassette Store) (d : Digest)
    (g : Grpc Msg) (s s' : FileSession) (store store' : Store) (full : Bytes)
    (xs : List (Exchange Msg)) (since : ℤ) (e : Error) : Type 0 where
  pub stream : RecordStream
  pub starts : intercept g media store d s bidi_desc full none ≡ (s', ok (recording stream))
  pub done : Recorder Store
  pub lasts :
      Record.recv_msg media d g
        (live_calls media d g
          (record { session = s'; store = store; stream = stream })
          (map as_live xs))
        since
        (err e)
      ≡ (done, err e)
  pub saved : done.store ≡ store'
  pub replayed : ReplayStream
  -- Replay does not open a live stream, whatever that would give.
  pub restarts :
      (failed : Option Error)
      → intercept g media store' d (in_mode replay_mode s) bidi_desc full failed
        ≡ (in_mode replay_mode s', ok (replaying replayed))
  pub rest : Replayer
  pub replays :
      repeat_all g media store' d
        (record { session = in_mode replay_mode s'; stream = replayed })
        xs
      ≡ (rest, map answer_of xs)
  pub final : StreamReplay
  pub reached : rest.stream.rp ≡ some final
  pub ends :
      (Replay.recv_msg g media store' d rest).1 ≡ err (map_err g final (terminal_of (ending g e).1))

module _ {Store Msg : Type 0} (media : FileCassette → StreamCassette Store) (d : Digest)
    (g : Grpc Msg) (wire : Msg → Bytes) (s s' : FileSession) (store store' : Store)
    (full service method : Bytes) (c : FileCassette) (r r' : StreamRecording)
    (xs : List (Exchange Msg)) (since : ℤ) (e : Error) where
  abbrev calls : List Call
  calls = map (call_of_exchange wire) xs

  abbrev info : StreamScrubInfo
  info = info_of (stream_open d s bidi service method [])
