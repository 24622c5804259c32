-- ===== src/Grpc/Interceptor.antt =====
-- `StreamClientInterceptor` of go/adapters/grpc/stream.go. The live stream is the error of its open, if
-- any.
use poly_xrr.Common.{Bytes, Option, none, some, ◌≡◌, ap, ◌∙◌}
use poly_xrr.Errors.{Error, unknown_mode, Result, ok, err, ◌>>=◌}
use poly_xrr.Stream.Cassette.{StreamCassette}
use poly_xrr.Canonical.{Digest}
use poly_xrr.Session.{
  Mode, record_mode, replay_mode, passthrough_mode, other_mode, FileCassette, FileSession,
}
use poly_xrr.Session.RoundTrip.{in_mode}
use poly_xrr.Grpc.{Grpc, StreamDesc}
use poly_xrr.Grpc.Record.{RecordStream, new_record_stream}
use poly_xrr.Grpc.Replay.{ReplayStream, new_replay_stream}

-- The stream that the caller gets.
pub data Intercepted : Type 0 where
  live : Intercepted
  recording : RecordStream → Intercepted
  replaying : ReplayStream → Intercepted

abbrev opened_live : Option Error → Result Intercepted
opened_live none = ok live
opened_live (some e) = err e

module _ {Store Msg : Type 0} (g : Grpc Msg) (media : FileCassette → StreamCassette Store)
    (store : Store) (d : Digest) where
  by_mode :
      Mode → FileSession → StreamDesc → Bytes → Option Error → FileSession × Result Intercepted
  by_mode passthrough_mode s desc full failed = (s, opened_live failed)
  by_mode record_mode s desc full failed =
      let (s', r) = new_record_stream media d g s desc full failed in
      (s', (do stream ← r; ok (recording stream)))
  by_mode replay_mode s desc full failed =
      let (s', r) = new_replay_stream g media store d s desc full in
      (s', (do stream ← r; ok (replaying stream)))
  by_mode (other_mode name) s desc full failed = (s, err (unknown_mode name))

  pub intercept : FileSession → StreamDesc → Bytes → Option Error → FileSession × Result Intercepted
  unfolding by_mode
  intercept s desc full failed = by_mode s.mode s desc full failed

  pub intercept-record :
      (s s' : FileSession) (desc : StreamDesc) (full : Bytes) (failed : Option Error)
      (stream : RecordStream)
      → s.mode ≡ record_mode
      → new_record_stream media d g s desc full failed ≡ (s', ok stream)
      → intercept s desc full failed ≡ (s', ok (recording stream))
  unfolding intercept
  intercept-record s s' desc full failed stream mode started =
      ap (λ m. by_mode m s desc full failed) mode
      ∙ ap {B = FileSession × Result Intercepted}
          (λ (x : FileSession × Result RecordStream).
            (x.0, (do stream ← x.1; ok (recording stream))))
          started

  pub intercept-replay :
      (s s' : FileSession) (desc : StreamDesc) (full : Bytes) (failed : Option Error)
      (stream : ReplayStream)
      → new_replay_stream g media store d (in_mode replay_mode s) desc full ≡ (s', ok stream)
      → intercept (in_mode replay_mode s) desc full failed ≡ (s', ok (replaying stream))
  unfolding intercept
  intercept-replay s s' desc full failed stream started =
      ap {B = FileSession × Result Intercepted}
        (λ (x : FileSession × Result ReplayStream). (x.0, (do stream ← x.1; ok (replaying stream))))
        started
