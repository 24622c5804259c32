-- ===== src/Session/Counter/Opens.antt =====
-- `OpenStreamRecord` and `OpenStreamReplay` of go/stream_session.go in a session that opens many
-- streams: the ordinal that each open gets.
use poly_xrr.Common.{pos, ℕ, Bytes, Option, some, List, [], ◌∷◌}
use poly_xrr.Errors.{Result, ok, ◌>>=◌}
use poly_xrr.Stream.Scrub.{StreamScrubFunc}
use poly_xrr.Stream.Cassette.{StreamCassette}
use poly_xrr.Canonical.{Digest}
use poly_xrr.Recording.{StreamRecording}
use poly_xrr.Replay.{StreamReplay}
use poly_xrr.Session.{Mode, record_mode, replay_mode, FileCassette, FileSession}
use poly_xrr.Session.Streams.{
  opened_recording, opened_replay, stream_fingerprint, of_type, StreamOpen, open_stream_record,
  open_stream_replay,
}

-- The session behind a run of opens, in the mode that each kind of open wants.
pub record_all : Digest → FileSession → List StreamOpen → FileSession
record_all d s [] = s
record_all d s (o ∷ os) = record_all d (open_stream_record d s o).0 os

pub replay_all :
    {Store : Type 0}
    → (FileCassette → StreamCassette Store)
    → Store
    → Digest
    → FileSession
    → List StreamOpen
    → FileSession
replay_all media store d s [] = s
replay_all media store d s (o ∷ os) =
    replay_all media store d (open_stream_replay media store d s o).0 os

module _ {Store : Type 0} (media : FileCassette → StreamCassette Store) (store : Store) (d : Digest)
    (c : FileCassette) (scrub : Option StreamScrubFunc) where
  abbrev session : Mode → List (Bytes × ℕ) → FileSession
  session mode n = record { mode = mode; cassette = some c; stream_n = n; stream_scrub = scrub }

  -- What the two opens answer to an open that is counted as number `m`.
  abbrev pub recorded_as : StreamOpen → ℕ → Result (FileCassette × StreamRecording)
  recorded_as o m = do
    fp ← stream_fingerprint d o (pos m)
    ok (c, opened_recording (session record_mode []) o fp (some m))

  abbrev pub replayed_as : StreamOpen → ℕ → Result StreamReplay
  replayed_as o m = do
    fp ← stream_fingerprint d o (pos m)
    loaded ← (media c).load_stream store o.adapter_id fp
    pair ← of_type o.typ loaded
    ok (opened_replay (session replay_mode []) o fp pair)
