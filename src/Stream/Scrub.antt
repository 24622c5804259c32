-- ===== src/Stream/Scrub.antt =====
-- The frame scrub hook of go/stream_scrub.go, and `scrubFrame` of go/stream_session.go. A hook is
-- required to be deterministic and pure, so it is a function.
use poly_xrr.Common.{Bytes, Option, none, some}
use poly_xrr.Stream.Model.{StreamType}

pub data StreamDirection : Type 0 where
  stream_send stream_recv : StreamDirection

pub record StreamScrubInfo : Type 0 where
  pub adapter_id : Bytes
  pub typ : StreamType

abbrev pub StreamScrubFunc : Type 0
StreamScrubFunc = StreamDirection → StreamScrubInfo → Bytes → Bytes

-- A nil hook leaves the bytes as they are.
unfoldable pub scrub_frame :
    Option StreamScrubFunc → StreamDirection → StreamScrubInfo → Bytes → Bytes
scrub_frame none dir info message = message
scrub_frame (some scrub) dir info message = scrub dir info message
