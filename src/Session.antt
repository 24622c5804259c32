-- ===== src/Session.antt =====
-- `Mode` and `FileSession` of go/xrr.go and go/session.go. The session's mutex makes each method one
-- step. `Close` does nothing.
pub mod Files
pub mod WireFormat
pub mod StreamFiles
pub mod Unary
pub mod Env
pub mod Streams
pub mod Counter
pub mod RoundTrip
use poly_xrr.Common.{ℕ, Bytes, codes, Option, none, some, List, []}
use poly_xrr.Redact.{Redactor}
use poly_xrr.Stream.Scrub.{StreamScrubFunc, StreamScrubInfo, StreamDirection, scrub_frame}

-- A `Mode` is a string: three known values, and any other text.
pub data Mode : Type 0 where
  record_mode replay_mode passthrough_mode : Mode
  other_mode : Bytes → Mode

-- A nil redactor is resolved from the environment at each write.
pub record FileCassette : Type 0 where
  pub dir : Bytes
  pub redactor : Option Redactor

pub record FileSession : Type 0 where
  pub mode : Mode
  pub cassette : Option FileCassette
  pub stream_n : List (Bytes × ℕ)
  pub stream_scrub : Option StreamScrubFunc

pub new_session : Mode → Option FileCassette → FileSession
new_session mode cassette = record {
  mode = mode;
  cassette = cassette;
  stream_n = [];
  stream_scrub = none;
}

pub new_session_with_stream_scrub :
    Mode → Option FileCassette → Option StreamScrubFunc → FileSession
new_session_with_stream_scrub mode cassette scrub = record {
  mode = mode;
  cassette = cassette;
  stream_n = [];
  stream_scrub = scrub;
}

scrub_stream_frame : FileSession → StreamDirection → StreamScrubInfo → Bytes → Bytes
scrub_stream_frame s dir info message = scrub_frame s.stream_scrub dir info message
