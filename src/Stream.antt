-- ===== src/Stream.antt =====
-- The streamed-interaction model of go/stream.go and go/stream_scrub.go: its types, in Model, the
-- validation of a pair, in Validate with its proofs below it, the frame scrub hook, in Scrub, and
-- the interface of a cassette that stores pairs, in Cassette.
pub mod Model
pub mod Validate
pub mod Scrub
pub mod Cassette
