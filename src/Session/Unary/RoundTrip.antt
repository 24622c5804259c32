-- ===== src/Session/Unary/RoundTrip.antt =====
-- A unary interaction, recorded and then replayed, go/session.go and go/cassette.go.
use poly_xrr.Common.{Bytes, Option, none, some, []}

-- The text that is saved for an error: none is "".
abbrev saved_text : Option Bytes → Bytes
saved_text none = []
saved_text (some t) = t
