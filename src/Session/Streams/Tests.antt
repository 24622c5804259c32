-- ===== src/Session/Streams/Tests.antt =====
-- Concrete sessions.
use poly_xrr.Common.{pos, Bytes, codes, true, none, some, List, [], ◌∷◌, ◌++◌, ◌≡◌, refl, bytes_eq}
use poly_xrr.Common.Maps.{lookup, insert}
use poly_xrr.Errors.{ok}
use poly_xrr.Stream.Model.{StreamPair, text}
use poly_xrr.Stream.Model.StreamType.{bidi}
use poly_xrr.Stream.Cassette.{StreamCassette}
use poly_xrr.Stream.Cassette.Memory.{memory}
use poly_xrr.Canonical.{Digest, canonical_json, short_hash}
use poly_xrr.Recording.{StreamRecording, Call, send, recv, close}
use poly_xrr.Session.{record_mode, FileCassette, FileSession}
use poly_xrr.Session.Streams.{
  StreamOpen, stream_canonical, stream_fingerprint, check_stream_open, stream_open_fingerprint,
  opened_recording, open_stream_record,
}
use poly_xrr.Session.Counter.{count, key_of, keys, key_from, add_key}

-- An encoder that knows one text, and a hash that is the identity.
abbrev digest : Digest
digest = record { encode = λ v. some (codes "{}"); sha256 = λ b. b }

abbrev folder : FileCassette
folder = record { dir = codes "cassettes"; redactor = none }

abbrev session : FileSession
session = record { mode = record_mode; cassette = some folder; stream_n = []; stream_scrub = none }

abbrev opening : StreamOpen
opening = record {
  adapter_id = codes "grpc";
  typ = bidi;
  identity = (codes "method", text (codes "Chat")) ∷ [];
  counter = true;
  payload = [];
}

abbrev calls : List Call
calls =
    send (pos 1) (codes "hi")
    ∷ recv (pos 2) (codes "ho")
    ∷ close (pos 3)
    ∷ recv (pos 4) (codes "!")
    ∷ []

abbrev first_key : Bytes
first_key = codes "grpc" ++ (0 ∷ codes "{}")

-- The session after one counted open.
abbrev counted : FileSession
counted = record session { stream_n = (first_key, 1) ∷ [] }

abbrev handle : StreamRecording
handle = opened_recording session opening (codes "7b7d") (some 0)

opened : open_stream_record digest session opening ≡ (counted, ok (folder, handle))
unfolding open_stream_record check_stream_open stream_open_fingerprint stream_canonical
    stream_fingerprint canonical_json short_hash insert lookup bytes_eq
opened = refl

abbrev media : FileCassette → StreamCassette (List (Bytes × StreamPair))
media c = memory

abbrev twice : List StreamOpen
twice = opening ∷ opening ∷ []

twice-count : count first_key (keys digest [] twice) ≡ 2
unfolding count keys add_key key_of key_from stream_canonical canonical_json insert lookup bytes_eq
twice-count = refl
