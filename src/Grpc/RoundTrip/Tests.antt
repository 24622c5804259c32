-- ===== src/Grpc/RoundTrip/Tests.antt =====
-- A bidi call of two messages that ends well. A message is a Boolean.
use poly_xrr.Common.{
  pos, Bytes, codes, bytes_eq, Bool, true, false, none, some, List, [], ◌∷◌, ◌++◌, map, ◌≡◌, refl,
}
use poly_xrr.Common.Maps.{lookup, insert}
use poly_xrr.Errors.{ok}
use poly_xrr.Stream.Model.{StreamPair}
use poly_xrr.Stream.Model.StreamType.{bidi}
use poly_xrr.Stream.Cassette.{StreamCassette}
use poly_xrr.Stream.Cassette.Memory.{memory}
use poly_xrr.Canonical.{Digest, canonical_json, short_hash}
use poly_xrr.Recording.{StreamRecording, Call}
use poly_xrr.Session.{record_mode, FileCassette, FileSession}
use poly_xrr.Session.Streams.{
  stream_canonical, stream_fingerprint, check_stream_open, stream_open_fingerprint,
  opened_recording, open_stream_record,
}
use poly_xrr.Transport.Headers.{split_path}
use poly_xrr.Grpc.{Grpc, split_full_method, stream_open}
use poly_xrr.Grpc.Exchange.{Exchange, says, hears, closes, call_of_exchange}

abbrev wire : Bool → Bytes
wire true = codes "yes"
wire false = codes "no"

abbrev answers : Grpc Bool
answers = record {
  marshal = λ m. ok (wire m);
  unmarshal = λ b. ok (bytes_eq b (codes "yes"));
  status_code = λ e. 2;
  error_text = λ e. codes "failed";
  code_name = λ n. codes "Unknown";
}

abbrev digest : Digest
digest = record { encode = λ v. some (codes "{}"); sha256 = λ b. b }

abbrev media : FileCassette → StreamCassette (List (Bytes × StreamPair))
media c = memory

abbrev folder : FileCassette
folder = record { dir = codes "tapes"; redactor = none }

abbrev session : FileSession
session = record { mode = record_mode; cassette = some folder; stream_n = []; stream_scrub = none }

abbrev counted : FileSession
counted = record session { stream_n = (codes "grpc" ++ (0 ∷ codes "{}"), 1) ∷ [] }

abbrev handle : StreamRecording
unfolding stream_open
handle =
    opened_recording session (stream_open digest session bidi (codes "chat.Chat") (codes "Talk") [])
      (codes "7b7d") (some 0)

abbrev exchange : List (Exchange Bool)
exchange = says (pos 1) true ∷ hears (pos 2) false ∷ closes (pos 3) ∷ hears (pos 4) true ∷ []

abbrev calls : List Call
calls = map (call_of_exchange wire) exchange

opened :
    open_stream_record digest session
      (stream_open digest session bidi (codes "chat.Chat") (codes "Talk") [])
    ≡ (counted, ok (folder, handle))
unfolding open_stream_record check_stream_open stream_open_fingerprint stream_canonical
    stream_fingerprint canonical_json short_hash insert lookup bytes_eq stream_open
opened = refl

named : split_full_method (codes "/chat.Chat/Talk") ≡ ok (codes "chat.Chat", codes "Talk")
unfolding split_full_method split_path
named = refl
