-- ===== src/Transport/Tracker/Tests.antt =====
-- A connection with two calls, one of them between the events of the other.
use poly_xrr.Common.{
  ℕ, ◌+◌, ℤ, pos, arith, Bytes, codes, bytes_eq, true, false, none, some, List, [], ◌∷◌, ◌≡◌, refl,
}
use poly_xrr.Common.Maps.{lookup, insert}
use poly_xrr.Common.Strings.{is_empty}
use poly_xrr.Errors.{ok}
use poly_xrr.Stream.Model.{StreamPair}
use poly_xrr.Stream.Cassette.{StreamCassette}
use poly_xrr.Stream.Cassette.Memory.{memory}
use poly_xrr.Canonical.{Digest, canonical_json, short_hash}
use poly_xrr.Recording.{StreamRecording}
use poly_xrr.Session.{record_mode, FileCassette, FileSession}
use poly_xrr.Session.Streams.{
  stream_canonical, stream_fingerprint, check_stream_open, opened_recording,
  stream_open_fingerprint, open_stream_record,
}
use poly_xrr.Transport.Headers.{HeaderField}
use poly_xrr.Transport.Demux.{WireEvent, wire_headers, wire_message}
use poly_xrr.Transport.Shape.{
  RecStream, ev_send, ev_half_close, ev_recv, infer_stream_type, first_or_nil, stream_open_for,
}
use poly_xrr.Transport.Tracker.{
  Direction, client_to_server, server_to_client, new_stream_tracker, handle_all, finish_stream,
}
use poly_xrr.Transport.Tracker.Streams.{of_stream, run_stream, streams-handle_all}
use poly_xrr.Transport.Tracker.Saved.{Saved, open_of, store-finish_stream}

abbrev digest : Digest
digest = record { encode = λ v. some (codes "{}"); sha256 = λ b. b }

abbrev folder : FileCassette
folder = record { dir = codes "tapes"; redactor = none }

abbrev session : FileSession
session = record { mode = record_mode; cassette = some folder; stream_n = []; stream_scrub = none }

abbrev media : FileCassette → StreamCassette (List (Bytes × StreamPair))
media c = memory

abbrev clock : ℕ → ℤ
clock i = pos (i + 10)

abbrev status_error : ℕ → Bytes → Bytes
status_error code msg = codes "status"

abbrev path : Bytes → List HeaderField
path p = record { name = codes ":path"; value = p; sensitive = false } ∷ []

abbrev traffic : List (Direction × WireEvent)
traffic =
    (client_to_server, wire_headers 1 (path (codes "/chat.Chat/List")) false)
    ∷ (client_to_server, wire_headers 3 (path (codes "/chat.Chat/Talk")) false)
    ∷ (client_to_server, wire_message 3 (some (codes "x")) false)
    ∷ (client_to_server, wire_message 1 (some (codes "all")) true)
    ∷ (server_to_client, wire_message 1 (some (codes "a")) false)
    ∷ (server_to_client, wire_message 3 (some (codes "y")) false)
    ∷ (server_to_client, wire_message 1 (some (codes "b")) false)
    ∷ []

abbrev listing : RecStream
listing = record {
  service = codes "chat.Chat";
  method = codes "List";
  events = ev_send (codes "all") ∷ ev_half_close ∷ ev_recv (codes "a") ∷ ev_recv (codes "b") ∷ [];
  sends = codes "all" ∷ [];
  sent_count = 1;
  recv_count = 2;
  saw_half_close = true;
  half_close_after_first_send = true;
  compressed = false;
  finished = false;
}

streams-handle_all_example :
    (handle_all media digest clock status_error (new_stream_tracker session []) traffic).streams 1
    ≡ run_stream none (of_stream 1 traffic)
streams-handle_all_example =
    streams-handle_all media digest clock status_error session [] traffic 1 (omega arith)

-- A server stream is not counted.
abbrev listing_handle : StreamRecording
listing_handle = opened_recording session (open_of digest session listing) (codes "7b7d") none

opened :
    open_stream_record digest session (open_of digest session listing)
    ≡ (session, ok (folder, listing_handle))
unfolding open_stream_record check_stream_open stream_open_fingerprint stream_canonical
    stream_fingerprint canonical_json short_hash insert lookup bytes_eq infer_stream_type
    stream_open_for first_or_nil
opened = refl

store-finish_stream_example :
    Saved media digest clock status_error
      (new_stream_tracker session [])
      listing
      5
      (codes "gone")
      folder
      (finish_stream media digest clock status_error
        (new_stream_tracker session [])
        1
        listing
        5
        (codes "gone"))
      listing_handle
unfolding is_empty
store-finish_stream_example =
    store-finish_stream media digest clock status_error (new_stream_tracker session []) 1 listing 5
      (codes "gone") session folder listing_handle refl refl refl opened
