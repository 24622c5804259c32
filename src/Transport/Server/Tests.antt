-- ===== src/Transport/Server/Tests.antt =====
-- A server with one recorded interaction.
use poly_xrr.Common.{pos, arith, Bytes, codes, true, false, none, some, List, [], ◌∷◌, ◌≡◌, refl}
use poly_xrr.Errors.{Error, recorded}
use poly_xrr.Stream.Model.{StreamPair, int}
use poly_xrr.Stream.Model.StreamType.{bidi}
use poly_xrr.Stream.Cassette.Memory.{memory}
use poly_xrr.Canonical.{Digest}
use poly_xrr.Replay.{StreamReplay}
use poly_xrr.Session.{replay_mode, FileSession}
use poly_xrr.Transport.Reassembly.{frame_message}
use poly_xrr.Transport.Answers.{ReplayStream}
use poly_xrr.Transport.Server.{
  settings_frame, headers_frame, data_frame, ReplayConn, Host, on_data, serve,
}
use poly_xrr.Transport.Server.Waiting.{Returns, serve-Returns}
use poly_xrr.Transport.Server.Deliver.{on_data-partial}

abbrev digest : Digest
digest = record { encode = λ v. some (codes "{}"); sha256 = λ b. b }

abbrev host : Host (List (Bytes × StreamPair))
host = record {
  media = λ c. memory;
  store = [];
  exists = λ path. true;
  join = λ d f. f;
  digest = digest;
  error_text = λ e. codes "failed";
  path_value = λ fields. codes "/chat.Chat/Talk";
}

abbrev session : FileSession
session = record {
  mode = replay_mode;
  cassette = some (record { dir = codes "tapes"; redactor = none });
  stream_n = [];
  stream_scrub = none;
}

abbrev fresh : ReplayConn
fresh = record { session = session; streams = λ id. none; probe_n = []; written = [] }

serve-Returns_example : Returns (
    serve host (codes "tapes") fresh (
      settings_frame false
      ∷ headers_frame 1 [] false
      ∷ data_frame 1 (0 ∷ 0 ∷ 0 ∷ 0 ∷ 1 ∷ b'x' ∷ []) true
      ∷ []))
serve-Returns_example =
    serve-Returns host (codes "tapes")
      (settings_frame false
        ∷ headers_frame 1 [] false
        ∷ data_frame 1 (0 ∷ 0 ∷ 0 ∷ 0 ∷ 1 ∷ b'x' ∷ []) true
        ∷ [])
      fresh (λ id. tt)

abbrev handle : StreamReplay
handle = record {
  fingerprint = codes "7b7d";
  pair = record {
    req = record { typ = bidi; frames = []; half_close = none };
    resp = record {
      frames =
          record { seq = pos 0; message = codes "a"; text = false; at_ms = none }
          ∷ record { seq = pos 1; message = codes "bc"; text = false; at_ms = none }
          ∷ [];
      end = record { seq = pos 2; at_ms = none };
    };
    req_payload = [];
    resp_payload = (codes "status_code", int (pos 5)) ∷ [];
    recorded_at = [];
    recorded_err = codes "gone";
  };
  scrub = none;
  info = record { adapter_id = codes "grpc"; typ = bidi };
  send_idx = 0;
  recv_idx = 0;
  mismatch = none;
}

abbrev text_of : Error → Bytes
text_of (recorded t) = t
text_of e = codes "failed"

abbrev texts : Host (List (Bytes × StreamPair))
texts = record host { error_text = text_of }

abbrev talk : ReplayStream
talk = record {
  service = codes "chat.Chat";
  method = codes "Talk";
  replay = none;
  buffered = [];
  opened = false;
  done = false;
}

on_data-partial_example :
    on_data host (codes "tapes") fresh 1 (0 ∷ 0 ∷ 0 ∷ 0 ∷ 2 ∷ b'h' ∷ []) false (some talk)
    ≡ on_data host (codes "tapes") fresh 1 [] false (some talk)
unfolding frame_message
on_data-partial_example =
    on_data-partial host (codes "tapes") fresh 1 (0 ∷ 0 ∷ 0 ∷ 0 ∷ 2 ∷ b'h' ∷ []) [] (codes "hi")
      b'i' false (some talk) (omega arith) refl
