-- ===== src/Grpc/Tests.antt =====
-- A bidi call that fails, recorded and replayed. A message is its bytes.
use poly_xrr.Common.{pos, arith, Bytes, codes, false, none, some, List, [], ◌∷◌, ◌≡◌, refl}
use poly_xrr.Errors.{Error, recorded, status_error, foreign, eof, ok, err}
use poly_xrr.Stream.Model.{StreamPair}
use poly_xrr.Stream.Model.StreamType.{bidi}
use poly_xrr.Stream.Cassette.{StreamCassette}
use poly_xrr.Stream.Cassette.Memory.{memory}
use poly_xrr.Canonical.{Digest}
use poly_xrr.Recording.{StreamRecording}
use poly_xrr.Replay.{StreamReplay, terminal_err}
use poly_xrr.Session.{record_mode, FileCassette}
use poly_xrr.Grpc.{Grpc}
use poly_xrr.Grpc.Record.{Recorder, status_payload}
use poly_xrr.Grpc.Record.Once.{
  LiveCall, sends, receives, live_calls, After, HaveText, After-live_calls,
}
use poly_xrr.Grpc.Replay.{map_err}
use poly_xrr.Grpc.Replay.Terminal.{map_err-terminal_err}

abbrev text_of : Error → Bytes
text_of (recorded text) = text
text_of e = codes "failed"

abbrev bytes : Grpc Bytes
bytes = record {
  marshal = λ m. ok m;
  unmarshal = λ m. ok m;
  status_code = λ e. 5;
  error_text = text_of;
  code_name = λ n. codes "NotFound";
}

abbrev digest : Digest
digest = record { encode = λ v. some (codes "{}"); sha256 = λ b. b }

abbrev media : FileCassette → StreamCassette (List (Bytes × StreamPair))
media c = memory

abbrev folder : FileCassette
folder = record { dir = codes "tapes"; redactor = none }

abbrev handle : StreamRecording
handle = record {
  adapter_id = codes "grpc";
  fingerprint = codes "7b7d";
  typ = bidi;
  req_payload = [];
  scrub = none;
  seq = 0;
  sends = [];
  recvs = [];
  half_close = none;
  finished = false;
}

abbrev recorder : Recorder (List (Bytes × StreamPair))
recorder = record {
  session = record {
    mode = record_mode;
    cassette = some folder;
    stream_n = [];
    stream_scrub = none;
  };
  store = [];
  stream = record {
    typ = bidi;
    service = codes "chat.Chat";
    method = codes "Talk";
    server_streams = false;
    rec = some (folder, handle);
    finished = false;
  };
}

abbrev calls : List (LiveCall Bytes)
calls =
    sends (pos 1) (codes "hi") none
    ∷ receives (pos 2) (err (foreign (codes "gone")))
    ∷ receives (pos 3) (err eof)
    ∷ []

abbrev shown_errors : Grpc Bytes
shown_errors = record bytes { error_text = λ e. codes "failed" }

has_text : HaveText media digest shown_errors
has_text e h = cc

After-live_calls_example :
    After media digest shown_errors recorder (live_calls media digest shown_errors recorder calls)
After-live_calls_example = After-live_calls media digest shown_errors calls recorder has_text

abbrev replayed : StreamReplay
replayed = record {
  fingerprint = codes "7b7d";
  pair = record {
    req = record { typ = bidi; frames = []; half_close = none };
    resp = record { frames = []; end = record { seq = pos 0; at_ms = none } };
    req_payload = [];
    resp_payload = status_payload 5;
    recorded_at = [];
    recorded_err = codes "rpc error: code = NotFound desc = gone";
  };
  scrub = none;
  info = record { adapter_id = codes "grpc"; typ = bidi };
  send_idx = 0;
  recv_idx = 0;
  mismatch = none;
}

map_err-terminal_err_example :
    map_err bytes replayed (terminal_err replayed) ≡ status_error 5 (codes "gone")
map_err-terminal_err_example =
    map_err-terminal_err bytes replayed 5 (codes "gone") (λ text. refl) (omega arith) (omega arith)
      refl refl
