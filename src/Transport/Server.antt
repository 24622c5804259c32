-- ===== src/Transport/Server.antt =====
-- The replaying server of go/adapters/grpctransport/replay.go: the far side of the client's
-- connection. Frames come in as a list and go out as one; writing to the pipe does not fail.
pub mod Deliver
pub mod Waiting
mod Tests
use poly_xrr.Common.{
  ℕ, zero, suc, ◌+◌, ◌-◌, ◌*◌, ◌/◌, ◌%◌, ℤ, pos, negsuc, Bytes, codes, bytes_eq, Bool, true, false,
  not, ◌&&◌, ◌==◌, ltb, Option, none, some, List, [], ◌∷◌, ◌++◌, map, length, if◌then◌else◌,
}
use poly_xrr.Common.Maps.{lookup, insert}
use poly_xrr.Common.Strings.{is_empty}
use poly_xrr.Errors.{Error, shape_mismatch, stream_mismatch, eof, Result, ok, err}
use poly_xrr.Stream.Model.{Payload, Scalar, text, int, StreamType}
use poly_xrr.Stream.Model.StreamType.{server, client, bidi}
use poly_xrr.Stream.Cassette.{StreamCassette}
use poly_xrr.Canonical.{Digest}
use poly_xrr.Replay.{StreamReplay, send, half_close, recv}
use poly_xrr.Session.{FileCassette, FileSession}
use poly_xrr.Session.Streams.{
  StreamOpen, type_text, or_zero, stream_fingerprint, open_stream_replay,
}
use poly_xrr.Transport.Headers.{HeaderField, split_path, code_of}
use poly_xrr.Transport.Status.{encode_grpc_message}
use poly_xrr.Transport.Reassembly.{feed, write_message}
use poly_xrr.Transport.Shape.{adapter_id, first_or_nil, stream_open_for}
use poly_xrr.Transport.Answers.{
  ReplayStream, counter_key, infer_replay_type, Delivered, recv_all, recorded_code, is_eof,
  send_all, close_mismatch,
}

-- What the client sends, as the framer reads it.
pub data ClientFrame : Type 0 where
  settings_frame : Bool → ClientFrame
  ping_frame : Bool → Bytes → ClientFrame
  headers_frame : ℕ → List HeaderField → Bool → ClientFrame
  data_frame : ℕ → Bytes → Bool → ClientFrame
  reset_frame : ℕ → ClientFrame
  go_away_frame other_frame : ClientFrame

-- What the server writes. Trailers have a status and its message, which is none where it is empty.
pub data Output : Type 0 where
  settings_ack : Output
  ping_ack : Bytes → Output
  response_headers : ℕ → Output
  response_data : ℕ → Bytes → Output
  trailers trailers_only : ℕ → ℕ → Option Bytes → Output

pub record ReplayConn : Type 0 where
  pub session : FileSession
  pub streams : ℕ → Option ReplayStream
  pub probe_n : List (Bytes × ℕ)
  pub written : List Output

abbrev pub set_stream : ReplayConn → ℕ → Option ReplayStream → ReplayConn
set_stream c id s = record c { streams = λ j. if j == id then s else c.streams j }

abbrev pub write : ReplayConn → List Output → ReplayConn
write c out = record c { written = c.written ++ out }

abbrev pub message_field : Bytes → Option Bytes
message_field msg = if is_empty msg then none else some (encode_grpc_message msg)

pub finish_stream : ReplayConn → ℕ → ℕ → Bytes → ReplayConn
finish_stream c id code msg =
    write (set_stream c id none) (trailers id code (message_field msg) ∷ [])

pub write_trailers_only : ReplayConn → ℕ → ℕ → Bytes → ReplayConn
write_trailers_only c id code msg =
    write (set_stream c id none) (trailers_only id code (message_field msg) ∷ [])

abbrev pub data_frames : ℕ → List Bytes → List Output
data_frames id [] = []
data_frames id (m ∷ ms) = map (λ b. response_data id b) (write_message m) ++ data_frames id ms

pub is_go_away : ClientFrame → Bool
is_go_away go_away_frame = true
is_go_away f = false

pub and_then : Option ReplayConn → (ReplayConn → Option ReplayConn) → Option ReplayConn
and_then none next = none
and_then (some c) next = next c

abbrev pub not_found : ℕ
not_found = 5

abbrev pub failed_precondition : ℕ
failed_precondition = 9

pub open_code : Error → ℕ
open_code shape_mismatch = failed_precondition
open_code e = not_found

-- What is outside of the module: the cassettes of a store, `os.Stat` on it, `filepath.Join`, the text
-- of an error, and the pseudo-header `:path` of a header block.
pub record Host (Store : Type 0) : Type 0 where
  pub media : FileCassette → StreamCassette Store
  pub store : Store
  pub exists : Bytes → Bool
  pub join : Bytes → Bytes → Bytes
  pub digest : Digest
  pub error_text : Error → Bytes
  pub path_value : List HeaderField → Bytes

module _ {Store : Type 0} (host : Host Store) (dir : Bytes) where
  pub cassette_file : Bytes → Bytes → Bytes
  cassette_file fp kind =
      host.join dir (adapter_id ++ (codes "-" ++ (fp ++ (codes "." ++ (kind ++ codes ".yaml")))))

  pub both_exist : Result Bytes → Bool
  unfolding cassette_file
  both_exist (err e) = false
  both_exist (ok fp) =
      host.exists (cassette_file fp (codes "req")) && host.exists (cassette_file fp (codes "resp"))

  -- `probeN` of an open, or -1.
  pub probe_ordinal : ReplayConn → StreamOpen → ℤ
  unfolding counter_key or_zero
  probe_ordinal c o =
      if o.counter then pos (or_zero (lookup (counter_key o) c.probe_n)) else negsuc 0

  pub cassette_exists : ReplayConn → Bytes → Bytes → StreamType → Bytes → Bool
  unfolding both_exist probe_ordinal
  cassette_exists c service method typ open_msg =
      let o = stream_open_for host.digest c.session typ service method open_msg in
      not (is_empty dir) && both_exist (stream_fingerprint host.digest o (probe_ordinal c o))

  pub terminal_of : StreamReplay → Error → ℕ × Bytes
  unfolding is_eof recorded_code
  terminal_of rp e =
      if is_eof e
      then (0, [])
      else (recorded_code (lookup (codes "status_code") rp.pair.resp_payload), host.error_text e)

  -- The writes of `deliver`.
  pub delivered : ReplayConn → ℕ → Option Delivered → Option ReplayConn
  unfolding finish_stream terminal_of
  delivered c id none = none
  delivered c id (some (ms, rp, e)) =
      let (code, msg) = terminal_of rp e in
      some (finish_stream (write c (response_headers id ∷ data_frames id ms)) id code msg)

  -- `deliver`; every read but the last takes one of the recorded messages.
  pub deliver : ReplayConn → ℕ → StreamReplay → Option ReplayConn
  unfolding delivered recv_all
  deliver c id rp = delivered c id (recv_all (length rp.pair.resp.frames + 1) rp)

  pub or_mismatch :
      ReplayConn
      → ℕ
      → StreamReplay × Option Error
      → (StreamReplay → Option ReplayConn)
      → Option ReplayConn
  unfolding finish_stream
  or_mismatch c id (rp, none) next = next rp
  or_mismatch c id (rp, some e) next =
      some (finish_stream c id failed_precondition (host.error_text e))

  -- The client's messages are checked, then its half-close, and then the response is written.
  pub serve_stream : ReplayConn → ℕ → Bool → List Bytes → StreamReplay → Option ReplayConn
  unfolding or_mismatch send_all close_mismatch deliver
  serve_stream c id half_closed msgs rp =
      or_mismatch c id (send_all true rp msgs)
        (λ rp'. or_mismatch c id (close_mismatch half_closed rp') (λ rp''. deliver c id rp''))

  pub opened_with :
      ReplayConn → ℕ → ReplayStream → Bool → List Bytes → Result StreamReplay → Option ReplayConn
  unfolding write_trailers_only open_code serve_stream
  opened_with c id s half_closed msgs (err e) =
      some (write_trailers_only c id (open_code e) (codes "xrr: " ++ host.error_text e))
  opened_with c id s half_closed msgs (ok rp) =
      serve_stream (set_stream c id (some (record s { replay = some rp }))) id half_closed msgs rp

  pub count_probe : ReplayConn → StreamOpen → ReplayConn
  unfolding counter_key or_zero
  count_probe c o =
      if o.counter
      then record c {
        probe_n = insert (counter_key o) (or_zero (lookup (counter_key o) c.probe_n) + 1) c.probe_n;
      }
      else c

  -- `advance` once the type is known.
  pub open_as : ReplayConn → ℕ → ReplayStream → Bool → Option StreamType → Option ReplayConn
  unfolding opened_with count_probe
  open_as c id s half_closed none = some c
  open_as c id s half_closed (some typ) =
      let s' = record s { buffered = []; opened = true } in
      let o =
        stream_open_for host.digest c.session typ s.service s.method (first_or_nil s.buffered) in
      let c' = count_probe (set_stream c id (some s')) o in
      let (session, opened) = open_stream_replay host.media host.store host.digest c'.session o in
      opened_with (record c' { session = session }) id s' half_closed s.buffered opened

  -- The branch of a stream that is open: its handle keeps what the sends make of it.
  pub send_more :
      ReplayConn → ℕ → ReplayStream → List Bytes → Option StreamReplay → Option ReplayConn
  unfolding or_mismatch send_all
  send_more c id s [] rp = some (set_stream c id (some (record s { buffered = [] })))
  send_more c id s (m ∷ ms) none = none
  send_more c id s (m ∷ ms) (some rp) =
      or_mismatch c id (send_all false rp (m ∷ ms))
        (λ rp'. some (set_stream c id (some (record s { buffered = []; replay = some rp' }))))

  -- `advance`. The result is none where the code would not return or would dereference nil.
  pub advance_stream : ReplayConn → ℕ → Bool → Option ReplayStream → Option ReplayConn
  unfolding open_as send_more cassette_exists
  advance_stream c id half_closed none = some c
  advance_stream c id half_closed (some s) =
      if s.done
      then some c
      else if s.opened
      then send_more c id s s.buffered s.replay
      else open_as c id s half_closed
          (infer_replay_type s half_closed (cassette_exists c s.service s.method))

  pub advance : ReplayConn → ℕ → Bool → Option ReplayConn
  unfolding advance_stream
  advance c id half_closed = advance_stream c id half_closed (c.streams id)

  abbrev pub unimplemented : ℕ
  unimplemented = 12

  abbrev pub internal : ℕ
  internal = 13

  pub on_headers : ReplayConn → ℕ → Bool → Option (Bytes × Bytes) → Option ReplayConn
  unfolding write_trailers_only advance
  on_headers c id ended none =
      some (write_trailers_only c id unimplemented (codes "malformed :path"))
  on_headers c id ended (some (service, method)) =
      let s : ReplayStream = record {
        service = service;
        method = method;
        replay = none;
        buffered = [];
        opened = false;
        done = false;
      } in
      let c' = set_stream c id (some s) in if ended then advance c' id true else some c'

  -- Each DATA frame is decoded on its own.
  pub on_messages : ReplayConn → ℕ → ReplayStream → Bool → Result (List Bytes) → Option ReplayConn
  unfolding write_trailers_only advance
  on_messages c id s ended (err e) = some (write_trailers_only c id internal (host.error_text e))
  on_messages c id s ended (ok ms) =
      advance (set_stream c id (some (record s { buffered = s.buffered ++ ms }))) id ended

  pub on_data : ReplayConn → ℕ → Bytes → Bool → Option ReplayStream → Option ReplayConn
  unfolding on_messages feed
  on_data c id bytes ended none = some c
  on_data c id bytes ended (some s) = on_messages c id s ended (feed [] bytes).1

  -- `handleFrame`, of every frame but GOAWAY, which ends `serve`.
  pub handle_frame : ReplayConn → ClientFrame → Option ReplayConn
  unfolding on_headers on_data
  handle_frame c (settings_frame false) = some (write c (settings_ack ∷ []))
  handle_frame c (ping_frame false bytes) = some (write c (ping_ack bytes ∷ []))
  handle_frame c (headers_frame id fields ended) =
      on_headers c id ended (split_path (host.path_value fields))
  handle_frame c (data_frame id bytes ended) = on_data c id bytes ended (c.streams id)
  handle_frame c (reset_frame id) = some (set_stream c id none)
  handle_frame c f = some c

  -- The frame loop of `serve`, which a GOAWAY ends.
  pub serve : ReplayConn → List ClientFrame → Option ReplayConn
  unfolding is_go_away and_then handle_frame
  serve c [] = some c
  serve c (f ∷ fs) =
      if is_go_away f then some c else and_then (handle_frame c f) (λ c'. serve c' fs)
