-- ===== src/Session/StreamFiles.antt =====
-- Streamed interactions as YAML files: `LoadStream` and `SaveStream` of go/stream_cassette.go. What is
-- outside the module is a `Disk`, the file system, and a `Yaml`, the YAML library; what a file holds
-- is a document of any type.
pub mod Wire
pub mod Loaded
pub mod Written
pub mod Law
pub mod Guarded
mod Tests
use poly_xrr.Common.{
  ℕ, ◌+◌, ◌-◌, ℤ, Bytes, codes, bytes_eq, Bool, true, false, not, ◌&&◌, ◌==◌, leb, ltb, Option,
  none, some, List, [], ◌∷◌, ◌++◌, if◌then◌else◌,
}
use poly_xrr.Common.Maps.{lookup}
use poly_xrr.Common.Strings.{is_empty}
use poly_xrr.Common.Utf8.{utf8_valid}
use poly_xrr.Errors.{
  Part, req_frame, resp_frame, half_close_event, end_event, Error, cassette_miss, shape_mismatch,
  read_failed, write_failed, bad_yaml, missing_payload, bad_payload, bad_stream, one_sided_stream,
  missing_type, missing_seq, bad_encoding, not_scalar, bad_b64, missing_end, marshal_failed, Result,
  ok, err, ◌>>=◌, ◌>>◌,
}
use poly_xrr.Base64.{encode, decode_strict_b64}
use poly_xrr.Stream.Model.{Payload, StreamType, StreamFrame, StreamEvent, StreamPair}
use poly_xrr.Stream.Model.StreamType.{server, client, bidi, other}
use poly_xrr.Stream.Validate.{validate_stream_pair}
use poly_xrr.Session.{FileCassette}
use poly_xrr.Session.WireFormat.{
  WireStream, StreamFile, WireFrameOut, req_out, resp_out, StreamEnvelope, need, parse_pair,
}

pub data Found (Doc : Type 0) : Type 0 where
  not_exist read_error : Found Doc
  found : Doc → Found Doc

pub record Disk (Store Doc : Type 0) : Type 0 where
  pub read_file : Store → Bytes → Found Doc
  pub write_file : Store → Bytes → Doc → Store × Bool
  pub join : Bytes → Bytes → Bytes

-- `marshal` is `yaml.Marshal` of an envelope, `unmarshal` reads a document as a map of nodes,
-- `as_scalar` gives the tag and the value of a scalar node, and the others decode a node; a null
-- payload is an empty map.
pub record Yaml (Doc N : Type 0) : Type 0 where
  pub marshal : StreamEnvelope → Option Doc
  pub unmarshal : Doc → Option (List (Bytes × N))
  pub as_scalar : N → Option (Bytes × Bytes)
  pub decode_payload : N → Option Payload
  pub decode_stream : N → Option WireStream

pub frame_out : StreamFrame → WireFrameOut
frame_out f =
    if f.text && utf8_valid f.message
    then record { seq = f.seq; message_b64 = none; message_text = some f.message; at_ms = f.at_ms }
    else record {
      seq = f.seq;
      message_b64 = some (encode f.message);
      message_text = none;
      at_ms = f.at_ms;
    }

pub frames_out : List StreamFrame → List WireFrameOut
unfolding frame_out
frames_out [] = []
frames_out (f ∷ fs) = frame_out f ∷ frames_out fs

-- `RecordedAt`, or the time of the call.
pub stamp : Bytes → Bytes → Bytes
stamp now at = if is_empty at then now else at

abbrev pub req_envelope : Bytes → Bytes → Bytes → StreamPair → StreamEnvelope
req_envelope id fp at p = record {
  adapter = id;
  fingerprint = fp;
  recorded_at = at;
  error = [];
  payload = p.req_payload;
  stream = req_out p.req.typ (frames_out p.req.frames) p.req.half_close;
}

abbrev pub resp_envelope : Bytes → Bytes → Bytes → StreamPair → StreamEnvelope
resp_envelope id fp at p = record {
  adapter = id;
  fingerprint = fp;
  recorded_at = at;
  error = p.recorded_err;
  payload = p.resp_payload;
  stream = resp_out (frames_out p.resp.frames) p.resp.end;
}

pub read_found {ℓ} : {Doc : Type 0} {A : Type ℓ} → (Doc → Result A) → Found Doc → Result A
read_found next not_exist = err cassette_miss
read_found next read_error = err read_failed
read_found next (found d) = next d

-- The value of a scalar, and "" for any other node; that of an error is also "" where it is null.
pub scalar_text : Option (Bytes × Bytes) → Bytes
scalar_text none = []
scalar_text (some (tag, value)) = value

pub error_text : Option (Bytes × Bytes) → Bytes
error_text none = []
error_text (some (tag, value)) = if bytes_eq tag (codes "!!null") then [] else value

pub wrote : {Store : Type 0} → Store × Bool → Store × Result (Unit {0})
wrote (store, true) = (store, ok tt)
wrote (store, false) = (store, err write_failed)

pub if_valid :
    {Store : Type 0}
    → Store
    → Result (Unit {0})
    → Store × Result (Unit {0})
    → Store × Result (Unit {0})
if_valid store (err e) next = (store, err e)
if_valid store (ok done) next = next

module _ {Doc N : Type 0} (y : Yaml Doc N) where
  abbrev pub scalar_of : Option N → Option (Bytes × Bytes)
  scalar_of none = none
  scalar_of (some n) = y.as_scalar n

  pub stream_of : Option N → Result (Option WireStream)
  unfolding need
  stream_of none = ok none
  stream_of (some n) = do ws ← need bad_stream (y.decode_stream n); ok (some ws)

  -- `readStreamFile`, behind the reading of the file.
  pub parse_file : Doc → Result StreamFile
  unfolding need scalar_text error_text stream_of
  parse_file doc = do
    raw ← need bad_yaml (y.unmarshal doc)
    node ← need missing_payload (lookup (codes "payload") raw)
    payload ← need bad_payload (y.decode_payload node)
    stream ← stream_of (lookup (codes "stream") raw)
    ok (record {
      payload = payload;
      recorded_at = scalar_text (scalar_of (lookup (codes "recorded_at") raw));
      recorded_err = error_text (scalar_of (lookup (codes "error") raw));
      stream = stream;
    })

  module _ {Store : Type 0} (disk : Disk Store Doc) (c : FileCassette) where
    pub stream_path : Bytes → Bytes → Bytes → Bytes
    stream_path id fp kind =
        disk.join c.dir (id ++ (codes "-" ++ (fp ++ (codes "." ++ (kind ++ codes ".yaml")))))

    pub read_stream_file : Store → Bytes → Bytes → Bytes → Result StreamFile
    unfolding read_found parse_file
    read_stream_file store id fp kind =
        read_found parse_file (disk.read_file store (stream_path id fp kind))

    pub load_stream : Store → Bytes → Bytes → Result StreamPair
    unfolding read_stream_file parse_pair
    load_stream store id fp = do
      req ← read_stream_file store id fp (codes "req")
      resp ← read_stream_file store id fp (codes "resp")
      parse_pair req resp

    pub write_document : Store → Bytes → Option Doc → Store × Result (Unit {0})
    unfolding wrote
    write_document store path none = (store, err marshal_failed)
    write_document store path (some doc) = wrote (disk.write_file store path doc)

    pub write_stream_file :
        Store → Bytes → Bytes → Bytes → StreamEnvelope → Store × Result (Unit {0})
    unfolding write_document
    write_stream_file store id fp kind env =
        write_document store (stream_path id fp kind) (y.marshal env)

    -- `SaveStream`, behind the validation; the request file is written first.
    pub write_second :
        Bytes → Bytes → Bytes → StreamPair → Store × Result (Unit {0}) → Store × Result (Unit {0})
    unfolding write_stream_file
    write_second id fp at p (store, err e) = (store, err e)
    write_second id fp at p (store, ok done) =
        write_stream_file store id fp (codes "resp") (resp_envelope id fp at p)

    pub write_pair : Store → Bytes → Bytes → Bytes → StreamPair → Store × Result (Unit {0})
    unfolding write_second
    write_pair store id fp at p =
        write_second id fp at p
          (write_stream_file store id fp (codes "req") (req_envelope id fp at p))

    -- `SaveStream`, at the time `now`.
    pub save_stream : Bytes → Store → Bytes → Bytes → StreamPair → Store × Result (Unit {0})
    unfolding if_valid write_pair stamp
    save_stream now store id fp p =
        if_valid store (validate_stream_pair p) (write_pair store id fp (stamp now p.recorded_at) p)
