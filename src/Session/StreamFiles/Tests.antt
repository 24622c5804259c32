-- ===== src/Session/StreamFiles/Tests.antt =====
-- A disk and a YAML library that keep documents as they are, and a pair on them.
use poly_xrr.Common.{
  pos, arith, Bytes, codes, bytes_eq, bytes_eq_refl, bytes_eq_iff, true, false, Option, none, some,
  List, [], ◌∷◌, ◌++◌, ◌≡◌, ◌≢◌, refl, sym, ap, ◌∙◌,
}
use mathlib.Core.List.{append_cancel_left}
use poly_xrr.Common.Strings.{is_empty}
use poly_xrr.Common.Maps.{lookup, insert, lookup-insert}
use poly_xrr.Common.Utf8.{utf8_valid}
use poly_xrr.Errors.{Error, ok, err}
use poly_xrr.Stream.Model.{Payload, StreamPair, text}
use poly_xrr.Stream.Model.StreamType.{bidi}
use poly_xrr.Stream.Cassette.{SameStream}
use poly_xrr.Stream.Validate.Complete.{validate_iff}
use poly_xrr.Session.{FileCassette}
use poly_xrr.Session.WireFormat.{WireStream, StreamEnvelope}
use poly_xrr.Session.StreamFiles.{
  Found, not_exist, found, Disk, Yaml, load_stream, save_stream, if_valid, write_pair, write_second,
  write_stream_file, write_document, wrote, stamp, stream_path, error_text, req_envelope,
  resp_envelope,
}
use poly_xrr.Session.StreamFiles.Wire.{wire_stream}
use poly_xrr.Session.StreamFiles.Loaded.{Faithful}
use poly_xrr.Session.StreamFiles.Law.{Reliable, load_stream-save_stream}
use poly_xrr.Session.StreamFiles.Guarded.{files_guarded}
use poly_xrr.Stream.Validate.Spec.{IsValid}

data Piece : Type 0 where
  map_piece : Payload → Piece
  text_piece : Bytes → Piece
  stream_piece : WireStream → Piece

abbrev pieces : StreamEnvelope → List (Bytes × Piece)
pieces e =
    (codes "payload", map_piece e.payload)
    ∷ (codes "error", text_piece e.error)
    ∷ (codes "stream", stream_piece (wire_stream e.stream))
    ∷ []

abbrev yaml : Yaml StreamEnvelope Piece
yaml = record {
  marshal = λ e. some e;
  unmarshal = λ e. some (pieces e);
  as_scalar = λ n. elim n [ text_piece t ↦ some (codes "!!str", t) | _ ↦ none ];
  decode_payload = λ n. elim n [ map_piece m ↦ some m | _ ↦ none ];
  decode_stream = λ n. elim n [ stream_piece w ↦ some w | _ ↦ none ];
}

abbrev Files : Type 0
Files = List (Bytes × StreamEnvelope)

abbrev looked_up : Option StreamEnvelope → Found StreamEnvelope
looked_up none = not_exist
looked_up (some e) = found e

abbrev disk : Disk Files StreamEnvelope
disk = record {
  read_file = λ s path. looked_up (lookup path s);
  write_file = λ s path e. (insert path e s, true);
  join = λ d f. f;
}

abbrev folder : FileCassette
folder = record { dir = codes "tapes"; redactor = none }

kept :
    (s s' : Files) (path : Bytes) (e : StreamEnvelope)
    → disk.write_file s path e ≡ (s', true)
    → disk.read_file s' path ≡ found e
kept s s' path e h =
    let same : insert path e s ≡ s' = cc in
    let there : lookup path (insert path e s) ≡ some e =
      lookup-insert path path e s ∙ ground (arith, bytes_eq_refl path) in
    ap (λ x. looked_up (lookup path x)) (sym same) ∙ ap looked_up there

others :
    (s s' : Files) (path other : Bytes) (e : StreamEnvelope)
    → path ≢ other
    → disk.write_file s path e ≡ (s', true)
    → disk.read_file s' other ≡ disk.read_file s other
others s s' path other e ne h =
    let same : insert path e s ≡ s' = cc in
    ap (λ x. looked_up (lookup other x)) (sym same)
    ∙ ap looked_up (lookup-insert path other e s ∙ ground (arith, bytes_eq_iff path other))

faithful : (e doc : StreamEnvelope) → yaml.marshal e ≡ some doc → Faithful yaml e doc
unfolding lookup bytes_eq error_text
faithful e doc h =
    let same : doc ≡ e = cc in
    record {
      raw = pieces doc;
      parsed = refl;
      payload_node = map_piece doc.payload;
      payload = doc.payload;
      has_payload = refl;
      decodes_payload = refl;
      has_error = λ is_text. ap (λ (x : StreamEnvelope). x.error) same;
      stream_node = stream_piece (wire_stream doc.stream);
      has_stream = refl;
      decodes_stream = ap (λ (x : StreamEnvelope). some (wire_stream x.stream)) same;
    }

apart :
    (id fp : Bytes)
    → stream_path yaml disk folder id fp (codes "req")
      ≢ stream_path yaml disk folder id fp (codes "resp")
unfolding stream_path
apart id fp h =
    let ends : codes "-" ++ (fp ++ codes ".req.yaml") ≡ codes "-" ++ (fp ++ codes ".resp.yaml") =
      append_cancel_left id _ _ h in
    let names =
      append_cancel_left fp (codes ".req.yaml") (codes ".resp.yaml") (
        append_cancel_left (codes "-") (fp ++ codes ".req.yaml") (fp ++ codes ".resp.yaml") ends) in
    cc

reliable : Reliable yaml disk folder
reliable = record {
  kept = kept;
  others = others;
  faithful_req = λ id fp at p. faithful (req_envelope id fp at p);
  faithful_resp = λ id fp at p. faithful (resp_envelope id fp at p);
  apart = apart;
}

abbrev chat : StreamPair
chat = record {
  req = record {
    typ = bidi;
    frames =
        record { seq = pos 0; message = codes "hi"; text = true; at_ms = none }
        ∷ record { seq = pos 2; message = 0xff ∷ []; text = true; at_ms = some (pos 7) }
        ∷ [];
    half_close = some (record { seq = pos 3; at_ms = none });
  };
  resp = record {
    frames = record { seq = pos 1; message = codes "ho"; text = false; at_ms = none } ∷ [];
    end = record { seq = pos 4; at_ms = none };
  };
  req_payload = (codes "method", text (codes "Chat")) ∷ [];
  resp_payload = [];
  recorded_at = [];
  recorded_err = codes "gone";
}

chat-IsValid : IsValid chat
chat-IsValid = grind arith

-- The files behind the save.
abbrev saved : Files
saved = (write_pair yaml disk folder [] (codes "grpc") (codes "f00d") (codes "now") chat).0

load_stream-save_stream_example :
    (q : StreamPair) × (load_stream yaml disk folder saved (codes "grpc") (codes "f00d") ≡ ok q)
    × SameStream chat q
unfolding save_stream if_valid write_pair write_second write_stream_file write_document wrote stamp
    is_empty utf8_valid
load_stream-save_stream_example =
    load_stream-save_stream yaml disk folder reliable (codes "now") [] saved (codes "grpc")
      (codes "f00d") chat (omega arith, omega arith) refl
      (ap
        (λ v.
          if_valid [] v
            (write_pair yaml disk folder [] (codes "grpc") (codes "f00d") (codes "now") chat))
        ((validate_iff chat).1 chat-IsValid))

-- A pair whose request frames are out of order.
abbrev mixed_up : StreamPair
mixed_up = record chat {
  req = record {
    typ = bidi;
    frames =
        record { seq = pos 2; message = []; text = false; at_ms = none }
        ∷ record { seq = pos 1; message = []; text = false; at_ms = none }
        ∷ [];
    half_close = none;
  };
}

files_guarded_example :
    (load_stream yaml disk folder saved (codes "grpc") (codes "f00d") ≡ ok mixed_up
      → IsValid mixed_up)
    × (¬ IsValid mixed_up
        → (e : Error) × (save_stream yaml disk folder
              (codes "now")
              saved
              (codes "grpc")
              (codes "f00d")
              mixed_up
            ≡ (saved, err e)))
files_guarded_example =
    files_guarded yaml disk folder (codes "now") saved (codes "grpc") (codes "f00d") mixed_up
