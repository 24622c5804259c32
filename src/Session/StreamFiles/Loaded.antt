-- ===== src/Session/StreamFiles/Loaded.antt =====
-- What go/stream_cassette.go makes of two files that it wrote.
use poly_xrr.Common.{
  Bytes, true, codes, bytes_eq, All, Distinct, ◌++◌, some, List, [], map, ◌≡◌, refl, sym, ap, ap₂,
  subst,
}
use poly_xrr.Common.Maps.{lookup}
use poly_xrr.Common.Utf8.{utf8_valid}
use poly_xrr.Errors.{req_frame, resp_frame, Result, ok, ◌>>◌}
use poly_xrr.Stream.Model.{Payload, StreamType, StreamPair}
use poly_xrr.Stream.Model.StreamType.{server, client, bidi, other}
use poly_xrr.Stream.Cassette.{HasBytes}
use poly_xrr.Stream.Validate.{validate_stream_pair}
use poly_xrr.Stream.Validate.Spec.{IsKnown, AscendsFrom, IsValid, body_seqs, half_close_seqs}
use poly_xrr.Stream.Validate.Complete.{validate_iff}
use poly_xrr.Session.Streams.{type_text}
use poly_xrr.Session.WireFormat.{
  WireStream, StreamFile, StreamEnvelope, need, type_of, both_streams, loaded_pair, parse_pair,
}
use poly_xrr.Session.StreamFiles.{
  Yaml, req_envelope, resp_envelope, scalar_text, error_text, scalar_of, stream_of, parse_file,
}
use poly_xrr.Session.StreamFiles.Wire.{
  wire_stream, stored_frame, parse-frames_out, seqs-stored, parse_half_close-wire,
}

-- What the YAML library reads in a document that it wrote: the payload is a map again, the texts are
-- the same, and the stream has the fields that were written.
pub record Faithful {Doc N : Type 0} (y : Yaml Doc N) (e : StreamEnvelope) (doc : Doc)
    : Type 0 where
  pub raw : List (Bytes × N)
  pub parsed : y.unmarshal doc ≡ some raw
  pub payload_node : N
  pub payload : Payload
  pub has_payload : lookup (codes "payload") raw ≡ some payload_node
  pub decodes_payload : y.decode_payload payload_node ≡ some payload
  -- A text that is no UTF-8 is written as `!!binary`, in base64, and its node keeps that form.
  pub has_error :
      utf8_valid e.error ≡ true → error_text (scalar_of y (lookup (codes "error") raw)) ≡ e.error
  pub stream_node : N
  pub has_stream : lookup (codes "stream") raw ≡ some stream_node
  pub decodes_stream : y.decode_stream stream_node ≡ some (wire_stream e.stream)

pub type_of-type_text : (t : StreamType) → IsKnown t → type_of (type_text t) ≡ t
unfolding type_of type_text bytes_eq
type_of-type_text server h = refl
type_of-type_text client h = refl
type_of-type_text bidi h = refl
type_of-type_text (other t) h = elim h [ ]

-- The pair that is loaded: its frames are the stored ones.
abbrev pub loaded : StreamPair → StreamFile → StreamFile → StreamPair
loaded p req resp =
    loaded_pair req resp (type_text p.req.typ) (map stored_frame p.req.frames) p.req.half_close
      (map stored_frame p.resp.frames) p.resp.end

pub body_seqs-loaded :
    (p : StreamPair) (req resp : StreamFile) → body_seqs p ≡ body_seqs (loaded p req resp)
body_seqs-loaded p req resp =
    ap₂ (λ a b. (a ++ b) ++ half_close_seqs p.req.half_close) (seqs-stored p.req.frames)
      (seqs-stored p.resp.frames)

pub loaded-IsValid :
    (p : StreamPair) (req resp : StreamFile) → IsValid p → IsValid (loaded p req resp)
loaded-IsValid p req resp h = record {
  known_type = subst IsKnown (sym (type_of-type_text p.req.typ h.known_type)) h.known_type;
  req_ascends = subst (AscendsFrom _) (seqs-stored p.req.frames) h.req_ascends;
  resp_ascends = subst (AscendsFrom _) (seqs-stored p.resp.frames) h.resp_ascends;
  nonnegative = subst (All _) (body_seqs-loaded p req resp) h.nonnegative;
  distinct = subst Distinct (body_seqs-loaded p req resp) h.distinct;
  end_last = subst (All _) (body_seqs-loaded p req resp) h.end_last;
  end_nonnegative = h.end_nonnegative;
}

-- A file as it is read; a recorded error that is no UTF-8 may have changed.
pub record Holds (f : StreamFile) (ws : WireStream) (text : Bytes) : Type 0 where
  pub has_stream : f.stream ≡ some ws
  pub has_error : utf8_valid text ≡ true → f.recorded_err ≡ text

module _ {Doc N : Type 0} (y : Yaml Doc N) where
  pub parse_file_lem :
      (e : StreamEnvelope) (doc : Doc)
      → Faithful y e doc
      → (f : StreamFile) × (parse_file y doc ≡ ok f) × Holds f (wire_stream e.stream) e.error
  unfolding parse_file need stream_of
  parse_file_lem e doc h = (
    record {
      payload = h.payload;
      recorded_at = scalar_text (scalar_of y (lookup (codes "recorded_at") h.raw));
      recorded_err = error_text (scalar_of y (lookup (codes "error") h.raw));
      stream = some (wire_stream e.stream);
    },
    simp (h.parsed, h.has_payload, h.decodes_payload, h.has_stream, h.decodes_stream),
    record { has_stream = refl; has_error = h.has_error },
  )

pub parse_pair_lem :
    (p : StreamPair) (id fp at : Bytes) (req resp : StreamFile)
    → HasBytes p
    → validate_stream_pair p ≡ ok tt
    → Holds req (wire_stream (req_envelope id fp at p).stream) []
    → Holds resp (wire_stream (resp_envelope id fp at p).stream) p.recorded_err
    → parse_pair req resp ≡ ok (loaded p req resp)
unfolding parse_pair both_streams need
parse_pair_lem p id fp at req resp (send_bytes, recv_bytes) valid hreq hresp =
    let again : validate_stream_pair (loaded p req resp) ≡ ok tt =
      (validate_iff (loaded p req resp)).1 (loaded-IsValid p req resp ((validate_iff p).0 valid)) in
    simp
      (
        hreq.has_stream,
        hresp.has_stream,
        parse-frames_out req_frame 0 p.req.frames send_bytes,
        parse_half_close-wire p.req.half_close,
        parse-frames_out resp_frame 0 p.resp.frames recv_bytes,
      )
      (ap (λ (r : Result (Unit {0})). r >> ok (loaded p req resp)) again)
