-- ===== src/Session/StreamFiles/Law.antt =====
-- The files of go/stream_cassette.go keep what the interface of a cassette promises.
use poly_xrr.Common.{Bytes, codes, true, some, ◌≡◌, ◌≢◌, refl, sym, ap, ◌∙◌}
use poly_xrr.Common.Utf8.{utf8_valid}
use poly_xrr.Errors.{ok}
use poly_xrr.Stream.Model.{StreamPair}
use poly_xrr.Stream.Cassette.{SameStream, HasBytes}
use poly_xrr.Stream.Validate.Complete.{validate_iff}
use poly_xrr.Session.{FileCassette}
use poly_xrr.Session.WireFormat.{StreamFile, StreamEnvelope}
use poly_xrr.Session.StreamFiles.{
  found, Disk, Yaml, read_found, parse_file, stream_path, read_stream_file, load_stream, stamp,
  req_envelope, resp_envelope, save_stream,
}
use poly_xrr.Session.StreamFiles.Loaded.{
  Faithful, type_of-type_text, loaded, Holds, parse_file_lem, parse_pair_lem,
}
use poly_xrr.Session.StreamFiles.Written.{save_stream-eq-ok}
use poly_xrr.Session.StreamFiles.Wire.{wire_stream, content-stored}

-- The documented behaviour of the file system and of the YAML library, as far as the files need it.
pub record Reliable {Store Doc N : Type 0} (y : Yaml Doc N) (disk : Disk Store Doc)
    (c : FileCassette) : Type 0 where
  -- What was written is what is read.
  pub kept :
      (s s' : Store) (path : Bytes) (doc : Doc)
      → disk.write_file s path doc ≡ (s', true)
      → disk.read_file s' path ≡ found doc
  -- A write changes no other file.
  pub others :
      (s s' : Store) (path other : Bytes) (doc : Doc)
      → path ≢ other
      → disk.write_file s path doc ≡ (s', true)
      → disk.read_file s' other ≡ disk.read_file s other
  -- The two kinds of document that are written.
  pub faithful_req :
      (id fp at : Bytes) (p : StreamPair) (doc : Doc)
      → y.marshal (req_envelope id fp at p) ≡ some doc
      → Faithful y (req_envelope id fp at p) doc
  pub faithful_resp :
      (id fp at : Bytes) (p : StreamPair) (doc : Doc)
      → y.marshal (resp_envelope id fp at p) ≡ some doc
      → Faithful y (resp_envelope id fp at p) doc
  -- The names of a request and of a response file stay apart in the cassette's folder.
  pub apart :
      (id fp : Bytes)
      → stream_path y disk c id fp (codes "req") ≢ stream_path y disk c id fp (codes "resp")

module _ {Store Doc N : Type 0} (y : Yaml Doc N) (disk : Disk Store Doc) (c : FileCassette)
    (r : Reliable y disk c) where
  read_stream_file_lem :
      (s : Store) (id fp kind : Bytes) (e : StreamEnvelope) (doc : Doc)
      → Faithful y e doc
      → disk.read_file s (stream_path y disk c id fp kind) ≡ found doc
      → (f : StreamFile) × (read_stream_file y disk c s id fp kind ≡ ok f)
        × Holds f (wire_stream e.stream) e.error
  unfolding read_stream_file read_found
  read_stream_file_lem s id fp kind e doc m h =
      let (f, parsed, holds) = parse_file_lem y e doc m in
      (f, ap (read_found (parse_file y)) h ∙ parsed, holds)

  -- The cassette's files keep what its interface promises, for every file system and every YAML library
  -- that behave as documented: a pair whose messages are bytes and whose recorded error is UTF-8, if
  -- its save succeeds, is loaded again with the same type, frames, times, half-close, end and error.
  pub load_stream-save_stream :
      (now : Bytes) (s s' : Store) (id fp : Bytes) (p : StreamPair)
      → HasBytes p
      → utf8_valid p.recorded_err ≡ true
      → save_stream y disk c now s id fp p ≡ (s', ok tt)
      → (q : StreamPair) × (load_stream y disk c s' id fp ≡ ok q) × SameStream p q
  unfolding load_stream
  load_stream-save_stream now s s' id fp p bytes is_text h =
      let (valid, (t, (a, ma, wa), (b, mb, wb))) = save_stream-eq-ok y disk c now s s' id fp p h in
      let req_read = r.others t s' _ _ b (λ e. r.apart id fp (sym e)) wb ∙ r.kept s t _ a wa in
      let (req, req_parsed, req_holds) =
        read_stream_file_lem s' id fp _ _ a (r.faithful_req id fp _ p a ma) req_read in
      let (resp, resp_parsed, resp_holds) =
        read_stream_file_lem s' id fp _ _ b (r.faithful_resp id fp _ p b mb) (r.kept t s' _ b wb) in
      (
        loaded p req resp,
        simp (req_parsed, resp_parsed)
            (parse_pair_lem p id fp (stamp now p.recorded_at) req resp bytes valid req_holds
              resp_holds),
        record {
          same_type = sym (type_of-type_text p.req.typ ((validate_iff p).0 valid).known_type);
          same_sends = content-stored p.req.frames;
          same_recvs = content-stored p.resp.frames;
          same_half_close = refl;
          same_end = refl;
          same_error = sym (resp_holds.has_error is_text);
        },
      )
