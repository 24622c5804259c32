-- ===== src/Session/StreamFiles/Written.antt =====
-- What a successful save of go/stream_cassette.go has written.
use poly_xrr.Common.{Bytes, codes, Bool, true, false, Option, none, some, ◌≡◌, refl}
use poly_xrr.Errors.{Result, ok, err}
use poly_xrr.Stream.Model.{StreamPair}
use poly_xrr.Stream.Validate.{validate_stream_pair}
use poly_xrr.Session.{FileCassette}
use poly_xrr.Session.WireFormat.{StreamEnvelope}
use poly_xrr.Session.StreamFiles.{
  Disk, Yaml, req_envelope, resp_envelope, stream_path, wrote, write_document, write_stream_file,
  write_second, write_pair, if_valid, stamp, save_stream,
}

pub wrote-eq-ok :
    {Store : Type 0} (r : Store × Bool) (s' : Store) → wrote r ≡ (s', ok tt) → r ≡ (s', true)
unfolding wrote
wrote-eq-ok (s, true) s' h = cc
wrote-eq-ok (s, false) s' h = cc

pub if_valid-eq-ok :
    {Store : Type 0} (s s' : Store) (v : Result (Unit {0})) (next : Store × Result (Unit {0}))
    → if_valid s v next ≡ (s', ok tt)
    → (v ≡ ok tt) × (next ≡ (s', ok tt))
unfolding if_valid
if_valid-eq-ok s s' (ok done) next h = (refl, h)
if_valid-eq-ok s s' (err e) next h = cc

module _ {Store Doc N : Type 0} (y : Yaml Doc N) (disk : Disk Store Doc) (c : FileCassette) where
  -- What a successful write of a file has done.
  abbrev pub Wrote : Store → Store → Bytes → StreamEnvelope → Type 0
  Wrote s s' path e =
      (doc : Doc) × (y.marshal e ≡ some doc) × (disk.write_file s path doc ≡ (s', true))

  pub write_document-eq-ok :
      (s s' : Store) (path : Bytes) (e : StreamEnvelope) (d : Option Doc)
      → y.marshal e ≡ d
      → write_document y disk c s path d ≡ (s', ok tt)
      → Wrote s s' path e
  unfolding write_document
  write_document-eq-ok s s' path e none m h = cc
  write_document-eq-ok s s' path e (some doc) m h = (doc, m, wrote-eq-ok _ s' h)

  pub write_second-eq-ok :
      (id fp at : Bytes) (p : StreamPair) (r : Store × Result (Unit {0})) (s' : Store)
      → write_second y disk c id fp at p r ≡ (s', ok tt)
      → (s : Store) × (r ≡ (s, ok tt))
        × Wrote s s' (stream_path y disk c id fp (codes "resp")) (resp_envelope id fp at p)
  unfolding write_second write_stream_file
  write_second-eq-ok id fp at p (s, err e) s' h = cc
  write_second-eq-ok id fp at p (s, ok done) s' h =
      (s, refl, write_document-eq-ok s s' _ _ _ refl h)

  -- A successful save is of a valid pair, and it writes the request file and then the response file.
  pub save_stream-eq-ok :
      (now : Bytes) (s s' : Store) (id fp : Bytes) (p : StreamPair)
      → save_stream y disk c now s id fp p ≡ (s', ok tt)
      → (validate_stream_pair p ≡ ok tt)
        × ((t : Store) × Wrote s t
              (stream_path y disk c id fp (codes "req"))
              (req_envelope id fp (stamp now p.recorded_at) p)
            × Wrote t s'
                (stream_path y disk c id fp (codes "resp"))
                (resp_envelope id fp (stamp now p.recorded_at) p))
  unfolding save_stream write_pair write_stream_file
  save_stream-eq-ok now s s' id fp p h =
      let (valid, both) = if_valid-eq-ok s s' _ _ h in
      let (t, first, second) = write_second-eq-ok id fp _ p _ s' both in
      (valid, (t, write_document-eq-ok s t _ _ _ refl first, second))
