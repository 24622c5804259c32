-- ===== src/Session/StreamFiles/Guarded.antt =====
-- The validation of go/stream_cassette.go at both ends of the files.
use poly_xrr.Common.{Bytes, codes, ◌≡◌, refl, subst}
use poly_xrr.Errors.{Error, req_frame, resp_frame, missing_type, Result, ok, err, ◌>>◌, >>=-eq-ok}
use poly_xrr.Stream.Model.{StreamPair}
use poly_xrr.Stream.Validate.{validate_stream_pair}
use poly_xrr.Stream.Validate.Spec.{IsValid}
use poly_xrr.Stream.Validate.Complete.{validate_iff}
use poly_xrr.Session.{FileCassette}
use poly_xrr.Session.WireFormat.{
  StreamFile, both_streams, need, parse_wire_frames, parse_half_close, parse_end, loaded_pair,
  parse_pair,
}
use poly_xrr.Session.StreamFiles.{Disk, Yaml, load_stream, read_stream_file, save_stream, if_valid}

-- The last two steps of `LoadStream`: what is returned is what was validated.
validated :
    (q p : StreamPair) → (do validate_stream_pair q; ok q) ≡ ok p → validate_stream_pair p ≡ ok tt
validated q p h =
    let (u, valid, same) = >>=-eq-ok (validate_stream_pair q) _ h in
    subst (λ x. validate_stream_pair x ≡ ok tt) (let e : q ≡ p = cc in e) valid

parse_pair-valid :
    (req resp : StreamFile) (p : StreamPair)
    → parse_pair req resp ≡ ok p
    → validate_stream_pair p ≡ ok tt
unfolding parse_pair
parse_pair-valid req resp p h =
    let ((a, b), both, h₁) = >>=-eq-ok (both_streams req.stream resp.stream) _ h in
    let (typ, typed, h₂) = >>=-eq-ok (need missing_type a.typ) _ h₁ in
    let (sends, sent, h₃) = >>=-eq-ok (parse_wire_frames req_frame 0 a.frames) _ h₂ in
    let (closing, closed, h₄) = >>=-eq-ok (parse_half_close a.half_close) _ h₃ in
    let (recvs, received, h₅) = >>=-eq-ok (parse_wire_frames resp_frame 0 b.frames) _ h₄ in
    let (end, ended, h₆) = >>=-eq-ok (parse_end b.end) _ h₅ in
    validated (loaded_pair req resp typ sends closing recvs end) p h₆

refused :
    {Store : Type 0} (s : Store) (v : Result (Unit {0})) (next : Store × Result (Unit {0}))
    → (v ≡ ok tt → ⊥)
    → (e : Error) × (if_valid s v next ≡ (s, err e))
unfolding if_valid
refused s (err e) next h = (e, refl)
refused s (ok done) next h = absurd (h refl)

-- Only valid streams pass the files, with any file system and any YAML library: what a load returns
-- is valid, and the save of a pair that is not valid fails and leaves every file as it was.
pub files_guarded :
    {Store Doc N : Type 0} (y : Yaml Doc N) (disk : Disk Store Doc) (c : FileCassette) (now : Bytes)
    (s : Store) (id fp : Bytes) (p : StreamPair)
    → (load_stream y disk c s id fp ≡ ok p → IsValid p)
      × (¬ IsValid p → (e : Error) × (save_stream y disk c now s id fp p ≡ (s, err e)))
unfolding load_stream save_stream
files_guarded y disk c now s id fp p = (
  λ h.
      (let (req, read_req, h₁) = >>=-eq-ok (read_stream_file y disk c s id fp (codes "req")) _ h in
        let (resp, read_resp, h₂) =
          >>=-eq-ok (read_stream_file y disk c s id fp (codes "resp")) _ h₁ in
        (validate_iff p).0 (parse_pair-valid req resp p h₂)),
  λ bad. refused s (validate_stream_pair p) _ (λ valid. bad ((validate_iff p).0 valid)),
)
