-- ===== src/Grpc/Replay/Terminal.antt =====
-- The error that ends a replayed gRPC call, go/adapters/grpc/stream.go.
use poly_xrr.Common.{
  ℕ, ◌%◌, ◌^◌, ◌==◌, ==_iff, Bytes, bytes_eq, true, false, [], ◌∷◌, ◌++◌, drop, length, ◌≡◌, ◌≢◌,
  ◌<◌, refl, ap, ◌∙◌, arith,
}
use poly_xrr.Common.Maps.{lookup}
use poly_xrr.Common.Strings.{has_prefix}
use poly_xrr.Errors.{Error, eof, recorded, status_error}
use poly_xrr.Stream.Model.{Payload}
use poly_xrr.Replay.{StreamReplay, terminal_err}
use poly_xrr.Grpc.{Grpc}
use poly_xrr.Grpc.Record.{status_payload}
use poly_xrr.Grpc.Replay.{rendering, cut_prefix, recorded_status_err, map_err}

has_prefix-append : (p s : Bytes) → has_prefix (p ++ s) p ≡ true
unfolding has_prefix
has_prefix-append [] s = refl
has_prefix-append (c ∷ p) s =
    let same : (c == c) ≡ true = (==_iff c c).1 refl in simp (same, has_prefix-append p s)

drop-length : (p s : Bytes) → drop (length p) (p ++ s) ≡ s
drop-length [] s = refl
drop-length (c ∷ p) s = drop-length p s

cut_prefix-append : (p s : Bytes) → cut_prefix (p ++ s) p ≡ s
unfolding cut_prefix
cut_prefix-append p s = simp (has_prefix-append p s, drop-length p s)

module _ {Msg : Type 0} (g : Grpc Msg) where
  rebuilt :
      (payload : Payload) (code : ℕ) (desc : Bytes)
      → code ≢ 0
      → code < 2 ^ 32
      → payload ≡ status_payload code
      → recorded_status_err g payload (rendering (g.code_name code) ++ desc)
        ≡ status_error code desc
  unfolding recorded_status_err lookup bytes_eq
  rebuilt payload code desc bad small same =
      let whole : code % 2 ^ 32 ≡ code = omega arith in
      let failed : (code == 0) ≡ false = ground arith in
      simp (same, whole, failed, cut_prefix-append (rendering (g.code_name code)) desc)

  -- A call that failed with a status other than OK, recorded with that status code and the text that
  -- grpc-go writes for a status, ends its replay with the same status: the code and the description are
  -- those of the live error. The text of a recorded error is the one that was recorded.
  pub map_err-terminal_err :
      (rp : StreamReplay) (code : ℕ) (desc : Bytes)
      → ((text : Bytes) → g.error_text (recorded text) ≡ text)
      → code ≢ 0
      → code < 2 ^ 32
      → rp.pair.resp_payload ≡ status_payload code
      → rp.pair.recorded_err ≡ rendering (g.code_name code) ++ desc
      → map_err g rp (terminal_err rp) ≡ status_error code desc
  unfolding terminal_err map_err
  map_err-terminal_err rp code desc shows bad small payload text =
      let of_text : Bytes → Error = λ t. elim t [ [] ↦ eof | c ∷ cs ↦ recorded (c ∷ cs) ] in
      let ended : terminal_err rp ≡ recorded (rendering (g.code_name code) ++ desc) =
        ap of_text text in
      ap (map_err g rp) ended
      ∙ ap (recorded_status_err g rp.pair.resp_payload)
          (shows (rendering (g.code_name code) ++ desc))
      ∙ rebuilt rp.pair.resp_payload code desc bad small payload
