-- ===== src/Transport/Status/RoundTrip.antt =====
-- A status text comes through the grpc-message header as it was.
use poly_xrr.Common.{
  ℕ, ◌+◌, ◌*◌, ◌/◌, ◌%◌, ◌<◌, Bytes, false, Bool-cases, some, [], ◌∷◌, All, ◌≡◌, ◌≢◌, refl, ap, sym,
  ◌∙◌, inl, inr, arith,
}
use poly_xrr.Canonical.{has_byte}
use poly_xrr.Transport.Status.{
  upper_digit, is_plain, encode_grpc_message, hex_value, hex_byte, decode_step, decode_loop,
  decode_grpc_message,
}

hex_value-upper_digit : (n : ℕ) → n < 16 → hex_value (upper_digit n) ≡ some n
unfolding hex_value upper_digit
hex_value-upper_digit n h = ground arith

step_plain : (c : ℕ) (s : Bytes) → c ≢ b'%' → decode_step c s ≡ (c, 0)
unfolding decode_step
step_plain c [] h = refl
step_plain c (a ∷ []) h = refl
step_plain c (a ∷ b ∷ s) h = ground arith

loop_plain : (c : ℕ) (s : Bytes) → c ≢ b'%' → decode_loop 0 (c ∷ s) ≡ c ∷ decode_loop 0 s
unfolding decode_loop
loop_plain c s h = simp (step_plain c s h)

loop_escape :
    (c : ℕ) (s : Bytes)
    → c < 256
    → decode_loop 0 (b'%' ∷ upper_digit (c / 16) ∷ upper_digit (c % 16) ∷ s) ≡ c ∷ decode_loop 0 s
unfolding decode_loop decode_step hex_byte
loop_escape c s h =
    let high = hex_value-upper_digit (c / 16) (omega arith) in
    let low = hex_value-upper_digit (c % 16) (omega arith) in
    let whole : c / 16 * 16 + c % 16 ≡ c = omega arith in simp (high, low, whole)

-- The early return of a text without an escape is what the loop would give.
loop_unescaped : (s : Bytes) → has_byte b'%' s ≡ false → decode_loop 0 s ≡ s
unfolding decode_loop has_byte
loop_unescaped [] h = refl
loop_unescaped (c ∷ s) h =
    let other : c ≢ b'%' = λ e. ground arith in
    let rest : has_byte b'%' s ≡ false = ground arith in
    simp (step_plain c s other, loop_unescaped s rest)

decode-decode_loop : (s : Bytes) → decode_grpc_message s ≡ decode_loop 0 s
unfolding decode_grpc_message
decode-decode_loop s = elim (Bool-cases (has_byte b'%' s)) [
  | inl escaped ↦ simp escaped
  | inr plain ↦ simp plain (sym (loop_unescaped s plain))
]

loop-encode : (s : Bytes) → All (λ c. c < 256) s → decode_loop 0 (encode_grpc_message s) ≡ s
unfolding decode_loop encode_grpc_message
loop-encode [] h = refl
loop-encode (c ∷ s) (small, h) = elim (Bool-cases (is_plain c)) [
  | inl plain ↦
      let other : c ≢ b'%' = unfold is_plain in λ e. ground arith in
      simp plain (loop_plain c _ other ∙ ap (λ x. c ∷ x) (loop-encode s h))
  | inr escaped ↦ simp escaped (loop_escape c _ small ∙ ap (λ x. c ∷ x) (loop-encode s h))
]

-- Every text of bytes is what `decodeGRPCMessage` makes of its encoding.
pub decode-encode_grpc_message :
    (s : Bytes) → All (λ c. c < 256) s → decode_grpc_message (encode_grpc_message s) ≡ s
decode-encode_grpc_message s h = decode-decode_loop (encode_grpc_message s) ∙ loop-encode s h
