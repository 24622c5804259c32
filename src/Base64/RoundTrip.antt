-- ===== src/Base64/RoundTrip.antt =====
-- What encoding/base64 writes, `decodeStrictB64` of go/stream.go reads.
use poly_xrr.Common.{
  ℕ, ◌+◌, ◌*◌, ◌/◌, ◌%◌, ◌<◌, Bytes, AreBytes, true, false, ◌==◌, some, [], ◌∷◌, ◌≡◌, refl, arith,
}
use poly_xrr.Base64.{
  digit, digit_value, encode, decode, decode_groups, without_breaks, one_byte, two_bytes,
  three_bytes, is_b64, all_b64, decode_strict_b64,
}

digit_value-digit : (n : ℕ) → n < 64 → digit_value (digit n) ≡ some n
unfolding digit_value digit
digit_value-digit n h = ground arith

digit-ne-padding : (n : ℕ) → n < 64 → (digit n == b'=') ≡ false
unfolding digit
digit-ne-padding n h = ground arith

is_b64-digit : (n : ℕ) → n < 64 → is_b64 (digit n) ≡ true
unfolding digit is_b64
is_b64-digit n h = ground arith

all_b64-encode : (s : Bytes) → AreBytes s → all_b64 (encode s) ≡ true
unfolding encode all_b64
all_b64-encode [] h = refl
all_b64-encode (x ∷ []) (hx, h) =
    unfold is_b64 in
    simp (is_b64-digit (x / 4) (omega arith), is_b64-digit (x % 4 * 16) (omega arith))
all_b64-encode (x ∷ y ∷ []) (hx, (hy, h)) =
    unfold is_b64 in
    simp (
      is_b64-digit (x / 4) (omega arith),
      is_b64-digit (x % 4 * 16 + y / 16) (omega arith),
      is_b64-digit (y % 16 * 4) (omega arith),
    )
all_b64-encode (x ∷ y ∷ z ∷ s) (hx, (hy, (hz, h))) = simp (
  is_b64-digit (x / 4) (omega arith),
  is_b64-digit (x % 4 * 16 + y / 16) (omega arith),
  is_b64-digit (y % 16 * 4 + z / 64) (omega arith),
  is_b64-digit (z % 64) (omega arith),
  all_b64-encode s h,
)

one_byte-encode : (x : ℕ) → x < 256 → decode_groups (encode (x ∷ [])) ≡ some (x ∷ [])
unfolding encode decode_groups one_byte
one_byte-encode x hx =
    let bits : (x % 4 * 16 % 16 == 0) ≡ true = ground arith in
    let byte : x / 4 * 4 + x % 4 * 16 / 16 ≡ x = omega arith in
    simp (
      digit_value-digit (x / 4) (omega arith),
      digit_value-digit (x % 4 * 16) (omega arith),
      bits,
      byte,
    )

two_bytes-encode :
    (x y : ℕ) → x < 256 → y < 256 → decode_groups (encode (x ∷ y ∷ [])) ≡ some (x ∷ y ∷ [])
unfolding encode decode_groups two_bytes
two_bytes-encode x y hx hy =
    let bits : (y % 16 * 4 % 4 == 0) ≡ true = ground arith in
    let first : x / 4 * 4 + (x % 4 * 16 + y / 16) / 16 ≡ x = omega arith in
    let second : (x % 4 * 16 + y / 16) % 16 * 16 + y % 16 * 4 / 4 ≡ y = omega arith in
    simp (
      digit-ne-padding (y % 16 * 4) (omega arith),
      digit_value-digit (x / 4) (omega arith),
      digit_value-digit (x % 4 * 16 + y / 16) (omega arith),
      digit_value-digit (y % 16 * 4) (omega arith),
      bits,
      first,
      second,
    )

decode_groups-encode : (s : Bytes) → AreBytes s → decode_groups (encode s) ≡ some s
unfolding encode decode_groups three_bytes
decode_groups-encode [] h = refl
decode_groups-encode (x ∷ []) (hx, h) = one_byte-encode x hx
decode_groups-encode (x ∷ y ∷ []) (hx, (hy, h)) = two_bytes-encode x y hx hy
decode_groups-encode (x ∷ y ∷ z ∷ s) (hx, (hy, (hz, h))) =
    let first : x / 4 * 4 + (x % 4 * 16 + y / 16) / 16 ≡ x = omega arith in
    let second : (x % 4 * 16 + y / 16) % 16 * 16 + (y % 16 * 4 + z / 64) / 4 ≡ y = omega arith in
    let third : (y % 16 * 4 + z / 64) % 4 * 64 + z % 64 ≡ z = omega arith in
    simp (
      digit-ne-padding (y % 16 * 4 + z / 64) (omega arith),
      digit-ne-padding (z % 64) (omega arith),
      digit_value-digit (x / 4) (omega arith),
      digit_value-digit (x % 4 * 16 + y / 16) (omega arith),
      digit_value-digit (y % 16 * 4 + z / 64) (omega arith),
      digit_value-digit (z % 64) (omega arith),
      decode_groups-encode s h,
      first,
      second,
      third,
    )

-- Bytes from a text, and back: what the decoder takes apart is what the encoder writes.
pub without_breaks-all_b64 : (s : Bytes) → all_b64 s ≡ true → without_breaks s ≡ s
unfolding without_breaks all_b64 is_b64
without_breaks-all_b64 [] h = refl
without_breaks-all_b64 (c ∷ s) h = ground (arith, without_breaks-all_b64 s)

pub digit-digit_value : (c n : ℕ) → digit_value c ≡ some n → (digit n ≡ c) × (n < 64)
unfolding digit_value digit
digit-digit_value c n h = ground arith

pub decode_strict_b64-encode : (s : Bytes) → AreBytes s → decode_strict_b64 (encode s) ≡ some s
unfolding decode_strict_b64 decode
decode_strict_b64-encode s h = simp (
  all_b64-encode s h,
  without_breaks-all_b64 (encode s) (all_b64-encode s h),
  decode_groups-encode s h,
)
