-- ===== src/Base64.antt =====
-- Standard base64: `decodeStrictB64` of go/stream.go, and the encoding and the strict decoding of Go's
-- package encoding/base64, with padding.
pub mod RoundTrip
pub mod Strict
mod Tests
use poly_xrr.Common.{
  ℕ, ◌+◌, ◌-◌, ◌*◌, ◌/◌, ◌%◌, Bytes, Bool, true, false, ◌&&◌, ◌||◌, ◌==◌, leb, ltb, Option, none,
  some, List, [], ◌∷◌, ◌++◌, if◌then◌else◌,
}

-- The letter of a value below 64, and the value of a letter.
pub digit : ℕ → ℕ
digit n =
    if ltb n 26
    then 65 + n
    else if ltb n 52
    then 71 + n
    else if ltb n 62
    then n - 4
    else if n == 62
    then b'+'
    else b'/'

pub digit_value : ℕ → Option ℕ
digit_value c =
    if leb b'A' c && leb c b'Z'
    then some (c - 65)
    else if leb b'a' c && leb c b'z'
    then some (c - 71)
    else if leb b'0' c && leb c b'9'
    then some (c + 4)
    else if c == b'+'
    then some 62
    else if c == b'/'
    then some 63
    else none

unfoldable pub encode : Bytes → Bytes
unfolding digit
encode [] = []
encode (x ∷ []) = digit (x / 4) ∷ digit (x % 4 * 16) ∷ b'=' ∷ b'=' ∷ []
encode (x ∷ y ∷ []) = digit (x / 4) ∷ digit (x % 4 * 16 + y / 16) ∷ digit (y % 16 * 4) ∷ b'=' ∷ []
encode (x ∷ y ∷ z ∷ s) =
    digit (x / 4)
    ∷ digit (x % 4 * 16 + y / 16)
    ∷ digit (y % 16 * 4 + z / 64)
    ∷ digit (z % 64)
    ∷ encode s

-- The bytes of a group whose padding is two, one or no letters. Strict decoding wants the bits that a
-- padding leaves over to be zero.
pub one_byte : Option ℕ → Option ℕ → Option Bytes
one_byte (some a) (some b) = if b % 16 == 0 then some ((a * 4 + b / 16) ∷ []) else none
one_byte _ _ = none

pub two_bytes : Option ℕ → Option ℕ → Option ℕ → Option Bytes
two_bytes (some a) (some b) (some c) =
    if c % 4 == 0 then some ((a * 4 + b / 16) ∷ (b % 16 * 16 + c / 4) ∷ []) else none
two_bytes _ _ _ = none

pub three_bytes : Option ℕ → Option ℕ → Option ℕ → Option ℕ → Option Bytes → Option Bytes
three_bytes (some a) (some b) (some c) (some d) (some rest) =
    some ((a * 4 + b / 16) ∷ (b % 16 * 16 + c / 4) ∷ (c % 4 * 64 + d) ∷ rest)
three_bytes _ _ _ _ _ = none

-- Padding ends the text.
pub at_end : Bytes → Option Bytes → Option Bytes
at_end [] group = group
at_end (c ∷ s) group = none

unfoldable pub decode_groups : Bytes → Option Bytes
unfolding digit_value one_byte two_bytes three_bytes at_end
decode_groups [] = some []
decode_groups (a ∷ b ∷ c ∷ d ∷ s) =
    let rest = decode_groups s in
    if c == b'=' && d == b'='
    then at_end s (one_byte (digit_value a) (digit_value b))
    else if d == b'='
    then at_end s (two_bytes (digit_value a) (digit_value b) (digit_value c))
    else three_bytes (digit_value a) (digit_value b) (digit_value c) (digit_value d) rest
decode_groups _ = none

-- The line breaks in a text, which the package's decoder skips wherever they stand.
pub without_breaks : Bytes → Bytes
without_breaks [] = []
without_breaks (c ∷ s) = if c == 10 || c == 13 then without_breaks s else c ∷ without_breaks s

unfoldable pub decode : Bytes → Option Bytes
unfolding without_breaks
decode s = decode_groups (without_breaks s)

-- The alphabet that `decodeStrictB64` lets pass.
pub is_b64 : ℕ → Bool
is_b64 c =
    (leb b'A' c && leb c b'Z')
    || ((leb b'a' c && leb c b'z')
        || ((leb b'0' c && leb c b'9') || (c == b'+' || (c == b'/' || c == b'='))))

pub all_b64 : Bytes → Bool
unfolding is_b64
all_b64 [] = true
all_b64 (c ∷ s) = is_b64 c && all_b64 s

unfoldable pub decode_strict_b64 : Bytes → Option Bytes
unfolding all_b64
decode_strict_b64 s = if all_b64 s then decode s else none
