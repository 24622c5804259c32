-- ===== src/Canonical.antt =====
-- go/canonical.go. What is outside the module is a `Digest`: `encode` is what `json.Encoder` writes
-- with `SetEscapeHTML(false)`, its final newline included, or none if it fails; `sha256` is
-- `sha256.Sum256`.
pub mod Unescape
mod Tests
use poly_xrr.Common.{
  ℕ, zero, suc, ◌+◌, ◌/◌, ◌%◌, Bytes, codes, Bool, true, false, not, ◌||◌, ltb, ◌==◌, Option, none,
  some, List, [], ◌∷◌, ◌++◌, take, if◌then◌else◌,
}
use poly_xrr.Common.Strings.{has_prefix, is_empty}
use poly_xrr.Errors.{Result, ok, err, ◌>>=◌, marshal_failed}
use poly_xrr.Stream.Model.{Payload}

pub record Digest : Type 0 where
  pub encode : Payload → Option Bytes
  pub sha256 : Bytes → Bytes

-- U+2028 and U+2029 in UTF-8.
abbrev pub raw_line_separator : Bytes
raw_line_separator = 0xe2 ∷ 0x80 ∷ 0xa8 ∷ []

abbrev pub raw_paragraph_separator : Bytes
raw_paragraph_separator = 0xe2 ∷ 0x80 ∷ 0xa9 ∷ []

abbrev pub backslash : ℕ
backslash = 0x5c

-- One round of the loop of `unescapeLineTerminators`, at the byte `c` with `rest` behind it: what is
-- appended, and by how much more than one `i` advances.
unescape_step : ℕ → Bytes → Bytes × ℕ
unescape_step c rest =
    if not (c == backslash) || is_empty rest
    then (c ∷ [], 0)
    else if has_prefix rest (codes "u2028")
    then (raw_line_separator, 5)
    else if has_prefix rest (codes "u2029")
    then (raw_paragraph_separator, 5)
    else (c ∷ take 1 rest, 1)

-- The loop, with the bytes that are still to be passed over.
pub unescape_loop : ℕ → Bytes → Bytes
unfolding unescape_step
unescape_loop skip [] = []
unescape_loop (suc k) (c ∷ rest) = unescape_loop k rest
unescape_loop zero (c ∷ rest) =
    let (out, skip) = unescape_step c rest in out ++ unescape_loop skip rest

-- `bytes.IndexByte(b, c) >= 0`.
unfoldable pub has_byte : ℕ → Bytes → Bool
has_byte c [] = false
has_byte c (x ∷ xs) = x == c || has_byte c xs

pub unescape_line_terminators : Bytes → Bytes
unfolding unescape_loop has_byte
unescape_line_terminators b = if has_byte backslash b then unescape_loop 0 b else b

-- `bytes.TrimSuffix` with a newline.
trim_newline : Bytes → Bytes
trim_newline [] = []
trim_newline (c ∷ []) = if c == 10 then [] else c ∷ []
trim_newline (c ∷ d ∷ s) = c ∷ trim_newline (d ∷ s)

or_marshal_failed : Option Bytes → Result Bytes
or_marshal_failed none = err marshal_failed
or_marshal_failed (some b) = ok b

unfoldable pub canonical_json : Digest → Payload → Result Bytes
unfolding or_marshal_failed unescape_line_terminators trim_newline
canonical_json d v = do
  written ← or_marshal_failed (d.encode v)
  ok (unescape_line_terminators (trim_newline written))

abbrev hex_digit : ℕ → ℕ
hex_digit n = if ltb n 10 then 48 + n else 87 + n

-- `hex.EncodeToString`.
hex : Bytes → Bytes
hex [] = []
hex (b ∷ bs) = hex_digit (b / 16) ∷ hex_digit (b % 16) ∷ hex bs

-- `hex.EncodeToString(sum[:4])` of a hash.
unfoldable pub short_hash : Digest → Bytes → Bytes
unfolding hex
short_hash d canonical = hex (take 4 (d.sha256 canonical))

canonical_fingerprint : Digest → Payload → Result Bytes
canonical_fingerprint d v = do canonical ← canonical_json d v; ok (short_hash d canonical)
