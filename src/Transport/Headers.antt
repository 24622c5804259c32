-- ===== src/Transport/Headers.antt =====
-- Header blocks: go/adapters/grpctransport/headers.go. The value patterns are those of Redact.
pub mod Paths
pub mod Sanitized
mod Tests
use poly_xrr.Common.{
  ℕ, zero, suc, ◌+◌, ◌-◌, ◌*◌, ◌%◌, ◌^◌, ℤ, pos, negsuc, Bytes, codes, bytes_eq, Bool, true, false,
  not, ◌&&◌, ◌||◌, ◌==◌, leb, Option, none, some, List, [], ◌∷◌, if◌then◌else◌,
}
use poly_xrr.Common.Strings.{has_prefix, is_empty}
use poly_xrr.Redact.{Redactor, redact_field}
use poly_xrr.Transport.Status.{decode_grpc_message}

-- `hpack.HeaderField`.
pub record HeaderField : Type 0 where
  pub name : Bytes
  pub value : Bytes
  pub sensitive : Bool

-- One round of the loop of `sanitizeHeaders`.
pub sanitize_field : (Bytes → Bool) → Redactor → HeaderField → HeaderField
sanitize_field secret_value r f =
    if has_prefix f.name (codes ":")
    then f
    else (let (v, redacted) = redact_field secret_value r f.name f.value in
        if redacted then record f { value = v } else f)

pub sanitize_headers : (Bytes → Bool) → Redactor → List HeaderField → List HeaderField
unfolding sanitize_field
sanitize_headers secret_value r [] = []
sanitize_headers secret_value r (f ∷ fs) =
    sanitize_field secret_value r f ∷ sanitize_headers secret_value r fs

unfoldable pub header_value : List HeaderField → Bytes → Bytes
header_value [] name = []
header_value (f ∷ fs) name = if bytes_eq f.name name then f.value else header_value fs name

pub has_header : List HeaderField → Bytes → Bool
has_header [] name = false
has_header (f ∷ fs) name = bytes_eq f.name name || has_header fs name

-- `strings.TrimPrefix(path, "/")`.
pub trim_slash : Bytes → Bytes
trim_slash [] = []
trim_slash (c ∷ s) = if c == b'/' then s else c ∷ s

-- The text before and behind the last slash.
pub cut_last : Bytes → Option (Bytes × Bytes)
cut_last [] = none
cut_last (c ∷ s) = elim (cut_last s) [
  | some (a, b) ↦ some (c ∷ a, b)
  | none ↦ if c == b'/' then some ([], s) else none
]

-- The slash must be neither first nor last.
pub named : Option (Bytes × Bytes) → Option (Bytes × Bytes)
named (some (c ∷ service, d ∷ method)) = some (c ∷ service, d ∷ method)
named _ = none

unfoldable pub split_path : Bytes → Option (Bytes × Bytes)
unfolding trim_slash cut_last named
split_path path = named (cut_last (trim_slash path))

-- `strconv.Atoi`: the digits, behind a value so far.
digits : ℕ → Bytes → Option ℕ
digits n [] = some n
digits n (c ∷ s) = if leb b'0' c && leb c b'9' then digits (n * 10 + (c - 48)) s else none

some_digits : Bytes → Option ℕ
unfolding digits
some_digits [] = none
some_digits (c ∷ s) = digits 0 (c ∷ s)

-- A value that an int of 64 bits holds.
int_pos : Option ℕ → Option ℤ
int_pos none = none
int_pos (some n) = if leb (n + 1) (2 ^ 63) then some (pos n) else none

int_neg : Option ℕ → Option ℤ
int_neg none = none
int_neg (some zero) = some (pos 0)
int_neg (some (suc n)) = if leb (n + 1) (2 ^ 63) then some (negsuc n) else none

atoi : Bytes → Option ℤ
unfolding some_digits int_pos int_neg
atoi [] = none
atoi (c ∷ s) =
    if c == b'-'
    then int_neg (some_digits s)
    else if c == b'+'
    then int_pos (some_digits s)
    else int_pos (some_digits (c ∷ s))

-- `codes.Code(n)`, an unsigned integer of 32 bits.
unfoldable pub code_of : ℤ → ℕ
code_of (pos n) = n % 2 ^ 32
code_of (negsuc n) = 2 ^ 32 - 1 - n % 2 ^ 32

abbrev unknown_code : ℕ
unknown_code = 2

-- The code and the message; the message is decoded only behind a number.
status_of : Option ℤ → Bytes → ℕ × Bytes
unfolding code_of
status_of none message = (unknown_code, message)
status_of (some n) message = (code_of n, decode_grpc_message message)

pub grpc_status : List HeaderField → Option (ℕ × Bytes)
unfolding atoi status_of header_value has_header
grpc_status fields =
    let raw = header_value fields (codes "grpc-status") in
    if is_empty raw && not (has_header fields (codes "grpc-status"))
    then none
    else some (status_of (atoi raw) (header_value fields (codes "grpc-message")))

unfoldable pub is_compressed : List HeaderField → Bool
unfolding header_value
is_compressed fields =
    let enc = header_value fields (codes "grpc-encoding") in
    not (is_empty enc) && not (bytes_eq enc (codes "identity"))
