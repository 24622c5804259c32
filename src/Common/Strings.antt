-- ===== src/Common/Strings.antt =====
-- The functions of Go's package strings that the code calls, on ASCII text: bytes above 127 are
-- left as they are, and are no white space.
pub mod Trim
use Prim.Native.Nat.{ℕ, ◌+◌, ◌-◌}
use mathlib.Core.Path.{◌≡◌, refl}
use mathlib.Core.Bool.{Bool, true, false, ◌&&◌, ◌||◌}
use mathlib.Core.List.{List, [], ◌∷◌, ◌++◌, map, reverse}
use native.Mathlib.Omega.{arith}
use poly_xrr.Common.Tests.{◌==◌, leb, if◌then◌else◌}
use poly_xrr.Common.Texts.{Bytes, bytes_eq}

abbrev pub is_space : ℕ → Bool
is_space c = c == 32 || (leb 9 c && leb c 13)

unfoldable pub upper : ℕ → ℕ
upper c = if leb b'a' c && leb c b'z' then c - 32 else c

lower : ℕ → ℕ
lower c = if leb b'A' c && leb c b'Z' then c + 32 else c

unfoldable pub to_upper : Bytes → Bytes
unfolding upper
to_upper = map upper

unfoldable pub to_lower : Bytes → Bytes
unfolding lower
to_lower = map lower

pub trim_left : Bytes → Bytes
trim_left [] = []
trim_left (c ∷ s) = if is_space c then trim_left s else c ∷ s

-- One byte in front of a trimmed rest.
pub keep_back : ℕ → Bytes → Bytes
keep_back c [] = if is_space c then [] else c ∷ []
keep_back c (x ∷ xs) = c ∷ x ∷ xs

-- Drops the white space at the end.
pub trim_right : Bytes → Bytes
unfolding keep_back
trim_right [] = []
trim_right (c ∷ s) = keep_back c (trim_right s)

unfoldable pub trim_space : Bytes → Bytes
unfolding trim_left trim_right
trim_space s = trim_right (trim_left s)

unfoldable pub has_prefix : Bytes → Bytes → Bool
has_prefix s [] = true
has_prefix [] (p ∷ ps) = false
has_prefix (c ∷ s) (p ∷ ps) = (c == p) && has_prefix s ps

-- `strings.ReplaceAll` with one byte for one byte.
unfoldable pub replace_byte : ℕ → ℕ → Bytes → Bytes
replace_byte old new = map (λ c. if c == old then new else c)

-- `strings.Split` at one byte: the parts, the first of them first.
unfoldable pub split : ℕ → Bytes → List Bytes
split sep [] = [] ∷ []
split sep (c ∷ s) = elim (split sep s) [
  | [] ↦ []
  | part ∷ parts ↦ if c == sep then [] ∷ part ∷ parts else (c ∷ part) ∷ parts
]

-- Membership in a set of names.
unfoldable pub contains : List Bytes → Bytes → Bool
contains [] v = false
contains (x ∷ xs) v = bytes_eq x v || contains xs v

unfoldable pub is_empty : Bytes → Bool
is_empty [] = true
is_empty (c ∷ s) = false
