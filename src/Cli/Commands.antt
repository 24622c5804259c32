-- ===== src/Cli/Commands.antt =====
-- The names of commands in go/cmd/xrr/platform.go.
pub mod Collisions
mod Tests
use poly_xrr.Common.{
  ℕ, ◌+◌, ◌-◌, ◌==◌, ltb, Bytes, codes, bytes_eq, Bool, true, false, not, ◌&&◌, ◌||◌, Option, none,
  some, List, [], ◌∷◌, ◌++◌, map, length, take, drop, if◌then◌else◌,
}
use poly_xrr.Common.Maps.{lookup, insert}
use poly_xrr.Common.Strings.{to_lower}
use poly_xrr.Errors.{Error, collision, Result, ok, err}

-- `strings.HasSuffix` and `strings.TrimSuffix`.
pub has_suffix : Bytes → Bytes → Bool
has_suffix s t = not (ltb (length s) (length t)) && bytes_eq (drop (length s - length t) s) t

pub trim_suffix : Bytes → Bytes → Bytes
unfolding has_suffix
trim_suffix s t = if has_suffix s t then take (length s - length t) s else s

abbrev pub exe_exts : List Bytes
exe_exts = codes ".exe" ∷ codes ".com" ∷ codes ".bat" ∷ codes ".cmd" ∷ []

pub without_ext : List Bytes → Bytes → Bytes
unfolding has_suffix trim_suffix
without_ext [] n = n
without_ext (e ∷ es) n =
    if has_suffix n e && ltb (length e) (length n) then trim_suffix n e else without_ext es n

pub cassette_name : Bytes → Bytes
unfolding without_ext
cassette_name name = without_ext exe_exts (to_lower name)

abbrev pub is_windows : Bytes → Bool
is_windows goos = bytes_eq goos (codes "windows")

pub shim_file_name : Bytes → Bytes → Bytes
unfolding has_suffix
shim_file_name name goos =
    if is_windows goos && not (has_suffix (to_lower name) (codes ".exe"))
    then name ++ codes ".exe"
    else name

pub in_names : List Bytes → Bytes → Bool
unfolding cassette_name
in_names [] name = false
in_names (x ∷ xs) name = bytes_eq (cassette_name x) (cassette_name name) || in_names xs name

-- An entry with its list: false for shim, true for deny.
abbrev pub Entry : Type 0
Entry = Bytes × Bool

pub same_list : Bool → Bool → Bool
same_list true b = b
same_list false b = not b

pub same_entry : Entry → Entry → Bool
unfolding same_list
same_entry (e, l) (f, k) = bytes_eq e f && same_list l k

pub clashes : Option Entry → Entry → Bool
unfolding same_entry
clashes none e = false
clashes (some prev) e = not (same_entry prev e)

-- The two loops of `checkCollisions` are one over the entries of both lists.
pub check_entries : List (Bytes × Entry) → List Entry → Result (Unit {0})
unfolding clashes cassette_name
check_entries seen [] = ok tt
check_entries seen (e ∷ es) =
    let c = cassette_name e.0 in
    let rest = check_entries (insert c e seen) es in
    if clashes (lookup c seen) e then err (collision c) else rest

abbrev pub entries : List Bytes → List Bytes → List Entry
entries shim deny = map (λ e. (e, false)) shim ++ map (λ e. (e, true)) deny

pub check_collisions : List Bytes → List Bytes → Result (Unit {0})
unfolding check_entries
check_collisions shim deny = check_entries [] (entries shim deny)
