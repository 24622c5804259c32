-- ===== src/Transport/Headers/Paths.antt =====
-- `splitPath` of go/adapters/grpctransport/headers.go.
use poly_xrr.Common.{
  ℕ, Bytes, false, Bool-cases, ◌==◌, Option, none, some, [], ◌∷◌, ◌++◌, if◌then◌else◌, ◌≡◌, ◌≢◌,
  ◌↔◌, refl, sym, ap, ap₂, ◌∙◌, Option-cases, inl, inr, arith,
}
use poly_xrr.Canonical.{has_byte}
use poly_xrr.Transport.Headers.{trim_slash, cut_last, named, split_path}

no_cut : (s : Bytes) → has_byte b'/' s ≡ false → cut_last s ≡ none
unfolding cut_last has_byte
no_cut [] h = refl
no_cut (c ∷ s) h =
    let rest : has_byte b'/' s ≡ false = ground arith in
    let other : (c == b'/') ≡ false = ground arith in simp (no_cut s rest, other)

cut_last_lem : (a b : Bytes) → has_byte b'/' b ≡ false → cut_last (a ++ (b'/' ∷ b)) ≡ some (a, b)
unfolding cut_last
cut_last_lem [] b h = simp (no_cut b h)
cut_last_lem (c ∷ a) b h = simp (cut_last_lem a b h)

uncut : (s : Bytes) → cut_last s ≡ none → has_byte b'/' s ≡ false
unfolding cut_last has_byte
uncut [] h = refl
uncut (c ∷ s) h = ground (arith, uncut s)

abbrev pair : Bytes → Bytes → Option (Bytes × Bytes)
pair a b = some (a, b)

abbrev at_slash : ℕ → Bytes → Option (Bytes × Bytes)
at_slash c s = if c == b'/' then some ([], s) else none

first_cut : (c : ℕ) (s a b : Bytes) → at_slash c s ≡ pair a b → (c ≡ b'/') × ([] ≡ a) × (s ≡ b)
first_cut c s a b h = elim (Bool-cases (c == b'/')) [
  | inl slash ↦ let found : pair [] s ≡ pair a b = simp slash at h in (ground arith, cc, cc)
  | inr other ↦ let none_there : none ≡ pair a b = simp other at h in cc
]

cut_last_inv :
    (s a b : Bytes) → cut_last s ≡ some (a, b) → (s ≡ a ++ (b'/' ∷ b)) × (has_byte b'/' b ≡ false)
unfolding cut_last
cut_last_inv [] a b h = cc
cut_last_inv (c ∷ s) a b h = elim (Option-cases (cut_last s)) [
  | inr ((x, y), e) ↦
      let (whole, clean) = cut_last_inv s x y e in
      let found : pair (c ∷ x) y ≡ pair a b = simp e at h in
      let ea : c ∷ x ≡ a = cc in
      let eb : y ≡ b = cc in
      (
        ap (λ z. c ∷ z) whole ∙ ap₂ (λ u v. u ++ (b'/' ∷ v)) ea eb,
        ap (has_byte b'/') (sym eb) ∙ clean,
      )
  | inl e ↦
      let found : at_slash c s ≡ pair a b = simp e at h in
      let (slash, ea, eb) = first_cut c s a b found in
      (ap₂ ◌∷◌ slash eb ∙ ap (λ u. u ++ (b'/' ∷ b)) ea, ap (has_byte b'/') (sym eb) ∙ uncut s e)
]

named_inv :
    (o : Option (Bytes × Bytes)) (a b : Bytes)
    → named o ≡ some (a, b)
    → (o ≡ some (a, b)) × (a ≢ []) × (b ≢ [])
unfolding named
named_inv none a b h = cc
named_inv (some ([], d)) a b h = cc
named_inv (some (c ∷ x, [])) a b h = cc
named_inv (some (c ∷ x, d ∷ y)) a b h = (h, λ e. cc, λ e. cc)

named_lem : (a b : Bytes) → a ≢ [] → b ≢ [] → named (some (a, b)) ≡ some (a, b)
unfolding named
named_lem [] b ha hb = absurd (ha refl)
named_lem (c ∷ a) [] ha hb = absurd (hb refl)
named_lem (c ∷ a) (d ∷ b) ha hb = refl

-- A path names a service and a method exactly when it is, behind one optional slash, the service, a
-- slash and the method, neither of them empty and the method without a slash.
pub split_path_iff :
    (path service method : Bytes)
    → (split_path path ≡ some (service, method)) ↔ (
        (trim_slash path ≡ service ++ (b'/' ∷ method))
        × (has_byte b'/' method ≡ false)
        × (service ≢ [])
        × (method ≢ []))
unfolding split_path
split_path_iff path service method = (
  λ h.
      let (cut, some_service, some_method) = named_inv _ service method h in
      let (whole, clean) = cut_last_inv (trim_slash path) service method cut in
      (whole, clean, some_service, some_method),
  λ (whole, clean, some_service, some_method).
      ap (λ s. named (cut_last s)) whole
      ∙ ap named (cut_last_lem service method clean)
      ∙ named_lem service method some_service some_method,
)
