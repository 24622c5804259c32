-- ===== src/Common/Strings/Trim.antt =====
-- `TrimSpace` commutes with a change of bytes that keeps the white space, and takes away the white
-- space around a text.
use Prim.Native.Nat.{ℕ}
use mathlib.Core.Path.{◌≡◌, refl, ap, ◌∙◌}
use mathlib.Core.Logic.{inl, inr}
use mathlib.Core.Bool.{true}
use mathlib.Core.List.{[], ◌∷◌, ◌++◌, map}
use poly_xrr.Common.Tests.{Bool-cases}
use poly_xrr.Common.Texts.{Bytes}
use poly_xrr.Common.Strings.{is_space, trim_left, keep_back, trim_right, trim_space}

module _ (f : ℕ → ℕ) (keeps : (c : ℕ) → is_space (f c) ≡ is_space c) where
  trim_left-map : (s : Bytes) → trim_left (map f s) ≡ map f (trim_left s)
  unfolding trim_left
  trim_left-map [] = refl
  trim_left-map (c ∷ s) = elim (Bool-cases (is_space c)) [
    | inl e ↦ simp (keeps, e) (trim_left-map s)
    | inr e ↦ simp (keeps, e)
  ]

  keep_back-map : (c : ℕ) (rest : Bytes) → keep_back (f c) (map f rest) ≡ map f (keep_back c rest)
  unfolding keep_back
  keep_back-map c [] = elim (Bool-cases (is_space c)) [
    | inl e ↦ simp (keeps, e)
    | inr e ↦ simp (keeps, e)
  ]
  keep_back-map c (x ∷ xs) = refl

  trim_right-map : (s : Bytes) → trim_right (map f s) ≡ map f (trim_right s)
  unfolding trim_right
  trim_right-map [] = refl
  trim_right-map (c ∷ s) = ap (keep_back (f c)) (trim_right-map s) ∙ keep_back-map c (trim_right s)

  pub trim_space-map : (s : Bytes) → trim_space (map f s) ≡ map f (trim_space s)
  unfolding trim_space
  trim_space-map s = ap trim_right (trim_left-map s) ∙ trim_right-map (trim_left s)

abbrev pub AllSpace : Bytes → Type 0
AllSpace [] = Unit
AllSpace (c ∷ s) = (is_space c ≡ true) × AllSpace s

trim_left-front : (front s : Bytes) → AllSpace front → trim_left (front ++ s) ≡ trim_left s
unfolding trim_left
trim_left-front [] s h = refl
trim_left-front (c ∷ front) s (space, h) = simp space (trim_left-front front s h)

trim_left-space : (s : Bytes) → AllSpace s → trim_left s ≡ []
unfolding trim_left
trim_left-space [] h = refl
trim_left-space (c ∷ s) (space, h) = simp space (trim_left-space s h)

trim_right-space : (s : Bytes) → AllSpace s → trim_right s ≡ []
unfolding trim_right keep_back
trim_right-space [] h = refl
trim_right-space (c ∷ s) (space, h) = simp (trim_right-space s h, space)

trim_right-back : (s back : Bytes) → AllSpace back → trim_right (s ++ back) ≡ trim_right s
unfolding trim_right
trim_right-back [] back h = trim_right-space back h
trim_right-back (c ∷ s) back h = ap (keep_back c) (trim_right-back s back h)

trim-back : (s back : Bytes) → AllSpace back → trim_space (s ++ back) ≡ trim_space s
unfolding trim_space trim_left
trim-back [] back h = ap trim_right (trim_left-space back h)
trim-back (c ∷ s) back h = elim (Bool-cases (is_space c)) [
  | inl e ↦ simp e (trim-back s back h)
  | inr e ↦ simp e (trim_right-back (c ∷ s) back h)
]

-- White space around a text does not count.
pub trim_space-around :
    (front s back : Bytes)
    → AllSpace front
    → AllSpace back
    → trim_space (front ++ (s ++ back)) ≡ trim_space s
unfolding trim_space
trim_space-around front s back hf hb =
    ap trim_right (trim_left-front front (s ++ back) hf) ∙ trim-back s back hb
