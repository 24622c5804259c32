-- ===== src/Redact/Names.antt =====
-- The normalization of field names, go/redact.go.
use poly_xrr.Common.{
  ◌+◌, ◌++◌, ◌≤◌, ◌⊎◌, inl, inr, sym, ap, ◌∙◌, ℕ, Bytes, [], ◌∷◌, map, ◌≡◌, refl, ap₂, arith,
  if◌then◌else◌, ◌==◌,
}
use poly_xrr.Common.Strings.{is_space, upper, to_upper, trim_space, replace_byte}
use poly_xrr.Common.Strings.Trim.{AllSpace, trim_space-map, trim_space-around}
use poly_xrr.Redact.{Redactor, normalize_key, is_secret_key}

-- What normalization does to one byte.
fold : ℕ → ℕ
unfolding upper
fold c = upper (if c == b'-' then b'_' else c)

fold_keeps : (c : ℕ) → is_space (fold c) ≡ is_space c
unfolding fold
fold_keeps c = ground arith

map-fold : (s : Bytes) → to_upper (replace_byte b'-' b'_' s) ≡ map fold s
unfolding to_upper replace_byte fold
map-fold [] = refl
map-fold (c ∷ s) = ap₂ ◌∷◌ refl (map-fold s)

-- A byte and what may stand in its place: itself, the capital of a letter, or an underscore for a dash.
abbrev pub Alike : ℕ → ℕ → Type 0
Alike c d = (c ≡ d) ⊎ (((b'a' ≤ c) × (c ≤ b'z') × (c ≡ d + 32)) ⊎ ((c ≡ b'-') × (d ≡ b'_')))

abbrev pub AllAlike : Bytes → Bytes → Type 0
AllAlike [] [] = Unit
AllAlike (c ∷ s) (d ∷ t) = Alike c d × AllAlike s t
AllAlike _ _ = ⊥

fold-Alike : (c d : ℕ) → Alike c d → fold c ≡ fold d
unfolding fold upper
fold-Alike c d (inl e) = ap fold e
fold-Alike c d (inr (inl (low, high, e))) = ground arith
fold-Alike c d (inr (inr (e, f))) = ground arith

map-fold-AllAlike : (s t : Bytes) → AllAlike s t → map fold s ≡ map fold t
map-fold-AllAlike [] [] h = refl
map-fold-AllAlike [] (d ∷ t) h = elim h [ ]
map-fold-AllAlike (c ∷ s) [] h = elim h [ ]
map-fold-AllAlike (c ∷ s) (d ∷ t) (e, h) = ap₂ ◌∷◌ (fold-Alike c d e) (map-fold-AllAlike s t h)

normalize_key-fold : (k : Bytes) → normalize_key k ≡ trim_space (map fold k)
unfolding normalize_key
normalize_key-fold k = map-fold (trim_space k) ∙ sym (trim_space-map fold fold_keeps k)

normalize_key-around :
    (front s back : Bytes)
    → AllSpace front
    → AllSpace back
    → normalize_key (front ++ (s ++ back)) ≡ normalize_key s
unfolding normalize_key
normalize_key-around front s back hf hb =
    ap (λ x. to_upper (replace_byte b'-' b'_' x)) (trim_space-around front s back hf hb)

-- Two names that differ in the case of letters, in dashes for underscores, or in white space around one
-- of them are both secret or both not.
pub is_secret_key-Alike :
    (r : Redactor) (front s back t : Bytes)
    → AllSpace front
    → AllSpace back
    → AllAlike s t
    → is_secret_key r (front ++ (s ++ back)) ≡ is_secret_key r t
unfolding is_secret_key
is_secret_key-Alike r front s back t hf hb alike =
    let same : normalize_key (front ++ (s ++ back)) ≡ normalize_key t =
      normalize_key-around front s back hf hb
      ∙ normalize_key-fold s
      ∙ ap trim_space (map-fold-AllAlike s t alike)
      ∙ sym (normalize_key-fold t) in
    rw same
