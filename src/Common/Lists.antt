-- ===== src/Common/Lists.antt =====
-- Lists measured and indexed by native numbers, and predicates on lists by recursion.
use Prim.Native.Nat.{ℕ, zero, suc, ◌+◌}
use mathlib.Core.Path.{◌≡◌}
use mathlib.Core.Logic.{◌≢◌}
use mathlib.Core.List.{List, [], ◌∷◌, ◌++◌}
use mathlib.Core.Option.{Option, none, some}
use native.Mathlib.Omega.{arith}

module _ {ℓ} {A : Type ℓ} where
  abbrev pub length : List A → ℕ
  length [] = 0
  length (x ∷ xs) = suc (length xs)

  abbrev pub get_elem? : List A → ℕ → Option A
  get_elem? [] i = none
  get_elem? (x ∷ xs) zero = some x
  get_elem? (x ∷ xs) (suc i) = get_elem? xs i

  abbrev pub take : ℕ → List A → List A
  take zero xs = []
  take (suc n) [] = []
  take (suc n) (x ∷ xs) = x ∷ take n xs

  abbrev pub drop : ℕ → List A → List A
  drop zero xs = xs
  drop (suc n) [] = []
  drop (suc n) (x ∷ xs) = drop n xs

  pub length-append : (xs ys : List A) → length (xs ++ ys) ≡ length xs + length ys
  length-append [] ys = omega arith
  length-append (x ∷ xs) ys = omega (arith, length-append xs ys)

module _ {ℓ κ} {A : Type ℓ} (P : A → Type κ) where
  abbrev pub All : List A → Type κ
  All [] = Unit
  All (x ∷ xs) = P x × All xs

  pub All-append : (xs ys : List A) → All xs → All ys → All (xs ++ ys)
  All-append [] ys _ hy = hy
  All-append (x ∷ xs) ys (px, hx) hy = (px, All-append xs ys hx hy)

  pub All-append_left : (xs ys : List A) → All (xs ++ ys) → All xs
  All-append_left [] ys h = tt
  All-append_left (x ∷ xs) ys (px, h) = (px, All-append_left xs ys h)

  pub All-append_right : (xs ys : List A) → All (xs ++ ys) → All ys
  All-append_right [] ys h = h
  All-append_right (x ∷ xs) ys (px, h) = All-append_right xs ys h

pub All-map {ℓ κ μ} :
    {A : Type ℓ} (P : A → Type κ) (Q : A → Type μ) (f : (a : A) → P a → Q a) (xs : List A)
    → All P xs
    → All Q xs
All-map P Q f [] h = tt
All-map P Q f (x ∷ xs) (px, h) = (f x px, All-map P Q f xs h)

-- No element occurs twice.
abbrev pub Distinct {ℓ} : {A : Type ℓ} → List A → Type ℓ
Distinct [] = Unit
Distinct (x ∷ xs) = All (λ y. x ≢ y) xs × Distinct xs

module _ {ℓ} {A : Type ℓ} where
  pub Distinct-snoc :
      (xs : List A) (x : A) → Distinct xs → All (λ y. y ≢ x) xs → Distinct (xs ++ x ∷ [])
  Distinct-snoc [] x d h = (tt, tt)
  Distinct-snoc (y ∷ ys) x (hy, d) (ne, h) =
      (All-append (λ z. y ≢ z) ys (x ∷ []) hy (ne, tt), Distinct-snoc ys x d h)

  pub Distinct-append_left : (xs ys : List A) → Distinct (xs ++ ys) → Distinct xs
  Distinct-append_left [] ys d = tt
  Distinct-append_left (x ∷ xs) ys (h, d) =
      (All-append_left (λ z. x ≢ z) xs ys h, Distinct-append_left xs ys d)

  pub Distinct-append_fresh :
      (xs : List A) (x : A) (ys : List A) → Distinct (xs ++ x ∷ ys) → All (λ y. y ≢ x) xs
  Distinct-append_fresh [] x ys d = tt
  Distinct-append_fresh (y ∷ xs) x ys (h, d) =
      ((All-append_right (λ z. y ≢ z) xs (x ∷ ys) h).0, Distinct-append_fresh xs x ys d)

module _ {ℓ} {A : Type ℓ} where
  pub All-insert {κ} :
      (P : A → Type κ) (xs : List A) (x : A) (ys : List A)
      → All P (xs ++ ys)
      → P x
      → All P ((xs ++ x ∷ []) ++ ys)
  All-insert P [] x ys h p = (p, h)
  All-insert P (z ∷ xs) x ys (pz, h) p = (pz, All-insert P xs x ys h p)

  pub Distinct-insert :
      (xs : List A) (x : A) (ys : List A)
      → Distinct (xs ++ ys)
      → All (λ y. x ≢ y) (xs ++ ys)
      → All (λ y. y ≢ x) (xs ++ ys)
      → Distinct ((xs ++ x ∷ []) ++ ys)
  Distinct-insert [] x ys d f g = (f, d)
  Distinct-insert (z ∷ xs) x ys (hz, d) (n, f) (m, g) =
      (All-insert (λ y. z ≢ y) xs x ys hz m, Distinct-insert xs x ys d f g)
