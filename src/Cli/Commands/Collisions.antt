-- ===== src/Cli/Commands/Collisions.antt =====
-- `checkCollisions` of go/cmd/xrr/platform.go against a statement on pairs of entries.
use poly_xrr.Common.{
  Bytes, bytes_eq, bytes_eq_iff, Bool, true, false, Bool-cases, Option, none, some, List, [], ◌∷◌,
  All, All-map, if◌then◌else◌, ◌≡◌, ◌≢◌, ◌↔◌, ◌⊎◌, inl, inr, refl, sym, ap, ◌∙◌, arith,
}
use poly_xrr.Common.Maps.{lookup, insert, lookup-insert}
use poly_xrr.Errors.{Error, collision, Result, ok, err}
use poly_xrr.Cli.Commands.{
  cassette_name, Entry, entries, same_list, same_entry, clashes, check_entries, check_collisions,
}

-- Two entries of the same command are the same entry of the same list.
abbrev pub Agree : Entry → Entry → Type 0
Agree e f = cassette_name e.0 ≡ cassette_name f.0 → e ≡ f

abbrev pub AllAgree : List Entry → Type 0
AllAgree [] = Unit {0}
AllAgree (e ∷ es) = All (Agree e) es × AllAgree es

same_entry_iff : (e f : Entry) → (same_entry e f ≡ true) ↔ (e ≡ f)
unfolding same_entry same_list
same_entry_iff (x, true) (y, true) = ground (arith, bytes_eq_iff x y)
same_entry_iff (x, true) (y, false) = ground (arith, bytes_eq_iff x y)
same_entry_iff (x, false) (y, true) = ground (arith, bytes_eq_iff x y)
same_entry_iff (x, false) (y, false) = ground (arith, bytes_eq_iff x y)

-- An entry is the one stored under its name, if there is one.
abbrev Fits : List (Bytes × Entry) → Entry → Type 0
Fits seen f = (prev : Entry) → lookup (cassette_name f.0) seen ≡ some prev → prev ≡ f

clashes_iff :
    (o : Option Entry) (e : Entry)
    → (clashes o e ≡ false) ↔ ((prev : Entry) → o ≡ some prev → prev ≡ e)
unfolding clashes
clashes_iff none e = (λ h prev eq. absurd cc, λ h. refl)
clashes_iff (some prev) e =
    let (same, same_back) = same_entry_iff prev e in
    (
      λ h p eq. elim (Bool-cases (same_entry prev e)) [
        | inl y ↦ (let q = same y in cc)
        | inr n ↦ absurd cc
      ],
      λ h. (let q = same_back (h prev refl) in cc),
    )

named_cases :
    (seen : List (Bytes × Entry)) (e f : Entry)
    → ((cassette_name e.0 ≡ cassette_name f.0)
        × (lookup (cassette_name f.0) (insert (cassette_name e.0) e seen) ≡ some e))
      ⊎ ((cassette_name e.0 ≢ cassette_name f.0)
          × (lookup (cassette_name f.0) (insert (cassette_name e.0) e seen)
              ≡ lookup (cassette_name f.0) seen))
named_cases seen e f =
    let stored = lookup-insert (cassette_name e.0) (cassette_name f.0) e seen in
    let (same, same_back) = bytes_eq_iff (cassette_name e.0) (cassette_name f.0) in
    elim (Bool-cases (bytes_eq (cassette_name e.0) (cassette_name f.0))) [
      | inl y ↦
          inl (same y, stored ∙ ap (λ b. if b then some e else lookup (cassette_name f.0) seen) y)
      | inr n ↦ inr (
        λ h. (let y = same_back h in absurd cc),
        stored ∙ ap (λ b. if b then some e else lookup (cassette_name f.0) seen) n,
      )
    ]

module _ (seen : List (Bytes × Entry)) (e f : Entry) where
  Agree-Fits : Fits (insert (cassette_name e.0) e seen) f → Agree e f
  Agree-Fits fits same = elim (named_cases seen e f) [
    | inl (y, there) ↦ fits e there
    | inr (n, there) ↦ absurd (n same)
  ]

  Fits-later : Fits seen e → Fits (insert (cassette_name e.0) e seen) f → Fits seen f
  Fits-later fit_e fits prev h = elim (named_cases seen e f) [
    | inl (y, there) ↦ fit_e prev (ap (λ c. lookup c seen) y ∙ h) ∙ fits e there
    | inr (n, there) ↦ fits prev (there ∙ h)
  ]

  Fits-insert : Agree e f → Fits seen f → Fits (insert (cassette_name e.0) e seen) f
  Fits-insert agree fits prev h = elim (named_cases seen e f) [
    | inl (y, there) ↦ (let q = agree y in cc)
    | inr (n, there) ↦ fits prev (sym there ∙ h)
  ]

All-insert :
    (seen : List (Bytes × Entry)) (e : Entry) (es : List Entry)
    → All (Agree e) es
    → All (Fits seen) es
    → All (Fits (insert (cassette_name e.0) e seen)) es
All-insert seen e [] a h = tt
All-insert seen e (f ∷ es) (a, rest) (h, hs) =
    (Fits-insert seen e f a h, All-insert seen e es rest hs)

check_entries-cons :
    (seen : List (Bytes × Entry)) (e : Entry) (es : List Entry)
    → check_entries seen (e ∷ es) ≡ (
        if clashes (lookup (cassette_name e.0) seen) e
        then err (collision (cassette_name e.0))
        else check_entries (insert (cassette_name e.0) e seen) es)
unfolding check_entries
check_entries-cons seen e es = refl

guarded_iff :
    (b : Bool) (x : Error) (r : Result (Unit {0}))
    → ((if b then err x else r) ≡ ok tt) ↔ ((b ≡ false) × (r ≡ ok tt))
guarded_iff true x r = (λ h. absurd cc, λ h. (let n = h.0 in absurd cc))
guarded_iff false x r = (λ h. (refl, h), λ h. h.1)

accepted :
    (seen : List (Bytes × Entry)) (es : List Entry)
    → check_entries seen es ≡ ok tt
    → All (Fits seen) es × AllAgree es
accepted seen [] h = (tt, tt)
accepted seen (e ∷ es) h =
    let (n, passed) = (guarded_iff _ _ _).0 (sym (check_entries-cons seen e es) ∙ h) in
    let (fits, agree) = accepted (insert (cassette_name e.0) e seen) es passed in
    let fit_e = (clashes_iff (lookup (cassette_name e.0) seen) e).0 n in
    (
      (fit_e, All-map _ _ (λ f. Fits-later seen e f fit_e) es fits),
      (All-map _ _ (Agree-Fits seen e) es fits, agree),
    )

accepts :
    (seen : List (Bytes × Entry)) (es : List Entry)
    → All (Fits seen) es
    → AllAgree es
    → check_entries seen es ≡ ok tt
unfolding check_entries
accepts seen [] fits agree = refl
accepts seen (e ∷ es) (fit_e, fits) (agree_e, agree) =
    check_entries-cons seen e es
    ∙ (guarded_iff _ _ _).1 (
      (clashes_iff (lookup (cassette_name e.0) seen) e).1 fit_e,
      accepts (insert (cassette_name e.0) e seen) es (All-insert seen e es agree_e fits) agree,
    )

no_names : (es : List Entry) → All (Fits []) es
unfolding lookup
no_names [] = tt
no_names (e ∷ es) = (λ prev h. absurd cc, no_names es)

-- checkCollisions accepts the two lists exactly when any two of their entries that have the same
-- cassette name are the same text in the same list.
pub check_collisions_iff :
    (shim deny : List Bytes) → (check_collisions shim deny ≡ ok tt) ↔ AllAgree (entries shim deny)
unfolding check_collisions
check_collisions_iff shim deny = (
  λ h. (accepted [] (entries shim deny) h).1,
  λ h. accepts [] (entries shim deny) (no_names (entries shim deny)) h,
)
