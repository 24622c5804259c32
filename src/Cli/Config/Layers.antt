-- ===== src/Cli/Config/Layers.antt =====
-- How go/cmd/xrr/config_file.go composes the layers of its configuration.
use poly_xrr.Common.{
  Bytes, map, bytes_eq, bytes_eq_iff, Bool, true, false, ◌||◌, Option, none, some, List, [], ◌∷◌,
  ◌++◌, ◌≡◌, refl, subst, arith,
}
use poly_xrr.Errors.{ok, >>=-eq-ok}
use poly_xrr.Cli.Config.{
  Settings, contains, add_new, add_all, union, pick, merge_settings, check_apart, check_conflicts,
  Machine, user_config_path, user_layer, project_layer, env_settings, merged_layers, load_layers,
}

-- The first of some optional values that is set.
abbrev pub first_set {ℓ} : {A : Type ℓ} → List (Option A) → Option A
first_set [] = none
first_set (none ∷ os) = first_set os
first_set (some v ∷ os) = some v

pick-layers {ℓ} :
    {A : Type ℓ} (a b c d : Option A) → pick (pick (pick a b) c) d ≡ first_set (d ∷ c ∷ b ∷ a ∷ [])
unfolding pick
pick-layers a b c (some v) = refl
pick-layers a b (some v) none = refl
pick-layers a (some v) none none = refl
pick-layers (some v) none none none = refl
pick-layers none none none none = refl

contains-append :
    (xs ys : List Bytes) (v : Bytes) → contains (xs ++ ys) v ≡ (contains xs v || contains ys v)
unfolding contains
contains-append [] ys v = refl
contains-append (x ∷ xs) ys v = ground (arith, contains-append xs ys v)

contains-add_new :
    (out : List Bytes) (x v : Bytes) → contains (add_new out x) v ≡ (contains out v || bytes_eq x v)
unfolding add_new contains
contains-add_new out x v = ground (arith, contains-append out (x ∷ []) v, bytes_eq_iff x v)

contains-add_all :
    (out vs : List Bytes) (v : Bytes)
    → contains (add_all out vs) v ≡ (contains out v || contains vs v)
unfolding add_all contains
contains-add_all out [] v = ground arith
contains-add_all out (x ∷ vs) v =
    ground (arith, contains-add_all (add_new out x) vs v, contains-add_new out x v)

contains-union :
    (a b : List Bytes) (v : Bytes) → contains (union a b) v ≡ (contains a v || contains b v)
unfolding union contains
contains-union a b v = ground (arith, contains-add_all (add_all [] a) b v, contains-add_all [] a v)

-- What a name is in, if it is in one of the layers.
abbrev pub in_layers : (Settings → List Bytes) → List Settings → Bytes → Bool
in_layers f [] v = false
in_layers f (s ∷ ss) v = contains (f s) v || in_layers f ss v

-- The settings of the layers `ls`, the highest first.
pub record Merges (ls : List Settings) (s : Settings) : Type 0 where
  pub mode : s.mode ≡ first_set (map (λ (l : Settings). l.mode) ls)
  pub cassettes : s.cassettes ≡ first_set (map (λ (l : Settings). l.cassettes) ls)
  pub stdin_wait : s.stdin_wait ≡ first_set (map (λ (l : Settings). l.stdin_wait) ls)
  pub report_file : s.report_file ≡ first_set (map (λ (l : Settings). l.report_file) ls)
  pub strict : s.strict ≡ first_set (map (λ (l : Settings). l.strict) ls)
  pub no_default_deny : s.no_default_deny ≡ first_set (map (λ (l : Settings). l.no_default_deny) ls)
  pub shim : (v : Bytes) → contains s.shim v ≡ in_layers (λ (l : Settings). l.shim) ls v
  pub deny : (v : Bytes) → contains s.deny v ≡ in_layers (λ (l : Settings). l.deny) ls v
  pub env : (v : Bytes) → contains s.env v ≡ in_layers (λ (l : Settings). l.env) ls v
  pub scrub_allow :
      (v : Bytes) → contains s.scrub_allow v ≡ in_layers (λ (l : Settings). l.scrub_allow) ls v
  pub scrub_deny :
      (v : Bytes) → contains s.scrub_deny v ≡ in_layers (λ (l : Settings). l.scrub_deny) ls v

contains-layers :
    (a b c d : List Bytes) (v : Bytes)
    → contains (union (union (union a b) c) d) v
      ≡ (contains d v || (contains c v || (contains b v || (contains a v || false))))
contains-layers a b c d v = ground (
  arith,
  contains-union (union (union a b) c) d v,
  contains-union (union a b) c v,
  contains-union a b v,
)

merged-Merges : (a b c d : Settings) → Merges (d ∷ c ∷ b ∷ a ∷ []) (merged_layers a b c d)
unfolding merged_layers merge_settings
merged-Merges a b c d = record {
  mode = pick-layers a.mode b.mode c.mode d.mode;
  cassettes = pick-layers a.cassettes b.cassettes c.cassettes d.cassettes;
  stdin_wait = pick-layers a.stdin_wait b.stdin_wait c.stdin_wait d.stdin_wait;
  report_file = pick-layers a.report_file b.report_file c.report_file d.report_file;
  strict = pick-layers a.strict b.strict c.strict d.strict;
  no_default_deny =
      pick-layers a.no_default_deny b.no_default_deny c.no_default_deny d.no_default_deny;
  shim = contains-layers a.shim b.shim c.shim d.shim;
  deny = contains-layers a.deny b.deny c.deny d.deny;
  env = contains-layers a.env b.env c.env d.env;
  scrub_allow = contains-layers a.scrub_allow b.scrub_allow c.scrub_allow d.scrub_allow;
  scrub_deny = contains-layers a.scrub_deny b.scrub_deny c.scrub_deny d.scrub_deny;
}

-- Two lists that `checkConflicts` lets pass have no name in common.
abbrev pub Apart : List Bytes → List Bytes → Type 0
Apart xs ys = (v : Bytes) → contains xs v ≡ true → contains ys v ≡ false

check_apart_lem :
    (xs ys : List Bytes) (v : Bytes)
    → check_apart xs ys ≡ ok tt
    → contains xs v ≡ true
    → contains ys v ≡ false
unfolding check_apart contains
check_apart_lem [] ys v h there = ground arith
check_apart_lem (x ∷ xs) ys v h there = ground (arith, check_apart_lem xs ys v, bytes_eq_iff x v)

check_apart-Apart : (xs ys : List Bytes) → check_apart xs ys ≡ ok tt → Apart xs ys
check_apart-Apart xs ys h v = check_apart_lem xs ys v h

-- What the settings `s` were loaded from.
pub record Loaded (m : Machine) (config_path : Bytes) (flags s : Settings) : Type 0 where
  pub user : Settings
  pub project : Settings
  pub env : Settings
  pub read_user : user_layer m (user_config_path m) ≡ ok user
  pub read_project : project_layer m config_path ≡ ok project
  pub read_env : env_settings m ≡ ok env
  pub merges : Merges (flags ∷ env ∷ project ∷ user ∷ []) s
  pub scrub_apart : Apart s.scrub_deny s.scrub_allow
  pub shim_apart : Apart s.shim s.deny

-- A successful load has read every layer, a value is that of the highest layer that sets it, in the
-- order flags, environment, project file, user file, a list has exactly the names of all layers, and no
-- name is both scrubbed and kept, or both shimmed and denied.
pub load_layers-Merges :
    (m : Machine) (config_path : Bytes) (flags s : Settings)
    → load_layers m config_path flags ≡ ok s
    → Loaded m config_path flags s
unfolding load_layers check_conflicts
load_layers-Merges m config_path flags s h =
    let (user, read_user, h₁) = >>=-eq-ok (user_layer m (user_config_path m)) _ h in
    let (project, read_project, h₂) = >>=-eq-ok (project_layer m config_path) _ h₁ in
    let (env, read_env, h₃) = >>=-eq-ok (env_settings m) _ h₂ in
    let merged = merged_layers user project env flags in
    let (u, no_conflict, same) = >>=-eq-ok (check_conflicts merged) _ h₃ in
    let (u', scrub, shim) =
      >>=-eq-ok (check_apart merged.scrub_deny merged.scrub_allow) _ no_conflict in
    let e : merged ≡ s = cc in
    record {
      user = user;
      project = project;
      env = env;
      read_user = read_user;
      read_project = read_project;
      read_env = read_env;
      merges =
          subst (Merges (flags ∷ env ∷ project ∷ user ∷ [])) e
            (merged-Merges user project env flags);
      scrub_apart =
          subst (λ (x : Settings). Apart x.scrub_deny x.scrub_allow) e
            (check_apart-Apart merged.scrub_deny merged.scrub_allow scrub);
      shim_apart =
          subst (λ (x : Settings). Apart x.shim x.deny) e
            (check_apart-Apart merged.shim merged.deny shim);
    }
