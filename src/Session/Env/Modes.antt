-- ===== src/Session/Env/Modes.antt =====
-- What a session that `SessionFromEnv` of go/env.go returns can be.
use poly_xrr.Common.{
  Bytes, Bool-cases, false, Option, none, some, [], ◌∷◌, ◌≡◌, refl, arith, ap, inl, inr, ◌⊎◌,
}
use poly_xrr.Common.Strings.{is_empty}
use poly_xrr.Errors.{Result, ok, ◌>>◌}
use poly_xrr.Session.{
  Mode, record_mode, replay_mode, passthrough_mode, other_mode, FileSession, new_session,
}
use poly_xrr.Session.Env.{
  System, Stat, directory, plain_file, absent, unreadable, env_mode, env_cassette_dir, mode_of,
  replay_dir, with_dir, of_mode, session_from_env,
}

-- A session that is ready for its mode: passthrough has no cassette; record and replay have the
-- directory of XRR_CASSETTE_DIR, which is not empty, as their cassette, with the policy of the
-- environment; and a replay's directory is there.
abbrev pub IsReady : {Store : Type 0} → System Store → Store → FileSession → Type 0
IsReady os store s =
    (s ≡ new_session passthrough_mode none)
    ⊎ ((is_empty (os.getenv env_cassette_dir) ≡ false)
        × ((s
              ≡ new_session record_mode
                  (some (record { dir = os.getenv env_cassette_dir; redactor = none })))
            ⊎ ((s
                  ≡ new_session replay_mode
                      (some (record { dir = os.getenv env_cassette_dir; redactor = none })))
                × (os.stat store (os.getenv env_cassette_dir) ≡ directory))))

module _ {Store : Type 0} (os : System Store) (store store' : Store) (s : FileSession) where
  abbrev at_dir : Mode → Bytes → FileSession
  at_dir mode dir = new_session mode (some (record { dir = dir; redactor = none }))

  record_ready :
      (dir : Bytes)
      → with_dir os store record_mode dir ≡ (store', ok (some s))
      → (is_empty dir ≡ false) × (s ≡ at_dir record_mode dir)
  unfolding with_dir is_empty
  record_ready [] h = cc
  record_ready (c ∷ dir) h = (refl, ground (arith, h))

  fit_ready :
      (mode : Mode) (dir : Bytes) (found : Stat)
      → (replay_dir os found >> ok (some (at_dir mode dir))) ≡ ok (some s)
      → (found ≡ directory) × (s ≡ at_dir mode dir)
  unfolding replay_dir
  fit_ready mode dir directory h = (refl, cc)
  fit_ready mode dir plain_file h = cc
  fit_ready mode dir absent h = cc
  fit_ready mode dir unreadable h = cc

  replay_ready :
      (dir : Bytes)
      → with_dir os store replay_mode dir ≡ (store', ok (some s))
      → (is_empty dir ≡ false) × (s ≡ at_dir replay_mode dir) × (os.stat store dir ≡ directory)
  unfolding with_dir is_empty
  replay_ready [] h = cc
  replay_ready (c ∷ dir) h =
      let (there, e) =
        fit_ready replay_mode (c ∷ dir) (os.stat store (c ∷ dir))
          (ap (λ (x : Store × Result (Option FileSession)). x.1) h) in
      (refl, e, there)

  ready : (mode : Mode) → of_mode os store mode ≡ (store', ok (some s)) → IsReady os store s
  unfolding of_mode
  ready record_mode h = let (set, e) = record_ready _ h in inr (set, inl e)
  ready replay_mode h = let (set, e, there) = replay_ready _ h in inr (set, inr (e, there))
  ready passthrough_mode h = inl cc
  ready (other_mode m) h = cc

-- Every session that `SessionFromEnv` returns is ready for its mode.
pub session_from_env-IsReady :
    {Store : Type 0} (os : System Store) (store store' : Store) (s : FileSession)
    → session_from_env os store ≡ (store', ok (some s))
    → IsReady os store s
unfolding session_from_env
session_from_env-IsReady os store store' s h = elim (Bool-cases (is_empty (os.getenv env_mode))) [
  | inl unset ↦ let none_there = simp unset at h in cc
  | inr set ↦ ready os store store' s (mode_of (os.getenv env_mode)) (simp set at h)
]
