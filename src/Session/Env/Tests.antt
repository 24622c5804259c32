-- ===== src/Session/Env/Tests.antt =====
-- Concrete environments for go/env.go.
use poly_xrr.Common.{
  Bytes, codes, bytes_eq, Bool, true, false, none, some, ◌≡◌, refl, if◌then◌else◌,
}
use poly_xrr.Common.Strings.{is_empty}
use poly_xrr.Errors.{ok}
use poly_xrr.Session.{record_mode, replay_mode, new_session}
use poly_xrr.Session.Env.{
  System, directory, absent, env_mode, mode_of, record_dir, replay_dir, made, with_dir, of_mode,
  session_from_env,
}
use poly_xrr.Session.Env.Modes.{IsReady, session_from_env-IsReady}

-- A machine with one directory, which may be missing.
abbrev machine : Bytes → System Bool
machine mode = record {
  getenv = λ v. if bytes_eq v env_mode then mode else codes "tapes";
  stat = λ there dir. if there then directory else absent;
  mkdir_all = λ there dir. (true, true);
}

-- A recording creates its directory.
created : session_from_env (machine (codes "record")) false ≡ (
  true,
  ok (some (new_session record_mode (some (record { dir = codes "tapes"; redactor = none })))),
)
unfolding session_from_env of_mode with_dir record_dir made mode_of bytes_eq is_empty
created = refl

started : session_from_env (machine (codes "replay")) true ≡ (
  true,
  ok (some (new_session replay_mode (some (record { dir = codes "tapes"; redactor = none })))),
)
unfolding session_from_env of_mode with_dir replay_dir mode_of bytes_eq is_empty
started = refl

session_from_env-IsReady_example :
    IsReady
      (machine (codes "replay"))
      true
      (new_session replay_mode (some (record { dir = codes "tapes"; redactor = none })))
session_from_env-IsReady_example =
    session_from_env-IsReady (machine (codes "replay")) true true _ started
