-- ===== src/Session/Env.antt =====
-- `SessionFromEnv` of go/env.go. The operating system is a `System`: the environment, what
-- `os.Stat` says of a path, and whether `os.MkdirAll` succeeds, with the state after it.
pub mod Modes
mod Tests
use poly_xrr.Common.{
  Bytes, codes, bytes_eq, Bool, true, false, Option, none, some, List, [], ◌∷◌, if◌then◌else◌,
}
use poly_xrr.Common.Strings.{is_empty}
use poly_xrr.Errors.{
  Error, unknown_mode, dir_not_set, not_directory, dir_missing, mkdir_failed, stat_failed, Result,
  ok, err, ◌>>=◌, ◌>>◌,
}
use poly_xrr.Session.{
  Mode, record_mode, replay_mode, passthrough_mode, other_mode, FileCassette, FileSession,
  new_session,
}

pub data Stat : Type 0 where
  directory plain_file absent unreadable : Stat

pub record System (Store : Type 0) : Type 0 where
  pub getenv : Bytes → Bytes
  pub stat : Store → Bytes → Stat
  pub mkdir_all : Store → Bytes → Store × Bool

abbrev pub env_mode : Bytes
env_mode = codes "XRR_MODE"

abbrev pub env_cassette_dir : Bytes
env_cassette_dir = codes "XRR_CASSETTE_DIR"

-- `Mode(modeStr)`.
pub mode_of : Bytes → Mode
mode_of m =
    if bytes_eq m (codes "record")
    then record_mode
    else if bytes_eq m (codes "replay")
    then replay_mode
    else if bytes_eq m (codes "passthrough")
    then passthrough_mode
    else other_mode m

module _ {Store : Type 0} (os : System Store) where
  pub made : Store × Bool → Store × Result (Unit {0})
  made (store, true) = (store, ok tt)
  made (store, false) = (store, err mkdir_failed)

  -- The directory of a recording is created if it is missing.
  pub record_dir : Store → Bytes → Stat → Store × Result (Unit {0})
  unfolding made
  record_dir store dir directory = (store, ok tt)
  record_dir store dir plain_file = (store, err not_directory)
  record_dir store dir absent = made (os.mkdir_all store dir)
  record_dir store dir unreadable = (store, err stat_failed)

  -- That of a replay must be there.
  pub replay_dir : Stat → Result (Unit {0})
  replay_dir directory = ok tt
  replay_dir plain_file = err not_directory
  replay_dir absent = err dir_missing
  replay_dir unreadable = err stat_failed

  -- `NewSession(mode, NewFileCassette(dir))`, if the directory is fit.
  abbrev session_in : Mode → Bytes → Result (Unit {0}) → Result (Option FileSession)
  session_in mode dir fit =
      fit >> ok (some (new_session mode (some (record { dir = dir; redactor = none }))))

  pub with_dir : Store → Mode → Bytes → Store × Result (Option FileSession)
  unfolding record_dir replay_dir is_empty
  with_dir store mode [] = (store, err dir_not_set)
  with_dir store record_mode (c ∷ dir) =
      let (store', fit) = record_dir store (c ∷ dir) (os.stat store (c ∷ dir)) in
      (store', session_in record_mode (c ∷ dir) fit)
  with_dir store replay_mode (c ∷ dir) =
      (store, session_in replay_mode (c ∷ dir) (replay_dir (os.stat store (c ∷ dir))))
  with_dir store mode (c ∷ dir) = (store, session_in mode (c ∷ dir) (ok tt))

  pub of_mode : Store → Mode → Store × Result (Option FileSession)
  unfolding with_dir
  of_mode store (other_mode m) = (store, err (unknown_mode m))
  of_mode store passthrough_mode = (store, ok (some (new_session passthrough_mode none)))
  of_mode store mode = with_dir store mode (os.getenv env_cassette_dir)

  -- No session where XRR_MODE is empty.
  pub session_from_env : Store → Store × Result (Option FileSession)
  unfolding of_mode
  session_from_env store =
      if is_empty (os.getenv env_mode)
      then (store, ok none)
      else of_mode store (mode_of (os.getenv env_mode))
