-- ===== src/Cli/Config.antt =====
-- The configuration of go/cmd/xrr: config_file.go, and the helpers of config.go. What is outside is a
-- `Machine`: the environment, the files with their YAML decoding, `path/filepath`, `path.Match`,
-- `time.ParseDuration` and the text of a duration.
pub mod Layers
mod Tests
use poly_xrr.Common.{
  ℕ, ◌==◌, Bytes, codes, bytes_eq, Bool, true, false, not, ◌&&◌, ◌||◌, Option, none, some, List, [],
  ◌∷◌, ◌++◌, if◌then◌else◌,
}
use poly_xrr.Common.Strings.{is_empty, trim_space, split}
use poly_xrr.Canonical.{has_byte}
use poly_xrr.Errors.{
  Error, bad_config, invalid_mode, bad_duration, bad_command, bad_pattern, bad_boolean, conflict,
  Result, ok, err, ◌>>=◌, ◌>>◌,
}

pub record Settings : Type 0 where
  pub mode : Option Bytes
  pub cassettes : Option Bytes
  pub shim : List Bytes
  pub deny : List Bytes
  pub no_default_deny : Option Bool
  pub strict : Option Bool
  pub env : List Bytes
  pub stdin_wait : Option Bytes
  pub report_file : Option Bytes
  pub scrub_allow : List Bytes
  pub scrub_deny : List Bytes

abbrev pub unset : Settings
unset = record {
  mode = none;
  cassettes = none;
  shim = [];
  deny = [];
  no_default_deny = none;
  strict = none;
  env = [];
  stdin_wait = none;
  report_file = none;
  scrub_allow = [];
  scrub_deny = [];
}

pub contains : List Bytes → Bytes → Bool
contains [] v = false
contains (x ∷ xs) v = bytes_eq x v || contains xs v

-- One value that is appended unless it is there, and the loops that do so.
pub add_new : List Bytes → Bytes → List Bytes
unfolding contains
add_new out v = if contains out v then out else out ++ v ∷ []

pub add_all : List Bytes → List Bytes → List Bytes
unfolding add_new
add_all out [] = out
add_all out (v ∷ vs) = add_all (add_new out v) vs

pub union : List Bytes → List Bytes → List Bytes
unfolding add_all
union a b = add_all (add_all [] a) b

pub pick {ℓ} : {A : Type ℓ} → Option A → Option A → Option A
pick lo none = lo
pick lo (some v) = some v

pub merge_settings : Settings → Settings → Settings
unfolding pick union
merge_settings lo hi = record {
  mode = pick lo.mode hi.mode;
  cassettes = pick lo.cassettes hi.cassettes;
  shim = union lo.shim hi.shim;
  deny = union lo.deny hi.deny;
  no_default_deny = pick lo.no_default_deny hi.no_default_deny;
  strict = pick lo.strict hi.strict;
  env = union lo.env hi.env;
  stdin_wait = pick lo.stdin_wait hi.stdin_wait;
  report_file = pick lo.report_file hi.report_file;
  scrub_allow = union lo.scrub_allow hi.scrub_allow;
  scrub_deny = union lo.scrub_deny hi.scrub_deny;
}

pub merged_layers : Settings → Settings → Settings → Settings → Settings
unfolding merge_settings
merged_layers user project env flags =
    merge_settings (merge_settings (merge_settings user project) env) flags

-- `listFlag.Set`.
pub set_parts : List Bytes → List Bytes → List Bytes
unfolding add_new
set_parts l [] = l
set_parts l (p ∷ ps) = let v = trim_space p in set_parts (if is_empty v then l else add_new l v) ps

pub list_set : List Bytes → Bytes → List Bytes
unfolding set_parts
list_set l v = set_parts l (split b',' v)

pub valid_mode : Bytes → Result (Unit {0})
valid_mode m =
    if bytes_eq m (codes "record")
      || (bytes_eq m (codes "replay") || bytes_eq m (codes "passthrough"))
    then ok tt
    else err (invalid_mode m)

pub valid_command_name : Bytes → Result (Unit {0})
valid_command_name n =
    if is_empty n || (bytes_eq n (codes ".") || bytes_eq n (codes ".."))
    then err (bad_command n)
    else if has_byte b'/' n
        || (has_byte 0x5c n
            || (has_byte 0 n || (has_byte 0x20 n || (has_byte 9 n || has_byte 10 n))))
    then err (bad_command n)
    else ok tt

pub valid_names : List Bytes → Result (Unit {0})
unfolding valid_command_name
valid_names [] = ok tt
valid_names (n ∷ ns) = do valid_command_name n; valid_names ns

-- `strconv.ParseBool`.
pub parse_bool : Bytes → Option Bool
unfolding contains
parse_bool v =
    if contains
      (codes "1" ∷ codes "t" ∷ codes "T" ∷ codes "TRUE" ∷ codes "true" ∷ codes "True" ∷ []) v
    then some true
    else if contains
        (codes "0" ∷ codes "f" ∷ codes "F" ∷ codes "FALSE" ∷ codes "false" ∷ codes "False" ∷ []) v
    then some false
    else none

pub check_option : (Bytes → Result (Unit {0})) → Option Bytes → Result (Unit {0})
check_option check none = ok tt
check_option check (some v) = check v

-- What `os.ReadFile` and the decoder give for a file: unknown keys are refused.
pub data ConfigFile : Type 0 where
  missing unreadable malformed : ConfigFile
  holds : Settings → ConfigFile

pub record Machine : Type 0 where
  pub getenv : Bytes → Bytes
  pub file : Bytes → ConfigFile
  pub join : List Bytes → Bytes
  pub dir : Bytes → Bytes
  pub is_abs : Bytes → Bool
  pub is_duration : Bytes → Bool
  pub is_pattern : Bytes → Bool

-- The names of a list that are in another one.
pub check_apart : List Bytes → List Bytes → Result (Unit {0})
unfolding contains
check_apart [] other = ok tt
check_apart (n ∷ ns) other = if contains other n then err (conflict n) else check_apart ns other

pub check_conflicts : Settings → Result (Unit {0})
unfolding check_apart
check_conflicts s = do check_apart s.scrub_deny s.scrub_allow; check_apart s.shim s.deny

module _ (m : Machine) where
  pub valid_duration : Bytes → Result (Unit {0})
  valid_duration v = if m.is_duration v then ok tt else err (bad_duration v)

  pub validate_patterns : List Bytes → Result (Unit {0})
  validate_patterns [] = ok tt
  validate_patterns (p ∷ ps) = if m.is_pattern p then validate_patterns ps else err (bad_pattern p)

  pub validate : Settings → Result (Unit {0})
  unfolding check_option valid_mode valid_duration valid_names validate_patterns
  validate s = do
    check_option valid_mode s.mode
    check_option valid_duration s.stdin_wait
    valid_names (s.shim ++ s.deny)
    validate_patterns s.scrub_deny
    validate_patterns s.scrub_allow

  -- `userConfigPath`, or "".
  pub user_config_path : Bytes
  user_config_path =
      let x = m.getenv (codes "XDG_CONFIG_HOME") in
      let h = m.getenv (codes "HOME") in
      let a = m.getenv (codes "APPDATA") in
      if not (is_empty x)
      then m.join (x ∷ codes "xrr/config.yaml" ∷ [])
      else if not (is_empty h)
      then m.join (h ∷ codes ".config" ∷ codes "xrr/config.yaml" ∷ [])
      else if not (is_empty a)
      then m.join (a ∷ codes "xrr/config.yaml" ∷ [])
      else []

  -- A path of a file is relative to the file's directory.
  pub resolved : Bytes → Option Bytes → Option Bytes
  resolved dir none = none
  resolved dir (some p) = if is_empty p || m.is_abs p then some p else some (m.join (dir ∷ p ∷ []))

  pub checked : Settings → Result Settings
  unfolding validate
  checked s = do validate s; ok s

  pub decoded : Bytes → Bool → ConfigFile → Result Settings
  unfolding checked resolved
  decoded path required missing = if required then err (bad_config path) else ok unset
  decoded path required unreadable = err (bad_config path)
  decoded path required malformed = err (bad_config path)
  decoded path required (holds s) = checked (record s {
    cassettes = resolved (m.dir path) s.cassettes;
    report_file = resolved (m.dir path) s.report_file;
  })

  pub load_file : Bytes → Bool → Result Settings
  unfolding decoded
  load_file path required = decoded path required (m.file path)

  -- The layer of the environment; an empty variable counts as unset. Go walks its tables of variables
  -- in any order, which only decides which of several errors is returned.
  pub env_string : Bytes → Option Bytes
  env_string name = let v = m.getenv name in if is_empty v then none else some v

  pub boolean_or_error : Bytes → Option Bool → Result (Option Bool)
  boolean_or_error name none = err (bad_boolean name)
  boolean_or_error name (some b) = ok (some b)

  pub env_bool : Bytes → Result (Option Bool)
  unfolding boolean_or_error parse_bool
  env_bool name =
      let v = m.getenv name in if is_empty v then ok none else boolean_or_error name (parse_bool v)

  pub env_list : Bytes → List Bytes
  unfolding list_set
  env_list name = let v = m.getenv name in if is_empty v then [] else list_set [] v

  pub env_settings : Result Settings
  unfolding env_string env_bool env_list checked
  env_settings = do
    strict ← env_bool (codes "XRR_STRICT")
    no_default_deny ← env_bool (codes "XRR_NO_DEFAULT_DENY")
    checked (record {
      mode = env_string (codes "XRR_MODE");
      cassettes = env_string (codes "XRR_CASSETTE_DIR");
      shim = env_list (codes "XRR_SHIM");
      deny = env_list (codes "XRR_DENY");
      no_default_deny = no_default_deny;
      strict = strict;
      env = env_list (codes "XRR_ENV");
      stdin_wait = env_string (codes "XRR_STDIN_WAIT");
      report_file = env_string (codes "XRR_REPORT_FILE");
      scrub_allow = env_list (codes "XRR_NO_SCRUB");
      scrub_deny = env_list (codes "XRR_SCRUB");
    })

  pub user_layer : Bytes → Result Settings
  unfolding load_file
  user_layer path = if is_empty path then ok unset else load_file path false

  pub project_layer : Bytes → Result Settings
  unfolding load_file
  project_layer config_path =
      if is_empty config_path
      then load_file (codes ".xrr.yaml") false
      else load_file config_path true

  -- `loadLayers`.
  pub load_layers : Bytes → Settings → Result Settings
  unfolding user_layer user_config_path project_layer env_settings merged_layers check_conflicts
  load_layers config_path flags = do
    user ← user_layer user_config_path
    project ← project_layer config_path
    env ← env_settings
    let merged = merged_layers user project env flags
    check_conflicts merged
    ok merged
