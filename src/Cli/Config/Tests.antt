-- ===== src/Cli/Config/Tests.antt =====
-- A project file and the environment, with a flag.
use poly_xrr.Common.{Bytes, codes, bytes_eq, true, false, some, [], ◌∷◌, if◌then◌else◌, ◌≡◌, refl}
use poly_xrr.Common.Strings.{is_empty, split, trim_space}
use poly_xrr.Canonical.{has_byte}
use poly_xrr.Errors.{ok}
use poly_xrr.Cli.Config.{Settings, unset, ConfigFile, missing, holds, Machine, load_layers}
use poly_xrr.Cli.Config.Layers.{Loaded, load_layers-Merges}

abbrev project : Settings
project = record unset {
  mode = some (codes "record");
  shim = codes "gh" ∷ [];
  deny = codes "git" ∷ [];
}

abbrev variable : Bytes → Bytes
variable name =
    if bytes_eq name (codes "HOME")
    then codes "/home/me"
    else if bytes_eq name (codes "XRR_MODE")
    then codes "replay"
    else if bytes_eq name (codes "XRR_SHIM")
    then codes "az, gh,"
    else if bytes_eq name (codes "XRR_STRICT")
    then codes "true"
    else []

abbrev stored : Bytes → ConfigFile
stored path = if bytes_eq path (codes ".xrr.yaml") then holds project else missing

abbrev machine : Machine
machine = record {
  getenv = variable;
  file = stored;
  join = λ ps. codes "/joined";
  dir = λ p. codes ".";
  is_abs = λ p. false;
  is_duration = λ v. true;
  is_pattern = λ v. true;
}

abbrev flags : Settings
flags = record unset { shim = codes "terraform" ∷ []; report_file = some (codes "run.json") }

abbrev loaded : Settings
loaded = record unset {
  mode = some (codes "replay");
  strict = some true;
  shim = codes "gh" ∷ codes "az" ∷ codes "terraform" ∷ [];
  deny = codes "git" ∷ [];
  report_file = some (codes "run.json");
}

loads : load_layers machine [] flags ≡ ok loaded
unfolding load_layers is_empty bytes_eq has_byte split trim_space
loads = refl

load_layers-Merges_example : Loaded machine [] flags loaded
load_layers-Merges_example = load_layers-Merges machine [] flags loaded loads
