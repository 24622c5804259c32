-- ===== src/Redact.antt =====
-- go/redact.go: which fields are secret, what replaces them, and the walk over a YAML tree. The
-- regular expressions of `secretValuePatterns` are the parameter `secret_value`: it says whether
-- one of them matches. Text is taken as ASCII.
pub mod Names
mod Tests
pub mod Field
pub mod Tree
pub mod Root
use poly_xrr.Common.{
  ℕ, Bytes, codes, bytes_eq, Bool, true, false, not, ◌&&◌, ◌||◌, List, [], ◌∷◌, ◌++◌, map,
  if◌then◌else◌,
}
use poly_xrr.Common.Strings.{
  to_upper, to_lower, trim_space, has_prefix, replace_byte, split, contains, is_empty,
}

abbrev secret_key_words : List Bytes
secret_key_words = map codes (
    "TOKEN" ∷ "SECRET" ∷ "PASSWORD" ∷ "PASSWD" ∷ "PASSPHRASE" ∷ "CREDENTIAL" ∷ "CREDENTIALS"
    ∷ "APIKEY" ∷ "KEY" ∷ "AUTH" ∷ "AUTHORIZATION" ∷ "COOKIE" ∷ "SESSION" ∷ "SIGNATURE" ∷ "PRIVATE"
    ∷ "ACCESS" ∷ "BEARER" ∷ "OTP" ∷ [])

abbrev secret_key_exact : List Bytes
secret_key_exact = map codes (
    "AUTHORIZATION" ∷ "PROXY_AUTHORIZATION" ∷ "COOKIE" ∷ "SET_COOKIE" ∷ "AWS_ACCESS_KEY_ID"
    ∷ "AWS_SECRET_ACCESS_KEY" ∷ "AWS_SESSION_TOKEN" ∷ [])

abbrev secret_key_prefixes : List Bytes
secret_key_prefixes = codes "AWS_" ∷ []

abbrev benign_keys : List Bytes
benign_keys = map codes (
    "XRR_MODE" ∷ "XRR_CASSETTE_DIR" ∷ "XRR_REDACT_ALLOW" ∷ "XRR_REDACT_DENY" ∷ "XRR_REDACT_DISABLE"
    ∷ "AWS_REGION" ∷ "AWS_DEFAULT_REGION" ∷ "AWS_PROFILE" ∷ "SSH_AUTH_SOCK" ∷ "KEYBOARD_LAYOUT"
    ∷ "ACCESS_LOG" ∷ "ACCESS_LOG_FORMAT" ∷ "PRIVATE_NETWORK" ∷ "SESSION_MANAGER" ∷ "GPG_TTY"
    ∷ "AUTHORIZED_KEYS_FILE" ∷ [])

pub record RedactConfig : Type 0 where
  pub disabled : Bool
  pub allow : List Bytes
  pub deny : List Bytes

-- `truthy` on the value of a switch.
truthy : Bytes → Bool
truthy s = not (contains ([] ∷ map codes ("0" ∷ "false" ∷ "no" ∷ [])) (to_lower (trim_space s)))

-- The loop of `splitList` over the parts.
keep_parts : List Bytes → List Bytes
keep_parts [] = []
keep_parts (p ∷ ps) =
    let rest = keep_parts ps in if is_empty (trim_space p) then rest else trim_space p ∷ rest

-- A nil slice and an empty one are both `[]`.
split_list : Bytes → List Bytes
unfolding keep_parts
split_list s = if is_empty (trim_space s) then [] else keep_parts (split b',' s)

-- The argument is `os.Getenv`.
pub redact_config_from_env : (Bytes → Bytes) → RedactConfig
unfolding truthy split_list
redact_config_from_env getenv = record {
  disabled = truthy (getenv (codes "XRR_REDACT_DISABLE"));
  allow = split_list (getenv (codes "XRR_REDACT_ALLOW"));
  deny = split_list (getenv (codes "XRR_REDACT_DENY"));
}

-- The sets `allow` and `deny` are lists of normalized names.
pub record Redactor : Type 0 where
  pub disabled : Bool
  pub allow : List Bytes
  pub deny : List Bytes

pub normalize_key : Bytes → Bytes
normalize_key k = to_upper (replace_byte b'-' b'_' (trim_space k))

pub new_redactor : RedactConfig → Redactor
new_redactor cfg = record {
  disabled = cfg.disabled;
  allow = map normalize_key cfg.allow;
  deny = map normalize_key cfg.deny;
}

-- The loop over `secretKeyPrefixes`.
has_any_prefix : List Bytes → Bytes → Bool
has_any_prefix [] n = false
has_any_prefix (p ∷ ps) n = has_prefix n p || has_any_prefix ps n

-- The loop over the segments of a name.
has_secret_word : List Bytes → Bool
has_secret_word [] = false
has_secret_word (word ∷ words) = contains secret_key_words word || has_secret_word words

-- What a name that no list of the configuration mentions is taken for.
pub secret_by_default : Bytes → Bool
unfolding has_any_prefix has_secret_word
secret_by_default n =
    not (contains benign_keys n)
    && (contains secret_key_exact n
        || (has_any_prefix secret_key_prefixes n || has_secret_word (split b'_' n)))

pub is_secret_key : Redactor → Bytes → Bool
is_secret_key r name =
    let n = normalize_key name in
    if r.disabled
    then false
    else if contains r.allow n
    then false
    else if contains r.deny n
    then true
    else secret_by_default n

-- Upper case, with the dashes kept.
normalize_display_key : Bytes → Bytes
normalize_display_key k = to_upper (trim_space k)

pub placeholder : Bytes → Bytes
unfolding normalize_display_key
placeholder name = codes "<redacted:" ++ (normalize_display_key name ++ codes ">")

-- The YAML tree of `yaml.Node`: its kind, a scalar's tag and value, and the children in `Content`.
mutual
  pub data Node : Type 0 where
    document mapping sequence : Nodes → Node
    scalar : Bytes → Bytes → Node
    alias : Bytes → Node

  pub data Nodes : Type 0 where
    nil : Nodes
    cons : Node → Nodes → Nodes

-- `Node.Value`, which is empty on a node with children.
abbrev pub value_of : Node → Bytes
value_of (scalar tag value) = value
value_of (alias name) = name
value_of _ = []

abbrev pub envelope_meta_keys : List Bytes
envelope_meta_keys = map codes ("xrr" ∷ "adapter" ∷ "fingerprint" ∷ "recorded_at" ∷ "error" ∷ [])

pub is_envelope_meta_key : Bytes → Bytes → Bool
is_envelope_meta_key parent_key key = is_empty parent_key && contains envelope_meta_keys key

abbrev pub str_tag : Bytes
str_tag = codes "!!str"

module _ (secret_value : Bytes → Bool) where
  pub is_secret_value : Redactor → Bytes → Bool
  is_secret_value r v = if r.disabled || is_empty v then false else secret_value v

  -- The value to serialize, and whether it was redacted.
  pub redact_field : Redactor → Bytes → Bytes → Bytes × Bool
  unfolding is_secret_value
  redact_field r name value =
      if r.disabled || is_empty value
      then (value, false)
      else if contains r.allow (normalize_key name)
      then (value, false)
      else if is_secret_key r name || is_secret_value r value
      then (placeholder name, true)
      else (value, false)

  -- `SetString` makes the scalar a string with the new value.
  pub redact_scalar : Redactor → Bytes → Bytes → Bytes → Node
  unfolding redact_field
  redact_scalar r key tag value =
      if not (is_empty tag) && not (bytes_eq tag str_tag)
      then scalar tag value
      else (let (redacted, changed) = redact_field r key value in
          if changed then scalar str_tag redacted else scalar tag value)

-- The walk. The keys and values of a mapping alternate in `Content`; a last key with no value is
-- left alone. Elements of a sequence inherit the key of the sequence.
mutual
  pub redact_node : (Bytes → Bool) → Redactor → Bytes → Node → Node
  redact_node secret_value r key (document c) =
      if r.disabled then document c else document (redact_each secret_value r key c)
  redact_node secret_value r key (mapping c) =
      if r.disabled then mapping c else mapping (redact_values secret_value r key c)
  redact_node secret_value r key (sequence c) =
      if r.disabled then sequence c else sequence (redact_each secret_value r key c)
  redact_node secret_value r key (scalar tag value) =
      if r.disabled then scalar tag value else redact_scalar secret_value r key tag value
  redact_node secret_value r key (alias name) = alias name

  pub redact_each : (Bytes → Bool) → Redactor → Bytes → Nodes → Nodes
  redact_each secret_value r key nil = nil
  redact_each secret_value r key (cons n c) =
      cons (redact_node secret_value r key n) (redact_each secret_value r key c)

  pub redact_values : (Bytes → Bool) → Redactor → Bytes → Nodes → Nodes
  redact_values secret_value r key nil = nil
  redact_values secret_value r key (cons k nil) = cons k nil
  redact_values secret_value r key (cons k (cons v c)) = cons k (
      cons
        (if is_envelope_meta_key key (value_of k)
          then v
          else redact_node secret_value r (value_of k) v)
        (redact_values secret_value r key c))
