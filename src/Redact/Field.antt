-- ===== src/Redact/Field.antt =====
-- `RedactField` and `redactScalar` of go/redact.go.
use poly_xrr.Common.{Bytes, bytes_eq, Bool, true, false, not, ◌&&◌, ◌||◌, ◌≡◌, ◌⊎◌, arith}
use poly_xrr.Common.Strings.{is_empty, contains}
use poly_xrr.Redact.{Redactor, normalize_key, is_secret_key, placeholder, redact_field, str_tag}

module _ (secret_value : Bytes → Bool) (r : Redactor) (name : Bytes) where
  -- The two outcomes: the value as it was, or the placeholder of the name.
  pub redact_field-cases :
      (value : Bytes)
      → (redact_field secret_value r name value ≡ (value, false))
        ⊎ (redact_field secret_value r name value ≡ (placeholder name, true))
  unfolding redact_field
  redact_field-cases value = ground arith

-- A string scalar whose value should have been replaced: `leaks key tag value`.
module _ (secret_value : Bytes → Bool) (r : Redactor) where
  abbrev is_string : Bytes → Bool
  is_string tag = is_empty tag || bytes_eq tag str_tag

  abbrev pub leaks : Bytes → Bytes → Bytes → Bool
  leaks key tag value =
      is_string tag
      && not (is_empty value)
      && not (contains r.allow (normalize_key key))
      && (is_secret_key r key || secret_value value)
      && not (bytes_eq value (placeholder key))
