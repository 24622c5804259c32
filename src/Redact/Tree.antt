-- ===== src/Redact/Tree.antt =====
-- The walk `redactNode` of go/redact.go: nothing that should be replaced is left, the shape of the
-- tree and its keys stay, and a second walk changes nothing.
pub mod Shape
pub mod Leaks
pub mod Again
use poly_xrr.Common.{
  Bytes, bytes_eq, bytes_eq_refl, Bool, true, false, not, ◌&&◌, ◌||◌, if◌then◌else◌, ◌≡◌, ◌⊎◌, inl,
  inr, map, refl, sym, ap, ap₂, ◌∙◌, arith, Bool-cases, [], ◌∷◌, codes,
}
use poly_xrr.Common.Strings.{is_empty, contains}
use poly_xrr.Redact.{
  Redactor, Node, Nodes, document, mapping, sequence, scalar, alias, nil, cons, value_of,
  is_envelope_meta_key, placeholder, str_tag, is_secret_key, normalize_key, is_secret_value,
  redact_field, redact_scalar, redact_node, redact_each, redact_values,
}
use poly_xrr.Redact.Field.{leaks, redact_field-cases}

-- A tree with its scalars forgotten, but for the keys of mappings.
mutual
  pub shape : Node → Node
  shape (document c) = document (shape_each c)
  shape (mapping c) = mapping (shape_values c)
  shape (sequence c) = sequence (shape_each c)
  shape (scalar tag value) = scalar [] []
  shape (alias name) = alias name

  pub shape_each : Nodes → Nodes
  shape_each nil = nil
  shape_each (cons n c) = cons (shape n) (shape_each c)

  pub shape_values : Nodes → Nodes
  shape_values nil = nil
  shape_values (cons k nil) = cons k nil
  shape_values (cons k (cons v c)) = cons k (cons (shape v) (shape_values c))

-- The fields of an envelope that carry no data.
abbrev pub metadata : Bytes → Bool
metadata name =
    contains (map codes ("xrr" ∷ "adapter" ∷ "fingerprint" ∷ "recorded_at" ∷ "error" ∷ [])) name

-- Whether a tree, reached under `key`, holds a string that should have been replaced. The metadata
-- fields of a mapping at the root do not count; a mapping that stands below a key is not at the root.
mutual
  pub leaks_node : (Bytes → Bool) → Redactor → Bool → Bytes → Node → Bool
  leaks_node secret_value r root key (document c) = leaks_each secret_value r root key c
  leaks_node secret_value r root key (mapping c) = leaks_values secret_value r root c
  leaks_node secret_value r root key (sequence c) = leaks_each secret_value r root key c
  leaks_node secret_value r root key (scalar tag value) = leaks secret_value r key tag value
  leaks_node secret_value r root key (alias name) = false

  pub leaks_each : (Bytes → Bool) → Redactor → Bool → Bytes → Nodes → Bool
  leaks_each secret_value r root key nil = false
  leaks_each secret_value r root key (cons n c) =
      leaks_node secret_value r root key n || leaks_each secret_value r root key c

  pub leaks_values : (Bytes → Bool) → Redactor → Bool → Nodes → Bool
  leaks_values secret_value r root nil = false
  leaks_values secret_value r root (cons k nil) = false
  leaks_values secret_value r root (cons k (cons v c)) =
      (not (root && metadata (value_of k)) && leaks_node secret_value r false (value_of k) v)
      || leaks_values secret_value r root c

-- No mapping of a tree has an empty key.
unfoldable mutual
  pub named_node : Node → Bool
  named_node (document c) = named_each c
  named_node (mapping c) = named_values c
  named_node (sequence c) = named_each c
  named_node (scalar tag value) = true
  named_node (alias name) = true

  pub named_each : Nodes → Bool
  named_each nil = true
  named_each (cons n c) = named_node n && named_each c

  pub named_values : Nodes → Bool
  named_values nil = true
  named_values (cons k nil) = true
  named_values (cons k (cons v c)) = not (is_empty (value_of k)) && (named_node v && named_values c)
