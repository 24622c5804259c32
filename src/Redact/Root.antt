-- ===== src/Redact/Root.antt =====
-- The walk of go/redact.go at the root of a document.
use poly_xrr.Common.{Bytes, [], Bool, true, false, ◌≡◌, refl}
use poly_xrr.Common.Strings.{contains, is_empty}
use poly_xrr.Redact.{
  Redactor, Node, document, mapping, sequence, scalar, alias, Nodes, nil, cons, redact_node,
  redact_values, is_envelope_meta_key, envelope_meta_keys,
}

module _ (secret_value : Bytes → Bool) (r : Redactor) where
  pub redact_node_disabled :
      (key : Bytes) (n : Node) → r.disabled ≡ true → redact_node secret_value r key n ≡ n
  unfolding redact_node
  redact_node_disabled key (document c) h = simp h
  redact_node_disabled key (mapping c) h = simp h
  redact_node_disabled key (sequence c) h = simp h
  redact_node_disabled key (scalar tag v) h = simp h
  redact_node_disabled key (alias v) h = refl

  -- A metadata field of the envelope is passed over.
  pub meta_field :
      (tag k : Bytes) (v : Node) (rest : Nodes)
      → contains envelope_meta_keys k ≡ true
      → redact_values secret_value r [] (cons (scalar tag k) (cons v rest))
        ≡ cons (scalar tag k) (cons v (redact_values secret_value r [] rest))
  unfolding redact_values is_envelope_meta_key is_empty
  meta_field tag k v rest h = simp h

  pub other_field :
      (tag k : Bytes) (v : Node) (rest : Nodes)
      → contains envelope_meta_keys k ≡ false
      → redact_values secret_value r [] (cons (scalar tag k) (cons v rest))
        ≡ cons
            (scalar tag k)
            (cons (redact_node secret_value r k v) (redact_values secret_value r [] rest))
  unfolding redact_values is_envelope_meta_key is_empty
  other_field tag k v rest h = simp h

  -- A mapping at the root is the mapping of its walked fields, with redaction on or off.
  pub root_lem :
      (c d : Nodes)
      → redact_values secret_value r [] c ≡ d
      → r.disabled ≡ false
      → redact_node secret_value r [] (mapping c) ≡ mapping d
  unfolding redact_node
  root_lem c d h on = simp (on, h)

  pub no_fields : (key : Bytes) → redact_values secret_value r key nil ≡ nil
  unfolding redact_values
  no_fields key = refl
