-- ===== src/Redact/Tree/Again.antt =====
-- A second `redactNode`, go/redact.go, changes nothing.
use poly_xrr.Common.{
  Bytes, bytes_eq_refl, Bool, ◌≡◌, inl, inr, refl, ap, ap₂, arith, if_twice, Bool-cases,
}
use poly_xrr.Redact.{
  Redactor, Node, Nodes, document, mapping, sequence, scalar, alias, nil, cons, value_of,
  is_envelope_meta_key, placeholder, str_tag, redact_scalar, redact_node, redact_each,
  redact_values,
}
use poly_xrr.Redact.Field.{redact_field-cases}

module _ (secret_value : Bytes → Bool) (r : Redactor) (key tag value : Bytes) where
  redact_scalar_idem :
      redact_node secret_value r key (redact_scalar secret_value r key tag value)
      ≡ redact_scalar secret_value r key tag value
  unfolding redact_node redact_scalar
  redact_scalar_idem = ground (
    arith,
    redact_field-cases secret_value r key value,
    redact_field-cases secret_value r key (placeholder key),
    bytes_eq_refl str_tag,
  )

mutual
  unfolding redact_node

  again-node :
      (secret_value : Bytes → Bool) (r : Redactor) (key : Bytes) (n : Node)
      → redact_node secret_value r key (redact_node secret_value r key n)
        ≡ redact_node secret_value r key n
  again-node sv r key (document c) = elim (Bool-cases r.disabled) [
    | inl off ↦ simp off
    | inr on ↦ simp on (ap document (again-each sv r key c))
  ]
  again-node sv r key (mapping c) = elim (Bool-cases r.disabled) [
    | inl off ↦ simp off
    | inr on ↦ simp on (ap mapping (again-values sv r key c))
  ]
  again-node sv r key (sequence c) = elim (Bool-cases r.disabled) [
    | inl off ↦ simp off
    | inr on ↦ simp on (ap sequence (again-each sv r key c))
  ]
  again-node sv r key (scalar tag value) = elim (Bool-cases r.disabled) [
    | inl off ↦ simp off
    | inr on ↦ simp on (redact_scalar_idem sv r key tag value)
  ]
  again-node sv r key (alias name) = refl

  again-each :
      (secret_value : Bytes → Bool) (r : Redactor) (key : Bytes) (c : Nodes)
      → redact_each secret_value r key (redact_each secret_value r key c)
        ≡ redact_each secret_value r key c
  again-each sv r key nil = refl
  again-each sv r key (cons n c) = ap₂ cons (again-node sv r key n) (again-each sv r key c)

  again-values :
      (secret_value : Bytes → Bool) (r : Redactor) (key : Bytes) (c : Nodes)
      → redact_values secret_value r key (redact_values secret_value r key c)
        ≡ redact_values secret_value r key c
  again-values sv r key nil = refl
  again-values sv r key (cons k nil) = refl
  again-values sv r key (cons k (cons v c)) =
      ap₂ (λ a b. cons k (cons a b))
        (if_twice (is_envelope_meta_key key (value_of k)) (redact_node sv r (value_of k)) v
          (again-node sv r (value_of k) v))
        (again-values sv r key c)

-- Redacting a tree a second time under the same key changes nothing.
pub redact_node_idem :
    (secret_value : Bytes → Bool) (r : Redactor) (key : Bytes) (n : Node)
    → redact_node secret_value r key (redact_node secret_value r key n)
      ≡ redact_node secret_value r key n
redact_node_idem = again-node
