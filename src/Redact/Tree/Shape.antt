-- ===== src/Redact/Tree/Shape.antt =====
-- `redactNode` of go/redact.go keeps the shape of the tree and the keys of its mappings.
use poly_xrr.Common.{Bytes, Bool, ◌≡◌, refl, ap, ap₂, arith, if_both, []}
use poly_xrr.Redact.{
  Redactor, Node, Nodes, document, mapping, sequence, scalar, alias, nil, cons, value_of,
  is_envelope_meta_key, redact_field, redact_scalar, redact_node, redact_each, redact_values,
}
use poly_xrr.Redact.Tree.{shape, shape_each, shape_values}

module _ (secret_value : Bytes → Bool) (r : Redactor) (key tag value : Bytes) where
  shape-redact_scalar : shape (redact_scalar secret_value r key tag value) ≡ scalar [] []
  unfolding shape redact_scalar redact_field
  shape-redact_scalar = ground arith

mutual
  unfolding shape redact_node

  shape-node :
      (secret_value : Bytes → Bool) (r : Redactor) (key : Bytes) (n : Node)
      → shape (redact_node secret_value r key n) ≡ shape n
  shape-node sv r key (document c) =
      if_both (λ x. shape x ≡ shape (document c)) r.disabled refl
        (ap document (shape-each sv r key c))
  shape-node sv r key (mapping c) =
      if_both (λ x. shape x ≡ shape (mapping c)) r.disabled refl
        (ap mapping (shape-values sv r key c))
  shape-node sv r key (sequence c) =
      if_both (λ x. shape x ≡ shape (sequence c)) r.disabled refl
        (ap sequence (shape-each sv r key c))
  shape-node sv r key (scalar tag value) =
      if_both (λ x. shape x ≡ shape (scalar tag value)) r.disabled refl
        (shape-redact_scalar sv r key tag value)
  shape-node sv r key (alias name) = refl

  shape-each :
      (secret_value : Bytes → Bool) (r : Redactor) (key : Bytes) (c : Nodes)
      → shape_each (redact_each secret_value r key c) ≡ shape_each c
  shape-each sv r key nil = refl
  shape-each sv r key (cons n c) = ap₂ cons (shape-node sv r key n) (shape-each sv r key c)

  shape-values :
      (secret_value : Bytes → Bool) (r : Redactor) (key : Bytes) (c : Nodes)
      → shape_values (redact_values secret_value r key c) ≡ shape_values c
  shape-values sv r key nil = refl
  shape-values sv r key (cons k nil) = refl
  shape-values sv r key (cons k (cons v c)) =
      ap₂ (λ a b. cons k (cons a b))
        (if_both (λ x. shape x ≡ shape v) (is_envelope_meta_key key (value_of k)) refl
          (shape-node sv r (value_of k) v))
        (shape-values sv r key c)

-- The walk keeps the kinds of the nodes, their number and order, and the keys of every mapping:
-- only the contents of other scalars can differ.
pub shape-redact_node :
    (secret_value : Bytes → Bool) (r : Redactor) (key : Bytes) (n : Node)
    → shape (redact_node secret_value r key n) ≡ shape n
shape-redact_node = shape-node
