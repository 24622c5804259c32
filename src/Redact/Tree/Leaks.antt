-- ===== src/Redact/Tree/Leaks.antt =====
-- `redactNode` of go/redact.go leaves nothing that it should replace.
use poly_xrr.Common.Strings.{is_empty}
use poly_xrr.Common.{
  Bytes, bytes_eq_refl, Bool, true, false, not, ◌&&◌, ◌||◌, [], if◌then◌else◌, sym, ap, ◌∙◌, ◌≡◌,
  refl, arith,
}
use poly_xrr.Redact.{
  Redactor, Node, Nodes, document, mapping, sequence, scalar, alias, nil, cons, value_of,
  is_envelope_meta_key, placeholder, is_secret_value, redact_field, redact_scalar, redact_node,
  redact_each, redact_values,
}
use poly_xrr.Redact.Tree.{
  metadata, leaks_node, leaks_each, leaks_values, named_node, named_each, named_values,
}

both : (a b : Bool) → (a && b) ≡ true → (a ≡ true) × (b ≡ true)
both true b h = (refl, h)
both false b h = cc

module _ (secret_value : Bytes → Bool) (r : Redactor) (root : Bool) (key tag value : Bytes) where
  leaks-redact_scalar :
      r.disabled ≡ false
      → leaks_node secret_value r root key (redact_scalar secret_value r key tag value) ≡ false
  unfolding leaks_node redact_scalar redact_field is_secret_value
  leaks-redact_scalar on = ground (arith, bytes_eq_refl (placeholder key))

-- One field of a mapping.
leaks-field :
    (exempt : Bool) {later : Bool} (before after : Node) (leak : Node → Bool)
    → leak after ≡ false
    → later ≡ false
    → ((not exempt && leak (if exempt then before else after)) || later) ≡ false
leaks-field true before after leak walked h = h
leaks-field false before after leak walked h = ground arith

mutual
  unfolding leaks_node redact_node named_node is_envelope_meta_key

  leaks-node :
      (secret_value : Bytes → Bool) (r : Redactor) (key : Bytes) (n : Node)
      → r.disabled ≡ false
      → named_node n ≡ true
      → leaks_node secret_value r (is_empty key) key (redact_node secret_value r key n) ≡ false
  leaks-node sv r key (document c) on named = simp on (leaks-each sv r key c on named)
  leaks-node sv r key (mapping c) on named = simp on (leaks-values sv r key c on named)
  leaks-node sv r key (sequence c) on named = simp on (leaks-each sv r key c on named)
  leaks-node sv r key (scalar tag value) on named =
      simp on (leaks-redact_scalar sv r (is_empty key) key tag value on)
  leaks-node sv r key (alias name) on named = refl

  leaks-each :
      (secret_value : Bytes → Bool) (r : Redactor) (key : Bytes) (c : Nodes)
      → r.disabled ≡ false
      → named_each c ≡ true
      → leaks_each secret_value r (is_empty key) key (redact_each secret_value r key c) ≡ false
  leaks-each sv r key nil on named = refl
  leaks-each sv r key (cons n c) on named =
      let (first, rest) = both (named_node n) (named_each c) named in
      simp (leaks-node sv r key n on first, leaks-each sv r key c on rest)

  leaks-values :
      (secret_value : Bytes → Bool) (r : Redactor) (key : Bytes) (c : Nodes)
      → r.disabled ≡ false
      → named_values c ≡ true
      → leaks_values secret_value r (is_empty key) (redact_values secret_value r key c) ≡ false
  leaks-values sv r key nil on named = refl
  leaks-values sv r key (cons k nil) on named = refl
  leaks-values sv r key (cons k (cons v c)) on named =
      let (has_name, below) =
        both (not (is_empty (value_of k))) (named_node v && named_values c) named in
      let (first, rest) = both (named_node v) (named_values c) below in
      let below_key : is_empty (value_of k) ≡ false = ground arith in
      let walked : leaks_node sv r false (value_of k) (redact_node sv r (value_of k) v) ≡ false =
        ap (λ b. leaks_node sv r b (value_of k) (redact_node sv r (value_of k) v)) (sym below_key)
        ∙ leaks-node sv r (value_of k) v on first in
      leaks-field (is_empty key && metadata (value_of k)) v (redact_node sv r (value_of k) v)
        (leaks_node sv r false (value_of k)) walked (leaks-values sv r key c on rest)

-- With redaction on, a walked tree whose mappings have no empty key holds no string scalar that is
-- not empty, not allowed by name, secret by name or by value, and not its placeholder, but for the
-- fields xrr, adapter, fingerprint, recorded_at and error of a mapping at the root.
pub leaks-redact_node :
    (secret_value : Bytes → Bool) (r : Redactor) (n : Node)
    → r.disabled ≡ false
    → named_node n ≡ true
    → leaks_node secret_value r true [] (redact_node secret_value r [] n) ≡ false
unfolding is_empty
leaks-redact_node secret_value r n on named = leaks-node secret_value r [] n on named
