-- ===== src/Redact/Tests.antt =====
-- The redactor on concrete names and trees.
use poly_xrr.Common.{
  Bytes, codes, bytes_eq, Bool, true, false, [], ◌∷◌, ◌++◌, ◌≡◌, inl, inr, arith, refl,
}
use poly_xrr.Common.Strings.{
  to_upper, trim_space, has_prefix, replace_byte, split, contains, is_empty,
}
use poly_xrr.Redact.{
  Redactor, normalize_key, secret_by_default, is_secret_key, placeholder, Node, mapping, scalar,
  nil, cons, redact_scalar, redact_node, str_tag, is_envelope_meta_key,
}
use poly_xrr.Redact.Names.{AllAlike, is_secret_key-Alike}
use poly_xrr.Redact.Tree.{shape, leaks_node, named_node}
use poly_xrr.Redact.Tree.Shape.{shape-redact_node}
use poly_xrr.Redact.Tree.Leaks.{leaks-redact_node}
use poly_xrr.Redact.Tree.Again.{redact_node_idem}

abbrev redactor : Redactor
redactor = record { disabled = false; allow = codes "MY_TOKEN" ∷ []; deny = [] }

-- Values that begin with "ghp_".
abbrev looks_secret : Bytes → Bool
looks_secret v = has_prefix v (codes "ghp_")

names :
    (is_secret_key redactor (codes "x-api-key") ≡ true)
    × (is_secret_key redactor (codes "Monkey_Business") ≡ false)
    × (is_secret_key redactor (codes "my-token") ≡ false)
    × (is_secret_key redactor (codes "AWS_REGION") ≡ false)
    × (is_secret_key redactor (codes "aws_foo") ≡ true)
unfolding is_secret_key secret_by_default normalize_key to_upper trim_space replace_byte split
    contains has_prefix bytes_eq
names = (refl, refl, refl, refl, refl)

abbrev tree : Node
tree = mapping (
    cons (scalar str_tag (codes "password")) (
      cons (scalar str_tag (codes "hunter2"))
        (cons (scalar str_tag (codes "n")) (cons (scalar (codes "!!int") (codes "7")) nil))))

tree_redacted :
    redact_node looks_secret redactor (codes "payload") tree
    ≡ mapping (
        cons (scalar str_tag (codes "password")) (
          cons
            (scalar str_tag (codes "<redacted:PASSWORD>"))
            (cons (scalar str_tag (codes "n")) (cons (scalar (codes "!!int") (codes "7")) nil))))
unfolding redact_node redact_scalar is_secret_key secret_by_default normalize_key placeholder
    is_envelope_meta_key to_upper trim_space replace_byte split contains has_prefix bytes_eq
    is_empty
tree_redacted = refl

spelled : AllAlike (codes "x-api-Key") (codes "X_API_KEY")
spelled = (
  inr (inl (omega arith, omega arith, refl)),
  (
    inr (inr (refl, refl)),
    (
      inr (inl (omega arith, omega arith, refl)),
      (
        inr (inl (omega arith, omega arith, refl)),
        (
          inr (inl (omega arith, omega arith, refl)),
          (
            inr (inr (refl, refl)),
            (
              inl refl,
              (
                inr (inl (omega arith, omega arith, refl)),
                (inr (inl (omega arith, omega arith, refl)), tt),
              ),
            ),
          ),
        ),
      ),
    ),
  ),
)

is_secret_key-Alike_example :
    is_secret_key redactor (codes " " ++ (codes "x-api-Key" ++ []))
    ≡ is_secret_key redactor (codes "X_API_KEY")
is_secret_key-Alike_example =
    is_secret_key-Alike redactor (codes " ") (codes "x-api-Key") [] (codes "X_API_KEY") (refl, tt)
      tt spelled

shape-redact_node_example :
    shape (redact_node looks_secret redactor (codes "payload") tree) ≡ shape tree
shape-redact_node_example = shape-redact_node looks_secret redactor (codes "payload") tree

-- An envelope; the field `error` of its payload is no metadata.
abbrev enveloped : Node
enveloped = mapping (
    cons (scalar str_tag (codes "error")) (
      cons (scalar str_tag (codes "ghp_1")) (
        cons (scalar str_tag (codes "payload")) (
          cons
            (mapping
              (cons (scalar str_tag (codes "error")) (cons (scalar str_tag (codes "ghp_2")) nil)))
            nil))))

leaks-redact_node_example :
    leaks_node looks_secret redactor true [] (redact_node looks_secret redactor [] enveloped)
    ≡ false
unfolding is_empty named_node
leaks-redact_node_example = leaks-redact_node looks_secret redactor enveloped refl refl

redact_node_idem_example :
    redact_node looks_secret redactor
      (codes "payload")
      (redact_node looks_secret redactor (codes "payload") tree)
    ≡ redact_node looks_secret redactor (codes "payload") tree
redact_node_idem_example = redact_node_idem looks_secret redactor (codes "payload") tree
