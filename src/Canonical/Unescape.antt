-- ===== src/Canonical/Unescape.antt =====
-- `unescapeLineTerminators` of go/canonical.go against the grammar of what a JSON encoder writes:
-- plain bytes, two-byte escapes and six-byte escapes.
use poly_xrr.Common.{
  ℕ, Bytes, codes, Bool, true, false, Bool-cases, ◌==◌, ◌&&◌, List, [], ◌∷◌, ◌++◌, All, ◌≡◌, ◌≢◌,
  refl, sym, ap, ◌∙◌, inl, inr, arith, if◌then◌else◌,
}
use poly_xrr.Common.Strings.{has_prefix, is_empty}
use poly_xrr.Canonical.{
  backslash, raw_line_separator, raw_paragraph_separator, unescape_loop, has_byte,
  unescape_line_terminators,
}

pub data Piece : Type 0 where
  plain : ℕ → Piece
  short_escape : ℕ → Piece
  long_escape : ℕ → ℕ → ℕ → ℕ → Piece

-- A plain byte is no backslash; `\u` begins a long escape only, whose four digits are no backslash.
abbrev IsPiece : Piece → Type 0
IsPiece (plain c) = c ≢ backslash
IsPiece (short_escape c) = c ≢ b'u'
IsPiece (long_escape a b c d) =
    (a ≢ backslash) × (b ≢ backslash) × (c ≢ backslash) × (d ≢ backslash)

abbrev pub written : Piece → Bytes
written (plain c) = c ∷ []
written (short_escape c) = backslash ∷ c ∷ []
written (long_escape a b c d) = backslash ∷ b'u' ∷ a ∷ b ∷ c ∷ d ∷ []

abbrev pub written_all : List Piece → Bytes
written_all [] = []
written_all (p ∷ ps) = written p ++ written_all ps

-- The form that the specification asks for: two long escapes become the code points themselves.
abbrev pub canonical : Piece → Bytes
canonical (long_escape a b c d) =
    if a == b'2' && (b == b'0' && (c == b'2' && d == b'8'))
    then raw_line_separator
    else if a == b'2' && (b == b'0' && (c == b'2' && d == b'9'))
    then raw_paragraph_separator
    else written (long_escape a b c d)
canonical p = written p

abbrev pub canonical_all : List Piece → Bytes
canonical_all [] = []
canonical_all (p ∷ ps) = canonical p ++ canonical_all ps

loop_plain :
    (c : ℕ) (rest : Bytes) → c ≢ backslash → unescape_loop 0 (c ∷ rest) ≡ c ∷ unescape_loop 0 rest
unfolding unescape_loop
loop_plain c rest h = ground arith

loop_short :
    (c : ℕ) (rest : Bytes)
    → c ≢ b'u'
    → unescape_loop 0 (backslash ∷ c ∷ rest) ≡ backslash ∷ c ∷ unescape_loop 0 rest
unfolding unescape_loop has_prefix is_empty
loop_short c rest h = ground arith

-- The two long escapes that the loop looks for.
abbrev is_separator : ℕ → ℕ → ℕ → ℕ → ℕ → Bool
is_separator e a b c d = a == b'2' && (b == b'0' && (c == b'2' && d == e))

module _ (a b c d : ℕ) (rest : Bytes) where
  prefix_2028 : has_prefix (b'u' ∷ a ∷ b ∷ c ∷ d ∷ rest) (codes "u2028") ≡ is_separator b'8' a b c d
  unfolding has_prefix
  prefix_2028 = ground arith

  prefix_2029 : has_prefix (b'u' ∷ a ∷ b ∷ c ∷ d ∷ rest) (codes "u2029") ≡ is_separator b'9' a b c d
  unfolding has_prefix
  prefix_2029 = ground arith

  loop_2028 :
      is_separator b'8' a b c d ≡ true
      → unescape_loop 0 (written (long_escape a b c d) ++ rest)
        ≡ raw_line_separator ++ unescape_loop 0 rest
  unfolding unescape_loop is_empty
  loop_2028 h = simp (prefix_2028, h)

  loop_2029 :
      is_separator b'8' a b c d ≡ false
      → is_separator b'9' a b c d ≡ true
      → unescape_loop 0 (written (long_escape a b c d) ++ rest)
        ≡ raw_paragraph_separator ++ unescape_loop 0 rest
  unfolding unescape_loop is_empty
  loop_2029 h k = simp (prefix_2028, h, prefix_2029, k)

  loop_kept :
      is_separator b'8' a b c d ≡ false
      → is_separator b'9' a b c d ≡ false
      → unescape_loop 0 (written (long_escape a b c d) ++ rest)
        ≡ backslash ∷ b'u' ∷ unescape_loop 0 (a ∷ b ∷ c ∷ d ∷ rest)
  unfolding unescape_loop is_empty
  loop_kept h k = simp (prefix_2028, h, prefix_2029, k)

  loop_digits :
      IsPiece (long_escape a b c d)
      → unescape_loop 0 (a ∷ b ∷ c ∷ d ∷ rest) ≡ a ∷ b ∷ c ∷ d ∷ unescape_loop 0 rest
  loop_digits (ha, hb, hc, hd) =
      rw (loop_plain a _ ha, loop_plain b _ hb, loop_plain c _ hc, loop_plain d _ hd)

  loop_long :
      IsPiece (long_escape a b c d)
      → unescape_loop 0 (written (long_escape a b c d) ++ rest)
        ≡ canonical (long_escape a b c d) ++ unescape_loop 0 rest
  loop_long h = elim (Bool-cases (is_separator b'8' a b c d)) [
    | inl e ↦ simp e (loop_2028 e)
    | inr e ↦ elim (Bool-cases (is_separator b'9' a b c d)) [
      | inl k ↦ simp (e, k) (loop_2029 e k)
      | inr k ↦ simp (e, k) (loop_kept e k ∙ ap (λ x. backslash ∷ b'u' ∷ x) (loop_digits h))
    ]
  ]

loop_pieces :
    (ps : List Piece) → All IsPiece ps → unescape_loop 0 (written_all ps) ≡ canonical_all ps
loop_pieces [] h = unfold unescape_loop in refl
loop_pieces (plain c ∷ ps) (hc, h) =
    loop_plain c (written_all ps) hc ∙ ap (λ x. c ∷ x) (loop_pieces ps h)
loop_pieces (short_escape c ∷ ps) (hc, h) =
    loop_short c (written_all ps) hc ∙ ap (λ x. backslash ∷ c ∷ x) (loop_pieces ps h)
loop_pieces (long_escape a b c d ∷ ps) (hp, h) =
    loop_long a b c d (written_all ps) hp
    ∙ ap (λ x. canonical (long_escape a b c d) ++ x) (loop_pieces ps h)

-- Text with no backslash is what the loop gives back.
loop_no_backslash : (s : Bytes) → has_byte backslash s ≡ false → unescape_loop 0 s ≡ s
unfolding unescape_loop has_byte
loop_no_backslash [] h = refl
loop_no_backslash (c ∷ s) h = ground (arith, loop_no_backslash s)

loop_lem : (s : Bytes) → unescape_line_terminators s ≡ unescape_loop 0 s
unfolding unescape_line_terminators
loop_lem s = elim (Bool-cases (has_byte backslash s)) [
  | inl e ↦ simp e
  | inr e ↦ simp e (sym (loop_no_backslash s e))
]

-- Of the output of a JSON encoder, read as plain bytes and escapes, exactly the escapes \u2028 and
-- \u2029 are rewritten, to the code points' UTF-8. Every other escape is kept, so a literal
-- backslash before the text u2028 is left alone.
pub unescape-pieces :
    (ps : List Piece)
    → All IsPiece ps
    → unescape_line_terminators (written_all ps) ≡ canonical_all ps
unescape-pieces ps h = loop_lem (written_all ps) ∙ loop_pieces ps h
