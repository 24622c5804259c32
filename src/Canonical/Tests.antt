-- ===== src/Canonical/Tests.antt =====
-- `unescapeLineTerminators` on concrete bytes.
use poly_xrr.Common.{codes, List, [], ◌∷◌, ◌++◌, ◌≡◌, refl, arith}
use poly_xrr.Common.Strings.{has_prefix, is_empty}
use poly_xrr.Canonical.{backslash, raw_line_separator, unescape_line_terminators}
use poly_xrr.Canonical.Unescape.{
  Piece, plain, short_escape, long_escape, written_all, canonical_all, unescape-pieces,
}

-- x, an escaped backslash, the text u2028, and the escape of U+2028.
abbrev pieces : List Piece
pieces =
    plain b'x'
    ∷ short_escape backslash
    ∷ plain b'u'
    ∷ plain b'2'
    ∷ plain b'0'
    ∷ plain b'2'
    ∷ plain b'8'
    ∷ long_escape b'2' b'0' b'2' b'8'
    ∷ []

unescaped :
    unescape_line_terminators (codes "x\\\\u2028\\u2028") ≡ codes "x\\\\u2028" ++ raw_line_separator
unfolding unescape_line_terminators has_prefix is_empty
unescaped = refl

unescape-pieces_example : unescape_line_terminators (written_all pieces) ≡ canonical_all pieces
unescape-pieces_example = unescape-pieces pieces (omega arith)
