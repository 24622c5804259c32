-- ===== src/Common/Utf8.antt =====
-- `utf8.Valid` of Go's package unicode/utf8, which the cassette files of go/ ask.
use Prim.Native.Nat.{ℕ, ◌-◌}
use mathlib.Core.Bool.{Bool, false, not, ◌&&◌}
use mathlib.Core.List.{[], ◌∷◌}
use poly_xrr.Common.Tests.{if◌then◌else◌, ltb, leb, ◌==◌}
use poly_xrr.Common.Texts.{Bytes}

-- `utf8.Valid`, with the continuation bytes that are still due and the range of the next one.
unfoldable pub utf8_from : ℕ → ℕ → ℕ → Bytes → Bool
utf8_from due lo hi [] = due == 0
utf8_from due lo hi (c ∷ s) =
    if not (due == 0)
    then leb lo c && (leb c hi && utf8_from (due - 1) 0x80 0xbf s)
    else if ltb c 0x80
    then utf8_from 0 0x80 0xbf s
    else if leb 0xc2 c && leb c 0xdf
    then utf8_from 1 0x80 0xbf s
    else if c == 0xe0
    then utf8_from 2 0xa0 0xbf s
    else if c == 0xed
    then utf8_from 2 0x80 0x9f s
    else if leb 0xe1 c && leb c 0xef
    then utf8_from 2 0x80 0xbf s
    else if c == 0xf0
    then utf8_from 3 0x90 0xbf s
    else if leb 0xf1 c && leb c 0xf3
    then utf8_from 3 0x80 0xbf s
    else if c == 0xf4
    then utf8_from 3 0x80 0x8f s
    else false

unfoldable pub utf8_valid : Bytes → Bool
unfolding utf8_from
utf8_valid s = utf8_from 0 0x80 0xbf s
