-- ===== src/Transport/Status.antt =====
-- The percent-encoding of the grpc-message header: `encodeGRPCMessage` of
-- go/adapters/grpctransport/replay.go and `decodeGRPCMessage` of go/adapters/grpctransport/headers.go.
pub mod RoundTrip
mod Tests
use poly_xrr.Common.{
  ℕ, zero, suc, ◌+◌, ◌-◌, ◌*◌, ◌/◌, ◌%◌, Bytes, Bool, true, false, not, ◌&&◌, ◌==◌, leb, ltb,
  Option, none, some, List, [], ◌∷◌, if◌then◌else◌,
}
use poly_xrr.Canonical.{has_byte}

-- `hexDigits[n]`.
pub upper_digit : ℕ → ℕ
upper_digit n = if ltb n 10 then 48 + n else 55 + n

pub is_plain : ℕ → Bool
is_plain c = leb 0x20 c && (leb c 0x7e && not (c == b'%'))

pub encode_grpc_message : Bytes → Bytes
unfolding upper_digit is_plain
encode_grpc_message [] = []
encode_grpc_message (c ∷ s) =
    let rest = encode_grpc_message s in
    if is_plain c then c ∷ rest else b'%' ∷ upper_digit (c / 16) ∷ upper_digit (c % 16) ∷ rest

-- One digit of `strconv.ParseUint` with base 16.
pub hex_value : ℕ → Option ℕ
hex_value c =
    if leb b'0' c && leb c b'9'
    then some (c - 48)
    else if leb b'a' c && leb c b'f'
    then some (c - 87)
    else if leb b'A' c && leb c b'F'
    then some (c - 55)
    else none

pub hex_byte : Option ℕ → Option ℕ → Option ℕ
hex_byte (some h) (some l) = some (h * 16 + l)
hex_byte _ _ = none

-- What one round of the loop writes, and by how much more than one `i` advances.
pub decode_step : ℕ → Bytes → ℕ × ℕ
unfolding hex_value hex_byte
decode_step c [] = (c, 0)
decode_step c (a ∷ []) = (c, 0)
decode_step c (a ∷ b ∷ s) =
    if c == b'%'
    then elim (hex_byte (hex_value a) (hex_value b)) [ none ↦ (c, 0) | some v ↦ (v, 2) ]
    else (c, 0)

-- The loop, with the bytes that are still to be passed over.
pub decode_loop : ℕ → Bytes → Bytes
unfolding decode_step
decode_loop skip [] = []
decode_loop (suc k) (c ∷ s) = decode_loop k s
decode_loop zero (c ∷ s) = let (v, skip) = decode_step c s in v ∷ decode_loop skip s

pub decode_grpc_message : Bytes → Bytes
unfolding decode_loop
decode_grpc_message s = if has_byte b'%' s then decode_loop 0 s else s
