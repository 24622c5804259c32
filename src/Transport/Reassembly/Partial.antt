-- ===== src/Transport/Reassembly/Partial.antt =====
-- The beginning of a message, for the decoder of go/adapters/grpctransport/demux.go.
use poly_xrr.Common.{
  ℕ, zero, suc, ◌/◌, ◌%◌, ◌≤◌, ◌<◌, Bytes, [], ◌∷◌, ◌++◌, length, length-append, ◌≡◌, refl, ap, ◌∙◌,
  arith,
}
use poly_xrr.Errors.{ok}
use poly_xrr.Transport.Reassembly.{
  max_grpc_message_size, big_endian, wait, of_length, round, drain, feed, frame_message,
}
use poly_xrr.Transport.Reassembly.Buffers.{drain-suc, next}
use poly_xrr.Transport.Reassembly.Written.{big_endian_length}

of_length-wait :
    (n k : ℕ) (rest : Bytes)
    → k ≡ n
    → n ≤ max_grpc_message_size
    → length rest < n
    → of_length k rest ≡ wait
unfolding of_length
of_length-wait n k rest same small short = ground arith

-- What is cut off before its end is no message.
round-partial :
    (p q m : Bytes) (x : ℕ)
    → length m ≤ max_grpc_message_size
    → p ++ x ∷ q ≡ frame_message m
    → round p ≡ wait
unfolding round frame_message
round-partial [] q m x small h = refl
round-partial (e ∷ []) q m x small h = refl
round-partial (e ∷ a ∷ []) q m x small h = refl
round-partial (e ∷ a ∷ b ∷ []) q m x small h = refl
round-partial (e ∷ a ∷ b ∷ c ∷ []) q m x small h = refl
round-partial (e ∷ a ∷ b ∷ c ∷ d ∷ rest) q m x small h =
    let n = length m in
    let ha : a ≡ n / 16777216 % 256 = cc in
    let hb : b ≡ n / 65536 % 256 = cc in
    let hc : c ≡ n / 256 % 256 = cc in
    let hd : d ≡ n % 256 = cc in
    let body : rest ++ x ∷ q ≡ m = cc in
    of_length-wait n (big_endian a b c d) rest (cc (ha, hb, hc, hd, big_endian_length n small))
      small (omega (arith, ap length body, length-append rest (x ∷ q)))

drain-wait : (k : ℕ) (s : Bytes) → round s ≡ wait → drain k s ≡ (s, ok [])
unfolding drain
drain-wait zero s h = refl
drain-wait (suc k) s h = drain-suc k s ∙ ap (next k s) h

pub feed-partial :
    (p q m : Bytes) (x : ℕ)
    → length m ≤ max_grpc_message_size
    → p ++ x ∷ q ≡ frame_message m
    → feed [] p ≡ (p, ok [])
unfolding feed
feed-partial p q m x small h = drain-wait (length p) p (round-partial p q m x small h)
