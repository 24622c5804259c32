-- ===== src/Base64/Strict.antt =====
-- `decodeStrictB64` of go/stream.go reads nothing but what the encoder writes.
use poly_xrr.Common.{
  ℕ, ◌+◌, ◌*◌, ◌/◌, ◌%◌, Bytes, AreBytes, Bool, true, false, Bool-cases, ◌&&◌, ◌==◌, ==_iff, Option,
  none, some, [], ◌∷◌, ◌≡◌, ◌↔◌, inl, inr, ◌⊎◌, if◌then◌else◌, refl, sym, ap, ◌∙◌, subst, arith,
}
use poly_xrr.Base64.{
  digit_value, encode, decode, decode_groups, one_byte, two_bytes, three_bytes, at_end, all_b64,
  without_breaks, decode_strict_b64,
}
use poly_xrr.Base64.RoundTrip.{digit-digit_value, without_breaks-all_b64, decode_strict_b64-encode}

-- The bytes of a text, if it is what the encoder writes for them.
abbrev pub Encodes : Bytes → Bytes → Type 0
Encodes s b = AreBytes b × (encode b ≡ s)

one_byte-Encodes :
    (a b : ℕ) (oa ob : Option ℕ) (out : Bytes)
    → digit_value a ≡ oa
    → digit_value b ≡ ob
    → one_byte oa ob ≡ some out
    → Encodes (a ∷ b ∷ b'=' ∷ b'=' ∷ []) out
unfolding one_byte encode
one_byte-Encodes a b none ob out ha hb h = cc
one_byte-Encodes a b (some x) none out ha hb h = cc
one_byte-Encodes a b (some x) (some y) out ha hb h =
    let (da, sa) = digit-digit_value a x ha in
    let (db, sb) = digit-digit_value b y hb in
    elim (Bool-cases (y % 16 == 0)) [
      | inl e ↦
          let zero_bits : y % 16 ≡ 0 = (==_iff (y % 16) 0).0 e in
          let p : (x * 4 + y / 16) / 4 ≡ x = omega arith in
          let q : (x * 4 + y / 16) % 4 * 16 ≡ y = omega arith in
          let same : (x * 4 + y / 16) ∷ [] ≡ out = cc in
          subst (Encodes (a ∷ b ∷ b'=' ∷ b'=' ∷ [])) same ((omega arith, tt), simp (p, q, da, db))
      | inr e ↦ cc
    ]

two_bytes-Encodes :
    (a b c : ℕ) (oa ob oc : Option ℕ) (out : Bytes)
    → digit_value a ≡ oa
    → digit_value b ≡ ob
    → digit_value c ≡ oc
    → two_bytes oa ob oc ≡ some out
    → Encodes (a ∷ b ∷ c ∷ b'=' ∷ []) out
unfolding two_bytes encode
two_bytes-Encodes a b c none ob oc out ha hb hc h = cc
two_bytes-Encodes a b c (some x) none oc out ha hb hc h = cc
two_bytes-Encodes a b c (some x) (some y) none out ha hb hc h = cc
two_bytes-Encodes a b c (some x) (some y) (some z) out ha hb hc h =
    let (da, sa) = digit-digit_value a x ha in
    let (db, sb) = digit-digit_value b y hb in
    let (dc, sc) = digit-digit_value c z hc in
    elim (Bool-cases (z % 4 == 0)) [
      | inl e ↦
          let zero_bits : z % 4 ≡ 0 = (==_iff (z % 4) 0).0 e in
          let p : (x * 4 + y / 16) / 4 ≡ x = omega arith in
          let q : (x * 4 + y / 16) % 4 * 16 + (y % 16 * 16 + z / 4) / 16 ≡ y = omega arith in
          let r : (y % 16 * 16 + z / 4) % 16 * 4 ≡ z = omega arith in
          let same : (x * 4 + y / 16) ∷ (y % 16 * 16 + z / 4) ∷ [] ≡ out = cc in
          subst (Encodes (a ∷ b ∷ c ∷ b'=' ∷ [])) same
            ((omega arith, (omega arith, tt)), simp (p, q, r, da, db, dc))
      | inr e ↦ cc
    ]

three_bytes-Encodes :
    (a b c d : ℕ) (s : Bytes) (oa ob oc od : Option ℕ) (rest : Option Bytes) (out : Bytes)
    → digit_value a ≡ oa
    → digit_value b ≡ ob
    → digit_value c ≡ oc
    → digit_value d ≡ od
    → ((b : Bytes) → rest ≡ some b → Encodes s b)
    → three_bytes oa ob oc od rest ≡ some out
    → Encodes (a ∷ b ∷ c ∷ d ∷ s) out
unfolding three_bytes encode
three_bytes-Encodes a b c d s none ob oc od rest out ha hb hc hd later h = cc
three_bytes-Encodes a b c d s (some x) none oc od rest out ha hb hc hd later h = cc
three_bytes-Encodes a b c d s (some x) (some y) none od rest out ha hb hc hd later h = cc
three_bytes-Encodes a b c d s (some x) (some y) (some z) none rest out ha hb hc hd later h = cc
three_bytes-Encodes a b c d s (some x) (some y) (some z) (some w) none out ha hb hc hd later h = cc
three_bytes-Encodes a b c d s (some x) (some y) (some z) (some w) (some m) out ha hb hc hd later h =
    let (da, sa) = digit-digit_value a x ha in
    let (db, sb) = digit-digit_value b y hb in
    let (dc, sc) = digit-digit_value c z hc in
    let (dd, sd) = digit-digit_value d w hd in
    let (bytes, written) = later m refl in
    let p : (x * 4 + y / 16) / 4 ≡ x = omega arith in
    let q : (x * 4 + y / 16) % 4 * 16 + (y % 16 * 16 + z / 4) / 16 ≡ y = omega arith in
    let r : (y % 16 * 16 + z / 4) % 16 * 4 + (z % 4 * 64 + w) / 64 ≡ z = omega arith in
    let u : (z % 4 * 64 + w) % 64 ≡ w = omega arith in
    let same : (x * 4 + y / 16) ∷ (y % 16 * 16 + z / 4) ∷ (z % 4 * 64 + w) ∷ m ≡ out = cc in
    subst (Encodes (a ∷ b ∷ c ∷ d ∷ s)) same (
      (omega arith, (omega arith, (omega arith, bytes))),
      simp (p, q, r, u, da, db, dc, dd, written),
    )

at_end-inv :
    (s : Bytes) (group : Option Bytes) (out : Bytes)
    → at_end s group ≡ some out
    → (s ≡ []) × (group ≡ some out)
unfolding at_end
at_end-inv [] group out h = (refl, h)
at_end-inv (c ∷ s) group out h = cc

-- Which of three groups a choice took.
chosen :
    (p q : Bool) (x y z : Option Bytes) (out : Bytes)
    → (if p && q then x else if q then y else z) ≡ some out
    → ((p ≡ true) × (q ≡ true) × (x ≡ some out)) ⊎ (((q ≡ true) × (y ≡ some out)) ⊎ (z ≡ some out))
chosen true true x y z out h = inl (refl, refl, h)
chosen false true x y z out h = inr (inl (refl, h))
chosen true false x y z out h = inr (inr h)
chosen false false x y z out h = inr (inr h)

decode_groups-Encodes : (s out : Bytes) → decode_groups s ≡ some out → Encodes s out
unfolding decode_groups encode
decode_groups-Encodes [] out h = let e : [] ≡ out = cc in subst (Encodes []) e (tt, refl)
decode_groups-Encodes (a ∷ []) out h = cc
decode_groups-Encodes (a ∷ b ∷ []) out h = cc
decode_groups-Encodes (a ∷ b ∷ c ∷ []) out h = cc
decode_groups-Encodes (a ∷ b ∷ c ∷ d ∷ s) out h =
    elim (chosen (c == b'=') (d == b'=') _ _ _ out h) [
      | inl (p, q, x) ↦
          let (last, group) = at_end-inv s _ out x in
          let hc : c ≡ b'=' = (==_iff c b'=').0 p in
          let hd : d ≡ b'=' = (==_iff d b'=').0 q in
          let (bytes, written) = one_byte-Encodes a b _ _ out refl refl group in
          let whole : a ∷ b ∷ b'=' ∷ b'=' ∷ [] ≡ a ∷ b ∷ c ∷ d ∷ s = cc in (bytes, written ∙ whole)
      | inr (inl (q, y)) ↦
          let (last, group) = at_end-inv s _ out y in
          let hd : d ≡ b'=' = (==_iff d b'=').0 q in
          let (bytes, written) = two_bytes-Encodes a b c _ _ _ out refl refl refl group in
          let whole : a ∷ b ∷ c ∷ b'=' ∷ [] ≡ a ∷ b ∷ c ∷ d ∷ s = cc in (bytes, written ∙ whole)
      | inr (inr z) ↦
          three_bytes-Encodes a b c d s _ _ _ _ _ out refl refl refl refl (decode_groups-Encodes s)
            z
    ]

decode_strict_b64-Encodes : (s b : Bytes) → decode_strict_b64 s ≡ some b → Encodes s b
unfolding decode_strict_b64 decode
decode_strict_b64-Encodes s b h = elim (Bool-cases (all_b64 s)) [
  | inl e ↦
      let plain = without_breaks-all_b64 s e in
      decode_groups-Encodes s b (
        ap decode_groups (sym plain)
        ∙ ap (λ x. if x then decode_groups (without_breaks s) else none) (sym e)
        ∙ h)
  | inr e ↦
      let no : none ≡ some b =
        ap (λ x. if x then decode_groups (without_breaks s) else none) (sym e) ∙ h in
      absurd cc
]

-- decodeStrictB64 accepts a text exactly if it is the standard base64 of some bytes, with its padding
-- and without line breaks, and returns these bytes.
pub decode_strict_b64_iff :
    (s b : Bytes) → (decode_strict_b64 s ≡ some b) ↔ (AreBytes b × (encode b ≡ s))
decode_strict_b64_iff s b = (
  decode_strict_b64-Encodes s b,
  λ h. ap decode_strict_b64 (sym h.1) ∙ decode_strict_b64-encode b h.0,
)
