-- ===== src/Base64/Tests.antt =====
-- A concrete message, and texts that are refused.
use poly_xrr.Common.{AreBytes, codes, none, some, ◌∷◌, ◌++◌, ◌≡◌, ◌↔◌, refl}
use poly_xrr.Base64.{encode, decode_strict_b64}
use poly_xrr.Base64.Strict.{decode_strict_b64_iff}

decode_strict_b64_iff_example :
    (decode_strict_b64 (codes "cGluZyE=") ≡ some (codes "ping!"))
    ↔ (AreBytes (codes "ping!") × (encode (codes "ping!") ≡ codes "cGluZyE="))
decode_strict_b64_iff_example = decode_strict_b64_iff (codes "cGluZyE=") (codes "ping!")

-- A line break, which the decoder of the package skips.
broken : decode_strict_b64 (codes "cGlu" ++ (10 ∷ codes "ZyE=")) ≡ none
unfolding decode_strict_b64
broken = refl
