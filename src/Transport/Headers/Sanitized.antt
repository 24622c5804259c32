-- ===== src/Transport/Headers/Sanitized.antt =====
-- What `sanitizeHeaders` of go/adapters/grpctransport/headers.go leaves alone.
use poly_xrr.Common.{
  Bytes, codes, bytes_eq, bytes_eq_iff, Bool, true, Bool-cases, List, [], ◌∷◌, ◌≡◌, refl, ap, ◌∙◌,
  inl, inr, arith,
}
use poly_xrr.Common.Strings.{has_prefix}
use poly_xrr.Redact.{Redactor}
use poly_xrr.Transport.Headers.{
  HeaderField, sanitize_field, sanitize_headers, header_value, has_header,
}

module _ (secret_value : Bytes → Bool) (r : Redactor) where
  name-sanitize_field : (f : HeaderField) → (sanitize_field secret_value r f).name ≡ f.name
  unfolding sanitize_field
  name-sanitize_field f = ground arith

  sanitize_pseudo :
      (f : HeaderField) → has_prefix f.name (codes ":") ≡ true → sanitize_field secret_value r f ≡ f
  unfolding sanitize_field
  sanitize_pseudo f h = simp h

-- A pseudo-header, so also the path, has the value that it had, and every header is there after as
-- before.
pub header_value-sanitize_headers :
    (secret_value : Bytes → Bool) (r : Redactor) (fields : List HeaderField) (name : Bytes)
    → (has_prefix name (codes ":") ≡ true
        → header_value (sanitize_headers secret_value r fields) name ≡ header_value fields name)
      × (has_header (sanitize_headers secret_value r fields) name ≡ has_header fields name)
unfolding sanitize_headers header_value has_header
header_value-sanitize_headers secret_value r [] name = (λ h. refl, refl)
header_value-sanitize_headers secret_value r (f ∷ fs) name =
    let (values, there) = header_value-sanitize_headers secret_value r fs name in
    let same = name-sanitize_field secret_value r f in
    (
      λ h. elim (Bool-cases (bytes_eq f.name name)) [
        | inl here ↦
            let e : f.name ≡ name = (bytes_eq_iff f.name name).0 here in
            simp (
              same,
              here,
              sanitize_pseudo secret_value r f (ap (λ n. has_prefix n (codes ":")) e ∙ h),
            )
        | inr not_here ↦ simp (same, not_here, values h)
      ],
      simp (same, there),
    )
