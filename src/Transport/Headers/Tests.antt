-- ===== src/Transport/Headers/Tests.antt =====
-- Concrete header blocks for go/adapters/grpctransport/headers.go.
use poly_xrr.Common.{codes, true, false, bytes_eq, some, [], ◌∷◌, ◌++◌, ◌≡◌, ◌≢◌, ◌↔◌, refl, List}
use poly_xrr.Common.Strings.{has_prefix, is_empty}
use poly_xrr.Canonical.{has_byte}
use poly_xrr.Redact.{Redactor}
use poly_xrr.Transport.Headers.{
  HeaderField, sanitize_headers, header_value, has_header, trim_slash, split_path, is_compressed,
}
use poly_xrr.Transport.Headers.Paths.{split_path_iff}
use poly_xrr.Transport.Headers.Sanitized.{header_value-sanitize_headers}

abbrev policy : Redactor
policy = record { disabled = false; allow = []; deny = [] }

abbrev block : List HeaderField
block =
    record { name = codes ":path"; value = codes "/chat.Chat/Talk"; sensitive = false }
    ∷ record { name = codes "authorization"; value = codes "Bearer x"; sensitive = true }
    ∷ []

plain_block : is_compressed block ≡ false
unfolding is_compressed header_value bytes_eq is_empty
plain_block = refl

header_value-sanitize_headers_example :
    (has_prefix (codes ":path") (codes ":") ≡ true
      → header_value (sanitize_headers (λ v. false) policy block) (codes ":path")
        ≡ header_value block (codes ":path"))
    × (has_header (sanitize_headers (λ v. false) policy block) (codes ":path")
        ≡ has_header block (codes ":path"))
header_value-sanitize_headers_example =
    header_value-sanitize_headers (λ v. false) policy block (codes ":path")

split_path_iff_example :
    (split_path (codes "/chat.Chat/Talk") ≡ some (codes "chat.Chat", codes "Talk")) ↔ (
      (trim_slash (codes "/chat.Chat/Talk") ≡ codes "chat.Chat" ++ (b'/' ∷ codes "Talk"))
      × (has_byte b'/' (codes "Talk") ≡ false)
      × (codes "chat.Chat" ≢ [])
      × (codes "Talk" ≢ []))
split_path_iff_example = split_path_iff (codes "/chat.Chat/Talk") (codes "chat.Chat") (codes "Talk")
