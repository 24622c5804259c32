-- ===== src/Session/Files/RoundTrip.antt =====
-- Writing and reading one file of a unary cassette, go/cassette.go.
use poly_xrr.Common.{
  Bytes, codes, Bool, Bool-cases, true, false, Option, none, some, [], ◌∷◌, ◌≡◌, refl, ap, sym, ◌∙◌,
  inl, inr, bytes_eq,
}
use poly_xrr.Common.Strings.{contains}
use poly_xrr.Errors.{bad_payload, ok, ◌>>=◌}
use poly_xrr.Stream.Model.{Payload}
use poly_xrr.Redact.{Redactor, Node, mapping, Nodes, nil, str_tag, redact_node, redact_values}
use poly_xrr.Redact.Root.{redact_node_disabled, meta_field, other_field, root_lem, no_fields}
use poly_xrr.Session.{FileCassette}
use poly_xrr.Session.Files.{
  Outside, contents, str, text_node, field, envelope_fields, error_field, raw_field, or_else,
  active_redactor, file_path, write, read, wrote, write_tree, write_data, read_contents,
  refuse_streamed,
}

-- Of an envelope, the walk rewrites the payload alone.
module _ {Store : Type 0} (os : Outside Store) (secret_value : Bytes → Bool) (r : Redactor)
    (id fp at : Bytes) (payload : Node) where
  abbrev rest_from : Bytes → Node → Nodes
  rest_from text p = error_field os text (field (codes "payload") p nil)

  walked_payload :
      redact_values secret_value r [] (field (codes "payload") payload nil)
      ≡ field (codes "payload") (redact_node secret_value r (codes "payload") payload) nil
  unfolding contains bytes_eq
  walked_payload =
      other_field secret_value r str_tag (codes "payload") payload nil refl
      ∙ ap (λ x. field (codes "payload") (redact_node secret_value r (codes "payload") payload) x)
          (no_fields secret_value r [])

  walked_rest :
      (text : Bytes)
      → redact_values secret_value r [] (rest_from text payload)
        ≡ rest_from text (redact_node secret_value r (codes "payload") payload)
  unfolding error_field contains bytes_eq
  walked_rest [] = walked_payload
  walked_rest (c ∷ text) =
      meta_field secret_value r str_tag (codes "error") (text_node os (c ∷ text)) _ refl
      ∙ ap (λ x. field (codes "error") (text_node os (c ∷ text)) x) walked_payload

  redact_envelope :
      (text : Bytes)
      → redact_node secret_value r [] (mapping (envelope_fields os id fp at text payload))
        ≡ mapping (
            envelope_fields os id fp at text (redact_node secret_value r (codes "payload") payload))
  unfolding contains bytes_eq
  redact_envelope text = elim (Bool-cases r.disabled) [
    | inl off ↦
        redact_node_disabled secret_value r [] _ off
        ∙ ap (λ p. mapping (envelope_fields os id fp at text p))
            (sym (redact_node_disabled secret_value r (codes "payload") payload off))
    | inr on ↦
        root_lem secret_value r _ _
          (meta_field secret_value r str_tag (codes "xrr") _ _ refl
            ∙ ap (λ x. field (codes "xrr") (str (codes "1")) x)
                (meta_field secret_value r str_tag (codes "adapter") _ _ refl
                  ∙ ap (λ x. field (codes "adapter") (text_node os id) x)
                      (meta_field secret_value r str_tag (codes "fingerprint") _ _ refl
                        ∙ ap (λ x. field (codes "fingerprint") (text_node os fp) x)
                            (meta_field secret_value r str_tag (codes "recorded_at") _ _ refl
                              ∙ ap (λ x. field (codes "recorded_at") (text_node os at) x)
                                  (walked_rest text)))))
          on
  ]

wrote_ok :
    {Store : Type 0} (x : Store × Bool) (store' : Store)
    → wrote x ≡ (store', ok tt)
    → x ≡ (store', true)
unfolding wrote
wrote_ok (store, true) store' h = cc
wrote_ok (store, false) store' h = cc

module _ {Store : Type 0} (os : Outside Store) (c : FileCassette) (id fp at : Bytes)
    (payload : Payload) (p : Node) where
  -- The fields of the document that is written: the payload's tree is scrubbed.
  abbrev pub stored : Bytes → Nodes
  stored text =
      envelope_fields os id fp at text
        (redact_node os.secret_value (active_redactor os c) (codes "payload") p)

  read-stored :
      (store : Store) (kind text bytes : Bytes)
      → ((v : Bytes) → os.decode_text (text_node os v) ≡ v)
      → os.read_file store (file_path os c id fp kind) ≡ contents bytes
      → os.yaml_unmarshal bytes ≡ some (stored text)
      → read os c id fp store kind ≡ (do
        q ← or_else bad_payload (
            os.decode_payload
              (redact_node os.secret_value (active_redactor os c) (codes "payload") p))
        ok (q, text))
  unfolding read read_contents raw_field refuse_streamed error_field or_else bytes_eq
  read-stored store kind [] bytes texts there parsed = simp (there, parsed)
  read-stored store kind (x ∷ text) bytes texts there parsed =
      simp (there, parsed, texts (x ∷ text))

  write_data_ok :
      (store store' : Store) (kind : Bytes) (o : Option Bytes)
      → write_data os c id fp store kind o ≡ (store', ok tt)
      → (bytes : Bytes) × (o ≡ some bytes)
        × (os.write_file store (file_path os c id fp kind) bytes ≡ (store', true))
  unfolding write_data
  write_data_ok store store' kind none h = cc
  write_data_ok store store' kind (some bytes) h = (bytes, refl, wrote_ok _ _ h)

  pub write_ok :
      (store store' : Store) (kind text : Bytes)
      → os.yaml_encode payload ≡ some p
      → write os c id fp store kind at text payload ≡ (store', ok tt)
      → (bytes : Bytes) × (os.yaml_marshal (mapping (stored text)) ≡ some bytes)
        × (os.write_file store (file_path os c id fp kind) bytes ≡ (store', true))
  unfolding write write_tree
  write_ok store store' kind text encoded h = write_data_ok store store' kind _ (
      ap (λ n. write_data os c id fp store kind (os.yaml_marshal n))
        (sym (redact_envelope os os.secret_value (active_redactor os c) id fp at p text))
      ∙ ap (λ o. write_tree os c id fp store kind at text o) (sym encoded)
      ∙ h)

-- A file that was written is read back, if the file system returns what was written and the YAML
-- library reads the document that it printed: its payload is that of the scrubbed tree, and the
-- recorded error is the very text that was given, which no policy changes.
pub read-write :
    {Store : Type 0} (os : Outside Store) (c : FileCassette) (id fp at : Bytes) (payload : Payload)
    (p : Node) (store store' : Store) (kind text : Bytes)
    → ((s s' : Store) (path bytes : Bytes)
        → os.write_file s path bytes ≡ (s', true)
        → os.read_file s' path ≡ contents bytes)
    → ((bytes : Bytes)
        → os.yaml_marshal (mapping (stored os c id fp at payload p text)) ≡ some bytes
        → os.yaml_unmarshal bytes ≡ some (stored os c id fp at payload p text))
    → ((v : Bytes) → os.decode_text (text_node os v) ≡ v)
    → os.yaml_encode payload ≡ some p
    → write os c id fp store kind at text payload ≡ (store', ok tt)
    → read os c id fp store' kind ≡ (do
      q ← or_else bad_payload (
          os.decode_payload
            (redact_node os.secret_value (active_redactor os c) (codes "payload") p))
      ok (q, text))
read-write os c id fp at payload p store store' kind text kept parses texts encoded h =
    let (bytes, printed, stored_there) =
      write_ok os c id fp at payload p store store' kind text encoded h in
    read-stored os c id fp at payload p store' kind text bytes texts
      (kept store store' (file_path os c id fp kind) bytes stored_there) (parses bytes printed)
