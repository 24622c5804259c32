-- ===== src/Session/Files.antt =====
-- go/cassette.go: unary interactions as two YAML files. What is outside the module is the record
-- `Outside`: the files, the YAML library, the environment and the value patterns.
pub mod RoundTrip
use poly_xrr.Common.{
  Bytes, codes, bytes_eq, Bool, true, false, Option, none, some, List, [], ◌∷◌, ◌++◌, if◌then◌else◌,
}
use poly_xrr.Common.Utf8.{utf8_valid}
use poly_xrr.Errors.{
  Error, cassette_miss, shape_mismatch, encode_failed, marshal_failed, write_failed, read_failed,
  bad_yaml, missing_payload, bad_payload, Result, ok, err, ◌>>=◌, ◌>>◌,
}
use poly_xrr.Stream.Model.{Payload}
use poly_xrr.Redact.{
  Redactor, new_redactor, redact_config_from_env, Node, mapping, scalar, Nodes, nil, cons, value_of,
  str_tag, redact_node,
}
use poly_xrr.Session.{FileCassette}

-- What `os.ReadFile` finds.
pub data Contents : Type 0 where
  not_exist read_error : Contents
  contents : Bytes → Contents

-- `yaml_binary` is the base64 form that the library gives a string that is no UTF-8, `yaml_encode` is `yaml.Node.Encode` of a payload, `yaml_marshal` is `yaml.Marshal` of a tree,
-- `yaml_unmarshal` reads a document as a map, given by its keys and values in turn, and
-- `decode_payload` and `decode_text` decode a node into a map or a string, where the source
-- ignores that the latter fails. A failed write may have changed the files.
pub record Outside (Store : Type 0) : Type 0 where
  pub read_file : Store → Bytes → Contents
  pub write_file : Store → Bytes → Bytes → Store × Bool
  pub join : Bytes → Bytes → Bytes
  pub getenv : Bytes → Bytes
  pub secret_value : Bytes → Bool
  pub yaml_encode : Payload → Option Node
  pub yaml_binary : Bytes → Bytes
  pub yaml_marshal : Node → Option Bytes
  pub yaml_unmarshal : Bytes → Option Nodes
  pub decode_payload : Node → Option Payload
  pub decode_text : Node → Bytes

-- `normalizePayload`: nil becomes an empty map.
unfoldable pub normalize_payload : Option Payload → Payload
normalize_payload none = []
normalize_payload (some v) = v

abbrev pub str : Bytes → Node
str v = scalar str_tag v

abbrev pub field : Bytes → Node → Nodes → Nodes
field k v rest = cons (str k) (cons v rest)

-- A string of a struct as a node; what is no UTF-8 is `!!binary`.
abbrev pub text_node : {Store : Type 0} → Outside Store → Bytes → Node
text_node os v = if utf8_valid v then str v else scalar (codes "!!binary") (os.yaml_binary v)

-- `omitempty` of the field `error`.
unfoldable pub error_field : {Store : Type 0} → Outside Store → Bytes → Nodes → Nodes
error_field os [] rest = rest
error_field os (c ∷ text) rest = field (codes "error") (text_node os (c ∷ text)) rest

-- The struct `envelope` as a tree: its fields in order.
abbrev pub envelope_fields :
    {Store : Type 0} → Outside Store → Bytes → Bytes → Bytes → Bytes → Node → Nodes
envelope_fields os id fp at text payload = field (codes "xrr") (str (codes "1")) (
    field (codes "adapter") (text_node os id) (
      field (codes "fingerprint") (text_node os fp) (
        field (codes "recorded_at") (text_node os at)
          (error_field os text (field (codes "payload") payload nil)))))

-- `raw[key]`.
pub raw_field : Bytes → Nodes → Option Node
raw_field key nil = none
raw_field key (cons k nil) = none
raw_field key (cons k (cons v rest)) =
    if bytes_eq (value_of k) key then some v else raw_field key rest

pub read_contents : Contents → Result Bytes
read_contents not_exist = err cassette_miss
read_contents read_error = err read_failed
read_contents (contents text) = ok text

unfoldable pub or_else {ℓ} : {A : Type ℓ} → Error → Option A → Result A
or_else e none = err e
or_else e (some a) = ok a

-- A streamed cassette is not read as a unary one.
pub refuse_streamed : Option Node → Result (Unit {0})
refuse_streamed none = ok tt
refuse_streamed (some n) = err shape_mismatch

unfoldable pub wrote {ℓ} : {Store : Type ℓ} → Store × Bool → Store × Result (Unit {0})
wrote (store, true) = (store, ok tt)
wrote (store, false) = (store, err write_failed)

-- `activeRedactor`.
unfoldable pub active_redactor : {Store : Type 0} → Outside Store → FileCassette → Redactor
active_redactor os c = elim c.redactor [
  | some r ↦ r
  | none ↦ new_redactor (redact_config_from_env os.getenv)
]

module _ {Store : Type 0} (os : Outside Store) (c : FileCassette) (id fp : Bytes) where
  unfoldable pub file_path : Bytes → Bytes
  file_path kind =
      os.join c.dir (id ++ (codes "-" ++ (fp ++ (codes "." ++ (kind ++ codes ".yaml")))))

  -- The tree that is marshalled.
  abbrev scrubbed : Bytes → Bytes → Node → Node
  scrubbed at text payload =
      redact_node os.secret_value (active_redactor os c) []
        (mapping (envelope_fields os id fp at text payload))

  unfoldable pub write_data : Store → Bytes → Option Bytes → Store × Result (Unit {0})
  unfolding wrote file_path
  write_data store kind none = (store, err marshal_failed)
  write_data store kind (some bytes) = wrote (os.write_file store (file_path kind) bytes)

  unfoldable pub write_tree :
      Store → Bytes → Bytes → Bytes → Option Node → Store × Result (Unit {0})
  unfolding write_data
  write_tree store kind at text none = (store, err encode_failed)
  write_tree store kind at text (some payload) =
      write_data store kind (os.yaml_marshal (scrubbed at text payload))

  unfoldable pub write : Store → Bytes → Bytes → Bytes → Payload → Store × Result (Unit {0})
  unfolding write_tree
  write store kind at text payload = write_tree store kind at text (os.yaml_encode payload)

  unfoldable pub read : Store → Bytes → Result (Payload × Bytes)
  unfolding read_contents raw_field refuse_streamed or_else
  read store kind = do
    bytes ← read_contents (os.read_file store (file_path kind))
    raw ← or_else bad_yaml (os.yaml_unmarshal bytes)
    refuse_streamed (raw_field (codes "stream") raw)
    node ← or_else missing_payload (raw_field (codes "payload") raw)
    payload ← or_else bad_payload (os.decode_payload node)
    ok (payload, elim (raw_field (codes "error") raw) [ none ↦ [] | some n ↦ os.decode_text n ])

  -- `Save`, behind the request file.
  unfoldable pub save_resp :
      Bytes → Option Payload → Option Bytes → Store × Result (Unit {0}) → Store × Result (Unit {0})
  save_resp now resp text (store, err e) = (store, err e)
  save_resp now resp text (store, ok done) =
      write store (codes "resp") now (elim text [ none ↦ [] | some t ↦ t ]) (normalize_payload resp)

  unfoldable pub save :
      Store → Bytes → Payload → Option Payload → Option Bytes → Store × Result (Unit {0})
  unfolding save_resp
  save store now req resp text =
      save_resp now resp text (write store (codes "req") now [] (normalize_payload (some req)))

  -- `Load`: the payloads of both files, and the recorded error.
  unfoldable pub load : Store → Result (Payload × Payload × Bytes)
  unfolding read
  load store = do
    (req, none_there) ← read store (codes "req")
    (resp, text) ← read store (codes "resp")
    ok (req, resp, text)
