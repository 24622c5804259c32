-- ===== src/Session/Unary/Tests.antt =====
-- A concrete unary interaction: a request that holds a secret, and a call that fails.
use poly_xrr.Common.{
  if_both, Bytes, codes, bytes_eq, bytes_eq_refl, Bool, true, false, Option, none, some, List, [],
  ◌∷◌, ◌≡◌, refl, sym, ap, ◌∙◌, if◌then◌else◌, arith,
}
use poly_xrr.Common.Maps.{lookup, insert, lookup-insert}
use poly_xrr.Errors.{ok}
use poly_xrr.Stream.Model.{Payload, text}
use poly_xrr.Redact.{Redactor, Node, mapping, Nodes, nil, cons, value_of, redact_node}
use poly_xrr.Common.Utf8.{utf8_valid}
use poly_xrr.Session.{record_mode, FileCassette, FileSession}
use poly_xrr.Session.Files.{
  Contents, contents, not_exist, Outside, str, text_node, field, envelope_fields, error_field,
  active_redactor, save, write, write_tree, write_data, wrote, read, or_else,
}
use poly_xrr.Session.Files.RoundTrip.{read-write}
use poly_xrr.Session.Unary.{Adapter, Done}

abbrev Files : Type 0
Files = List (Bytes × Bytes)

abbrev found : Option Bytes → Contents
found none = not_exist
found (some b) = contents b

abbrev policy : Redactor
policy = record { disabled = false; allow = []; deny = [] }

abbrev tape : FileCassette
tape = record { dir = codes "tapes"; redactor = some policy }

abbrev login : Payload
login = (codes "TOKEN", text (codes "abc")) ∷ []

abbrev login_tree : Node
login_tree = mapping (field (codes "TOKEN") (str (codes "abc")) nil)

abbrev secret_value : Bytes → Bool
secret_value v = false

abbrev walked : Node → Node
walked = redact_node secret_value policy (codes "payload")

-- A library for printing alone, with the files that it needs.
abbrev printer : Outside Files
printer = record {
  read_file = λ s path. not_exist;
  write_file = λ s path b. (s, false);
  join = λ d f. f;
  getenv = λ v. [];
  secret_value = secret_value;
  yaml_encode = λ v. none;
  yaml_binary = λ v. v;
  yaml_marshal = λ n. none;
  yaml_unmarshal = λ b. none;
  decode_payload = λ n. none;
  decode_text = value_of;
}

abbrev document_of : Bytes → Node → Nodes
document_of e n = envelope_fields printer (codes "http") (codes "f00d") (codes "now") e (walked n)

-- The name of an envelope's fifth field tells the two documents apart.
abbrev fifth : Nodes → Bytes
fifth (cons a (cons b (cons c (cons d (cons e (cons f (cons g (cons h (cons k rest))))))))) =
    value_of k
fifth _ = []

abbrev printed : Node → Bytes
printed (mapping c) = fifth c
printed _ = []

abbrev outside : Outside Files
outside = record printer {
  read_file = λ s path. found (lookup path s);
  write_file = λ s path b. (insert path b s, true);
  yaml_encode = λ v. some (elim v [ [] ↦ mapping nil | x ∷ xs ↦ login_tree ]);
  yaml_marshal = λ n. some (printed n);
  yaml_unmarshal = λ b. some (
      if bytes_eq b (codes "error")
      then document_of (codes "refused") (mapping nil)
      else document_of [] login_tree);
  decode_payload = λ n. some [];
}

-- A string comes back from either form.
texts : (v : Bytes) → outside.decode_text (text_node outside v) ≡ v
texts v = if_both (λ n. value_of n ≡ v) (utf8_valid v) refl refl

kept :
    (s s' : Files) (path bytes : Bytes)
    → outside.write_file s path bytes ≡ (s', true)
    → outside.read_file s' path ≡ contents bytes
kept s s' path bytes h =
    let e : insert path bytes s ≡ s' = cc in
    let there : lookup path (insert path bytes s) ≡ some bytes =
      lookup-insert path path bytes s ∙ ground (arith, bytes_eq_refl path) in
    ap (λ x. found (lookup path x)) (sym e) ∙ ap found there

reread : {X : Type 0} (f : Bytes → X) (x b : Bytes) (y : X) → some x ≡ some b → f x ≡ y → f b ≡ y
reread f x b y h e = let same : x ≡ b = cc in ap f (sym same) ∙ e

abbrev adapter : Adapter
adapter = record { id = codes "http"; fingerprint = λ req. ok (codes "f00d") }

abbrev refuse : Bytes → Bytes × Done
refuse w = (codes "called", (none, some (codes "refused")))

abbrev session : FileSession
session = record { mode = record_mode; cassette = some tape; stream_n = []; stream_scrub = none }

-- The files after the recording.
abbrev taped : Files
taped =
    (save outside tape (codes "http") (codes "f00d") [] (codes "now") login none
      (some (codes "refused"))).0

abbrev req_taped : Files
req_taped =
    (write outside tape (codes "http") (codes "f00d") [] (codes "req") (codes "now") [] login).0

read-write_example :
    read outside tape (codes "http") (codes "f00d") req_taped (codes "req") ≡ ok ([], [])
unfolding write write_tree write_data wrote error_field bytes_eq active_redactor or_else
read-write_example =
    read-write outside tape (codes "http") (codes "f00d") (codes "now") login login_tree []
      req_taped (codes "req") [] kept (λ bytes h. reread outside.yaml_unmarshal _ bytes _ h refl)
      texts refl refl
