-- ===== src/Errors.antt =====
-- The errors that the modelled functions return, for every file of go/. The text of an error is
-- not modelled: an error is its identity (what `errors.Is` and `errors.As` can tell) and the
-- values that its text names. A function that returns `(v, error)` returns a `Result`.
use poly_xrr.Common.{ℕ, Bytes, ◌≡◌, refl}

-- What a validation error is about: the `what` and `side` texts of `ValidateStreamPair`.
pub data Part : Type 0 where
  req_frame resp_frame : ℕ → Part
  half_close_event end_event : Part

-- `StreamMismatchError.Op`.
pub data StreamOp : Type 0 where
  send_op half_close_op : StreamOp

pub data Error : Type 0 where
  -- ErrCassetteMiss, ErrShapeMismatch and StreamMismatchError (operation, ordinal)
  cassette_miss shape_mismatch : Error
  stream_mismatch : StreamOp → ℕ → Error
  -- io.EOF, and the recorded error that a replay emits again
  eof : Error
  recorded : Bytes → Error
  -- ValidateStreamPair
  invalid_type : Bytes → Error
  negative_seq duplicate_seq not_ascending : Part → Error
  end_not_max : Error
  -- opening a stream
  wrong_mode no_cassette no_adapter_id marshal_failed negative_ordinal : Error
  reserved_key : Bytes → Error
  already_finished : Error
  -- FileSession and SessionFromEnv
  unknown_mode : Bytes → Error
  dir_not_set not_directory dir_missing mkdir_failed stat_failed : Error
  fingerprint_failed : Error → Error
  save_failed : Error → Error
  -- the gRPC transport
  message_too_large : ℕ → Error
  compressed_stream : Bytes → Bytes → Bytes → Error
  closed_pipe : Error
  -- the gRPC adapter: a status error of grpc-go, and its own refusals
  status_error : ℕ → Bytes → Error
  unary_shaped no_request : Error
  malformed_method : Bytes → Error
  recording_incomplete : Error → Error
  -- a nil cassette in a call of its methods
  nil_dereference : Error
  -- reading and writing cassette files
  encode_failed read_failed write_failed bad_yaml missing_payload bad_payload : Error
  bad_stream one_sided_stream missing_type missing_end : Error
  missing_seq bad_encoding not_scalar bad_b64 : Part → Error
  -- the command line tool
  bad_config invalid_mode bad_duration bad_command bad_pattern bad_boolean conflict collision :
      Bytes → Error
  -- an error of code outside the module: the adapter's, or that of the recorded call
  foreign : Bytes → Error

pub data Result {ℓ} (A : Type ℓ) : Type ℓ where
  err : Error → Result A
  ok : A → Result A

infixl 5 ◌>>◌ ◌>>=◌
-- What a Go function does with `if err != nil { return err }`.
abbrev pub ◌>>=◌ {κ ℓ} : {X : Type κ} {Y : Type ℓ} → Result X → (X → Result Y) → Result Y
err e >>= next = err e
ok a >>= next = next a

-- Inversion of a successful bind.
pub >>=-eq-ok {κ ℓ} :
    {X : Type κ} {Y : Type ℓ} (call : Result X) (next : X → Result Y) {y : Y}
    → (call >>= next) ≡ ok y
    → (x : X) × (call ≡ ok x) × (next x ≡ ok y)
>>=-eq-ok (err e) next h = cc
>>=-eq-ok (ok x) next h = (x, refl, h)

-- The same where the call has no value.
abbrev pub ◌>>◌ {ℓ} : {B : Type ℓ} → Result (Unit {0}) → Result B → Result B
check >> rest = check >>= λ _. rest
