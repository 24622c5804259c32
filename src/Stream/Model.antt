-- ===== src/Stream/Model.antt =====
-- The types of go/stream.go.
use poly_xrr.Common.{ℤ, Bytes, Bool, Option, List, map}

-- Payload maps are `map[string]any` in the source, opaque to the core but for the key "n" that it
-- adds: `Payload` keeps the adapter's part as a list of keys and scalars.
pub data Scalar : Type 0 where
  text : Bytes → Scalar
  int : ℤ → Scalar

abbrev pub Payload : Type 0
Payload = List (Bytes × Scalar)

-- A `StreamType` is a string: three known values, and any other text.
pub data StreamType : Type 0 where
  server client bidi : StreamType
  other : Bytes → StreamType

pub record StreamFrame : Type 0 where
  pub seq : ℤ
  pub message : Bytes
  pub text : Bool
  pub at_ms : Option ℤ

pub record StreamEvent : Type 0 where
  pub seq : ℤ
  pub at_ms : Option ℤ

pub record ReqStream : Type 0 where
  pub typ : StreamType
  pub frames : List StreamFrame
  pub half_close : Option StreamEvent

pub record RespStream : Type 0 where
  pub frames : List StreamFrame
  pub end : StreamEvent

pub record StreamPair : Type 0 where
  pub req : ReqStream
  pub resp : RespStream
  pub req_payload : Payload
  pub resp_payload : Payload
  pub recorded_at : Bytes
  pub recorded_err : Bytes

abbrev pub seqs : List StreamFrame → List ℤ
seqs = map (λ f. f.seq)
