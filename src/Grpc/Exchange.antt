-- ===== src/Grpc/Exchange.antt =====
-- A conversation over a bidi call, with the clock's readings, as a client has it, with messages whose
-- wire bytes are `wire`.
use poly_xrr.Common.{ℤ, Bytes, AreBytes, true, ◌≡◌, ap}
use poly_xrr.Errors.{Result, ok, ◌>>=◌}
use poly_xrr.Stream.Model.{StreamType}
use poly_xrr.Stream.Model.StreamType.{bidi}
use poly_xrr.Recording.{Call}
use poly_xrr.Recording.Call.{send, recv, close}
use poly_xrr.Grpc.{Grpc, StreamDesc, stream_type_of, split_full_method, call_of}

pub data Exchange (Msg : Type 0) : Type 0 where
  says hears : ℤ → Msg → Exchange Msg
  closes : ℤ → Exchange Msg

pub data Answer (Msg : Type 0) : Type 0 where
  said closed : Result (Unit {0}) → Answer Msg
  heard : Result Msg → Answer Msg

-- The messages go through the codec and back, and their wire form is bytes.
pub record IsCodec {Msg : Type 0} (g : Grpc Msg) (wire : Msg → Bytes) : Type 0 where
  pub marshals : (m : Msg) → g.marshal m ≡ ok (wire m)
  pub unmarshals : (m : Msg) → g.unmarshal (wire m) ≡ ok m
  pub has_bytes : (m : Msg) → AreBytes (wire m)

abbrev pub bidi_desc : StreamDesc
bidi_desc = record { client_streams = true; server_streams = true }

module _ {Msg : Type 0} (wire : Msg → Bytes) where
  abbrev pub call_of_exchange : Exchange Msg → Call
  call_of_exchange (says since m) = send since (wire m)
  call_of_exchange (hears since m) = recv since (wire m)
  call_of_exchange (closes since) = close since

abbrev pub answer_of : {Msg : Type 0} → Exchange Msg → Answer Msg
answer_of (says since m) = said (ok tt)
answer_of (hears since m) = heard (ok m)
answer_of (closes since) = closed (ok tt)

pub call_of-bidi :
    (full service method : Bytes)
    → split_full_method full ≡ ok (service, method)
    → call_of bidi_desc full ≡ ok (bidi, service, method)
unfolding call_of stream_type_of
call_of-bidi full service method h =
    let named : Bytes × Bytes → Result (StreamType × Bytes × Bytes) = λ n. ok (bidi, n.0, n.1) in
    ap (λ x. x >>= named) h
