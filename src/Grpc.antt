-- ===== src/Grpc.antt =====
-- The gRPC adapter go/adapters/grpc/stream.go: streamed calls behind a client interceptor. A message is
-- a value of any type `Msg`; what grpc-go and protobuf do is a `Grpc`.
pub mod Record
pub mod Replay
pub mod Exchange
pub mod Interceptor
pub mod RoundTrip
mod Tests
use poly_xrr.Common.{
  ℕ, Bytes, codes, List, [], ◌∷◌, ◌++◌, Bool, true, false, ◌&&◌, Option, none, some, if◌then◌else◌,
}
use poly_xrr.Errors.{Error, unary_shaped, malformed_method, Result, ok, err, ◌>>=◌}
use poly_xrr.Stream.Model.{text, StreamType}
use poly_xrr.Stream.Model.StreamType.{server, client, bidi}
use poly_xrr.Stream.Scrub.{StreamScrubInfo, scrub_frame}
use poly_xrr.Stream.Scrub.StreamDirection.{stream_send}
use poly_xrr.Canonical.{Digest}
use poly_xrr.Session.{FileSession}
use poly_xrr.Session.Streams.{StreamOpen}
use poly_xrr.Transport.Headers.{split_path}
use poly_xrr.Transport.Shape.{adapter_id, msg_hash}

-- `marshalMessage` and `unmarshalMessage` on a message, `status.Code`, the text of an error, and the
-- name of a code.
pub record Grpc (Msg : Type 0) : Type 0 where
  pub marshal : Msg → Result Bytes
  pub unmarshal : Bytes → Result Msg
  pub status_code : Error → ℕ
  pub error_text : Error → Bytes
  pub code_name : ℕ → Bytes

-- `grpc.StreamDesc`, as far as it is read.
pub record StreamDesc : Type 0 where
  pub client_streams : Bool
  pub server_streams : Bool

unfoldable pub stream_type_of : StreamDesc → Result StreamType
stream_type_of desc =
    if desc.client_streams && desc.server_streams
    then ok bidi
    else if desc.server_streams
    then ok server
    else if desc.client_streams
    then ok client
    else err unary_shaped

-- The test of the slash is that of `splitPath`.
pub method_or_error : Bytes → Option (Bytes × Bytes) → Result (Bytes × Bytes)
method_or_error full none = err (malformed_method full)
method_or_error full (some names) = ok names

pub split_full_method : Bytes → Result (Bytes × Bytes)
unfolding method_or_error
split_full_method full = method_or_error full (split_path full)

unfoldable pub is_server : StreamType → Bool
is_server server = true
is_server _ = false

-- `streamOpen`. A server stream is addressed by its scrubbed first message, the others by their ordinal.
pub stream_open : Digest → FileSession → StreamType → Bytes → Bytes → Bytes → StreamOpen
unfolding is_server msg_hash
stream_open d s typ service method msg =
    let names = (codes "service", text service) ∷ (codes "method", text method) ∷ [] in
    let open_value : StreamOpen = record {
      adapter_id = adapter_id;
      typ = typ;
      identity = names;
      counter = false;
      payload = names;
    } in
    let info : StreamScrubInfo = record { adapter_id = adapter_id; typ = typ } in
    if is_server typ
    then record open_value {
      identity =
          names
          ++ (codes "msg_hash", text (msg_hash d (scrub_frame s.stream_scrub stream_send info msg)))
            ∷ [];
    }
    else record open_value { counter = true }

-- What both constructors find out first: the type, the service and the method.
unfoldable pub call_of : StreamDesc → Bytes → Result (StreamType × Bytes × Bytes)
unfolding stream_type_of split_full_method
call_of desc full = do
  typ ← stream_type_of desc
  (service, method) ← split_full_method full
  ok (typ, service, method)
