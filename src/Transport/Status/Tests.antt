-- ===== src/Transport/Status/Tests.antt =====
-- A concrete status text.
use poly_xrr.Common.{codes, ◌≡◌, arith}
use poly_xrr.Transport.Status.{encode_grpc_message, decode_grpc_message}
use poly_xrr.Transport.Status.RoundTrip.{decode-encode_grpc_message}

decode-encode_grpc_message_example :
    decode_grpc_message (encode_grpc_message (codes "50% off\n")) ≡ codes "50% off\n"
decode-encode_grpc_message_example = decode-encode_grpc_message (codes "50% off\n") (
  omega arith,
  (
    omega arith,
    (omega arith, (omega arith, (omega arith, (omega arith, (omega arith, (omega arith, tt)))))),
  ),
)
