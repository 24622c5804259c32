-- ===== src/Transport.antt =====
-- go/adapters/grpctransport: gRPC captured at the HTTP/2 transport. Status texts are in Status, header
-- blocks in Headers, messages cut into DATA frames in Reassembly, and the decoder of a connection in
-- Demux. The recorder is in Tracker, the replaying server in Server and Answers, and what they share in Shape.
pub mod Status
pub mod Headers
pub mod Reassembly
pub mod Demux
pub mod Shape
pub mod Tracker
pub mod Answers
pub mod Server
