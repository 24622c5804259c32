-- ===== src/Transport/Shape.antt =====
-- What recorder and replayer of go/adapters/grpctransport share: the observed shape of a call, and the
-- open that stands for it, `streamOpenFor` of record.go and `msgHash` of adapter.go.
use poly_xrr.Common.{
  ℕ, Bytes, codes, Bool, true, false, ◌&&◌, ◌==◌, leb, List, [], ◌∷◌, ◌++◌, if◌then◌else◌,
}
use poly_xrr.Stream.Model.{text, StreamType}
use poly_xrr.Stream.Model.StreamType.{server, client, bidi}
use poly_xrr.Stream.Scrub.{StreamScrubInfo, stream_send, scrub_frame}
use poly_xrr.Canonical.{Digest, short_hash}
use poly_xrr.Session.{FileSession}
use poly_xrr.Session.Streams.{StreamOpen}

-- `recEvent`.
pub data RecEvent : Type 0 where
  ev_send ev_recv : Bytes → RecEvent
  ev_half_close : RecEvent

pub record RecStream : Type 0 where
  pub service : Bytes
  pub method : Bytes
  pub events : List RecEvent
  pub sends : List Bytes
  pub sent_count : ℕ
  pub recv_count : ℕ
  pub saw_half_close : Bool
  pub half_close_after_first_send : Bool
  pub compressed : Bool
  pub finished : Bool

abbrev pub new_rec_stream : RecStream
new_rec_stream = record {
  service = [];
  method = [];
  events = [];
  sends = [];
  sent_count = 0;
  recv_count = 0;
  saw_half_close = false;
  half_close_after_first_send = false;
  compressed = false;
  finished = false;
}

unfoldable pub note_half_close : RecStream → RecStream
note_half_close s = if s.saw_half_close then s else record s {
  saw_half_close = true;
  half_close_after_first_send = s.sent_count == 1;
  events = s.events ++ ev_half_close ∷ [];
}

unfoldable pub infer_stream_type : RecStream → StreamType
infer_stream_type s =
    if s.sent_count == 1 && (s.saw_half_close && s.half_close_after_first_send)
    then server
    else if leb s.recv_count 1
    then client
    else bidi

-- A nil message is an empty one.
unfoldable pub first_or_nil : List Bytes → Bytes
first_or_nil [] = []
first_or_nil (m ∷ ms) = m

abbrev pub adapter_id : Bytes
adapter_id = codes "grpc"

unfoldable pub msg_hash : Digest → Bytes → Bytes
msg_hash d b = short_hash d b

abbrev pub counted_open : StreamType → Bytes → Bytes → StreamOpen
counted_open typ service method =
    let names = (codes "service", text service) ∷ (codes "method", text method) ∷ [] in
    record { adapter_id = adapter_id; typ = typ; identity = names; counter = true; payload = names }

abbrev pub hashed_open : Bytes → Bytes → Bytes → StreamOpen
hashed_open hash service method =
    let names = (codes "service", text service) ∷ (codes "method", text method) ∷ [] in
    record {
      adapter_id = adapter_id;
      typ = server;
      identity = names ++ (codes "msg_hash", text hash) ∷ [];
      counter = false;
      payload = names;
    }

-- A server stream is addressed by its scrubbed first message, the others by their ordinal.
unfoldable pub stream_open_for :
    Digest → FileSession → StreamType → Bytes → Bytes → Bytes → StreamOpen
unfolding msg_hash
stream_open_for d s server service method message =
    let info : StreamScrubInfo = record { adapter_id = adapter_id; typ = server } in
    hashed_open (msg_hash d (scrub_frame s.stream_scrub stream_send info message)) service method
stream_open_for d s typ service method message = counted_open typ service method
