-- ===== src/Transport/Server/Deliver.antt =====
-- What the server of go/adapters/grpctransport/replay.go writes, and what it does with a message that
-- comes in two frames.
use poly_xrr.Common.{
  ℕ, ◌<◌, ◌^◌, ◌≢◌, codes, pos, ◌≤◌, ◌==◌, Bytes, Bool, Option, none, some, List, [], ◌∷◌, ◌++◌,
  length, if◌then◌else◌, ◌≡◌, refl, ap,
}
use poly_xrr.Common.Maps.{lookup}
use poly_xrr.Errors.{Result}
use poly_xrr.Stream.Model.{int}
use poly_xrr.Transport.Status.{encode_grpc_message}
use poly_xrr.Replay.{StreamReplay}
use poly_xrr.Transport.Reassembly.{max_grpc_message_size, feed, frame_message}
use poly_xrr.Transport.Reassembly.Partial.{feed-partial}
use poly_xrr.Transport.Answers.{ReplayStream}
use poly_xrr.Transport.Server.{
  Output, response_data, trailers, ReplayConn, Host, on_messages, on_data,
}

-- The DATA frames of one stream among what is written.
abbrev pub payloads : ℕ → List Output → List Bytes
payloads id [] = []
payloads id (response_data j b ∷ out) = if j == id then b ∷ payloads id out else payloads id out
payloads id (_ ∷ out) = payloads id out

module _ {Store : Type 0} (host : Host Store) (dir : Bytes) where
  -- The status of the trailers: OK with no message behind an end without error, and otherwise the code
  -- and the text that were recorded.
  pub record Ends (id : ℕ) (rp : StreamReplay) (o : Output) : Type 0 where
    pub well : rp.pair.recorded_err ≡ [] → o ≡ trailers id 0 none
    pub failed :
        (x : ℕ) (text : Bytes) (code : ℕ)
        → rp.pair.recorded_err ≡ x ∷ text
        → lookup (codes "status_code") rp.pair.resp_payload ≡ some (int (pos code))
        → code ≢ 0
        → code < 2 ^ 32
        → o ≡ trailers id code (some (encode_grpc_message (x ∷ text)))

  -- A DATA frame that ends inside its first message counts as an empty one: its bytes are dropped,
  -- and the message is lost.
  pub on_data-partial :
      (c : ReplayConn) (id : ℕ) (p q m : Bytes) (x : ℕ) (ended : Bool) (s : Option ReplayStream)
      → length m ≤ max_grpc_message_size
      → p ++ x ∷ q ≡ frame_message m
      → on_data host dir c id p ended s ≡ on_data host dir c id [] ended s
  unfolding on_data feed
  on_data-partial c id p q m x ended none small h = refl
  on_data-partial c id p q m x ended (some s) small h =
      ap (λ (r : Bytes × Result (List Bytes)). on_messages host dir c id s ended r.1)
        (feed-partial p q m x small h)
