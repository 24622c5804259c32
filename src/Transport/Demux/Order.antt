-- ===== src/Transport/Demux/Order.antt =====
-- The events of one DATA frame, go/adapters/grpctransport/demux.go.
use poly_xrr.Common.{
  ℕ, zero, suc, Bytes, Bool, ◌&&◌, ◌==◌, none, some, List, [], ◌∷◌, if◌then◌else◌, ◌≡◌, refl, ap,
  ap₂, ◌∙◌,
}
use poly_xrr.Errors.{Result, ok}
use poly_xrr.Redact.{Redactor}
use poly_xrr.Transport.Reassembly.{feed}
use poly_xrr.Transport.Demux.{
  WireEvent, wire_message, Frame, data_frame, frame_event, ConnDecoder, set_stream, is_last,
  drain_msgs, drain_queued, turn, at_end, fed, feed_data, next,
}

-- One event for each message, the flag END_STREAM on the last alone.
pub tagged : ℕ → Bool → List Bytes → List WireEvent
tagged id ended [] = []
tagged id ended (m ∷ ms) = wire_message id (some m) (is_last ms && ended) ∷ tagged id ended ms

-- The next events of a decoder, `k` at most, without its state after them.
abbrev pub upcoming :
    (Bytes → Bool) → Redactor → ℕ → ConnDecoder → List Frame → List (Result WireEvent)
upcoming secret_value r zero c fs = []
upcoming secret_value r (suc k) c fs =
    let (c', fs', ev) = next secret_value r c fs in ev ∷ upcoming secret_value r k c' fs'

abbrev pub count : List Bytes → ℕ
count [] = zero
count (m ∷ ms) = suc (count ms)

abbrev pub all_ok : List WireEvent → List (Result WireEvent)
all_ok [] = []
all_ok (ev ∷ evs) = ok ev ∷ all_ok evs

queue_first :
    (secret_value : Bytes → Bool) (r : Redactor) (streams : ℕ → Bytes) (id : ℕ) (ended : Bool)
    (ms : List Bytes) (fs : List Frame)
    → upcoming secret_value r
        (count ms)
        (record {
          streams = streams;
          queued = record { stream_id = id; msgs = ms; end_stream = ended };
        })
        fs
      ≡ all_ok (tagged id ended ms)
unfolding next turn at_end drain_queued drain_msgs tagged
queue_first secret_value r streams id ended [] fs = refl
queue_first secret_value r streams id ended (m ∷ ms) [] =
    ap (λ evs. ok (wire_message id (some m) (is_last ms && ended)) ∷ evs)
      (queue_first secret_value r streams id ended ms [])
queue_first secret_value r streams id ended (m ∷ ms) (f ∷ fs) =
    ap (λ evs. ok (wire_message id (some m) (is_last ms && ended)) ∷ evs)
      (queue_first secret_value r streams id ended ms (f ∷ fs))

-- The decoder behind the first event of a frame.
abbrev behind : ConnDecoder → ℕ → Bool → Bytes → List Bytes → ConnDecoder
behind c id ended buf ms = record {
  streams = set_stream c.streams id buf;
  queued = record { stream_id = id; msgs = ms; end_stream = ended };
}

module _ (secret_value : Bytes → Bool) (r : Redactor) (c : ConnDecoder) (id : ℕ)
    (bytes buf m : Bytes) (ms : List Bytes) (ended : Bool) (fs : List Frame)
    (idle : c.queued.msgs ≡ []) (got : feed (c.streams id) bytes ≡ (buf, ok (m ∷ ms))) where
  nothing_queued : drain_queued c ≡ none
  unfolding drain_queued drain_msgs
  nothing_queued = ap (drain_msgs c) idle

  fed_lem :
      feed_data c id bytes ended
      ≡ (behind c id ended buf ms, ok (some (wire_message id (some m) (is_last ms && ended))))
  unfolding feed_data fed
  fed_lem = ap (fed c id ended) got

  event_lem :
      frame_event secret_value r c (data_frame id bytes ended)
      ≡ (behind c id ended buf ms, ok (some (wire_message id (some m) (is_last ms && ended))))
  unfolding frame_event
  event_lem = simp fed_lem

  first_event :
      next secret_value r c (data_frame id bytes ended ∷ fs)
      ≡ (behind c id ended buf ms, fs, ok (wire_message id (some m) (is_last ms && ended)))
  unfolding next turn
  first_event =
      ap₂ (λ o got. turn (data_frame id bytes ended) fs o got (next secret_value r got.0 fs))
        nothing_queued event_lem

  -- A DATA frame that completes messages on a stream, read by a decoder with nothing queued, gives
  -- exactly one event for each of them, in order and with END_STREAM on the last alone, before any
  -- later frame is looked at. It changes the buffer of that stream only.
  pub upcoming-data_frame :
      (upcoming secret_value r (count (m ∷ ms)) c (data_frame id bytes ended ∷ fs)
        ≡ all_ok (tagged id ended (m ∷ ms)))
      × ((j : ℕ)
          → (next secret_value r c (data_frame id bytes ended ∷ fs)).0.streams j
            ≡ (if j == id then buf else c.streams j))
  unfolding tagged
  upcoming-data_frame = (
    ap
          (λ (x : ConnDecoder × List Frame × Result WireEvent).
            x.2 ∷ upcoming secret_value r (count ms) x.0 x.1)
          first_event
        ∙ ap (λ evs. ok (wire_message id (some m) (is_last ms && ended)) ∷ evs)
            (queue_first secret_value r (set_stream c.streams id buf) id ended ms fs),
    λ j. ap (λ (x : ConnDecoder × List Frame × Result WireEvent). x.0.streams j) first_event,
  )
