-- ===== src/Recording/Tests.antt =====
-- A concrete recording.
use poly_xrr.Common.{
  ℤ, pos, Bytes, codes, false, Option, none, some, List, [], ◌∷◌, ◌≡◌, refl, arith, map,
}
use poly_xrr.Errors.{already_finished, ok, err}
use poly_xrr.Stream.Model.{StreamFrame, StreamPair, Payload}
use poly_xrr.Stream.Model.StreamType.{client}
use poly_xrr.Stream.Scrub.{StreamScrubFunc, scrub_frame}
use poly_xrr.Stream.Validate.{validate_stream_pair}
use poly_xrr.Recording.{
  StreamRecording, record_send, record_recv, record_half_close, finished_pair, finish, Call, send,
  recv, close, record_call, record_calls,
}
use poly_xrr.Stream.Cassette.Memory.{memory}
use poly_xrr.Recording.Log.{IsLogged}
use poly_xrr.Recording.Finished.{validate-record_calls, finish_once}

-- Every frame is replaced by one byte.
abbrev hide : StreamScrubFunc
hide dir info message = codes "*"

abbrev handle : StreamRecording
handle = record {
  adapter_id = codes "sse";
  fingerprint = codes "00000000";
  typ = client;
  req_payload = [];
  scrub = some hide;
  seq = 0;
  sends = [];
  recvs = [];
  half_close = none;
  finished = false;
}

handle-IsLogged : IsLogged handle
handle-IsLogged = record {
  sends_ascend = tt;
  recvs_ascend = tt;
  nonnegative = tt;
  distinct = tt;
  below = tt;
}

abbrev calls : List Call
calls = send (pos 1) (codes "a") ∷ recv (pos 2) (codes "x") ∷ close (pos 3) ∷ close (pos 4) ∷ []

-- The hook's bytes are kept, and the second half-close is dropped.
logged :
    (map (λ (f : StreamFrame). f.message) (record_calls handle calls).sends ≡ codes "*" ∷ [])
    × ((record_calls handle calls).seq ≡ 3)
unfolding record_calls record_call record_send record_recv record_half_close scrub_frame
logged = (refl, refl)

validate-record_calls_example :
    validate_stream_pair (finished_pair (record_calls handle calls) (pos 5) [] none) ≡ ok tt
validate-record_calls_example =
    validate-record_calls handle calls (pos 5) [] none handle-IsLogged tt

finish_once_example :
    (record_calls (finish memory [] handle (pos 5) [] none).0 calls
      ≡ (finish memory [] handle (pos 5) [] none).0)
    × (finish memory [] (finish memory [] handle (pos 5) [] none).0 (pos 6) [] none
        ≡ ((finish memory [] handle (pos 5) [] none).0, [], err already_finished))
finish_once_example = finish_once memory [] [] handle calls (pos 5) (pos 6) [] [] none none

-- The memory never fails, so `Finish` succeeds on it.
pub finish-memory :
    (store : List (Bytes × StreamPair)) (r : StreamRecording) (since : ℤ) (payload : Payload)
    (terminal : Option Bytes)
    → r.finished ≡ false
    → finish memory store r since payload terminal ≡ (
      (finish memory store r since payload terminal).0,
      (finish memory store r since payload terminal).1,
      ok tt,
    )
unfolding finish
finish-memory store r since payload terminal live = ground arith
