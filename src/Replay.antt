-- ===== src/Replay.antt =====
-- The replay path of go/stream_session.go: `StreamReplay` and its methods. The mutex makes each
-- method one step: it returns the handle after the call and the call's result.
pub mod Script
pub mod Divergence
pub mod Reads
mod Tests
use poly_xrr.Common.{
  ℕ, ◌+◌, Bytes, bytes_eq, Bool, true, false, leb, ltb, Option, none, some, List, [], ◌∷◌, length,
  get_elem?, if◌then◌else◌,
}
use poly_xrr.Errors.{
  StreamOp, send_op, half_close_op, Error, eof, recorded, stream_mismatch, Result, ok, err,
}
use poly_xrr.Stream.Model.{Payload, StreamType, StreamFrame, StreamPair}
use poly_xrr.Stream.Scrub.{StreamScrubFunc, StreamScrubInfo, stream_send, scrub_frame}

-- `mismatch` holds the operation and the ordinal of the first divergence. The text that the source
-- keeps beside them identifies the messages by their hashes.
pub record StreamReplay : Type 0 where
  pub fingerprint : Bytes
  pub pair : StreamPair
  pub scrub : Option StreamScrubFunc
  pub info : StreamScrubInfo
  pub send_idx : ℕ
  pub recv_idx : ℕ
  pub mismatch : Option (StreamOp × ℕ)

unfoldable pub terminal_err : StreamReplay → Error
terminal_err r = elim r.pair.recorded_err [ [] ↦ eof | c ∷ cs ↦ recorded (c ∷ cs) ]

pub fail : {A : Type 0} → StreamReplay → StreamOp → ℕ → StreamReplay × Result A
fail r op ordinal = (record r { mismatch = some (op, ordinal) }, err (stream_mismatch op ordinal))

-- The comparison of `Send`, at the recorded frame `i`, if there is one.
pub compare_frame : StreamReplay → Bytes → Option StreamFrame → StreamReplay × Result (Unit {0})
unfolding fail terminal_err
compare_frame r message none = (r, err (terminal_err r))
compare_frame r message (some f) =
    if bytes_eq (scrub_frame r.scrub stream_send r.info message) f.message
    then (record r { send_idx = r.send_idx + 1 }, ok tt)
    else fail r send_op r.send_idx

-- What a method does first: a mismatch is terminal, and every later call returns it.
pub unless_mismatched :
    {A : Type 0}
    → Option (StreamOp × ℕ)
    → StreamReplay
    → StreamReplay × Result A
    → StreamReplay × Result A
unless_mismatched none r next = next
unless_mismatched (some (op, ordinal)) r next = (r, err (stream_mismatch op ordinal))

pub send : StreamReplay → Bytes → StreamReplay × Result (Unit {0})
unfolding unless_mismatched compare_frame
send r message =
    unless_mismatched r.mismatch r
      (compare_frame r message (get_elem? r.pair.req.frames r.send_idx))

pub half_close : StreamReplay → StreamReplay × Result (Unit {0})
unfolding unless_mismatched fail
half_close r = unless_mismatched r.mismatch r (
    if ltb r.send_idx (length r.pair.req.frames)
    then fail r half_close_op r.send_idx
    else (r, ok tt))

pub deliver : StreamReplay → Option StreamFrame → StreamReplay × Result Bytes
unfolding terminal_err
deliver r none = (r, err (terminal_err r))
deliver r (some f) = (record r { recv_idx = r.recv_idx + 1 }, ok f.message)

pub recv : StreamReplay → StreamReplay × Result Bytes
unfolding unless_mismatched deliver
recv r = unless_mismatched r.mismatch r (deliver r (get_elem? r.pair.resp.frames r.recv_idx))

recorded_type : StreamReplay → StreamType
recorded_type r = r.pair.req.typ

recorded_req_payload : StreamReplay → Payload
recorded_req_payload r = r.pair.req_payload

recorded_resp_payload : StreamReplay → Payload
recorded_resp_payload r = r.pair.resp_payload

-- A client's calls on a replay handle, and what they return.
pub data Act : Type 0 where
  do_send : Bytes → Act
  do_recv do_close : Act

pub data Outcome : Type 0 where
  sent : Result (Unit {0}) → Outcome
  received : Result Bytes → Outcome
  closed : Result (Unit {0}) → Outcome

unfoldable pub act : StreamReplay → Act → StreamReplay × Outcome
act r (do_send m) = let (r', o) = send r m in (r', sent o)
act r do_recv = let (r', o) = recv r in (r', received o)
act r do_close = let (r', o) = half_close r in (r', closed o)

unfoldable pub play : StreamReplay → List Act → StreamReplay × List Outcome
play r [] = (r, [])
play r (a ∷ rest) = let (r', o) = act r a in let (r'', os) = play r' rest in (r'', o ∷ os)
