-- ===== src/Transport/Answers.antt =====
-- The steps of the replaying server of go/adapters/grpctransport/replay.go that do not touch its
-- connection: the key of its counters, the choice of a stream type, and the loops over messages.
pub mod Reads
use poly_xrr.Common.{
  ℕ, zero, suc, ◌+◌, ◌-◌, ◌*◌, ◌/◌, ◌%◌, ℤ, pos, negsuc, Bytes, codes, bytes_eq, Bool, true, false,
  not, ◌&&◌, ◌==◌, ltb, Option, none, some, List, [], ◌∷◌, ◌++◌, map, length, if◌then◌else◌,
}
use poly_xrr.Common.Maps.{lookup, insert}
use poly_xrr.Common.Strings.{is_empty}
use poly_xrr.Errors.{Error, shape_mismatch, stream_mismatch, eof, Result, ok, err}
use poly_xrr.Stream.Model.{Payload, Scalar, text, int, StreamType}
use poly_xrr.Stream.Model.StreamType.{server, client, bidi}
use poly_xrr.Stream.Cassette.{StreamCassette}
use poly_xrr.Canonical.{Digest}
use poly_xrr.Replay.{StreamReplay, send, half_close, recv}
use poly_xrr.Session.{FileCassette, FileSession}
use poly_xrr.Session.Streams.{
  StreamOpen, type_text, or_zero, stream_fingerprint, open_stream_replay,
}
use poly_xrr.Transport.Headers.{HeaderField, split_path, code_of}
use poly_xrr.Transport.Status.{encode_grpc_message}
use poly_xrr.Transport.Reassembly.{feed, write_message}
use poly_xrr.Transport.Shape.{adapter_id, first_or_nil, stream_open_for}

pub record ReplayStream : Type 0 where
  pub service : Bytes
  pub method : Bytes
  pub replay : Option StreamReplay
  pub buffered : List Bytes
  pub opened : Bool
  pub done : Bool

-- `sort.Strings` of the keys, as an insertion sort.
pub bytes_lt : Bytes → Bytes → Bool
bytes_lt s [] = false
bytes_lt [] (d ∷ t) = true
bytes_lt (c ∷ s) (d ∷ t) = if ltb c d then true else c == d && bytes_lt s t

pub insert_sorted : (Bytes × Scalar) → Payload → Payload
unfolding bytes_lt
insert_sorted (k, v) [] = (k, v) ∷ []
insert_sorted (k, v) ((j, w) ∷ m) =
    if bytes_lt k j then (k, v) ∷ (j, w) ∷ m else (j, w) ∷ insert_sorted (k, v) m

pub sorted : Payload → Payload
unfolding insert_sorted
sorted [] = []
sorted (e ∷ m) = insert_sorted e (sorted m)

-- `%v`; the fuel of a number is the number.
pub decimal : ℕ → ℕ → Bytes
decimal zero n = (48 + n % 10) ∷ []
decimal (suc k) n = if ltb n 10 then (48 + n) ∷ [] else decimal k (n / 10) ++ (48 + n % 10) ∷ []

pub shown : Scalar → Bytes
unfolding decimal
shown (text t) = t
shown (int (pos n)) = decimal n n
shown (int (negsuc n)) = b'-' ∷ decimal (n + 1) (n + 1)

pub key_fields : Payload → Bytes
unfolding shown
key_fields [] = []
key_fields ((k, v) ∷ m) = (0 ∷ k) ++ ((b'=' ∷ shown v) ++ key_fields m)

unfoldable pub counter_key : StreamOpen → Bytes
unfolding sorted key_fields
counter_key o = o.adapter_id ++ ((0 ∷ type_text o.typ) ++ key_fields (sorted o.identity))

unfoldable pub infer_replay_type :
    ReplayStream → Bool → (StreamType → Bytes → Bool) → Option StreamType
infer_replay_type s half_closed probe =
    let n = length s.buffered in
    let open_msg = first_or_nil s.buffered in
    if half_closed
    then (if n == 1 && probe server open_msg
        then some server
        else if probe client []
        then some client
        else some bidi)
    else if n == 0
    then none
    else if probe bidi []
    then some bidi
    else if probe server open_msg
    then some server
    else none

-- The loop of `deliver`: the messages of `Recv`, and the error that ends them; none means that the
-- fuel ran out.
abbrev pub Delivered : Type 0
Delivered = List Bytes × StreamReplay × Error

pub after_recv : StreamReplay × Result Bytes → Option Delivered → Option Delivered
after_recv (rp, err e) later = some ([], rp, e)
after_recv (rp, ok m) none = none
after_recv (rp, ok m) (some (ms, rp', e)) = some (m ∷ ms, rp', e)

unfoldable pub recv_all : ℕ → StreamReplay → Option Delivered
unfolding after_recv
recv_all zero rp = none
recv_all (suc k) rp = after_recv (recv rp) (recv_all k (recv rp).0)

-- A recorded status code; only an integer counts, and an error is never OK.
unfoldable pub recorded_code : Option Scalar → ℕ
recorded_code (some (int n)) = if code_of n == 0 then 2 else code_of n
recorded_code _ = 2

-- `errors.Is(err, io.EOF)`.
unfoldable pub is_eof : Error → Bool
is_eof eof = true
is_eof _ = false

-- The two loops over the client's messages: the handle behind them, and the mismatch that ended them.
-- With `breaks` any other failure ends them too.
pub next_send :
    Bool
    → StreamReplay × Result (Unit {0})
    → StreamReplay × Option Error
    → StreamReplay × Option Error
next_send breaks (rp, ok done) later = later
next_send breaks (rp, err (stream_mismatch op n)) later = (rp, some (stream_mismatch op n))
next_send true (rp, err e) later = (rp, none)
next_send false (rp, err e) later = later

unfoldable pub send_all : Bool → StreamReplay → List Bytes → StreamReplay × Option Error
unfolding next_send
send_all breaks rp [] = (rp, none)
send_all breaks rp (m ∷ ms) = next_send breaks (send rp m) (send_all breaks (send rp m).0 ms)

-- The mismatch of a half-close; any other failure of it counts for nothing.
unfoldable pub close_mismatch : Bool → StreamReplay → StreamReplay × Option Error
close_mismatch false rp = (rp, none)
close_mismatch true rp = elim ((half_close rp).1) [
  | err (stream_mismatch op n) ↦ ((half_close rp).0, some (stream_mismatch op n))
  | _ ↦ ((half_close rp).0, none)
]
