-- ===== src/Transport/Reassembly.antt =====
-- The reassembly of gRPC messages from DATA frames, go/adapters/grpctransport/demux.go: `feed` of one
-- stream's decoder. The backing array that `feed` frees is not modelled. Their writer is
-- `writeMessage` of go/adapters/grpctransport/replay.go.
pub mod Buffers
pub mod Fragments
pub mod Written
pub mod Partial
mod Tests
use poly_xrr.Common.{
  ℕ, zero, suc, ◌+◌, ◌*◌, ◌/◌, ◌%◌, Bytes, Bool, true, false, ltb, List, [], ◌∷◌, ◌++◌, length,
  take, drop, if◌then◌else◌,
}
use poly_xrr.Errors.{Error, message_too_large, Result, ok, err, ◌>>=◌}

abbrev pub max_grpc_message_size : ℕ
max_grpc_message_size = 67108864

-- `binary.BigEndian.Uint32` of four bytes.
abbrev pub big_endian : ℕ → ℕ → ℕ → ℕ → ℕ
big_endian a b c d = ((a * 256 + b) * 256 + c) * 256 + d

-- What a round of the loop finds in the buffer: too few bytes, a length above the cap, or a whole
-- message with what is behind it.
pub data Round : Type 0 where
  wait : Round
  too_large : ℕ → Round
  message : Bytes → Bytes → Round

unfoldable pub of_length : ℕ → Bytes → Round
of_length n rest =
    if ltb max_grpc_message_size n
    then too_large n
    else if ltb (length rest) n
    then wait
    else message (take n rest) (drop n rest)

unfoldable pub round : Bytes → Round
unfolding of_length
round (flag ∷ a ∷ b ∷ c ∷ d ∷ rest) = of_length (big_endian a b c d) rest
round _ = wait

-- A message in front of those that the later rounds return.
unfoldable pub prepend : Bytes → Bytes × Result (List Bytes) → Bytes × Result (List Bytes)
prepend m (buf, ms) = (buf, (do later ← ms; ok (m ∷ later)))

-- The loop: the buffer that it leaves, and the messages, or the error that drops them. Each round
-- but the last shortens the buffer, so the buffer's length is fuel enough.
unfoldable pub drain : ℕ → Bytes → Bytes × Result (List Bytes)
unfolding round prepend
drain zero buf = (buf, ok [])
drain (suc k) buf = elim (round buf) [
  | wait ↦ (buf, ok [])
  | too_large n ↦ (buf, err (message_too_large n))
  | message m rest ↦ prepend m (drain k rest)
]

-- `feed`.
unfoldable pub feed : Bytes → Bytes → Bytes × Result (List Bytes)
unfolding drain
feed buf bytes = drain (length (buf ++ bytes)) (buf ++ bytes)

-- `feed` on the DATA frames of a stream, one after the other: the messages so far, or the first
-- error.
abbrev pub prepend_all : List Bytes → Bytes × Result (List Bytes) → Bytes × Result (List Bytes)
prepend_all [] r = r
prepend_all (m ∷ ms) r = prepend m (prepend_all ms r)

pub feed_all : Bytes → List Bytes → Bytes × Result (List Bytes)
unfolding feed
feed_all buf [] = (buf, ok [])
feed_all buf (b ∷ bs) =
    let (buf', got) = feed buf b in
    elim got [ err e ↦ (buf', err e) | ok ms ↦ prepend_all ms (feed_all buf' bs) ]

-- The payload of `writeMessage`: a byte 0, the length in four bytes, and the message.
unfoldable pub frame_message : Bytes → Bytes
frame_message m =
    let n = length m in 0 ∷ n / 16777216 % 256 ∷ n / 65536 % 256 ∷ n / 256 % 256 ∷ n % 256 ∷ m

abbrev pub chunk : ℕ
chunk = 16384

-- Its loop, which writes DATA frames of at most `chunk` bytes; the length is fuel enough.
pub chunks : ℕ → Bytes → List Bytes
chunks zero payload = []
chunks (suc k) [] = []
chunks (suc k) (c ∷ payload) = take chunk (c ∷ payload) ∷ chunks k (drop chunk (c ∷ payload))

pub write_message : Bytes → List Bytes
unfolding frame_message chunks
write_message m = let payload = frame_message m in chunks (length payload) payload

-- The DATA frames of several messages.
abbrev pub write_messages : List Bytes → List Bytes
write_messages [] = []
write_messages (m ∷ ms) = write_message m ++ write_messages ms
