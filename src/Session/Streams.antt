-- ===== src/Session/Streams.antt =====
-- Opening a streamed interaction: `StreamFingerprint` of go/stream.go, and the open path of
-- go/stream_session.go.
mod Tests
use poly_xrr.Common.{
  ℕ, zero, ◌+◌, ℤ, pos, negsuc, ltb_ℤ, Bytes, codes, bytes_eq, Bool, true, false, ◌||◌, Option,
  none, some, List, [], ◌∷◌, ◌++◌, if◌then◌else◌,
}
use poly_xrr.Common.Maps.{lookup, insert}
use poly_xrr.Errors.{
  Error, invalid_type, reserved_key, negative_ordinal, wrong_mode, no_cassette, no_adapter_id,
  shape_mismatch, Result, ok, err, ◌>>=◌, ◌>>◌,
}
use poly_xrr.Stream.Model.{Payload, Scalar, text, int, StreamType, StreamPair}
use poly_xrr.Stream.Model.StreamType.{server, client, bidi, other}
use poly_xrr.Stream.Cassette.{StreamCassette}
use poly_xrr.Canonical.{Digest, canonical_json, short_hash}
use poly_xrr.Recording.{StreamRecording}
use poly_xrr.Replay.{StreamReplay}
use poly_xrr.Session.{
  Mode, record_mode, replay_mode, passthrough_mode, other_mode, FileCassette, FileSession,
}

pub record StreamOpen : Type 0 where
  pub adapter_id : Bytes
  pub typ : StreamType
  pub identity : Payload
  pub counter : Bool
  pub payload : Payload

unfoldable pub type_text : StreamType → Bytes
type_text server = codes "server"
type_text client = codes "client"
type_text bidi = codes "bidi"
type_text (other t) = t

-- The loop over `open.Identity`, which copies it and refuses the reserved keys.
copy_identity : Payload → Result Payload
copy_identity [] = ok []
copy_identity ((k, v) ∷ m) =
    if bytes_eq k (codes "stream") || bytes_eq k (codes "n")
    then err (reserved_key k)
    else do inputs ← copy_identity m; ok ((k, v) ∷ inputs)

-- `n` is none where the source passes -1.
pub add_ordinal : Option ℕ → Payload → Payload
add_ordinal none m = m
add_ordinal (some n) m = insert (codes "n") (int (pos n)) m

check_open_type : StreamType → Result (Unit {0})
check_open_type (other t) = err (invalid_type t)
check_open_type _ = ok tt

unfoldable pub stream_canonical : Digest → StreamOpen → Option ℕ → Result Bytes
unfolding check_open_type type_text copy_identity add_ordinal
stream_canonical d o n = do
  check_open_type o.typ
  inputs ← copy_identity o.identity
  canonical_json d (add_ordinal n (insert (codes "stream") (text (type_text o.typ)) inputs))

-- `StreamFingerprint`: the ordinal is a Go int, and is ignored unless the open is counted.
ordinal_for : Bool → ℤ → Result (Option ℕ)
ordinal_for false n = ok none
ordinal_for true (pos n) = ok (some n)
ordinal_for true (negsuc n) = err negative_ordinal

unfoldable pub stream_fingerprint : Digest → StreamOpen → ℤ → Result Bytes
unfolding ordinal_for
stream_fingerprint d o n = do
  ordinal ← ordinal_for o.counter n
  canonical ← stream_canonical d o ordinal
  ok (short_hash d canonical)

unfoldable pub or_zero : Option ℕ → ℕ
or_zero none = 0
or_zero (some n) = n

-- `nextStreamN`: the count of prior opens of the key, which is then incremented.
unfoldable pub next_stream_n : FileSession → Bytes → FileSession × ℕ
unfolding or_zero
next_stream_n s key =
    let n = or_zero (lookup key s.stream_n) in
    (record s { stream_n = insert key (n + 1) s.stream_n }, n)

-- The key of the counter: the adapter's id and the canonical identity, with a NUL between.
abbrev counter_key : StreamOpen → Bytes → Bytes
counter_key o base = o.adapter_id ++ (0 ∷ base)

-- The counted case, behind the canonical identity.
unfoldable pub count_open :
    FileSession → StreamOpen → Result Bytes → FileSession × Result (Option ℕ)
unfolding next_stream_n
count_open s o (err e) = (s, err e)
count_open s o (ok base) = let (s', n) = next_stream_n s (counter_key o base) in (s', ok (some n))

abbrev as_int : Option ℕ → ℤ
as_int none = negsuc 0
as_int (some n) = pos n

-- The fingerprint of an open, with the ordinal that it consumed.
unfoldable pub stream_open_fingerprint :
    Digest → FileSession → StreamOpen → FileSession × Result (Bytes × Option ℕ)
unfolding count_open
stream_open_fingerprint d s o =
    let (s', counted) =
      if o.counter then count_open s o (stream_canonical d o none) else (s, ok none) in
    (s', (do n ← counted; fp ← stream_fingerprint d o (as_int n); ok (fp, n)))

pub same_mode : Mode → Mode → Bool
same_mode record_mode record_mode = true
same_mode replay_mode replay_mode = true
same_mode passthrough_mode passthrough_mode = true
same_mode (other_mode a) (other_mode b) = bytes_eq a b
same_mode _ _ = false

no_adapter : Bytes → Bool
no_adapter [] = true
no_adapter (c ∷ id) = false

-- `checkStreamOpen`; it hands on the cassette that it found.
unfoldable pub check_stream_open : FileSession → StreamOpen → Mode → Result FileCassette
unfolding same_mode no_adapter
check_stream_open s o want =
    if same_mode s.mode want
    then elim s.cassette [
      | none ↦ err no_cassette
      | some c ↦ if no_adapter o.adapter_id then err no_adapter_id else ok c
    ]
    else err wrong_mode

-- The handle that `OpenStreamRecord` returns; its payload is a copy with the ordinal added.
abbrev pub opened_recording : FileSession → StreamOpen → Bytes → Option ℕ → StreamRecording
opened_recording s o fp n = record {
  adapter_id = o.adapter_id;
  fingerprint = fp;
  typ = o.typ;
  req_payload = add_ordinal n o.payload;
  scrub = s.stream_scrub;
  seq = 0;
  sends = [];
  recvs = [];
  half_close = none;
  finished = false;
}

-- `OpenStreamRecord`, behind its checks; the cassette that the handle will save to comes beside it.
unfoldable pub record_checked :
    Digest
    → FileSession
    → StreamOpen
    → Result FileCassette
    → FileSession × Result (FileCassette × StreamRecording)
record_checked d s o (err e) = (s, err e)
record_checked d s o (ok c) =
    let (s', addressed) = stream_open_fingerprint d s o in
    (s', (do (fp, n) ← addressed; ok (c, opened_recording s o fp n)))

unfoldable pub open_stream_record :
    Digest → FileSession → StreamOpen → FileSession × Result (FileCassette × StreamRecording)
unfolding record_checked
open_stream_record d s o = record_checked d s o (check_stream_open s o record_mode)

abbrev pub opened_replay : FileSession → StreamOpen → Bytes → StreamPair → StreamReplay
opened_replay s o fp pair = record {
  fingerprint = fp;
  pair = pair;
  scrub = s.stream_scrub;
  info = record { adapter_id = o.adapter_id; typ = o.typ };
  send_idx = 0;
  recv_idx = 0;
  mismatch = none;
}

unfoldable pub same_type : StreamType → StreamType → Bool
unfolding type_text
same_type a b = bytes_eq (type_text a) (type_text b)

unfoldable pub of_type : StreamType → StreamPair → Result StreamPair
unfolding same_type
of_type typ pair = if same_type pair.req.typ typ then ok pair else err shape_mismatch

-- `OpenStreamReplay`, over the media that cassettes stand for, behind its checks.
unfoldable pub replay_checked :
    {Store : Type 0}
    → (FileCassette → StreamCassette Store)
    → Store
    → Digest
    → FileSession
    → StreamOpen
    → Result FileCassette
    → FileSession × Result StreamReplay
unfolding of_type
replay_checked media store d s o (err e) = (s, err e)
replay_checked media store d s o (ok c) =
    let (s', addressed) = stream_open_fingerprint d s o in
    (
      s',
      (do
        (fp, n) ← addressed
        loaded ← (media c).load_stream store o.adapter_id fp
        pair ← of_type o.typ loaded
        ok (opened_replay s o fp pair)),
    )

unfoldable pub open_stream_replay :
    {Store : Type 0}
    → (FileCassette → StreamCassette Store)
    → Store
    → Digest
    → FileSession
    → StreamOpen
    → FileSession × Result StreamReplay
unfolding replay_checked
open_stream_replay media store d s o =
    replay_checked media store d s o (check_stream_open s o replay_mode)
