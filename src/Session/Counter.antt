-- ===== src/Session/Counter.antt =====
-- The occurrence counter of go/stream_session.go: the keys that a run of opens counts, and the
-- table that it leaves.
pub mod Opens
use poly_xrr.Common.{
  ℤ, pos, ℕ, ◌+◌, Bytes, bytes_eq, bytes_eq_iff, Bool, true, false, Bool-cases, Option, none, some,
  List, [], ◌∷◌, ◌++◌, ◌≡◌, ◌⊎◌, inl, inr, refl, sym, ap, ◌∙◌, arith, if◌then◌else◌,
}
use poly_xrr.Common.Maps.{lookup, insert, lookup-insert}
use poly_xrr.Errors.{Error, Result, ok, err, ◌>>=◌}
use poly_xrr.Stream.Scrub.{StreamScrubFunc}
use poly_xrr.Stream.Cassette.{StreamCassette}
use poly_xrr.Canonical.{Digest}
use poly_xrr.Recording.{StreamRecording}
use poly_xrr.Replay.{StreamReplay}
use poly_xrr.Session.{
  Mode, record_mode, replay_mode, FileCassette, FileSession, new_session_with_stream_scrub,
}
use poly_xrr.Session.Streams.{
  opened_recording, opened_replay, stream_fingerprint, of_type, replay_checked, StreamOpen, or_zero,
  next_stream_n, count_open, stream_canonical, stream_open_fingerprint, check_stream_open,
  record_checked, open_stream_record, open_stream_replay,
}

pub result-cases :
    {A : Type 0} (r : Result A) → ((a : A) × (r ≡ ok a)) ⊎ ((e : Error) × (r ≡ err e))
result-cases (ok a) = inl (a, refl)
result-cases (err e) = inr (e, refl)

pub list-cases : (b : Bytes) → (b ≡ []) ⊎ ((x : ℕ) × ((id : Bytes) × (b ≡ x ∷ id)))
list-cases [] = inl refl
list-cases (x ∷ id) = inr (x, (id, refl))

-- How often a key occurs.
unfoldable pub count : Bytes → List Bytes → ℕ
count k [] = 0
count k (j ∷ js) = (if bytes_eq j k then 1 else 0) + count k js

-- The key under which an open counts, if it does: its adapter and its identity, which must be valid.
unfoldable pub key_from : Bytes → Bool → Result Bytes → Option Bytes
key_from [] counter base = none
key_from (c ∷ id) true (ok base) = some (c ∷ id ++ (0 ∷ base))
key_from (c ∷ id) true (err e) = none
key_from (c ∷ id) false base = none

unfoldable pub key_of : Digest → StreamOpen → Option Bytes
unfolding key_from
key_of d o = key_from o.adapter_id o.counter (stream_canonical d o none)

unfoldable pub add_key : List Bytes → Option Bytes → List Bytes
add_key seen none = seen
add_key seen (some k) = k ∷ seen

-- The keys of a run of opens, the last first.
unfoldable pub keys : Digest → List Bytes → List StreamOpen → List Bytes
keys d seen [] = seen
keys d seen (o ∷ os) = keys d (add_key seen (key_of d o)) os

-- What one open does to the table of the counters.
pub count_key : List (Bytes × ℕ) → Option Bytes → List (Bytes × ℕ)
count_key n none = n
count_key n (some k) = insert k (or_zero (lookup k n) + 1) n

pub bump : Digest → List (Bytes × ℕ) → StreamOpen → List (Bytes × ℕ)
unfolding count_key key_of
bump d n o = count_key n (key_of d o)

pub key_from-some :
    (a : Bytes) (counter : Bool) (r : Result Bytes) (k : Bytes)
    → key_from a counter r ≡ some k
    → (x : ℕ) × (id base : Bytes) × (a ≡ x ∷ id)
      × (counter ≡ true)
      × (r ≡ ok base)
      × (k ≡ a ++ (0 ∷ base))
unfolding key_from
key_from-some [] counter r k h = cc
key_from-some (x ∷ id) true (ok base) k h = (x, id, base, refl, refl, refl, cc)
key_from-some (x ∷ id) true (err e) k h = cc
key_from-some (x ∷ id) false r k h = cc

-- The table behind a run of opens.
pub tables : Digest → List (Bytes × ℕ) → List StreamOpen → List (Bytes × ℕ)
tables d n [] = n
tables d n (o ∷ os) = tables d (bump d n o) os

count_key-counts :
    (n : List (Bytes × ℕ)) (seen : List Bytes) (found : Option Bytes)
    → ((k : Bytes) → or_zero (lookup k n) ≡ count k seen)
    → (k : Bytes) → or_zero (lookup k (count_key n found)) ≡ count k (add_key seen found)
unfolding count_key add_key or_zero count
count_key-counts n seen none h k = h k
count_key-counts n seen (some j) h k = ground (
  arith,
  lookup-insert j k (or_zero (lookup j n) + 1) n,
  bytes_eq_iff j k,
  h k,
  h j,
  ap (λ x. count x seen) {x = j} {y = k},
)

pub tables-counts :
    (d : Digest) (os : List StreamOpen) (n : List (Bytes × ℕ)) (seen : List Bytes)
    → ((k : Bytes) → or_zero (lookup k n) ≡ count k seen)
    → (k : Bytes) → or_zero (lookup k (tables d n os)) ≡ count k (keys d seen os)
unfolding tables keys bump
tables-counts d [] n seen h k = h k
tables-counts d (o ∷ os) n seen h k =
    tables-counts d os (bump d n o) (add_key seen (key_of d o))
      (count_key-counts n seen (key_of d o) h) k
