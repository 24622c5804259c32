-- ===== src/Session/Unary.antt =====
-- The unary path of go/session.go. The call `do` is a function of the caller's world `W`: what it
-- answers is a response, which may be nil, and the text of an error, if it failed.
pub mod RoundTrip
mod Tests
use poly_xrr.Common.{Bytes, Option, none, some, [], ◌∷◌}
use poly_xrr.Errors.{
  Error, foreign, recorded, unknown_mode, fingerprint_failed, save_failed, nil_dereference, Result,
  ok, err, ◌>>=◌,
}
use poly_xrr.Stream.Model.{Payload}
use poly_xrr.Session.{
  Mode, record_mode, replay_mode, passthrough_mode, other_mode, FileCassette, FileSession,
}
use poly_xrr.Session.Files.{Outside, save, load}

-- `Adapter`, as far as a session uses it.
pub record Adapter : Type 0 where
  pub id : Bytes
  pub fingerprint : Payload → Result Bytes

-- What `do` returns.
abbrev pub Done : Type 0
Done = Option Payload × Option Bytes

-- What `Record` returns: in replay mode the response is a `RawResponse`.
pub record Answer : Type 0 where
  pub response : Option Payload
  pub failure : Option Error

abbrev failed : Error → Answer
failed e = record { response = none; failure = some e }

pub live_answer : Done → Answer
live_answer (resp, none) = record { response = resp; failure = none }
live_answer (resp, some text) = record { response = resp; failure = some (foreign text) }

-- The recorded error is emitted again, and an empty text is none.
pub raw_answer : Result (Payload × Payload × Bytes) → Answer
raw_answer (err e) = failed e
raw_answer (ok (req, resp, [])) = record { response = some resp; failure = none }
raw_answer (ok (req, resp, c ∷ text)) = record {
  response = some resp;
  failure = some (recorded (c ∷ text));
}

-- A failure to save takes precedence over what `do` answered.
pub after_save : {Store : Type 0} → Answer → Store × Result (Unit {0}) → Store × Answer
after_save a (store, err e) = (store, failed (save_failed e))
after_save a (store, ok done) = (store, a)

pub wrap_fingerprint : Result Bytes → Result Bytes
wrap_fingerprint (err e) = err (fingerprint_failed e)
wrap_fingerprint (ok fp) = ok fp

pub need_cassette : Option FileCassette → Result FileCassette
need_cassette none = err nil_dereference
need_cassette (some c) = ok c

module _ {Store : Type 0} (os : Outside Store) (adapter : Adapter) (now : Bytes) where
  -- `record`, behind the call of `do` and the fingerprint. A session without a cassette panics.
  pub file_outcome : Option FileCassette → Store → Payload → Result Bytes → Done → Store × Answer
  unfolding after_save live_answer
  file_outcome c store req (err e) out = (store, failed (fingerprint_failed e))
  file_outcome none store req (ok fp) out = (store, failed nil_dereference)
  file_outcome (some c) store req (ok fp) (resp, text) =
      after_save (live_answer (resp, text)) (save os c adapter.id fp store now req resp text)

  pub replay : FileSession → Store → Payload → Answer
  unfolding raw_answer wrap_fingerprint need_cassette
  replay s store req = raw_answer (do
    fp ← wrap_fingerprint (adapter.fingerprint req)
    c ← need_cassette s.cassette
    load os c adapter.id fp store)

  module _ {W : Type 0} (run : W → W × Done) where
    unfoldable pub record_unary : FileSession → W → Store → Payload → W × Store × Answer
    unfolding file_outcome
    record_unary s w store req =
        let (w', out) = run w in
        let (store', a) = file_outcome s.cassette store req (adapter.fingerprint req) out in
        (w', store', a)

    pub passthrough : W → Store → W × Store × Answer
    unfolding live_answer
    passthrough w store = let (w', out) = run w in (w', store, live_answer out)

    -- `Record`.
    unfoldable pub interact : FileSession → W → Store → Payload → W × Store × Answer
    unfolding record_unary replay passthrough
    interact s w store req = elim s.mode [
      | record_mode ↦ record_unary s w store req
      | replay_mode ↦ (w, store, replay s store req)
      | passthrough_mode ↦ passthrough w store
      | other_mode m ↦ (w, store, failed (unknown_mode m))
    ]
