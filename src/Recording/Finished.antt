-- ===== src/Recording/Finished.antt =====
-- What `Finish` of go/stream_session.go saves.
use poly_xrr.Common.{
  ℤ, Bytes, true, false, Option, List, [], ◌∷◌, if_both, ◌≡◌, refl, sym, ap, subst, ◌∙◌, arith,
}
use poly_xrr.Errors.{already_finished, ok, err}
use poly_xrr.Stream.Model.{Payload}
use poly_xrr.Stream.Cassette.{StreamCassette}
use poly_xrr.Stream.Validate.{validate_stream_pair}
use poly_xrr.Stream.Validate.Spec.{IsKnown, IsValid}
use poly_xrr.Stream.Validate.Complete.{validate_complete}
use poly_xrr.Recording.{
  StreamRecording, record_send, record_recv, record_half_close, finished_pair, finish, Call, send,
  recv, close, record_call, record_calls,
}
use poly_xrr.Recording.Log.{IsLogged, record_calls-IsLogged}

module _ (r : StreamRecording) (since : ℤ) (payload : Payload) (terminal : Option Bytes) where
  finished_pair-IsValid :
      IsLogged r → IsKnown r.typ → IsValid (finished_pair r since payload terminal)
  unfolding finished_pair
  finished_pair-IsValid h known = record {
    known_type = known;
    req_ascends = h.sends_ascend;
    resp_ascends = h.recvs_ascend;
    nonnegative = h.nonnegative;
    distinct = h.distinct;
    end_last = h.below;
    end_nonnegative = omega arith;
  }

typ-record_call : (r : StreamRecording) (c : Call) → (record_call r c).typ ≡ r.typ
unfolding record_call record_send record_recv record_half_close
typ-record_call r (send since m) =
    if_both (λ (x : StreamRecording). x.typ ≡ r.typ) r.finished refl refl
typ-record_call r (recv since m) =
    if_both (λ (x : StreamRecording). x.typ ≡ r.typ) r.finished refl refl
typ-record_call r (close since) = if_both (λ (x : StreamRecording). x.typ ≡ r.typ) _ refl refl

typ-record_calls : (r : StreamRecording) (cs : List Call) → (record_calls r cs).typ ≡ r.typ
unfolding record_calls
typ-record_calls r [] = refl
typ-record_calls r (c ∷ cs) = typ-record_calls (record_call r c) cs ∙ typ-record_call r c

finished-record_call : (r : StreamRecording) (c : Call) → (record_call r c).finished ≡ r.finished
unfolding record_call record_send record_recv record_half_close
finished-record_call r (send since m) =
    if_both (λ (x : StreamRecording). x.finished ≡ r.finished) r.finished refl refl
finished-record_call r (recv since m) =
    if_both (λ (x : StreamRecording). x.finished ≡ r.finished) r.finished refl refl
finished-record_call r (close since) =
    if_both (λ (x : StreamRecording). x.finished ≡ r.finished) _ refl refl

pub finished-record_calls :
    (r : StreamRecording) (cs : List Call) → (record_calls r cs).finished ≡ r.finished
unfolding record_calls
finished-record_calls r [] = refl
finished-record_calls r (c ∷ cs) =
    finished-record_calls (record_call r c) cs ∙ finished-record_call r c

-- Whatever calls are made on a handle with a consistent log and a known type, in any order, the
-- pair that `Finish` hands to the cassette passes `ValidateStreamPair`.
pub validate-record_calls :
    (r : StreamRecording) (cs : List Call) (since : ℤ) (payload : Payload) (terminal : Option Bytes)
    → IsLogged r
    → IsKnown r.typ
    → validate_stream_pair (finished_pair (record_calls r cs) since payload terminal) ≡ ok tt
validate-record_calls r cs since payload terminal h known = validate_complete _ (
    finished_pair-IsValid (record_calls r cs) since payload terminal (record_calls-IsLogged r cs h)
      (subst IsKnown (sym (typ-record_calls r cs)) known))

record_call_finished : (r : StreamRecording) (c : Call) → r.finished ≡ true → record_call r c ≡ r
unfolding record_call record_send record_recv record_half_close
record_call_finished r (send since m) h = ground arith
record_call_finished r (recv since m) h = ground arith
record_call_finished r (close since) h = ground arith

record_calls_finished :
    (r : StreamRecording) (cs : List Call) → r.finished ≡ true → record_calls r cs ≡ r
unfolding record_calls
record_calls_finished r [] h = refl
record_calls_finished r (c ∷ cs) h =
    ap (λ x. record_calls x cs) (record_call_finished r c h) ∙ record_calls_finished r cs h

module _ {Store : Type 0} (cassette : StreamCassette Store) (store : Store)
    (r : StreamRecording) where
  finished-finish :
      (since : ℤ) (payload : Payload) (terminal : Option Bytes)
      → (finish cassette store r since payload terminal).0.finished ≡ true
  unfolding finish
  finished-finish since payload terminal = ground arith

  pub finish_refuses :
      (since : ℤ) (payload : Payload) (terminal : Option Bytes)
      → r.finished ≡ true
      → finish cassette store r since payload terminal ≡ (r, store, err already_finished)
  unfolding finish
  finish_refuses since payload terminal h = ground arith

-- After a `Finish`, whether it saved or failed, no call changes the log, and a second `Finish`
-- fails and leaves the cassette as it is.
pub finish_once :
    {Store : Type 0} (cassette : StreamCassette Store) (store store' : Store) (r : StreamRecording)
    (cs : List Call) (since since' : ℤ) (payload payload' : Payload)
    (terminal terminal' : Option Bytes)
    → (record_calls (finish cassette store r since payload terminal).0 cs
        ≡ (finish cassette store r since payload terminal).0)
      × (finish cassette store'
            (finish cassette store r since payload terminal).0
            since'
            payload'
            terminal'
          ≡ ((finish cassette store r since payload terminal).0, store', err already_finished))
finish_once cassette store store' r cs since since' payload payload' terminal terminal' =
    let done = finished-finish cassette store r since payload terminal in
    (
      record_calls_finished _ cs done,
      finish_refuses cassette store' _ since' payload' terminal' done,
    )

-- A successful `Finish` of an unfinished handle has saved its pair.
pub finish_saved :
    {Store : Type 0} (cassette : StreamCassette Store) (store store' : Store)
    (r r' : StreamRecording) (since : ℤ) (payload : Payload) (terminal : Option Bytes)
    → r.finished ≡ false
    → finish cassette store r since payload terminal ≡ (r', store', ok tt)
    → cassette.save_stream store r.adapter_id r.fingerprint (finished_pair r since payload terminal)
      ≡ (store', ok tt)
unfolding finish
finish_saved cassette store store' r r' since payload terminal live h = ground arith

-- What the store is behind a `Finish` of an unfinished handle, also if the save failed.
pub store-finish :
    {Store : Type 0} (cassette : StreamCassette Store) (store : Store) (r : StreamRecording)
    (since : ℤ) (payload : Payload) (terminal : Option Bytes)
    → r.finished ≡ false
    → (finish cassette store r since payload terminal).1
      ≡ (cassette.save_stream store r.adapter_id r.fingerprint
          (finished_pair r since payload terminal)).0
unfolding finish
store-finish cassette store r since payload terminal live = simp live
