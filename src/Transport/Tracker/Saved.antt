-- ===== src/Transport/Tracker/Saved.antt =====
-- What `finish` of go/adapters/grpctransport/record.go saves.
use poly_xrr.Common.{
  codes, pos, ◌==◌, ==_iff, ◌≢◌, arith, ℕ, ℤ, Bytes, Bool, true, false, leb, Option, List, [], ◌∷◌,
  map, length, if◌then◌else◌, ◌≡◌, refl, sym, ap, ap₂, subst, ◌∙◌,
}
use poly_xrr.Common.Strings.{is_empty}
use poly_xrr.Errors.{Result, ok}
use poly_xrr.Stream.Model.{Payload, int, StreamType, StreamPair}
use poly_xrr.Stream.Model.StreamType.{server, client, bidi, other}
use poly_xrr.Stream.Scrub.{StreamScrubInfo, stream_send, stream_recv, scrub_frame}
use poly_xrr.Stream.Cassette.{StreamCassette}
use poly_xrr.Stream.Validate.{validate_stream_pair}
use poly_xrr.Stream.Validate.Spec.{IsKnown}
use poly_xrr.Canonical.{Digest}
use poly_xrr.Recording.{StreamRecording, record_calls, finished_pair, err_text}
use poly_xrr.Recording.Log.{IsLogged}
use poly_xrr.Recording.Finished.{validate-record_calls, store-finish}
use poly_xrr.Recording.Closing.{position, position-record_calls}
use poly_xrr.Recording.Holds.{messages, sent_messages, received_messages, Holds, Holds-record_calls}
use poly_xrr.Session.{FileCassette, FileSession, record_mode}
use poly_xrr.Session.Streams.{StreamOpen, open_stream_record, check_stream_open, opened_recording}
use poly_xrr.Session.RoundTrip.{info_of, record_checked_inv}
use poly_xrr.Transport.Shape.{RecEvent, RecStream, infer_stream_type, first_or_nil, stream_open_for}
use poly_xrr.Transport.Tracker.{
  calls_of, Tracker, terminal_of, status_payload, persisted, persist, finish_stream,
}
use poly_xrr.Transport.Tracker.Calls.{
  sent_in, received_in, sent_messages-calls_of, received_messages-calls_of, closed_at,
  first_close-calls_of,
}

known : (a b : Bool) → IsKnown (if a then server else if b then client else bidi)
known true b = tt
known false true = tt
known false false = tt

infer-IsKnown : (s : RecStream) → IsKnown (infer_stream_type s)
unfolding infer_stream_type
infer-IsKnown s = known _ (leb s.recv_count 1)

open-IsKnown :
    (d : Digest) (session : FileSession) (typ : StreamType) (service method message : Bytes)
    → IsKnown typ
    → IsKnown (stream_open_for d session typ service method message).typ
unfolding stream_open_for
open-IsKnown d session server service method message h = h
open-IsKnown d session client service method message h = h
open-IsKnown d session bidi service method message h = h
open-IsKnown d session (other t) service method message h = h

-- What a pair keeps of a log: it is valid, and each direction has its messages in their order, as the
-- hook leaves them, and the half-close the position that it has in the log.
pub record Keeps (hook : (Bytes → Bytes) × (Bytes → Bytes)) (events : List RecEvent)
    (p : StreamPair) : Type 0 where
  pub valid : validate_stream_pair p ≡ ok tt
  pub sends : messages p.req.frames ≡ map hook.0 (sent_in events)
  pub recvs : messages p.resp.frames ≡ map hook.1 (received_in events)
  pub half_close : position p.req.half_close ≡ closed_at 0 events

opened-IsLogged :
    (s : FileSession) (o : StreamOpen) (fp : Bytes) (n : Option ℕ)
    → IsLogged (opened_recording s o fp n)
opened-IsLogged s o fp n = record {
  sends_ascend = tt;
  recvs_ascend = tt;
  nonnegative = tt;
  distinct = tt;
  below = tt;
}

-- The pair of a log that is recorded on a fresh handle.
abbrev pub pair_of : (ℕ → ℤ) → StreamRecording → List RecEvent → Payload → Option Bytes → StreamPair
pair_of clock r events payload terminal =
    finished_pair (record_calls r (calls_of clock 0 events)) (clock (length events)) payload
      terminal

abbrev pub hook_of : FileSession → StreamOpen → (Bytes → Bytes) × (Bytes → Bytes)
hook_of s o = (
  scrub_frame s.stream_scrub stream_send (info_of o),
  scrub_frame s.stream_scrub stream_recv (info_of o),
)

held_of :
    (clock : ℕ → ℤ) (s : FileSession) (o : StreamOpen) (fp : Bytes) (n : Option ℕ)
    (events : List RecEvent)
    → Holds s.stream_scrub
        (info_of o)
        fp
        (record_calls (opened_recording s o fp n) (calls_of clock 0 events))
        (sent_messages (hook_of s o).0 (calls_of clock 0 events))
        (received_messages (hook_of s o).1 (calls_of clock 0 events))
held_of clock s o fp n events =
    Holds-record_calls s.stream_scrub (info_of o) fp (calls_of clock 0 events)
      (opened_recording s o fp n) [] []
      (record {
        live = refl;
        has_scrub = refl;
        has_info = refl;
        has_fingerprint = refl;
        sends = refl;
        recvs = refl;
      })

Keeps-pair_of :
    (clock : ℕ → ℤ) (s : FileSession) (o : StreamOpen) (fp : Bytes) (n : Option ℕ)
    (events : List RecEvent) (payload : Payload) (terminal : Option Bytes)
    → IsKnown o.typ
    → Keeps (hook_of s o) events (pair_of clock (opened_recording s o fp n) events payload terminal)
unfolding finished_pair
Keeps-pair_of clock s o fp n events payload terminal known =
    let held = held_of clock s o fp n events in
    record {
      valid =
          validate-record_calls (opened_recording s o fp n) (calls_of clock 0 events)
            (clock (length events)) payload terminal (opened-IsLogged s o fp n) known;
      sends = held.sends ∙ sent_messages-calls_of (hook_of s o).0 clock 0 events;
      recvs = held.recvs ∙ received_messages-calls_of (hook_of s o).1 clock 0 events;
      half_close =
          position-record_calls (calls_of clock 0 events) (opened_recording s o fp n) refl refl
          ∙ first_close-calls_of clock 0 0 events;
    }

abbrev pub open_of : Digest → FileSession → RecStream → StreamOpen
open_of d session s =
    stream_open_for d session (infer_stream_type s) s.service s.method (first_or_nil s.sends)

module _ {Store : Type 0} (media : FileCassette → StreamCassette Store) (d : Digest) (clock : ℕ → ℤ)
    (status_error : ℕ → Bytes → Bytes) where
  store-persisted :
      (t : Tracker Store) (session : FileSession) (o : StreamOpen) (fp : Bytes) (n : Option ℕ)
      (events : List RecEvent) (code : ℕ) (msg : Bytes) (c : FileCassette)
      → let r = opened_recording session o fp n in
        (persisted media d clock status_error t events code msg (ok (c, r))).store
        ≡ ((media c).save_stream t.store r.adapter_id r.fingerprint
            (pair_of clock r events (status_payload code) (terminal_of status_error code msg))).0
  unfolding persisted
  store-persisted t session o fp n events code msg c =
      let held = held_of clock session o fp n events in
      let pair =
        pair_of clock (opened_recording session o fp n) events (status_payload code)
          (terminal_of status_error code msg) in
      store-finish (media c) t.store _ (clock (length events)) (status_payload code)
        (terminal_of status_error code msg) held.live
      ∙ ap₂ (λ id fp. ((media c).save_stream t.store id fp pair).0)
          (ap (λ (i : StreamScrubInfo). i.adapter_id) held.has_info) held.has_fingerprint

  -- What the end of a stream hands to the cassette `c`, as a recording on the handle `r`.
  abbrev pub Saved :
      Tracker Store
      → RecStream
      → ℕ
      → Bytes
      → FileCassette
      → Tracker Store
      → StreamRecording
      → Type 0
  Saved t s code msg c t' r =
      (p : StreamPair) × (t'.store ≡ ((media c).save_stream t.store r.adapter_id r.fingerprint p).0)
      × Keeps (hook_of t.session (open_of d t.session s)) s.events p
      × (code ≡ 0 → p.recorded_err ≡ [])
      × (code ≢ 0 → p.recorded_err ≡ status_error code msg)
      × (p.resp_payload ≡ (codes "status_code", int (pos code)) ∷ [])

  err_text-terminal_of :
      (code : ℕ) (msg : Bytes)
      → (code ≡ 0 → err_text (terminal_of status_error code msg) ≡ [])
        × (code ≢ 0 → err_text (terminal_of status_error code msg) ≡ status_error code msg)
  unfolding terminal_of err_text
  err_text-terminal_of code msg = (
    λ h. (let good : (code == 0) ≡ true = (==_iff code 0).1 h in simp good),
    λ h. (let bad : (code == 0) ≡ false = ground arith in simp bad),
  )

  persist-Saved :
      (t : Tracker Store) (s : RecStream) (code : ℕ) (msg : Bytes) (session' : FileSession)
      (c : FileCassette) (r : StreamRecording)
      → open_stream_record d t.session (open_of d t.session s) ≡ (session', ok (c, r))
      → Saved t s code msg c (persist media d clock status_error t s code msg) r
  unfolding persist open_stream_record finished_pair
  persist-Saved t s code msg session' c r opened =
      let o = open_of d t.session s in
      let (checked, inv) =
        record_checked_inv d t.session session' o (check_stream_open t.session o record_mode) c r
          opened in
      let fresh = opened_recording t.session o inv.fp inv.n in
      let stored : (persist media d clock status_error t s code msg).store
          ≡ (persisted media d clock status_error (record t { session = session' }) s.events code
              msg (ok (c, fresh))).store =
        ap
          (λ (x : FileSession × Result (FileCassette × StreamRecording)).
            (persisted media d clock status_error (record t { session = x.0 }) s.events code msg
              x.1).store)
          (opened ∙ ap (λ h. (session', ok (c, h))) inv.handle) in
      subst (Saved t s code msg c (persist media d clock status_error t s code msg))
        (sym inv.handle)
        (
          pair_of clock fresh s.events (status_payload code) (terminal_of status_error code msg),
          stored
              ∙ store-persisted (record t { session = session' }) t.session o inv.fp inv.n s.events
                  code msg c,
          Keeps-pair_of clock t.session o inv.fp inv.n s.events (status_payload code)
              (terminal_of status_error code msg)
              (open-IsKnown d t.session (infer_stream_type s) s.service s.method
                (first_or_nil s.sends) (infer-IsKnown s)),
          (err_text-terminal_of code msg).0,
          (err_text-terminal_of code msg).1,
          refl,
        )

  -- The end of a gRPC call whose recording can be opened: the tracker makes one save, of a valid pair
  -- that keeps the observed messages of each direction in their order, as the session's hook leaves
  -- them, and the position of the half-close, with the status as its response; its error is empty for
  -- OK and otherwise the text of the status.
  pub store-finish_stream :
      (t : Tracker Store) (id : ℕ) (s : RecStream) (code : ℕ) (msg : Bytes) (session' : FileSession)
      (c : FileCassette) (r : StreamRecording)
      → s.finished ≡ false
      → is_empty s.service ≡ false
      → s.compressed ≡ false
      → open_stream_record d t.session (open_of d t.session s) ≡ (session', ok (c, r))
      → Saved t s code msg c (finish_stream media d clock status_error t id s code msg) r
  unfolding finish_stream
  store-finish_stream t id s code msg session' c r live named plain opened =
      let (p, stored, kept, no_error, error, payload) =
        persist-Saved t s code msg session' c r opened in
      (p, simp (live, named, plain) stored, kept, no_error, error, payload)
