-- ===== src/Grpc/Record/Once.antt =====
-- A recorded gRPC call, go/adapters/grpc/stream.go, is saved at most once, with a status that fits.
use poly_xrr.Common.{
  codes, pos, ℕ, ℤ, Bytes, true, false, if_both, Bool-cases, ==_iff, Option, none, some, List, [],
  ◌∷◌, ◌≡◌, ◌↔◌, ◌≢◌, ◌⊎◌, inl, inr, refl, sym, ap, subst, ◌∙◌, arith,
}
use poly_xrr.Errors.{Error, eof, Result, ok, err}
use poly_xrr.Stream.Model.{StreamPair, int}
use poly_xrr.Stream.Cassette.{StreamCassette}
use poly_xrr.Canonical.{Digest}
use poly_xrr.Recording.{
  StreamRecording, record_send, record_recv, record_half_close, finished_pair, err_text,
}
use poly_xrr.Recording.Finished.{store-finish, finish_refuses}
use poly_xrr.Session.{FileCassette, FileSession}
use poly_xrr.Session.Streams.{open_stream_record}
use poly_xrr.Grpc.{Grpc, stream_open}
use poly_xrr.Grpc.Record.{
  Recorder, set_rec, terminal_code, ok_code, status_payload, now_open, ensure_open, saved,
  finish_rec, finish_call, after_live_send, send_marshaled, send_msg, unless_failed, recv_marshaled,
  recv_ok, recv_msg, close_rec, close_send,
}

-- A client's calls, with the clock's reading and with what the live stream answers.
pub data LiveCall (Msg : Type 0) : Type 0 where
  sends : ℤ → Msg → Option Error → LiveCall Msg
  receives : ℤ → Result Msg → LiveCall Msg
  closes : ℤ → Option Error → LiveCall Msg

module _ {Store Msg : Type 0} (media : FileCassette → StreamCassette Store) (d : Digest)
    (g : Grpc Msg) where
  abbrev pub HaveText : Type 0
  HaveText = (e : Error) → g.error_text e ≢ []

  abbrev pub live_call : Recorder Store → LiveCall Msg → Recorder Store
  live_call w (sends since m live) = (send_msg media d g w since m live).0
  live_call w (receives since live) = (recv_msg media d g w since live).0
  live_call w (closes since live) = (close_send media d g w since live).0

  abbrev pub live_calls : Recorder Store → List (LiveCall Msg) → Recorder Store
  live_calls w [] = w
  live_calls w (c ∷ cs) = live_calls (live_call w c) cs

  -- One save, of a pair whose error is there exactly if its status is not OK.
  abbrev pub SavedOnce : Store → Store → Type 0
  SavedOnce s s' =
      (c : FileCassette) × (id : Bytes) × (fp : Bytes) × (p : StreamPair) × (code : ℕ) × (s'
        ≡ ((media c).save_stream s id fp p).0)
      × (p.resp_payload ≡ (codes "status_code", int (pos code)) ∷ [])
      × ((code ≡ ok_code) ↔ (p.recorded_err ≡ []))

  pub record After (w w' : Recorder Store) : Type 0 where
    pub stays : w.stream.finished ≡ true → (w'.stream.finished ≡ true) × (w'.store ≡ w.store)
    pub result : (w'.store ≡ w.store) ⊎ ((w'.stream.finished ≡ true) × SavedOnce w.store w'.store)

  After-quiet :
      (w w' : Recorder Store)
      → w'.store ≡ w.store
      → w'.stream.finished ≡ w.stream.finished
      → After w w'
  After-quiet w w' s f = record { stays = λ h. (f ∙ h, s); result = inl s }

  After-trans : (w v u : Recorder Store) → After w v → After v u → After w u
  After-trans w v u a b = record {
    stays = λ h. (let (f, s) = a.stays h in let (f', s') = b.stays f in (f', s' ∙ s));
    result = elim a.result [
      | inl s ↦ elim b.result [
        | inl s' ↦ inl (s' ∙ s)
        | inr (f, one) ↦ inr (f, subst (λ x. SavedOnce x u.store) s one)
      ]
      | inr (f, one) ↦ let (f', s') = b.stays f in inr (f', subst (SavedOnce w.store) (sym s') one)
    ];
  }

  -- A terminal has a text, unless it is the end of the stream.
  abbrev Terminal : ℕ → Option Bytes → Type 0
  Terminal code terminal = (terminal ≡ none → code ≡ ok_code) × (terminal ≢ some [])

  terminal_code_iff :
      (code : ℕ) (terminal : Option Bytes)
      → Terminal code terminal
      → (terminal_code code terminal ≡ ok_code) ↔ (err_text terminal ≡ [])
  unfolding terminal_code err_text
  terminal_code_iff code none (h, text) = (λ e. refl, λ e. h refl)
  terminal_code_iff code (some text) (h, shown) =
      (λ e. absurd (ground (arith, ==_iff code 0)), λ e. absurd (shown (ap some e)))

  After-finish_rec :
      (w : Recorder Store) (since : ℤ) (code : ℕ) (terminal : Option Bytes)
      (rec : Option (FileCassette × StreamRecording))
      → w.stream.finished ≡ false
      → Terminal code terminal
      → After w (finish_rec media d g w since code terminal rec).0
  unfolding finish_rec saved finished_pair
  After-finish_rec w since code terminal none live h = After-quiet w w refl refl
  After-finish_rec w since code terminal (some (c, r)) live h = record {
    stays = λ f. cc;
    result = elim (Bool-cases r.finished) [
      | inl over ↦ inl (
          ap (λ (x : StreamRecording × Store × Result (Unit {0})). x.1)
            (finish_refuses (media c) w.store r since _ terminal over))
      | inr open_yet ↦ inr (
        refl,
        (
          c,
          r.adapter_id,
          r.fingerprint,
          finished_pair r since (status_payload (terminal_code code terminal)) terminal,
          terminal_code code terminal,
          store-finish (media c) w.store r since _ terminal open_yet,
          refl,
          terminal_code_iff code terminal h,
        ),
      )
    ];
  }

  After-finish_call :
      (w : Recorder Store) (since : ℤ) (code : ℕ) (terminal : Option Bytes)
      → Terminal code terminal
      → After w (finish_call media d g w since code terminal).0
  unfolding finish_call
  After-finish_call w since code terminal h = elim (Bool-cases w.stream.finished) [
    | inl over ↦ simp over (After-quiet w w refl refl)
    | inr live ↦ simp live (After-finish_rec w since code terminal w.stream.rec live h)
  ]

  After-unless_failed :
      (w : Recorder Store) (r : Recorder Store × Result (Unit {0})) (result : Result Msg)
      → After w r.0
      → After w (unless_failed media d g r result).0
  unfolding unless_failed
  After-unless_failed w (v, err e) result h = h
  After-unless_failed w (v, ok done) result h = h

  After-rec :
      (w : Recorder Store) (session : FileSession) (rec : Option (FileCassette × StreamRecording))
      → After w (record w { session = session; stream = record w.stream { rec = rec } })
  After-rec w session rec = After-quiet w _ refl refl

  After-now_open :
      (w : Recorder Store) (r : FileSession × Result (FileCassette × StreamRecording))
      → After w (now_open media d g w r).0
  unfolding now_open
  After-now_open w (s, err e) = After-rec w s w.stream.rec
  After-now_open w (s, ok (c, r)) = After-rec w s (some (c, r))

  After-ensure_open :
      (w : Recorder Store) (message : Bytes) (rec : Option (FileCassette × StreamRecording))
      → After w (ensure_open media d g w message rec).0
  unfolding ensure_open
  After-ensure_open w message (some rec) = After-quiet w w refl refl
  After-ensure_open w message none = After-now_open w (
      open_stream_record d w.session
        (stream_open d w.session w.stream.typ w.stream.service w.stream.method message))

  After-live_send :
      (w : Recorder Store) (live : Option Error) (since : ℤ) (message : Bytes)
      (r : Recorder Store × Result (FileCassette × StreamRecording))
      → After w r.0
      → After w (after_live_send media d g live since message r).0
  unfolding after_live_send
  After-live_send w live since message (v, err e) h = h
  After-live_send w (some e) since message (v, ok rec) h = h
  After-live_send w none since message (v, ok (c, r)) h =
      After-trans w v _ h (After-rec v v.session (some (c, record_send r since message)))

  After-send_marshaled :
      (w : Recorder Store) (since : ℤ) (live : Option Error) (message : Result Bytes)
      → After w (send_marshaled media d g w since live message).0
  unfolding send_marshaled
  After-send_marshaled w since live (err e) = After-quiet w w refl refl
  After-send_marshaled w since live (ok message) =
      After-live_send w live since message _ (After-ensure_open w message w.stream.rec)

  After-recv_marshaled :
      (w : Recorder Store) (since : ℤ) (m : Msg) (c : FileCassette) (r : StreamRecording)
      (message : Result Bytes)
      → After w (recv_marshaled media d g w since m c r message).0
  unfolding recv_marshaled
  After-recv_marshaled w since m c r (err e) = After-quiet w w refl refl
  After-recv_marshaled w since m c r (ok message) =
      let logged = set_rec w c (record_recv r since message) in
      let quiet = After-rec w w.session (some (c, record_recv r since message)) in
      if_both (λ (x : Recorder Store × Result Msg). After w x.0) w.stream.server_streams quiet
        (After-unless_failed w (finish_call media d g logged since ok_code none) (ok m) (
          After-trans w logged _ quiet
            (After-finish_call logged since ok_code none (λ e. refl, λ e. cc))))

  After-recv_ok :
      (w : Recorder Store) (since : ℤ) (m : Msg) (rec : Option (FileCassette × StreamRecording))
      → After w (recv_ok media d g w since m rec).0
  unfolding recv_ok
  After-recv_ok w since m none = After-quiet w w refl refl
  After-recv_ok w since m (some (c, r)) = After-recv_marshaled w since m c r (g.marshal m)

  After-failed :
      (w : Recorder Store) (since : ℤ) (e : Error)
      → (g.error_text e ≢ [])
      → After w
          (unless_failed media d g
            (finish_call media d g w since (g.status_code e) (some (g.error_text e)))
            (err e)).0
  After-failed w since e shown = After-unless_failed w _ (err e) (
      After-finish_call w since (g.status_code e) (some (g.error_text e))
        (λ h. absurd (cc), λ h. shown (let same : some (g.error_text e) ≡ some [] = h in cc)))

  After-recv_msg :
      (w : Recorder Store) (since : ℤ) (live : Result Msg)
      → HaveText
      → After w (recv_msg media d g w since live).0
  unfolding recv_msg
  After-recv_msg w since (ok m) shown = After-recv_ok w since m w.stream.rec
  After-recv_msg w since (err eof) shown =
      After-unless_failed w _ (err eof)
        (After-finish_call w since ok_code none (λ e. refl, λ e. cc))
  After-recv_msg w since (err e) shown = After-failed w since e (shown e)

  After-close_rec :
      (w : Recorder Store) (since : ℤ) (rec : Option (FileCassette × StreamRecording))
      → After w (close_rec media d g w since rec)
  unfolding close_rec
  After-close_rec w since none = After-quiet w w refl refl
  After-close_rec w since (some (c, r)) =
      After-rec w w.session (some (c, record_half_close r since))

  After-live_call : (w : Recorder Store) (c : LiveCall Msg) → HaveText → After w (live_call w c)
  unfolding send_msg close_send
  After-live_call w (sends since m live) shown = After-send_marshaled w since live (g.marshal m)
  After-live_call w (receives since live) shown = After-recv_msg w since live shown
  After-live_call w (closes since none) shown = After-close_rec w since w.stream.rec
  After-live_call w (closes since (some e)) shown = After-quiet w w refl refl

  -- Where every error has a text, as those of grpc-go have, whatever a client calls on a recorded
  -- stream, and whatever the live stream answers: the store is as it was or behind one save, with which
  -- the wrapper is finished, of a pair whose recorded error is empty exactly if its status code is OK;
  -- and where the wrapper was finished before, it stays so and the store is as it was.
  pub After-live_calls :
      (cs : List (LiveCall Msg)) (w : Recorder Store) → HaveText → After w (live_calls w cs)
  After-live_calls [] w shown = After-quiet w w refl refl
  After-live_calls (c ∷ cs) w shown =
      After-trans w (live_call w c) _ (After-live_call w c shown)
        (After-live_calls cs (live_call w c) shown)
