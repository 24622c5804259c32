-- ===== src/Transport/Tracker/Streams.antt =====
-- The streams of a tracker, go/adapters/grpctransport/record.go: each is a state machine of its own,
-- and every state that it reaches keeps its log counted.
use poly_xrr.Common.{
  ℕ, ℤ, Bytes, Bool-cases, ◌||◌, ◌==◌, Option, none, some, List, [], ◌∷◌, if_both, ==_iff,
  if◌then◌else◌, ◌≡◌, ◌≢◌, refl, ap, ◌∙◌, arith, inl, inr,
}
use poly_xrr.Common.Strings.{is_empty}
use poly_xrr.Errors.{Result, ok, err}
use poly_xrr.Stream.Cassette.{StreamCassette}
use poly_xrr.Canonical.{Digest}
use poly_xrr.Recording.{StreamRecording}
use poly_xrr.Stream.Model.{StreamType}
use poly_xrr.Session.Streams.{StreamOpen, open_stream_record}
use poly_xrr.Session.{FileCassette, FileSession}
use poly_xrr.Transport.Demux.{WireEvent, wire_headers, wire_message, wire_reset, wire_go_away}
use poly_xrr.Transport.Shape.{RecEvent, RecStream, infer_stream_type, first_or_nil, stream_open_for}
use poly_xrr.Transport.Tracker.{
  Direction, client_to_server, server_to_client, client_headers, client_message, server_headers,
  server_message, Tracker, new_stream_tracker, or_new, finish_stream, persist, persisted, ended,
  handle_event, stream_of, handle, handle_all,
}

-- What an event leaves of the state of its own stream, without the tracker: none behind an end.
abbrev pub after_trailers : RecStream → Result (Option (ℕ × Bytes)) → Option RecStream
after_trailers s (ok (some status)) = none
after_trailers s _ = some s

abbrev pub next_state : Direction → WireEvent → RecStream → Option RecStream
next_state dir wire_go_away s = some s
next_state dir (wire_reset id) s = none
next_state client_to_server (wire_headers id headers end) s = some (client_headers s headers end).0
next_state client_to_server (wire_message id m end) s = some (client_message s m end)
next_state server_to_client (wire_headers id headers end) s =
    after_trailers s (server_headers s headers)
next_state server_to_client (wire_message id m end) s = some (server_message s m)

-- The events of one stream.
abbrev pub of_stream : ℕ → List (Direction × WireEvent) → List (Direction × WireEvent)
of_stream id [] = []
of_stream id ((dir, ev) ∷ evs) =
    if id == stream_of ev then (dir, ev) ∷ of_stream id evs else of_stream id evs

-- The state of a stream behind events of its own.
abbrev pub run_stream : Option RecStream → List (Direction × WireEvent) → Option RecStream
run_stream s [] = s
run_stream s ((dir, ev) ∷ evs) = run_stream (next_state dir ev (or_new s)) evs

module _ {Store : Type 0} (media : FileCassette → StreamCassette Store) (d : Digest) (clock : ℕ → ℤ)
    (status_error : ℕ → Bytes → Bytes) where
  streams-persisted :
      (t : Tracker Store) (events : List RecEvent) (code : ℕ) (msg : Bytes)
      (opened : Result (FileCassette × StreamRecording)) (j : ℕ)
      → (persisted media d clock status_error t events code msg opened).streams j ≡ t.streams j
  unfolding persisted
  streams-persisted t events code msg (err e) j = refl
  streams-persisted t events code msg (ok (c, r)) j = refl

  streams-persist :
      (t : Tracker Store) (s : RecStream) (code : ℕ) (msg : Bytes) (j : ℕ)
      → (persist media d clock status_error t s code msg).streams j ≡ t.streams j
  unfolding persist
  streams-persist t s code msg j =
      let typ : StreamType = infer_stream_type s in
      let open_call : StreamOpen =
        stream_open_for d t.session typ s.service s.method (first_or_nil s.sends) in
      let opened = open_stream_record d t.session open_call in
      streams-persisted (record t { session = opened.0 }) s.events code msg opened.1 j

  streams-finish_stream :
      (t : Tracker Store) (id : ℕ) (s : RecStream) (code : ℕ) (msg : Bytes) (j : ℕ)
      → (finish_stream media d clock status_error t id s code msg).streams j
        ≡ (if j == id then none else t.streams j)
  unfolding finish_stream
  streams-finish_stream t id s code msg j =
      ap (λ x. if j == id then none else x)
        (if_both (λ (t' : Tracker Store). t'.streams j ≡ t.streams j)
          (s.finished || (is_empty s.service || s.compressed)) refl
          (streams-persist t s code msg j))

  streams-ended :
      (t : Tracker Store) (id : ℕ) (s : RecStream) (r : Result (Option (ℕ × Bytes))) (j : ℕ)
      → (ended media d clock status_error t id s r).0.streams j
        ≡ (if j == id then after_trailers s r else t.streams j)
  unfolding ended
  streams-ended t id s (err e) j = refl
  streams-ended t id s (ok none) j = refl
  streams-ended t id s (ok (some (code, msg))) j = streams-finish_stream t id s code msg j

  streams-handle_event :
      (t : Tracker Store) (dir : Direction) (id : ℕ) (s : RecStream) (ev : WireEvent) (j : ℕ)
      → ev ≢ wire_go_away
      → (handle_event media d clock status_error t dir id s ev).0.streams j
        ≡ (if j == id then next_state dir ev s else t.streams j)
  unfolding handle_event
  streams-handle_event t dir id s wire_go_away j h = absurd (h refl)
  streams-handle_event t dir id s (wire_reset _) j h = streams-finish_stream t id s _ _ j
  streams-handle_event t client_to_server id s (wire_headers _ headers end) j h = refl
  streams-handle_event t client_to_server id s (wire_message _ m end) j h = refl
  streams-handle_event t server_to_client id s (wire_headers _ headers end) j h =
      streams-ended t id s (server_headers s headers) j
  streams-handle_event t server_to_client id s (wire_message _ m end) j h = refl

  streams-handle :
      (t : Tracker Store) (dir : Direction) (ev : WireEvent) (j : ℕ)
      → j ≢ 0
      → (handle media d clock status_error t dir ev).0.streams j
        ≡ (if j == stream_of ev then next_state dir ev (or_new (t.streams j)) else t.streams j)
  unfolding handle
  streams-handle t dir ev j h = elim (Bool-cases (stream_of ev == 0)) [
    | inl none_of ↦ ground (arith, ==_iff (stream_of ev) 0, ==_iff j (stream_of ev))
    | inr one_of ↦
        let id = stream_of ev in
        let known : ev ≢ wire_go_away =
          λ e. (let zero_id : stream_of ev ≡ 0 = ap stream_of e in ground arith) in
        let kept = streams-handle_event t dir id (or_new (t.streams id)) ev j known in
        ground (arith, kept, ==_iff j id)
  ]

  -- One event after the other.
  streams-handle_all_from :
      (t : Tracker Store) (evs : List (Direction × WireEvent)) (j : ℕ)
      → j ≢ 0
      → (handle_all media d clock status_error t evs).streams j
        ≡ run_stream (t.streams j) (of_stream j evs)
  unfolding handle_all
  streams-handle_all_from t [] j h = refl
  streams-handle_all_from t ((dir, ev) ∷ evs) j h =
      streams-handle_all_from (handle media d clock status_error t dir ev).0 evs j h
      ∙ ap (λ s. run_stream s (of_stream j evs)) (streams-handle t dir ev j h)
      ∙ elim (Bool-cases (j == stream_of ev)) [ inl mine ↦ simp mine | inr other ↦ simp other ]

  -- Streams do not disturb one another: after any events, in any interleaving of both directions, the
  -- state of a stream of a new tracker is what its own events make of it, and the outcome of opening,
  -- saving or failing to save the others does not reach it.
  pub streams-handle_all :
      (session : FileSession) (store : Store) (evs : List (Direction × WireEvent)) (j : ℕ)
      → j ≢ 0
      → (handle_all media d clock status_error (new_stream_tracker session store) evs).streams j
        ≡ run_stream none (of_stream j evs)
  streams-handle_all session store evs j h =
      streams-handle_all_from (new_stream_tracker session store) evs j h
