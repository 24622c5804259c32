-- ===== src/Transport/Tracker/Inferred.antt =====
-- The type that `inferStreamType` of go/adapters/grpctransport/record.go gives to an observed call.
use poly_xrr.Common.{
  ℕ, ℤ, Bytes, Bool, true, Option, none, some, List, [], ◌∷◌, if_both, ◌≡◌, ◌≢◌, sym, subst, ◌∙◌,
}
use poly_xrr.Common.Strings.{is_empty}
use poly_xrr.Errors.{Result, ok, err}
use poly_xrr.Stream.Cassette.{StreamCassette}
use poly_xrr.Canonical.{Digest}
use poly_xrr.Session.{FileCassette, FileSession}
use poly_xrr.Transport.Headers.{HeaderField, is_compressed}
use poly_xrr.Transport.Demux.{WireEvent, wire_headers, wire_message, wire_reset, wire_go_away}
use poly_xrr.Transport.Shape.{RecEvent, ev_send, ev_half_close, RecStream}
use poly_xrr.Transport.Tracker.{
  Direction, client_to_server, server_to_client, named, client_headers, client_message,
  server_headers, server_message, new_stream_tracker, or_new, handle_all,
}
use poly_xrr.Transport.Tracker.Log.{
  client_side, Closing, still_open, half_closed, IsCounted, new-IsCounted, note-IsCounted,
  sent-IsCounted, received-IsCounted,
}
use poly_xrr.Transport.Tracker.Streams.{
  after_trailers, next_state, of_stream, run_stream, streams-handle_all,
}

renamed-IsCounted :
    (s : RecStream) (service method : Bytes) (compressed : Bool)
    → IsCounted s
    → IsCounted (record s { service = service; method = method; compressed = compressed })
renamed-IsCounted s service method compressed h = record {
  sent_counted = h.sent_counted;
  recv_counted = h.recv_counted;
  closing = renamed h.closing;
}
  where
    renamed :
        Closing s
        → Closing (record s { service = service; method = method; compressed = compressed })
    renamed (still_open fresh same) = still_open fresh same
    renamed (half_closed before after seen first split same) =
        half_closed before after seen first split same

client_headers-IsCounted :
    (s : RecStream) (headers : List HeaderField) (end : Bool) (path : Option (Bytes × Bytes))
    → IsCounted s
    → IsCounted (named s headers end path).0
unfolding named
client_headers-IsCounted s headers end none h = h
client_headers-IsCounted s headers end (some (service, method)) h =
    let h' = renamed-IsCounted s service method s.compressed h in
    if_both (λ (r : RecStream × Result (Unit {0})). IsCounted r.0) (is_compressed headers)
      (renamed-IsCounted s service method true h) (if_both IsCounted end (note-IsCounted _ h') h')

abbrev Every : Option RecStream → Type 0
Every none = Unit
Every (some s) = IsCounted s

or_new-IsCounted : (s : Option RecStream) → Every s → IsCounted (or_new s)
unfolding or_new
or_new-IsCounted none h = new-IsCounted
or_new-IsCounted (some s) h = h

after_trailers-IsCounted :
    (s : RecStream) (r : Result (Option (ℕ × Bytes))) → IsCounted s → Every (after_trailers s r)
after_trailers-IsCounted s (err e) h = h
after_trailers-IsCounted s (ok none) h = h
after_trailers-IsCounted s (ok (some status)) h = tt

next_state-IsCounted :
    (dir : Direction) (ev : WireEvent) (s : RecStream) → IsCounted s → Every (next_state dir ev s)
unfolding client_headers client_message server_message
next_state-IsCounted dir wire_go_away s h = h
next_state-IsCounted dir (wire_reset id) s h = tt
next_state-IsCounted client_to_server (wire_headers id headers end) s h =
    client_headers-IsCounted s headers end _ h
next_state-IsCounted client_to_server (wire_message id m end) s h =
    let h' = sent-IsCounted s m h in
    if_both IsCounted (is_empty s.service) h (if_both IsCounted end (note-IsCounted _ h') h')
next_state-IsCounted server_to_client (wire_headers id headers end) s h =
    after_trailers-IsCounted s (server_headers s headers) h
next_state-IsCounted server_to_client (wire_message id m end) s h =
    if_both IsCounted (is_empty s.service) h (received-IsCounted s m h)

run_stream-IsCounted :
    (s : Option RecStream) (evs : List (Direction × WireEvent)) → Every s → Every (run_stream s evs)
run_stream-IsCounted s [] h = h
run_stream-IsCounted s ((dir, ev) ∷ evs) h =
    run_stream-IsCounted (next_state dir ev (or_new s)) evs
      (next_state-IsCounted dir ev (or_new s) (or_new-IsCounted s h))

-- The client's part of a call that a generated client makes for server streaming: its one message, and
-- then the half-close.
abbrev pub IsSingleRequest : List RecEvent → Type 0
IsSingleRequest events = (m : Bytes) × (client_side events ≡ ev_send m ∷ ev_half_close ∷ [])

pub handle_all-IsCounted :
    {Store : Type 0} (media : FileCassette → StreamCassette Store) (d : Digest) (clock : ℕ → ℤ)
    (status_error : ℕ → Bytes → Bytes) (session : FileSession) (store : Store)
    (evs : List (Direction × WireEvent)) (id : ℕ) (s : RecStream)
    → id ≢ 0
    → (handle_all media d clock status_error (new_stream_tracker session store) evs).streams id
      ≡ some s
    → IsCounted s
handle_all-IsCounted media d clock status_error session store evs id s h found =
    let alone = streams-handle_all media d clock status_error session store evs id h in
    subst Every (sym alone ∙ found) (run_stream-IsCounted none (of_stream id evs) tt)
