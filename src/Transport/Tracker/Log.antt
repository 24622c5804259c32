-- ===== src/Transport/Tracker/Log.antt =====
-- The event log of one stream, go/adapters/grpctransport/record.go: the counters and flags beside it
-- say what it holds.
use poly_xrr.Common.{
  ℕ, ◌+◌, Bytes, true, false, Bool-cases, ◌==◌, Option, none, some, List, [], ◌∷◌, ◌++◌,
  append_assoc, append-nil, map, map-append, length, length-append, ◌≡◌, refl, sym, ap, subst, ◌∙◌,
  arith, inl, inr,
}
use poly_xrr.Transport.Shape.{
  RecEvent, ev_send, ev_recv, ev_half_close, RecStream, new_rec_stream, note_half_close,
}
use poly_xrr.Transport.Tracker.{sent, received}

-- The client's part of a log, and the number of the server's messages in it.
abbrev pub client_side : List RecEvent → List RecEvent
client_side [] = []
client_side (ev_recv m ∷ evs) = client_side evs
client_side (ev ∷ evs) = ev ∷ client_side evs

abbrev pub recvs : List RecEvent → ℕ
recvs [] = 0
recvs (ev_recv m ∷ evs) = recvs evs + 1
recvs (ev ∷ evs) = recvs evs

client_side-append :
    (xs ys : List RecEvent) → client_side (xs ++ ys) ≡ client_side xs ++ client_side ys
client_side-append [] ys = refl
client_side-append (ev_recv m ∷ xs) ys = client_side-append xs ys
client_side-append (ev_send m ∷ xs) ys = ap (λ x. ev_send m ∷ x) (client_side-append xs ys)
client_side-append (ev_half_close ∷ xs) ys = ap (λ x. ev_half_close ∷ x) (client_side-append xs ys)

recvs-append : (xs ys : List RecEvent) → recvs (xs ++ ys) ≡ recvs xs + recvs ys
recvs-append [] ys = omega arith
recvs-append (ev_recv m ∷ xs) ys = omega (arith, recvs-append xs ys)
recvs-append (ev_send m ∷ xs) ys = recvs-append xs ys
recvs-append (ev_half_close ∷ xs) ys = recvs-append xs ys

-- The client's part is its messages, with the half-close among them once it has come.
pub data Closing (s : RecStream) : Type 0 where
  still_open : s.saw_half_close ≡ false → client_side s.events ≡ map ev_send s.sends → Closing s
  half_closed :
      (before after : List Bytes)
      → s.saw_half_close ≡ true
      → s.half_close_after_first_send ≡ (length before == 1)
      → s.sends ≡ before ++ after
      → client_side s.events ≡ map ev_send before ++ ev_half_close ∷ map ev_send after
      → Closing s

pub record IsCounted (s : RecStream) : Type 0 where
  pub sent_counted : s.sent_count ≡ length s.sends
  pub recv_counted : s.recv_count ≡ recvs s.events
  pub closing : Closing s

pub new-IsCounted : IsCounted new_rec_stream
new-IsCounted = record { sent_counted = refl; recv_counted = refl; closing = still_open refl refl }

Closing-note :
    (s : RecStream)
    → s.saw_half_close ≡ false
    → s.sent_count ≡ length s.sends
    → Closing s
    → Closing (record s {
      saw_half_close = true;
      half_close_after_first_send = s.sent_count == 1;
      events = s.events ++ ev_half_close ∷ [];
    })
Closing-note s fresh counted (still_open _ same) =
    half_closed s.sends [] refl (ap (λ n. n == 1) counted) (sym (append-nil s.sends))
      (client_side-append s.events (ev_half_close ∷ []) ∙ ap (λ x. x ++ ev_half_close ∷ []) same)
Closing-note s fresh counted (half_closed before after seen first split same) = cc

pub note-IsCounted : (s : RecStream) → IsCounted s → IsCounted (note_half_close s)
unfolding note_half_close
note-IsCounted s h = elim (Bool-cases s.saw_half_close) [
  | inl seen ↦ let same : note_half_close s ≡ s = simp seen in subst IsCounted (sym same) h
  | inr fresh ↦
      let closed : RecStream = record s {
        saw_half_close = true;
        half_close_after_first_send = s.sent_count == 1;
        events = s.events ++ ev_half_close ∷ [];
      } in
      let same : note_half_close s ≡ closed = simp fresh in
      subst IsCounted (sym same) (record {
        sent_counted = h.sent_counted;
        recv_counted = omega (arith, h.recv_counted, recvs-append s.events (ev_half_close ∷ []));
        closing = Closing-note s fresh h.sent_counted h.closing;
      })
]

Closing-sent : (s : RecStream) (m : Bytes) → Closing s → Closing (sent s (some m))
unfolding sent
Closing-sent s m (still_open fresh same) = still_open fresh (
    client_side-append s.events (ev_send m ∷ [])
    ∙ ap (λ x. x ++ ev_send m ∷ []) same
    ∙ sym (map-append ev_send s.sends (m ∷ [])))
Closing-sent s m (half_closed before after seen first split same) =
    half_closed before (after ++ m ∷ []) seen first
      (ap (λ x. x ++ m ∷ []) split ∙ append_assoc before after (m ∷ []))
      (client_side-append s.events (ev_send m ∷ [])
        ∙ ap (λ x. x ++ ev_send m ∷ []) same
        ∙ append_assoc (map ev_send before) (ev_half_close ∷ map ev_send after) (ev_send m ∷ [])
        ∙ ap (λ x. map ev_send before ++ ev_half_close ∷ x)
            (sym (map-append ev_send after (m ∷ []))))

pub sent-IsCounted : (s : RecStream) (m : Option Bytes) → IsCounted s → IsCounted (sent s m)
unfolding sent
sent-IsCounted s none h = h
sent-IsCounted s (some m) h = record {
  sent_counted = omega (arith, h.sent_counted, length-append s.sends (m ∷ []));
  recv_counted = omega (arith, h.recv_counted, recvs-append s.events (ev_send m ∷ []));
  closing = Closing-sent s m h.closing;
}

Closing-received : (s : RecStream) (m : Bytes) → Closing s → Closing (received s (some m))
unfolding received
Closing-received s m (still_open fresh same) =
    still_open fresh
      (client_side-append s.events (ev_recv m ∷ []) ∙ append-nil (client_side s.events) ∙ same)
Closing-received s m (half_closed before after seen first split same) =
    half_closed before after seen first split
      (client_side-append s.events (ev_recv m ∷ []) ∙ append-nil (client_side s.events) ∙ same)

pub received-IsCounted : (s : RecStream) (m : Option Bytes) → IsCounted s → IsCounted (received s m)
unfolding received
received-IsCounted s none h = h
received-IsCounted s (some m) h = record {
  sent_counted = h.sent_counted;
  recv_counted = omega (arith, h.recv_counted, recvs-append s.events (ev_recv m ∷ []));
  closing = Closing-received s m h.closing;
}
