-- ===== src/Transport/Tracker/Calls.antt =====
-- The calls by which `finish` of go/adapters/grpctransport/record.go replays a log on a recording
-- handle.
use poly_xrr.Common.{pos, none, some, ℕ, ◌+◌, ℤ, Bytes, Option, List, [], ◌∷◌, map, ◌≡◌, refl, ap}
use poly_xrr.Recording.Closing.{first_close}
use poly_xrr.Recording.Holds.{sent_messages, received_messages}
use poly_xrr.Transport.Shape.{RecEvent, ev_send, ev_recv, ev_half_close}
use poly_xrr.Transport.Tracker.{calls_of}

-- The messages of a log, by direction.
abbrev pub sent_in : List RecEvent → List Bytes
sent_in [] = []
sent_in (ev_send m ∷ evs) = m ∷ sent_in evs
sent_in (ev ∷ evs) = sent_in evs

abbrev pub received_in : List RecEvent → List Bytes
received_in [] = []
received_in (ev_recv m ∷ evs) = m ∷ received_in evs
received_in (ev ∷ evs) = received_in evs

pub sent_messages-calls_of :
    (scrub : Bytes → Bytes) (clock : ℕ → ℤ) (i : ℕ) (evs : List RecEvent)
    → sent_messages scrub (calls_of clock i evs) ≡ map scrub (sent_in evs)
unfolding calls_of
sent_messages-calls_of scrub clock i [] = refl
sent_messages-calls_of scrub clock i (ev_send m ∷ evs) =
    ap (λ ms. scrub m ∷ ms) (sent_messages-calls_of scrub clock (i + 1) evs)
sent_messages-calls_of scrub clock i (ev_recv m ∷ evs) =
    sent_messages-calls_of scrub clock (i + 1) evs
sent_messages-calls_of scrub clock i (ev_half_close ∷ evs) =
    sent_messages-calls_of scrub clock (i + 1) evs

pub received_messages-calls_of :
    (scrub : Bytes → Bytes) (clock : ℕ → ℤ) (i : ℕ) (evs : List RecEvent)
    → received_messages scrub (calls_of clock i evs) ≡ map scrub (received_in evs)
unfolding calls_of
received_messages-calls_of scrub clock i [] = refl
received_messages-calls_of scrub clock i (ev_recv m ∷ evs) =
    ap (λ ms. scrub m ∷ ms) (received_messages-calls_of scrub clock (i + 1) evs)
received_messages-calls_of scrub clock i (ev_send m ∷ evs) =
    received_messages-calls_of scrub clock (i + 1) evs
received_messages-calls_of scrub clock i (ev_half_close ∷ evs) =
    received_messages-calls_of scrub clock (i + 1) evs

-- The position of the first half-close in a log whose first event has the position `n`.
abbrev pub closed_at : ℕ → List RecEvent → Option ℤ
closed_at n [] = none
closed_at n (ev_half_close ∷ evs) = some (pos n)
closed_at n (ev ∷ evs) = closed_at (n + 1) evs

pub first_close-calls_of :
    (clock : ℕ → ℤ) (i n : ℕ) (evs : List RecEvent)
    → first_close n (calls_of clock i evs) ≡ closed_at n evs
unfolding calls_of
first_close-calls_of clock i n [] = refl
first_close-calls_of clock i n (ev_send m ∷ evs) = first_close-calls_of clock (i + 1) (n + 1) evs
first_close-calls_of clock i n (ev_recv m ∷ evs) = first_close-calls_of clock (i + 1) (n + 1) evs
first_close-calls_of clock i n (ev_half_close ∷ evs) = refl
