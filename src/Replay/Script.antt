-- ===== src/Replay/Script.antt =====
-- A replay, go/stream_session.go, answers a client that repeats the recorded calls with what the
-- recording saw.
use poly_xrr.Common.{
  ℕ, suc, zero, ◌+◌, ◌≤◌, Bytes, bytes_eq, bytes_eq_iff, ltb, none, some, List, [], ◌∷◌, length,
  drop, get_elem?, ◌≡◌, refl, sym, ap, ◌∙◌, arith, false, true,
}
use native.Mathlib.Numerals.{add-one}
use poly_xrr.Errors.{ok, err}
use poly_xrr.Stream.Model.{StreamFrame}
use poly_xrr.Stream.Scrub.{stream_send, scrub_frame}
use poly_xrr.Recording.{Call}
use poly_xrr.Recording.Holds.{messages, sent_messages, received_messages}
use poly_xrr.Recording.Call.{send, recv, close}
use poly_xrr.Replay
use poly_xrr.Replay.{
  StreamReplay, terminal_err, compare_frame, deliver, Act, do_send, do_recv, do_close, Outcome,
  sent, received, closed, act, play,
}

-- The client's side of the recorded calls, and what it saw.
abbrev pub script : List Call → List Act
script [] = []
script (send since m ∷ cs) = do_send m ∷ script cs
script (recv since m ∷ cs) = do_recv ∷ script cs
script (close since ∷ cs) = do_close ∷ script cs

abbrev pub seen_by_client : (Bytes → Bytes) → List Call → List Outcome
seen_by_client scrub [] = []
seen_by_client scrub (send since m ∷ cs) = sent (ok tt) ∷ seen_by_client scrub cs
seen_by_client scrub (recv since m ∷ cs) = received (ok (scrub m)) ∷ seen_by_client scrub cs
seen_by_client scrub (close since ∷ cs) = closed (ok tt) ∷ seen_by_client scrub cs

-- A client sends nothing after it has closed its side.
abbrev pub SendsBeforeClose : List Call → Type 0
SendsBeforeClose [] = Unit
SendsBeforeClose (send since m ∷ cs) = SendsBeforeClose cs
SendsBeforeClose (recv since m ∷ cs) = SendsBeforeClose cs
SendsBeforeClose (close since ∷ cs) = (sent_messages (λ m. m) cs ≡ []) × SendsBeforeClose cs

-- The frame under a cursor, from what is left of the messages.
pub frame_at :
    (fs : List StreamFrame) (i : ℕ) (m : Bytes) (ms : List Bytes)
    → messages (drop i fs) ≡ m ∷ ms
    → (f : StreamFrame) × (get_elem? fs i ≡ some f)
      × (f.message ≡ m)
      × (messages (drop (suc i) fs) ≡ ms)
frame_at [] zero m ms h = cc
frame_at [] (suc i) m ms h = cc
frame_at (f ∷ fs) zero m ms h = (f, refl, cc, cc)
frame_at (f ∷ fs) (suc i) m ms h = frame_at fs i m ms h

pub no_frame_at :
    (fs : List StreamFrame) (i : ℕ)
    → messages (drop i fs) ≡ []
    → (get_elem? fs i ≡ none) × (length fs ≤ i)
no_frame_at [] i h = (refl, omega arith)
no_frame_at (f ∷ fs) zero h = cc
no_frame_at (f ∷ fs) (suc i) h = let (e, le) = no_frame_at fs i h in (e, omega arith)

-- Where a replay stands in its recording: what is left of each direction.
pub record Stands (r : StreamReplay) (ss rs : List Bytes) : Type 0 where
  pub matched : r.mismatch ≡ none
  pub sends_left : messages (drop r.send_idx r.pair.req.frames) ≡ ss
  pub recvs_left : messages (drop r.recv_idx r.pair.resp.frames) ≡ rs

no_sends :
    (f : Bytes → Bytes) (cs : List Call) → sent_messages (λ m. m) cs ≡ [] → sent_messages f cs ≡ []
no_sends f [] h = refl
no_sends f (send since m ∷ cs) h = cc
no_sends f (recv since m ∷ cs) h = no_sends f cs h
no_sends f (close since ∷ cs) h = no_sends f cs h

module _ (r : StreamReplay) (ss rs : List Bytes) where
  pub send_step :
      (m : Bytes)
      → Stands r (scrub_frame r.scrub stream_send r.info m ∷ ss) rs
      → (act r (do_send m) ≡ (record r { send_idx = r.send_idx + 1 }, sent (ok tt)))
        × Stands (record r { send_idx = r.send_idx + 1 }) ss rs
  unfolding act Replay.send
  send_step m h =
      let (f, at, same, rest) = frame_at r.pair.req.frames r.send_idx _ ss h.sends_left in
      let eq : bytes_eq (scrub_frame r.scrub stream_send r.info m) f.message ≡ true =
        (bytes_eq_iff _ f.message).1 (sym same) in
      (
        simp (h.matched, at, eq),
        record { matched = h.matched; sends_left = rw add-one rest; recvs_left = h.recvs_left },
      )

  pub recv_step :
      (m : Bytes)
      → Stands r ss (m ∷ rs)
      → (act r do_recv ≡ (record r { recv_idx = r.recv_idx + 1 }, received (ok m)))
        × Stands (record r { recv_idx = r.recv_idx + 1 }) ss rs
  unfolding act Replay.recv
  recv_step m h =
      let (f, at, same, rest) = frame_at r.pair.resp.frames r.recv_idx m rs h.recvs_left in
      (
        simp (h.matched, at, same),
        record { matched = h.matched; sends_left = h.sends_left; recvs_left = rw add-one rest },
      )

  close_step : ss ≡ [] → Stands r ss rs → act r do_close ≡ (r, closed (ok tt))
  unfolding act Replay.half_close
  close_step none_left h =
      let (e, le) = no_frame_at r.pair.req.frames r.send_idx (h.sends_left ∙ none_left) in
      let passed : ltb r.send_idx (length r.pair.req.frames) ≡ false = ground arith in
      simp (h.matched, passed)

-- At the end of the recording a read returns the terminal, and changes nothing.
recv_terminal :
    (r : StreamReplay) (ss : List Bytes)
    → Stands r ss []
    → Replay.recv r ≡ (r, err (terminal_err r))
unfolding Replay.recv
recv_terminal r ss h =
    let (at, le) = no_frame_at r.pair.resp.frames r.recv_idx h.recvs_left in simp (h.matched, at)

pub record Played (r : StreamReplay) (acts : List Act) (os : List Outcome) : Type 0 where
  pub final : StreamReplay
  pub played : play r acts ≡ (final, os)
  pub at_end : Stands final [] []
  pub same_pair : final.pair ≡ r.pair
  -- From then on a read returns the terminal.
  pub ends : Replay.recv final ≡ (final, err (terminal_err r))

pub terminal-pair : (r r' : StreamReplay) → r.pair ≡ r'.pair → terminal_err r ≡ terminal_err r'
unfolding terminal_err
terminal-pair r r' h = rw h

Played-cons :
    (r r' : StreamReplay) (a : Act) (o : Outcome) (acts : List Act) (os : List Outcome)
    → act r a ≡ (r', o)
    → r'.pair ≡ r.pair
    → Played r' acts os
    → Played r (a ∷ acts) (o ∷ os)
unfolding play
Played-cons r r' a o acts os e same p = record {
  final = p.final;
  played = simp (e, p.played);
  at_end = p.at_end;
  same_pair = p.same_pair ∙ same;
  ends = p.ends ∙ ap (λ e. (p.final, err e)) (terminal-pair r' r same);
}

-- A client that repeats the calls of a recording gets every send and half-close accepted, and the
-- recorded messages in their order.
pub play_script :
    (scrub_recv : Bytes → Bytes) (cs : List Call) (r : StreamReplay)
    → SendsBeforeClose cs
    → Stands r
        (sent_messages (scrub_frame r.scrub stream_send r.info) cs)
        (received_messages scrub_recv cs)
    → Played r (script cs) (seen_by_client scrub_recv cs)
play_script scrub_recv [] r w h = record {
  final = r;
  played = unfold play in refl;
  at_end = h;
  same_pair = refl;
  ends = recv_terminal r [] h;
}
play_script scrub_recv (send since m ∷ cs) r w h =
    let (e, h') = send_step r _ _ m h in
    Played-cons r _ _ _ _ _ e refl
      (play_script scrub_recv cs (record r { send_idx = r.send_idx + 1 }) w h')
play_script scrub_recv (recv since m ∷ cs) r w h =
    let (e, h') = recv_step r _ _ (scrub_recv m) h in
    Played-cons r _ _ _ _ _ e refl
      (play_script scrub_recv cs (record r { recv_idx = r.recv_idx + 1 }) w h')
play_script scrub_recv (close since ∷ cs) r (nothing_sent, w) h =
    Played-cons r r _ _ _ _ (close_step r _ _ (no_sends _ cs nothing_sent) h) refl
      (play_script scrub_recv cs r w h)
