-- ===== src/Grpc/Replay/Script.antt =====
-- A client that repeats a bidi call on a replayed stream, go/adapters/grpc/stream.go.
use poly_xrr.Common.{ℤ, Bytes, none, some, List, [], ◌∷◌, map, ◌≡◌, refl, sym, ap, ap₂, ◌∙◌}
use poly_xrr.Errors.{Error, Result, ok, err, ◌>>=◌}
use poly_xrr.Stream.Model.{StreamType}
use poly_xrr.Stream.Model.StreamType.{bidi}
use poly_xrr.Stream.Cassette.{StreamCassette}
use poly_xrr.Canonical.{Digest}
use poly_xrr.Recording.{Call}
use poly_xrr.Recording.Call.{send, recv, close}
use poly_xrr.Replay
use poly_xrr.Replay.{
  StreamReplay, Act, do_send, do_recv, do_close, Outcome, sent, received, act, play,
}
use poly_xrr.Replay.Script.{script, seen_by_client}
use poly_xrr.Session.{FileCassette, FileSession}
use poly_xrr.Session.Streams.{open_stream_replay}
use poly_xrr.Grpc.{Grpc, split_full_method, is_server, stream_open}
use poly_xrr.Grpc.Exchange.{
  Exchange, says, hears, closes, Answer, said, heard, closed, IsCodec, bidi_desc, call_of_exchange,
  call_of-bidi, answer_of,
}
use poly_xrr.Grpc.Replay.{
  ReplayStream, Replayer, mapped, map_err, after_send, after_recv, located, start, send_marshaled,
  new_replay_stream, send_msg, recv_msg, close_send,
}

-- The wrapper of a bidi call that is open.
abbrev pub bidi_replay : Bytes → Bytes → StreamReplay → ReplayStream
bidi_replay service method rp = record {
  typ = bidi;
  service = service;
  method = method;
  rp = some rp;
  open_err = none;
}

abbrev act_of : Call → Act
act_of (send since m) = do_send m
act_of (recv since m) = do_recv
act_of (close since) = do_close

abbrev outcome_of : Call → Outcome
outcome_of (send since m) = sent (ok tt)
outcome_of (recv since m) = received (ok m)
outcome_of (close since) = Outcome.closed (ok tt)

pair_eq : {A B : Type 0} (p : A × B) (a : A) (b : B) → p.0 ≡ a → p.1 ≡ b → p ≡ (a, b)
pair_eq (x, y) a b e f = ap₂ (λ u v. (u, v)) e f

script-cons : (c : Call) (cs : List Call) → script (c ∷ cs) ≡ act_of c ∷ script cs
script-cons (send since m) cs = refl
script-cons (recv since m) cs = refl
script-cons (close since) cs = refl

seen-cons :
    (c : Call) (cs : List Call)
    → seen_by_client (λ m. m) (c ∷ cs) ≡ outcome_of c ∷ seen_by_client (λ m. m) cs
seen-cons (send since m) cs = refl
seen-cons (recv since m) cs = refl
seen-cons (close since) cs = refl

play-cons :
    (rp final : StreamReplay) (a : Act) (acts : List Act) (o : Outcome) (os : List Outcome)
    → play rp (a ∷ acts) ≡ (final, o ∷ os)
    → (act rp a ≡ ((act rp a).0, o)) × (play (act rp a).0 acts ≡ (final, os))
unfolding play
play-cons rp final a acts o os e =
    let rest = ap (λ q. q.1) e in (pair_eq _ _ _ refl cc, pair_eq _ _ _ (ap (λ q. q.0) e) cc)

module _ {Store Msg : Type 0} (g : Grpc Msg) (media : FileCassette → StreamCassette Store)
    (store : Store) (d : Digest) where
  abbrev pub repeat_one : Replayer → Exchange Msg → Replayer × Answer Msg
  repeat_one w (says since m) = let (w', r) = send_msg g media store d w m in (w', said r)
  repeat_one w (hears since m) = let (w', r) = recv_msg g media store d w in (w', heard r)
  repeat_one w (closes since) = let (w', r) = close_send g media store d w in (w', closed r)

  abbrev pub repeat_all : Replayer → List (Exchange Msg) → Replayer × List (Answer Msg)
  repeat_all w [] = (w, [])
  repeat_all w (x ∷ xs) =
      let (w', a) = repeat_one w x in let (w'', as_) = repeat_all w' xs in (w'', a ∷ as_)

  module _ (wire : Msg → Bytes) (codec : IsCodec g wire) (s : FileSession)
      (service method : Bytes) where
    abbrev pub player : StreamReplay → Replayer
    player rp = record { session = s; stream = bidi_replay service method rp }

    repeat-says :
        (rp rp' : StreamReplay) (since : ℤ) (m : Msg)
        → Replay.send rp (wire m) ≡ (rp', ok tt)
        → repeat_one (player rp) (says since m) ≡ (player rp', said (ok tt))
    unfolding send_msg send_marshaled after_send mapped
    repeat-says rp rp' since m e =
        ap (λ x. let (w', r) = send_marshaled g media store d (player rp) x in (w', said r))
          (codec.marshals m)
        ∙ ap (λ x. let (w', r) = after_send g media store d (player rp) x in (w', said r)) e

    repeat-hears :
        (rp rp' : StreamReplay) (since : ℤ) (m : Msg)
        → Replay.recv rp ≡ (rp', ok (wire m))
        → repeat_one (player rp) (hears since m) ≡ (player rp', heard (ok m))
    unfolding recv_msg after_recv mapped
    repeat-hears rp rp' since m e =
        ap (λ x. let (w', r) = after_recv g media store d (player rp) x in (w', heard r)) e
        ∙ ap (λ x. (player rp', heard x)) (codec.unmarshals m)

    repeat-closes :
        (rp rp' : StreamReplay) (since : ℤ)
        → Replay.half_close rp ≡ (rp', ok tt)
        → repeat_one (player rp) (closes since) ≡ (player rp', closed (ok tt))
    unfolding close_send after_send mapped
    repeat-closes rp rp' since e =
        ap (λ x. let (w', r) = after_send g media store d (player rp) x in (w', closed r)) e

    repeat_one-act :
        (x : Exchange Msg) (rp rp' : StreamReplay)
        → act rp (act_of (call_of_exchange wire x)) ≡ (rp', outcome_of (call_of_exchange wire x))
        → repeat_one (player rp) x ≡ (player rp', answer_of x)
    unfolding act
    repeat_one-act (says since m) rp rp' e =
        repeat-says rp rp' since m (pair_eq _ _ _ (ap (λ q. q.0) e) (let o = ap (λ q. q.1) e in cc))
    repeat_one-act (hears since m) rp rp' e =
        repeat-hears rp rp' since m
          (pair_eq _ _ _ (ap (λ q. q.0) e) (let o = ap (λ q. q.1) e in cc))
    repeat_one-act (closes since) rp rp' e =
        repeat-closes rp rp' since (pair_eq _ _ _ (ap (λ q. q.0) e) (let o = ap (λ q. q.1) e in cc))

    pub repeat_all-play :
        (xs : List (Exchange Msg)) (rp final : StreamReplay)
        → play rp (script (map (call_of_exchange wire) xs))
          ≡ (final, seen_by_client (λ m. m) (map (call_of_exchange wire) xs))
        → repeat_all (player rp) xs ≡ (player final, map answer_of xs)
    unfolding play
    repeat_all-play [] rp final e = ap (λ (q : StreamReplay × List Outcome). (player q.0, [])) e
    repeat_all-play (x ∷ xs) rp final e =
        let c = call_of_exchange wire x in
        let cs = map (call_of_exchange wire) xs in
        let (first, rest) =
          play-cons rp final (act_of c) (script cs) (outcome_of c) (seen_by_client (λ m. m) cs)
            (ap (play rp) (sym (script-cons c cs)) ∙ e ∙ ap (λ os. (final, os)) (seen-cons c cs)) in
        ap (λ q. let (w'', answers) = repeat_all q.0 xs in (w'', q.1 ∷ answers))
          (repeat_one-act x rp _ first)
        ∙ ap (λ q. (q.0, answer_of x ∷ q.1)) (repeat_all-play xs _ final rest)

    -- The receive at the end.
    pub recv_msg-end :
        (final : StreamReplay) (e : Error)
        → Replay.recv final ≡ (final, err e)
        → recv_msg g media store d (player final) ≡ (player final, err (map_err g final e))
    unfolding recv_msg after_recv mapped
    recv_msg-end final e h = ap (λ x. after_recv g media store d (player final) x) h

    pub new_replay_stream_lem :
        (s₀ : FileSession) (full : Bytes) (rp : StreamReplay)
        → split_full_method full ≡ ok (service, method)
        → open_stream_replay media store d s₀ (stream_open d s₀ bidi service method []) ≡ (s, ok rp)
        → new_replay_stream g media store d s₀ bidi_desc full
          ≡ (s, ok (bidi_replay service method rp))
    unfolding new_replay_stream located start is_server
    new_replay_stream_lem s₀ full rp names found =
        ap {B = FileSession × Result ReplayStream}
          (λ (x : Result (StreamType × Bytes × Bytes)). elim x [
            | err e ↦ (s₀, err e)
            | ok (typ, service, method) ↦
                start g media store d (typ, service, method)
                  (located g media store d s₀ typ service method)
          ])
          (call_of-bidi full service method names)
        ∙ ap {B = FileSession × Result ReplayStream}
            (λ (x : FileSession × Result StreamReplay).
              start g media store d (bidi, service, method) (x.0, (do r ← x.1; ok (some r))))
            found
