-- ===== src/Replay/Tests.antt =====
-- Concrete replays.
use poly_xrr.Common.{
  ◌+◌, Bytes, codes, none, some, List, [], ◌∷◌, ◌++◌, map, drop, ◌≡◌, ◌≢◌, refl, arith, bytes_eq,
}
use poly_xrr.Errors.{eof, stream_mismatch, send_op, half_close_op, ok, err}
use poly_xrr.Stream.Model.StreamType.{client}
use poly_xrr.Stream.Scrub.{scrub_frame}
use poly_xrr.Stream.Validate.Tests.{pair}
use poly_xrr.Recording.Holds.{messages}
use poly_xrr.Replay
use poly_xrr.Replay.{
  StreamReplay, terminal_err, unless_mismatched, compare_frame, deliver, fail, Act, do_send,
  do_recv, do_close, Outcome, sent, received, closed, act, play,
}
use poly_xrr.Replay.Script.{Stands}
use poly_xrr.Replay.Divergence.{
  all_fail, play_mismatched, play_diverging, play_closing_early, play_sending_beyond,
}
use poly_xrr.Replay.Reads.{reads, served, reads-served}

abbrev player : StreamReplay
player = record {
  fingerprint = [];
  pair = pair;
  scrub = none;
  info = record { adapter_id = codes "sse"; typ = client };
  send_idx = 0;
  recv_idx = 0;
  mismatch = none;
}

abbrev scene : List Act
scene = do_recv ∷ do_send (codes "a") ∷ do_recv ∷ do_send (codes "b") ∷ do_close ∷ do_recv ∷ []

scene_played :
    (play player scene).1
    ≡ received (ok (codes "x"))
      ∷ sent (ok tt)
      ∷ received (err eof)
      ∷ sent (ok tt)
      ∷ closed (ok tt)
      ∷ received (err eof)
      ∷ []
unfolding play act Replay.send Replay.recv Replay.half_close scrub_frame bytes_eq
scene_played = refl

scene_unmatched : (play player scene).0.mismatch ≡ none
unfolding play act Replay.send Replay.recv Replay.half_close scrub_frame bytes_eq
scene_unmatched = refl

reads-served_example :
    reads (play player scene).1
    ≡ served (terminal_err player) (messages (drop 0 pair.resp.frames)) scene
reads-served_example = reads-served scene player scene_unmatched

player-Stands : Stands player (codes "a" ∷ codes "b" ∷ []) (codes "x" ∷ [])
player-Stands = record { matched = refl; sends_left = refl; recvs_left = refl }

c_ne_b : ◌≢◌ {A = Bytes} (codes "c") (codes "b")
c_ne_b e = ground arith

play_diverging_example :
    (play player (map do_send (codes "a" ∷ []) ++ (do_send (codes "c") ∷ do_recv ∷ []))).1
    ≡ map (λ (_ : Bytes). sent (ok tt)) (codes "a" ∷ [])
      ++ all_fail (stream_mismatch send_op (0 + 1)) (do_send (codes "c") ∷ do_recv ∷ [])
unfolding scrub_frame
play_diverging_example =
    play_diverging (codes "a" ∷ []) player (codes "c") (codes "b") [] (codes "x" ∷ [])
      (do_recv ∷ []) player-Stands c_ne_b

play_closing_early_example :
    (play player (map do_send (codes "a" ∷ []) ++ (do_close ∷ do_recv ∷ []))).1
    ≡ map (λ (_ : Bytes). sent (ok tt)) (codes "a" ∷ [])
      ++ all_fail (stream_mismatch half_close_op (0 + 1)) (do_close ∷ do_recv ∷ [])
unfolding scrub_frame
play_closing_early_example =
    play_closing_early (codes "a" ∷ []) player (codes "b") [] (codes "x" ∷ []) (do_recv ∷ [])
      player-Stands

abbrev broken : StreamReplay
broken = record player { mismatch = some (send_op, 1) }

play_mismatched_example : play broken scene ≡ (broken, all_fail (stream_mismatch send_op 1) scene)
play_mismatched_example = play_mismatched scene broken send_op 1 refl

play_sending_beyond_example :
    (play player
      (map do_send (codes "a" ∷ codes "b" ∷ []) ++ (do_send (codes "z") ∷ do_recv ∷ []))).1
    ≡ map (λ (_ : Bytes). sent (ok tt)) (codes "a" ∷ codes "b" ∷ [])
      ++ (sent (err eof) ∷ received (ok (codes "x")) ∷ [])
unfolding scrub_frame
play_sending_beyond_example =
    play_sending_beyond (codes "a" ∷ codes "b" ∷ []) player (codes "z") (codes "x" ∷ [])
      player-Stands
