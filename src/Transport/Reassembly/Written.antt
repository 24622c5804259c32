-- ===== src/Transport/Reassembly/Written.antt =====
-- What a replay writes, go/adapters/grpctransport/replay.go, a recorder reads,
-- go/adapters/grpctransport/demux.go.
use poly_xrr.Common.{
  ℕ, zero, suc, ◌/◌, ◌%◌, ◌≤◌, ltb, Bytes, false, List, [], ◌∷◌, ◌++◌, append_assoc, length,
  length-append, take, drop, All, ◌≡◌, refl, sym, ap, ap₂, ◌∙◌, arith,
}
use poly_xrr.Errors.{Result, ok}
use poly_xrr.Transport.Reassembly.{
  max_grpc_message_size, big_endian, message, of_length, round, prepend, drain, feed, feed_all,
  frame_message, chunk, chunks, write_message, write_messages,
}
use poly_xrr.Transport.Reassembly.Buffers.{drain-suc, next}
use poly_xrr.Transport.Reassembly.Fragments.{concat, feed_all-concat}

take-drop : (n : ℕ) (s : Bytes) → take n s ++ drop n s ≡ s
take-drop zero s = refl
take-drop (suc n) [] = refl
take-drop (suc n) (c ∷ s) = ap (λ x. c ∷ x) (take-drop n s)

length-drop : (n : ℕ) (s : Bytes) → length (drop n s) ≤ length s
length-drop zero s = omega arith
length-drop (suc n) [] = omega arith
length-drop (suc n) (c ∷ s) = omega (arith, length-drop n s)

concat-chunks : (k : ℕ) (payload : Bytes) → length payload ≤ k → concat (chunks k payload) ≡ payload
unfolding chunks
concat-chunks zero [] h = refl
concat-chunks zero (c ∷ payload) h = absurd (omega arith)
concat-chunks (suc k) [] h = refl
concat-chunks (suc k) (c ∷ payload) h =
    ap (λ x. take chunk (c ∷ payload) ++ x)
      (concat-chunks k (drop chunk (c ∷ payload)) (omega (arith, length-drop 16383 payload)))
    ∙ take-drop chunk (c ∷ payload)

concat-append : (xs ys : List Bytes) → concat (xs ++ ys) ≡ concat xs ++ concat ys
concat-append [] ys = refl
concat-append (x ∷ xs) ys =
    ap (λ z. x ++ z) (concat-append xs ys) ∙ sym (append_assoc x (concat xs) (concat ys))

abbrev frames : List Bytes → Bytes
frames [] = []
frames (m ∷ ms) = frame_message m ++ frames ms

concat-write_messages : (ms : List Bytes) → concat (write_messages ms) ≡ frames ms
unfolding write_message
concat-write_messages [] = refl
concat-write_messages (m ∷ ms) =
    concat-append (write_message m) (write_messages ms)
    ∙ ap₂ ◌++◌ (concat-chunks (length (frame_message m)) (frame_message m) (omega arith))
        (concat-write_messages ms)

pub big_endian_length :
    (n : ℕ)
    → n ≤ max_grpc_message_size
    → big_endian (n / 16777216 % 256) (n / 65536 % 256) (n / 256 % 256) (n % 256) ≡ n
big_endian_length n h = omega arith

take-length : (m s : Bytes) → take (length m) (m ++ s) ≡ m
take-length [] s = refl
take-length (c ∷ m) s = ap (λ x. c ∷ x) (take-length m s)

drop-length : (m s : Bytes) → drop (length m) (m ++ s) ≡ s
drop-length [] s = refl
drop-length (c ∷ m) s = drop-length m s

round-frame_message :
    (m s : Bytes) → length m ≤ max_grpc_message_size → round (frame_message m ++ s) ≡ message m s
unfolding round frame_message of_length
round-frame_message m s h =
    let fits : ltb max_grpc_message_size (length m) ≡ false = ground arith in
    let whole : ltb (length (m ++ s)) (length m) ≡ false = ground (arith, length-append m s) in
    ap (λ n. of_length n (m ++ s)) (big_endian_length (length m) h)
    ∙ simp (fits, whole, take-length m s, drop-length m s)

drain-frames :
    (k : ℕ) (ms : List Bytes)
    → All (λ m. length m ≤ max_grpc_message_size) ms
    → length (frames ms) ≤ k
    → drain k (frames ms) ≡ ([], ok ms)
unfolding drain round prepend
drain-frames zero [] h fuel = refl
drain-frames zero (m ∷ ms) h fuel =
    unfold frame_message in absurd (omega (arith, length-append (frame_message m) (frames ms)))
drain-frames (suc k) [] h fuel = refl
drain-frames (suc k) (m ∷ ms) (small, h) fuel =
    let shorter : length (frames ms) ≤ k =
      unfold frame_message in omega (arith, length-append (frame_message m) (frames ms)) in
    drain-suc k (frame_message m ++ frames ms)
    ∙ ap (next k (frame_message m ++ frames ms)) (round-frame_message m (frames ms) small)
    ∙ ap (prepend m) (drain-frames k ms h shorter)

-- The messages that `writeMessage` writes are those that `feed` returns, in order, if none is longer
-- than the cap.
pub feed_all-write_messages :
    (ms : List Bytes)
    → All (λ m. length m ≤ max_grpc_message_size) ms
    → (feed_all [] (write_messages ms)).1 ≡ ok ms
unfolding feed
feed_all-write_messages ms h =
    feed_all-concat (write_messages ms)
    ∙ ap (λ x. (drain (length x) x).1) (concat-write_messages ms)
    ∙ ap (λ (x : Bytes × Result (List Bytes)). x.1)
        (drain-frames (length (frames ms)) ms h (omega arith))
