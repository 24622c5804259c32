-- ===== src/Transport/Reassembly/Buffers.antt =====
-- The loop of `feed`, go/adapters/grpctransport/demux.go, on a longer buffer.
use poly_xrr.Common.{
  ℕ, zero, suc, ◌≤◌, ◌<◌, Bytes, false, Bool-cases, ltb, List, [], ◌∷◌, ◌++◌, length, length-append,
  if_both, take, drop, ◌≡◌, refl, sym, ap, ◌∙◌, subst, inl, inr, arith,
}
use poly_xrr.Errors.{message_too_large, Result, ok, err}
use poly_xrr.Transport.Reassembly.{
  max_grpc_message_size, big_endian, Round, wait, too_large, message, of_length, round, prepend,
  prepend_all, drain,
}

pub length-drop : (n : ℕ) (s : Bytes) → length (drop n s) ≤ length s
length-drop zero s = omega arith
length-drop (suc n) [] = omega arith
length-drop (suc n) (c ∷ s) = omega (arith, length-drop n s)

take-append : (n : ℕ) (s t : Bytes) → n ≤ length s → take n (s ++ t) ≡ take n s
take-append zero s t h = refl
take-append (suc n) [] t h = absurd (omega arith)
take-append (suc n) (c ∷ s) t h = ap (λ x. c ∷ x) (take-append n s t (omega arith))

drop-append : (n : ℕ) (s t : Bytes) → n ≤ length s → drop n (s ++ t) ≡ drop n s ++ t
drop-append zero s t h = refl
drop-append (suc n) [] t h = absurd (omega arith)
drop-append (suc n) (c ∷ s) t h = drop-append n s t (omega arith)

-- What is found does not change when more bytes follow, unless there were too few.
abbrev extend : Bytes → Bytes → Round → Round
extend s t wait = round (s ++ t)
extend s t (too_large n) = too_large n
extend s t (message m rest) = message m (rest ++ t)

abbrev Shorter : ℕ → Round → Type 0
Shorter n (message m rest) = length rest < n
Shorter n _ = Unit

of_length-extend :
    (n : ℕ) (s t : Bytes)
    → of_length n (s ++ t) ≡ elim (of_length n s) [
      | wait ↦ of_length n (s ++ t)
      | too_large k ↦ too_large k
      | message m rest ↦ message m (rest ++ t)
    ]
unfolding of_length
of_length-extend n s t = elim (Bool-cases (ltb max_grpc_message_size n)) [
  | inl big ↦ simp big
  | inr small ↦ elim (Bool-cases (ltb (length s) n)) [
    | inl few ↦ simp (small, few)
    | inr enough ↦
        let within : n ≤ length s = ground arith in
        let longer : ltb (length (s ++ t)) n ≡ false = ground (arith, length-append s t) in
        simp (small, enough, longer, take-append n s t within, drop-append n s t within)
  ]
]

of_length-Shorter : (n k : ℕ) (s : Bytes) → length s < k → Shorter k (of_length n s)
unfolding of_length
of_length-Shorter n k s h =
    if_both (Shorter k) (ltb max_grpc_message_size n) tt
      (if_both (Shorter k) (ltb (length s) n) tt (omega (arith, length-drop n s)))

round-extend : (s t : Bytes) → round (s ++ t) ≡ extend s t (round s)
unfolding round
round-extend [] t = refl
round-extend (x ∷ []) t = refl
round-extend (x ∷ a ∷ []) t = refl
round-extend (x ∷ a ∷ b ∷ []) t = refl
round-extend (x ∷ a ∷ b ∷ c ∷ []) t = refl
round-extend (x ∷ a ∷ b ∷ c ∷ d ∷ rest) t = of_length-extend (big_endian a b c d) rest t

round-Shorter : (s : Bytes) → Shorter (length s) (round s)
unfolding round
round-Shorter [] = tt
round-Shorter (x ∷ []) = tt
round-Shorter (x ∷ a ∷ []) = tt
round-Shorter (x ∷ a ∷ b ∷ []) = tt
round-Shorter (x ∷ a ∷ b ∷ c ∷ []) = tt
round-Shorter (x ∷ a ∷ b ∷ c ∷ d ∷ rest) =
    of_length-Shorter (big_endian a b c d) _ rest (omega arith)

-- The rounds behind one.
abbrev pub next : ℕ → Bytes → Round → Bytes × Result (List Bytes)
next k s wait = (s, ok [])
next k s (too_large n) = (s, err (message_too_large n))
next k s (message m rest) = prepend m (drain k rest)

pub drain-suc : (k : ℕ) (s : Bytes) → drain (suc k) s ≡ next k s (round s)
unfolding drain
drain-suc k s = refl

next-enough :
    (k j : ℕ) (s : Bytes) (x : Round)
    → ((rest : Bytes) → length rest ≤ k → length rest ≤ j → drain k rest ≡ drain j rest)
    → length s ≤ suc k
    → length s ≤ suc j
    → Shorter (length s) x
    → next k s x ≡ next j s x
next-enough k j s wait ih hk hj h = refl
next-enough k j s (too_large n) ih hk hj h = refl
next-enough k j s (message m rest) ih hk hj h = ap (prepend m) (ih rest (omega arith) (omega arith))

-- Any fuel from the buffer's length on gives the same result.
drain_enough : (k j : ℕ) (s : Bytes) → length s ≤ k → length s ≤ j → drain k s ≡ drain j s
unfolding drain round
drain_enough zero zero s hk hj = refl
drain_enough zero (suc j) [] hk hj = refl
drain_enough zero (suc j) (c ∷ s) hk hj = absurd (omega arith)
drain_enough (suc k) zero [] hk hj = refl
drain_enough (suc k) zero (c ∷ s) hk hj = absurd (omega arith)
drain_enough (suc k) (suc j) s hk hj =
    drain-suc k s
    ∙ next-enough k j s (round s) (drain_enough k j) hk hj (round-Shorter s)
    ∙ sym (drain-suc j s)

-- More bytes after a run of the loop.
abbrev pub carry_on : Bytes → Bytes × Result (List Bytes) → Bytes × Result (List Bytes)
carry_on t (buf, ok ms) = prepend_all ms (drain (length (buf ++ t)) (buf ++ t))
carry_on t (buf, err e) = (buf ++ t, err e)

carry_on-prepend :
    (t m : Bytes) (r : Bytes × Result (List Bytes))
    → carry_on t (prepend m r) ≡ prepend m (carry_on t r)
unfolding prepend
carry_on-prepend t m (buf, ok ms) = refl
carry_on-prepend t m (buf, err e) = refl

next-append :
    (j k : ℕ) (s t : Bytes) (x : Round)
    → ((rest : Bytes)
        → length rest ≤ k
        → length (rest ++ t) ≤ j
        → drain j (rest ++ t) ≡ carry_on t (drain k rest))
    → length s ≤ suc k
    → length (s ++ t) ≤ suc j
    → Shorter (length s) x
    → next j (s ++ t) (extend s t x) ≡ carry_on t (next k s x)
next-append j k s t wait ih hk hj h =
    sym (drain-suc j (s ++ t)) ∙ drain_enough (suc j) (length (s ++ t)) (s ++ t) hj (omega arith)
next-append j k s t (too_large n) ih hk hj h = refl
next-append j k s t (message m rest) ih hk hj h =
    ap (prepend m) (ih rest (omega arith) (omega (arith, length-append s t, length-append rest t)))
    ∙ sym (carry_on-prepend t m (drain k rest))

-- The loop on a buffer with more bytes behind it goes on from where it stood.
pub drain-append :
    (k j : ℕ) (s t : Bytes)
    → length s ≤ k
    → length (s ++ t) ≤ j
    → drain j (s ++ t) ≡ carry_on t (drain k s)
drain-append zero j [] t hk hj = unfold drain in drain_enough j (length t) t hj (omega arith)
drain-append zero j (c ∷ s) t hk hj = absurd (omega arith)
drain-append (suc k) j s t hk hj =
    drain_enough j (suc j) (s ++ t) hj (omega arith)
    ∙ drain-suc j (s ++ t)
    ∙ ap (next j (s ++ t)) (round-extend s t)
    ∙ next-append j k s t (round s) (λ rest a b. drain-append k j rest t a b) hk (omega arith)
        (round-Shorter s)
    ∙ ap (carry_on t) (sym (drain-suc k s))

-- What the loop leaves in the buffer holds no whole message.
abbrev pub Settled : Bytes × Result (List Bytes) → Type 0
Settled (buf, ok ms) = drain (length buf) buf ≡ (buf, ok [])
Settled (buf, err e) = Unit

prepend-Settled : (m : Bytes) (r : Bytes × Result (List Bytes)) → Settled r → Settled (prepend m r)
unfolding prepend
prepend-Settled m (buf, ok ms) h = h
prepend-Settled m (buf, err e) h = h

next-Settled :
    (k : ℕ) (s : Bytes) (x : Round)
    → round s ≡ x
    → ((rest : Bytes) → length rest ≤ k → Settled (drain k rest))
    → length s ≤ suc k
    → Shorter (length s) x
    → Settled (next k s x)
next-Settled k s wait e ih hk h =
    drain_enough (length s) (suc k) s (omega arith) hk ∙ drain-suc k s ∙ ap (next k s) e
next-Settled k s (too_large n) e ih hk h = tt
next-Settled k s (message m rest) e ih hk h =
    prepend-Settled m (drain k rest) (ih rest (omega arith))

pub drain-Settled : (k : ℕ) (s : Bytes) → length s ≤ k → Settled (drain k s)
drain-Settled zero [] h = unfold drain in refl
drain-Settled zero (c ∷ s) h = absurd (omega arith)
drain-Settled (suc k) s h =
    subst Settled (sym (drain-suc k s))
      (next-Settled k s (round s) refl (drain-Settled k) h (round-Shorter s))
