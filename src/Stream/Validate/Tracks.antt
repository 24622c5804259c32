-- ===== src/Stream/Validate/Tracks.antt =====
-- What the closures `add` and `addFrames` of `ValidateStreamPair` accept, and the state they keep.
use poly_xrr.Common.{
  ℕ, ◌+◌, ℤ, pos, negsuc, ltb_ℤ, leb_ℤ, eqb_ℤ, eqb_ℤ_iff, ◌≤ℤ◌, ◌<ℤ◌, false, Bool-cases, Option,
  none, some, List, [], ◌∷◌, ◌++◌, append-nil, append_assoc, All, All-append, All-append_left,
  All-append_right, All-map, Distinct, Distinct-snoc, Distinct-append_fresh, if◌then◌else◌, ◌≡◌,
  ◌≢◌, refl, sym, ap, subst, ◌∙◌, inl, inr, arith,
}
use poly_xrr.Errors.{Part, half_close_event, ok, >>=-eq-ok}
use poly_xrr.Stream.Model.{StreamFrame, StreamEvent, seqs}
use poly_xrr.Stream.Validate.{Seen, nothing_seen, has_seq, add, add_frames, add_half_close}
use poly_xrr.Stream.Validate.Spec.{AscendsFrom, half_close_seqs}

abbrev pub Fresh : List ℤ → ℤ → Type 0
Fresh ss s = All (λ y. y ≢ s) ss

has_seq-Fresh : (ss : List ℤ) (s : ℤ) → has_seq ss s ≡ false → Fresh ss s
unfolding has_seq
has_seq-Fresh [] s h = tt
has_seq-Fresh (y ∷ ss) s h =
    (λ e. grind (arith, (eqb_ℤ_iff y s).1 e), has_seq-Fresh ss s (ground arith))

Fresh-has_seq : (ss : List ℤ) (s : ℤ) → Fresh ss s → has_seq ss s ≡ false
unfolding has_seq
Fresh-has_seq [] s h = refl
Fresh-has_seq (y ∷ ss) s (ne, h) = elim (Bool-cases (eqb_ℤ y s)) [
  | inl e ↦ absurd (ne ((eqb_ℤ_iff y s).0 e))
  | inr e ↦ rw e (Fresh-has_seq ss s h)
]

-- The state after a successful `add`.
abbrev pushed : Seen → ℤ → Seen
pushed st s = record {
  seen = st.seen ++ s ∷ [];
  max_seq = if ltb_ℤ st.max_seq s then s else st.max_seq;
}

pub add_complete :
    (st : Seen) (s : ℤ) (what : Part)
    → pos 0 ≤ℤ s
    → Fresh st.seen s
    → add st s what ≡ ok (pushed st s)
unfolding add
add_complete st (pos n) what h fresh = rw (Fresh-has_seq st.seen (pos n) fresh) (ground arith)
add_complete st (negsuc n) what h fresh = absurd (omega arith)

pub add_sound :
    (st st' : Seen) (s : ℤ) (what : Part)
    → add st s what ≡ ok st'
    → (st' ≡ pushed st s) × (pos 0 ≤ℤ s) × Fresh st.seen s
unfolding add
add_sound st st' (pos n) what h = elim (Bool-cases (has_seq st.seen (pos n))) [
  | inl e ↦ absurd (ground arith)
  | inr e ↦ (ground arith, omega arith, has_seq-Fresh st.seen (pos n) e)
]
add_sound st st' (negsuc n) what h = absurd (ground arith)

-- The state of the closure: the seen positions are distinct and at least 0, and `max_seq` is the
-- least bound, or -1.
pub record Tracks (st : Seen) : Type 0 where
  pub distinct : Distinct st.seen
  pub nonnegative : All (λ s. pos 0 ≤ℤ s) st.seen
  pub bound : All (λ s. s ≤ℤ st.max_seq) st.seen
  pub least : (e : ℤ) → pos 0 ≤ℤ e → All (λ s. s <ℤ e) st.seen → st.max_seq <ℤ e

Tracks-pushed :
    (st : Seen) (s : ℤ) → Tracks st → pos 0 ≤ℤ s → Fresh st.seen s → Tracks (pushed st s)
Tracks-pushed st s t h fresh = record {
  distinct = Distinct-snoc st.seen s t.distinct fresh;
  nonnegative = All-append _ st.seen (s ∷ []) t.nonnegative (h, tt);
  bound =
      All-append _ st.seen (s ∷ []) (All-map _ _ (λ x le. grow x le) st.seen t.bound)
        (ground arith, tt);
  least = λ e pe below.
      above e (All-append_right (λ x. x <ℤ e) st.seen (s ∷ []) below).0
        (t.least e pe (All-append_left (λ x. x <ℤ e) st.seen (s ∷ []) below));
}
  where
    grow : (x : ℤ) → x ≤ℤ st.max_seq → x ≤ℤ (if ltb_ℤ st.max_seq s then s else st.max_seq)
    grow x le = ground arith

    above : (e : ℤ) → s <ℤ e → st.max_seq <ℤ e → (if ltb_ℤ st.max_seq s then s else st.max_seq) <ℤ e
    above e a b = ground arith

-- The state after a run of successful `add`s.
abbrev pub pushed_all : Seen → List ℤ → Seen
pushed_all st [] = st
pushed_all st (s ∷ ss) = pushed_all (pushed st s) ss

pub seen-pushed_all : (st : Seen) (ss : List ℤ) → (pushed_all st ss).seen ≡ st.seen ++ ss
seen-pushed_all st [] = sym (append-nil st.seen)
seen-pushed_all st (s ∷ ss) = seen-pushed_all (pushed st s) ss ∙ append_assoc st.seen (s ∷ []) ss

pub add_frames_sound :
    (side : ℕ → Part) (i : ℕ) (st st' : Seen) (prev : ℤ) (fs : List StreamFrame)
    → Tracks st
    → add_frames side i st prev fs ≡ ok st'
    → (st' ≡ pushed_all st (seqs fs)) × AscendsFrom prev (seqs fs) × Tracks st'
unfolding add_frames
add_frames_sound side i st st' prev [] t h =
    let e : st' ≡ st = cc in (e, tt, subst Tracks (sym e) t)
add_frames_sound side i st st' prev (f ∷ fs) t h =
    let (st₁, added, rest) = >>=-eq-ok (add st f.seq (side i)) _ h in
    let (e, pos_f, fresh) = add_sound st st₁ f.seq (side i) added in
    elim (Bool-cases (leb_ℤ f.seq prev)) [
      | inl low ↦ absurd (ground arith)
      | inr above ↦
          let t₁ = subst Tracks (sym e) (Tracks-pushed st f.seq t pos_f fresh) in
          let (e', up, t') = add_frames_sound side (i + 1) st₁ st' f.seq fs t₁ (ground arith) in
          (e' ∙ ap (λ x. pushed_all x (seqs fs)) e, (ground arith, up), t')
    ]

pub add_frames_complete :
    (side : ℕ → Part) (i : ℕ) (st : Seen) (prev : ℤ) (fs : List StreamFrame)
    → All (λ s. pos 0 ≤ℤ s) (seqs fs)
    → Distinct (st.seen ++ seqs fs)
    → AscendsFrom prev (seqs fs)
    → add_frames side i st prev fs ≡ ok (pushed_all st (seqs fs))
unfolding add_frames
add_frames_complete side i st prev [] n d up = refl
add_frames_complete side i st prev (f ∷ fs) (pf, n) d (above, up) =
    let fresh = Distinct-append_fresh st.seen f.seq (seqs fs) d in
    let d' : Distinct ((st.seen ++ f.seq ∷ []) ++ seqs fs) =
      rw (append_assoc st.seen (f.seq ∷ []) (seqs fs)) d in
    let ih = add_frames_complete side (i + 1) (pushed st f.seq) f.seq fs n d' up in
    rw (add_complete st f.seq (side i) pf fresh) (ground arith)

pub Tracks-pushed_all :
    (st : Seen) (ss : List ℤ)
    → Tracks st
    → All (λ s. pos 0 ≤ℤ s) ss
    → Distinct (st.seen ++ ss)
    → Tracks (pushed_all st ss)
Tracks-pushed_all st [] t n d = t
Tracks-pushed_all st (s ∷ ss) t (ps, n) d =
    Tracks-pushed_all (pushed st s) ss
      (Tracks-pushed st s t ps (Distinct-append_fresh st.seen s ss d)) n
      (rw (append_assoc st.seen (s ∷ []) ss) d)

pub add_half_close_sound :
    (st st' : Seen) (o : Option StreamEvent)
    → Tracks st
    → add_half_close st o ≡ ok st'
    → (st' ≡ pushed_all st (half_close_seqs o)) × Tracks st'
unfolding add_half_close
add_half_close_sound st st' none t h = let e : st' ≡ st = cc in (e, subst Tracks (sym e) t)
add_half_close_sound st st' (some ev) t h =
    let (e, pe, fresh) = add_sound st st' ev.seq half_close_event h in
    (e, subst Tracks (sym e) (Tracks-pushed st ev.seq t pe fresh))

pub add_half_close_complete :
    (st : Seen) (o : Option StreamEvent)
    → All (λ s. pos 0 ≤ℤ s) (half_close_seqs o)
    → Distinct (st.seen ++ half_close_seqs o)
    → add_half_close st o ≡ ok (pushed_all st (half_close_seqs o))
unfolding add_half_close
add_half_close_complete st none n d = refl
add_half_close_complete st (some ev) (pe, _) d =
    add_complete st ev.seq half_close_event pe (Distinct-append_fresh st.seen ev.seq [] d)

pub pushed_all-append :
    (st : Seen) (xs ys : List ℤ) → pushed_all st (xs ++ ys) ≡ pushed_all (pushed_all st xs) ys
pushed_all-append st [] ys = refl
pushed_all-append st (x ∷ xs) ys = pushed_all-append (pushed st x) xs ys

pub Tracks-nothing_seen : Tracks nothing_seen
Tracks-nothing_seen = record {
  distinct = tt;
  nonnegative = tt;
  bound = tt;
  least = λ e h _. omega arith;
}
