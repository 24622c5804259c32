-- ===== src/Transport/Reassembly/Fragments.antt =====
-- How the bytes of a stream are cut into DATA frames does not matter to
-- go/adapters/grpctransport/demux.go.
use poly_xrr.Common.{
  Bytes, List, [], ◌∷◌, ◌++◌, append_assoc, append-nil, length, ◌≡◌, refl, sym, ap, ◌∙◌, arith,
}
use poly_xrr.Errors.{Result, ok, err, ◌>>=◌}
use poly_xrr.Transport.Reassembly.{prepend, prepend_all, drain, feed, feed_all}
use poly_xrr.Transport.Reassembly.Buffers.{carry_on, drain-append, Settled, drain-Settled}

abbrev pub concat : List Bytes → Bytes
concat [] = []
concat (b ∷ bs) = b ++ concat bs

abbrev later : List Bytes → Result (List Bytes) → Result (List Bytes)
later [] r = r
later (m ∷ ms) r = do rest ← later ms r; ok (m ∷ rest)

snd-prepend_all :
    (ms : List Bytes) (r : Bytes × Result (List Bytes)) → (prepend_all ms r).1 ≡ later ms r.1
unfolding prepend
snd-prepend_all [] r = refl
snd-prepend_all (m ∷ ms) r = ap (λ x. do rest ← x; ok (m ∷ rest)) (snd-prepend_all ms r)

-- What one frame leads to, from its result.
abbrev go_on : List Bytes → Bytes × Result (List Bytes) → Bytes × Result (List Bytes)
go_on bs (buf, err e) = (buf, err e)
go_on bs (buf, ok ms) = prepend_all ms (feed_all buf bs)

feed_case :
    (bs : List Bytes) (r : Bytes × Result (List Bytes))
    → (elim r.1 as (λ x. Bytes × Result (List Bytes)) [
      | err e ↦ (r.0, err e)
      | ok ms ↦ prepend_all ms (feed_all r.0 bs)
    ])
      ≡ go_on bs r
feed_case bs (buf, err e) = refl
feed_case bs (buf, ok ms) = refl

feed_all_cons : (buf b : Bytes) (bs : List Bytes) → feed_all buf (b ∷ bs) ≡ go_on bs (feed buf b)
unfolding feed_all
feed_all_cons buf b bs = feed_case bs (feed buf b)

go_on_lem :
    (bs : List Bytes) (r : Bytes × Result (List Bytes))
    → Settled r
    → ((buf : Bytes) → Settled (buf, ok []) → (feed_all buf bs).1 ≡ (feed buf (concat bs)).1)
    → (go_on bs r).1 ≡ (carry_on (concat bs) r).1
unfolding feed
go_on_lem bs (buf, err e) s ih = refl
go_on_lem bs (buf, ok ms) s ih =
    snd-prepend_all ms (feed_all buf bs) ∙ ap (later ms) (ih buf s) ∙ sym (snd-prepend_all ms _)

feed_all-Settled :
    (bs : List Bytes) (buf : Bytes)
    → Settled (buf, ok [])
    → (feed_all buf bs).1 ≡ (feed buf (concat bs)).1
unfolding feed
feed_all-Settled [] buf h =
    unfold feed_all in
    sym (
      ap (λ x. (drain (length x) x).1) (append-nil buf)
      ∙ ap (λ (x : Bytes × Result (List Bytes)). x.1) h)
feed_all-Settled (b ∷ bs) buf h =
    ap (λ (x : Bytes × Result (List Bytes)). x.1) (feed_all_cons buf b bs)
    ∙ go_on_lem bs (feed buf b) (drain-Settled _ (buf ++ b) (omega arith)) (feed_all-Settled bs)
    ∙ sym (
        ap (λ x. (drain (length x) x).1) (sym (append_assoc buf b (concat bs)))
        ∙ ap (λ (x : Bytes × Result (List Bytes)). x.1)
            (drain-append _ _ (buf ++ b) (concat bs) (omega arith) (omega arith)))

-- The messages that a new stream's decoder returns for a run of DATA frames, or its error, are those
-- of one frame with the same bytes: a message may be cut anywhere and a frame may hold several.
pub feed_all-concat : (bs : List Bytes) → (feed_all [] bs).1 ≡ (feed [] (concat bs)).1
feed_all-concat bs = feed_all-Settled bs [] (unfold drain in refl)
