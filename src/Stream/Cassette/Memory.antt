-- ===== src/Stream/Cassette/Memory.antt =====
-- A cassette that keeps its pairs in memory: it shows that the interface can be met. It models no
-- code of the repository.
use poly_xrr.Common.{
  Bytes, Option, none, some, List, ◌∷◌, ◌++◌, ◌≡◌, refl, sym, ap, ◌∙◌, bytes_eq_refl, if◌then◌else◌,
}
use poly_xrr.Common.Maps.{lookup, insert, lookup-insert}
use poly_xrr.Errors.{cassette_miss, Result, ok, err}
use poly_xrr.Stream.Model.{StreamPair}
use poly_xrr.Stream.Cassette.{StreamCassette, SameStream, HasBytes}

abbrev key : Bytes → Bytes → Bytes
key id fp = id ++ (0 ∷ fp)

abbrev found : Option StreamPair → Result StreamPair
found none = err cassette_miss
found (some p) = ok p

abbrev save :
    List (Bytes × StreamPair)
    → Bytes
    → Bytes
    → StreamPair
    → List (Bytes × StreamPair) × Result (Unit {0})
save s id fp p = (insert (key id fp) p s, ok tt)

pub load-save_memory :
    (s s' : List (Bytes × StreamPair)) (id fp : Bytes) (p : StreamPair)
    → HasBytes p
    → save s id fp p ≡ (s', ok tt)
    → (q : StreamPair) × (found (lookup (key id fp) s') ≡ ok q) × SameStream p q
load-save_memory s s' id fp p bytes h =
    let stored : lookup (key id fp) s' ≡ some p =
      ap (lookup (key id fp))
        (sym (ap (λ (x : List (Bytes × StreamPair) × Result (Unit {0})). x.0) h))
      ∙ lookup-insert (key id fp) (key id fp) p s
      ∙ ap (λ b. if b then some p else lookup (key id fp) s) (bytes_eq_refl (key id fp)) in
    (
      p,
      ap found stored,
      record {
        same_type = refl;
        same_sends = refl;
        same_recvs = refl;
        same_half_close = refl;
        same_end = refl;
        same_error = refl;
      },
    )

abbrev pub memory : StreamCassette (List (Bytes × StreamPair))
memory = record {
  load_stream = λ s id fp. found (lookup (key id fp) s);
  save_stream = save;
  load-save = load-save_memory;
}
