-- ===== src/Stream/Validate/Spec.antt =====
-- The validation rules that the comment of `ValidateStreamPair` lists, stated without the code.
use poly_xrr.Common.{
  ℤ, pos, negsuc, ◌≤ℤ◌, ◌<ℤ◌, Option, none, some, List, [], ◌∷◌, ◌++◌, All, Distinct,
}
use poly_xrr.Stream.Model.{StreamType, StreamEvent, StreamPair, seqs}
use poly_xrr.Stream.Model.StreamType.{other}

abbrev pub IsKnown : StreamType → Type 0
IsKnown (other t) = ⊥
IsKnown _ = Unit

-- Strictly ascending, and above `prev`.
abbrev pub AscendsFrom : ℤ → List ℤ → Type 0
AscendsFrom prev [] = Unit
AscendsFrom prev (s ∷ ss) = (prev <ℤ s) × AscendsFrom s ss

abbrev pub half_close_seqs : Option StreamEvent → List ℤ
half_close_seqs none = []
half_close_seqs (some e) = e.seq ∷ []

-- Every position of the pair but that of the terminal event.
abbrev pub body_seqs : StreamPair → List ℤ
body_seqs p = (seqs p.req.frames ++ seqs p.resp.frames) ++ half_close_seqs p.req.half_close

pub record IsValid (p : StreamPair) : Type 0 where
  pub known_type : IsKnown p.req.typ
  pub req_ascends : AscendsFrom (negsuc 0) (seqs p.req.frames)
  pub resp_ascends : AscendsFrom (negsuc 0) (seqs p.resp.frames)
  pub nonnegative : All (λ s. pos 0 ≤ℤ s) (body_seqs p)
  pub distinct : Distinct (body_seqs p)
  pub end_last : All (λ s. s <ℤ p.resp.end.seq) (body_seqs p)
  pub end_nonnegative : pos 0 ≤ℤ p.resp.end.seq
