-- ===== src/Common.antt =====
-- Names and helpers that the other modules share. No code of the repository is modelled here,
-- except that a Go string or byte slice is `Bytes` and a Go `int` that may be negative is `ℤ`.
mod Tests
mod Lists
mod Ints
mod Texts
pub mod Strings
pub mod Maps
pub mod Utf8
pub use Tests.*
pub use Lists.*
pub use Ints.*
pub use Texts.{Bytes, AreBytes, codes, bytes_eq_iff, bytes_eq_refl}
unfoldable pub use Texts.{bytes_eq}
pub use Prim.Native.Nat.{ℕ, zero, suc, ◌+◌, ◌-◌, ◌*◌, ◌/◌, ◌%◌, ◌^◌, ◌≤◌, ◌<◌}
pub use mathlib.Core.Path.{◌≡◌, refl, sym, ap, ap₂, ◌∙◌, subst}
pub use mathlib.Core.Logic.{◌≢◌, ◌↔◌, ◌⊎◌, inl, inr}
pub use mathlib.Core.Bool.{Bool, true, false, not, ◌&&◌, ◌||◌}
pub use mathlib.Core.Option.{Option, none, some}
pub use mathlib.Core.List.{List, [], ◌∷◌, ◌++◌, map, append-nil, append_assoc, map-append}
pub use native.Mathlib.Omega.{arith}
