-- ===== src/Prelude.antt =====
-- The names that the other modules share: the libraries', passed on, and those of the children.
mod Tests
mod Lists
pub mod Dict
pub mod Result
pub mod Int
pub mod KeySet
pub use Tests.{
  ltb, leb, ◌==◌, if◌then◌else◌, Bool-cases, Bool-not_true, Option-cases, Text, codes, text_eq,
  text_eq_refl, is_empty, is_some,
}
unfoldable pub use Tests.{Text-discrete}
pub use Lists.{
  length, take, drop, replicate, get_last?, All, length-append, length-retain-le, retain-snoc,
  All-retain, All-append, elem-append, elem-retain,
}
unfoldable pub use Lists.{retain, elem}
pub use Prim.Native.Nat.{ℕ, zero, suc, ◌+◌, ◌-◌, ◌*◌, ◌/◌, ◌%◌, ◌^◌, ◌≤◌, ◌<◌}
pub use mathlib.Core.Path.{◌≡◌, refl, sym, ap, ◌∙◌}
pub use mathlib.Core.Logic.{◌≢◌, ◌↔◌, ◌⊎◌, inl, inr}
pub use mathlib.Core.Bool.{Bool, true, false, not, ◌&&◌, ◌||◌}
pub use mathlib.Core.Option.{Option, none, some}
pub use mathlib.Core.List.{List, [], ◌∷◌, ◌++◌, map}
pub use native.Mathlib.Omega.{arith}
unfoldable pub use native.Mathlib.Decide.{dec_lt, dec_le, ℕ_discrete}
