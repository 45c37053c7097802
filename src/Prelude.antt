-- ===== src/Prelude.antt =====
-- Names shared by all modules: the libraries', passed on, and those of the children: Boolean
-- tests, lists measured by native numbers, text as code points, association lists, and results.
mod Tests
mod Lists
mod Texts
mod Dict
pub mod Exec
pub mod Options
mod Integers
pub use Tests.*
pub use Lists.*
pub use Texts.*
unfoldable pub use Texts.{Text-discrete}
unfoldable pub use Dict.{get, insert, remove}
pub use Dict.*
pub use Prim.Native.Nat.{ℕ, zero, suc, ◌+◌, ◌-◌, ◌*◌, ◌/◌, ◌%◌, ◌^◌, ◌≤◌, ◌<◌, min, max}
pub use mathlib.Core.Path.{◌≡◌, refl, sym, ap, ◌∙◌, subst}
pub use mathlib.Core.Logic.{◌≢◌, ◌↔◌, ◌⊎◌, inl, inr, ite, if_pos, if_neg}
pub use mathlib.Core.Bool.{Bool, true, false, ◌&&◌, ◌||◌, not}
pub use mathlib.Core.Option.{Option, none, some}
pub use mathlib.Core.List.{List, [], ◌∷◌, ◌++◌, map}
pub use native.Mathlib.Omega.{arith}
unfoldable pub use native.Mathlib.Decide.{dec_lt, dec_le, ℕ_discrete}
unfoldable pub use Integers.{as_i64, as_u64}
pub use Integers.*
