-- ===== src/Base.antt =====
-- The names that every part of the development shares: the library's, passed on, and those of
-- the child modules (Boolean tests, lists over native numbers, `i64` values, byte strings and
-- comparison functions). No code of the repository is modelled here.
mod Tests
mod Lists
mod Order
mod Int
mod Text
mod Assoc
pub mod Sort
pub mod Any
pub use Tests.*
pub use Lists.*
pub use Order.*
pub use Int.*
unfoldable pub use Text.*
unfoldable pub use Assoc.*
pub use Prim.Native.Nat.{ℕ, zero, suc, ◌+◌, ◌-◌, ◌*◌, ◌/◌, ◌%◌, ◌^◌, ◌≤◌, ◌<◌, min, max}
pub use Prim.Native.Nat.{compare, Ordering}
pub use mathlib.Core.Path.{◌≡◌, refl, sym, ap, ◌∙◌, subst}
pub use mathlib.Core.Logic.{◌≢◌, ◌↔◌, ◌⊎◌, inl, inr}
pub use mathlib.Core.Bool.{Bool, true, false, ◌&&◌, ◌||◌, not}
pub use mathlib.Core.Option.{Option, none, some}
pub use mathlib.Core.List.{List, [], ◌∷◌, ◌++◌, map, append-nil, append_assoc}
pub use native.Mathlib.Omega.{arith}
