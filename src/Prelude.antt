-- ===== src/Prelude.antt =====
-- What the other modules share: the library's names, passed on, and those of the children
-- (Boolean tests and equality, lists, byte strings and their order).
pub mod Tests
pub mod Lists
pub mod Order
pub use Tests.*
pub use Lists.*
pub use Order.*
pub use Prim.Native.Nat.{
  ℕ, zero, suc, ◌+◌, ◌-◌, ◌*◌, ◌/◌, ◌%◌, ◌^◌, ◌≤◌, ◌<◌, min, compare, Ordering,
}
pub use mathlib.Core.Path.{◌≡◌, refl, sym, ap, ◌∙◌, subst}
pub use mathlib.Core.Logic.{◌≢◌, ◌↔◌, ◌⊎◌, inl, inr}
pub use mathlib.Core.Bool.{Bool, true, false, not, ◌&&◌, ◌||◌}
pub use mathlib.Core.Option.{Option, none, some}
pub use mathlib.Core.List.{List, [], ◌∷◌, ◌++◌, map, append_assoc, append-nil}
pub use native.Mathlib.Omega.{arith}
pub use native.Mathlib.Nat.{zero-add, add-zero, suc-add, add_assoc, add_comm}
pub use native.Mathlib.Numerals.{add-one}
unfoldable pub use native.Mathlib.Decide.{dec_lt, dec_le, ℕ_discrete}
