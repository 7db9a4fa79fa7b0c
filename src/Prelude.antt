-- ===== src/Prelude.antt =====
-- The names that every module shares: the libraries' names, passed on, and the helpers of the
-- children: Boolean tests, lists over native numbers, integers and comparison functions.
mod Tests
mod Lists
mod Int
mod Compare
mod Sort
mod Sets
mod Maps
mod Once
pub use Tests.*
pub use Lists.*
pub use Int.*
pub use Compare.*
pub use Sets.*
pub use Maps.*
pub use Once.*
unfoldable pub use Sort.*
pub use Prim.Native.Nat.{
  ℕ, zero, suc, ◌+◌, ◌-◌, ◌*◌, ◌≤◌, ◌<◌, ◌^◌, ◌/◌, ◌%◌, compare, Ordering, min,
}
pub use Prim.Native.String.{String, ◌++◌ as str_append, compare as compare_text}
pub use text.Mathlib.Text.{◌==◌}
pub use text.Mathlib.TextEquality.{eq_iff}
pub use text.Mathlib.TextPositions.{eq_refl}
pub use mathlib.Core.Path.{◌≡◌, refl, sym, ap, subst, ◌∙◌}
pub use mathlib.Core.Logic.{◌≢◌, ◌↔◌, ◌⊎◌, inl, inr}
pub use mathlib.Core.Bool.{Bool, true, false, not, ◌&&◌, ◌||◌}
pub use mathlib.Core.Option.{Option, none, some}
pub use mathlib.Core.List.{List, [], ◌∷◌, ◌++◌, map}
pub use native.Mathlib.Omega.{arith}
