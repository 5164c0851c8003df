-- ===== src/Base.antt =====
-- The names that the modules share: the libraries', passed on, tests on numbers, texts as lists of
-- code points, and the association list that stands for a Go map.
mod Tests
mod Lists
mod Keys
mod Errors
pub mod Map
pub mod Slices
pub mod Integers
pub mod Texts
pub mod Sorting
pub mod Entries
pub use Tests.*
pub use Lists.*
pub use Keys.*
pub use Errors.*
pub use Prim.Native.Nat.{
  ℕ, zero, suc, ◌+◌, ◌-◌, ◌*◌, ◌/◌, ◌%◌, ◌^◌, ◌≤◌, ◌<◌, min, max, compare, Ordering,
}
pub use Prim.Native.String.{String}
pub use mathlib.Core.Path.{◌≡◌, refl, sym, ap, ◌∙◌, subst}
pub use mathlib.Core.Logic.{◌≢◌, ◌↔◌, ◌⊎◌, inl, inr}
pub use mathlib.Core.Bool.{Bool, true, false, not, ◌&&◌, ◌||◌}
pub use mathlib.Core.Option.{Option, none, some}
pub use mathlib.Core.List.{List, [], ◌∷◌, ◌++◌, map, append-nil, append_assoc}
unfoldable pub use mathlib.Core.List.{reverse, reverse_aux}
pub use native.Mathlib.Omega.{arith}
