-- ===== src/Base.antt =====
-- What the models share: library names passed on, tests on numbers, Go strings as byte lists,
-- maps with unique keys, and sorting.
mod Tests
mod Lists
mod Interfaces
mod Texts
mod Maps
pub mod Sorting
mod Integers
mod Runtime
unfoldable pub use Tests.*
unfoldable pub use Lists.*
pub use Interfaces.*
unfoldable pub use Texts.*
unfoldable pub use Maps.*
unfoldable pub use Sorting.*
pub use Integers.*
pub use Runtime.*
pub use Prim.Native.Nat.{ℕ, zero, suc, ◌+◌, ◌-◌, ◌*◌, ◌/◌, ◌%◌, ◌^◌, ◌≤◌, ◌<◌, max}
pub use Prim.Native.String.{String}
pub use mathlib.Core.Path.{◌≡◌, refl, sym, ap, ◌∙◌, subst}
pub use mathlib.Core.Logic.{◌≢◌, ◌↔◌, ◌⊎◌, inl, inr}
pub use mathlib.Core.Bool.{Bool, true, false, not, ◌&&◌, ◌||◌}
pub use mathlib.Core.Option.{Option, none, some}
pub use mathlib.Core.List.{List, [], ◌∷◌, ◌++◌, map, Mem, Perm}
pub use native.Mathlib.Omega.{arith}

-- To run a model in a test: what it calls of this module.
unfoldable pub executable : Unit {0}
unfolding text_eqb text_ltb lookup insert delete sort_stable has_prefix has_suffix
executable = tt
