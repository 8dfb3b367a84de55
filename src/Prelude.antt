-- ===== src/Prelude.antt =====
-- The names that the other modules share: the libraries', passed on, and those of the children.
mod Tests
mod Lists
mod Words
pub mod Eq
mod Errors
mod Int
pub mod Map
pub mod Bytes
pub mod Slices
pub mod Powers
pub mod Sorted
pub use Tests.*
pub use Lists.*
pub use Errors.{Result, ok, err, Result-cases}
pub use Words.*
pub use Int.*
pub use Eq.{◌==◌, nat_eq, pair_eq, list_eq, pair_beq, list_beq, pair_beq_iff, list_beq_iff}
pub use Prim.Native.Nat.{ℕ, zero, suc, ◌+◌, ◌-◌, ◌*◌, ◌/◌, ◌%◌, ◌^◌, ◌≤◌, ◌<◌, min, max}
pub use mathlib.Core.Path.{◌≡◌, refl, sym, ap, ◌∙◌, subst, ap₂}
pub use mathlib.Core.Logic.{◌≢◌, ◌↔◌, ◌⊎◌, inl, inr}
pub use mathlib.Core.Bool.{Bool, true, false, not, ◌&&◌, ◌||◌}
pub use mathlib.Core.Option.{Option, none, some}
pub use mathlib.Core.List.{List, [], ◌∷◌, ◌++◌, map}
pub use native.Mathlib.Omega.{arith}
