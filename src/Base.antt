-- ===== src/Base.antt =====
-- What the modules share: the libraries' names, Boolean tests on the native numbers, lists
-- indexed by them, and the outcome of Go code that can fail or panic.
mod Tests
mod Lists
mod Failure
mod Table
mod Division
mod Strings
mod Copies
mod Outcomes
pub use Tests.*
pub use Lists.*
pub use Failure.*
pub use Table.*
pub use Division.*
pub use Strings.*
pub use Copies.*
pub use Outcomes.*
pub use Prim.Native.Nat.{
  ℕ, zero, suc, ◌+◌, ◌-◌, ◌*◌, ◌/◌, ◌%◌, ◌^◌, ◌≤◌, ◌<◌, min, max, bit_and, bit_or,
}
pub use mathlib.Core.Path.{◌≡◌, refl, sym, ap, ap₂, ◌∙◌, subst, ◌≡⟨◌⟩◌, ◌∎}
pub use mathlib.Core.Logic.{◌≢◌, ◌↔◌, ◌⊎◌, inl, inr}
pub use mathlib.Core.Bool.{Bool, true, false, not, ◌&&◌, ◌||◌}
pub use mathlib.Core.Option.{Option, none, some}
pub use mathlib.Core.List.{List, [], ◌∷◌, ◌++◌, map, append-nil, append_assoc}
pub use native.Mathlib.Omega.{arith}
