-- ===== src/Base.antt =====
-- The names that the other modules share: the libraries' passed on, and those of the children:
-- Boolean tests, C integers, lists over the native numbers, and the calls to the operating system.
mod Tests
mod Int
mod Lists
mod Calls
mod Semaphore
pub use Tests.*
unfoldable pub use Int.*
unfoldable pub use Lists.*
pub use Calls.*
pub use Semaphore.*
pub use Prim.Native.Nat.{ℕ, zero, suc, ◌+◌, ◌-◌, ◌*◌, ◌/◌, ◌%◌, ◌^◌, ◌≤◌, ◌<◌}
pub use mathlib.Core.Path.{◌≡◌, refl, sym, ap, ◌∙◌}
pub use mathlib.Core.Logic.{◌≢◌, ◌↔◌, ◌⊎◌, inl, inr}
pub use mathlib.Core.Bool.{Bool, true, false, ◌&&◌, ◌||◌, not}
pub use mathlib.Core.Option.{Option, none, some}
pub use mathlib.Core.List.{List, [], ◌∷◌, ◌++◌, map}
pub use native.Mathlib.Omega.{arith}
