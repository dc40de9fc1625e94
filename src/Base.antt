-- ===== src/Base.antt =====
-- The names that the other modules share: the libraries', passed on, and those of two children;
-- texts, times, sorting and dictionaries are modules of their own.
mod Tests
mod Lists
pub mod Int
pub mod Text
pub mod Sort
pub mod Dict
pub mod Clock
pub mod Result
pub use Tests.*
pub use Lists.*
pub use Prim.Native.Nat.{ℕ, zero, suc, ◌+◌, ◌-◌, ◌*◌, ◌/◌, ◌%◌, ◌^◌, ◌≤◌, ◌<◌}
pub use mathlib.Core.Path.{◌≡◌, refl, sym, ap, ◌∙◌, subst}
pub use mathlib.Core.Logic.{◌≢◌, ◌↔◌, ◌⊎◌, inl, inr}
pub use mathlib.Core.Bool.{Bool, true, false, ◌&&◌, ◌||◌, not}
pub use mathlib.Core.Option.{Option, none, some}
pub use mathlib.Core.List.{List, [], ◌∷◌, ◌++◌, map, reverse, Mem, Perm, Nodup}
pub use native.Mathlib.Omega.{arith}
