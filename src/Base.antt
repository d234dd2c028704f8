-- ===== src/Base.antt =====
-- Shared by all modules: library names, text equality, dictionaries (Go maps) and list helpers.
mod Equality
mod Lists
pub mod Dict
pub mod Text
pub use Lists.*
pub use Equality.{Bool-cases, Option-cases, Sum-cases}
unfoldable pub use Equality.{string_discrete}
pub use Equality.{◌==◌, if◌then◌else◌}
pub use Prim.Native.Nat.{ℕ, zero, suc, ◌+◌, ◌*◌, ◌≤◌, ◌<◌}
pub use Prim.Native.String.{String, ◌++◌ as ◌<>◌}
pub use mathlib.Core.Path.{◌≡◌, refl, sym, ap, ap₂, ◌∙◌, subst}
pub use mathlib.Core.Logic.{◌≢◌, ◌↔◌, ◌⊎◌, inl, inr}
pub use mathlib.Core.Bool.{Bool, true, false, not, ◌&&◌, ◌||◌}
pub use mathlib.Core.Option.{Option, none, some}
pub use mathlib.Core.List.{List, [], ◌∷◌, ◌++◌, map}
pub use native.Mathlib.Omega.{arith}
