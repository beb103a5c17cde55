-- ===== src/Prelude.antt =====
-- Names that every module shares: the libraries' names passed on, and those of the child modules.
mod Tests
mod Lists
mod Sets
mod Dict
mod Texts
mod Outcome
mod Integers
mod Counting
mod Sorting
pub use Tests.*
pub use Lists.*
unfoldable pub use Sets.*
unfoldable pub use Dict.*
unfoldable pub use Texts.*
pub use Outcome.*
pub use Integers.*
pub use Counting.*
pub use Sorting.*
pub use Prim.Native.Nat.{ℕ, zero, suc, ◌+◌, ◌-◌, ◌*◌, ◌/◌, ◌%◌, ◌^◌, ◌≤◌, ◌<◌, min, max}
pub use Prim.Native.String.{String}
pub use mathlib.Core.Path.{◌≡◌, refl, sym, ap, ◌∙◌}
pub use mathlib.Core.Logic.{◌≢◌, ◌↔◌, ◌⊎◌, inl, inr}
pub use mathlib.Core.Bool.{Bool, true, false, ◌&&◌, ◌||◌, not}
pub use mathlib.Core.Option.{Option, none, some}
pub use mathlib.Core.List.{List, [], ◌∷◌, ◌++◌, map}
pub use native.Mathlib.Omega.{arith}
pub use text.Mathlib.Text.{◌==◌ as str_eq}
pub use text.Mathlib.TextEquality.{eq_iff}
