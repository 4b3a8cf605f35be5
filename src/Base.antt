-- ===== src/Base.antt =====
-- The names that the other modules share: those of the libraries, passed on, and those of the
-- children of this file.
mod Tests
mod Lists
mod Text
mod Dicts
mod Sort
mod Int
mod GoText
mod Cut
mod Outcome
pub use Tests.*
pub use Lists.*
pub use Outcome.*
unfoldable pub use Text.*
unfoldable pub use Dicts.*
unfoldable pub use Sort.*
unfoldable pub use Int.*
unfoldable pub use GoText.*
unfoldable pub use Cut.*
pub use Prim.Native.Nat.{ℕ, zero, suc, ◌+◌, ◌-◌, ◌*◌, ◌/◌, ◌%◌, ◌^◌, ◌≤◌, ◌<◌}
pub use Prim.Native.String.{String}
pub use mathlib.Core.Path.{◌≡◌, refl, sym, ap, ◌∙◌}
pub use mathlib.Core.Logic.{◌≢◌, ◌↔◌, ◌⊎◌, inl, inr}
pub use mathlib.Core.Bool.{Bool, true, false, not, ◌&&◌, ◌||◌}
pub use mathlib.Core.Option.{Option, none, some}
pub use mathlib.Core.List.{Perm, List, [], ◌∷◌, ◌++◌, map, foldl}
pub use native.Mathlib.Omega.{arith}
