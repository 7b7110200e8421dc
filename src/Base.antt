-- ===== src/Base.antt =====
-- The names that the other modules share: the libraries', passed on, and those of the children.
mod Tests
mod Lists
mod Maps
mod Sets
mod Strings
mod Separators
mod Decimal
mod Trimming
mod Splitting
mod Duplicates
pub use Tests.*
pub use Lists.*
unfoldable pub use Maps.*
unfoldable pub use Sets.*
unfoldable pub use Strings.*
unfoldable pub use Separators.*
unfoldable pub use Decimal.*
unfoldable pub use Trimming.*
unfoldable pub use Splitting.*
pub use Duplicates.*
pub use Prim.Native.Nat.{ℕ, zero, suc, ◌+◌, ◌-◌, ◌*◌, ◌/◌, ◌%◌, ◌≤◌, ◌<◌, min, max}
pub use Prim.Native.String.{String}
pub use mathlib.Core.Path.{◌≡◌, refl, sym, ap, ap₂, subst, ◌∙◌, fun_ext}
pub use mathlib.Core.Logic.{◌≢◌, ◌↔◌, ◌⊎◌, inl, inr}
pub use mathlib.Core.Bool.{Bool, true, false, not, ◌&&◌, ◌||◌}
pub use mathlib.Core.Option.{Option, none, some}
pub use mathlib.Core.List.{List, [], ◌∷◌, ◌++◌, map, append_assoc, append-nil, map-append}
pub use native.Mathlib.Omega.{arith}

-- Lists without brackets and empty ends; and what a dictionary has at the key just assigned.
pub ruleset list_laws = (append-nil, append_assoc, map-append)

pub ruleset lookup_laws = (get?-insert, beq_refl)
