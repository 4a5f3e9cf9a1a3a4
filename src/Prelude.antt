-- ===== src/Prelude.antt =====
-- The names that the other modules share: the libraries', passed on, and those of the children.
mod Tests
mod Lists
mod Int
mod Keys
mod Outcomes
mod Maps
mod Ranges
mod Entries
pub use Tests.*
pub use Lists.*
pub use Int.*
pub use Keys.*
pub use Outcomes.*
pub use Maps.{
  All-put, All-get, elem, Unique, elem-append, Unique-append_one, get-put, get-delete, get-In,
}
unfoldable pub use Ranges.*
unfoldable pub use Maps.{get, put, delete}
pub use Entries.{
  has_key, Distinct, put-Distinct, delete-Distinct, get-none, get-visit, visit-Distinct,
}
pub use Prim.Native.Nat.{ℕ, zero, suc, ◌+◌, ◌-◌, ◌*◌, ◌/◌, ◌%◌, ◌^◌, ◌≤◌, ◌<◌}
pub use Prim.Native.String.{String}
pub use mathlib.Core.Path.{◌≡◌, refl, sym, ap, ap₂, ◌∙◌, subst, fun_ext}
pub use mathlib.Core.Logic.{◌≢◌, ◌↔◌, ◌⊎◌, inl, inr}
pub use mathlib.Core.Bool.{Bool, true, false, not, ◌&&◌, ◌||◌}
pub use mathlib.Core.Option.{Option, none, some}
pub use mathlib.Core.List.{List, [], ◌∷◌, ◌++◌, map, append-nil, append_assoc, Mem}
pub use native.Mathlib.Omega.{arith}
unfoldable pub use native.Mathlib.Decide.{ℕ_discrete}
unfoldable pub use Keys.{Bytes-discrete, ℤ-discrete}
