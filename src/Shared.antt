-- ===== src/Shared.antt =====
-- The names that the other modules share: the libraries', passed on, and those of the children.
mod Tests
pub mod Lists
pub mod Int
pub mod Floats
pub mod Tenths
pub use Tests.{
  ltb, leb, ◌==◌, if◌then◌else◌, ltb→lt, leb→le, Bool-cases, Option-cases, same, maybe, if_elim,
  maybe_elim, if_true, if_false, maybe-some, same_refl,
}
unfoldable pub use Tests.{String-discrete}
pub use Lists.{
  length, get_elem?, take, length-append, length-map, All, All-append, All-imp, get_elem?_lt,
  Distinct, Selection, done, keep, skip,
}
pub use Int.{ℤ, pos, negsuc, pos_part, neg_part, sub_ℕ, pos_part-add, pos_part-quot, pos_part-min_ℕ}
unfoldable pub use Int.{◌+ℤ◌, quot, min_ℕ}
pub use Floats.{Float64, max_exact}
pub use Tenths.{tenths}
pub use Prim.Native.Nat.{ℕ, zero, suc, ◌+◌, ◌-◌, ◌*◌, ◌/◌, ◌≤◌, ◌<◌, min, max}
pub use Prim.Native.String.{String}
pub use mathlib.Core.Path.{◌≡◌, refl, sym, ap, ap₂, subst, ◌∙◌}
pub use mathlib.Core.Logic.{◌≢◌, ◌↔◌, ◌⊎◌, inl, inr}
pub use mathlib.Core.Bool.{Bool, true, false, not, ◌&&◌, ◌||◌}
pub use mathlib.Core.Option.{Option, none, some}
pub use mathlib.Core.List.{List, [], ◌∷◌, ◌++◌, map}
pub use native.Mathlib.Omega.{arith}
