-- ===== src/Prelude.antt =====
-- The names that the other modules share: the libraries', passed on, and those of four children.
pub mod Tests
pub mod Lists
pub mod Int
pub mod Eq
pub use Tests.{ltb, leb, nat_beq, nat_beq_iff, if◌then◌else◌, Bool-cases, Option-cases}
pub use Lists.{length, length-append, length-map, length-keep, keep, any, All, All-append, All-keep}
pub use Int.{ℤ, pos, negsuc, pos_part, neg_part, sub_ℕ, ◌≤ℤ◌, ltb_ℤ, leb_ℤ, beq_ℤ, eq_of_parts}
pub use Eq.{HasEq, ◌==◌, nat_eq, string_eq, ==_refl, ==_iff, ==_ne}
pub use Prim.Native.Nat.{ℕ, zero, suc, ◌+◌, ◌-◌, ◌*◌, ◌/◌, ◌%◌, ◌≤◌, ◌<◌}
pub use Prim.Native.String.{String}
pub use mathlib.Core.Path.{◌≡◌, refl, sym, ap, ◌∙◌, subst}
pub use mathlib.Core.Logic.{◌≢◌, ◌↔◌, ◌⊎◌, inl, inr}
pub use mathlib.Core.Bool.{Bool, true, false, not, ◌&&◌, ◌||◌}
pub use mathlib.Core.Option.{Option, none, some}
pub use mathlib.Core.List.{List, [], ◌∷◌, ◌++◌, map}
pub use native.Mathlib.Omega.{arith}
