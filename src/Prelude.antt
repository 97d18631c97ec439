-- ===== src/Prelude.antt =====
-- The names that the other modules share: the libraries', passed on, and those of the children.
mod Tests
mod Lists
mod Strings
mod Decimal
pub mod Trim
pub mod Table
pub mod Pattern
pub mod Int
pub mod Words
pub mod Double
pub mod OneOf
pub use Tests.*
pub use Lists.{
  length, get_elem?, take, drop, all, any, length-append, get_elem?-lt-length, get_elem?_of_lt,
  take-append, take_of_le, get_elem?-append, All, passes_under_at,
}
unfoldable pub use Lists.{passes_under}
pub use Strings.{
  Text, codes, text_eq_refl, text_eq_sound, text_eq_iff, truthy, is_digit, is_upper, is_alnum,
  has_no, cut_at,
}
pub use Decimal.{value_from-decimal, all-decimal}
unfoldable pub use Decimal.{decimal, decimal_from, value_from}
unfoldable pub use Strings.{text_eq}
pub use Prim.Native.Nat.{ℕ, zero, suc, ◌+◌, ◌-◌, ◌*◌, ◌/◌, ◌%◌, ◌≤◌, ◌<◌}
pub use mathlib.Core.Path.{◌≡◌, refl, sym, ap, subst, ◌∙◌}
pub use mathlib.Core.Logic.{◌≢◌, ◌↔◌, ◌⊎◌, inl, inr}
pub use mathlib.Core.Bool.{Bool, true, false, not, ◌&&◌, ◌||◌}
pub use mathlib.Core.Option.{Option, none, some}
pub use mathlib.Core.List.{List, [], ◌∷◌, ◌++◌, map, append-nil, append_assoc}
pub use native.Mathlib.Omega.{arith}
