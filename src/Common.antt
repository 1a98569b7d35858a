-- ===== src/Common.antt =====
-- The names that the other modules share: the libraries', passed on, and those of the children.
mod Tests
mod Equality
mod Lists
pub mod Dict
pub mod Groups
pub mod Sort
pub mod Int
pub mod Strings
pub mod Decimal
pub use Tests.*
pub use Equality.{HasEquality, ◌==◌, ==_iff, ==-refl, Text, nat_eq, string_eq, text_eq, pair_eq}
unfoldable pub use Equality.{txt, text_beq}
pub use Equality.{text_beq_iff}
unfoldable pub use Lists.{select, all, any, count, elem, add_key, add_keys, from_keys}
pub use Lists.{
  length, take, is_empty, All, IsNodup, length-append, length-select, count-append, elem-append,
  elem-from_keys, from_keys-IsNodup, from_keys_of_nodup, from_keys_idem, from_keys-append_known,
  from_keys-append_again, is_empty-from_keys, IsNodup-iff_length, All-from_keys, All-select,
  select-passes, elem-select, elem-add_keys, elem-add_key,
}
pub use Prim.Native.Nat.{ℕ, zero, suc, ◌+◌, ◌-◌, ◌*◌, ◌/◌, ◌%◌, ◌≤◌, ◌<◌, min, max}
pub use Prim.Native.String.{String}
pub use mathlib.Core.Path.{◌≡◌, refl, sym, ap, subst, ◌∙◌}
pub use mathlib.Core.Logic.{◌≢◌, ◌↔◌, ◌⊎◌, inl, inr}
pub use mathlib.Core.Bool.{Bool, true, false, not, ◌&&◌, ◌||◌}
pub use mathlib.Core.Option.{Option, none, some}
pub use mathlib.Core.List.{List, [], ◌∷◌, ◌++◌, map}
pub use native.Mathlib.Omega.{arith}
