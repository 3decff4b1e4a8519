-- ===== src/Common.antt =====
-- The names that the other modules share: the libraries', passed on, and those of the children.
mod Tests
mod Lists
mod Texts
mod Splits
mod LastPart
mod Results
mod Invariants
pub mod Int
pub mod Clock
pub use Int.{
  ℤ-cases, ℤ, pos, negsuc, pos_part, neg_part, ◌≤ℤ◌, ltb_ℤ, leb_ℤ, eqb_ℤ, wrap64, wrap64_small,
  int_laws, leb_ℤ→le, not-leb_ℤ,
}
unfoldable pub use Int.{◌+ℤ◌, ◌-ℤ◌}
pub use Clock.{Time, second, unix_epoch, before, add-seconds}
unfoldable pub use Clock.{seconds, add, unix, minus_days}
pub use Tests.*
pub use Lists.{length, get_elem?, length-append, All, lookup-without, lookup-insert}
unfoldable pub use Lists.{lookup, without, insert}
unfoldable pub use Texts.{
  starts_with, contains, split, strip_prefix, after_first, before_first, second_part,
}
unfoldable pub use LastPart.{last_part}
pub use LastPart.{last_part-joined}
pub use Splits.{Excludes, one, two, split_one, split_two, of_split_two}
pub use Texts.{◌<>◌, singleton-append, starts_with-append, starts_with-cancel, contains_middle}
pub use Results.*
pub use Invariants.*
pub use Prim.Native.Nat.{ℕ, zero, suc, ◌+◌, ◌-◌, ◌*◌, ◌/◌, ◌%◌, ◌^◌, ◌≤◌, ◌<◌}
pub use Prim.Native.String.{String}
pub use Prim.Native.Char.{Char, code}
pub use mathlib.Core.Path.{◌≡◌, refl, sym, ap, ◌∙◌, subst}
pub use mathlib.Core.Logic.{◌≢◌, ◌↔◌, ◌⊎◌, inl, inr}
pub use mathlib.Core.Bool.{Bool, true, false, not, ◌&&◌, ◌||◌}
pub use mathlib.Core.Option.{Option, none, some}
pub use mathlib.Core.List.{List, [], ◌∷◌, ◌++◌, map}
pub use native.Mathlib.Omega.{arith}
pub use text.Mathlib.Text.{◌==◌}
pub use text.Mathlib.TextEquality.{eq_iff}
pub use text.Mathlib.TextPositions.{eq_refl}
pub use text.Mathlib.TextLemmas.{append_assoc as text_append_assoc}
