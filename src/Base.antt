-- ===== src/Base.antt =====
-- What the other modules share: library names, Boolean tests, lists over the native numbers,
-- signed integers and text as lists of code points.
mod Tests
mod Lists
mod Int
mod Texts
mod Numerals
mod Splits
mod Paths
pub use Tests.*
pub use Lists.*
pub use Int.*
unfoldable pub use Numerals.{atoi, decimal}
pub use Numerals.{atoi-decimal}
unfoldable pub use Splits.{split_by, non_empty, fields, join_with}
unfoldable pub use Paths.{clean, join_paths}
pub use Splits.{split, onto, split_by-append}
pub use Texts.{Text, codes, text_eq_iff, Text-cases, behind}
unfoldable pub use Texts.{
  text_eq, has_prefix, trim_prefix, is_space, trim_left, trim_right, trim_space,
}
pub use Prim.Native.Nat.{ℕ, zero, suc, ◌+◌, ◌-◌, ◌*◌, ◌/◌, ◌%◌, ◌^◌, ◌≤◌, ◌<◌, min}
pub use Prim.Native.String.{String}
pub use mathlib.Core.Path.{◌≡◌, refl, sym, ap, subst, ◌∙◌, ◌≡⟨◌⟩◌, ◌∎}
pub use mathlib.Core.Logic.{◌≢◌, ◌↔◌, ◌⊎◌, inl, inr}
pub use mathlib.Core.Bool.{Bool, true, false, not, ◌&&◌, ◌||◌}
pub use mathlib.Core.Option.{Option, none, some}
pub use mathlib.Core.List.{List, [], ◌∷◌, ◌++◌, map, append-nil, append_assoc}
pub use native.Mathlib.Omega.{arith}
