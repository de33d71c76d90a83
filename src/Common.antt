-- ===== src/Common.antt =====
-- The names that the other modules share: the libraries', passed on, and those of the children.
mod Tests
mod Lists
mod Texts
mod Utf8
mod Sort
pub use Tests.*
pub use Lists.*
pub use Sort.{text_lt, All-of_sort_by, All-sort_by, any-sort_by, length-sort_by}
unfoldable pub use Sort.{sort_by}
pub use Texts.{Text, codes, text_eq_iff, text_eq_refl, is_empty, length-trim_right}
unfoldable pub use Utf8.{first_rune, runes_skip, runes, encode_rune, trim_space, path_base}
pub use Utf8.{strip_prefix, starts_with, All-trim_space}
unfoldable pub use Texts.{text_eq, trim_left, trim_right}
pub use Prim.Native.Nat.{ℕ, zero, suc, ◌+◌, ◌-◌, ◌*◌, ◌/◌, ◌%◌, ◌≤◌, ◌<◌, min, max}
pub use Prim.Native.String.{String}
pub use mathlib.Core.Path.{◌≡◌, refl, sym, ap, ◌∙◌, subst}
pub use mathlib.Core.Logic.{◌≢◌, ◌↔◌, ◌⊎◌, inl, inr}
pub use mathlib.Core.Bool.{Bool, true, false, not, ◌&&◌, ◌||◌}
pub use mathlib.Core.Option.{Option, none, some}
pub use mathlib.Core.List.{List, [], ◌∷◌, ◌++◌, map, append-nil, append_assoc}
pub use native.Mathlib.Omega.{arith}
