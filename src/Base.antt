-- ===== src/Base.antt =====
-- The names that every other module shares: the libraries', passed on, and those of the children
-- (Boolean tests, lists, texts, sets of keys, sorting by a key).
mod Tests
mod Lists
mod Texts
mod Keys
pub mod Sorting
pub mod TextOrder
pub mod Replay
mod Integers
pub use Tests.*
pub use Integers.*
unfoldable pub use Lists.*
unfoldable pub use Texts.{text_eq}
unfoldable pub use Keys.{member, delete}
pub use Texts.{
  Text, codes, is_empty, non_empty, has_prefix, has_prefix-append, has_prefix-split, default_to,
  cons_path, join_with,
}
pub use Prim.Native.Nat.{ℕ, zero, suc, ◌+◌, ◌-◌, ◌*◌, ◌/◌, ◌%◌, ◌≤◌, ◌<◌, min, max}
pub use mathlib.Core.Path.{◌≡◌, refl, sym, ap, subst, ◌∙◌}
pub use mathlib.Core.Logic.{◌≢◌, ◌↔◌, ◌⊎◌, inl, inr, ite, dite, if_pos, if_neg}
pub use mathlib.Core.Bool.{Bool, true, false, not, ◌&&◌, ◌||◌}
pub use mathlib.Core.Option.{Option, none, some}
pub use mathlib.Core.List.{List, [], ◌∷◌, ◌++◌, map, append-nil, append_assoc}
pub use native.Mathlib.Omega.{arith}
unfoldable pub use native.Mathlib.Decide.{dec_lt, dec_le, ℕ_discrete}
