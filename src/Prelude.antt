-- ===== src/Prelude.antt =====
-- The names that the other modules share: the libraries', passed on, and those of the children.
-- It models no file of its own. The children: `Tests` (Boolean tests), `Lists` (predicates on
-- lists), `Maps` (maps as lists of entries), `Keys` (their keys), `Int` (Go's int), `Text` (strings and formatted messages),
-- `Split` (trimming and splitting), `Paths`, `Results`.
pub mod Tests
pub mod Lists
pub mod Maps
pub mod Keys
pub mod Int
pub mod Text
pub mod Split
pub mod Paths
pub mod Results
pub use Tests.*
pub use Lists.*
unfoldable pub use Maps.{sort_entries, lookup, insert}
pub use Maps.*
pub use Keys.*
pub use Int.*
unfoldable pub use Text.{show}
pub use Text.*
unfoldable pub use Split.{trim_space, split_lines, split_blocks}
unfoldable pub use Paths.{split_path, clean_path, join_path, dir_path, base_path, rel_path}
pub use Paths.*
pub use Results.*
pub use Split.*
pub use Prim.Native.Nat.{ℕ, zero, suc, ◌+◌, ◌-◌, ◌*◌, ◌/◌, ◌%◌, ◌^◌, ◌≤◌, ◌<◌}
pub use Prim.Native.String.{String}
pub use mathlib.Core.Path.{◌≡◌, refl, sym, ap, ◌∙◌, subst}
pub use mathlib.Core.Logic.{◌≢◌, ◌↔◌, ◌⊎◌, inl, inr}
pub use mathlib.Core.Bool.{Bool, true, false, ◌&&◌, ◌||◌, not}
pub use mathlib.Core.Option.{Option, none, some}
pub use mathlib.Core.List.{List, [], ◌∷◌, ◌++◌, map, append_assoc, append-nil, Memᴰ}
pub use native.Mathlib.Omega.{arith}
pub use text.Mathlib.Text.{◌==◌ as str_eq, starts_with}
pub use text.Mathlib.TextEquality.{eq_iff}
pub use text.Mathlib.TextPositions.{eq_refl}
