-- ===== src/Common.antt =====
-- The names that every component shares: the libraries', passed on, and those of the modules below.
mod Tests
mod Lists
mod Everywhere
mod Strings
mod Tables
mod Maps
mod Int
mod Split
mod Positions
pub use Tests.*
pub use Lists.*
pub use Tables.{all_below_sound}
unfoldable pub use Tables.{all_below}
pub use Positions.*
pub use Split.{split_at-append, split_at-none}
unfoldable pub use Split.{split_at}
pub use Int.*
pub use Maps.{Assoc, lookup-assign, lookup-remove}
unfoldable pub use Maps.{lookup, assign, remove}
pub use Everywhere.*
pub use Strings.{Text, codes, text_eq_refl, text_eq_sound, IsByte}
unfoldable pub use Strings.{text_eq}
pub use Prim.Native.Nat.{ℕ, zero, suc, ◌+◌, ◌-◌, ◌*◌, ◌/◌, ◌%◌, ◌^◌, ◌≤◌, ◌<◌, min}
pub use mathlib.Core.Path.{◌≡◌, refl, sym, ap, ◌∙◌}
pub use mathlib.Core.Logic.{◌≢◌, ◌↔◌, ◌⊎◌, inl, inr}
pub use mathlib.Core.Bool.{Bool, true, false, not, ◌&&◌, ◌||◌}
pub use mathlib.Core.Option.{Option, none, some}
pub use mathlib.Core.List.{List, [], ◌∷◌, ◌++◌, map, append-nil, append_assoc}
pub use native.Mathlib.Omega.{arith}
