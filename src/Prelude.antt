-- ===== src/Prelude.antt =====
-- Names that the other modules share: the libraries', passed on, Boolean tests on numbers, and
-- lists measured and indexed by native numbers.
mod Tests
mod Lists
mod Bags
pub use Tests.*
pub use Lists.*
pub use Bags.{SameWeight, Bag, bag, bag-eq, put-bag}
unfoldable pub use Bags.{put}
pub use Prim.Native.Nat.{ℕ, zero, suc, ◌+◌, ◌-◌, ◌*◌, ◌%◌, ◌^◌, ◌≤◌, ◌<◌}
pub use mathlib.Core.Path.{◌≡◌, refl, sym, ap, fun_ext, ◌∙◌}
pub use mathlib.Core.Logic.{◌≢◌, ◌↔◌, ◌⊎◌, inl, inr}
pub use mathlib.Core.Bool.{Bool, true, false, not, ◌&&◌, ◌||◌}
pub use mathlib.Core.Option.{Option, none, some}
pub use mathlib.Core.List.{List, [], ◌∷◌, ◌++◌, map, append-nil, append_assoc}
pub use native.Mathlib.Omega.{arith}
