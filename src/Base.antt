-- ===== src/Base.antt =====
-- The names that the other modules share: the libraries' names, passed on, and the helpers of the
-- child modules (Boolean tests, lists over native numbers, signed integers).
mod Tests
mod Lists
mod Integers
mod Text
unfoldable pub use Tests.{str_eq}
pub use Tests.{
  ltb, leb, ◌==◌, if◌then◌else◌, ltb→lt, lt→ltb, leb→le, le→leb, ==_iff, ==_refl, Bool-cases,
  Option-cases, str_eq_refl, str_eq→eq,
}
pub use Lists.*
pub use Integers.*
unfoldable pub use Text.{utf8, bytes}
pub use Prim.Native.Nat.{ℕ, zero, suc, ◌+◌, ◌-◌, ◌*◌, ◌/◌, ◌%◌, ◌^◌, ◌≤◌, ◌<◌, min, bit_and, bit_or}
pub use mathlib.Core.Path.{◌≡◌, refl, sym, ap, ◌∙◌, subst}
pub use mathlib.Core.Logic.{◌≢◌, ◌↔◌, ◌⊎◌, inl, inr}
pub use mathlib.Core.Bool.{Bool, true, false, not, ◌&&◌, ◌||◌}
pub use mathlib.Core.Option.{Option, none, some}
pub use mathlib.Core.List.{List, [], ◌∷◌, ◌++◌, append-nil, append_assoc}
pub use native.Mathlib.Omega.{arith}
