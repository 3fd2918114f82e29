-- ===== src/Base.antt =====
-- Names that every module shares: the library's, passed on, and those of the children. They stand
-- for parts of Rust's language and standard library that the source uses.
mod Tests
mod Lists
mod Words
mod Maps
mod Sums
mod Entries
pub use Tests.*
pub use Lists.*
unfoldable pub use Words.*
unfoldable pub use Maps.*
pub use Sums.*
pub use Entries.*
pub use Prim.Native.Nat.{ℕ, zero, suc, ◌+◌, ◌-◌, ◌*◌, ◌/◌, ◌%◌, ◌^◌, ◌≤◌, ◌<◌, min, max}
pub use mathlib.Core.Path.{◌≡◌, refl, sym, ap, ◌∙◌}
pub use mathlib.Core.Logic.{◌≢◌, ◌↔◌, ◌⊎◌, inl, inr}
pub use mathlib.Core.Bool.{Bool, true, false, not, ◌&&◌, ◌||◌}
pub use mathlib.Core.Option.{Option, none, some}
pub use mathlib.Core.List.{List, [], ◌∷◌, ◌++◌, map, append_assoc, append-nil}
pub use native.Mathlib.Omega.{arith}
unfoldable pub use native.Mathlib.Decide.{dec_lt, dec_le}
