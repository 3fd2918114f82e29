-- ===== src/Base/Words.antt =====
-- Machine words of a release build (Cargo.toml sets no overflow checks): `+`, `-` and `*` wrap,
-- the `saturating_` and `checked_` methods do not.
use Prim.Native.Nat.{ℕ, ◌+◌, ◌-◌, ◌*◌, ◌%◌, ◌^◌, ◌≤◌, ◌<◌, min}
use mathlib.Core.Path.{◌≡◌}
use mathlib.Core.Option.{Option, none, some}
use native.Mathlib.Nat.{mod-eq_of_lt}
use native.Mathlib.Omega.{arith}
use inazuma_core.Base.Tests.{ltb, if◌then◌else◌}

abbrev pub u64_mod : ℕ
u64_mod = 2 ^ 64

abbrev pub u128_mod : ℕ
u128_mod = 2 ^ 128

unfoldable pub u64_add : ℕ → ℕ → ℕ
u64_add a b = (a + b) % u64_mod

unfoldable pub u128_add : ℕ → ℕ → ℕ
u128_add a b = (a + b) % u128_mod

unfoldable pub u128_sub : ℕ → ℕ → ℕ
u128_sub a b = (a + (u128_mod - b)) % u128_mod

unfoldable pub u128_mul : ℕ → ℕ → ℕ
u128_mul a b = a * b % u128_mod

unfoldable pub u128_saturating_add : ℕ → ℕ → ℕ
u128_saturating_add a b = min (a + b) (u128_mod - 1)

unfoldable pub u128_saturating_mul : ℕ → ℕ → ℕ
u128_saturating_mul a b = min (a * b) (u128_mod - 1)

unfoldable pub u128_checked_add : ℕ → ℕ → Option ℕ
u128_checked_add a b = if ltb (a + b) u128_mod then some (a + b) else none

unfoldable pub u64_saturating_add : ℕ → ℕ → ℕ
u64_saturating_add a b = min (a + b) (u64_mod - 1)

-- Where nothing overflows the words agree with the numbers.
pub u64_add-eq : (a b : ℕ) → a + b < u64_mod → u64_add a b ≡ a + b
unfolding u64_add
u64_add-eq a b h = mod-eq_of_lt h

pub u128_add-eq : (a b : ℕ) → a + b < u128_mod → u128_add a b ≡ a + b
unfolding u128_add
u128_add-eq a b h = mod-eq_of_lt h

pub u128_sub-eq : (a b : ℕ) → b ≤ a → a < u128_mod → u128_sub a b ≡ a - b
unfolding u128_sub
u128_sub-eq a b h k = omega arith

pub u128_mul-eq : (a b : ℕ) → a * b < u128_mod → u128_mul a b ≡ a * b
unfolding u128_mul
u128_mul-eq a b h = mod-eq_of_lt h

pub u128_add-lt : (a b : ℕ) → u128_add a b < u128_mod
unfolding u128_add
u128_add-lt a b = omega arith

pub u128_sub-lt : (a b : ℕ) → u128_sub a b < u128_mod
unfolding u128_sub
u128_sub-lt a b = omega arith
