-- ===== src/Platform/Pairs.antt =====
-- A pairing of numbers with its two projections, for the concrete platform of the tests.
use inazuma_core.Base.{ℕ, zero, suc, ◌+◌, ◌≡◌, refl, ◌∙◌, ap, arith}
use native.Mathlib.Nat.{add-suc, add-zero}

abbrev next_pair : ℕ × ℕ → ℕ × ℕ
next_pair (a, zero) = (0, suc a)
next_pair (a, suc b) = (suc a, b)

unpair : ℕ → ℕ × ℕ
unpair zero = (0, 0)
unpair (suc n) = next_pair (unpair n)

triangle : ℕ → ℕ
triangle zero = 0
triangle (suc n) = suc (triangle n + n)

unfoldable pub pair : ℕ → ℕ → ℕ
unfolding triangle
pair a b = triangle (a + b) + a

unfoldable pub left_of : ℕ → ℕ
unfolding unpair
left_of n = (unpair n).0

unfoldable pub right_of : ℕ → ℕ
unfolding unpair
right_of n = (unpair n).1

-- Along one diagonal the pairs follow one another.
unpair_walk : (t s a b : ℕ) → unpair t ≡ (0, s) → a + b ≡ s → unpair (t + a) ≡ (a, b)
unfolding unpair
unpair_walk t s zero b h e = rw add-zero (h ∙ ap (λ n. (0, n)) (omega arith))
unpair_walk t s (suc a) b h e = rw (add-suc, unpair_walk t s a (suc b) h (omega arith))

unpair_start : (s : ℕ) → unpair (triangle s) ≡ (0, s)
unfolding unpair triangle
unpair_start zero = refl
unpair_start (suc s) = rw (unpair_walk (triangle s) s s 0 (unpair_start s) (omega arith))

unpair-pair : (a b : ℕ) → unpair (pair a b) ≡ (a, b)
unfolding pair
unpair-pair a b = unpair_walk (triangle (a + b)) (a + b) a b (unpair_start (a + b)) refl

pub left_of-pair : (a b : ℕ) → left_of (pair a b) ≡ a
unfolding left_of
left_of-pair a b = ap (λ p. p.0) (unpair-pair a b)

pub right_of-pair : (a b : ℕ) → right_of (pair a b) ≡ b
unfolding right_of
right_of-pair a b = ap (λ p. p.1) (unpair-pair a b)
