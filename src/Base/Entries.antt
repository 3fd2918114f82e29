-- ===== src/Base/Entries.antt =====
-- Sums over a map's entries, keys included.
use Prim.Native.Nat.{ℕ, ◌+◌, ◌≤◌, ◌<◌}
use mathlib.Core.Path.{◌≡◌}
use mathlib.Core.Option.{Option, none, some}
use mathlib.Core.List.{[], ◌∷◌}
use native.Mathlib.Omega.{arith}
use inazuma_core.Base.Maps.{Dict, lookup, insert, remove, IsAscending, lookup-Above, Above-weaken}

module _ {V : Type 0} (f : ℕ → V → ℕ) where
  abbrev pub sum_entries : Dict V → ℕ
  sum_entries [] = 0
  sum_entries ((j, w) ∷ d) = f j w + sum_entries d

  -- What a key weighs, absent or present.
  abbrev pub weight : ℕ → Option V → ℕ
  weight k none = 0
  weight k (some v) = f k v

  pub sum_entries-insert :
      (k : ℕ) (v : V) (d : Dict V)
      → IsAscending d
      → sum_entries (insert k v d) + weight k (lookup k d) ≡ sum_entries d + f k v
  unfolding lookup insert
  sum_entries-insert k v [] a = omega arith
  sum_entries-insert k v ((j, w) ∷ d) a = ground (
    arith,
    sum_entries-insert k v d a.1,
    λ (h : k < j). lookup-Above k d (Above-weaken k j d h a.0),
  )

  pub sum_entries-remove :
      (k : ℕ) (d : Dict V) → sum_entries (remove k d) + weight k (lookup k d) ≡ sum_entries d
  unfolding lookup remove
  sum_entries-remove k [] = omega arith
  sum_entries-remove k ((j, w) ∷ d) = ground (arith, sum_entries-remove k d)

  pub weight-le-sum_entries : (k : ℕ) (d : Dict V) → weight k (lookup k d) ≤ sum_entries d
  unfolding lookup
  weight-le-sum_entries k [] = omega arith
  weight-le-sum_entries k ((j, w) ∷ d) = ground (arith, weight-le-sum_entries k d)
