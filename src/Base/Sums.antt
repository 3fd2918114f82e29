-- ===== src/Base/Sums.antt =====
-- Sums over a map by way of an index of its keys.
use Prim.Native.Nat.{ℕ, ◌+◌}
use mathlib.Core.Path.{◌≡◌, refl}
use mathlib.Core.Bool.{Bool}
use mathlib.Core.Option.{none}
use mathlib.Core.List.{[], ◌∷◌}
use native.Mathlib.Omega.{arith}
use inazuma_core.Base.Tests.{leb}
use inazuma_core.Base.Lists.{insert_by, sort_by}
use inazuma_core.Base.Maps.{
  Dict, lookup, remove, Above, IsAscending, sum_values, measure, lookup-remove, lookup-Above,
  remove-IsAscending,
}

abbrev pub key_le : {V : Type 0} → ℕ × V → ℕ × V → Bool
key_le x y = leb x.0 y.0

module _ {V : Type 0} where
  insert_by-Above :
      (k : ℕ) (v : V) (d : Dict V) → Above k d → insert_by key_le (k, v) d ≡ (k, v) ∷ d
  insert_by-Above k v [] a = refl
  insert_by-Above k v ((j, w) ∷ d) a = ground arith

  -- What is in key order already is left alone by a sort.
  pub sort_by_ascending : (d : Dict V) → IsAscending d → sort_by key_le d ≡ d
  sort_by_ascending [] a = refl
  sort_by_ascending ((k, v) ∷ d) a = rw (sort_by_ascending d a.1) (insert_by-Above k v d a.0)

module _ {V : Type 0} (f : V → ℕ) where
  -- The sum of the values at the keys of an index.
  abbrev pub sum_at : {U : Type 0} → Dict V → Dict U → ℕ
  sum_at d [] = 0
  sum_at d ((k, u) ∷ i) = measure f (lookup k d) + sum_at d i

  sum_values-remove :
      (k : ℕ) (d : Dict V) → sum_values f (remove k d) + measure f (lookup k d) ≡ sum_values f d
  unfolding lookup remove
  sum_values-remove k [] = omega arith
  sum_values-remove k ((j, w) ∷ d) = ground (arith, sum_values-remove k d)

  sum_values_zero :
      (d : Dict V) → IsAscending d → ((k : ℕ) → measure f (lookup k d) ≡ 0) → sum_values f d ≡ 0
  unfolding lookup
  sum_values_zero [] a h = refl
  sum_values_zero ((j, w) ∷ d) a h =
      ground (arith, h j, sum_values_zero d a.1 (λ k. ground (arith, h k, lookup-Above j d a.0)))

  sum_at-remove :
      {U : Type 0} (k : ℕ) (d : Dict V) (i : Dict U)
      → IsAscending d
      → Above k i
      → sum_at (remove k d) i ≡ sum_at d i
  sum_at-remove k d [] a b = refl
  sum_at-remove k d ((j, u) ∷ i) a b =
      ground (arith, lookup-remove k j d a, sum_at-remove k d i a b.1)

  -- An index that misses no key of weight gives the whole sum.
  pub sum_at-eq :
      {U : Type 0} (i : Dict U) (d : Dict V)
      → IsAscending i
      → IsAscending d
      → ((k : ℕ) → lookup k i ≡ none → measure f (lookup k d) ≡ 0)
      → sum_at d i ≡ sum_values f d
  unfolding lookup
  sum_at-eq [] d ai ad h = rw (sum_values_zero d ad (λ k. h k refl))
  sum_at-eq ((j, u) ∷ i) d ai ad h =
      let rest : sum_at (remove j d) i ≡ sum_values f (remove j d) =
        sum_at-eq i (remove j d) ai.1 (remove-IsAscending j d ad)
          (λ k e. ground (arith, h k, lookup-remove j k d ad)) in
      omega (arith, rest, sum_at-remove j d i ad ai.0, sum_values-remove j d)
