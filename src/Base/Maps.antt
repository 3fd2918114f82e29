-- ===== src/Base/Maps.antt =====
-- A map as the list of its entries in ascending key order, which is how a sled tree iterates. The
-- keys are opaque strings of the source (addresses, ids, hashes); only their equality and order
-- are ever used, so they are numbers here.
use Prim.Native.Nat.{ℕ, ◌+◌, ◌≤◌, ◌<◌}
use mathlib.Core.Path.{◌≡◌, refl}
use mathlib.Core.Option.{Option, none, some}
use mathlib.Core.List.{List, [], ◌∷◌}
use native.Mathlib.Omega.{arith}
use inazuma_core.Base.Tests.{ltb, ◌==◌, if◌then◌else◌}

abbrev pub Dict : Type 0 → Type 0
Dict V = List (ℕ × V)

module _ {V : Type 0} where
  unfoldable pub lookup : ℕ → Dict V → Option V
  lookup k [] = none
  lookup k ((j, v) ∷ d) = if k == j then some v else lookup k d

  unfoldable pub insert : ℕ → V → Dict V → Dict V
  insert k v [] = (k, v) ∷ []
  insert k v ((j, w) ∷ d) =
      if k == j
      then (k, v) ∷ d
      else (if ltb k j then (k, v) ∷ (j, w) ∷ d else (j, w) ∷ insert k v d)

  unfoldable pub remove : ℕ → Dict V → Dict V
  remove k [] = []
  remove k ((j, w) ∷ d) = if k == j then d else (j, w) ∷ remove k d

  abbrev pub keys : Dict V → List ℕ
  keys [] = []
  keys ((j, w) ∷ d) = j ∷ keys d

  -- Every key of the map is above a bound.
  abbrev pub Above : ℕ → Dict V → Type 0
  Above k [] = Unit
  Above k ((j, w) ∷ d) = (k < j) × Above k d

  abbrev pub IsAscending : Dict V → Type 0
  IsAscending [] = Unit
  IsAscending ((j, w) ∷ d) = Above j d × IsAscending d

  -- The exact sum of a measure over the values.
  abbrev pub sum_values : (V → ℕ) → Dict V → ℕ
  sum_values f [] = 0
  sum_values f ((j, w) ∷ d) = f w + sum_values f d

  abbrev pub measure : (V → ℕ) → Option V → ℕ
  measure f none = 0
  measure f (some v) = f v

  pub lookup-insert :
      (k j : ℕ) (v : V) (d : Dict V)
      → lookup j (insert k v d) ≡ (if j == k then some v else lookup j d)
  unfolding lookup insert
  lookup-insert k j v [] = refl
  lookup-insert k j v ((i, w) ∷ d) = ground (arith, lookup-insert k j v d)

  pub Above-weaken : (i j : ℕ) (d : Dict V) → i < j → Above j d → Above i d
  Above-weaken i j [] h a = tt
  Above-weaken i j ((k, w) ∷ d) h a = (omega arith, Above-weaken i j d h a.1)

  pub lookup-Above : (k : ℕ) (d : Dict V) → Above k d → lookup k d ≡ none
  unfolding lookup
  lookup-Above k [] a = refl
  lookup-Above k ((j, w) ∷ d) a = ground (arith, lookup-Above k d a.1)

  Above-insert : (i k : ℕ) (v : V) (d : Dict V) → i < k → Above i d → Above i (insert k v d)
  unfolding insert
  Above-insert i k v [] h a = (h, tt)
  Above-insert i k v ((j, w) ∷ d) h a = ground (arith, Above-insert i k v d h a.1)

  pub insert-IsAscending : (k : ℕ) (v : V) (d : Dict V) → IsAscending d → IsAscending (insert k v d)
  unfolding insert
  insert-IsAscending k v [] a = (tt, tt)
  insert-IsAscending k v ((j, w) ∷ d) a =
      ground (arith, insert-IsAscending k v d a.1, Above-insert j k v d, Above-weaken k j d)

  Above-remove : (i k : ℕ) (d : Dict V) → Above i d → Above i (remove k d)
  unfolding remove
  Above-remove i k [] a = tt
  Above-remove i k ((j, w) ∷ d) a = ground (arith, Above-remove i k d a.1)

  pub remove-IsAscending : (k : ℕ) (d : Dict V) → IsAscending d → IsAscending (remove k d)
  unfolding remove
  remove-IsAscending k [] a = tt
  remove-IsAscending k ((j, w) ∷ d) a =
      ground (arith, remove-IsAscending k d a.1, Above-remove j k d a.0)

  pub lookup-remove :
      (k j : ℕ) (d : Dict V)
      → IsAscending d
      → lookup j (remove k d) ≡ (if j == k then none else lookup j d)
  unfolding lookup remove
  lookup-remove k j [] a = ground arith
  lookup-remove k j ((i, w) ∷ d) a = ground (arith, lookup-remove k j d a.1, lookup-Above i d a.0)

  -- A write moves the sum by the new value less the old one.
  pub sum_values-insert :
      (f : V → ℕ) (k : ℕ) (v : V) (d : Dict V)
      → IsAscending d
      → sum_values f (insert k v d) + measure f (lookup k d) ≡ sum_values f d + f v
  unfolding lookup insert
  sum_values-insert f k v [] a = omega arith
  sum_values-insert f k v ((j, w) ∷ d) a = ground (
    arith,
    sum_values-insert f k v d a.1,
    λ (h : k < j). lookup-Above k d (Above-weaken k j d h a.0),
  )

  -- A value that is stored is part of the sum.
  pub measure-le-sum_values :
      (f : V → ℕ) (k : ℕ) (d : Dict V) → measure f (lookup k d) ≤ sum_values f d
  unfolding lookup
  measure-le-sum_values f k [] = omega arith
  measure-le-sum_values f k ((j, w) ∷ d) = ground (arith, measure-le-sum_values f k d)
