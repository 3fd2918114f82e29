-- ===== src/Mempool/Counting.antt =====
-- Counts over the entries of the pool of src/mempool.rs, and the per-sender counter.
use inazuma_core.Base.{
  ℕ, zero, suc, ◌+◌, ◌-◌, ◌≤◌, ◌≡◌, refl, Bool, some, List, [], ◌∷◌, ◌++◌, Dict, arith, length,
  lookup, insert, IsAscending, lookup-insert, lookup-remove, insert-IsAscending, remove-IsAscending,
  ◌==◌, if◌then◌else◌,
}
use inazuma_core.State.{unwrap_or}
use inazuma_core.Mempool.{PoolTx, nth, last_or, drop_last, swap_remove, decrement}

abbrev pub bit : Bool → ℕ
bit b = if b then 1 else 0

abbrev pub count : (PoolTx → Bool) → List PoolTx → ℕ
count p [] = 0
count p (e ∷ es) = bit (p e) + count p es

pub count-append :
    (p : PoolTx → Bool) (xs ys : List PoolTx) → count p (xs ++ ys) ≡ count p xs + count p ys
count-append p [] ys = omega arith
count-append p (x ∷ xs) ys = omega (arith, count-append p xs ys)

pub count-le-length : (p : PoolTx → Bool) (xs : List PoolTx) → count p xs ≤ length xs
count-le-length p [] = omega arith
count-le-length p (x ∷ xs) = ground (arith, count-le-length p xs)

count-last_or :
    (p : PoolTx → Bool) (x : PoolTx) (xs : List PoolTx)
    → bit (p (last_or x xs)) + count p (drop_last x xs) ≡ bit (p x) + count p xs
count-last_or p x [] = refl
count-last_or p x (y ∷ ys) = omega (arith, count-last_or p y ys)

-- A removal by swapping takes out exactly the element at the index.
pub count-swap_remove :
    (p : PoolTx → Bool) (i : ℕ) (es : List PoolTx) (e : PoolTx)
    → nth i es ≡ some e
    → count p (swap_remove i es) + bit (p e) ≡ count p es
unfolding swap_remove
count-swap_remove p i [] e h = ground (arith, h)
count-swap_remove p zero (x ∷ []) e h = ground (arith, h)
count-swap_remove p zero (x ∷ y ∷ ys) e h = ground (arith, h, count-last_or p y ys)
count-swap_remove p (suc i) (x ∷ es) e h = ground (arith, count-swap_remove p i es e h)

pub lookup-decrement :
    (m : Dict ℕ) (s t : ℕ)
    → IsAscending m
    → unwrap_or (lookup t (decrement m s)) 0
      ≡ (if t == s then unwrap_or (lookup t m) 0 - 1 else unwrap_or (lookup t m) 0)
unfolding decrement
lookup-decrement m s t a =
    let n = unwrap_or (lookup s m) 0 - 1 in
    ground
      (arith, lookup-insert s t n m, lookup-remove s t (insert s n m) (insert-IsAscending s n m a))

pub decrement-IsAscending : (m : Dict ℕ) (s : ℕ) → IsAscending m → IsAscending (decrement m s)
unfolding decrement
decrement-IsAscending m s a =
    let n = unwrap_or (lookup s m) 0 - 1 in
    ground (
      arith,
      insert-IsAscending s n m a,
      remove-IsAscending s (insert s n m) (insert-IsAscending s n m a),
    )
