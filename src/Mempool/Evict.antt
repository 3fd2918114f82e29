-- ===== src/Mempool/Evict.antt =====
-- `evict_cheapest_below` and `remove_hashes` of src/mempool.rs.
use inazuma_core.Base.{
  ℕ, ◌+◌, ◌≤◌, ◌<◌, ◌≡◌, refl, Bool, true, false, Option, none, some, List, [], ◌∷◌, Dict, arith,
  length, lookup, remove, is_some, if◌then◌else◌, Option-cases, Bool-cases, inl, inr,
}
use inazuma_core.Mempool.{
  PoolTx, Mempool, contains, nth, tails, cheapest, swap_remove, decrement, drop_confirmed,
  remove_hashes,
}
use inazuma_core.Mempool.Counting.{bit, count, count-swap_remove}
use inazuma_core.Mempool.Valid.{Indexed, IsValid, from_sender, with_hash, remove_one}

cheapest-nth :
    (es : List PoolTx) (tail : Dict (ℕ × ℕ)) (i : ℕ) (e : PoolTx)
    → cheapest es tail ≡ some (i, e)
    → nth i es ≡ some e
unfolding cheapest
cheapest-nth es [] i e h = ground (arith, h)
cheapest-nth es ((s, at) ∷ tail) i e h = elim (Option-cases (nth at.0 es)) [
  | inl n ↦ cheapest-nth es tail i e (ground (arith, h, n))
  | inr (x, n) ↦ elim (Option-cases (cheapest es tail)) [
    | inl c ↦ ground (arith, h, n, c)
    | inr (l, c) ↦ ground (arith, h, n, c, cheapest-nth es tail l.0 l.1)
  ]
]

length-count : (es : List PoolTx) → count (λ e. true) es ≡ length es
length-count [] = refl
length-count (e ∷ es) = omega (arith, length-count es)

-- What an eviction does: the cheapest of the senders' last transactions goes, and nothing else.
abbrev pub Evicted : Mempool → ℕ → Option ℕ × Mempool → Type 0
Evicted p incoming_fee (none, q) =
    (q ≡ p)
    × ((i : ℕ) (e : PoolTx)
        → cheapest p.entries (tails 0 p.entries []) ≡ some (i, e)
        → incoming_fee ≤ e.tx.fee)
Evicted p incoming_fee (some fee, q) =
    (i : ℕ) × (e : PoolTx) × (cheapest p.entries (tails 0 p.entries []) ≡ some (i, e))
    × (nth i p.entries ≡ some e)
    × (e.tx.fee ≡ fee)
    × (fee < incoming_fee)
    × ((test : PoolTx → Bool) → count test q.entries + bit (test e) ≡ count test p.entries)
    × (length q.entries + 1 ≡ length p.entries)
    × IsValid q

-- The pool without the entry at an index.
abbrev without : Mempool → ℕ → PoolTx → Mempool
without p i e = record p {
  entries = swap_remove i p.entries;
  hashes = remove e.hash p.hashes;
  per_sender = decrement p.per_sender e.sender;
}

dropped :
    (p : Mempool) (incoming_fee i : ℕ) (e : PoolTx)
    → IsValid p
    → cheapest p.entries (tails 0 p.entries []) ≡ some (i, e)
    → e.tx.fee < incoming_fee
    → Evicted p incoming_fee (some e.tx.fee, without p i e)
dropped p incoming_fee i e v c less =
    let at = cheapest-nth p.entries (tails 0 p.entries []) i e c in
    let rest = swap_remove i p.entries in
    let counts = λ (q : PoolTx → Bool). count-swap_remove q i p.entries e at in
    (
      i,
      e,
      c,
      at,
      refl,
      less,
      counts,
      omega (arith, length-count rest, length-count p.entries, counts (λ x. true)),
      remove_one p.entries rest e counts v,
    )

drop_confirmed_lem :
    (confirmed : Dict (Unit {0})) (more others : ℕ → ℕ) (es : List PoolTx)
    (hashes : Dict (Unit {0})) (per : Dict ℕ)
    → Indexed more others es hashes per
    → let (kept, h, s) = drop_confirmed confirmed es hashes per in Indexed more others kept h s
unfolding drop_confirmed
drop_confirmed_lem confirmed more others [] hashes per v = v
drop_confirmed_lem confirmed more others (e ∷ es) hashes per v =
    let dropped =
      drop_confirmed_lem confirmed more others es _ _
        (remove_one (e ∷ es) es e (λ q. omega arith) v) in
    let later =
      drop_confirmed_lem confirmed (λ s. more s + bit (from_sender s e))
        (λ h. others h + bit (with_hash h e)) es hashes per
        (record {
          pends = λ s. omega (arith, v.pends s);
          holds = λ h. ground (arith, v.holds h);
          once = λ h. omega (arith, v.once h);
          hashes-ascending = v.hashes-ascending;
          per-ascending = v.per-ascending;
        }) in
    elim (Bool-cases (is_some (lookup e.hash confirmed))) [
      | inl y ↦ rw y dropped
      | inr n ↦ rw n (record {
        pends = λ s. omega (arith, later.pends s);
        holds = λ h. ground (arith, later.holds h);
        once = λ h. omega (arith, later.once h);
        hashes-ascending = later.hashes-ascending;
        per-ascending = later.per-ascending;
      })
    ]

drop_confirmed-count :
    (confirmed : Dict (Unit {0})) (h : ℕ) (es : List PoolTx) (hashes : Dict (Unit {0}))
    (per : Dict ℕ)
    → count (with_hash h) (drop_confirmed confirmed es hashes per).0
      ≡ (if is_some (lookup h confirmed) then 0 else count (with_hash h) es)
unfolding drop_confirmed
drop_confirmed-count confirmed h [] hashes per = ground arith
drop_confirmed-count confirmed h (e ∷ es) hashes per = ground (
  arith,
  drop_confirmed-count confirmed h es hashes per,
  drop_confirmed-count confirmed h es (remove e.hash hashes) (decrement per e.sender),
)

-- Once a block is imported, a valid pool stays valid and holds exactly the transactions it held that
-- the block did not confirm.
pub remove_hashes_lem :
    (p : Mempool) (confirmed : Dict (Unit {0})) (h : ℕ)
    → IsValid p
    → IsValid (remove_hashes p confirmed)
      × (contains (remove_hashes p confirmed) h
          ≡ (if is_some (lookup h confirmed) then false else contains p h))
unfolding remove_hashes contains lookup
remove_hashes_lem p [] h v = ground (arith, v)
remove_hashes_lem p (c ∷ cs) h v =
    let later = drop_confirmed_lem (c ∷ cs) (λ s. 0) (λ s. 0) p.entries p.hashes p.per_sender v in
    (
      later,
      ground (
        arith,
        v.holds h,
        later.holds h,
        drop_confirmed-count (c ∷ cs) h p.entries p.hashes p.per_sender,
      ),
    )
