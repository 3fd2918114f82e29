-- ===== src/Production/Guarded.antt =====
-- The sign guard in `produce_block` of src/chain.rs.
use inazuma_core.Base.{
  ℕ, ◌<◌, ◌≡◌, ◌⊎◌, ◌||◌, refl, ap, u64_add, u64_mod, true, false, Option, none, some, List, [],
  ◌∷◌, arith, Result, ok, err, Bool-cases, Option-cases, inl, inr,
}
use inazuma_core.Platform.{Platform}
use inazuma_core.State.{tip_height, unwrap_or}
use inazuma_core.Transactions.{Block}
use inazuma_core.Externals.{Externals}
use inazuma_core.Signguard.{Format, SignGuard, Write, saved, may_sign, record_height, open_guard}
use inazuma_core.Signguard.History.{Synced, record_height-Synced, open-Synced, rising}
use inazuma_core.Blocks.{Rules, Node, BlockError}
use inazuma_core.Production.{Duty, Signer, declines, seal_block, seal_next, produce_block}

module _ (env : Platform) (ext : Externals env) (rules : Rules) (format : Format) where
  seal_next-guard :
      (duty : Duty) (signer : Signer env) (g : SignGuard) (node : Node env) (tip : ℕ)
      → let (b, node', guard') = seal_next env ext rules format duty signer (some g) node tip in
        (b.height ≡ u64_add tip 1)
        × (guard' ≡ some (record_height format g (u64_add tip 1) duty.written))
  unfolding seal_next seal_block
  seal_next-guard duty signer g node tip = (refl, refl)

  record_height-highest :
      (g : SignGuard) (height : ℕ) (w : Write)
      → g.highest < height
      → (record_height format g height w).highest ≡ height
  unfolding record_height
  record_height-highest g height w h = ground (arith, h)

  fresh :
      (duty : Duty) (signer : Signer env) (g : SignGuard) (node : Node env) (tip : ℕ)
      → declines env ext rules duty signer (some g) node.store tip ≡ false
      → g.highest < u64_add tip 1
  unfolding declines may_sign
  fresh duty signer g node tip d = ground (arith, d)

  -- One event in the life of a node: it is asked to produce a block, on whatever state it has by then,
  -- or it is restarted on the guard's file.
  pub data Turn : Type 0 where
    produce : Duty → Signer env → Node env → Turn
    restart : Turn

  abbrev pub with_height : Result BlockError (Option Block) → List ℕ → List ℕ
  with_height (ok (some b)) hs = b.height ∷ hs
  with_height (ok none) hs = hs
  with_height (err e) hs = hs

  -- The heights of the blocks that are sealed, in order; every write of the file is saved.
  unfoldable pub sealed : SignGuard → List Turn → List ℕ
  sealed g [] = []
  sealed g (produce duty signer node ∷ ts) =
      let (r, node', guard') =
        produce_block env ext rules format (record duty { written = saved }) signer (some g) node in
      with_height r (sealed (unwrap_or guard' g) ts)
  sealed g (restart ∷ ts) = sealed (open_guard format g.file g.address) ts

  -- How a turn of the producer ends for the guard: a block at a new height, which is recorded, or none.
  abbrev Guarded :
      SignGuard → Write → Result BlockError (Option Block) × Node env × Option SignGuard → Type 0
  Guarded g w (r, node', guard') =
      ((height : ℕ) × (g.highest < height)
        × (height < u64_mod)
        × (guard' ≡ some (record_height format g height w))
        × ((hs : List ℕ) → with_height r hs ≡ height ∷ hs))
      ⊎ ((guard' ≡ some g) × ((hs : List ℕ) → with_height r hs ≡ hs))

  produced_guard :
      (duty : Duty) (signer : Signer env) (g : SignGuard) (node : Node env)
      → Guarded g duty.written (produce_block env ext rules format duty signer (some g) node)
  unfolding produce_block u64_add
  produced_guard duty signer g node = elim (Bool-cases (duty.serving_only || duty.halted)) [
    | inl e ↦ rw (produce_block, e) (inr (refl, λ hs. refl))
    | inr e ↦ elim (Option-cases (tip_height env node.store)) [
      | inl t ↦ rw (produce_block, e, t) (inr (refl, λ hs. refl))
      | inr (tip, t) ↦
          elim (Bool-cases (declines env ext rules duty signer (some g) node.store tip)) [
            | inl d ↦ rw (produce_block, e, t, d) (inr (refl, λ hs. refl))
            | inr d ↦
                let (height, after) = seal_next-guard duty signer g node tip in
                rw (produce_block, e, t, d)
                  (inl (
                    u64_add tip 1,
                    fresh duty signer g node tip d,
                    omega arith,
                    after,
                    λ hs. ap (λ h. h ∷ hs) height,
                  ))
          ]
    ]
  ]

  rising_on :
      (g : SignGuard) (duty : Duty) (signer : Signer env) (node : Node env) (ts : List Turn)
      → Synced format g
      → Guarded g saved (
          produce_block env ext rules format (record duty { written = saved }) signer (some g) node)
      → ((g' : SignGuard) → Synced format g' → rising g'.highest (sealed g' ts) ≡ true)
      → rising g.highest (sealed g (produce duty signer node ∷ ts)) ≡ true
  unfolding sealed
  rising_on g duty signer node ts k (inl (height, above, small, e, own)) later =
      let g' = record_height format g height saved in
      rw (e, own)
        (ground (
          arith,
          above,
          record_height-highest g height saved above,
          later g' (record_height-Synced format g height small k),
        ))
  rising_on g duty signer node ts k (inr (e, none_sealed)) later = rw (e, none_sealed) (later g k)

  -- From a guard whose file is in step with it, and as long as every write of the file is saved, the
  -- heights of the blocks that a producer seals over any sequence of productions and restarts strictly
  -- rise, all above what was recorded before, on whatever state the node is by then, a rewound database
  -- or another branch: no height is ever sealed twice.
  pub sealed-rising :
      (g : SignGuard) (ts : List Turn) → Synced format g → rising g.highest (sealed g ts) ≡ true
  unfolding sealed
  sealed-rising g [] k = refl
  sealed-rising g (produce duty signer node ∷ ts) k =
      rising_on g duty signer node ts k
        (produced_guard (record duty { written = saved }) signer g node)
        (λ g' k'. sealed-rising g' ts k')
  sealed-rising g (restart ∷ ts) k =
      let g' = open_guard format g.file g.address in
      ground (arith, k.remembers, sealed-rising g' ts (open-Synced format g k))
