-- ===== src/Signguard/History.antt =====
-- The guard of src/signguard.rs over the life of its file, restarts included.
use inazuma_core.Base.{
  ℕ, ◌<◌, ◌≡◌, refl, Bool, true, false, some, List, [], ◌∷◌, arith, if◌then◌else◌, u64_mod, ltb,
}
use inazuma_core.Signguard.{
  Format, SignGuard, saved, may_sign, parse, open_guard, record_height, sign_block,
}

-- One event in the life of a node: it is asked to sign a block at a height, or it is restarted on
-- the file that is there.
pub data Event : Type 0 where
  sign : ℕ → Event
  restart : Event

abbrev pub fits : List Event → Bool
fits [] = true
fits (sign height ∷ es) = if ltb height u64_mod then fits es else false
fits (restart ∷ es) = fits es

-- Strictly ascending, from above a bound.
abbrev pub rising : ℕ → List ℕ → Bool
rising n [] = true
rising n (h ∷ hs) = if ltb n h then rising h hs else false

module _ (format : Format) where
  -- The heights that are signed, in order; every write of the file is saved.
  unfoldable pub signed : SignGuard → List Event → List ℕ
  signed g [] = []
  signed g (sign height ∷ es) =
      let (done, g') = sign_block format g height saved in
      let rest = signed g' es in if done then height ∷ rest else rest
  signed g (restart ∷ es) = signed (open_guard format g.file g.address) es

  -- The file remembers what the process does.
  pub record Synced (g : SignGuard) : Type 0 where
    pub remembers : (open_guard format g.file g.address).highest ≡ g.highest

  parse-line :
      (address height : ℕ)
      → height < u64_mod
      → parse format (format.line address height) address ≡ some height
  unfolding parse
  parse-line address height h =
      ground (arith, format.words-line address height, format.parse_u64-decimal height h)

  pub record_height-Synced :
      (g : SignGuard) (height : ℕ)
      → height < u64_mod
      → Synced g
      → Synced (record_height format g height saved)
  unfolding open_guard record_height
  record_height-Synced g height h k = record {
    remembers = ground (arith, k.remembers, parse-line g.address height h);
  }

  sign-Synced :
      (g : SignGuard) (height : ℕ)
      → height < u64_mod
      → Synced g
      → Synced (sign_block format g height saved).1
  unfolding sign_block open_guard record_height
  sign-Synced g height h k = record {
    remembers = ground (arith, k.remembers, parse-line g.address height h);
  }

  pub open-Synced : (g : SignGuard) → Synced g → Synced (open_guard format g.file g.address)
  unfolding open_guard
  open-Synced g k = record { remembers = refl }

  -- From a guard whose file is in step with it, for heights that fit a word, and as long as every
  -- write of the file is saved, the heights that are signed over any sequence of requests and restarts
  -- strictly rise, all above what was signed before: no height is ever signed twice.
  pub signed-rising :
      (g : SignGuard) (es : List Event)
      → Synced g
      → fits es ≡ true
      → rising g.highest (signed g es) ≡ true
  unfolding signed sign_block may_sign record_height
  signed-rising g [] k h = refl
  signed-rising g (sign height ∷ es) k h =
      let small : height < u64_mod = ground (arith, h) in
      let g' = (sign_block format g height saved).1 in
      ground (arith, h, signed-rising g' es (sign-Synced g height small k))
  signed-rising g (restart ∷ es) k h =
      let g' = open_guard format g.file g.address in
      ground (arith, k.remembers, signed-rising g' es (open-Synced g k) h)
