-- ===== src/Production/Elected.antt =====
-- The leader of `current_attempt` in src/chain.rs, in the window of an importer.
use inazuma_core.Base.{
  ℕ, zero, suc, ◌+◌, ◌-◌, ◌%◌, ◌≤◌, ◌<◌, ◌≡◌, ap, ◌∙◌, true, some, List, arith, ◌==◌, min, max,
  Bool-cases, inl, inr, u64_mod, u64_saturating_add, ==_iff,
}
use inazuma_core.Platform.{Platform}
use inazuma_core.State.{Store, tip_height}
use inazuma_core.Transactions.{Block}
use inazuma_core.Staking.{Validator, elect_leader_attempt}
use inazuma_core.Liveness.{max_leader_attempts}
use inazuma_core.Timing.Window.{div_mono}
use inazuma_core.Timing.{leader_attempt_window}
use inazuma_core.Externals.{Externals}
use inazuma_core.Blocks.{Rules, elected, parent_time}
use inazuma_core.Production.{Duty, current_attempt}

module _ (env : Platform) where
  same_at : (from : ℕ) → from + 0 ≡ from
  same_at from = omega arith

  pub from_zero : (k : ℕ) → 0 + k ≡ k
  from_zero k = omega arith

  later_at : (from k : ℕ) → (from + 1) + k ≡ from + suc k
  later_at from k = omega arith

  -- An attempt in the window that elects the producer is found.
  pub elected_at :
      (set : List Validator) (b : Block) (n k from : ℕ)
      → k < n
      → elect_leader_attempt env set b.height b.parent_hash (from + k) ≡ some b.producer
      → elected env set b n from ≡ true
  unfolding elected
  elected_at set b zero k from h e = absurd (omega (arith, h))
  elected_at set b (suc n) zero from h e =
      ground (arith, e, ap (elect_leader_attempt env set b.height b.parent_hash) (same_at from))
  elected_at set b (suc n) (suc k) from h e = ground (
    arith,
    elected_at set b n k (from + 1) (omega (arith, h))
        (ap (elect_leader_attempt env set b.height b.parent_hash) (later_at from k) ∙ e),
  )

  module _ (ext : Externals env) (rules : Rules) where
    -- The attempt at which a producer finds itself elected is in the window of every peer whose clock
    -- is not behind.
    pub attempt-window :
        (s : Store env) (tip : ℕ) (duty : Duty) (now : ℕ)
        → tip_height env s ≡ some tip
        → current_attempt env ext rules s duty ≤ max_leader_attempts
        → duty.now ≤ duty.sealed_at
        → duty.now ≤ now
        → duty.sealed_at < u64_mod
        → current_attempt env ext rules s duty
          ≤ leader_attempt_window
              (parent_time env ext rules s tip)
              duty.sealed_at
              now
              rules.block_time_ms
    unfolding current_attempt leader_attempt_window u64_saturating_add
    attempt-window s tip duty now t most sealed later fits =
        let parent = parent_time env ext rules s tip in
        let slot = max rules.block_time_ms 1 in
        let elapsed = duty.now - parent in
        let seen = duty.now - duty.tip_seen_ms in
        let both = min (duty.sealed_at - parent) (now - parent) in
        elim (Bool-cases (parent == 0)) [
          | inl e ↦ ground (
            arith,
            t,
            most,
            e,
            div_mono (seen % u64_mod) (both % u64_mod) slot
                (omega (arith, (==_iff parent 0).0 e, sealed, later, fits)),
          )
          | inr e ↦ ground (
            arith,
            t,
            most,
            e,
            div_mono (elapsed % u64_mod) (both % u64_mod) slot (omega (arith, sealed, later, fits)),
          )
        ]
