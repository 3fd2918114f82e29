-- ===== src/Blocks/Kept.antt =====
-- What the accounting of a block of src/chain.rs and its votes leave alone: the shielded pool, and the
-- coins and the tip.
use inazuma_core.Base.{
  ℕ, ◌/◌, ◌≡◌, refl, ◌∙◌, not, Option, none, List, [], ◌∷◌, Dict, arith, ltb, ◌==◌, if◌then◌else◌,
  Option-cases, retain, inl, inr, u128_add, u128_sub, u128_mul,
}
use inazuma_core.Platform.{Platform}
use inazuma_core.Types.{Account}
use inazuma_core.Records.{Vote}
use inazuma_core.State.{
  Store, account, set_account, put_slash, tip_height, finalized_height, set_finalized_height,
}
use inazuma_core.State.Supply.{supply}
use inazuma_core.Staking.{
  Validator, validator_set, validator_set_at, share_out, credit, release_accounts, release_from,
  pay_rewards, paid, total_stake, leader_commission_pct, block_reward,
}
use inazuma_core.Liveness.{
  record_liveness, charge_all, charge_miss, clear_streak, find_used, find_missed,
  max_leader_attempts,
}
use inazuma_core.Shielded.{shielded_pool_balance}
use inazuma_core.Execution.Coins.{Keeps, pool-set_account}
use inazuma_core.Votes.{VoteTracker, add, count_vote, replay, replay_pending}
use inazuma_core.Votes.Counting.{add_cases}

module _ (env : Platform) where
  -- The pool stays where it is.
  abbrev pub Pools : Store env → Store env → Type 0
  Pools s s' = shielded_pool_balance env s' ≡ shielded_pool_balance env s

  pool-charge_miss : (s : Store env) (height m : ℕ) → Pools s (charge_miss env s height m)
  unfolding charge_miss put_slash set_account shielded_pool_balance
  pool-charge_miss s height m = ground arith

  pub pool-charge_all :
      (ms : List ℕ) (s : Store env) (height : ℕ) → Pools s (charge_all env ms s height)
  unfolding charge_all
  pool-charge_all [] s height = refl
  pool-charge_all (m ∷ ms) s height =
      pool-charge_all ms (charge_miss env s height m) height ∙ pool-charge_miss s height m

  pub pool-clear_streak : (s : Store env) (height p : ℕ) → Pools s (clear_streak env s height p)
  unfolding clear_streak set_account shielded_pool_balance
  pool-clear_streak s height p = ground arith

  pub pool-record_liveness :
      (activation : ℕ) (s : Store env) (height parent_hash producer : ℕ)
      → Pools s (record_liveness env activation s height parent_hash producer)
  unfolding record_liveness
  pool-record_liveness activation s height parent_hash producer =
      let set = validator_set_at env s height in
      elim (Option-cases (find_used env set height parent_hash producer max_leader_attempts 0)) [
        | inl e ↦ ground (arith, e)
        | inr (used, e) ↦
            let ms = find_missed env set height parent_hash producer used 0 [] in
            ground (
              arith,
              e,
              pool-charge_all ms s height,
              pool-clear_streak (charge_all env ms s height) height producer,
            )
      ]

  pub pool-release_accounts :
      (height : ℕ) (d : Dict Account) (s : Store env) → Pools s (release_accounts env height d s).0
  unfolding release_accounts
  pool-release_accounts height [] s = refl
  pool-release_accounts height ((address, a) ∷ d) s =
      let (kept, released) = release_from height 0 a.unbonding in
      let a' = record a { unbonding = kept; balance = u128_add a.balance released } in
      ground (
        arith,
        pool-release_accounts height d s,
        pool-release_accounts height d (set_account env s address a'),
        pool-set_account env s address a',
      )

  pool-credit : (s : Store env) (a x : ℕ) → Pools s (credit env s a x)
  unfolding credit
  pool-credit s a x = pool-set_account env s a _

  pool-share_out :
      (shared total : ℕ) (set : List Validator) (s : Store env) (distributed : ℕ)
      → Pools s (share_out env shared total set s distributed).0
  unfolding share_out
  pool-share_out shared total [] s distributed = refl
  pool-share_out shared total (v ∷ set) s distributed =
      let cut = u128_mul shared v.stake / total in
      let s' = if cut == 0 then s else credit env s v.address cut in
      let moved : Pools s s' = ground (arith, pool-credit s v.address cut) in
      pool-share_out shared total set s'
        (if cut == 0 then distributed else u128_add distributed cut)
      ∙ moved

  pub pool-pay_rewards : (s : Store env) (leader fees : ℕ) → Pools s (pay_rewards env s leader fees)
  unfolding pay_rewards
  pool-pay_rewards s leader fees =
      let set = validator_set env s in
      let shared = u128_sub block_reward (u128_mul block_reward leader_commission_pct / 100) in
      let part = share_out env shared (total_stake set) set s 0 in
      ground (
        arith,
        pool-share_out shared (total_stake set) set s 0,
        pool-set_account env s leader
            (paid env (account env s leader) (u128_add fees block_reward) block_reward),
        pool-set_account env part.0 leader (
            paid env (account env part.0 leader)
              (u128_add (u128_add fees (u128_mul block_reward leader_commission_pct / 100))
                (u128_sub shared part.1))
              (u128_add (u128_mul block_reward leader_commission_pct / 100)
                (u128_sub shared part.1))),
      )

  -- What finality and the index of blocks do not touch.
  abbrev pub Settles : Store env → Store env → Type 0
  Settles s s' = Keeps env s s' × (tip_height env s' ≡ tip_height env s)

  count-Settles :
      (s : Store env) (t : VoteTracker) (v : Vote) (address : ℕ)
      → Settles s (count_vote env s t v address).2
  unfolding count_vote set_finalized_height supply shielded_pool_balance tip_height
  count-Settles s t v address = ground arith

  add-Settles : (s : Store env) (t : VoteTracker) (v : Vote) → Settles s (add env s t v).2
  add-Settles s t v = elim (add_cases env s t v) [
    | inl (inner, same, quiet) ↦ rw same ((refl, refl), refl)
    | inr (address, backs, went) ↦ rw went (count-Settles s t v address)
  ]

  replay-Settles :
      (s : Store env) (t : VoteTracker) (finalized : Option ℕ) (vs : List Vote)
      → Settles s (replay env s t finalized vs).2
  unfolding replay
  replay-Settles s t finalized [] = ((refl, refl), refl)
  replay-Settles s t finalized (v ∷ vs) =
      let (r, t', s') = add env s t v in
      let (kept, tip) = add-Settles s t v in
      let (kept', tip') = replay-Settles s' t' _ vs in
      ((kept'.0 ∙ kept.0, kept'.1 ∙ kept.1), tip' ∙ tip)

  pub replay_pending-Settles :
      (s : Store env) (t : VoteTracker) (height : ℕ) → Settles s (replay_pending env s t height).2
  unfolding replay_pending
  replay_pending-Settles s t height =
      let keep = retain (λ v. not (v.height == height)) t.pending in
      replay-Settles s
        (record t { pending = retain (λ v. ltb (finalized_height env s) v.height) keep }) none
        (retain (λ v. v.height == height) t.pending)
