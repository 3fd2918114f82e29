-- ===== src/Votes/Finality.antt =====
-- When the vote tracker of src/consensus.rs finalizes a height.
use inazuma_core.Base.{
  ℕ, ◌+◌, ◌*◌, ◌≡◌, ◌≤◌, ◌<◌, ◌⊎◌, none, some, List, [], ◌∷◌, Dict, insert, arith, if◌then◌else◌,
  sum_by, inl, inr, lookup-insert, u64_add-eq, u128_add-eq, u128_mul-eq, u64_mod, u128_mod,
}
use inazuma_core.Platform.{Platform}
use inazuma_core.Records.{Vote}
use inazuma_core.State.{Store, finalized_height, set_finalized_height}
use inazuma_core.Staking.{Validator, validator_set, total_stake}
use inazuma_core.Staking.Election.{stake_sum, total_stake-eq}
use inazuma_core.Votes.{
  VoteTracker, Added, holds, votes_at, voted_from, retain_heights, count_vote, add,
}
use inazuma_core.Votes.Counting.{
  finalizes, IsCounted, add_cases, add-IsCounted, lookup-retain_heights,
}

-- The exact stake of the members who have voted.
abbrev pub backing_of : Dict Vote → Validator → ℕ
backing_of votes m = if holds m.address votes then m.stake else 0

abbrev pub backed_stake : Dict Vote → List Validator → ℕ
backed_stake votes set = sum_by (backing_of votes) set

backed_stake-le :
    (votes : Dict Vote) (set : List Validator) → backed_stake votes set ≤ stake_sum set
backed_stake-le votes [] = omega arith
backed_stake-le votes (m ∷ set) = ground (arith, backed_stake-le votes set)

voted_from-eq :
    (acc : ℕ) (votes : Dict Vote) (set : List Validator)
    → acc + stake_sum set < u128_mod
    → voted_from acc votes set ≡ acc + backed_stake votes set
unfolding voted_from
voted_from-eq acc votes [] h = omega arith
voted_from-eq acc votes (m ∷ set) h = ground (
  arith,
  h,
  u128_add-eq acc m.stake,
  voted_from-eq (acc + m.stake) votes set,
  voted_from-eq acc votes set,
)

module _ (env : Platform) where
  -- What adding a vote does to finality.
  abbrev pub FinalityOutcome : Store env → Vote → Added env → Type 0
  FinalityOutcome s v r =
      ((finalizes r.0 ≡ none) × (r.2 ≡ s))
      ⊎ ((finalizes r.0 ≡ some v.height)
          × (finalized_height env s < v.height)
          × (finalized_height env r.2 ≡ v.height)
          × (stake_sum (validator_set env s) * 2
              < backed_stake (votes_at r.1 v.height) (validator_set env s) * 3))

  finalized-set :
      (s : Store env) (height : ℕ)
      → finalized_height env s < height
      → finalized_height env (set_finalized_height env s height) ≡ height
  unfolding finalized_height set_finalized_height
  finalized-set s height h = ground (arith, h)

  votes_at-retained :
      (t : VoteTracker) (h : ℕ) (d : Dict Vote)
      → h + 64 < u64_mod
      → votes_at (record t { inner = retain_heights h (insert h d t.inner) }) h ≡ d
  votes_at-retained t h d fits = ground (
    arith,
    fits,
    u64_add-eq h 64,
    lookup-retain_heights h h (insert h d t.inner),
    lookup-insert h h d t.inner,
  )

  count_finality :
      (s : Store env) (t : VoteTracker) (v : Vote) (address : ℕ)
      → stake_sum (validator_set env s) * 3 < u128_mod
      → v.height + 64 < u64_mod
      → FinalityOutcome s v (count_vote env s t v address)
  unfolding count_vote
  count_finality s t v address fits room =
      let set = validator_set env s in
      let votes = insert address v (votes_at t v.height) in
      ground (
        arith,
        fits,
        total_stake-eq set (omega (arith, fits)),
        voted_from-eq 0 votes set (omega (arith, fits)),
        backed_stake-le votes set,
        u128_mul-eq (total_stake set) 2,
        u128_mul-eq (voted_from 0 votes set) 3,
        finalized-set s v.height,
        votes_at-retained t v.height votes room,
      )

  -- Where three times the stake of the set and the height with 64 more fit their words, a vote either leaves the store alone, or it
  -- finalizes its own height, which was not final, and then the members of the set with a
  -- vote counted at that height hold more than two thirds of the stake. Every vote still counted is
  -- authentic, under its voter, and for the block that the store has at its height, if that was so.
  pub add_finality :
      (s : Store env) (t : VoteTracker) (v : Vote)
      → IsCounted env s t
      → stake_sum (validator_set env s) * 3 < u128_mod
      → v.height + 64 < u64_mod
      → FinalityOutcome s v (add env s t v) × IsCounted env (add env s t v).2 (add env s t v).1
  add_finality s t v counted fits room = (
    elim (add_cases env s t v) [
      | inl (inner, same, quiet) ↦ inl (quiet, same)
      | inr (address, backs, went) ↦ rw went (count_finality s t v address fits room)
    ],
    add-IsCounted env s t v counted,
  )
