-- ===== src/Votes/Buffers.antt =====
-- The bounds of the buffers of the vote tracker in src/consensus.rs.
use inazuma_core.Base.{
  ℕ, ◌*◌, ◌≤◌, ◌<◌, Bool, not, Option, none, List, [], ◌∷◌, ◌++◌, length, length-append, retain,
  arith, ltb, leb, ◌==◌, min, max, Option-cases, inl, inr,
}
use inazuma_core.Platform.{Platform}
use inazuma_core.Records.{Vote, Evidence, vote}
use inazuma_core.State.{Store, finalized_height}
use inazuma_core.Staking.{validator_set}
use inazuma_core.Slashing.{voter}
use inazuma_core.Votes.{
  VoteTracker, make_room, first_vote, push_evidence, block_at, hold_vote, count_vote, place_vote,
  add, replay, replay_pending,
}

-- 8,192 votes wait at most, and 65 proofs.
unfoldable pub IsBounded : VoteTracker → Type 0
IsBounded t = (length t.pending ≤ 8_192) × (length t.evidence ≤ 65)

length-pushed :
    {A : Type 0} (cap : ℕ) (xs : List A) (x : A)
    → 0 < cap
    → length (make_room (leb cap (length xs)) xs ++ x ∷ []) ≤ max (length xs) cap
length-pushed cap [] x h = ground (arith, h)
length-pushed cap (y ∷ xs) x h =
    ground (arith, h, length-append xs (x ∷ []), length-append (y ∷ xs) (x ∷ []))

length-retain : {A : Type 0} (p : A → Bool) (xs : List A) → length (retain p xs) ≤ length xs
length-retain p [] = omega arith
length-retain p (x ∷ xs) = ground (arith, length-retain p xs)

pruned-IsBounded :
    (t : VoteTracker) (waiting : List Vote)
    → length waiting ≤ length t.pending
    → IsBounded t
    → IsBounded (record t { pending = waiting })
unfolding IsBounded
pruned-IsBounded t waiting k h = omega (arith, k, h)

module _ (env : Platform) where
  push_evidence-IsBounded :
      (t : VoteTracker) (e : Evidence) → IsBounded t → IsBounded (push_evidence env t e)
  unfolding push_evidence IsBounded
  push_evidence-IsBounded t e h = ground (arith, h, length-pushed 65 t.evidence e (omega arith))

  hold_vote-IsBounded :
      (s : Store env) (t : VoteTracker) (v : Vote) (address : ℕ)
      → IsBounded t
      → IsBounded (hold_vote env s t v address).1
  unfolding hold_vote IsBounded
  hold_vote-IsBounded s t v address h =
      let cap = min (max (length (validator_set env s)) 1 * 512) 8_192 in
      ground (arith, h, length-pushed cap t.pending v (omega arith))

  count_vote-IsBounded :
      (s : Store env) (t : VoteTracker) (v : Vote) (address : ℕ)
      → IsBounded t
      → IsBounded (count_vote env s t v address).1
  unfolding count_vote IsBounded
  count_vote-IsBounded s t v address h = ground (arith, h)

  place_vote-IsBounded :
      (s : Store env) (t : VoteTracker) (v : Vote) (address : ℕ)
      → IsBounded t
      → IsBounded (place_vote env s t v address).1
  unfolding place_vote
  place_vote-IsBounded s t v address h = elim (Option-cases (block_at env s v.height)) [
    | inl e ↦ ground (arith, e, h, hold_vote-IsBounded s t v address h)
    | inr (b, e) ↦ ground (arith, e, h, count_vote-IsBounded s t v address h)
  ]

  add-IsBounded :
      (s : Store env) (t : VoteTracker) (v : Vote) → IsBounded t → IsBounded (add env s t v).1
  unfolding add
  add-IsBounded s t v h = elim (Option-cases (voter env v)) [
    | inl e ↦ ground (arith, e, h)
    | inr (address, e) ↦ elim (Option-cases (first_vote t v.height address)) [
      | inl k ↦ ground (arith, e, k, h, place_vote-IsBounded s t v address h)
      | inr (prev, k) ↦ ground (
        arith,
        e,
        k,
        h,
        place_vote-IsBounded s t v address h,
        push_evidence-IsBounded t (vote prev v) h,
      )
    ]
  ]

  replay-IsBounded :
      (s : Store env) (t : VoteTracker) (finalized : Option ℕ) (vs : List Vote)
      → IsBounded t
      → IsBounded (replay env s t finalized vs).1
  unfolding replay
  replay-IsBounded s t finalized [] h = h
  replay-IsBounded s t finalized (v ∷ vs) h =
      replay-IsBounded (add env s t v).2 (add env s t v).1 _ vs (add-IsBounded s t v h)

  -- Whatever votes arrive, at most 8,192 of them wait for their block and at most 65 proofs of an
  -- equivocation wait to be reported, and a replay of the waiting votes keeps it so.
  pub buffers-IsBounded :
      (s : Store env) (t : VoteTracker) (v : Vote) (height : ℕ)
      → IsBounded t
      → IsBounded (add env s t v).1 × IsBounded (replay_pending env s t height).1
  unfolding replay_pending
  buffers-IsBounded s t v height h =
      let keep = retain (λ w. not (w.height == height)) t.pending in
      (
        add-IsBounded s t v h,
        replay-IsBounded s _ none (retain (λ w. w.height == height) t.pending) (
            pruned-IsBounded t (retain (λ w. ltb (finalized_height env s) w.height) keep)
              (omega (
                arith,
                length-retain (λ w. ltb (finalized_height env s) w.height) keep,
                length-retain (λ w. not (w.height == height)) t.pending,
              ))
              h),
      )
