-- ===== src/Votes.antt =====
-- The vote tracker of src/consensus.rs, and the block that a vote refers to in src/state.rs. A hash map
-- is an association list by key; the order in which one is walked matters to no result but
-- the order of votes of one height in `votes_above`.
pub mod Counting
pub mod Finality
pub mod Buffers
pub mod Equivocation
use inazuma_core.Base.{
  ℕ, ◌*◌, Bool, true, false, not, ◌&&◌, Option, none, some, List, [], ◌∷◌, ◌++◌, Dict, lookup,
  insert, length, take, retain, any, sort_by, ltb, leb, ◌==◌, if◌then◌else◌, Result, ok, err,
  u64_add, u128_add, u128_mul, is_some, min, max,
}
use inazuma_core.Platform.{Platform}
use inazuma_core.Records.{Vote, Evidence, vote}
use inazuma_core.Transactions.{Block}
use inazuma_core.State.{Store, finalized_height, set_finalized_height, unwrap_or}
use inazuma_core.Staking.{Validator, validator_set, total_stake}
use inazuma_core.Slashing.{voter, verify_vote, evidence_id}

pub record VoteTracker : Type 0 where
  pub inner : Dict (Dict Vote)
  pub pending : List Vote
  pub evidence : List Evidence

pub record VoteOutcome : Type 0 where
  pub fresh : Bool
  pub finalized : Option ℕ

pub data VoteError : Type 0 where
  bad_signature bad_key equivocating other_block not_bonded : VoteError

abbrev pub vote_retention_heights : ℕ
vote_retention_heights = 64

unfoldable pub new_tracker : VoteTracker
new_tracker = record { inner = []; pending = []; evidence = [] }

-- `contains_key`
abbrev pub holds : ℕ → Dict Vote → Bool
holds k d = is_some (lookup k d)

abbrev pub is_member : ℕ → List Validator → Bool
is_member address set = any (λ v. v.address == address) set

-- The stake of the members whose votes are there, as `sum` adds it up.
unfoldable pub voted_from : ℕ → Dict Vote → List Validator → ℕ
voted_from acc at [] = acc
voted_from acc at (v ∷ set) =
    voted_from (if holds v.address at then u128_add acc v.stake else acc) at set

abbrev pub votes_at : VoteTracker → ℕ → Dict Vote
votes_at t height = unwrap_or (lookup height t.inner) []

unfoldable pub first_vote : VoteTracker → ℕ → ℕ → Option Vote
first_vote t height address = elim (lookup height t.inner) [
  | none ↦ none
  | some at ↦ lookup address at
]

unfoldable pub seen : VoteTracker → ℕ → ℕ
seen t height = length (votes_at t height)

-- `retain` on the heights.
unfoldable pub retain_heights : ℕ → Dict (Dict Vote) → Dict (Dict Vote)
retain_heights height [] = []
retain_heights height ((h, at) ∷ d) =
    if ltb height (u64_add h vote_retention_heights)
    then (h, at) ∷ retain_heights height d
    else retain_heights height d

-- `remove(0)` on a buffer that is full.
abbrev pub make_room {ℓ} : {A : Type ℓ} → Bool → List A → List A
make_room true (x ∷ xs) = xs
make_room _ xs = xs

abbrev pub votes_of : Dict Vote → List Vote
votes_of [] = []
votes_of ((k, v) ∷ d) = v ∷ votes_of d

-- The loop of `votes_above` over the heights.
unfoldable pub collect_above : ℕ → Dict (Dict Vote) → List Vote
collect_above from [] = []
collect_above from ((h, votes) ∷ d) =
    let rest = collect_above from d in if leb h from then rest else votes_of votes ++ rest

unfoldable pub votes_above : VoteTracker → ℕ → ℕ → List Vote
unfolding collect_above
votes_above t from limit =
    take limit (sort_by (λ v w. leb v.height w.height) (collect_above from t.inner))

module _ (env : Platform) where
  unfoldable pub block_at : Store env → ℕ → Option Block
  block_at s height = env.get Block s.blocks height

  unfoldable pub push_evidence : VoteTracker → Evidence → VoteTracker
  push_evidence t e =
      if any (λ f. evidence_id env f == evidence_id env e) t.evidence
      then t
      else record t { evidence = make_room (ltb 64 (length t.evidence)) t.evidence ++ e ∷ [] }

  unfoldable pub take_evidence : VoteTracker → List Evidence × VoteTracker
  take_evidence t = (t.evidence, record t { evidence = [] })

  abbrev pub stale : VoteOutcome
  stale = record { fresh = false; finalized = none }

  abbrev pub Added : Type 0
  Added = Result VoteError VoteOutcome × VoteTracker × Store env

  -- The vote's block is still in flight.
  unfoldable pub hold_vote : Store env → VoteTracker → Vote → ℕ → Added
  hold_vote s t v address =
      let set = validator_set env s in
      let cap = min (max (length set) 1 * 512) 8_192 in
      if not (is_member address set)
      then (err not_bonded, t, s)
      else (if any (λ w. w.height == v.height && w.voter_pubkey == v.voter_pubkey) t.pending
          then (ok stale, t, s)
          else (
            ok (record { fresh = true; finalized = none }),
            record t { pending = make_room (leb cap (length t.pending)) t.pending ++ v ∷ [] },
            s,
          ))

  -- The vote is for a block that the store has.
  unfoldable pub count_vote : Store env → VoteTracker → Vote → ℕ → Added
  unfolding voted_from retain_heights
  count_vote s t v address =
      let set = validator_set env s in
      let total = total_stake set in
      let at = votes_at t v.height in
      let fresh = not (holds address at) in
      let at' = insert address v at in
      let inner' = insert v.height at' t.inner in
      let voted = voted_from 0 at' set in
      if not (is_member address set)
      then (err not_bonded, t, s)
      else (if ltb 0 total
            && ltb (u128_mul total 2) (u128_mul voted 3)
            && ltb (finalized_height env s) v.height
          then (
            ok (record { fresh = fresh; finalized = some v.height }),
            record t { inner = retain_heights v.height inner' },
            set_finalized_height env s v.height,
          )
          else (ok (record { fresh = fresh; finalized = none }), record t { inner = inner' }, s))

  -- An authentic vote of a known voter who has not voted otherwise.
  unfoldable pub place_vote : Store env → VoteTracker → Vote → ℕ → Added
  unfolding block_at hold_vote count_vote
  place_vote s t v address =
      if leb v.height (finalized_height env s)
      then (ok stale, t, s)
      else elim (block_at s v.height) [
        | some b ↦ if b.hash == v.hash then count_vote s t v address else (err other_block, t, s)
        | none ↦ hold_vote s t v address
      ]

  unfoldable pub add : Store env → VoteTracker → Vote → Added
  unfolding first_vote push_evidence place_vote
  add s t v = if not (verify_vote env v) then (err bad_signature, t, s) else elim (voter env v) [
    | none ↦ (err bad_key, t, s)
    | some address ↦ elim (first_vote t v.height address) [
      | none ↦ place_vote s t v address
      | some prev ↦
          if not (prev.hash == v.hash)
          then (err equivocating, push_evidence t (vote prev v), s)
          else place_vote s t v address
    ]
  ]

  unfoldable pub tally : VoteTracker → Store env → ℕ → ℕ × ℕ
  unfolding voted_from
  tally t s height =
      let set = validator_set env s in (voted_from 0 (votes_at t height) set, total_stake set)

  -- The loop of `replay_pending` over the votes that are ready.
  unfoldable pub replay :
      Store env → VoteTracker → Option ℕ → List Vote → Option ℕ × VoteTracker × Store env
  unfolding add
  replay s t finalized [] = (finalized, t, s)
  replay s t finalized (v ∷ vs) =
      let (r, t', s') = add s t v in
      replay s' t'
        (elim r [
          | err e ↦ finalized
          | ok o ↦ elim o.finalized [ none ↦ finalized | some h ↦ some h ]
        ])
        vs

  unfoldable pub replay_pending : Store env → VoteTracker → ℕ → Option ℕ × VoteTracker × Store env
  unfolding replay
  replay_pending s t height =
      let ready = retain (λ v. v.height == height) t.pending in
      let keep = retain (λ v. not (v.height == height)) t.pending in
      let t' = record t { pending = retain (λ v. ltb (finalized_height env s) v.height) keep } in
      replay s t' none ready
