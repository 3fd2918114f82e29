-- ===== src/Votes/Counting.antt =====
-- Which votes the tracker of src/consensus.rs counts.
use mathlib.Core.Option.{some-injective}
use inazuma_core.Base.{
  ℕ, ◌≡◌, ◌⊎◌, refl, sym, ap, ◌∙◌, true, false, Option, none, some, [], ◌∷◌, Dict, lookup, insert,
  arith, ltb, leb, ◌==◌, if◌then◌else◌, Result, ok, err, Bool-cases, Option-cases, inl, inr,
  lookup-insert, u64_add, ==_iff,
}
use inazuma_core.Platform.{Platform}
use inazuma_core.Records.{Vote, Evidence, vote}
use inazuma_core.Transactions.{Block}
use inazuma_core.State.{Store, finalized_height, set_finalized_height}
use inazuma_core.Slashing.{voter, verify_vote}
use inazuma_core.Votes.{
  VoteTracker, VoteOutcome, VoteError, Added, first_vote, retain_heights, votes_at, push_evidence,
  block_at, hold_vote, count_vote, place_vote, add, vote_retention_heights,
}

pub lookup-retain_heights :
    (height h : ℕ) (d : Dict (Dict Vote))
    → lookup h (retain_heights height d)
      ≡ (if ltb height (u64_add h vote_retention_heights) then lookup h d else none)
unfolding lookup retain_heights
lookup-retain_heights height h [] = ground arith
lookup-retain_heights height h ((k, at) ∷ d) = ground (arith, lookup-retain_heights height h d)

first_vote-votes_at : (t : VoteTracker) (h a : ℕ) → first_vote t h a ≡ lookup a (votes_at t h)
unfolding first_vote lookup
first_vote-votes_at t h a = elim (Option-cases (lookup h t.inner)) [
  | inl e ↦ ground (arith, e)
  | inr (at, e) ↦ ground (arith, e)
]

-- The height that a call finalized.
abbrev pub finalizes : Result VoteError VoteOutcome → Option ℕ
finalizes (err e) = none
finalizes (ok o) = o.finalized

module _ (env : Platform) where
  -- A vote of the tracker is signed by the voter under whose address it stands, for the block that
  -- the store has at its height.
  abbrev pub Backs : Store env → ℕ → ℕ → Vote → Type 0
  Backs s h a v =
      (verify_vote env v ≡ true)
      × (voter env v ≡ some a)
      × (v.height ≡ h)
      × ((b : Block) × (block_at env s h ≡ some b) × (b.hash ≡ v.hash))

  unfoldable pub IsCounted : Store env → VoteTracker → Type 0
  IsCounted s t = (h a : ℕ) (v : Vote) → first_vote t h a ≡ some v → Backs s h a v

  -- What a call did that did not count the vote, and what one did that counted it.
  abbrev pub Uncounted : Store env → VoteTracker → Added env → Type 0
  Uncounted s t r = (r.1.inner ≡ t.inner) × (r.2 ≡ s) × (finalizes r.0 ≡ none)

  abbrev pub Counted : Store env → VoteTracker → Vote → Type 0
  Counted s t v =
      (address : ℕ) × Backs s v.height address v × (add env s t v ≡ count_vote env s t v address)

  hold_vote-Uncounted :
      (s : Store env) (t : VoteTracker) (v : Vote) (address : ℕ)
      → Uncounted s t (hold_vote env s t v address)
  unfolding hold_vote
  hold_vote-Uncounted s t v address = ground arith

  push_evidence-inner : (t : VoteTracker) (e : Evidence) → (push_evidence env t e).inner ≡ t.inner
  unfolding push_evidence
  push_evidence-inner t e = ground arith

  place_cases :
      (s : Store env) (t : VoteTracker) (v : Vote) (address : ℕ)
      → Uncounted s t (place_vote env s t v address)
        ⊎ (((b : Block) × (block_at env s v.height ≡ some b) × (b.hash ≡ v.hash))
            × (place_vote env s t v address ≡ count_vote env s t v address))
  unfolding place_vote
  place_cases s t v address = elim (Bool-cases (leb v.height (finalized_height env s))) [
    | inl l ↦ inl (rw l (refl, refl, refl))
    | inr l ↦ elim (Option-cases (block_at env s v.height)) [
      | inl e ↦ inl (rw l (rw e (hold_vote-Uncounted s t v address)))
      | inr (b, e) ↦ elim (Bool-cases (b.hash == v.hash)) [
        | inl k ↦ inr ((b, e, (==_iff b.hash v.hash).0 k), rw l (rw e (rw k refl)))
        | inr k ↦ inl (rw l (rw e (rw k (refl, refl, refl))))
      ]
    ]
  ]

  add_known :
      (s : Store env) (t : VoteTracker) (v : Vote) (address : ℕ)
      → verify_vote env v ≡ true
      → voter env v ≡ some address
      → (add env s t v ≡ place_vote env s t v address) ⊎ Uncounted s t (add env s t v)
  unfolding add
  add_known s t v address signed who = elim (Option-cases (first_vote t v.height address)) [
    | inl e ↦ inl (rw signed (rw who (rw e refl)))
    | inr (prev, e) ↦ elim (Bool-cases (prev.hash == v.hash)) [
      | inl k ↦ inl (rw signed (rw who (rw e (rw k refl))))
      | inr k ↦
          inr (rw signed (rw who (rw e (rw k (push_evidence-inner t (vote prev v), refl, refl)))))
    ]
  ]

  add_unknown :
      (s : Store env) (t : VoteTracker) (v : Vote)
      → voter env v ≡ none
      → Uncounted s t (add env s t v)
  unfolding add
  add_unknown s t v who = elim (Bool-cases (verify_vote env v)) [
    | inl e ↦ rw e (rw who (refl, refl, refl))
    | inr e ↦ rw e (refl, refl, refl)
  ]

  add_unsigned :
      (s : Store env) (t : VoteTracker) (v : Vote)
      → verify_vote env v ≡ false
      → Uncounted s t (add env s t v)
  unfolding add
  add_unsigned s t v e = rw e (refl, refl, refl)

  pub add_cases :
      (s : Store env) (t : VoteTracker) (v : Vote) → Uncounted s t (add env s t v) ⊎ Counted s t v
  add_cases s t v = elim (Bool-cases (verify_vote env v)) [
    | inr e ↦ inl (add_unsigned s t v e)
    | inl signed ↦ elim (Option-cases (voter env v)) [
      | inl e ↦ inl (add_unknown s t v e)
      | inr (address, who) ↦ elim (add_known s t v address signed who) [
        | inr u ↦ inl u
        | inl placed ↦ elim (place_cases s t v address) [
          | inl u ↦ inl (rw placed u)
          | inr (backing, same) ↦ inr (address, (signed, who, refl, backing), placed ∙ same)
        ]
      ]
    ]
  ]

  block_at-finalized :
      (s : Store env) (height h : ℕ)
      → block_at env (set_finalized_height env s height) h ≡ block_at env s h
  unfolding block_at set_finalized_height
  block_at-finalized s height h = elim (Bool-cases (leb height (finalized_height env s))) [
    | inl e ↦ rw e refl
    | inr e ↦ rw e refl
  ]

  -- A count leaves the blocks alone, and adds the one vote at most.
  count_vote-blocks :
      (s : Store env) (t : VoteTracker) (v : Vote) (address h : ℕ)
      → block_at env (count_vote env s t v address).2 h ≡ block_at env s h
  unfolding count_vote
  count_vote-blocks s t v address h = ground (arith, block_at-finalized s v.height h)

  votes_at-insert :
      (t : VoteTracker) (k h : ℕ) (d : Dict Vote)
      → votes_at (record t { inner = insert k d t.inner }) h ≡ (if h == k then d else votes_at t h)
  votes_at-insert t k h d = ground (arith, lookup-insert k h d t.inner)

  first_vote-insert :
      (t : VoteTracker) (v : Vote) (address h a : ℕ)
      → first_vote
          (record t { inner = insert v.height (insert address v (votes_at t v.height)) t.inner })
          h
          a
        ≡ (if h == v.height
            then (if a == address then some v else first_vote t h a)
            else first_vote t h a)
  first_vote-insert t v address h a =
      let d = insert address v (votes_at t v.height) in
      let t' = record t { inner = insert v.height d t.inner } in
      let at : lookup a (votes_at t' h) ≡ lookup a (if h == v.height then d else votes_at t h) =
        ap (λ (x : Dict Vote). lookup a x) (votes_at-insert t v.height h d) in
      elim (Bool-cases (h == v.height)) [
        | inl k ↦
            let same : first_vote t h a ≡ lookup a (votes_at t v.height) =
              first_vote-votes_at t h a
              ∙ ap (λ (x : ℕ). lookup a (votes_at t x)) ((==_iff h v.height).0 k) in
            ground (
              arith,
              k,
              at,
              same,
              first_vote-votes_at t' h a,
              lookup-insert address a v (votes_at t v.height),
            )
        | inr k ↦ ground (arith, k, at, first_vote-votes_at t h a, first_vote-votes_at t' h a)
      ]

  inserted_vote :
      (t : VoteTracker) (v w : Vote) (address h a : ℕ)
      → first_vote
          (record t { inner = insert v.height (insert address v (votes_at t v.height)) t.inner })
          h
          a
        ≡ some w
      → ((h ≡ v.height) × (a ≡ address) × (v ≡ w)) ⊎ (first_vote t h a ≡ some w)
  inserted_vote t v w address h a e =
      let found = first_vote-insert t v address h a in
      elim (Bool-cases (h == v.height)) [
        | inr k ↦ inr (ground (arith, k, e, found))
        | inl k ↦ elim (Bool-cases (a == address)) [
          | inr l ↦ inr (ground (arith, k, l, e, found))
          | inl l ↦ inl (
            (==_iff h v.height).0 k,
            (==_iff a address).0 l,
            some-injective v w (ground (arith, k, l, e, found)),
          )
        ]
      ]

  retained_vote :
      (t : VoteTracker) (height h a : ℕ) (w : Vote)
      → first_vote (record t { inner = retain_heights height t.inner }) h a ≡ some w
      → first_vote t h a ≡ some w
  unfolding first_vote
  retained_vote t height h a w e = elim (Option-cases (lookup h t.inner)) [
    | inl k ↦ ground (arith, e, k, lookup-retain_heights height h t.inner)
    | inr (d, k) ↦ ground (arith, e, k, lookup-retain_heights height h t.inner)
  ]

  counted_vote :
      (s : Store env) (t : VoteTracker) (v w : Vote) (address h a : ℕ)
      → first_vote (count_vote env s t v address).1 h a ≡ some w
      → ((h ≡ v.height) × (a ≡ address) × (v ≡ w)) ⊎ (first_vote t h a ≡ some w)
  unfolding count_vote
  counted_vote s t v w address h a e =
      let t' = record t {
        inner = insert v.height (insert address v (votes_at t v.height)) t.inner;
      } in
      ground (arith, e, inserted_vote t v w address h a, retained_vote t' v.height h a w)

  first_vote-inner :
      (t t' : VoteTracker) (h a : ℕ) → t.inner ≡ t'.inner → first_vote t h a ≡ first_vote t' h a
  unfolding first_vote
  first_vote-inner t t' h a e = rw e refl

  Backs-count :
      (s : Store env) (t : VoteTracker) (v w : Vote) (address h a : ℕ)
      → Backs s h a w
      → Backs (count_vote env s t v address).2 h a w
  Backs-count s t v w address h a (signed, who, at, (b, found, k)) =
      (signed, who, at, (b, count_vote-blocks s t v address h ∙ found, k))

  kept :
      (s : Store env) (t t' : VoteTracker) (s' : Store env)
      → t'.inner ≡ t.inner
      → s' ≡ s
      → IsCounted s t
      → IsCounted s' t'
  unfolding IsCounted
  kept s t t' s' inner same counted h a w e =
      rw same (counted h a w (sym (first_vote-inner t' t h a inner) ∙ e))

  count-IsCounted :
      (s : Store env) (t : VoteTracker) (v : Vote) (address : ℕ)
      → IsCounted s t
      → Backs s v.height address v
      → IsCounted (count_vote env s t v address).2 (count_vote env s t v address).1
  unfolding IsCounted
  count-IsCounted s t v address counted backs h a w e =
      Backs-count s t v w address h a (elim (counted_vote s t v w address h a e) [
        | inl (i, j, k) ↦ rw i (rw j (rw (sym k) backs))
        | inr k ↦ counted h a w k
      ])

  -- Every vote that the tracker counts stands under the address of the voter who signed it, at its
  -- height, and is for the block that the store has there.
  pub add-IsCounted :
      (s : Store env) (t : VoteTracker) (v : Vote)
      → IsCounted s t
      → IsCounted (add env s t v).2 (add env s t v).1
  add-IsCounted s t v counted = elim (add_cases s t v) [
    | inl (inner, same, quiet) ↦ kept s t (add env s t v).1 (add env s t v).2 inner same counted
    | inr (address, backs, went) ↦ rw went (count-IsCounted s t v address counted backs)
  ]
