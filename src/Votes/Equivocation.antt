-- ===== src/Votes/Equivocation.antt =====
-- The proofs that the vote tracker of src/consensus.rs collects, under the rules of src/slashing.rs.
use inazuma_core.Base.{
  ℕ, ◌≡◌, ◌≢◌, refl, Bool, true, false, some, List, [], ◌∷◌, ◌++◌, length, arith, ltb, ◌==◌, any,
  ok, err, Option-cases, Bool-cases, inl, inr,
}
use inazuma_core.Platform.{Platform}
use inazuma_core.Records.{Vote, Evidence, vote}
use inazuma_core.State.{Store}
use inazuma_core.Slashing.{voter, verify_vote, verify_key, verify_evidence, evidence_id}
use inazuma_core.Votes.{VoteTracker, first_vote, push_evidence, add, equivocating, make_room}
use inazuma_core.Votes.Counting.{IsCounted}

module _ (env : Platform) where
  abbrev pub is_kept : Evidence → List Evidence → Bool
  is_kept e es = any (λ f. evidence_id env f == evidence_id env e) es

  any-last :
      (p : Evidence → Bool) (es : List Evidence) (e : Evidence)
      → p e ≡ true
      → any p (es ++ e ∷ []) ≡ true
  any-last p [] e h = ground (arith, h)
  any-last p (f ∷ es) e h = ground (arith, any-last p es e h)

  push_evidence-kept :
      (t : VoteTracker) (e : Evidence) → is_kept e (push_evidence env t e).evidence ≡ true
  unfolding push_evidence
  push_evidence-kept t e = elim (Bool-cases (is_kept e t.evidence)) [
    | inl k ↦ ground (arith, k)
    | inr k ↦ rw k (
        any-last (λ f. evidence_id env f == evidence_id env e)
          (make_room (ltb 64 (length t.evidence)) t.evidence) e (ground arith))
  ]

  key_verified :
      (a : Vote) (address : ℕ)
      → verify_vote env a ≡ true
      → voter env a ≡ some address
      → verify_key env a address ≡ ok address
  unfolding verify_key voter verify_vote
  key_verified a address signed who = elim (Option-cases (env.hex_decode a.voter_pubkey)) [
    | inl e ↦ absurd (ground (arith, e, who))
    | inr (raw, e) ↦ ground (arith, e, who, signed)
  ]

  conflict-verified :
      (a b : Vote) (address : ℕ)
      → verify_vote env a ≡ true
      → verify_vote env b ≡ true
      → voter env a ≡ some address
      → a.height ≡ b.height
      → b.height ≢ 0
      → a.hash ≢ b.hash
      → a.voter_pubkey ≡ b.voter_pubkey
      → verify_evidence env (vote a b) ≡ ok address
  unfolding verify_evidence
  conflict-verified a b address signed signed' who at zero differ keys =
      ground
        (arith, signed, signed', who, at, zero, differ, keys, key_verified a address signed who)

  -- A second vote for another block at a height where the voter's first one was counted is refused,
  -- and the pair is kept as evidence (or one with the same id is) that the slashing rules accept
  -- against the voter, if the two name the key by the same text and the height is not 0.
  pub add_equivocation :
      (s : Store env) (t : VoteTracker) (prev v : Vote) (address : ℕ)
      → IsCounted env s t
      → verify_vote env v ≡ true
      → voter env v ≡ some address
      → first_vote t v.height address ≡ some prev
      → prev.hash ≢ v.hash
      → prev.voter_pubkey ≡ v.voter_pubkey
      → v.height ≢ 0
      → ((add env s t v).0 ≡ err equivocating)
        × ((add env s t v).2 ≡ s)
        × (is_kept (vote prev v) (add env s t v).1.evidence ≡ true)
        × (verify_evidence env (vote prev v) ≡ ok address)
  unfolding add IsCounted
  add_equivocation s t prev v address counted signed who first differ keys high =
      let (signed', who', at, backing) = counted v.height address prev first in
      let other : (prev.hash == v.hash) ≡ false = ground (arith, differ) in
      (
        rw signed (rw who (rw first (rw other refl))),
        rw signed (rw who (rw first (rw other refl))),
        rw signed (rw who (rw first (rw other (push_evidence-kept t (vote prev v))))),
        conflict-verified prev v address signed' signed who' at high differ keys,
      )
