-- ===== src/Smt/Binding.antt =====
-- What `verify_proof` of src/smt.rs binds a root to.
use mathlib.Core.List.{append_cancel_left, head-eq_of_cons-eq, tail-eq_of_cons-eq}
use inazuma_core.Base.{
  ℕ, ◌≡◌, ◌≢◌, ◌⊎◌, refl, sym, ap, ◌∙◌, Bool, true, false, Option, none, some, List, [], ◌∷◌, ◌++◌,
  arith, length, Bool-cases, Option-cases, inl, inr,
}
use inazuma_core.Smt.{
  Hashing, Bits, same, path_of, parent, empty_at, leaf_key, leaf_hash, joined, all_hashes,
  recompute, verify_proof, zeros, leaf_tag, bar, empty_hashes,
}
use inazuma_core.Smt.Nodes.{same-≡, same_refl, length-leaf_hash, length-joined, length-empty_at}

append-split : (x x' y y' : List ℕ) → length x ≡ length x' → x ++ y ≡ x' ++ y' → (x ≡ x') × (y ≡ y')
append-split [] [] y y' k h = (refl, h)
append-split [] (a ∷ x') y y' k h = absurd (omega (arith, k))
append-split (a ∷ x) [] y y' k h = absurd (omega (arith, k))
append-split (a ∷ x) (b ∷ x') y y' k h =
    let (e, f) = append-split x x' y y' (omega (arith, k)) (tail-eq_of_cons-eq h) in
    (rw (head-eq_of_cons-eq h) (rw e refl), f)

module _ (hashing : Hashing) where
  -- Two texts with one hash.
  abbrev pub Collision : Type 0
  Collision = (x : List ℕ) × (y : List ℕ) × (x ≢ y) × (hashing.sha256 x ≡ hashing.sha256 y)

  -- A text whose hash is that of an empty leaf.
  abbrev pub ZeroHash : Type 0
  ZeroHash = (x : List ℕ) × (hashing.sha256 x ≡ zeros)

  hash-splits : (x y : List ℕ) → hashing.sha256 x ≡ hashing.sha256 y → (x ≡ y) ⊎ Collision
  hash-splits x y h = elim (Bool-cases (same x y)) [
    | inl e ↦ inl (same-≡ x y e)
    | inr e ↦
        let differ : x ≢ y = λ q. ground (arith, e, same_refl x, ap (λ (z : List ℕ). same x z) q) in
        inr (x, y, differ, h)
  ]

  parent-splits :
      (x y x' y' : List ℕ)
      → length x ≡ length x'
      → parent hashing x y ≡ parent hashing x' y'
      → ((x ≡ x') × (y ≡ y')) ⊎ Collision
  unfolding parent
  parent-splits x y x' y' k h = elim (hash-splits (x ++ y) (x' ++ y') h) [
    | inl e ↦ inl (append-split x x' y y' k e)
    | inr c ↦ inr c
  ]

  joined-splits :
      (b : Bool) (cur sib cur' sib' : List ℕ)
      → length cur ≡ 32
      → length cur' ≡ 32
      → length sib ≡ 32
      → length sib' ≡ 32
      → joined hashing b cur sib ≡ joined hashing b cur' sib'
      → (cur ≡ cur') ⊎ Collision
  unfolding joined
  joined-splits false cur sib cur' sib' k k' l l' h =
      elim (parent-splits cur sib cur' sib' (k ∙ sym k') h) [ inl (e, f) ↦ inl e | inr c ↦ inr c ]
  joined-splits true cur sib cur' sib' k k' l l' h =
      elim (parent-splits sib cur sib' cur' (l ∙ sym l') h) [ inl (e, f) ↦ inl f | inr c ↦ inr c ]

  -- One round of the loop that goes through.
  abbrev Round : Bool → Bits → List ℕ → List ℕ × List (List ℕ) → Type 0
  Round b p cur r =
      (sib : List ℕ) × (bitmap : Bits) × (sibs : List (List ℕ)) × (length sib ≡ 32)
      × (all_hashes hashing sibs ≡ true)
      × (recompute hashing p bitmap (joined hashing b cur sib) sibs ≡ some r)

  recompute-Round :
      (b : Bool) (p bitmap : Bits) (cur : List ℕ) (sibs : List (List ℕ))
      (r : List ℕ × List (List ℕ))
      → all_hashes hashing sibs ≡ true
      → recompute hashing (b ∷ p) bitmap cur sibs ≡ some r
      → Round b p cur r
  unfolding recompute
  recompute-Round b p [] cur sibs r k h = absurd (ground (arith, h))
  recompute-Round b p (true ∷ bitmap) cur [] r k h = absurd (ground (arith, h))
  recompute-Round b p (true ∷ bitmap) cur (s ∷ sibs) r k h =
      (s, bitmap, sibs, ground (arith, k), ground (arith, k), h)
  recompute-Round b p (false ∷ bitmap) cur sibs r k h = (
    empty_at hashing (length (b ∷ p)),
    bitmap,
    sibs,
    length-empty_at hashing (length (b ∷ p)),
    k,
    h,
  )

  recompute-binds :
      (p bitmap bitmap' : Bits) (cur cur' top : List ℕ) (sibs sibs' rest rest' : List (List ℕ))
      → length cur ≡ 32
      → length cur' ≡ 32
      → all_hashes hashing sibs ≡ true
      → all_hashes hashing sibs' ≡ true
      → recompute hashing p bitmap cur sibs ≡ some (top, rest)
      → recompute hashing p bitmap' cur' sibs' ≡ some (top, rest')
      → (cur ≡ cur') ⊎ Collision
  unfolding recompute
  recompute-binds [] bitmap bitmap' cur cur' top sibs sibs' rest rest' k k' a a' h h' =
      inl (ground (arith, h, h'))
  recompute-binds (b ∷ p) bitmap bitmap' cur cur' top sibs sibs' rest rest' k k' a a' h h' =
      let (s, bm, ss, l, all, go) = recompute-Round b p bitmap cur sibs (top, rest) a h in
      let (s', bm', ss', l', all', go') =
        recompute-Round b p bitmap' cur' sibs' (top, rest') a' h' in
      elim (recompute-binds p bm bm' (joined hashing b cur s) (joined hashing b cur' s') top ss ss'
        rest rest' (length-joined hashing b cur s) (length-joined hashing b cur' s') all all' go
        go') [ inl e ↦ joined-splits b cur s cur' s' k k' l l' e | inr c ↦ inr c ]

  -- What an accepted proof has computed.
  verify_proof-recomputes :
      (top domain key : List ℕ) (value : Option (List ℕ)) (sibs : List (List ℕ)) (bitmap : Bits)
      → verify_proof hashing top domain key value sibs bitmap ≡ true
      → (rest : List (List ℕ)) × (all_hashes hashing sibs ≡ true)
        × (recompute hashing
              (path_of (leaf_key hashing domain key))
              bitmap
              (leaf_hash hashing (leaf_key hashing domain key) value)
              sibs
            ≡ some (top, rest))
  unfolding verify_proof
  verify_proof-recomputes top domain key value sibs bitmap h =
      let lk = leaf_key hashing domain key in
      elim (Option-cases
        (recompute hashing (path_of lk) bitmap (leaf_hash hashing lk value) sibs)) [
          | inl e ↦ absurd (ground (arith, e, h))
          | inr ((cur, rest), e) ↦ (
            rest,
            ground (arith, e, h),
            e ∙ ap (λ (x : List ℕ). some (x, rest)) (same-≡ cur top (ground (arith, e, h))),
          )
        ]

  leaf_hash-binds :
      (key : List ℕ) (value value' : Option (List ℕ))
      → leaf_hash hashing key value ≡ leaf_hash hashing key value'
      → (value ≡ value') ⊎ Collision ⊎ ZeroHash
  unfolding leaf_hash empty_at empty_hashes
  leaf_hash-binds key none none h = inl refl
  leaf_hash-binds key none (some w) h = inr (inr (leaf_tag ++ key ++ bar ++ w, sym h))
  leaf_hash-binds key (some v) none h = inr (inr (leaf_tag ++ key ++ bar ++ v, h))
  leaf_hash-binds key (some v) (some w) h =
      elim (hash-splits (leaf_tag ++ key ++ bar ++ v) (leaf_tag ++ key ++ bar ++ w) h) [
        | inl e ↦
            inl (ap (λ (x : List ℕ). some x) (append_cancel_left (leaf_tag ++ key ++ bar) v w e))
        | inr c ↦ inr (inl c)
      ]

  -- Whatever proofs are offered, a root stands for one value at a key, absence included: two
  -- accepted proofs for different values make a collision of the hash, or a text whose hash is the
  -- empty leaf.
  pub verify_proof-binds :
      (top domain key : List ℕ) (value value' : Option (List ℕ)) (sibs sibs' : List (List ℕ))
      (bitmap bitmap' : Bits)
      → verify_proof hashing top domain key value sibs bitmap ≡ true
      → verify_proof hashing top domain key value' sibs' bitmap' ≡ true
      → (value ≡ value') ⊎ Collision ⊎ ZeroHash
  verify_proof-binds top domain key value value' sibs sibs' bitmap bitmap' h h' =
      let lk = leaf_key hashing domain key in
      let (rest, a, go) = verify_proof-recomputes top domain key value sibs bitmap h in
      let (rest', a', go') = verify_proof-recomputes top domain key value' sibs' bitmap' h' in
      elim (recompute-binds (path_of lk) bitmap bitmap' (leaf_hash hashing lk value)
        (leaf_hash hashing lk value') top sibs sibs' rest rest' (length-leaf_hash hashing lk value)
        (length-leaf_hash hashing lk value') a a' go go') [
          | inl e ↦ leaf_hash-binds lk value value' e
          | inr c ↦ inr (inl c)
        ]
