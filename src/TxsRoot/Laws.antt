-- ===== src/TxsRoot/Laws.antt =====
-- What the root of a block's transactions in src/types.rs binds, and what not.
use inazuma_core.Base.{
  ℕ, zero, suc, ◌+◌, ◌*◌, ◌%◌, ◌≤◌, ◌<◌, ◌≡◌, ◌≢◌, ◌⊎◌, refl, ap, sym, length-append, ◌∙◌, false,
  List, [], ◌∷◌, ◌++◌, length, map, arith, leb, ◌==◌, Bool-cases, inl, inr, ==_iff,
}
use inazuma_core.TxsRoot.{pair_up, fold_level, txs_root, root_of}

module _ (sha256_pair : ℕ → ℕ → ℕ) where
  pair_up-length :
      (level : List ℕ)
      → (length (pair_up sha256_pair level) * 2 ≤ length level + 1)
        × (length level ≤ length (pair_up sha256_pair level) * 2)
  unfolding pair_up
  pair_up-length [] = omega arith
  pair_up-length (x ∷ []) = omega arith
  pair_up-length (x ∷ y ∷ level) = omega (arith, pair_up-length level)

  -- Fuel for as many rounds as there are digests leaves one digest.
  fold_level-one :
      (n : ℕ) (level : List ℕ) → length level ≤ suc n → length (fold_level sha256_pair n level) ≤ 1
  unfolding fold_level
  fold_level-one zero level h = omega (arith, h)
  fold_level-one (suc n) level h =
      ground (arith, h, pair_up-length level, fold_level-one n (pair_up sha256_pair level))

  fold_level-some :
      (n : ℕ) (level : List ℕ) → 0 < length level → 0 < length (fold_level sha256_pair n level)
  unfolding fold_level
  fold_level-some zero level h = h
  fold_level-some (suc n) level h =
      ground (arith, h, pair_up-length level, fold_level-some n (pair_up sha256_pair level))

  abbrev pub Collision : Type 0
  Collision =
      (a : ℕ) × (b : ℕ) × (c : ℕ) × (d : ℕ) × ((a ≢ c) ⊎ (b ≢ d))
      × (sha256_pair a b ≡ sha256_pair c d)

  split_pair : (a b c d : ℕ) → sha256_pair a b ≡ sha256_pair c d → ((a ≡ c) × (b ≡ d)) ⊎ Collision
  split_pair a b c d h = elim (Bool-cases (a == c)) [
    | inr e ↦ inr (a, b, c, d, inl (λ s. ground (arith, e, s)), h)
    | inl e ↦ elim (Bool-cases (b == d)) [
      | inr f ↦ inr (a, b, c, d, inr (λ s. ground (arith, f, s)), h)
      | inl f ↦ inl ((==_iff a c).0 e, (==_iff b d).0 f)
    ]
  ]

  abbrev head_or : ℕ → List ℕ → ℕ
  head_or d [] = d
  head_or d (x ∷ xs) = x

  abbrev tail_of : List ℕ → List ℕ
  tail_of [] = []
  tail_of (x ∷ xs) = xs

  pair_up-binds :
      (xs ys : List ℕ)
      → length xs ≡ length ys
      → pair_up sha256_pair xs ≡ pair_up sha256_pair ys
      → (xs ≡ ys) ⊎ Collision
  unfolding pair_up
  pair_up-binds [] [] h e = inl refl
  pair_up-binds [] (y ∷ ys) h e = absurd (omega (arith, h))
  pair_up-binds (x ∷ xs) [] h e = absurd (omega (arith, h))
  pair_up-binds (x ∷ []) (y ∷ z ∷ ys) h e = absurd (omega (arith, h))
  pair_up-binds (x ∷ w ∷ xs) (y ∷ []) h e = absurd (omega (arith, h))
  pair_up-binds (x ∷ []) (y ∷ []) h e = elim (split_pair x x y y (ap (head_or 0) e)) [
    | inr broken ↦ inr broken
    | inl both ↦ inl (ap (λ a. a ∷ []) both.0)
  ]
  pair_up-binds (x ∷ w ∷ xs) (y ∷ z ∷ ys) h e = elim (split_pair x w y z (ap (head_or 0) e)) [
    | inr broken ↦ inr broken
    | inl both ↦ elim (pair_up-binds xs ys (omega (arith, h)) (ap tail_of e)) [
      | inr broken ↦ inr broken
      | inl rest ↦ inl (rw (both.0, both.1, rest) refl)
    ]
  ]

  fold_level-binds :
      (n : ℕ) (xs ys : List ℕ)
      → length xs ≡ length ys
      → fold_level sha256_pair n xs ≡ fold_level sha256_pair n ys
      → (xs ≡ ys) ⊎ Collision
  unfolding fold_level
  fold_level-binds zero xs ys h e = inl e
  fold_level-binds (suc n) xs ys h e =
      let as_long : leb (length ys) 1 ≡ leb (length xs) 1 = ap (λ m. leb m 1) (sym h) in
      elim (Bool-cases (leb (length xs) 1)) [
        | inl one ↦ inl (rw (fold_level, one, as_long ∙ one) at e)
        | inr more ↦
            elim (fold_level-binds n (pair_up sha256_pair xs) (pair_up sha256_pair ys)
              (omega (arith, h, pair_up-length xs, pair_up-length ys))
              (rw (fold_level, more, as_long ∙ more) at e)) [
                | inr broken ↦ inr broken
                | inl same ↦ pair_up-binds xs ys h same
              ]
      ]

  -- More fuel than digests changes nothing.
  fold_level-more :
      (n : ℕ) (level : List ℕ)
      → length level ≤ suc n
      → fold_level sha256_pair (suc n) level ≡ fold_level sha256_pair n level
  unfolding fold_level
  fold_level-more zero level h = ground (arith, h)
  fold_level-more (suc n) level h = ground (
    arith,
    h,
    λ (k : length (pair_up sha256_pair level) ≤ suc n).
        fold_level-more n (pair_up sha256_pair level) k,
    pair_up-length level,
  )

  pair_up-doubled :
      (xs : List ℕ) (x : ℕ)
      → length xs % 2 ≡ 0
      → pair_up sha256_pair (xs ++ x ∷ []) ≡ pair_up sha256_pair (xs ++ (x ∷ x ∷ []))
  unfolding pair_up
  pair_up-doubled [] x h = refl
  pair_up-doubled (y ∷ []) x h = absurd (omega (arith, h))
  pair_up-doubled (y ∷ z ∷ xs) x h =
      ap (λ l. sha256_pair y z ∷ l) (pair_up-doubled xs x (omega (arith, h)))

  fold_level-doubled :
      (n : ℕ) (xs : List ℕ) (x : ℕ)
      → length xs % 2 ≡ 0
      → 0 < length xs
      → fold_level sha256_pair (suc n) (xs ++ x ∷ [])
        ≡ fold_level sha256_pair (suc n) (xs ++ (x ∷ x ∷ []))
  unfolding fold_level
  fold_level-doubled n xs x h k =
      let one : leb (length (xs ++ x ∷ [])) 1 ≡ false =
        ground (arith, k, length-append xs (x ∷ [])) in
      let two : leb (length (xs ++ (x ∷ x ∷ []))) 1 ≡ false =
        ground (arith, k, length-append xs (x ∷ x ∷ [])) in
      rw (fold_level, one, two) (ap (fold_level sha256_pair n) (pair_up-doubled xs x h))

  module _ (sha256_text hex_digest : ℕ → ℕ) (empty_root : ℕ) where
    abbrev pub TextCollision : Type 0
    TextCollision = (a : ℕ) × (b : ℕ) × (a ≢ b) × (sha256_text a ≡ sha256_text b)

    texts-bind :
        (xs ys : List ℕ) → map sha256_text xs ≡ map sha256_text ys → (xs ≡ ys) ⊎ TextCollision
    texts-bind [] [] e = inl refl
    texts-bind [] (y ∷ ys) e = absurd (ground (arith, e))
    texts-bind (x ∷ xs) [] e = absurd (ground (arith, e))
    texts-bind (x ∷ xs) (y ∷ ys) e = elim (Bool-cases (x == y)) [
      | inr d ↦ inr (x, y, (λ s. ground (arith, d, s)), ap (head_or 0) e)
      | inl s ↦ elim (texts-bind xs ys (ap tail_of e)) [
        | inr broken ↦ inr broken
        | inl rest ↦ inl (rw ((==_iff x y).0 s, rest) refl)
      ]
    ]

    length-map : (xs : List ℕ) → length (map sha256_text xs) ≡ length xs
    length-map [] = refl
    length-map (x ∷ xs) = omega (arith, length-map xs)

    map-append :
        (xs ys : List ℕ) → map sha256_text (xs ++ ys) ≡ map sha256_text xs ++ map sha256_text ys
    map-append [] ys = refl
    map-append (x ∷ xs) ys = ap (λ l. sha256_text x ∷ l) (map-append xs ys)

    only_digest :
        ((a b : ℕ) → hex_digest a ≡ hex_digest b → a ≡ b)
        → (l m : List ℕ) → length l ≤ 1
        → length m ≤ 1
        → 0 < length l
        → 0 < length m
        → root_of hex_digest empty_root l ≡ root_of hex_digest empty_root m
        → l ≡ m
    only_digest inj [] m a b c d e = absurd (omega (arith, c))
    only_digest inj (x ∷ l) [] a b c d e = absurd (omega (arith, d))
    only_digest inj (x ∷ y ∷ l) (z ∷ m) a b c d e = absurd (omega (arith, a))
    only_digest inj (x ∷ []) (z ∷ w ∷ m) a b c d e = absurd (omega (arith, b))
    only_digest inj (x ∷ []) (z ∷ []) a b c d e = ap (λ v. v ∷ []) (inj x z e)

    -- Among lists of the same length the root binds the transactions: with the same root they have the
    -- same hashes, or SHA-256 has a collision. That two texts of digests in hex are the same only for
    -- the same digest is a condition.
    pub txs_root-binds :
        ((a b : ℕ) → hex_digest a ≡ hex_digest b → a ≡ b)
        → (xs ys : List ℕ) → length xs ≡ length ys
        → txs_root sha256_pair sha256_text hex_digest empty_root xs
          ≡ txs_root sha256_pair sha256_text hex_digest empty_root ys
        → (xs ≡ ys) ⊎ Collision ⊎ TextCollision
    unfolding txs_root
    txs_root-binds inj [] [] h e = inl refl
    txs_root-binds inj [] (y ∷ ys) h e = absurd (omega (arith, h))
    txs_root-binds inj (x ∷ xs) [] h e = absurd (omega (arith, h))
    txs_root-binds inj (x ∷ xs) (y ∷ ys) h e =
        let l = map sha256_text (x ∷ xs) in
        let m = map sha256_text (y ∷ ys) in
        let long : length l ≡ length m = omega (arith, h, length-map xs, length-map ys) in
        let same : fold_level sha256_pair (length l) l ≡ fold_level sha256_pair (length m) m =
          only_digest inj (fold_level sha256_pair (length l) l)
            (fold_level sha256_pair (length m) m) (fold_level-one (length l) l (omega arith))
            (fold_level-one (length m) m (omega arith)) (fold_level-some (length l) l (omega arith))
            (fold_level-some (length m) m (omega arith)) e in
        elim (fold_level-binds (length l) l m long
          (same ∙ ap (λ n. fold_level sha256_pair n m) (sym long))) [
            | inr broken ↦ inr (inl broken)
            | inl hashed ↦ elim (texts-bind (x ∷ xs) (y ∷ ys) hashed) [
              | inr broken ↦ inr (inr broken)
              | inl equal ↦ inl equal
            ]
          ]

    -- The root does not bind the number of transactions: an odd number of three at least has the root
    -- of the same list with its last transaction repeated.
    pub txs_root-doubled :
        (xs : List ℕ) (x : ℕ)
        → length xs % 2 ≡ 0
        → 0 < length xs
        → txs_root sha256_pair sha256_text hex_digest empty_root (xs ++ x ∷ [])
          ≡ txs_root sha256_pair sha256_text hex_digest empty_root (xs ++ (x ∷ x ∷ []))
    unfolding txs_root
    txs_root-doubled [] x h k = absurd (omega (arith, k))
    txs_root-doubled (y ∷ ys) x h k =
        let l = map sha256_text (y ∷ ys) in
        let d = sha256_text x in
        let short = map-append (y ∷ ys) (x ∷ []) in
        let long = map-append (y ∷ ys) (x ∷ x ∷ []) in
        let even : length l % 2 ≡ 0 = omega (arith, h, length-map ys) in
        let n = length l in
        let fuel : length (l ++ d ∷ []) ≡ suc n = omega (arith, length-append l (d ∷ [])) in
        let fuel' : length (l ++ (d ∷ d ∷ [])) ≡ suc (suc n) =
          omega (arith, length-append l (d ∷ d ∷ [])) in
        ap (root_of hex_digest empty_root) (
          ap (λ (m : List ℕ). fold_level sha256_pair (length m) m) short
          ∙ ap (λ f. fold_level sha256_pair f (l ++ d ∷ [])) fuel
          ∙ fold_level-doubled n l d even (omega arith)
          ∙ sym (fold_level-more (suc n) (l ++ (d ∷ d ∷ [])) (omega (arith, fuel')))
          ∙ ap (λ f. fold_level sha256_pair f (l ++ (d ∷ d ∷ []))) (sym fuel')
          ∙ ap (λ (m : List ℕ). fold_level sha256_pair (length m) m) (sym long))
