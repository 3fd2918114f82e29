-- ===== src/Smt/Nodes.antt =====
-- Reading and writing the nodes of src/smt.rs.
use inazuma_core.Base.{
  ℕ, zero, suc, ◌+◌, ◌-◌, ◌*◌, ◌/◌, ◌%◌, ◌≤◌, ◌≡◌, refl, ap, ◌∙◌, Bool, true, false, Option, none,
  some, List, [], ◌∷◌, arith, length, take, ◌==◌, ==_iff, Option-cases, inl, inr,
}
use inazuma_core.Smt.{
  Hashing, Bits, Nodes, same, same_bits, push_bits, path_of, parent, empty_hashes, empty_at,
  leaf_key, leaf_hash, get_node, put_node, joined,
}

pub same-≡ : (x y : List ℕ) → same x y ≡ true → x ≡ y
unfolding same
same-≡ [] [] h = refl
same-≡ [] (b ∷ y) h = ground (arith, h)
same-≡ (a ∷ x) [] h = ground (arith, h)
same-≡ (a ∷ x) (b ∷ y) h = ground (arith, h, ==_iff a b, same-≡ x y)

pub same_refl : (x : List ℕ) → same x x ≡ true
unfolding same
same_refl [] = refl
same_refl (a ∷ x) = ground (arith, same_refl x)

pub same_bits-≡ : (p q : Bits) → same_bits p q ≡ true → p ≡ q
unfolding same_bits
same_bits-≡ [] [] h = refl
same_bits-≡ [] (b ∷ q) h = ground (arith, h)
same_bits-≡ (a ∷ p) [] h = ground (arith, h)
same_bits-≡ (true ∷ p) (true ∷ q) h = ap (λ (r : Bits). true ∷ r) (same_bits-≡ p q h)
same_bits-≡ (true ∷ p) (false ∷ q) h = ground (arith, h)
same_bits-≡ (false ∷ p) (true ∷ q) h = ground (arith, h)
same_bits-≡ (false ∷ p) (false ∷ q) h = ap (λ (r : Bits). false ∷ r) (same_bits-≡ p q h)

pub same_bits_refl : (p : Bits) → same_bits p p ≡ true
unfolding same_bits
same_bits_refl [] = refl
same_bits_refl (true ∷ p) = same_bits_refl p
same_bits_refl (false ∷ p) = same_bits_refl p

-- Nodes of different depths are different.
pub same_bits-length : (p q : Bits) → same_bits p q ≡ true → length p ≡ length q
same_bits-length p q h = ap (λ (r : Bits). length r) (same_bits-≡ p q h)

length-push_bits : (bs : List ℕ) (p : Bits) → length (push_bits bs p) ≡ 8 * length bs + length p
unfolding push_bits
length-push_bits [] p = omega arith
length-push_bits (b ∷ bs) p =
    let bit : ℕ → Bool = λ w. b / w % 2 == 1 in
    omega (
      arith,
      length-push_bits bs (bit 1 ∷ bit 2 ∷ bit 4 ∷ bit 8 ∷ bit 16 ∷ bit 32 ∷ bit 64 ∷ bit 128 ∷ p),
    )

length-take : (n : ℕ) (bs : List ℕ) → n ≤ length bs → length (take n bs) ≡ n
length-take zero bs h = refl
length-take (suc n) [] h = omega (arith, h)
length-take (suc n) (b ∷ bs) h = omega (arith, length-take n bs (omega (arith, h)))

module _ (hashing : Hashing) where
  pub length-path_of : (domain key : List ℕ) → length (path_of (leaf_key hashing domain key)) ≡ 128
  unfolding path_of leaf_key
  length-path_of domain key =
      let lk = leaf_key hashing domain key in
      let k : length lk ≡ 32 = hashing.length-sha256 _ in
      length-push_bits (take 16 lk) [] ∙ omega (arith, length-take 16 lk (omega (arith, k)))

  length-parent : (x y : List ℕ) → length (parent hashing x y) ≡ 32
  unfolding parent
  length-parent x y = hashing.length-sha256 _

  length-empty_hashes : (n : ℕ) → length (empty_hashes hashing n) ≡ 32
  unfolding empty_hashes
  length-empty_hashes zero = refl
  length-empty_hashes (suc n) = length-parent (empty_hashes hashing n) (empty_hashes hashing n)

  pub length-empty_at : (d : ℕ) → length (empty_at hashing d) ≡ 32
  unfolding empty_at
  length-empty_at d = length-empty_hashes (128 - d)

  pub length-leaf_hash :
      (key : List ℕ) (v : Option (List ℕ)) → length (leaf_hash hashing key v) ≡ 32
  unfolding leaf_hash
  length-leaf_hash key none = length-empty_at 128
  length-leaf_hash key (some v) = hashing.length-sha256 _

  pub length-joined : (b : Bool) (x y : List ℕ) → length (joined hashing b x y) ≡ 32
  unfolding joined
  length-joined true x y = length-parent y x
  length-joined false x y = length-parent x y

  pub length-get_node : (nodes : Nodes) (p : Bits) → length (get_node hashing nodes p) ≡ 32
  unfolding get_node
  length-get_node nodes p = elim (Option-cases (nodes p)) [
    | inl e ↦ ground (arith, e, length-empty_at (length p))
    | inr (v, e) ↦ ground (arith, e, length-empty_at (length p))
  ]

  -- A node reads what was written to it last, also where an empty subtree is not stored.
  pub get-put_same :
      (nodes : Nodes) (p : Bits) (h : List ℕ)
      → length h ≡ 32
      → get_node hashing (put_node hashing nodes p h) p ≡ h
  unfolding get_node put_node
  get-put_same nodes p h k =
      ground (arith, k, same_bits_refl p, same-≡ h (empty_at hashing (length p)))

  pub get-put_other :
      (nodes : Nodes) (p q : Bits) (h : List ℕ)
      → same_bits q p ≡ false
      → get_node hashing (put_node hashing nodes p h) q ≡ get_node hashing nodes q
  unfolding get_node put_node
  get-put_other nodes p q h e = ground (arith, e)

  pub empty_at-parent :
      (d : ℕ)
      → suc d ≤ 128
      → empty_at hashing d ≡ parent hashing (empty_at hashing (suc d)) (empty_at hashing (suc d))
  unfolding empty_at empty_hashes
  empty_at-parent d h =
      let e : 128 - d ≡ suc (128 - suc d) = omega (arith, h) in
      ap (λ (n : ℕ). empty_hashes hashing n) e
