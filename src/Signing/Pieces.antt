-- ===== src/Signing/Pieces.antt =====
-- The pieces of the signed bytes in src/types.rs: each can be split off what follows it.
use inazuma_core.Base.{
  ℕ, ◌%◌, ◌^◌, ◌<◌, ◌≡◌, refl, ap, sym, ◌∙◌, Option, none, some, List, [], ◌∷◌, ◌++◌, length, arith,
  append_assoc,
}
use inazuma_core.Records.{Payload}
use inazuma_core.Transactions.{ShieldedData}
use inazuma_core.Signing.{to_be_bytes, field, text, texts, counted}
use inazuma_core.Signing.Bytes.{length-to_be_bytes, to_be_bytes-injective}

abbrev pub head_or : ℕ → List ℕ → ℕ
head_or d [] = d
head_or d (x ∷ xs) = x

abbrev pub tail_of : List ℕ → List ℕ
tail_of [] = []
tail_of (x ∷ xs) = xs

-- Two texts of the same length in front of others.
pub append_split : (a b r s : List ℕ) → length a ≡ length b → a ++ r ≡ b ++ s → (a ≡ b) × (r ≡ s)
append_split [] [] r s h e = (refl, e)
append_split [] (y ∷ b) r s h e = absurd (omega (arith, h))
append_split (x ∷ a) [] r s h e = absurd (omega (arith, h))
append_split (x ∷ a) (y ∷ b) r s h e =
    let (same, rest) = append_split a b r s (omega (arith, h)) (ap tail_of e) in
    (rw (same, ap (head_or 0) e) refl, rest)

pub number_split :
    (width n m : ℕ) (r s : List ℕ)
    → n < 256 ^ width
    → m < 256 ^ width
    → to_be_bytes width n ++ r ≡ to_be_bytes width m ++ s
    → (n ≡ m) × (r ≡ s)
number_split width n m r s h k e =
    let (same, rest) =
      append_split (to_be_bytes width n) (to_be_bytes width m) r s
        (length-to_be_bytes width n ∙ sym (length-to_be_bytes width m)) e in
    (to_be_bytes-injective width n m h k same, rest)

pub field_split :
    (a b r s : List ℕ)
    → length a < 2 ^ 32
    → length b < 2 ^ 32
    → field a ++ r ≡ field b ++ s
    → (a ≡ b) × (r ≡ s)
unfolding field
field_split a b r s h k e =
    let n = length a % 2 ^ 32 in
    let m = length b % 2 ^ 32 in
    let (lengths, rest) =
      number_split 4 n m (a ++ r) (b ++ s) (omega arith) (omega arith)
        (sym (append_assoc (to_be_bytes 4 n) a r) ∙ e ∙ append_assoc (to_be_bytes 4 m) b s) in
    append_split a b r s (omega (arith, h, k, lengths)) rest

module _ (as_bytes : ℕ → List ℕ) where
  abbrev pub Short : ℕ → Type 0
  Short t = length (as_bytes t) < 2 ^ 32

  abbrev pub AllShort : List ℕ → Type 0
  AllShort [] = Unit {0}
  AllShort (t ∷ ts) = Short t × AllShort ts

  -- The texts of a payload and of shielded data are shorter than 4 GiB, as are the lists.
  abbrev pub PayloadFits : Option Payload → Type 0
  PayloadFits none = Unit {0}
  PayloadFits (some p) = Short p.token × Short p.symbol × Short p.name × Short p.code × Short p.args

  abbrev pub ShieldedFits : Option ShieldedData → Type 0
  ShieldedFits none = Unit {0}
  ShieldedFits (some d) =
      Short d.anchor
      × AllShort d.nullifiers
      × (length d.nullifiers < 2 ^ 32)
      × AllShort d.commitments
      × (length d.commitments < 2 ^ 32)
      × Short d.proof
      × Short d.public_unshield

  module _ (inj : (t u : ℕ) → as_bytes t ≡ as_bytes u → t ≡ u) where
    pub text_split :
        (t u : ℕ) (r s : List ℕ)
        → Short t
        → Short u
        → text as_bytes t ++ r ≡ text as_bytes u ++ s
        → (t ≡ u) × (r ≡ s)
    unfolding text
    text_split t u r s h k e =
        let (same, rest) = field_split (as_bytes t) (as_bytes u) r s h k e in (inj t u same, rest)

    texts_split :
        (ts us : List ℕ) (r s : List ℕ)
        → AllShort ts
        → AllShort us
        → length ts ≡ length us
        → texts as_bytes ts ++ r ≡ texts as_bytes us ++ s
        → (ts ≡ us) × (r ≡ s)
    unfolding texts
    texts_split [] [] r s h k l e = (refl, e)
    texts_split [] (u ∷ us) r s h k l e = absurd (omega (arith, l))
    texts_split (t ∷ ts) [] r s h k l e = absurd (omega (arith, l))
    texts_split (t ∷ ts) (u ∷ us) r s h k l e =
        let (first, rest) =
          text_split t u (texts as_bytes ts ++ r) (texts as_bytes us ++ s) h.0 k.0 (
            sym (append_assoc (text as_bytes t) (texts as_bytes ts) r)
            ∙ e
            ∙ append_assoc (text as_bytes u) (texts as_bytes us) s) in
        let (others, left) = texts_split ts us r s h.1 k.1 (omega (arith, l)) rest in
        (rw (first, others) refl, left)

    pub counted_split :
        (ts us : List ℕ) (r s : List ℕ)
        → AllShort ts
        → AllShort us
        → length ts < 2 ^ 32
        → length us < 2 ^ 32
        → counted as_bytes ts ++ r ≡ counted as_bytes us ++ s
        → (ts ≡ us) × (r ≡ s)
    unfolding counted
    counted_split ts us r s h k m n e =
        let a = to_be_bytes 4 (length ts % 2 ^ 32) in
        let b = to_be_bytes 4 (length us % 2 ^ 32) in
        let (numbers, rest) =
          number_split 4 (length ts % 2 ^ 32) (length us % 2 ^ 32) (texts as_bytes ts ++ r)
            (texts as_bytes us ++ s) (omega arith) (omega arith)
            (sym (append_assoc a (texts as_bytes ts) r)
              ∙ e
              ∙ append_assoc b (texts as_bytes us) s) in
        texts_split ts us r s h k (omega (arith, m, n, numbers)) rest
