-- ===== src/Signguard.antt =====
-- The double-sign guard of src/signguard.rs with its file, and what src/chain.rs `produce_block`
-- does with it: ask, sign, and record before the block leaves the node. A process that stops loses its memory and keeps the
-- file. The text of the file is opaque: a `Format` writes and splits it.
pub mod History
use inazuma_core.Base.{
  ℕ, ◌<◌, ◌≡◌, Bool, true, false, not, Option, none, some, List, [], ◌∷◌, ltb, leb, ◌==◌,
  if◌then◌else◌, u64_mod,
}
use inazuma_core.State.{unwrap_or}

-- `format!("{} {}\\n", address, height)`, `split_whitespace` and `parse::<u64>`. An address is base58
-- text: no white space.
pub record Format : Type 0 where
  pub line : ℕ → ℕ → ℕ
  pub words : ℕ → List ℕ
  pub decimal : ℕ → ℕ
  pub parse_u64 : ℕ → Option ℕ
  pub words-line :
      (address height : ℕ) → words (line address height) ≡ address ∷ decimal height ∷ []
  pub parse_u64-decimal : (height : ℕ) → height < u64_mod → parse_u64 (decimal height) ≡ some height

pub record SignGuard : Type 0 where
  pub address : ℕ
  pub highest : ℕ
  -- The file at `path`; none where it is missing.
  pub file : Option ℕ

-- What becomes of a write to the file.
pub data Write : Type 0 where
  -- written and synced
  saved : Write
  -- `File::create` fails: the old file stays
  refused : Write
  -- the file is created, and what is written is cut off: this text is left
  torn : ℕ → Write

unfoldable pub may_sign : SignGuard → ℕ → Bool
may_sign g height = ltb g.highest height

module _ (format : Format) where
  unfoldable pub parse : ℕ → ℕ → Option ℕ
  parse raw address = elim (format.words raw) [
    | [] ↦ none
    | addr ∷ [] ↦ none
    | addr ∷ word ∷ more ↦ elim (format.parse_u64 word) [
      | none ↦ none
      | some height ↦ if addr == address then some height else none
    ]
  ]

  unfoldable pub open_guard : Option ℕ → ℕ → SignGuard
  unfolding parse
  open_guard file address = record {
    address = address;
    highest = elim file [ none ↦ 0 | some raw ↦ unwrap_or (parse raw address) 0 ];
    file = file;
  }

  unfoldable pub record_height : SignGuard → ℕ → Write → SignGuard
  record_height g height w = if leb height g.highest then g else record g {
    highest = height;
    file = elim w [
      | saved ↦ some (format.line g.address height)
      | refused ↦ g.file
      | torn raw ↦ some raw
    ];
  }

  -- The guard's part in `produce_block`: whether the block is signed, and the guard after it.
  unfoldable pub sign_block : SignGuard → ℕ → Write → Bool × SignGuard
  unfolding may_sign record_height
  sign_block g height w =
      if not (may_sign g height) then (false, g) else (true, record_height g height w)
