-- ===== src/Platform/Sample.antt =====
-- A concrete platform, at which the tests and the examples run: the trees are sorted lists, and the
-- signature of a text is the sum of the key and the text.
use inazuma_core.Base.{
  ℕ, ◌+◌, ◌*◌, refl, true, none, some, List, [], ◌∷◌, Dict, lookup, insert, remove, IsAscending,
  insert-IsAscending, remove-IsAscending, ◌==◌, ltb, if◌then◌else◌,
}
use inazuma_core.Platform.{Platform, Leaf}
use inazuma_core.Platform.Pairs.{pair, left_of, right_of, left_of-pair, right_of-pair}
use inazuma_core.Records.{Evidence, vote}

abbrev pub SampleTree : Type 0 → Type 0
SampleTree V = (d : Dict V) × IsAscending d

abbrev pub raw_key : ℕ → List ℕ
raw_key k =
    k ∷ 1 ∷ 2 ∷ 3 ∷ 4 ∷ 5 ∷ 6 ∷ 7 ∷ 8 ∷ 9 ∷ 10 ∷ 11 ∷ 12 ∷ 13 ∷ 14 ∷ 15 ∷ 16 ∷ 17 ∷ 18 ∷ 19 ∷ 20
    ∷ 21 ∷ 22 ∷ 23 ∷ 24 ∷ 25 ∷ 26 ∷ 27 ∷ 28 ∷ 29 ∷ 30 ∷ 31 ∷ []

abbrev pub first_byte : List ℕ → ℕ
first_byte [] = 0
first_byte (b ∷ bs) = b

-- The evidence whose text is 1: the key 7 voted for two blocks at height 9.
abbrev pub sample_evidence : Evidence
sample_evidence =
    vote (record { height = 9; hash = 100; voter_pubkey = 7; signature = 116 })
      (record { height = 9; hash = 200; voter_pubkey = 7; signature = 216 })

abbrev pub sample : Platform
sample = record {
  Tree = SampleTree;
  iter = λ V t. t.0;
  get = λ V t k. lookup k t.0;
  tree_insert = λ V t k v. (insert k v t.0, insert-IsAscending k v t.0 t.1);
  tree_remove = λ V t k. (remove k t.0, remove-IsAscending k t.0 t.1);
  iter-ascending = λ V t. t.1;
  get-iter = λ V t k. refl;
  iter-insert = λ V t k v. refl;
  iter-remove = λ V t k. refl;
  ledger_key = pair;
  key_token = left_of;
  key_address = right_of;
  key_token-ledger_key = left_of-pair;
  key_address-ledger_key = right_of-pair;
  token_id = λ creator nonce symbol. creator * 100 + nonce * 10 + symbol;
  is_valid_address = λ a. ltb 0 a;
  normalize_symbol = λ s. if ltb 0 s then some s else none;
  trim = λ s. s;
  is_empty = λ s. s == 0;
  text_len = λ s. 3;
  empty_text = 0;
  delimiter_free = λ s. true;
  hex_decode = λ s. some (raw_key s);
  address_from_pubkey = first_byte;
  sig_verify = λ key text signature. signature == key + text;
  vote_bytes = λ height hash. height + hash;
  header_bytes = λ height parent ts state txs producer key. height + parent + ts + state + txs;
  header_hash = λ text signature. text + signature;
  slash_key = λ kind height offender low high. height * 1_000 + low + high;
  downtime_key = λ height address. height * 1_000 + address;
  decode_evidence = λ args. if args == 1 then some sample_evidence else none;
  draw = λ height parent attempt. height * 7 + parent * 3 + attempt;
  Nodes = List Leaf;
  smt_set = λ nodes leaf. leaf ∷ nodes;
}
