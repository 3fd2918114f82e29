-- ===== src/State.antt =====
-- `Store` of src/state.rs: the accounts with their staker index, the token ledger, the slashes and
-- the chain's meta entries. Each tree is a sled tree of `Platform`. The undo log that every write
-- also goes through is the module Journal.
pub mod Accounts
pub mod Supply
pub mod Index
pub mod Ledger
use inazuma_core.Base.{
  ℕ, zero, ◌+◌, ◌-◌, ◌≤◌, Bool, true, false, ◌||◌, Option, none, some, List, [], ◌∷◌, Dict, ltb,
  leb, ◌==◌, if◌then◌else◌, u128_add, u128_checked_add, u64_add, sort_by, Result, ok, err,
}
use inazuma_core.Platform.{Platform, Leaf}
use inazuma_core.Records.{Token, SlashRecord, Contract, Receipt}
use inazuma_core.Transactions.{Block}
use inazuma_core.Types.{Account, Unbond, default_account, unbonding_total, min_fee}

pub record Store (env : Platform) : Type 0 where
  pub accounts : env.Tree Account
  -- Only the presence of a key counts: the value is always `b"1"`.
  pub stakers : env.Tree (Unit {0})
  pub tokens : env.Tree Token
  pub token_balances : env.Tree ℕ
  pub slashes : env.Tree SlashRecord
  pub smt_nodes : env.Nodes
  -- The meta entries `tip_height`, `finalized_height` and `base_fee`.
  pub tip : Option ℕ
  pub finalized : Option ℕ
  pub fee : Option ℕ
  pub tip_text : Option ℕ
  pub contracts : env.Tree Contract
  pub codes : env.Tree (List ℕ)
  pub storage : env.Tree ℕ
  pub receipts : env.Tree Receipt
  -- The notes by position, the nullifiers and the sealed roots with their heights.
  pub leaves : env.Tree ℕ
  pub nulls : env.Tree ℕ
  pub roots : env.Tree ℕ
  -- The meta entries `shielded_pool`, `shielded_vk` and `shielded_sealed`.
  pub pool : Option ℕ
  pub key : Option ℕ
  pub sealed : Option ℕ
  pub blocks : env.Tree Block
  -- The heights of confirmed transactions, by hash.
  pub txs : env.Tree ℕ

pub data TokenError : Type 0 where
  balance_overflow supply_overflow insufficient_balance : TokenError

abbrev pub unwrap_or {ℓ} : {A : Type ℓ} → Option A → A → A
unwrap_or none d = d
unwrap_or (some a) d = a

-- `!acct.unbonding.is_empty()`
abbrev pub is_locked : List Unbond → Bool
is_locked [] = false
is_locked (u ∷ us) = true

abbrev pub has_stake : Account → Bool
has_stake a = ltb 0 a.staked || is_locked a.unbonding

unfoldable pub account_leaf : ℕ → Account → Leaf
account_leaf address a = Leaf.acct address a.balance a.nonce a.staked (unbonding_total a) a.rewards

unfoldable pub token_leaf : Token → Leaf
token_leaf t = Leaf.token t.id t.symbol t.decimals t.supply t.creator t.mintable

module _ (env : Platform) where
  unfoldable pub account : Store env → ℕ → Account
  account s address = unwrap_or (env.get Account s.accounts address) default_account

  unfoldable pub set_account : Store env → ℕ → Account → Store env
  set_account s address a = record s {
    accounts = env.tree_insert Account s.accounts address a;
    smt_nodes = env.smt_set s.smt_nodes (account_leaf address a);
    stakers =
        if has_stake a
        then env.tree_insert Unit s.stakers address tt
        else env.tree_remove Unit s.stakers address;
  }

  -- The loop of `total_supply`, over machine words.
  unfoldable pub supply_from : ℕ → Dict Account → ℕ
  supply_from acc [] = acc
  supply_from acc ((k, a) ∷ d) =
      supply_from (u128_add acc (u128_add (u128_add a.balance a.staked) (unbonding_total a))) d

  unfoldable pub total_supply : Store env → ℕ
  unfolding supply_from
  total_supply s = supply_from 0 (env.iter Account s.accounts)

  -- The loop of `stake_accounts`: an account for each key of the index.
  unfoldable pub accounts_of : Store env → Dict (Unit {0}) → Dict Account
  accounts_of s [] = []
  accounts_of s ((k, u) ∷ d) = (k, account s k) ∷ accounts_of s d

  unfoldable pub stake_accounts : Store env → Dict Account
  unfolding accounts_of
  stake_accounts s = sort_by (λ x y. leb x.0 y.0) (accounts_of s (env.iter Unit s.stakers))

  unfoldable pub staked_from : ℕ → Dict Account → ℕ
  staked_from acc [] = acc
  staked_from acc ((k, a) ∷ d) = staked_from (u128_add acc a.staked) d

  unfoldable pub total_staked : Store env → ℕ
  unfolding staked_from
  total_staked s = staked_from 0 (stake_accounts s)

  unfoldable pub put_slash : Store env → SlashRecord → Store env
  put_slash s r = record s { slashes = env.tree_insert SlashRecord s.slashes r.id r }

  unfoldable pub slash : Store env → ℕ → Option SlashRecord
  slash s id = env.get SlashRecord s.slashes id

  unfoldable pub base_fee : Store env → ℕ
  base_fee s = unwrap_or s.fee min_fee

  unfoldable pub set_base_fee : Store env → ℕ → Store env
  set_base_fee s f = record s { fee = some f }

  unfoldable pub tip_height : Store env → Option ℕ
  tip_height s = s.tip

  unfoldable pub finalized_height : Store env → ℕ
  finalized_height s = unwrap_or s.finalized 0

  unfoldable pub set_finalized_height : Store env → ℕ → Store env
  unfolding finalized_height
  set_finalized_height s height =
      if leb height (finalized_height s) then s else record s { finalized = some height }
