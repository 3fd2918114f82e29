-- ===== src/Tests/Stores.antt =====
-- Two accounts on the sample platform: a validator, 7, and a plain account, 8.
use inazuma_core.Base.{◌*◌, ◌≡◌, refl, none, [], ◌∷◌, lookup, insert}
use inazuma_core.Platform.Sample.{sample}
use inazuma_core.Types.{Account, default_account, min_stake}
use inazuma_core.State.{Store, account, set_account}
use inazuma_core.State.Supply.{supply}
use inazuma_core.State.Index.{IsIndexed, set_account-IsIndexed}

abbrev pub empty : Store sample
empty = record {
  accounts = ([], tt);
  stakers = ([], tt);
  tokens = ([], tt);
  token_balances = ([], tt);
  slashes = ([], tt);
  smt_nodes = [];
  tip = none;
  finalized = none;
  fee = none;
  tip_text = none;
  contracts = ([], tt);
  codes = ([], tt);
  storage = ([], tt);
  receipts = ([], tt);
  leaves = ([], tt);
  nulls = ([], tt);
  roots = ([], tt);
  pool = none;
  key = none;
  sealed = none;
  blocks = ([], tt);
  txs = ([], tt);
}

abbrev pub validator : Account
validator = record default_account {
  balance = 50;
  staked = 2 * min_stake;
  unbonding = record { amount = 1_000; release_height = 20 } ∷ [];
}

abbrev pub saver : Account
saver = record default_account { balance = 5_000 }

unfoldable pub two_accounts : Store sample
unfolding set_account
two_accounts = set_account sample (set_account sample empty 7 validator) 8 saver

pub two_accounts-IsIndexed : IsIndexed sample two_accounts
unfolding two_accounts lookup account
two_accounts-IsIndexed =
    set_account-IsIndexed sample (set_account sample empty 7 validator) 8 saver
      (set_account-IsIndexed sample empty 7 validator (record { listed = λ a. refl }))

pub two_accounts_supply : supply sample two_accounts ≡ 2_000_000_006_050
unfolding two_accounts supply insert
two_accounts_supply = refl
