-- ===== src/Tests/Execution.antt =====
-- A transfer from 8 to 7, and a note of 8 that is spent.
use inazuma_core.Base.{
  ◌*◌, ◌<◌, ◌≡◌, ◌≢◌, refl, none, some, [], ◌∷◌, arith, ok, lookup, insert, u128_mod,
  u128_saturating_add,
}
use inazuma_core.Platform.Sample.{sample}
use inazuma_core.State.{Store, account, set_account}
use inazuma_core.Transactions.{Transaction, ShieldedData, TxKind, sender}
use inazuma_core.Shielded.{
  shielded_pool_balance, shielded_nullifier_seen, apply_spend, shielded_seal_root,
  shielded_burn_nullifier, burn_all, append_all, spend_key, settle, pay_out, unshield_out,
  public_inputs, shielded_root_known, shielded_append, shielded_set_verifying_key, fr_from_hex,
}
use inazuma_core.Shielded.Nullifiers.{apply_spend_once}
use inazuma_core.Execution.{apply_tx}
use inazuma_core.Execution.Coins.{coins}
use inazuma_core.Execution.Sample.{packages}
use inazuma_core.Execution.Conservation.{Accounted, apply_tx_lem}
use inazuma_core.Tests.Stores.{two_accounts, two_accounts_supply}

abbrev pub transfer_tx : Transaction
transfer_tx = record {
  kind = TxKind.transfer;
  from_pubkey = 8;
  to = 7;
  amount = 300;
  fee = 20;
  nonce = 0;
  chain_id = 1;
  payload = none;
  shielded = none;
  signature = 0;
}

coins_fit : coins sample two_accounts * 100 < u128_mod
unfolding coins shielded_pool_balance two_accounts
coins_fit = omega (arith, two_accounts_supply)

goes_through : (apply_tx sample packages 0 two_accounts transfer_tx 5).0 ≡ ok 20
unfolding apply_tx sender account lookup two_accounts insert u128_saturating_add
goes_through = refl

apply_tx_lem_example :
    Accounted sample two_accounts TxKind.transfer 20
      (apply_tx sample packages 0 two_accounts transfer_tx 5).1
apply_tx_lem_example =
    apply_tx_lem sample packages 0 two_accounts transfer_tx 5 20 coins_fit goes_through

abbrev note_spend : ShieldedData
note_spend = record {
  anchor = 4;
  nullifiers = 1 ∷ 2 ∷ [];
  commitments = 3 ∷ 4 ∷ [];
  proof = 9;
  public_unshield = 0;
}

abbrev pub spend_tx : Transaction
spend_tx = record transfer_tx {
  kind = TxKind.private_transfer;
  to = 0;
  amount = 0;
  shielded = some note_spend;
}

abbrev anchored_store : Store sample
anchored_store = shielded_seal_root sample two_accounts 4 3

abbrev spent_store : Store sample
spent_store = (apply_spend sample packages anchored_store spend_tx 5 note_spend).1

spends : Unit {0}
unfolding shielded_seal_root apply_spend shielded_root_known spend_key settle burn_all
    shielded_burn_nullifier shielded_nullifier_seen append_all shielded_append pay_out unshield_out
    public_inputs fr_from_hex lookup insert two_accounts account set_account shielded_pool_balance
    shielded_set_verifying_key
spends = tt

note_spent : (apply_spend sample packages anchored_store spend_tx 5 note_spend).0 ≡ ok tt
unfolding spends
note_spent = refl

apply_spend_once_example : (apply_spend sample packages spent_store spend_tx 6 note_spend).0 ≢ ok tt
apply_spend_once_example =
    apply_spend_once sample packages anchored_store spent_store spend_tx spend_tx 5 6 note_spend
      note_spend 1 note_spent refl refl refl
