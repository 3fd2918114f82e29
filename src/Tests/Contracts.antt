-- ===== src/Tests/Contracts.antt =====
-- A call from 8 of a contract, 9, that sends 200 coins back.
use inazuma_core.Base.{◌≡◌, refl, [], ◌∷◌, arith, ok, lookup, insert}
use inazuma_core.Platform.Sample.{sample}
use inazuma_core.Records.{Contract}
use inazuma_core.State.{Store, account}
use inazuma_core.State.Supply.{supply}
use inazuma_core.Shielded.{shielded_pool_balance}
use inazuma_core.Transactions.{Transaction, TxKind}
use inazuma_core.Contracts.{set_contract, put_code, check_call, code_at, decode_args, contract}
use inazuma_core.Contracts.Host.{execute}
use inazuma_core.Contracts.Outcomes.{IsContained, execute-IsContained}
use inazuma_core.Execution.{apply_call}
use inazuma_core.Execution.Coins.{coins}
use inazuma_core.Execution.Sample.{packages}
use inazuma_core.Execution.Paid.{apply_call-ok}
use inazuma_core.Tests.Stores.{two_accounts, two_accounts_supply}
use inazuma_core.Tests.Execution.{transfer_tx}

abbrev sender_contract : Contract
sender_contract = record {
  address = 9;
  code_hash = 4;
  code_size = 4;
  creator = 8;
  created_height = 1;
  calls = 0;
}

unfoldable with_contract : Store sample
unfolding put_code set_contract
with_contract =
    set_contract sample (put_code sample two_accounts 4 (0 ∷ 97 ∷ 115 ∷ 109 ∷ [])) sender_contract

abbrev call_tx : Transaction
call_tx = record transfer_tx { kind = TxKind.call_contract; to = 9 }

execute-IsContained_example :
    IsContained sample
      (account sample with_contract 9).balance
      (execute sample packages with_contract 9 8 [] [] 0 5 1_000_000)
execute-IsContained_example =
    execute-IsContained sample packages with_contract 9 8 [] [] 0 5 1_000_000

apply_call-ok_example : (apply_call sample packages with_contract call_tx 5 8).0 ≡ ok tt
unfolding with_contract check_call contract code_at decode_args lookup insert coins
    shielded_pool_balance supply two_accounts
apply_call-ok_example =
    apply_call-ok sample packages with_contract call_tx 5 8 sender_contract
      (0 ∷ 97 ∷ 115 ∷ 109 ∷ []) [] (omega (arith, two_accounts_supply)) refl refl refl
