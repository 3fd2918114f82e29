-- ===== src/Tests/Tokens.antt =====
-- The account 8 creates a token, 805, sends some of it to 9, and mints and burns some.
use inazuma_core.Base.{
  none, ℕ, ◌≡◌, refl, true, some, arith, lookup, insert, remove, u128_checked_add, u64_add,
}
use inazuma_core.Platform.Sample.{sample}
use inazuma_core.Platform.Pairs.{pair, left_of}
use inazuma_core.Records.{Token}
use inazuma_core.State.{Store}
use inazuma_core.State.Ledger.{
  token, set_token, token_balance, set_token_balance, credit_token, debit_token,
}
use inazuma_core.State.Ledger.Balances.{circulating, holder_count}
use inazuma_core.State.Ledger.Invariant.{IsBalanced}
use inazuma_core.State.Ledger.Credit.{CreditOutcome, credit_token_lem}
use inazuma_core.State.Ledger.Debit.{DebitOutcome, debit_token_lem}
use inazuma_core.Records.{Payload}
use inazuma_core.Tokens.{
  check_create, check_token_transfer, apply_create, apply_token_transfer, apply_mint, apply_burn,
  new_token,
}
use inazuma_core.Tokens.Create.{Issues, apply_create_lem}
use inazuma_core.Tokens.Transfer.{Moves, apply_token_transfer_lem}
use inazuma_core.Tests.Stores.{empty}

runs : Unit {0}
unfolding token set_token token_balance set_token_balance credit_token debit_token check_create
    check_token_transfer apply_create apply_token_transfer apply_mint apply_burn circulating
    holder_count lookup insert remove u128_checked_add u64_add pair left_of
runs = tt

abbrev payload : Payload
payload = record {
  token = 805;
  symbol = 5;
  name = 1;
  decimals = 2;
  mintable = true;
  code = 0;
  args = 0;
}

empty-IsBalanced : IsBalanced sample empty
unfolding runs
empty-IsBalanced = record {
  trimmed = λ k e. cc;
  entry = λ t. record { no_units = refl; no_holders = refl };
}

abbrev created : Store sample
created = (apply_create sample empty 8 0 1_000 3 (some payload)).1

apply_create_lem_example :
    (symbol : ℕ) × (sample.normalize_symbol payload.symbol ≡ some symbol)
    × (token sample empty (sample.token_id 8 0 symbol) ≡ none)
    × Issues sample empty 8 0 1_000 3 payload symbol
        (apply_create sample empty 8 0 1_000 3 (some payload))
unfolding runs
apply_create_lem_example =
    apply_create_lem sample empty 8 0 1_000 3 payload empty-IsBalanced refl (omega arith)

created-IsBalanced : IsBalanced sample created
unfolding runs
created-IsBalanced =
    (apply_create_lem sample empty 8 0 1_000 3 payload empty-IsBalanced refl (omega arith)).3.0

abbrev entry : Token
entry = record (new_token sample 805 5 8 3 payload) { supply = 1_000; holders = 1 }

apply_token_transfer_lem_example :
    Moves sample created 8 9 300 payload
      (apply_token_transfer sample created 8 9 300 (some payload))
unfolding runs
apply_token_transfer_lem_example =
    apply_token_transfer_lem sample created 8 9 300 payload created-IsBalanced refl (omega arith)
      (omega arith)

transferred :
    (token_balance sample (apply_token_transfer sample created 8 9 300 (some payload)).1 805 8
      ≡ 700)
    × (token_balance sample (apply_token_transfer sample created 8 9 300 (some payload)).1 805 9
        ≡ 300)
unfolding runs
transferred = (refl, refl)

credit_token_lem_example :
    CreditOutcome sample created 805 9 50 entry (credit_token sample created 805 9 50)
unfolding runs
credit_token_lem_example =
    credit_token_lem sample created 805 9 50 entry created-IsBalanced refl (omega arith)

debit_token_lem_example :
    DebitOutcome sample created 805 8 50 entry (debit_token sample created 805 8 50)
unfolding runs
debit_token_lem_example =
    debit_token_lem sample created 805 8 50 entry created-IsBalanced refl (omega arith)
