-- ===== src/FinancialTransactions/Tests.antt =====
-- Runs of `createTransaction` and `remove` on one account, alone and interleaved, and each theorem.
use easy_point_api.Base.{[], arith, none, refl, some, ℕ, ◌*◌, ◌∷◌, ◌≡◌}
use easy_point_api.Decimal.{exact, exact-RoundingLaws}
use easy_point_api.BankAccounts.{
  decrease_balance, find_account, increase_balance, row_with_version, update_with_version,
}
use easy_point_api.FinancialTransactions.{
  Prepared, TransactionParams, apply_amount, commit, create_transaction, prepare, write_balance,
}
use easy_point_api.Base.Table.{lookup, put}
use easy_point_api.Base.Int.{pos, ℤ, ◌+ℤ◌, ◌-ℤ◌}
use easy_point_api.Database.{
  no_supplies, Account, Db, Ensures, Result, TransactionType, active, adjustment, concurrent_update,
  not_found, account_missing, conflict, credit, debit, err, failure, insufficient_funds, ok,
}
use easy_point_api.FinancialTransactions.Concurrent.{Interleaves, committed, idle, prepared}
use easy_point_api.FinancialTransactions.Verdict.{
  create_transaction-verdict, removal_refusal, transaction_verdict,
}
use easy_point_api.FinancialTransactions.Ledger.{
  HasValidLedger, IsExact, KeepsLedger, create_transaction-KeepsLedger,
}
use easy_point_api.FinancialTransactions.Isolation.{Interleaves-KeepsLedger, commit-commit}

abbrev coins : ℕ → ℤ
coins n = pos (n * 100000000)

abbrev account_row : Account
account_row = record { organization_id = 1; balance = coins 100; version = 3; status = active }

abbrev bank : Db
bank = record {
  clients = [];
  products = [];
  stocks = [];
  movements = [];
  categories = [];
  accounts = (30, account_row) ∷ [];
  transactions = [];
  sales = [];
  purchases = [];
  rules = [];
  applied = [];
  utilities = [];
  supplies = no_supplies;
  next_id = 100;
}

abbrev request : TransactionType → ℕ → TransactionParams
request kind n = record {
  organization_id = 1;
  bank_account_id = 30;
  kind = kind;
  amount = coins n;
  operation_type = adjustment;
  reference_id = none;
  category_id = none;
  payment_method = none;
  description = none;
  performed_by = none;
}

bank-HasValidLedger : HasValidLedger ⦃ar = exact⦄ bank
unfolding exact
bank-HasValidLedger = (((omega arith, refl), tt), tt)

forty-IsExact : IsExact ⦃ar = exact⦄ debit (coins 40)
unfolding exact
forty-IsExact = refl

-- Both calls read the balance of 100 and its version.
abbrev spend : Prepared
spend = record {
  account_id = 30;
  version_before = 3;
  balance_before = coins 100;
  balance_after = coins 60;
}

abbrev earn : Prepared
earn = record {
  account_id = 30;
  version_before = 3;
  balance_before = coins 100;
  balance_after = coins 107;
}

prepare_debit_test : prepare (request debit 40) bank ≡ ok (spend, bank)
unfolding prepare find_account lookup apply_amount decrease_balance ◌-ℤ◌
prepare_debit_test = refl

prepare_credit_test : prepare (request credit 7) bank ≡ ok (earn, bank)
unfolding prepare find_account lookup apply_amount increase_balance ◌+ℤ◌
prepare_credit_test = refl

abbrev outcome : {A : Type 0} → Db → Result (A × Db) → Db
outcome db (ok r) = r.1
outcome db (err e) = db

spent_bank : Db
spent_bank = outcome bank (commit ⦃ar = exact⦄ (request debit 40) spend bank)

commit_test : commit ⦃ar = exact⦄ (request debit 40) spend bank ≡ ok (100, spent_bank)
unfolding spent_bank commit write_balance update_with_version row_with_version lookup put exact ◌-ℤ◌
commit_test = refl

spent_bank_reached :
    Interleaves ⦃ar = exact⦄ bank spent_bank
      ((request credit 7, earn) ∷ (request debit 40, spend) ∷ [])
spent_bank_reached =
    committed bank spent_bank _ 1 100 (request debit 40) spend
      (prepared bank _ (request credit 7) earn
        (prepared bank [] (request debit 40) spend idle forty-IsExact prepare_debit_test) tt
        prepare_credit_test)
      refl commit_test

spent_bank-HasValidLedger : HasValidLedger ⦃ar = exact⦄ spent_bank
spent_bank-HasValidLedger =
    (Interleaves-KeepsLedger ⦃ar = exact⦄ exact-RoundingLaws bank spent_bank _ bank-HasValidLedger
      spent_bank_reached).1

-- The theorems.
Interleaves-KeepsLedger_example : KeepsLedger ⦃ar = exact⦄ exact-RoundingLaws bank spent_bank
Interleaves-KeepsLedger_example =
    Interleaves-KeepsLedger ⦃ar = exact⦄ exact-RoundingLaws bank spent_bank
      ((request credit 7, earn) ∷ (request debit 40, spend) ∷ []) bank-HasValidLedger
      spent_bank_reached

commit-commit_example :
    commit ⦃ar = exact⦄ (request credit 7) earn spent_bank ≡ err (conflict concurrent_update)
commit-commit_example =
    commit-commit ⦃ar = exact⦄ (request debit 40) (request credit 7) spend earn bank spent_bank 100
      refl refl commit_test

create_transaction-KeepsLedger_example :
    Ensures
      (λ id db'. KeepsLedger ⦃ar = exact⦄ exact-RoundingLaws bank db')
      (create_transaction ⦃ar = exact⦄ (request debit 40) bank)
create_transaction-KeepsLedger_example =
    create_transaction-KeepsLedger ⦃ar = exact⦄ exact-RoundingLaws (request debit 40) bank
      bank-HasValidLedger forty-IsExact

create_transaction-verdict_test :
    transaction_verdict (request debit 101) bank ≡ some (failure insufficient_funds)
unfolding lookup
create_transaction-verdict_test = refl

create_transaction-verdict_example :
    create_transaction ⦃ar = exact⦄ (request debit 101) bank ≡ err (failure insufficient_funds)
create_transaction-verdict_example =
    create_transaction-verdict ⦃ar = exact⦄ (request debit 101) (failure insufficient_funds) bank
      create_transaction-verdict_test

-- The transaction is an adjustment, and its account exists.
removal_test : removal_refusal (lookup 100 spent_bank.transactions) ≡ not_found account_missing
unfolding spent_bank commit write_balance update_with_version row_with_version lookup put exact ◌-ℤ◌
removal_test = refl
