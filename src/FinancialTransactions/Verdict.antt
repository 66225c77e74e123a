-- ===== src/FinancialTransactions/Verdict.antt =====
-- When `createTransaction` throws, and what.
use mathlib.Core.Option.{some-injective}
use easy_point_api.Base.{
  ap, ◌∙◌, Bool-cases, Option, Option-cases, arith, if◌then◌else◌, inl, inr, none, some, ◌≡◌,
}
use easy_point_api.Decimal.{Arith}
use easy_point_api.BankAccounts.{decrease_balance, find_account, increase_balance}
use easy_point_api.FinancialTransactions.{
  is_adjustment, TransactionParams, apply_amount, create_transaction, is_unusable, prepare,
}
use easy_point_api.Base.Table.{lookup}
use easy_point_api.Base.Int.{ltb_ℤ, pos, ℤ}
use easy_point_api.Database.{
  Transaction, bad_request, only_adjustments, transaction_missing, Account, Db, Exception, Result,
  Result-cases, TransactionType, account_inactive, account_missing, credit, debit, err, failure,
  insufficient_funds, negative_amount, not_found, ok, unprocessable,
}

abbrev pub rejection : {A : Type 0} → Result (A × Db) → Option Exception
rejection (ok r) = none
rejection (err e) = some e

-- On an account that is `ACTIVE`, with that balance.
abbrev pub amount_verdict : TransactionType → ℤ → ℤ → Option Exception
amount_verdict credit balance amount =
    if ltb_ℤ amount (pos 0) then some (failure negative_amount) else none
amount_verdict debit balance amount =
    if ltb_ℤ amount (pos 0)
    then some (failure negative_amount)
    else if ltb_ℤ balance amount
    then some (failure insufficient_funds)
    else none

abbrev pub account_verdict : TransactionType → ℤ → Option Account → Option Exception
account_verdict kind amount none = some (not_found account_missing)
account_verdict kind amount (some a) =
    if is_unusable a.status
    then some (unprocessable account_inactive)
    else amount_verdict kind a.balance amount

abbrev pub transaction_verdict : TransactionParams → Db → Option Exception
transaction_verdict params db =
    account_verdict params.kind params.amount (lookup params.bank_account_id db.accounts)

abbrev rejects : Result Account → Option Exception
rejects (ok a) = none
rejects (err e) = some e

apply_amount-verdict :
    (kind : TransactionType) (a : Account) (x : ℤ)
    → rejects (apply_amount kind a x) ≡ amount_verdict kind a.balance x
unfolding apply_amount increase_balance decrease_balance
apply_amount-verdict credit a x = ground arith
apply_amount-verdict debit a x = ground arith

pub rejected : {A : Type 0} (r : Result (A × Db)) (e : Exception) → rejection r ≡ some e → r ≡ err e
rejected (ok r) e h = cc
rejected (err x) e h = ap err (some-injective x e h)

module _ ⦃ar : Arith⦄ where
  pub create_transaction_checks :
      (params : TransactionParams) (x : Exception) (db : Db)
      → transaction_verdict params db ≡ some x
      → rejection (create_transaction params db) ≡ some x
  unfolding create_transaction prepare find_account
  create_transaction_checks params x db k =
      elim (Option-cases (lookup params.bank_account_id db.accounts)) [
        | inl e ↦ rw (e, rejection) (rw e at k)
        | inr (a, e) ↦ elim (Bool-cases (is_unusable a.status)) [
          | inl u ↦ rw (e, u, rejection) (rw (e, u) at k)
          | inr u ↦
              let refused : amount_verdict params.kind a.balance params.amount ≡ some x =
                rw (e, u) at k in
              let v = apply_amount-verdict params.kind a params.amount ∙ refused in
              elim (Result-cases (apply_amount params.kind a params.amount)) [
                | inl (c, h) ↦ let never : none ≡ some x = rw h at v in cc
                | inr (y, h) ↦ rw (e, u, h, rejection) (rw h at v)
              ]
        ]
      ]

  -- In the transaction of its caller, where one of the conditions of `createTransaction` holds,
  -- it throws just what the first of them says: account missing, account not active, negative
  -- amount, and for a debit insufficient funds.
  pub create_transaction-verdict :
      (params : TransactionParams) (e : Exception) (db : Db)
      → transaction_verdict params db ≡ some e
      → create_transaction params db ≡ err e
  create_transaction-verdict params e db h =
      rejected (create_transaction params db) e (create_transaction_checks params e db h)

abbrev pub removal_refusal : Option Transaction → Exception
removal_refusal none = not_found transaction_missing
removal_refusal (some row) =
    if is_adjustment row.operation_type
    then not_found account_missing
    else bad_request only_adjustments
