-- ===== src/FinancialTransactions/Recorded.antt =====
-- What `createTransaction` in the caller's transaction has done when it does not throw.
use easy_point_api.Base.{ℕ, suc, ◌≡◌, refl, some, inl, inr, arith, false, Option-cases, Bool-cases}
use easy_point_api.Base.Int.{ℤ}
use easy_point_api.Base.Table.{lookup, insert, put}
use easy_point_api.BankAccounts.{find_account, update_with_version}
use easy_point_api.Database.{Db, Account, ok, Ensures, Result-cases}
use easy_point_api.Decimal.{Arith, to_column}
use easy_point_api.FinancialTransactions.{
  Prepared, transaction_refused, TransactionParams, is_unusable, apply_amount, prepare, commit,
  write_balance, create_transaction, transaction_row,
}

module _ ⦃ar : Arith⦄ where
  abbrev pub account_with : Account → ℤ → Account
  account_with a balance = record a { balance = to_column balance; version = suc a.version }

  -- The database after the balance of account `id`, that was `a`, has become `balance`.
  abbrev pub with_balance : ℕ → Account → ℤ → Db → Db
  with_balance id a balance db = record db {
    accounts = put id (account_with a balance) db.accounts;
  }

  -- What the steps 1 to 3 find, and what the entity becomes.
  abbrev pub prepared_on : TransactionParams → Account → Account → Prepared
  prepared_on params a c = record {
    account_id = params.bank_account_id;
    version_before = a.version;
    balance_before = a.balance;
    balance_after = c.balance;
  }

  abbrev pub Recorded : TransactionParams → Db → ℕ → Db → Type 0
  Recorded params db id db' =
      (a : Account) × (c : Account) × (lookup params.bank_account_id db.accounts ≡ some a)
      × (is_unusable a.status ≡ false)
      × (apply_amount params.kind a params.amount ≡ ok c)
      × (id ≡ db.next_id)
      × (db' ≡ record (with_balance params.bank_account_id a c.balance db) {
        transactions =
            insert db.next_id (transaction_row params (prepared_on params a c)) db.transactions;
        next_id = suc db.next_id;
      })

  pub write_balance_lem :
      (id : ℕ) (a : Account) (b : ℤ) (db : Db)
      → lookup id db.accounts ≡ some a
      → write_balance id a.version b db ≡ ok (tt, with_balance id a b db)
  unfolding write_balance update_with_version
  write_balance_lem id a b db e = ground arith

  pub create_transaction-Recorded :
      (params : TransactionParams) (db : Db)
      → Ensures (Recorded params db) (create_transaction params db)
  unfolding create_transaction prepare commit find_account
  create_transaction-Recorded params db =
      elim (Option-cases (lookup params.bank_account_id db.accounts)) [
        | inl e ↦ rw (e, Ensures) tt
        | inr (a, e) ↦
            rw (e, Ensures)
              (elim (Bool-cases (is_unusable a.status)) [
                | inl u ↦ rw (u, Ensures) tt
                | inr u ↦
                    rw (u, Ensures)
                      (elim (Result-cases (apply_amount params.kind a params.amount)) [
                        | inl (c, h) ↦
                            let done = write_balance_lem params.bank_account_id a c.balance db e in
                            elim (Bool-cases
                              (transaction_refused params (prepared_on params a c) db)) [
                                | inl r ↦ rw (h, done, r, Ensures) tt
                                | inr r ↦ rw (h, done, r, Ensures) (a, c, e, u, h, refl, refl)
                              ]
                        | inr (x, h) ↦ rw (h, Ensures) tt
                      ])
              ])
      ]
