-- ===== src/FinancialTransactions/Concurrent.antt =====
-- Interleavings of `createTransaction`: a transaction reads the account, others commit, and it
-- writes with the version that it has read.
use easy_point_api.Base.{
  ==_iff, Bool-cases, List, Option, Option-cases, [], arith, false, inl, inr, none, refl, some, suc,
  ℕ, ◌==◌, ◌∷◌, ◌≡◌, ◌≤◌, zero,
}
use easy_point_api.Decimal.{Arith}
use easy_point_api.BankAccounts.{find_account, update_with_version}
use easy_point_api.FinancialTransactions.{
  Prepared, TransactionParams, apply_amount, commit, is_unusable, prepare, transaction_refused,
  transaction_row, write_balance,
}
use easy_point_api.Base.Table.{insert, lookup}
use easy_point_api.Base.Int.{ℤ}
use easy_point_api.Database.{
  Account, Db, Ensures, Result-cases, concurrent_update, conflict, err, ok,
}
use easy_point_api.FinancialTransactions.Recorded.{with_balance, write_balance_lem}
use easy_point_api.FinancialTransactions.Ledger.{IsExact}

-- A call of `createTransaction` between its steps 3 and 4.
abbrev pub Session : Type 0
Session = TransactionParams × Prepared

abbrev pub session_at : ℕ → List Session → Option Session
session_at n [] = none
session_at zero (s ∷ ss) = some s
session_at (suc n) (s ∷ ss) = session_at n ss

module _ ⦃ar : Arith⦄ where
  -- Calls that have begun on `start`, and have committed in some order, with `db` as the outcome. A
  -- call that has committed may try to again.
  pub data Interleaves (start : Db) : Db → List Session → Type 0 where
    idle : Interleaves start start []
    prepared :
        (db : Db)
        → (ss : List Session) → (params : TransactionParams) → (p : Prepared)
        → Interleaves start db ss
        → IsExact params.kind params.amount
        → prepare params db ≡ ok (p, db)
        → Interleaves start db ((params, p) ∷ ss)
    committed :
        (db db' : Db)
        → (ss : List Session) → (n id : ℕ) → (params : TransactionParams) → (p : Prepared)
        → Interleaves start db ss
        → session_at n ss ≡ some (params, p)
        → commit params p db ≡ ok (id, db')
        → Interleaves start db' ss

  -- What the call knows of the account holds as long as the account has the version that it read.
  abbrev pub IsAhead : TransactionParams → Prepared → Account → Type 0
  IsAhead params p a =
      (p.version_before ≤ a.version)
      × (a.version ≡ p.version_before
          → (c : Account) × (apply_amount params.kind a params.amount ≡ ok c)
            × (c.balance ≡ p.balance_after))

  abbrev pub IsCurrent : Db → Session → Type 0
  IsCurrent db s =
      (s.1.account_id ≡ s.0.bank_account_id)
      × IsExact s.0.kind s.0.amount
      × ((a : Account) → lookup s.0.bank_account_id db.accounts ≡ some a → IsAhead s.0 s.1 a)

  abbrev pub Prepares : TransactionParams → Db → Prepared → Db → Type 0
  Prepares params db p db' =
      (db' ≡ db)
      × (a : Account) × (c : Account) × (lookup params.bank_account_id db.accounts ≡ some a)
      × (apply_amount params.kind a params.amount ≡ ok c)
      × (p ≡ record {
        account_id = params.bank_account_id;
        version_before = a.version;
        balance_before = a.balance;
        balance_after = c.balance;
      })

  pub prepare-Prepares :
      (params : TransactionParams) (db : Db) → Ensures (Prepares params db) (prepare params db)
  unfolding prepare find_account
  prepare-Prepares params db = elim (Option-cases (lookup params.bank_account_id db.accounts)) [
    | inl e ↦ rw (e, Ensures) tt
    | inr (a, e) ↦ elim (Bool-cases (is_unusable a.status)) [
      | inl u ↦ rw (e, u, Ensures) tt
      | inr u ↦ elim (Result-cases (apply_amount params.kind a params.amount)) [
        | inl (c, h) ↦ rw (e, u, h, Ensures) (refl, a, c, e, h, refl)
        | inr (x, h) ↦ rw (e, u, h, Ensures) tt
      ]
    ]
  ]

  abbrev pub Commits : TransactionParams → Prepared → Db → ℕ → Db → Type 0
  Commits params p db id db' =
      (a : Account) × (lookup p.account_id db.accounts ≡ some a)
      × (a.version ≡ p.version_before)
      × (db' ≡ record (with_balance p.account_id a p.balance_after db) {
        transactions = insert db.next_id (transaction_row params p) db.transactions;
        next_id = suc db.next_id;
      })

  pub write_balance-stale :
      (id v : ℕ) (b : ℤ) (a : Account) (db : Db)
      → lookup id db.accounts ≡ some a
      → (a.version == v) ≡ false
      → write_balance id v b db ≡ err (conflict concurrent_update)
  unfolding write_balance update_with_version
  write_balance-stale id v b a db e h = ground arith

  write_balance-missing :
      (id v : ℕ) (b : ℤ) (db : Db)
      → lookup id db.accounts ≡ none
      → write_balance id v b db ≡ err (conflict concurrent_update)
  unfolding write_balance update_with_version
  write_balance-missing id v b db e = ground arith

  pub commit-Commits :
      (params : TransactionParams) (p : Prepared) (db : Db)
      → Ensures (Commits params p db) (commit params p db)
  unfolding commit
  commit-Commits params p db = elim (Option-cases (lookup p.account_id db.accounts)) [
    | inl e ↦
        rw (write_balance-missing p.account_id p.version_before p.balance_after db e, Ensures) tt
    | inr (a, e) ↦ elim (Bool-cases (a.version == p.version_before)) [
      | inl same ↦
          let v : a.version ≡ p.version_before = (==_iff a.version p.version_before).0 same in
          let done = write_balance_lem p.account_id a p.balance_after db e in
          elim (Bool-cases (transaction_refused params p db)) [
            | inl r ↦ rw (← v, done, r, Ensures) tt
            | inr r ↦ rw (← v, done, r, Ensures) (a, e, v, refl)
          ]
      | inr stale ↦
          rw
            (
              write_balance-stale p.account_id p.version_before p.balance_after a db e stale,
              Ensures,
            )
            tt
    ]
  ]
