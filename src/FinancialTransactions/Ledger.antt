-- ===== src/FinancialTransactions/Ledger.antt =====
-- The balances of accounts against the recorded transactions
-- (src/modules/financial-transactions/financial-transactions.service.ts).
use easy_point_api.Base.{
  ℕ, ◌≡◌, if◌then◌else◌, ◌==◌, ==_iff, Option, none, some, inl, inr, arith, Bool-cases,
}
use easy_point_api.Base.Int.{ℤ, pos, neg, ◌+ℤ◌, ◌-ℤ◌, ◌≤ℤ◌, int_laws}
use easy_point_api.Base.Table.{Table, lookup, put, lookup-put_self, lookup-put_ne}
use easy_point_api.Base.Table.Rows.{AllRows, AllRows-lookup, AllRows-put, sum_rows}
use easy_point_api.BankAccounts.{increase_balance, decrease_balance}
use easy_point_api.Database.{
  Db, Account, Transaction, TransactionType, credit, debit, ok, Ensures, Ensures-weaken,
}
use easy_point_api.Decimal.{Arith, to_column, IsColumn, RoundingLaws, exact}
use easy_point_api.FinancialTransactions.{TransactionParams, apply_amount, create_transaction}
use easy_point_api.FinancialTransactions.Recorded.{
  account_with, Recorded, create_transaction-Recorded,
}

-- What a transaction has done to the balance of account `a`.
abbrev pub signed : TransactionType → ℤ → ℤ
signed credit x = x
signed debit x = neg x

abbrev pub effect_on : ℕ → Transaction → ℤ
effect_on a t = if a == t.bank_account_id then signed t.kind t.amount else pos 0

abbrev pub balance_of : Option Account → ℤ
balance_of none = pos 0
balance_of (some r) = r.balance

-- The balance of account `a` less all that its recorded transactions have moved.
unfoldable pub opening_balance : ℕ → Db → ℤ
opening_balance a db = balance_of (lookup a db.accounts) -ℤ sum_rows (effect_on a) db.transactions

abbrev pub HasValidBalance : ⦃ar : Arith⦄ → Account → Type 0
HasValidBalance r = (pos 0 ≤ℤ r.balance) × IsColumn r.balance

abbrev pub HasStoredAmount : ⦃ar : Arith⦄ → Transaction → Type 0
HasStoredAmount t = IsColumn t.amount

-- No balance is negative, and balances and amounts have the four decimal places of their columns.
abbrev pub HasValidLedger : ⦃ar : Arith⦄ → Db → Type 0
HasValidLedger db = AllRows HasValidBalance db.accounts × AllRows HasStoredAmount db.transactions

-- A debit is exact only for an amount with four decimal places; a credit may have more.
abbrev pub IsExact : ⦃ar : Arith⦄ → TransactionType → ℤ → Type 0
IsExact credit x = Unit
IsExact debit x = IsColumn x

-- A new balance that differs from the old one by what the new transaction moves.
pub opening_balance_kept :
    (acct id : ℕ) (a r : Account) (x s : ℤ) (t : Table Account)
    → lookup id t ≡ some a
    → r.balance ≡ a.balance +ℤ x
    → balance_of (lookup acct (put id r t)) -ℤ ((if acct == id then x else pos 0) +ℤ s)
      ≡ balance_of (lookup acct t) -ℤ s
opening_balance_kept acct id a r x s t found e = elim (Bool-cases (acct == id)) [
  | inl same ↦
      let p : acct ≡ id = (==_iff acct id).0 same in
      rw (same, p, lookup-put_self id {w = a} r t found, found) (rw e (omega int_laws))
  | inr other ↦ rw (other, lookup-put_ne acct id r t (ground arith)) (omega int_laws)
]

increase_balance_inv :
    (a c : Account) (x : ℤ)
    → increase_balance a x ≡ ok c
    → (pos 0 ≤ℤ x) × (c.balance ≡ a.balance +ℤ x)
unfolding increase_balance
increase_balance_inv a c x h = ground arith

decrease_balance_inv :
    (a c : Account) (x : ℤ)
    → decrease_balance a x ≡ ok c
    → (pos 0 ≤ℤ x) × (x ≤ℤ a.balance) × (c.balance ≡ a.balance -ℤ x)
unfolding decrease_balance
decrease_balance_inv a c x h = ground arith

module _ ⦃ar : Arith⦄ (laws : RoundingLaws ar) where
  abbrev pub IsPosted : TransactionType → Account → ℤ → Account → Type 0
  IsPosted kind a x c =
      (to_column c.balance ≡ a.balance +ℤ signed kind (to_column x))
      × (pos 0 ≤ℤ to_column c.balance)
      × IsColumn (to_column c.balance)

  increase_balance-IsPosted :
      (a c : Account) (x : ℤ)
      → pos 0 ≤ℤ a.balance
      → IsColumn a.balance
      → increase_balance a x ≡ ok c
      → IsPosted credit a x c
  increase_balance-IsPosted a c x p s h =
      let (nonneg, e) = increase_balance_inv a c x h in
      rw e (
        laws.add_rounds a.balance x s p nonneg,
        laws.keeps_sign (a.balance +ℤ x) (omega int_laws),
        laws.stored (a.balance +ℤ x),
      )

  decrease_balance-IsPosted :
      (a c : Account) (x : ℤ)
      → IsColumn a.balance
      → IsColumn x
      → decrease_balance a x ≡ ok c
      → IsPosted debit a x c
  decrease_balance-IsPosted a c x s t h =
      let (nonneg, covered, e) = decrease_balance_inv a c x h in
      rw e (
        rw (laws.sub_stored a.balance x s t, t)
          (omega int_laws, omega int_laws, laws.sub_stored a.balance x s t))

  pub apply_amount-IsPosted :
      (kind : TransactionType) (a c : Account) (x : ℤ)
      → pos 0 ≤ℤ a.balance
      → IsColumn a.balance
      → IsExact kind x
      → apply_amount kind a x ≡ ok c
      → IsPosted kind a x c
  unfolding apply_amount
  apply_amount-IsPosted credit a c x p s e h = increase_balance-IsPosted a c x p s h
  apply_amount-IsPosted debit a c x p s e h = decrease_balance-IsPosted a c x s e h

  -- What is conserved: the opening balance of every account, and that the balances are valid.
  abbrev pub KeepsLedger : Db → Db → Type 0
  KeepsLedger db db' = ((a : ℕ) → opening_balance a db' ≡ opening_balance a db) × HasValidLedger db'

  -- If `createTransaction` succeeds on a valid ledger, for a credit of any amount or a debit of
  -- an amount that a column holds exactly, then the balance of every account less what its
  -- recorded transactions have moved is as before, and no balance is negative.
  pub create_transaction-KeepsLedger :
      (params : TransactionParams) (db : Db)
      → HasValidLedger db
      → IsExact params.kind params.amount
      → Ensures (λ id db'. KeepsLedger db db') (create_transaction params db)
  unfolding opening_balance
  create_transaction-KeepsLedger params db valid exact =
      Ensures-weaken (Recorded params db) (λ id db'. KeepsLedger db db')
        (create_transaction params db) (create_transaction-Recorded params db)
        λ id db' (a, c, found, usable, applied, fresh, e).
          let before =
            AllRows-lookup HasValidBalance params.bank_account_id db.accounts valid.0 found in
          let posted =
            apply_amount-IsPosted params.kind a c params.amount before.0 before.1 exact applied in
          rw e (
            λ acct.
                opening_balance_kept acct params.bank_account_id a (account_with a c.balance)
                  (signed params.kind (to_column params.amount))
                  (sum_rows (effect_on acct) db.transactions) db.accounts found posted.0,
            (
              AllRows-put HasValidBalance params.bank_account_id (account_with a c.balance)
                  db.accounts valid.0 (posted.1, posted.2),
              (laws.stored params.amount, valid.1),
            ),
          )
