-- ===== src/FinancialTransactions.antt =====
-- Recording and removing financial transactions:
-- src/modules/financial-transactions/financial-transactions.service.ts.
pub mod Recorded
pub mod Ledger
pub mod Concurrent
pub mod Isolation
pub mod Verdict
mod Tests
use easy_point_api.Base.{
  List, contains, ◌||◌, keep_if, [], ◌==◌, ℕ, ⊤, Bool, true, false, not, Option, none, some,
  if◌then◌else◌,
}
use easy_point_api.Base.Int.{ℤ}
use easy_point_api.Base.Table.{Table, lookup, insert, delete}
use easy_point_api.BankAccounts.{
  increase_balance, decrease_balance, find_account, update_with_version,
}
use easy_point_api.Database.{
  Db, Account, AccountStatus, active, inactive, closed, Transaction, TransactionType, credit, debit,
  OperationType, sale_operation, purchase_operation, refund, adjustment, other_operation, Result,
  ok, err, Exception, bad_request, not_found, conflict, unprocessable, failure, record_not_found,
  row_refused, Tx, pure, gets, or_throw, throw_if, from_result, modify, new_id, ◌>>=◌, ◌>>◌,
  account_missing, account_inactive, concurrent_update, transaction_missing, only_adjustments,
  missing_organization,
}
use easy_point_api.Decimal.{Arith, overflows_total, to_column}

-- `CreateTransactionParams`
pub record TransactionParams : Type 0 where
  pub organization_id : ℕ
  pub bank_account_id : ℕ
  pub kind : TransactionType
  pub amount : ℤ
  pub operation_type : OperationType
  pub reference_id : Option ℕ
  pub category_id : Option ℕ
  pub payment_method : Option ℕ
  pub description : Option ℕ
  pub performed_by : Option ℕ

-- `account.status !== BankAccountStatus.ACTIVE`
abbrev pub is_unusable : AccountStatus → Bool
is_unusable active = false
is_unusable _ = true

abbrev pub is_adjustment : OperationType → Bool
is_adjustment adjustment = true
is_adjustment _ = false

-- Step 3: the domain entity applies the amount.
unfoldable pub apply_amount : TransactionType → Account → ℤ → Result Account
apply_amount credit a amount = increase_balance a amount
apply_amount debit a amount = decrease_balance a amount

-- `remove` step 5: the amount of a recorded transaction is taken back.
unfoldable pub revert_amount : TransactionType → Account → ℤ → Result Account
revert_amount credit a amount = decrease_balance a amount
revert_amount debit a amount = increase_balance a amount

-- `catch (error) { throw new BadRequestException(error.message) }`
abbrev pub as_bad_request : {A : Type 0} → Result A → Result A
as_bad_request (ok a) = ok a
as_bad_request (err (failure r)) = err (bad_request r)
as_bad_request (err e) = err e

-- `catch (error) { if (error?.code === 'P2025') throw new ConflictException(...); throw error; }`
abbrev pub as_conflict : {A : Type 0} → Result A → Result A
as_conflict (ok a) = ok a
as_conflict (err record_not_found) = err (conflict concurrent_update)
as_conflict (err e) = err e

-- What is known of the account between its reading and the writing of its new balance.
pub record Prepared : Type 0 where
  pub account_id : ℕ
  pub version_before : ℕ
  pub balance_before : ℤ
  pub balance_after : ℤ

-- Steps 1 to 3 of `createTransaction`, for what the account's lookup finds.
abbrev pub prepare_with : Tx (Option Account) → TransactionParams → Tx Prepared
prepare_with find params = do
  account ← or_throw (← find) (not_found account_missing)
  throw_if (is_unusable account.status) (unprocessable account_inactive)
  changed ← from_result (apply_amount params.kind account params.amount)
  pure (record {
    account_id = params.bank_account_id;
    version_before = account.version;
    balance_before = account.balance;
    balance_after = changed.balance;
  })

-- In the caller's transaction, which has published the tenant.
unfoldable pub prepare : TransactionParams → Tx Prepared
unfolding find_account
prepare params = prepare_with (find_account params.bank_account_id) params

-- The policy `tenant_isolation`: the accounts that a transaction sees which has published this
-- tenant, or none.
abbrev pub visible_accounts : Option ℕ → Table Account → Table Account
visible_accounts none t = []
visible_accounts (some organization) t =
    keep_if (λ (r : ℕ × Account). r.1.organization_id == organization) t

-- `findById` in `this.prisma.$transaction`, which publishes no tenant.
unfoldable pub find_unpublished : ℕ → Tx (Option Account)
find_unpublished id = gets (λ db. lookup id (visible_accounts none db.accounts))

module _ ⦃ar : Arith⦄ where
  -- Step 6: the row inserted into `financial_transactions`.
  abbrev pub transaction_row : TransactionParams → Prepared → Transaction
  transaction_row params p = record {
    organization_id = params.organization_id;
    bank_account_id = params.bank_account_id;
    kind = params.kind;
    amount = to_column params.amount;
    balance_before = to_column p.balance_before;
    balance_after = to_column p.balance_after;
    operation_type = params.operation_type;
    reference_id = params.reference_id;
    category_id = params.category_id;
    payment_method = params.payment_method;
    description = params.description;
    performed_by = params.performed_by;
  }

  -- `categoryId` has to be the key of a category.
  abbrev pub is_unknown : Option ℕ → List ℕ → Bool
  is_unknown none categories = false
  is_unknown (some c) categories = not (contains c categories)

  -- What the foreign key and the columns, each `Decimal(19, 4)`, do not accept.
  abbrev pub transaction_refused : TransactionParams → Prepared → Db → Bool
  transaction_refused params p db =
      is_unknown params.category_id db.categories
      || overflows_total params.amount
      || overflows_total p.balance_before
      || overflows_total p.balance_after

  abbrev pub insert_transaction : ℕ → Transaction → Db → Db
  insert_transaction id row db = record db { transactions = insert id row db.transactions }

  -- Step 4, the balance under optimistic concurrency control.
  unfoldable pub write_balance : ℕ → ℕ → ℤ → Tx ⊤
  write_balance id version balance db = as_conflict (update_with_version id version balance db)

  -- Steps 4 to 6 of `createTransaction`; the id of the new transaction.
  unfoldable pub commit : TransactionParams → Prepared → Tx ℕ
  commit params p = do
    write_balance p.account_id p.version_before p.balance_after
    refused ← gets (transaction_refused params p)
    throw_if refused row_refused
    id ← new_id
    modify (insert_transaction id (transaction_row params p))
    pure id

  unfoldable pub create_transaction : TransactionParams → Tx ℕ
  create_transaction params = do p ← prepare params; commit params p

  -- `createTransaction` without a caller's transaction.
  unfoldable pub create_alone : TransactionParams → Tx ℕ
  create_alone params = do
    p ← prepare_with (find_unpublished params.bank_account_id) params
    commit params p

  -- `create`, behind the check for a tenant; the request names the operation, and no reference.
  unfoldable pub create_manual : Option ℕ → TransactionParams → Tx ℕ
  create_manual tenant params = do
    organization ← or_throw tenant (bad_request missing_organization)
    create_alone
        (record params { organization_id = organization; reference_id = none; performed_by = none })

  -- The row is read outside the transaction, and the account in it.
  unfoldable pub remove_transaction : ℕ → Tx Transaction
  remove_transaction id = do
    row ← or_throw (← gets (λ db. lookup id db.transactions)) (not_found transaction_missing)
    throw_if (not (is_adjustment row.operation_type)) (bad_request only_adjustments)
    account ← or_throw (← find_unpublished row.bank_account_id) (not_found account_missing)
    throw_if (is_unusable account.status) (unprocessable account_inactive)
    changed ← from_result (as_bad_request (revert_amount row.kind account row.amount))
    write_balance row.bank_account_id account.version changed.balance
    modify (λ db. record db { transactions = delete id db.transactions })
    pure row
