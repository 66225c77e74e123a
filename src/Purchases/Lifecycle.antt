-- ===== src/Purchases/Lifecycle.antt =====
-- `create`, `complete`, `addItems` and `remove` of `ProductPurchasesService`
-- (src/modules/product-purchases/product-purchases.service.ts).
use easy_point_api.Base.{
  Bool, List, Option, default_to, false, is_some, keep_if, map, none, not, some, some_or, true, ℕ,
  ⊤, ◌&&◌, ◌==◌,
}
use easy_point_api.Inventory.{increment_quantity}
use easy_point_api.Decimal.{Arith, to_column}
use easy_point_api.FinancialTransactions.{TransactionParams, create_transaction}
use easy_point_api.Base.Table.{delete, insert, lookup, put}
use easy_point_api.Base.Int.{neg, ℤ}
use easy_point_api.Database.{
  Movement, OperationType, Purchase, Status, TransactionType, Tx, already_cancelled, bad_request,
  bank_account_required, cancelled, completed, conflict, credit, debit, err, for_each, gets,
  missing_organization, missing_transaction_id, modify, new_id, not_found, not_pending, ok,
  or_throw, original_transaction_missing, pending, purchase_missing, purchase_operation, pure,
  record_not_found, refund, throw_if, transaction, ◌>>=◌, ◌>>◌,
}
use easy_point_api.Sales.Create.{belongs_to, default_description}
use easy_point_api.Sales.Lifecycle.{is_cancelled, is_pending}
use easy_point_api.Sales.Items.{no_id}
use easy_point_api.Purchases.Lines.{
  PurchaseItem, consolidate, get_or_create_stocks, placed, purchase_total, receive_items,
}

-- `CreateProductPurchaseDto`
pub record CreatePurchase : Type 0 where
  pub supplier_id : Option ℕ
  pub status : Option Status
  pub bank_account_id : Option ℕ
  pub category_id : Option ℕ
  pub payment_method : Option ℕ
  pub notes : Option ℕ
  pub items : List PurchaseItem

-- `CompleteProductPurchaseDto`
pub record CompletePurchase : Type 0 where
  pub bank_account_id : ℕ
  pub category_id : Option ℕ
  pub payment_method : Option ℕ
  pub notes : Option ℕ

abbrev pub is_completed : Status → Bool
is_completed completed = true
is_completed _ = false

-- `productPurchasesRepository.update`
set_purchase : ℕ → (Purchase → Purchase) → Option Purchase → Tx ⊤
set_purchase id change none db = err record_not_found
set_purchase id change (some p) db =
    ok (tt, record db { purchases = put id (change p) db.purchases })

unfoldable pub update_purchase : ℕ → (Purchase → Purchase) → Tx ⊤
unfolding set_purchase
update_purchase id change db = set_purchase id change (lookup id db.purchases) db

unfoldable pub find_own_purchase : ℕ → ℕ → Tx Purchase
find_own_purchase organization id = do
  found ← gets (λ db. lookup id db.purchases)
  purchase ← or_throw found (not_found purchase_missing)
  throw_if (not (purchase.organization_id == organization)) (not_found purchase_missing)
  pure purchase

-- The lines that `create` processes: consolidated if the purchase is pending.
abbrev pub processed : Status → List PurchaseItem → List PurchaseItem
processed pending items = consolidate items
processed _ items = items

module _ ⦃ar : Arith⦄ where
  abbrev pub purchase_row : ℕ → ℕ → Status → CreatePurchase → Purchase
  purchase_row organization user status dto = record {
    organization_id = organization;
    supplier_id = dto.supplier_id;
    total_amount = to_column (purchase_total dto.items);
    transaction_id = none;
    status = status;
    notes = dto.notes;
    performed_by = user;
  }

  abbrev pub purchase_transaction :
      TransactionType → OperationType → ℕ → ℕ → ℕ → ℕ → ℤ → TransactionParams
  purchase_transaction kind operation organization user purchase account total = record {
    organization_id = organization;
    bank_account_id = account;
    kind = kind;
    amount = total;
    operation_type = operation;
    reference_id = some purchase;
    category_id = none;
    payment_method = none;
    description = some default_description;
    performed_by = some user;
  }

  abbrev pub purchase_debit : ℕ → ℕ → ℕ → CreatePurchase → TransactionParams
  purchase_debit organization user purchase dto =
      record (purchase_transaction debit purchase_operation organization user purchase
        (default_to dto.bank_account_id no_id) (purchase_total dto.items)) {
          category_id = dto.category_id;
          payment_method = dto.payment_method;
          description = some (default_to dto.notes default_description);
        }

  -- Step 5, if the purchase is completed.
  unfoldable pub settle_purchase : Status → ℕ → ℕ → ℕ → CreatePurchase → Tx ⊤
  settle_purchase completed organization user purchase dto = do
    transaction ← create_transaction (purchase_debit organization user purchase dto)
    update_purchase purchase (λ p. record p { transaction_id = some transaction })
  settle_purchase _ organization user purchase dto = pure tt

  unfoldable pub create_purchase : Option ℕ → ℕ → CreatePurchase → Tx ℕ
  create_purchase tenant user dto = do
    organization ← or_throw tenant (bad_request missing_organization)
    let status = default_to dto.status completed
    throw_if (is_completed status && not (is_some dto.bank_account_id))
        (bad_request bank_account_required)
    stock_map ← get_or_create_stocks organization dto.items
    purchase ← new_id
    modify (λ db. record db {
      purchases = insert purchase (purchase_row organization user status dto) db.purchases;
    })
    receive_items organization user purchase stock_map (processed status dto.items)
    settle_purchase status organization user purchase dto
    pure purchase

  unfoldable pub complete_purchase : Option ℕ → ℕ → ℕ → CompletePurchase → Tx ⊤
  complete_purchase tenant user id dto = do
    organization ← or_throw tenant (bad_request missing_organization)
    purchase ← find_own_purchase organization id
    throw_if (not (is_pending purchase.status)) (conflict not_pending)
    transaction ←
        create_transaction
          (record (purchase_transaction debit purchase_operation organization user id
            dto.bank_account_id purchase.total_amount) {
              category_id = dto.category_id;
              payment_method = dto.payment_method;
              description = some (default_to dto.notes default_description);
            })
    update_purchase id (λ p. record p {
      status = completed;
      transaction_id = some transaction;
      notes = some_or dto.notes purchase.notes;
    })

abbrev pub of_purchase : ℕ → Movement → Bool
of_purchase purchase m = belongs_to purchase m.product_purchase_id

module _ ⦃ar : Arith⦄ where
  -- The stock that the movements of the purchase have brought is taken back, and they are deleted.
  unfoldable pub reverse_purchase : ℕ → Tx ⊤
  reverse_purchase id = do
    movements ← gets (λ db. keep_if (of_purchase id) db.movements)
    for_each movements (λ (m : Movement). increment_quantity m.stock_id (neg m.quantity))
    modify (λ db. record db {
      movements = keep_if (λ (m : Movement). not (of_purchase id m)) db.movements;
    })

  -- `addItems`: the lines of the request take the place of those that the purchase had.
  unfoldable pub add_purchase_items : Option ℕ → ℕ → ℕ → List PurchaseItem → Tx ⊤
  add_purchase_items tenant user id items = do
    organization ← or_throw tenant (bad_request missing_organization)
    purchase ← find_own_purchase organization id
    throw_if (not (is_pending purchase.status)) (conflict not_pending)
    let lines = consolidate (map placed items)
    stock_map ← get_or_create_stocks organization lines
    reverse_purchase id
    receive_items organization user id stock_map lines
    update_purchase id (λ p. record p { total_amount = to_column (purchase_total lines) })

  unfoldable pub undo_purchase : Status → ℕ → ℕ → ℕ → Purchase → Tx ⊤
  undo_purchase pending organization user id purchase =
      modify (λ db. record db { purchases = delete id db.purchases })
  undo_purchase completed organization user id purchase = do
    transaction ← or_throw purchase.transaction_id (conflict missing_transaction_id)
    found ← gets (λ db. lookup transaction db.transactions)
    original ← or_throw found (conflict original_transaction_missing)
    create_transaction (
        purchase_transaction credit refund organization user id original.bank_account_id
          purchase.total_amount)
    update_purchase id (λ p. record p { status = cancelled })
  undo_purchase cancelled organization user id purchase = pure tt

  unfoldable pub remove_purchase : Option ℕ → ℕ → ℕ → Tx ⊤
  remove_purchase tenant user id = do
    organization ← or_throw tenant (bad_request missing_organization)
    purchase ← find_own_purchase organization id
    throw_if (is_cancelled purchase.status) (conflict already_cancelled)
    reverse_purchase id
    undo_purchase purchase.status organization user id purchase
