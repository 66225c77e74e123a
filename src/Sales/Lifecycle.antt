-- ===== src/Sales/Lifecycle.antt =====
-- `complete`, `addItems` and `remove` of `SalesService` (src/modules/sales/sales.service.ts).
use easy_point_api.Base.{
  Bool, List, Option, default_to, false, keep_if, map, none, not, some, some_or, true, ℕ, ⊤, ◌&&◌,
  ◌==◌,
}
use easy_point_api.Utilities.{without_sale, SoldLine, compute_and_persist, delete_for_sale}
use easy_point_api.Inventory.{increment_quantity}
use easy_point_api.Decimal.{Arith, to_column}
use easy_point_api.FinancialTransactions.{TransactionParams, create_transaction}
use easy_point_api.Base.Table.{delete, lookup}
use easy_point_api.Base.Int.{ℤ, ◌+ℤ◌}
use easy_point_api.Database.{
  AppliedDiscount, Movement, MovementType, Sale, Status, Tx, already_cancelled, bad_request,
  cancelled, completed, conflict, credit, debit, for_each, gets, missing_organization,
  missing_transaction_id, modify, not_found, not_pending, or_throw, original_transaction_missing,
  pending, pure, refund, sale_missing, sale_operation, sold, throw_if, transaction, ◌>>=◌, ◌>>◌,
}
use easy_point_api.Sales.Create.{belongs_to, default_description, update_sale}
use easy_point_api.Sales.Items.{
  SaleItem, calc_total, resolve_stocks, take_items, validate_sufficient_stock,
}

-- `CompleteSaleDto`
pub record CompleteSale : Type 0 where
  pub bank_account_id : ℕ
  pub category_id : Option ℕ
  pub payment_method : Option ℕ
  pub notes : Option ℕ

abbrev pub is_pending : Status → Bool
is_pending pending = true
is_pending _ = false

abbrev pub is_cancelled : Status → Bool
is_cancelled cancelled = true
is_cancelled _ = false

-- The sale with that id, if it belongs to the organization.
unfoldable pub find_own_sale : ℕ → ℕ → Tx Sale
find_own_sale organization id = do
  found ← gets (λ db. lookup id db.sales)
  sale ← or_throw found (not_found sale_missing)
  throw_if (not (sale.organization_id == organization)) (not_found sale_missing)
  pure sale

abbrev pub of_sale : ℕ → Movement → Bool
of_sale sale m = belongs_to sale m.sale_id

abbrev pub is_sold : MovementType → Bool
is_sold sold = true
is_sold _ = false

abbrev pub sold_line : Movement → SoldLine
sold_line m = record { product_id = m.product_id; quantity = m.quantity; unit_cost = m.unit_cost }

module _ ⦃ar : Arith⦄ where
  abbrev pub completion_credit : ℕ → ℕ → ℕ → ℤ → CompleteSale → TransactionParams
  completion_credit organization user sale total dto = record {
    organization_id = organization;
    bank_account_id = dto.bank_account_id;
    kind = credit;
    amount = total;
    operation_type = sale_operation;
    reference_id = some sale;
    category_id = dto.category_id;
    payment_method = dto.payment_method;
    description = some (default_to dto.notes default_description);
    performed_by = some user;
  }

  unfoldable pub complete : Option ℕ → ℕ → ℕ → CompleteSale → Tx ⊤
  complete tenant user id dto = do
    organization ← or_throw tenant (bad_request missing_organization)
    sale ← find_own_sale organization id
    throw_if (not (is_pending sale.status)) (conflict not_pending)
    transaction ← create_transaction (completion_credit organization user id sale.total_amount dto)
    update_sale id (λ s. record s {
      status = completed;
      transaction_id = some transaction;
      notes = some_or dto.notes sale.notes;
    })
    movements ← gets (λ db. keep_if (λ (m : Movement). of_sale id m && is_sold m.kind) db.movements)
    compute_and_persist id organization (map sold_line movements)

  unfoldable pub add_items : Option ℕ → ℕ → ℕ → List SaleItem → Tx ⊤
  add_items tenant user id items = do
    organization ← or_throw tenant (bad_request missing_organization)
    sale ← find_own_sale organization id
    throw_if (not (is_pending sale.status)) (conflict not_pending)
    stock_map ← resolve_stocks organization items
    validate_sufficient_stock items stock_map
    take_items organization user id stock_map items
    update_sale id
        (λ s. record s { total_amount = to_column (sale.total_amount +ℤ calc_total items) })

  -- `remove` steps 1 to 3: the stock is restored and the movements deleted.
  unfoldable pub restore_items : ℕ → Tx ⊤
  restore_items id = do
    movements ← gets (λ db. keep_if (of_sale id) db.movements)
    for_each movements (λ (m : Movement). increment_quantity m.stock_id m.quantity)
    modify (λ db. record db {
      movements = keep_if (λ (m : Movement). not (of_sale id m)) db.movements;
    })

  abbrev pub reversal : ℕ → ℕ → ℕ → ℕ → ℤ → TransactionParams
  reversal organization user sale account total = record {
    organization_id = organization;
    bank_account_id = account;
    kind = debit;
    amount = total;
    operation_type = refund;
    reference_id = some sale;
    category_id = none;
    payment_method = none;
    description = some default_description;
    performed_by = some user;
  }

  -- Step 4, by the status that the sale had. The deletion of a sale cascades to its discount and its
  -- utility.
  unfoldable pub undo_sale : Status → ℕ → ℕ → ℕ → Sale → Tx ⊤
  undo_sale pending organization user id sale = modify (λ db. record db {
    sales = delete id db.sales;
    applied = keep_if (λ (a : AppliedDiscount). not (a.sale_id == id)) db.applied;
    utilities = without_sale id db.utilities;
  })
  undo_sale completed organization user id sale = do
    transaction ← or_throw sale.transaction_id (conflict missing_transaction_id)
    found ← gets (λ db. lookup transaction db.transactions)
    original ← or_throw found (conflict original_transaction_missing)
    create_transaction (reversal organization user id original.bank_account_id sale.total_amount)
    delete_for_sale id
    update_sale id (λ s. record s { status = cancelled })
  undo_sale cancelled organization user id sale = pure tt

  unfoldable pub remove : Option ℕ → ℕ → ℕ → Tx ⊤
  remove tenant user id = do
    organization ← or_throw tenant (bad_request missing_organization)
    sale ← find_own_sale organization id
    throw_if (is_cancelled sale.status) (conflict already_cancelled)
    restore_items id
    undo_sale sale.status organization user id sale
