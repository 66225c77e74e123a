-- ===== src/SupplyPurchases/Lifecycle.antt =====
-- `create`, `complete`, `addItems` and `remove` of `SupplyPurchasesService`
-- (src/modules/supply-purchases/supply-purchases.service.ts).
use easy_point_api.Base.{
  Bool, false, List, [], ◌∷◌, Option, none, some, ℕ, ⊤, ◌==◌, ◌&&◌, not, default_to, if◌then◌else◌,
  is_some, keep_if, map, some_or, ◌||◌,
}
use easy_point_api.Base.Int.{ℤ, ◌+ℤ◌, ◌-ℤ◌, is_zero}
use easy_point_api.Base.Table.{Table, lookup, insert, put, delete}
use easy_point_api.Decimal.{Arith, to_column}
use easy_point_api.FinancialTransactions.{TransactionParams, create_transaction}
use easy_point_api.Sales.Create.{belongs_to, default_description}
use easy_point_api.Sales.Lifecycle.{is_cancelled, is_pending}
use easy_point_api.Sales.Items.{no_id}
use easy_point_api.Purchases.Lifecycle.{CompletePurchase, is_completed}
use easy_point_api.Supplies.{sync_quantity}
use easy_point_api.Database.{
  Purchase, Status, StockEntry, SupplyMovement, SupplyUsage, Tx, TransactionType, OperationType, ok,
  err, record_not_found, already_cancelled, bad_request, bank_account_required, cancelled,
  completed, conflict, credit, debit, entry_consumed, for_each, gets, missing_organization,
  missing_transaction_id, modify_supplies, new_supply_id, not_found, not_pending, or_throw,
  original_transaction_missing, pending, pure, purchase_missing, purchase_operation, refund,
  throw_if, ◌>>=◌, ◌>>◌, transaction,
}
use easy_point_api.SupplyPurchases.Lines.{
  SupplyItem, get_or_create_supply_stocks, receive_supplies, supply_total,
}

-- `CreateSupplyPurchaseDto`
pub record CreateSupplyPurchase : Type 0 where
  pub supplier_id : Option ℕ
  pub status : Option Status
  pub bank_account_id : Option ℕ
  pub category_id : Option ℕ
  pub payment_method : Option ℕ
  pub notes : Option ℕ
  pub items : List SupplyItem

-- `supplyPurchasesRepository.update`
set_supply_purchase : ℕ → (Purchase → Purchase) → Option Purchase → Tx ⊤
set_supply_purchase id change none db = err record_not_found
set_supply_purchase id change (some p) db = ok (
  tt,
  record db {
    supplies = record db.supplies {
      supply_purchases = put id (change p) db.supplies.supply_purchases;
    };
  },
)

unfoldable pub update_supply_purchase : ℕ → (Purchase → Purchase) → Tx ⊤
unfolding set_supply_purchase
update_supply_purchase id change db =
    set_supply_purchase id change (lookup id db.supplies.supply_purchases) db

unfoldable pub find_own_supply_purchase : ℕ → ℕ → Tx Purchase
find_own_supply_purchase organization id = do
  found ← gets (λ db. lookup id db.supplies.supply_purchases)
  purchase ← or_throw found (not_found purchase_missing)
  throw_if (not (purchase.organization_id == organization)) (not_found purchase_missing)
  pure purchase

module _ ⦃ar : Arith⦄ where
  abbrev pub supply_purchase_row : ℕ → ℕ → Status → CreateSupplyPurchase → Purchase
  supply_purchase_row organization user status dto = record {
    organization_id = organization;
    supplier_id = dto.supplier_id;
    total_amount = to_column (supply_total dto.items);
    transaction_id = none;
    status = status;
    notes = dto.notes;
    performed_by = user;
  }

  abbrev pub supply_transaction :
      TransactionType → OperationType → ℕ → ℕ → ℕ → ℕ → ℤ → TransactionParams
  supply_transaction kind operation organization user purchase account total = record {
    organization_id = organization;
    bank_account_id = account;
    kind = kind;
    amount = total;
    operation_type = operation;
    reference_id = some purchase;
    category_id = none;
    payment_method = none;
    description = some default_description;
    performed_by = some user;
  }

  -- Step 5 of `create`, if the purchase is completed.
  unfoldable pub settle_supply_purchase : Status → ℕ → ℕ → ℕ → CreateSupplyPurchase → Tx ⊤
  settle_supply_purchase completed organization user purchase dto = do
    transaction ←
        create_transaction
          (record (supply_transaction debit purchase_operation organization user purchase
            (default_to dto.bank_account_id no_id) (supply_total dto.items)) {
              category_id = dto.category_id;
              payment_method = dto.payment_method;
              description = some (default_to dto.notes default_description);
            })
    update_supply_purchase purchase (λ p. record p { transaction_id = some transaction })
  settle_supply_purchase _ organization user purchase dto = pure tt

  unfoldable pub create_supply_purchase : Option ℕ → ℕ → CreateSupplyPurchase → Tx ℕ
  create_supply_purchase tenant user dto = do
    organization ← or_throw tenant (bad_request missing_organization)
    let status = default_to dto.status completed
    throw_if (is_completed status && not (is_some dto.bank_account_id))
        (bad_request bank_account_required)
    stock_map ← get_or_create_supply_stocks organization dto.items
    purchase ← new_supply_id
    modify_supplies (λ s. record s {
      supply_purchases =
          insert purchase (supply_purchase_row organization user status dto) s.supply_purchases;
    })
    receive_supplies organization user purchase stock_map dto.items
    settle_supply_purchase status organization user purchase dto
    pure purchase

  unfoldable pub complete_supply_purchase : Option ℕ → ℕ → ℕ → CompletePurchase → Tx ⊤
  complete_supply_purchase tenant user id dto = do
    organization ← or_throw tenant (bad_request missing_organization)
    purchase ← find_own_supply_purchase organization id
    throw_if (not (is_pending purchase.status)) (conflict not_pending)
    transaction ←
        create_transaction
          (record (supply_transaction debit purchase_operation organization user id
            dto.bank_account_id purchase.total_amount) {
              category_id = dto.category_id;
              payment_method = dto.payment_method;
              description = some (default_to dto.notes default_description);
            })
    update_supply_purchase id (λ p. record p {
      status = completed;
      transaction_id = some transaction;
      notes = some_or dto.notes purchase.notes;
    })

  unfoldable pub add_supply_items : Option ℕ → ℕ → ℕ → List SupplyItem → Tx ⊤
  add_supply_items tenant user id items = do
    organization ← or_throw tenant (bad_request missing_organization)
    purchase ← find_own_supply_purchase organization id
    throw_if (not (is_pending purchase.status)) (conflict not_pending)
    stock_map ← get_or_create_supply_stocks organization items
    receive_supplies organization user id stock_map items
    update_supply_purchase id
        (λ p. record p { total_amount = to_column (purchase.total_amount +ℤ supply_total items) })

abbrev pub is_lot_of : ℕ → StockEntry → Bool
is_lot_of purchase e = belongs_to purchase e.supply_purchase_id

-- `!remainingQuantity.equals(initialQuantity)`
abbrev pub is_consumed : StockEntry → Bool
is_consumed e = not (is_zero (e.remaining_quantity -ℤ e.initial_quantity))

-- A lot of the purchase that is partly consumed.
unfoldable pub some_consumed : ℕ → Table StockEntry → Bool
some_consumed purchase [] = false
some_consumed purchase ((id, e) ∷ t) =
    is_lot_of purchase e && is_consumed e || some_consumed purchase t

-- The usages of a deleted lot lose it (`onDelete: SetNull`).
abbrev pub lot_is_of : ℕ → Option StockEntry → Bool
lot_is_of purchase none = false
lot_is_of purchase (some e) = is_lot_of purchase e

abbrev pub kept_entry : ℕ → Table StockEntry → Option ℕ → Option ℕ
kept_entry purchase t none = none
kept_entry purchase t (some id) = if lot_is_of purchase (lookup id t) then none else some id

abbrev pub forget_lots : ℕ → Table StockEntry → SupplyUsage → SupplyUsage
forget_lots purchase t u = record u {
  supply_stock_entry_id = kept_entry purchase t u.supply_stock_entry_id;
}

abbrev pub of_supply_purchase : ℕ → SupplyMovement → Bool
of_supply_purchase purchase m = belongs_to purchase m.supply_purchase_id

module _ ⦃ar : Arith⦄ where
  -- The lots of the purchase are deleted, the stocks follow, and its movements are deleted.
  unfoldable pub withdraw_supplies : ℕ → Tx ⊤
  withdraw_supplies id = do
    movements ← gets (λ db. keep_if (of_supply_purchase id) db.supplies.supply_movements)
    consumed ← gets (λ db. some_consumed id db.supplies.entries)
    throw_if consumed (conflict entry_consumed)
    modify_supplies (λ s. record s {
      entries = keep_if (λ (r : ℕ × StockEntry). not (is_lot_of id r.1)) s.entries;
      usages = map (forget_lots id s.entries) s.usages;
    })
    for_each movements (λ (m : SupplyMovement). sync_quantity m.stock_id)
    modify_supplies (λ s. record s {
      supply_movements =
          keep_if (λ (m : SupplyMovement). not (of_supply_purchase id m)) s.supply_movements;
    })

  unfoldable pub undo_supply_purchase : Status → ℕ → ℕ → ℕ → Purchase → Tx ⊤
  undo_supply_purchase pending organization user id purchase =
      modify_supplies (λ s. record s { supply_purchases = delete id s.supply_purchases })
  undo_supply_purchase completed organization user id purchase = do
    transaction ← or_throw purchase.transaction_id (conflict missing_transaction_id)
    found ← gets (λ db. lookup transaction db.transactions)
    original ← or_throw found (conflict original_transaction_missing)
    create_transaction (
        supply_transaction credit refund organization user id original.bank_account_id
          purchase.total_amount)
    update_supply_purchase id (λ p. record p { status = cancelled })
  undo_supply_purchase cancelled organization user id purchase = pure tt

  unfoldable pub remove_supply_purchase : Option ℕ → ℕ → ℕ → Tx ⊤
  remove_supply_purchase tenant user id = do
    organization ← or_throw tenant (bad_request missing_organization)
    purchase ← find_own_supply_purchase organization id
    throw_if (is_cancelled purchase.status) (conflict already_cancelled)
    withdraw_supplies id
    undo_supply_purchase purchase.status organization user id purchase
