-- ===== src/Productions/Removal.antt =====
-- `remove` of `ProductionsService` (src/modules/productions/productions.service.ts).
use easy_point_api.Base.{
  true, false, List, [], ◌∷◌, ◌++◌, Option, none, some, ℕ, ⊤, not, contains, if◌then◌else◌, keep_if,
}
use easy_point_api.Base.Int.{ℤ, neg, ◌+ℤ◌}
use easy_point_api.Base.Table.{lookup, put, delete}
use easy_point_api.Decimal.{Arith, to_column}
use easy_point_api.Inventory.{find_stock, increment_quantity, principal}
use easy_point_api.Sales.Create.{belongs_to}
use easy_point_api.Supplies.{sync_quantity}
use easy_point_api.Productions.Lifecycle.{find_production, is_finished, of_production, sold_product}
use easy_point_api.Database.{
  Movement, Production, StockEntry, SupplyMovement, SupplyUsage, Tx, for_each, gets, modify,
  modify_supplies, ok, or_throw, pure, record_not_found, ◌>>=◌, ◌>>◌,
}

-- `affectedStockIds.add(stock)`
abbrev pub with_stock : List ℕ → ℕ → List ℕ
with_stock affected stock = if contains stock affected then affected else affected ++ stock ∷ []

module _ ⦃ar : Arith⦄ where
  -- The product goes out of stock, and the movement that brought it is deleted.
  unfoldable pub take_back_product : ℕ → ℤ → Option ℕ → Tx ⊤
  take_back_product id quantity none = pure tt
  take_back_product id quantity (some product) = do
    modify (λ db. record db {
      movements = keep_if (λ (m : Movement). not (belongs_to id m.production_id)) db.movements;
    })
    found ← gets (λ db. find_stock product principal db.stocks)
    stock ← or_throw found record_not_found
    increment_quantity stock (neg quantity)

  abbrev pub refilled : StockEntry → ℤ → StockEntry
  refilled e quantity = record e {
    remaining_quantity = to_column (e.remaining_quantity +ℤ quantity);
    is_exhausted = false;
  }

  -- One round of the loop over the usages: the stocks that are affected so far.
  unfoldable pub refill_lot : ℤ → List ℕ → Option ℕ → Tx (List ℕ)
  refill_lot quantity affected none db = ok (affected, db)
  refill_lot quantity affected (some id) db = elim (lookup id db.supplies.entries) [
    | none ↦ ok (affected, db)
    | some e ↦ ok (
      with_stock affected e.supply_stock_id,
      record db {
        supplies = record db.supplies {
          entries = put id (refilled e quantity) db.supplies.entries;
        };
      },
    )
  ]

  unfoldable pub refill_lots : List SupplyUsage → List ℕ → Tx (List ℕ)
  refill_lots [] affected = pure affected
  refill_lots (u ∷ usages) affected = do
    affected' ← refill_lot u.quantity_used affected u.supply_stock_entry_id
    refill_lots usages affected'

  -- The transaction for a completed production.
  unfoldable pub revert_production : ℕ → Production → Tx ⊤
  revert_production id production = do
    take_back_product id production.quantity_produced (sold_product production)
    modify_supplies (λ s. record s {
      supply_movements =
          keep_if (λ (m : SupplyMovement). not (belongs_to id m.production_id)) s.supply_movements;
    })
    usages ← gets (λ db. keep_if (of_production id) db.supplies.usages)
    affected ← refill_lots usages []
    modify_supplies (λ s. record s {
      usages = keep_if (λ (u : SupplyUsage). not (of_production id u)) s.usages;
    })
    for_each affected sync_quantity
    modify_supplies (λ s. record s { productions = delete id s.productions })

  unfoldable pub remove_production : Option ℕ → ℕ → Tx ⊤
  remove_production tenant id = do
    production ← find_production tenant id
    elim (is_finished production.status) [
      | true ↦ revert_production id production
      | false ↦ modify_supplies (λ s. record s {
        productions = delete id s.productions;
        usages = keep_if (λ (u : SupplyUsage). not (of_production id u)) s.usages;
      })
    ]
