-- ===== src/SupplyPurchases/Steps.antt =====
-- What the steps of the operations on supply purchases do not touch: productions and their usages
-- (src/modules/supply-purchases/supply-purchases.service.ts).
use easy_point_api.Base.{
  Bool, Bool-cases, Option, Option-cases, true, false, List, [], ◌∷◌, none, some, ℕ, ◌==◌, refl, ap,
  inl, inr, not, is_some, length, map,
}
use easy_point_api.Base.Int.{ℤ}
use easy_point_api.Base.Table.{Table, lookup}
use easy_point_api.Decimal.{Arith}
use easy_point_api.FinancialTransactions.{TransactionParams, create_transaction}
use easy_point_api.Sales.Frame.{create_transaction-Keeps}
use easy_point_api.Sales.Items.{StockMap, stock_in}
use easy_point_api.Supplies.{
  find_supply_stock, sync_quantity, update_consumption, upsert_supply_stock, create_entry,
  create_supply_movements,
}
use easy_point_api.Supplies.Logic.{supplies_view}
use easy_point_api.Inventory.{location_of}
use easy_point_api.SupplyPurchases.Lines.{
  SupplyItem, add_supply_stock, add_supply_stocks, create_lot, get_or_create_supply_stocks,
  receive_supplies, receive_supply, supply_place, supply_purchase_movement, count_supplies,
  supply_ids,
}
use easy_point_api.SupplyPurchases.Lifecycle.{find_own_supply_purchase, update_supply_purchase}
use easy_point_api.Database.{
  Db, Ensures, Ensures-weaken, Exception, Keeps, Keeps-bind, Keeps-for_each, Production, Purchase,
  SupplyUsage, SupplyMovement, Tx, bad_request, throw_if, throw_if-same, invalid_supplies,
}

-- The productions and what they use.
abbrev pub drafts_view : Db → Table Production × List SupplyUsage
drafts_view db = (db.supplies.productions, db.supplies.usages)

pub drafts_within : {A : Type 0} (m : Tx A) → Keeps supplies_view m → Keeps drafts_view m
drafts_within m h db =
    Ensures-weaken _ _ (m db) (h db) (λ a db' e. ap (λ s. (s.productions, s.usages)) e)

pub throw_if-Keeps : (b : Bool) (e : Exception) → Keeps drafts_view (throw_if b e)
throw_if-Keeps b e db =
    Ensures-weaken _ _ (throw_if b e db) (throw_if-same b e db) (λ a db' p. ap drafts_view p)

upsert_supply_stock-Keeps :
    (organization supply location : ℕ)
    → Keeps drafts_view (upsert_supply_stock organization supply location)
unfolding upsert_supply_stock
upsert_supply_stock-Keeps organization supply location db =
    elim (Option-cases (find_supply_stock supply location db.supplies.supply_stocks)) [
      | inl e ↦ rw (e, Ensures) refl
      | inr (id, e) ↦ rw (e, Ensures) refl
    ]

add_supply_stock-Keeps :
    (organization : ℕ) (m : StockMap) (i : SupplyItem) (known : Bool)
    → Keeps drafts_view (add_supply_stock organization m i known)
add_supply_stock-Keeps organization m i true = λ db. refl
add_supply_stock-Keeps organization m i false =
    Keeps-bind drafts_view (upsert_supply_stock organization i.supply_id (location_of i.location)) _
      (upsert_supply_stock-Keeps organization i.supply_id (location_of i.location)) (λ id db. refl)

add_supply_stocks-Keeps :
    (organization : ℕ) (m : StockMap) (items : List SupplyItem)
    → Keeps drafts_view (add_supply_stocks organization m items)
unfolding add_supply_stocks
add_supply_stocks-Keeps organization m [] = λ db. refl
add_supply_stocks-Keeps organization m (i ∷ items) =
    let known = is_some (stock_in i.supply_id (location_of i.location) m) in
    Keeps-bind drafts_view (add_supply_stock organization m i known)
      (λ m'. add_supply_stocks organization m' items)
      (add_supply_stock-Keeps organization m i known)
      (λ m'. add_supply_stocks-Keeps organization m' items)

pub get_or_create-Keeps :
    (organization : ℕ) (items : List SupplyItem)
    → Keeps drafts_view (get_or_create_supply_stocks organization items)
unfolding get_or_create_supply_stocks
get_or_create-Keeps organization items db =
    let bad = not (
      count_supplies organization (supply_ids items) db.supplies.supply_table
      == length (supply_ids items)) in
    Keeps-bind drafts_view (throw_if bad (bad_request invalid_supplies))
      (λ _. add_supply_stocks organization [] items) (throw_if-Keeps bad _)
      (λ _. add_supply_stocks-Keeps organization [] items) db

module _ ⦃ar : Arith⦄ where
  pub sync_quantity-Keeps : (id : ℕ) → Keeps drafts_view (sync_quantity id)
  unfolding sync_quantity
  sync_quantity-Keeps id db = elim (Option-cases (lookup id db.supplies.supply_stocks)) [
    | inl e ↦ rw (e, Ensures) tt
    | inr (s, e) ↦ rw (e, Ensures) refl
  ]

  pub update_consumption-Keeps :
      (id : ℕ) (remaining : ℤ) (exhausted : Bool)
      → Keeps drafts_view (update_consumption id remaining exhausted)
  unfolding update_consumption
  update_consumption-Keeps id remaining exhausted db =
      elim (Option-cases (lookup id db.supplies.entries)) [
        | inl e ↦ rw (e, Ensures) tt
        | inr (s, e) ↦ rw (e, Ensures) refl
      ]

  pub create_supply_movements-Keeps :
      (rows : List SupplyMovement) → Keeps drafts_view (create_supply_movements rows)
  unfolding create_supply_movements
  create_supply_movements-Keeps rows db = refl

  create_lot-Keeps :
      (organization stock purchase : ℕ) (quantity : ℤ) (cost : Option ℤ)
      → Keeps drafts_view (create_lot organization stock purchase quantity cost)
  unfolding create_lot create_entry
  create_lot-Keeps organization stock purchase quantity none db = refl
  create_lot-Keeps organization stock purchase quantity (some c) db = refl

  pub receive_supplies-Keeps :
      (organization user purchase : ℕ) (m : StockMap) (items : List SupplyItem)
      → Keeps drafts_view (receive_supplies organization user purchase m items)
  unfolding receive_supplies receive_supply
  receive_supplies-Keeps organization user purchase m items =
      Keeps-bind drafts_view
        (create_supply_movements
          (map (supply_purchase_movement organization user purchase m) items))
        _ (create_supply_movements-Keeps _)
        (λ _. Keeps-for_each drafts_view items (receive_supply organization purchase m) (λ i.
          Keeps-bind drafts_view
            (create_lot organization (supply_place m i) purchase i.quantity i.unit_cost) _
            (create_lot-Keeps organization (supply_place m i) purchase i.quantity i.unit_cost)
            (λ _. sync_quantity-Keeps (supply_place m i))))

  pub update_supply_purchase-Keeps :
      (id : ℕ) (change : Purchase → Purchase) → Keeps drafts_view (update_supply_purchase id change)
  unfolding update_supply_purchase
  update_supply_purchase-Keeps id change db =
      elim (Option-cases (lookup id db.supplies.supply_purchases)) [
        | inl e ↦ rw (e, Ensures) tt
        | inr (p, e) ↦ rw (e, Ensures) refl
      ]

  pub find_own-Keeps :
      (organization id : ℕ) → Keeps drafts_view (find_own_supply_purchase organization id)
  unfolding find_own_supply_purchase
  find_own-Keeps organization id db = elim (Option-cases (lookup id db.supplies.supply_purchases)) [
    | inl e ↦ rw (e, Ensures) tt
    | inr (p, e) ↦ elim (Bool-cases (p.organization_id == organization)) [
      | inl o ↦ rw (e, o, Ensures) refl
      | inr o ↦ rw (e, o, Ensures) tt
    ]
  ]

  pub transaction-Keeps :
      (params : TransactionParams) → Keeps drafts_view (create_transaction params)
  transaction-Keeps params =
      drafts_within (create_transaction params)
        (create_transaction-Keeps supplies_view (λ db t x n. refl) params)
