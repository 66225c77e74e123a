-- ===== src/SupplyPurchases/Lines.antt =====
-- The lines of a purchase of supplies: their total, the stock records and lots they go to (the helpers
-- of src/modules/supply-purchases/supply-purchases.service.ts).
use easy_point_api.Base.{
  Bool, true, false, List, [], ◌∷◌, Option, none, some, ℕ, suc, ⊤, ◌==◌, ◌&&◌, not, contains,
  default_to, distinct, if◌then◌else◌, is_some, length, map,
}
use easy_point_api.Base.Int.{ℤ, pos, ◌+ℤ◌}
use easy_point_api.Base.Table.{Table}
use easy_point_api.Decimal.{Arith, times}
use easy_point_api.Inventory.{location_of}
use easy_point_api.Sales.Items.{StockMap, no_id, stock_in}
use easy_point_api.Supplies.{
  create_entry, create_supply_movements, sync_quantity, upsert_supply_stock,
}
use easy_point_api.Database.{
  Supply, StockEntry, SupplyMovement, Tx, bad_request, for_each, gets, invalid_supplies, pure,
  supply_bought, throw_if, ◌>>=◌, ◌>>◌,
}

-- `CreateSupplyPurchaseItemDto`
pub record SupplyItem : Type 0 where
  pub supply_id : ℕ
  pub location : Option ℕ
  pub quantity : ℤ
  pub unit_cost : Option ℤ

module _ ⦃ar : Arith⦄ where
  -- One round of the `reduce` of `calcTotal`: a line without a cost counts nothing.
  abbrev pub add_supply_line : Option ℤ → ℤ → ℤ → ℤ
  add_supply_line none quantity acc = acc
  add_supply_line (some cost) quantity acc = acc +ℤ times cost quantity

  unfoldable pub supply_total_from : ℤ → List SupplyItem → ℤ
  supply_total_from acc [] = acc
  supply_total_from acc (i ∷ items) =
      supply_total_from (add_supply_line i.unit_cost i.quantity acc) items

  unfoldable pub supply_total : List SupplyItem → ℤ
  unfolding supply_total_from
  supply_total items = supply_total_from (pos 0) items

-- `supply.count({ where: { id: { in: ids }, organizationId } })`
unfoldable pub count_supplies : ℕ → List ℕ → Table Supply → ℕ
count_supplies organization ids [] = 0
count_supplies organization ids ((id, p) ∷ t) =
    if contains id ids && p.organization_id == organization
    then suc (count_supplies organization ids t)
    else count_supplies organization ids t

abbrev pub supply_ids : List SupplyItem → List ℕ
supply_ids items = distinct [] (map (λ (i : SupplyItem). i.supply_id) items)

-- One round of the loop of `getOrCreateStocks`, for a key that is in the map or is not.
abbrev pub add_supply_stock : ℕ → StockMap → SupplyItem → Bool → Tx StockMap
add_supply_stock organization m item true = pure m
add_supply_stock organization m item false = do
  id ← upsert_supply_stock organization item.supply_id (location_of item.location)
  pure ((item.supply_id, location_of item.location, id) ∷ m)

unfoldable pub add_supply_stocks : ℕ → StockMap → List SupplyItem → Tx StockMap
add_supply_stocks organization m [] = pure m
add_supply_stocks organization m (item ∷ items) = do
  m' ←
      add_supply_stock organization m item
        (is_some (stock_in item.supply_id (location_of item.location) m))
  add_supply_stocks organization m' items

unfoldable pub get_or_create_supply_stocks : ℕ → List SupplyItem → Tx StockMap
get_or_create_supply_stocks organization items = do
  let ids = supply_ids items
  count ← gets (λ db. count_supplies organization ids db.supplies.supply_table)
  throw_if (not (count == length ids)) (bad_request invalid_supplies)
  add_supply_stocks organization [] items

abbrev pub supply_place : StockMap → SupplyItem → ℕ
supply_place m item = default_to (stock_in item.supply_id (location_of item.location) m) no_id

abbrev pub supply_purchase_movement : ℕ → ℕ → ℕ → StockMap → SupplyItem → SupplyMovement
supply_purchase_movement organization user purchase m item = record {
  organization_id = organization;
  supply_id = item.supply_id;
  stock_id = supply_place m item;
  quantity = item.quantity;
  unit_cost = item.unit_cost;
  kind = supply_bought;
  supply_purchase_id = some purchase;
  production_id = none;
  performed_by = user;
}

-- The lot of a line.
abbrev pub entry_of : ℕ → ℕ → ℕ → ℤ → ℤ → StockEntry
entry_of organization stock purchase quantity cost = record {
  organization_id = organization;
  supply_stock_id = stock;
  supply_purchase_id = some purchase;
  initial_quantity = quantity;
  remaining_quantity = quantity;
  unit_cost = cost;
  is_exhausted = false;
}

module _ ⦃ar : Arith⦄ where
  -- A line with a cost makes a lot.
  unfoldable pub create_lot : ℕ → ℕ → ℕ → ℤ → Option ℤ → Tx ⊤
  create_lot organization stock purchase quantity none = pure tt
  create_lot organization stock purchase quantity (some cost) =
      create_entry (entry_of organization stock purchase quantity cost)

  -- One round of the loop over the lines.
  unfoldable pub receive_supply : ℕ → ℕ → StockMap → SupplyItem → Tx ⊤
  receive_supply organization purchase m item = do
    create_lot organization (supply_place m item) purchase item.quantity item.unit_cost
    sync_quantity (supply_place m item)

  -- The movements of the lines, their lots, and the quantities of the stocks.
  unfoldable pub receive_supplies : ℕ → ℕ → ℕ → StockMap → List SupplyItem → Tx ⊤
  receive_supplies organization user purchase m items =
      create_supply_movements (map (supply_purchase_movement organization user purchase m) items)
      >> for_each items (receive_supply organization purchase m)
