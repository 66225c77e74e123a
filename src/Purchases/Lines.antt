-- ===== src/Purchases/Lines.antt =====
-- The lines of a purchase: their total, their consolidation and the stock records they go to (the
-- helpers of src/modules/product-purchases/product-purchases.service.ts).
use easy_point_api.Base.{
  Bool, List, Option, [], contains, default_to, distinct, false, if◌then◌else◌, is_some, length,
  map, none, not, some, some_or, true, ℕ, ⊤, ◌&&◌, ◌==◌, ◌||◌, ◌∷◌,
}
use easy_point_api.Inventory.{create_movements, increment_quantity, location_of, upsert_stock}
use easy_point_api.Decimal.{Arith, times}
use easy_point_api.Base.Table.{Table}
use easy_point_api.Base.Int.{pos, ℤ, ◌+ℤ◌}
use easy_point_api.Database.{
  Movement, Product, Tx, bad_request, for_each, gets, invalid_products, not_purchasable, purchased,
  pure, throw_if, ◌>>=◌, ◌>>◌,
}
use easy_point_api.Sales.Items.{StockMap, count_products, no_id, stock_in}

-- `CreateProductPurchaseItemDto`
pub record PurchaseItem : Type 0 where
  pub product_id : ℕ
  pub location : Option ℕ
  pub quantity : ℤ
  pub unit_cost : Option ℤ

module _ ⦃ar : Arith⦄ where
  -- One round of the `reduce` of `calcTotal`: a line without a cost counts nothing.
  abbrev pub add_line : Option ℤ → ℤ → ℤ → ℤ
  add_line none quantity acc = acc
  add_line (some cost) quantity acc = acc +ℤ times cost quantity

  unfoldable pub purchase_total_from : ℤ → List PurchaseItem → ℤ
  purchase_total_from acc [] = acc
  purchase_total_from acc (i ∷ items) =
      purchase_total_from (add_line i.unit_cost i.quantity acc) items

  unfoldable pub purchase_total : List PurchaseItem → ℤ
  unfolding purchase_total_from
  purchase_total items = purchase_total_from (pos 0) items

-- The same product at the same location.
abbrev pub same_place : PurchaseItem → PurchaseItem → Bool
same_place c item =
    c.product_id == item.product_id && location_of c.location == location_of item.location

-- `existing.quantity += item.quantity`, and the cost of the later line if it has one
abbrev pub merged : PurchaseItem → PurchaseItem → PurchaseItem
merged c item = record c {
  quantity = c.quantity +ℤ item.quantity;
  unit_cost = some_or item.unit_cost c.unit_cost;
}

-- One round of the consolidation: the first line for the place is changed, or a line is pushed.
unfoldable pub merge_line : List PurchaseItem → PurchaseItem → List PurchaseItem
merge_line [] item = item ∷ []
merge_line (c ∷ cs) item = if same_place c item then merged c item ∷ cs else c ∷ merge_line cs item

unfoldable pub consolidate_from : List PurchaseItem → List PurchaseItem → List PurchaseItem
consolidate_from done [] = done
consolidate_from done (item ∷ items) = consolidate_from (merge_line done item) items

unfoldable pub consolidate : List PurchaseItem → List PurchaseItem
unfolding consolidate_from
consolidate items = consolidate_from [] items

-- `addItems` pushes lines with the location written out.
abbrev pub placed : PurchaseItem → PurchaseItem
placed item = record item { location = some (location_of item.location) }

-- A product with one of the ids that is not `isPurchased`.
unfoldable pub some_unpurchasable : ℕ → List ℕ → Table Product → Bool
some_unpurchasable organization ids [] = false
some_unpurchasable organization ids ((id, p) ∷ t) =
    contains id ids && p.organization_id == organization && not p.is_purchased
    || some_unpurchasable organization ids t

abbrev pub purchased_ids : List PurchaseItem → List ℕ
purchased_ids items = distinct [] (map (λ (i : PurchaseItem). i.product_id) items)

-- One round of the loop of `getOrCreateStocks`, for a key that is in the map or is not.
abbrev pub add_stock : ℕ → StockMap → PurchaseItem → Bool → Tx StockMap
add_stock organization m item true = pure m
add_stock organization m item false = do
  id ← upsert_stock organization item.product_id (location_of item.location)
  pure ((item.product_id, location_of item.location, id) ∷ m)

unfoldable pub add_stocks : ℕ → StockMap → List PurchaseItem → Tx StockMap
add_stocks organization m [] = pure m
add_stocks organization m (item ∷ items) = do
  m' ←
      add_stock organization m item
        (is_some (stock_in item.product_id (location_of item.location) m))
  add_stocks organization m' items

unfoldable pub get_or_create_stocks : ℕ → List PurchaseItem → Tx StockMap
unfolding add_stocks
get_or_create_stocks organization items = do
  let ids = purchased_ids items
  count ← gets (λ db. count_products organization ids db.products)
  throw_if (not (count == length ids)) (bad_request invalid_products)
  bad ← gets (λ db. some_unpurchasable organization ids db.products)
  throw_if bad (bad_request not_purchasable)
  add_stocks organization [] items

abbrev pub place_of : StockMap → PurchaseItem → ℕ
place_of m item = default_to (stock_in item.product_id (location_of item.location) m) no_id

abbrev pub purchase_movement : ℕ → ℕ → ℕ → StockMap → PurchaseItem → Movement
purchase_movement organization user purchase m item = record {
  organization_id = organization;
  product_id = item.product_id;
  stock_id = place_of m item;
  quantity = item.quantity;
  unit_cost = item.unit_cost;
  kind = purchased;
  sale_id = none;
  product_purchase_id = some purchase;
  production_id = none;
  performed_by = user;
}

module _ ⦃ar : Arith⦄ where
  -- The movements of the lines, and the increments of the stock.
  unfoldable pub receive_items : ℕ → ℕ → ℕ → StockMap → List PurchaseItem → Tx ⊤
  receive_items organization user purchase m items =
      create_movements (map (purchase_movement organization user purchase m) items)
      >> for_each items (λ (i : PurchaseItem). increment_quantity (place_of m i) i.quantity)
