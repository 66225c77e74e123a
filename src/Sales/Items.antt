-- ===== src/Sales/Items.antt =====
-- The lines of a sale: its total, the stock records it draws on, and the check that they suffice
-- (the private helpers of src/modules/sales/sales.service.ts).
use easy_point_api.Base.{
  Bool, List, Option, [], contains, default_to, distinct, false, if◌then◌else◌, is_some, length,
  map, none, not, some, suc, ℕ, ⊤, ◌&&◌, ◌==◌, ◌||◌, ◌∷◌,
}
use easy_point_api.Inventory.{create_movements, find_stock, increment_quantity, location_of}
use easy_point_api.Decimal.{Arith, times}
use easy_point_api.Base.Table.{Table, lookup, set_key}
use easy_point_api.Base.Int.{ltb_ℤ, neg, pos, ℤ, ◌+ℤ◌}
use easy_point_api.Database.{
  Db, Movement, Product, Result, Stock, Tx, bad_request, err, for_each, gets, insufficient_stock,
  invalid_products, no_stock_record, ok, sold, throw_if, unprocessable, ◌>>=◌, ◌>>◌,
}

-- `CreateSaleItemDto`
pub record SaleItem : Type 0 where
  pub product_id : ℕ
  pub location : Option ℕ
  pub quantity : ℤ
  pub unit_price : ℤ

module _ ⦃ar : Arith⦄ where
  abbrev pub line_total : SaleItem → ℤ
  line_total item = times item.unit_price item.quantity

  -- The `reduce` of `calcTotal`.
  unfoldable pub calc_total_from : ℤ → List SaleItem → ℤ
  calc_total_from acc [] = acc
  calc_total_from acc (item ∷ items) = calc_total_from (acc +ℤ line_total item) items

  unfoldable pub calc_total : List SaleItem → ℤ
  unfolding calc_total_from
  calc_total items = calc_total_from (pos 0) items

-- `Map<string, string>` from `productId_location` to a stock id. Product ids are UUIDs, of one
-- length, so the pair stands for the key.
abbrev pub StockMap : Type 0
StockMap = List (ℕ × ℕ × ℕ)

unfoldable pub stock_in : ℕ → ℕ → StockMap → Option ℕ
stock_in product location [] = none
stock_in product location ((p, l, id) ∷ m) =
    if p == product && l == location then some id else stock_in product location m

-- `stockMap.get(key)!`; `no_id` is `undefined`, which is the id of no row.
abbrev pub no_id : ℕ
no_id = 0

abbrev pub stock_id_of : StockMap → SaleItem → ℕ
stock_id_of m item = default_to (stock_in item.product_id (location_of item.location) m) no_id

-- `product.count({ where: { id: { in: ids }, organizationId } })`
unfoldable pub count_products : ℕ → List ℕ → Table Product → ℕ
count_products organization ids [] = 0
count_products organization ids ((id, p) ∷ t) =
    if contains id ids && p.organization_id == organization
    then suc (count_products organization ids t)
    else count_products organization ids t

abbrev pub product_ids : List SaleItem → List ℕ
product_ids items = distinct [] (map (λ (i : SaleItem). i.product_id) items)

-- One round of the loop of `resolveStocks`.
unfoldable pub resolve_stock : StockMap → SaleItem → Db → Result StockMap
resolve_stock m item db =
    let location = location_of item.location in
    if is_some (stock_in item.product_id location m)
    then ok m
    else elim (find_stock item.product_id location db.stocks) [
      | none ↦ err (unprocessable no_stock_record)
      | some id ↦ ok ((item.product_id, location, id) ∷ m)
    ]

unfoldable pub resolve_from : StockMap → List SaleItem → Tx StockMap
resolve_from m [] db = ok (m, db)
resolve_from m (item ∷ items) db = elim (resolve_stock m item db) [
  | ok m' ↦ resolve_from m' items db
  | err e ↦ err e
]

unfoldable pub resolve_stocks : ℕ → List SaleItem → Tx StockMap
unfolding resolve_from resolve_stock
resolve_stocks organization items = do
  let ids = product_ids items
  count ← gets (λ db. count_products organization ids db.products)
  throw_if (not (count == length ids)) (bad_request invalid_products)
  resolve_from [] items

-- `totalByStock`: the quantity required of each stock record
abbrev pub add_required : StockMap → Table ℤ → SaleItem → Table ℤ
add_required m totals item =
    let id = stock_id_of m item in
    set_key id (default_to (lookup id totals) (pos 0) +ℤ item.quantity) totals

unfoldable pub total_by_stock : StockMap → Table ℤ → List SaleItem → Table ℤ
total_by_stock m totals [] = totals
total_by_stock m totals (item ∷ items) = total_by_stock m (add_required m totals item) items

abbrev pub lacks : Option ℤ → Stock → Bool
lacks none s = false
lacks (some required) s = ltb_ℤ s.quantity required

-- The loop over the stock records whose ids are in `totalByStock`.
unfoldable pub some_lacks : Table ℤ → Table Stock → Bool
some_lacks totals [] = false
some_lacks totals ((id, s) ∷ t) = lacks (lookup id totals) s || some_lacks totals t

unfoldable pub validate_sufficient_stock : List SaleItem → StockMap → Tx ⊤
unfolding total_by_stock some_lacks
validate_sufficient_stock items m = do
  let totals = total_by_stock m [] items
  short ← gets (λ db. some_lacks totals db.stocks)
  throw_if short (unprocessable insufficient_stock)

-- What `create` and `addItems` write of the lines: a movement for each, and the decrements.
abbrev pub sale_movement : ℕ → ℕ → ℕ → StockMap → SaleItem → Movement
sale_movement organization user sale m item = record {
  organization_id = organization;
  product_id = item.product_id;
  stock_id = stock_id_of m item;
  quantity = item.quantity;
  unit_cost = some item.unit_price;
  kind = sold;
  sale_id = some sale;
  product_purchase_id = none;
  production_id = none;
  performed_by = user;
}

module _ ⦃ar : Arith⦄ where
  abbrev pub decrement : StockMap → SaleItem → Tx ⊤
  decrement m item = increment_quantity (stock_id_of m item) (neg item.quantity)

  unfoldable pub take_items : ℕ → ℕ → ℕ → StockMap → List SaleItem → Tx ⊤
  take_items organization user sale m items =
      create_movements (map (sale_movement organization user sale m) items)
      >> for_each items (decrement m)
