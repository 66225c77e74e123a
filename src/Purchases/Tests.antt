-- ===== src/Purchases/Tests.antt =====
-- Runs of the consolidation and of the operations on a purchase, and each theorem on them.
use easy_point_api.Base.{List, Option, [], none, refl, some, ℕ, ◌∷◌, ◌≡◌, All, arith, true, ◌*◌}
use easy_point_api.Inventory.{
  principal, create_movements, find_stock, increment_quantity, upsert_stock,
}
use easy_point_api.Base.Int.{pos, ℤ, ◌+ℤ◌, ◌*ℤ◌, ◌-ℤ◌}
use easy_point_api.Purchases.Consolidated.{HasDistinctPlaces, consolidate_lem, quantity_at}
use easy_point_api.Purchases.Lines.{
  PurchaseItem, consolidate, consolidate_from, merge_line, add_stocks, get_or_create_stocks,
  purchase_total, purchase_total_from, receive_items, some_unpurchasable,
}
use easy_point_api.Decimal.{exact, exact-RoundingLaws}
use easy_point_api.Base.Table.{lookup, put}
use easy_point_api.Database.{
  no_supplies, Db, Ensures, Ensures-ok, Result, active, err, for_each, ok, pending,
}
use easy_point_api.Sales.Items.{count_products, stock_in}
use easy_point_api.Purchases.Balanced.{Agrees, HasPurchaseStock}
use easy_point_api.Purchases.Conserved.{add_purchase_items-Agrees, create_purchase-Agrees}
use easy_point_api.Purchases.Kept.{IsStoredLine}
use easy_point_api.Purchases.Operations.{remove_purchase-Agrees}
use easy_point_api.Purchases.Lifecycle.{
  CreatePurchase, add_purchase_items, create_purchase, remove_purchase, settle_purchase,
}

abbrev line : Option ℕ → ℕ → Option ℤ → PurchaseItem
line location n cost = record {
  product_id = 10;
  location = location;
  quantity = pos n;
  unit_cost = cost;
}

abbrev lines : List PurchaseItem
lines = line none 3 (some (pos 7)) ∷ line (some 5) 2 none ∷ line (some principal) 4 none ∷ []

consolidate_test : consolidate lines ≡ line none 7 (some (pos 7)) ∷ line (some 5) 2 none ∷ []
unfolding consolidate consolidate_from merge_line ◌+ℤ◌
consolidate_test = refl

consolidate_lem_example :
    HasDistinctPlaces (consolidate lines)
    × ((p l : ℕ) → quantity_at p l (consolidate lines) ≡ quantity_at p l lines)
consolidate_lem_example = consolidate_lem lines

abbrev coins : ℕ → ℤ
coins n = pos (n * 100000000)

-- A product with 50 in stock, and an account with 100.
abbrev shop : Db
shop = record {
  clients = [];
  products = (10, record { organization_id = 1; is_purchased = true; cost_price = none }) ∷ [];
  stocks =
      (
        20,
        record { organization_id = 1; product_id = 10; location = principal; quantity = coins 50 },
      )
      ∷ [];
  movements = [];
  categories = [];
  accounts =
      (30, record { organization_id = 1; balance = coins 100; version = 0; status = active }) ∷ [];
  transactions = [];
  sales = [];
  purchases = [];
  rules = [];
  applied = [];
  utilities = [];
  supplies = no_supplies;
  next_id = 100;
}

abbrev goods : List PurchaseItem
goods =
    record { product_id = 10; location = none; quantity = coins 4; unit_cost = some (coins 2) }
    ∷ record { product_id = 10; location = some 5; quantity = coins 3; unit_cost = none }
    ∷ []

abbrev order : CreatePurchase
order = record {
  supplier_id = none;
  status = some pending;
  bank_account_id = none;
  category_id = none;
  payment_method = none;
  notes = none;
  items = goods;
}

goods-IsStoredLine : All (IsStoredLine ⦃ar = exact⦄) goods
unfolding exact
goods-IsStoredLine = (refl, (refl, tt))

shop-HasPurchaseStock : HasPurchaseStock ⦃ar = exact⦄ shop
unfolding exact
shop-HasPurchaseStock = record { stored = (refl, tt); moves = tt; fresh = (omega arith, tt) }

abbrev outcome : {A : Type 0} → Db → Result (A × Db) → Db
outcome db (ok r) = r.1
outcome db (err e) = db

stocked_shop : Db
stocked_shop = outcome shop (create_purchase ⦃ar = exact⦄ (some 1) 9 order shop)

-- The purchase makes a stock record for the second place, and draws three ids.
create_purchase_test : create_purchase ⦃ar = exact⦄ (some 1) 9 order shop ≡ ok (101, stocked_shop)
unfolding stocked_shop create_purchase get_or_create_stocks add_stocks stock_in count_products
    some_unpurchasable upsert_stock find_stock receive_items create_movements for_each
    increment_quantity consolidate consolidate_from merge_line settle_purchase purchase_total
    purchase_total_from lookup put exact ◌+ℤ◌ ◌-ℤ◌ ◌*ℤ◌
create_purchase_test = refl

stocked_shop-HasPurchaseStock : HasPurchaseStock ⦃ar = exact⦄ stocked_shop
stocked_shop-HasPurchaseStock =
    (Ensures-ok (λ _ db'. Agrees ⦃ar = exact⦄ shop db')
      (create_purchase ⦃ar = exact⦄ (some 1) 9 order shop) 101 stocked_shop
      (create_purchase-Agrees ⦃ar = exact⦄ exact-RoundingLaws (some 1) 9 order shop
        shop-HasPurchaseStock goods-IsStoredLine)
      create_purchase_test).1

create_purchase-Agrees_example :
    Ensures
      (λ _ db'. Agrees ⦃ar = exact⦄ shop db')
      (create_purchase ⦃ar = exact⦄ (some 1) 9 order shop)
create_purchase-Agrees_example =
    create_purchase-Agrees ⦃ar = exact⦄ exact-RoundingLaws (some 1) 9 order shop
      shop-HasPurchaseStock goods-IsStoredLine

add_purchase_items-Agrees_example :
    Ensures
      (λ _ db'. Agrees ⦃ar = exact⦄ stocked_shop db')
      (add_purchase_items ⦃ar = exact⦄ (some 1) 9 101 goods stocked_shop)
add_purchase_items-Agrees_example =
    add_purchase_items-Agrees ⦃ar = exact⦄ exact-RoundingLaws (some 1) 9 101 goods stocked_shop
      stocked_shop-HasPurchaseStock goods-IsStoredLine

remove_purchase-Agrees_example :
    Ensures
      (λ _ db'. Agrees ⦃ar = exact⦄ stocked_shop db')
      (remove_purchase ⦃ar = exact⦄ (some 1) 9 101 stocked_shop)
remove_purchase-Agrees_example =
    remove_purchase-Agrees ⦃ar = exact⦄ exact-RoundingLaws (some 1) 9 101 stocked_shop
      stocked_shop-HasPurchaseStock
