-- ===== src/Inventory/Tests.antt =====
-- Runs of two manual movements on one stock record, and each theorem on them.
use easy_point_api.Base.{[], refl, ℕ, ◌*◌, ◌∷◌, ◌≡◌}
use easy_point_api.Inventory.{
  MovementRequest, add, prepare_movement, principal, process_movement, subtract, write_movement,
}
use easy_point_api.Decimal.{IsColumn, exact, exact-RoundingLaws}
use easy_point_api.Base.Table.{lookup}
use easy_point_api.Base.Int.{neg, pos, ℤ, ◌+ℤ◌, ◌-ℤ◌}
use easy_point_api.Base.Table.Rows.{AllRows}
use easy_point_api.Database.{no_supplies, Db, Ensures, Stock, ok, produced, wasted, ◌>>◌}
use easy_point_api.Inventory.Manual.{process_movement-opening_stock, write_movement-write_movement}
use easy_point_api.Inventory.Balance.{HasStoredQuantity, opening_stock}

abbrev kilos : ℕ → ℤ
kilos n = pos (n * 100000000)

abbrev stock_row : Stock
stock_row = record {
  organization_id = 1;
  product_id = 10;
  location = principal;
  quantity = kilos 50;
}

abbrev store : Db
store = record {
  clients = [];
  products = [];
  stocks = (20, stock_row) ∷ [];
  movements = [];
  categories = [];
  accounts = [];
  transactions = [];
  sales = [];
  purchases = [];
  rules = [];
  applied = [];
  utilities = [];
  supplies = no_supplies;
  next_id = 100;
}

abbrev three : MovementRequest
three = record { product_id = 10; stock_id = 20; quantity = kilos 3 }

abbrev four : MovementRequest
four = record { product_id = 10; stock_id = 20; quantity = kilos 4 }

store_stored : AllRows (HasStoredQuantity ⦃ar = exact⦄) store.stocks
unfolding exact
store_stored = (refl, tt)

three_stored : IsColumn ⦃ar = exact⦄ (kilos 3)
unfolding exact
three_stored = refl

four_stored : IsColumn ⦃ar = exact⦄ (kilos 4)
unfolding exact
four_stored = refl

abbrev after_three : Stock
after_three = record stock_row { quantity = kilos 47 }

abbrev after_four : Stock
after_four = record stock_row { quantity = kilos 54 }

waste_test : prepare_movement ⦃ar = exact⦄ 1 three subtract store ≡ ok (after_three, store)
unfolding prepare_movement lookup ◌-ℤ◌
waste_test = refl

production_test : prepare_movement ⦃ar = exact⦄ 1 four add store ≡ ok (after_four, store)
unfolding prepare_movement lookup ◌+ℤ◌
production_test = refl

process_movement-opening_stock_example :
    Ensures
      (λ _ db'. opening_stock 20 db' ≡ opening_stock 20 store)
      (process_movement ⦃ar = exact⦄ 1 9 three wasted subtract store)
process_movement-opening_stock_example =
    process_movement-opening_stock ⦃ar = exact⦄ exact-RoundingLaws 1 9 three wasted subtract 20
      store store_stored three_stored refl

write_movement-write_movement_example :
    Ensures
      (λ _ db'. opening_stock 20 db' ≡ opening_stock 20 store -ℤ neg (kilos 3))
      ((write_movement ⦃ar = exact⦄ 1 9 three wasted after_three
          >> write_movement ⦃ar = exact⦄ 1 8 four produced after_four)
        store)
write_movement-write_movement_example =
    write_movement-write_movement ⦃ar = exact⦄ exact-RoundingLaws 1 9 8 three four wasted produced
      subtract add after_three after_four store store_stored three_stored four_stored refl refl refl
      waste_test production_test
