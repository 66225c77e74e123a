-- ===== src/Productions/Tests.antt =====
-- A purchase of a supply, a production from it and its removal, and each theorem on them.
use easy_point_api.Base.{false, Option, [], none, refl, some, ℕ, ◌∷◌, ◌≡◌, arith, ◌*◌}
use easy_point_api.Base.Int.{ℤ, pos, ◌+ℤ◌, ◌-ℤ◌, ◌*ℤ◌}
use easy_point_api.Base.Table.{lookup, put, delete}
use easy_point_api.Decimal.{exact, exact-RoundingLaws}
use easy_point_api.Database.{
  draft, bad_request, cannot_complete, cannot_cancel, Db, Ensures, Purchase, Result, StockEntry,
  gram, intermediate, err, ok, pending, conflict, entry_consumed, for_each, no_supplies,
}
use easy_point_api.Sales.Items.{stock_in}
use easy_point_api.Supplies.{
  available_entries, consume, create_entry, create_supply_movements, find_supply_stock,
  remaining_from, sync_quantity, total_remaining, update_consumption, upsert_supply_stock,
}
use easy_point_api.Supplies.Lots.{HasSoundLots, used_of}
use easy_point_api.SupplyPurchases.Lines.{
  add_supply_stocks, count_supplies, create_lot, get_or_create_supply_stocks, receive_supplies,
  receive_supply, supply_total, supply_total_from,
}
use easy_point_api.SupplyPurchases.Lifecycle.{
  CreateSupplyPurchase, create_supply_purchase, remove_supply_purchase, settle_supply_purchase,
}
use easy_point_api.SupplyPurchases.Refused.{remove_supply_purchase-used}
use easy_point_api.Productions.Consumption.{
  check_supply, consume_part, consume_parts, consume_stock, consume_supplies, consume_supply,
  own_supplies, stock_of_supply,
}
use easy_point_api.Productions.Twice.{complete_production-complete_production}
use easy_point_api.Productions.Lifecycle.{
  cancel_production, complete_production, CreateProduction, begin, create_production_run,
  create_usages, input_ids, find_production, process_completion, store_product, update_production,
}
use easy_point_api.Productions.Removal.{
  refill_lot, refill_lots, remove_production, revert_production, take_back_product,
}
use easy_point_api.Productions.Reached.{
  LotsReach, start, next, bought, run, undone, LotsReach-HasSoundLots,
}
use easy_point_api.Productions.Consumed.{AreExact}
use easy_point_api.Productions.Drafts.{HasFreeDrafts}
use easy_point_api.Productions.Totals.{consume_stock-totals, quantity_of_all, cost_of_all}

abbrev coins : ℕ → ℤ
coins n = pos (n * 100000000)

-- A supply in packages of 2 grams, of which nothing is in stock.
abbrev depot : Db
depot = record {
  clients = [];
  products = [];
  stocks = [];
  movements = [];
  categories = [];
  accounts = [];
  transactions = [];
  sales = [];
  purchases = [];
  rules = [];
  applied = [];
  utilities = [];
  supplies = record no_supplies {
    supply_table =
        (10, record { organization_id = 1; unit_of_measure = gram; package_size = coins 2 }) ∷ [];
    next_supply_id = 100;
  };
  next_id = 100;
}

-- Two lots, of 3 packages and of 4.
abbrev flour : CreateSupplyPurchase
flour = record {
  supplier_id = none;
  status = some pending;
  bank_account_id = none;
  category_id = none;
  payment_method = none;
  notes = none;
  items =
      record { supply_id = 10; location = none; quantity = coins 3; unit_cost = some (coins 5) }
      ∷ record { supply_id = 10; location = none; quantity = coins 4; unit_cost = some (coins 6) }
      ∷ [];
}

-- 10 grams are 5 packages.
abbrev bread : CreateProduction
bread = record {
  kind = intermediate;
  product_id = none;
  quantity_produced = coins 1;
  status = none;
  supplies = record { supply_id = 10; quantity_used = coins 10 } ∷ [];
}

abbrev outcome : {A : Type 0} → Db → Result (A × Db) → Db
outcome db (ok r) = r.1
outcome db (err e) = db

stocked_depot : Db
stocked_depot = outcome depot (create_supply_purchase ⦃ar = exact⦄ (some 1) 9 flour depot)

baked_depot : Db
baked_depot = outcome depot (create_production_run ⦃ar = exact⦄ (some 1) 9 bread stocked_depot)

emptied_depot : Db
emptied_depot = outcome depot (remove_production ⦃ar = exact⦄ (some 1) 104 baked_depot)

stocked : create_supply_purchase ⦃ar = exact⦄ (some 1) 9 flour depot ≡ ok (101, stocked_depot)
unfolding stocked_depot create_supply_purchase get_or_create_supply_stocks add_supply_stocks
    count_supplies upsert_supply_stock find_supply_stock receive_supplies receive_supply create_lot
    create_entry sync_quantity total_remaining remaining_from create_supply_movements
    settle_supply_purchase supply_total supply_total_from stock_in for_each lookup put exact ◌+ℤ◌
    ◌-ℤ◌ ◌*ℤ◌
stocked = refl

-- The first lot is used up, and 2 packages of the second are used.
baked : create_production_run ⦃ar = exact⦄ (some 1) 9 bread stocked_depot ≡ ok (104, baked_depot)
unfolding baked_depot stocked_depot create_supply_purchase get_or_create_supply_stocks
    add_supply_stocks count_supplies upsert_supply_stock find_supply_stock receive_supplies
    receive_supply create_lot create_entry sync_quantity total_remaining remaining_from
    create_supply_movements settle_supply_purchase supply_total supply_total_from stock_in for_each
    lookup put exact ◌+ℤ◌ ◌-ℤ◌ ◌*ℤ◌ create_production_run begin process_completion own_supplies
    check_supply stock_of_supply consume_supplies consume_supply consume_stock consume_parts
    consume_part available_entries consume update_consumption create_usages store_product
    update_production
baked = refl

left_in : ℕ → Db → Option ℤ
left_in lot db = elim (lookup lot db.supplies.entries) [
  | none ↦ none
  | some e ↦ some e.remaining_quantity
]

left_over : (left_in 102 baked_depot ≡ some (coins 0)) × (left_in 103 baked_depot ≡ some (coins 2))
unfolding left_in baked_depot stocked_depot create_supply_purchase get_or_create_supply_stocks
    add_supply_stocks count_supplies upsert_supply_stock find_supply_stock receive_supplies
    receive_supply create_lot create_entry sync_quantity total_remaining remaining_from
    create_supply_movements settle_supply_purchase supply_total supply_total_from stock_in for_each
    lookup put exact ◌+ℤ◌ ◌-ℤ◌ ◌*ℤ◌ create_production_run begin process_completion own_supplies
    check_supply stock_of_supply consume_supplies consume_supply consume_stock consume_parts
    consume_part available_entries consume update_consumption create_usages store_product
    update_production
left_over = (refl, refl)

emptied : remove_production ⦃ar = exact⦄ (some 1) 104 baked_depot ≡ ok (tt, emptied_depot)
unfolding emptied_depot baked_depot stocked_depot create_supply_purchase get_or_create_supply_stocks
    add_supply_stocks count_supplies upsert_supply_stock find_supply_stock receive_supplies
    receive_supply create_lot create_entry sync_quantity total_remaining remaining_from
    create_supply_movements settle_supply_purchase supply_total supply_total_from stock_in for_each
    lookup put exact ◌+ℤ◌ ◌-ℤ◌ ◌*ℤ◌ create_production_run begin process_completion own_supplies
    check_supply stock_of_supply consume_supplies consume_supply consume_stock consume_parts
    consume_part available_entries consume update_consumption create_usages store_product
    update_production remove_production revert_production refill_lots refill_lot take_back_product
    find_production delete
emptied = refl

depot-HasSoundLots : HasSoundLots ⦃ar = exact⦄ depot
unfolding lookup
depot-HasSoundLots = record {
  started = omega arith;
  unique = tt;
  fresh = tt;
  fresh_stocks = tt;
  located = tt;
  lots = tt;
  uses = tt;
  accounted = λ id. tt;
  synced = λ k. tt;
}

bread-AreExact :
    AreExact ⦃ar = exact⦄
      (own_supplies 1 (input_ids bread.supplies) stocked_depot.supplies.supply_table)
      bread.supplies
unfolding stocked_depot create_supply_purchase get_or_create_supply_stocks add_supply_stocks
    count_supplies upsert_supply_stock find_supply_stock receive_supplies receive_supply create_lot
    create_entry sync_quantity total_remaining remaining_from create_supply_movements
    settle_supply_purchase supply_total supply_total_from stock_in for_each lookup put exact ◌+ℤ◌
    ◌-ℤ◌ ◌*ℤ◌ own_supplies
bread-AreExact = ((refl, omega arith), tt)

-- The id that the production draws is new.
unused_id : lookup stocked_depot.supplies.next_supply_id stocked_depot.supplies.productions ≡ none
unfolding baked_depot stocked_depot create_supply_purchase get_or_create_supply_stocks
    add_supply_stocks count_supplies upsert_supply_stock find_supply_stock receive_supplies
    receive_supply create_lot create_entry sync_quantity total_remaining remaining_from
    create_supply_movements settle_supply_purchase supply_total supply_total_from stock_in for_each
    lookup put exact ◌+ℤ◌ ◌-ℤ◌ ◌*ℤ◌ create_production_run begin process_completion own_supplies
    check_supply stock_of_supply consume_supplies consume_supply consume_stock consume_parts
    consume_part available_entries consume update_consumption create_usages store_product
    update_production
unused_id = refl

until_baked : LotsReach ⦃ar = exact⦄ depot baked_depot
until_baked =
    next stocked_depot baked_depot
      (next depot stocked_depot start
        (bought (some 1) 9 flour 101 (omega arith, (omega arith, tt)) stocked))
      (run 1 9 bread 104 unused_id bread-AreExact baked)

history : LotsReach ⦃ar = exact⦄ depot emptied_depot
history = next baked_depot emptied_depot until_baked (undone (some 1) 104 emptied)

LotsReach-HasSoundLots_example :
    HasSoundLots ⦃ar = exact⦄ emptied_depot × HasFreeDrafts emptied_depot
LotsReach-HasSoundLots_example =
    LotsReach-HasSoundLots ⦃ar = exact⦄ exact-RoundingLaws depot emptied_depot depot-HasSoundLots tt
      history

consume_stock-totals_example :
    Ensures
      (λ c _.
        (quantity_of_all c.records ≡ pos 0 +ℤ coins 5) × (cost_of_all c.records ≡ pos 0 +ℤ c.cost))
      (consume_stock ⦃ar = exact⦄ 1 10 100 gram (coins 5) (coins 10) [] stocked_depot)
consume_stock-totals_example =
    consume_stock-totals ⦃ar = exact⦄ 1 10 100 gram (coins 5) (coins 10) [] stocked_depot refl

baked_depot-HasSoundLots : HasSoundLots ⦃ar = exact⦄ baked_depot
baked_depot-HasSoundLots =
    (LotsReach-HasSoundLots ⦃ar = exact⦄ exact-RoundingLaws depot baked_depot depot-HasSoundLots tt
      until_baked).0

abbrev ordered : Purchase
ordered = record {
  organization_id = 1;
  supplier_id = none;
  total_amount = coins 39;
  transaction_id = none;
  status = pending;
  notes = none;
  performed_by = 9;
}

-- The second lot after the production.
abbrev second_lot : StockEntry
second_lot = record {
  organization_id = 1;
  supply_stock_id = 100;
  supply_purchase_id = some 101;
  initial_quantity = coins 4;
  remaining_quantity = coins 2;
  unit_cost = coins 6;
  is_exhausted = false;
}

-- Two packages of the second lot are in use.
in_use :
    (lookup 101 baked_depot.supplies.supply_purchases ≡ some ordered)
    × (lookup 103 baked_depot.supplies.entries ≡ some second_lot)
    × (used_of 103 baked_depot.supplies.usages ≡ coins 2)
unfolding baked_depot stocked_depot create_supply_purchase get_or_create_supply_stocks
    add_supply_stocks count_supplies upsert_supply_stock find_supply_stock receive_supplies
    receive_supply create_lot create_entry sync_quantity total_remaining remaining_from
    create_supply_movements settle_supply_purchase supply_total supply_total_from stock_in for_each
    lookup put exact ◌+ℤ◌ ◌-ℤ◌ ◌*ℤ◌ create_production_run begin process_completion own_supplies
    check_supply stock_of_supply consume_supplies consume_supply consume_stock consume_parts
    consume_part available_entries consume update_consumption create_usages store_product
    update_production
in_use = (refl, refl, refl)

remove_supply_purchase-used_example :
    remove_supply_purchase ⦃ar = exact⦄ (some 1) 9 101 baked_depot ≡ err (conflict entry_consumed)
remove_supply_purchase-used_example =
    remove_supply_purchase-used ⦃ar = exact⦄ 9 101 103 ordered second_lot baked_depot
      baked_depot-HasSoundLots in_use.0 refl in_use.1 refl (rw in_use.2 (omega arith))

drafted_depot : Db
drafted_depot = outcome depot (
    create_production_run ⦃ar = exact⦄ (some 1) 9 (record bread { status = some draft })
      stocked_depot)

finished_depot : Db
finished_depot = outcome depot (complete_production ⦃ar = exact⦄ (some 1) 9 104 drafted_depot)

-- A draft of the same production is completed.
finished_test :
    complete_production ⦃ar = exact⦄ (some 1) 9 104 drafted_depot ≡ ok (tt, finished_depot)
unfolding finished_depot drafted_depot stocked_depot create_supply_purchase
    get_or_create_supply_stocks add_supply_stocks count_supplies upsert_supply_stock
    find_supply_stock receive_supplies receive_supply create_lot create_entry sync_quantity
    total_remaining remaining_from create_supply_movements settle_supply_purchase supply_total
    supply_total_from stock_in for_each lookup put exact ◌+ℤ◌ ◌-ℤ◌ ◌*ℤ◌ create_production_run begin
    process_completion own_supplies check_supply stock_of_supply consume_supplies consume_supply
    consume_stock consume_parts consume_part available_entries consume update_consumption
    create_usages store_product update_production complete_production find_production
finished_test = refl

complete_production-complete_production_example :
    (complete_production ⦃ar = exact⦄ (some 1) 9 104 finished_depot
      ≡ err (bad_request cannot_complete))
    × (cancel_production (some 1) 104 finished_depot ≡ err (bad_request cannot_cancel))
complete_production-complete_production_example =
    complete_production-complete_production ⦃ar = exact⦄ 1 9 9 104 drafted_depot finished_depot
      finished_test
