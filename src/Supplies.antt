-- ===== src/Supplies.antt =====
-- Supply stocks and their lots: src/modules/supply-stock-entries/domain/supply-stock-entry.entity.ts,
-- src/modules/supply-stock-entries/supply-stock-entries.repository.ts and
-- src/modules/supply-stocks/supply-stocks.repository.ts.
pub mod Lots
pub mod Remaining
pub mod Uses
pub mod Steps
pub mod Kept
pub mod Logic
use easy_point_api.Base.{
  Bool, true, List, [], ◌∷◌, ◌++◌, Option, none, some, ℕ, suc, ⊤, ◌==◌, ◌&&◌, not, if◌then◌else◌,
  keep_if, map,
}
use easy_point_api.Base.Int.{ℤ, pos, ◌+ℤ◌, ◌-ℤ◌, ltb_ℤ, is_zero}
use easy_point_api.Base.Table.{Table, lookup, insert, put}
use easy_point_api.Decimal.{Arith, to_column, ceiling}
use easy_point_api.Database.{
  SupplyStock, StockEntry, SupplyMovement, Tx, Result, ok, err, failure, record_not_found,
  entry_exhausted, insufficient_entry, modify_supplies,
}

-- `consume` of the entity: what was consumed, and the lot after it.
unfoldable pub consume : StockEntry → ℤ → Bool → Result (ℤ × StockEntry)
consume e amount exhaust_all =
    let left = e.remaining_quantity -ℤ amount in
    if e.is_exhausted
    then err (failure entry_exhausted)
    else if exhaust_all
    then ok (e.remaining_quantity, record e { remaining_quantity = pos 0; is_exhausted = true })
    else if ltb_ℤ e.remaining_quantity amount
    then err (failure insufficient_entry)
    else ok (amount, record e { remaining_quantity = left; is_exhausted = is_zero left })

-- `findUnique({ where: { supplyId_location } })`
unfoldable pub find_supply_stock : ℕ → ℕ → Table SupplyStock → Option ℕ
find_supply_stock supply location [] = none
find_supply_stock supply location ((id, s) ∷ t) =
    if s.supply_id == supply && s.location == location
    then some id
    else find_supply_stock supply location t

abbrev pub new_stock : ℕ → ℕ → ℕ → SupplyStock
new_stock organization supply location = record {
  organization_id = organization;
  supply_id = supply;
  location = location;
  quantity = pos 0;
}

-- `upsert` with an empty update: the id of the stock record, made with quantity 0 if there is none
unfoldable pub upsert_supply_stock : ℕ → ℕ → ℕ → Tx ℕ
upsert_supply_stock organization supply location db =
    elim (find_supply_stock supply location db.supplies.supply_stocks) [
      | some id ↦ ok (id, db)
      | none ↦ ok (
        db.supplies.next_supply_id,
        record db {
          supplies = record db.supplies {
            supply_stocks =
                insert db.supplies.next_supply_id (new_stock organization supply location)
                  db.supplies.supply_stocks;
            next_supply_id = suc db.supplies.next_supply_id;
          };
        },
      )
    ]

-- `findAvailableByStockId`: the lots of a stock that are not exhausted, the oldest first.
abbrev pub is_available : ℕ → StockEntry → Bool
is_available stock e = e.supply_stock_id == stock && not e.is_exhausted

unfoldable pub available_entries : ℕ → Table StockEntry → Table StockEntry
available_entries stock [] = []
available_entries stock ((id, e) ∷ t) =
    let older = available_entries stock t in
    if is_available stock e then older ++ (id, e) ∷ [] else older

-- The sum of what remains in the lots of a stock.
unfoldable pub remaining_from : ℤ → ℕ → Table StockEntry → ℤ
remaining_from acc stock [] = acc
remaining_from acc stock ((id, e) ∷ t) =
    remaining_from (if e.supply_stock_id == stock then acc +ℤ e.remaining_quantity else acc) stock t

unfoldable pub total_remaining : ℕ → Table StockEntry → ℤ
unfolding remaining_from
total_remaining stock entries = remaining_from (pos 0) stock entries

module _ ⦃ar : Arith⦄ where
  abbrev pub stored_entry : StockEntry → StockEntry
  stored_entry e = record e {
    initial_quantity = to_column e.initial_quantity;
    remaining_quantity = to_column e.remaining_quantity;
    unit_cost = to_column e.unit_cost;
  }

  -- `supplyStockEntriesRepository.create`
  unfoldable pub create_entry : StockEntry → Tx ⊤
  create_entry e = modify_supplies (λ s. record s {
    entries = insert s.next_supply_id (stored_entry e) s.entries;
    next_supply_id = suc s.next_supply_id;
  })

  -- UPDATE of `remainingQuantity` and `isExhausted` of a lot
  unfoldable pub update_consumption : ℕ → ℤ → Bool → Tx ⊤
  update_consumption id remaining exhausted db = elim (lookup id db.supplies.entries) [
    | none ↦ err record_not_found
    | some e ↦ ok (
      tt,
      record db {
        supplies = record db.supplies {
          entries =
              put id
                (record e { remaining_quantity = to_column remaining; is_exhausted = exhausted })
                db.supplies.entries;
        };
      },
    )
  ]

  -- `syncQuantityWithEntries`
  unfoldable pub sync_quantity : ℕ → Tx ⊤
  sync_quantity id db = elim (lookup id db.supplies.supply_stocks) [
    | none ↦ err record_not_found
    | some s ↦ ok (
      tt,
      record db {
        supplies = record db.supplies {
          supply_stocks =
              put id
                (record s {
                  quantity = to_column (ceiling (total_remaining id db.supplies.entries));
                })
                db.supplies.supply_stocks;
        };
      },
    )
  ]

  abbrev pub stored_supply_cost : Option ℤ → Option ℤ
  stored_supply_cost none = none
  stored_supply_cost (some c) = some (to_column c)

  abbrev pub stored_movement : SupplyMovement → SupplyMovement
  stored_movement m = record m {
    quantity = to_column m.quantity;
    unit_cost = stored_supply_cost m.unit_cost;
  }

  -- `supplyMovementsRepository.createMany`
  unfoldable pub create_supply_movements : List SupplyMovement → Tx ⊤
  create_supply_movements rows =
      modify_supplies
        (λ s. record s { supply_movements = map stored_movement rows ++ s.supply_movements })
