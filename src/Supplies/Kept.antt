-- ===== src/Supplies/Kept.antt =====
-- The repositories' operations on lots and stocks
-- (src/modules/supply-stock-entries/supply-stock-entries.repository.ts and
-- src/modules/supply-stocks/supply-stocks.repository.ts) and the state of the lots.
use easy_point_api.Base.{
  Bool-cases, List, [], ◌∷◌, ◌++◌, Option-cases, some, ℕ, ◌<◌, ◌≤◌, ◌&&◌, ◌==◌, ◌≡◌, refl, arith,
  inl, inr, map,
}
use easy_point_api.Base.Int.{pos, ◌≤ℤ◌}
use easy_point_api.Base.Table.{Table, lookup}
use easy_point_api.Base.Table.Fresh.{KeysBelow}
use easy_point_api.Decimal.{Arith, RoundingLaws}
use easy_point_api.Supplies.{
  create_entry, create_supply_movements, find_supply_stock, stored_entry, sync_quantity,
  upsert_supply_stock, stored_movement,
}
use easy_point_api.Supplies.Lots.{IsBrought, HoldsLots}
use easy_point_api.Supplies.Steps.{insert-HasLots, sync-HasLots, moves-HasLots, new_stock-HasLots}
use easy_point_api.Database.{Db, Ensures, StockEntry, SupplyMovement, SupplyStock, SupplyUsage}

find_supply_stock-below :
    (n supply location id : ℕ) (t : Table SupplyStock)
    → KeysBelow n t
    → find_supply_stock supply location t ≡ some id
    → id < n
unfolding find_supply_stock
find_supply_stock-below n supply location id [] h e = cc
find_supply_stock-below n supply location id ((j, s) ∷ t) h e =
    elim (Bool-cases (s.supply_id == supply && s.location == location)) [
      | inl m ↦
          let same : some j ≡ some id = rw m at e in
          let here : j ≡ id = ground arith in omega (arith, here, h.0)
      | inr m ↦ find_supply_stock-below n supply location id t h.1 (rw m at e)
    ]

-- Ids that were drawn before.
abbrev pub next_of : Db → ℕ
next_of db = db.supplies.next_supply_id

module _ ⦃ar : Arith⦄ (laws : RoundingLaws ar) where
  pub upsert-HoldsLots :
      (organization supply location : ℕ) (waiting : List SupplyUsage) (loose : List ℕ) (db : Db)
      → HoldsLots waiting loose db
      → Ensures
          (λ id db'. HoldsLots waiting loose db' × (id < next_of db') × (next_of db ≤ next_of db'))
          (upsert_supply_stock organization supply location db)
  unfolding upsert_supply_stock
  upsert-HoldsLots organization supply location waiting loose db h =
      elim (Option-cases (find_supply_stock supply location db.supplies.supply_stocks)) [
        | inl e ↦ rw (e, Ensures) (new_stock-HasLots h laws _ refl, omega arith, omega arith)
        | inr (id, e) ↦
            rw (e, Ensures)
              (
                h,
                find_supply_stock-below (next_of db) supply location id db.supplies.supply_stocks
                    h.fresh_stocks e,
                omega arith,
              )
      ]

  pub create_entry-HoldsLots :
      (e : StockEntry) (waiting : List SupplyUsage) (loose : List ℕ) (db : Db)
      → HoldsLots waiting loose db
      → e.initial_quantity ≡ e.remaining_quantity
      → pos 0 ≤ℤ e.remaining_quantity
      → IsBrought db.supplies.supply_movements e.supply_stock_id e.supply_purchase_id
      → e.supply_stock_id < next_of db
      → Ensures
          (λ _ db'.
            HoldsLots waiting (e.supply_stock_id ∷ loose) db'
            × (db'.supplies.supply_movements ≡ db.supplies.supply_movements)
            × (next_of db ≤ next_of db'))
          (create_entry e db)
  unfolding create_entry
  create_entry-HoldsLots e waiting loose db h full sign brought place = (
    insert-HasLots h (stored_entry e) (rw full)
        (laws.stored e.remaining_quantity, laws.keeps_sign e.remaining_quantity sign, brought)
        place,
    refl,
    omega arith,
  )

  pub sync_quantity-HoldsLots :
      (k : ℕ) (waiting : List SupplyUsage) (rest : List ℕ) (db : Db)
      → HoldsLots waiting (k ∷ rest) db
      → Ensures
          (λ _ db'.
            HoldsLots waiting rest db'
            × (db'.supplies.supply_movements ≡ db.supplies.supply_movements)
            × (next_of db ≤ next_of db'))
          (sync_quantity k db)
  unfolding sync_quantity
  sync_quantity-HoldsLots k waiting rest db h =
      elim (Option-cases (lookup k db.supplies.supply_stocks)) [
        | inl e ↦ rw (e, Ensures) tt
        | inr (s, e) ↦ rw (e, Ensures) (sync-HasLots h k s rest e refl, refl, omega arith)
      ]

  pub create_supply_movements-HoldsLots :
      (rows : List SupplyMovement) (waiting : List SupplyUsage) (loose : List ℕ) (db : Db)
      → HoldsLots waiting loose db
      → Ensures
          (λ _ db'.
            HoldsLots waiting loose db'
            × (db'.supplies.supply_movements
                ≡ map stored_movement rows ++ db.supplies.supply_movements)
            × (next_of db' ≡ next_of db))
          (create_supply_movements rows db)
  unfolding create_supply_movements
  create_supply_movements-HoldsLots rows waiting loose db h =
      (moves-HasLots h (map stored_movement rows), refl, refl)
