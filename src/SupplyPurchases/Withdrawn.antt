-- ===== src/SupplyPurchases/Withdrawn.antt =====
-- The removal of the lots of a purchase of supplies
-- (`remove` in src/modules/supply-purchases/supply-purchases.service.ts).
use easy_point_api.Base.{
  Bool-cases, Option-cases, false, List, [], ◌∷◌, Option, none, some, ℕ, ◌≡◌, refl, ap, sym, subst,
  inl, inr, ◌≤◌, keep_if, map,
}
use easy_point_api.Base.Table.{Table, lookup}
use easy_point_api.Base.Table.Rows.{AllRows}
use easy_point_api.Base.Table.Fresh.{keep_rows}
use easy_point_api.Decimal.{Arith, RoundingLaws}
use easy_point_api.Sales.Create.{belongs_to}
use easy_point_api.Supplies.{sync_quantity}
use easy_point_api.Supplies.Lots.{IsBrought, IsLot, HasLots, HoldsLots, HasSoundLots}
use easy_point_api.Supplies.Kept.{next_of, sync_quantity-HoldsLots}
use easy_point_api.Supplies.Logic.{KeepsLots}
use easy_point_api.SupplyPurchases.Lifecycle.{
  forget_lots, is_lot_of, of_supply_purchase, some_consumed, withdraw_supplies,
}
use easy_point_api.Database.{
  Db, Ensures, Ensures-bind, Ensures-both, Keeps, Keeps-for_each, StockEntry, SupplyMovement,
  SupplyStock, SupplyUsage, for_each,
}
use easy_point_api.SupplyPurchases.Forgotten.{not_lot_of, other, brings-other, withdraw-HasLots}

module _ ⦃ar : Arith⦄ where
  -- Bringing every stock of the movements up to date.
  sync_each-HoldsLots :
      (laws : RoundingLaws ar) (ms : List SupplyMovement) (db : Db)
      → HoldsLots [] (map (λ (m : SupplyMovement). m.stock_id) ms) db
      → Ensures
          (λ _ db'. HasSoundLots db')
          (for_each ms (λ (m : SupplyMovement). sync_quantity m.stock_id) db)
  unfolding for_each
  sync_each-HoldsLots laws [] db h = h
  sync_each-HoldsLots laws (m ∷ ms) db h =
      let rest = map (λ (x : SupplyMovement). x.stock_id) ms in
      Ensures-bind
        (λ _ db'.
          HoldsLots [] rest db'
          × (db'.supplies.supply_movements ≡ db.supplies.supply_movements)
          × (next_of db ≤ next_of db'))
        (λ _ db'. HasSoundLots db') (sync_quantity m.stock_id)
        (λ _. for_each ms (λ (x : SupplyMovement). sync_quantity x.stock_id)) db
        (sync_quantity-HoldsLots laws m.stock_id [] rest db h)
        (λ _ db' p. sync_each-HoldsLots laws ms db' p.0)

  -- What `syncQuantityWithEntries` leaves alone.
  abbrev lots_view : Db → Table StockEntry × List SupplyMovement
  lots_view db = (db.supplies.entries, db.supplies.supply_movements)

  sync_quantity-Keeps : (k : ℕ) → Keeps lots_view (sync_quantity k)
  unfolding sync_quantity
  sync_quantity-Keeps k db = elim (Option-cases (lookup k db.supplies.supply_stocks)) [
    | inl e ↦ rw (e, Ensures) tt
    | inr (s, e) ↦ rw (e, Ensures) refl
  ]

  IsBrought-other :
      (id : ℕ) (moves : List SupplyMovement) (stock : ℕ) (o : Option ℕ)
      → belongs_to id o ≡ false
      → IsBrought moves stock o
      → IsBrought (keep_if (other id) moves) stock o
  IsBrought-other id moves stock none e h = tt
  IsBrought-other id moves stock (some p) e h = brings-other id p stock moves e h

  IsLot-other :
      (id : ℕ) (moves : List SupplyMovement) (t : Table StockEntry)
      → AllRows (λ (e : StockEntry). is_lot_of id e ≡ false) t
      → AllRows (IsLot moves) t
      → AllRows (IsLot (keep_if (other id) moves)) t
  IsLot-other id moves [] e h = tt
  IsLot-other id moves ((j, r) ∷ t) e h = (
    (h.0.0, h.0.1, IsBrought-other id moves r.supply_stock_id r.supply_purchase_id e.0 h.0.2),
    IsLot-other id moves t e.1 h.1,
  )

  none_left :
      (id : ℕ) (t : Table StockEntry)
      → AllRows (λ (e : StockEntry). is_lot_of id e ≡ false) (keep_rows (not_lot_of id) t)
  none_left id [] = tt
  none_left id ((j, r) ∷ t) = elim (Bool-cases (is_lot_of id r)) [
    | inl m ↦ rw m (none_left id t)
    | inr m ↦ rw m (m, none_left id t)
  ]

  forget_moves-HasLots :
      (id n : ℕ) (entries : Table StockEntry) (stocks : Table SupplyStock)
      (moves : List SupplyMovement) (usages : List SupplyUsage)
      → HasLots n entries stocks moves usages []
      → AllRows (λ (e : StockEntry). is_lot_of id e ≡ false) entries
      → HasLots n entries stocks (keep_if (other id) moves) usages []
  forget_moves-HasLots id n entries stocks moves usages h none_of = record {
    started = h.started;
    unique = h.unique;
    fresh = h.fresh;
    fresh_stocks = h.fresh_stocks;
    located = h.located;
    lots = IsLot-other id moves entries none_of h.lots;
    uses = h.uses;
    accounted = h.accounted;
    synced = h.synced;
  }

  pub withdraw_supplies-KeepsLots :
      (laws : RoundingLaws ar) (id : ℕ) → KeepsLots (withdraw_supplies id)
  unfolding withdraw_supplies
  withdraw_supplies-KeepsLots laws id db h =
      elim (Bool-cases (some_consumed id db.supplies.entries)) [
        | inl e ↦ rw (e, Ensures) tt
        | inr e ↦
            let sync = λ (m : SupplyMovement). sync_quantity m.stock_id in
            let ms = keep_if (of_supply_purchase id) db.supplies.supply_movements in
            let db1 : Db = record db {
              supplies = record db.supplies {
                entries = keep_rows (not_lot_of id) db.supplies.entries;
                usages = map (forget_lots id db.supplies.entries) db.supplies.usages;
              };
            } in
            rw e (
              Ensures-bind (λ _ db'. HasSoundLots db' × (lots_view db' ≡ lots_view db1))
                (λ _ db'. HasSoundLots db') (for_each ms sync) _ db1
                (Ensures-both (λ _ db'. HasSoundLots db') (λ _ db'. lots_view db' ≡ lots_view db1)
                  (for_each ms sync db1)
                  (sync_each-HoldsLots laws ms db1 (withdraw-HasLots id _ _ _ _ _ h))
                  (Keeps-for_each lots_view ms sync (λ m. sync_quantity-Keeps m.stock_id) db1))
                (λ _ db2 p. forget_moves-HasLots id _ _ _ _ _ p.0 (
                  subst (λ t. AllRows (λ (e : StockEntry). is_lot_of id e ≡ false) t)
                    (sym (ap (λ (v : Table StockEntry × List SupplyMovement). v.0) p.1))
                    (none_left id db.supplies.entries))))
      ]
