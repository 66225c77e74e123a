-- ===== src/Productions/Removed.antt =====
-- `remove` of `ProductionsService` and the state of the lots
-- (src/modules/productions/productions.service.ts).
use easy_point_api.Base.{
  Bool, Bool-cases, Option-cases, true, false, List, [], ◌∷◌, Option, none, some, ℕ, ◌==◌, ◌≡◌,
  ◌++◌, any, is_some, keep_if, refl, sym, subst, inl, inr, not, ◌&&◌,
}
use easy_point_api.Base.Table.{Table, lookup}
use easy_point_api.Base.Table.Rows.{AllRows}
use easy_point_api.Decimal.{Arith, RoundingLaws}
use easy_point_api.Sales.Create.{belongs_to}
use easy_point_api.Supplies.{sync_quantity}
use easy_point_api.Supplies.Lots.{IsBrought, IsLot, HasLots, HasSoundLots, brings}
use easy_point_api.Supplies.Steps.{recount-HasLots}
use easy_point_api.Supplies.Kept.{next_of}
use easy_point_api.Supplies.Logic.{KeepsLots, KeepsLots-bind, KeepsLots-frame}
use easy_point_api.Productions.Available.{AreUses-append}
use easy_point_api.Productions.Completed.{AreIntended, AreUses-keep_if, used_of-others}
use easy_point_api.Productions.Lifecycle.{
  owns, find_production, is_finished, of_production, sold_product,
}
use easy_point_api.Productions.Removal.{
  refill_lots, remove_production, revert_production, take_back_product,
}
use easy_point_api.Database.{
  Db, Ensures, Ensures-bind, Production, StockEntry, SupplyMovement, SupplyStock, SupplyUsage,
  for_each,
}
use easy_point_api.Productions.Refilled.{
  used_of-split, take_back_product-Keeps, LotsWith, refill_lots-LotsWith, sync_all-HasSoundLots,
}

abbrev pub UnlessFinished : Bool → ℕ → List SupplyUsage → Type 0
UnlessFinished true id us = Unit
UnlessFinished false id us = AreIntended id us

-- Unless the production is completed, its usages take from no lot.
abbrev pub RemovesIntended : ℕ → Option Production → List SupplyUsage → Type 0
RemovesIntended id none us = Unit
RemovesIntended id (some p) us = UnlessFinished (is_finished p.status) id us

module _ ⦃ar : Arith⦄ (laws : RoundingLaws ar) where
  -- Movements of a production bring no lot.
  abbrev unmade : ℕ → SupplyMovement → Bool
  unmade id m = not (belongs_to id m.production_id)

  brings-unmade :
      (id p stock : ℕ) (moves : List SupplyMovement)
      → any (brings p stock) moves ≡ true
      → any (brings p stock) (keep_if (unmade id) moves) ≡ true
  brings-unmade id p stock [] h = h
  brings-unmade id p stock (m ∷ moves) h = elim (Bool-cases (belongs_to id m.production_id)) [
    | inl mine ↦
        let off : brings p stock m ≡ false =
          brings_off (belongs_to p m.supply_purchase_id && m.stock_id == stock) m.production_id
            mine in
        rw mine (brings-unmade id p stock moves (rw off at h))
    | inr kept ↦ elim (Bool-cases (brings p stock m)) [
      | inl b ↦ rw (kept, b)
      | inr b ↦ rw (kept, b) (brings-unmade id p stock moves (rw b at h))
    ]
  ]
    where
      brings_off :
          (b : Bool) (o : Option ℕ) → belongs_to id o ≡ true → (b && not (is_some o)) ≡ false
      brings_off b none e = cc
      brings_off true (some q) e = refl
      brings_off false (some q) e = refl

  IsBrought-unmade :
      (id : ℕ) (moves : List SupplyMovement) (stock : ℕ) (o : Option ℕ)
      → IsBrought moves stock o
      → IsBrought (keep_if (unmade id) moves) stock o
  IsBrought-unmade id moves stock none h = tt
  IsBrought-unmade id moves stock (some p) h = brings-unmade id p stock moves h

  IsLot-unmade :
      (id : ℕ) (moves : List SupplyMovement) (t : Table StockEntry)
      → AllRows (IsLot moves) t
      → AllRows (IsLot (keep_if (unmade id) moves)) t
  IsLot-unmade id moves [] h = tt
  IsLot-unmade id moves ((j, r) ∷ t) h = (
    (h.0.0, h.0.1, IsBrought-unmade id moves r.supply_stock_id r.supply_purchase_id h.0.2),
    IsLot-unmade id moves t h.1,
  )

  unmade-HasLots :
      (id n : ℕ) (entries : Table StockEntry) (stocks : Table SupplyStock)
      (moves : List SupplyMovement) (us : List SupplyUsage)
      → HasLots n entries stocks moves us []
      → HasLots n entries stocks (keep_if (unmade id) moves) us []
  unmade-HasLots id n entries stocks moves us h = record {
    started = h.started;
    unique = h.unique;
    fresh = h.fresh;
    fresh_stocks = h.fresh_stocks;
    located = h.located;
    lots = IsLot-unmade id moves entries h.lots;
    uses = h.uses;
    accounted = h.accounted;
    synced = h.synced;
  }

  abbrev other_uses : ℕ → List SupplyUsage → List SupplyUsage
  other_uses id us = keep_if (λ (u : SupplyUsage). not (of_production id u)) us

  revert_production-KeepsLots : (id : ℕ) (p : Production) → KeepsLots (revert_production id p)
  unfolding revert_production
  revert_production-KeepsLots id p =
      KeepsLots-bind (take_back_product id p.quantity_produced (sold_product p)) _
        (KeepsLots-frame (take_back_product id p.quantity_produced (sold_product p))
          (take_back_product-Keeps id p.quantity_produced (sold_product p)))
        (λ _ db h.
          let us = db.supplies.usages in
          let mine = keep_if (of_production id) us in
          let db1 : Db = record db {
            supplies = record db.supplies {
              supply_movements = keep_if (unmade id) db.supplies.supply_movements;
            };
          } in
          let h1 : LotsWith (mine ++ other_uses id us) [] db1 =
            recount-HasLots (unmade-HasLots id _ _ _ _ _ h) (mine ++ other_uses id us)
              (AreUses-append (next_of db) mine (other_uses id us)
                (AreUses-keep_if (next_of db) (of_production id) us h.uses)
                (AreUses-keep_if (next_of db) (λ (u : SupplyUsage). not (of_production id u)) us
                  h.uses))
              (λ j. used_of-split j (of_production id) us) in
          Ensures-bind
            (λ affected db'. LotsWith (other_uses id us) affected db' × (db'.supplies.usages ≡ us))
            (λ _ db'. HasSoundLots db') (refill_lots mine []) _ db1
            (refill_lots-LotsWith laws mine (other_uses id us) [] db1 h1)
            (λ affected db2 q.
              let db3 : Db = record db2 {
                supplies = record db2.supplies { usages = other_uses id db2.supplies.usages };
              } in
              Ensures-bind (λ _ db'. HasSoundLots db') (λ _ db'. HasSoundLots db')
                (for_each affected sync_quantity) _ db3
                (sync_all-HasSoundLots laws affected db3
                  (subst (λ vs. LotsWith (other_uses id vs) affected db2) (sym q.1) q.0))
                (λ _ db4 h4. h4)))

  pub remove_production-HasSoundLots :
      (tenant : Option ℕ) (id : ℕ) (db : Db)
      → HasSoundLots db
      → RemovesIntended id (lookup id db.supplies.productions) db.supplies.usages
      → Ensures (λ _ db'. HasSoundLots db') (remove_production tenant id db)
  unfolding remove_production find_production
  remove_production-HasSoundLots tenant id db h free =
      elim (Option-cases (lookup id db.supplies.productions)) [
        | inl e ↦ rw (e, Ensures) tt
        | inr (p, e) ↦ elim (Bool-cases (owns tenant p)) [
          | inr o ↦ rw (e, o, Ensures) tt
          | inl o ↦ elim (Bool-cases (is_finished p.status)) [
            | inl f ↦ rw (e, o, f, Ensures) (revert_production-KeepsLots id p db h)
            | inr f ↦
                let free' : AreIntended id db.supplies.usages = rw (e, f) at free in
                rw (e, o, f, Ensures)
                  (recount-HasLots h (other_uses id db.supplies.usages)
                    (AreUses-keep_if (next_of db) (λ (u : SupplyUsage). not (of_production id u))
                      db.supplies.usages h.uses)
                    (λ j. used_of-others j id db.supplies.usages free'))
          ]
        ]
      ]
