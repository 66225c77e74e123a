-- ===== src/Productions/Consumed.antt =====
-- The loop of a production over its supplies and the state of the lots
-- (src/modules/productions/productions.service.ts).
use easy_point_api.Base.{
  All, Bool, Bool-cases, Option-cases, true, false, List, [], ◌∷◌, Option, none, some, ℕ, ◌==◌, ◌≡◌,
  ◌≤◌, refl, inl, inr, length, not,
}
use easy_point_api.Base.Int.{ℤ, pos, ◌+ℤ◌, is_zero}
use easy_point_api.Base.Table.{Table, lookup}
use easy_point_api.Decimal.{Arith, RoundingLaws, ceiling}
use easy_point_api.Supplies.{available_entries, create_supply_movements, sync_quantity}
use easy_point_api.Supplies.Lots.{HoldsLots}
use easy_point_api.Supplies.Steps.{loosen-HasLots}
use easy_point_api.Supplies.Kept.{
  create_supply_movements-HoldsLots, next_of, sync_quantity-HoldsLots,
}
use easy_point_api.Productions.Consumption.{
  Consumption, SupplyInput, consume_parts, consume_stock, consume_supplies, consume_supply,
  in_packages, is_measurable, stock_of_supply,
}
use easy_point_api.Productions.Taken.{consume_parts-HoldsLots, consume_wholes-HoldsLots}
use easy_point_api.Productions.Available.{IsDue, available-Found}
use easy_point_api.Database.{
  Db, Ensures, Ensures-bind, Supply, SupplyUsage, UnitOfMeasure, insufficient_supply, pure,
  throw_if, unprocessable, ◌>>◌,
}

module _ ⦃ar : Arith⦄ where
  -- A measurable supply is used in packages with four decimal places at most.
  abbrev pub IsMeasured : Bool → ℤ → Type 0
  IsMeasured true packages = IsDue packages
  IsMeasured false packages = Unit

  abbrev pub IsExactOf : Option Supply → ℤ → Type 0
  IsExactOf none quantity = Unit
  IsExactOf (some s) quantity =
      IsMeasured (is_measurable s.unit_of_measure) (in_packages s quantity)

  abbrev pub AreExact : Table Supply → List SupplyInput → Type 0
  AreExact supplies =
      All (λ (i : SupplyInput). IsExactOf (lookup i.supply_id supplies) i.quantity_used)

module _ ⦃ar : Arith⦄ (laws : RoundingLaws ar) where
  consume_stock-HoldsLots :
      (production supply stock : ℕ) (unit : UnitOfMeasure) (packages quantity : ℤ)
      (records : List SupplyUsage) (db : Db)
      → HoldsLots records [] db
      → IsMeasured (is_measurable unit) packages
      → Ensures
          (λ c db'. HoldsLots c.records (stock ∷ []) db')
          (consume_stock production supply stock unit packages quantity records db)
  unfolding consume_stock
  consume_stock-HoldsLots production supply stock unit packages quantity records db h due =
      let es = available_entries stock db.supplies.entries in
      let f = available-Found stock db.supplies.entries h.unique in
      let open_lots : HoldsLots records (stock ∷ []) db =
        loosen-HasLots h (stock ∷ []) (λ k f. refl) in
      elim (Bool-cases (is_measurable unit)) [
        | inl m ↦ elim (Bool-cases (length es == 0)) [
          | inl z ↦ rw (m, z, Ensures) tt
          | inr z ↦
              rw (m, z, Ensures)
                (Ensures-bind (λ c db'. HoldsLots c.records (stock ∷ []) db')
                  (λ c db'. HoldsLots c.records (stock ∷ []) db')
                  (consume_parts production supply es
                    (record { left = packages; cost = pos 0; records = records }))
                  (λ c.
                    throw_if (not (is_zero c.left)) (unprocessable insufficient_supply) >> pure c)
                  db
                  (consume_parts-HoldsLots laws production supply stock es
                    (record { left = packages; cost = pos 0; records = records }) db open_lots f
                    (rw m at due))
                  (λ c db' p. passes c db' p (is_zero c.left)))
        ]
        | inr m ↦
            rw (m, Ensures)
              (consume_wholes-HoldsLots laws production supply stock es
                (record { left = ceiling quantity; cost = pos 0; records = records }) db open_lots
                f)
      ]
    where
      passes :
          (c : Consumption) (db' : Db)
          → HoldsLots c.records (stock ∷ []) db'
          → (b : Bool)
          → Ensures
              (λ c db'. HoldsLots c.records (stock ∷ []) db')
              ((throw_if (not b) (unprocessable insufficient_supply) >> pure c) db')
      passes c db' p true = p
      passes c db' p false = tt

  consume_supply-HoldsLots :
      (organization user production : ℕ) (supplies : Table Supply) (i : SupplyInput)
      (acc : ℤ × List SupplyUsage) (db : Db)
      → HoldsLots acc.1 [] db
      → IsExactOf (lookup i.supply_id supplies) i.quantity_used
      → Ensures
          (λ acc' db'. HoldsLots acc'.1 [] db')
          (consume_supply organization user production supplies i acc db)
  unfolding consume_supply
  consume_supply-HoldsLots organization user production supplies i acc db h exact_use =
      elim (Option-cases (lookup i.supply_id supplies)) [
        | inl e ↦ rw (e, Ensures) tt
        | inr (s, e) ↦
            elim (Option-cases
              (stock_of_supply organization i.supply_id db.supplies.supply_stocks)) [
                | inl e' ↦ rw (e, e', Ensures) tt
                | inr (stock, e') ↦
                    let packages = in_packages s i.quantity_used in
                    rw (e, e', Ensures)
                      (Ensures-bind (λ c db'. HoldsLots c.records (stock.0 ∷ []) db')
                        (λ acc' db'. HoldsLots acc'.1 [] db')
                        (consume_stock production i.supply_id stock.0 s.unit_of_measure packages
                          i.quantity_used acc.1)
                        _ db
                        (consume_stock-HoldsLots production i.supply_id stock.0 s.unit_of_measure
                          packages i.quantity_used acc.1 db h (rw e at exact_use))
                        (λ c db1 p.
                          Ensures-bind
                            (λ _ db'.
                              HoldsLots c.records [] db'
                              × (db'.supplies.supply_movements ≡ db1.supplies.supply_movements)
                              × (next_of db1 ≤ next_of db'))
                            (λ acc' db'. HoldsLots acc'.1 [] db') (sync_quantity stock.0) _ db1
                            (sync_quantity-HoldsLots laws stock.0 c.records [] db1 p)
                            (λ _ db2 q.
                              Ensures-bind
                                (λ _ db'.
                                  HoldsLots c.records [] db'
                                  × (db'.supplies.supply_movements ≡ _)
                                  × (next_of db' ≡ next_of db2))
                                (λ acc' db'. HoldsLots acc'.1 [] db') (create_supply_movements _)
                                (λ _. pure (acc.0 +ℤ c.cost, c.records)) db2
                                (create_supply_movements-HoldsLots laws _ c.records [] db2 q.0)
                                (λ _ db3 r. r.0))))
              ]
      ]

  pub consume_supplies-HoldsLots :
      (organization user production : ℕ) (supplies : Table Supply) (inputs : List SupplyInput)
      (acc : ℤ × List SupplyUsage) (db : Db)
      → HoldsLots acc.1 [] db
      → AreExact supplies inputs
      → Ensures
          (λ acc' db'. HoldsLots acc'.1 [] db')
          (consume_supplies organization user production supplies inputs acc db)
  unfolding consume_supplies
  consume_supplies-HoldsLots organization user production supplies [] acc db h exact_uses = h
  consume_supplies-HoldsLots organization user production supplies (i ∷ inputs) acc db h
        exact_uses =
      Ensures-bind (λ acc' db'. HoldsLots acc'.1 [] db') (λ acc' db'. HoldsLots acc'.1 [] db')
        (consume_supply organization user production supplies i acc)
        (λ acc'. consume_supplies organization user production supplies inputs acc') db
        (consume_supply-HoldsLots organization user production supplies i acc db h exact_uses.0)
        (λ acc' db' p.
          consume_supplies-HoldsLots organization user production supplies inputs acc' db' p
            exact_uses.1)
