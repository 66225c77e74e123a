-- ===== src/Productions/Frame.antt =====
-- What a production leaves as it is while it consumes supplies: the productions and the stored usages
-- (src/modules/productions/productions.service.ts).
use easy_point_api.Base.{
  Bool-cases, Option-cases, true, false, List, [], ◌∷◌, ℕ, ◌==◌, refl, inl, inr, not, length,
}
use easy_point_api.Base.Int.{ℤ, pos, is_zero, leb_ℤ}
use easy_point_api.Base.Table.{Table, lookup}
use easy_point_api.Decimal.{Arith, ceiling}
use easy_point_api.Supplies.{
  available_entries, consume, create_supply_movements, sync_quantity, update_consumption,
}
use easy_point_api.SupplyPurchases.Steps.{
  drafts_view, sync_quantity-Keeps, throw_if-Keeps, update_consumption-Keeps,
}
use easy_point_api.Productions.Consumption.{
  Consumption, SupplyInput, consume_part, consume_parts, consume_stock, consume_supplies,
  consume_supply, consume_whole, consume_wholes, in_packages, is_measurable, min_ℤ, stock_of_supply,
}
use easy_point_api.Database.{
  Ensures, Keeps, Keeps-bind, Result, ok, err, StockEntry, Supply, SupplyUsage, UnitOfMeasure,
  from_result, insufficient_supply, no_entries_available, pure, throw_if, unprocessable, ◌>>◌,
}

from_result-Keeps : {A : Type 0} (r : Result A) → Keeps drafts_view (from_result r)
from_result-Keeps (ok a) db = refl
from_result-Keeps (err e) db = tt

module _ ⦃ar : Arith⦄ where
  consume_part-Keeps :
      (production supply id : ℕ) (e : StockEntry) (c : Consumption)
      → Keeps drafts_view (consume_part production supply id e c)
  unfolding consume_part
  consume_part-Keeps production supply id e c =
      let amount = min_ℤ c.left e.remaining_quantity in
      Keeps-bind drafts_view (from_result (consume e amount false)) _
        (from_result-Keeps (consume e amount false))
        (λ after.
          Keeps-bind drafts_view
            (update_consumption id after.1.remaining_quantity after.1.is_exhausted) _
            (update_consumption-Keeps id after.1.remaining_quantity after.1.is_exhausted)
            (λ _ db. refl))

  consume_parts-Keeps :
      (production supply : ℕ) (es : Table StockEntry) (c : Consumption)
      → Keeps drafts_view (consume_parts production supply es c)
  unfolding consume_parts
  consume_parts-Keeps production supply [] c = λ db. refl
  consume_parts-Keeps production supply ((id, e) ∷ es) c = λ db.
      elim (Bool-cases (is_zero c.left)) [
        | inl z ↦ rw (z, Ensures) refl
        | inr z ↦
            rw (z, Ensures)
              (Keeps-bind drafts_view (consume_part production supply id e c)
                (λ c'. consume_parts production supply es c')
                (consume_part-Keeps production supply id e c)
                (λ c'. consume_parts-Keeps production supply es c') db)
      ]

  consume_whole-Keeps :
      (production supply id : ℕ) (e : StockEntry) (c : Consumption)
      → Keeps drafts_view (consume_whole production supply id e c)
  unfolding consume_whole
  consume_whole-Keeps production supply id e c =
      Keeps-bind drafts_view (from_result (consume e e.remaining_quantity true)) _
        (from_result-Keeps (consume e e.remaining_quantity true))
        (λ after.
          Keeps-bind drafts_view (update_consumption id after.1.remaining_quantity true) _
            (update_consumption-Keeps id after.1.remaining_quantity true) (λ _ db. refl))

  consume_wholes-Keeps :
      (production supply : ℕ) (es : Table StockEntry) (c : Consumption)
      → Keeps drafts_view (consume_wholes production supply es c)
  unfolding consume_wholes
  consume_wholes-Keeps production supply [] c = λ db. refl
  consume_wholes-Keeps production supply ((id, e) ∷ es) c = λ db.
      elim (Bool-cases (leb_ℤ c.left (pos 0))) [
        | inl z ↦ rw (z, Ensures) refl
        | inr z ↦
            rw (z, Ensures)
              (Keeps-bind drafts_view (consume_whole production supply id e c)
                (λ c'. consume_wholes production supply es c')
                (consume_whole-Keeps production supply id e c)
                (λ c'. consume_wholes-Keeps production supply es c') db)
      ]

  consume_stock-Keeps :
      (production supply stock : ℕ) (unit : UnitOfMeasure) (packages quantity : ℤ)
      (records : List SupplyUsage)
      → Keeps drafts_view (consume_stock production supply stock unit packages quantity records)
  unfolding consume_stock
  consume_stock-Keeps production supply stock unit packages quantity records db =
      let es = available_entries stock db.supplies.entries in
      let start : Consumption = record { left = packages; cost = pos 0; records = records } in
      let counted : Consumption = record {
        left = ceiling quantity;
        cost = pos 0;
        records = records;
      } in
      elim (Bool-cases (is_measurable unit)) [
        | inl m ↦ rw m (
            Keeps-bind drafts_view (throw_if (length es == 0) (unprocessable no_entries_available))
              _ (throw_if-Keeps (length es == 0) _)
              (λ _.
                Keeps-bind drafts_view (consume_parts production supply es start)
                  (λ c.
                    throw_if (not (is_zero c.left)) (unprocessable insufficient_supply) >> pure c)
                  (consume_parts-Keeps production supply es start)
                  (λ c.
                    Keeps-bind drafts_view
                      (throw_if (not (is_zero c.left)) (unprocessable insufficient_supply)) _
                      (throw_if-Keeps (not (is_zero c.left)) _) (λ _ db'. refl)))
              db)
        | inr m ↦ rw m (consume_wholes-Keeps production supply es counted db)
      ]

  consume_supply-Keeps :
      (organization user production : ℕ) (supplies : Table Supply) (i : SupplyInput)
      (acc : ℤ × List SupplyUsage)
      → Keeps drafts_view (consume_supply organization user production supplies i acc)
  unfolding consume_supply create_supply_movements
  consume_supply-Keeps organization user production supplies i acc db =
      elim (Option-cases (lookup i.supply_id supplies)) [
        | inl e ↦ rw (e, Ensures) tt
        | inr (s, e) ↦
            elim (Option-cases
              (stock_of_supply organization i.supply_id db.supplies.supply_stocks)) [
                | inl e' ↦ rw (e, e', Ensures) tt
                | inr (stock, e') ↦
                    let packages = in_packages s i.quantity_used in
                    rw (e, e')
                      (Keeps-bind drafts_view
                        (consume_stock production i.supply_id stock.0 s.unit_of_measure packages
                          i.quantity_used acc.1)
                        _
                        (consume_stock-Keeps production i.supply_id stock.0 s.unit_of_measure
                          packages i.quantity_used acc.1)
                        (λ c.
                          Keeps-bind drafts_view (sync_quantity stock.0) _
                            (sync_quantity-Keeps stock.0) (λ _ db'. refl))
                        db)
              ]
      ]

  pub consume_supplies-Keeps :
      (organization user production : ℕ) (supplies : Table Supply) (inputs : List SupplyInput)
      (acc : ℤ × List SupplyUsage)
      → Keeps drafts_view (consume_supplies organization user production supplies inputs acc)
  unfolding consume_supplies
  consume_supplies-Keeps organization user production supplies [] acc = λ db. refl
  consume_supplies-Keeps organization user production supplies (i ∷ inputs) acc =
      Keeps-bind drafts_view (consume_supply organization user production supplies i acc)
        (λ acc'. consume_supplies organization user production supplies inputs acc')
        (consume_supply-Keeps organization user production supplies i acc)
        (λ acc'. consume_supplies-Keeps organization user production supplies inputs acc')
