-- ===== src/Productions/Totals.antt =====
-- What a production consumes of a stock, and what that costs
-- (src/modules/productions/productions.service.ts).
use easy_point_api.Base.{
  Bool-cases, Option-cases, true, List, [], ◌∷◌, ℕ, ◌==◌, ◌≡◌, ◌++◌, refl, ◌∙◌, inl, inr, length,
  not,
}
use easy_point_api.Base.Int.{ℤ, pos, ◌+ℤ◌, ◌-ℤ◌, int_laws, is_zero, ltb_ℤ}
use easy_point_api.Base.Table.{Table, lookup}
use easy_point_api.Decimal.{Arith}
use easy_point_api.Supplies.{available_entries, consume, update_consumption}
use easy_point_api.Productions.Consumption.{
  Consumption, consume_part, consume_parts, consume_stock, is_measurable, min_ℤ,
}
use easy_point_api.Database.{
  Db, Ensures, Ensures-bind, Ensures-weaken, StockEntry, SupplyUsage, UnitOfMeasure,
  insufficient_supply, pure, throw_if, unprocessable, ◌>>◌,
}

-- The quantities of usages, and their costs, in sum.
abbrev pub quantity_of_all : List SupplyUsage → ℤ
quantity_of_all [] = pos 0
quantity_of_all (u ∷ us) = u.quantity_used +ℤ quantity_of_all us

abbrev pub cost_of_all : List SupplyUsage → ℤ
cost_of_all [] = pos 0
cost_of_all (u ∷ us) = u.total_cost +ℤ cost_of_all us

quantity_of_all-snoc :
    (us : List SupplyUsage) (u : SupplyUsage)
    → quantity_of_all (us ++ u ∷ []) ≡ quantity_of_all us +ℤ u.quantity_used
quantity_of_all-snoc [] u = omega int_laws
quantity_of_all-snoc (v ∷ us) u = rw (quantity_of_all-snoc us u) (omega int_laws)

cost_of_all-snoc :
    (us : List SupplyUsage) (u : SupplyUsage)
    → cost_of_all (us ++ u ∷ []) ≡ cost_of_all us +ℤ u.total_cost
cost_of_all-snoc [] u = omega int_laws
cost_of_all-snoc (v ∷ us) u = rw (cost_of_all-snoc us u) (omega int_laws)

-- What nothing is left of was taken.
all_taken :
    (left taken asked before : ℤ)
    → is_zero left ≡ true
    → left +ℤ taken ≡ asked +ℤ before
    → taken ≡ before +ℤ asked
all_taken left taken asked before z e = grind (int_laws, is_zero, z, e)

all_spent : (cost spent before : ℤ) → cost -ℤ spent ≡ pos 0 -ℤ before → spent ≡ before +ℤ cost
all_spent cost spent before e = grind (int_laws, e)

module _ ⦃ar : Arith⦄ where
  -- What is left and what was taken do not change in sum, and neither does the cost in excess.
  record Balances (c c' : Consumption) : Type 0 where
    quantity : c'.left +ℤ quantity_of_all c'.records ≡ c.left +ℤ quantity_of_all c.records
    spent : c'.cost -ℤ cost_of_all c'.records ≡ c.cost -ℤ cost_of_all c.records

  Balances-trans : (a b c : Consumption) → Balances a b → Balances b c → Balances a c
  Balances-trans a b c h k = record {
    quantity = k.quantity ∙ h.quantity;
    spent = k.spent ∙ h.spent;
  }

  consume_part-Balances :
      (production supply id : ℕ) (e : StockEntry) (c : Consumption) (db : Db)
      → Ensures (λ c' _. Balances c c') (consume_part production supply id e c db)
  unfolding consume_part consume update_consumption
  consume_part-Balances production supply id e c db =
      let a = min_ℤ c.left e.remaining_quantity in
      elim (Bool-cases e.is_exhausted) [
        | inl x ↦ rw (x, Ensures) tt
        | inr x ↦ elim (Bool-cases (ltb_ℤ e.remaining_quantity a)) [
          | inl m ↦ rw (x, m, Ensures) tt
          | inr m ↦ elim (Option-cases (lookup id db.supplies.entries)) [
            | inl f ↦ rw (x, m, f, Ensures) tt
            | inr (r, f) ↦
                rw (x, m, f, Ensures)
                  (record {
                    quantity = rw (quantity_of_all-snoc c.records _) (omega int_laws);
                    spent = rw (cost_of_all-snoc c.records _) (omega int_laws);
                  })
          ]
        ]
      ]

  consume_parts-Balances :
      (production supply : ℕ) (es : Table StockEntry) (c : Consumption) (db : Db)
      → Ensures (λ c' _. Balances c c') (consume_parts production supply es c db)
  unfolding consume_parts
  consume_parts-Balances production supply [] c db = record { quantity = refl; spent = refl }
  consume_parts-Balances production supply ((id, e) ∷ es) c db =
      elim (Bool-cases (is_zero c.left)) [
        | inl z ↦ rw (z, Ensures) (record { quantity = refl; spent = refl })
        | inr z ↦
            rw (z, Ensures)
              (Ensures-bind (λ c' _. Balances c c') (λ c' _. Balances c c')
                (consume_part production supply id e c)
                (λ c'. consume_parts production supply es c') db
                (consume_part-Balances production supply id e c db)
                (λ c' db' p.
                  Ensures-weaken _ _ (consume_parts production supply es c' db')
                    (consume_parts-Balances production supply es c' db')
                    (λ c'' db'' q. Balances-trans c c' c'' p q)))
      ]

  -- If the consumption of a measurable supply from the lots of a stock succeeds, then the usages
  -- that it adds have in sum the quantity that was asked for in packages, and in sum the cost
  -- that it returns.
  pub consume_stock-totals :
      (production supply stock : ℕ) (unit : UnitOfMeasure) (packages quantity : ℤ)
      (records : List SupplyUsage) (db : Db)
      → is_measurable unit ≡ true
      → Ensures
          (λ c _.
            (quantity_of_all c.records ≡ quantity_of_all records +ℤ packages)
            × (cost_of_all c.records ≡ cost_of_all records +ℤ c.cost))
          (consume_stock production supply stock unit packages quantity records db)
  unfolding consume_stock
  consume_stock-totals production supply stock unit packages quantity records db m =
      let es = available_entries stock db.supplies.entries in
      let start : Consumption = record { left = packages; cost = pos 0; records = records } in
      elim (Bool-cases (length es == 0)) [
        | inl z ↦ rw (m, z, Ensures) tt
        | inr z ↦
            rw (m, z, Ensures)
              (Ensures-bind (λ c _. Balances start c) _ (consume_parts production supply es start)
                (λ c. throw_if (not (is_zero c.left)) (unprocessable insufficient_supply) >> pure c)
                db (consume_parts-Balances production supply es start db)
                (λ c db' p. settled c db' p))
      ]
    where
      settled :
          (c : Consumption) (db' : Db)
          → Balances (record { left = packages; cost = pos 0; records = records }) c
          → Ensures
              (λ c _.
                (quantity_of_all c.records ≡ quantity_of_all records +ℤ packages)
                × (cost_of_all c.records ≡ cost_of_all records +ℤ c.cost))
              ((throw_if (not (is_zero c.left)) (unprocessable insufficient_supply) >> pure c) db')
      settled c db' p = elim (Bool-cases (is_zero c.left)) [
        | inl z ↦
            let q = p.quantity in
            let s = p.spent in
            rw (z, Ensures)
              (
                all_taken c.left (quantity_of_all c.records) packages (quantity_of_all records) z q,
                all_spent c.cost (cost_of_all c.records) (cost_of_all records) s,
              )
        | inr z ↦ rw (z, Ensures) tt
      ]
