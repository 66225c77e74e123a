-- ===== src/Productions/Consumption.antt =====
-- The consumption of supplies by a production: the checks and the loops of
-- `processProductionCompletion` (src/modules/productions/productions.service.ts).
use easy_point_api.Base.{
  Bool, true, false, List, [], ◌∷◌, ◌++◌, Option, none, some, ℕ, ⊤, ◌==◌, ◌&&◌, contains,
  if◌then◌else◌, length, not,
}
use easy_point_api.Base.Int.{ℤ, pos, neg, ◌+ℤ◌, ◌-ℤ◌, ltb_ℤ, leb_ℤ, is_zero}
use easy_point_api.Base.Table.{Table, lookup}
use easy_point_api.Decimal.{Arith, times, divided_by, of_number, ceiling, unit}
use easy_point_api.Supplies.{
  available_entries, consume, create_supply_movements, sync_quantity, update_consumption,
}
use easy_point_api.Database.{
  Supply, SupplyStock, StockEntry, SupplyUsage, UnitOfMeasure, gram, milliliter, piece, Tx, failure,
  from_result, gets, insufficient_supply, no_entries_available, no_supply_stock, no_units_available,
  or_throw, pure, supply_missing, supply_used, throw_if, unprocessable, ◌>>=◌, ◌>>◌,
}

-- `ProductionSupplyUsageInputDto`
pub record SupplyInput : Type 0 where
  pub supply_id : ℕ
  pub quantity_used : ℤ

-- `MEASURABLE_UNITS`
abbrev pub is_measurable : UnitOfMeasure → Bool
is_measurable gram = true
is_measurable milliliter = true
is_measurable piece = false

-- `supply.findMany({ where: { id: { in: ids }, organizationId } })`
unfoldable pub own_supplies : ℕ → List ℕ → Table Supply → Table Supply
own_supplies organization ids [] = []
own_supplies organization ids ((id, s) ∷ t) =
    if contains id ids && s.organization_id == organization
    then (id, s) ∷ own_supplies organization ids t
    else own_supplies organization ids t

-- The stock of a supply in `stockMap`; of several the one that was made last.
unfoldable pub stock_of_supply : ℕ → ℕ → Table SupplyStock → Option (ℕ × SupplyStock)
stock_of_supply organization supply [] = none
stock_of_supply organization supply ((id, s) ∷ t) =
    if s.supply_id == supply && s.organization_id == organization
    then some (id, s)
    else stock_of_supply organization supply t

abbrev pub min_ℤ : ℤ → ℤ → ℤ
min_ℤ a b = if leb_ℤ a b then a else b

-- What the loops carry: what is still to be consumed, its cost so far, and the usage records.
pub record Consumption : Type 0 where
  pub left : ℤ
  pub cost : ℤ
  pub records : List SupplyUsage

abbrev pub usage_of : ℕ → ℕ → ℕ → StockEntry → ℤ → ℤ → SupplyUsage
usage_of production supply id e quantity cost = record {
  production_id = production;
  supply_id = supply;
  supply_stock_entry_id = some id;
  quantity_used = quantity;
  unit_cost = e.unit_cost;
  total_cost = cost;
}

module _ ⦃ar : Arith⦄ where
  -- A quantity in packages.
  abbrev pub in_packages : Supply → ℤ → ℤ
  in_packages s quantity =
      if is_measurable s.unit_of_measure then divided_by quantity s.package_size else quantity

  -- One round of the validation.
  unfoldable pub check_supply : ℕ → Table Supply → SupplyInput → Tx ⊤
  check_supply organization supplies input = do
    supply ← or_throw (lookup input.supply_id supplies) (failure supply_missing)
    found ← gets (λ db. stock_of_supply organization input.supply_id db.supplies.supply_stocks)
    stock ← or_throw found (unprocessable no_supply_stock)
    throw_if
        (is_measurable supply.unit_of_measure
          && ltb_ℤ stock.1.quantity (in_packages supply input.quantity_used))
        (unprocessable insufficient_supply)
    throw_if (not (is_measurable supply.unit_of_measure) && ltb_ℤ stock.1.quantity (of_number 1))
        (unprocessable no_units_available)

  -- One round of the loop over the lots of a measurable supply.
  unfoldable pub consume_part : ℕ → ℕ → ℕ → StockEntry → Consumption → Tx Consumption
  consume_part production supply id e c = do
    let amount = min_ℤ c.left e.remaining_quantity
    let entry_cost = times e.unit_cost amount
    after ← from_result (consume e amount false)
    update_consumption id after.1.remaining_quantity after.1.is_exhausted
    pure (record {
      left = c.left -ℤ amount;
      cost = c.cost +ℤ entry_cost;
      records = c.records ++ usage_of production supply id e amount entry_cost ∷ [];
    })

  unfoldable pub consume_parts : ℕ → ℕ → Table StockEntry → Consumption → Tx Consumption
  consume_parts production supply [] c = pure c
  consume_parts production supply ((id, e) ∷ entries) c = elim (is_zero c.left) [
    | true ↦ pure c
    | false ↦
        consume_part production supply id e c >>= λ c'. consume_parts production supply entries c'
  ]

  -- One round of the loop over the lots of a supply that is counted: a whole lot.
  unfoldable pub consume_whole : ℕ → ℕ → ℕ → StockEntry → Consumption → Tx Consumption
  consume_whole production supply id e c = do
    after ← from_result (consume e e.remaining_quantity true)
    update_consumption id after.1.remaining_quantity true
    let entry_cost = times e.unit_cost after.0
    pure (record {
      left = c.left -ℤ of_number 1;
      cost = c.cost +ℤ entry_cost;
      records = c.records ++ usage_of production supply id e after.0 entry_cost ∷ [];
    })

  unfoldable pub consume_wholes : ℕ → ℕ → Table StockEntry → Consumption → Tx Consumption
  consume_wholes production supply [] c = pure c
  consume_wholes production supply ((id, e) ∷ entries) c = elim (leb_ℤ c.left (pos 0)) [
    | true ↦ pure c
    | false ↦
        consume_whole production supply id e c >>= λ c'. consume_wholes production supply entries c'
  ]

  -- The lots of a stock are consumed, the oldest first.
  unfoldable pub consume_stock :
      ℕ → ℕ → ℕ → UnitOfMeasure → ℤ → ℤ → List SupplyUsage → Tx Consumption
  consume_stock production supply stock unit packages quantity records = do
    entries ← gets (λ db. available_entries stock db.supplies.entries)
    elim (is_measurable unit) [
      | true ↦ do
        throw_if (length entries == 0) (unprocessable no_entries_available)
        c ←
            consume_parts production supply entries
              (record { left = packages; cost = pos 0; records = records })
        throw_if (not (is_zero c.left)) (unprocessable insufficient_supply)
        pure c
      | false ↦
          consume_wholes production supply entries
            (record { left = ceiling quantity; cost = pos 0; records = records })
    ]

  -- One round of the loop over the supplies of the production: the cost and the records so far.
  unfoldable pub consume_supply :
      ℕ → ℕ → ℕ → Table Supply → SupplyInput → ℤ × List SupplyUsage → Tx (ℤ × List SupplyUsage)
  consume_supply organization user production supplies input acc = do
    supply ← or_throw (lookup input.supply_id supplies) (failure supply_missing)
    found ← gets (λ db. stock_of_supply organization input.supply_id db.supplies.supply_stocks)
    stock ← or_throw found (unprocessable no_supply_stock)
    let packages = in_packages supply input.quantity_used
    c ←
        consume_stock production input.supply_id stock.0 supply.unit_of_measure packages
          input.quantity_used acc.1
    sync_quantity stock.0
    create_supply_movements (
        record {
          organization_id = organization;
          supply_id = input.supply_id;
          stock_id = stock.0;
          quantity = neg packages;
          unit_cost = some (divided_by c.cost packages);
          kind = supply_used;
          supply_purchase_id = none;
          production_id = some production;
          performed_by = user;
        }
        ∷ [])
    pure (acc.0 +ℤ c.cost, c.records)

  unfoldable pub consume_supplies :
      ℕ → ℕ → ℕ → Table Supply → List SupplyInput → ℤ × List SupplyUsage → Tx (ℤ × List SupplyUsage)
  consume_supplies organization user production supplies [] acc = pure acc
  consume_supplies organization user production supplies (input ∷ inputs) acc = do
    acc' ← consume_supply organization user production supplies input acc
    consume_supplies organization user production supplies inputs acc'
