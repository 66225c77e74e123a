-- ===== src/Productions/Lifecycle.antt =====
-- `create`, `complete`, `cancel` and `remove` of `ProductionsService`
-- (src/modules/productions/productions.service.ts).
use easy_point_api.Base.{
  Bool, true, false, List, [], ◌∷◌, ◌++◌, Option, none, some, ℕ, suc, ⊤, ◌==◌, ◌&&◌, not,
  if◌then◌else◌, is_some, keep_if, length, map,
}
use easy_point_api.Base.Int.{ℤ, pos}
use easy_point_api.Base.Table.{lookup, insert, put}
use easy_point_api.Decimal.{Arith, to_column, divided_by}
use easy_point_api.Inventory.{create_movements, find_stock, increment_quantity, principal}
use easy_point_api.Productions.Consumption.{
  SupplyInput, check_supply, consume_supplies, own_supplies,
}
use easy_point_api.Database.{
  Movement, Production, ProductionStatus, ProductionType, SupplyUsage, Tx, abandoned, bad_request,
  cannot_cancel, cannot_complete, draft, err, finished, for_each, gets, missing_organization,
  modify_supplies, new_supply_id, no_supplies_defined, not_found, ok, or_throw, intermediate,
  produced, product_required, production_missing, pure, record_not_found, sellable,
  supplies_missing, throw_if, unprocessable, ◌>>=◌, ◌>>◌,
}

-- `CreateProductionDto`
pub record CreateProduction : Type 0 where
  pub kind : ProductionType
  pub product_id : Option ℕ
  pub quantity_produced : ℤ
  pub status : Option ProductionStatus
  pub supplies : List SupplyInput

abbrev pub is_sellable : ProductionType → Bool
is_sellable sellable = true
is_sellable intermediate = false

-- `canComplete` and `canCancel`
abbrev pub is_draft : ProductionStatus → Bool
is_draft draft = true
is_draft _ = false

abbrev pub is_finished : ProductionStatus → Bool
is_finished finished = true
is_finished _ = false

abbrev pub asks_draft : Option ProductionStatus → Bool
asks_draft none = false
asks_draft (some s) = is_draft s

abbrev pub input_ids : List SupplyInput → List ℕ
input_ids inputs = map (λ (i : SupplyInput). i.supply_id) inputs

abbrev pub of_production : ℕ → SupplyUsage → Bool
of_production production u = u.production_id == production

-- `productionsRepository.update`
set_production : ℕ → (Production → Production) → Option Production → Tx ⊤
set_production id change none db = err record_not_found
set_production id change (some p) db = ok (
  tt,
  record db {
    supplies = record db.supplies { productions = put id (change p) db.supplies.productions };
  },
)

unfoldable pub update_production : ℕ → (Production → Production) → Tx ⊤
unfolding set_production
update_production id change db = set_production id change (lookup id db.supplies.productions) db

-- `organizationId` in the condition of a query, which the client adds for the tenant; without one
-- the policy shows no row.
abbrev pub owns : Option ℕ → Production → Bool
owns none p = false
owns (some organization) p = p.organization_id == organization

-- `findOne`
unfoldable pub find_production : Option ℕ → ℕ → Tx Production
find_production tenant id = do
  found ← gets (λ db. lookup id db.supplies.productions)
  production ← or_throw found (not_found production_missing)
  throw_if (not (owns tenant production)) (not_found production_missing)
  pure production

module _ ⦃ar : Arith⦄ where
  abbrev pub stored_usage : ℕ → SupplyUsage → SupplyUsage
  stored_usage production u = record u {
    production_id = production;
    quantity_used = to_column u.quantity_used;
    unit_cost = to_column u.unit_cost;
    total_cost = to_column u.total_cost;
  }

  -- `productionSupplyUsage.createMany`
  unfoldable pub create_usages : ℕ → List SupplyUsage → Tx ⊤
  create_usages production rows =
      modify_supplies (λ s. record s { usages = map (stored_usage production) rows ++ s.usages })

  -- `productStock.upsert`: the quantity produced is added, or a stock record is made with it.
  unfoldable pub add_produced : ℕ → ℕ → ℤ → Tx ℕ
  add_produced organization product quantity db = elim (find_stock product principal db.stocks) [
    | some id ↦ (increment_quantity id quantity >> pure id) db
    | none ↦ ok (
      db.next_id,
      record db {
        stocks =
            insert db.next_id
              (record {
                organization_id = organization;
                product_id = product;
                location = principal;
                quantity = to_column quantity;
              })
              db.stocks;
        next_id = suc db.next_id;
      },
    )
  ]

  abbrev pub produced_movement : ℕ → ℕ → ℕ → ℕ → ℕ → ℤ → ℤ → Movement
  produced_movement organization user production product stock quantity total = record {
    organization_id = organization;
    product_id = product;
    stock_id = stock;
    quantity = quantity;
    unit_cost = some (divided_by total quantity);
    kind = produced;
    sale_id = none;
    product_purchase_id = none;
    production_id = some production;
    performed_by = user;
  }

  -- The product of a sellable production goes into stock.
  unfoldable pub store_product : ℕ → ℕ → ℕ → Production → ℤ → Option ℕ → Tx ⊤
  store_product organization user id production total none = pure tt
  store_product organization user id production total (some product) = do
    stock ← add_produced organization product production.quantity_produced
    create_movements (
        produced_movement organization user id product stock production.quantity_produced total
        ∷ [])

  abbrev pub sold_product : Production → Option ℕ
  sold_product p = if is_sellable p.kind then p.product_id else none

  unfoldable pub process_completion : ℕ → ℕ → ℕ → Production → List SupplyInput → Tx ⊤
  process_completion organization user id production inputs = do
    supplies ← gets (λ db. own_supplies organization (input_ids inputs) db.supplies.supply_table)
    for_each inputs (check_supply organization supplies)
    result ← consume_supplies organization user id supplies inputs (pos 0, [])
    create_usages id result.1
    store_product organization user id production result.0 (sold_product production)
    update_production id (λ p. record p { status = finished; total_cost = to_column result.0 })

  abbrev pub production_row : ℕ → ℕ → CreateProduction → Production
  production_row organization user dto = record {
    organization_id = organization;
    kind = dto.kind;
    status = if asks_draft dto.status then draft else finished;
    product_id = dto.product_id;
    quantity_produced = to_column dto.quantity_produced;
    total_cost = pos 0;
    performed_by = user;
  }

  -- A supply that a draft intends to use.
  abbrev pub intended : ℕ → SupplyInput → SupplyUsage
  intended production i = record {
    production_id = production;
    supply_id = i.supply_id;
    supply_stock_entry_id = none;
    quantity_used = i.quantity_used;
    unit_cost = pos 0;
    total_cost = pos 0;
  }

  -- A draft only records what it intends to use.
  unfoldable pub begin : Bool → ℕ → ℕ → ℕ → Production → List SupplyInput → Tx ⊤
  begin true organization user id row inputs = create_usages id (map (intended id) inputs)
  begin false organization user id row inputs = process_completion organization user id row inputs

  unfoldable pub create_production_run : Option ℕ → ℕ → CreateProduction → Tx ℕ
  create_production_run tenant user dto = do
    organization ← or_throw tenant (bad_request missing_organization)
    throw_if (is_sellable dto.kind && not (is_some dto.product_id)) (bad_request product_required)
    supplies ←
        gets (λ db. own_supplies organization (input_ids dto.supplies) db.supplies.supply_table)
    throw_if (not (length supplies == length dto.supplies)) (not_found supplies_missing)
    id ← new_supply_id
    let row = production_row organization user dto
    modify_supplies (λ s. record s { productions = insert id row s.productions })
    begin (asks_draft dto.status) organization user id row dto.supplies
    pure id

  unfoldable pub complete_production : Option ℕ → ℕ → ℕ → Tx ⊤
  complete_production tenant user id = do
    organization ← or_throw tenant (bad_request missing_organization)
    production ← find_production tenant id
    throw_if (not (is_draft production.status)) (bad_request cannot_complete)
    usages ← gets (λ db. keep_if (of_production id) db.supplies.usages)
    throw_if (length usages == 0) (unprocessable no_supplies_defined)
    modify_supplies (λ s. record s {
      usages = keep_if (λ (u : SupplyUsage). not (of_production id u)) s.usages;
    })
    process_completion organization user id production (
        map
          (λ (u : SupplyUsage). record { supply_id = u.supply_id; quantity_used = u.quantity_used })
          usages)

unfoldable pub cancel_production : Option ℕ → ℕ → Tx ⊤
cancel_production tenant id = do
  production ← find_production tenant id
  throw_if (not (is_draft production.status)) (bad_request cannot_cancel)
  update_production id (λ p. record p { status = abandoned })
