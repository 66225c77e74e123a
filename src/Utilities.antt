-- ===== src/Utilities.antt =====
-- The profit of a completed sale: src/modules/utilities/utilities.service.ts,
-- src/modules/utilities/domain/sale-item-utility.entity.ts,
-- src/modules/utilities/domain/sale-utility.entity.ts and the writes of
-- src/modules/utilities/utilities.repository.ts.
use easy_point_api.Base.{
  Bool, any, ◌||◌, List, Option, [], default_to, if◌then◌else◌, map, none, some, ℕ, ⊤, ◌==◌, ◌∷◌,
}
use easy_point_api.Decimal.{
  overflows_percent, overflows_unit, overflows_total, Arith, divided_by, of_number, times,
  to_column,
}
use easy_point_api.Base.Table.{Table, insert, lookup}
use easy_point_api.Base.Int.{is_zero, pos, ℤ, ◌+ℤ◌, ◌-ℤ◌}
use easy_point_api.Database.{
  CostSource, Db, Product, SaleItemUtility, SaleUtility, Tx, estimated, gets, modify, new_id,
  unknown_cost, row_refused, throw_if, ◌>>◌, ◌>>=◌,
}

-- A line of a sale, as `computeAndPersist` receives it.
pub record SoldLine : Type 0 where
  pub product_id : ℕ
  pub quantity : ℤ
  pub unit_cost : Option ℤ

module _ ⦃ar : Arith⦄ where
  -- `totalRevenue.isZero() ? 0 : grossProfit.div(totalRevenue).times(100)`
  abbrev pub margin : ℤ → ℤ → ℤ
  margin revenue profit =
      if is_zero revenue then pos 0 else times (divided_by profit revenue) (of_number 100)

  -- `SaleItemUtilityEntity.compute`
  unfoldable pub compute : ℕ → ℕ → ℤ → ℤ → ℤ → CostSource → SaleItemUtility
  compute organization product quantity unit_revenue unit_cost cost_source =
      let revenue = times unit_revenue quantity in
      let cost = times unit_cost quantity in
      let profit = revenue -ℤ cost in
      record {
        organization_id = organization;
        product_id = product;
        quantity = quantity;
        unit_revenue = unit_revenue;
        unit_cost = unit_cost;
        total_revenue = revenue;
        total_cost = cost;
        gross_profit = profit;
        margin_percent = margin revenue profit;
        cost_source = cost_source;
      }

  abbrev pub add_revenue : ℤ → List SaleItemUtility → ℤ
  add_revenue sum [] = sum
  add_revenue sum (i ∷ is) = add_revenue (sum +ℤ i.total_revenue) is

  abbrev pub add_cost : ℤ → List SaleItemUtility → ℤ
  add_cost sum [] = sum
  add_cost sum (i ∷ is) = add_cost (sum +ℤ i.total_cost) is

  -- `SaleUtilityEntity.aggregateFromItems`, with the items that the row is stored with
  unfoldable pub aggregate_from_items : ℕ → ℕ → List SaleItemUtility → SaleUtility
  aggregate_from_items organization sale items =
      let revenue = add_revenue (pos 0) items in
      let cost = add_cost (pos 0) items in
      let profit = revenue -ℤ cost in
      record {
        organization_id = organization;
        sale_id = sale;
        total_revenue = revenue;
        total_cost = cost;
        gross_profit = profit;
        margin_percent = margin revenue profit;
        items = items;
      }

  -- The cost of a product in `costPriceMap`, and where it comes from.
  abbrev pub known_cost : Option Product → Option ℤ
  known_cost none = none
  known_cost (some p) = p.cost_price

  abbrev pub unit_cost_of : Option ℤ → ℤ
  unit_cost_of none = pos 0
  unit_cost_of (some c) = c

  abbrev pub cost_source_of : Option ℤ → CostSource
  cost_source_of none = unknown_cost
  cost_source_of (some c) = estimated

  -- The loop over the movements.
  unfoldable pub compute_line : ℕ → Table Product → SoldLine → SaleItemUtility
  unfolding compute
  compute_line organization products m =
      let cost = known_cost (lookup m.product_id products) in
      compute organization m.product_id m.quantity (default_to m.unit_cost (pos 0))
        (unit_cost_of cost) (cost_source_of cost)

  -- What `createForSale` inserts, in the columns of the two tables.
  abbrev pub item_row : SaleItemUtility → SaleItemUtility
  item_row i = record i {
    quantity = to_column i.quantity;
    unit_revenue = to_column i.unit_revenue;
    unit_cost = to_column i.unit_cost;
    total_revenue = to_column i.total_revenue;
    total_cost = to_column i.total_cost;
    gross_profit = to_column i.gross_profit;
    margin_percent = to_column i.margin_percent;
  }

  abbrev pub utility_row : SaleUtility → SaleUtility
  utility_row u = record u {
    total_revenue = to_column u.total_revenue;
    total_cost = to_column u.total_cost;
    gross_profit = to_column u.gross_profit;
    margin_percent = to_column u.margin_percent;
    items = map item_row u.items;
  }

  abbrev pub item_overflows : SaleItemUtility → Bool
  item_overflows i =
      overflows_unit i.quantity
      || overflows_unit i.unit_revenue
      || overflows_unit i.unit_cost
      || overflows_total i.total_revenue
      || overflows_total i.total_cost
      || overflows_total i.gross_profit
      || overflows_percent i.margin_percent

  abbrev pub utility_overflows : SaleUtility → Bool
  utility_overflows u =
      overflows_total u.total_revenue
      || overflows_total u.total_cost
      || overflows_total u.gross_profit
      || overflows_percent u.margin_percent
      || any item_overflows u.items

  -- `saleId` is unique, and no column overflows.
  abbrev pub utility_refused : SaleUtility → Table SaleUtility → Bool
  utility_refused u t =
      any (λ (r : ℕ × SaleUtility). r.1.sale_id == u.sale_id) t || utility_overflows u

  abbrev pub insert_utility : ℕ → SaleUtility → Db → Db
  insert_utility id u db = record db { utilities = insert id (utility_row u) db.utilities }

  unfoldable pub compute_and_persist : ℕ → ℕ → List SoldLine → Tx ⊤
  compute_and_persist sale organization lines = do
    products ← gets (λ db. db.products)
    let items = map (compute_line organization products) lines
    let utility = aggregate_from_items organization sale items
    refused ← gets (λ db. utility_refused utility db.utilities)
    throw_if refused row_refused
    id ← new_id
    modify (insert_utility id utility)

-- `deleteMany({ where: { saleId } })`
abbrev pub without_sale : ℕ → Table SaleUtility → Table SaleUtility
without_sale sale [] = []
without_sale sale ((id, u) ∷ t) =
    if u.sale_id == sale then without_sale sale t else (id, u) ∷ without_sale sale t

-- `deleteForSale`
unfoldable pub delete_for_sale : ℕ → Tx ⊤
delete_for_sale sale = modify (λ db. record db { utilities = without_sale sale db.utilities })
