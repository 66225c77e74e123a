-- ===== src/Sales/Profit.antt =====
-- The profit that src/modules/utilities/utilities.service.ts stores, against the lines of the sale.
use easy_point_api.Base.{List, [], map, refl, ℕ, ◌∷◌, ◌≡◌}
use easy_point_api.Utilities.{
  SoldLine, add_cost, add_revenue, aggregate_from_items, compute, compute_line,
}
use easy_point_api.Decimal.{Arith}
use easy_point_api.Base.Table.{Table}
use easy_point_api.Base.Int.{int_laws, pos, ℤ, ◌+ℤ◌, ◌-ℤ◌}
use easy_point_api.Database.{Product, SaleItemUtility, SaleUtility}
use easy_point_api.Sales.Create.{sale_lines}
use easy_point_api.Sales.Items.{SaleItem, calc_total, calc_total_from, line_total}

-- The profit of the lines one by one.
abbrev pub profit_of : List SaleItemUtility → ℤ
profit_of [] = pos 0
profit_of (i ∷ is) = i.gross_profit +ℤ profit_of is

module _ ⦃ar : Arith⦄ where
  -- What `computeAndPersist` computes for the lines of a new sale, before it is stored.
  abbrev pub sale_profit : ℕ → ℕ → Table Product → List SaleItem → SaleUtility
  sale_profit organization sale products items =
      aggregate_from_items organization sale
        (map (compute_line organization products) (sale_lines items))

  add_revenue-calc_total_from :
      (organization : ℕ) (products : Table Product) (items : List SaleItem) (acc : ℤ)
      → add_revenue acc (map (compute_line organization products) (sale_lines items))
        ≡ calc_total_from acc items
  unfolding calc_total_from compute_line compute
  add_revenue-calc_total_from organization products [] acc = refl
  add_revenue-calc_total_from organization products (i ∷ items) acc =
      add_revenue-calc_total_from organization products items (acc +ℤ line_total i)

  profit_by_line :
      (organization : ℕ) (products : Table Product) (lines : List SoldLine) (r c : ℤ)
      → add_revenue r (map (compute_line organization products) lines)
          -ℤ add_cost c (map (compute_line organization products) lines)
        ≡ (r -ℤ c) +ℤ profit_of (map (compute_line organization products) lines)
  unfolding compute_line compute
  profit_by_line organization products [] r c = omega int_laws
  profit_by_line organization products (l ∷ lines) r c =
      rw (profit_by_line organization products lines _ _) (omega int_laws)

  -- The utility record that is computed of the lines of a new sale has the subtotal of the sale
  -- as its revenue, the revenue less the cost as its profit, and this is the sum of the profits
  -- of the lines.
  pub aggregate_from_items-sale :
      (organization sale : ℕ) (products : Table Product) (items : List SaleItem)
      → let u = sale_profit organization sale products items in
        (u.total_revenue ≡ calc_total items)
        × (u.gross_profit ≡ u.total_revenue -ℤ u.total_cost)
        × (u.gross_profit ≡ profit_of (map (compute_line organization products) (sale_lines items)))
  unfolding aggregate_from_items calc_total
  aggregate_from_items-sale organization sale products items = (
    add_revenue-calc_total_from organization products items (pos 0),
    refl,
    rw (profit_by_line organization products (sale_lines items) (pos 0) (pos 0)) (omega int_laws),
  )
