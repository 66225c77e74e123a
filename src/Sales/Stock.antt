-- ===== src/Sales/Stock.antt =====
-- What the operations of a sale do to the stock records and to their movements.
use easy_point_api.Base.{
  All, Bool-cases, List, [], if◌then◌else◌, inl, inr, map, ℕ, ◌++◌, ◌==◌, ◌∷◌, ◌≡◌, is_some,
}
use easy_point_api.Inventory.{create_movements, movement_row}
use easy_point_api.Decimal.{Arith, IsColumn, RoundingLaws}
use easy_point_api.Base.Table.{lookup}
use easy_point_api.Base.Int.{int_laws, neg, pos, ℤ, ◌+ℤ◌, ◌-ℤ◌, ◌≤ℤ◌}
use easy_point_api.Base.Table.Rows.{AllRows}
use easy_point_api.Database.{Db, Ensures, Ensures-weaken, for_each}
use easy_point_api.Sales.Items.{
  SaleItem, StockMap, decrement, sale_movement, stock_id_of, take_items,
}
use easy_point_api.Inventory.Balance.{
  HasStoredQuantity, Shifts, for_each-Shifts, increment_quantity-Shifts, moved, quantity_of,
  total_shift,
}

-- The quantity that the lines require of stock record `s`.
abbrev pub required_of : StockMap → ℕ → List SaleItem → ℤ
required_of m s [] = pos 0
required_of m s (item ∷ items) =
    (if s == stock_id_of m item then item.quantity else pos 0) +ℤ required_of m s items

module _ ⦃ar : Arith⦄ where
  -- The quantity is not negative and has four decimal places, which the request is validated for.
  abbrev pub HasValidLine : SaleItem → Type 0
  HasValidLine item = (pos 0 ≤ℤ item.quantity) × IsColumn item.quantity

  -- The lines `items` have been taken from the stock: every record has lost what they require of
  -- it, and there is a movement for each line.
  abbrev pub TookItems : ℕ → ℕ → ℕ → StockMap → List SaleItem → Db → Db → Type 0
  TookItems organization user sale m items db db' =
      ((s : ℕ)
        → quantity_of (lookup s db'.stocks)
          ≡ quantity_of (lookup s db.stocks) -ℤ required_of m s items)
      × (db' ≡ record db {
        stocks = db'.stocks;
        movements =
            map movement_row (map (sale_movement organization user sale m) items) ++ db.movements;
      })
      × AllRows HasStoredQuantity db'.stocks
      × ((s : ℕ) → is_some (lookup s db'.stocks) ≡ is_some (lookup s db.stocks))

module _ ⦃ar : Arith⦄ (laws : RoundingLaws ar) where
  pub neg_stored : (a : ℤ) → IsColumn a → IsColumn (neg a)
  neg_stored a h = laws.sub_stored (pos 0) a laws.zero_stored h

  abbrev taken : StockMap → SaleItem → ℕ → ℤ
  taken m item s = if s == stock_id_of m item then neg item.quantity else pos 0

  total_shift-taken :
      (m : StockMap) (items : List SaleItem) (s : ℕ)
      → total_shift laws (taken m) items s ≡ neg (required_of m s items)
  total_shift-taken m [] s = omega int_laws
  total_shift-taken m (item ∷ items) s = elim (Bool-cases (s == stock_id_of m item)) [
    | inl e ↦ rw (e, total_shift-taken m items s) (omega int_laws)
    | inr e ↦ rw (e, total_shift-taken m items s) (omega int_laws)
  ]

  pub take_items-TookItems :
      (organization user sale : ℕ) (m : StockMap) (items : List SaleItem) (db : Db)
      → All HasValidLine items
      → AllRows HasStoredQuantity db.stocks
      → Ensures
          (λ _ db'. TookItems organization user sale m items db db')
          (take_items organization user sale m items db)
  unfolding take_items create_movements
  take_items-TookItems organization user sale m items db lines stored =
      let db0 = record db {
        movements =
            map movement_row (map (sale_movement organization user sale m) items) ++ db.movements;
      } in
      Ensures-weaken (λ _ db'. Shifts (total_shift laws (taken m) items) db0 db')
        (λ _ db'. TookItems organization user sale m items db db')
        (for_each items (decrement m) db0)
        (for_each-Shifts laws HasValidLine (taken m) (decrement m)
          (λ item d line st.
            increment_quantity-Shifts laws (stock_id_of m item) (neg item.quantity) d st
              (neg_stored item.quantity line.1))
          items db0 lines stored)
        λ _ db' h. (λ s. rw (h.0 s, total_shift-taken m items s) (omega int_laws), h.1, h.2, h.3)

  pub moved-sale :
      (organization user sale : ℕ) (m : StockMap) (items : List SaleItem) (s : ℕ)
      → All HasValidLine items
      → moved s (map movement_row (map (sale_movement organization user sale m) items))
        ≡ neg (required_of m s items)
  moved-sale organization user sale m [] s lines = omega int_laws
  moved-sale organization user sale m (item ∷ items) s lines =
      elim (Bool-cases (s == stock_id_of m item)) [
        | inl e ↦
            rw (e, moved-sale organization user sale m items s lines.1, lines.0.1) (omega int_laws)
        | inr e ↦ rw (e, moved-sale organization user sale m items s lines.1) (omega int_laws)
      ]
