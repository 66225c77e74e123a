-- ===== src/Purchases/Kept.antt =====
-- The writes to the stock of src/modules/product-purchases/product-purchases.service.ts.
use easy_point_api.Base.{
  All, All-append, List, Option, [], ap, if◌then◌else◌, is_some, map, none, refl, some, subst, ℕ,
  ◌++◌, ◌==◌, ◌∷◌, ◌≡◌, ◌≤◌, Bool-cases, inl, inr, keep_if, not, true,
}
use easy_point_api.Inventory.{create_movements, increment_quantity, movement_row}
use easy_point_api.Decimal.{Arith, IsColumn, RoundingLaws}
use easy_point_api.Base.Table.{lookup}
use easy_point_api.Base.Int.{int_laws, neg, pos, ℤ, ◌+ℤ◌}
use easy_point_api.Base.Table.Rows.{AllRows}
use easy_point_api.Database.{
  Db, Ensures-weaken, Movement, Stock, for_each, Ensures-bind, MovementType, purchased,
}
use easy_point_api.Sales.Items.{StockMap}
use easy_point_api.Purchases.Balanced.{
  Agrees, HasPurchaseMove, HasPurchaseStock, KeepsStock, HasPurchaseKind, fresh_keys, fresh_lookup,
}
use easy_point_api.Purchases.Lines.{PurchaseItem, place_of, purchase_movement, receive_items}
use easy_point_api.Inventory.Balance.{
  HasStoredQuantity, Shifts, for_each-Shifts, increment_quantity-Shifts, moved, moved-append,
  opening_stock, quantity_of, total_shift,
}
use easy_point_api.Sales.Create.{belongs_to}
use easy_point_api.Sales.Restored.{moved-keep_if}
use easy_point_api.Sales.Stock.{neg_stored}
use easy_point_api.Purchases.Lifecycle.{of_purchase, reverse_purchase}

purchase_kind :
    (id : ℕ) (o : Option ℕ) (k : MovementType)
    → HasPurchaseKind o k
    → belongs_to id o ≡ true
    → k ≡ purchased
purchase_kind id none k h e = cc
purchase_kind id (some p) k h e = h

same_none : (o o' : Option Stock) → is_some o' ≡ is_some o → o ≡ none → o' ≡ none
same_none o none h e = refl
same_none o (some a) h e = let k = rw e at h in cc

module _ ⦃ar : Arith⦄ where
  -- Quantities and movements have changed by the same.
  Agrees-shift :
      (δ : ℕ → ℤ) (db db' : Db)
      → HasPurchaseStock db
      → ((s : ℕ) → quantity_of (lookup s db'.stocks) ≡ quantity_of (lookup s db.stocks) +ℤ δ s)
      → ((s : ℕ) → moved s db'.movements ≡ moved s db.movements +ℤ δ s)
      → AllRows HasStoredQuantity db'.stocks
      → All HasPurchaseMove db'.movements
      → ((s : ℕ) → is_some (lookup s db'.stocks) ≡ is_some (lookup s db.stocks))
      → db'.next_id ≡ db.next_id
      → Agrees db db'
  unfolding opening_stock
  Agrees-shift δ db db' valid quantities movements stored moves rows ids = (
    λ s. rw (quantities s, movements s) (omega int_laws),
    record {
      stored = stored;
      moves = moves;
      fresh = fresh_keys db'.next_id db'.stocks (λ k h.
          same_none (lookup k db.stocks) (lookup k db'.stocks) (rows k)
            (fresh_lookup db.next_id db.stocks k valid.fresh (subst (λ (n : ℕ). n ≤ k) ids h)));
    },
  )

  abbrev pub IsStoredLine : PurchaseItem → Type 0
  IsStoredLine i = IsColumn i.quantity

  abbrev received : StockMap → PurchaseItem → ℕ → ℤ
  received m i s = if s == place_of m i then i.quantity else pos 0

  abbrev taken_back : Movement → ℕ → ℤ
  taken_back m s = if s == m.stock_id then neg m.quantity else pos 0

module _ ⦃ar : Arith⦄ (laws : RoundingLaws ar) where
  abbrev rows_of : ℕ → ℕ → ℕ → StockMap → List PurchaseItem → List Movement
  rows_of organization user id m items =
      map movement_row (map (purchase_movement organization user id m) items)

  moved-received :
      (organization user id : ℕ) (m : StockMap) (items : List PurchaseItem) (s : ℕ)
      → All IsStoredLine items
      → moved s (rows_of organization user id m items) ≡ total_shift laws (received m) items s
  moved-received organization user id m [] s h = refl
  moved-received organization user id m (i ∷ items) s h =
      rw (moved-received organization user id m items s h.1, h.0) refl

  rows_of-HasPurchaseMove :
      (organization user id : ℕ) (m : StockMap) (items : List PurchaseItem)
      → All HasPurchaseMove (rows_of organization user id m items)
  rows_of-HasPurchaseMove organization user id m [] = tt
  rows_of-HasPurchaseMove organization user id m (i ∷ items) =
      ((laws.stored i.quantity, refl), rows_of-HasPurchaseMove organization user id m items)

  pub receive_items-KeepsStock :
      (organization user id : ℕ) (m : StockMap) (items : List PurchaseItem)
      → All IsStoredLine items
      → KeepsStock (receive_items organization user id m items)
  unfolding receive_items create_movements
  receive_items-KeepsStock organization user id m items lines db valid =
      let rows = rows_of organization user id m items in
      let db0 = record db { movements = rows ++ db.movements } in
      let put_in = λ (i : PurchaseItem). increment_quantity (place_of m i) i.quantity in
      Ensures-weaken (λ _ c. Shifts (total_shift laws (received m) items) db0 c)
        (λ _ c. Agrees db c) (for_each items put_in db0)
        (for_each-Shifts laws IsStoredLine (received m) put_in
          (λ i d line st. increment_quantity-Shifts laws (place_of m i) i.quantity d st line) items
          db0 lines valid.stored)
        λ _ c h.
          let same : c.movements ≡ rows ++ db.movements = ap (λ (d : Db). d.movements) h.1 in
          Agrees-shift (total_shift laws (received m) items) db c valid h.0
            (λ s.
              rw
                (
                  same,
                  moved-append s rows db.movements,
                  moved-received organization user id m items s lines,
                )
                (omega int_laws))
            h.2
            (rw same (
              All-append HasPurchaseMove rows db.movements
                (rows_of-HasPurchaseMove organization user id m items) valid.moves))
            h.3 (ap (λ (d : Db). d.next_id) h.1)

  mine :
      (id : ℕ) (ms : List Movement)
      → All HasPurchaseMove ms
      → All
          (λ (m : Movement). HasPurchaseMove m × (of_purchase id m ≡ true))
          (keep_if (of_purchase id) ms)
        × All HasPurchaseMove (keep_if (λ (m : Movement). not (of_purchase id m)) ms)
  mine id [] h = (tt, tt)
  mine id (m ∷ ms) h =
      let rest = mine id ms h.1 in
      elim (Bool-cases (of_purchase id m)) [
        | inl e ↦ rw e (((h.0, e), rest.0), rest.1)
        | inr e ↦ rw e (rest.0, (h.0, rest.1))
      ]

  total_shift-taken_back :
      (id : ℕ) (ms : List Movement) (s : ℕ)
      → All (λ (m : Movement). HasPurchaseMove m × (of_purchase id m ≡ true)) ms
      → total_shift laws taken_back ms s ≡ neg (moved s ms)
  total_shift-taken_back id [] s h = omega int_laws
  total_shift-taken_back id (m ∷ ms) s h =
      let kind = purchase_kind id m.product_purchase_id m.kind h.0.0.1 h.0.1 in
      elim (Bool-cases (s == m.stock_id)) [
        | inl e ↦ rw (e, kind, total_shift-taken_back id ms s h.1) (omega int_laws)
        | inr e ↦ rw (e, total_shift-taken_back id ms s h.1) (omega int_laws)
      ]

  pub reverse_purchase-KeepsStock : (id : ℕ) → KeepsStock (reverse_purchase id)
  unfolding reverse_purchase
  reverse_purchase-KeepsStock id db valid =
      let ms = keep_if (of_purchase id) db.movements in
      let own = mine id db.movements valid.moves in
      let take_back = λ (m : Movement). increment_quantity m.stock_id (neg m.quantity) in
      Ensures-bind (λ _ c. Shifts (total_shift laws taken_back ms) db c) (λ _ c. Agrees db c)
        (for_each ms take_back) _ db
        (for_each-Shifts laws (λ (m : Movement). HasPurchaseMove m × (of_purchase id m ≡ true))
          taken_back take_back
          (λ m d p st.
            increment_quantity-Shifts laws m.stock_id (neg m.quantity) d st
              (neg_stored laws m.quantity p.0.0))
          ms db own.0 valid.stored)
        λ _ c h.
          let left = λ (d : Db). keep_if (λ (m : Movement). not (of_purchase id m)) d.movements in
          let same : left c ≡ left db = ap left h.1 in
          Agrees-shift (total_shift laws taken_back ms) db (record c { movements = left c }) valid
            h.0
            (λ s.
              rw
                (
                  same,
                  total_shift-taken_back id ms s own.0,
                  moved-keep_if (of_purchase id) db.movements s,
                )
                (omega int_laws))
            h.2 (rw same own.1) h.3 (ap (λ (d : Db). d.next_id) h.1)
