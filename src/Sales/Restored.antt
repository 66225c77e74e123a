-- ===== src/Sales/Restored.antt =====
-- The stock under `remove` (src/modules/sales/sales.service.ts).
use easy_point_api.Base.{
  All, Bool, Bool-cases, List, [], if◌then◌else◌, inl, inr, keep_if, not, true, ℕ, ◌==◌, ◌∷◌, ◌≡◌,
  Option, ap, is_some, none, some, Option-cases, refl, subst, sym, ⊤,
}
use easy_point_api.Decimal.{Arith, RoundingLaws}
use easy_point_api.Base.Int.{int_laws, pos, ℤ, ◌+ℤ◌, ◌≤ℤ◌, neg, ◌-ℤ◌}
use easy_point_api.Database.{
  Movement, sold, Db, Ensures, Ensures-bind, MovementType, for_each, Keeps, Keeps-bind, Sale,
  Status, cancelled, completed, pending, Ensures-weaken,
}
use easy_point_api.Sales.Conserved.{HasValidMove, HasSaleKind, StockTables, HasValidStock}
use easy_point_api.Sales.Lifecycle.{
  of_sale, restore_items, reversal, undo_sale, is_cancelled, remove,
}
use easy_point_api.Inventory.Balance.{
  moved, HasStoredQuantity, Shifts, for_each-Shifts, increment_quantity-Shifts, quantity_of,
  total_shift, opening_stock,
}
use easy_point_api.Inventory.{increment_quantity}
use easy_point_api.Base.Table.{lookup}
use easy_point_api.Base.Table.Rows.{AllRows}
use easy_point_api.Sales.Create.{belongs_to, update_sale}
use easy_point_api.Sales.Frame.{
  stock_view, update_sale-Keeps, delete_for_sale-Keeps, find_own_sale-then, throw_if-then,
  create_transaction-Keeps,
}
use easy_point_api.Utilities.{delete_for_sale}
use easy_point_api.FinancialTransactions.{create_transaction}

pub moved-keep_if :
    (p : Movement → Bool) (ms : List Movement) (s : ℕ)
    → moved s ms ≡ moved s (keep_if p ms) +ℤ moved s (keep_if (λ m. not (p m)) ms)
moved-keep_if p [] s = omega int_laws
moved-keep_if p (m ∷ ms) s = elim (Bool-cases (p m)) [
  | inl e ↦ rw (e, moved-keep_if p ms s) (omega int_laws)
  | inr e ↦ rw (e, moved-keep_if p ms s) (omega int_laws)
]

abbrev given_back : Movement → ℕ → ℤ
given_back m s = if s == m.stock_id then m.quantity else pos 0

sale_kind :
    (id : ℕ) (o : Option ℕ) (k : MovementType) (q : ℤ)
    → HasSaleKind o k q
    → belongs_to id o ≡ true
    → (k ≡ sold) × (pos 0 ≤ℤ q)
sale_kind id none k q h e = cc
sale_kind id (some s) k q h e = h

module _ ⦃ar : Arith⦄ where
  -- The movements of a sale, as `remove` reads them.
  abbrev IsReturned : ℕ → Movement → Type 0
  IsReturned id m = HasValidMove m × (of_sale id m ≡ true)

  sale_moves :
      (id : ℕ) (ms : List Movement)
      → All HasValidMove ms
      → All (IsReturned id) (keep_if (of_sale id) ms)
  sale_moves id [] h = tt
  sale_moves id (m ∷ ms) h = elim (Bool-cases (of_sale id m)) [
    | inl e ↦ rw e ((h.0, e), sale_moves id ms h.1)
    | inr e ↦ rw e (sale_moves id ms h.1)
  ]

  other_moves :
      (id : ℕ) (ms : List Movement)
      → All HasValidMove ms
      → All HasValidMove (keep_if (λ (m : Movement). not (of_sale id m)) ms)
  other_moves id [] h = tt
  other_moves id (m ∷ ms) h = elim (Bool-cases (of_sale id m)) [
    | inl e ↦ rw e (other_moves id ms h.1)
    | inr e ↦ rw e (h.0, other_moves id ms h.1)
  ]

  -- The stock and the movements after the movements of sale `id` have been undone.
  abbrev pub Restored : ℕ → StockTables → StockTables → Type 0
  Restored id v v' =
      ((s : ℕ)
        → quantity_of (lookup s v'.0)
          ≡ quantity_of (lookup s v.0) -ℤ moved s (keep_if (of_sale id) v.1))
      × (v'.1 ≡ keep_if (λ (m : Movement). not (of_sale id m)) v.1)
      × AllRows HasStoredQuantity v'.0
      × ((s : ℕ) → is_some (lookup s v'.0) ≡ is_some (lookup s v.0))

  -- Quantities and movements agree as before, the quantities have changed by what the movements of
  -- the sale had moved, and those movements are gone.
  abbrev pub Undone : ℕ → Db → Db → Type 0
  Undone id db db' =
      ((s : ℕ) → opening_stock s db' ≡ opening_stock s db)
      × Restored id (stock_view db) (stock_view db')
      × HasValidStock db'

module _ ⦃ar : Arith⦄ (laws : RoundingLaws ar) where
  total_shift-given_back :
      (id : ℕ) (ms : List Movement) (s : ℕ)
      → All (IsReturned id) ms
      → total_shift laws given_back ms s ≡ neg (moved s ms)
  total_shift-given_back id [] s h = omega int_laws
  total_shift-given_back id (m ∷ ms) s h =
      let kind = sale_kind id m.sale_id m.kind m.quantity h.0.0.1 h.0.1 in
      elim (Bool-cases (s == m.stock_id)) [
        | inl e ↦ rw (e, kind.0, total_shift-given_back id ms s h.1) (omega int_laws)
        | inr e ↦ rw (e, total_shift-given_back id ms s h.1) (omega int_laws)
      ]

  pub restore_items-Restored :
      (id : ℕ) (db : Db)
      → AllRows HasStoredQuantity db.stocks
      → All HasValidMove db.movements
      → Ensures (λ _ db'. Restored id (stock_view db) (stock_view db')) (restore_items id db)
  unfolding restore_items
  restore_items-Restored id db stored moves =
      let ms = keep_if (of_sale id) db.movements in
      let mine = sale_moves id db.movements moves in
      Ensures-bind (λ _ c. Shifts (total_shift laws given_back ms) db c)
        (λ _ db'. Restored id (stock_view db) (stock_view db'))
        (for_each ms (λ (m : Movement). increment_quantity m.stock_id m.quantity)) _ db
        (for_each-Shifts laws (IsReturned id) given_back
          (λ (m : Movement). increment_quantity m.stock_id m.quantity)
          (λ m d p st. increment_quantity-Shifts laws m.stock_id m.quantity d st p.0.0) ms db mine
          stored)
        λ _ c h. (
          λ s. rw (h.0 s, total_shift-given_back id ms s mine) (omega int_laws),
          ap (λ (d : Db). keep_if (λ (m : Movement). not (of_sale id m)) d.movements) h.1,
          h.2,
          h.3,
        )

  undo_sale-stock :
      (status : Status) (organization user id : ℕ) (sale : Sale)
      → Keeps stock_view (undo_sale status organization user id sale)
  unfolding undo_sale
  undo_sale-stock pending organization user id sale db = refl
  undo_sale-stock cancelled organization user id sale db = refl
  undo_sale-stock completed organization user id sale db = elim (Option-cases sale.transaction_id) [
    | inl e ↦ rw (e, Ensures) tt
    | inr (t, e) ↦ elim (Option-cases (lookup t db.transactions)) [
      | inl e' ↦ rw (e, e', Ensures) tt
      | inr (original, e') ↦
          rw (e, e')
            (Keeps-bind stock_view
              (create_transaction
                (reversal organization user id original.bank_account_id sale.total_amount))
              _ (create_transaction-Keeps stock_view (λ db t x n. refl) _)
              (λ _.
                Keeps-bind stock_view (delete_for_sale id)
                  (λ _. update_sale id (λ s. record s { status = cancelled }))
                  (delete_for_sale-Keeps stock_view (λ db x. refl) id)
                  (λ _. update_sale-Keeps stock_view (λ db x. refl) id _))
              db)
    ]
  ]

  moved-given_back :
      (id : ℕ) (ms : List Movement) (s : ℕ) → All (IsReturned id) ms → moved s ms ≤ℤ pos 0
  moved-given_back id [] s h = omega int_laws
  moved-given_back id (m ∷ ms) s h =
      let kind = sale_kind id m.sale_id m.kind m.quantity h.0.0.1 h.0.1 in
      let rest = moved-given_back id ms s h.1 in
      elim (Bool-cases (s == m.stock_id)) [
        | inl e ↦ let nonneg = kind.1 in rw (e, kind.0) (omega int_laws)
        | inr e ↦ rw e (omega int_laws)
      ]

  Restored-Undone :
      (id : ℕ) (db db' : Db)
      → HasValidStock db
      → Restored id (stock_view db) (stock_view db')
      → Undone id db db'
  unfolding opening_stock
  Restored-Undone id db db' valid r = (
    λ s. rw (r.0 s, r.1, moved-keep_if (of_sale id) db.movements s) (omega int_laws),
    r,
    record {
      stock = λ s.
          let nonneg = valid.stock s in
          let gone =
            moved-given_back id (keep_if (of_sale id) db.movements) s
              (sale_moves id db.movements valid.moves) in
          rw (r.0 s) (omega int_laws);
      stored = r.2;
      moves = rw r.1 (other_moves id db.movements valid.moves);
    },
  )

  -- If `remove` succeeds on a database with valid stock, then quantities and movements agree as
  -- before, every quantity has changed by what the movements of the sale had moved, exactly these
  -- movements are gone, and no quantity is negative.
  pub remove-Undone :
      (tenant : Option ℕ) (user id : ℕ) (db : Db)
      → HasValidStock db
      → Ensures (λ _ db'. Undone id db db') (remove tenant user id db)
  unfolding remove
  remove-Undone none user id db valid = tt
  remove-Undone (some organization) user id db valid =
      let Q = λ (_ : ⊤) (c : Db). Undone id db c in
      find_own_sale-then Q organization id _ db λ sale e o.
        throw_if-then Q (is_cancelled sale.status) _ _ db λ p.
          Ensures-bind (λ _ d. Restored id (stock_view db) (stock_view d)) Q (restore_items id) _ db
            (restore_items-Restored id db valid.stored valid.moves)
            λ _ d r.
              Ensures-weaken (λ _ f. stock_view f ≡ stock_view d) Q _
                (undo_sale-stock sale.status organization user id sale d)
                (λ _ f same.
                  Restored-Undone id db f valid
                    (subst (λ (v : StockTables). Restored id (stock_view db) v) (sym same) r))
