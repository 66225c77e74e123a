-- ===== src/Sales/Frame.antt =====
-- Which tables the steps of a sale leave alone.
use easy_point_api.Base.{
  Bool-cases, List, Option, Option-cases, ap, inl, inr, none, refl, some, ℕ, ◌≡◌, map, true, ◌==◌,
  Bool, false, subst, sym, ⊤, [], keep_if, not, ◌∙◌, ==_iff,
}
use easy_point_api.Utilities.{
  SoldLine, aggregate_from_items, compute_and_persist, compute_line, delete_for_sale,
  utility_refused,
}
use easy_point_api.Inventory.{create_movements, increment_quantity}
use easy_point_api.Decimal.{Arith}
use easy_point_api.FinancialTransactions.{TransactionParams, create_transaction}
use easy_point_api.Base.Table.{Table, lookup, put}
use easy_point_api.Base.Int.{is_zero, neg, ℤ}
use easy_point_api.Database.{
  Account, AppliedDiscount, Db, DiscountRule, Ensures, Ensures-weaken, Keeps, Keeps-bind,
  Keeps-for_each, Movement, Sale, SaleUtility, Status, Stock, Transaction, completed, for_each,
  Ensures-bind, Exception, Tx, throw_if, ◌>>=◌,
}
use easy_point_api.Sales.Create.{
  CreateSale, Pricing, record_discount, sale_credit, settle, update_sale, sale_lines,
}
use easy_point_api.Sales.Items.{
  SaleItem, StockMap, decrement, stock_id_of, take_items, sale_movement, some_lacks, total_by_stock,
  validate_sufficient_stock,
}
use easy_point_api.FinancialTransactions.Recorded.{Recorded, create_transaction-Recorded}
use easy_point_api.Sales.Lifecycle.{find_own_sale, of_sale, restore_items}

-- The stock records with their movements, and the bank accounts with their transactions.
abbrev pub stock_view : Db → Table Stock × List Movement
stock_view db = (db.stocks, db.movements)

abbrev pub ledger_view : Db → Table Account × Table Transaction
ledger_view db = (db.accounts, db.transactions)

module _ ⦃ar : Arith⦄ where
  module _ {V : Type 0} (f : Db → V) where
    -- A view that does not show the stock is kept by the writes to it; so for the other tables.
    module _
        (hidden : (db : Db) (t : Table Stock) (ms : List Movement)
          → f (record db { stocks = t; movements = ms }) ≡ f db) where
      increment_quantity-Keeps : (id : ℕ) (δ : ℤ) → Keeps f (increment_quantity id δ)
      unfolding increment_quantity
      increment_quantity-Keeps id δ db = elim (Option-cases (lookup id db.stocks)) [
        | inl e ↦ rw (e, Ensures) tt
        | inr (a, e) ↦ rw (e, Ensures) (hidden db _ db.movements)
      ]

      create_movements-Keeps : (rows : List Movement) → Keeps f (create_movements rows)
      unfolding create_movements
      create_movements-Keeps rows db = hidden db db.stocks _

      pub take_items-Keeps :
          (organization user sale : ℕ) (m : StockMap) (items : List SaleItem)
          → Keeps f (take_items organization user sale m items)
      unfolding take_items
      take_items-Keeps organization user sale m items =
          Keeps-bind f (create_movements (map (sale_movement organization user sale m) items))
            (λ _. for_each items (decrement m)) (create_movements-Keeps _)
            (λ _.
              Keeps-for_each f items (decrement m)
                (λ item. increment_quantity-Keeps (stock_id_of m item) (neg item.quantity)))

      pub restore_items-Keeps : (id : ℕ) → Keeps f (restore_items id)
      unfolding restore_items
      restore_items-Keeps id db =
          let put_back = λ (m : Movement). increment_quantity m.stock_id m.quantity in
          let ms = keep_if (of_sale id) db.movements in
          Keeps-bind f (for_each ms put_back) _
            (Keeps-for_each f ms put_back (λ m. increment_quantity-Keeps m.stock_id m.quantity))
            (λ _ d. hidden d d.stocks (keep_if (λ (m : Movement). not (of_sale id m)) d.movements))
            db

    pub create_transaction-Keeps :
        ((db : Db) (t : Table Account) (x : Table Transaction) (n : ℕ)
          → f (record db { accounts = t; transactions = x; next_id = n }) ≡ f db)
        → (params : TransactionParams) → Keeps f (create_transaction params)
    create_transaction-Keeps hidden params db =
        Ensures-weaken (Recorded params db) (λ _ db'. f db' ≡ f db) _
          (create_transaction-Recorded params db) λ id db' r. ap f r.6 ∙ hidden db _ _ _

    pub update_sale-Keeps :
        ((db : Db) (t : Table Sale) → f (record db { sales = t }) ≡ f db)
        → (id : ℕ) (change : Sale → Sale) → Keeps f (update_sale id change)
    unfolding update_sale
    update_sale-Keeps hidden id change db = elim (Option-cases (lookup id db.sales)) [
      | inl e ↦ rw (e, Ensures) tt
      | inr (s, e) ↦ rw (e, Ensures) (hidden db (put id (change s) db.sales))
    ]

    pub compute_and_persist-Keeps :
        ((db : Db) (t : Table SaleUtility) (n : ℕ)
          → f (record db { utilities = t; next_id = n }) ≡ f db)
        → (sale organization : ℕ) (lines : List SoldLine)
        → Keeps f (compute_and_persist sale organization lines)
    unfolding compute_and_persist
    compute_and_persist-Keeps hidden sale organization lines db =
        let items = map (compute_line organization db.products) lines in
        let u = aggregate_from_items organization sale items in
        elim (Bool-cases (utility_refused u db.utilities)) [
          | inl r ↦ rw (r, Ensures) tt
          | inr r ↦ rw (r, Ensures) (hidden db _ _)
        ]

    pub delete_for_sale-Keeps :
        ((db : Db) (t : Table SaleUtility) → f (record db { utilities = t }) ≡ f db)
        → (sale : ℕ) → Keeps f (delete_for_sale sale)
    unfolding delete_for_sale
    delete_for_sale-Keeps hidden sale db = hidden db _

    pub record_discount-Keeps :
        ((db : Db) (t : List AppliedDiscount) (r : Table DiscountRule)
          → f (record db { applied = t; rules = r }) ≡ f db)
        → (organization user sale : ℕ) (p : Pricing) (rule : Option (ℕ × DiscountRule))
        → Keeps f (record_discount organization user sale p rule)
    unfolding record_discount
    record_discount-Keeps hidden organization user sale p none db = refl
    record_discount-Keeps hidden organization user sale p (some (id, r)) db =
        elim (Bool-cases (is_zero p.discount)) [
          | inl z ↦ rw (z, Ensures) refl
          | inr z ↦ elim (Option-cases (lookup id db.rules)) [
            | inl e ↦ rw (z, e, Ensures) tt
            | inr (c, e) ↦ rw (z, e, Ensures) (hidden db _ _)
          ]
        ]

  pub settle-stock :
      (status : Status) (organization user sale : ℕ) (total : ℤ) (dto : CreateSale)
      → Keeps stock_view (settle status organization user sale total dto)
  unfolding settle
  settle-stock completed organization user sale total dto =
      Keeps-bind stock_view (create_transaction (sale_credit organization user sale total dto)) _
        (create_transaction-Keeps stock_view (λ db t x n. refl)
          (sale_credit organization user sale total dto))
        λ t.
          Keeps-bind stock_view (update_sale sale (λ s. record s { transaction_id = some t }))
            (λ _. compute_and_persist sale organization (sale_lines dto.items))
            (update_sale-Keeps stock_view (λ db x. refl) sale _)
            (λ _. compute_and_persist-Keeps stock_view (λ db x n. refl) sale organization _)
  settle-stock _ organization user sale total dto = λ db. refl

pub find_own_sale-same :
    (organization id : ℕ) (db : Db)
    → Ensures
        (λ sale db'.
          (db' ≡ db)
          × (lookup id db.sales ≡ some sale)
          × ((sale.organization_id == organization) ≡ true))
        (find_own_sale organization id db)
unfolding find_own_sale
find_own_sale-same organization id db = elim (Option-cases (lookup id db.sales)) [
  | inl e ↦ rw (e, Ensures) tt
  | inr (sale, e) ↦ elim (Bool-cases (sale.organization_id == organization)) [
    | inl o ↦ rw (e, o, Ensures) (refl, e, o)
    | inr o ↦ rw (e, o, Ensures) tt
  ]
]

-- The rules for the steps that every operation on a sale begins with.
module _ ⦃ar : Arith⦄ {A : Type 0} (Q : A → Db → Type 0) where
  pub find_own_sale-then :
      (organization id : ℕ) (k : Sale → Tx A) (db : Db)
      → ((sale : Sale)
          → lookup id db.sales ≡ some sale
          → sale.organization_id ≡ organization
          → Ensures Q (k sale db))
      → Ensures Q ((find_own_sale organization id >>= k) db)
  find_own_sale-then organization id k db next =
      Ensures-bind
        (λ sale db'.
          (db' ≡ db)
          × (lookup id db.sales ≡ some sale)
          × ((sale.organization_id == organization) ≡ true))
        Q (find_own_sale organization id) k db (find_own_sale-same organization id db)
        (λ sale b h.
          subst (λ (c : Db). Ensures Q (k sale c)) (sym h.0)
            (next sale h.1 ((==_iff sale.organization_id organization).0 h.2)))

  pub throw_if-then :
      (b : Bool) (e : Exception) (k : ⊤ → Tx A) (db : Db)
      → (b ≡ false → Ensures Q (k tt db))
      → Ensures Q ((throw_if b e >>= k) db)
  throw_if-then true e k db next = tt
  throw_if-then false e k db next = next refl

module _ {V : Type 0} (f : Db → V) where
  pub validate_sufficient_stock-Keeps :
      (items : List SaleItem) (m : StockMap) → Keeps f (validate_sufficient_stock items m)
  unfolding validate_sufficient_stock
  validate_sufficient_stock-Keeps items m db =
      elim (Bool-cases (some_lacks (total_by_stock m [] items) db.stocks)) [
        | inl e ↦ rw (e, Ensures) tt
        | inr e ↦ rw (e, Ensures) refl
      ]
