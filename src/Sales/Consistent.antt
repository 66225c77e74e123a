-- ===== src/Sales/Consistent.antt =====
-- Sequences of the operations of src/modules/sales/sales.service.ts: stock, accounts and sales
-- together.
use easy_point_api.Base.{All, ap, refl, subst, sym, ℕ, ◌∙◌, ◌≡◌}
use easy_point_api.Decimal.{Arith, RoundingLaws}
use easy_point_api.Base.Table.{Table, lookup, put}
use easy_point_api.Base.Int.{pos, ◌+ℤ◌, ◌-ℤ◌, ◌≤ℤ◌}
use easy_point_api.Base.Table.Unique.{HasUniqueKeys, delete-HasUniqueKeys, put-HasUniqueKeys}
use easy_point_api.Base.Table.Rows.{AllRows, AllRows-delete, AllRows-lookup, AllRows-put}
use easy_point_api.Database.{Db, Ensures-ok, Sale, Status, cancelled, completed, pending}
use easy_point_api.Sales.Conserved.{HasValidMove, HasValidStock, Sold, StockTables, create-Sold}
use easy_point_api.Sales.Restored.{Undone, remove-Undone}
use easy_point_api.Sales.Frame.{stock_view}
use easy_point_api.Sales.Added.{add_items-Sold, complete-stock}
use easy_point_api.Sales.Ledger.{
  HasStoredTotal, add_items-KeepsLedger, complete-KeepsLedger, create-KeepsLedger,
  remove-KeepsLedger,
}
use easy_point_api.Sales.Created.{CreatedSale, create-CreatedSale}
use easy_point_api.Sales.Machine.{
  Reaches, Step, created, extended, finished, here, removed, followed,
}
use easy_point_api.Sales.Items.{calc_total}
use easy_point_api.Sales.Rows.{
  Added, Completed, RemovedSale, add_items-Added, complete-Completed, completed_row,
  remove-RemovedSale, removed_from,
}
use easy_point_api.FinancialTransactions.Ledger.{HasValidLedger, KeepsLedger, opening_balance}
use easy_point_api.Inventory.Balance.{HasStoredQuantity, moved, opening_stock, quantity_of}

-- What the database agrees on with itself: quantities with movements, balances with transactions.
abbrev pub IsConserved : Db → Db → Type 0
IsConserved db db' =
    ((s : ℕ) → opening_stock s db' ≡ opening_stock s db)
    × ((a : ℕ) → opening_balance a db' ≡ opening_balance a db)

module _ ⦃ar : Arith⦄ where
  -- Stock, accounts and sales as their columns hold them, nothing negative, no id used twice.
  pub record IsConsistent (db : Db) : Type 0 where
    pub stock : HasValidStock db
    pub ledger : HasValidLedger db
    pub totals : AllRows HasStoredTotal db.sales
    pub unique : HasUniqueKeys db.sales

  same_stock :
      (db db' : Db)
      → stock_view db' ≡ stock_view db
      → HasValidStock db
      → ((s : ℕ) → opening_stock s db' ≡ opening_stock s db) × HasValidStock db'
  unfolding opening_stock
  same_stock db db' e valid = (
    λ s. ap (λ (v : StockTables). quantity_of (lookup s v.0) -ℤ moved s v.1) e,
    record {
      stock =
          subst (λ (v : StockTables). (s : ℕ) → pos 0 ≤ℤ quantity_of (lookup s v.0)) (sym e)
            valid.stock;
      stored = subst (λ (v : StockTables). AllRows HasStoredQuantity v.0) (sym e) valid.stored;
      moves = subst (λ (v : StockTables). All HasValidMove v.1) (sym e) valid.moves;
    },
  )

module _ ⦃ar : Arith⦄ (laws : RoundingLaws ar) where
  -- The table of the sales: stored totals and unique ids.
  abbrev HasValidSales : Table Sale → Type 0
  HasValidSales t = AllRows HasStoredTotal t × HasUniqueKeys t

  put-HasValidSales :
      (k : ℕ) (r : Sale) (t : Table Sale)
      → HasValidSales t
      → HasStoredTotal r
      → HasValidSales (put k r t)
  put-HasValidSales k r t h total =
      (AllRows-put HasStoredTotal k r t h.0 total, put-HasUniqueKeys k r t h.1)

  removed_from-HasValidSales :
      (k : ℕ) (x : Status) (s : Sale) (t : Table Sale)
      → HasValidSales t
      → HasStoredTotal s
      → HasValidSales (removed_from x k s t)
  removed_from-HasValidSales k pending s t h total =
      (AllRows-delete HasStoredTotal k t h.0, delete-HasUniqueKeys k t h.1)
  removed_from-HasValidSales k completed s t h total =
      put-HasValidSales k (record s { status = cancelled }) t h total
  removed_from-HasValidSales k cancelled s t h total = h

  pub Step-HasValidSales :
      (db db' : Db) → HasValidSales db.sales → Step db db' → HasValidSales db'.sales
  Step-HasValidSales db db' h (created tenant user now dto sale lines unused e) =
      let (_, p, _, (new, t, rows)) =
        Ensures-ok (CreatedSale user now dto db) _ sale db'
          (create-CreatedSale tenant user now dto db) e in
      rw rows ((laws.stored p.total, h.0), (unused, h.1))
  Step-HasValidSales db db' h (finished tenant user k dto e) =
      let (s, _, found, live, rows) =
        Ensures-ok (λ _ c. Completed tenant k dto db c) _ tt db'
          (complete-Completed tenant user k dto db) e in
      rw rows (
        put-HasValidSales k (completed_row dto db.next_id s) db.sales h
          (AllRows-lookup HasStoredTotal k db.sales h.0 found))
  Step-HasValidSales db db' h (extended tenant user k items lines e) =
      let (s, found, live, rows) =
        Ensures-ok (λ _ c. Added k items db c) _ tt db' (add_items-Added tenant user k items db)
          e in
      rw rows (put-HasValidSales k _ db.sales h (laws.stored (s.total_amount +ℤ calc_total items)))
  Step-HasValidSales db db' h (removed tenant user k e) =
      let (s, _, found, live, rows) =
        Ensures-ok (λ _ c. RemovedSale tenant k db c) _ tt db' (remove-RemovedSale tenant user k db)
          e in
      rw rows (
        removed_from-HasValidSales k s.status s db.sales h
          (AllRows-lookup HasStoredTotal k db.sales h.0 found))

  abbrev StockStep : Db → Db → Type 0
  StockStep db db' = ((s : ℕ) → opening_stock s db' ≡ opening_stock s db) × HasValidStock db'

  Step-stock : (db db' : Db) → HasValidStock db → Step db db' → StockStep db db'
  Step-stock db db' h (created tenant user now dto sale lines unused e) =
      let r =
        Ensures-ok (λ _ c. Sold dto.items db c) _ sale db'
          (create-Sold laws tenant user now dto db h lines) e in
      (r.1, r.2)
  Step-stock db db' h (finished tenant user k dto e) =
      same_stock db db'
        (Ensures-ok (λ _ c. stock_view c ≡ stock_view db) _ tt db'
          (complete-stock laws tenant user k dto db) e)
        h
  Step-stock db db' h (extended tenant user k items lines e) =
      let r =
        Ensures-ok (λ _ c. Sold items db c) _ tt db'
          (add_items-Sold laws tenant user k items db h lines) e in
      (r.1, r.2)
  Step-stock db db' h (removed tenant user k e) =
      let u =
        Ensures-ok (λ _ c. Undone k db c) _ tt db' (remove-Undone laws tenant user k db h) e in
      (u.0, u.2)

  Step-ledger :
      (db db' : Db)
      → HasValidLedger db
      → AllRows HasStoredTotal db.sales
      → Step db db'
      → KeepsLedger laws db db'
  Step-ledger db db' h totals (created tenant user now dto sale lines unused e) =
      Ensures-ok (λ _ c. KeepsLedger laws db c) _ sale db'
        (create-KeepsLedger laws tenant user now dto db h) e
  Step-ledger db db' h totals (finished tenant user k dto e) =
      Ensures-ok (λ _ c. KeepsLedger laws db c) _ tt db'
        (complete-KeepsLedger laws tenant user k dto db h) e
  Step-ledger db db' h totals (extended tenant user k items lines e) =
      Ensures-ok (λ _ c. KeepsLedger laws db c) _ tt db'
        (add_items-KeepsLedger laws tenant user k items db h) e
  Step-ledger db db' h totals (removed tenant user k e) =
      Ensures-ok (λ _ c. KeepsLedger laws db c) _ tt db'
        (remove-KeepsLedger laws tenant user k db h totals) e

  pub Step-IsConsistent :
      (db db' : Db) → IsConsistent db → Step db db' → IsConserved db db' × IsConsistent db'
  Step-IsConsistent db db' h step =
      let stock = Step-stock db db' h.stock step in
      let books = Step-ledger db db' h.ledger h.totals step in
      let sales = Step-HasValidSales db db' (h.totals, h.unique) step in
      (
        (stock.0, books.0),
        record { stock = stock.1; ledger = books.1; totals = sales.0; unique = sales.1 },
      )

  -- From a consistent database, any sequence of successful `create`, `complete`, `addItems` and
  -- `remove` calls on sales, with validated lines and fresh ids, leaves for every stock record
  -- the quantity less what its recorded movements have moved as it was, and for every account the
  -- balance less what its recorded transactions have moved; and the database is consistent again:
  -- no quantity and no balance is negative, columns hold their values exactly, no sale id is used
  -- twice.
  pub Reaches-IsConserved :
      (db db' : Db) → IsConsistent db → Reaches db db' → IsConserved db db' × IsConsistent db'
  Reaches-IsConserved db db' h here = ((λ s. refl, λ a. refl), h)
  Reaches-IsConserved db db' h (followed b c r step) =
      let before = Reaches-IsConserved db b h r in
      let last = Step-IsConsistent b c before.1 step in
      ((λ s. last.0.0 s ∙ before.0.0 s, λ a. last.0.1 a ∙ before.0.1 a), last.1)
