-- ===== src/Sales/Twice.antt =====
-- An operation on a sale that has already been done.
use mathlib.Core.Option.{some-injective}
use easy_point_api.Base.{List, Option, false, none, refl, some, true, ℕ, ◌≡◌, arith, sym, ◌∙◌, not}
use easy_point_api.Decimal.{Arith}
use easy_point_api.Base.Table.{lookup, lookup-put_self, Table}
use easy_point_api.Base.Table.Unique.{HasUniqueKeys, lookup-delete_self}
use easy_point_api.Database.{
  Db, Ensures-ok, Exception, Sale, Status, already_cancelled, completed, conflict, err, not_found,
  not_pending, ok, sale_missing, cancelled, pending, bind-err, bind-ok, throw_if-true,
}
use easy_point_api.Sales.Lifecycle.{
  CompleteSale, add_items, complete, find_own_sale, is_cancelled, is_pending, remove,
}
use easy_point_api.Sales.Items.{SaleItem}
use easy_point_api.Sales.Rows.{
  Completed, RemovedSale, complete-Completed, completed_row, remove-RemovedSale, removed_from,
}

abbrev pub second_removal : Status → Exception
second_removal completed = conflict already_cancelled
second_removal _ = not_found sale_missing

find_own_sale-found :
    (id : ℕ) (s : Sale) (db : Db)
    → lookup id db.sales ≡ some s
    → find_own_sale s.organization_id id db ≡ ok (s, db)
unfolding find_own_sale
find_own_sale-found id s db found = ground arith

find_own_sale-gone :
    (organization id : ℕ) (db : Db)
    → lookup id db.sales ≡ none
    → find_own_sale organization id db ≡ err (not_found sale_missing)
unfolding find_own_sale
find_own_sale-gone organization id db gone = ground arith

module _ ⦃ar : Arith⦄ where
  completed_once :
      (user id : ℕ) (dto : CompleteSale) (s : Sale) (db : Db)
      → lookup id db.sales ≡ some s
      → is_pending s.status ≡ false
      → complete (some s.organization_id) user id dto db ≡ err (conflict not_pending)
  unfolding complete
  completed_once user id dto s db found done =
      bind-ok _ (find_own_sale s.organization_id id) s db db (find_own_sale-found id s db found)
      ∙ throw_if-true _ (not (is_pending s.status)) _ db (rw done refl)

  extended_late :
      (user id : ℕ) (items : List SaleItem) (s : Sale) (db : Db)
      → lookup id db.sales ≡ some s
      → is_pending s.status ≡ false
      → add_items (some s.organization_id) user id items db ≡ err (conflict not_pending)
  unfolding add_items
  extended_late user id items s db found done =
      bind-ok _ (find_own_sale s.organization_id id) s db db (find_own_sale-found id s db found)
      ∙ throw_if-true _ (not (is_pending s.status)) _ db (rw done refl)

  removed_once :
      (user id : ℕ) (s : Sale) (db : Db)
      → lookup id db.sales ≡ some s
      → is_cancelled s.status ≡ true
      → remove (some s.organization_id) user id db ≡ err (conflict already_cancelled)
  unfolding remove
  removed_once user id s db found done =
      bind-ok _ (find_own_sale s.organization_id id) s db db (find_own_sale-found id s db found)
      ∙ throw_if-true _ (is_cancelled s.status) _ db (rw done refl)

  removed_missing :
      (organization user id : ℕ) (db : Db)
      → lookup id db.sales ≡ none
      → remove (some organization) user id db ≡ err (not_found sale_missing)
  unfolding remove
  removed_missing organization user id db gone =
      bind-err _ (find_own_sale organization id) _ db (find_own_sale-gone organization id db gone)

  -- After `complete` has succeeded on a sale, another `complete` and an `addItems` by the same
  -- tenant both throw the conflict of a sale that is not pending.
  pub complete-complete :
      (tenant : Option ℕ) (user user' id : ℕ) (dto dto' : CompleteSale) (items : List SaleItem)
      (db db' : Db)
      → complete tenant user id dto db ≡ ok (tt, db')
      → (complete tenant user' id dto' db' ≡ err (conflict not_pending))
        × (add_items tenant user' id items db' ≡ err (conflict not_pending))
  complete-complete tenant user user' id dto dto' items db db' e =
      let (s, owner, found, live, rows) =
        Ensures-ok (λ _ c. Completed tenant id dto db c) _ tt db'
          (complete-Completed tenant user id dto db) e in
      let s' = completed_row dto db.next_id s in
      let now : lookup id db'.sales ≡ some s' =
        rw rows (lookup-put_self id {w = s} s' db.sales found) in
      rw owner
        (completed_once user' id dto' s' db' now refl, extended_late user' id items s' db' now refl)

  removed_after :
      (user id : ℕ) (x : Status) (s : Sale) (t : Table Sale) (db : Db)
      → is_cancelled x ≡ false
      → HasUniqueKeys t
      → lookup id t ≡ some s
      → db.sales ≡ removed_from x id s t
      → remove (some s.organization_id) user id db ≡ err (second_removal x)
  removed_after user id pending s t db live unique found rows =
      removed_missing s.organization_id user id db (rw rows (lookup-delete_self id t unique))
  removed_after user id completed s t db live unique found rows =
      removed_once user id (record s { status = cancelled }) db
        (rw rows (lookup-put_self id {w = s} (record s { status = cancelled }) t found)) refl
  removed_after user id cancelled s t db live unique found rows = cc

  -- If no sale id is used twice and `remove` has succeeded on a sale, then another `remove` by
  -- the same tenant throws: a conflict if the sale was completed, not found if it was pending.
  pub remove-remove :
      (tenant : Option ℕ) (user user' id : ℕ) (s : Sale) (db db' : Db)
      → HasUniqueKeys db.sales
      → lookup id db.sales ≡ some s
      → remove tenant user id db ≡ ok (tt, db')
      → remove tenant user' id db' ≡ err (second_removal s.status)
  remove-remove tenant user user' id s db db' unique at e =
      let (s', owner, found, live, rows) =
        Ensures-ok (λ _ c. RemovedSale tenant id db c) _ tt db'
          (remove-RemovedSale tenant user id db) e in
      let same : s' ≡ s = some-injective s' s (sym found ∙ at) in
      rw (owner, ← same) (removed_after user' id s'.status s' db.sales db' live unique found rows)
