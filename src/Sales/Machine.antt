-- ===== src/Sales/Machine.antt =====
-- The status of a sale as a state machine whose steps are the operations of
-- src/modules/sales/sales.service.ts.
use easy_point_api.Base.{
  All, List, Option, none, ℕ, ◌≡◌, ==_iff, Bool-cases, arith, false, inl, inr, some, ◌==◌, refl,
}
use easy_point_api.Decimal.{Arith}
use easy_point_api.Base.Table.{
  lookup, Table, insert, lookup-delete_ne, lookup-insert, lookup-put_ne, lookup-put_self, put,
}
use easy_point_api.Database.{Db, ok, Sale, Status, cancelled, completed, pending, Ensures-ok}
use easy_point_api.Sales.Create.{CreateSale, create}
use easy_point_api.Sales.Lifecycle.{CompleteSale, add_items, complete, remove, is_cancelled}
use easy_point_api.Sales.Items.{SaleItem}
use easy_point_api.Sales.Stock.{HasValidLine}
use easy_point_api.Base.Table.Unique.{HasUniqueKeys, lookup-delete_self}
use easy_point_api.Sales.Rows.{
  removed_from, Added, Completed, RemovedSale, add_items-Added, complete-Completed, completed_row,
  remove-RemovedSale,
}
use easy_point_api.Sales.Created.{CreatedSale, create-CreatedSale}

module _ ⦃ar : Arith⦄ where
  -- One operation that has succeeded. The id that `create` draws is in no table, as `uuid` ensures.
  pub data Step (db db' : Db) : Type 0 where
    created :
        (tenant : Option ℕ)
        → (user now : ℕ) → (dto : CreateSale) → (sale : ℕ) → All HasValidLine dto.items
        → lookup db.next_id db.sales ≡ none
        → create tenant user now dto db ≡ ok (sale, db')
        → Step db db'
    finished :
        (tenant : Option ℕ)
        → (user id : ℕ) → (dto : CompleteSale) → complete tenant user id dto db ≡ ok (tt, db')
        → Step db db'
    extended :
        (tenant : Option ℕ)
        → (user id : ℕ) → (items : List SaleItem) → All HasValidLine items
        → add_items tenant user id items db ≡ ok (tt, db')
        → Step db db'
    removed :
        (tenant : Option ℕ) → (user id : ℕ) → remove tenant user id db ≡ ok (tt, db') → Step db db'

  -- A sequence of operations, in the order in which they committed.
  pub data Reaches (db : Db) : Db → Type 0 where
    here : Reaches db db
    followed : (b c : Db) → Reaches db b → Step b c → Reaches db c

abbrev pub status_in : Option Sale → Option Status
status_in none = none
status_in (some s) = some s.status

-- The changes of the status of a sale; `none` is a sale that is not in the table.
pub data Transition : Option Status → Option Status → Type 0 where
  stays : (x : Option Status) → Transition x x
  opens : (x : Status) → Transition none (some x)
  completes : Transition (some pending) (some completed)
  withdraws : Transition (some pending) none
  cancels : Transition (some completed) (some cancelled)

status_of-put :
    (id k : ℕ) (s r : Sale) (t : Table Sale)
    → lookup k t ≡ some s
    → Transition (some s.status) (some r.status)
    → Transition (status_in (lookup id t)) (status_in (lookup id (put k r t)))
status_of-put id k s r t found h = elim (Bool-cases (id == k)) [
  | inl e ↦
      let p : id ≡ k = (==_iff id k).0 e in rw (p, found, lookup-put_self k {w = s} r t found) h
  | inr e ↦ rw (lookup-put_ne id k r t (ground arith)) (stays _)
]

status_of-insert :
    (id k : ℕ) (r : Sale) (t : Table Sale)
    → lookup k t ≡ none
    → Transition (status_in (lookup id t)) (status_in (lookup id (insert k r t)))
status_of-insert id k r t unused = elim (Bool-cases (id == k)) [
  | inl e ↦
      let p : id ≡ k = (==_iff id k).0 e in
      rw (lookup-insert id k r t, e) (rw (p, unused) (opens _))
  | inr e ↦ rw (lookup-insert id k r t, e) (stays _)
]

status_of-removed_from :
    (id k : ℕ) (x : Status) (s : Sale) (t : Table Sale)
    → HasUniqueKeys t
    → lookup k t ≡ some s
    → s.status ≡ x
    → is_cancelled x ≡ false
    → Transition (status_in (lookup id t)) (status_in (lookup id (removed_from x k s t)))
status_of-removed_from id k pending s t unique found same live = elim (Bool-cases (id == k)) [
  | inl e ↦
      let p : id ≡ k = (==_iff id k).0 e in
      rw (p, found, lookup-delete_self k t unique, same) withdraws
  | inr e ↦ rw (lookup-delete_ne id k t (ground arith)) (stays _)
]
status_of-removed_from id k completed s t unique found same live =
    status_of-put id k s (record s { status = cancelled }) t found (rw same cancels)
status_of-removed_from id k cancelled s t unique found same live = cc

module _ ⦃ar : Arith⦄ where
  -- If no sale id is used twice, then every successful operation on sales, with a fresh id for a
  -- new sale, changes the status of every sale by a transition of the state machine or not at
  -- all: a sale comes into being, a pending one is completed or deleted, a completed one is
  -- cancelled.
  pub Step-Transition :
      (db db' : Db) (id : ℕ)
      → HasUniqueKeys db.sales
      → Step db db'
      → Transition (status_in (lookup id db.sales)) (status_in (lookup id db'.sales))
  Step-Transition db db' id unique (created tenant user now dto sale lines unused e) =
      let (_, p, _, (new, t, rows)) =
        Ensures-ok (CreatedSale user now dto db) _ sale db'
          (create-CreatedSale tenant user now dto db) e in
      rw rows (status_of-insert id db.next_id _ db.sales unused)
  Step-Transition db db' id unique (finished tenant user k dto e) =
      let (s, _, found, live, rows) =
        Ensures-ok (λ _ c. Completed tenant k dto db c) _ tt db'
          (complete-Completed tenant user k dto db) e in
      rw rows
        (status_of-put id k s (completed_row dto db.next_id s) db.sales found (rw live completes))
  Step-Transition db db' id unique (extended tenant user k items lines e) =
      let (s, found, live, rows) =
        Ensures-ok (λ _ c. Added k items db c) _ tt db' (add_items-Added tenant user k items db)
          e in
      rw rows (status_of-put id k s _ db.sales found (stays (some s.status)))
  Step-Transition db db' id unique (removed tenant user k e) =
      let (s, _, found, live, rows) =
        Ensures-ok (λ _ c. RemovedSale tenant k db c) _ tt db' (remove-RemovedSale tenant user k db)
          e in
      rw rows (status_of-removed_from id k s.status s db.sales unique found refl live)
