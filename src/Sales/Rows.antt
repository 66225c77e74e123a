-- ===== src/Sales/Rows.antt =====
-- What each operation of a sale does to the table of the sales.
use easy_point_api.Base.{
  refl, some, ℕ, ◌≡◌, subst, List, Option, ap, none, not, some_or, ⊤, ◌∙◌, Option-cases, false, inl,
  inr, sym,
}
use easy_point_api.Decimal.{Arith, to_column}
use easy_point_api.Base.Table.{Table, lookup, put, delete}
use easy_point_api.Database.{
  Db, Ensures, Sale, Ensures-bind, Ensures-weaken, completed, Status, cancelled, pending,
}
use easy_point_api.Sales.Create.{update_sale}
use easy_point_api.FinancialTransactions.{create_transaction}
use easy_point_api.Base.Int.{◌+ℤ◌}
use easy_point_api.Sales.Lifecycle.{
  CompleteSale, add_items, complete, completion_credit, is_pending, is_cancelled, remove,
  restore_items, reversal, undo_sale,
}
use easy_point_api.Sales.Frame.{
  compute_and_persist-Keeps, find_own_sale-then, take_items-Keeps, throw_if-then,
  validate_sufficient_stock-Keeps, create_transaction-Keeps, delete_for_sale-Keeps,
  restore_items-Keeps,
}
use easy_point_api.Sales.Resolve.{resolve_stocks-Keeps}
use easy_point_api.Sales.Items.{
  SaleItem, calc_total, resolve_stocks, take_items, validate_sufficient_stock,
}
use easy_point_api.FinancialTransactions.Recorded.{Recorded, create_transaction-Recorded}
use easy_point_api.Utilities.{delete_for_sale}

abbrev pub sales_of : Db → Table Sale
sales_of db = db.sales

-- A pending sale is deleted, a completed one is marked.
abbrev pub removed_from : Status → ℕ → Sale → Table Sale → Table Sale
removed_from pending id s t = delete id t
removed_from completed id s t = put id (record s { status = cancelled }) t
removed_from cancelled id s t = t

only_pending : (x : Status) → not (is_pending x) ≡ false → x ≡ pending
only_pending pending h = refl
only_pending completed h = cc
only_pending cancelled h = cc

module _ ⦃ar : Arith⦄ where
  update_sale-put :
      (id : ℕ) (change : Sale → Sale) (s : Sale) (db : Db)
      → lookup id db.sales ≡ some s
      → Ensures (λ _ db'. db'.sales ≡ put id (change s) db.sales) (update_sale id change db)
  unfolding update_sale
  update_sale-put id change s db e = rw (e, Ensures) refl

  -- The same, after steps that have kept the table.
  pub update_sale-after :
      (id : ℕ) (change : Sale → Sale) (s : Sale) (db b : Db)
      → sales_of b ≡ sales_of db
      → lookup id db.sales ≡ some s
      → Ensures (λ _ c. c.sales ≡ put id (change s) db.sales) (update_sale id change b)
  update_sale-after id change s db b same e =
      subst
        (λ (t : Table Sale).
          lookup id t ≡ some s
          → Ensures (λ _ c. c.sales ≡ put id (change s) t) (update_sale id change b))
        same (update_sale-put id change s b) e

  -- The row of a sale that `complete` completes, and what `addItems` and `remove` make of one.
  abbrev pub completed_row : CompleteSale → ℕ → Sale → Sale
  completed_row dto t s = record s {
    status = completed;
    transaction_id = some t;
    notes = some_or dto.notes s.notes;
  }

  abbrev pub Completed : Option ℕ → ℕ → CompleteSale → Db → Db → Type 0
  Completed tenant id dto db db' =
      (s : Sale) × (tenant ≡ some s.organization_id)
      × (lookup id db.sales ≡ some s)
      × (s.status ≡ pending)
      × (db'.sales ≡ put id (completed_row dto db.next_id s) db.sales)

  -- If `complete` succeeds, then the sale was pending and of the tenant, and the table of the
  -- sales has changed in its row only: it is completed, linked to the new transaction, and has
  -- the notes of the request or its own.
  pub complete-Completed :
      (tenant : Option ℕ) (user id : ℕ) (dto : CompleteSale) (db : Db)
      → Ensures (λ _ db'. Completed tenant id dto db db') (complete tenant user id dto db)
  unfolding complete
  complete-Completed none user id dto db = tt
  complete-Completed (some organization) user id dto db =
      let Q = λ (_ : ⊤) (db' : Db). Completed (some organization) id dto db db' in
      find_own_sale-then Q organization id _ db λ s e o.
        throw_if-then Q (not (is_pending s.status)) _ _ db λ p.
          let params = completion_credit organization user id s.total_amount dto in
          Ensures-bind (λ t b. (t ≡ db.next_id) × (sales_of b ≡ sales_of db)) Q
            (create_transaction params) _ db
            (Ensures-weaken (Recorded params db) _ _ (create_transaction-Recorded params db)
              (λ t b r. (r.5, ap sales_of r.6)))
            λ t b (new, same). rw new (
              let change = λ (x : Sale). record x {
                status = completed;
                transaction_id = some db.next_id;
                notes = some_or dto.notes s.notes;
              } in
              Ensures-bind (λ _ c. c.sales ≡ put id (completed_row dto db.next_id s) db.sales) Q
                (update_sale id change) _ b (update_sale-after id change s db b same e)
                λ _ c changed.
                  Ensures-weaken (λ _ d. sales_of d ≡ sales_of c) Q _
                    (compute_and_persist-Keeps sales_of (λ x y n. refl) id organization _ c)
                    (λ _ d kept.
                      (s, ap (λ x. some x) (sym o), e, only_pending s.status p, kept ∙ changed)))

  abbrev pub Added : ℕ → List SaleItem → Db → Db → Type 0
  Added id items db db' =
      (s : Sale) × (lookup id db.sales ≡ some s)
      × (s.status ≡ pending)
      × (db'.sales
          ≡ put id (record s { total_amount = to_column (s.total_amount +ℤ calc_total items) })
              db.sales)

  pub add_items-Added :
      (tenant : Option ℕ) (user id : ℕ) (items : List SaleItem) (db : Db)
      → Ensures (λ _ db'. Added id items db db') (add_items tenant user id items db)
  unfolding add_items
  add_items-Added none user id items db = tt
  add_items-Added (some organization) user id items db =
      let Q = λ (_ : ⊤) (db' : Db). Added id items db db' in
      let Same = λ (b : Db). sales_of b ≡ sales_of db in
      find_own_sale-then Q organization id _ db λ s e o.
        throw_if-then Q (not (is_pending s.status)) _ _ db λ p.
          Ensures-bind (λ _ b. Same b) Q (resolve_stocks organization items) _ db
            (resolve_stocks-Keeps sales_of organization items db)
            λ m b h.
              Ensures-bind (λ _ c. sales_of c ≡ sales_of b) Q (validate_sufficient_stock items m) _
                b (validate_sufficient_stock-Keeps sales_of items m b)
                λ _ c h'.
                  Ensures-bind (λ _ d. sales_of d ≡ sales_of c) Q
                    (take_items organization user id m items) _ c
                    (take_items-Keeps sales_of (λ x t ms. refl) organization user id m items c)
                    λ _ d h''.
                      let change = λ (x : Sale). record x {
                        total_amount = to_column (s.total_amount +ℤ calc_total items);
                      } in
                      Ensures-weaken (λ _ f. f.sales ≡ put id (change s) db.sales) Q
                        (update_sale id change d)
                        (update_sale-after id change s db d (h'' ∙ h' ∙ h) e)
                        (λ _ f changed. (s, e, only_pending s.status p, changed))

  abbrev pub RemovedSale : Option ℕ → ℕ → Db → Db → Type 0
  RemovedSale tenant id db db' =
      (s : Sale) × (tenant ≡ some s.organization_id)
      × (lookup id db.sales ≡ some s)
      × (is_cancelled s.status ≡ false)
      × (db'.sales ≡ removed_from s.status id s db.sales)

  undo_completed :
      (organization user id : ℕ) (s row : Sale) (db b : Db)
      → sales_of b ≡ sales_of db
      → lookup id db.sales ≡ some s
      → record s { status = cancelled } ≡ row
      → Ensures
          (λ _ c. c.sales ≡ put id row db.sales)
          (undo_sale completed organization user id s b)
  unfolding undo_sale
  undo_completed organization user id s row db b same e marked =
      let Q = λ (_ : ⊤) (c : Db). c.sales ≡ put id row db.sales in
      elim (Option-cases s.transaction_id) [
        | inl k ↦ rw (k, Ensures) tt
        | inr (t, k) ↦ elim (Option-cases (lookup t b.transactions)) [
          | inl k' ↦ rw (k, k', Ensures) tt
          | inr (original, k') ↦
              let params = reversal organization user id original.bank_account_id s.total_amount in
              rw (k, k')
                (Ensures-bind (λ _ c. sales_of c ≡ sales_of b) Q (create_transaction params) _ b
                  (create_transaction-Keeps sales_of (λ x t y n. refl) params b)
                  λ _ c h.
                    Ensures-bind (λ _ d. sales_of d ≡ sales_of c) Q (delete_for_sale id) _ c
                      (delete_for_sale-Keeps sales_of (λ x t. refl) id c)
                      λ _ d h'.
                        Ensures-weaken
                          (λ _ f. f.sales ≡ put id (record s { status = cancelled }) db.sales) Q _
                          (update_sale-after id (λ x. record x { status = cancelled }) s db d
                            (h' ∙ h ∙ same) e)
                          (λ _ f changed. changed ∙ ap (λ (r : Sale). put id r db.sales) marked))
        ]
      ]

  undo_sale-removed_from :
      (x : Status) (organization user id : ℕ) (s : Sale) (db b : Db)
      → sales_of b ≡ sales_of db
      → lookup id db.sales ≡ some s
      → Ensures
          (λ _ c. c.sales ≡ removed_from x id s db.sales)
          (undo_sale x organization user id s b)
  unfolding undo_sale
  undo_sale-removed_from pending organization user id s db b same e = ap (delete id) same
  undo_sale-removed_from cancelled organization user id s db b same e = same
  undo_sale-removed_from completed organization user id s db b same e =
      undo_completed organization user id s (record s { status = cancelled }) db b same e refl

  pub remove-RemovedSale :
      (tenant : Option ℕ) (user id : ℕ) (db : Db)
      → Ensures (λ _ db'. RemovedSale tenant id db db') (remove tenant user id db)
  unfolding remove
  remove-RemovedSale none user id db = tt
  remove-RemovedSale (some organization) user id db =
      let Q = λ (_ : ⊤) (db' : Db). RemovedSale (some organization) id db db' in
      find_own_sale-then Q organization id _ db λ s e o.
        throw_if-then Q (is_cancelled s.status) _ _ db λ p.
          Ensures-bind (λ _ b. sales_of b ≡ sales_of db) Q (restore_items id) _ db
            (restore_items-Keeps sales_of (λ x t ms. refl) id db)
            λ _ b same.
              Ensures-weaken (λ _ c. c.sales ≡ removed_from s.status id s db.sales) Q _
                (undo_sale-removed_from s.status organization user id s db b same e)
                (λ _ c changed. (s, ap (λ x. some x) (sym o), e, p, changed))
