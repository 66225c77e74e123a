-- ===== src/Sales/Created.antt =====
-- The row of a sale that `create` makes.
use easy_point_api.Base.{==_refl, Option, ap, default_to, none, refl, some, ℕ, ⊤, ◌∙◌, ◌≡◌}
use easy_point_api.Decimal.{Arith}
use easy_point_api.FinancialTransactions.{create_transaction}
use easy_point_api.Base.Table.{Table, insert, lookup, put}
use easy_point_api.Base.Int.{ℤ}
use easy_point_api.Database.{
  Db, Ensures, Ensures-bind, Ensures-weaken, Sale, Status, completed, pure,
}
use easy_point_api.Sales.Create.{
  CreateSale, Pricing, create, create_in, record_discount, sale_credit, sale_lines, sale_row,
  settle, update_sale,
}
use easy_point_api.Sales.Frame.{
  compute_and_persist-Keeps, create_transaction-Keeps, record_discount-Keeps, take_items-Keeps,
  validate_sufficient_stock-Keeps,
}
use easy_point_api.Sales.Resolve.{Resolves, resolve_stocks-Resolves}
use easy_point_api.Sales.Price.{IsPriced, create-Ensures}
use easy_point_api.Sales.Items.{calc_total, resolve_stocks, take_items, validate_sufficient_stock}
use easy_point_api.Sales.Rows.{sales_of, update_sale-after}

module _ ⦃ar : Arith⦄ where
  -- The row with the id of its transaction, the first of the table.
  abbrev pub NewSale : Sale → Db → ℕ → Db → Type 0
  NewSale row db sale db' =
      (sale ≡ db.next_id)
      × (t : Option ℕ) × (db'.sales
          ≡ insert db.next_id (record row { transaction_id = t }) db.sales)

  lookup-new : (id : ℕ) (row : Sale) (t : Table Sale) → lookup id (insert id row t) ≡ some row
  unfolding lookup
  lookup-new id row t = rw (==_refl id) refl

  put-new :
      (id : ℕ) (row row' : Sale) (t : Table Sale) → put id row' (insert id row t) ≡ insert id row' t
  unfolding put
  put-new id row row' t = rw (==_refl id) refl

  settle-sales :
      (status : Status) (organization user id : ℕ) (total : ℤ) (dto : CreateSale) (row : Sale)
      (t : Table Sale) (b : Db)
      → row.transaction_id ≡ none
      → sales_of b ≡ insert id row t
      → Ensures
          (λ _ c. (x : Option ℕ) × (c.sales ≡ insert id (record row { transaction_id = x }) t))
          (settle status organization user id total dto b)
  unfolding settle
  settle-sales completed organization user id total dto row t b bare same =
      let Q = λ (_ : ⊤) (c : Db).
        (x : Option ℕ) × (c.sales ≡ insert id (record row { transaction_id = x }) t) in
      let params = sale_credit organization user id total dto in
      Ensures-bind (λ _ c. sales_of c ≡ insert id row t) Q (create_transaction params) _ b
        (Ensures-weaken (λ _ c. sales_of c ≡ sales_of b) (λ _ c. sales_of c ≡ insert id row t) _
          (create_transaction-Keeps sales_of (λ x t y n. refl) params b) (λ _ c h. h ∙ same))
        λ x c kept.
          let change = λ (s : Sale). record s { transaction_id = some x } in
          Ensures-bind (λ _ d. d.sales ≡ put id (change row) (insert id row t)) Q
            (update_sale id change) _ c
            (update_sale-after id change row (record b { sales = insert id row t }) c kept
              (lookup-new id row t))
            λ _ d changed.
              Ensures-weaken (λ _ f. sales_of f ≡ sales_of d) Q _
                (compute_and_persist-Keeps sales_of (λ x y n. refl) id organization
                  (sale_lines dto.items) d)
                (λ _ f kept'. (some x, kept' ∙ changed ∙ put-new id row (change row) t))
  settle-sales _ organization user id total dto row t b bare same =
      (none, same ∙ ap (λ (x : Option ℕ). insert id (record row { transaction_id = x }) t) bare)

  create_in-NewSale :
      (organization user : ℕ) (status : Status) (dto : CreateSale) (p : Pricing) (db : Db)
      → Ensures
          (NewSale (sale_row organization user status dto p) db)
          (create_in organization user status dto p db)
  unfolding create_in
  create_in-NewSale organization user status dto p db =
      let row = sale_row organization user status dto p in
      let Q = NewSale row db in
      Ensures-bind (λ m b. (b ≡ db) × Resolves db.stocks dto.items m) Q
        (resolve_stocks organization dto.items) _ db
        (resolve_stocks-Resolves organization dto.items db)
        λ m b (same, _). rw same (
          Ensures-bind (λ _ c. c ≡ db) Q (validate_sufficient_stock dto.items m) _ db
            (validate_sufficient_stock-Keeps (λ x. x) dto.items m db)
            λ _ c same'. rw same' (
              Ensures-bind (λ _ d. sales_of d ≡ insert db.next_id row db.sales) Q
                (record_discount organization user db.next_id p p.applied) _ _
                (record_discount-Keeps sales_of (λ x y z. refl) organization user db.next_id p
                  p.applied _)
                λ _ d h.
                  Ensures-bind (λ _ f. sales_of f ≡ insert db.next_id row db.sales) Q
                    (take_items organization user db.next_id m dto.items) _ d
                    (Ensures-weaken (λ _ f. sales_of f ≡ sales_of d)
                      (λ _ f. sales_of f ≡ insert db.next_id row db.sales) _
                      (take_items-Keeps sales_of (λ x y z. refl) organization user db.next_id m
                        dto.items d)
                      (λ _ f h'. h' ∙ h))
                    λ _ f h''.
                      Ensures-bind
                        (λ _ g.
                          (x : Option ℕ) × (g.sales
                            ≡ insert db.next_id (record row { transaction_id = x }) db.sales))
                        Q (settle status organization user db.next_id p.total dto)
                        (λ _. pure db.next_id) f
                        (settle-sales status organization user db.next_id p.total dto row db.sales f
                          refl h'')
                        (λ _ g made. (refl, made.0, made.1))))

  -- The row of the new sale, at a price that `price` gives.
  abbrev pub CreatedSale : ℕ → ℕ → CreateSale → Db → ℕ → Db → Type 0
  CreatedSale user now dto db sale db' =
      (organization : ℕ) × (p : Pricing) × IsPriced organization now dto.client_id dto.discount_code
        (calc_total dto.items) db.rules p
      × NewSale (sale_row organization user (default_to dto.status completed) dto p) db sale db'

  -- If `create` succeeds, then the table of the sales has one row more, under the id that is
  -- returned, and it holds the subtotal of the lines, the status of the request or `COMPLETED`,
  -- and the total either without a discount or less the discount of a rule that has the code of
  -- the request, applies now and is open to the client.
  pub create-CreatedSale :
      (tenant : Option ℕ) (user now : ℕ) (dto : CreateSale) (db : Db)
      → Ensures (CreatedSale user now dto db) (create tenant user now dto db)
  create-CreatedSale tenant user now dto db =
      create-Ensures (CreatedSale user now dto db) tenant user now dto db λ organization p priced.
        let status = default_to dto.status completed in
        Ensures-weaken (NewSale (sale_row organization user status dto p) db)
          (CreatedSale user now dto db) _ (create_in-NewSale organization user status dto p db)
          (λ sale db' made. (organization, p, priced, made))
