-- ===== src/Sales/Added.antt =====
-- The stock under `addItems` and `complete` (src/modules/sales/sales.service.ts).
use easy_point_api.Base.{All, List, Option, none, not, refl, some, subst, sym, ℕ, ⊤, ◌≡◌}
use easy_point_api.Decimal.{Arith, RoundingLaws}
use easy_point_api.FinancialTransactions.{create_transaction}
use easy_point_api.Database.{
  Db, Ensures, Ensures-bind, Ensures-weaken, Keeps, Keeps-bind, Sale, ◌>>=◌, ◌>>◌,
}
use easy_point_api.Sales.Conserved.{
  HasValidStock, Sold, StockTables, Took, Took-Sold, take_items-Took,
}
use easy_point_api.Sales.Create.{update_sale}
use easy_point_api.Sales.Lifecycle.{
  CompleteSale, add_items, complete, completion_credit, is_pending,
}
use easy_point_api.Sales.Frame.{
  compute_and_persist-Keeps, find_own_sale-then, stock_view, throw_if-then, update_sale-Keeps,
  create_transaction-Keeps,
}
use easy_point_api.Sales.Resolve.{Resolves, resolve_stocks-Resolves}
use easy_point_api.Sales.Sufficient.{IsSufficient, validate_sufficient_stock-IsSufficient}
use easy_point_api.Sales.Items.{SaleItem, resolve_stocks, take_items, validate_sufficient_stock}
use easy_point_api.Sales.Stock.{HasValidLine}

module _ ⦃ar : Arith⦄ (laws : RoundingLaws ar) where
  -- The steps of `add_items` after the checks.
  add_items-TookChecked :
      (organization user id : ℕ) (items : List SaleItem) (change : Sale → Sale) (db : Db)
      → HasValidStock db
      → All HasValidLine items
      → Ensures
          (λ _ db'. Sold items db db')
          ((do
            stock_map ← resolve_stocks organization items
            validate_sufficient_stock items stock_map
            take_items organization user id stock_map items
            update_sale id change)
            db)
  add_items-TookChecked organization user id items change db valid lines =
      let Q = λ (_ : ⊤) (db' : Db). Sold items db db' in
      Ensures-bind (λ m b. (b ≡ db) × Resolves db.stocks items m) Q
        (resolve_stocks organization items) _ db (resolve_stocks-Resolves organization items db)
        λ m b (e, found). rw e (
          Ensures-bind (λ _ c. (c ≡ db) × IsSufficient m items db) Q
            (validate_sufficient_stock items m) _ db
            (validate_sufficient_stock-IsSufficient m items db valid.stock)
            λ _ c (e', enough). rw e' (
              Ensures-bind (λ _ d. Took organization user id m items (stock_view db) (stock_view d))
                Q (take_items organization user id m items) _ db
                (take_items-Took laws organization user id m items db db lines valid.stored refl)
                λ _ d took.
                  Ensures-weaken (λ _ f. stock_view f ≡ stock_view d) Q (update_sale id change d)
                    (update_sale-Keeps stock_view (λ x t. refl) id change d)
                    λ _ f same.
                      let taken =
                        subst
                          (λ (v : StockTables). Took organization user id m items (stock_view db) v)
                          (sym same) took in
                      Took-Sold laws organization user id m items db f valid lines found enough
                        taken))

  -- If `addItems` succeeds on a database with valid stock and with validated lines, then every
  -- stock record has lost exactly the quantity of the lines for its product and location,
  -- quantities and movements agree as before, and no quantity is negative.
  pub add_items-Sold :
      (tenant : Option ℕ) (user id : ℕ) (items : List SaleItem) (db : Db)
      → HasValidStock db
      → All HasValidLine items
      → Ensures (λ _ db'. Sold items db db') (add_items tenant user id items db)
  unfolding add_items
  add_items-Sold none user id items db valid lines = tt
  add_items-Sold (some organization) user id items db valid lines =
      let Q = λ (_ : ⊤) (db' : Db). Sold items db db' in
      find_own_sale-then Q organization id _ db λ sale e o.
        throw_if-then Q (not (is_pending sale.status)) _ _ db
          λ p. add_items-TookChecked organization user id items _ db valid lines

  pub complete-stock :
      (tenant : Option ℕ) (user id : ℕ) (dto : CompleteSale)
      → Keeps stock_view (complete tenant user id dto)
  unfolding complete
  complete-stock none user id dto db = tt
  complete-stock (some organization) user id dto db =
      let Q = λ (_ : ⊤) (db' : Db). stock_view db' ≡ stock_view db in
      find_own_sale-then Q organization id _ db λ sale e o.
        throw_if-then Q (not (is_pending sale.status)) _ _ db λ p.
          Keeps-bind stock_view
            (create_transaction (completion_credit organization user id sale.total_amount dto)) _
            (create_transaction-Keeps stock_view (λ db t x n. refl) _)
            (λ t.
              Keeps-bind stock_view (update_sale id _) _
                (update_sale-Keeps stock_view (λ x y. refl) id _)
                (λ _ d. compute_and_persist-Keeps stock_view (λ x y n. refl) id organization _ d))
            db
