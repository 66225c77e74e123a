-- ===== src/Sales/Conserved.antt =====
-- The stock under `create` (src/modules/sales/sales.service.ts), with what is asked of the stock.
use easy_point_api.Base.{
  All, List, ap, is_some, map, subst, ℕ, ◌++◌, ◌≡◌, refl, ◌∙◌, All-append, Option, [], arith, none,
  some, sym, true, ◌∷◌, default_to,
}
use easy_point_api.Inventory.{movement_row}
use easy_point_api.Decimal.{Arith, RoundingLaws, IsColumn}
use easy_point_api.Base.Table.{Table, lookup}
use easy_point_api.Base.Int.{◌-ℤ◌, int_laws, pos, ℤ, ◌≤ℤ◌}
use easy_point_api.Base.Table.Rows.{AllRows}
use easy_point_api.Database.{
  Db, Ensures, Ensures-bind, Ensures-weaken, Movement, Status, Stock, Tx, pure, ◌>>◌, MovementType,
  sold, completed,
}
use easy_point_api.Sales.Create.{CreateSale, Pricing, create_in, record_discount, settle, create}
use easy_point_api.Sales.Frame.{stock_view, record_discount-Keeps, settle-stock}
use easy_point_api.Sales.Resolve.{
  Resolves, resolve_stocks-Resolves, drawn_from, required_of-drawn_from,
}
use easy_point_api.Sales.Sufficient.{HasStock, IsSufficient, validate_sufficient_stock-IsSufficient}
use easy_point_api.Sales.Items.{
  SaleItem, StockMap, resolve_stocks, sale_movement, take_items, validate_sufficient_stock,
}
use easy_point_api.Sales.Stock.{
  HasValidLine, TookItems, required_of, take_items-TookItems, moved-sale,
}
use easy_point_api.Inventory.Balance.{HasStoredQuantity, quantity_of, moved-append, opening_stock}
use easy_point_api.Sales.Price.{create-Ensures}

abbrev pub StockTables : Type 0
StockTables = Table Stock × List Movement

module _ ⦃ar : Arith⦄ where
  -- As `TookItems`, on the two tables.
  abbrev pub Took : ℕ → ℕ → ℕ → StockMap → List SaleItem → StockTables → StockTables → Type 0
  Took organization user sale m items v v' =
      ((s : ℕ) → quantity_of (lookup s v'.0) ≡ quantity_of (lookup s v.0) -ℤ required_of m s items)
      × (v'.1 ≡ map movement_row (map (sale_movement organization user sale m) items) ++ v.1)
      × AllRows HasStoredQuantity v'.0
      × ((s : ℕ) → is_some (lookup s v'.0) ≡ is_some (lookup s v.0))

  abbrev pub TookChecked : ℕ → ℕ → List SaleItem → Db → ℕ → Db → Type 0
  TookChecked organization user items db sale db' =
      (m : StockMap) × (sale ≡ db.next_id)
      × Resolves db.stocks items m
      × IsSufficient m items db
      × Took organization user sale m items (stock_view db) (stock_view db')

module _ ⦃ar : Arith⦄ (laws : RoundingLaws ar) where
  -- The lines are taken in a database with the same stock as `db`.
  pub take_items-Took :
      (organization user sale : ℕ) (m : StockMap) (items : List SaleItem) (db b : Db)
      → All HasValidLine items
      → AllRows HasStoredQuantity db.stocks
      → stock_view b ≡ stock_view db
      → Ensures
          (λ _ c. Took organization user sale m items (stock_view db) (stock_view c))
          (take_items organization user sale m items b)
  take_items-Took organization user sale m items db b lines stored same =
      subst
        (λ (v : StockTables).
          AllRows HasStoredQuantity v.0
          → Ensures (λ _ c. Took organization user sale m items v (stock_view c))
              (take_items organization user sale m items b))
        same
        (λ st.
          Ensures-weaken (λ _ c. TookItems organization user sale m items b c)
            (λ _ c. Took organization user sale m items (stock_view b) (stock_view c))
            (take_items organization user sale m items b)
            (take_items-TookItems laws organization user sale m items b lines st)
            (λ _ c h. (h.0, ap (λ (d : Db). d.movements) h.1, h.2, h.3)))
        stored

  -- The steps of `create_in` after the checks, with the id of the sale.
  abbrev writes : ℕ → ℕ → Status → CreateSale → Pricing → StockMap → ℕ → Tx ℕ
  writes organization user status dto p m sale = do
    record_discount organization user sale p p.applied
    take_items organization user sale m dto.items
    settle status organization user sale p.total dto
    pure sale

  writes-Took :
      (organization user : ℕ) (status : Status) (dto : CreateSale) (p : Pricing) (m : StockMap)
      (sale : ℕ) (db b : Db)
      → All HasValidLine dto.items
      → AllRows HasStoredQuantity db.stocks
      → stock_view b ≡ stock_view db
      → Ensures
          (λ id c.
            (id ≡ sale) × Took organization user sale m dto.items (stock_view db) (stock_view c))
          (writes organization user status dto p m sale b)
  writes-Took organization user status dto p m sale db b lines stored same =
      let T = λ (c : Db). Took organization user sale m dto.items (stock_view db) (stock_view c) in
      let Q = λ (id : ℕ) (c : Db). (id ≡ sale) × T c in
      Ensures-bind (λ _ c. stock_view c ≡ stock_view b) Q
        (record_discount organization user sale p p.applied) _ b
        (record_discount-Keeps stock_view (λ db t r. refl) organization user sale p p.applied b)
        λ _ c e.
          Ensures-bind (λ _ d. T d) Q (take_items organization user sale m dto.items) _ c
            (take_items-Took organization user sale m dto.items db c lines stored (e ∙ same))
            λ _ d took.
              Ensures-bind (λ _ f. stock_view f ≡ stock_view d) Q
                (settle status organization user sale p.total dto) _ d
                (settle-stock status organization user sale p.total dto d)
                λ _ f e'. (
                  refl,
                  subst
                      (λ (v : StockTables).
                        Took organization user sale m dto.items (stock_view db) v)
                      (sym e') took,
                )

  pub create_in-TookChecked :
      (organization user : ℕ) (status : Status) (dto : CreateSale) (p : Pricing) (db : Db)
      → HasStock db
      → AllRows HasStoredQuantity db.stocks
      → All HasValidLine dto.items
      → Ensures
          (λ sale db'. TookChecked organization user dto.items db sale db')
          (create_in organization user status dto p db)
  unfolding create_in
  create_in-TookChecked organization user status dto p db stock stored lines =
      let Q = λ (sale : ℕ) (db' : Db). TookChecked organization user dto.items db sale db' in
      Ensures-bind (λ m b. (b ≡ db) × Resolves db.stocks dto.items m) Q
        (resolve_stocks organization dto.items) _ db
        (resolve_stocks-Resolves organization dto.items db)
        λ m b (e, found). rw e (
          Ensures-bind (λ _ c. (c ≡ db) × IsSufficient m dto.items db) Q
            (validate_sufficient_stock dto.items m) _ db
            (validate_sufficient_stock-IsSufficient m dto.items db stock)
            λ _ c (e', enough). rw e' (
              Ensures-weaken
                (λ id d.
                  (id ≡ db.next_id)
                  × Took organization user db.next_id m dto.items (stock_view db) (stock_view d))
                Q (writes organization user status dto p m db.next_id _)
                (writes-Took organization user status dto p m db.next_id db _ lines stored refl)
                (λ id d (same, took). (m, same, found, enough, rw same took))))

abbrev pub HasSaleKind : Option ℕ → MovementType → ℤ → Type 0
HasSaleKind none k q = Unit
HasSaleKind (some s) k q = (k ≡ sold) × (pos 0 ≤ℤ q)

module _ ⦃ar : Arith⦄ where
  -- A movement that belongs to a sale is of that kind, and its quantity is not negative.
  abbrev pub HasValidMove : Movement → Type 0
  HasValidMove m = IsColumn m.quantity × HasSaleKind m.sale_id m.kind m.quantity

  -- No quantity is negative, and quantities and movements are as their columns hold them.
  pub record HasValidStock (db : Db) : Type 0 where
    pub stock : HasStock db
    pub stored : AllRows HasStoredQuantity db.stocks
    pub moves : All HasValidMove db.movements

  -- The quantities have changed by exactly what the lines draw, they agree with the movements as
  -- before, and none is negative.
  abbrev pub Sold : List SaleItem → Db → Db → Type 0
  Sold items db db' =
      ((s : ℕ)
        → quantity_of (lookup s db'.stocks)
          ≡ quantity_of (lookup s db.stocks) -ℤ drawn_from db.stocks s items)
      × ((s : ℕ) → opening_stock s db' ≡ opening_stock s db)
      × HasValidStock db'

module _ ⦃ar : Arith⦄ (laws : RoundingLaws ar) where
  rows-HasValidMove :
      (organization user sale : ℕ) (m : StockMap) (items : List SaleItem)
      → All HasValidLine items
      → All HasValidMove (map movement_row (map (sale_movement organization user sale m) items))
  rows-HasValidMove organization user sale m [] lines = tt
  rows-HasValidMove organization user sale m (item ∷ items) lines = (
    (laws.stored item.quantity, (refl, laws.keeps_sign item.quantity lines.0.0)),
    rows-HasValidMove organization user sale m items lines.1,
  )

  left_over :
      (r : ℤ) (o o' : Option Stock)
      → quantity_of o' ≡ quantity_of o -ℤ r
      → is_some o' ≡ is_some o
      → (is_some o ≡ true → r ≤ℤ quantity_of o)
      → pos 0 ≤ℤ quantity_of o'
  left_over r o none e k h = omega arith
  left_over r none (some b) e k h = cc
  left_over r (some a) (some b) e k h = let covered = h refl in rw e (omega int_laws)

  pub Took-Sold :
      (organization user sale : ℕ) (m : StockMap) (items : List SaleItem) (db db' : Db)
      → HasValidStock db
      → All HasValidLine items
      → Resolves db.stocks items m
      → IsSufficient m items db
      → Took organization user sale m items (stock_view db) (stock_view db')
      → Sold items db db'
  unfolding opening_stock
  Took-Sold organization user sale m items db db' valid lines found enough took =
      let ms = map movement_row (map (sale_movement organization user sale m) items) in
      (
        λ s. rw (took.0 s, required_of-drawn_from m db.stocks items s found),
        λ s.
            rw
              (
                took.0 s,
                took.1,
                moved-append s ms db.movements,
                moved-sale laws organization user sale m items s lines,
              )
              (omega int_laws),
        record {
          stock = λ s.
              left_over (required_of m s items) (lookup s db.stocks) (lookup s db'.stocks)
                (took.0 s) (took.3 s) (enough s);
          stored = took.2;
          moves = rw took.1 (
              All-append HasValidMove ms db.movements
                (rows-HasValidMove organization user sale m items lines) valid.moves);
        },
      )

  pub TookChecked-Sold :
      (organization user sale : ℕ) (items : List SaleItem) (db db' : Db)
      → HasValidStock db
      → All HasValidLine items
      → TookChecked organization user items db sale db'
      → Sold items db db'
  TookChecked-Sold organization user sale items db db' valid lines (m, _, found, enough, took) =
      Took-Sold organization user sale m items db db' valid lines found enough took

  -- If `create` succeeds on a database with valid stock and with validated lines, then every
  -- stock record has lost exactly the quantity of the lines for its product and location,
  -- quantities and movements agree as before, and no quantity is negative.
  pub create-Sold :
      (tenant : Option ℕ) (user now : ℕ) (dto : CreateSale) (db : Db)
      → HasValidStock db
      → All HasValidLine dto.items
      → Ensures (λ _ db'. Sold dto.items db db') (create tenant user now dto db)
  create-Sold tenant user now dto db valid lines =
      create-Ensures (λ _ db'. Sold dto.items db db') tenant user now dto db
        λ organization p priced.
          let status = default_to dto.status completed in
          Ensures-weaken (TookChecked organization user dto.items db)
            (λ _ db'. Sold dto.items db db') (create_in organization user status dto p db)
            (create_in-TookChecked laws organization user status dto p db valid.stock valid.stored
              lines)
            (λ sale db' took.
              TookChecked-Sold organization user sale dto.items db db' valid lines took)
