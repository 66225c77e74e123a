-- ===== src/Sales/Ledger.antt =====
-- The bank accounts under the operations of a sale.
use easy_point_api.Base.{
  keep_if, ◌==◌, Option, ap, default_to, none, not, refl, some, subst, sym, ℕ, ⊤, ◌∙◌, ◌≡◌,
  Option-cases, inl, inr, List,
}
use easy_point_api.Utilities.{without_sale, compute_and_persist, delete_for_sale}
use easy_point_api.Decimal.{Arith, RoundingLaws, IsColumn}
use easy_point_api.FinancialTransactions.{TransactionParams, create_transaction}
use easy_point_api.Base.Table.{Table, lookup, insert, delete}
use easy_point_api.Base.Int.{ℤ, ◌-ℤ◌}
use easy_point_api.Base.Table.Rows.{AllRows, sum_rows, AllRows-lookup}
use easy_point_api.Database.{
  AppliedDiscount, Account, Db, Ensures, Ensures-bind, Ensures-weaken, Keeps, Keeps-bind, Status,
  Transaction, Tx, completed, credit, modify, new_id, ◌>>=◌, Sale, pure, cancelled, pending, ◌>>◌,
}
use easy_point_api.Sales.Create.{
  CreateSale, Pricing, create, create_in, record_discount, sale_credit, sale_lines, settle,
  update_sale, sale_row,
}
use easy_point_api.Sales.Lifecycle.{
  CompleteSale, complete, completion_credit, is_pending, is_cancelled, remove, restore_items,
  reversal, undo_sale, add_items,
}
use easy_point_api.Sales.Frame.{
  compute_and_persist-Keeps, find_own_sale-then, ledger_view, record_discount-Keeps, throw_if-then,
  update_sale-Keeps, validate_sufficient_stock-Keeps, delete_for_sale-Keeps, restore_items-Keeps,
  take_items-Keeps,
}
use easy_point_api.Sales.Resolve.{resolve_stocks-Keeps}
use easy_point_api.Sales.Price.{create-Ensures}
use easy_point_api.Sales.Items.{resolve_stocks, take_items, validate_sufficient_stock, SaleItem}
use easy_point_api.FinancialTransactions.Ledger.{
  HasStoredAmount, HasValidBalance, HasValidLedger, KeepsLedger, balance_of, effect_on,
  opening_balance, create_transaction-KeepsLedger,
}

module _ ⦃ar : Arith⦄ where
  abbrev pub HasStoredTotal : Sale → Type 0
  HasStoredTotal s = IsColumn s.total_amount

module _ ⦃ar : Arith⦄ (laws : RoundingLaws ar) where
  -- Whenever `m` succeeds, the balances still agree with the transactions.
  abbrev pub KeepsBooks : {A : Type 0} → Tx A → Type 0
  KeepsBooks m = (db : Db) → HasValidLedger db → Ensures (λ _ db'. KeepsLedger laws db db') (m db)

  KeepsLedger-trans :
      (a b c : Db) → KeepsLedger laws a b → KeepsLedger laws b c → KeepsLedger laws a c
  KeepsLedger-trans a b c h k = (λ s. k.0 s ∙ h.0 s, k.1)

  same_books :
      (db db' : Db) → HasValidLedger db → ledger_view db' ≡ ledger_view db → KeepsLedger laws db db'
  unfolding opening_balance
  same_books db db' valid e = (
    λ a.
        ap
          (λ (v : Table Account × Table Transaction).
            balance_of (lookup a v.0) -ℤ sum_rows (effect_on a) v.1)
          e,
    subst
        (λ (v : Table Account × Table Transaction).
          AllRows HasValidBalance v.0 × AllRows HasStoredAmount v.1)
        (sym e) valid,
  )

  pub Keeps-books : {A : Type 0} (m : Tx A) → Keeps ledger_view m → KeepsBooks m
  Keeps-books m h db valid =
      Ensures-weaken (λ _ db'. ledger_view db' ≡ ledger_view db) (λ _ db'. KeepsLedger laws db db')
        (m db) (h db) (λ a db' e. same_books db db' valid e)

  pub KeepsBooks-bind :
      {A B : Type 0} (m : Tx A) (k : A → Tx B)
      → KeepsBooks m
      → ((a : A) → KeepsBooks (k a))
      → KeepsBooks (m >>= k)
  KeepsBooks-bind {A} {B} m k h next db valid =
      Ensures-bind (λ (_ : A) b. KeepsLedger laws db b) (λ (_ : B) c. KeepsLedger laws db c) m k db
        (h db valid)
        λ a b kept.
          Ensures-weaken (λ _ c. KeepsLedger laws b c) (λ _ c. KeepsLedger laws db c) (k a b)
            (next a b kept.1) (λ _ c kept'. KeepsLedger-trans db b c kept kept')

  -- The credit of a sale needs no hypothesis on its amount.
  credit-books :
      (params : TransactionParams) → params.kind ≡ credit → KeepsBooks (create_transaction params)
  credit-books params e db valid = create_transaction-KeepsLedger laws params db valid (rw e tt)

  settle-books :
      (status : Status) (organization user sale : ℕ) (total : ℤ) (dto : CreateSale)
      → KeepsBooks (settle status organization user sale total dto)
  unfolding settle
  settle-books completed organization user sale total dto =
      KeepsBooks-bind (create_transaction (sale_credit organization user sale total dto)) _
        (credit-books (sale_credit organization user sale total dto) refl)
        λ t. Keeps-books _ (
          Keeps-bind ledger_view (update_sale sale (λ s. record s { transaction_id = some t }))
            (λ _. compute_and_persist sale organization (sale_lines dto.items))
            (update_sale-Keeps ledger_view (λ db x. refl) sale _)
            (λ _. compute_and_persist-Keeps ledger_view (λ db x n. refl) sale organization _))
  settle-books _ organization user sale total dto = Keeps-books {A = ⊤} (pure tt) (λ db. refl)

  abbrev with_sale : ℕ → Sale → Db → Db
  with_sale id row db = record db { sales = insert id row db.sales }

  create_in-books :
      (organization user : ℕ) (status : Status) (dto : CreateSale) (p : Pricing)
      → KeepsBooks (create_in organization user status dto p)
  unfolding create_in
  create_in-books organization user status dto p =
      KeepsBooks-bind (resolve_stocks organization dto.items) _
        (Keeps-books _ (resolve_stocks-Keeps ledger_view organization dto.items))
        λ m.
          KeepsBooks-bind (validate_sufficient_stock dto.items m) _
            (Keeps-books _ (validate_sufficient_stock-Keeps ledger_view dto.items m))
            λ _. KeepsBooks-bind new_id _ (Keeps-books new_id (λ db. refl)) λ sale.
              KeepsBooks-bind (modify (with_sale sale (sale_row organization user status dto p))) _
                (Keeps-books (modify (with_sale sale (sale_row organization user status dto p)))
                  (λ db. refl))
                λ _.
                  KeepsBooks-bind (record_discount organization user sale p p.applied) _
                    (Keeps-books _ (
                      record_discount-Keeps ledger_view (λ db t r. refl) organization user sale p
                        p.applied))
                    λ _.
                      KeepsBooks-bind (take_items organization user sale m dto.items) _
                        (Keeps-books _ (
                          take_items-Keeps ledger_view (λ db t ms. refl) organization user sale m
                            dto.items))
                        λ _.
                          KeepsBooks-bind (settle status organization user sale p.total dto)
                            (λ _. pure sale)
                            (settle-books status organization user sale p.total dto)
                            (λ _. Keeps-books (pure sale) (λ db. refl))

  -- If `create` succeeds on a database with a valid ledger, then the balance of every account
  -- less what its recorded transactions have moved is as before, and the ledger is valid.
  pub create-KeepsLedger :
      (tenant : Option ℕ) (user now : ℕ) (dto : CreateSale) (db : Db)
      → HasValidLedger db
      → Ensures (λ _ db'. KeepsLedger laws db db') (create tenant user now dto db)
  create-KeepsLedger tenant user now dto db valid =
      create-Ensures (λ _ db'. KeepsLedger laws db db') tenant user now dto db
        (λ organization p _.
          create_in-books organization user (default_to dto.status completed) dto p db valid)

  pub complete-KeepsLedger :
      (tenant : Option ℕ) (user id : ℕ) (dto : CompleteSale)
      → KeepsBooks (complete tenant user id dto)
  unfolding complete
  complete-KeepsLedger none user id dto db valid = tt
  complete-KeepsLedger (some organization) user id dto db valid =
      let Q = λ (_ : ⊤) (db' : Db). KeepsLedger laws db db' in
      find_own_sale-then Q organization id _ db λ sale e o.
        throw_if-then Q (not (is_pending sale.status)) _ _ db λ p.
          KeepsBooks-bind
            (create_transaction (completion_credit organization user id sale.total_amount dto)) _
            (credit-books _ refl)
            (λ t. Keeps-books _ (
              Keeps-bind ledger_view (update_sale id _) _
                (update_sale-Keeps ledger_view (λ x y. refl) id _)
                (λ _ d. compute_and_persist-Keeps ledger_view (λ x y n. refl) id organization _ d)))
            db valid

  undo_sale-books :
      (status : Status) (organization user id : ℕ) (sale : Sale)
      → IsColumn sale.total_amount
      → KeepsBooks (undo_sale status organization user id sale)
  unfolding undo_sale
  undo_sale-books pending organization user id sale total =
      Keeps-books
        (modify (λ db. record db {
          sales = delete id db.sales;
          applied = keep_if (λ (a : AppliedDiscount). not (a.sale_id == id)) db.applied;
          utilities = without_sale id db.utilities;
        }))
        (λ db. refl)
  undo_sale-books cancelled organization user id sale total =
      Keeps-books {A = ⊤} (pure tt) (λ db. refl)
  undo_sale-books completed organization user id sale total = λ db valid.
      elim (Option-cases sale.transaction_id) [
        | inl e ↦ rw (e, Ensures) tt
        | inr (t, e) ↦ elim (Option-cases (lookup t db.transactions)) [
          | inl e' ↦ rw (e, e', Ensures) tt
          | inr (original, e') ↦
              let params =
                reversal organization user id original.bank_account_id sale.total_amount in
              let rest = λ (_ : ℕ).
                delete_for_sale id >> update_sale id (λ s. record s { status = cancelled }) in
              rw (e, e')
                (KeepsBooks-bind (create_transaction params) rest
                  (λ d v. create_transaction-KeepsLedger laws params d v total)
                  (λ t'. Keeps-books (rest t') (
                    Keeps-bind ledger_view (delete_for_sale id) _
                      (delete_for_sale-Keeps ledger_view (λ x y. refl) id)
                      (λ _. update_sale-Keeps ledger_view (λ x y. refl) id _)))
                  db valid)
        ]
      ]

  -- If `remove` succeeds on a database with a valid ledger, in which the totals of the sales are
  -- as columns hold them, then the balance of every account less what its recorded transactions
  -- have moved is as before, and the ledger is valid.
  pub remove-KeepsLedger :
      (tenant : Option ℕ) (user id : ℕ) (db : Db)
      → HasValidLedger db
      → AllRows HasStoredTotal db.sales
      → Ensures (λ _ db'. KeepsLedger laws db db') (remove tenant user id db)
  unfolding remove
  remove-KeepsLedger none user id db valid totals = tt
  remove-KeepsLedger (some organization) user id db valid totals =
      let Q = λ (_ : ⊤) (db' : Db). KeepsLedger laws db db' in
      find_own_sale-then Q organization id _ db λ sale e o.
        throw_if-then Q (is_cancelled sale.status) _ _ db λ p.
          KeepsBooks-bind (restore_items id) (λ _. undo_sale sale.status organization user id sale)
            (Keeps-books (restore_items id) (restore_items-Keeps ledger_view (λ db t ms. refl) id))
            (λ _.
              undo_sale-books sale.status organization user id sale
                (AllRows-lookup HasStoredTotal id db.sales totals e))
            db valid

  pub add_items-KeepsLedger :
      (tenant : Option ℕ) (user id : ℕ) (items : List SaleItem)
      → KeepsBooks (add_items tenant user id items)
  unfolding add_items
  add_items-KeepsLedger none user id items db valid = tt
  add_items-KeepsLedger (some organization) user id items db valid =
      let Q = λ (_ : ⊤) (db' : Db). KeepsLedger laws db db' in
      find_own_sale-then Q organization id _ db λ sale e o.
        throw_if-then Q (not (is_pending sale.status)) _ _ db λ p.
          Keeps-books _
            (Keeps-bind ledger_view (resolve_stocks organization items) _
              (resolve_stocks-Keeps ledger_view organization items)
              (λ m.
                Keeps-bind ledger_view (validate_sufficient_stock items m) _
                  (validate_sufficient_stock-Keeps ledger_view items m)
                  (λ _.
                    Keeps-bind ledger_view (take_items organization user id m items) _
                      (take_items-Keeps ledger_view (λ x y z. refl) organization user id m items)
                      (λ _. update_sale-Keeps ledger_view (λ x y. refl) id _))))
            db valid
