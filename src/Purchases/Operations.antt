-- ===== src/Purchases/Operations.antt =====
-- The other steps of src/modules/product-purchases/product-purchases.service.ts and `remove`, and
-- the stock.
use easy_point_api.Base.{
  List, [], is_some, length, not, refl, ℕ, ◌==◌, ◌∷◌, Bool, Bool-cases, Option, Option-cases, arith,
  false, inl, inr, none, some, true,
}
use easy_point_api.Inventory.{location_of, upsert_stock}
use easy_point_api.Decimal.{Arith, RoundingLaws}
use easy_point_api.Database.{
  bad_request, invalid_products, not_purchasable, throw_if, Db, Ensures, Purchase, Status,
  already_cancelled, cancelled, completed, conflict, credit, pending, pure, refund, ◌>>◌,
}
use easy_point_api.Sales.Items.{StockMap, count_products, stock_in}
use easy_point_api.Purchases.Balanced.{
  KeepsStock, KeepsStock-bind, KeepsStock-throw_if, Agrees, HasPurchaseStock, KeepsStock-gets,
  create_transaction-KeepsStock, same_stock_view, upsert_stock-KeepsStock,
}
use easy_point_api.Purchases.Lines.{
  PurchaseItem, add_stock, add_stocks, get_or_create_stocks, purchased_ids, some_unpurchasable,
}
use easy_point_api.FinancialTransactions.{create_transaction}
use easy_point_api.Base.Table.{delete, lookup, put}
use easy_point_api.Sales.Lifecycle.{is_cancelled}
use easy_point_api.Purchases.Kept.{reverse_purchase-KeepsStock}
use easy_point_api.Purchases.Lifecycle.{
  CreatePurchase, find_own_purchase, purchase_debit, purchase_transaction, remove_purchase,
  reverse_purchase, settle_purchase, undo_purchase, update_purchase,
}

module _ ⦃ar : Arith⦄ (laws : RoundingLaws ar) where
  add_stock-KeepsStock :
      (organization : ℕ) (m : StockMap) (item : PurchaseItem) (known : Bool)
      → KeepsStock (add_stock organization m item known)
  add_stock-KeepsStock organization m item true = λ db valid. (λ s. refl, valid)
  add_stock-KeepsStock organization m item false =
      KeepsStock-bind (upsert_stock organization item.product_id (location_of item.location))
        (λ id. pure ((item.product_id, location_of item.location, id) ∷ m))
        (upsert_stock-KeepsStock laws organization item.product_id (location_of item.location))
        (λ id db valid. (λ s. refl, valid))

  add_stocks-KeepsStock :
      (organization : ℕ) (m : StockMap) (items : List PurchaseItem)
      → KeepsStock (add_stocks organization m items)
  unfolding add_stocks
  add_stocks-KeepsStock organization m [] db valid = (λ s. refl, valid)
  add_stocks-KeepsStock organization m (item ∷ items) db valid =
      KeepsStock-bind
        (add_stock organization m item
          (is_some (stock_in item.product_id (location_of item.location) m)))
        (λ m'. add_stocks organization m' items)
        (add_stock-KeepsStock organization m item
          (is_some (stock_in item.product_id (location_of item.location) m)))
        (λ m'. add_stocks-KeepsStock organization m' items) db valid

  pub get_or_create_stocks-KeepsStock :
      (organization : ℕ) (items : List PurchaseItem)
      → KeepsStock (get_or_create_stocks organization items)
  unfolding get_or_create_stocks
  get_or_create_stocks-KeepsStock organization items db valid =
      KeepsStock-bind
        (throw_if
          (not (
            count_products organization (purchased_ids items) db.products
            == length (purchased_ids items)))
          (bad_request invalid_products))
        _
        (KeepsStock-throw_if
          (not (
            count_products organization (purchased_ids items) db.products
            == length (purchased_ids items)))
          _)
        (λ _.
          KeepsStock-gets
            (λ (d : Db). some_unpurchasable organization (purchased_ids items) d.products)
            (λ bad. throw_if bad (bad_request not_purchasable) >> add_stocks organization [] items)
            λ bad.
              KeepsStock-bind (throw_if bad (bad_request not_purchasable))
                (λ _. add_stocks organization [] items) (KeepsStock-throw_if bad _)
                (λ _. add_stocks-KeepsStock organization [] items))
        db valid

  pub update_purchase-KeepsStock :
      (id : ℕ) (change : Purchase → Purchase) → KeepsStock (update_purchase id change)
  unfolding update_purchase
  update_purchase-KeepsStock id change db valid = elim (Option-cases (lookup id db.purchases)) [
    | inl e ↦ rw (e, Ensures) tt
    | inr (p, e) ↦
        rw (e, Ensures)
          (same_stock_view db (record db { purchases = put id (change p) db.purchases }) valid refl
            (omega arith))
  ]

  pub find_own_purchase-KeepsStock :
      (organization id : ℕ) → KeepsStock (find_own_purchase organization id)
  unfolding find_own_purchase
  find_own_purchase-KeepsStock organization id db valid =
      elim (Option-cases (lookup id db.purchases)) [
        | inl e ↦ rw (e, Ensures) tt
        | inr (p, e) ↦ elim (Bool-cases (p.organization_id == organization)) [
          | inl o ↦ rw (e, o, Ensures) (λ s. refl, valid)
          | inr o ↦ rw (e, o, Ensures) tt
        ]
      ]

  pub settle_purchase-KeepsStock :
      (status : Status) (organization user id : ℕ) (dto : CreatePurchase)
      → KeepsStock (settle_purchase status organization user id dto)
  unfolding settle_purchase
  settle_purchase-KeepsStock completed organization user id dto =
      KeepsStock-bind (create_transaction (purchase_debit organization user id dto)) _
        (create_transaction-KeepsStock _)
        (λ t. update_purchase-KeepsStock id (λ p. record p { transaction_id = some t }))
  settle_purchase-KeepsStock _ organization user id dto = λ db valid. (λ s. refl, valid)

  undo_purchase-KeepsStock :
      (status : Status) (organization user id : ℕ) (p : Purchase)
      → KeepsStock (undo_purchase status organization user id p)
  unfolding undo_purchase
  undo_purchase-KeepsStock pending organization user id p = λ db valid.
      same_stock_view db (record db { purchases = delete id db.purchases }) valid refl (omega arith)
  undo_purchase-KeepsStock cancelled organization user id p = λ db valid. (λ s. refl, valid)
  undo_purchase-KeepsStock completed organization user id p = λ db valid.
      elim (Option-cases p.transaction_id) [
        | inl e ↦ rw (e, Ensures) tt
        | inr (t, e) ↦ elim (Option-cases (lookup t db.transactions)) [
          | inl e' ↦ rw (e, e', Ensures) tt
          | inr (original, e') ↦
              let params =
                purchase_transaction credit refund organization user id original.bank_account_id
                  p.total_amount in
              rw (e, e')
                (KeepsStock-bind (create_transaction params)
                  (λ _. update_purchase id (λ x. record x { status = cancelled }))
                  (create_transaction-KeepsStock params)
                  (λ _. update_purchase-KeepsStock id (λ x. record x { status = cancelled })) db
                  valid)
        ]
      ]

  -- If `remove` of a purchase succeeds on a database in which columns hold their values exactly,
  -- movements of purchases are of that kind, and no stock record has an id that is still to be
  -- drawn, then quantities and movements agree as before, and the database is such a one again.
  pub remove_purchase-Agrees :
      (tenant : Option ℕ) (user id : ℕ) (db : Db)
      → HasPurchaseStock db
      → Ensures (λ _ db'. Agrees db db') (remove_purchase tenant user id db)
  unfolding remove_purchase
  remove_purchase-Agrees none user id db valid = tt
  remove_purchase-Agrees (some organization) user id db valid =
      KeepsStock-bind (find_own_purchase organization id) _
        (find_own_purchase-KeepsStock organization id)
        (λ p.
          KeepsStock-bind (throw_if (is_cancelled p.status) (conflict already_cancelled)) _
            (KeepsStock-throw_if (is_cancelled p.status) (conflict already_cancelled))
            (λ _.
              KeepsStock-bind (reverse_purchase id)
                (λ _. undo_purchase p.status organization user id p)
                (reverse_purchase-KeepsStock laws id)
                (λ _. undo_purchase-KeepsStock p.status organization user id p)))
        db valid
