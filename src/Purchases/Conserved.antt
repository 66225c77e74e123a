-- ===== src/Purchases/Conserved.antt =====
-- `create` and `addItems` of src/modules/product-purchases/product-purchases.service.ts, and the
-- stock.
use easy_point_api.Base.{
  All, Bool-cases, List, Option, [], arith, default_to, inl, inr, is_some, map, none, not, refl,
  some, suc, ℕ, ◌&&◌, ◌∷◌,
}
use easy_point_api.Decimal.{Arith, RoundingLaws}
use easy_point_api.Base.Table.{insert}
use easy_point_api.Database.{
  Db, Ensures, Purchase, Status, bad_request, bank_account_required, cancelled, completed, conflict,
  modify, new_id, not_pending, pending, pure, throw_if,
}
use easy_point_api.Sales.Lifecycle.{is_pending}
use easy_point_api.Purchases.Balanced.{
  Agrees, HasPurchaseStock, KeepsStock, KeepsStock-bind, KeepsStock-throw_if, same_stock_view,
}
use easy_point_api.Purchases.Kept.{
  IsStoredLine, receive_items-KeepsStock, reverse_purchase-KeepsStock,
}
use easy_point_api.Purchases.Operations.{
  find_own_purchase-KeepsStock, get_or_create_stocks-KeepsStock, settle_purchase-KeepsStock,
  update_purchase-KeepsStock,
}
use easy_point_api.Purchases.Lifecycle.{
  CreatePurchase, add_purchase_items, create_purchase, find_own_purchase, is_completed, processed,
  purchase_row, reverse_purchase, settle_purchase,
}
use easy_point_api.Purchases.Lines.{
  PurchaseItem, consolidate, consolidate_from, get_or_create_stocks, merge_line, placed,
  receive_items, same_place,
}

module _ ⦃ar : Arith⦄ (laws : RoundingLaws ar) where
  merge_line-stored :
      (done : List PurchaseItem) (item : PurchaseItem)
      → All IsStoredLine done
      → IsStoredLine item
      → All IsStoredLine (merge_line done item)
  unfolding merge_line
  merge_line-stored [] item h p = (p, tt)
  merge_line-stored (c ∷ cs) item h p = elim (Bool-cases (same_place c item)) [
    | inl e ↦ rw e (laws.add_stored c.quantity item.quantity h.0 p, h.1)
    | inr e ↦ rw e (h.0, merge_line-stored cs item h.1 p)
  ]

  consolidate_from-stored :
      (done items : List PurchaseItem)
      → All IsStoredLine done
      → All IsStoredLine items
      → All IsStoredLine (consolidate_from done items)
  unfolding consolidate_from
  consolidate_from-stored done [] h p = h
  consolidate_from-stored done (item ∷ items) h p =
      consolidate_from-stored (merge_line done item) items (merge_line-stored done item h p.0) p.1

  consolidate-stored :
      (items : List PurchaseItem) → All IsStoredLine items → All IsStoredLine (consolidate items)
  unfolding consolidate
  consolidate-stored items h = consolidate_from-stored [] items tt h

  placed-stored :
      (items : List PurchaseItem) → All IsStoredLine items → All IsStoredLine (map placed items)
  placed-stored [] h = tt
  placed-stored (i ∷ items) h = (h.0, placed-stored items h.1)

  processed-stored :
      (status : Status) (items : List PurchaseItem)
      → All IsStoredLine items
      → All IsStoredLine (processed status items)
  processed-stored pending items h = consolidate-stored items h
  processed-stored completed items h = h
  processed-stored cancelled items h = h

  new_id-KeepsStock : KeepsStock new_id
  new_id-KeepsStock db valid =
      same_stock_view db (record db { next_id = suc db.next_id }) valid refl (omega arith)

  abbrev with_purchase : ℕ → Purchase → Db → Db
  with_purchase id row db = record db { purchases = insert id row db.purchases }

  -- If `create` of a purchase succeeds on a database in which columns hold their values exactly,
  -- movements of purchases are of that kind, and no stock record has an id that is still to be
  -- drawn, and its lines have quantities that a column holds exactly, then quantities and
  -- movements agree as before, and the database is such a one again.
  pub create_purchase-Agrees :
      (tenant : Option ℕ) (user : ℕ) (dto : CreatePurchase) (db : Db)
      → HasPurchaseStock db
      → All IsStoredLine dto.items
      → Ensures (λ _ db'. Agrees db db') (create_purchase tenant user dto db)
  unfolding create_purchase
  create_purchase-Agrees none user dto db valid lines = tt
  create_purchase-Agrees (some organization) user dto db valid lines =
      let status = default_to dto.status completed in
      let row = purchase_row organization user status dto in
      let bad = is_completed status && not (is_some dto.bank_account_id) in
      KeepsStock-bind (throw_if bad (bad_request bank_account_required)) _
        (KeepsStock-throw_if bad (bad_request bank_account_required))
        (λ _.
          KeepsStock-bind (get_or_create_stocks organization dto.items) _
            (get_or_create_stocks-KeepsStock laws organization dto.items)
            λ m. KeepsStock-bind new_id _ new_id-KeepsStock λ id.
              KeepsStock-bind (modify (with_purchase id row)) _
                (λ d v. same_stock_view d (with_purchase id row d) v refl (omega arith))
                λ _.
                  KeepsStock-bind
                    (receive_items organization user id m (processed status dto.items)) _
                    (receive_items-KeepsStock laws organization user id m
                      (processed status dto.items) (processed-stored status dto.items lines))
                    λ _.
                      KeepsStock-bind (settle_purchase status organization user id dto)
                        (λ _. pure id)
                        (settle_purchase-KeepsStock laws status organization user id dto)
                        (λ _ d v. (λ s. refl, v)))
        db valid

  -- If `addItems` to a purchase succeeds on a database in which columns hold their values
  -- exactly, movements of purchases are of that kind, and no stock record has an id that is still
  -- to be drawn, and the lines have quantities that a column holds exactly, then quantities and
  -- movements agree as before, and the database is such a one again.
  pub add_purchase_items-Agrees :
      (tenant : Option ℕ) (user id : ℕ) (items : List PurchaseItem) (db : Db)
      → HasPurchaseStock db
      → All IsStoredLine items
      → Ensures (λ _ db'. Agrees db db') (add_purchase_items tenant user id items db)
  unfolding add_purchase_items
  add_purchase_items-Agrees none user id items db valid lines = tt
  add_purchase_items-Agrees (some organization) user id items db valid lines =
      let merged_lines = consolidate (map placed items) in
      KeepsStock-bind (find_own_purchase organization id) _
        (find_own_purchase-KeepsStock laws organization id)
        (λ p.
          KeepsStock-bind (throw_if (not (is_pending p.status)) (conflict not_pending)) _
            (KeepsStock-throw_if (not (is_pending p.status)) (conflict not_pending))
            λ _.
              KeepsStock-bind (get_or_create_stocks organization merged_lines) _
                (get_or_create_stocks-KeepsStock laws organization merged_lines)
                λ m.
                  KeepsStock-bind (reverse_purchase id) _ (reverse_purchase-KeepsStock laws id) λ _.
                    KeepsStock-bind (receive_items organization user id m merged_lines) _
                      (receive_items-KeepsStock laws organization user id m merged_lines
                        (consolidate-stored (map placed items) (placed-stored items lines)))
                      (λ _. update_purchase-KeepsStock laws id _))
        db valid
