-- ===== src/SupplyPurchases/Frame.antt =====
-- What the operations on supply purchases do not touch: productions and their usages
-- (src/modules/supply-purchases/supply-purchases.service.ts).
use easy_point_api.Base.{
  Bool-cases, Option, Option-cases, List, none, some, ℕ, ◌==◌, ◌≡◌, refl, ◌∙◌, inl, inr, not,
  is_some, default_to, ◌&&◌, map, keep_if,
}
use easy_point_api.Base.Table.{lookup, insert}
use easy_point_api.Decimal.{Arith}
use easy_point_api.FinancialTransactions.{create_transaction}
use easy_point_api.Purchases.Lifecycle.{CompletePurchase, is_completed}
use easy_point_api.Sales.Lifecycle.{is_pending, is_cancelled}
use easy_point_api.Supplies.{sync_quantity}
use easy_point_api.SupplyPurchases.Lines.{SupplyItem, get_or_create_supply_stocks, receive_supplies}
use easy_point_api.SupplyPurchases.Lifecycle.{
  CreateSupplyPurchase, add_supply_items, complete_supply_purchase, create_supply_purchase,
  find_own_supply_purchase, remove_supply_purchase, settle_supply_purchase, undo_supply_purchase,
  update_supply_purchase, withdraw_supplies, supply_transaction, supply_purchase_row, forget_lots,
  some_consumed, of_supply_purchase,
}
use easy_point_api.Database.{
  Db, Ensures, Ensures-bind, Ensures-weaken, Keeps, Keeps-bind, Keeps-for_each, Purchase, Status,
  SupplyMovement, cancelled, completed, pending, credit, refund, for_each, modify_supplies,
  new_supply_id, pure, throw_if,
}
use easy_point_api.SupplyPurchases.Steps.{
  drafts_view, throw_if-Keeps, get_or_create-Keeps, sync_quantity-Keeps, receive_supplies-Keeps,
  update_supply_purchase-Keeps, find_own-Keeps, transaction-Keeps,
}

module _ ⦃ar : Arith⦄ where
  settle-Keeps :
      (status : Status) (organization user id : ℕ) (dto : CreateSupplyPurchase)
      → Keeps drafts_view (settle_supply_purchase status organization user id dto)
  unfolding settle_supply_purchase
  settle-Keeps completed organization user id dto =
      Keeps-bind drafts_view (create_transaction _) _ (transaction-Keeps _)
        (λ t. update_supply_purchase-Keeps id (λ p. record p { transaction_id = some t }))
  settle-Keeps _ organization user id dto = λ db. refl

  pub create_supply_purchase-Keeps :
      (tenant : Option ℕ) (user : ℕ) (dto : CreateSupplyPurchase)
      → Keeps drafts_view (create_supply_purchase tenant user dto)
  unfolding create_supply_purchase
  create_supply_purchase-Keeps none user dto = λ db. tt
  create_supply_purchase-Keeps (some organization) user dto =
      let status = default_to dto.status completed in
      Keeps-bind drafts_view (throw_if (is_completed status && not (is_some dto.bank_account_id)) _)
        _ (throw_if-Keeps (is_completed status && not (is_some dto.bank_account_id)) _)
        (λ _.
          Keeps-bind drafts_view (get_or_create_supply_stocks organization dto.items) _
            (get_or_create-Keeps organization dto.items)
            (λ m.
              Keeps-bind drafts_view new_supply_id _ (λ db. refl)
                (λ id.
                  Keeps-bind drafts_view
                    (modify_supplies (λ s. record s {
                      supply_purchases =
                          insert id (supply_purchase_row organization user status dto)
                            s.supply_purchases;
                    }))
                    _ (λ db. refl)
                    (λ _.
                      Keeps-bind drafts_view (receive_supplies organization user id m dto.items) _
                        (receive_supplies-Keeps organization user id m dto.items)
                        (λ _.
                          Keeps-bind drafts_view
                            (settle_supply_purchase status organization user id dto) (λ _. pure id)
                            (settle-Keeps status organization user id dto) (λ _ db'. refl))))))

  pub complete_supply_purchase-Keeps :
      (tenant : Option ℕ) (user id : ℕ) (dto : CompletePurchase)
      → Keeps drafts_view (complete_supply_purchase tenant user id dto)
  unfolding complete_supply_purchase
  complete_supply_purchase-Keeps none user id dto = λ db. tt
  complete_supply_purchase-Keeps (some organization) user id dto =
      Keeps-bind drafts_view (find_own_supply_purchase organization id) _
        (find_own-Keeps organization id)
        (λ p.
          Keeps-bind drafts_view (throw_if (not (is_pending p.status)) _) _
            (throw_if-Keeps (not (is_pending p.status)) _)
            (λ _.
              Keeps-bind drafts_view (create_transaction _) _ (transaction-Keeps _)
                (λ t. update_supply_purchase-Keeps id _)))

  pub add_supply_items-Keeps :
      (tenant : Option ℕ) (user id : ℕ) (items : List SupplyItem)
      → Keeps drafts_view (add_supply_items tenant user id items)
  unfolding add_supply_items
  add_supply_items-Keeps none user id items = λ db. tt
  add_supply_items-Keeps (some organization) user id items =
      Keeps-bind drafts_view (find_own_supply_purchase organization id) _
        (find_own-Keeps organization id)
        (λ p.
          Keeps-bind drafts_view (throw_if (not (is_pending p.status)) _) _
            (throw_if-Keeps (not (is_pending p.status)) _)
            (λ _.
              Keeps-bind drafts_view (get_or_create_supply_stocks organization items) _
                (get_or_create-Keeps organization items)
                (λ m.
                  Keeps-bind drafts_view (receive_supplies organization user id m items) _
                    (receive_supplies-Keeps organization user id m items)
                    (λ _. update_supply_purchase-Keeps id _))))

  undo-Keeps :
      (status : Status) (organization user id : ℕ) (p : Purchase)
      → Keeps drafts_view (undo_supply_purchase status organization user id p)
  unfolding undo_supply_purchase
  undo-Keeps pending organization user id p = λ db. refl
  undo-Keeps cancelled organization user id p = λ db. refl
  undo-Keeps completed organization user id p = λ db. elim (Option-cases p.transaction_id) [
    | inl e ↦ rw (e, Ensures) tt
    | inr (t, e) ↦ elim (Option-cases (lookup t db.transactions)) [
      | inl e' ↦ rw (e, e', Ensures) tt
      | inr (original, e') ↦
          let params =
            supply_transaction credit refund organization user id original.bank_account_id
              p.total_amount in
          rw (e, e')
            (Keeps-bind drafts_view (create_transaction params)
              (λ _. update_supply_purchase id (λ x. record x { status = cancelled }))
              (transaction-Keeps params)
              (λ _. update_supply_purchase-Keeps id (λ x. record x { status = cancelled })) db)
    ]
  ]

  -- The usages of what is withdrawn lose their lots.
  abbrev pub Forgets : ℕ → Db → Db → Type 0
  Forgets id db db' =
      drafts_view db'
      ≡ (db.supplies.productions, map (forget_lots id db.supplies.entries) db.supplies.usages)

  withdraw_supplies-Forgets :
      (id : ℕ) (db : Db) → Ensures (λ _ db'. Forgets id db db') (withdraw_supplies id db)
  unfolding withdraw_supplies
  withdraw_supplies-Forgets id db = elim (Bool-cases (some_consumed id db.supplies.entries)) [
    | inl e ↦ rw (e, Ensures) tt
    | inr e ↦
        let moves = keep_if (of_supply_purchase id) db.supplies.supply_movements in
        let sync = λ (m : SupplyMovement). sync_quantity m.stock_id in
        rw e (
          Ensures-bind (λ _ db'. Forgets id db db') (λ _ db'. Forgets id db db')
            (for_each moves sync) _ _
            (Keeps-for_each drafts_view moves sync (λ m. sync_quantity-Keeps m.stock_id) _)
            (λ _ db' q. q))
  ]

  pub remove_supply_purchase-Forgets :
      (tenant : Option ℕ) (user id : ℕ) (db : Db)
      → Ensures (λ _ db'. Forgets id db db') (remove_supply_purchase tenant user id db)
  unfolding remove_supply_purchase find_own_supply_purchase
  remove_supply_purchase-Forgets none user id db = tt
  remove_supply_purchase-Forgets (some organization) user id db =
      elim (Option-cases (lookup id db.supplies.supply_purchases)) [
        | inl e ↦ rw (e, Ensures) tt
        | inr (p, e) ↦ elim (Bool-cases (p.organization_id == organization)) [
          | inr o ↦ rw (e, o, Ensures) tt
          | inl o ↦ elim (Bool-cases (is_cancelled p.status)) [
            | inl c ↦ rw (e, o, c, Ensures) tt
            | inr c ↦
                rw (e, o, c, Ensures)
                  (Ensures-bind (λ _ db'. Forgets id db db') (λ _ db'. Forgets id db db')
                    (withdraw_supplies id) _ db (withdraw_supplies-Forgets id db)
                    (λ _ db1 q.
                      Ensures-weaken _ _ (undo_supply_purchase p.status organization user id p db1)
                        (undo-Keeps p.status organization user id p db1) (λ _ db2 q'. q' ∙ q)))
          ]
        ]
      ]
