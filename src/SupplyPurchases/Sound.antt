-- ===== src/SupplyPurchases/Sound.antt =====
-- The operations of `SupplyPurchasesService` and the state of the lots
-- (src/modules/supply-purchases/supply-purchases.service.ts).
use easy_point_api.Base.{
  suc, arith, Bool-cases, Option, Option-cases, List, none, some, ℕ, ⊤, ◌==◌, refl, inl, inr, not,
  is_some, default_to, ◌&&◌,
}
use easy_point_api.Base.Table.{insert, lookup}
use easy_point_api.Base.Int.{◌+ℤ◌}
use easy_point_api.Decimal.{Arith, RoundingLaws, to_column}
use easy_point_api.FinancialTransactions.{TransactionParams, create_transaction}
use easy_point_api.Purchases.Lifecycle.{CompletePurchase, is_completed}
use easy_point_api.Sales.Frame.{create_transaction-Keeps}
use easy_point_api.Sales.Lifecycle.{is_cancelled, is_pending}
use easy_point_api.Supplies.Lots.{HasSoundLots}
use easy_point_api.Supplies.Steps.{next-HasLots}
use easy_point_api.Supplies.Kept.{next_of}
use easy_point_api.Supplies.Logic.{
  KeepsLots, KeepsLots-bind, KeepsLots-frame, KeepsLots-throw_if, supplies_view,
}
use easy_point_api.SupplyPurchases.Lines.{
  SupplyItem, get_or_create_supply_stocks, receive_supplies, supply_total,
}
use easy_point_api.SupplyPurchases.Received.{
  AreNatural, IsBelow, IsBelow-mono, get_or_create-Placed, receive_supplies-HoldsLots,
}
use easy_point_api.SupplyPurchases.Withdrawn.{withdraw_supplies-KeepsLots}
use easy_point_api.SupplyPurchases.Lifecycle.{
  CreateSupplyPurchase, add_supply_items, complete_supply_purchase, create_supply_purchase,
  find_own_supply_purchase, remove_supply_purchase, settle_supply_purchase, supply_purchase_row,
  supply_transaction, undo_supply_purchase, update_supply_purchase, withdraw_supplies,
}
use easy_point_api.Database.{
  Db, Ensures, Ensures-bind, Purchase, Status, already_cancelled, bad_request,
  bank_account_required, cancelled, completed, conflict, credit, not_pending, pending, pure, refund,
  Tx, throw_if, ◌>>◌,
}

module _ ⦃ar : Arith⦄ where
  create_transaction-KeepsLots :
      (params : TransactionParams) → KeepsLots (create_transaction params)
  create_transaction-KeepsLots params =
      KeepsLots-frame (create_transaction params)
        (create_transaction-Keeps supplies_view (λ db t x n. refl) params)

  update_supply_purchase-KeepsLots :
      (id : ℕ) (change : Purchase → Purchase) → KeepsLots (update_supply_purchase id change)
  unfolding update_supply_purchase
  update_supply_purchase-KeepsLots id change db h =
      elim (Option-cases (lookup id db.supplies.supply_purchases)) [
        | inl e ↦ rw (e, Ensures) tt
        | inr (p, e) ↦ rw (e, Ensures) h
      ]

  find_own_supply_purchase-KeepsLots :
      (organization id : ℕ) → KeepsLots (find_own_supply_purchase organization id)
  unfolding find_own_supply_purchase
  find_own_supply_purchase-KeepsLots organization id db h =
      elim (Option-cases (lookup id db.supplies.supply_purchases)) [
        | inl e ↦ rw (e, Ensures) tt
        | inr (p, e) ↦ elim (Bool-cases (p.organization_id == organization)) [
          | inl o ↦ rw (e, o, Ensures) h
          | inr o ↦ rw (e, o, Ensures) tt
        ]
      ]

  settle_supply_purchase-KeepsLots :
      (status : Status) (organization user id : ℕ) (dto : CreateSupplyPurchase)
      → KeepsLots (settle_supply_purchase status organization user id dto)
  unfolding settle_supply_purchase
  settle_supply_purchase-KeepsLots completed organization user id dto =
      KeepsLots-bind (create_transaction _) _ (create_transaction-KeepsLots _)
        (λ t. update_supply_purchase-KeepsLots id (λ p. record p { transaction_id = some t }))
  settle_supply_purchase-KeepsLots _ organization user id dto = λ db h. h

  undo_supply_purchase-KeepsLots :
      (status : Status) (organization user id : ℕ) (p : Purchase)
      → KeepsLots (undo_supply_purchase status organization user id p)
  unfolding undo_supply_purchase
  undo_supply_purchase-KeepsLots pending organization user id p = λ db h. h
  undo_supply_purchase-KeepsLots cancelled organization user id p = λ db h. h
  undo_supply_purchase-KeepsLots completed organization user id p = λ db h.
      elim (Option-cases p.transaction_id) [
        | inl e ↦ rw (e, Ensures) tt
        | inr (t, e) ↦ elim (Option-cases (lookup t db.transactions)) [
          | inl e' ↦ rw (e, e', Ensures) tt
          | inr (original, e') ↦
              let params =
                supply_transaction credit refund organization user id original.bank_account_id
                  p.total_amount in
              rw (e, e')
                (KeepsLots-bind (create_transaction params)
                  (λ _. update_supply_purchase id (λ x. record x { status = cancelled }))
                  (create_transaction-KeepsLots params)
                  (λ _. update_supply_purchase-KeepsLots id (λ x. record x { status = cancelled }))
                  db h)
        ]
      ]

  -- What follows a step that leaves the lots sound.
  KeepsLots-then :
      {A : Type 0} (a : A) (m k : Tx ⊤) (db : Db)
      → Ensures (λ _ db'. HasSoundLots db') (m db)
      → KeepsLots k
      → Ensures (λ _ db'. HasSoundLots db') ((m >> (k >> pure a)) db)
  KeepsLots-then a m k db h next =
      Ensures-bind (λ _ db'. HasSoundLots db') (λ _ db'. HasSoundLots db') m (λ _. k >> pure a) db h
        (λ _ db1 h1.
          Ensures-bind (λ _ db'. HasSoundLots db') (λ _ db'. HasSoundLots db') k (λ _. pure a) db1
            (next db1 h1) (λ _ db2 h2. h2))

module _ ⦃ar : Arith⦄ (laws : RoundingLaws ar) where
  pub create_supply_purchase-HasSoundLots :
      (tenant : Option ℕ) (user : ℕ) (dto : CreateSupplyPurchase) (db : Db)
      → AreNatural dto.items
      → HasSoundLots db
      → Ensures (λ _ db'. HasSoundLots db') (create_supply_purchase tenant user dto db)
  unfolding create_supply_purchase
  create_supply_purchase-HasSoundLots none user dto db natural h = tt
  create_supply_purchase-HasSoundLots (some organization) user dto db natural h =
      let status = default_to dto.status completed in
      KeepsLots-bind
        (throw_if (is_completed status && not (is_some dto.bank_account_id))
          (bad_request bank_account_required))
        _ (KeepsLots-throw_if (is_completed status && not (is_some dto.bank_account_id)) _)
        (λ _ db1 h1.
          Ensures-bind (λ m db'. HasSoundLots db' × IsBelow (next_of db') m)
            (λ _ db'. HasSoundLots db') (get_or_create_supply_stocks organization dto.items) _ db1
            (get_or_create-Placed laws organization dto.items db1 h1)
            (λ m db2 p.
              let id = next_of db2 in
              let db3 : Db = record db2 {
                supplies = record db2.supplies {
                  next_supply_id = suc id;
                  supply_purchases =
                      insert id (supply_purchase_row organization user status dto)
                        db2.supplies.supply_purchases;
                };
              } in
              KeepsLots-then id (receive_supplies organization user id m dto.items)
                (settle_supply_purchase status organization user id dto) db3
                (receive_supplies-HoldsLots laws organization user id m dto.items db3
                  (next-HasLots p.0) (IsBelow-mono id (suc id) m (omega arith) p.1) natural)
                (settle_supply_purchase-KeepsLots status organization user id dto)))
        db h

  pub complete_supply_purchase-KeepsLots :
      (tenant : Option ℕ) (user id : ℕ) (dto : CompletePurchase)
      → KeepsLots (complete_supply_purchase tenant user id dto)
  unfolding complete_supply_purchase
  complete_supply_purchase-KeepsLots none user id dto = λ db h. tt
  complete_supply_purchase-KeepsLots (some organization) user id dto =
      KeepsLots-bind (find_own_supply_purchase organization id) _
        (find_own_supply_purchase-KeepsLots organization id)
        (λ p.
          KeepsLots-bind (throw_if (not (is_pending p.status)) (conflict not_pending)) _
            (KeepsLots-throw_if (not (is_pending p.status)) _)
            (λ _.
              KeepsLots-bind (create_transaction _) _ (create_transaction-KeepsLots _)
                (λ t. update_supply_purchase-KeepsLots id _)))

  pub add_supply_items-HasSoundLots :
      (tenant : Option ℕ) (user id : ℕ) (items : List SupplyItem) (db : Db)
      → AreNatural items
      → HasSoundLots db
      → Ensures (λ _ db'. HasSoundLots db') (add_supply_items tenant user id items db)
  unfolding add_supply_items
  add_supply_items-HasSoundLots none user id items db natural h = tt
  add_supply_items-HasSoundLots (some organization) user id items db natural h =
      KeepsLots-bind (find_own_supply_purchase organization id) _
        (find_own_supply_purchase-KeepsLots organization id)
        (λ p.
          KeepsLots-bind (throw_if (not (is_pending p.status)) (conflict not_pending)) _
            (KeepsLots-throw_if (not (is_pending p.status)) _)
            (λ _ db1 h1.
              Ensures-bind (λ m db'. HasSoundLots db' × IsBelow (next_of db') m)
                (λ _ db'. HasSoundLots db') (get_or_create_supply_stocks organization items) _ db1
                (get_or_create-Placed laws organization items db1 h1)
                (λ m db2 q.
                  Ensures-bind (λ _ db'. HasSoundLots db') (λ _ db'. HasSoundLots db')
                    (receive_supplies organization user id m items)
                    (λ _. update_supply_purchase id (λ x. record x {
                      total_amount = to_column (p.total_amount +ℤ supply_total items);
                    }))
                    db2
                    (receive_supplies-HoldsLots laws organization user id m items db2 q.0 q.1
                      natural)
                    (λ _ db3 h3. update_supply_purchase-KeepsLots id _ db3 h3))))
        db h

  pub remove_supply_purchase-KeepsLots :
      (tenant : Option ℕ) (user id : ℕ) → KeepsLots (remove_supply_purchase tenant user id)
  unfolding remove_supply_purchase
  remove_supply_purchase-KeepsLots none user id = λ db h. tt
  remove_supply_purchase-KeepsLots (some organization) user id =
      KeepsLots-bind (find_own_supply_purchase organization id) _
        (find_own_supply_purchase-KeepsLots organization id)
        (λ p.
          KeepsLots-bind (throw_if (is_cancelled p.status) (conflict already_cancelled)) _
            (KeepsLots-throw_if (is_cancelled p.status) _)
            (λ _.
              KeepsLots-bind (withdraw_supplies id)
                (λ _. undo_supply_purchase p.status organization user id p)
                (withdraw_supplies-KeepsLots laws id)
                (λ _. undo_supply_purchase-KeepsLots p.status organization user id p)))
