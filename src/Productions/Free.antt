-- ===== src/Productions/Free.antt =====
-- The operations on productions and the usages of those that are not completed
-- (src/modules/productions/productions.service.ts).
use easy_point_api.Base.{
  Bool, Bool-cases, Option, Option-cases, true, false, List, [], ◌∷◌, none, some, ℕ, suc, ◌==◌,
  ==_refl, ◌≡◌, refl, ap, sym, subst, ◌∙◌, inl, inr, not, length, map, keep_if, is_some, ◌&&◌,
}
use easy_point_api.Base.Int.{ℤ}
use easy_point_api.Base.Table.{Table, lookup, insert, delete, lookup-insert}
use easy_point_api.Decimal.{Arith}
use easy_point_api.Supplies.{sync_quantity}
use easy_point_api.SupplyPurchases.Steps.{drafts_view, drafts_within, sync_quantity-Keeps}
use easy_point_api.Productions.Consumption.{SupplyInput, own_supplies}
use easy_point_api.Productions.Lifecycle.{
  owns, CreateProduction, asks_draft, begin, cancel_production, complete_production,
  create_production_run, create_usages, find_production, input_ids, intended, is_draft, is_finished,
  is_sellable, of_production, process_completion, production_row, sold_product, stored_usage,
  update_production,
}
use easy_point_api.Productions.Removal.{
  refill_lot, refill_lots, remove_production, revert_production, take_back_product,
}
use easy_point_api.Productions.Refilled.{take_back_product-Keeps}
use easy_point_api.Productions.Completed.{inputs_of, others}
use easy_point_api.Productions.Drafts.{
  AreFree, AreFree-append, AreFree-delete, AreFree-insert, AreFree-others, AreFree-put,
  HasFreeDrafts, IsFree-none,
}
use easy_point_api.Database.{
  Ensures-weaken, Db, Ensures, Ensures-bind, Keeps, Keeps-bind, Keeps-for_each, Production,
  SupplyUsage, abandoned, for_each, pure, ◌>>◌,
}
use easy_point_api.Productions.Completion.{
  draft_open, Completion, process_completion-Completion, Completion-AreFree,
  process_completion-AreFree,
}

module _ ⦃ar : Arith⦄ where
  AreFree-intended :
      (id : ℕ) (ps : Table Production) (inputs : List SupplyInput)
      → AreFree ps (map (stored_usage id) (map (intended id) inputs))
  AreFree-intended id ps [] = tt
  AreFree-intended id ps (i ∷ inputs) = (IsFree-none (lookup id ps), AreFree-intended id ps inputs)

  begin-AreFree :
      (organization user id : ℕ) (row : Production) (inputs : List SupplyInput) (drafted : Bool)
      (db : Db)
      → lookup id db.supplies.productions ≡ some row
      → HasFreeDrafts db
      → Ensures
          (λ _ db'. HasFreeDrafts db')
          ((begin drafted organization user id row inputs >> pure id) db)
  unfolding begin create_usages
  begin-AreFree organization user id row inputs true db found free =
      AreFree-append db.supplies.productions (map (stored_usage id) (map (intended id) inputs))
        db.supplies.usages (AreFree-intended id db.supplies.productions inputs) free
  begin-AreFree organization user id row inputs false db found free =
      Ensures-bind (λ _ db'. HasFreeDrafts db') (λ _ db'. HasFreeDrafts db')
        (process_completion organization user id row inputs) _ db
        (process_completion-AreFree organization user id row row inputs db found free)
        (λ _ db' p. p)

  pub create_production_run-AreFree :
      (organization user : ℕ) (dto : CreateProduction) (db : Db)
      → lookup db.supplies.next_supply_id db.supplies.productions ≡ none
      → HasFreeDrafts db
      → Ensures (λ _ db'. HasFreeDrafts db') (create_production_run (some organization) user dto db)
  unfolding create_production_run
  create_production_run-AreFree organization user dto db unused free =
      let supplies = own_supplies organization (input_ids dto.supplies) db.supplies.supply_table in
      let row = production_row organization user dto in
      let id = db.supplies.next_supply_id in
      let ps = db.supplies.productions in
      let db1 : Db = record db {
        supplies = record db.supplies { next_supply_id = suc id; productions = insert id row ps };
      } in
      elim (Bool-cases (is_sellable dto.kind && not (is_some dto.product_id))) [
        | inl e ↦ rw (e, Ensures) tt
        | inr e ↦ elim (Bool-cases (length supplies == length dto.supplies)) [
          | inl m ↦
              rw (e, m, Ensures)
                (begin-AreFree organization user id row dto.supplies (asks_draft dto.status) db1
                  (rw (lookup-insert id id row ps, ==_refl id) refl)
                  (AreFree-insert id row ps db.supplies.usages unused free))
          | inr m ↦ rw (e, m, Ensures) tt
        ]
      ]

  -- A draft is completed: its usages are replaced.
  abbrev pub CompletedDraft : Option ℕ → ℕ → Db → Db → Type 0
  CompletedDraft tenant id db db' =
      (p : Production) × (owns tenant p ≡ true)
      × (lookup id db.supplies.productions ≡ some p)
      × (is_draft p.status ≡ true)
      × Completion id p db.supplies.productions (others id db.supplies.usages) db'

  pub complete_production-CompletedDraft :
      (tenant : Option ℕ) (user id : ℕ) (db : Db)
      → Ensures (λ _ db'. CompletedDraft tenant id db db') (complete_production tenant user id db)
  unfolding complete_production find_production
  complete_production-CompletedDraft none user id db = tt
  complete_production-CompletedDraft (some organization) user id db =
      let us = db.supplies.usages in
      let db1 : Db = record db { supplies = record db.supplies { usages = others id us } } in
      elim (Option-cases (lookup id db.supplies.productions)) [
        | inl e ↦ rw (e, Ensures) tt
        | inr (p, e) ↦ elim (Bool-cases (owns (some organization) p)) [
          | inr o ↦ rw (e, o, Ensures) tt
          | inl o ↦ elim (Bool-cases (is_draft p.status)) [
            | inr d ↦ rw (e, o, d, Ensures) tt
            | inl d ↦ elim (Bool-cases (length (keep_if (of_production id) us) == 0)) [
              | inl z ↦ rw (e, o, d, z, Ensures) tt
              | inr z ↦
                  let done =
                    Ensures-weaken _ (λ _ db'. CompletedDraft (some organization) id db db')
                      (process_completion organization user id p (inputs_of id us) db1)
                      (process_completion-Completion organization user id p p (inputs_of id us) db1
                        e)
                      (λ _ db' c. (p, o, e, d, c)) in
                  rw (e, o, d, z, Ensures) done
            ]
          ]
        ]
      ]

  pub complete_production-AreFree :
      (tenant : Option ℕ) (user id : ℕ) (db : Db)
      → HasFreeDrafts db
      → Ensures (λ _ db'. HasFreeDrafts db') (complete_production tenant user id db)
  complete_production-AreFree tenant user id db free =
      Ensures-weaken _ _ (complete_production tenant user id db)
        (complete_production-CompletedDraft tenant user id db)
        (λ _ db' (p, mine, found, d, c).
          Completion-AreFree id p db.supplies.productions (others id db.supplies.usages) db' found
            (AreFree-others id db.supplies.productions db.supplies.usages free) c)

  pub cancel_production-AreFree :
      (tenant : Option ℕ) (id : ℕ) (db : Db)
      → HasFreeDrafts db
      → Ensures (λ _ db'. HasFreeDrafts db') (cancel_production tenant id db)
  unfolding cancel_production find_production update_production
  cancel_production-AreFree tenant id db free =
      elim (Option-cases (lookup id db.supplies.productions)) [
        | inl e ↦ rw (e, Ensures) tt
        | inr (p, e) ↦ elim (Bool-cases (owns tenant p)) [
          | inr o ↦ rw (e, o, Ensures) tt
          | inl o ↦ elim (Bool-cases (is_draft p.status)) [
            | inr d ↦ rw (e, o, d, Ensures) tt
            | inl d ↦
                rw (e, o, d, Ensures)
                  (rw (e, Ensures)
                    (AreFree-put id p (record p { status = abandoned }) db.supplies.productions
                      db.supplies.usages e (sym (draft_open p.status d)) free))
          ]
        ]
      ]

  refill_lot-Keeps :
      (q : ℤ) (affected : List ℕ) (o : Option ℕ) → Keeps drafts_view (refill_lot q affected o)
  unfolding refill_lot
  refill_lot-Keeps q affected none = λ db. refl
  refill_lot-Keeps q affected (some lot) = λ db.
      elim (Option-cases (lookup lot db.supplies.entries)) [
        | inl e ↦ rw (e, Ensures) refl
        | inr (x, e) ↦ rw (e, Ensures) refl
      ]

  refill_lots-Keeps :
      (us : List SupplyUsage) (affected : List ℕ) → Keeps drafts_view (refill_lots us affected)
  unfolding refill_lots
  refill_lots-Keeps [] affected = λ db. refl
  refill_lots-Keeps (u ∷ us) affected =
      Keeps-bind drafts_view (refill_lot u.quantity_used affected u.supply_stock_entry_id)
        (λ affected'. refill_lots us affected')
        (refill_lot-Keeps u.quantity_used affected u.supply_stock_entry_id)
        (λ affected'. refill_lots-Keeps us affected')

  revert_production-AreFree :
      (id : ℕ) (p : Production) (db : Db)
      → HasFreeDrafts db
      → Ensures (λ _ db'. HasFreeDrafts db') (revert_production id p db)
  unfolding revert_production
  revert_production-AreFree id p db free =
      let us = db.supplies.usages in
      Ensures-bind (λ _ db'. drafts_view db' ≡ drafts_view db) (λ _ db'. HasFreeDrafts db')
        (take_back_product id p.quantity_produced (sold_product p)) _ db
        (drafts_within (take_back_product id p.quantity_produced (sold_product p))
          (take_back_product-Keeps id p.quantity_produced (sold_product p)) db)
        (λ _ db1 e.
          Ensures-bind (λ _ db'. drafts_view db' ≡ drafts_view db1) (λ _ db'. HasFreeDrafts db')
            (refill_lots (keep_if (of_production id) db1.supplies.usages) []) _ _
            (refill_lots-Keeps (keep_if (of_production id) db1.supplies.usages) [] _)
            (λ affected db2 e'.
              let h : drafts_view db2 ≡ drafts_view db = e' ∙ e in
              let db3 : Db = record db2 {
                supplies = record db2.supplies { usages = others id db2.supplies.usages };
              } in
              Ensures-bind (λ _ db'. drafts_view db' ≡ drafts_view db3) (λ _ db'. HasFreeDrafts db')
                (for_each affected sync_quantity) _ db3
                (Keeps-for_each drafts_view affected sync_quantity (λ k. sync_quantity-Keeps k) db3)
                (λ _ db4 e''.
                  let k : drafts_view db4 ≡ (db.supplies.productions, others id us) =
                    e'' ∙ ap (λ v. (v.0, others id v.1)) h in
                  subst (λ v. AreFree (delete id v.0) v.1) (sym k)
                    (AreFree-delete id db.supplies.productions us free))))

  pub remove_production-AreFree :
      (tenant : Option ℕ) (id : ℕ) (db : Db)
      → HasFreeDrafts db
      → Ensures (λ _ db'. HasFreeDrafts db') (remove_production tenant id db)
  unfolding remove_production find_production
  remove_production-AreFree tenant id db free =
      elim (Option-cases (lookup id db.supplies.productions)) [
        | inl e ↦ rw (e, Ensures) tt
        | inr (p, e) ↦ elim (Bool-cases (owns tenant p)) [
          | inr o ↦ rw (e, o, Ensures) tt
          | inl o ↦ elim (Bool-cases (is_finished p.status)) [
            | inl f ↦ rw (e, o, f, Ensures) (revert_production-AreFree id p db free)
            | inr f ↦
                rw (e, o, f, Ensures)
                  (AreFree-delete id db.supplies.productions db.supplies.usages free)
          ]
        ]
      ]
