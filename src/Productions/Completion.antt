-- ===== src/Productions/Completion.antt =====
-- What `processProductionCompletion` does to the productions and their usages
-- (src/modules/productions/productions.service.ts).
use easy_point_api.Base.{true, false, List, [], ◌++◌, some, ℕ, ◌≡◌, refl, ap, sym, subst, ◌∙◌, map}
use easy_point_api.Base.Int.{ℤ, pos}
use easy_point_api.Base.Table.{Table, lookup, put, lookup-put_self}
use easy_point_api.Decimal.{Arith, to_column}
use easy_point_api.SupplyPurchases.Steps.{drafts_view, drafts_within}
use easy_point_api.Productions.Consumption.{
  SupplyInput, check_supply, consume_supplies, own_supplies,
}
use easy_point_api.Productions.Lifecycle.{
  create_usages, input_ids, is_draft, is_finished, process_completion, sold_product, store_product,
  stored_usage, update_production,
}
use easy_point_api.Productions.Sound.{check_supply-same, store_product-Keeps}
use easy_point_api.Productions.Frame.{consume_supplies-Keeps}
use easy_point_api.Productions.Drafts.{
  AreFree, AreFree-append, AreFree-finish, AreFree-stored, HasFreeDrafts,
}
use easy_point_api.Database.{
  Ensures-weaken, Db, Ensures, Ensures-bind, Keeps-for_each, Production, ProductionStatus,
  SupplyUsage, abandoned, draft, finished, for_each,
}

pub draft_open : (s : ProductionStatus) → is_draft s ≡ true → is_finished s ≡ false
draft_open draft h = refl
draft_open finished h = cc
draft_open abandoned h = cc

module _ ⦃ar : Arith⦄ where
  abbrev pub Holds : Table Production → List SupplyUsage → Db → Type 0
  Holds ps us db = drafts_view db ≡ (ps, us)

  abbrev pub completed_row : Production → ℤ → Production
  completed_row p total = record p { status = finished; total_cost = to_column total }

  -- The production is completed at some cost, and some usages of it are stored.
  abbrev pub Completion : ℕ → Production → Table Production → List SupplyUsage → Db → Type 0
  Completion id p ps us db =
      (rows : List SupplyUsage) × (total : ℤ) × Holds (put id (completed_row p total) ps)
        (map (stored_usage id) rows ++ us) db

  finish-Completion :
      (id : ℕ) (p : Production) (ps : Table Production) (rows us : List SupplyUsage) (total : ℤ)
      (db : Db)
      → lookup id ps ≡ some p
      → Holds ps (map (stored_usage id) rows ++ us) db
      → Ensures
          (λ _ db'. Completion id p ps us db')
          (update_production id (λ x. completed_row x total) db)
  unfolding update_production
  finish-Completion id p ps rows us total db found h =
      let at : lookup id db.supplies.productions ≡ some p = ap (λ v. lookup id v.0) h ∙ found in
      rw (at, Ensures) (rows, total, ap (λ v. (put id (completed_row p total) v.0, v.1)) h)

  pub process_completion-Completion :
      (organization user id : ℕ) (p row : Production) (inputs : List SupplyInput) (db : Db)
      → lookup id db.supplies.productions ≡ some row
      → Ensures
          (λ _ db'. Completion id row db.supplies.productions db.supplies.usages db')
          (process_completion organization user id p inputs db)
  unfolding process_completion create_usages
  process_completion-Completion organization user id p row inputs db found =
      let supplies = own_supplies organization (input_ids inputs) db.supplies.supply_table in
      let ps = db.supplies.productions in
      let us = db.supplies.usages in
      Ensures-bind (λ _ db'. db' ≡ db) (λ _ db'. Completion id row ps us db')
        (for_each inputs (check_supply organization supplies)) _ db
        (Keeps-for_each (λ (d : Db). d) inputs (check_supply organization supplies)
          (λ i. check_supply-same organization supplies i) db)
        (λ _ db1 same.
          Ensures-bind (λ _ db'. drafts_view db' ≡ drafts_view db1)
            (λ _ db'. Completion id row ps us db')
            (consume_supplies organization user id supplies inputs (pos 0, [])) _ db1
            (consume_supplies-Keeps organization user id supplies inputs (pos 0, []) db1)
            (λ acc db2 e.
              let h : drafts_view db2 ≡ (ps, us) = e ∙ ap drafts_view same in
              let db3 : Db = record db2 {
                supplies = record db2.supplies {
                  usages = map (stored_usage id) acc.1 ++ db2.supplies.usages;
                };
              } in
              Ensures-bind (λ _ db'. drafts_view db' ≡ drafts_view db3)
                (λ _ db'. Completion id row ps us db')
                (store_product organization user id p acc.0 (sold_product p)) _ db3
                (drafts_within (store_product organization user id p acc.0 (sold_product p))
                  (store_product-Keeps organization user id p acc.0 (sold_product p)) db3)
                (λ _ db4 e'.
                  finish-Completion id row ps acc.1 us acc.0 db4 found
                    (e' ∙ ap (λ v. (v.0, map (stored_usage id) acc.1 ++ v.1)) h))))

  pub Completion-AreFree :
      (id : ℕ) (p : Production) (ps : Table Production) (us : List SupplyUsage) (db : Db)
      → lookup id ps ≡ some p
      → AreFree ps us
      → Completion id p ps us db
      → HasFreeDrafts db
  Completion-AreFree id p ps us db found free (rows, total, h) =
      let q = completed_row p total in
      subst (λ v. AreFree v.0 v.1) (sym h)
        (AreFree-append (put id q ps) (map (stored_usage id) rows) us
          (AreFree-stored id q (put id q ps) rows (lookup-put_self id {w = p} q ps found) refl)
          (AreFree-finish id p q ps us found refl free))

  pub process_completion-AreFree :
      (organization user id : ℕ) (p row : Production) (inputs : List SupplyInput) (db : Db)
      → lookup id db.supplies.productions ≡ some row
      → HasFreeDrafts db
      → Ensures (λ _ db'. HasFreeDrafts db') (process_completion organization user id p inputs db)
  process_completion-AreFree organization user id p row inputs db found free =
      Ensures-weaken _ _ (process_completion organization user id p inputs db)
        (process_completion-Completion organization user id p row inputs db found)
        (λ _ db' c.
          Completion-AreFree id row db.supplies.productions db.supplies.usages db' found free c)
