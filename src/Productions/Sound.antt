-- ===== src/Productions/Sound.antt =====
-- `create` and `complete` of `ProductionsService` and the state of the lots
-- (src/modules/productions/productions.service.ts).
use easy_point_api.Base.{
  Bool, Bool-cases, Option-cases, true, false, List, [], ◌∷◌, Option, none, some, ℕ, suc, ◌&&◌,
  ◌==◌, ◌≡◌, ◌++◌, map, refl, inl, inr, is_some, length, not,
}
use easy_point_api.Base.Int.{ℤ, pos, int_laws, ltb_ℤ}
use easy_point_api.Base.Table.{Table, lookup, insert}
use easy_point_api.Decimal.{Arith, RoundingLaws, of_number, to_column}
use easy_point_api.Inventory.{create_movements, find_stock, increment_quantity, principal}
use easy_point_api.Sales.Create.{belongs_to}
use easy_point_api.Supplies.Lots.{taken, used_of, AreUses, IsUse, HoldsLots, HasSoundLots}
use easy_point_api.Supplies.Steps.{next-HasLots, recount-HasLots}
use easy_point_api.Supplies.Kept.{next_of}
use easy_point_api.Supplies.Logic.{
  KeepsLots, KeepsLots-bind, KeepsLots-frame, KeepsLots-throw_if, supplies_view,
}
use easy_point_api.Productions.Consumption.{
  SupplyInput, check_supply, consume_supplies, own_supplies, stock_of_supply, is_measurable,
  in_packages,
}
use easy_point_api.Productions.Consumed.{AreExact, consume_supplies-HoldsLots}
use easy_point_api.Productions.Available.{AreUses-append, AreUses-left, AreUses-right}
use easy_point_api.Productions.Lifecycle.{
  owns, CreateProduction, add_produced, asks_draft, begin, cancel_production, create_production_run,
  create_usages, find_production, input_ids, intended, is_draft, is_sellable, process_completion,
  production_row, sold_product, store_product, stored_usage, update_production,
}
use easy_point_api.Database.{
  Db, Ensures, Ensures-bind, Keeps, Keeps-bind, Keeps-for_each, Production, Supply, SupplyUsage,
  for_each, insufficient_supply, no_units_available, throw_if-same, pure, throw_if, unprocessable,
  ◌>>◌,
}

module _ ⦃ar : Arith⦄ where
  -- Usages are stored as they are: what a lot gave has four decimal places.
  taken-stored :
      (j n : ℕ) (o : Option ℕ) (q : ℤ)
      → IsUse n o q
      → taken (belongs_to j o) (to_column q) ≡ taken (belongs_to j o) q
  taken-stored j n none q h = refl
  taken-stored j n (some id) q h = rw h.1

  used_of-stored :
      (j n production : ℕ) (us vs : List SupplyUsage)
      → AreUses n us
      → used_of j (map (stored_usage production) us ++ vs) ≡ used_of j (us ++ vs)
  used_of-stored j n production [] vs h = refl
  used_of-stored j n production (u ∷ us) vs h = rw (
    taken-stored j n u.supply_stock_entry_id u.quantity_used h.0,
    used_of-stored j n production us vs h.1,
  )

  AreUses-stored :
      (n production : ℕ) (us : List SupplyUsage)
      → AreUses n us
      → AreUses n (map (stored_usage production) us)
  AreUses-stored n production [] h = tt
  AreUses-stored n production (u ∷ us) h =
      (stored u.supply_stock_entry_id h.0, AreUses-stored n production us h.1)
    where
      stored : (o : Option ℕ) → IsUse n o u.quantity_used → IsUse n o (to_column u.quantity_used)
      stored none k = tt
      stored (some id) k = rw k.1 k

  -- The waiting usages are stored.
  create_usages-HasSoundLots :
      (production : ℕ) (rows : List SupplyUsage) (db : Db)
      → HoldsLots rows [] db
      → Ensures (λ _ db'. HasSoundLots db') (create_usages production rows db)
  unfolding create_usages
  create_usages-HasSoundLots production rows db h =
      let n = next_of db in
      let new = AreUses-left n rows db.supplies.usages h.uses in
      recount-HasLots h (map (stored_usage production) rows ++ db.supplies.usages)
        (AreUses-append n (map (stored_usage production) rows) db.supplies.usages
          (AreUses-stored n production rows new) (AreUses-right n rows db.supplies.usages h.uses))
        (λ j. used_of-stored j n production rows db.supplies.usages new)

  add_produced-Keeps :
      (organization product : ℕ) (quantity : ℤ)
      → Keeps supplies_view (add_produced organization product quantity)
  unfolding add_produced increment_quantity
  add_produced-Keeps organization product quantity db =
      elim (Option-cases (find_stock product principal db.stocks)) [
        | inl e ↦ rw (e, Ensures) refl
        | inr (id, e) ↦ elim (Option-cases (lookup id db.stocks)) [
          | inl e' ↦ rw (e, e', Ensures) tt
          | inr (s, e') ↦ rw (e, e', Ensures) refl
        ]
      ]

  pub store_product-Keeps :
      (organization user id : ℕ) (p : Production) (total : ℤ) (product : Option ℕ)
      → Keeps supplies_view (store_product organization user id p total product)
  unfolding store_product create_movements
  store_product-Keeps organization user id p total none db = refl
  store_product-Keeps organization user id p total (some product) db =
      Keeps-bind supplies_view (add_produced organization product p.quantity_produced) _
        (add_produced-Keeps organization product p.quantity_produced) (λ s db'. refl) db

  update_production-KeepsLots :
      (id : ℕ) (change : Production → Production) → KeepsLots (update_production id change)
  unfolding update_production
  update_production-KeepsLots id change db h =
      elim (Option-cases (lookup id db.supplies.productions)) [
        | inl e ↦ rw (e, Ensures) tt
        | inr (p, e) ↦ rw (e, Ensures) h
      ]

  pub find_production-KeepsLots :
      (tenant : Option ℕ) (id : ℕ) → KeepsLots (find_production tenant id)
  unfolding find_production
  find_production-KeepsLots tenant id db h =
      elim (Option-cases (lookup id db.supplies.productions)) [
        | inl e ↦ rw (e, Ensures) tt
        | inr (p, e) ↦ elim (Bool-cases (owns tenant p)) [
          | inl o ↦ rw (e, o, Ensures) h
          | inr o ↦ rw (e, o, Ensures) tt
        ]
      ]

  pub cancel_production-KeepsLots :
      (tenant : Option ℕ) (id : ℕ) → KeepsLots (cancel_production tenant id)
  unfolding cancel_production
  cancel_production-KeepsLots tenant id =
      KeepsLots-bind (find_production tenant id) _ (find_production-KeepsLots tenant id) (λ p.
        KeepsLots-bind (throw_if (not (is_draft p.status)) _) _
          (KeepsLots-throw_if (not (is_draft p.status)) _) (λ _. update_production-KeepsLots id _))

  -- The validation only reads.
  pub check_supply-same :
      (organization : ℕ) (supplies : Table Supply) (i : SupplyInput)
      → Keeps (λ (db : Db). db) (check_supply organization supplies i)
  unfolding check_supply
  check_supply-same organization supplies i db = elim (Option-cases (lookup i.supply_id supplies)) [
    | inl e ↦ rw (e, Ensures) tt
    | inr (s, e) ↦
        elim (Option-cases (stock_of_supply organization i.supply_id db.supplies.supply_stocks)) [
          | inl e' ↦ rw (e, e', Ensures) tt
          | inr (stock, e') ↦
              let t1 =
                is_measurable s.unit_of_measure
                && ltb_ℤ stock.1.quantity (in_packages s i.quantity_used) in
              let t2 =
                not (is_measurable s.unit_of_measure) && ltb_ℤ stock.1.quantity (of_number 1) in
              rw (e, e')
                (Keeps-bind (λ (d : Db). d) (throw_if t1 (unprocessable insufficient_supply))
                  (λ _. throw_if t2 (unprocessable no_units_available))
                  (throw_if-same t1 (unprocessable insufficient_supply))
                  (λ _. throw_if-same t2 (unprocessable no_units_available)) db)
        ]
  ]

module _ ⦃ar : Arith⦄ (laws : RoundingLaws ar) where
  pub process_completion-HasSoundLots :
      (organization user id : ℕ) (p : Production) (inputs : List SupplyInput) (db : Db)
      → HasSoundLots db
      → AreExact (own_supplies organization (input_ids inputs) db.supplies.supply_table) inputs
      → Ensures (λ _ db'. HasSoundLots db') (process_completion organization user id p inputs db)
  unfolding process_completion
  process_completion-HasSoundLots organization user id p inputs db h exact_uses =
      let supplies = own_supplies organization (input_ids inputs) db.supplies.supply_table in
      Ensures-bind (λ _ db'. db' ≡ db) (λ _ db'. HasSoundLots db')
        (for_each inputs (check_supply organization supplies)) _ db
        (Keeps-for_each (λ (d : Db). d) inputs (check_supply organization supplies)
          (λ i. check_supply-same organization supplies i) db)
        (λ _ db1 same.
          Ensures-bind (λ acc db'. HoldsLots acc.1 [] db') (λ _ db'. HasSoundLots db')
            (consume_supplies organization user id supplies inputs (pos 0, [])) _ db1
            (consume_supplies-HoldsLots laws organization user id supplies inputs (pos 0, []) db1
              (rw same h) exact_uses)
            (λ acc db2 h2.
              Ensures-bind (λ _ db'. HasSoundLots db') (λ _ db'. HasSoundLots db')
                (create_usages id acc.1) _ db2 (create_usages-HasSoundLots id acc.1 db2 h2)
                (λ _ db3 h3.
                  KeepsLots-bind (store_product organization user id p acc.0 (sold_product p)) _
                    (KeepsLots-frame (store_product organization user id p acc.0 (sold_product p))
                      (store_product-Keeps organization user id p acc.0 (sold_product p)))
                    (λ _. update_production-KeepsLots id _) db3 h3)))

  -- What a draft intends to use takes nothing.
  used_of-intended :
      (j id : ℕ) (inputs : List SupplyInput) (us : List SupplyUsage)
      → used_of j (map (intended id) inputs ++ us) ≡ used_of j us
  used_of-intended j id [] us = refl
  used_of-intended j id (i ∷ inputs) us = rw (used_of-intended j id inputs us) (omega int_laws)

  AreUses-intended : (n id : ℕ) (inputs : List SupplyInput) → AreUses n (map (intended id) inputs)
  AreUses-intended n id [] = tt
  AreUses-intended n id (i ∷ inputs) = (tt, AreUses-intended n id inputs)

  -- A run of either kind, from a state with the new production.
  begin-HasSoundLots :
      (organization user id : ℕ) (row : Production) (inputs : List SupplyInput) (drafted : Bool)
      (db : Db)
      → HasSoundLots db
      → AreExact (own_supplies organization (input_ids inputs) db.supplies.supply_table) inputs
      → Ensures
          (λ _ db'. HasSoundLots db')
          ((begin drafted organization user id row inputs >> pure id) db)
  unfolding begin
  begin-HasSoundLots organization user id row inputs true db h exact_uses =
      let rows = map (intended id) inputs in
      Ensures-bind (λ _ db'. HasSoundLots db') (λ _ db'. HasSoundLots db') (create_usages id rows) _
        db
        (create_usages-HasSoundLots id rows db (
          recount-HasLots h (rows ++ db.supplies.usages)
            (AreUses-append (next_of db) rows db.supplies.usages
              (AreUses-intended (next_of db) id inputs) h.uses)
            (λ j. used_of-intended j id inputs db.supplies.usages)))
        (λ _ db' p. p)
  begin-HasSoundLots organization user id row inputs false db h exact_uses =
      Ensures-bind (λ _ db'. HasSoundLots db') (λ _ db'. HasSoundLots db')
        (process_completion organization user id row inputs) _ db
        (process_completion-HasSoundLots organization user id row inputs db h exact_uses)
        (λ _ db' p. p)

  pub create_production_run-HasSoundLots :
      (organization user : ℕ) (dto : CreateProduction) (db : Db)
      → HasSoundLots db
      → AreExact
          (own_supplies organization (input_ids dto.supplies) db.supplies.supply_table)
          dto.supplies
      → Ensures (λ _ db'. HasSoundLots db') (create_production_run (some organization) user dto db)
  unfolding create_production_run
  create_production_run-HasSoundLots organization user dto db h exact_uses =
      let supplies = own_supplies organization (input_ids dto.supplies) db.supplies.supply_table in
      let row = production_row organization user dto in
      let id = next_of db in
      let db1 : Db = record db {
        supplies = record db.supplies {
          next_supply_id = suc id;
          productions = insert id row db.supplies.productions;
        };
      } in
      elim (Bool-cases (is_sellable dto.kind && not (is_some dto.product_id))) [
        | inl e ↦ rw (e, Ensures) tt
        | inr e ↦ elim (Bool-cases (length supplies == length dto.supplies)) [
          | inl m ↦
              rw (e, m, Ensures)
                (begin-HasSoundLots organization user id row dto.supplies (asks_draft dto.status)
                  db1 (next-HasLots h) exact_uses)
          | inr m ↦ rw (e, m, Ensures) tt
        ]
      ]
