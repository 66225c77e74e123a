-- ===== src/Inventory/Manual.antt =====
-- The manual movements of src/modules/inventory-movements/inventory-movements.service.ts, one and
-- two at a time.
use mathlib.Core.Option.{some-injective}
use easy_point_api.Base.{
  ==_iff, Bool-cases, Option-cases, arith, if◌then◌else◌, inl, inr, none, not, refl, some, ℕ, ⊤,
  ◌==◌, ◌||◌, ◌∷◌, ◌≡◌, subst, sym, ◌∙◌, ==_refl, ap,
}
use easy_point_api.Inventory.{
  MathOperation, MovementRequest, add, apply_movement, create_movements, prepare_movement,
  process_movement, subtract, write_movement, write_quantity,
}
use easy_point_api.Decimal.{Arith, IsColumn, RoundingLaws, to_column}
use easy_point_api.Base.Table.{Table, lookup, lookup-put_ne, lookup-put_self, put}
use easy_point_api.Base.Int.{int_laws, neg, ℤ, ◌+ℤ◌, ◌-ℤ◌}
use easy_point_api.Base.Table.Rows.{AllRows, AllRows-lookup}
use easy_point_api.Database.{
  Db, Ensures, Ensures-bind, Movement, MovementType, Stock, ok, bind-ok, Ensures-ok, Result, ◌>>◌,
}
use easy_point_api.Inventory.Balance.{
  HasStoredQuantity, moved, opening_stock, quantity_of, signed_quantity,
}

-- What the operation adds to the quantity.
abbrev pub delta : MathOperation → ℤ → ℤ
delta add q = q
delta subtract q = neg q

apply_movement-delta : (op : MathOperation) (a q : ℤ) → apply_movement op a q ≡ a +ℤ delta op q
apply_movement-delta add a q = refl
apply_movement-delta subtract a q = omega int_laws

module _ ⦃ar : Arith⦄ where
  abbrev pub manual_row : ℕ → ℕ → MovementRequest → MovementType → Movement
  manual_row organization user dto kind = record {
    organization_id = organization;
    product_id = dto.product_id;
    stock_id = dto.stock_id;
    quantity = to_column dto.quantity;
    unit_cost = none;
    kind = kind;
    sale_id = none;
    product_purchase_id = none;
    production_id = none;
    performed_by = user;
  }

  abbrev Prepares : MovementRequest → MathOperation → Db → Stock → Db → Type 0
  Prepares dto op db st db' =
      (db' ≡ db)
      × (a : Stock) × (lookup dto.stock_id db.stocks ≡ some a)
      × (st ≡ record a { quantity = apply_movement op a.quantity dto.quantity })

  prepare_movement-Prepares :
      (organization : ℕ) (dto : MovementRequest) (op : MathOperation) (db : Db)
      → Ensures (Prepares dto op db) (prepare_movement organization dto op db)
  unfolding prepare_movement
  prepare_movement-Prepares organization dto op db =
      elim (Option-cases (lookup dto.stock_id db.stocks)) [
        | inl e ↦ rw (e, Ensures) tt
        | inr (a, e) ↦
            elim (Bool-cases
              (not (a.organization_id == organization) || not (a.product_id == dto.product_id))) [
                | inl h ↦ rw (e, h, Ensures) tt
                | inr h ↦ rw (e, h, Ensures) (refl, a, e, refl)
              ]
      ]

  -- The database after the write of quantity `q` to the record, that was `a`.
  abbrev overwritten : ℕ → ℕ → MovementRequest → MovementType → Stock → ℤ → Db → Db
  overwritten organization user dto kind a q db = record db {
    stocks = put dto.stock_id (record a { quantity = to_column q }) db.stocks;
    movements = manual_row organization user dto kind ∷ db.movements;
  }

  write_quantity-found :
      (id : ℕ) (q : ℤ) (a : Stock) (db : Db)
      → lookup id db.stocks ≡ some a
      → write_quantity id q db
        ≡ ok (tt, record db { stocks = put id (record a { quantity = to_column q }) db.stocks })
  unfolding write_quantity
  write_quantity-found id q a db e = ground arith

  write_movement_lem :
      (organization user : ℕ) (dto : MovementRequest) (kind : MovementType) (st a : Stock) (db : Db)
      → lookup dto.stock_id db.stocks ≡ some a
      → write_movement organization user dto kind st db
        ≡ ok (tt, overwritten organization user dto kind a st.quantity db)
  unfolding write_movement create_movements
  write_movement_lem organization user dto kind st a db e =
      bind-ok _ (write_quantity dto.stock_id st.quantity) tt db _
        (write_quantity-found dto.stock_id st.quantity a db e)

  quantity_of-overwritten :
      (s id : ℕ) (a b : Stock) (t : Table Stock)
      → lookup id t ≡ some a
      → quantity_of (lookup s (put id b t))
        ≡ (if s == id then b.quantity else quantity_of (lookup s t))
  quantity_of-overwritten s id a b t found = elim (Bool-cases (s == id)) [
    | inl e ↦
        let p : s ≡ id = (==_iff s id).0 e in rw (e, p, lookup-put_self id {w = a} b t found) refl
    | inr e ↦ rw (e, lookup-put_ne s id b t (ground arith)) refl
  ]

module _ ⦃ar : Arith⦄ (laws : RoundingLaws ar) where
  delta-stored :
      (op : MathOperation) (a q : ℤ) → IsColumn a → IsColumn q → IsColumn (apply_movement op a q)
  delta-stored add a q h k = laws.add_stored a q h k
  delta-stored subtract a q h k = laws.sub_stored a q h k

  -- If a manual movement of a quantity that a column holds exactly is processed alone and
  -- succeeds, of a kind that its operation suits, then for every stock record the quantity less
  -- what its recorded movements have moved is as before.
  pub process_movement-opening_stock :
      (organization user : ℕ) (dto : MovementRequest) (kind : MovementType) (op : MathOperation)
      (s : ℕ) (db : Db)
      → AllRows HasStoredQuantity db.stocks
      → IsColumn dto.quantity
      → signed_quantity kind dto.quantity ≡ delta op dto.quantity
      → Ensures
          (λ _ db'. opening_stock s db' ≡ opening_stock s db)
          (process_movement organization user dto kind op db)
  unfolding process_movement opening_stock
  process_movement-opening_stock organization user dto kind op s db stored exact_quantity agrees =
      let Q = λ (_ : ⊤) (c : Db).
        quantity_of (lookup s c.stocks) -ℤ moved s c.movements
        ≡ quantity_of (lookup s db.stocks) -ℤ moved s db.movements in
      Ensures-bind (Prepares dto op db) Q (prepare_movement organization dto op) _ db
        (prepare_movement-Prepares organization dto op db)
        λ st b (same, a, found, e). rw same (
          let q = apply_movement op a.quantity dto.quantity in
          let kept : IsColumn q =
            delta-stored op a.quantity dto.quantity
              (AllRows-lookup HasStoredQuantity dto.stock_id db.stocks stored found)
              exact_quantity in
          rw (write_movement_lem organization user dto kind st a db found, Ensures)
            (elim (Bool-cases (s == dto.stock_id)) [
              | inl h ↦
                  let p : s ≡ dto.stock_id = (==_iff s dto.stock_id).0 h in
                  let at : lookup s db.stocks ≡ some a = rw p found in
                  rw
                    (
                      e,
                      quantity_of-overwritten s dto.stock_id a (record a { quantity = to_column q })
                          db.stocks found,
                      h,
                      kept,
                      exact_quantity,
                      agrees,
                      apply_movement-delta op a.quantity dto.quantity,
                      at,
                    )
                    (omega int_laws)
              | inr h ↦
                  rw
                    (
                      e,
                      quantity_of-overwritten s dto.stock_id a (record a { quantity = to_column q })
                          db.stocks found,
                      h,
                    )
                    (omega int_laws)
            ]))

  -- If two manual movements, of quantities that a column holds exactly and of kinds that their
  -- operations suit, have both read the same stock record before either has written it, and both
  -- writes succeed, then the change of the first is lost: the quantity less what the recorded
  -- movements have moved is smaller by that change.
  pub write_movement-write_movement :
      (organization user user' : ℕ) (dto dto' : MovementRequest) (kind kind' : MovementType)
      (op op' : MathOperation) (st st' : Stock) (db : Db)
      → AllRows HasStoredQuantity db.stocks
      → IsColumn dto.quantity
      → IsColumn dto'.quantity
      → signed_quantity kind dto.quantity ≡ delta op dto.quantity
      → signed_quantity kind' dto'.quantity ≡ delta op' dto'.quantity
      → dto'.stock_id ≡ dto.stock_id
      → prepare_movement organization dto op db ≡ ok (st, db)
      → prepare_movement organization dto' op' db ≡ ok (st', db)
      → Ensures
          (λ _ c.
            opening_stock dto.stock_id c ≡ opening_stock dto.stock_id db -ℤ delta op dto.quantity)
          ((write_movement organization user dto kind st
              >> write_movement organization user' dto' kind' st')
            db)
  unfolding opening_stock
  write_movement-write_movement organization user user' dto dto' kind kind' op op' st st' db stored
        c c' agrees agrees' same read read' =
      let id = dto.stock_id in
      let (_, a, found, e) =
        Ensures-ok (Prepares dto op db) _ st db (prepare_movement-Prepares organization dto op db)
          read in
      let (_, a', found', e') =
        Ensures-ok (Prepares dto' op' db) _ st' db
          (prepare_movement-Prepares organization dto' op' db) read' in
      let at' : lookup id db.stocks ≡ some a' = rw (← same) found' in
      let one : a' ≡ a = some-injective a' a (sym at' ∙ found) in
      let b = overwritten organization user dto kind a st.quantity db in
      let row = record a { quantity = to_column st.quantity } in
      let now : lookup id b.stocks ≡ some row = lookup-put_self id {w = a} row db.stocks found in
      let kept : IsColumn (apply_movement op' a'.quantity dto'.quantity) =
        delta-stored op' a'.quantity dto'.quantity
          (AllRows-lookup HasStoredQuantity id db.stocks stored at') c' in
      let Q = λ (_ : ⊤) (d : Db).
        quantity_of (lookup id d.stocks) -ℤ moved id d.movements
        ≡ (quantity_of (lookup id db.stocks) -ℤ moved id db.movements) -ℤ delta op dto.quantity in
      subst (λ (r : Result (⊤ × Db)). Ensures Q r)
        (sym (
          bind-ok _ (write_movement organization user dto kind st) tt db b
            (write_movement_lem organization user dto kind st a db found)
          ∙ write_movement_lem organization user' dto' kind' st' row b (rw same now)))
        (let final : to_column st'.quantity ≡ a.quantity +ℤ delta op' dto'.quantity =
            ap (λ (r : Stock). to_column r.quantity) e'
            ∙ kept
            ∙ apply_movement-delta op' a'.quantity dto'.quantity
            ∙ ap (λ (r : Stock). r.quantity +ℤ delta op' dto'.quantity) one in
          rw
            (
              same,
              quantity_of-overwritten id id row (record row { quantity = to_column st'.quantity })
                  b.stocks now,
              ==_refl id,
              final,
              c,
              c',
              agrees,
              agrees',
              found,
            )
            (omega int_laws))
