-- ===== src/Productions/Taken.antt =====
-- A production takes from the lots of a stock, the oldest first
-- (src/modules/productions/productions.service.ts).
use easy_point_api.Base.{
  Bool, Bool-cases, true, false, List, [], ◌∷◌, ◌++◌, some, ℕ, ◌==◌, ==_iff, ==_refl, ◌≡◌, refl,
  subst, arith, inl, inr,
}
use easy_point_api.Base.Int.{ℤ, pos, ◌+ℤ◌, ◌-ℤ◌, ◌≤ℤ◌, int_laws, is_zero, leb_ℤ, ltb_ℤ}
use easy_point_api.Base.Table.{Table, lookup, put}
use easy_point_api.Base.Table.Rows.{AllRows-lookup}
use easy_point_api.Base.Table.Fresh.{AreIn-put, KeysBelow-lookup}
use easy_point_api.Decimal.{Arith, IsColumn, RoundingLaws, to_column, times}
use easy_point_api.Supplies.{consume, update_consumption}
use easy_point_api.Supplies.Lots.{used_of, IsLot, HasLots, HoldsLots}
use easy_point_api.Supplies.Steps.{put-HasLots}
use easy_point_api.Productions.Consumption.{
  Consumption, consume_part, consume_parts, consume_whole, consume_wholes, min_ℤ, usage_of,
}
use easy_point_api.Database.{
  Db, Ensures, Ensures-bind, StockEntry, SupplyMovement, SupplyStock, SupplyUsage,
}
use easy_point_api.Productions.Available.{
  Found, IsDue, AreUses-append, AreUses-left, AreUses-right, used_of-record,
}

module _ ⦃ar : Arith⦄ (laws : RoundingLaws ar) where
  -- A lot gives a quantity that it has.
  abbrev pub given : StockEntry → ℤ → Bool → StockEntry
  given e left exhausted = record e {
    remaining_quantity = to_column left;
    is_exhausted = exhausted;
  }

  take_lot-HasLots :
      (n : ℕ) (entries : Table StockEntry) (stocks : Table SupplyStock)
      (moves : List SupplyMovement) (records us : List SupplyUsage) (id : ℕ) (e : StockEntry)
      (a left : ℤ) (exhausted : Bool) (u : SupplyUsage)
      → HasLots n entries stocks moves (records ++ us) (e.supply_stock_id ∷ [])
      → lookup id entries ≡ some e
      → IsColumn a
      → pos 0 ≤ℤ a
      → pos 0 ≤ℤ left
      → left ≡ e.remaining_quantity -ℤ a
      → u.supply_stock_entry_id ≡ some id
      → u.quantity_used ≡ a
      → HasLots n
          (put id (given e left exhausted) entries)
          stocks
          moves
          ((records ++ u ∷ []) ++ us)
          (e.supply_stock_id ∷ [])
  take_lot-HasLots n entries stocks moves records us id e a left exhausted u h found column sign
        rest split lot quantity =
      let here : IsLot moves e = AllRows-lookup (IsLot moves) id {v = e} entries h.lots found in
      let stored : to_column left ≡ left =
        rw split (laws.sub_stored e.remaining_quantity a here.0 column) in
      let before : e.initial_quantity ≡ e.remaining_quantity +ℤ used_of id (records ++ us) =
        rw found at (h.accounted id) in
      put-HasLots h id e (given e left exhausted) ((records ++ u ∷ []) ++ us)
        (e.supply_stock_id ∷ []) found refl (laws.stored left, laws.keeps_sign left rest, here.2)
        (rw (used_of-record id id a u records us lot quantity, ==_refl id, stored, split, before)
          (omega int_laws))
        (AreUses-append n (records ++ u ∷ []) us
          (AreUses-append n records (u ∷ []) (AreUses-left n records us h.uses) (
            rw (lot, quantity) (KeysBelow-lookup n id {v = e} entries h.fresh found, column, sign),
            tt,
          ))
          (AreUses-right n records us h.uses))
        (λ j m.
          rw (used_of-record j id a u records us lot quantity, ==_sym id j m) (omega int_laws))
        (rw (==_refl e.supply_stock_id)) (λ k f. f)
    where
      ==_sym : (a b : ℕ) → (b == a) ≡ false → (a == b) ≡ false
      ==_sym a b h = ground arith

  min-IsColumn : (a b : ℤ) → IsColumn a → IsColumn b → IsColumn (min_ℤ a b)
  min-IsColumn a b h k = elim (Bool-cases (leb_ℤ a b)) [ inl m ↦ rw m h | inr m ↦ rw m k ]

  min_sign : (a b : ℤ) → pos 0 ≤ℤ a → pos 0 ≤ℤ b → pos 0 ≤ℤ min_ℤ a b
  min_sign a b h k = elim (Bool-cases (leb_ℤ a b)) [ inl m ↦ rw m h | inr m ↦ rw m k ]

  min_rest : (a b : ℤ) → (pos 0 ≤ℤ a -ℤ min_ℤ a b) × (pos 0 ≤ℤ b -ℤ min_ℤ a b)
  min_rest a b = elim (Bool-cases (leb_ℤ a b)) [
    | inl m ↦ let le : a ≤ℤ b = ground arith in rw m (omega int_laws, omega int_laws)
    | inr m ↦ let le : b ≤ℤ a = ground arith in rw m (omega int_laws, omega int_laws)
  ]

  -- After a round: one lot has changed, and its usage waits to be stored.
  abbrev pub Took : ℕ → ℕ → Db → Consumption → Db → Type 0
  Took stock id db c' db' =
      HoldsLots c'.records (stock ∷ []) db'
      × ((v : StockEntry) × (db'.supplies.entries ≡ put id v db.supplies.entries))

  take_lot-Took :
      (stock id : ℕ) (e : StockEntry) (a left : ℤ) (exhausted : Bool) (u : SupplyUsage)
      (records : List SupplyUsage) (db : Db)
      → HoldsLots records (stock ∷ []) db
      → lookup id db.supplies.entries ≡ some e
      → (e.supply_stock_id == stock) ≡ true
      → IsColumn a
      → pos 0 ≤ℤ a
      → pos 0 ≤ℤ left
      → left ≡ e.remaining_quantity -ℤ a
      → u.supply_stock_entry_id ≡ some id
      → u.quantity_used ≡ a
      → HasLots db.supplies.next_supply_id
          (put id (given e left exhausted) db.supplies.entries)
          db.supplies.supply_stocks
          db.supplies.supply_movements
          ((records ++ u ∷ []) ++ db.supplies.usages)
          (stock ∷ [])
  take_lot-Took stock id e a left exhausted u records db h found place column sign rest split lot
        quantity =
      let same : e.supply_stock_id ≡ stock = (==_iff e.supply_stock_id stock).0 place in
      subst
        (λ k.
          HasLots db.supplies.next_supply_id (put id (given e left exhausted) db.supplies.entries)
            db.supplies.supply_stocks db.supplies.supply_movements
            ((records ++ u ∷ []) ++ db.supplies.usages) (k ∷ []))
        same
        (take_lot-HasLots db.supplies.next_supply_id db.supplies.entries db.supplies.supply_stocks
          db.supplies.supply_movements records db.supplies.usages id e a left exhausted u
          (rw same h) found column sign rest split lot quantity)

  pub consume_part-Took :
      (production supply stock id : ℕ) (e : StockEntry) (c : Consumption) (db : Db)
      → HoldsLots c.records (stock ∷ []) db
      → lookup id db.supplies.entries ≡ some e
      → (e.supply_stock_id == stock) ≡ true
      → IsDue c.left
      → Ensures
          (λ c' db'. Took stock id db c' db' × IsDue c'.left)
          (consume_part production supply id e c db)
  unfolding consume_part consume update_consumption
  consume_part-Took production supply stock id e c db h found place due =
      let a = min_ℤ c.left e.remaining_quantity in
      let lot : IsLot db.supplies.supply_movements e =
        AllRows-lookup (IsLot db.supplies.supply_movements) id {v = e} db.supplies.entries h.lots
          found in
      let rests = min_rest c.left e.remaining_quantity in
      let column = min-IsColumn c.left e.remaining_quantity due.0 lot.0 in
      elim (Bool-cases e.is_exhausted) [
        | inl x ↦ rw (x, Ensures) tt
        | inr x ↦ elim (Bool-cases (ltb_ℤ e.remaining_quantity a)) [
          | inl m ↦ rw (x, m, Ensures) tt
          | inr m ↦
              rw (x, m, found, Ensures)
                (
                  (
                    take_lot-Took stock id e a (e.remaining_quantity -ℤ a)
                        (is_zero (e.remaining_quantity -ℤ a))
                        (usage_of production supply id e a (times e.unit_cost a)) c.records db h
                        found place column (min_sign c.left e.remaining_quantity due.1 lot.1)
                        rests.1 refl refl refl,
                    (
                      given e (e.remaining_quantity -ℤ a) (is_zero (e.remaining_quantity -ℤ a)),
                      refl,
                    ),
                  ),
                  (laws.sub_stored c.left a due.0 column, rests.0),
                )
        ]
      ]

  -- Nothing is left of a lot that is taken whole.
  consume_whole-Took :
      (production supply stock id : ℕ) (e : StockEntry) (c : Consumption) (db : Db)
      → HoldsLots c.records (stock ∷ []) db
      → lookup id db.supplies.entries ≡ some e
      → (e.supply_stock_id == stock) ≡ true
      → Ensures (λ c' db'. Took stock id db c' db') (consume_whole production supply id e c db)
  unfolding consume_whole consume update_consumption
  consume_whole-Took production supply stock id e c db h found place =
      let lot : IsLot db.supplies.supply_movements e =
        AllRows-lookup (IsLot db.supplies.supply_movements) id {v = e} db.supplies.entries h.lots
          found in
      elim (Bool-cases e.is_exhausted) [
        | inl x ↦ rw (x, Ensures) tt
        | inr x ↦
            rw (x, found, Ensures)
              (
                take_lot-Took stock id e e.remaining_quantity (pos 0) true
                    (usage_of production supply id e e.remaining_quantity
                      (times e.unit_cost e.remaining_quantity))
                    c.records db h found place lot.0 lot.1 (omega arith) (omega int_laws) refl refl,
                (given e (pos 0) true, refl),
              )
      ]

  -- The lots that are still to be visited stay as they were found.
  Found-rest :
      (stock id : ℕ) (e v : StockEntry) (es t t' : Table StockEntry)
      → Found stock ((id, e) ∷ es) t
      → t' ≡ put id v t
      → Found stock es t'
  Found-rest stock id e v es t t' f same = record {
    rows = rw same (AreIn-put id v es t f.unique.0 f.rows.1);
    unique = f.unique.1;
    located = f.located.1;
  }

  pub consume_parts-HoldsLots :
      (production supply stock : ℕ) (es : Table StockEntry) (c : Consumption) (db : Db)
      → HoldsLots c.records (stock ∷ []) db
      → Found stock es db.supplies.entries
      → IsDue c.left
      → Ensures
          (λ c' db'. HoldsLots c'.records (stock ∷ []) db')
          (consume_parts production supply es c db)
  unfolding consume_parts
  consume_parts-HoldsLots production supply stock [] c db h f due = h
  consume_parts-HoldsLots production supply stock ((id, e) ∷ es) c db h f due =
      elim (Bool-cases (is_zero c.left)) [
        | inl z ↦ rw (z, Ensures) h
        | inr z ↦
            rw (z, Ensures)
              (Ensures-bind (λ c' db'. Took stock id db c' db' × IsDue c'.left)
                (λ c' db'. HoldsLots c'.records (stock ∷ []) db')
                (consume_part production supply id e c)
                (λ c'. consume_parts production supply es c') db
                (consume_part-Took production supply stock id e c db h f.rows.0 f.located.0 due)
                (λ c' db' p.
                  consume_parts-HoldsLots production supply stock es c' db' p.0.0
                    (Found-rest stock id e p.0.1.0 es db.supplies.entries db'.supplies.entries f
                      p.0.1.1)
                    p.1))
      ]

  pub consume_wholes-HoldsLots :
      (production supply stock : ℕ) (es : Table StockEntry) (c : Consumption) (db : Db)
      → HoldsLots c.records (stock ∷ []) db
      → Found stock es db.supplies.entries
      → Ensures
          (λ c' db'. HoldsLots c'.records (stock ∷ []) db')
          (consume_wholes production supply es c db)
  unfolding consume_wholes
  consume_wholes-HoldsLots production supply stock [] c db h f = h
  consume_wholes-HoldsLots production supply stock ((id, e) ∷ es) c db h f =
      elim (Bool-cases (leb_ℤ c.left (pos 0))) [
        | inl z ↦ rw (z, Ensures) h
        | inr z ↦
            rw (z, Ensures)
              (Ensures-bind (λ c' db'. Took stock id db c' db')
                (λ c' db'. HoldsLots c'.records (stock ∷ []) db')
                (consume_whole production supply id e c)
                (λ c'. consume_wholes production supply es c') db
                (consume_whole-Took production supply stock id e c db h f.rows.0 f.located.0)
                (λ c' db' p. consume_wholes-HoldsLots production supply stock es c' db' p.0 (
                  Found-rest stock id e p.1.0 es db.supplies.entries db'.supplies.entries f p.1.1)))
      ]
