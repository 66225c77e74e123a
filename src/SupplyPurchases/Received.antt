-- ===== src/SupplyPurchases/Received.antt =====
-- The lines of a purchase of supplies and the state of the lots: the helpers of
-- src/modules/supply-purchases/supply-purchases.service.ts.
use easy_point_api.Base.{
  All, Bool, Bool-cases, true, false, List, [], ◌∷◌, ◌++◌, Option, none, some, ℕ, ◌<◌, ◌≤◌, ◌&&◌,
  ◌||◌, ◌==◌, ==_refl, ◌≡◌, refl, arith, any, inl, inr, is_some, length, map, default_to, subst,
  sym, ◌∙◌,
}
use easy_point_api.Base.Int.{ℤ, pos, ◌≤ℤ◌}
use easy_point_api.Inventory.{location_of}
use easy_point_api.Decimal.{Arith, RoundingLaws}
use easy_point_api.Sales.Items.{StockMap, no_id, stock_in}
use easy_point_api.Supplies.{
  create_supply_movements, stored_movement, sync_quantity, upsert_supply_stock,
}
use easy_point_api.Supplies.Lots.{HoldsLots, HasSoundLots, brings}
use easy_point_api.Supplies.Steps.{loosen-HasLots}
use easy_point_api.Supplies.Kept.{
  next_of, upsert-HoldsLots, create_entry-HoldsLots, sync_quantity-HoldsLots,
  create_supply_movements-HoldsLots,
}
use easy_point_api.SupplyPurchases.Lines.{
  SupplyItem, add_supply_stock, add_supply_stocks, create_lot, entry_of,
  get_or_create_supply_stocks, receive_supplies, receive_supply, supply_ids, supply_place,
  supply_purchase_movement, count_supplies,
}
use easy_point_api.Database.{
  Db, Ensures, Ensures-bind, Ensures-weaken, SupplyMovement, for_each, pure,
}

-- The stock ids of a map were drawn before.
abbrev pub IsBelow : ℕ → StockMap → Type 0
IsBelow n = All (λ (r : ℕ × ℕ × ℕ). r.2 < n)

pub IsBelow-mono : (n n' : ℕ) (m : StockMap) → n ≤ n' → IsBelow n m → IsBelow n' m
IsBelow-mono n n' [] le h = tt
IsBelow-mono n n' (r ∷ m) le h = (omega arith, IsBelow-mono n n' m le h.1)

place-below :
    (n supply location : ℕ) (m : StockMap)
    → 0 < n
    → IsBelow n m
    → default_to (stock_in supply location m) no_id < n
unfolding stock_in
place-below n supply location [] h b = h
place-below n supply location ((s, l, id) ∷ m) h b =
    elim (Bool-cases (s == supply && l == location)) [
      | inl e ↦ rw e b.0
      | inr e ↦ rw e (place-below n supply location m h b.1)
    ]

-- The quantities of the lines are not negative (`@Min(0.0001)`).
abbrev pub AreNatural : List SupplyItem → Type 0
AreNatural = All (λ (i : SupplyItem). pos 0 ≤ℤ i.quantity)

-- Each line has a movement.
abbrev AreBrought : List SupplyMovement → ℕ → StockMap → List SupplyItem → Type 0
AreBrought moves purchase m =
    All (λ (i : SupplyItem). any (brings purchase (supply_place m i)) moves ≡ true)

or_true : (a b : Bool) → b ≡ true → (a || b) ≡ true
or_true true b h = refl
or_true false b h = h

AreBrought-cons :
    (x : SupplyMovement) (moves : List SupplyMovement) (purchase : ℕ) (m : StockMap)
    (items : List SupplyItem)
    → AreBrought moves purchase m items
    → AreBrought (x ∷ moves) purchase m items
AreBrought-cons x moves purchase m [] h = tt
AreBrought-cons x moves purchase m (i ∷ items) h = (
  or_true (brings purchase (supply_place m i) x) _ h.0,
  AreBrought-cons x moves purchase m items h.1,
)

module _ ⦃ar : Arith⦄ where
  AreBrought-new :
      (organization user purchase : ℕ) (m : StockMap) (items : List SupplyItem)
      (old : List SupplyMovement)
      → AreBrought
          (map stored_movement (map (supply_purchase_movement organization user purchase m) items)
            ++ old)
          purchase
          m
          items
  AreBrought-new organization user purchase m [] old = tt
  AreBrought-new organization user purchase m (i ∷ items) old = (
    rw (==_refl purchase, ==_refl (supply_place m i)),
    AreBrought-cons (stored_movement (supply_purchase_movement organization user purchase m i))
        (map stored_movement (map (supply_purchase_movement organization user purchase m) items)
          ++ old)
        purchase m items (AreBrought-new organization user purchase m items old),
  )

module _ ⦃ar : Arith⦄ (laws : RoundingLaws ar) where
  abbrev Placed : ℕ → StockMap → Db → Type 0
  Placed n m db = HasSoundLots db × IsBelow (next_of db) m × (n ≤ next_of db)

  add_supply_stock-Placed :
      (organization : ℕ) (m : StockMap) (item : SupplyItem) (known : Bool) (db : Db)
      → HasSoundLots db
      → IsBelow (next_of db) m
      → Ensures (Placed (next_of db)) (add_supply_stock organization m item known db)
  add_supply_stock-Placed organization m item true db h b = (h, b, omega arith)
  add_supply_stock-Placed organization m item false db h b =
      Ensures-bind (λ id db'. HasSoundLots db' × (id < next_of db') × (next_of db ≤ next_of db'))
        (Placed (next_of db))
        (upsert_supply_stock organization item.supply_id (location_of item.location))
        (λ id. pure ((item.supply_id, location_of item.location, id) ∷ m)) db
        (upsert-HoldsLots laws organization item.supply_id (location_of item.location) [] [] db h)
        (λ id db' p. (p.0, (p.1, IsBelow-mono (next_of db) (next_of db') m p.2 b), p.2))

  add_supply_stocks-Placed :
      (organization : ℕ) (m : StockMap) (items : List SupplyItem) (db : Db)
      → HasSoundLots db
      → IsBelow (next_of db) m
      → Ensures
          (λ m' db'. HasSoundLots db' × IsBelow (next_of db') m')
          (add_supply_stocks organization m items db)
  unfolding add_supply_stocks
  add_supply_stocks-Placed organization m [] db h b = (h, b)
  add_supply_stocks-Placed organization m (item ∷ items) db h b =
      let known = is_some (stock_in item.supply_id (location_of item.location) m) in
      Ensures-bind (Placed (next_of db)) (λ m' db'. HasSoundLots db' × IsBelow (next_of db') m')
        (add_supply_stock organization m item known) (λ m'. add_supply_stocks organization m' items)
        db (add_supply_stock-Placed organization m item known db h b)
        (λ m' db' p. add_supply_stocks-Placed organization m' items db' p.0 p.1)

  pub get_or_create-Placed :
      (organization : ℕ) (items : List SupplyItem) (db : Db)
      → HasSoundLots db
      → Ensures
          (λ m db'. HasSoundLots db' × IsBelow (next_of db') m)
          (get_or_create_supply_stocks organization items db)
  unfolding get_or_create_supply_stocks
  get_or_create-Placed organization items db h =
      elim (Bool-cases (
        count_supplies organization (supply_ids items) db.supplies.supply_table
        == length (supply_ids items))) [
          | inl e ↦ rw (e, Ensures) (add_supply_stocks-Placed organization [] items db h tt)
          | inr e ↦ rw (e, Ensures) tt
        ]

  create_lot-HoldsLots :
      (organization stock purchase : ℕ) (quantity : ℤ) (cost : Option ℤ) (db : Db)
      → HasSoundLots db
      → stock < next_of db
      → any (brings purchase stock) db.supplies.supply_movements ≡ true
      → pos 0 ≤ℤ quantity
      → Ensures
          (λ _ db'.
            HoldsLots [] (stock ∷ []) db'
            × (db'.supplies.supply_movements ≡ db.supplies.supply_movements)
            × (next_of db ≤ next_of db'))
          (create_lot organization stock purchase quantity cost db)
  unfolding create_lot
  create_lot-HoldsLots organization stock purchase quantity none db h below brought sign =
      (loosen-HasLots h (stock ∷ []) (λ k f. refl), refl, omega arith)
  create_lot-HoldsLots organization stock purchase quantity (some cost) db h below brought sign =
      create_entry-HoldsLots laws (entry_of organization stock purchase quantity cost) [] [] db h
        refl sign brought below

  receive_supply-HoldsLots :
      (organization purchase : ℕ) (m : StockMap) (i : SupplyItem) (db : Db)
      → HasSoundLots db
      → IsBelow (next_of db) m
      → any (brings purchase (supply_place m i)) db.supplies.supply_movements ≡ true
      → pos 0 ≤ℤ i.quantity
      → Ensures
          (λ _ db'.
            HasSoundLots db'
            × (db'.supplies.supply_movements ≡ db.supplies.supply_movements)
            × (next_of db ≤ next_of db'))
          (receive_supply organization purchase m i db)
  unfolding receive_supply
  receive_supply-HoldsLots organization purchase m i db h below brought sign =
      let k = supply_place m i in
      Ensures-bind
        (λ _ db'.
          HoldsLots [] (k ∷ []) db'
          × (db'.supplies.supply_movements ≡ db.supplies.supply_movements)
          × (next_of db ≤ next_of db'))
        (λ _ db'.
          HasSoundLots db'
          × (db'.supplies.supply_movements ≡ db.supplies.supply_movements)
          × (next_of db ≤ next_of db'))
        (create_lot organization k purchase i.quantity i.unit_cost) (λ _. sync_quantity k) db
        (create_lot-HoldsLots organization k purchase i.quantity i.unit_cost db h
          (place-below (next_of db) i.supply_id (location_of i.location) m h.started below) brought
          sign)
        (λ _ db' p.
          Ensures-weaken _ _ (sync_quantity k db') (sync_quantity-HoldsLots laws k [] [] db' p.0)
            (λ _ db'' q. (q.0, q.1 ∙ p.1, omega (arith, q.2, p.2))))

  receive_each-HoldsLots :
      (organization purchase : ℕ) (m : StockMap) (items : List SupplyItem) (db : Db)
      → HasSoundLots db
      → IsBelow (next_of db) m
      → AreBrought db.supplies.supply_movements purchase m items
      → AreNatural items
      → Ensures
          (λ _ db'. HasSoundLots db')
          (for_each items (receive_supply organization purchase m) db)
  unfolding for_each
  receive_each-HoldsLots organization purchase m [] db h below brought sign = h
  receive_each-HoldsLots organization purchase m (i ∷ items) db h below brought sign =
      Ensures-bind
        (λ _ db'.
          HasSoundLots db'
          × (db'.supplies.supply_movements ≡ db.supplies.supply_movements)
          × (next_of db ≤ next_of db'))
        (λ _ db'. HasSoundLots db') (receive_supply organization purchase m i)
        (λ _. for_each items (receive_supply organization purchase m)) db
        (receive_supply-HoldsLots organization purchase m i db h below brought.0 sign.0)
        (λ _ db' p.
          receive_each-HoldsLots organization purchase m items db' p.0
            (IsBelow-mono (next_of db) (next_of db') m p.2 below)
            (subst (λ ms. AreBrought ms purchase m items) (sym p.1) brought.1) sign.1)

  pub receive_supplies-HoldsLots :
      (organization user purchase : ℕ) (m : StockMap) (items : List SupplyItem) (db : Db)
      → HasSoundLots db
      → IsBelow (next_of db) m
      → AreNatural items
      → Ensures (λ _ db'. HasSoundLots db') (receive_supplies organization user purchase m items db)
  unfolding receive_supplies
  receive_supplies-HoldsLots organization user purchase m items db h below sign =
      let rows = map (supply_purchase_movement organization user purchase m) items in
      Ensures-bind
        (λ _ db'.
          HasSoundLots db'
          × (db'.supplies.supply_movements
              ≡ map stored_movement rows ++ db.supplies.supply_movements)
          × (next_of db' ≡ next_of db))
        (λ _ db'. HasSoundLots db') (create_supply_movements rows)
        (λ _. for_each items (receive_supply organization purchase m)) db
        (create_supply_movements-HoldsLots laws rows [] [] db h)
        (λ _ db' p.
          receive_each-HoldsLots organization purchase m items db' p.0
            (IsBelow-mono (next_of db) (next_of db') m (omega (arith, p.2)) below)
            (subst (λ ms. AreBrought ms purchase m items) (sym p.1)
              (AreBrought-new organization user purchase m items db.supplies.supply_movements))
            sign)
