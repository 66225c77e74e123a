-- ===== src/SupplyPurchases/Refused.antt =====
-- `remove` of `SupplyPurchasesService` on a purchase of which a lot is in use
-- (src/modules/supply-purchases/supply-purchases.service.ts).
use mathlib.Core.Option.{some-injective}
use easy_point_api.Base.{
  Bool, Bool-cases, ℕ, true, false, some, ◌∷◌, [], ◌≡◌, ◌==◌, ◌&&◌, ◌||◌, not, refl, ap, subst, ◌∙◌,
  arith, inl, inr,
}
use easy_point_api.Base.Int.{ℤ, pos, ◌+ℤ◌, ◌-ℤ◌, ◌<ℤ◌, int_laws, is_zero}
use easy_point_api.Base.Table.{Table, lookup}
use easy_point_api.Decimal.{Arith}
use easy_point_api.Sales.Lifecycle.{is_cancelled}
use easy_point_api.Supplies.Lots.{used_of, HasSoundLots, Accounts}
use easy_point_api.SupplyPurchases.Lifecycle.{
  find_own_supply_purchase, is_consumed, is_lot_of, remove_supply_purchase, some_consumed,
  withdraw_supplies,
}
use easy_point_api.Database.{
  Db, Purchase, StockEntry, conflict, entry_consumed, err, ok, bind-err, bind-ok, throw_if-false,
}

or_true : (a : Bool) → (a || true) ≡ true
or_true true = refl
or_true false = refl

-- A lot that gave something differs from what it was.
lot_gone :
    (first left used : ℤ)
    → first ≡ left +ℤ used
    → pos 0 <ℤ used
    → not (is_zero (left -ℤ first)) ≡ true
lot_gone first left used e h = grind (int_laws, e, h)

some_consumed-lookup :
    (purchase lot : ℕ) (e : StockEntry) (t : Table StockEntry)
    → lookup lot t ≡ some e
    → is_lot_of purchase e ≡ true
    → is_consumed e ≡ true
    → some_consumed purchase t ≡ true
unfolding some_consumed lookup
some_consumed-lookup purchase lot e [] found own gone = cc
some_consumed-lookup purchase lot e ((k, x) ∷ t) found own gone = elim (Bool-cases (lot == k)) [
  | inl m ↦
      let same : some x ≡ some e = rw m at found in
      ap (λ q. is_lot_of purchase q && is_consumed q || some_consumed purchase t)
        (some-injective x e same)
      ∙ rw (own, gone) refl
  | inr m ↦
      rw (some_consumed-lookup purchase lot e t (rw m at found) own gone)
        (or_true (is_lot_of purchase x && is_consumed x))
]

module _ ⦃ar : Arith⦄ where
  withdraw_supplies-consumed :
      (id : ℕ) (db : Db)
      → some_consumed id db.supplies.entries ≡ true
      → withdraw_supplies id db ≡ err (conflict entry_consumed)
  unfolding withdraw_supplies
  withdraw_supplies-consumed id db gone = rw gone refl

  find_own_supply_purchase-own :
      (id : ℕ) (p : Purchase) (db : Db)
      → lookup id db.supplies.supply_purchases ≡ some p
      → find_own_supply_purchase p.organization_id id db ≡ ok (p, db)
  unfolding find_own_supply_purchase
  find_own_supply_purchase-own id p db found = ground arith

  -- If the lots are sound and the stored usages took something from a lot of a purchase that is
  -- not cancelled, then `remove` of the purchase by its organization throws the conflict of a
  -- consumed lot.
  pub remove_supply_purchase-used :
      (user id lot : ℕ) (p : Purchase) (e : StockEntry) (db : Db)
      → HasSoundLots db
      → lookup id db.supplies.supply_purchases ≡ some p
      → is_cancelled p.status ≡ false
      → lookup lot db.supplies.entries ≡ some e
      → is_lot_of id e ≡ true
      → pos 0 <ℤ used_of lot db.supplies.usages
      → remove_supply_purchase (some p.organization_id) user id db ≡ err (conflict entry_consumed)
  unfolding remove_supply_purchase
  remove_supply_purchase-used user id lot p e db h found live held own used =
      let a : Accounts (used_of lot db.supplies.usages) (some e) =
        subst (λ o. Accounts (used_of lot db.supplies.usages) o) held (h.accounted lot) in
      let gone = some_consumed-lookup id lot e db.supplies.entries held own (
        lot_gone e.initial_quantity e.remaining_quantity (used_of lot db.supplies.usages) a used) in
      bind-ok _ (find_own_supply_purchase p.organization_id id) p db db
        (find_own_supply_purchase-own id p db found)
      ∙ throw_if-false _ (is_cancelled p.status) _ db live
      ∙ bind-err _ (withdraw_supplies id) _ db (withdraw_supplies-consumed id db gone)
