-- ===== src/Productions/Reached.antt =====
-- Sequences of operations on supply purchases and productions
-- (src/modules/supply-purchases/supply-purchases.service.ts and
-- src/modules/productions/productions.service.ts).
use easy_point_api.Base.{Bool-cases, inl, inr, none, refl, sym, subst, Option, some, List, ℕ, ◌≡◌}
use easy_point_api.Base.Table.{Table, lookup}
use easy_point_api.Decimal.{Arith, RoundingLaws}
use easy_point_api.Purchases.Lifecycle.{CompletePurchase}
use easy_point_api.Supplies.Lots.{HasSoundLots}
use easy_point_api.SupplyPurchases.Lines.{SupplyItem}
use easy_point_api.SupplyPurchases.Received.{AreNatural}
use easy_point_api.SupplyPurchases.Lifecycle.{
  CreateSupplyPurchase, add_supply_items, complete_supply_purchase, create_supply_purchase,
  remove_supply_purchase,
}
use easy_point_api.SupplyPurchases.Sound.{
  add_supply_items-HasSoundLots, complete_supply_purchase-KeepsLots,
  create_supply_purchase-HasSoundLots, remove_supply_purchase-KeepsLots,
}
use easy_point_api.Productions.Consumption.{own_supplies}
use easy_point_api.Productions.Consumed.{AreExact}
use easy_point_api.Productions.Lifecycle.{
  is_finished, CreateProduction, cancel_production, complete_production, create_production_run,
  input_ids,
}
use easy_point_api.Productions.Removal.{remove_production}
use easy_point_api.Productions.Sound.{
  cancel_production-KeepsLots, create_production_run-HasSoundLots,
}
use easy_point_api.Productions.Completed.{complete_production-HasSoundLots, inputs_of}
use easy_point_api.Productions.Removed.{RemovesIntended, remove_production-HasSoundLots}
use easy_point_api.SupplyPurchases.Frame.{
  Forgets, add_supply_items-Keeps, complete_supply_purchase-Keeps, create_supply_purchase-Keeps,
  remove_supply_purchase-Forgets,
}
use easy_point_api.SupplyPurchases.Steps.{drafts_view}
use easy_point_api.Productions.Drafts.{
  AreFree, AreFree-AreIntended, AreFree-forgotten, HasFreeDrafts,
}
use easy_point_api.Productions.Free.{
  create_production_run-AreFree, complete_production-AreFree, cancel_production-AreFree,
  remove_production-AreFree,
}
use easy_point_api.Productions.Completion.{draft_open}
use easy_point_api.Database.{Production, SupplyUsage, Db, Ensures-ok, ok}

module _ ⦃ar : Arith⦄ where
  -- One operation that has succeeded. The id that `create` of a production draws is in no table, as
  -- `uuid` ensures.
  pub data LotStep (db db' : Db) : Type 0 where
    bought :
        (tenant : Option ℕ)
        → (user : ℕ) → (dto : CreateSupplyPurchase) → (id : ℕ) → AreNatural dto.items
        → create_supply_purchase tenant user dto db ≡ ok (id, db')
        → LotStep db db'
    settled :
        (tenant : Option ℕ)
        → (user id : ℕ) → (dto : CompletePurchase)
        → complete_supply_purchase tenant user id dto db ≡ ok (tt, db')
        → LotStep db db'
    extended :
        (tenant : Option ℕ)
        → (user id : ℕ) → (items : List SupplyItem) → AreNatural items
        → add_supply_items tenant user id items db ≡ ok (tt, db')
        → LotStep db db'
    withdrawn :
        (tenant : Option ℕ)
        → (user id : ℕ) → remove_supply_purchase tenant user id db ≡ ok (tt, db')
        → LotStep db db'
    run :
        (organization user : ℕ)
        → (dto : CreateProduction) → (id : ℕ)
        → lookup db.supplies.next_supply_id db.supplies.productions ≡ none
        → AreExact
            (own_supplies organization (input_ids dto.supplies) db.supplies.supply_table)
            dto.supplies
        → create_production_run (some organization) user dto db ≡ ok (id, db')
        → LotStep db db'
    finished_draft :
        (organization user id : ℕ)
        → AreExact
            (own_supplies organization
              (input_ids (inputs_of id db.supplies.usages))
              db.supplies.supply_table)
            (inputs_of id db.supplies.usages)
        → complete_production (some organization) user id db ≡ ok (tt, db')
        → LotStep db db'
    dropped :
        (tenant : Option ℕ)
        → (id : ℕ) → cancel_production tenant id db ≡ ok (tt, db')
        → LotStep db db'
    undone :
        (tenant : Option ℕ)
        → (id : ℕ) → remove_production tenant id db ≡ ok (tt, db')
        → LotStep db db'

  -- A sequence of operations, in the order in which they committed.
  pub data LotsReach (db : Db) : Db → Type 0 where
    start : LotsReach db db
    next : (b c : Db) → LotsReach db b → LotStep b c → LotsReach db c

HasFreeDrafts-kept :
    (db db' : Db) → HasFreeDrafts db → drafts_view db' ≡ drafts_view db → HasFreeDrafts db'
HasFreeDrafts-kept db db' free e = subst (λ v. AreFree v.0 v.1) (sym e) free

AreFree-RemovesIntended :
    (id : ℕ) (o : Option Production) (ps : Table Production) (us : List SupplyUsage)
    → lookup id ps ≡ o
    → AreFree ps us
    → RemovesIntended id o us
AreFree-RemovesIntended id none ps us found free = tt
AreFree-RemovesIntended id (some p) ps us found free = elim (Bool-cases (is_finished p.status)) [
  | inl f ↦ rw f tt
  | inr f ↦ rw f (AreFree-AreIntended id p ps us found f free)
]

module _ ⦃ar : Arith⦄ (laws : RoundingLaws ar) where
  -- The lots after one operation.
  LotStep-HasSoundLots :
      (db db' : Db) → HasSoundLots db → HasFreeDrafts db → LotStep db db' → HasSoundLots db'
  LotStep-HasSoundLots db db' h free (bought tenant user dto id natural e) =
      Ensures-ok (λ _ c. HasSoundLots c) _ id db'
        (create_supply_purchase-HasSoundLots laws tenant user dto db natural h) e
  LotStep-HasSoundLots db db' h free (settled tenant user id dto e) =
      Ensures-ok (λ _ c. HasSoundLots c) _ tt db'
        (complete_supply_purchase-KeepsLots laws tenant user id dto db h) e
  LotStep-HasSoundLots db db' h free (extended tenant user id items natural e) =
      Ensures-ok (λ _ c. HasSoundLots c) _ tt db'
        (add_supply_items-HasSoundLots laws tenant user id items db natural h) e
  LotStep-HasSoundLots db db' h free (withdrawn tenant user id e) =
      Ensures-ok (λ _ c. HasSoundLots c) _ tt db'
        (remove_supply_purchase-KeepsLots laws tenant user id db h) e
  LotStep-HasSoundLots db db' h free (run organization user dto id unused exact_uses e) =
      Ensures-ok (λ _ c. HasSoundLots c) _ id db'
        (create_production_run-HasSoundLots laws organization user dto db h exact_uses) e
  LotStep-HasSoundLots db db' h free (finished_draft organization user id exact_uses e) =
      Ensures-ok (λ _ c. HasSoundLots c) _ tt db'
        (complete_production-HasSoundLots laws organization user id db h
          (λ p found d.
            AreFree-AreIntended id p db.supplies.productions db.supplies.usages found
              (draft_open p.status d) free)
          exact_uses)
        e
  LotStep-HasSoundLots db db' h free (dropped tenant id e) =
      Ensures-ok (λ _ c. HasSoundLots c) _ tt db' (cancel_production-KeepsLots tenant id db h) e
  LotStep-HasSoundLots db db' h free (undone tenant id e) =
      Ensures-ok (λ _ c. HasSoundLots c) _ tt db'
        (remove_production-HasSoundLots laws tenant id db h (
          AreFree-RemovesIntended id (lookup id db.supplies.productions) db.supplies.productions
            db.supplies.usages refl free))
        e

  -- The usages of productions that are not completed, after one operation.
  LotStep-HasFreeDrafts : (db db' : Db) → HasFreeDrafts db → LotStep db db' → HasFreeDrafts db'
  LotStep-HasFreeDrafts db db' free (bought tenant user dto id natural e) =
      HasFreeDrafts-kept db db' free (
        Ensures-ok (λ _ c. drafts_view c ≡ drafts_view db) _ id db'
          (create_supply_purchase-Keeps tenant user dto db) e)
  LotStep-HasFreeDrafts db db' free (settled tenant user id dto e) =
      HasFreeDrafts-kept db db' free (
        Ensures-ok (λ _ c. drafts_view c ≡ drafts_view db) _ tt db'
          (complete_supply_purchase-Keeps tenant user id dto db) e)
  LotStep-HasFreeDrafts db db' free (extended tenant user id items natural e) =
      HasFreeDrafts-kept db db' free (
        Ensures-ok (λ _ c. drafts_view c ≡ drafts_view db) _ tt db'
          (add_supply_items-Keeps tenant user id items db) e)
  LotStep-HasFreeDrafts db db' free (withdrawn tenant user id e) =
      subst (λ v. AreFree v.0 v.1)
        (sym (
          Ensures-ok (λ _ c. Forgets id db c) _ tt db'
            (remove_supply_purchase-Forgets tenant user id db) e))
        (AreFree-forgotten id db.supplies.entries db.supplies.productions db.supplies.usages free)
  LotStep-HasFreeDrafts db db' free (run organization user dto id unused exact_uses e) =
      Ensures-ok (λ _ c. HasFreeDrafts c) _ id db'
        (create_production_run-AreFree organization user dto db unused free) e
  LotStep-HasFreeDrafts db db' free (finished_draft organization user id exact_uses e) =
      Ensures-ok (λ _ c. HasFreeDrafts c) _ tt db'
        (complete_production-AreFree (some organization) user id db free) e
  LotStep-HasFreeDrafts db db' free (dropped tenant id e) =
      Ensures-ok (λ _ c. HasFreeDrafts c) _ tt db' (cancel_production-AreFree tenant id db free) e
  LotStep-HasFreeDrafts db db' free (undone tenant id e) =
      Ensures-ok (λ _ c. HasFreeDrafts c) _ tt db' (remove_production-AreFree tenant id db free) e

  -- From a state in which the lots are sound and the usages of productions that are not completed
  -- name no lot, any sequence of successful operations on supply purchases and productions leads
  -- to such a state again: every lot has what it held at first less what the stored usages took
  -- from it, what remains is not negative, the quantity of every stock of supplies is what
  -- remains in its lots in whole packages, and a lot of a purchase has a movement of that
  -- purchase. Lines have quantities that are not negative, a measurable supply is used in numbers
  -- of packages that a column holds exactly and that are not negative, and a new production has a
  -- fresh id.
  pub LotsReach-HasSoundLots :
      (db db' : Db)
      → HasSoundLots db
      → HasFreeDrafts db
      → LotsReach db db'
      → HasSoundLots db' × HasFreeDrafts db'
  LotsReach-HasSoundLots db db' h free start = (h, free)
  LotsReach-HasSoundLots db db' h free (next b c before step) =
      let (k, free') = LotsReach-HasSoundLots db b h free before in
      (LotStep-HasSoundLots b c k free' step, LotStep-HasFreeDrafts b c free' step)
