-- ===== src/Sales/Forward.antt =====
-- The states that a sale reaches in the state machine of Sales/Machine.
use easy_point_api.Base.{Bool, Option, ap, false, none, refl, some, true, ℕ, ◌≡◌}
use easy_point_api.Decimal.{Arith, RoundingLaws}
use easy_point_api.Base.Table.{lookup}
use easy_point_api.Database.{Db, Status, cancelled, completed}
use easy_point_api.Sales.Consistent.{IsConsistent, Reaches-IsConserved}
use easy_point_api.Sales.Lifecycle.{is_cancelled}
use easy_point_api.Sales.Machine.{
  Reaches, Step-Transition, Transition, cancels, completes, here, opens, status_in, stays, followed,
  withdraws,
}

abbrev pub is_settled : Option Status → Bool
is_settled (some completed) = true
is_settled (some cancelled) = true
is_settled _ = false

abbrev is_cancelled_in : Option Status → Bool
is_cancelled_in (some x) = is_cancelled x
is_cancelled_in none = false

-- No transition leaves the state of a cancelled sale.
cancelled_stays : (x y : Option Status) → x ≡ some cancelled → Transition x y → y ≡ some cancelled
cancelled_stays x y e (stays _) = e
cancelled_stays x y e (opens s) = cc
cancelled_stays x y e completes = cc (ap is_cancelled_in e)
cancelled_stays x y e withdraws = cc (ap is_cancelled_in e)
cancelled_stays x y e cancels = refl

-- A completed sale is neither pending again nor gone.
completed_stays : (x y : Option Status) → is_settled x ≡ true → Transition x y → is_settled y ≡ true
completed_stays x y e (stays _) = e
completed_stays x y e (opens s) = cc
completed_stays x y e completes = refl
completed_stays x y e withdraws = cc
completed_stays x y e cancels = refl

module _ ⦃ar : Arith⦄ (laws : RoundingLaws ar) where
  Reaches-keeps :
      (P : Option Status → Type 0)
      → ((x y : Option Status) → P x → Transition x y → P y)
      → (db db' : Db) (id : ℕ) → IsConsistent db
      → Reaches db db'
      → P (status_in (lookup id db.sales))
      → P (status_in (lookup id db'.sales))
  Reaches-keeps P step db db' id h here p = p
  Reaches-keeps P step db db' id h (followed b c r last) p =
      let valid = (Reaches-IsConserved laws db b h r).1 in
      step _ _ (Reaches-keeps P step db b id h r p) (Step-Transition b c id valid.unique last)

  -- From a consistent database, a cancelled sale is cancelled after any sequence of successful
  -- operations.
  pub Reaches-cancelled :
      (db db' : Db) (id : ℕ)
      → IsConsistent db
      → Reaches db db'
      → status_in (lookup id db.sales) ≡ some cancelled
      → status_in (lookup id db'.sales) ≡ some cancelled
  Reaches-cancelled = Reaches-keeps (λ x. x ≡ some cancelled) (λ x y p t. cancelled_stays x y p t)

  -- From a consistent database, a sale that is completed or cancelled is completed or cancelled
  -- after any sequence of successful operations: it is neither pending again nor deleted.
  pub Reaches-settled :
      (db db' : Db) (id : ℕ)
      → IsConsistent db
      → Reaches db db'
      → is_settled (status_in (lookup id db.sales)) ≡ true
      → is_settled (status_in (lookup id db'.sales)) ≡ true
  Reaches-settled = Reaches-keeps (λ x. is_settled x ≡ true) (λ x y p t. completed_stays x y p t)
