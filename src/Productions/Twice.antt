-- ===== src/Productions/Twice.antt =====
-- `complete` and `cancel` of a production that is completed
-- (src/modules/productions/productions.service.ts).
use easy_point_api.Base.{Option, some, ℕ, false, true, not, ◌≡◌, refl, ap, ◌∙◌}
use easy_point_api.Base.Table.{lookup, lookup-put_self}
use easy_point_api.Decimal.{Arith}
use easy_point_api.Productions.Lifecycle.{
  cancel_production, complete_production, find_production, is_draft, owns,
}
use easy_point_api.Productions.Free.{CompletedDraft, complete_production-CompletedDraft}
use easy_point_api.Productions.Completion.{completed_row}
use easy_point_api.Database.{
  Db, Ensures-ok, Production, bad_request, bind-ok, cannot_cancel, cannot_complete, err, ok,
  throw_if-true,
}

find_production-found :
    (tenant : Option ℕ) (id : ℕ) (p : Production) (db : Db)
    → lookup id db.supplies.productions ≡ some p
    → owns tenant p ≡ true
    → find_production tenant id db ≡ ok (p, db)
unfolding find_production
find_production-found tenant id p db found mine = rw (found, mine) refl

module _ ⦃ar : Arith⦄ where
  completed_late :
      (organization user id : ℕ) (p : Production) (db : Db)
      → lookup id db.supplies.productions ≡ some p
      → owns (some organization) p ≡ true
      → is_draft p.status ≡ false
      → complete_production (some organization) user id db ≡ err (bad_request cannot_complete)
  unfolding complete_production
  completed_late organization user id p db found mine done =
      let tenant = some organization in
      bind-ok _ (find_production tenant id) p db db
        (find_production-found tenant id p db found mine)
      ∙ throw_if-true _ (not (is_draft p.status)) _ db (rw done refl)

  cancelled_late :
      (tenant : Option ℕ) (id : ℕ) (p : Production) (db : Db)
      → lookup id db.supplies.productions ≡ some p
      → owns tenant p ≡ true
      → is_draft p.status ≡ false
      → cancel_production tenant id db ≡ err (bad_request cannot_cancel)
  unfolding cancel_production
  cancelled_late tenant id p db found mine done =
      bind-ok _ (find_production tenant id) p db db
        (find_production-found tenant id p db found mine)
      ∙ throw_if-true _ (not (is_draft p.status)) _ db (rw done refl)

  -- After `complete` of a production has succeeded, another `complete` and a `cancel` of it by
  -- the same organization both throw that its status does not allow it.
  pub complete_production-complete_production :
      (organization user user' id : ℕ) (db db' : Db)
      → complete_production (some organization) user id db ≡ ok (tt, db')
      → (complete_production (some organization) user' id db' ≡ err (bad_request cannot_complete))
        × (cancel_production (some organization) id db' ≡ err (bad_request cannot_cancel))
  complete_production-complete_production organization user user' id db db' e =
      let (p, mine, found, d, (rows, total, h)) =
        Ensures-ok (λ _ c. CompletedDraft (some organization) id db c) _ tt db'
          (complete_production-CompletedDraft (some organization) user id db) e in
      let q = completed_row p total in
      let now : lookup id db'.supplies.productions ≡ some q =
        ap (λ v. lookup id v.0) h ∙ lookup-put_self id {w = p} q db.supplies.productions found in
      (
        completed_late organization user' id q db' now mine refl,
        cancelled_late (some organization) id q db' now mine refl,
      )
