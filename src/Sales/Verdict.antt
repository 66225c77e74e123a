-- ===== src/Sales/Verdict.antt =====
-- When `complete` throws, and what.
use easy_point_api.Base.{
  Bool-cases, Option, Option-cases, if◌then◌else◌, inl, inr, none, not, some, true, ℕ, ◌==◌, ◌≡◌,
}
use easy_point_api.Decimal.{Arith}
use easy_point_api.FinancialTransactions.{create_transaction}
use easy_point_api.Base.Table.{lookup}
use easy_point_api.Database.{
  Db, err, Exception, Result-cases, Sale, conflict, credit, not_found, not_pending, sale_missing,
}
use easy_point_api.Sales.Lifecycle.{
  CompleteSale, complete, completion_credit, find_own_sale, is_pending,
}
use easy_point_api.FinancialTransactions.Verdict.{
  account_verdict, rejected, create_transaction_checks, rejection,
}

abbrev pub completion_verdict : ℕ → CompleteSale → Option Sale → Db → Option Exception
completion_verdict organization dto none db = some (not_found sale_missing)
completion_verdict organization dto (some s) db =
    if not (s.organization_id == organization)
    then some (not_found sale_missing)
    else if not (is_pending s.status)
    then some (conflict not_pending)
    else account_verdict credit s.total_amount (lookup dto.bank_account_id db.accounts)

module _ ⦃ar : Arith⦄ where
  complete_settled :
      (organization user id : ℕ) (dto : CompleteSale) (s : Sale) (x : Exception) (db : Db)
      → lookup id db.sales ≡ some s
      → (s.organization_id == organization) ≡ true
      → is_pending s.status ≡ true
      → account_verdict credit s.total_amount (lookup dto.bank_account_id db.accounts) ≡ some x
      → rejection (complete (some organization) user id dto db) ≡ some x
  unfolding complete find_own_sale
  complete_settled organization user id dto s x db e o p k =
      let params = completion_credit organization user id s.total_amount dto in
      let v = create_transaction_checks params x db k in
      elim (Result-cases (create_transaction params db)) [
        | inl (r, h) ↦ let never : none ≡ some x = rw h at v in cc
        | inr (y, h) ↦ rw (e, o, p, h, rejection) (rw h at v)
      ]

  complete_checks :
      (organization user id : ℕ) (dto : CompleteSale) (x : Exception) (db : Db)
      → completion_verdict organization dto (lookup id db.sales) db ≡ some x
      → rejection (complete (some organization) user id dto db) ≡ some x
  unfolding complete find_own_sale
  complete_checks organization user id dto x db k = elim (Option-cases (lookup id db.sales)) [
    | inl e ↦ rw (e, rejection) (rw e at k)
    | inr (s, e) ↦ elim (Bool-cases (s.organization_id == organization)) [
      | inr o ↦ rw (e, o, rejection) (rw (e, o) at k)
      | inl o ↦ elim (Bool-cases (is_pending s.status)) [
        | inr p ↦ rw (e, o, p, rejection) (rw (e, o, p) at k)
        | inl p ↦ complete_settled organization user id dto s x db e o p (rw (e, o, p) at k)
      ]
    ]
  ]

  -- For a tenant, where one of the conditions of `complete` holds, it throws just what the first
  -- of them says: not found if the sale is missing or belongs to another organization, conflict
  -- if it is not pending, else what a credit of its total refuses: the account missing, not
  -- active, or the amount negative.
  pub complete-verdict :
      (organization user id : ℕ) (dto : CompleteSale) (e : Exception) (db : Db)
      → completion_verdict organization dto (lookup id db.sales) db ≡ some e
      → complete (some organization) user id dto db ≡ err e
  complete-verdict organization user id dto e db h =
      rejected (complete (some organization) user id dto db) e
        (complete_checks organization user id dto e db h)
