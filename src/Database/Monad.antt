-- ===== src/Database/Monad.antt =====
-- Work inside an interactive transaction: state with exceptions. An exception that leaves the
-- callback rolls everything back, so no state comes with it.
use easy_point_api.Base.{ℕ, suc, ⊤, Bool, true, false, Option, none, some, List, [], ◌∷◌}
use easy_point_api.Database.Rows.{Db, Supplies}

-- Why an operation throws; the messages of the source, without their parameters.
pub data Reason : Type 0 where
  missing_organization bank_account_required payment_method_required : Reason
  client_missing discount_missing discount_for_other_client discount_not_applicable : Reason
  invalid_products not_purchasable no_stock_record insufficient_stock : Reason
  stock_missing stock_mismatch : Reason
  sale_missing purchase_missing not_pending already_cancelled : Reason
  missing_transaction_id original_transaction_missing : Reason
  account_missing account_inactive concurrent_update : Reason
  transaction_missing only_adjustments negative_amount insufficient_funds : Reason
  code_taken client_required invalid_value rule_missing : Reason
  invalid_supplies entry_consumed entry_exhausted insufficient_entry : Reason
  product_required supplies_missing supply_missing production_missing : Reason
  cannot_complete cannot_cancel no_supplies_defined no_supply_stock : Reason
  insufficient_supply no_units_available no_entries_available : Reason

-- The exceptions of NestJS by their HTTP class, `Error`, Prisma's P2025 (no row to update), and the
-- refusal of a row by a constraint or the size of a column.
pub data Exception : Type 0 where
  bad_request not_found conflict unprocessable failure : Reason → Exception
  record_not_found row_refused : Exception

pub data Result (A : Type 0) : Type 0 where
  ok : A → Result A
  err : Exception → Result A

abbrev pub Tx : Type 0 → Type 0
Tx A = Db → Result (A × Db)

module _ {A : Type 0} where
  abbrev pub pure : A → Tx A
  pure a db = ok (a, db)

  abbrev pub throw : Exception → Tx A
  throw e db = err e

  abbrev pub gets : (Db → A) → Tx A
  gets f db = ok (f db, db)

  -- `if (!x) throw e`
  abbrev pub or_throw : Option A → Exception → Tx A
  or_throw none e db = err e
  or_throw (some a) e db = ok (a, db)

  abbrev pub from_result : Result A → Tx A
  from_result (ok a) db = ok (a, db)
  from_result (err e) db = err e

infixl 5 ◌>>=◌ ◌>>◌
abbrev pub ◌>>=◌ : {A B : Type 0} → Tx A → (A → Tx B) → Tx B
◌>>=◌ m f db = elim (m db) [ ok (a, db') ↦ f a db' | err e ↦ err e ]

abbrev pub ◌>>◌ : {A B : Type 0} → Tx A → Tx B → Tx B
m >> k = m >>= λ _. k

abbrev pub throw_if : Bool → Exception → Tx ⊤
throw_if true e db = err e
throw_if false e db = ok (tt, db)

abbrev pub modify : (Db → Db) → Tx ⊤
modify f db = ok (tt, f db)

-- `uuid()`
abbrev pub new_id : Tx ℕ
new_id db = ok (db.next_id, record db { next_id = suc db.next_id })

abbrev pub modify_supplies : (Supplies → Supplies) → Tx ⊤
modify_supplies f db = ok (tt, record db { supplies = f db.supplies })

abbrev pub new_supply_id : Tx ℕ
new_supply_id db = ok (
  db.supplies.next_supply_id,
  record db { supplies = record db.supplies { next_supply_id = suc db.supplies.next_supply_id } },
)

-- `if (c) { m }`
abbrev pub when : Bool → Tx ⊤ → Tx ⊤
when true m = m
when false m = pure tt

-- `for (const x of xs) await f(x)`
unfoldable pub for_each : {A : Type 0} → List A → (A → Tx ⊤) → Tx ⊤
for_each [] f db = ok (tt, db)
for_each (x ∷ xs) f db = elim (f x db) [ ok (_, db') ↦ for_each xs f db' | err e ↦ err e ]

-- `prisma.$tenantTransaction(fn)`: what `fn` wrote is committed, or nothing is.
abbrev pub transaction : {A : Type 0} → Tx A → Db → Result A × Db
transaction m db = elim (m db) [ ok (a, db') ↦ (ok a, db') | err e ↦ (err e, db) ]
