-- ===== src/BankAccounts.antt =====
-- The bank account entity and the writes of its repository:
-- src/modules/bank-accounts/domain/bank-account.entity.ts and
-- src/modules/bank-accounts/bank-accounts.repository.ts.
use easy_point_api.Base.{ℕ, suc, ⊤, Option, none, some, if◌then◌else◌, ◌==◌}
use easy_point_api.Base.Int.{ℤ, pos, ◌+ℤ◌, ◌-ℤ◌, ltb_ℤ}
use easy_point_api.Base.Table.{lookup, put}
use easy_point_api.Database.{
  Account, Result, ok, err, Tx, gets, failure, negative_amount, insufficient_funds,
  record_not_found,
}
use easy_point_api.Decimal.{Arith, to_column}

-- `increaseBalance` and `decreaseBalance`; the entity after the call, or the `Error` thrown
unfoldable pub increase_balance : Account → ℤ → Result Account
increase_balance a amount =
    if ltb_ℤ amount (pos 0)
    then err (failure negative_amount)
    else ok (record a { balance = a.balance +ℤ amount; version = suc a.version })

unfoldable pub decrease_balance : Account → ℤ → Result Account
decrease_balance a amount =
    if ltb_ℤ amount (pos 0)
    then err (failure negative_amount)
    else if ltb_ℤ a.balance amount
    then err (failure insufficient_funds)
    else ok (record a { balance = a.balance -ℤ amount; version = suc a.version })

-- `findById`
unfoldable pub find_account : ℕ → Tx (Option Account)
find_account id = gets (λ db. lookup id db.accounts)

module _ ⦃ar : Arith⦄ where
  -- The row that `updateWithVersion(id, v, { balance })` makes of `a`, if `a` has version `v`.
  unfoldable pub row_with_version : ℕ → ℤ → Account → Option Account
  row_with_version v balance a =
      if a.version == v
      then some (record a { balance = to_column balance; version = suc a.version })
      else none

  set_account : ℕ → Option Account → Tx ⊤
  set_account id none db = err record_not_found
  set_account id (some a) db = ok (tt, record db { accounts = put id a db.accounts })

  written : ℕ → ℤ → Option Account → Option Account
  unfolding row_with_version
  written v balance none = none
  written v balance (some a) = row_with_version v balance a

  -- UPDATE ... WHERE id = id AND version = v; P2025 if there is no such row
  unfoldable pub update_with_version : ℕ → ℕ → ℤ → Tx ⊤
  unfolding set_account written
  update_with_version id v balance db =
      set_account id (written v balance (lookup id db.accounts)) db
