-- ===== src/FinancialTransactions/Isolation.antt =====
-- The versions of accounts under the interleavings of FinancialTransactions/Concurrent.
use mathlib.Core.Option.{some-injective}
use easy_point_api.Base.{
  ==_iff, All, Bool-cases, List, [], arith, inl, inr, some, subst, suc, sym, zero, ℕ, ◌==◌, ◌∙◌,
  ◌∷◌, ◌≡◌, ap, refl, false,
}
use easy_point_api.Decimal.{Arith, RoundingLaws, to_column}
use easy_point_api.Base.Table.{lookup, lookup-put_ne, lookup-put_self, put}
use easy_point_api.Base.Int.{ℤ}
use easy_point_api.Database.{
  Account, Db, Ensures, Ensures-ok, Ensures-weaken, bind-err, concurrent_update, conflict, err, ok,
}
use easy_point_api.FinancialTransactions.Recorded.{account_with}
use easy_point_api.FinancialTransactions.Concurrent.{
  IsAhead, IsCurrent, Session, session_at, Commits, Interleaves, Prepares, commit-Commits,
  committed, idle, prepare-Prepares, prepared, write_balance-stale,
}
use easy_point_api.FinancialTransactions.{Prepared, TransactionParams, commit, write_balance}
use easy_point_api.Base.Table.Rows.{AllRows-lookup, AllRows-put, sum_rows}
use easy_point_api.FinancialTransactions.Ledger.{
  HasValidBalance, HasValidLedger, IsExact, KeepsLedger, apply_amount-IsPosted, effect_on,
  opening_balance, opening_balance_kept, signed,
}

bumped : (u v w : ℕ) → u ≡ v → v ≡ w → (suc u == w) ≡ false
bumped u v w e f = ground arith

All-session_at :
    (P : Session → Type 0) (n : ℕ) {s : Session} (ss : List Session)
    → All P ss
    → session_at n ss ≡ some s
    → P s
All-session_at P n {s} [] h e = cc
All-session_at P zero {s} (x ∷ ss) h e = subst P (some-injective x s e) h.0
All-session_at P (suc n) {s} (x ∷ ss) h e = All-session_at P n {s = s} ss h.1 e

All-map :
    (P Q : Session → Type 0) (f : (s : Session) → P s → Q s) (ss : List Session)
    → All P ss
    → All Q ss
All-map P Q f [] h = tt
All-map P Q f (s ∷ ss) h = (f s h.0, All-map P Q f ss h.1)

module _ ⦃ar : Arith⦄ where
  -- A write makes every other call that has read the account stale.
  IsCurrent-put :
      (s : Session) (id : ℕ) (a : Account) (b : ℤ) (db db' : Db)
      → lookup id db.accounts ≡ some a
      → db'.accounts ≡ put id (account_with a b) db.accounts
      → IsCurrent db s
      → IsCurrent db' s
  IsCurrent-put s id a b db db' found rows (same, fine, ahead) = (
    same,
    fine,
    λ a' found'.
        let now = rw rows at found' in
        elim (Bool-cases (s.0.bank_account_id == id)) [
          | inl e ↦
              let q : s.0.bank_account_id ≡ id = (==_iff s.0.bank_account_id id).0 e in
              let new : account_with a b ≡ a' = some-injective _ _ (
                sym (lookup-put_self id {w = a} (account_with a b) db.accounts found)
                ∙ rw q at now) in
              let old = ahead a (rw q found) in
              let behind = old.0 in
              subst (IsAhead s.0 s.1) new (omega arith, λ e'. absurd (omega arith))
          | inr e ↦ ahead a' (
              sym
                (lookup-put_ne s.0.bank_account_id id (account_with a b) db.accounts (ground arith))
              ∙ now)
        ],
  )

module _ ⦃ar : Arith⦄ (laws : RoundingLaws ar) where
  -- A call that is current has its balance right when its write succeeds.
  commit-KeepsLedger :
      (params : TransactionParams) (p : Prepared) (db : Db)
      → HasValidLedger db
      → IsCurrent db (params, p)
      → Ensures (λ id db'. KeepsLedger laws db db') (commit params p db)
  unfolding opening_balance
  commit-KeepsLedger params p db valid (same, fine, ahead) =
      Ensures-weaken (Commits params p db) (λ id db'. KeepsLedger laws db db') (commit params p db)
        (commit-Commits params p db)
        λ id db' (a, found, version, e).
          let at : lookup params.bank_account_id db.accounts ≡ some a = rw (← same) found in
          let (c, applied, after) = (ahead a at).1 version in
          let before =
            AllRows-lookup HasValidBalance params.bank_account_id db.accounts valid.0 at in
          let posted = rw after at (
            apply_amount-IsPosted laws params.kind a c params.amount before.0 before.1 fine
              applied) in
          rw (e, same)
            (
              λ acct.
                  opening_balance_kept acct params.bank_account_id a
                    (account_with a p.balance_after) (signed params.kind (to_column params.amount))
                    (sum_rows (effect_on acct) db.transactions) db.accounts at posted.0,
              (
                AllRows-put HasValidBalance params.bank_account_id (account_with a p.balance_after)
                    db.accounts valid.0 (posted.1, posted.2),
                (laws.stored params.amount, valid.1),
              ),
            )

  prepare-IsCurrent :
      (params : TransactionParams) (p : Prepared) (db : Db)
      → IsExact params.kind params.amount
      → Prepares params db p db
      → IsCurrent db (params, p)
  prepare-IsCurrent params p db fine (_, a, c, found, applied, e) = rw e (
    refl,
    fine,
    λ a' found'.
        subst
          (IsAhead params (record {
            account_id = params.bank_account_id;
            version_before = a.version;
            balance_before = a.balance;
            balance_after = c.balance;
          }))
          (some-injective a a' (sym found ∙ found')) (omega arith, λ _. (c, applied, refl)),
  )

  Interleaves-inv :
      (start db : Db) (ss : List Session)
      → HasValidLedger start
      → Interleaves start db ss
      → KeepsLedger laws start db × All (IsCurrent db) ss
  Interleaves-inv start db ss valid idle = (((λ a. refl), valid), tt)
  Interleaves-inv start db ss valid (prepared b rest params p run fine e) =
      let before = Interleaves-inv start b rest valid run in
      (
        before.0,
        (
          prepare-IsCurrent params p b fine
              (Ensures-ok (Prepares params b) _ p b (prepare-Prepares params b) e),
          before.1,
        ),
      )
  Interleaves-inv start db ss valid (committed b c rest n id params p run listed e) =
      let before = Interleaves-inv start b rest valid run in
      let current = All-session_at (IsCurrent b) n {s = (params, p)} rest before.1 listed in
      let kept =
        Ensures-ok (λ _ d. KeepsLedger laws b d) _ id c
          (commit-KeepsLedger params p b before.0.1 current) e in
      let (a, found, version, rows) =
        Ensures-ok (Commits params p b) _ id c (commit-Commits params p b) e in
      (
        ((λ x. kept.0 x ∙ before.0.0 x), kept.1),
        All-map (IsCurrent b) (IsCurrent c)
            (λ s h.
              IsCurrent-put s p.account_id a p.balance_after b c found
                (ap (λ (d : Db). d.accounts) rows) h)
            rest before.1,
      )

  -- However calls of `createTransaction` interleave, each reading its account at one time and
  -- writing with the version that it has read at a later one, and each debit an amount that a
  -- column holds exactly: the balance of every account less what the recorded transactions have
  -- moved is what it was at the start, and no balance is negative.
  pub Interleaves-KeepsLedger :
      (start db : Db) (ss : List Session)
      → HasValidLedger start
      → Interleaves start db ss
      → KeepsLedger laws start db
  Interleaves-KeepsLedger start db ss valid run = (Interleaves-inv start db ss valid run).0

module _ ⦃ar : Arith⦄ where
  -- If two calls of `createTransaction` have read the same version of the same account and the
  -- first has committed, then the second throws the conflict of a concurrent update.
  pub commit-commit :
      (params params' : TransactionParams) (p p' : Prepared) (db db' : Db) (id : ℕ)
      → p.account_id ≡ p'.account_id
      → p.version_before ≡ p'.version_before
      → commit params p db ≡ ok (id, db')
      → commit params' p' db' ≡ err (conflict concurrent_update)
  unfolding commit
  commit-commit params params' p p' db db' id same version e =
      let (a, found, read, rows) =
        Ensures-ok (Commits params p db) _ id db' (commit-Commits params p db) e in
      let new = account_with a p.balance_after in
      let at : lookup p'.account_id db'.accounts ≡ some new =
        rw (← same, rows) (lookup-put_self p.account_id {w = a} new db.accounts found) in
      bind-err _ (write_balance p'.account_id p'.version_before p'.balance_after) _ db' (
        write_balance-stale p'.account_id p'.version_before p'.balance_after new db' at
          (bumped a.version p.version_before p'.version_before read version))
