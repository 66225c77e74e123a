-- ===== src/Purchases/Balanced.antt =====
-- The agreement of quantities and movements under the steps of a purchase
-- (src/modules/product-purchases/product-purchases.service.ts).
use easy_point_api.Base.{
  All, Bool, Option, Option-cases, ap, arith, false, inl, inr, none, refl, some, subst, sym, true,
  ℕ, ◌∙◌, ◌≡◌, ◌≤◌, ==_iff, Bool-cases, suc, ◌==◌, [], ◌<◌, ◌∷◌, ==_refl, ltb,
}
use easy_point_api.Inventory.{find_stock, upsert_stock}
use easy_point_api.Decimal.{Arith, IsColumn, RoundingLaws}
use easy_point_api.FinancialTransactions.{TransactionParams, create_transaction}
use easy_point_api.Base.Table.{lookup, Table, insert, lookup-insert}
use easy_point_api.Base.Int.{◌-ℤ◌, pos}
use easy_point_api.Base.Table.Rows.{AllRows}
use easy_point_api.Database.{
  Db, Ensures, Ensures-bind, Ensures-weaken, Exception, Movement, MovementType, Tx, purchased,
  throw_if, ◌>>=◌, Stock, gets,
}
use easy_point_api.Sales.Conserved.{StockTables}
use easy_point_api.Sales.Frame.{stock_view}
use easy_point_api.FinancialTransactions.Recorded.{Recorded, create_transaction-Recorded}
use easy_point_api.Inventory.Balance.{HasStoredQuantity, moved, opening_stock, quantity_of}

abbrev pub HasPurchaseKind : Option ℕ → MovementType → Type 0
HasPurchaseKind none k = Unit
HasPurchaseKind (some p) k = k ≡ purchased

-- No stock record has an id that `uuid` is still to give.
abbrev KeysBelow : ℕ → Table Stock → Type 0
KeysBelow n [] = Unit
KeysBelow n ((k, r) ∷ t) = (k < n) × KeysBelow n t

abbrev pub HasFreshStock : Db → Type 0
HasFreshStock db = KeysBelow db.next_id db.stocks

pub fresh_lookup : (n : ℕ) (t : Table Stock) (k : ℕ) → KeysBelow n t → n ≤ k → lookup k t ≡ none
unfolding lookup
fresh_lookup n [] k h le = refl
fresh_lookup n ((j, r) ∷ t) k h le = ground (arith, fresh_lookup n t k h.1)

pub fresh_keys : (n : ℕ) (t : Table Stock) → ((k : ℕ) → n ≤ k → lookup k t ≡ none) → KeysBelow n t
unfolding lookup
fresh_keys n [] h = tt
fresh_keys n ((j, r) ∷ t) h = elim (Bool-cases (ltb j n)) [
  | inl e ↦ (ground arith, fresh_keys n t (λ k le. let at = h k le in ground arith))
  | inr e ↦ let at = h j (ground arith) in cc (rw (==_refl j) at at)
]

zero_row :
    (s n : ℕ) (row : Stock) (t : Table Stock)
    → lookup n t ≡ none
    → row.quantity ≡ pos 0
    → quantity_of (lookup s (insert n row t)) ≡ quantity_of (lookup s t)
zero_row s n row t unused empty = elim (Bool-cases (s == n)) [
  | inl e ↦
      let p : s ≡ n = (==_iff s n).0 e in rw (lookup-insert s n row t, e) (rw (p, unused) empty)
  | inr e ↦ rw (lookup-insert s n row t, e) refl
]

still_fresh :
    (k n : ℕ) (row : Stock) (t : Table Stock)
    → suc n ≤ k
    → lookup k t ≡ none
    → lookup k (insert n row t) ≡ none
still_fresh k n row t h unused = rw (lookup-insert k n row t) (ground arith)

module _ ⦃ar : Arith⦄ where
  -- A movement that belongs to a purchase is of that kind.
  abbrev pub HasPurchaseMove : Movement → Type 0
  HasPurchaseMove m = IsColumn m.quantity × HasPurchaseKind m.product_purchase_id m.kind

  pub record HasPurchaseStock (db : Db) : Type 0 where
    pub stored : AllRows HasStoredQuantity db.stocks
    pub moves : All HasPurchaseMove db.movements
    pub fresh : HasFreshStock db

  abbrev pub Agrees : Db → Db → Type 0
  Agrees db db' = ((s : ℕ) → opening_stock s db' ≡ opening_stock s db) × HasPurchaseStock db'

  -- Whenever `m` succeeds, the quantities still agree with the movements.
  abbrev pub KeepsStock : {A : Type 0} → Tx A → Type 0
  KeepsStock m = (db : Db) → HasPurchaseStock db → Ensures (λ _ db'. Agrees db db') (m db)

  pub KeepsStock-bind :
      {A B : Type 0} (m : Tx A) (k : A → Tx B)
      → KeepsStock m
      → ((a : A) → KeepsStock (k a))
      → KeepsStock (m >>= k)
  KeepsStock-bind {A} {B} m k h next db valid =
      Ensures-bind (λ (_ : A) b. Agrees db b) (λ (_ : B) c. Agrees db c) m k db (h db valid)
        λ a b kept.
          Ensures-weaken (λ _ c. Agrees b c) (λ _ c. Agrees db c) (k a b) (next a b kept.1)
            (λ _ c kept'. (λ s. kept'.0 s ∙ kept.0 s, kept'.1))

  pub KeepsStock-gets :
      {A B : Type 0} (f : Db → A) (k : A → Tx B)
      → ((a : A) → KeepsStock (k a))
      → KeepsStock (gets f >>= k)
  KeepsStock-gets f k next db valid = next (f db) db valid

  pub KeepsStock-throw_if : (b : Bool) (e : Exception) → KeepsStock (throw_if b e)
  KeepsStock-throw_if true e db valid = tt
  KeepsStock-throw_if false e db valid = (λ s. refl, valid)

  -- The same stock and movements, and perhaps a later id.
  pub same_stock_view :
      (db db' : Db)
      → HasPurchaseStock db
      → stock_view db' ≡ stock_view db
      → db.next_id ≤ db'.next_id
      → Agrees db db'
  unfolding opening_stock
  same_stock_view db db' valid e later = (
    λ s. ap (λ (v : StockTables). quantity_of (lookup s v.0) -ℤ moved s v.1) e,
    record {
      stored = subst (λ (v : StockTables). AllRows HasStoredQuantity v.0) (sym e) valid.stored;
      moves = subst (λ (v : StockTables). All HasPurchaseMove v.1) (sym e) valid.moves;
      fresh = fresh_keys db'.next_id db'.stocks (λ k h.
          subst (λ (v : StockTables). lookup k v.0 ≡ none) (sym e)
            (fresh_lookup db.next_id db.stocks k valid.fresh (omega arith)));
    },
  )

  pub create_transaction-KeepsStock :
      (params : TransactionParams) → KeepsStock (create_transaction params)
  create_transaction-KeepsStock params db valid =
      Ensures-weaken (Recorded params db) (λ _ b. Agrees db b) _
        (create_transaction-Recorded params db)
        λ id b r.
          same_stock_view db b valid (ap stock_view r.6)
            (subst (λ (n : ℕ). db.next_id ≤ n) (sym (ap (λ (d : Db). d.next_id) r.6)) (omega arith))

  -- A new stock record has the quantity 0.
  pub upsert_stock-KeepsStock :
      (laws : RoundingLaws ar) (organization product location : ℕ)
      → KeepsStock (upsert_stock organization product location)
  unfolding upsert_stock opening_stock
  upsert_stock-KeepsStock laws organization product location db valid =
      let row : Stock = record {
        organization_id = organization;
        product_id = product;
        location = location;
        quantity = pos 0;
      } in
      elim (Option-cases (find_stock product location db.stocks)) [
        | inr (id, e) ↦ rw (e, Ensures) (λ s. refl, valid)
        | inl e ↦
            rw (e, Ensures)
              (
                λ s.
                    rw
                      (zero_row s db.next_id row db.stocks
                        (fresh_lookup db.next_id db.stocks db.next_id valid.fresh (omega arith))
                        refl)
                      refl,
                record {
                  stored = (laws.zero_stored, valid.stored);
                  moves = valid.moves;
                  fresh = fresh_keys (suc db.next_id) (insert db.next_id row db.stocks) (λ k h.
                      still_fresh k db.next_id row db.stocks h
                        (fresh_lookup db.next_id db.stocks k valid.fresh (omega arith)));
                },
              )
      ]
