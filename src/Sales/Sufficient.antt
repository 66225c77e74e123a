-- ===== src/Sales/Sufficient.antt =====
-- The check of `validateSufficientStock` (src/modules/sales/sales.service.ts).
use easy_point_api.Base.{
  ==_iff, Bool-cases, List, Option, [], arith, default_to, false, inl, inr, is_some, none, some,
  true, ℕ, ◌==◌, ◌∷◌, ◌≡◌, Option-cases, refl,
}
use easy_point_api.Base.Table.{Table, lookup, lookup-set_key}
use easy_point_api.Base.Int.{int_laws, pos, ℤ, ◌+ℤ◌, ◌≤ℤ◌}
use easy_point_api.Database.{Db, Stock, Ensures}
use easy_point_api.Sales.Items.{
  SaleItem, StockMap, add_required, lacks, some_lacks, stock_id_of, total_by_stock,
  validate_sufficient_stock,
}
use easy_point_api.Sales.Stock.{required_of}
use easy_point_api.Inventory.Balance.{quantity_of}

abbrev pub HasStock : Db → Type 0
HasStock db = (s : ℕ) → pos 0 ≤ℤ quantity_of (lookup s db.stocks)

abbrev total_of : ℕ → Table ℤ → ℤ
total_of s totals = default_to (lookup s totals) (pos 0)

-- The map of required totals holds, for every stock record, the sum over the lines.
total_by_stock-required_of :
    (m : StockMap) (totals : Table ℤ) (items : List SaleItem) (s : ℕ)
    → total_of s (total_by_stock m totals items) ≡ total_of s totals +ℤ required_of m s items
unfolding total_by_stock
total_by_stock-required_of m totals [] s = omega int_laws
total_by_stock-required_of m totals (item ∷ items) s =
    let ih = total_by_stock-required_of m (add_required m totals item) items s in
    elim (Bool-cases (s == stock_id_of m item)) [
      | inl e ↦
          let p : s ≡ stock_id_of m item = (==_iff s (stock_id_of m item)).0 e in
          rw
            (
              ih,
              lookup-set_key s (stock_id_of m item)
                  (total_of (stock_id_of m item) totals +ℤ item.quantity) totals,
              e,
            )
            (rw (← p) (omega int_laws))
      | inr e ↦
          rw
            (
              ih,
              lookup-set_key s (stock_id_of m item)
                  (total_of (stock_id_of m item) totals +ℤ item.quantity) totals,
              e,
            )
            (omega int_laws)
    ]

some_lacks-false :
    (totals : Table ℤ) (s : ℕ) (r : Stock) (t : Table Stock)
    → some_lacks totals t ≡ false
    → lookup s t ≡ some r
    → lacks (lookup s totals) r ≡ false
unfolding some_lacks lookup
some_lacks-false totals s r [] h e = cc
some_lacks-false totals s r ((id, a) ∷ t) h e = ground (arith, some_lacks-false totals s r t)

lacks-false :
    (o : Option ℤ) (r : Stock)
    → lacks o r ≡ false
    → pos 0 ≤ℤ r.quantity
    → default_to o (pos 0) ≤ℤ r.quantity
lacks-false none r h p = p
lacks-false (some a) r h p = ground arith

-- Where the check has passed, no stock record lacks what the lines require of it.
abbrev pub IsSufficient : StockMap → List SaleItem → Db → Type 0
IsSufficient m items db =
    (s : ℕ)
    → is_some (lookup s db.stocks) ≡ true
    → required_of m s items ≤ℤ quantity_of (lookup s db.stocks)

sufficient :
    (m : StockMap) (items : List SaleItem) (db : Db)
    → HasStock db
    → some_lacks (total_by_stock m [] items) db.stocks ≡ false
    → IsSufficient m items db
unfolding lookup
sufficient m items db stock e s known = elim (Option-cases (lookup s db.stocks)) [
  | inl missing ↦ ground arith
  | inr (r, found) ↦
      let p : pos 0 ≤ℤ r.quantity = rw found at (stock s) in
      let covers = lacks-false _ r (some_lacks-false _ s r db.stocks e found) p in
      let total = total_by_stock-required_of m [] items s in
      let covered = rw total at covers in rw found (omega int_laws)
]

pub validate_sufficient_stock-IsSufficient :
    (m : StockMap) (items : List SaleItem) (db : Db)
    → HasStock db
    → Ensures (λ _ db'. (db' ≡ db) × IsSufficient m items db) (validate_sufficient_stock items m db)
unfolding validate_sufficient_stock
validate_sufficient_stock-IsSufficient m items db stock =
    let totals = total_by_stock m [] items in
    elim (Bool-cases (some_lacks totals db.stocks)) [
      | inl e ↦ rw (e, Ensures) tt
      | inr e ↦ rw (e, Ensures) (refl, sufficient m items db stock e)
    ]
