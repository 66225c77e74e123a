-- ===== src/Productions/Available.antt =====
-- The lots that are available in a stock, and the usages of lots, as lists
-- (src/modules/productions/productions.service.ts).
use easy_point_api.Base.{
  All-append, Bool-cases, true, List, [], ◌∷◌, ◌++◌, none, some, ℕ, ◌==◌, ==_refl, ◌≡◌, refl, arith,
  inl, inr,
}
use easy_point_api.Base.Int.{ℤ, pos, ◌+ℤ◌, ◌≤ℤ◌, int_laws}
use easy_point_api.Base.Table.{Table, lookup}
use easy_point_api.Base.Table.Rows.{AllRows}
use easy_point_api.Base.Table.Unique.{HasUniqueKeys}
use easy_point_api.Base.Table.Fresh.{AreIn, AreIn-cons, AreIn-snoc, lookup-snoc, snoc-HasUniqueKeys}
use easy_point_api.Decimal.{Arith, IsColumn}
use easy_point_api.Supplies.{available_entries, is_available}
use easy_point_api.Supplies.Lots.{taken, used_of, AreUses, IsUse}
use easy_point_api.Supplies.Uses.{used_of-append}
use easy_point_api.Database.{StockEntry, SupplyUsage}

available_none :
    (stock k : ℕ) (t : Table StockEntry)
    → lookup k t ≡ none
    → lookup k (available_entries stock t) ≡ none
unfolding lookup available_entries
available_none stock k [] h = refl
available_none stock k ((j, e) ∷ t) h = elim (Bool-cases (k == j)) [
  | inl m ↦ let bad : some e ≡ none = rw m at h in cc
  | inr m ↦
      let older = available_none stock k t (rw m at h) in
      elim (Bool-cases (is_available stock e)) [
        | inl a ↦ rw a (lookup-snoc k j e (available_entries stock t) older m)
        | inr a ↦ rw a older
      ]
]

-- Each lot that was found, once, is in the table, and in the stock.
pub record Found (stock : ℕ) (es t : Table StockEntry) : Type 0 where
  pub rows : AreIn es t
  pub unique : HasUniqueKeys es
  pub located : AllRows (λ (e : StockEntry). (e.supply_stock_id == stock) ≡ true) es

available-AllRows :
    (stock : ℕ) (es : Table StockEntry) (k : ℕ) (e : StockEntry)
    → AllRows (λ (e : StockEntry). (e.supply_stock_id == stock) ≡ true) es
    → (e.supply_stock_id == stock) ≡ true
    → AllRows (λ (e : StockEntry). (e.supply_stock_id == stock) ≡ true) (es ++ (k, e) ∷ [])
available-AllRows stock [] k e h p = (p, tt)
available-AllRows stock (r ∷ es) k e h p = (h.0, available-AllRows stock es k e h.1 p)

available_place :
    (stock : ℕ) (e : StockEntry) → is_available stock e ≡ true → (e.supply_stock_id == stock) ≡ true
available_place stock e h = ground arith

pub available-Found :
    (stock : ℕ) (t : Table StockEntry) → HasUniqueKeys t → Found stock (available_entries stock t) t
unfolding available_entries lookup
available-Found stock [] u = record { rows = tt; unique = tt; located = tt }
available-Found stock ((k, e) ∷ t) u =
    let f = available-Found stock t u.1 in
    let older = available_entries stock t in
    let kept = AreIn-cons k e older t u.0 f.rows in
    elim (Bool-cases (is_available stock e)) [
      | inl a ↦ rw a (record {
        rows = AreIn-snoc k e older ((k, e) ∷ t) kept (rw (==_refl k));
        unique = snoc-HasUniqueKeys k e older (available_none stock k t u.0) f.unique;
        located = available-AllRows stock older k e f.located (available_place stock e a);
      })
      | inr a ↦ rw a (record { rows = kept; unique = f.unique; located = f.located })
    ]

module _ ⦃ar : Arith⦄ where
  -- What is left to consume is a number of packages with four decimal places.
  abbrev pub IsDue : ℤ → Type 0
  IsDue left = IsColumn left × (pos 0 ≤ℤ left)

  pub AreUses-append :
      (n : ℕ) (us vs : List SupplyUsage) → AreUses n us → AreUses n vs → AreUses n (us ++ vs)
  AreUses-append n us vs h k =
      All-append (λ (u : SupplyUsage). IsUse n u.supply_stock_entry_id u.quantity_used) us vs h k

  pub AreUses-left : (n : ℕ) (us vs : List SupplyUsage) → AreUses n (us ++ vs) → AreUses n us
  AreUses-left n [] vs h = tt
  AreUses-left n (u ∷ us) vs h = (h.0, AreUses-left n us vs h.1)

  pub AreUses-right : (n : ℕ) (us vs : List SupplyUsage) → AreUses n (us ++ vs) → AreUses n vs
  AreUses-right n [] vs h = h
  AreUses-right n (u ∷ us) vs h = AreUses-right n us vs h.1

  -- A usage is recorded after those that wait.
  pub used_of-record :
      (j id : ℕ) (q : ℤ) (u : SupplyUsage) (records us : List SupplyUsage)
      → u.supply_stock_entry_id ≡ some id
      → u.quantity_used ≡ q
      → used_of j ((records ++ u ∷ []) ++ us) ≡ used_of j (records ++ us) +ℤ taken (id == j) q
  used_of-record j id q u records us e e' =
      rw
        (
          used_of-append j (records ++ u ∷ []) us,
          used_of-append j records (u ∷ []),
          used_of-append j records us,
          e,
          e',
        )
        (omega int_laws)
