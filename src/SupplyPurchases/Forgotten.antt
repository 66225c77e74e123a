-- ===== src/SupplyPurchases/Forgotten.antt =====
-- The state of the lots when those of a purchase are deleted
-- (src/modules/supply-purchases/supply-purchases.service.ts).
use easy_point_api.Base.{
  Bool, Bool-cases, true, false, List, [], ◌∷◌, Option, none, some, ℕ, ◌&&◌, ◌==◌, ==_iff, ◌≡◌,
  refl, ap, sym, ◌∙◌, subst, arith, any, contains, inl, inr, keep_if, map, not, is_some,
}
use easy_point_api.Base.Int.{ℤ}
use easy_point_api.Base.Table.{Table, lookup}
use easy_point_api.Base.Table.Rows.{AllRows, AllRows-keep_if}
use easy_point_api.Base.Table.Fresh.{
  keep_rows, keep_rows-HasUniqueKeys, keep_rows-KeysBelow, lookup-keep_rows, select,
}
use easy_point_api.Decimal.{Arith}
use easy_point_api.Sales.Create.{belongs_to}
use easy_point_api.Supplies.Lots.{
  taken, used_of, Accounts, IsBrought, IsPlaced, brings, IsLot, IsUse, AreUses, HasLots,
}
use easy_point_api.Supplies.Remaining.{Stays, StaysOn, on_stock, total_remaining-keep_rows}
use easy_point_api.Supplies.Uses.{InSync-to, off_stock}
use easy_point_api.SupplyPurchases.Lifecycle.{
  forget_lots, is_lot_of, kept_entry, lot_is_of, of_supply_purchase,
}
use easy_point_api.Database.{StockEntry, SupplyMovement, SupplyStock, SupplyUsage}

abbrev pub not_lot_of : ℕ → StockEntry → Bool
not_lot_of id e = not (is_lot_of id e)

-- The stocks that the movements of the purchase name.
abbrev pub stocks_of : ℕ → List SupplyMovement → List ℕ
stocks_of id moves =
    map (λ (m : SupplyMovement). m.stock_id) (keep_if (of_supply_purchase id) moves)

abbrev pub other : ℕ → SupplyMovement → Bool
other id m = not (of_supply_purchase id m)

-- Movements that bring a lot of the purchase name its stock.
pub stocks_of-brings :
    (id stock : ℕ) (moves : List SupplyMovement)
    → any (brings id stock) moves ≡ true
    → contains stock (stocks_of id moves) ≡ true
stocks_of-brings id stock [] h = cc
stocks_of-brings id stock (m ∷ moves) h = ground (arith, stocks_of-brings id stock moves)

Stays-row :
    (id k : ℕ) (moves : List SupplyMovement) (e : StockEntry) (o : Option ℕ)
    → IsBrought moves e.supply_stock_id o
    → contains k (stocks_of id moves) ≡ false
    → Stays (not (belongs_to id o)) (on_stock k e)
Stays-row id k moves e none h f = tt
Stays-row id k moves e (some p) h f = elim (Bool-cases (p == id)) [
  | inl m ↦
      let same : p ≡ id = (==_iff p id).0 m in
      let listed =
        stocks_of-brings id e.supply_stock_id moves
          (subst (λ q. any (brings q e.supply_stock_id) moves ≡ true) same h) in
      rw m (off_stock k (stocks_of id moves) e listed f)
  | inr m ↦ rw m tt
]

-- What a usage takes of a lot that stays.
taken-kept_entry :
    (j id : ℕ) (t : Table StockEntry) (o : Option ℕ) (q : ℤ)
    → lot_is_of id (lookup j t) ≡ false
    → taken (belongs_to j (kept_entry id t o)) q ≡ taken (belongs_to j o) q
taken-kept_entry j id t none q h = refl
taken-kept_entry j id t (some e) q h = elim (Bool-cases (lot_is_of id (lookup e t))) [
  | inl m ↦ elim (Bool-cases (e == j)) [
    | inl s ↦
        let same : e ≡ j = (==_iff e j).0 s in let bad : true ≡ false = sym m ∙ rw same h in cc
    | inr s ↦ rw (m, s)
  ]
  | inr m ↦ rw m
]

used_of-forget_lots :
    (j id : ℕ) (t : Table StockEntry) (us : List SupplyUsage)
    → lot_is_of id (lookup j t) ≡ false
    → used_of j (map (forget_lots id t) us) ≡ used_of j us
used_of-forget_lots j id t [] h = refl
used_of-forget_lots j id t (u ∷ us) h = rw (
  taken-kept_entry j id t u.supply_stock_entry_id u.quantity_used h,
  used_of-forget_lots j id t us h,
)

pub brings-other :
    (id p stock : ℕ) (moves : List SupplyMovement)
    → (p == id) ≡ false
    → any (brings p stock) moves ≡ true
    → any (brings p stock) (keep_if (other id) moves) ≡ true
brings-other id p stock [] ne h = h
brings-other id p stock (m ∷ moves) ne h = elim (Bool-cases (belongs_to id m.supply_purchase_id)) [
  | inl mine ↦
      let off : brings p stock m ≡ false = brings_off m.supply_purchase_id mine in
      rw mine (brings-other id p stock moves ne (rw off at h))
  | inr kept ↦ elim (Bool-cases (brings p stock m)) [
    | inl b ↦ rw (kept, b)
    | inr b ↦ rw (kept, b) (brings-other id p stock moves ne (rw b at h))
  ]
]
  where
    brings_off :
        (o : Option ℕ)
        → belongs_to id o ≡ true
        → (belongs_to p o && m.stock_id == stock && not (is_some m.production_id)) ≡ false
    brings_off none e = refl
    brings_off (some q) e = let off : (q == p) ≡ false = ground arith in rw off

module _ ⦃ar : Arith⦄ where
  stays_rows :
      (id k : ℕ) (moves : List SupplyMovement) (t : Table StockEntry)
      → AllRows (IsLot moves) t
      → contains k (stocks_of id moves) ≡ false
      → AllRows (StaysOn k (not_lot_of id)) t
  stays_rows id k moves [] h f = tt
  stays_rows id k moves ((j, e) ∷ t) h f =
      (Stays-row id k moves e e.supply_purchase_id h.0.2 f, stays_rows id k moves t h.1 f)

  AreUses-forget_lots :
      (n id : ℕ) (t : Table StockEntry) (us : List SupplyUsage)
      → AreUses n us
      → AreUses n (map (forget_lots id t) us)
  AreUses-forget_lots n id t [] h = tt
  AreUses-forget_lots n id t (u ∷ us) h =
      (IsUse-kept_entry u.supply_stock_entry_id h.0, AreUses-forget_lots n id t us h.1)
    where
      IsUse-kept_entry :
          (o : Option ℕ) → IsUse n o u.quantity_used → IsUse n (kept_entry id t o) u.quantity_used
      IsUse-kept_entry none h = tt
      IsUse-kept_entry (some e) h = elim (Bool-cases (lot_is_of id (lookup e t))) [
        | inl m ↦ rw m tt
        | inr m ↦ rw m h
      ]

  Accounts-kept :
      (j id : ℕ) (t : Table StockEntry) (us : List SupplyUsage) (o : Option StockEntry)
      → lookup j t ≡ o
      → Accounts (used_of j us) o
      → Accounts (used_of j (map (forget_lots id t) us)) (select (not_lot_of id) o)
  Accounts-kept j id t us none e h = tt
  Accounts-kept j id t us (some row) e h = elim (Bool-cases (is_lot_of id row)) [
    | inl m ↦ rw m tt
    | inr m ↦ rw (m, used_of-forget_lots j id t us (ap (lot_is_of id) e ∙ m)) h
  ]

  pub withdraw-HasLots :
      (id n : ℕ) (entries : Table StockEntry) (stocks : Table SupplyStock)
      (moves : List SupplyMovement) (usages : List SupplyUsage)
      → HasLots n entries stocks moves usages []
      → HasLots n
          (keep_rows (not_lot_of id) entries)
          stocks
          moves
          (map (forget_lots id entries) usages)
          (stocks_of id moves)
  withdraw-HasLots id n entries stocks moves usages h = record {
    started = h.started;
    unique = keep_rows-HasUniqueKeys (not_lot_of id) entries h.unique;
    fresh = keep_rows-KeysBelow (not_lot_of id) n entries h.fresh;
    fresh_stocks = h.fresh_stocks;
    located = AllRows-keep_if (IsPlaced n) (not_lot_of id) entries h.located;
    lots = AllRows-keep_if (IsLot moves) (not_lot_of id) entries h.lots;
    uses = AreUses-forget_lots n id entries usages h.uses;
    accounted = λ j.
        rw (lookup-keep_rows (not_lot_of id) j entries h.unique)
          (Accounts-kept j id entries usages (lookup j entries) refl (h.accounted j));
    synced = λ k.
        InSync-to false (contains k (stocks_of id moves)) k entries
          (keep_rows (not_lot_of id) entries) (lookup k stocks)
          (λ f. (
            refl,
            total_remaining-keep_rows k (not_lot_of id) entries
                (stays_rows id k moves entries h.lots f),
          ))
          (h.synced k);
  }
