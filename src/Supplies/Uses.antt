-- ===== src/Supplies/Uses.antt =====
-- What lots, usages and stocks are said to be, under changes of what it refers to
-- (src/modules/supply-stocks/supply-stocks.repository.ts).
use easy_point_api.Base.{
  Bool, Bool-cases, true, false, List, [], ◌∷◌, ◌++◌, Option, none, some, ℕ, suc, ◌==◌, ◌||◌,
  ==_iff, ==_refl, ◌≡◌, refl, ap, sym, ◌∙◌, arith, contains, inl, inr,
}
use easy_point_api.Base.Int.{ℤ, pos, ◌+ℤ◌, int_laws}
use easy_point_api.Base.Table.{Table}
use easy_point_api.Base.Table.Rows.{AllRows}
use easy_point_api.Sales.Create.{belongs_to}
use easy_point_api.Decimal.{Arith, RoundingLaws, to_column, ceiling}
use easy_point_api.Supplies.{total_remaining}
use easy_point_api.Supplies.Remaining.{on_stock, total_remaining-zero}
use easy_point_api.Supplies.Lots.{
  taken, used_of, InSync, IsBrought, brings, IsLot, IsUse, AreUses, IsPlaced,
}
use easy_point_api.Database.{StockEntry, SupplyMovement, SupplyStock, SupplyUsage}

pub used_of-append :
    (id : ℕ) (us vs : List SupplyUsage) → used_of id (us ++ vs) ≡ used_of id us +ℤ used_of id vs
used_of-append id [] vs = omega int_laws
used_of-append id (u ∷ us) vs = rw (used_of-append id us vs) (omega int_laws)

pub or_right : (a b : Bool) → (a || b) ≡ false → b ≡ false
or_right true b h = cc
or_right false b h = h

pub or_left : (k : ℕ) (ks : List ℕ) → contains k (k ∷ ks) ≡ true
or_left k ks = rw (==_refl k)

pub IsPlaced-suc :
    (n : ℕ) (t : Table StockEntry) → AllRows (IsPlaced n) t → AllRows (IsPlaced (suc n)) t
IsPlaced-suc n [] h = tt
IsPlaced-suc n ((j, w) ∷ t) h = (omega arith, IsPlaced-suc n t h.1)

pub IsBrought-append :
    (new moves : List SupplyMovement) (stock : ℕ) (o : Option ℕ)
    → IsBrought moves stock o
    → IsBrought (new ++ moves) stock o
IsBrought-append new moves stock none h = tt
IsBrought-append [] moves stock (some p) h = h
IsBrought-append (m ∷ new) moves stock (some p) h =
    or_true (brings p stock m) _ (IsBrought-append new moves stock (some p) h)
  where
    or_true : (a b : Bool) → b ≡ true → (a || b) ≡ true
    or_true true b h = refl
    or_true false b h = h

pub off_stock :
    (k : ℕ) (loose : List ℕ) (e : StockEntry)
    → contains e.supply_stock_id loose ≡ true
    → contains k loose ≡ false
    → on_stock k e ≡ false
off_stock k loose e a b = elim (Bool-cases (on_stock k e)) [
  | inl m ↦
      let same : e.supply_stock_id ≡ k = (==_iff e.supply_stock_id k).0 m in
      let bad : true ≡ false = sym a ∙ ap (λ j. contains j loose) same ∙ b in cc
  | inr m ↦ m
]

module _ ⦃ar : Arith⦄ where
  pub IsLot-append :
      (new moves : List SupplyMovement) (t : Table StockEntry)
      → AllRows (IsLot moves) t
      → AllRows (IsLot (new ++ moves)) t
  IsLot-append new moves [] h = tt
  IsLot-append new moves ((j, e) ∷ t) h = (
    (h.0.0, h.0.1, IsBrought-append new moves e.supply_stock_id e.supply_purchase_id h.0.2),
    IsLot-append new moves t h.1,
  )

  IsUse-suc : (n : ℕ) (o : Option ℕ) (q : ℤ) → IsUse n o q → IsUse (suc n) o q
  IsUse-suc n none q h = tt
  IsUse-suc n (some id) q h = (omega arith, h.1, h.2)

  pub AreUses-suc : (n : ℕ) (us : List SupplyUsage) → AreUses n us → AreUses (suc n) us
  AreUses-suc n [] h = tt
  AreUses-suc n (u ∷ us) h =
      (IsUse-suc n u.supply_stock_entry_id u.quantity_used h.0, AreUses-suc n us h.1)

  taken-fresh : (n : ℕ) (o : Option ℕ) (q : ℤ) → IsUse n o q → taken (belongs_to n o) q ≡ pos 0
  taken-fresh n none q h = refl
  taken-fresh n (some id) q h =
      let test : (id == n) ≡ false = ground arith in ap (λ b. taken b q) test

  pub used_of-fresh : (n : ℕ) (us : List SupplyUsage) → AreUses n us → used_of n us ≡ pos 0
  used_of-fresh n [] h = refl
  used_of-fresh n (u ∷ us) h =
      rw (taken-fresh n u.supply_stock_entry_id u.quantity_used h.0, used_of-fresh n us h.1)
        (omega int_laws)

  pub InSync-to :
      (b b' : Bool) (k : ℕ) (entries entries' : Table StockEntry) (o : Option SupplyStock)
      → (b' ≡ false → (b ≡ false) × (total_remaining k entries' ≡ total_remaining k entries))
      → InSync b k entries o
      → InSync b' k entries' o
  InSync-to b true k entries entries' o g h = tt
  InSync-to b false k entries entries' none g h = tt
  InSync-to b false k entries entries' (some s) g h =
      let (f, t) = g refl in
      let h' : s.quantity ≡ to_column (ceiling (total_remaining k entries)) = rw f at h in
      h' ∙ ap (λ z. to_column (ceiling z)) (sym t)

  pub exact_sync :
      (b : Bool) (k : ℕ) (entries : Table StockEntry) (s : SupplyStock)
      → InSync b k entries
          (some (record s { quantity = to_column (ceiling (total_remaining k entries)) }))
  exact_sync true k entries s = tt
  exact_sync false k entries s = refl

  pub empty_sync :
      RoundingLaws ar
      → (b : Bool) (k : ℕ) (entries : Table StockEntry) (s : SupplyStock) → s.quantity ≡ pos 0
      → AllRows (IsPlaced k) entries
      → InSync b k entries (some s)
  empty_sync laws true k entries s e p = tt
  empty_sync laws false k entries s e p =
      rw (total_remaining-zero k entries p, laws.ceiling_zero, laws.zero_stored) e
