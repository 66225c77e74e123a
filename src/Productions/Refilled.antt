-- ===== src/Productions/Refilled.antt =====
-- How the lots are refilled when a completed production is removed
-- (src/modules/productions/productions.service.ts).
use easy_point_api.Base.{
  Bool, Bool-cases, Option-cases, true, false, List, [], ◌∷◌, Option, none, some, ℕ, ◌||◌, ◌==◌,
  ==_iff, ==_refl, ◌≡◌, ◌≤◌, ◌++◌, contains, keep_if, ◌⊎◌, refl, sym, ◌∙◌, arith, inl, inr, not,
}
use easy_point_api.Base.Int.{ℤ, ◌+ℤ◌, int_laws}
use easy_point_api.Base.Table.{Table, lookup, put}
use easy_point_api.Base.Table.Rows.{AllRows-lookup}
use easy_point_api.Decimal.{Arith, RoundingLaws, to_column}
use easy_point_api.Inventory.{find_stock, increment_quantity, principal}
use easy_point_api.Supplies.{sync_quantity}
use easy_point_api.Supplies.Lots.{taken, used_of, IsUse, IsLot, HasLots, HasSoundLots, HoldsLots}
use easy_point_api.Supplies.Steps.{put-HasLots}
use easy_point_api.Supplies.Uses.{used_of-append}
use easy_point_api.Supplies.Kept.{next_of, sync_quantity-HoldsLots}
use easy_point_api.Supplies.Logic.{supplies_view}
use easy_point_api.Productions.Removal.{
  refill_lot, refill_lots, refilled, take_back_product, with_stock,
}
use easy_point_api.Database.{
  Db, Ensures, Ensures-bind, Ensures-weaken, Keeps, StockEntry, SupplyMovement, SupplyStock,
  SupplyUsage, for_each,
}

or_false : (a b : Bool) → (a || b) ≡ false → (a ≡ false) × (b ≡ false)
or_false true b h = cc
or_false false b h = (refl, h)

contains-snoc :
    (k : ℕ) (ks : List ℕ) (s : ℕ) → contains k (ks ++ s ∷ []) ≡ (contains k ks || k == s)
contains-snoc k [] s = elim (Bool-cases (k == s)) [ inl m ↦ rw m | inr m ↦ rw m ]
contains-snoc k (j ∷ ks) s = elim (Bool-cases (k == j)) [
  | inl m ↦ rw m
  | inr m ↦ rw m (contains-snoc k ks s)
]

with_stock_listed : (ks : List ℕ) (s : ℕ) → contains s (with_stock ks s) ≡ true
with_stock_listed ks s = elim (Bool-cases (contains s ks)) [
  | inl m ↦ rw m m
  | inr m ↦ rw m (rw (contains-snoc s ks s, m) (==_refl s))
]

with_stock_more :
    (ks : List ℕ) (s k : ℕ) → contains k (with_stock ks s) ≡ false → contains k ks ≡ false
with_stock_more ks s k h = elim (Bool-cases (contains s ks)) [
  | inl m ↦ rw m at h
  | inr m ↦ (or_false (contains k ks) (k == s) (sym (contains-snoc k ks s) ∙ rw m at h)).0
]

-- The usages of a production, and the others, take together what all take.
pub used_of-split :
    (j : ℕ) (p : SupplyUsage → Bool) (us : List SupplyUsage)
    → used_of j (keep_if p us ++ keep_if (λ u. not (p u)) us) ≡ used_of j us
used_of-split j p us = used_of-append j (keep_if p us) (keep_if (λ u. not (p u)) us) ∙ parts us
  where
    parts :
        (us : List SupplyUsage)
        → used_of j (keep_if p us) +ℤ used_of j (keep_if (λ u. not (p u)) us) ≡ used_of j us
    parts [] = omega int_laws
    parts (u ∷ us) = elim (Bool-cases (p u)) [
      | inl m ↦ rw m (rw (← parts us) (omega int_laws))
      | inr m ↦ rw m (rw (← parts us) (omega int_laws))
    ]

module _ ⦃ar : Arith⦄ where
  pub take_back_product-Keeps :
      (id : ℕ) (quantity : ℤ) (product : Option ℕ)
      → Keeps supplies_view (take_back_product id quantity product)
  unfolding take_back_product increment_quantity
  take_back_product-Keeps id quantity none db = refl
  take_back_product-Keeps id quantity (some product) db =
      elim (Option-cases (find_stock product principal db.stocks)) [
        | inl e ↦ rw (e, Ensures) tt
        | inr (stock, e) ↦ elim (Option-cases (lookup stock db.stocks)) [
          | inl e' ↦ rw (e, e', Ensures) tt
          | inr (s, e') ↦ rw (e, e', Ensures) refl
        ]
      ]

  -- The lots with usages given apart.
  abbrev pub LotsWith : List SupplyUsage → List ℕ → Db → Type 0
  LotsWith us loose db =
      HasLots db.supplies.next_supply_id db.supplies.entries db.supplies.supply_stocks
        db.supplies.supply_movements us loose

module _ ⦃ar : Arith⦄ (laws : RoundingLaws ar) where
  module _ {n : ℕ} {entries : Table StockEntry} {stocks : Table SupplyStock}
      {moves : List SupplyMovement} {loose : List ℕ} (u : SupplyUsage) (rest : List SupplyUsage)
      (h : HasLots n entries stocks moves (u ∷ rest) loose) where
    -- A usage goes back into its lot.
    refill-HasLots :
        (id : ℕ) (e : StockEntry)
        → u.supply_stock_entry_id ≡ some id
        → lookup id entries ≡ some e
        → HasLots n
            (put id (refilled e u.quantity_used) entries)
            stocks
            moves
            rest
            (with_stock loose e.supply_stock_id)
    refill-HasLots id e lot found =
        let gave : IsUse n (some id) u.quantity_used = rw lot at h.uses.0 in
        let here : IsLot moves e = AllRows-lookup (IsLot moves) id {v = e} entries h.lots found in
        let stored : to_column (e.remaining_quantity +ℤ u.quantity_used)
            ≡ e.remaining_quantity +ℤ u.quantity_used =
          laws.add_stored e.remaining_quantity u.quantity_used here.0 gave.1 in
        let before : e.initial_quantity
            ≡ e.remaining_quantity +ℤ (taken (id == id) u.quantity_used +ℤ used_of id rest) =
          rw (found, lot) at (h.accounted id) in
        put-HasLots h id e (refilled e u.quantity_used) rest (with_stock loose e.supply_stock_id)
          found refl
          (
            laws.stored _,
            laws.keeps_sign _ (let s = here.1 in let t = gave.2 in omega int_laws),
            here.2,
          )
          (rw (stored, before, ==_refl id) (omega int_laws)) h.uses.1
          (λ j m. rw (lot, ==_sym id j m) (omega int_laws))
          (with_stock_listed loose e.supply_stock_id)
          (λ k f. with_stock_more loose e.supply_stock_id k f)
      where
        ==_sym : (a b : ℕ) → (b == a) ≡ false → (a == b) ≡ false
        ==_sym a b h = ground arith

    -- A usage without a lot, or of one that is gone, is left out.
    drop-HasLots :
        ((j : ℕ) → (used_of j rest ≡ used_of j (u ∷ rest)) ⊎ (lookup j entries ≡ none))
        → HasLots n entries stocks moves rest loose
    drop-HasLots free = record {
      started = h.started;
      unique = h.unique;
      fresh = h.fresh;
      fresh_stocks = h.fresh_stocks;
      located = h.located;
      lots = h.lots;
      uses = h.uses.1;
      accounted = λ j. elim (free j) [ inl same ↦ rw same (h.accounted j) | inr gone ↦ rw gone tt ];
      synced = h.synced;
    }

  refill_lot-LotsWith :
      (u : SupplyUsage) (rest : List SupplyUsage) (affected : List ℕ) (o : Option ℕ) (db : Db)
      → u.supply_stock_entry_id ≡ o
      → LotsWith (u ∷ rest) affected db
      → Ensures
          (λ affected' db'.
            LotsWith rest affected' db' × (db'.supplies.usages ≡ db.supplies.usages))
          (refill_lot u.quantity_used affected o db)
  unfolding refill_lot
  refill_lot-LotsWith u rest affected none db lot h =
      (drop-HasLots u rest h (λ j. inl (rw lot (omega int_laws))), refl)
  refill_lot-LotsWith u rest affected (some id) db lot h =
      elim (Option-cases (lookup id db.supplies.entries)) [
        | inl e ↦
            rw (e, Ensures)
              (
                drop-HasLots u rest h (λ j. elim (Bool-cases (id == j)) [
                  | inl m ↦ let same : id ≡ j = (==_iff id j).0 m in inr (rw (← same) e)
                  | inr m ↦ inl (rw (lot, m) (omega int_laws))
                ]),
                refl,
              )
        | inr (row, e) ↦ rw (e, Ensures) (refill-HasLots u rest h id row lot e, refl)
      ]

  pub refill_lots-LotsWith :
      (us rest : List SupplyUsage) (affected : List ℕ) (db : Db)
      → LotsWith (us ++ rest) affected db
      → Ensures
          (λ affected' db'.
            LotsWith rest affected' db' × (db'.supplies.usages ≡ db.supplies.usages))
          (refill_lots us affected db)
  unfolding refill_lots
  refill_lots-LotsWith [] rest affected db h = (h, refl)
  refill_lots-LotsWith (u ∷ us) rest affected db h =
      Ensures-bind
        (λ affected' db'.
          LotsWith (us ++ rest) affected' db' × (db'.supplies.usages ≡ db.supplies.usages))
        (λ affected' db'. LotsWith rest affected' db' × (db'.supplies.usages ≡ db.supplies.usages))
        (refill_lot u.quantity_used affected u.supply_stock_entry_id)
        (λ affected'. refill_lots us affected') db
        (refill_lot-LotsWith u (us ++ rest) affected u.supply_stock_entry_id db refl h)
        (λ affected' db' p.
          Ensures-weaken _ _ (refill_lots us affected' db')
            (refill_lots-LotsWith us rest affected' db' p.0) (λ a db'' q. (q.0, q.1 ∙ p.1)))

  pub sync_all-HasSoundLots :
      (affected : List ℕ) (db : Db)
      → HoldsLots [] affected db
      → Ensures (λ _ db'. HasSoundLots db') (for_each affected sync_quantity db)
  unfolding for_each
  sync_all-HasSoundLots [] db h = h
  sync_all-HasSoundLots (k ∷ ks) db h =
      Ensures-bind
        (λ _ db'.
          HoldsLots [] ks db'
          × (db'.supplies.supply_movements ≡ db.supplies.supply_movements)
          × (next_of db ≤ next_of db'))
        (λ _ db'. HasSoundLots db') (sync_quantity k) (λ _. for_each ks sync_quantity) db
        (sync_quantity-HoldsLots laws k [] ks db h) (λ _ db' p. sync_all-HasSoundLots ks db' p.0)
