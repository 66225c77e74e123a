-- ===== src/Supplies/Steps.antt =====
-- The writes to lots and to the quantities of their stocks
-- (src/modules/supply-stock-entries/supply-stock-entries.repository.ts and
-- src/modules/supply-stocks/supply-stocks.repository.ts).
use easy_point_api.Base.{
  Bool-cases, true, false, List, ◌∷◌, ◌++◌, some, ℕ, suc, ◌<◌, ◌==◌, ==_iff, ◌≡◌, refl, ap, ◌∙◌,
  arith, contains, inl, inr,
}
use easy_point_api.Base.Int.{pos, ◌+ℤ◌, int_laws}
use easy_point_api.Base.Table.{
  Table, lookup, insert, put, lookup-insert, lookup-put_self, lookup-put_ne,
}
use easy_point_api.Base.Table.Rows.{AllRows-put, AllRows-lookup}
use easy_point_api.Base.Table.Unique.{put-HasUniqueKeys}
use easy_point_api.Base.Table.Fresh.{KeysBelow-suc, lookup-KeysBelow, put-KeysBelow}
use easy_point_api.Decimal.{Arith, RoundingLaws, to_column, ceiling}
use easy_point_api.Supplies.{total_remaining}
use easy_point_api.Supplies.Remaining.{total_remaining-insert, total_remaining-put}
use easy_point_api.Supplies.Lots.{used_of, IsLot, AreUses, IsPlaced, HasLots}
use easy_point_api.Database.{StockEntry, SupplyMovement, SupplyStock, SupplyUsage}
use easy_point_api.Supplies.Uses.{
  IsPlaced-suc, off_stock, or_right, or_left, IsLot-append, AreUses-suc, used_of-fresh, InSync-to,
  exact_sync, empty_sync,
}

module _ ⦃ar : Arith⦄ where
  module _ {n : ℕ} {entries : Table StockEntry} {stocks : Table SupplyStock}
      {moves : List SupplyMovement} {usages : List SupplyUsage} {loose : List ℕ}
      (h : HasLots n entries stocks moves usages loose) where
    -- A new lot.
    pub insert-HasLots :
        (e : StockEntry)
        → e.initial_quantity ≡ e.remaining_quantity
        → IsLot moves e
        → e.supply_stock_id < n
        → HasLots (suc n) (insert n e entries) stocks moves usages (e.supply_stock_id ∷ loose)
    insert-HasLots e full lot place = record {
      started = omega arith;
      unique = (lookup-KeysBelow n entries h.fresh, h.unique);
      fresh = (omega arith, KeysBelow-suc n entries h.fresh);
      fresh_stocks = KeysBelow-suc n stocks h.fresh_stocks;
      located = (omega arith, IsPlaced-suc n entries h.located);
      lots = (lot, h.lots);
      uses = AreUses-suc n usages h.uses;
      accounted = λ id. elim (Bool-cases (id == n)) [
        | inl m ↦
            let same : id ≡ n = (==_iff id n).0 m in
            rw (lookup-insert id n e entries, m)
              (rw (same, used_of-fresh n usages h.uses, full) (omega int_laws))
        | inr m ↦ rw (lookup-insert id n e entries, m) (h.accounted id)
      ];
      synced = λ k.
          InSync-to (contains k loose) (contains k (e.supply_stock_id ∷ loose)) k entries
            (insert n e entries) (lookup k stocks)
            (λ f. (
              or_right (k == e.supply_stock_id) (contains k loose) f,
              total_remaining-insert k n e entries
                  (off_stock k (e.supply_stock_id ∷ loose) e (or_left e.supply_stock_id loose) f),
            ))
            (h.synced k);
    }

    -- A lot changes, and the usages of it with it.
    pub put-HasLots :
        (id : ℕ) (e e' : StockEntry) (usages' : List SupplyUsage) (loose' : List ℕ)
        → lookup id entries ≡ some e
        → e'.supply_stock_id ≡ e.supply_stock_id
        → IsLot moves e'
        → e'.initial_quantity ≡ e'.remaining_quantity +ℤ used_of id usages'
        → AreUses n usages'
        → ((j : ℕ) → (j == id) ≡ false → used_of j usages' ≡ used_of j usages)
        → contains e.supply_stock_id loose' ≡ true
        → ((k : ℕ) → contains k loose' ≡ false → contains k loose ≡ false)
        → HasLots n (put id e' entries) stocks moves usages' loose'
    put-HasLots id e e' usages' loose' found place lot account uses others listed more = record {
      started = h.started;
      unique = put-HasUniqueKeys id e' entries h.unique;
      fresh = put-KeysBelow n id e' entries h.fresh;
      fresh_stocks = h.fresh_stocks;
      located =
          AllRows-put (IsPlaced n) id e' entries h.located
            (rw place (AllRows-lookup (IsPlaced n) id {v = e} entries h.located found));
      lots = AllRows-put (IsLot moves) id e' entries h.lots lot;
      uses = uses;
      accounted = λ j. elim (Bool-cases (j == id)) [
        | inl m ↦
            let same : j ≡ id = (==_iff j id).0 m in
            rw (same, lookup-put_self id {w = e} e' entries found) account
        | inr m ↦ rw (lookup-put_ne j id e' entries (ground arith), others j m) (h.accounted j)
      ];
      synced = λ k.
          InSync-to (contains k loose) (contains k loose') k entries (put id e' entries)
            (lookup k stocks)
            (λ f. (
              more k f,
              let off = off_stock k loose' e listed f in
                  total_remaining-put k id e e' entries found off (ap (λ s. s == k) place ∙ off),
            ))
            (h.synced k);
    }

    -- A stock is brought up to date.
    pub sync-HasLots :
        (k : ℕ) (s : SupplyStock) (rest : List ℕ)
        → lookup k stocks ≡ some s
        → loose ≡ k ∷ rest
        → HasLots n entries
            (put k (record s { quantity = to_column (ceiling (total_remaining k entries)) }) stocks)
            moves
            usages
            rest
    sync-HasLots k s rest found e = record {
      started = h.started;
      unique = h.unique;
      fresh = h.fresh;
      fresh_stocks = put-KeysBelow n k _ stocks h.fresh_stocks;
      located = h.located;
      lots = h.lots;
      uses = h.uses;
      accounted = h.accounted;
      synced = λ j. elim (Bool-cases (j == k)) [
        | inl m ↦
            let same : j ≡ k = (==_iff j k).0 m in
            rw (same, lookup-put_self k {w = s} _ stocks found)
              (exact_sync (contains k rest) k entries s)
        | inr m ↦
            let s' : SupplyStock = record s {
              quantity = to_column (ceiling (total_remaining k entries));
            } in
            rw (lookup-put_ne j k s' stocks (ground arith)) (
              InSync-to (contains j loose) (contains j rest) j entries entries (lookup j stocks)
                (λ f. (rw (e, m) f, refl)) (h.synced j))
      ];
    }

    -- Stocks may be taken for loose.
    pub loosen-HasLots :
        (loose' : List ℕ)
        → ((k : ℕ) → contains k loose' ≡ false → contains k loose ≡ false)
        → HasLots n entries stocks moves usages loose'
    loosen-HasLots loose' more = record {
      started = h.started;
      unique = h.unique;
      fresh = h.fresh;
      fresh_stocks = h.fresh_stocks;
      located = h.located;
      lots = h.lots;
      uses = h.uses;
      accounted = h.accounted;
      synced = λ k.
          InSync-to (contains k loose) (contains k loose') k entries entries (lookup k stocks)
            (λ f. (more k f, refl)) (h.synced k);
    }

    -- Usages are written otherwise.
    pub recount-HasLots :
        (usages' : List SupplyUsage)
        → AreUses n usages'
        → ((j : ℕ) → used_of j usages' ≡ used_of j usages)
        → HasLots n entries stocks moves usages' loose
    recount-HasLots usages' uses same = record {
      started = h.started;
      unique = h.unique;
      fresh = h.fresh;
      fresh_stocks = h.fresh_stocks;
      located = h.located;
      lots = h.lots;
      uses = uses;
      accounted = λ j. rw (same j) (h.accounted j);
      synced = h.synced;
    }

    -- Movements are recorded.
    pub moves-HasLots :
        (new : List SupplyMovement) → HasLots n entries stocks (new ++ moves) usages loose
    moves-HasLots new = record {
      started = h.started;
      unique = h.unique;
      fresh = h.fresh;
      fresh_stocks = h.fresh_stocks;
      located = h.located;
      lots = IsLot-append new moves entries h.lots;
      uses = h.uses;
      accounted = h.accounted;
      synced = h.synced;
    }

    -- An id is drawn for another table.
    pub next-HasLots : HasLots (suc n) entries stocks moves usages loose
    next-HasLots = record {
      started = omega arith;
      unique = h.unique;
      fresh = KeysBelow-suc n entries h.fresh;
      fresh_stocks = KeysBelow-suc n stocks h.fresh_stocks;
      located = IsPlaced-suc n entries h.located;
      lots = h.lots;
      uses = AreUses-suc n usages h.uses;
      accounted = h.accounted;
      synced = h.synced;
    }

    -- A stock is made, without lots.
    pub new_stock-HasLots :
        RoundingLaws ar
        → (s : SupplyStock) → s.quantity ≡ pos 0
        → HasLots (suc n) entries (insert n s stocks) moves usages loose
    new_stock-HasLots laws s empty = record {
      started = omega arith;
      unique = h.unique;
      fresh = KeysBelow-suc n entries h.fresh;
      fresh_stocks = (omega arith, KeysBelow-suc n stocks h.fresh_stocks);
      located = IsPlaced-suc n entries h.located;
      lots = h.lots;
      uses = AreUses-suc n usages h.uses;
      accounted = h.accounted;
      synced = λ k. elim (Bool-cases (k == n)) [
        | inl m ↦
            let same : k ≡ n = (==_iff k n).0 m in
            rw (lookup-insert k n s stocks, m)
              (rw same (empty_sync laws (contains n loose) n entries s empty h.located))
        | inr m ↦ rw (lookup-insert k n s stocks, m) (h.synced k)
      ];
    }
