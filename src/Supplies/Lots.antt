-- ===== src/Supplies/Lots.antt =====
-- The state of the lots: what remains in each, what the usages say of it, and the quantity of its
-- stock (src/modules/supply-stocks/supply-stocks.repository.ts).
use easy_point_api.Base.{
  All, Bool, true, false, List, [], ◌∷◌, ◌++◌, Option, none, some, ℕ, ◌<◌, ◌==◌, ◌&&◌, ◌≡◌, any,
  contains, is_some, not,
}
use easy_point_api.Base.Int.{ℤ, pos, ◌+ℤ◌, ◌≤ℤ◌}
use easy_point_api.Base.Table.{Table, lookup}
use easy_point_api.Base.Table.Rows.{AllRows}
use easy_point_api.Base.Table.Unique.{HasUniqueKeys}
use easy_point_api.Base.Table.Fresh.{KeysBelow}
use easy_point_api.Sales.Create.{belongs_to}
use easy_point_api.Decimal.{Arith, IsColumn, to_column, ceiling}
use easy_point_api.Supplies.{total_remaining}
use easy_point_api.Database.{Db, StockEntry, SupplyMovement, SupplyStock, SupplyUsage}

-- What a usage takes from a lot, and what all of them take.
abbrev pub taken : Bool → ℤ → ℤ
taken true q = q
taken false q = pos 0

abbrev pub used_of : ℕ → List SupplyUsage → ℤ
used_of id [] = pos 0
used_of id (u ∷ us) = taken (belongs_to id u.supply_stock_entry_id) u.quantity_used +ℤ used_of id us

-- A lot held at first what remains and what was used.
abbrev pub Accounts : ℤ → Option StockEntry → Type 0
Accounts used none = Unit
Accounts used (some e) = e.initial_quantity ≡ e.remaining_quantity +ℤ used

-- The movement of a purchase that brought supplies to a stock.
abbrev pub brings : ℕ → ℕ → SupplyMovement → Bool
brings purchase stock m =
    belongs_to purchase m.supply_purchase_id && m.stock_id == stock && not (is_some m.production_id)

abbrev pub IsBrought : List SupplyMovement → ℕ → Option ℕ → Type 0
IsBrought moves stock none = Unit
IsBrought moves stock (some purchase) = any (brings purchase stock) moves ≡ true

-- A lot is in a stock that exists or existed.
abbrev pub IsPlaced : ℕ → StockEntry → Type 0
IsPlaced n e = e.supply_stock_id < n

module _ ⦃ar : Arith⦄ where
  -- The quantity of a stock is what remains in its lots, in whole packages, unless it is `loose`.
  abbrev pub InSync : Bool → ℕ → Table StockEntry → Option SupplyStock → Type 0
  InSync true k entries o = Unit
  InSync false k entries none = Unit
  InSync false k entries (some s) = s.quantity ≡ to_column (ceiling (total_remaining k entries))

  abbrev pub IsLot : List SupplyMovement → StockEntry → Type 0
  IsLot moves e =
      IsColumn e.remaining_quantity
      × (pos 0 ≤ℤ e.remaining_quantity)
      × IsBrought moves e.supply_stock_id e.supply_purchase_id

  -- A usage of a lot is of one that exists or existed.
  abbrev pub IsUse : ℕ → Option ℕ → ℤ → Type 0
  IsUse n none q = Unit
  IsUse n (some id) q = (id < n) × IsColumn q × (pos 0 ≤ℤ q)

  abbrev pub AreUses : ℕ → List SupplyUsage → Type 0
  AreUses n = All (λ (u : SupplyUsage). IsUse n u.supply_stock_entry_id u.quantity_used)

  -- Stocks in `loose` are still to be brought up to date.
  pub record HasLots (n : ℕ) (entries : Table StockEntry) (stocks : Table SupplyStock)
      (moves : List SupplyMovement) (usages : List SupplyUsage) (loose : List ℕ) : Type 0 where
    pub started : 0 < n
    pub unique : HasUniqueKeys entries
    pub fresh : KeysBelow n entries
    pub fresh_stocks : KeysBelow n stocks
    pub located : AllRows (IsPlaced n) entries
    pub lots : AllRows (IsLot moves) entries
    pub uses : AreUses n usages
    pub accounted : (id : ℕ) → Accounts (used_of id usages) (lookup id entries)
    pub synced : (k : ℕ) → InSync (contains k loose) k entries (lookup k stocks)

  -- Lots and stocks with usages that are still to be stored.
  abbrev pub HoldsLots : List SupplyUsage → List ℕ → Db → Type 0
  HoldsLots waiting loose db =
      HasLots db.supplies.next_supply_id db.supplies.entries db.supplies.supply_stocks
        db.supplies.supply_movements (waiting ++ db.supplies.usages) loose

  abbrev pub HasSoundLots : Db → Type 0
  HasSoundLots db = HoldsLots [] [] db
