-- ===== src/Sales/Resolve.antt =====
-- The map that `resolveStocks` of src/modules/sales/sales.service.ts makes.
use easy_point_api.Base.{
  Bool-cases, Option-cases, arith, if◌then◌else◌, inl, inr, is_some, refl, some, true, ℕ, ◌&&◌,
  ◌==◌, ◌∷◌, ◌≡◌, All, List, [], Option, length, none, not, ap,
}
use easy_point_api.Inventory.{find_stock, location_of}
use easy_point_api.Base.Table.{Table}
use easy_point_api.Database.{
  Db, Stock, ok, Ensures, Ensures-weaken, Result-cases, Ensures-both, Keeps,
}
use easy_point_api.Sales.Items.{
  SaleItem, StockMap, resolve_stock, stock_in, resolve_from, resolve_stocks, stock_id_of,
  count_products, product_ids,
}
use easy_point_api.Base.Int.{pos, ℤ, ◌+ℤ◌}
use easy_point_api.Sales.Stock.{required_of}

-- The map says of a product and a location what the table says.
abbrev pub IsSound : StockMap → Table Stock → Type 0
IsSound m t = (p l id : ℕ) → stock_in p l m ≡ some id → find_stock p l t ≡ some id

abbrev Extends : StockMap → StockMap → Type 0
Extends m m' = (p l : ℕ) → is_some (stock_in p l m) ≡ true → is_some (stock_in p l m') ≡ true

abbrev IsKnown : StockMap → SaleItem → Type 0
IsKnown m item = is_some (stock_in item.product_id (location_of item.location) m) ≡ true

-- The record that a line draws on.
abbrev pub DrawsOn : Table Stock → SaleItem → ℕ → Type 0
DrawsOn t item id = find_stock item.product_id (location_of item.location) t ≡ some id

stock_in-cons :
    (p l q k id : ℕ) (m : StockMap)
    → stock_in p l ((q, k, id) ∷ m) ≡ (if q == p && k == l then some id else stock_in p l m)
unfolding stock_in
stock_in-cons p l q k id m = refl

empty-IsSound : (t : Table Stock) → IsSound [] t
unfolding stock_in
empty-IsSound t p l id h = cc

added-IsSound :
    (q k id : ℕ) (m : StockMap) (t : Table Stock)
    → find_stock q k t ≡ some id
    → IsSound m t
    → IsSound ((q, k, id) ∷ m) t
added-IsSound q k id m t found sound p l j e =
    ground (arith, stock_in-cons p l q k id m, sound p l j)

added-Extends : (q k id : ℕ) (m : StockMap) → Extends m ((q, k, id) ∷ m)
added-Extends q k id m p l e = ground (arith, stock_in-cons p l q k id m)

resolve_stock_lem :
    (m m' : StockMap) (item : SaleItem) (db : Db)
    → IsSound m db.stocks
    → resolve_stock m item db ≡ ok m'
    → IsSound m' db.stocks × Extends m m' × IsKnown m' item
unfolding resolve_stock
resolve_stock_lem m m' item db sound h =
    let l = location_of item.location in
    elim (Bool-cases (is_some (stock_in item.product_id l m))) [
      | inl e ↦ let same : m ≡ m' = ground arith in rw (← same) (sound, λ p l h. h, e)
      | inr e ↦ elim (Option-cases (find_stock item.product_id l db.stocks)) [
        | inl none_found ↦ cc (rw (e, none_found, resolve_stock) at h)
        | inr (id, found) ↦
            let added : (item.product_id, l, id) ∷ m ≡ m' = ground arith in
            rw (← added) (
              added-IsSound item.product_id l id m db.stocks found sound,
              added-Extends item.product_id l id m,
              ground (arith, stock_in-cons item.product_id l item.product_id l id m),
            )
      ]
    ]

known_draws :
    (m : StockMap) (t : Table Stock) (item : SaleItem)
    → IsSound m t
    → IsKnown m item
    → DrawsOn t item (stock_id_of m item)
known_draws m t item sound known =
    elim (Option-cases (stock_in item.product_id (location_of item.location) m)) [
      | inl e ↦ ground arith
      | inr (id, e) ↦ rw e (sound item.product_id (location_of item.location) id e)
    ]

abbrev pub Resolves : Table Stock → List SaleItem → StockMap → Type 0
Resolves t items m = All (λ item. DrawsOn t item (stock_id_of m item)) items

Resolved : StockMap → List SaleItem → Db → StockMap → Type 0
Resolved m items db m' = IsSound m' db.stocks × Extends m m' × All (IsKnown m') items

resolve_from-Resolved :
    (m : StockMap) (items : List SaleItem) (db : Db)
    → IsSound m db.stocks
    → Ensures (λ m' _. Resolved m items db m') (resolve_from m items db)
unfolding resolve_from Resolved
resolve_from-Resolved m [] db sound = (sound, λ p l h. h, tt)
resolve_from-Resolved m (item ∷ items) db sound = elim (Result-cases (resolve_stock m item db)) [
  | inr (x, e) ↦ rw (e, Ensures) tt
  | inl (m', e) ↦
      let step = resolve_stock_lem m m' item db sound e in
      rw (e, Ensures)
        (Ensures-weaken (λ n _. Resolved m' items db n) (λ n _. Resolved m (item ∷ items) db n)
          (resolve_from m' items db) (resolve_from-Resolved m' items db step.0)
          (λ n _ r. (
            r.0,
            λ p l h. r.1 p l (step.1 p l h),
            (r.1 item.product_id (location_of item.location) step.2, r.2),
          )))
]

resolve_from-reads :
    (m : StockMap) (items : List SaleItem) (db : Db)
    → Ensures (λ _ db'. db' ≡ db) (resolve_from m items db)
unfolding resolve_from
resolve_from-reads m [] db = refl
resolve_from-reads m (item ∷ items) db = elim (Result-cases (resolve_stock m item db)) [
  | inl (m', e) ↦ rw (e, Ensures) (resolve_from-reads m' items db)
  | inr (x, e) ↦ rw (e, Ensures) tt
]

All-draw :
    (m : StockMap) (t : Table Stock) (items : List SaleItem)
    → IsSound m t
    → All (IsKnown m) items
    → Resolves t items m
All-draw m t [] sound known = tt
All-draw m t (item ∷ items) sound known =
    (known_draws m t item sound known.0, All-draw m t items sound known.1)

pub resolve_stocks-Resolves :
    (organization : ℕ) (items : List SaleItem) (db : Db)
    → Ensures
        (λ m db'. (db' ≡ db) × Resolves db.stocks items m)
        (resolve_stocks organization items db)
unfolding resolve_stocks Resolved
resolve_stocks-Resolves organization items db =
    let ids = product_ids items in
    elim (Bool-cases (not (count_products organization ids db.products == length ids))) [
      | inl e ↦ rw (e, Ensures) tt
      | inr e ↦
          rw (e, Ensures)
            (Ensures-weaken (λ m db'. (db' ≡ db) × Resolved [] items db m)
              (λ m db'. (db' ≡ db) × Resolves db.stocks items m) (resolve_from [] items db)
              (Ensures-both _ _ (resolve_from [] items db) (resolve_from-reads [] items db)
                (resolve_from-Resolved [] items db (empty-IsSound db.stocks)))
              (λ m db' h. (h.0, All-draw m db.stocks items h.1.0 h.1.2)))
    ]

-- The quantity that the lines take from stock record `s`, by the records of their products and
-- locations.
abbrev pub drawn_by : Option ℕ → ℕ → ℤ → ℤ
drawn_by none s q = pos 0
drawn_by (some id) s q = if s == id then q else pos 0

abbrev pub drawn_from : Table Stock → ℕ → List SaleItem → ℤ
drawn_from t s [] = pos 0
drawn_from t s (item ∷ items) =
    drawn_by (find_stock item.product_id (location_of item.location) t) s item.quantity
    +ℤ drawn_from t s items

pub required_of-drawn_from :
    (m : StockMap) (t : Table Stock) (items : List SaleItem) (s : ℕ)
    → Resolves t items m
    → required_of m s items ≡ drawn_from t s items
required_of-drawn_from m t [] s h = refl
required_of-drawn_from m t (item ∷ items) s h = rw (required_of-drawn_from m t items s h.1, h.0)

pub resolve_stocks-Keeps :
    {V : Type 0} (f : Db → V) (organization : ℕ) (items : List SaleItem)
    → Keeps f (resolve_stocks organization items)
resolve_stocks-Keeps f organization items db =
    Ensures-weaken (λ m b. (b ≡ db) × Resolves db.stocks items m) (λ _ b. f b ≡ f db)
      (resolve_stocks organization items db) (resolve_stocks-Resolves organization items db)
      (λ m b h. ap f h.0)
