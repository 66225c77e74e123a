-- ===== src/Productions/Drafts.antt =====
-- The usages of productions that are not completed (src/modules/productions/productions.service.ts,
-- src/modules/supply-purchases/supply-purchases.service.ts).
use easy_point_api.Base.{
  All, Bool, Bool-cases, Option, true, false, List, [], ◌∷◌, ◌++◌, none, some, ℕ, ◌==◌, ==_iff, ◌≡◌,
  arith, inl, inr, not, map, keep_if,
}
use easy_point_api.Base.Table.{
  Table, lookup, put, insert, delete, lookup-insert, lookup-put_ne, lookup-put_self,
  lookup-delete_ne,
}
use easy_point_api.Decimal.{Arith}
use easy_point_api.SupplyPurchases.Lifecycle.{forget_lots, kept_entry, lot_is_of}
use easy_point_api.Productions.Lifecycle.{is_finished, of_production, stored_usage}
use easy_point_api.Productions.Completed.{AreIntended, IsIntended}
use easy_point_api.Database.{Db, Production, StockEntry, SupplyUsage}

-- A usage names no lot unless its production is completed.
abbrev pub IsFree : Option Production → Option ℕ → Type 0
IsFree none o = IsIntended true o
IsFree (some p) o = IsIntended (not (is_finished p.status)) o

abbrev pub AreFree : Table Production → List SupplyUsage → Type 0
AreFree ps = All (λ (u : SupplyUsage). IsFree (lookup u.production_id ps) u.supply_stock_entry_id)

abbrev pub HasFreeDrafts : Db → Type 0
HasFreeDrafts db = AreFree db.supplies.productions db.supplies.usages

pub AreFree-append :
    (ps : Table Production) (us vs : List SupplyUsage)
    → AreFree ps us
    → AreFree ps vs
    → AreFree ps (us ++ vs)
AreFree-append ps [] vs h k = k
AreFree-append ps (u ∷ us) vs h k = (h.0, AreFree-append ps us vs h.1 k)

-- The usages of a production that is not completed are those of a draft.
pub AreFree-AreIntended :
    (id : ℕ) (p : Production) (ps : Table Production) (us : List SupplyUsage)
    → lookup id ps ≡ some p
    → is_finished p.status ≡ false
    → AreFree ps us
    → AreIntended id us
AreFree-AreIntended id p ps [] found open_run h = tt
AreFree-AreIntended id p ps (u ∷ us) found open_run h = (
  elim (Bool-cases (of_production id u)) [
    | inl m ↦
        let same : u.production_id ≡ id = (==_iff u.production_id id).0 m in
        rw m (rw (same, found, open_run) at h.0)
    | inr m ↦ rw m tt
  ],
  AreFree-AreIntended id p ps us found open_run h.1,
)

-- Other productions are left as they are, and the usages of this one are of a completed one.
pub AreFree-finish :
    (id : ℕ) (p q : Production) (ps : Table Production) (us : List SupplyUsage)
    → lookup id ps ≡ some p
    → is_finished q.status ≡ true
    → AreFree ps us
    → AreFree (put id q ps) us
AreFree-finish id p q ps [] found done h = tt
AreFree-finish id p q ps (u ∷ us) found done h = (
  elim (Bool-cases (u.production_id == id)) [
    | inl m ↦
        let same : u.production_id ≡ id = (==_iff u.production_id id).0 m in
        rw (same, lookup-put_self id {w = p} q ps found, done) tt
    | inr m ↦ rw (lookup-put_ne u.production_id id q ps (ground arith)) h.0
  ],
  AreFree-finish id p q ps us found done h.1,
)

-- A change of a production that is not completed to one that is not, either.
pub AreFree-put :
    (id : ℕ) (p q : Production) (ps : Table Production) (us : List SupplyUsage)
    → lookup id ps ≡ some p
    → is_finished q.status ≡ is_finished p.status
    → AreFree ps us
    → AreFree (put id q ps) us
AreFree-put id p q ps [] found alike h = tt
AreFree-put id p q ps (u ∷ us) found alike h = (
  elim (Bool-cases (u.production_id == id)) [
    | inl m ↦
        let same : u.production_id ≡ id = (==_iff u.production_id id).0 m in
        rw (same, lookup-put_self id {w = p} q ps found, alike) (rw (same, found) at h.0)
    | inr m ↦ rw (lookup-put_ne u.production_id id q ps (ground arith)) h.0
  ],
  AreFree-put id p q ps us found alike h.1,
)

IsIntended-any : (b : Bool) (o : Option ℕ) → IsIntended true o → IsIntended b o
IsIntended-any true o h = h
IsIntended-any false o h = tt

pub AreFree-insert :
    (id : ℕ) (q : Production) (ps : Table Production) (us : List SupplyUsage)
    → lookup id ps ≡ none
    → AreFree ps us
    → AreFree (insert id q ps) us
AreFree-insert id q ps [] unused h = tt
AreFree-insert id q ps (u ∷ us) unused h = (
  elim (Bool-cases (u.production_id == id)) [
    | inl m ↦
        let same : u.production_id ≡ id = (==_iff u.production_id id).0 m in
        rw (lookup-insert u.production_id id q ps, m)
          (IsIntended-any (not (is_finished q.status)) u.supply_stock_entry_id
            (rw (same, unused) at h.0))
    | inr m ↦ rw (lookup-insert u.production_id id q ps, m) h.0
  ],
  AreFree-insert id q ps us unused h.1,
)

-- A production is deleted with its usages.
pub AreFree-delete :
    (id : ℕ) (ps : Table Production) (us : List SupplyUsage)
    → AreFree ps us
    → AreFree (delete id ps) (keep_if (λ (u : SupplyUsage). not (of_production id u)) us)
AreFree-delete id ps [] h = tt
AreFree-delete id ps (u ∷ us) h = elim (Bool-cases (u.production_id == id)) [
  | inl m ↦ rw m (AreFree-delete id ps us h.1)
  | inr m ↦
      rw m (
        rw (lookup-delete_ne u.production_id id ps (ground arith)) h.0,
        AreFree-delete id ps us h.1,
      )
]

pub AreFree-others :
    (id : ℕ) (ps : Table Production) (us : List SupplyUsage)
    → AreFree ps us
    → AreFree ps (keep_if (λ (u : SupplyUsage). not (of_production id u)) us)
AreFree-others id ps [] h = tt
AreFree-others id ps (u ∷ us) h = elim (Bool-cases (u.production_id == id)) [
  | inl m ↦ rw m (AreFree-others id ps us h.1)
  | inr m ↦ rw m (h.0, AreFree-others id ps us h.1)
]

pub IsFree-none : (p : Option Production) → IsFree p none
IsFree-none none = tt
IsFree-none (some p) = none_intended (not (is_finished p.status))
  where
    none_intended : (b : Bool) → IsIntended b none
    none_intended true = tt
    none_intended false = tt

IsFree-kept_entry :
    (id : ℕ) (t : Table StockEntry) (p : Option Production) (o : Option ℕ)
    → IsFree p o
    → IsFree p (kept_entry id t o)
IsFree-kept_entry id t p none h = h
IsFree-kept_entry id t p (some lot) h = elim (Bool-cases (lot_is_of id (lookup lot t))) [
  | inl m ↦ rw m (IsFree-none p)
  | inr m ↦ rw m h
]

pub AreFree-forgotten :
    (id : ℕ) (t : Table StockEntry) (ps : Table Production) (us : List SupplyUsage)
    → AreFree ps us
    → AreFree ps (map (forget_lots id t) us)
AreFree-forgotten id t ps [] h = tt
AreFree-forgotten id t ps (u ∷ us) h = (
  IsFree-kept_entry id t (lookup u.production_id ps) u.supply_stock_entry_id h.0,
  AreFree-forgotten id t ps us h.1,
)

module _ ⦃ar : Arith⦄ where
  -- The usages that are stored for a completed production.
  pub AreFree-stored :
      (id : ℕ) (q : Production) (ps : Table Production) (rows : List SupplyUsage)
      → lookup id ps ≡ some q
      → is_finished q.status ≡ true
      → AreFree ps (map (stored_usage id) rows)
  AreFree-stored id q ps [] found done = tt
  AreFree-stored id q ps (u ∷ rows) found done =
      (rw (found, done) tt, AreFree-stored id q ps rows found done)
