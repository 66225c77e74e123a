-- ===== src/Purchases/Consolidated.antt =====
-- The consolidation of lines in src/modules/product-purchases/product-purchases.service.ts.
use easy_point_api.Base.{
  All, Bool-cases, List, [], false, if◌then◌else◌, inl, inr, ℕ, ◌&&◌, ◌==◌, ◌∷◌, ◌≡◌, arith, true,
}
use easy_point_api.Inventory.{location_of}
use easy_point_api.Base.Int.{int_laws, pos, ℤ, ◌+ℤ◌}
use easy_point_api.Purchases.Lines.{
  PurchaseItem, merge_line, same_place, consolidate, consolidate_from,
}

-- The quantity of the lines for product `p` at location `l`.
abbrev pub quantity_at : ℕ → ℕ → List PurchaseItem → ℤ
quantity_at p l [] = pos 0
quantity_at p l (i ∷ items) =
    (if i.product_id == p && location_of i.location == l then i.quantity else pos 0)
    +ℤ quantity_at p l items

-- No two lines are for the same place.
abbrev pub HasDistinctPlaces : List PurchaseItem → Type 0
HasDistinctPlaces [] = Unit
HasDistinctPlaces (i ∷ items) =
    All (λ (c : PurchaseItem). same_place c i ≡ false) items × HasDistinctPlaces items

place_lem :
    (c item : PurchaseItem)
    → same_place c item ≡ true
    → (c.product_id ≡ item.product_id) × (location_of c.location ≡ location_of item.location)
place_lem c item e = ground arith

quantity_at-merge_line :
    (p l : ℕ) (done : List PurchaseItem) (item : PurchaseItem)
    → quantity_at p l (merge_line done item) ≡ quantity_at p l (item ∷ []) +ℤ quantity_at p l done
unfolding merge_line
quantity_at-merge_line p l [] item = omega int_laws
quantity_at-merge_line p l (c ∷ cs) item = elim (Bool-cases (same_place c item)) [
  | inl e ↦
      let (product, place) = place_lem c item e in
      elim (Bool-cases (item.product_id == p && location_of item.location == l)) [
        | inl h ↦ rw (e, product, place, h) (omega int_laws)
        | inr h ↦ rw (e, product, place, h) (omega int_laws)
      ]
  | inr e ↦ rw (e, quantity_at-merge_line p l cs item) (omega int_laws)
]

quantity_at-consolidate_from :
    (p l : ℕ) (done items : List PurchaseItem)
    → quantity_at p l (consolidate_from done items) ≡ quantity_at p l done +ℤ quantity_at p l items
unfolding consolidate_from
quantity_at-consolidate_from p l done [] = omega int_laws
quantity_at-consolidate_from p l done (item ∷ items) =
    rw
      (
        quantity_at-consolidate_from p l (merge_line done item) items,
        quantity_at-merge_line p l done item,
      )
      (omega int_laws)

-- Every line of `items` is for another place than `c`.
abbrev IsApart : PurchaseItem → List PurchaseItem → Type 0
IsApart c items = All (λ (i : PurchaseItem). same_place i c ≡ false) items

merge_line-IsApart :
    (c item : PurchaseItem) (cs : List PurchaseItem)
    → IsApart c cs
    → same_place item c ≡ false
    → IsApart c (merge_line cs item)
unfolding merge_line
merge_line-IsApart c item [] h e = (e, tt)
merge_line-IsApart c item (d ∷ cs) h e = elim (Bool-cases (same_place d item)) [
  | inl k ↦ rw k (h.0, h.1)
  | inr k ↦ rw k (h.0, merge_line-IsApart c item cs h.1 e)
]

same_place_sym : (c item : PurchaseItem) → same_place c item ≡ false → same_place item c ≡ false
same_place_sym c item e = ground arith

merge_line-HasDistinctPlaces :
    (done : List PurchaseItem) (item : PurchaseItem)
    → HasDistinctPlaces done
    → HasDistinctPlaces (merge_line done item)
unfolding merge_line
merge_line-HasDistinctPlaces [] item h = (tt, tt)
merge_line-HasDistinctPlaces (c ∷ cs) item h = elim (Bool-cases (same_place c item)) [
  | inl e ↦ rw e (h.0, h.1)
  | inr e ↦ rw e (
    merge_line-IsApart c item cs h.0 (same_place_sym c item e),
    merge_line-HasDistinctPlaces cs item h.1,
  )
]

consolidate_from-HasDistinctPlaces :
    (done items : List PurchaseItem)
    → HasDistinctPlaces done
    → HasDistinctPlaces (consolidate_from done items)
unfolding consolidate_from
consolidate_from-HasDistinctPlaces done [] h = h
consolidate_from-HasDistinctPlaces done (item ∷ items) h =
    consolidate_from-HasDistinctPlaces (merge_line done item) items
      (merge_line-HasDistinctPlaces done item h)

-- Consolidation leaves no two lines for the same product and location, and for every product and
-- location the total quantity is that of the lines before.
pub consolidate_lem :
    (items : List PurchaseItem)
    → HasDistinctPlaces (consolidate items)
      × ((p l : ℕ) → quantity_at p l (consolidate items) ≡ quantity_at p l items)
unfolding consolidate
consolidate_lem items = (
  consolidate_from-HasDistinctPlaces [] items tt,
  λ p l. rw (quantity_at-consolidate_from p l [] items) (omega int_laws),
)
