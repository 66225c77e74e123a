-- ===== src/Supplies/Remaining.antt =====
-- What remains in the lots of a stock, when other lots change.
use easy_point_api.Base.{
  Bool-cases, Bool, true, false, [], ◌∷◌, some, ℕ, ◌==◌, ◌<◌, ◌≡◌, refl, ap, sym, ◌∙◌, arith,
  if◌then◌else◌, inl, inr,
}
use easy_point_api.Base.Int.{ℤ, pos, ◌+ℤ◌}
use easy_point_api.Base.Table.{Table, lookup, put, insert}
use easy_point_api.Base.Table.Rows.{AllRows}
use easy_point_api.Base.Table.Fresh.{keep_rows}
use easy_point_api.Supplies.{remaining_from, total_remaining}
use easy_point_api.Database.{StockEntry}

abbrev pub on_stock : ℕ → StockEntry → Bool
on_stock k e = e.supply_stock_id == k

-- What is dropped is not in the stock.
abbrev pub Stays : Bool → Bool → Type 0
Stays true on = Unit
Stays false on = on ≡ false

abbrev pub StaysOn : ℕ → (StockEntry → Bool) → StockEntry → Type 0
StaysOn k p e = Stays (p e) (on_stock k e)

abbrev plus_row : ℕ → ℤ → StockEntry → ℤ
plus_row k acc e = if on_stock k e then acc +ℤ e.remaining_quantity else acc

remaining_from-skip :
    (acc : ℤ) (k id : ℕ) (e : StockEntry) (t : Table StockEntry)
    → on_stock k e ≡ false
    → remaining_from acc k ((id, e) ∷ t) ≡ remaining_from acc k t
unfolding remaining_from
remaining_from-skip acc k id e t h =
    ap (λ b. remaining_from (if b then acc +ℤ e.remaining_quantity else acc) k t) h

remaining_from-put :
    (acc : ℤ) (k id : ℕ) (e e' : StockEntry) (t : Table StockEntry)
    → lookup id t ≡ some e
    → on_stock k e ≡ false
    → on_stock k e' ≡ false
    → remaining_from acc k (put id e' t) ≡ remaining_from acc k t
unfolding remaining_from lookup put
remaining_from-put acc k id e e' [] h a b = refl
remaining_from-put acc k id e e' ((j, w) ∷ t) h a b = elim (Bool-cases (id == j)) [
  | inl m ↦
      let h' : some w ≡ some e = rw m at h in
      let same : w ≡ e = ground arith in
      let a' : on_stock k w ≡ false = rw same a in
      rw m (remaining_from-skip acc k id e' t b ∙ sym (remaining_from-skip acc k j w t a'))
  | inr m ↦ rw m (remaining_from-put (plus_row k acc w) k id e e' t (rw m at h) a b)
]

pub total_remaining-put :
    (k id : ℕ) (e e' : StockEntry) (t : Table StockEntry)
    → lookup id t ≡ some e
    → on_stock k e ≡ false
    → on_stock k e' ≡ false
    → total_remaining k (put id e' t) ≡ total_remaining k t
unfolding total_remaining
total_remaining-put k id e e' t h a b = remaining_from-put (pos 0) k id e e' t h a b

pub total_remaining-insert :
    (k id : ℕ) (e : StockEntry) (t : Table StockEntry)
    → on_stock k e ≡ false
    → total_remaining k (insert id e t) ≡ total_remaining k t
unfolding total_remaining
total_remaining-insert k id e t a = remaining_from-skip (pos 0) k id e t a

remaining_from-keep_rows :
    (acc : ℤ) (k : ℕ) (p : StockEntry → Bool) (t : Table StockEntry)
    → AllRows (λ e. StaysOn k p e) t
    → remaining_from acc k (keep_rows p t) ≡ remaining_from acc k t
unfolding remaining_from
remaining_from-keep_rows acc k p [] h = refl
remaining_from-keep_rows acc k p ((j, w) ∷ t) h = elim (Bool-cases (p w)) [
  | inl m ↦ rw m (remaining_from-keep_rows (plus_row k acc w) k p t h.1)
  | inr m ↦
      let off : on_stock k w ≡ false = rw m at h.0 in
      rw m (remaining_from-keep_rows acc k p t h.1 ∙ sym (remaining_from-skip acc k j w t off))
]

pub total_remaining-keep_rows :
    (k : ℕ) (p : StockEntry → Bool) (t : Table StockEntry)
    → AllRows (λ e. StaysOn k p e) t
    → total_remaining k (keep_rows p t) ≡ total_remaining k t
unfolding total_remaining
total_remaining-keep_rows k p t h = remaining_from-keep_rows (pos 0) k p t h

pub total_remaining-zero :
    (k : ℕ) (t : Table StockEntry)
    → AllRows (λ e. e.supply_stock_id < k) t
    → total_remaining k t ≡ pos 0
unfolding total_remaining remaining_from
total_remaining-zero k [] h = refl
total_remaining-zero k ((j, e) ∷ t) h =
    let off : on_stock k e ≡ false = ground arith in
    remaining_from-skip (pos 0) k j e t off ∙ total_remaining-zero k t h.1
