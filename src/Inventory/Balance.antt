-- ===== src/Inventory/Balance.antt =====
-- The quantities of stock records against the recorded movements
-- (src/modules/product-stocks/product-stocks.repository.ts).
use easy_point_api.Database.{
  Db, Movement, MovementType, Stock, adjusted, produced, purchased, sold, tested, wasted, Ensures,
  Tx, Ensures-bind, Ensures-weaken, for_each,
}
use easy_point_api.Decimal.{Arith, IsColumn, RoundingLaws, to_column}
use easy_point_api.Base.{
  Option, ℕ, All, List, some, ◌∷◌, [], if◌then◌else◌, none, ◌++◌, ◌==◌, ◌≡◌, ==_iff, Bool-cases,
  Option-cases, arith, inl, inr, refl, ⊤, ap, map, ◌∙◌, is_some,
}
use easy_point_api.Base.Table.Rows.{AllRows, AllRows-lookup, AllRows-put}
use easy_point_api.Base.Int.{ℤ, neg, pos, int_laws, ◌+ℤ◌, ◌-ℤ◌}
use easy_point_api.Base.Table.{lookup, Table, lookup-put_ne, lookup-put_self, put}
use easy_point_api.Inventory.{increment_quantity, stock_plus, movement_row}

-- What a movement of a kind does to the quantity of its stock record.
abbrev pub signed_quantity : MovementType → ℤ → ℤ
signed_quantity sold q = neg q
signed_quantity produced q = q
signed_quantity purchased q = q
signed_quantity adjusted q = q
signed_quantity wasted q = neg q
signed_quantity tested q = neg q

abbrev pub moved_by : ℕ → Movement → ℤ
moved_by s m = if s == m.stock_id then signed_quantity m.kind m.quantity else pos 0

abbrev pub moved : ℕ → List Movement → ℤ
moved s [] = pos 0
moved s (m ∷ ms) = moved_by s m +ℤ moved s ms

abbrev pub quantity_of : Option Stock → ℤ
quantity_of none = pos 0
quantity_of (some r) = r.quantity

-- The quantity of stock record `s` less all that its recorded movements have moved.
unfoldable pub opening_stock : ℕ → Db → ℤ
opening_stock s db = quantity_of (lookup s db.stocks) -ℤ moved s db.movements

pub moved-append : (s : ℕ) (xs ys : List Movement) → moved s (xs ++ ys) ≡ moved s xs +ℤ moved s ys
moved-append s [] ys = omega int_laws
moved-append s (x ∷ xs) ys = rw (moved-append s xs ys) (omega int_laws)

module _ ⦃ar : Arith⦄ where
  abbrev pub HasStoredQuantity : Stock → Type 0
  HasStoredQuantity r = IsColumn r.quantity

  abbrev pub HasStoredMove : Movement → Type 0
  HasStoredMove m = IsColumn m.quantity

  -- Quantities have the four decimal places of their columns.
  abbrev pub HasStoredStocks : Db → Type 0
  HasStoredStocks db = AllRows HasStoredQuantity db.stocks × All HasStoredMove db.movements

-- Work on the stock records that adds `δ s` to the quantity of each record `s`, and writes to no
-- other table.
abbrev pub Shifts : ⦃ar : Arith⦄ → (ℕ → ℤ) → Db → Db → Type 0
Shifts δ db db' =
    ((s : ℕ) → quantity_of (lookup s db'.stocks) ≡ quantity_of (lookup s db.stocks) +ℤ δ s)
    × (db' ≡ record db { stocks = db'.stocks })
    × AllRows HasStoredQuantity db'.stocks
    × ((s : ℕ) → is_some (lookup s db'.stocks) ≡ is_some (lookup s db.stocks))

module _ ⦃ar : Arith⦄ (laws : RoundingLaws ar) where
  quantity_of-put :
      (s id : ℕ) (a : Stock) (δ : ℤ) (t : Table Stock)
      → lookup id t ≡ some a
      → to_column (a.quantity +ℤ δ) ≡ a.quantity +ℤ δ
      → quantity_of (lookup s (put id (stock_plus a δ) t))
        ≡ quantity_of (lookup s t) +ℤ (if s == id then δ else pos 0)
  quantity_of-put s id a δ t found e = elim (Bool-cases (s == id)) [
    | inl same ↦
        let p : s ≡ id = (==_iff s id).0 same in
        rw (same, p, lookup-put_self id {w = a} (stock_plus a δ) t found, found) e
    | inr other ↦ rw (other, lookup-put_ne s id (stock_plus a δ) t (ground arith)) (omega int_laws)
  ]

  is_some-put :
      (s id : ℕ) (a b : Stock) (t : Table Stock)
      → lookup id t ≡ some a
      → is_some (lookup s (put id b t)) ≡ is_some (lookup s t)
  is_some-put s id a b t found = elim (Bool-cases (s == id)) [
    | inl same ↦
        let p : s ≡ id = (==_iff s id).0 same in rw (p, lookup-put_self id {w = a} b t found, found)
    | inr other ↦ rw (lookup-put_ne s id b t (ground arith))
  ]

  pub increment_quantity-Shifts :
      (id : ℕ) (δ : ℤ) (db : Db)
      → AllRows HasStoredQuantity db.stocks
      → IsColumn δ
      → Ensures
          (λ _ db'. Shifts (λ s. if s == id then δ else pos 0) db db')
          (increment_quantity id δ db)
  unfolding increment_quantity
  increment_quantity-Shifts id δ db stored d = elim (Option-cases (lookup id db.stocks)) [
    | inl e ↦ rw (e, Ensures) tt
    | inr (a, e) ↦
        let exact =
          laws.add_stored a.quantity δ (AllRows-lookup HasStoredQuantity id db.stocks stored e) d in
        rw (e, Ensures)
          (
            λ s. quantity_of-put s id a δ db.stocks e exact,
            refl,
            AllRows-put HasStoredQuantity id (stock_plus a δ) db.stocks stored
                (laws.stored (a.quantity +ℤ δ)),
            λ s. is_some-put s id a (stock_plus a δ) db.stocks e,
          )
  ]

  -- The quantity that the rows of `ms` move, when each is applied to its stock record.
  abbrev pub apply_move : Movement → Tx ⊤
  apply_move m = increment_quantity m.stock_id (signed_quantity m.kind m.quantity)

  Shifts-trans :
      (δ ε : ℕ → ℤ) (a b c : Db) → Shifts δ a b → Shifts ε b c → Shifts (λ s. δ s +ℤ ε s) a c
  Shifts-trans δ ε a b c h k = (
    λ s. rw (k.0 s, h.0 s) (omega int_laws),
    k.1 ∙ ap (λ (x : Db). record x { stocks = c.stocks }) h.1,
    k.2,
    λ s. k.3 s ∙ h.3 s,
  )

  -- A loop over `xs` shifts each quantity by the sum of what its rounds shift.
  abbrev pub total_shift : {A : Type 0} → (A → ℕ → ℤ) → List A → ℕ → ℤ
  total_shift δ [] s = pos 0
  total_shift δ (x ∷ xs) s = δ x s +ℤ total_shift δ xs s

  module _ {A : Type 0} (P : A → Type 0) (δ : A → ℕ → ℤ) (f : A → Tx ⊤) where
    pub for_each-Shifts :
        ((x : A) (db : Db)
          → P x
          → AllRows HasStoredQuantity db.stocks
          → Ensures (λ _ db'. Shifts (δ x) db db') (f x db))
        → (xs : List A) (db : Db) → All P xs
        → AllRows HasStoredQuantity db.stocks
        → Ensures (λ _ db'. Shifts (total_shift δ xs) db db') (for_each xs f db)
    unfolding for_each
    for_each-Shifts step [] db p stored = (λ s. omega int_laws, refl, stored, λ s. refl)
    for_each-Shifts step (x ∷ xs) db p stored =
        Ensures-bind (λ _ db'. Shifts (δ x) db db')
          (λ _ db'. Shifts (total_shift δ (x ∷ xs)) db db') (f x) (λ _. for_each xs f) db
          (step x db p.0 stored)
          λ _ b h.
            Ensures-weaken (λ _ c. Shifts (total_shift δ xs) b c)
              (λ _ c. Shifts (total_shift δ (x ∷ xs)) db c) (for_each xs f b)
              (for_each-Shifts step xs b p.1 h.2)
              (λ _ c k. Shifts-trans (δ x) (total_shift δ xs) db b c h k)

  moved-map :
      {A : Type 0} (mk : A → Movement) (xs : List A) (s : ℕ)
      → moved s (map movement_row (map mk xs))
        ≡ total_shift (λ x s. moved_by s (movement_row (mk x))) xs s
  moved-map mk [] s = refl
  moved-map mk (x ∷ xs) s = rw (moved-map mk xs s)
