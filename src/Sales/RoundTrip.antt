-- ===== src/Sales/RoundTrip.antt =====
-- Removing a sale that `create` has just made.
use easy_point_api.Base.{
  All, List, [], false, keep_if, map, not, refl, ℕ, ◌++◌, ◌∷◌, ◌≡◌, ==_refl, Option, default_to,
}
use easy_point_api.Inventory.{movement_row}
use easy_point_api.Decimal.{Arith, RoundingLaws}
use easy_point_api.Database.{Movement, Db, Ensures, Ensures-weaken, completed}
use easy_point_api.Sales.Lifecycle.{of_sale, remove}
use easy_point_api.Sales.Items.{SaleItem, StockMap, sale_movement}
use easy_point_api.Base.Table.{lookup}
use easy_point_api.Base.Int.{int_laws}
use easy_point_api.Sales.Conserved.{
  HasValidStock, TookChecked, TookChecked-Sold, create_in-TookChecked,
}
use easy_point_api.Sales.Create.{CreateSale, create, create_in}
use easy_point_api.Sales.Restored.{Undone, remove-Undone}
use easy_point_api.Sales.Price.{create-Ensures}
use easy_point_api.Sales.Stock.{HasValidLine, moved-sale}
use easy_point_api.Inventory.Balance.{quantity_of}

-- No recorded movement belongs to sale `id`.
abbrev pub IsFreshSale : ℕ → List Movement → Type 0
IsFreshSale id ms = All (λ (m : Movement). of_sale id m ≡ false) ms

keep_if-fresh : (id : ℕ) (ms : List Movement) → IsFreshSale id ms → keep_if (of_sale id) ms ≡ []
keep_if-fresh id [] h = refl
keep_if-fresh id (m ∷ ms) h = rw (h.0, keep_if-fresh id ms h.1) refl

keep_if-others :
    (id : ℕ) (ms : List Movement)
    → IsFreshSale id ms
    → keep_if (λ (m : Movement). not (of_sale id m)) ms ≡ ms
keep_if-others id [] h = refl
keep_if-others id (m ∷ ms) h = rw (h.0, keep_if-others id ms h.1) refl

module _ ⦃ar : Arith⦄ where
  -- The movements of the sale that `create` makes, before those that were there.
  abbrev made : ℕ → ℕ → ℕ → StockMap → List SaleItem → List Movement
  made organization user sale m items =
      map movement_row (map (sale_movement organization user sale m) items)

  keep_if-made :
      (organization user sale : ℕ) (m : StockMap) (items : List SaleItem) (old : List Movement)
      → IsFreshSale sale old
      → keep_if (of_sale sale) (made organization user sale m items ++ old)
        ≡ made organization user sale m items
  keep_if-made organization user sale m [] old h = keep_if-fresh sale old h
  keep_if-made organization user sale m (i ∷ items) old h =
      rw (==_refl sale, keep_if-made organization user sale m items old h) refl

  keep_if-remaining :
      (organization user sale : ℕ) (m : StockMap) (items : List SaleItem) (old : List Movement)
      → IsFreshSale sale old
      → keep_if
          (λ (x : Movement). not (of_sale sale x))
          (made organization user sale m items ++ old)
        ≡ old
  keep_if-remaining organization user sale m [] old h = keep_if-others sale old h
  keep_if-remaining organization user sale m (i ∷ items) old h =
      rw (==_refl sale, keep_if-remaining organization user sale m items old h) refl

-- The quantities and the movements are those of `db`.
abbrev pub IsReset : Db → Db → Type 0
IsReset db db' =
    ((s : ℕ) → quantity_of (lookup s db'.stocks) ≡ quantity_of (lookup s db.stocks))
    × (db'.movements ≡ db.movements)

module _ ⦃ar : Arith⦄ (laws : RoundingLaws ar) where
  undone :
      (organization user sale : ℕ) (items : List SaleItem) (db b c : Db)
      → All HasValidLine items
      → IsFreshSale db.next_id db.movements
      → TookChecked organization user items db sale b
      → Undone sale b c
      → IsReset db c
  undone organization user sale items db b c lines fresh (m, same, found, enough, took) (_, r, _) =
      let old = rw (← same) at fresh in
      (
        λ s.
            rw
              (
                r.0 s,
                took.1,
                keep_if-made organization user sale m items db.movements old,
                took.0 s,
                moved-sale laws organization user sale m items s lines,
              )
              (omega int_laws),
        rw (r.1, took.1) (keep_if-remaining organization user sale m items db.movements old),
      )

  -- If a sale is created with validated lines on a database with valid stock in which no movement
  -- has its id, and is then removed, successfully, then every quantity and the list of movements
  -- are what they were before, whether the sale was pending or completed.
  pub create-remove :
      (tenant tenant' : Option ℕ) (user user' now : ℕ) (dto : CreateSale) (db : Db)
      → HasValidStock db
      → All HasValidLine dto.items
      → IsFreshSale db.next_id db.movements
      → Ensures
          (λ sale db'. Ensures (λ _ db''. IsReset db db'') (remove tenant' user' sale db'))
          (create tenant user now dto db)
  create-remove tenant tenant' user user' now dto db valid lines fresh =
      let Q = λ (sale : ℕ) (b : Db). Ensures (λ _ c. IsReset db c) (remove tenant' user' sale b) in
      create-Ensures Q tenant user now dto db λ organization p priced.
        let status = default_to dto.status completed in
        Ensures-weaken (TookChecked organization user dto.items db) Q
          (create_in organization user status dto p db)
          (create_in-TookChecked laws organization user status dto p db valid.stock valid.stored
            lines)
          λ sale b took.
            let sold =
              TookChecked-Sold laws organization user sale dto.items db b valid lines took in
            Ensures-weaken (λ _ c. Undone sale b c) (λ _ c. IsReset db c)
              (remove tenant' user' sale b) (remove-Undone laws tenant' user' sale b sold.2)
              (λ _ c u. undone organization user sale dto.items db b c lines fresh took u)
