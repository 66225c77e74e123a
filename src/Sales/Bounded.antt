-- ===== src/Sales/Bounded.antt =====
-- The amounts that `create` of src/modules/sales/sales.service.ts computes before its transaction.
use mathlib.Core.Option.{some-injective}
use easy_point_api.Base.{
  All, Bool-cases, List, Option, [], ap, inl, inr, some, subst, ℕ, ◌&&◌, ◌==◌, ◌∷◌, ◌≡◌,
}
use easy_point_api.Decimal.{Arith, SignLaws}
use easy_point_api.Discounts.{find_rule}
use easy_point_api.Base.Table.{Table}
use easy_point_api.Base.Int.{int_laws, pos, ℤ, ◌+ℤ◌, ◌≤ℤ◌}
use easy_point_api.Base.Table.Rows.{AllRows}
use easy_point_api.Database.{Db, DiscountRule, Ensures, Ensures-weaken}
use easy_point_api.Sales.Create.{Pricing, discounted, price}
use easy_point_api.Sales.Price.{IsPriced, price-IsPriced}
use easy_point_api.Sales.Items.{SaleItem, calc_total, calc_total_from, line_total}
use easy_point_api.Discounts.Bounds.{HasValidAmounts, compute_discount_amount_bounds}

find_rule-AllRows :
    (P : DiscountRule → Type 0) (organization code id : ℕ) (r : DiscountRule)
    (t : Table DiscountRule)
    → AllRows P t
    → find_rule organization code t ≡ some (id, r)
    → P r
unfolding find_rule
find_rule-AllRows P organization code id r [] h e = cc
find_rule-AllRows P organization code id r ((k, x) ∷ t) h e =
    elim (Bool-cases (x.organization_id == organization && x.code == code)) [
      | inl y ↦
          subst P (ap (λ (q : ℕ × DiscountRule). q.1) (some-injective (k, x) (id, r) (rw y at e)))
            h.0
      | inr n ↦ find_rule-AllRows P organization code id r t h.1 (rw n at e)
    ]

module _ ⦃ar : Arith⦄ where
  -- A price and a quantity that are not negative, which the request is validated for.
  abbrev pub IsNonnegLine : SaleItem → Type 0
  IsNonnegLine i = (pos 0 ≤ℤ i.unit_price) × (pos 0 ≤ℤ i.quantity)

  calc_total_from_nonneg :
      (signs : SignLaws ar) (items : List SaleItem) (acc : ℤ)
      → pos 0 ≤ℤ acc
      → All IsNonnegLine items
      → pos 0 ≤ℤ calc_total_from acc items
  unfolding calc_total_from
  calc_total_from_nonneg signs [] acc p h = p
  calc_total_from_nonneg signs (i ∷ items) acc p h =
      let q = signs.times_sign i.unit_price i.quantity h.0.0 h.0.1 in
      calc_total_from_nonneg signs items (acc +ℤ line_total i) (omega int_laws) h.1

  calc_total_nonneg :
      (signs : SignLaws ar) (items : List SaleItem)
      → All IsNonnegLine items
      → pos 0 ≤ℤ calc_total items
  unfolding calc_total
  calc_total_nonneg signs items h = calc_total_from_nonneg signs items (pos 0) (omega int_laws) h

  -- The total and the discount are not negative and add up to the subtotal.
  abbrev pub IsBounded : Pricing → Type 0
  IsBounded p = (pos 0 ≤ℤ p.total) × (pos 0 ≤ℤ p.discount) × (p.total +ℤ p.discount ≡ p.subtotal)

  discounted-IsBounded :
      (signs : SignLaws ar) (subtotal : ℤ) (id : ℕ) (r : DiscountRule)
      → HasValidAmounts r
      → pos 0 ≤ℤ subtotal
      → IsBounded (discounted subtotal id r)
  discounted-IsBounded signs subtotal id r v s =
      let (low, high, ceiling) = compute_discount_amount_bounds signs r subtotal v s in
      (omega int_laws, low, omega int_laws)

  IsPriced-IsBounded :
      (signs : SignLaws ar) (organization now : ℕ) (client code : Option ℕ) (subtotal : ℤ)
      (rules : Table DiscountRule) (p : Pricing)
      → AllRows HasValidAmounts rules
      → pos 0 ≤ℤ subtotal
      → IsPriced organization now client code subtotal rules p
      → IsBounded p
  IsPriced-IsBounded signs organization now client code subtotal rules p valid s (inl e) =
      rw e (s, omega int_laws, omega int_laws)
  IsPriced-IsBounded signs organization now client code subtotal rules p valid s
        (inr (c, id, r, given, found, applies, eligible, e)) =
      rw e (
        discounted-IsBounded signs subtotal id r
          (find_rule-AllRows HasValidAmounts organization c id r rules valid found) s)

  IsPriced-subtotal :
      (organization now : ℕ) (client code : Option ℕ) (subtotal : ℤ) (rules : Table DiscountRule)
      (p : Pricing)
      → IsPriced organization now client code subtotal rules p
      → p.subtotal ≡ subtotal
  IsPriced-subtotal organization now client code subtotal rules p (inl e) =
      ap (λ (x : Pricing). x.subtotal) e
  IsPriced-subtotal organization now client code subtotal rules p
        (inr (c, id, r, given, found, applies, eligible, e)) =
      ap (λ (x : Pricing). x.subtotal) e

  -- If products and quotients keep the sign, no value and no ceiling of a rule is negative, and
  -- the lines have prices and quantities that are not negative, then, where `create` does not
  -- refuse the discount code, it computes a total and a discount that are not negative and add up
  -- to the subtotal of the lines.
  pub price-IsBounded :
      (signs : SignLaws ar) (organization now : ℕ) (client code : Option ℕ) (items : List SaleItem)
      (db : Db)
      → AllRows HasValidAmounts db.rules
      → All IsNonnegLine items
      → Ensures
          (λ p _. IsBounded p × (p.subtotal ≡ calc_total items))
          (price organization now client (calc_total items) code db)
  price-IsBounded signs organization now client code items db valid lines =
      Ensures-weaken
        (λ p db'. (db' ≡ db) × IsPriced organization now client code (calc_total items) db.rules p)
        (λ p _. IsBounded p × (p.subtotal ≡ calc_total items)) _
        (price-IsPriced organization now client (calc_total items) code db)
        (λ p _ h. (
          IsPriced-IsBounded signs organization now client code (calc_total items) db.rules p valid
              (calc_total_nonneg signs items lines) h.1,
          IsPriced-subtotal organization now client code (calc_total items) db.rules p h.1,
        ))
