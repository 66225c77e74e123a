-- ===== src/Discounts/Tests.antt =====
-- A rule of 10 percent with a ceiling and a minimum.
use easy_point_api.Base.{arith, none, refl, some, true, ℕ, ◌*◌, ◌↔◌, ◌≡◌}
use easy_point_api.Decimal.{exact, exact-SignLaws}
use easy_point_api.Discounts.{can_apply, compute_discount_amount}
use easy_point_api.Base.Int.{pos, ℤ, ◌*ℤ◌, ◌≤ℤ◌}
use easy_point_api.Database.{DiscountRule, global, percentage}
use easy_point_api.Discounts.Bounds.{
  HasValidAmounts, IsApplicable, WithinCeiling, can_apply_iff, compute_discount_amount_bounds,
}

abbrev tens : ℕ → ℤ
tens n = pos (n * 1000000000)

abbrev ten_percent : DiscountRule
ten_percent = record {
  organization_id = 1;
  code = 77;
  kind = percentage;
  value = tens 1;
  scope = global;
  client_id = none;
  starts_at = some 5;
  expires_at = none;
  max_discount_amount = some (tens 2);
  min_sale_amount = some (tens 5);
  max_usages = some 2;
  usage_count = 1;
  is_active = true;
}

compute_discount_amount_test :
    (compute_discount_amount ⦃ar = exact⦄ ten_percent (tens 10) ≡ tens 1)
    × (compute_discount_amount ⦃ar = exact⦄ ten_percent (tens 30) ≡ tens 2)
unfolding compute_discount_amount exact ◌*ℤ◌
compute_discount_amount_test = (refl, refl)

can_apply_iff_example :
    (can_apply ten_percent 7 (tens 6) ≡ true) ↔ IsApplicable ten_percent 7 (tens 6)
can_apply_iff_example = can_apply_iff ten_percent 7 (tens 6)

ten_percent-HasValidAmounts : HasValidAmounts ten_percent
ten_percent-HasValidAmounts = record { value = omega arith; ceiling = omega arith }

compute_discount_amount_bounds_example :
    let amount = compute_discount_amount ⦃ar = exact⦄ ten_percent (tens 30) in
    (pos 0 ≤ℤ amount) × (amount ≤ℤ tens 30) × WithinCeiling percentage (some (tens 2)) amount
compute_discount_amount_bounds_example =
    compute_discount_amount_bounds ⦃ar = exact⦄ exact-SignLaws ten_percent (tens 30)
      ten_percent-HasValidAmounts (omega arith)
