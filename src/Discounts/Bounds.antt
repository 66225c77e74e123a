-- ===== src/Discounts/Bounds.antt =====
-- What a discount may be, and when it applies.
use easy_point_api.Base.{
  Option, arith, false, none, refl, some, true, ℕ, ◌<◌, ◌↔◌, ◌≡◌, ◌≤◌, if◌then◌else◌,
}
use easy_point_api.Decimal.{Arith, SignLaws}
use easy_point_api.Discounts.{
  below_minimum, can_apply, compute_discount_amount, expired_at, starts_after, used_up, capped,
  raw_amount,
}
use easy_point_api.Base.Int.{pos, ℤ, ◌≤ℤ◌, ltb_ℤ}
use easy_point_api.Database.{DiscountRule, DiscountType, fixed_amount, percentage}

-- A rule applies exactly when it is active, within its dates, not used up, and the subtotal reaches
-- its minimum.
abbrev pub AtMost : Option ℕ → ℕ → Type 0
AtMost none n = Unit
AtMost (some t) n = n ≤ t

abbrev pub AtLeast : Option ℕ → ℕ → Type 0
AtLeast none n = Unit
AtLeast (some t) n = t ≤ n

abbrev pub Below : Option ℕ → ℕ → Type 0
Below none n = Unit
Below (some t) n = n < t

abbrev pub AtLeastAmount : Option ℤ → ℤ → Type 0
AtLeastAmount none a = Unit
AtLeastAmount (some t) a = t ≤ℤ a

pub record IsApplicable (r : DiscountRule) (now : ℕ) (subtotal : ℤ) : Type 0 where
  pub enabled : r.is_active ≡ true
  pub started : AtLeast r.starts_at now
  pub unexpired : AtMost r.expires_at now
  pub unused : Below r.max_usages r.usage_count
  pub reached : AtLeastAmount r.min_sale_amount subtotal

starts_after-false : (t : Option ℕ) (now : ℕ) → (starts_after t now ≡ false) ↔ AtLeast t now
starts_after-false none now = (λ h. tt, λ h. refl)
starts_after-false (some t) now = ground arith

expired_at-false : (t : Option ℕ) (now : ℕ) → (expired_at t now ≡ false) ↔ AtMost t now
expired_at-false none now = (λ h. tt, λ h. refl)
expired_at-false (some t) now = ground arith

used_up-false : (t : Option ℕ) (n : ℕ) → (used_up t n ≡ false) ↔ Below t n
used_up-false none n = (λ h. tt, λ h. refl)
used_up-false (some t) n = ground arith

below_minimum-false : (t : Option ℤ) (a : ℤ) → (below_minimum t a ≡ false) ↔ AtLeastAmount t a
below_minimum-false none a = (λ h. tt, λ h. refl)
below_minimum-false (some t) a = ground arith

-- `canApply` is true exactly if the rule is active, has started, has not expired, has uses left,
-- and the subtotal reaches its minimum, where a limit that is absent restricts nothing.
pub can_apply_iff :
    (r : DiscountRule) (now : ℕ) (subtotal : ℤ)
    → (can_apply r now subtotal ≡ true) ↔ IsApplicable r now subtotal
unfolding can_apply
can_apply_iff r now subtotal = (
  λ h. ground (
    arith,
    starts_after-false r.starts_at now,
    expired_at-false r.expires_at now,
    used_up-false r.max_usages r.usage_count,
    below_minimum-false r.min_sale_amount subtotal,
  ),
  λ h. ground (
    arith,
    starts_after-false r.starts_at now,
    expired_at-false r.expires_at now,
    used_up-false r.max_usages r.usage_count,
    below_minimum-false r.min_sale_amount subtotal,
  ),
)

abbrev pub IsNonneg? : Option ℤ → Type 0
IsNonneg? none = Unit
IsNonneg? (some a) = pos 0 ≤ℤ a

-- A percentage has a ceiling, which is at least its discount.
abbrev pub WithinCeiling : DiscountType → Option ℤ → ℤ → Type 0
WithinCeiling percentage (some most) amount = amount ≤ℤ most
WithinCeiling _ _ amount = Unit

-- The amounts of a rule are not negative.
pub record HasValidAmounts (r : DiscountRule) : Type 0 where
  pub value : pos 0 ≤ℤ r.value
  pub ceiling : IsNonneg? r.max_discount_amount

module _ ⦃ar : Arith⦄ where
  capped_nonneg : (m : Option ℤ) (a : ℤ) → IsNonneg? m → pos 0 ≤ℤ a → pos 0 ≤ℤ capped m a
  capped_nonneg none a h p = p
  capped_nonneg (some most) a h p = ground arith

  capped-WithinCeiling :
      (m : Option ℤ) (subtotal a : ℤ)
      → WithinCeiling percentage m (if ltb_ℤ subtotal (capped m a) then subtotal else capped m a)
  capped-WithinCeiling none subtotal a = tt
  capped-WithinCeiling (some most) subtotal a = ground arith

  raw_amount_nonneg :
      (signs : SignLaws ar) (kind : DiscountType) (r : DiscountRule) (subtotal : ℤ)
      → HasValidAmounts r
      → pos 0 ≤ℤ subtotal
      → pos 0 ≤ℤ raw_amount kind r subtotal
  raw_amount_nonneg signs percentage r subtotal v s =
      capped_nonneg r.max_discount_amount _ v.ceiling (
        signs.divided_by_sign _ _ (signs.times_sign subtotal r.value s v.value)
          (signs.of_number_sign 100))
  raw_amount_nonneg signs fixed_amount r subtotal v s = v.value

  within_ceiling :
      (kind : DiscountType) (r : DiscountRule) (subtotal : ℤ)
      → let amount = raw_amount kind r subtotal in
        WithinCeiling kind r.max_discount_amount
          (if ltb_ℤ subtotal amount then subtotal else amount)
  within_ceiling percentage r subtotal = capped-WithinCeiling r.max_discount_amount subtotal _
  within_ceiling fixed_amount r subtotal = tt

  -- If products and quotients keep the sign, the value and the ceiling of a rule are not negative
  -- and the subtotal is not negative, then the discount that is computed is not negative, is at
  -- most the subtotal, and for a percentage is at most the ceiling.
  pub compute_discount_amount_bounds :
      (signs : SignLaws ar) (r : DiscountRule) (subtotal : ℤ)
      → HasValidAmounts r
      → pos 0 ≤ℤ subtotal
      → (pos 0 ≤ℤ compute_discount_amount r subtotal)
        × (compute_discount_amount r subtotal ≤ℤ subtotal)
        × WithinCeiling r.kind r.max_discount_amount (compute_discount_amount r subtotal)
  unfolding compute_discount_amount
  compute_discount_amount_bounds signs r subtotal v s =
      let nonneg = raw_amount_nonneg signs r.kind r subtotal v s in
      (ground arith, ground arith, within_ceiling r.kind r subtotal)
