-- ===== src/Decimal.antt =====
-- Decimal numbers, as `Prisma.Decimal` (decimal.js) and the numeric columns of the database have
-- them. A decimal is counted in a fixed small unit, so sums, differences and comparisons are those
-- of the integers; what rounds is a parameter: products, quotients, and the rounding of a value to
-- the four decimal places of a column when it is stored. The sizes of the columns are those of
-- prisma/schema.prisma.
use easy_point_api.Base.{Bool, ◌||◌, refl, ℕ, ◌+◌, ◌*◌, ◌/◌, ◌≡◌, arith}
use easy_point_api.Base.Int.{leb_ℤ, neg, ℤ, pos, pos_part, neg_part, sub_ℕ, ◌+ℤ◌, ◌-ℤ◌, ◌*ℤ◌, ◌≤ℤ◌}

pub record Arith : Type 0 where
  pub times : ℤ → ℤ → ℤ
  pub divided_by : ℤ → ℤ → ℤ
  pub to_column : ℤ → ℤ
  pub of_number : ℕ → ℤ
  pub ceiling : ℤ → ℤ

-- `a.times(b)`, `a.dividedBy(b)`, and what a column holds after `a` is written to it
abbrev pub times : ⦃ar : Arith⦄ → ℤ → ℤ → ℤ
times ⦃ar⦄ = ar.times

abbrev pub divided_by : ⦃ar : Arith⦄ → ℤ → ℤ → ℤ
divided_by ⦃ar⦄ = ar.divided_by

abbrev pub to_column : ⦃ar : Arith⦄ → ℤ → ℤ
to_column ⦃ar⦄ = ar.to_column

-- `new Prisma.Decimal(n)`
abbrev pub of_number : ⦃ar : Arith⦄ → ℕ → ℤ
of_number ⦃ar⦄ = ar.of_number

-- `new Prisma.Decimal(Math.ceil(a.toNumber()))`
abbrev pub ceiling : ⦃ar : Arith⦄ → ℤ → ℤ
ceiling ⦃ar⦄ = ar.ceiling

module _ ⦃ar : Arith⦄ where
  -- A value whose absolute value, as the column rounds it, reaches a bound that the column excludes.
  abbrev pub overflows : ℕ → ℤ → Bool
  overflows bound a =
      leb_ℤ (of_number bound) (to_column a) || leb_ℤ (to_column a) (neg (of_number bound))

  -- `Decimal(8, 4)`, `Decimal(12, 4)` and `Decimal(19, 4)`
  abbrev pub overflows_percent : ℤ → Bool
  overflows_percent = overflows 10000

  abbrev pub overflows_unit : ℤ → Bool
  overflows_unit = overflows 100000000

  abbrev pub overflows_total : ℤ → Bool
  overflows_total = overflows 1000000000000000

-- A value that a column holds as it is.
abbrev pub IsColumn : ⦃ar : Arith⦄ → ℤ → Type 0
IsColumn ⦃ar⦄ a = ar.to_column a ≡ a

-- What the libraries document of rounding: 0 is its own ceiling, a column keeps what has four decimal places, such values
-- are closed under sums and differences, rounding keeps the sign, and it commutes with adding a
-- stored value where neither is negative.
pub record RoundingLaws (ar : Arith) : Type 0 where
  pub zero_stored : ar.to_column (pos 0) ≡ pos 0
  pub ceiling_zero : ar.ceiling (pos 0) ≡ pos 0
  pub stored : (a : ℤ) → ar.to_column (ar.to_column a) ≡ ar.to_column a
  pub add_stored :
      (a b : ℤ) → ar.to_column a ≡ a → ar.to_column b ≡ b → ar.to_column (a +ℤ b) ≡ a +ℤ b
  pub sub_stored :
      (a b : ℤ) → ar.to_column a ≡ a → ar.to_column b ≡ b → ar.to_column (a -ℤ b) ≡ a -ℤ b
  pub add_rounds :
      (a b : ℤ)
      → ar.to_column a ≡ a
      → pos 0 ≤ℤ a
      → pos 0 ≤ℤ b
      → ar.to_column (a +ℤ b) ≡ a +ℤ ar.to_column b
  pub keeps_sign : (a : ℤ) → pos 0 ≤ℤ a → pos 0 ≤ℤ ar.to_column a

-- Products and quotients keep the sign.
pub record SignLaws (ar : Arith) : Type 0 where
  pub times_sign : (a b : ℤ) → pos 0 ≤ℤ a → pos 0 ≤ℤ b → pos 0 ≤ℤ ar.times a b
  pub divided_by_sign : (a b : ℤ) → pos 0 ≤ℤ a → pos 0 ≤ℤ b → pos 0 ≤ℤ ar.divided_by a b
  pub of_number_sign : (n : ℕ) → pos 0 ≤ℤ ar.of_number n

-- The unit is 10⁻⁸, and a column rounds half away from zero to a multiple of 10⁻⁴.
abbrev pub round_up : ℕ → ℕ
round_up n = (n + 5000) / 10000 * 10000

abbrev pub unit : ℕ
unit = 100000000

unfoldable pub exact : Arith
unfolding ◌*ℤ◌
exact = record {
  times = λ a b. let p = a *ℤ b in sub_ℕ (pos_part p / unit) (neg_part p / unit);
  divided_by = λ a b.
      let q = λ (x y : ℕ). x * unit / y in
      sub_ℕ (q (pos_part a) (pos_part b) + q (neg_part a) (neg_part b))
        (q (pos_part a) (neg_part b) + q (neg_part a) (pos_part b));
  to_column = λ a. sub_ℕ (round_up (pos_part a)) (round_up (neg_part a));
  of_number = λ n. pos (n * unit);
  ceiling = λ a. sub_ℕ ((pos_part a + 99999999) / unit * unit) (neg_part a / unit * unit);
}

pub exact-RoundingLaws : RoundingLaws exact
unfolding exact ◌+ℤ◌ ◌-ℤ◌
exact-RoundingLaws = record {
  zero_stored = refl;
  ceiling_zero = refl;
  stored = λ a. ground arith;
  add_stored = λ a b h k. ground arith;
  sub_stored = λ a b h k. ground arith;
  add_rounds = λ a b h p q. ground arith;
  keeps_sign = λ a h. ground arith;
}

pub exact-SignLaws : SignLaws exact
unfolding exact ◌*ℤ◌
exact-SignLaws = record {
  times_sign = λ a b p q. ground arith;
  divided_by_sign = λ a b p q. ground arith;
  of_number_sign = λ n. omega arith;
}
