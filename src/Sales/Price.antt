-- ===== src/Sales/Price.antt =====
-- The part of `create` before its transaction (src/modules/sales/sales.service.ts).
use easy_point_api.Base.{
  Bool-cases, Option, Option-cases, default_to, false, inl, inr, none, not, refl, some, true, ℕ,
  ◌&&◌, ◌≡◌, ◌⊎◌, sym,
}
use easy_point_api.Decimal.{Arith}
use easy_point_api.Discounts.{can_apply, find_rule, is_client_only}
use easy_point_api.Base.Table.{Table, lookup}
use easy_point_api.Base.Int.{ℤ}
use easy_point_api.Database.{
  Db, DiscountRule, Ensures, Ensures-bind, Result-cases, Status, completed, ok, ok_inj,
}
use easy_point_api.Sales.Create.{
  CreateSale, Pricing, apply_rule, belongs_to, check_client, check_payment, create, create_in,
  discounted, price, price_with, same_client, undiscounted,
}
use easy_point_api.Sales.Items.{calc_total}

module _ ⦃ar : Arith⦄ where
  -- The price without a discount, or with the discount of a rule that applies to the client.
  abbrev pub IsPriced : ℕ → ℕ → Option ℕ → Option ℕ → ℤ → Table DiscountRule → Pricing → Type 0
  IsPriced organization now client code subtotal rules p =
      (p ≡ undiscounted subtotal)
      ⊎ ((c : ℕ) × (id : ℕ) × (r : DiscountRule) × (code ≡ some c)
          × (find_rule organization c rules ≡ some (id, r))
          × (can_apply r now subtotal ≡ true)
          × (is_client_only r.scope && not (same_client r.client_id client) ≡ false)
          × (p ≡ discounted subtotal id r))

  apply_rule_lem :
      (now : ℕ) (client : Option ℕ) (subtotal : ℤ) (id : ℕ) (r : DiscountRule) (p : Pricing)
      → apply_rule now client subtotal id r ≡ ok p
      → (can_apply r now subtotal ≡ true)
        × (is_client_only r.scope && not (same_client r.client_id client) ≡ false)
        × (p ≡ discounted subtotal id r)
  unfolding apply_rule
  apply_rule_lem now client subtotal id r p h =
      elim (Bool-cases (is_client_only r.scope && not (same_client r.client_id client))) [
        | inl e ↦ cc (rw (e, apply_rule) at h)
        | inr e ↦ elim (Bool-cases (can_apply r now subtotal)) [
          | inr e' ↦ cc (rw (e, e', apply_rule) at h)
          | inl e' ↦
              (e', e, sym (ok_inj (discounted subtotal id r) p (rw (e, e', apply_rule) at h)))
        ]
      ]

  pub price-IsPriced :
      (organization now : ℕ) (client : Option ℕ) (subtotal : ℤ) (code : Option ℕ) (db : Db)
      → Ensures
          (λ p db'. (db' ≡ db) × IsPriced organization now client code subtotal db.rules p)
          (price organization now client subtotal code db)
  unfolding price price_with
  price-IsPriced organization now client subtotal none db = (refl, inl refl)
  price-IsPriced organization now client subtotal (some c) db =
      elim (Option-cases (find_rule organization c db.rules)) [
        | inl e ↦ rw (e, Ensures) (refl, inl refl)
        | inr (found, e) ↦ elim (Result-cases (apply_rule now client subtotal found.0 found.1)) [
          | inr (x, h) ↦ rw (e, h, Ensures) tt
          | inl (p, h) ↦
              let (applies, eligible, same) =
                apply_rule_lem now client subtotal found.0 found.1 p h in
              rw (e, h, Ensures) (refl, inr (c, found.0, found.1, refl, e, applies, eligible, same))
        ]
      ]

check_payment-reads :
    (status : Status) (account method : Option ℕ) (db : Db)
    → Ensures (λ _ db'. db' ≡ db) (check_payment status account method db)
unfolding check_payment
check_payment-reads completed none method db = tt
check_payment-reads completed (some a) none db = tt
check_payment-reads completed (some a) (some b) db = refl
check_payment-reads _ account method db = refl

check_client-reads :
    (organization : ℕ) (client : Option ℕ) (db : Db)
    → Ensures (λ _ db'. db' ≡ db) (check_client organization client db)
unfolding check_client
check_client-reads organization none db = refl
check_client-reads organization (some c) db =
    elim (Bool-cases (belongs_to organization (lookup c db.clients))) [
      | inl e ↦ rw (e, Ensures) refl
      | inr e ↦ rw (e, Ensures) tt
    ]

module _ ⦃ar : Arith⦄ (Q : ℕ → Db → Type 0) where
  -- What its transaction ensures at every price, `create` ensures.
  pub create-Ensures :
      (tenant : Option ℕ) (user now : ℕ) (dto : CreateSale) (db : Db)
      → ((organization : ℕ) (p : Pricing)
          → IsPriced organization now dto.client_id dto.discount_code
              (calc_total dto.items)
              db.rules
              p
          → Ensures Q (create_in organization user (default_to dto.status completed) dto p db))
      → Ensures Q (create tenant user now dto db)
  unfolding create
  create-Ensures none user now dto db h = tt
  create-Ensures (some organization) user now dto db h =
      let status = default_to dto.status completed in
      Ensures-bind (λ _ b. b ≡ db) Q (check_payment status dto.bank_account_id dto.payment_method) _
        db (check_payment-reads status dto.bank_account_id dto.payment_method db)
        λ _ b e. rw e (
          Ensures-bind (λ _ b. b ≡ db) Q (check_client organization dto.client_id) _ db
            (check_client-reads organization dto.client_id db)
            λ _ c e'. rw e' (
              Ensures-bind
                (λ p b.
                  (b ≡ db)
                  × IsPriced organization now dto.client_id dto.discount_code (calc_total dto.items)
                      db.rules p)
                Q (price organization now dto.client_id (calc_total dto.items) dto.discount_code) _
                db
                (price-IsPriced organization now dto.client_id (calc_total dto.items)
                  dto.discount_code db)
                λ p d (e'', priced). rw e'' (h organization p priced)))
