-- ===== src/Sales/Create.antt =====
-- `SalesService.create` (src/modules/sales/sales.service.ts).
use easy_point_api.Base.{
  Bool, List, Option, default_to, false, if◌then◌else◌, is_some, map, none, not, some, ℕ, ⊤, ◌&&◌,
  ◌==◌, ◌∷◌,
}
use easy_point_api.Utilities.{SoldLine, compute_and_persist}
use easy_point_api.Decimal.{Arith, to_column}
use easy_point_api.Discounts.{
  can_apply, compute_discount_amount, find_rule, increment_usage, is_client_only,
}
use easy_point_api.FinancialTransactions.{TransactionParams, create_transaction}
use easy_point_api.Base.Table.{insert, lookup, put}
use easy_point_api.Base.Int.{is_zero, pos, ℤ, ◌-ℤ◌}
use easy_point_api.Database.{
  AppliedDiscount, DiscountRule, Result, Sale, Status, Tx, bad_request, bank_account_required,
  client_missing, completed, credit, discount_for_other_client, discount_not_applicable, err,
  from_result, gets, missing_organization, modify, new_id, not_found, ok, or_throw,
  payment_method_required, pure, record_not_found, sale_operation, throw_if, transaction, when,
  ◌>>=◌, ◌>>◌,
}
use easy_point_api.Sales.Items.{
  SaleItem, calc_total, no_id, resolve_stocks, take_items, validate_sufficient_stock,
}

-- `CreateSaleDto`; a text that is given is not empty. `discount_code` is in upper case and trimmed.
pub record CreateSale : Type 0 where
  pub client_id : Option ℕ
  pub discount_code : Option ℕ
  pub status : Option Status
  pub bank_account_id : Option ℕ
  pub payment_method : Option ℕ
  pub category_id : Option ℕ
  pub notes : Option ℕ
  pub items : List SaleItem

-- Between the subtotal and the transaction: the amounts, and the rule that is applied.
pub record Pricing : Type 0 where
  pub subtotal : ℤ
  pub discount : ℤ
  pub total : ℤ
  pub applied : Option (ℕ × DiscountRule)

-- The description of a transaction that has no notes: a text that names the sale.
abbrev pub default_description : ℕ
default_description = 2

-- A completed sale names its bank account and its payment method.
unfoldable pub check_payment : Status → Option ℕ → Option ℕ → Tx ⊤
check_payment completed bank_account payment_method =
    throw_if (not (is_some bank_account)) (bad_request bank_account_required)
    >> throw_if (not (is_some payment_method)) (bad_request payment_method_required)
check_payment _ bank_account payment_method = pure tt

abbrev pub belongs_to : ℕ → Option ℕ → Bool
belongs_to organization none = false
belongs_to organization (some owner) = owner == organization

unfoldable pub check_client : ℕ → Option ℕ → Tx ⊤
check_client organization none = pure tt
check_client organization (some client) = do
  owner ← gets (λ db. lookup client db.clients)
  throw_if (not (belongs_to organization owner)) (not_found client_missing)

-- `appliedRule.clientId !== dto.clientId`, where the rule's is `null` and the request's `undefined`
-- if there is none
abbrev pub same_client : Option ℕ → Option ℕ → Bool
same_client (some a) (some b) = a == b
same_client _ _ = false

module _ ⦃ar : Arith⦄ where
  abbrev pub undiscounted : ℤ → Pricing
  undiscounted subtotal = record {
    subtotal = subtotal;
    discount = pos 0;
    total = subtotal;
    applied = none;
  }

  abbrev pub discounted : ℤ → ℕ → DiscountRule → Pricing
  discounted subtotal id r =
      let amount = compute_discount_amount r subtotal in
      record {
        subtotal = subtotal;
        discount = amount;
        total = subtotal -ℤ amount;
        applied = some (id, r);
      }

  -- The body of the `try` block, for a rule that was found.
  unfoldable pub apply_rule : ℕ → Option ℕ → ℤ → ℕ → DiscountRule → Result Pricing
  apply_rule now client subtotal id r =
      if is_client_only r.scope && not (same_client r.client_id client)
      then err (bad_request discount_for_other_client)
      else if not (can_apply r now subtotal)
      then err (bad_request discount_not_applicable)
      else ok (discounted subtotal id r)

  -- A code that is not found (the `catch` block) is ignored.
  unfoldable pub price_with : ℕ → Option ℕ → ℤ → Option (ℕ × DiscountRule) → Result Pricing
  unfolding apply_rule
  price_with now client subtotal none = ok (undiscounted subtotal)
  price_with now client subtotal (some (id, r)) = apply_rule now client subtotal id r

  unfoldable pub price : ℕ → ℕ → Option ℕ → ℤ → Option ℕ → Tx Pricing
  unfolding price_with
  price organization now client subtotal none = pure (undiscounted subtotal)
  price organization now client subtotal (some code) = do
    found ← gets (λ db. find_rule organization code db.rules)
    from_result (price_with now client subtotal found)

  -- Step 6: the header. A discount of zero is stored as `null`.
  abbrev pub discount_column : ℤ → Option ℤ
  discount_column a = if is_zero a then none else some (to_column a)

  abbrev pub sale_row : ℕ → ℕ → Status → CreateSale → Pricing → Sale
  sale_row organization user status dto p = record {
    organization_id = organization;
    client_id = dto.client_id;
    subtotal_amount = some (to_column p.subtotal);
    discount_amount = discount_column p.discount;
    total_amount = to_column p.total;
    transaction_id = none;
    status = status;
    notes = dto.notes;
    performed_by = user;
  }

  -- Step 7: the record of the discount, and the count of its uses.
  abbrev pub applied_row : ℕ → ℕ → ℕ → Pricing → ℕ → DiscountRule → AppliedDiscount
  applied_row organization user sale p id r = record {
    organization_id = organization;
    sale_id = sale;
    discount_rule_id = id;
    discount_type = r.kind;
    discount_value = r.value;
    discount_amount = to_column p.discount;
    original_amount = to_column p.subtotal;
    final_amount = to_column p.total;
    applied_by = user;
  }

  count_use : ℕ → Option DiscountRule → Tx ⊤
  count_use id none db = err record_not_found
  count_use id (some r) db = ok (tt, record db { rules = put id (increment_usage r) db.rules })

  unfoldable pub record_discount : ℕ → ℕ → ℕ → Pricing → Option (ℕ × DiscountRule) → Tx ⊤
  unfolding count_use
  record_discount organization user sale p none = pure tt
  record_discount organization user sale p (some (id, r)) = when (not (is_zero p.discount)) (do
    modify (λ db. record db { applied = applied_row organization user sale p id r ∷ db.applied })
    current ← gets (λ db. lookup id db.rules)
    count_use id current)

  -- `salesRepository.update`: the row with that id, changed by `change`
  set_sale : ℕ → (Sale → Sale) → Option Sale → Tx ⊤
  set_sale id change none db = err record_not_found
  set_sale id change (some s) db = ok (tt, record db { sales = put id (change s) db.sales })

  unfoldable pub update_sale : ℕ → (Sale → Sale) → Tx ⊤
  unfolding set_sale
  update_sale id change db = set_sale id change (lookup id db.sales) db

  abbrev pub sale_lines : List SaleItem → List SoldLine
  sale_lines = map (λ (i : SaleItem). record {
    product_id = i.product_id;
    quantity = i.quantity;
    unit_cost = some i.unit_price;
  })

  -- The credit of a sale.
  abbrev pub sale_credit : ℕ → ℕ → ℕ → ℤ → CreateSale → TransactionParams
  sale_credit organization user sale total dto = record {
    organization_id = organization;
    bank_account_id = default_to dto.bank_account_id no_id;
    kind = credit;
    amount = total;
    operation_type = sale_operation;
    reference_id = some sale;
    category_id = dto.category_id;
    payment_method = dto.payment_method;
    description = some (default_to dto.notes default_description);
    performed_by = some user;
  }

  -- The last step, if the sale is completed: the credit, its link, and the utility records.
  unfoldable pub settle : Status → ℕ → ℕ → ℕ → ℤ → CreateSale → Tx ⊤
  settle completed organization user sale total dto = do
    transaction ← create_transaction (sale_credit organization user sale total dto)
    update_sale sale (λ s. record s { transaction_id = some transaction })
    compute_and_persist sale organization (sale_lines dto.items)
  settle _ organization user sale total dto = pure tt

  -- The transaction of `create`; the id of the sale.
  unfoldable pub create_in : ℕ → ℕ → Status → CreateSale → Pricing → Tx ℕ
  create_in organization user status dto p = do
    stock_map ← resolve_stocks organization dto.items
    validate_sufficient_stock dto.items stock_map
    sale ← new_id
    modify
        (λ db. record db { sales = insert sale (sale_row organization user status dto p) db.sales })
    record_discount organization user sale p p.applied
    take_items organization user sale stock_map dto.items
    settle status organization user sale p.total dto
    pure sale

  unfoldable pub create : Option ℕ → ℕ → ℕ → CreateSale → Tx ℕ
  create tenant user now dto = do
    organization ← or_throw tenant (bad_request missing_organization)
    let status = default_to dto.status completed
    check_payment status dto.bank_account_id dto.payment_method
    check_client organization dto.client_id
    pricing ← price organization now dto.client_id (calc_total dto.items) dto.discount_code
    create_in organization user status dto pricing
