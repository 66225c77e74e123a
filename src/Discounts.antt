-- ===== src/Discounts.antt =====
-- Discount rules: src/modules/discount-rules/domain/discount-rule.entity.ts,
-- src/modules/discount-rules/discount-rules.service.ts and the validator of
-- src/modules/discount-rules/dto/create-discount-rule.dto.ts.
pub mod Bounds
mod Tests
use easy_point_api.Base.{
  Bool, Option, [], default_to, false, if◌then◌else◌, is_some, leb, ltb, none, not, some, suc, true,
  ℕ, ⊤, ◌&&◌, ◌==◌, ◌∷◌,
}
use easy_point_api.Decimal.{Arith, divided_by, of_number, times, to_column}
use easy_point_api.Base.Table.{Table, delete, insert, lookup, put}
use easy_point_api.Base.Int.{ltb_ℤ, pos, ℤ}
use easy_point_api.Database.{
  DiscountRule, DiscountScope, DiscountType, Tx, bad_request, client_only, client_required,
  code_taken, conflict, fixed_amount, gets, global, invalid_value, missing_organization, modify,
  new_id, not_found, or_throw, percentage, pure, rule_missing, throw_if, ◌>>=◌, ◌>>◌,
}

-- `incrementUsage`, and the same in the database, `usageCount: { increment: 1 }`
abbrev pub increment_usage : DiscountRule → DiscountRule
increment_usage r = record r { usage_count = suc r.usage_count }

-- `this.startsAt && now < this.startsAt`, and the like for the other optional limits
abbrev pub starts_after : Option ℕ → ℕ → Bool
starts_after none now = false
starts_after (some t) now = ltb now t

abbrev pub expired_at : Option ℕ → ℕ → Bool
expired_at none now = false
expired_at (some t) now = ltb t now

abbrev pub used_up : Option ℕ → ℕ → Bool
used_up none count = false
used_up (some most) count = leb most count

abbrev pub below_minimum : Option ℤ → ℤ → Bool
below_minimum none subtotal = false
below_minimum (some least) subtotal = ltb_ℤ subtotal least

unfoldable pub can_apply : DiscountRule → ℕ → ℤ → Bool
can_apply r now subtotal =
    if not r.is_active
    then false
    else if starts_after r.starts_at now
    then false
    else if expired_at r.expires_at now
    then false
    else if used_up r.max_usages r.usage_count
    then false
    else if below_minimum r.min_sale_amount subtotal
    then false
    else true

module _ ⦃ar : Arith⦄ where
  -- `maxDiscountAmount !== null && amount.greaterThan(maxDiscountAmount)`
  abbrev pub capped : Option ℤ → ℤ → ℤ
  capped none amount = amount
  capped (some most) amount = if ltb_ℤ most amount then most else amount

  abbrev pub raw_amount : DiscountType → DiscountRule → ℤ → ℤ
  raw_amount percentage r subtotal =
      capped r.max_discount_amount (divided_by (times subtotal r.value) (of_number 100))
  raw_amount fixed_amount r subtotal = r.value

  unfoldable pub compute_discount_amount : DiscountRule → ℤ → ℤ
  compute_discount_amount r subtotal =
      let amount = raw_amount r.kind r subtotal in
      if ltb_ℤ subtotal amount then subtotal else amount

  -- `IsDiscountValueValid`, on a value that is a number
  abbrev pub exceeds_percentage : DiscountType → ℤ → Bool
  exceeds_percentage percentage value = ltb_ℤ (of_number 100) value
  exceeds_percentage fixed_amount value = false

  unfoldable pub is_discount_value_valid : DiscountType → ℤ → Bool
  is_discount_value_valid kind value =
      if ltb_ℤ value (pos 0) then false else not (exceeds_percentage kind value)

abbrev pub is_client_only : DiscountScope → Bool
is_client_only client_only = true
is_client_only global = false

-- `findByCode` of the repository: the unique key is (organizationId, code)
unfoldable pub find_rule : ℕ → ℕ → Table DiscountRule → Option (ℕ × DiscountRule)
find_rule organization code [] = none
find_rule organization code ((id, r) ∷ t) =
    if r.organization_id == organization && r.code == code
    then some (id, r)
    else find_rule organization code t

-- `CreateDiscountRuleDto`, without the name and the notes; `code` is what `dto.code` gives or what
-- `generateCode` makes of the name.
pub record RuleDto : Type 0 where
  pub kind : DiscountType
  pub value : ℤ
  pub scope : DiscountScope
  pub client_id : Option ℕ
  pub starts_at : Option ℕ
  pub expires_at : Option ℕ
  pub max_discount_amount : Option ℤ
  pub min_sale_amount : Option ℤ
  pub max_usages : Option ℕ
  pub is_active : Option Bool
  pub code : ℕ

-- `UpdateDiscountRuleDto`: `none` is a field that the request leaves out, and `some none` is `null`.
-- `code` is a code that is not empty, in upper case and trimmed.
pub record RuleUpdate : Type 0 where
  pub code : Option ℕ
  pub value : Option ℤ
  pub client_id : Option (Option ℕ)
  pub starts_at : Option (Option ℕ)
  pub expires_at : Option (Option ℕ)
  pub max_discount_amount : Option (Option ℤ)
  pub min_sale_amount : Option (Option ℤ)
  pub max_usages : Option (Option ℕ)
  pub is_active : Option Bool

module _ ⦃ar : Arith⦄ where
  abbrev pub stored_option : Option ℤ → Option ℤ
  stored_option none = none
  stored_option (some a) = some (to_column a)

  abbrev pub rule_row : ℕ → RuleDto → DiscountRule
  rule_row organization dto = record {
    organization_id = organization;
    code = dto.code;
    kind = dto.kind;
    value = to_column dto.value;
    scope = dto.scope;
    client_id = dto.client_id;
    starts_at = dto.starts_at;
    expires_at = dto.expires_at;
    max_discount_amount = stored_option dto.max_discount_amount;
    min_sale_amount = stored_option dto.min_sale_amount;
    max_usages = dto.max_usages;
    usage_count = 0;
    is_active = default_to dto.is_active true;
  }

  unfoldable pub create_rule : Option ℕ → RuleDto → Tx ℕ
  create_rule tenant dto = do
    organization ← or_throw tenant (bad_request missing_organization)
    throw_if (is_client_only dto.scope && not (is_some dto.client_id)) (bad_request client_required)
    throw_if (is_some (← gets (λ db. find_rule organization dto.code db.rules)))
        (conflict code_taken)
    id ← new_id
    modify (λ db. record db { rules = insert id (rule_row organization dto) db.rules })
    pure id

  -- `findOne`, and the writes of the repository by id
  abbrev pub find_rule_by_id : ℕ → Tx DiscountRule
  find_rule_by_id id = do
    found ← gets (λ db. lookup id db.rules)
    or_throw found (not_found rule_missing)

  abbrev pub set_rule : ℕ → DiscountRule → Tx DiscountRule
  set_rule id r = modify (λ db. record db { rules = put id r db.rules }) >> pure r

  -- `dto.value > 100` for a percentage, and `dto.value < 0`
  abbrev pub check_value : DiscountType → Option ℤ → Tx ⊤
  check_value kind none = pure tt
  check_value kind (some value) =
      throw_if (exceeds_percentage kind value) (bad_request invalid_value)
      >> throw_if (ltb_ℤ value (pos 0)) (bad_request invalid_value)

  abbrev pub taken_by_other : ℕ → Option (ℕ × DiscountRule) → Bool
  taken_by_other id none = false
  taken_by_other id (some (other, r)) = not (other == id)

  abbrev pub check_code : ℕ → ℕ → Option ℕ → Tx ⊤
  check_code organization id none = pure tt
  check_code organization id (some code) = do
    found ← gets (λ db. find_rule organization code db.rules)
    throw_if (taken_by_other id found) (conflict code_taken)

  abbrev pub updated_value : Option ℤ → ℤ → ℤ
  updated_value none old = old
  updated_value (some v) old = to_column v

  abbrev pub updated_amount : Option (Option ℤ) → Option ℤ → Option ℤ
  updated_amount none old = old
  updated_amount (some a) old = stored_option a

  -- The row after `data: updateData`.
  abbrev pub updated_rule : RuleUpdate → DiscountRule → DiscountRule
  updated_rule dto r = record r {
    code = default_to dto.code r.code;
    value = updated_value dto.value r.value;
    client_id = default_to dto.client_id r.client_id;
    starts_at = default_to dto.starts_at r.starts_at;
    expires_at = default_to dto.expires_at r.expires_at;
    max_discount_amount = updated_amount dto.max_discount_amount r.max_discount_amount;
    min_sale_amount = updated_amount dto.min_sale_amount r.min_sale_amount;
    max_usages = default_to dto.max_usages r.max_usages;
    is_active = default_to dto.is_active r.is_active;
  }

  -- `organization` is `getTenantId()!`
  unfoldable pub update_rule : ℕ → ℕ → RuleUpdate → Tx DiscountRule
  update_rule organization id dto = do
    existing ← find_rule_by_id id
    check_value existing.kind dto.value
    check_code organization id dto.code
    set_rule id (updated_rule dto existing)

  unfoldable pub toggle_rule : ℕ → Bool → Tx DiscountRule
  toggle_rule id is_active = do
    existing ← find_rule_by_id id
    set_rule id (record existing { is_active = is_active })

  unfoldable pub remove_rule : ℕ → Tx DiscountRule
  remove_rule id = do
    existing ← find_rule_by_id id
    modify (λ db. record db { rules = delete id db.rules })
    pure existing
