-- ===== src/Sales/Tests.antt =====
-- Runs of the operations of a sale on a small database, and each theorem on it.
use easy_point_api.Base.{All, List, [], arith, none, refl, some, true, ℕ, ◌*◌, ◌∷◌, ◌≡◌, map}
use easy_point_api.Inventory.{principal, create_movements, find_stock, increment_quantity}
use easy_point_api.Decimal.{exact, exact-RoundingLaws, exact-SignLaws}
use easy_point_api.Base.Table.{lookup, put, set_key}
use easy_point_api.Base.Int.{pos, ℤ, ◌*ℤ◌, ◌+ℤ◌, ◌-ℤ◌}
use easy_point_api.Database.{
  no_supplies, Account, Db, DiscountRule, Movement, Sale, Stock, active, global, pending,
  percentage, sold, Result, err, for_each, ok, Ensures, cancelled, conflict, not_pending,
  already_cancelled, row_refused,
}
use easy_point_api.Sales.Conserved.{HasValidStock, Sold, create-Sold}
use easy_point_api.Sales.Create.{
  CreateSale, create, apply_rule, check_client, check_payment, create_in, price, price_with,
  record_discount, settle, update_sale, sale_lines,
}
use easy_point_api.Sales.Consistent.{IsConsistent, IsConserved, Reaches-IsConserved}
use easy_point_api.Sales.Lifecycle.{
  CompleteSale, add_items, complete, find_own_sale, remove, restore_items, undo_sale,
}
use easy_point_api.Sales.Sufficient.{HasStock}
use easy_point_api.Sales.Items.{
  SaleItem, calc_total, calc_total_from, count_products, resolve_from, resolve_stock,
  resolve_stocks, some_lacks, stock_in, take_items, total_by_stock, validate_sufficient_stock,
}
use easy_point_api.Sales.Stock.{HasValidLine}
use easy_point_api.FinancialTransactions.Ledger.{HasValidLedger, KeepsLedger}
use easy_point_api.Utilities.{
  aggregate_from_items, compute_and_persist, delete_for_sale, compute_line,
}
use easy_point_api.Discounts.{can_apply, compute_discount_amount, find_rule}
use easy_point_api.BankAccounts.{
  find_account, increase_balance, row_with_version, update_with_version, decrease_balance,
}
use easy_point_api.FinancialTransactions.{
  apply_amount, commit, create_transaction, prepare, write_balance,
}
use easy_point_api.Sales.Restored.{Undone, remove-Undone}
use easy_point_api.Sales.RoundTrip.{IsReset, create-remove}
use easy_point_api.Sales.Added.{add_items-Sold}
use easy_point_api.Sales.Ledger.{create-KeepsLedger, remove-KeepsLedger}
use easy_point_api.Sales.Created.{CreatedSale, create-CreatedSale}
use easy_point_api.Sales.Machine.{
  Reaches, Step-Transition, Transition, created, finished, followed, here, removed, status_in,
}
use easy_point_api.Sales.Forward.{Reaches-cancelled, Reaches-settled, is_settled}
use easy_point_api.Sales.Twice.{complete-complete, remove-remove}
use easy_point_api.Sales.Rows.{Completed, complete-Completed, completed_row}
use easy_point_api.Sales.Verdict.{complete-verdict, completion_verdict}
use easy_point_api.Sales.Profit.{aggregate_from_items-sale, profit_of, sale_profit}
use easy_point_api.Base.Table.Rows.{AllRows}
use easy_point_api.Sales.Bounded.{IsBounded, IsNonnegLine, price-IsBounded}
use easy_point_api.Discounts.Bounds.{HasValidAmounts}

abbrev kilos : ℕ → ℤ
kilos n = pos (n * 100000000)

-- A product with 50 in stock, an account with 100, a pending sale and a rule of 10 percent.
abbrev stock_row : Stock
stock_row = record {
  organization_id = 1;
  product_id = 10;
  location = principal;
  quantity = kilos 50;
}

abbrev account_row : Account
account_row = record { organization_id = 1; balance = kilos 100; version = 3; status = active }

abbrev pending_sale : Sale
pending_sale = record {
  organization_id = 1;
  client_id = none;
  subtotal_amount = some (kilos 6);
  discount_amount = none;
  total_amount = kilos 6;
  transaction_id = none;
  status = pending;
  notes = none;
  performed_by = 9;
}

abbrev old_move : Movement
old_move = record {
  organization_id = 1;
  product_id = 10;
  stock_id = 20;
  quantity = kilos 3;
  unit_cost = some (kilos 2);
  kind = sold;
  sale_id = some 60;
  product_purchase_id = none;
  production_id = none;
  performed_by = 9;
}

abbrev ten_percent : DiscountRule
ten_percent = record {
  organization_id = 1;
  code = 77;
  kind = percentage;
  value = kilos 10;
  scope = global;
  client_id = none;
  starts_at = some 5;
  expires_at = none;
  max_discount_amount = some (kilos 4);
  min_sale_amount = some (kilos 5);
  max_usages = some 2;
  usage_count = 1;
  is_active = true;
}

abbrev shop : Db
shop = record {
  clients = [];
  products =
      (10, record { organization_id = 1; is_purchased = true; cost_price = some (kilos 1) }) ∷ [];
  stocks = (20, stock_row) ∷ [];
  movements = old_move ∷ [];
  categories = [];
  accounts = (30, account_row) ∷ [];
  transactions = [];
  sales = (60, pending_sale) ∷ [];
  purchases = [];
  rules = (40, ten_percent) ∷ [];
  applied = [];
  utilities = [];
  supplies = no_supplies;
  next_id = 100;
}

abbrev two_lines : List SaleItem
two_lines =
    record { product_id = 10; location = none; quantity = kilos 5; unit_price = kilos 2 }
    ∷ record {
      product_id = 10;
      location = some principal;
      quantity = kilos 10;
      unit_price = kilos 3;
    }
    ∷ []

abbrev order : CreateSale
order = record {
  client_id = none;
  discount_code = some 77;
  status = none;
  bank_account_id = some 30;
  payment_method = some 1;
  category_id = none;
  notes = none;
  items = two_lines;
}

abbrev finish : CompleteSale
finish = record { bank_account_id = 30; category_id = none; payment_method = none; notes = none }

two_lines-valid : All (HasValidLine ⦃ar = exact⦄) two_lines
unfolding exact
two_lines-valid = ((omega arith, refl), ((omega arith, refl), tt))

shop-HasStock : HasStock shop
unfolding lookup
shop-HasStock s = ground arith

shop-HasValidStock : HasValidStock ⦃ar = exact⦄ shop
unfolding exact
shop-HasValidStock = record {
  stock = shop-HasStock;
  stored = (refl, tt);
  moves = ((refl, (refl, omega arith)), tt);
}

shop-HasValidLedger : HasValidLedger ⦃ar = exact⦄ shop
unfolding exact
shop-HasValidLedger = (((omega arith, refl), tt), tt)

shop-IsConsistent : IsConsistent ⦃ar = exact⦄ shop
unfolding exact lookup
shop-IsConsistent = record {
  stock = shop-HasValidStock;
  ledger = shop-HasValidLedger;
  totals = (refl, tt);
  unique = (refl, tt);
}

abbrev outcome : {A : Type 0} → Db → Result (A × Db) → Db
outcome db (ok r) = r.1
outcome db (err e) = db

-- The order of 40 is completed at a discount of 4, the ceiling of the rule.
sold_shop : Db
unfolding create
sold_shop = outcome shop (create ⦃ar = exact⦄ (some 1) 9 7 order shop)

create_test : create ⦃ar = exact⦄ (some 1) 9 7 order shop ≡ ok (100, sold_shop)
unfolding sold_shop create check_payment check_client price price_with apply_rule find_rule
    can_apply compute_discount_amount calc_total calc_total_from create_in resolve_stocks
    resolve_from resolve_stock stock_in count_products find_stock validate_sufficient_stock
    total_by_stock some_lacks set_key lookup put record_discount take_items create_movements
    for_each increment_quantity settle create_transaction prepare find_account apply_amount
    increase_balance commit write_balance update_with_version row_with_version update_sale
    compute_and_persist aggregate_from_items compute_line exact ◌+ℤ◌ ◌-ℤ◌ ◌*ℤ◌
create_test = refl

create_test_amounts :
    (lookup 20 sold_shop.stocks ≡ some (record stock_row { quantity = kilos 35 }))
    × (lookup 30 sold_shop.accounts
        ≡ some (record account_row { balance = kilos 136; version = 4 }))
unfolding sold_shop create check_payment check_client price price_with apply_rule find_rule
    can_apply compute_discount_amount calc_total calc_total_from create_in resolve_stocks
    resolve_from resolve_stock stock_in count_products find_stock validate_sufficient_stock
    total_by_stock some_lacks set_key lookup put record_discount take_items create_movements
    for_each increment_quantity settle create_transaction prepare find_account apply_amount
    increase_balance commit write_balance update_with_version row_with_version update_sale
    compute_and_persist aggregate_from_items compute_line exact ◌+ℤ◌ ◌-ℤ◌ ◌*ℤ◌
create_test_amounts = (refl, refl)

shop_unused : lookup 100 shop.sales ≡ none
unfolding lookup
shop_unused = refl

shop_sale : lookup 60 shop.sales ≡ some pending_sale
unfolding lookup
shop_sale = refl

sold_shop_reached : Reaches ⦃ar = exact⦄ shop sold_shop
sold_shop_reached =
    followed shop sold_shop here
      (created (some 1) 9 7 order 100 two_lines-valid shop_unused create_test)

-- The pending sale of 6 is completed, and removed after that.
completed_shop : Db
completed_shop = outcome shop (complete ⦃ar = exact⦄ (some 1) 9 60 finish shop)

complete_test : complete ⦃ar = exact⦄ (some 1) 9 60 finish shop ≡ ok (tt, completed_shop)
unfolding completed_shop complete find_own_sale lookup put create_transaction prepare find_account
    apply_amount increase_balance commit write_balance update_with_version row_with_version
    update_sale compute_and_persist aggregate_from_items compute_line exact ◌+ℤ◌ ◌-ℤ◌
complete_test = refl

-- A product that costs 101 times its price is too much for the column of the margin.
abbrev shop_at_cost : ℕ → Db
shop_at_cost n = record shop {
  products =
      (10, record { organization_id = 1; is_purchased = true; cost_price = some (kilos n) }) ∷ [];
}

margin_test : complete ⦃ar = exact⦄ (some 1) 9 60 finish (shop_at_cost 202) ≡ err row_refused
unfolding complete find_own_sale lookup put create_transaction prepare find_account apply_amount
    increase_balance commit write_balance update_with_version row_with_version update_sale
    compute_and_persist aggregate_from_items compute_line exact ◌+ℤ◌ ◌-ℤ◌ ◌*ℤ◌
margin_test = refl

removed_shop : Db
removed_shop = outcome completed_shop (remove ⦃ar = exact⦄ (some 1) 9 60 completed_shop)

remove_test : remove ⦃ar = exact⦄ (some 1) 9 60 completed_shop ≡ ok (tt, removed_shop)
unfolding removed_shop completed_shop complete remove restore_items undo_sale delete_for_sale
    for_each increment_quantity find_own_sale lookup put create_transaction prepare find_account
    apply_amount increase_balance decrease_balance commit write_balance update_with_version
    row_with_version update_sale compute_and_persist aggregate_from_items compute_line exact ◌+ℤ◌
    ◌-ℤ◌
remove_test = refl

removed_shop_reached : Reaches ⦃ar = exact⦄ shop removed_shop
removed_shop_reached =
    followed completed_shop removed_shop
      (followed shop completed_shop here (finished (some 1) 9 60 finish complete_test))
      (removed (some 1) 9 60 remove_test)

completed_shop-IsConsistent : IsConsistent ⦃ar = exact⦄ completed_shop
completed_shop-IsConsistent =
    (Reaches-IsConserved ⦃ar = exact⦄ exact-RoundingLaws shop completed_shop shop-IsConsistent
      (followed shop completed_shop here (finished (some 1) 9 60 finish complete_test))).1

removed_shop_status : status_in (lookup 60 removed_shop.sales) ≡ some cancelled
unfolding removed_shop completed_shop complete remove restore_items undo_sale delete_for_sale
    for_each increment_quantity find_own_sale lookup put create_transaction prepare find_account
    apply_amount increase_balance decrease_balance commit write_balance update_with_version
    row_with_version update_sale compute_and_persist aggregate_from_items compute_line exact ◌+ℤ◌
    ◌-ℤ◌
removed_shop_status = refl

completed_shop_status : is_settled (status_in (lookup 60 completed_shop.sales)) ≡ true
unfolding completed_shop complete find_own_sale lookup put create_transaction prepare find_account
    apply_amount increase_balance commit write_balance update_with_version row_with_version
    update_sale compute_and_persist aggregate_from_items compute_line exact ◌+ℤ◌ ◌-ℤ◌
completed_shop_status = refl

abbrev completed_sale : Sale
completed_sale = completed_row ⦃ar = exact⦄ finish 100 pending_sale

completed_shop_sale : lookup 60 completed_shop.sales ≡ some completed_sale
unfolding completed_shop complete find_own_sale lookup put create_transaction prepare find_account
    apply_amount increase_balance commit write_balance update_with_version row_with_version
    update_sale compute_and_persist aggregate_from_items compute_line exact ◌+ℤ◌ ◌-ℤ◌
completed_shop_sale = refl

-- After the removal another sale is created.
reopened_shop : Db
reopened_shop = outcome removed_shop (create ⦃ar = exact⦄ (some 1) 9 7 order removed_shop)

reopened_test : create ⦃ar = exact⦄ (some 1) 9 7 order removed_shop ≡ ok (103, reopened_shop)
unfolding reopened_shop ◌*ℤ◌ create check_payment check_client price price_with apply_rule find_rule
    can_apply compute_discount_amount calc_total calc_total_from create_in resolve_stocks
    resolve_from resolve_stock stock_in count_products find_stock validate_sufficient_stock
    total_by_stock some_lacks set_key record_discount take_items create_movements settle
    removed_shop completed_shop complete remove restore_items undo_sale delete_for_sale for_each
    increment_quantity find_own_sale lookup put create_transaction prepare find_account apply_amount
    increase_balance decrease_balance commit write_balance update_with_version row_with_version
    update_sale compute_and_persist aggregate_from_items compute_line exact ◌+ℤ◌ ◌-ℤ◌
reopened_test = refl

reopened_unused : lookup removed_shop.next_id removed_shop.sales ≡ none
unfolding removed_shop completed_shop complete remove restore_items undo_sale delete_for_sale
    for_each increment_quantity find_own_sale lookup put create_transaction prepare find_account
    apply_amount increase_balance decrease_balance commit write_balance update_with_version
    row_with_version update_sale compute_and_persist aggregate_from_items compute_line exact ◌+ℤ◌
    ◌-ℤ◌
reopened_unused = refl

-- The theorems.
Reaches-IsConserved_example : IsConserved shop removed_shop × IsConsistent ⦃ar = exact⦄ removed_shop
Reaches-IsConserved_example =
    Reaches-IsConserved ⦃ar = exact⦄ exact-RoundingLaws shop removed_shop shop-IsConsistent
      removed_shop_reached

Step-Transition_example :
    Transition (status_in (lookup 60 shop.sales)) (status_in (lookup 60 completed_shop.sales))
Step-Transition_example =
    Step-Transition ⦃ar = exact⦄ shop completed_shop 60 shop-IsConsistent.unique
      (finished (some 1) 9 60 finish complete_test)

create-remove_example :
    Ensures
      (λ sale db'. Ensures (λ _ db''. IsReset shop db'') (remove ⦃ar = exact⦄ (some 1) 8 sale db'))
      (create ⦃ar = exact⦄ (some 1) 9 7 order shop)
create-remove_example =
    create-remove ⦃ar = exact⦄ exact-RoundingLaws (some 1) (some 1) 9 8 7 order shop
      shop-HasValidStock two_lines-valid (refl, tt)

create-Sold_example :
    Ensures
      (λ _ db'. Sold ⦃ar = exact⦄ two_lines shop db')
      (create ⦃ar = exact⦄ (some 1) 9 7 order shop)
create-Sold_example =
    create-Sold ⦃ar = exact⦄ exact-RoundingLaws (some 1) 9 7 order shop shop-HasValidStock
      two_lines-valid

add_items-Sold_example :
    Ensures
      (λ _ db'. Sold ⦃ar = exact⦄ two_lines shop db')
      (add_items ⦃ar = exact⦄ (some 1) 9 60 two_lines shop)
add_items-Sold_example =
    add_items-Sold ⦃ar = exact⦄ exact-RoundingLaws (some 1) 9 60 two_lines shop shop-HasValidStock
      two_lines-valid

remove-Undone_example :
    Ensures (λ _ db'. Undone ⦃ar = exact⦄ 60 shop db') (remove ⦃ar = exact⦄ (some 1) 9 60 shop)
remove-Undone_example =
    remove-Undone ⦃ar = exact⦄ exact-RoundingLaws (some 1) 9 60 shop shop-HasValidStock

create-CreatedSale_example :
    Ensures (CreatedSale ⦃ar = exact⦄ 9 7 order shop) (create ⦃ar = exact⦄ (some 1) 9 7 order shop)
create-CreatedSale_example = create-CreatedSale ⦃ar = exact⦄ (some 1) 9 7 order shop

create-KeepsLedger_example :
    Ensures
      (λ _ db'. KeepsLedger ⦃ar = exact⦄ exact-RoundingLaws shop db')
      (create ⦃ar = exact⦄ (some 1) 9 7 order shop)
create-KeepsLedger_example =
    create-KeepsLedger ⦃ar = exact⦄ exact-RoundingLaws (some 1) 9 7 order shop shop-HasValidLedger

remove-KeepsLedger_example :
    Ensures
      (λ _ db'. KeepsLedger ⦃ar = exact⦄ exact-RoundingLaws completed_shop db')
      (remove ⦃ar = exact⦄ (some 1) 9 60 completed_shop)
remove-KeepsLedger_example =
    remove-KeepsLedger ⦃ar = exact⦄ exact-RoundingLaws (some 1) 9 60 completed_shop
      completed_shop-IsConsistent.ledger completed_shop-IsConsistent.totals

Reaches-cancelled_example : status_in (lookup 60 reopened_shop.sales) ≡ some cancelled
Reaches-cancelled_example =
    Reaches-cancelled ⦃ar = exact⦄ exact-RoundingLaws removed_shop reopened_shop 60
      (Reaches-IsConserved ⦃ar = exact⦄ exact-RoundingLaws shop removed_shop shop-IsConsistent
        removed_shop_reached).1
      (followed removed_shop reopened_shop here
        (created (some 1) 9 7 order 103 two_lines-valid reopened_unused reopened_test))
      removed_shop_status

Reaches-settled_example : is_settled (status_in (lookup 60 removed_shop.sales)) ≡ true
Reaches-settled_example =
    Reaches-settled ⦃ar = exact⦄ exact-RoundingLaws completed_shop removed_shop 60
      completed_shop-IsConsistent
      (followed completed_shop removed_shop here (removed (some 1) 9 60 remove_test))
      completed_shop_status

complete-complete_example :
    (complete ⦃ar = exact⦄ (some 1) 8 60 finish completed_shop ≡ err (conflict not_pending))
    × (add_items ⦃ar = exact⦄ (some 1) 8 60 two_lines completed_shop ≡ err (conflict not_pending))
complete-complete_example =
    complete-complete ⦃ar = exact⦄ (some 1) 9 8 60 finish finish two_lines shop completed_shop
      complete_test

complete-Completed_example :
    Ensures
      (λ _ db'. Completed ⦃ar = exact⦄ (some 1) 60 finish shop db')
      (complete ⦃ar = exact⦄ (some 1) 9 60 finish shop)
complete-Completed_example = complete-Completed ⦃ar = exact⦄ (some 1) 9 60 finish shop

complete-verdict_test :
    completion_verdict 1 finish (lookup 60 completed_shop.sales) completed_shop
    ≡ some (conflict not_pending)
complete-verdict_test = rw completed_shop_sale refl

complete-verdict_example :
    complete ⦃ar = exact⦄ (some 1) 9 60 finish completed_shop ≡ err (conflict not_pending)
complete-verdict_example =
    complete-verdict ⦃ar = exact⦄ 1 9 60 finish (conflict not_pending) completed_shop
      complete-verdict_test

remove-remove_example :
    remove ⦃ar = exact⦄ (some 1) 8 60 removed_shop ≡ err (conflict already_cancelled)
remove-remove_example =
    remove-remove ⦃ar = exact⦄ (some 1) 9 8 60 completed_sale completed_shop removed_shop
      completed_shop-IsConsistent.unique completed_shop_sale remove_test

aggregate_from_items-sale_example :
    let u = sale_profit ⦃ar = exact⦄ 1 60 shop.products two_lines in
    (u.total_revenue ≡ calc_total ⦃ar = exact⦄ two_lines)
    × (u.gross_profit ≡ u.total_revenue -ℤ u.total_cost)
    × (u.gross_profit
        ≡ profit_of
            (map (compute_line ⦃ar = exact⦄ 1 shop.products) (sale_lines ⦃ar = exact⦄ two_lines)))
aggregate_from_items-sale_example =
    aggregate_from_items-sale ⦃ar = exact⦄ 1 60 shop.products two_lines

two_lines-IsNonnegLine : All (IsNonnegLine ⦃ar = exact⦄) two_lines
two_lines-IsNonnegLine = ((omega arith, omega arith), ((omega arith, omega arith), tt))

shop_rules : AllRows HasValidAmounts shop.rules
shop_rules = (record { value = omega arith; ceiling = omega arith }, tt)

price-IsBounded_example :
    Ensures
      (λ p _. IsBounded ⦃ar = exact⦄ p × (p.subtotal ≡ calc_total ⦃ar = exact⦄ two_lines))
      (price ⦃ar = exact⦄ 1 7 none (calc_total ⦃ar = exact⦄ two_lines) (some 77) shop)
price-IsBounded_example =
    price-IsBounded ⦃ar = exact⦄ exact-SignLaws 1 7 none (some 77) two_lines shop shop_rules
      two_lines-IsNonnegLine
