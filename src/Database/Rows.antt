-- ===== src/Database/Rows.antt =====
-- The rows of the tables (prisma/schema.prisma), without the columns that only name or describe.
-- Ids, users, texts and instants are only compared, so natural numbers stand for them.
use easy_point_api.Base.{ℕ, Bool, Option, List, []}
use easy_point_api.Base.Int.{ℤ}
use easy_point_api.Base.Table.{Table}
use easy_point_api.Database.SupplyRows.{
  Supply, SupplyStock, StockEntry, SupplyMovement, Production, SupplyUsage,
}

pub data AccountStatus : Type 0 where
  active inactive closed : AccountStatus

pub data TransactionType : Type 0 where
  credit debit : TransactionType

pub data OperationType : Type 0 where
  sale_operation purchase_operation refund adjustment other_operation : OperationType

pub data MovementType : Type 0 where
  sold produced purchased adjusted wasted tested : MovementType

-- `SaleStatus` and `PurchaseStatus` have the same members.
pub data Status : Type 0 where
  pending completed cancelled : Status

pub data DiscountType : Type 0 where
  fixed_amount percentage : DiscountType

pub data DiscountScope : Type 0 where
  global client_only : DiscountScope

pub data CostSource : Type 0 where
  production_cost estimated unknown_cost : CostSource

pub record Product : Type 0 where
  pub organization_id : ℕ
  pub is_purchased : Bool
  pub cost_price : Option ℤ

pub record Stock : Type 0 where
  pub organization_id : ℕ
  pub product_id : ℕ
  pub location : ℕ
  pub quantity : ℤ

pub record Movement : Type 0 where
  pub organization_id : ℕ
  pub product_id : ℕ
  pub stock_id : ℕ
  pub quantity : ℤ
  pub unit_cost : Option ℤ
  pub kind : MovementType
  pub sale_id : Option ℕ
  pub product_purchase_id : Option ℕ
  pub production_id : Option ℕ
  pub performed_by : ℕ

pub record Account : Type 0 where
  pub organization_id : ℕ
  pub balance : ℤ
  pub version : ℕ
  pub status : AccountStatus

pub record Transaction : Type 0 where
  pub organization_id : ℕ
  pub bank_account_id : ℕ
  pub kind : TransactionType
  pub amount : ℤ
  pub balance_before : ℤ
  pub balance_after : ℤ
  pub operation_type : OperationType
  pub reference_id : Option ℕ
  pub category_id : Option ℕ
  pub payment_method : Option ℕ
  pub description : Option ℕ
  pub performed_by : Option ℕ

pub record Sale : Type 0 where
  pub organization_id : ℕ
  pub client_id : Option ℕ
  pub subtotal_amount : Option ℤ
  pub discount_amount : Option ℤ
  pub total_amount : ℤ
  pub transaction_id : Option ℕ
  pub status : Status
  pub notes : Option ℕ
  pub performed_by : ℕ

pub record Purchase : Type 0 where
  pub organization_id : ℕ
  pub supplier_id : Option ℕ
  pub total_amount : ℤ
  pub transaction_id : Option ℕ
  pub status : Status
  pub notes : Option ℕ
  pub performed_by : ℕ

pub record DiscountRule : Type 0 where
  pub organization_id : ℕ
  pub code : ℕ
  pub kind : DiscountType
  pub value : ℤ
  pub scope : DiscountScope
  pub client_id : Option ℕ
  pub starts_at : Option ℕ
  pub expires_at : Option ℕ
  pub max_discount_amount : Option ℤ
  pub min_sale_amount : Option ℤ
  pub max_usages : Option ℕ
  pub usage_count : ℕ
  pub is_active : Bool

pub record AppliedDiscount : Type 0 where
  pub organization_id : ℕ
  pub sale_id : ℕ
  pub discount_rule_id : ℕ
  pub discount_type : DiscountType
  pub discount_value : ℤ
  pub discount_amount : ℤ
  pub original_amount : ℤ
  pub final_amount : ℤ
  pub applied_by : ℕ

pub record SaleItemUtility : Type 0 where
  pub organization_id : ℕ
  pub product_id : ℕ
  pub quantity : ℤ
  pub unit_revenue : ℤ
  pub unit_cost : ℤ
  pub total_revenue : ℤ
  pub total_cost : ℤ
  pub gross_profit : ℤ
  pub margin_percent : ℤ
  pub cost_source : CostSource

pub record SaleUtility : Type 0 where
  pub organization_id : ℕ
  pub sale_id : ℕ
  pub total_revenue : ℤ
  pub total_cost : ℤ
  pub gross_profit : ℤ
  pub margin_percent : ℤ
  pub items : List SaleItemUtility

-- The tables of supplies and productions. A supply purchase has the columns of a product purchase.
pub record Supplies : Type 0 where
  pub supply_table : Table Supply
  pub supply_stocks : Table SupplyStock
  pub entries : Table StockEntry
  pub supply_movements : List SupplyMovement
  pub supply_purchases : Table Purchase
  pub productions : Table Production
  pub usages : List SupplyUsage
  pub next_supply_id : ℕ

-- `next_id` and `next_supply_id` are the next values of `uuid()`, which every insertion takes.
pub record Db : Type 0 where
  pub clients : Table ℕ
  pub products : Table Product
  pub stocks : Table Stock
  pub movements : List Movement
  pub accounts : Table Account
  pub transactions : Table Transaction
  -- The keys of all transaction categories: a foreign key is checked beneath the policies.
  pub categories : List ℕ
  pub sales : Table Sale
  pub purchases : Table Purchase
  pub rules : Table DiscountRule
  pub applied : List AppliedDiscount
  pub utilities : Table SaleUtility
  pub supplies : Supplies
  pub next_id : ℕ

abbrev pub no_supplies : Supplies
no_supplies = record {
  supply_table = [];
  supply_stocks = [];
  entries = [];
  supply_movements = [];
  supply_purchases = [];
  productions = [];
  usages = [];
  next_supply_id = 1;
}
