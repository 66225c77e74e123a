-- ===== src/Database/SupplyRows.antt =====
-- The rows of the tables of supplies and productions (prisma/schema.prisma), without the columns that
-- only name or describe.
use easy_point_api.Base.{ℕ, Bool, Option}
use easy_point_api.Base.Int.{ℤ}

pub data UnitOfMeasure : Type 0 where
  gram milliliter piece : UnitOfMeasure

pub data SupplyMovementType : Type 0 where
  supply_bought supply_used supply_adjusted supply_wasted supply_tested : SupplyMovementType

pub data ProductionType : Type 0 where
  sellable intermediate : ProductionType

pub data ProductionStatus : Type 0 where
  draft finished abandoned : ProductionStatus

pub record Supply : Type 0 where
  pub organization_id : ℕ
  pub unit_of_measure : UnitOfMeasure
  pub package_size : ℤ

pub record SupplyStock : Type 0 where
  pub organization_id : ℕ
  pub supply_id : ℕ
  pub location : ℕ
  pub quantity : ℤ

-- A lot.
pub record StockEntry : Type 0 where
  pub organization_id : ℕ
  pub supply_stock_id : ℕ
  pub supply_purchase_id : Option ℕ
  pub initial_quantity : ℤ
  pub remaining_quantity : ℤ
  pub unit_cost : ℤ
  pub is_exhausted : Bool

pub record SupplyMovement : Type 0 where
  pub organization_id : ℕ
  pub supply_id : ℕ
  pub stock_id : ℕ
  pub quantity : ℤ
  pub unit_cost : Option ℤ
  pub kind : SupplyMovementType
  pub supply_purchase_id : Option ℕ
  pub production_id : Option ℕ
  pub performed_by : ℕ

pub record Production : Type 0 where
  pub organization_id : ℕ
  pub kind : ProductionType
  pub status : ProductionStatus
  pub product_id : Option ℕ
  pub quantity_produced : ℤ
  pub total_cost : ℤ
  pub performed_by : ℕ

pub record SupplyUsage : Type 0 where
  pub production_id : ℕ
  pub supply_id : ℕ
  pub supply_stock_entry_id : Option ℕ
  pub quantity_used : ℤ
  pub unit_cost : ℤ
  pub total_cost : ℤ
