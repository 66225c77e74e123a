-- ===== src/Inventory.antt =====
-- Product stocks and inventory movements: src/modules/product-stocks/product-stocks.repository.ts,
-- src/modules/product-stocks/domain/product-stock.entity.ts,
-- src/modules/inventory-movements/inventory-movements.repository.ts and
-- src/modules/inventory-movements/inventory-movements.service.ts.
pub mod Balance
pub mod Manual
mod Tests
use easy_point_api.Base.{
  ℕ, ⊤, List, Option, none, some, map, suc, [], if◌then◌else◌, not, ◌&&◌, ◌++◌, ◌==◌, ◌||◌, ◌∷◌,
}
use easy_point_api.Database.{
  Db, Movement, MovementType, Stock, Tx, modify, err, ok, record_not_found, adjusted, bad_request,
  gets, missing_organization, not_found, or_throw, produced, pure, stock_mismatch, stock_missing,
  tested, throw_if, wasted, ◌>>=◌, ◌>>◌,
}
use easy_point_api.Decimal.{Arith, to_column}
use easy_point_api.Base.Table.{Table, lookup, insert, put}
use easy_point_api.Base.Int.{ℤ, pos, ◌+ℤ◌, ◌-ℤ◌}

-- `''` and `'Principal'` among the texts.
abbrev pub empty_text : ℕ
empty_text = 0

abbrev pub principal : ℕ
principal = 1

-- `item.location || 'Principal'`
abbrev pub location_of : Option ℕ → ℕ
location_of none = principal
location_of (some l) = if l == empty_text then principal else l

-- `findUnique({ where: { productId_location } })`: the id of the stock record
unfoldable pub find_stock : ℕ → ℕ → Table Stock → Option ℕ
find_stock product location [] = none
find_stock product location ((id, s) ∷ t) =
    if s.product_id == product && s.location == location
    then some id
    else find_stock product location t

-- `upsert` with an empty update: the id of the stock record, made with quantity 0 if there is none
unfoldable pub upsert_stock : ℕ → ℕ → ℕ → Tx ℕ
upsert_stock organization product location db = elim (find_stock product location db.stocks) [
  | some id ↦ ok (id, db)
  | none ↦ ok (
    db.next_id,
    record db {
      stocks =
          insert db.next_id
            (record {
              organization_id = organization;
              product_id = product;
              location = location;
              quantity = pos 0;
            })
            db.stocks;
      next_id = suc db.next_id;
    },
  )
]

module _ ⦃ar : Arith⦄ where
  abbrev pub stock_plus : Stock → ℤ → Stock
  stock_plus s delta = record s { quantity = to_column (s.quantity +ℤ delta) }

  -- UPDATE ... SET quantity = quantity + delta WHERE id = id
  unfoldable pub increment_quantity : ℕ → ℤ → Tx ⊤
  increment_quantity id delta db = elim (lookup id db.stocks) [
    | none ↦ err record_not_found
    | some s ↦ ok (tt, record db { stocks = put id (stock_plus s delta) db.stocks })
  ]

  abbrev pub stored_cost : Option ℤ → Option ℤ
  stored_cost none = none
  stored_cost (some c) = some (to_column c)

  -- A movement as its row holds it.
  abbrev pub movement_row : Movement → Movement
  movement_row m = record m { quantity = to_column m.quantity; unit_cost = stored_cost m.unit_cost }

  -- `createMany`
  unfoldable pub create_movements : List Movement → Tx ⊤
  create_movements rows =
      modify (λ db. record db { movements = map movement_row rows ++ db.movements })

-- `applyMovement`: `mathOperation` is 'ADD' or 'SUBTRACT'.
pub data MathOperation : Type 0 where
  add subtract : MathOperation

abbrev pub apply_movement : MathOperation → ℤ → ℤ → ℤ
apply_movement add quantity amount = quantity +ℤ amount
apply_movement subtract quantity amount = quantity -ℤ amount

-- The arguments of `processMovement` that come from the request.
pub record MovementRequest : Type 0 where
  pub product_id : ℕ
  pub stock_id : ℕ
  pub quantity : ℤ

module _ ⦃ar : Arith⦄ where
  -- The part of `processMovement` before its transaction: the stock as it is to be written.
  unfoldable pub prepare_movement : ℕ → MovementRequest → MathOperation → Tx Stock
  prepare_movement organization dto operation = do
    stock ← or_throw (← gets (λ db. lookup dto.stock_id db.stocks)) (not_found stock_missing)
    throw_if
        (not (stock.organization_id == organization) || not (stock.product_id == dto.product_id))
        (bad_request stock_mismatch)
    pure (record stock { quantity = apply_movement operation stock.quantity dto.quantity })

  -- UPDATE ... SET quantity = quantity WHERE id = id, with the quantity of the entity
  unfoldable pub write_quantity : ℕ → ℤ → Tx ⊤
  write_quantity id quantity db = elim (lookup id db.stocks) [
    | none ↦ err record_not_found
    | some s ↦
        ok
          (tt, record db { stocks = put id (record s { quantity = to_column quantity }) db.stocks })
  ]

  -- Its transaction.
  unfoldable pub write_movement : ℕ → ℕ → MovementRequest → MovementType → Stock → Tx ⊤
  write_movement organization user dto kind stock = do
    write_quantity dto.stock_id stock.quantity
    create_movements (
        record {
          organization_id = organization;
          product_id = dto.product_id;
          stock_id = dto.stock_id;
          quantity = dto.quantity;
          unit_cost = none;
          kind = kind;
          sale_id = none;
          product_purchase_id = none;
          production_id = none;
          performed_by = user;
        }
        ∷ [])

  unfoldable pub process_movement : ℕ → ℕ → MovementRequest → MovementType → MathOperation → Tx ⊤
  process_movement organization user dto kind operation = do
    stock ← prepare_movement organization dto operation
    write_movement organization user dto kind stock

  -- `createAdjustment`, `createWaste`, `createTests` and `createProduction`, each behind the check
  -- for a tenant
  unfoldable pub create_adjustment : Option ℕ → ℕ → MovementRequest → Tx ⊤
  create_adjustment tenant user dto = do
    organization ← or_throw tenant (bad_request missing_organization)
    process_movement organization user dto adjusted add

  unfoldable pub create_waste : Option ℕ → ℕ → MovementRequest → Tx ⊤
  create_waste tenant user dto = do
    organization ← or_throw tenant (bad_request missing_organization)
    process_movement organization user dto wasted subtract

  unfoldable pub create_tests : Option ℕ → ℕ → MovementRequest → Tx ⊤
  create_tests tenant user dto = do
    organization ← or_throw tenant (bad_request missing_organization)
    process_movement organization user dto tested subtract

  unfoldable pub create_production : Option ℕ → ℕ → MovementRequest → Tx ⊤
  create_production tenant user dto = do
    organization ← or_throw tenant (bad_request missing_organization)
    process_movement organization user dto produced add
