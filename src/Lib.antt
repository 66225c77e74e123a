-- ===== src/Lib.antt =====
-- The EasyPoint API: what a sale, a purchase, a stock movement and a bank transaction do to the
-- database, and what they conserve.
--
-- The program is a NestJS service over PostgreSQL (Prisma). Its core are services that run in one
-- database transaction each and call each other: a sale (src/modules/sales) takes its lines from the
-- stock (src/modules/product-stocks, src/modules/inventory-movements), applies a discount rule
-- (src/modules/discount-rules), credits a bank account (src/modules/financial-transactions,
-- src/modules/bank-accounts) and stores its profit (src/modules/utilities); a product purchase
-- (src/modules/product-purchases) does the reverse.
--
-- Supplies are kept in lots (src/modules/supply-stock-entries, src/modules/supply-stocks): a supply
-- purchase (src/modules/supply-purchases) makes them, and a production (src/modules/productions)
-- consumes them, the oldest first. Apart from these, a nightly job expires and cancels subscriptions
-- (src/modules/subscriptions), and a limiter counts requests in Redis (src/common/ratelimit).
--
-- The files:
--   Base             tests, lists, integers over the native naturals, tables by primary key.
--   Decimal          decimal numbers: the arithmetic that rounds is a parameter with its laws.
--   Database         the rows (prisma/schema.prisma), work in a transaction as state with
--                    exceptions, and rules for what holds after it.
--   BankAccounts     `increaseBalance`, `decreaseBalance`, `updateWithVersion`.
--   FinancialTransactions  `createTransaction` in the transaction of its caller (`create_transaction`:
--                    `prepare`, its steps 1 to 3, and `commit`, its steps 4 to 6) and without one
--                    (`create_alone`), `create` (`create_manual`), `remove` (`remove_transaction`).
--   Inventory        `incrementQuantity`, `upsert`, `createMany`, and `processMovement` with its four
--                    callers.
--   Discounts        the rule entity (`canApply`, `computeDiscountAmount`) and the service.
--   Utilities        `computeAndPersist`, `deleteForSale` and the two entities.
--   Purchases        `create`, `complete`, `addItems`, `remove` of a purchase (`create_purchase` and
--                    so on) and their helpers.
--   Sales            `create` (Sales/Create), `complete`, `addItems`, `remove` (Sales/Lifecycle), the
--                    helpers (Sales/Items), and the theorems by what they are about.
--   Supplies         `consume` of a lot, and what the repositories of lots, stocks and movements do;
--                    what it means that lots are sound.
--   SupplyPurchases  `create`, `complete`, `addItems`, `remove` of a supply purchase
--                    (`create_supply_purchase` and so on) and their helpers.
--   Productions      `create` (`create_production_run`), `complete`, `cancel` (Productions/Lifecycle),
--                    `remove` (Productions/Removal) and `processProductionCompletion`
--                    (`process_completion`, and its loops in Productions/Consumption).
--   Subscriptions    `processSubscriptionLifecycle` and its two jobs, on tables of their own.
--   RateLimit        `allow` of the Redis limiter.
--
-- How the code is modelled:
--   - An operation is a function from a database to a result: an exception, or a value with the new
--     database. An exception leaves no database, as the transaction is rolled back. What an
--     operation reads before its transaction is read in the same state; the interleavings of
--     `createTransaction` are modelled apart, in FinancialTransactions/Concurrent.
--   - The tables are those that row-level security (prisma/migrations, docs/SECURITY.md) shows to a
--     transaction that publishes the tenant, as `$tenantTransaction` does; a service that compares
--     the organization of a row does so in the model, and the lookup of a production keeps what the
--     Prisma extension adds to it. `createTransaction` without a caller's transaction and `remove` of
--     a transaction publish no tenant, so that the policy shows them no account
--     (`visible_accounts`). The bypass for administrators of the system is left out.
--   - A table is an association list by id; `uuid()` is a counter, and what relies on its being fresh
--     says so.
--   - A row that a column or a key refuses is an exception (`row_refused`) in `computeAndPersist`
--     (the sizes of all columns, the unique sale) and `createTransaction` (the sizes of amount and
--     balances, the key of the category). Other sizes and keys, which the code only violates for
--     amounts beyond 10^8 or for ids that it has not looked up, are left out; they would throw, so
--     that theorems on what holds after success, and on what is thrown first, do not depend on them.
--   - Ids, users, texts and instants are natural numbers, since they are only compared. Columns that
--     only name, describe or date are left out, with the number of a transaction. A discount code
--     is upper case and trimmed already. A key `productId_location` is the pair of its parts.
--   - A decimal is an integer of a small unit. Sums, differences and comparisons are exact, which
--     decimal.js is up to twenty digits; products, quotients and the rounding to the four decimal
--     places of a column are parameters, with the laws that the theorems need as hypotheses. `exact`
--     is an instance of them. The JavaScript numbers of requests and entities count as exact.
--   - The instant of a request is an argument, and so is all that the clocks of the service and of
--     the database read in a nightly run (`Clock`). The job catches what it throws and
--     keeps what was committed before, so that its steps return a state in both cases. Redis is a
--     parameter whose laws say what its documentation says of INCR and PEXPIRE.
--   - The oldest lot is the last of its table, since rows are inserted in front.
--   - All loops are structural recursion, so there is no fuel.
--   - A theorem about a successful operation is stated with `Ensures`; Verdict files state what an
--     operation throws.
--
-- Not modelled: reads and pagination, controllers, validation and mapping of requests, guards and
-- middleware, authentication, sessions, invitations, mail, storage, audit, imports, and the other
-- business modules (recipes, invoices, plans and their payment, employees and so on), which are CRUD over
-- tables or calls of other services.
pub mod Base
pub mod Decimal
pub mod Database
pub mod BankAccounts
pub mod FinancialTransactions
pub mod Inventory
pub mod Discounts
pub mod Utilities
pub mod Purchases
pub mod Sales
pub mod Subscriptions
pub mod Supplies
pub mod SupplyPurchases
pub mod Productions
pub mod RateLimit
