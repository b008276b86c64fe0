-- ===== src/Lib.antt =====
-- The TypeScript backend of a multi-tenant order system for bars and restaurants (backend/src): a
-- NestJS service over a database that it reaches through Prisma.
--
-- A request passes guards that fix its tenant and role, a pipe that checks its body against a DTO,
-- and a handler that reads and writes the database, in a transaction where it writes. Handlers that
-- carry an idempotency key store their response under it. After a write the handler sends an event
-- to the tenant's sockets.
--
-- Prelude.antt and its children: shared names, integers, tables as dictionaries, lists, `trim`.
-- Http.antt: exceptions (backend/src/global-exception.filter.ts) and the monad of handlers, which
--   take the state to a result and a state; `transaction` gives the state back on a throw.
-- Store.antt: the rows of backend/prisma/schema.prisma as records, and the whole database with the
--   events sent as `State`; Store/Queries.antt: the queries of the handlers, with the unique index
--   of backend/prisma/migrations/20260921223000_table_occupancy_unique_index.
--   Store/Books.antt: the rows behind the catalog and the management endpoints.
-- Dto.antt: the bodies of backend/src/dto/orders.dto.ts and the checks of their decorators;
--   Dto/Catalog and Dto/Management: those of the catalog and of backend/src/dto/management.dto.ts.
-- Calendar.antt: dates in UTC, with the month arithmetic of management.controller.ts.
-- Pagination.antt: backend/src/pagination.ts with the database's cursor; Pagination/Cuts and
--   Pagination/Pages: a client that follows the cursors. Orders/Listings: getProducts, getOrders
--   and getOrderById.
-- Financial.antt: backend/src/financial.utils.ts; laws in Financial/Totals and Financial/Payments.
-- Idempotency.antt: backend/src/idempotency.utils.ts and the helpers of orders.controller.ts; laws
--   in Idempotency/Once (executeIdempotent) and Idempotency/Legacy (check and save).
-- Orders.antt and its children: backend/src/orders.controller.ts, one file an endpoint: Create
--   (createOrder), Advance (updateOrderStatus), Items (addItem), Discount (resolveDiscount,
--   assertDiscountPermission, settlementPreview), Stock and Settle (settleOrder), Transfer
--   (transferTable), Close (closeOrder). Each has a child Refines, which proves that what the
--   endpoint commits is a step of Orders/Lifecycle.antt, the state machine of an order. Below that,
--   Serving and Handlers carry a property of the steps over to whole requests, Tables, Invariant
--   and Terminal are such properties, and Runs has the runs of all requests. Orders/Settle/Limit: the
--   discounts of cashiers. Orders/Charges,
--   with Orders/Settle/Waits, and Orders/Retries are about pending Pix charges and repeated requests.
-- Pix.antt: the webhook of backend/src/pix.controller.ts, a step of the order's state machine
--   (Pix/Refines); Pix/Signature: its signature; Pix/Charge: createCharge with
--   backend/src/pix.service.ts, and Pix/Charge/Payable: its amounts; Pix/Receipts: what a notice
--   does.
-- Guards.antt: auth.guard.ts, tenant.guard.ts, roles.guard.ts and feature.guard.ts of backend/src;
--   Guards/Access: who passes them.
-- Sessions.antt: backend/src/auth.service.ts and auth.utils.ts, on a state of its own;
--   Sessions/Rotation: the rotation of refresh tokens.
-- Catalog.antt: categories and products of backend/src/catalog.controller.ts; Catalog/Tables: the
--   endpoints of the tables, Catalog/Labels, Catalog/Floor, Catalog/Races and
--   Catalog/Occupancy: their labels; Catalog/Listings.
-- Management.antt and its children: backend/src/management.controller.ts, with suppliers and
--   expense categories in the file itself and the plain listings in Reading. Expenses: accounts
--   payable (Expenses/Covered and Expenses/Balance: what is paid; Expenses/Listing: listExpenses).
--   Recurring: the templates and the generation of a month. Inventory and Purchases: the stock, its
--   movements and what a purchase does to them, Doubles: the total of a line; Inventory/Ledger,
--   Purchases/Pricing and Warehouse relate the stock to its movements.
-- Staff.antt: the employees of backend/src/admin.controller.ts, on a state of its own, with
--   Staff/Sockets: backend/src/orders.gateway.ts, Staff/Settings and Staff/Printers: entitlements,
--   the discount policy and printers, and Staff/Members, Staff/Access and Staff/Lockout: who has
--   access.
-- Reports.antt: backend/src/reports.controller.ts; Reports/Sums, Reports/Agreement and
--   Reports/Reached: its sums, also over the orders of a state that the requests have reached.
-- Config.antt: backend/src/config.utils.ts; Config/Origins: the origins that it accepts.
--
-- Bounds. Amounts are natural numbers where a DTO validates them, integers in Financial.antt, and
-- unbounded: JavaScript's numbers are exact below 2 ^ 53, and there `Math.round(n / 10000)` is the
-- division of n + 5000. Quantities of stock are in thousandths, and the decimals of the database
-- are taken as exact, also where SQLite keeps them as floating point; the total of a purchase's
-- line is computed in doubles (Management/Doubles), with 63 doublings and 54 halvings, enough for
-- quantities and costs below 2 ^ 53. Nothing else needs fuel: loops run over lists, and the client
-- that follows cursors has one round more than the listing has rows. Ids are numbers, since they
-- are only compared; the generator of ids is a counter (Prisma's cuid), so the next id is new. An
-- optional id is `none` where it is missing or empty.
--
-- Parameters. The hash of a request (SHA-256 of its JSON text) is a function of the environment,
-- with no law assumed of it. Time is a number of the environment. What other requests commit
-- between a handler's reads and its transaction is a function of the environment; a transaction
-- itself is taken as one step, as in a serializable database. A stored response is the value
-- itself: `JSON.parse` reads back what `JSON.stringify` wrote.
--
-- Two conditions stand in theorems rather than in the code. In Catalog/Floor no other request may
-- change what a request has looked up before it writes, since nothing in the code keeps two of them
-- from taking one label. The discount limit of a cashier holds for settlements: a Pix charge is not
-- held to it.
--
-- Not modelled: wiring, connections and seed data (main.ts, app.module.ts, db.ts, seed.ts), which
-- have no logic of their own, and the Flutter client (lib/), which is another program in Dart.
pub mod Prelude
pub mod Http
pub mod Store
pub mod Dto
pub mod Financial
pub mod Idempotency
pub mod Orders
pub mod Sessions
pub mod Guards
pub mod Pix
pub mod Pagination
pub mod Calendar
pub mod Catalog
pub mod Management
pub mod Staff
pub mod Reports
pub mod Config
