-- ===== src/Lib.antt =====
-- The backend of Kitaza (backend/src), a bookkeeping server for small shops, as functions on the rows
-- that it stores. A shop's phones work offline and send what they recorded when they can, often more
-- than once; the server keeps the stock, the ledger behind it, the money, and who may do what.
--
-- The parts, and the files that model them:
--
--   Common      shared/api_error.rs as ApiError and ApiResult (Common/Failure), integers over the
--               native numbers for exact decimal amounts (Common/Int), and a stable insertion sort
--               for sort_by_key and ORDER BY (Common/Sort).
--   Auth        features/authentication, staff and devices: their tables (Auth/Tables), the statements
--               of auth_repository.rs and device_repository.rs (Auth/Devices) and of
--               staff_repository.rs (Auth/Staff), join_code.rs (Auth/JoinCode), auth_service.rs
--               (Auth/Service for refresh, sign-out and the account, Auth/Entry for the ways in, with
--               infrastructure/cache/rate_limiter.rs in Auth/RateLimiter), staff_service.rs and
--               device_handlers.rs (Auth/Staffing), and the query of session_directory.rs
--               (Auth/Directory). Auth/History has the statements on sessions, tokens, staff and join
--               codes as data, so that any order of them can be run, and Auth/Codes the abstract view
--               of the table of join codes.
--   Access      features/access: permission.rs (Access/Permission), actor.rs (Access/Actor), and
--               session_directory.rs with its memory of looked-up sessions (Access/Sessions, and
--               Access/Sessions/Staleness for how old an answer can be).
--   Billing     features/billing: plan.rs (Billing/Plan for plans and prices, Billing/Standing for
--               where an account stands, Billing/Extension for how far a payment carries it), the
--               payments of billing_repository.rs (Billing/Payments), payment_gateway.rs and the
--               checkout of billing_service.rs (Billing/Checkout), and its gates (Billing/Gate).
--   Dashboard   business_score.rs of features/dashboard (Dashboard/Score).
--   Ledger      the tables of products, stock movements, sales and sale lines (Ledger/Tables), the
--               transaction of features/inventory/stock_repository.rs (Ledger/Movements) and those of
--               features/sales/sale_repository.rs (Ledger/Sales, with the rows that they write and the
--               columns that refuse them in Ledger/Rows).
--   Privacy     features/privacy: consents (Privacy/Consents), the deletion of an account
--               (Privacy/Deletion) and the retention sweep (Privacy/Retention).
--   Stores      current_actor.rs, store_directory.rs and store_scope.rs (Stores/Scope), and
--               store_handlers.rs (Stores/Handlers).
--   Services    sale_service.rs (Services/Selling), the services and the repository of products
--               (Services/Catalogue), inventory_service.rs (Services/Stockroom), and features/expenses
--               and features/withdrawals (Services/Cashbook), over the tables
--               of Ledger and the actors of Access, with shared/money.rs in Services/Request.
--   Sync        features/sync: sync_cursor.rs (Sync/Cursor), sync_repository.rs (Sync/Paging),
--               push_timeline.rs (Sync/Timeline), and pull and push of sync_service.rs (Sync/Pull,
--               Sync/Push). A push uses the services through the record SyncDependencies, whose
--               fields stand for the methods of the source's struct of that name.
--
-- State is passed explicitly: a transaction is a function from the tables to a result and the tables,
-- and a failure gives back the tables that it was given. A table that statements look up by its
-- primary key is a function from keys; one that they scan is a list of rows. An UPDATE of several rows
-- is a recursion on the list. The methods named update_product, put_product and put_sale are the
-- single-row updates. Each function stands under a comment that names the function or the statement of
-- the source. The log, the cache and the phones are told things as a list of effects, without the
-- details that only a reader of the log sees; Redis, websockets and the audit table are not modelled.
--
-- Numbers. Ids and times are natural numbers, and a time counts nanoseconds where lengths matter. Money
-- is an integer number of centavos and a quantity of thousandths, the scales of their columns; a cost
-- is exact, in hundred-thousandths, until the column rounds it. The roundings of the database and of
-- the decimal library, floats, the texts of UUIDs, fresh UUIDs, chrono's calendar, JSON rows and the
-- hexadecimal cursor are arguments, with the behaviour that a theorem needs of them as a hypothesis:
-- a calendar month has at least 28 days (AddsMonths), an UPDATE joined to one row uses that row
-- (PicksOne), a cursor is read as it was written. An UPDATE joined to several rows uses one of them,
-- which `pick` chooses.
--
-- Loops are structural recursions on lists. The one function with fuel is the repeated pull of
-- Sync/Paging/Download, which ends by itself when the fuel is more than the number of rows left.
--
-- Concurrency. Transactions lock the rows that they read and are taken as atomic. Where answers cross,
-- in the session directory, the time of asking and the time of writing are separate arguments; rows
-- that commit after a pull has passed them are the subject of late_row_is_ahead.
--
-- A request of Auth, too, is several transactions. Its methods are composed as if nothing came between
-- them, and the theorems over Auth/History let any statements, of requests that run at the same time
-- too, come after the one that they are about.
--
-- Not modelled: routers, most handlers and their validation, configuration, start-up, password hashing,
-- the signing of access tokens and random values (parameters), the payment gateway's HTTP client,
-- read-only queries (lists, reports, dashboards, benchmarks, diagnostics, the export of an account), the
-- timers of sweeps, and the frontend. Migrations are read only for their keys, defaults, scales,
-- cascades, and the checks and ranges of a sale.
pub mod Access
pub mod Auth
pub mod Billing
pub mod Common
pub mod Dashboard
pub mod Ledger
pub mod Privacy
pub mod Services
pub mod Stores
pub mod Sync
