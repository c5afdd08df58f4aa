-- ===== src/Lib.antt =====
-- Nordmarkt's backend: a shop whose API handlers run services in one transaction each, over one
-- database, with workers beside them.
--
-- The parts and their files. Paths are from the repository's root; `app` is backend/app.
--
-- Core. Core/Errors models app/core/errors.py: the errors of the domain, their codes and
-- statuses, and a result type for calls that raise. Core/Money models app/core/money.py, with
-- the prices in minor units as unbounded signed integers, over Core/Decimal, the part of
-- Python's decimal module that it uses: 28 significant digits, rounded half to even, and
-- `quantize` half up. Core/Idempotency models app/core/idempotency.py over Redis, whose commands
-- are a record of functions with the documented laws of GET, SET, SET NX and DEL.
-- Core/Pagination models the cursors of app/core/pagination.py over JSON and base64, which are
-- records of functions with laws.
--
-- Shared. Shared/Slugs models app/shared/slugify.py. Shared/Database holds one list of rows for
-- each table. Shared/UnitOfWork models app/shared/unit_of_work.py: the committed database, the
-- session's view of it, the events, and the monad in which the services are written; a raise
-- keeps the state, since what a session has written stays until it is rolled back.
-- Shared/UnitOfWork/Keeps has one rule for each way to build an action, by which `search` proves
-- that a service keeps a property. Shared/Events, Shared/Outbox and Shared/Localization model
-- the files of those names in app/shared; the child Negotiation has `negotiate_locale`, and
-- `get_locale` of app/api/deps.py.
--
-- Services. Inventory, Catalog, Cart, Orders, Payments and Identity model the services in
-- app/modules/<name>/service.py, each with its tables in Models from models.py. Of Catalog, the
-- file of that name, Search, Facets and Categories model repository.py, where a statement is a
-- filter and a sort of lists and its LIMIT is `take`; Prices and Schemas model schemas.py.
-- Cart/Totals has the sums of `CartService`, Orders/Queries has `OrderQueryService` and
-- `vat_breakdown`. The services call one another as the code does: Orders calls Cart/Totals,
-- Inventory and Catalog. A reference to a row that a service holds on to is the row's id.
--
-- API and workers. Api/Checkout, Api/Webhooks, Api/Baskets and Api/Catalog model the handlers of
-- app/api/routers/checkout.py, webhooks.py, cart.py and catalog.py, and Api/Sessions and
-- Api/Accounts those of identity.py; a handler that writes is a transaction, one that only reads
-- is a function of the database. Api/Catalog/Forest has the tree of categories, whose nodes have
-- numbers for the identity of the objects that the code shares. Api/Access models the users of
-- requests in app/api/deps.py, and Api/Responses the headers of a response and the answers to
-- exceptions in app/api/middleware.py, and Api/Health the probes of app/main.py. Workers/Relay,
-- with its loop in Workers/Relay/Run, and Workers/Sweeper model app/workers/outbox_relay.py and
-- reservation_sweeper.py; a loop that ends with the process is a function of the rounds that
-- start before.
--
-- Deployment. Migrations models app/db/migrations: Statements is the language of its operations,
-- Initial and Search are the revisions 0001 and 0002 as lists of statements, and Runs has
-- `do_run_migrations` of env.py. They run on a server, a record of functions; Server says what
-- the documentation of PostgreSQL promises of it, and that of Alembic of its own table, whose
-- rows are the revisions that the schema records. Models has the metadata of the models of
-- app/modules, app/shared and app/db/base.py, and Labels the names and values of their
-- enumerations. Seed models backend/scripts/seed.py: its tables in Assortment, its texts in
-- Texts, and its loops in Loops, Categories and Products.
--
-- Proofs stand in modules below the part they are about: the books of the stock in
-- Inventory/Ledger, Calls and Books, its races, sweeps and commits in Race, Sweep and Commit,
-- the sweeper in Workers/Sweeper/Books, the orders in Orders/Lifecycle, Atomic, Placement and
-- Settlement, the baskets in Cart/Limits and Cart/Totals/Sums, the addresses in
-- Identity/Addresses, the outbox in Shared/Outbox/Batch, Workers/Relay/Delivery and
-- Workers/Relay/Run/Drain, the requests in Orders/Settlement/Request, Api/Checkout/Retry,
-- Api/Webhooks/Once and Api/Sessions/Reuse, the search in Catalog/Search/Order and Pages and
-- Core/Pagination/RoundTrip, its facets in Catalog/Facets/Counts, the prices in
-- Catalog/Prices/Digits, the responses in Api/Baskets/Sums and Api/Catalog/Forest/Places and
-- Shape, the users in Api/Access/Tokens, the slugs in Shared/Slugs/Shape, the migrations in
-- Migrations/Runs/Frame, Observed and RoundTrip, and the sample data in Seed/Upserts, Twice and
-- Success. Common has the shared names, tests, lists and integers. Tests runs the model on a
-- small shop.
--
-- Bounds and fuel. `Decimal.excess` counts the digits past the 28th and is given 40 steps:
-- operands of 28 digits make products of at most 56. `Decimal.digits` and `Decimal.strip` are
-- given 60, the most digits that a quotient of such operands has before it is rounded.
-- `Prices.grouped` is given more steps than the number that it spells, which each step divides
-- by a thousand. All other recursion is structural.
--
-- What stands for what. The clock stands still within a request. Ids are numbers, and the random
-- draws are functions of the number of the draw, so nothing is assumed about them. Writes reach
-- the session's tables at once: autoflush is off, but the services and the script flush before a
-- query that could miss a write of theirs. A conditional UPDATE is one step, since it locks its
-- rows; other transactions run before or after a request as a whole. SKIP LOCKED is a test that
-- says which rows another transaction holds. A check constraint fails its whole statement. The
-- books of the stock are stated where each variant is kept in one warehouse. The text of the
-- time in a cursor goes to the driver of the database, which is a function: asyncpg refuses it.
-- Cookies are part of the values that the handlers of baskets return.
--
-- Parameters: Redis, the JSON of responses and cursors, base64, `isoformat` and the driver
-- asyncpg, the payment provider, argon2, PyJWT, hashlib, the floats of Python and the functions
-- of its texts that depend on Unicode, and of Postgres the full-text match, ILIKE and the
-- collation; the server that the migrations run on, and the text that SQLAlchemy's Enum sends
-- for a member.
--
-- Not modelled: column widths, the validation of requests by FastAPI and pydantic, cache
-- headers, settings, logging, the engine of the database, and the offline mode of its
-- migrations, which only prints SQL. Which language `negotiate_locale` chooses is run and not
-- proved: float accepts `nan`, which has no place in an order. Of the unique constraints, the
-- script of the sample data is checked against the one that its queries do not cover, that of
-- the slugs of categories.
pub mod Common
pub mod Core
pub mod Inventory
pub mod Catalog
pub mod Cart
pub mod Identity
pub mod Orders
pub mod Payments
pub mod Shared
pub mod Api
pub mod Migrations
pub mod Seed
pub mod Workers
pub mod Tests
