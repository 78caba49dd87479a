-- ===== src/Lib.antt =====
-- PayCore, a payment gateway and settlement engine: a model of its core and the theorems about it.
--
-- The program keeps merchants, payers with an available and a held balance, payments with their
-- authorization holds, and outbox events. A service call reads and writes the repositories in one
-- transaction: an authorization reserves an amount of the payer and opens a hold, a capture charges
-- the hold, an expiry gives it back, and each leaves an event in the outbox.
--
-- The settlement service claims captured payments into a batch, settles each with a line item, and
-- recovers the batches of a worker that died. The outbox worker claims events and publishes them. The
-- idempotency service starts a request once and replays its response. The rate limiter counts a
-- client's calls in a window.
--
-- Which file models which part:
--   Currency      internal/shared/currency/currency.go; Go's case tables beyond ASCII are a parameter
--   Id            internal/shared/id/id.go; the random bytes are an argument
--   Payer         internal/payer: entity.go in Payer, service.go in Payer/Service
--   Merchant      internal/merchant, in the same way
--   Payment       internal/payment: entity.go and hold.go in Payment, service.go in Payment/Service
--   Outbox        internal/outbox: event.go in Outbox, worker.go in Outbox/Worker (the publisher is a
--                 parameter), NoopRepository in Outbox/Noop, adapters/kafka in Outbox/Kafka
--   Idempotency   internal/idempotency: record.go in Idempotency and Idempotency/Hash (SHA-256 is a
--                 parameter), cache.go in Idempotency/Cache, service.go in Idempotency/Service,
--                 adapters/redis/cache.go in Idempotency/Redis (the client is a parameter)
--   Settlement    internal/settlement: entity.go in Settlement, service.go in Settlement/Service;
--                 cmd/paycore-settlement-worker in Settlement/Window and Settlement/Run
--   RateLimit     internal/ratelimit: limiter.go and adapters/redis/limiter.go; the Redis client is a
--                 parameter with the laws of its commands
--   Http          internal/http and internal/shared/httpjson: requests and responses in Http, middleware.go
--                 in Http/Middleware; handler.go of internal/payment in Http/Payments and Http/Responses,
--                 of internal/merchant in Http/Merchants and of internal/payer in Http/Payers
--   Config        internal/shared/config, with newRateLimiter of cmd/paycore-api in Config/Limiter
--                 and what else the commands choose by it in Config/Parts
--   Metrics       internal/shared/metrics/metrics.go; what a service or the worker tells its metrics is in
--                 its own module Metrics
--   Migrations    cmd/paycore-migrate; what a file's SQL does is a parameter
--   World         internal/shared/db, and the tables that the services of payments share
--   Database      what the PostgreSQL adapters take from the database, and migrations/
--   Errors        the error values of all packages
--   Ledger        the invariant across payers, payments and holds, and the proofs that the service
--                 calls keep it; it models no file of its own
--   Base          integers, texts, maps and lists; Tests holds runs and instances of the theorems
-- In each package, adapters/memory/repository.go is in Store and adapters/postgres/repository.go in
-- Postgres.
--
-- How the state corresponds. A repository is the map of the in-memory adapter, as an association
-- list in the order of insertion; where Go's order is unspecified, this is one of its orders. A table
-- of the database is the map of its rows by primary key, in the same way. An operation takes what
-- `ctx.Err()` or the database returns and runs as one step, as it does under the adapter's mutex or
-- as one statement. A service call is a function on the environment (`Env`): the repositories, the
-- answers that `ctx.Err()` and `rand.Read` will give, the rows that other transactions lock, and
-- whether a transaction is open. It returns a value or an error. The PostgreSQL transactor gives the
-- tables back as they were when its body fails, or when its COMMIT is refused; where the reply to a
-- COMMIT is lost, it returns an error and all is kept. The database's own answers are the argument
-- `Pool`. Transactions run one after another; what they see of one another
-- is the rows that a query with SKIP LOCKED passes over. All services but that of idempotency are
-- modelled over the PostgreSQL repositories. The in-memory ones, which the API may use in their place
-- without transactions, are modelled by themselves; those of payers and of idempotency records are
-- what their tables refine. CHECK and FOREIGN KEY constraints are errors that a statement may return; unique
-- keys are computed. `Columns` says what a column keeps of a value, as a parameter with laws.
--
-- The idempotency service has a state of its own, its records, its cache and the metrics it told. A
-- cache is any implementation of the interface `Cache`, which may fail and forget, but returns only
-- what was put in for the same key and hash; NoopCache is one.
--
-- Values. An int64 is an integer that is wrapped after each operation (`add_int64`). A time is a
-- number of nanoseconds from the first instant of the year 1, so that the zero time is 0 and earlier
-- times have no model; `UTC` keeps the instant. A text is a list of code points, so texts that are
-- not valid UTF-8 have no model. The payload of an event stands for its JSON text. Loops over lists
-- are recursions on the list, and no fuel is needed.
--
-- The payment handler works on the payments and on the records of requests (`Api`). A panic of a
-- service call is an argument: the state in which it leaves the payments. The response recorder is
-- what the deferred completion reads. Encoding and decoding of JSON, the formatting of times and the
-- texts of errors are the parameter `Encoding`.
--
-- Not modelled: the metric of HTTP requests, the Prometheus registry and the metrics server; logging;
-- the router's patterns and the system handlers, whose answers are fixed; the loops of the workers,
-- the wiring of the commands and their start and end; a transaction whose body panics.
pub mod Errors
pub mod Base
pub mod Idempotency
pub mod Database
pub mod Currency
pub mod Payer
pub mod RateLimit
pub mod Merchant
pub mod Payment
pub mod Id
pub mod Outbox
pub mod World
pub mod Settlement
pub mod Ledger
pub mod Http
pub mod Config
pub mod Metrics
pub mod Migrations
pub mod Tests
