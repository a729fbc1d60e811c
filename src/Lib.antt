-- ===== src/Lib.antt =====
-- The invoice and payment service: businesses authenticate with API keys, create customers and
-- invoices, and have invoices paid through a payment service provider (PSP); a reconciler settles
-- payments whose outcome is not known, and a dispatcher delivers webhooks from an outbox of events.
-- The code is the workspace of crates/common, crates/invoice-service and crates/mock-psp.
--
-- How the parts interact. A handler of crates/invoice-service/src/routes calls a service of
-- crates/invoice-service/src/services, which runs SQL statements, some through
-- crates/invoice-service/src/repositories. A payment is two short transactions around one call of the
-- provider; the reconciler runs the second of them again for attempts that stayed pending; both append
-- to the outbox, which the dispatcher fans out to one delivery for each endpoint.
--
-- How state and operations are modelled.
--   Db.antt: the database, one list of rows for each table of migrations/. A statement is one atomic
--     function on it that may be refused with a `sqlx::Error`; a transaction rolls back what fails.
--     The unique indexes, CHECKs and defaults of the tables are written into the INSERTs. Triggers that
--     set `updated_at` are written into the UPDATEs of invoices and payment attempts.
--   Table.antt and below: WHERE, EXISTS, UPDATE, INSERT, ORDER BY, LIMIT, SUM on lists of rows.
--   Errors.antt, Money.antt, Pagination.antt, Config.antt: crates/common/src/error.rs, money.rs,
--     pagination.rs, config.rs. Pagination/Cursor.antt is the text of a cursor.
--   Domain.antt and below: the entities and DTOs of crates/invoice-service/src/domain.
--   InvoiceRepo.antt, InvoiceService.antt and below: repositories/invoice_repo.rs and
--     services/invoice_service.rs; `void` is `void_invoice`. A function `race` stands for what other
--     requests do between the read and the UPDATE of a transition.
--     InvoiceService/Moves.antt writes the admin transitions out without the functions of the code.
--   PaymentService.antt and below: services/payment_service.rs. `pay` is split where its transactions
--     are: `claim` is the first, `finalize` the second, `after_claim` what is between. `Others` stands
--     for what other requests do before the claim and during the call. `World` is the database with
--     the list of calls of the provider. PaymentService/Interleaving.antt has the step relation.
--   Reconciler.antt: reconciler.rs. Dispatcher.antt and below: webhooks/dispatcher.rs and
--     webhooks/signing.rs; Dispatcher/Batch.antt is a batch with its sends, one after the other.
--     Dispatcher/Held.antt has what may happen to the outbox while a send is under way.
--   WebhookEvents.antt and WebhookService.antt: services/webhook_service.rs.
--   CustomerService.antt: services/customer_service.rs and repositories/customer_repo.rs.
--   Auth.antt: auth/api_key.rs, auth/middleware.rs, repositories/api_key_repo.rs, routes/api_keys.rs.
--   PspClient.antt: psp/mod.rs and crates/mock-psp/src/main.rs; PspClient/Client.antt has the
--     client's call as a whole, PspClient/Mock.antt the mock provider at its other end, and
--     PspClient/Race.antt two charges of the mock provider that overlap.
--   Routes.antt: the payment header of routes/invoices.rs. Routes/Handlers.antt: the handlers of routes/,
--     and Routes/App.antt: `build_app` of lib.rs, with a request as a route and its parameters. `Outside`
--     has what other requests and tasks do to the database while the request is served.
--   Tenants.antt and below: what it is for an operation to leave the rows of other businesses alone, for
--     each service; Routes/Isolation.antt puts them together.
--   System.antt: the transactions that the handlers and the background tasks commit, as a relation `Txn`
--     of two databases, and their sequences `Txns`. A transaction that uses what its task has read or
--     written before says in which earlier database, so every interleaving of requests and tasks is a
--     sequence. System/Requests.antt and System/Background.antt find the sequences of the modelled
--     handlers and ticks; the other files below show what all sequences keep.
--   Service.antt and below: crates/invoice-service/src/main.rs, state.rs, and of lib.rs `build_state` and
--     `spawn_background_tasks`. Service/Startup.antt is `main` up to the listener. From there on the
--     process is a list of events: a request, a timer of one of the loops, or the signal to stop.
--   A background loop is a function of the list of what wakes it, `run` in Reconciler.antt and in
--     Dispatcher/Batch.antt.
--   Outcomes.antt has the ways in which statements end, Tests.antt and below the examples.
--
-- Parameters. SHA-256, HMAC, JSON, UUID, hex and RFC 3339 texts, `citext` comparison, the random parts
-- of keys and delays, `new_id()`, `now()` and the environment are arguments. A provider is a function
-- from token, amount and key to an outcome, a receiver of webhooks one from a request to its end. For
-- the pages themselves the text of a cursor is a parameter too.
--
-- Bounds and fuel. An `i64` is an integer whose range is tested where the source calls a checked
-- operation or where PostgreSQL refuses a `bigint`; the counters `version`, `attempt_count` and
-- `attempts` are unbounded. Time is a number of microseconds. The decimal printing of a number `n` has
-- fuel `n + 1`, and a number has fewer digits than that. `from_utf8` reads a code point in each round,
-- of which a text has no more than bytes. A client that follows cursors is given as many pages as there
-- are rows. The shift of the retry delay is masked to six bits, as in a release build.
--
-- Not modelled. The HTTP server and transport, the matching of paths, JSON, logging, and connecting to
-- the database and the migrations, which are parameters; the time that the background loops wait, and the
-- tasks of a batch, which run in a row. A tick of a loop is one event of the process, and what others do
-- in the middle of it is in the relation of System.antt only. Errors of the database in a tick; connection
-- failures of the database; another request between the first transaction and the read of a known key;
-- the table of businesses; the pauses of the mock provider. The model's `next_sequence` has no gaps, where
-- a `bigserial` skips the numbers of INSERTs that are refused or rolled back, and its INSERTs take a text
-- with U+0000, which PostgreSQL refuses.
pub mod Prelude
pub mod Errors
pub mod Money
pub mod Config
pub mod Domain
pub mod Table
pub mod Db
pub mod InvoiceRepo
pub mod WebhookEvents
pub mod Outcomes
pub mod InvoiceService
pub mod PaymentService
pub mod Tenants
pub mod Routes
pub mod Reconciler
pub mod Dispatcher
pub mod Pagination
pub mod WebhookService
pub mod CustomerService
pub mod Auth
pub mod PspClient
pub mod System
pub mod Service
pub mod Tests
