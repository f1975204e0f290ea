-- ===== src/Lib.antt =====
-- The orders, payments, host certifications and matches of the Terravoy server (server/src), as
-- functions on one database.
-- Paths below are those under server/src unless they start with db/.
--
-- The server is a Fastify program over PostgreSQL. A traveler books an experience of a host
-- (routes/orders.js), pays for the order (routes/payments.js, services/payments), the host accepts
-- it, one of them starts and ends the service, and both review it. Payment providers report by
-- webhooks, which services/payments/webhookHandler.js stores and eventProcessor.js applies to
-- intents, payments, refunds and orders. Jobs replay failed webhooks, repair orders whose payment
-- was lost, expire intents (jobs/payments.js) and cancel orders that wait too long (jobs/index.js).
-- All of them change the table `orders`; each change of a status is to be logged in
-- `order_status_logs`. A host takes orders only with an approved certification, which administrators
-- decide on. Beside that, travelers to the same city can ask for a companion (routes/match.js).
--
-- Store: the database that the parts share. Rows.antt has the rows and enums of db/migrations,
-- Table.antt the access by a key, Db.antt the record `Db` of all tables, the replies and errors, and
-- the monad `M` of handlers: from a database to a database and a value, an early reply or an
-- exception. What was written before an exception stays, except in a `transaction`.
-- Auth: services/authorize.js (`authorize`), middlewares/requireApprovedHost.js with its cache
-- (`require_approved_host`) and `ensureProfile` of the routes.
-- Certs: routes/hostCertifications.js and adminHostCertifications.js, with one function for each
-- route. Documents, State and Validate are their helpers, Draft, Submit, Review and Decide the
-- routes, Serve the requests with the `catch`. Step is the abstract register with the diagram of
-- the statuses (`CertEdge`); Register and Coherent are about it; Handled, Reads, Reviewed and
-- Dispatched relate the routes to it; Guards and RoundTrip are about single functions, and Runs is
-- about any sequence of requests and checks. The rows are Store/CertRows.antt.
-- Orders: routes/orders.js, one function for each handler under its name in snake case
-- (`handleAccept` is `handle_accept`): Create, Accept, Service, Reviews, Browse, what they share in
-- View, and the dispatch and `catch` of the route in Serve; Timeout is `autoCloseUnconfirmed` of
-- jobs/index.js. Step is the abstract machine that all parts are compared with: the diagram of the
-- statuses (`Edge`) and one step of the tables `orders` and `order_status_logs` (`OrderStep`).
-- Audit, Keys, Lifecycle and Sound are about that machine; Effect, ServiceEffect, Handled, Steps
-- and TimeoutSteps relate the code to it; Guards, Booking, TimeoutDone and TimeoutSpares are about
-- single handlers.
-- Payments: services/payments/eventProcessor.js is Event, Refund and Process; webhookHandler.js is
-- Webhook; routes/payments.js is Intents, Confirm, Refunds and, for the route, Serve;
-- jobs/payments.js is Jobs. Handled, Steps, RouteSteps and ServeSteps relate them to the abstract
-- machine; Recorded, Retried, Atomic and Settled are about single functions. Mock is
-- services/payments/mockProvider.js with its timers; MockRuns is about one confirmation there, and
-- MockSettles about what its webhook then does in the server.
-- Match: routes/match.js, workers/match_worker.js and the SQL functions of
-- db/migrations/0004_match_request_freshness.sql and 0006_try_match_setof_up.sql. Pair and
-- Statements are the SQL, Session the helpers, Start, Poll and Cancel the routes, Worker the rounds
-- of the worker, and Serve the requests and the runs. Table and Keeps are lemmas, Compatible the
-- relation between two travellers, Sound what holds of the tables, Search, Found, Handled and Runs
-- that it goes on holding, Partner and Owner single functions. The rows are Store/MatchRows.antt.
-- Limiter: `SlidingWindowRateLimiter` of utils/rateLimiter.js, which other routes use (`check`, with
-- the hits as a function from keys); Window, Reference and Bound are about it. Its clock is taken
-- never to go back.
-- System: `run` handles any list of requests, webhooks, jobs and ticks of the clock, one after the
-- other; CertSteps and Invariant relate it to the abstract machine. The matches have runs of their
-- own, in Match/Serve.antt. Tests: concrete databases and the theorems on them.
--
-- Conventions. Ids, keys and texts that are only stored and compared are numbers; times are
-- milliseconds and amounts are cents, both natural numbers without a bound, as PostgreSQL keeps them
-- exactly. Tables are lists, newest row first, which is the order of `created_at desc`. A handler
-- runs to its end before the next one starts: two handlers that interleave between their queries
-- are not covered. The time does not pass within a handler. Loops run over the rows of a query, so
-- they are structural and need no fuel. Unique indexes (but those of the match tables), NOT NULL
-- columns and foreign keys are written in the operation that meets them. The match functions are
-- those of the last migration that defines them.
--
-- The providers behind PaymentProvider are a parameter, the record `Gateway`: for each method any
-- function to an answer or an exception. A mapping from the body of a webhook to an event is part
-- of it. The settings PAYMENT_PROVIDER and PAYMENTS_WEBHOOK_ONLY are the record `Settings`, and
-- HOST_CERT_AUTO_APPROVE and ADMIN_API_KEY are `CertSettings`.
--
-- Not modelled: the reading of paths, query strings and decimal amounts (parsePath,
-- normalizeAmount), tokens and the permissions of administrators (requireAuth, requirePermission:
-- the model starts from their result), the texts of messages and of `last_error`, columns that a
-- read joins for display, log output, and the other routes of the server (experiences, media, admin
-- and so on). Of the modelled columns they write only those of the assets, experiences, profiles and
-- trips; routes/adminOrders.js writes columns of orders that are not modelled (dispute_status,
-- cs_note). What they write to the assets, profiles and trips is an event of a run. A statement
-- fails only for the reasons that its operation writes out: a lost connection to the database, which
-- can fail any statement, is left out, so where several statements run without a transaction
-- (`_handlePaymentRequiresAction`, `_handleRefundFailed`, `_markProcessed`) nothing is said about a
-- stop between them, and of the three transactions of eventProcessor.js only the one of
-- `_handlePaymentSucceeded` can meet an exception after a write. The messaging service that makes
-- threads (services/imApi.js) is the parameter `Im`. The event ids that the server makes itself are
-- taken to differ from those that a provider gives.
pub mod Prelude
pub mod Store
pub mod Auth
pub mod Certs
pub mod Orders
pub mod Payments
pub mod Match
pub mod Limiter
pub mod System
pub mod Tests
