-- ===== src/Lib.antt =====
-- MaxOne: the services of the NestJS backend that hold money, sessions and messages, and the rules of
-- the two Next.js applications in front of it.
--
-- The backend keeps its state in Postgres through the Prisma client, caches in Redis, hands push
-- notifications to RabbitMQ and tells browsers of changes over sockets. A controller calls a service
-- method; a method that moves money does so in one `$transaction`, which also writes the audit row and
-- the outbox row of the notification, and tells the sockets and the broker after the commit. A relay
-- publishes what the broker did not take, a worker consumes it. The Next.js servers of the customers
-- (customer/) and of the staff (frontend/) hold a browser's session in cookies and call the backend.
--
-- The files, and the code that they translate:
--   Prelude, Prelude/*     lists, options, Booleans, and signed integers for amounts
--   Exec                   async methods: explicit state, exceptions as values
--   Prisma, Prisma/*       a delegate of the Prisma client: a parameter with its documented laws, which the
--                          theorems assume, and an instance in memory that shows that they can hold
--   Schema                 the rows of backend/prisma/schema.prisma, and the payloads of the messages
--   World                  the tables, Redis, what has left the process, the locks that were asked for,
--                          `$transaction` (a throw rolls the tables back, nothing else)
--   Audit                  backend/src/audit/audit.service.ts (AuditService.log)
--   Queue, Queue/*         backend/src/queue/queue.service.ts (publish; in Queue/Connection the
--                          connection, its reconnect timer and its shutdown)
--   Outbox, Outbox/*       backend/src/outbox/outbox.service.ts (enqueue, publishNow, relayPending,
--                          purgePublished)
--   Notifications          backend/src/realtime/notification.service.ts, realtime.service.ts
--   Cache                  backend/src/cache/cache.service.ts (get, set, del, wrap)
--   Money                  backend/src/wallets/format-money.ts (formatMinor)
--   Rates, Rates/*         backend/src/rates/rates.service.ts, convert-minor.ts
--   Users, Users/*         backend/src/users/users.service.ts, roles.service.ts, to-safe-user.ts
--   Tokens, Tokens/*       backend/src/auth/tokens.service.ts (issueTokens, rotate, revoke; the tokens of
--                          a purpose in Tokens/Purpose)
--   TwoFactor, TwoFactor/* backend/src/auth/two-factor.service.ts, and the TOTP columns of users.service.ts
--   Auth/*                 backend/src/auth/jwt.strategy.ts, permissions.guard.ts, step-up.guard.ts
--                          (Guards), auth.service.ts (Login)
--   Idempotency, .../*     backend/src/idempotency/idempotency.service.ts, idempotency.interceptor.ts
--   Worker, Worker/*       backend/src/worker/notification.consumer.ts, and the parser of
--                          backend/src/queue/events.ts
--   Alerts, Alerts/*       backend/src/alerts/alerts.service.ts, is-triggered.ts, and
--                          backend/src/realtime/alert-check.service.ts
--   Push, Push/*           backend/src/push/push.service.ts
--   Passkeys, Passkeys/*   backend/src/auth/passkeys.service.ts, and the WebAuthn challenge of
--                          backend/src/auth/tokens.service.ts
--   Markets, Markets/*     backend/src/markets/: market-asset.ts, candle-math.ts, and
--                          markets.service.ts (Service), providers/ (Providers)
--   PriceStream, .../*     backend/src/realtime/price-stream.service.ts
--   Ops, Ops/*             backend/src/observability/ops-watch.service.ts (Watch),
--                          backend/src/health/ (Health)
--   Bff, Bff/*             the sessions of the Next.js servers: lib/auth/session.ts (Bff), proxy.ts (Edge),
--                          lib/api/server.ts (Server) and app/api/auth/ (Routes), in customer/ and in
--                          frontend/
--   Http                   backend/src/common/http-error.ts, http-exception.filter.ts
--   Pay, Pay/*             customer/components/pay/send-money-wizard.tsx, customer/lib/idempotency/key.ts,
--                          customer/lib/api/client.ts (apiRequest); in Pay/Attempts the wizard's requests
--                          meet the interceptor of Idempotency
--   Exchange, Exchange/*   customer/components/exchange/exchange-screen.tsx
--   Amounts, Amounts/*     customer/lib/format/sanitize-number.ts and parse-amount.ts
--   Views, Views/*         customer/lib/format/group-by-day.ts (Statement), customer/lib/alerts/compute.ts
--                          and customer/lib/markets/live-prices.ts (Prices), frontend/lib/audit-diff.ts
--                          (AuditDiff)
--   Wallets, Wallets/*     backend/src/wallets/wallets.service.ts: a file per method (Deposit,
--                          Withdrawal, Review, Adjustment, Transfer, Reads), what they share (Access,
--                          Settlement), the requests of the controllers as values (Requests), the
--                          specification of the ledger and its invariant (Ledger), the laws (Laws)
--   Tests, Tests/*         a database in memory, and an instance of each theorem
--
-- How the code is read: an identifier (a uuid string) is a number, since the code only compares and
-- orders identifiers; a Date is a number of milliseconds; a column of a closed set of strings is a data
-- type. An amount is an unbounded integer: that a Postgres Int has 32 bits, so that a larger balance
-- fails in the query, is not modelled. A price of an alert is a finite double, counted in units of
-- 2 ^ -1074. A query does not fail, apart from a unique key that is taken and
-- an update by id of a missing row, where the code depends on them. Calls are served one after the
-- other, and the body of a `$transaction` is one step; SELECT ... FOR UPDATE is recorded as a lock that
-- is asked for. A race appears where the code splits a read from its transaction: `rotate_held` runs in
-- whatever state it finds. The clock, fresh uuids, the audit context, the channel of the broker, the FX
-- provider, decimal.js, the hash, the signing of JWTs and the push to devices are parameters.
--
-- Fuel: `format_minor` has the amount itself as fuel for its digits, of which there are fewer;
-- `reserve` may call itself once more, after it has deleted an expired key, when the key is free.
--
-- Not modelled: search, sorting and paging of lists (listAllWallets, findMany),
-- holdings and the watchlist, the admin overview, the other pages and components of the two
-- applications and what the modelled ones only show, the wiring of the framework and I/O.
pub mod Prelude
pub mod Exec
pub mod Prisma
pub mod Schema
pub mod World
pub mod Audit
pub mod Queue
pub mod Outbox
pub mod Notifications
pub mod Cache
pub mod Money
pub mod Rates
pub mod Users
pub mod Wallets
pub mod Idempotency
pub mod Tokens
pub mod Worker
pub mod TwoFactor
pub mod Auth
pub mod Alerts
pub mod Bff
pub mod Amounts
pub mod Views
pub mod Ops
pub mod Push
pub mod Passkeys
pub mod Markets
pub mod Http
pub mod PriceStream
pub mod Pay
pub mod Exchange
pub mod Tests
