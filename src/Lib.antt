-- ===== src/Lib.antt =====
-- CollabOS is a backend on which brands and creators agree on deals, sign contracts, sell
-- products and pay each other. This library models the services of it that hold its rules on
-- money, goods, signatures, sessions and publication, and proves what keeps those right.
--
-- Parts and files. A service is a function from the database's tables to a result and the tables
-- after it (Base/Results, `Action`), in the order of the source's awaits: a write before a throw
-- stays, and only `transaction` rolls back. Tables are lists of rows under keys (Prisma/Tables,
-- for src/prisma), with the laws of their operations (Prisma/Laws, Prisma/Keys). Base has the
-- shared names, tests, signed integers, the caller (src/auth/interfaces/jwt-payload.interface.ts)
-- and the rules for invariants of actions (Base/Invariants). Schema has the enums and models of
-- prisma/schema.prisma.
-- Deals: src/deals. Service is DealsService.create, complete and cancel, Proposals is
--   ProposalsService, Calls has sequences of calls, Pending and Invariant prove. Health is the
--   health of a deal and the score that src/ai gives it, which Scores compares.
-- Contracts: src/contracts. A contract is for an active deal. State has the tables and the reads
--   that the services share, Service ContractsService.create, createVersion, sendForSignature and
--   void, Signatures SignaturesService.sign. Latest, Invariant, Operations and Signing prove what
--   each call keeps, Runs has sequences of calls, Final is about executed contracts.
-- Orders: src/orders and the stock of src/products. Checkout is CheckoutService, Service is
--   OrdersService.cancel, Refunds, Shipments and Webhook are the services of those names, Stock
--   is StockService.adjust, Calls has sequences of calls. Inventory, Settlement, Idempotence,
--   Grouping, Costs and Lines prove. CheckoutService and StockService write the stock and its
--   journal; OrdersService and the webhook give stock back through CheckoutService.restockOrder.
-- Payments: src/payments and the outbox of src/events. Service creates payments, Release releases
--   and refunds them, Webhook handles Stripe's events and ConnectService.syncFromStripeAccount,
--   Calls has sequences of calls. Escrow, Fees and Idempotence prove.
-- Payouts: src/payouts. Service is BalanceService and PayoutsService.withdraw, Webhook handles
--   Stripe's events; Solvency, Withdrawal and Idempotence prove. The balance reads the splits
--   that the payments release.
--
-- Auth: src/auth and the users of src/users. State has the tables, the libraries of tokens and
--   passwords as a record of functions (Crypto) and the helpers of AuthService; Sessions is
--   login, refresh and logout, Accounts register, forgotPassword, resetPassword, verifyEmail and
--   UsersService, Guards JwtStrategy and the guards of roles and permissions, Calls has sequences
--   of calls. Stable turns a fact about single writes into one about all calls; Revoked, Consumed
--   and Deactivated are such facts; Rotation, Resets, Recovery, Lockout and Permissions prove.
-- Briefs: src/briefs and src/applications. Service is BriefsService, Applications is
--   ApplicationsService, Notifications the NotificationsService of src/applications, Calls has
--   sequences of calls; Stable, Active, Closed, Decisions and Unread prove. An accepted
--   application is what a deal starts from.
-- Drops: src/drops. Service is DropsService and the job of its queue, Slugs the loop that draws a
--   slug, Calls has sequences of calls, Machine is the state machine of a drop's status and
--   Courses relates the calls to it. Readiness is the score that src/ai gives a launch.
-- Events: src/events, for any type of payload and event. State has the outbox and the registry,
--   Worker is OutboxProcessor, OutboxPublisherService and OutboxDeadLetterListener, Replay is
--   ReplayService; Once, Delivery and Summary prove. Payments/Webhook writes the rows.
-- Locks: src/common/locking and src/common/idempotency. Redis is an interface with laws, Service
--   is RedisLockService, Idempotency is IdempotencyInterceptor around any handler; Holder and
--   Replayed prove.
--
-- Conventions. Ids, times and Stripe's ids are numbers: the code only compares and stores them.
-- The keys of new rows and the time are arguments, as are the answers of Stripe, of the PDF
-- renderer, of the signature checks and of the Redis lock, in any combination. Amounts are whole
-- units; stock and ledger amounts are signed. Numbers are unbounded: the limits of the database's
-- 32-bit columns are not modelled. Each call runs alone: two requests that interleave between
-- their awaits are not modelled. The platform's fee is a whole percentage, though
-- env.validation.ts admits fractions. Rows that the source reads without an order are taken
-- newest first. Messages that name a product or an amount are kept without the name. Loops run
-- over lists and need no fuel, but for the loop that draws a slug: it takes fuel, and ends where
-- a draw within the fuel is free; where the fuel ends, the source's loop goes on and the model's
-- call fails. Writes to the database fail only where a row is missing or a unique column that the
-- service writes is taken twice, and in the outbox's worker, where the bus and the write of
-- PUBLISHED may also fail; Stripe's ids of payouts are taken to be new. The factories of events
-- only build an object and throw nothing. JavaScript's rounding of a quotient of milestones is a
-- parameter. The checks of request bodies by class-validator and the mapping of rows to responses
-- are left out.
--
-- Not modelled: milestones and responsibilities of deals, brands, the catalogue of products, the
-- pages, media and products of a drop, the text of a slug, profiles and settings of users,
-- messaging, the notifications of src/notifications, analytics, the rest of src/ai, search,
-- storage and the infrastructure; of the modelled parts, the filters, the order and the pages of
-- listings and the onboarding of accounts. Of BullMQ's queues there are lists of jobs, and for
-- the outbox the ended jobs that it keeps, which make an add of the same id do nothing.
pub mod Base
pub mod Prisma
pub mod Schema
pub mod Contracts
pub mod Orders
pub mod Payments
pub mod Payouts
pub mod Deals
pub mod Auth
pub mod Briefs
pub mod Drops
pub mod Events
pub mod Locks
