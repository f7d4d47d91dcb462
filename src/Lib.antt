-- ===== src/Lib.antt =====
-- The multi-tenant business API of src/: catalog orders, workflows, bookings, subscriptions,
-- accounts, job alerts, and what the services share.
--
-- The program is a NestJS service over a PostgreSQL database. A tenant (`userId`) publishes
-- workflows that answer customers on WhatsApp, sells products, takes bookings and pays a
-- subscription. A controller calls a service, the service reads and writes tables through Prisma,
-- and the workflow nodes call the same services. Each service method that changes a table is here a
-- function from its arguments and the tables to the tables afterwards or to an error.
--
-- Files, and the code that each one models, under src/ but for prisma/schema.prisma:
--   Base, Text              lists, options, results; texts as lists of UTF-16 code units
--   Database                what the services use of the Prisma client: the interface Client, with
--                           `findFirst` and `updateMany`, their documented behaviour as its laws, and
--                           list_client, a client over lists that has them
--   Catalog/Model           tables and statuses (prisma/schema.prisma,
--                           modules/catalog/catalog-order.constants.ts)
--   Catalog/TrackingUrl     modules/catalog/catalog-tracking-url.util.ts
--   Catalog/Orders          modules/catalog/catalog-orders.service.ts: Requests (bodies), Changes (what
--                           a write does to one row), Payment (create, attach, confirm, reject),
--                           Shipping (address, ship, deliver), Calls (any sequence of calls)
--   Catalog/Orders/{Lifecycle,Moves}   a step relation on orders, and that each method is such steps
--   Catalog/Orders/{Invariant,Stock,Races}   what holds after any calls, and of calls in between
--   Workflow/Graph, Workflow/Validator   modules/workflows/workflow-validator.service.ts
--   Workflow/Context        the context object of an execution
--   Workflow/Execution      modules/workflows/workflow-execution.service.ts: the next node, Walk (the
--                           loop and the checks before it), Bounds, Rounds, Edges, Resume
--   Workflow/Selection      modules/workflows/workflow-selection.util.ts, workflow-trigger-channel.ts
--                           and incoming-workflow-matcher.ts; Best
--   Workflow/Interactive    modules/workflows/user-state.service.ts, applyBookingRetryContext of
--                           nodes/booking-node.helpers.ts, and the context that an answer leaves
--   Workflow/Interactive/{Answer,Start,Promises,Branches,Outcome}   interactive-message-handler.service.ts:
--                           handleButtonResponse, where the execution goes on, each branch
--   Workflow/Schedule       modules/workflows/workflow-schedule.service.ts: Ticks
--   Workflow/Hooks          modules/workflows/workflow-webhook.controller.ts: Outcome
--   Workflow/Condition      modules/workflows/nodes/condition-node.executor.ts: Meets
--   Availability/Bookings   modules/availability/availability.service.ts: createBooking,
--                           updateBookingStatus, cancelBooking, assertNoConflict
--   Availability/Slots      modules/availability/slot-engine.ts and slotsForResource
--   Billing/Lifecycle       modules/billing/subscription-lifecycle.service.ts
--   Billing/Access          resolveStatus, resolveWebsiteStatus and hasPlatformAccess of
--                           modules/billing/billing.service.ts
--   Billing/ManualPayments  modules/billing/manual-payment.service.ts: Calls (submitManualPayment,
--                           approveSubmission, rejectSubmission), Once and Reach (transaction ids),
--                           Paid (access after an approval)
--   Billing/ManualPayments/{Expiry,Stale,Backed}   modules/billing/manual-payment-expiry.service.ts:
--                           the expiry of undecided payments, the sweep of a user, and accounts
--                           that wait
--   Billing/Subscriptions   the subscriptions through Razorpay of modules/billing/billing.service.ts:
--                           Create (createSubscription), Calls (activateFromCheckout,
--                           cancelSubscription), Events (handleWebhookEvent), Branches, Payments
--                           (transactions), Paid (access), Others (whom an event concerns), Checkout
--   Billing/Webhook         modules/billing/billing-webhook.controller.ts: Once, Forged
--   Auth                    modules/auth/auth.service.ts: Tokens (links and access tokens), Calls
--                           (register, login, logout, resets and verifications)
--   Auth/Guard              common/guards/token-auth.guard.ts
--   Auth/{Runs,Single,Once,Reset,Sessions,Login}   any sequence of requests, the links, the
--                           sessions and who may log in
--   Career/Alerts           modules/career/services/career-job-alert.service.ts and
--                           career-alert-state.util.ts: Distinct (lists), History, Outcome
--   Common/RateLimit        common/rate-limit/rate-limit.service.ts
--   Common/Csv              common/export/csv.util.ts; Reader is a reader of RFC 4180 to compare with
--   Common/Phone            common/phone.util.ts
--   Common/Ssrf             common/net/ssrf-guard.ts: Ranges and Dotted (addresses), Guard
--   Common/Pagination       common/pagination.ts, with `skip` and `take` of the controllers
--   Common/MetaRetry        common/meta-api-retry.ts
--   Common/WebhookClaims    common/webhook-idempotency/webhook-idempotency.service.ts
--   */Tests                 runs on concrete data, and an instance of each theorem below
--
-- How the parts interact. An order confirmation claims the order and takes its item out of the
-- stock in one transaction; the reads before it are a call of their own, so that other calls can
-- come in between (Races). The walk of a workflow validates the definition with the validator
-- first. A slot is offered from the bookings of a day, and is booked through the conflict check of
-- all bookings. A payment that an admin approves changes the account that decides access, and one
-- that nobody decides lapses and lets the account go on. The webhook of Razorpay claims a request in
-- the table of all webhooks, checks its signature, and hands it to the subscriptions, which write the
-- account and the transactions. An answered interactive message writes the marks into the context of
-- an execution by which the walk of the workflow finds its first node. A webhook of a workflow claims a
-- call in the table of all webhooks, asks Billing/Access about the owner, and creates an execution on
-- the board of the scheduled ones. The token of a login is the
-- one that the guard looks up; requests to addresses that a tenant gives pass the guard of Common/Ssrf.
--
-- Conventions. Numbers are natural numbers; prices of the catalog, which the code keeps as
-- decimals, are in the smallest unit of the currency, and prices of plans in rupees; instants are
-- milliseconds. A method that throws leaves the tables as they were, but for payments, accounts and
-- answers, which write outside a transaction: they answer with the tables too. A new row gets the key
-- that the call is given; where it matters that the key is new, the theorem asks for it. Records have the
-- columns that the modelled methods read or write, and leave out names, notes and the times of
-- creation where nothing reads them. Texts are lists of UTF-16 code units, in lower case only for
-- the letters of ASCII. JavaScript objects used as dictionaries have the keys that were put in, and
-- none of `Object.prototype`.
--
-- Parameters. Prisma is Client. `encodeURIComponent`, the draws of order numbers, the clock, what a
-- workflow node does (the interface NodeExecutor), whether a notification can be sent, who is a
-- super admin, what a time zone makes of a local time, Node's `isIP`, `URL` and DNS, the answers of
-- Meta's API and the jitter of its retries, the digest of a webhook's payload, how jobs match a profile,
-- the answers of Razorpay's client, HMAC, SHA-256 and bcrypt, random tokens, the job seekers' billing,
-- whether the queue takes a job, the times that cron-parser reads from an expression, and
-- `String(value)` of a value in a context, JavaScript's `Number` and `RegExp` are arguments of the
-- functions that use them.
--
-- Loops and fuel. The search for cycles is on fuel, and gets one more than nodes and edges
-- together, which is enough. The walk of a workflow counts its rounds down from `MAX_NODES`, as the
-- code counts them up. The slot loop is on fuel, and gets the minutes of the closing time, which is
-- enough for slots of a minute or more; the engine offers nothing for shorter ones. A retried call
-- counts down the attempts that are left, as the code counts them up. The digits of a page's number
-- are on fuel, and get one more than the number, which is enough. All else is by structure.
--
-- Not modelled. Controllers, serializers, guards and modules of the framework; calls of WhatsApp,
-- Instagram, mail and payment providers; lists, exports and dashboards, which change nothing; the
-- website, inbox, lead and admin services, which read and write single rows, and all of the career
-- assistant but its job alerts; mails and other messages that a method sends; failures of the
-- database while a webhook or an answer is handled; the sweep of stale payments over all users. The
-- nodes of a workflow are known by their interface alone, since most call language models or outside
-- services, but for the test of a condition node, which gets its field and its value as texts.
pub mod Base
pub mod Text
pub mod Database
pub mod Common
pub mod Catalog
pub mod Workflow
pub mod Availability
pub mod Billing
pub mod Auth
pub mod Career
