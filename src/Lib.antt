-- ===== src/Lib.antt =====
-- A model of the ticketing backend: the inventory of seats that fans hold and buy, the orders
-- and payments made over it, and the waiting room, lock and rate limiter in front of it.
--
-- The program's parts, and the files that model them:
--   Domain              internal/domain: the entities, statuses and sentinel errors, with the
--                       money in Domain/Amounts, the events in Domain/Events, the users and
--                       refresh tokens in Domain/Accounts, the tenants and venues in
--                       Domain/Venues.
--   Sql                 the meaning of the SQL statements, over a table as the list of its rows,
--                       and their laws in Sql/Laws.
--   Store               internal/repository/postgres: Store/Action is the executor and WithTx of
--                       tx.go, over the tables of migrations/; Store/Inventory has the
--                       statements of inventory.go and Store/InventoryRepo the methods that send
--                       them; OrderRepo, PaymentRepo, NotificationRepo, EventRepo, TenantRepo,
--                       SeatCategoryRepo and VenueRepo are the files of those names, and UserRepo
--                       and TokenRepo the two repositories of user.go.
--   SeatInventory       histories of the statements on event_seat_inventory: Calls has the
--                       statements as data and their runs, Machine the machine of one unit's
--                       states, and Keys, Oversell and Expiry what holds of them. Backlog and
--                       Reclaimed are about the holds that expired before an instant.
--   Auth                internal/service/auth/service.go: every method. Registration, Sessions
--                       and Rotation are about Register, Login and RefreshAccessToken, and
--                       Revocations about histories of the statements on refresh_tokens.
--   Ordering            internal/service/order/service.go: Create is CreateOrder, Payment is
--                       AuthorizePayment, Confirm is ConfirmPayment with refundAndFail.
--                       Categories, Pricing, Stored and Checkout are about the first, Authorize
--                       about the second, and Fulfil, Transaction, Settlement, Refunds and Replay
--                       about the third.
--   Redis               internal/repository/redis: the locker, the rate limiter and the waiting
--                       room, over a server whose commands are a parameter.
--   Holding             internal/service/inventory: HoldSeat and the waiting room's methods, and
--                       in Holding/Sweep the methods that only use the table. HoldSeat, Reclaim
--                       and Backlog are about HoldSeat and the sweep.
--   Gateway             internal/platform/payment: the check of Stripe's webhook signatures, and
--                       the mock gateway. Signatures is about the first, and Stripe has the
--                       requests to Stripe and what is made of the answers.
--   Email               internal/platform/email: the senders over SMTP and to the console.
--   Config              internal/config/config.go: the sections, and in Config/Loading their tags
--                       and Load.
--   Process             cmd/api/main.go and the choices of cmd/worker/main.go: the gateway, the
--                       sender, the router's dependencies. Startup has the connections of
--                       internal/platform/database and redis and the start and end of run, and
--                       Migrate is cmd/migrate/main.go.
--   Webhook             internal/handler/http/webhook.go: the handler of Stripe's events. Answers
--                       is about its replies, and Delivery about the event that follows an
--                       AuthorizePayment.
--   Http                internal/handler: Http.antt has replies and the steps of a handler
--                       (pkg/response and the decoding of bodies), Gate the middleware of
--                       middleware/auth.go and tenant.go, Accounts, Orders, Seats, Events and
--                       Admin the handlers of auth.go, order.go, inventory.go, event.go and
--                       admin_event.go with admin_venue.go; Routes and Staff put the gates before
--                       the handlers as router.go does. Logins and Holds are about the accounts
--                       and the holds; Isolation, Tenancy and StaffHandlers carry the tenants'
--                       isolation through the statements and handlers to the routes in Staff,
--                       and NewUnits and Publishing are about PublishEvent. Api is NewRouter,
--                       from every route to its handler, and Health has health.go, requestid.go
--                       and recovery.go.
--   Outbox              internal/service/notification: the sending of enqueued notifications.
--   Admission           internal/service/admission: RunOnce and admitForEvent, with Counts about
--                       the free units that they count.
--   Worker              cmd/worker/main.go: the three loops and their ticks.
--   System              the API and the worker on one database: a run is a sequence of requests
--                       and ticks. Histories has the statements on the inventory that an action
--                       sends; Statements, OrderStatements, Services, Checkouts, Exchanges,
--                       Pages, Orders, Seats, Gates and Ticks follow them through the
--                       repositories, services, handlers, gates and ticks; Refinement, Drain and
--                       Tickets are about whole runs.
--   Prelude             shared names, Boolean tests, lists, in Prelude/Texts the functions of the
--                       package strings that the code calls, and in Prelude/Decimals the
--                       decimal text of an int64.
--   Tests               the theorems applied to concrete tables.
--
-- How the state corresponds. A table is the list of its rows, `Db` the tables. `World` is the
-- tables with a tick, the requests that were sent to the payment provider, and the mails. Each
-- call that leaves the process (a statement, BEGIN, COMMIT, the clock, uuid.New, a request to the
-- provider or to Redis) takes one tick, and `Env` says for each tick whether the call fails and
-- what the clock, the generator of identifiers, the provider and the mail server answer: a theorem
-- for every `Env` is one for every pattern of failures. A statement that fails changes nothing. An
-- `Action` returns a `Result` and the world after it; a `Service` has the Redis server's state
-- beside the world. The methods run without other requests in between, and in System the requests
-- and ticks follow one another; interleavings of requests on the inventory are the histories of
-- SeatInventory/Calls, in which statements of any callers follow one another in any order, each of
-- them atomic as the database makes it.
--
-- Identifiers and instants are natural numbers, keys and currencies are texts. An int64 amount of
-- cents is its 64 bits: sums are taken modulo 2 ^ 64, and the upper half is negative; the
-- admission cap, limits, prices and counts that configuration, validator or CHECKs keep from being
-- negative are natural numbers. Loops are by recursion on the list or number that they range
-- over; only the digits of a number have fuel, 20 of it, which is enough below 10 ^ 20.
--
-- Code outside the repository is a parameter: bcrypt, the signing and parsing of JWTs, random
-- bytes, SHA-256, base64 and the texts of UUIDs are fields of `Externals`; the HMAC, the decoding
-- of JSON, the validator of struct tags and the Redis server are arguments, and so are the HTTP
-- client and the encoding of forms, smtp.SendMail, the reader of the environment, the drivers of
-- the two databases and golang-migrate. The theorems that need something of them name it as a
-- hypothesis. The order of texts in an ORDER BY is the field `precedes` of `Env`. strings.ToLower
-- and strings.TrimSpace are written out for ASCII.
--
-- Not modelled: row-level security and the audit trigger; foreign keys whose violation the code
-- does not tell from other failures, unless a comment names them; columns that nothing reads;
-- cancellation through a context, panics inside a transaction, mutexes; logging, CORS and the
-- timeouts of the HTTP layer; signals, goroutines and the wait for them at shutdown; the inside of
-- the payment provider, which the runs in System ask through `Env`; with_stripe of Process makes
-- such an `Env` from the gateway of Gateway/Stripe.
pub mod Admission
pub mod Auth
pub mod Config
pub mod Domain
pub mod Email
pub mod Gateway
pub mod Holding
pub mod Http
pub mod Ordering
pub mod Outbox
pub mod Prelude
pub mod Process
pub mod Redis
pub mod SeatInventory
pub mod Sql
pub mod Store
pub mod System
pub mod Tests
pub mod Webhook
pub mod Worker
