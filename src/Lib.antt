-- ===== src/Lib.antt =====
-- The backend of an auction house: NestJS services over MongoDB, Redis, a BullMQ queue and socket
-- rooms. A user opens an auction, others bid on it, a job ends it, and its winner has a day to pay;
-- after that the next bidder may take the winner's place.
--
-- The parts and their files (paths from the repository's root):
-- - Domain: the documents (src/modules/auctions/schemas/auction.schema.ts, bid.schema.ts,
--   user.schema.ts, wishlist.schema.ts and notification.schema.ts beside their modules), the queue's
--   jobs and the socket events. Domain/Equality: their tests.
-- - Texts: texts as lists of character codes, and the string operations of the services.
-- - Platform: what the services call and do not implement, as the parameter `Env`: Mongoose models,
--   the queue, the Redis lock commands, sorting, `Types.ObjectId.isValid`, new ids, and which of the
--   guarded calls are rejected. Each law in `Model`, `Sorter`, `Queue` and `Redis` is documented
--   behaviour of that call. Platform/World: the shared state and the monad of a method; a method that
--   throws keeps what it has written. Platform/Store: updates of one auction and what a later read
--   sees. Platform/Calls: calls on queue and store. Platform/Memory: a concrete `Env`.
-- - Notifications (src/modules/notifications/notifications.service.ts): every operation of
--   NotificationsService under its own name; Notifications/Listing has listNotifications.
-- - Pagination: the page and limit that listNotifications normalises, and the page of a sorted query;
--   Pagination/Ties: when two such queries agree on a page.
-- - Auctions/Lifecycle, Auctions/Payment, Auctions/Winner, Auctions/Push
--   (src/modules/auctions/auctions.service.ts): create, endAuction, requestImmediateEnd,
--   cancelAuction, deleteAuction, getBidStatsForUser; the payment window and confirmation;
--   findNextHighestBidder, replaceWinnerWithNextBidder and handlePaymentExpiryDecision. Long methods
--   are split at their tests: `announce_...` and `after_...` are the parts below one.
-- - Auctions/Lists and Auctions/Cache (the same file): findAll, findActive, findByCategory,
--   findCreatedByUser and findBiddedByUser, and the caches of counts and of list responses, as a state
--   machine whose steps are calls and the settling of fetches. Auctions/TopBidders:
--   getTopBiddersForAuction, its aggregation stage by stage.
-- - Processor (src/modules/auctions/auction.processor.ts): process and its three handlers;
--   Processor/Events: the handlers of the worker's events.
-- - Bids (src/modules/bids/bids.service.ts): placeBid, split into the lock, the guards and the commit.
-- - Users (src/modules/users/users.service.ts): the calls on the user collection, with its unique
--   indexes.
-- - Auth (src/modules/auth/auth.service.ts, and validate of strategies/jwt.strategy.ts): AuthService by
--   groups of methods: Codes, Usernames, Register, Reset, Login, Google and Profile. Auth/Keys is the
--   parameter `Keys`: bcrypt, random numbers, lower case and trimming, and Google's check of a token.
-- - Accounts: the abstract specification of the user collection, a step relation. Accounts/Methods,
--   Signing and Google show of each method of AuthService that it refines it, Accounts/Invariant what
--   the relation preserves. Accounts/Calls: the calls of AuthService in any order.
-- - Gateway (src/modules/bids/bids.gateway.ts and src/common/guards/ws-jwt.guard.ts): the user of a
--   socket, its rooms, which are named by any text, and bids with their acknowledgement. `Sockets` is
--   what it calls outside.
-- - Wishlist (src/modules/wishlist/wishlist.service.ts): addToWishlist and removeFromWishlist;
--   Wishlist/Listing has getMyWishlist.
-- - Payments (src/modules/payments/payments.service.ts): the id of a payment link and what is read out
--   of it, the webhook's secret, handleWebhook down to the confirmation of a payment, and the check and
--   creation of Cashfree links, given what Cashfree answers (`Cashfree`).
-- - Changes: the abstract specification of the auction collection, a step relation that says which
--   updates of a document may happen when. Changes/Methods, Switching, Worker, Bidding, Webhook,
--   Lists and Money show of each method that it refines it, Changes/Invariant what the relation
--   preserves.
-- - Metrics (src/common/observability/observability-metrics.service.ts): the counters, aggregates and
--   snapshots of ObservabilityMetricsService and the methods that record into them, with its maps in
--   Metrics/Tables; Metrics/Routes: normalizeRoute; Metrics/Labels and Metrics/Report:
--   getPrometheusMetrics. Metrics/Requests (src/common/middleware/http-observability.middleware.ts):
--   the handlers of a response's `finish` and `close`.
-- - Health (src/modules/health/health.service.ts and health.controller.ts) and Health/Redis
--   (src/common/redis/redis.service.ts): the checks, their answer, and what they record. The clients of
--   Redis (`Driver`) and Mongo (`MongoConnection`) are parameters.
-- - App (src/app.service.ts): the status of the root; App/Index: the endpoints of the API's index.
-- - Http: the requests to the controllers, and how each is served. Http/Guard
--   (src/modules/auth/guards/jwt-auth.guard.ts): the guard of a route. Http/Queries: query parameters.
--   Http/Auctions (src/modules/auctions/auctions.controller.ts, src/modules/users/users.controller.ts),
--   Http/Others (src/modules/payments/payments.controller.ts,
--   src/modules/notifications/notifications.controller.ts, src/modules/wishlist/wishlist.controller.ts)
--   and Http/Auth (src/modules/auth/auth.controller.ts): the handlers.
-- - System: all calls in any order, each whole, with any arguments and at any time.
-- - Auctions/Ranking, Swept, Deleted, Groups and Leading, Bids/Accepted, CutOff, Refused and Lock,
--   Processor/Told and Once,
--   Auctions/Cache/Single and Origin, Auctions/Lists/Overdue and Shared, Accounts/Kept, Lockout,
--   Recovery, Joining, Linked, Names and Digits, Gateway/Acknowledged and Rooms, Payments/Settling and
--   Verified, Notifications/Dedupe, Inbox and Pages, Wishlist/Membership,
--   Joined and Walked, Metrics/Normal, Recorded, Keys, Quoted, Reading and Counted, Health/Probed,
--   App/Hidden, Http/Owned and Settled, System/Settled and PaidJobs hold the theorems; Tests has a market in memory, at which each is applied.
--
-- Choices. Ids are opaque and only compared, and amounts are only compared and copied, so both are
-- natural numbers; dates are milliseconds. The texts and metadata of messages are written and never
-- read back, and are left out; the dedupe keys are data with one constructor argument for each part.
-- A collection is a list in insertion order. A method runs whole; that two processes interleave is
-- modelled where the code guards against it: `commits` is the write of a bid on a document that was
-- read at any earlier time. `Promise.all` runs its calls in order. A call that the source wraps in
-- try/catch, or that a caller has to survive, is guarded, and so are the two calls of placeBid that
-- follow the update of the price: `outage` says which of them are rejected. Other calls are taken to
-- answer. A query that sorts by a time has an order of its own, which says nothing of how another
-- query orders documents of the same time.
-- Loops run over lists, except two that count: the search for a username makes at most the fifteen
-- attempts of the source, and a number is printed with at most 20 digits, which its uses stay below.
-- `setMinutes(getMinutes() + 10)` adds ten minutes. A token is its payload. A count that is cached is an
-- argument of the list methods. The socket server is taken as initialised. The query parameters of
-- a request reach a list method as the natural numbers that `Number` reads, `none` where it reads none;
-- a duration is a whole number of milliseconds, as the middleware computes it.
--
-- Not modelled: getQueueStatus and its route, which format what the queue library answers; mail
-- templates, uploads, the options of the Redis client and the socket adapter, which configure or call
-- libraries; module wiring and the bootstrap with its rate limits; the validation of bodies by DTOs and
-- the status codes of errors, which the framework makes; the audit log; and the text of log entries, of
-- which the metrics' middleware and the worker's events keep the level. Of the methods of Auth only
-- getPublicProfile, getProfileById and updateProfile stand beside the auctions, in System and in Http,
-- since no other one of them touches an auction or needs a token.
pub mod Base
pub mod Texts
pub mod Domain
pub mod Platform
pub mod Pagination
pub mod Notifications
pub mod Auctions
pub mod Metrics
pub mod Processor
pub mod Changes
pub mod Bids
pub mod Users
pub mod Auth
pub mod Accounts
pub mod Gateway
pub mod Wishlist
pub mod Payments
pub mod System
pub mod App
pub mod Health
pub mod Http
pub mod Tests
