-- ===== src/Lib.antt =====
-- Verification of the ledgermint marketplace backend, repo/backend: a Go service that sells
-- collectibles, over PostgreSQL tables.
--
-- Base, Errors and Model hold the vocabulary: lists as tables, the sentinel errors and the HTTP
-- response of each (internal/dto/errors.go, internal/handler/helpers.go), and one record per row type
-- (internal/model). World is what a request runs in: the tables, the clock, which database calls
-- will fail, and the goroutines that were started. Action is a Go function that returns
-- `(T, error)`: it takes a world to a result, and an error keeps the world reached so far, so that
-- a write before a failure stays unless a transaction takes it back. Every statement of a store takes
-- the next entry of `faults` and fails where that says so, so a theorem for all worlds covers every
-- pattern of failures. Action/Rules has the rules for reasoning about such calls, and Action/Calm those
-- for a world in which none fails.
--
-- Experiments is the assignment of users to variants of the running A/B tests and the emission of
-- analytics events (internal/service/abtest_service.go, resolveABVariant of
-- internal/service/collectible_service.go, emitEvent of internal/service/order_service.go), and their
-- life cycle: Store (internal/store/analytics_store.go), Registry and Service
-- (internal/service/abtest_registry.go and abtest_service.go) and Evaluator
-- (internal/worker/abtest_evaluator.go). Judgement says what the evaluator does to one test, Lifecycle how
-- tests change, Upkeep and Rounds that the methods and a run of the evaluator keep this, and History
-- carries it to histories.
--
-- Collectibles is the catalogue (Store: internal/store/collectible_store.go; Service:
-- internal/service/collectible_service.go) with Cache, internal/cache/hot_cache.go, in front of it.
-- Coherence says when the cache agrees with the table, Upkeep that the methods which write keep it so,
-- Visibility who is shown a collectible, Listing and Catalogue who is shown one on a page, and History
-- carries this to histories of requests;
-- Action/Frame says that statements leave the cache alone.
--
-- Orders is the order book. Orders/Store has the statements of internal/store/order_store.go and
-- Orders/Service the methods of internal/service/order_service.go, one function for each, in the
-- order of the source. Placement, Create, StatusWrites, Transition, Lookup and Aftercare describe what
-- each method does to the tables; Refusals, Verdict and StepVerdict when it refuses; Invariant,
-- Evolution, Changes and History carry this to histories of requests, and Promises draws the
-- conclusions.
--
-- Notifications is the sending of notifications (Store: internal/store/notification_store.go; Service:
-- internal/service/notification_service.go) and the job that delivers them (Worker:
-- internal/worker/notification_retry.go). Preferences says which events a user leaves out, Sending
-- what the methods do, Delivery what a run of the job does, over tables whose rows are rewritten one
-- by one (Base/Keyed), Lifecycle how one notification fares in them, and History what many runs of
-- the job leave in the table.
--
-- Auth is login, lockout and refresh tokens (Store: internal/store/user_store.go; Service:
-- internal/service/auth_service.go). Lockout says whom Login admits, BruteForce what it does with wrong
-- passwords, Sessions and Reuse what becomes of refresh tokens; Action/Steady says that calls leave the
-- clock and the configuration alone.
--
-- Messages are those between the parties of an order (Store: internal/store/message_store.go; Service:
-- internal/service/message_service.go; Upload: the handler's Send, internal/handler/message_handler.go)
-- and the search for personal data in them (Pii: internal/service/pii.go; Scan:
-- internal/service/text_extract.go). Access and Sending say who reads and sends what, Language what the
-- patterns find, Runs what the search of a file cannot lose, and Screening what has passed every check.
--
-- Anomalies is the detector of misused accounts (internal/worker/anomaly_detector.go; Store:
-- internal/store/analytics_store.go). Detection and Rounds follow its loops, Reference says without loops
-- whom it should flag, and Outcome that it does.
--
-- Crypto is the encryption of addresses (internal/crypto/aes.go), and RoundTrip its way back.
--
-- Middleware is the IP filter, the CSRF check and, in Setup, the setup gate (ipfilter.go, csrf.go and
-- setup.go of internal/middleware), which stand before the handlers. Passage says which requests the
-- first two let through, Opening when the gate opens, and Asking when it listens to the database.
--
-- Users is the masking of addresses, in Service the other methods of internal/service/user_service.go, and
-- in Store the statements of internal/store/user_store.go that login does not need. Masking says what a
-- mask hides, Granting what a grant of a role adds, Entry what a new user is, and Enrolment what the
-- creation of a user does.
--
-- Handlers is the pagination of the handlers and bindAndValidate (internal/handler/helpers.go), and Pages
-- says that the pages of a list make it up; Setup is internal/handler/setup_handler.go, Installing what
-- the first administrator adds, and Opening what setup answers.
--
-- Samples has the configuration and the tables of the tests.
--
-- A UUID is a number, and a fresh one is the next number. Times are seconds, and the clock stands still
-- within one request. Strings are native. Requests are served one after the other: the advisory lock
-- and the isolation of concurrent requests are not modelled. Loops are structural recursion
-- on the rows they read. Two functions run on fuel: `decimal` of Base/Text, a number as text, with one
-- step for each digit, and the number itself and one more as fuel; and `doublings` of Base/Float, which
-- rounds 64-bit floats, with 128 steps, enough for the rates of counts below 2 ^ 63.
--
-- Not modelled: the text of PDF files, rate limits, the audit log, and the rollup and metrics workers, which
-- are separate from the parts above; the router and the binding of requests, which are calls of echo; the
-- cipher, password hashes, signed tokens and CIDR blocks, which are parameters; foreign keys, since rows
-- that others refer to are not deleted; failures of the signing of tokens and of random numbers in
-- sessions; the web client.
pub mod Base
pub mod Errors
pub mod Model
pub mod Cache
pub mod World
pub mod Action
pub mod Experiments
pub mod Collectibles
pub mod Notifications
pub mod Samples
pub mod Auth
pub mod Orders
pub mod Middleware
pub mod Users
pub mod Handlers
pub mod Messages
pub mod Crypto
pub mod Anomalies
