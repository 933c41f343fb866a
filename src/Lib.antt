-- ===== src/Lib.antt =====
-- Pushboy sends push notifications: jobs come in by HTTP, a master fans each out into one task for
-- each device token, senders call the providers, and outcome workers record what became of the tasks.
-- This library models the parts of the program that decide what is sent, counted and stored, as
-- functions, and proves what they do.
--
-- The parts, by file, with paths from the repository's root:
--   Prelude           tests, lists, association lists, and calls that return an error and write a state
--   Model             internal/model: Push (push.go), LiveActivity (live_activity.go, with its options in
--                     LiveActivity/Options), Task (task.go, task_la.go)
--   Pipeline          internal/pipeline/memory.go: `pipeline_step` is one case of a select of Submit or
--                     Receive, or Close. Pipeline/Retry is memoryDelivery; Pipeline/Outbox is the interface
--                     of pipeline.go as a caller of Submit meets it
--   Storage           internal/storage. Tables are the rows of storage.go and of db/migrations/postgres;
--                     World is the server, with a clock, failing statements and transactions; Outcome is
--                     outcome.go; PushJobs, Tokens, Directory (users, tokens, subscriptions), Topics,
--                     Paging (batches) and Listings (paged lists) are parts of postgres.go; LaJobs,
--                     LaDispatches, LaOutcomes and LaTokens are live_activity_postgres.go
--   Workers           internal/workers: Fanout (fanout.go), FanoutLa (fanout_la.go), Dispatch (dispatch.go),
--                     Outcome (outcome.go), Loops (masters.go, senders.go)
--   Scheduler         internal/scheduler/scheduler.go
--   Startup, Shutdown the broadcast topic of cmd/pushboy/main.go, and cmd/pushboy/shutdown.go
--   Config            internal/config/config.go
--   Service           internal/service: Users and Notifications are service.go, LiveActivity and its
--                     Requests are live_activity.go
--   Server            internal/server: Pagination (pagination.go, with formatAPITime of dto.go), Responses
--                     (dto.go), Queue (a World together with a pipeline), Handlers (server.go: Users,
--                     Topics, Send; live_activity.go: LiveActivity)
--   Providers         Http (a request as both clients make it), Apns (internal/apns/apns.go), Fcm
--                     (internal/fcm/fcm.go), each with its LiveActivity (apns_la.go, fcm_la.go)
--   Tests             runs on small inputs
--
-- How they interact: a handler of Server takes the decoded request, calls Service, which calls
-- Storage, and submits what was stored to the pipeline of a `Site`; Workers/Fanout, Workers/FanoutLa
-- and Scheduler run the calls of Storage on a `World`; Storage/PushJobs/Lifecycle has the updates that
-- the master and the outcome worker make to one job, in any order, and Storage/LaDispatches/Lifecycle
-- those to one dispatch, with the statements that make them in its Statements; Workers/Outcome is over
-- any `apply`, as `OutcomeApplyFunc` is, and Workers/Loops over any fan-out and dispatch; a
-- `Dispatcher` of Workers/Dispatch is a client of Providers.
--
-- How the program is written down:
--   - A call of the store is a function from a `World` to a result and a `World`. The script of a `World`
--     says of each statement whether it fails and how long it takes. A transaction is isolated; one whose
--     COMMIT fails has changed nothing; `NOW()` in it is the time of its BEGIN.
--   - Counts, times and limits are natural numbers, without the bounds of an int or of a column; a time
--     is 0 where Go has the zero time. Negative sizes are not modelled.
--   - A NULL user or topic of a row is the empty text. A payload is read back as it was written.
--   - Go visits a map in any order; here deltas are visited in the order in which jobs first occur.
--   - The order of texts in ORDER BY is a parameter, `Collation`: a strict total order in which the empty
--     text is first. base64, JSON and the time format are a parameter, `Codec`, whose laws say that what
--     is written is read back.
--   - The loop of FanoutPushToken runs on fuel; one round more than there are tokens is enough for any
--     batch size above 0, since each round but the last takes a whole batch.
--     The loop of FanoutLATokens runs on fuel too; one round more than the table has live activity tokens
--     is enough.
--   - The `emit` of the push lane is a queue with room for a number of tasks, after which the context has
--     ended; other calls of `Submit` return what a list of answers says.
--   - A raw JSON column is its text, or none.
--   - What a provider answers, ids that are drawn and the texts of errors are parameters. A handler is
--     given the decoded body, or the text of the error; path values are arguments.
--   - The texts of the driver's errors hold none of the words that handlers look for in an error.
--   - An operation of a service that only passes its arguments on to the store is the store's function.
--   - The clients of the providers are given the answers of net/http by attempt: their loops run as often
--     as there are retries and once more. What encoding/json, oauth2 and the signing of a token answer is
--     given too. The waits are in milliseconds.
--
-- Not modelled: routes, ping and the decoding of bodies (net/http, chi), the tickers, the scheduling of
-- goroutines, and the wiring, signals and time limits of cmd/pushboy.
pub mod Prelude
pub mod Model
pub mod Pipeline
pub mod Providers
pub mod Storage
pub mod Service
pub mod Scheduler
pub mod Config
pub mod Server
pub mod Workers
pub mod Startup
pub mod Shutdown
pub mod Tests
