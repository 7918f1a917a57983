-- ===== src/Lib.antt =====
-- DanteGPU Core: a marketplace in which renters pay by the hour for the GPUs of providers, run by a
-- set of Go services. This library models the parts of the services that decide something.
--
-- Parts, and the files that model them:
--
-- * services/scheduler-orchestrator-service takes jobs from a NATS stream, matches each to a
--   provider, opens its billing session and publishes its task. `Scheduler.Models` has the data
--   (internal/models, internal/clients), `Scheduler.Matching` the guards of the provider loop and the
--   choice of the GPU that is billed, `Scheduler.Consumer` the functions scheduleJob and handleMessage
--   (internal/scheduler/consumer.go, internal/billing/integration.go), `Scheduler.Store` the jobs table
--   with its statements (internal/store/postgres_jobstore.go), `Scheduler.Details` the JSON of a job in it (the tags in internal/models/job.go), and `Scheduler.Extender` the filter and the scores for
--   Kubernetes (internal/k8s/scheduler_extender.go).
-- * services/provider-registry-service knows the providers that the scheduler asks for. `Registry.Models` has
--   the providers (internal/models) and `Registry.Store` the in-memory store with its filters (internal/store/memory.go);
--   `Registry.Refinement` and `Registry.Histories` compare it with a partial map, and `Registry.Retries` has the retries of database
--   operations (internal/retryer/retryer.go).
-- * services/billing-payment-service keeps the wallets and charges for the sessions. `Billing.Models` has
--   the wallets, sessions and requests with their methods (internal/models), `Billing.Pricing` the pricing engine
--   (internal/pricing/engine.go), `Billing.World` the state and the monad of an operation, `Billing.Store` the statements
--   on the tables (internal/store/postgres.go, schema.go), and `Billing.Service` the operations of
--   internal/service/billing.go: StartRentalSession in `Service`, ProcessUsageUpdate in `Service.Usage`, EndRentalSession in
--   `Service.Ending`, the wallets, deposits and withdrawals in `Service.Funds`; `Service.Runs` puts requests in sequence.
-- * clients/provider-daemon runs the tasks on the machine of a provider. `Daemon.Health` has the monitor of the GPUs
--   (internal/gpu/health.go), and `Daemon.Tasks` HandleTask, runTask and the reports (internal/tasks/handler.go);
--   `Daemon.Tasks.Runs` looks at one run, `Daemon.Tasks.Tracking` and `Daemon.Tasks.Settling` at goroutines that interleave.
-- * services/auth-service keeps sessions, rate limits and revoked tokens in Redis: `Auth.Sessions` and `Auth.Limits`
--   (internal/session/redis_store.go), over `Auth.Redis`, and `Auth.Tokens` its JSON web tokens (pkg/jwt/jwt.go).
-- * services/api-gateway is the way in: `Gateway.Balancer` chooses a backend (internal/loadbalancer/balancer.go), `Gateway.Hub` keeps
--   the websocket clients (internal/websocket/hub.go); `Gateway.Hub.Running` has its loops,
--   which interleave, and `Gateway.Hub.Histories` sequences of their turns.
-- * services/rental-service rents GPU instances: `Rental.Store` has its tables and statements, `Rental.Handlers` its
--   handlers, `Rental.Serving` sequences of requests (main.go).
--
-- The scheduler starts a billing session over HTTP before it publishes a task; the answer is an argument of
-- its model, and StartRentalSession is what gives it.
--
-- `Decimal` stands for github.com/shopspring/decimal: a record of operations, which the billing code takes as an
-- instance argument, with `IsExact` for its documented laws; `Decimal.Laws` draws the consequences, and
-- `Decimal.Integers` fills the record with integers.
--
-- `Auth.Redis` stands for github.com/redis/go-redis in the same way: a record of commands that may fail, with
-- `HoldsTexts` and `HoldsCounters` for what Redis documents; `Auth.Redis.Memory` is a server of one process that fills
-- them. The daemon stops the billing session that the scheduler opened and named in the parameters of the task.
--
-- Conventions. A method that mutates its receiver returns the new value; an error is a value. What
-- another process answers (the provider registry, the billing service, NATS, the database)
-- is an argument: `Scheduler.Consumer.Env` holds the answers of one delivery, `Billing.World.Env` those of
-- Solana, the Covenant manager and the database during one request, in which the clock stands still. The
-- effects on other services are lists in the order in which they happen. Instants are counts of
-- microseconds, in the retries, the daemon and the authentication service of nanoseconds. Unsigned integers are
-- naturals within their width, a Go int that can be negative is an integer; a counter of attempts
-- only grows by one and is left unbounded. Texts are native strings; the Unicode case tables of
-- Go's standard library are the instance argument `Unicode`. Every loop of the code runs over a list or counts
-- its attempts down, so there is no fuel; the loops that serve for ever are sequences of events. Goroutines and
-- concurrent requests are steps of which one is done at a time, a step being what a mutex, one turn of a loop
-- under a shared lock, or one statement makes one.
--
-- Not modelled: the text of JSON numbers and times, what Go does where a loop over a map meets a write of the map, logging, HTTP and NATS plumbing, configuration, creation of tables, the
-- console, the deployment files.
pub mod Prelude
pub mod Decimal
pub mod Registry
pub mod Scheduler
pub mod Daemon
pub mod Auth
pub mod Rental
pub mod Gateway
pub mod Billing
