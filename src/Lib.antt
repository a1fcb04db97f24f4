-- ===== src/Lib.antt =====
-- The core of the springo framework: a container with lifecycle hooks, an event bus with an outbox and a
-- dead letter queue, cluster locks for scheduled jobs, transactional scopes, database migrations, an
-- in-memory cache, and the filters and interceptors around web handlers. Services open transactional scopes
-- (framework/database/transaction.go), whose events go to the event bus after the commit; the bus
-- (framework/event/event_bus.go) gives them to listeners by a worker pool, keeps a counter for each
-- outbox row, and writes what fails to the dead letter queue, which framework/event/retry_manager.go
-- empties by redispatching. Jobs and the outbox poller take turns in a cluster by rows of
-- springo_shedlock (framework/scheduler/manager.go).
--
-- Files, each with its theorems in the modules below it and its runs in a module Tests:
--   Ioc           framework/ioc/container.go: definitions, the search by type, GetBeanScoped and all
--                 that it calls, with the container passed on; a bean and a type are numbers, and what
--                 reflect and the factories answer is a parameter
--   Migration     framework/database/migrator.go, migration_revert.go and migration_version.go: the
--                 order of names, Migrate, Rollback, Reset and Refresh; what a migration does to the
--                 database is a function, and each statement on the control table is answered;
--                 acquireLock and waitForLock of migration_lock.go, with statements of other instances
--                 between theirs
--   Lifecycle     framework/lifecycle/lifecycle.go: register, RunInitializers, RunReady, RunShutdown,
--                 BackupRegistrations; hooks act on any state and return, fail or panic
--   Event.Bus     framework/event/event_bus.go: StartWorkerPool, StopWorkerPool, dispatch and the
--                 goroutines, as steps that any schedule may order; handleFailure, finishListener
--   Event.Retry   CalculateNextRetry, with the rows of framework/event/model.go
--   Event.Redispatch   redispatchEvent and what it calls
--   Event.Dlq     framework/event/retry_manager.go: ProcessDLQ, updateRetryState
--   Locks         framework/scheduler/manager.go: executeWithLock, acquireShedLock, releaseShedLock,
--                 and acquirePollerLock of the event bus, as statements that instances interleave
--   Startup       framework/scheduler/manager.go: RunStartupTasksE, with jobs that return, fail or panic
--   Transaction   framework/database/transaction.go: Transactional, every propagation mode
--   Interceptor   framework/web/interceptor.go: MatchPath, the registrations, InterceptorMiddleware
--   Cache         framework/cache/memory_provider.go: the operations of one cache, and the
--                 store that they refine
--   Auth          framework/web/security_middleware.go, framework/security/jwt_provider.go and
--                 validators.go: AuthMiddleware; claims are a tree, jwt.Parse is a parameter that is
--                 documented to accept only what verifies under the key it is given
--   Cors          framework/web/cors.go: CorsMiddleware and all that it calls
--   Csrf, PublicPaths   framework/web/csrf.go, and isPublicPath of framework/web/security_middleware.go
--   Base          lists, texts, maps, sorting and integers that they share
--
-- A Go string is the list of its bytes, a map an association list, the order in which range visits a
-- map a parameter (Base.Runtime). Times and durations are nanoseconds on one clock that does not go
-- back. The database, gorm, reflection, JSON and listeners are parameters or answers given to a step:
-- each statement may be done or fail. A loop is structural on the list that it walks; only
-- GetBeanScoped, which asks for what a bean needs, is on fuel, and one more than the number of the
-- definitions is enough, and so are the digits of a number, for which the number itself is. A run is a
-- list of steps of any length; waitForLock takes the turns to come as a list.
--
-- A factory of the container and a hook after a resolution are functions that do not call the container
-- again: a factory that calls GetBean with a context of its own, which loses the stack of the resolution
-- and may block on sync.Once, is outside the model, and so are two goroutines that resolve at once. The
-- end of a listener is one step, though the source takes two lock sections and a write. A start of the
-- pool while another goroutine is in StopWorkerPool is not a step of the model. Intervals and times to
-- retry are not negative. Locks is about instances that have a database; without one the source runs the
-- job without a lock. The transaction of a migration is taken to undo what it did, which a database that
-- commits data definitions implicitly (MySQL) does not.
--
-- Not modelled: the repository and service maps of the IoC container, its struct tags and providers;
-- the loading of configuration; SQL migration files and GetStatus; cron timers; the making of tokens,
-- the JWKS client and LDAP; gin handlers, actuator and dashboard, logging, the redis cache, the command
-- line generator and the demo application; Subscribe and Publish of the event bus, and the poller's
-- queries. They are glue around packages outside the repository, or reflection. Sizes of queues and
-- pools are taken as the numbers configured; a PreHandle or an AfterCompletion that panics is left out
-- of Interceptor.
mod Base
pub mod Lifecycle
pub mod Event
pub mod Locks
pub mod Startup
pub mod Transaction
pub mod Interceptor
pub mod Cache
pub mod Ioc
pub mod Migration
pub mod Csrf
pub mod Cors
pub mod Auth
pub mod PublicPaths
