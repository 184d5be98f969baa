-- ===== src/Lib.antt =====
-- The verification library of the distributed rate limiter. It models the packages of
-- internal/ratelimit: core, store/inmemory, transport, config, observability and parts of app.
--
-- A request comes over HTTP or gRPC (transport) to the handler (core/handler.go). It finds the rule in
-- the cache, acquires a handle on the rule's limiter from the pool (core/limiterpool.go), and calls
-- the limiter, or joins a call for the same key and cost (core/coalescer.go).
-- A limiter (core/limiter.go) is made of a rule by the
-- factory. It asks its circuit breaker (core/circuit.go) and then the redis (core/redis.go), which
-- counts by one of three algorithms. In an emergency, while the breaker is open, and after a failed
-- call, the fallback (core/fallback.go) decides from local counters, under a cap that is shared
-- among the instances of the region, for the keys that ownership (core/ownership.go) gives to the
-- instance. The degrade controller (core/mode.go) sets the mode from the health of the redis and the
-- membership. Rules come from the rule database and are read from a cache of snapshots. While the
-- server drains, the in-flight tracker (core/drain.go) turns new requests away.
--
-- Which file models what (the paths stand under internal/ratelimit):
--   Base/            numbers (int64 with wrap-around), texts, association lists, FNV-1a, float64
--   Core/Models      core/models.go, core/errors.go and RuleParams of core/limiter.go
--   Core/Clock       the operations of package time that the program uses
--   Core/Window      the fixed-window counter: windowCounter and AllowFixedWindow of
--                    core/fallback.go, fwState of store/inmemory/redis_inmemory.go
--   Core/RedisClient RedisClient and RedisPipeline of core/redis.go, as an interface
--   Core/Limiter     redisLimiter of core/limiter.go: Allow, AllowBatch, exec, fallbackDecision,
--                    fallbackDecisions; Core/Limiter/Factory: Create and normalizeAlgorithm
--   Core/Fallback    FallbackLimiter of core/fallback.go: Allow, effectiveShardFactor,
--                    AllowFixedWindow, NormalizeFallbackPolicy
--   Core/Circuit     CircuitBreaker: Allow, OnSuccess, OnFailure
--   Core/Mode        DegradeController: RegionStatus, Update
--   Core/Membership  core/membership_static.go
--   Core/Ownership   RendezvousOwnership.IsOwner
--   Core/RuleCache   core/rulecache.go: Get, List, ReplaceAll, UpsertIfNewer, DeleteIfOlderOrEqual
--   Core/Lru         core/lru.go
--   Core/Batch       core/batchplanner.go: the grouping of a batch
--   Core/Drain       core/drain.go: Begin, End, Close, as schedules of their atomic operations
--                    and as whole calls
--   Core/Pool        core/limiterpool.go: one shard as steps; Core/Pool/Sharded: the pool
--   Core/Coalescer   core/coalescer.go: one shard, as schedules of its callers
--   Core/Handler     core/handler.go: CheckLimit, and resetCheckLimitResponse of core/responsepool.go;
--                    Core/Handler/Batched: CheckLimitBatch
--   Core/Propagation core/cache_invalidator.go, core/cache_sync_worker.go and
--                    store/inmemory/pubsub_inmemory.go
--   Core/Keys        core/util.go, BuildKey of core/keybuilder.go, ruleKey of
--                    store/inmemory/db_inmemory.go
--   Store/Redis      store/inmemory/redis_inmemory.go: one child for each algorithm, and one for
--                    the pipeline
--   Store/RuleDb     store/inmemory/db_inmemory.go
--   Store/Outbox     store/inmemory/outbox_inmemory.go and a tick of the loop in
--                    core/outbox_publisher.go
--   Store/Admin      core/admin_handler.go over Store/RuleDb, Core/RuleCache and Store/Outbox, and
--                    InvalidationEvent of core/serialization.go
--   Transport/Http   transport/http/http_handlers.go and http_models.go; Transport/Http/Admin: the
--                    admin routes
--   Transport/Grpc   conversions, codes and authorization of transport/grpc; Transport/Grpc/Services:
--                    the methods of grpc_transport.go
--   Config           config/config.go and config/config_load.go: defaults and overrides; Config/Env:
--                    config/config_env.go; Config/Load: flags, file and LoadConfig
--   App              app/app.go: the checks and defaults of NewApplication
--   Observability    observability/metrics.go, and HashSampler of observability/tracing.go
-- What a part's child modules prove is said at their theorems; those called Examples hold the tests
-- and the theorems at concrete inputs.
--
-- State is passed explicitly: an operation takes the state and returns the new one. A method under a
-- mutex is one step. The clock is an argument: each operation takes the instants that it reads. A
-- pointer or interface that may be nil is an `Option`, an `int64` an integer whose sums wrap
-- explicitly, a `time.Duration` an integer of nanoseconds, a `time.Time` the nanoseconds since the
-- year 1, a Go map an association list, and a string the list of its bytes. No function needs fuel:
-- each loop is a structural recursion over a list or a number. Where goroutines meet in one object
-- (the tracker, a shard of the pool, a shard of the coalescer), a schedule says who goes on; the
-- handler's calls are whole steps over those objects.
--
-- Parameters: float64 with laws of IEEE 754 arithmetic (Base/Float), which whole numbers meet
-- (Base/Float/Whole); the redis client of a limiter; the hash of a request in the rule database
-- (crypto/sha256); the encoding and decoding of events, requests and configuration files
-- (encoding/json); packages strconv and flag, and the file system; the parser of a query; UnixMilli of
-- package time; the payloads of the outbox and the answers of its pubsub. strings.ToLower and
-- strings.TrimSpace are modelled on ASCII letters and spaces.
--
-- Not modelled: the pause for the QuiesceWindow in core/limiterpool.go, redis clients that return neither a decision nor an error, the pools of buffers, the tickers of the background loops and the health loop, the
-- starting and stopping of the transports, their health, readiness and metrics routes and the tracing
-- interceptor, the wiring of the objects in app/app.go and the chaos runner (app/chaos_runner.go), logs
-- and traces, and the two entry points under cmd. Contexts are seen only by the answers that they
-- change. The circuit breaker is modelled without interleavings of the atomic operations inside its
-- methods.
pub mod Base
pub mod Core
pub mod Store
pub mod Observability
pub mod Config
pub mod App
pub mod Transport
