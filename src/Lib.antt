-- ===== src/Lib.antt =====
-- RailFog: a platform that runs functions, triggered over HTTP, by queues and by schedules, with
-- key-value, object and queue storage that is bound to them by capability.
--
-- The program's parts and how they interact. A gateway (apps/gateway) limits and forwards requests to
-- a runtime (apps/runtime, runtime), which loads a function from a deployment's artifact, runs it in a
-- sandbox within its limits (runtime/limits), and hands it bindings that packages/policy resolves from
-- the capabilities that it declares; each binding puts a prefix for the organisation, the project and
-- the resource before a provider's keys (providers, behind primitives). Workers (apps/worker) poll
-- queues and dispatch messages to functions. packages/policy also holds the circuit breaker, the retry
-- policy and the limiter that the other parts use. A control server (apps/api) keeps deployments;
-- the command line (cli) and the SDK (sdk) are its clients.
--
-- Which file models which part:
--   Prelude, with Tests, Lists, Codes, Texts, Table and Division: names, tests, lists, texts as lists of
--     code units, with what the code asks of JavaScript's strings, a `Map` with text keys as the list of its entries, and `Math.ceil` of a quotient.
--   Errors: packages/errors/mod.ts, and the result that stands for a call that may throw.
--   KvProvider: what the circuit breaker asks of a provider at one key, as a record of operations and
--     laws (primitives/kv); Providers/SqliteKv/Contract fills it with the SQLite provider.
--   Policy/CircuitBreaker: packages/policy/circuit-breaker.ts. `getState` is `get_state`, `mutateState`
--     is `mutate_state` (its turn is `attempt`), `recordSuccess` and `recordFailure` are `on_success`
--     and `on_failure`; Machine is the state machine without a store.
--   Policy/RateLimiter: packages/policy/rate-limiter.ts (`consume`, `acquireConcurrency`,
--     `releaseConcurrency`, `prune`).
--   Gateway/RateLimiter: apps/gateway/rate-limiter.ts (`check`, `reset`, `prune`).
--   Policy/Retry: packages/policy/retry.ts (`calculateNextSleep`, `withRetry`,
--     `isIdempotentRetryAllowed`).
--   Policy/Permissions: packages/policy/permission-resolver.ts (`normalizeDeclaredCapabilities`,
--     `resolvePermissions` and the keys that its bindings pass on).
--   Providers/KeyPath and Providers/SqliteKv: providers/kv/sqlite-provider.ts, the key paths and the
--     operations on the table, with the atomic builder's `commit`.
--   Providers/SqliteQueue: providers/queues/sqlite-queue-provider.ts (`send`, `sendBatch`, `receive`,
--     `ack`, `receiveDlq` and `deadLetter`).
--   Worker/QueueConsumer: apps/worker/queue-consumer.ts, both workers: `processNext`, the round of
--     `runLoop`, and `start`, `stop` and the loops as a step relation.
--   Runtime/OperationCounter and Runtime/KillEnforcer: runtime/limits/operation-counter.ts and
--     runtime/limits/kill-enforcer.ts.
--   Runtime/RouteMatcher: runtime/router/route-matcher.ts (`matchRoute` with its cache of patterns).
--   Runtime/Ipv4Address, Runtime/Ipv6Address and Runtime/EgressIpBlocker:
--     runtime/sandbox/egress-ip-blocker.ts, the parsers, and the blocker with `validateDestination`.
--   Providers/TenantGuard and Providers/GuardedProviders: providers/guard/tenant-guard.ts, the checks,
--     and the guarded providers; GuardedProviders/Runs puts them before the SQLite provider.
--   Core/Ulid: packages/core/id/ulid.ts.
--   Api/DeploymentService and Api/DeploymentState: apps/api/deployment-service.ts. `deploy` is split at
--     its probes into `begin_deploy` and `finish_deploy`, so that calls may come in between; the second
--     file has the rest of the class, with the snapshot that `schedulePersist` writes and `hydrate`
--     reads.
--   Protocol/RoutingSnapshot and Protocol/SnapshotDistributor: packages/protocol/snapshot.ts
--     (`validateRoutingSnapshot`, and the class that creates snapshots).
--   Runtime/SnapshotCache: runtime/snapshot/snapshot-cache.ts and runtime/snapshot/disk-snapshot-cache.ts;
--     it takes the validation from Protocol/RoutingSnapshot.
--   Runtime/CronMatcher: runtime/lifecycle/cron-matcher.ts.
-- Theorems at concrete inputs and tests by evaluation stand in the Examples of each part.
--
-- State is passed on explicitly, and a call that throws gives an error code. Times are whole
-- milliseconds. Where the code reads the clock in a loop, or other clients act in between, the model
-- takes what they do turn by turn as an argument.
--
-- Fuel. `mutate_state` and `receive` are the bodies of `while (true)` loops and take fuel, one for a
-- turn. Of `receive`, one turn more than the table has rows that are no dead letters is enough; of
-- `mutate_state`, one turn more than there are turns in which another client interferes, where the
-- versions in the store agree. `with_retry` has as many turns as the policy has attempts, and one; the
-- binary search of the log truncation as many as there are code units, and two; the loop
-- over the values of a cron range as many as its last value, and one.
--
-- JSON text. What is read of a snapshot that was written is what JSON text keeps of it: Runtime/SnapshotCache
-- writes it out for JSON values (`null` for a number that is not finite), and for the manifests of
-- the deployment service it is a parameter.
--
-- Not modelled. Writes of the snapshot cache's file that overlap, and a deployment state file
-- whose JSON text is not of the types that `hydrate` takes it for. Failures of SQLite, and
-- opening and closing its files; timers, and the cancelling of a sleep; the messages of errors.
-- Floating point: the limiters' tokens are counted in exact thousandths. `LIKE` of SQLite is a
-- parameter with its documented behaviour, and `URLPattern` one of which nothing is asked;
-- `trim`, `toUpperCase` and `toLowerCase` are those of ASCII text. The other parts of the program
-- are not modelled: the servers, the sandboxes and the remaining providers, the command line and
-- the SDK.
pub mod Api
pub mod Core
pub mod Errors
pub mod Gateway
pub mod KvProvider
pub mod Policy
pub mod Prelude
pub mod Protocol
pub mod Providers
pub mod Runtime
pub mod Worker
