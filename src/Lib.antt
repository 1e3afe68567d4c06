-- ===== src/Lib.antt =====
-- STAIR-PLATFORM: the engineering core of a platform for the design of staircases.
--
-- The platform keeps engineering objects (internal/domain/engineering) in a dependency graph
-- (internal/engine/graph), recomputes what depends on a change, prices the result
-- (internal/domain/pricing, internal/engine/pricing) and serves it behind a rate limiter, a
-- circuit breaker, a cache and an event store (internal/infrastructure). Each file models the code
-- that its first comment names; names follow the source in snake_case.
--
-- - Prelude and its children: tests, lists, maps, sets, the order of texts, integers, chains of
--   guards, the interface to float64. `Prelude.Order` has `sortStrings` of
--   internal/engine/graph/graph.go.
-- - Breaker: internal/infrastructure/circuitbreaker/breaker.go. The record is the struct; each
--   method is a function from the old record to the new one, with what the clock reads as an
--   argument. Invariant and Recovery have its theorems.
-- - Graph: internal/engine/graph/graph.go; Traversal and Topology: traversal.go; Plan:
--   scheduler.go; Snapshot: snapshot.go. A map is an association list whose order is the order of
--   iteration. Search has the theorems on searches, Topology and its children those on Kahn's
--   algorithm, Plan and its children those on the recomputation, and Building those on the graphs
--   that additions build. Keys has the default ids of edges, Removal and its children the graphs
--   that all updates build, and the children of Snapshot those that Restore builds.
-- - Parametric: internal/geometry/model.go and param.go, the parameters of a model over Graph and
--   Plan. A formula is an argument. Sound has the invariant, Methods what the methods keep of it.
-- - Manufacturing: Stock for the stock sheets of internal/domain/manufacturing/nesting.go; Nesting
--   for `nestGroup` of internal/engine/manufacturing/nest.go, with Picking for the choice of a sheet
--   and Groups for `Nest`. The theorems on one group are in Shelves, Sheets and Parts, those on the
--   whole in Chosen, Keys, Laid, Enough and Complete.
-- - Engineering: internal/domain/engineering, with Revision, Parameter, Object, Project and Stair
--   for the files of these names.
-- - Pricing: Money for internal/domain/pricing/money.go and rate.go, Breakdown for pricing.go, and
--   Engine for internal/engine/pricing/pricing.go, which calls both. Extended is extended.go.
-- - RateLimit: internal/infrastructure/security/ratelimit.go.
-- - Events: Store for internal/infrastructure/events/store.go, DeadLetters for dlq.go, Bus for
--   bus.go and Retry for retry.go. What a handler does at each attempt is an argument of the bus.
-- - Cache: internal/infrastructure/cache/cache.go.
-- - Scheduler: internal/engine/scheduler/scheduler.go. A goroutine is a phase, and an interleaving
--   is a list of moves; `execute` runs the list and reads the slots once all have ended.
-- - Documents: internal/domain/document/document.go, and Package for package.go.
-- - Constraints: internal/engine/constraint/constraint.go, with Standard and Integrity for
--   standard.go. Validation: internal/engine/validation, which checks a staircase by them, with
--   Admitted for any rules and Standard for those of the standard profile.
-- - Pipeline: internal/engine/pipeline/orchestrator.go. The code of a stage is a function on the
--   context; the events are those that the orchestrator stores.
-- - Queue: internal/infrastructure/queue/queue.go; encoding/json is an argument.
-- - Payments: internal/application/payments/entity.go and service.go. The repository is an
--   interface, and IsRepository of Settled is the contract that its comments state, with the
--   journal of events as a function of the store.
--
-- Bounds and fuel. Money and rates are int64 with their wrap-around written out, versions and
-- replay ids are uint64; counters and times are natural numbers. The recursion of `dfs` has the
-- number of nodes and two more as fuel: each level marks a new id, and all but the start are nodes.
-- `release` has six rounds of fuel: at most five transitions lead to the state released. `bfs`
-- and Kahn's loop have a round for each id that their queue can hold.
--
-- A method that holds a mutex for its whole body is one step, so an interleaving of goroutines is
-- a sequence of steps. Clocks, random ids, hashes and the operations of float64 are arguments. What
-- a theorem needs of the floats is the record IsOrdered of Prelude.Floats.
--
-- Not modelled: metrics, logs, HTTP, GraphQL, WebSocket, storage and payment adapters, which are
-- input and output; the geometry, solver and optimisation engines, which are float computations;
-- the conversions between money and floats; the bill of materials and the manufacturing package,
-- the catalogue of stock sheets, the rendering of documents and the other application services.
mod Prelude
pub mod Breaker
pub mod Graph
pub mod Engineering
pub mod Pricing
pub mod RateLimit
pub mod Events
pub mod Cache
pub mod Scheduler
pub mod Documents
pub mod Validation
pub mod Constraints
pub mod Pipeline
pub mod Queue
pub mod Manufacturing
pub mod Parametric
pub mod Payments
