-- ===== src/Lib.antt =====
-- The core of trust-router, a router of tool calls that keeps health, costs and a cache per tenant.
--
-- The parts and their files:
--
--   Admission (src/admission.rs): the process-local limits. `admit` gives a permit, dropping it is
--     `release`; the mutex makes each method one step, so interleavings are sequences of steps.
--   Health (src/lib.rs): the circuit breaker of a node, `HealthTracker`, with its policy. Times are
--     numbers that each call is given; the u32 counters wrap around as in the release build.
--   Cost (src/lib.rs): cost models and the weight of an edge.
--   Graph (src/lib.rs): `ToolGraph`, names interned as indices, and `shortest_path`. An index out of
--     range is an outcome of its own. The binary heap is a list whose `pop` takes a greatest entry.
--   Audit (src/lib.rs): events, decisions and `AuditPipeline`, the ring of the latest events.
--   Tenant (src/lib.rs): `TenantState`, with the route cache, its queue of keys and its invalidation.
--   Backend (src/backend.rs, src/backend_registry.rs): the backend trait as a record of functions, the
--     mock backend, and the registry that executes only what a backend declared.
--   Router (src/lib.rs): the methods of `Router`, each a step on the tenants and the ring. `route` is
--     its fast path under the read lock, then its slow path under the write lock.
--   Kv (src/kv.rs): the registries of models and of transfer measurements, and `select`.
--   Inference (src/inference.rs): `try_decide` and `decide` over candidates.
--   Capacity (src/capacity.rs): compute nodes and the ones that can take a request; it uses the model
--     references of Kv, as Inference does.
--   Placement (src/system_planning.rs): `SystemPlanner::decide`, over Capacity, Backend and Inference.
--   Trace (src/decision_trace.rs): the bounded trace of such a decision.
--   Planner, Recovery (src/planner.rs, src/escalation.rs): plans of routes and of escalations.
--   Execution, Monitor (src/execution.rs, src/health_monitor.rs): the coordinator, and the monitor,
--     whose task records in the router what is sent through a channel. Senders, the task and other
--     callers of the router are interleaved events. The channel is an instance argument, `Channel`;
--     Monitor/Fifo names what is used of it, Monitor/Listed has a list that meets that, and
--     Monitor/History is the specification, which has no channel.
--   Intelligence (src/intelligence.rs): observations and the world state (World), predictions
--     (Prediction, Errors), the ranking of candidates and the firewall (Candidates) and the memory of
--     decisions (Memory).
--   Fabric (src/fabric.rs): transports as records of functions, decisions and plans; Gate, the
--     lock-free admission counters, whose atomic operations interleave; Queue, Lifecycle, Lease and
--     Chain, the audit chain.
--   Pipeline (src/pipeline.rs): `process_request`. Candidates and Screen have stages 4 to 6, Stages
--     what a stage makes of the ones before it, Choose the selection, and Run the order of the stages
--     with every early return.
--   Prelude: numbers, lists, texts as bytes, results, maps, orders, sorting, the clock and floats.
--
-- A client decides on a route (Router), which reads the tenant's cache (Tenant) or searches the
-- graph (Graph) with the costs (Cost) and penalties (Health), and reports to the ring (Audit).
-- A planner wraps the route in a plan, the coordinator executes it at a backend and reports the
-- outcome through the monitor to the router. A request of the pipeline passes the admission
-- (Admission), reads the world state (Intelligence), makes candidates of the registry and the
-- capacity (Backend, Capacity), passes them through the firewall, calls a transport and appends to
-- the audit chain (Fabric). A call of the pipeline is modelled as if no other request ran into it.
--
-- Floats are an instance argument, `Floats`; `IsIeee` names what the proofs use of IEEE 754, and
-- Prelude/Float/Fixed gives decimal numbers that meet it, on which the examples run. A HashMap is an
-- association list in the order of insertion; a BTreeMap is a list in the order of its keys.
--
-- Bounds and fuel: the search turns once for each entry that it pops from the heap; each edge out of
-- a node is relaxed once and pushes at most one entry, and there is one entry at the start, so
-- `shortest_path` gives the number of edges and two. The way back gives the number of nodes and one.
-- Both are enough on every graph whose names are interned, which the graphs that `add_edge` builds
-- are: see the results of Graph/Weigh and Graph/Added.
--
-- The clock is an argument of each call that reads it: an age that the clock does not give, since the
-- time lies ahead, counts as stale. What third-party code computes is an argument: the digest of the
-- audit chain, the text of a float, the answers of a transport, the channel of the monitor.
--
-- Not modelled: the JSON lines and files of the audit, the timer loops, the HTTP handlers of the
-- sidecar, its tools and the SDKs, which are input and output around the library; the configuration
-- and the rate limit of the sidecar; src/control_plane.rs and src/evaluation.rs; the fields of the
-- pipeline's engine that no request reads, and the metric counters of the fabric.
pub mod Admission
pub mod Audit
pub mod Backend
pub mod Capacity
pub mod Cost
pub mod Execution
pub mod Fabric
pub mod Graph
pub mod Health
pub mod Inference
pub mod Intelligence
pub mod Kv
pub mod Monitor
pub mod Pipeline
pub mod Placement
pub mod Planner
pub mod Prelude
pub mod Recovery
pub mod Router
pub mod Tenant
pub mod Trace
