-- ===== src/Lib.antt =====
-- Openmate: the scheduler, the pool of model APIs, and the tree of nodes.
--
-- The program has three parts in Go. `internal/schedule` decides which nodes of a topic run next;
-- `internal/poolgateway` shares the configured model APIs between the invocations that the nodes
-- make; `internal/vos` keeps the tree of nodes that the scheduler works on.
--
-- Base: strings as lists of code points, in the byte order of Go's `<` for valid UTF-8; results
--   with an error; integers; the values of encoding/json.
-- Schedule.Types (internal/schedule/types.go): the snapshot of a topic, its normalization and its
--   validation. A pointer to a string is an Option, a set of ids is a list with a test `has`.
-- Schedule.Planner (internal/schedule/planner.go): `planTopicDispatch` and its helpers. The local
--   steps of that function (non-terminal nodes, highest rank, layer, candidates, current node,
--   filling of the slots) are functions of their own; `sort.Slice` is an insertion sort.
-- Schedule.Snapshots: what the validation of a snapshot gives the planner.
-- Schedule.Runtime (internal/schedule/runtime_store.go): the tables of the scheduler as lists of
--   decoded rows. Topics, Nodes and Work hold the statements; `run_tx` commits or rolls back, and a
--   database that refuses is the argument `fault`. The other modules below it are about these
--   statements: Running and Kept (running ids), Lookup, Finish, Snapshot. The statements of
--   UpsertEnqueueNode and UpsertPriorityNode have a fault each; the loop of PromoteAgedTopics is
--   served as a whole or not at all.
-- Schedule.Engine (internal/schedule/engine.go): a `Step` takes the tables and returns a value or
--   an error with the tables as they are then, since what was written before an error stays.
--   Enqueue is `Enqueue`, Dispatch is `dispatchOne`, Tick is `Tick`, Selection is `selectTopic` and
--   `loadPriorityCandidates`, Loop is the loop of `runLoop` (internal/schedule/cli.go), with fuel
--   for as many ticks as its flag allows. What the database, the clock, the gateway to VOS and the
--   worker answer to each call is in the records DispatchAnswers and TickAnswers. Invariant,
--   Reachable, Choice, Outcome, Failure, Progress, Starved and Ends are about these steps.
-- Vos.Types, Vos.Tree (internal/vos/domain/types.go, internal/vos/service/service.go): the state as
--   lists of keys and values, and CreateTopic, CreateNode (Create), MoveNode and DeleteNode as
--   functions of the loaded state. The object that a Go pointer refers to is the value under its
--   key. The loop of `ensureNoCycle` has fuel for one more step than there are nodes, which a path
--   in a tree never needs. Maps, Links, Growth, Rooted, Cycle, Paths and Kept are about the tree.
-- Pool.Types (internal/poolgateway/types.go, config.go): requests, responses, configurations. A
--   float64 is known by its bits only.
-- Pool.Store (internal/poolgateway/store.go): the three tables and the metadata as one record, and
--   each transaction as a function from the tables to an error or to a result with new tables. Sync
--   is `syncConfig`; Reserve is `reserveAttemptTx`; Complete holds the ends of attempts and
--   invocations; Load is the reading side. `with_immediate_tx` commits or rolls back; a database
--   that refuses is the argument `fault`. Ids, the clock and the hash of a configuration are
--   arguments too, and uniqueness of primary keys is checked where the tables check it. The other
--   modules below it are about these transactions: Tables, Leases, Selection, Reserved, Limits,
--   Synced, Slots, Offline.
-- Pool.Requests (internal/poolgateway/openai_responses.go): which requests are accepted.
-- Pool.Retry, Pool.Pricing (retry.go, pricing.go): the retry policy, with durations in 64 bits, and
--   the cost, over the float64 operations that are given.
-- Pool.Gateway (internal/poolgateway/gateway.go): `Invoke` and the loop of `invokeReserved`. A turn
--   of the loop ends in an answer or in the reservation of the next attempt. What the provider, the
--   clock, the wait and the database answer during an attempt is a `Round`; a cancelled context is
--   one whose database refuses. No other invocation changes the tables between the transactions of
--   one. The loop has fuel for as many turns as the policy allows, since `shouldRetry` refuses
--   another attempt beyond them.
--
-- Bounds: ranks, limits and timeouts are integers without a width, since the code only compares
-- them; durations and differences of token counts wrap around in 64 bits; counters of the tables
-- (leases, failures, slots) are natural numbers, as the CHECK constraints of the tables require. A
-- loop over rows, nodes or fields is by recursion on a list.
--
-- Not modelled: the providers' HTTP clients, the SQL encodings, logging, the command lines but for
-- the loop of `run`, the rest of the VOS service (updates of nodes and topics, permissions, memory,
-- sessions, the HTTP interface), the Python agent and the web interface.
pub mod Base
pub mod Pool
pub mod Schedule
pub mod Vos
