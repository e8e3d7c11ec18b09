-- ===== src/Schedule/Engine.antt =====
-- internal/schedule/engine.go and contracts.go: the engine over the tables. A step takes the tables
-- and returns a value or an error, with the tables as they are then: what was written before an
-- error stays.
pub mod Selection
pub mod Enqueue
pub mod Dispatch
pub mod Tick
pub mod Invariant
pub mod Reachable
pub mod Choice
pub mod Outcome
pub mod Failure
pub mod Progress
pub mod Loop
pub mod Starved
pub mod Ends
mod Tests
use openmate.Base.{
  ℕ, GoString, codes, ◌=?◌, is_empty, Option, none, some, List, [], ◌∷◌, ◌++◌, Bool, true, false,
  not, if◌then◌else◌, ◌&&◌, ◌||◌, ltb, ◌==◌, keep, map, Result, ok, err,
}
use openmate.Base.Int.{ℤ, pos, negsuc, ltb_ℤ, ◌==ℤ◌}
use openmate.Schedule.Types.{
  NodeStatus, ready, retry_cooldown, succeeded, failed, TopicQueueLevel, NodePriority,
  ValidationError, empty_topic_id, empty_node_id, validate_priority, DispatchPlan,
}
use openmate.Schedule.Planner.{status_is_terminal, plan_topic_dispatch}
use openmate.Schedule.Runtime.{
  AgentSpec, TopicControlState, NodeQueueState, DispatchRecord, EnqueueRequest,
  WorkerPriorityAssignment, RuntimeDb, RuntimeError, database_fault, Tx, run_tx,
}
use openmate.Schedule.Runtime.Topics.{
  get_topic, clear_priority_dirty, touch_topic_served, demote_topic, promote_aged_topics,
}
use openmate.Schedule.Runtime.Nodes.{
  upsert_enqueue_node, upsert_priority_node, mark_priority_node_ready, apply_priority_plan,
}
use openmate.Schedule.Runtime.Work.{
  get_node, set_node_session_id, mark_node_running, mark_node_finished, record_dispatch,
  has_runnable_nodes, build_topic_snapshot,
}
use openmate.Schedule.Engine.Selection.{select_topic, load_priority_candidates, WorkerCandidateNode}

pub data EngineError : Type 0 where
  store_error : RuntimeError → EngineError
  refused : ValidationError → EngineError
  fixed_priority bad_limit : EngineError
  priority_node_error session_error event_error worker_error : GoString → EngineError

abbrev pub Step : Type 0 → Type 0
Step A = RuntimeDb → Result EngineError A × RuntimeDb

abbrev pub continue :
    {A B : Type 0}
    → (A → Step B)
    → Result EngineError A × RuntimeDb
    → Result EngineError B × RuntimeDb
continue next (ok a, db) = next a db
continue next (err e, db) = (err e, db)

infixl 5 ◌>>=◌ ◌>>◌
unfoldable pub ◌>>=◌ : {A B : Type 0} (first : Step A) (next : A → Step B) → Step B
(first >>= next) db = continue next (first db)

abbrev pub ◌>>◌ : {B : Type 0} (first : Step (Unit {0})) (next : Step B) → Step B
first >> next = first >>= λ _. next

abbrev pub return : {A : Type 0} → A → Step A
return a db = (ok a, db)

abbrev pub fail : {A : Type 0} → EngineError → Step A
fail e db = (err e, db)

-- What the database answers to one call: a fault, if it does not serve it, and the clock.
pub record Call : Type 0 where
  pub fault : Option GoString
  pub now : ℕ

abbrev pub lift :
    {A : Type 0} → Result RuntimeError A × RuntimeDb → Result EngineError A × RuntimeDb
lift (ok a, db) = (ok a, db)
lift (err e, db) = (err (store_error e), db)

-- A statement or transaction that writes.
unfoldable pub write : {A : Type 0} → Call → (ℕ → Tx A) → Step A
unfolding run_tx
write call tx db = lift (run_tx call.fault (tx call.now) db)

abbrev pub answered : {A : Type 0} → Option GoString → Result RuntimeError A → Result EngineError A
answered (some text) r = err (store_error (database_fault text))
answered none (ok a) = ok a
answered none (err e) = err (store_error e)

-- A query.
abbrev pub query : {A : Type 0} → Call → (RuntimeDb → Result RuntimeError A) → Step A
query call read db = (answered call.fault (read db), db)

abbrev pub asked :
    {A : Type 0} → (GoString → EngineError) → Result GoString A → Result EngineError A
asked failure (ok a) = ok a
asked failure (err text) = err (failure text)

-- A call of a gateway, which does not write to the tables.
abbrev pub ask : {A : Type 0} → (GoString → EngineError) → Result GoString A → Step A
ask failure r db = (asked failure r, db)

abbrev pub check : Bool → EngineError → Step (Unit {0})
check true e db = (ok tt, db)
check false e db = (err e, db)

abbrev pub checked_step : Result ValidationError (Unit {0}) → Step (Unit {0})
checked_step (ok u) db = (ok tt, db)
checked_step (err e) db = (err (refused e), db)
