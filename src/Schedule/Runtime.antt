-- ===== src/Schedule/Runtime.antt =====
-- internal/schedule/runtime_store.go and contracts.go: the tables of the scheduler as lists of rows,
-- in the order of their row ids. A row is the decoded form of its columns. Each statement or
-- transaction is a function of the tables; it is given the instant at which it reads the clock.
pub mod Topics
pub mod Nodes
pub mod Work
pub mod Running
pub mod Rows
pub mod Kept
pub mod Snapshot
pub mod Lookup
pub mod Finish
use openmate.Base.{
  ℕ, GoString, ◌=?◌, is_empty, trim_space, Option, none, some, List, [], ◌∷◌, Bool, true, false,
  if◌then◌else◌, ◌&&◌, any, Result, ok, err,
}
use openmate.Base.Int.{ℤ}
use openmate.Schedule.Types.{TopicQueueLevel, NodeStatus, NodePriority, ValidationError}

pub record AgentSpec : Type 0 where
  pub mode : GoString
  pub workspace_root : GoString
  pub pool_db_file : GoString
  pub pool_model_config : GoString
  pub pool_binary : GoString
  pub api_id : GoString
  pub vos_state_file : GoString
  pub vos_session_db : GoString
  pub vos_binary : GoString
  pub use_session_event : Bool

-- A row of `topic_runtime`, which is also what `TopicControlState` holds.
pub record TopicControlState : Type 0 where
  pub topic_id : GoString
  pub queue_level : TopicQueueLevel
  pub priority_dirty : Bool
  pub priority_node_id : Option GoString
  pub priority_plan_version : ℕ
  pub last_priority_error : Option GoString
  pub last_served_at : Option ℕ
  pub current_node_id : Option GoString
  pub last_worked_node_id : Option GoString
  pub last_worked_at : Option ℕ
  pub switch_count : ℕ
  pub running_node_ids : List GoString
  pub updated_at : ℕ

-- A row of `node_queue`.
pub record NodeQueueState : Type 0 where
  pub topic_id : GoString
  pub node_id : GoString
  pub name : GoString
  pub is_priority_node : Bool
  pub priority_label : GoString
  pub priority_rank : ℤ
  pub status : NodeStatus
  pub entered_priority_at : ℕ
  pub last_worked_at : Option ℕ
  pub agent_spec : AgentSpec
  pub session_id : Option GoString
  pub idempotency_key : GoString
  pub updated_at : ℕ

pub record DispatchRecord : Type 0 where
  pub request_id : GoString
  pub topic_id : GoString
  pub node_id : GoString
  pub node_kind : GoString
  pub session_id : GoString
  pub event_id : GoString
  pub status : GoString
  pub retryable : Bool
  pub error : GoString
  pub duration_ms : ℤ

pub record EnqueueRequest : Type 0 where
  pub topic_id : GoString
  pub node_id : GoString
  pub node_name : GoString
  pub session_id : GoString
  pub agent_spec : AgentSpec
  pub priority : NodePriority
  pub idempotency_key : GoString
  pub mark_priority_dirty : Bool

pub record WorkerPriorityAssignment : Type 0 where
  pub node_id : GoString
  pub label : GoString
  pub rank : ℤ

pub record RuntimeDb : Type 0 where
  pub topics : List TopicControlState
  pub nodes : List NodeQueueState
  pub history : List DispatchRecord

pub data RuntimeError : Type 0 where
  invalid : ValidationError → RuntimeError
  not_found priority_node_not_set ids_required empty_node_name : RuntimeError
  rank_mapped : ℤ → GoString → RuntimeError
  database_fault : GoString → RuntimeError

abbrev pub Tx : Type 0 → Type 0
Tx A = RuntimeDb → Result RuntimeError (A × RuntimeDb)

-- One statement or transaction: it is committed, or after an error the tables are as before. `fault`
-- is what the database answers if it does not serve the call.
unfoldable pub run_tx :
    {A : Type 0} → Option GoString → Tx A → RuntimeDb → Result RuntimeError A × RuntimeDb
run_tx (some fault) tx db = (err (database_fault fault), db)
run_tx none tx db = elim (tx db) [ ok (a, db') ↦ (ok a, db') | err e ↦ (err e, db) ]

-- `nullableToStringPtr`
unfoldable pub nullable_to_string : Option GoString → Option GoString
unfolding trim_space
nullable_to_string none = none
nullable_to_string (some raw) = if is_empty (trim_space raw) then none else some (trim_space raw)

-- `nullableString`
unfoldable pub nullable_string : Option GoString → Option GoString
unfolding trim_space
nullable_string none = none
nullable_string (some raw) = if is_empty (trim_space raw) then none else some raw

unfoldable pub find_topic : GoString → List TopicControlState → Option TopicControlState
find_topic id [] = none
find_topic id (row ∷ rows) = if row.topic_id =? id then some row else find_topic id rows

unfoldable pub update_topic :
    GoString
    → (TopicControlState → TopicControlState)
    → List TopicControlState
    → List TopicControlState
update_topic id f [] = []
update_topic id f (row ∷ rows) =
    (if row.topic_id =? id then f row else row) ∷ update_topic id f rows

-- `topic_id = ? AND node_id = ?`
abbrev pub is_row : GoString → GoString → NodeQueueState → Bool
is_row topic node row = (row.topic_id =? topic) && (row.node_id =? node)

unfoldable pub find_node : GoString → GoString → List NodeQueueState → Option NodeQueueState
find_node topic node [] = none
find_node topic node (row ∷ rows) =
    if is_row topic node row then some row else find_node topic node rows

unfoldable pub update_node :
    GoString
    → GoString
    → (NodeQueueState → NodeQueueState)
    → List NodeQueueState
    → List NodeQueueState
update_node topic node f [] = []
update_node topic node f (row ∷ rows) =
    (if is_row topic node row then f row else row) ∷ update_node topic node f rows

abbrev pub set_topics : (List TopicControlState → List TopicControlState) → RuntimeDb → RuntimeDb
set_topics f db = record db { topics = f db.topics }

abbrev pub set_nodes : (List NodeQueueState → List NodeQueueState) → RuntimeDb → RuntimeDb
set_nodes f db = record db { nodes = f db.nodes }
