-- ===== src/Schedule/Runtime/Nodes.antt =====
-- runtime_store.go: the statements on `node_queue`, and the snapshot of a topic.
use openmate.Base.{
  ℕ, GoString, codes, ◌=?◌, is_empty, trim_space, Option, none, some, List, [], ◌∷◌, ◌++◌, Bool,
  true, false, not, if◌then◌else◌, ◌&&◌, ◌||◌, any, Result, ok, err, ◌>>=◌, ◌>>◌, guard, or_fail,
  ◌+◌,
}
use openmate.Base.Int.{ℤ, pos, ◌==ℤ◌}
use openmate.Schedule.Types.{
  ready, succeeded, NodePriority, empty_topic_id, empty_node_id, validate_priority,
}
use openmate.Schedule.Runtime.{
  AgentSpec, TopicControlState, NodeQueueState, EnqueueRequest, WorkerPriorityAssignment, RuntimeDb,
  RuntimeError, invalid, priority_node_not_set, ids_required, empty_node_name, rank_mapped, Tx,
  run_tx, update_topic, is_row, update_node, set_nodes,
}
use openmate.Schedule.Runtime.Topics.{checked, ensure_topic, get_topic, set_topic_priority_node}

-- `strings.TrimSpace(request.SessionID)`, where "" is stored as null.
abbrev session_column : GoString → Option GoString
session_column raw = if is_empty (trim_space raw) then none else some (trim_space raw)

-- `ensurePriorityRankLabelMappingTx`: the label of another row of this rank, if there is one.
unfoldable pub rank_owner : GoString → GoString → ℤ → List NodeQueueState → Option GoString
rank_owner topic node rank [] = none
rank_owner topic node rank (row ∷ rows) =
    if (row.topic_id =? topic) && (row.priority_rank ==ℤ rank) && not (row.node_id =? node)
    then some row.priority_label
    else rank_owner topic node rank rows

unfoldable pub ensure_rank_mapping :
    GoString → GoString → NodePriority → RuntimeDb → Result RuntimeError (Unit {0})
unfolding rank_owner
ensure_rank_mapping topic node priority db = elim (rank_owner topic node priority.rank db.nodes) [
  | none ↦ ok tt
  | some label ↦ guard (label =? priority.label) (rank_mapped priority.rank label)
]

abbrev pub has_node : GoString → GoString → List NodeQueueState → Bool
has_node topic node = any (is_row topic node)

abbrev pub enqueued_row : EnqueueRequest → ℕ → NodeQueueState
enqueued_row request now = record {
  topic_id = request.topic_id;
  node_id = request.node_id;
  name = request.node_name;
  is_priority_node = false;
  priority_label = request.priority.label;
  priority_rank = request.priority.rank;
  status = ready;
  entered_priority_at = now;
  last_worked_at = none;
  agent_spec = request.agent_spec;
  session_id = session_column request.session_id;
  idempotency_key = request.idempotency_key;
  updated_at = now;
}

abbrev pub requeued : EnqueueRequest → ℕ → NodeQueueState → NodeQueueState
requeued request now row = record row {
  name = request.node_name;
  agent_spec = request.agent_spec;
  idempotency_key = request.idempotency_key;
  session_id = session_column request.session_id;
  priority_label = request.priority.label;
  priority_rank = request.priority.rank;
  entered_priority_at = now;
  status = ready;
  updated_at = now;
}

unfoldable pub mark_dirty : EnqueueRequest → ℕ → List TopicControlState → List TopicControlState
unfolding update_topic
mark_dirty request now rows =
    if request.mark_priority_dirty
    then update_topic request.topic_id (λ t. record t { priority_dirty = true; updated_at = now })
        rows
    else rows

-- The row is inserted, or the one that is there is updated.
unfoldable pub place : EnqueueRequest → ℕ → Bool → List NodeQueueState → List NodeQueueState
unfolding update_node trim_space
place request now true rows =
    update_node request.topic_id request.node_id (requeued request now) rows
place request now false rows = rows ++ enqueued_row request now ∷ []

-- The transaction of `UpsertEnqueueNode`: whether the node is new.
unfoldable pub enqueue_tx : EnqueueRequest → ℕ → Tx Bool
unfolding ensure_rank_mapping place mark_dirty
enqueue_tx request now db =
    ensure_rank_mapping request.topic_id request.node_id request.priority db
    >> (let old = has_node request.topic_id request.node_id db.nodes in
        ok (
          not old,
          record db {
            nodes = place request now old db.nodes;
            topics = mark_dirty request now db.topics;
          },
        ))

unfoldable pub validate_enqueue : EnqueueRequest → Result RuntimeError (Unit {0})
unfolding validate_priority
validate_enqueue request = do
  guard (not (is_empty request.topic_id)) (invalid empty_topic_id)
  guard (not (is_empty request.node_id)) (invalid empty_node_id)
  guard (not (is_empty request.node_name)) empty_node_name
  checked (validate_priority request.priority) tt

-- A statement or transaction that runs unless the one before it failed.
abbrev pub after_statement :
    {A : Type 0}
    → Option GoString
    → Tx A
    → Result RuntimeError (Unit {0}) × RuntimeDb
    → Result RuntimeError A × RuntimeDb
after_statement fault tx (err e, db) = (err e, db)
after_statement fault tx (ok u, db) = run_tx fault tx db

-- `UpsertEnqueueNode`: the topic is there also when the transaction fails. The first fault and the
-- first reading of the clock are those of `EnsureTopic`.
unfoldable pub upsert_enqueue_node :
    Option GoString
    → Option GoString
    → EnqueueRequest
    → ℕ
    → ℕ
    → RuntimeDb
    → Result RuntimeError Bool × RuntimeDb
unfolding validate_enqueue ensure_topic run_tx enqueue_tx
upsert_enqueue_node topic_fault fault request topic_now now db = elim (validate_enqueue request) [
  | err e ↦ (err e, db)
  | ok u ↦
      after_statement fault (enqueue_tx request now)
        (run_tx topic_fault (ensure_topic request.topic_id topic_now) db)
]

abbrev pub priority_row : GoString → GoString → AgentSpec → ℕ → NodeQueueState
priority_row topic node spec now = record {
  topic_id = topic;
  node_id = node;
  name = codes "__priority__";
  is_priority_node = true;
  priority_label = codes "priority";
  priority_rank = pos 0;
  status = ready;
  entered_priority_at = now;
  last_worked_at = none;
  agent_spec = spec;
  session_id = none;
  idempotency_key = codes "priority-node";
  updated_at = now;
}

abbrev pub as_priority_row : AgentSpec → ℕ → NodeQueueState → NodeQueueState
as_priority_row spec now row = record row {
  name = codes "__priority__";
  is_priority_node = true;
  priority_label = codes "priority";
  priority_rank = pos 0;
  agent_spec = spec;
  updated_at = now;
}

unfoldable pub place_priority :
    GoString → GoString → AgentSpec → ℕ → Bool → List NodeQueueState → List NodeQueueState
unfolding update_node
place_priority topic node spec now true rows =
    update_node topic node (as_priority_row spec now) rows
place_priority topic node spec now false rows = rows ++ priority_row topic node spec now ∷ []

-- The statement on the row in `UpsertPriorityNode`.
unfoldable pub insert_priority_node : GoString → GoString → AgentSpec → ℕ → Tx (Unit {0})
unfolding place_priority
insert_priority_node topic node spec now db =
    ok (
      tt,
      set_nodes (λ rows. place_priority topic node spec now (has_node topic node rows) rows) db,
    )

-- A fault, if the database does not serve a statement, and the clock at that statement.
abbrev pub Statement : Type 0
Statement = Option GoString × ℕ

-- `UpsertPriorityNode`: its three statements are `EnsureTopic`, that on the row, and
-- `SetTopicPriorityNode`. What those before a failed one wrote stays.
unfoldable pub upsert_priority_node :
    Statement
    → Statement
    → Statement
    → GoString
    → GoString
    → AgentSpec
    → RuntimeDb
    → Result RuntimeError (Unit {0}) × RuntimeDb
unfolding ensure_topic insert_priority_node set_topic_priority_node run_tx
upsert_priority_node ensure insert link topic node spec db =
    elim (is_empty topic || is_empty node) [
      | true ↦ (err ids_required, db)
      | false ↦ after_statement link.0 (set_topic_priority_node topic node link.1) (
          after_statement insert.0 (insert_priority_node topic node spec insert.1)
            (run_tx ensure.0 (ensure_topic topic ensure.1) db))
    ]

-- `MarkPriorityNodeReady`
unfoldable pub mark_priority_node_ready : GoString → ℕ → Tx (Unit {0})
unfolding get_topic update_node
mark_priority_node_ready topic now db = get_topic topic db >>= λ t.
    or_fail t.priority_node_id priority_node_not_set >>= λ node. ok (
      tt,
      set_nodes
          (update_node topic node (λ row. record row {
            status = ready;
            priority_rank = pos 0;
            priority_label = codes "priority";
            entered_priority_at = now;
            updated_at = now;
          }))
          db,
    )

-- The loop of `ApplyPriorityPlan`, one assignment; rows of priority nodes stay.
abbrev pub assign : WorkerPriorityAssignment → ℕ → NodeQueueState → NodeQueueState
assign a now row = if row.is_priority_node then row else record row {
  priority_label = a.label;
  priority_rank = a.rank;
  entered_priority_at = now;
  updated_at = now;
}

unfoldable pub assign_all :
    GoString → List WorkerPriorityAssignment → ℕ → List NodeQueueState → List NodeQueueState
unfolding update_node
assign_all topic [] now rows = rows
assign_all topic (a ∷ plan) now rows =
    assign_all topic plan now
      (if is_empty a.node_id then rows else update_node topic a.node_id (assign a now) rows)

abbrev pub planned_topic : ℕ → TopicControlState → TopicControlState
planned_topic now t = record t {
  priority_dirty = false;
  last_priority_error = none;
  priority_plan_version = t.priority_plan_version + 1;
  updated_at = now;
}

abbrev pub succeed_row : ℕ → NodeQueueState → NodeQueueState
succeed_row now row = record row { status = succeeded; updated_at = now }

unfoldable pub succeed_priority_node : GoString → ℕ → Option GoString → RuntimeDb → RuntimeDb
unfolding update_node
succeed_priority_node topic now none db = db
succeed_priority_node topic now (some node) db =
    set_nodes (update_node topic node (succeed_row now)) db

-- `ApplyPriorityPlan`
unfoldable pub apply_priority_plan : GoString → List WorkerPriorityAssignment → ℕ → Tx (Unit {0})
unfolding assign_all update_topic get_topic succeed_priority_node
apply_priority_plan topic plan now db =
    let db' = record db {
      nodes = assign_all topic plan now db.nodes;
      topics = update_topic topic (planned_topic now) db.topics;
    } in
    get_topic topic db' >>= λ t. ok (tt, succeed_priority_node topic now t.priority_node_id db')
