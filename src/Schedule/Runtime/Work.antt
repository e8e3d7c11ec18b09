-- ===== src/Schedule/Runtime/Work.antt =====
-- runtime_store.go: the statements around the work on a node, and the snapshot of a topic.
use openmate.Base.{
  ℕ, GoString, ◌=?◌, is_empty, trim_space, Option, none, some, List, [], ◌∷◌, ◌++◌, map, Bool, true,
  false, not, if◌then◌else◌, ◌&&◌, ◌||◌, ltb, count, keep, Result, ok, ◌>>=◌, or_fail, ◌+◌,
}
use openmate.Base.Int.{pos}
use openmate.Schedule.Types.{
  NodeStatus, running, TopicNode, TopicRuntimeState, TopicSnapshot, normalize_snapshot,
  validate_snapshot,
}
use openmate.Schedule.Planner.{status_is_terminal, status_blocks_dispatch}
use openmate.Schedule.Runtime.{
  TopicControlState, NodeQueueState, DispatchRecord, RuntimeDb, RuntimeError, not_found, Tx,
  find_topic, update_topic, find_node, update_node, set_topics, set_nodes, nullable_to_string,
}
use openmate.Schedule.Runtime.Topics.{checked, get_topic}

-- `scanNode`
unfoldable pub scan_node : NodeQueueState → NodeQueueState
unfolding nullable_to_string
scan_node row = record row { session_id = nullable_to_string row.session_id }

-- `ListNodes`
unfoldable pub list_nodes : GoString → RuntimeDb → List NodeQueueState
unfolding scan_node
list_nodes topic db = map scan_node (keep (λ row. row.topic_id =? topic) db.nodes)

-- `GetNode`
unfoldable pub get_node : GoString → GoString → RuntimeDb → Result RuntimeError NodeQueueState
unfolding find_node scan_node
get_node topic node db =
    or_fail (find_node topic node db.nodes) not_found >>= λ row. ok (scan_node row)

-- `SetNodeSessionID`
unfoldable pub set_node_session_id : GoString → GoString → GoString → ℕ → Tx (Unit {0})
unfolding update_node
set_node_session_id topic node session now db = ok (
  tt,
  set_nodes
      (update_node topic node (λ row. record row { session_id = some session; updated_at = now }))
      db,
)

abbrev pub is_running : NodeStatus → Bool
is_running running = true
is_running _ = false

-- `SELECT node_id FROM node_queue WHERE topic_id = ? AND status = 'running'`
unfoldable pub running_ids : GoString → List NodeQueueState → List GoString
running_ids topic [] = []
running_ids topic (row ∷ rows) =
    if (row.topic_id =? topic) && is_running row.status
    then row.node_id ∷ running_ids topic rows
    else running_ids topic rows

-- `syncTopicRunningNodeIDsTx`: an empty current node leaves the one that is there.
unfoldable pub sync_running : GoString → GoString → ℕ → RuntimeDb → RuntimeDb
unfolding running_ids update_topic
sync_running topic current now db =
    set_topics
      (update_topic topic (λ t. record t {
        running_node_ids = running_ids topic db.nodes;
        current_node_id = if is_empty current then t.current_node_id else some current;
        updated_at = now;
      }))
      db

abbrev pub start_row : ℕ → NodeQueueState → NodeQueueState
start_row now row = record row { status = running; updated_at = now }

-- `MarkNodeRunning`
unfoldable pub mark_node_running : GoString → GoString → ℕ → Tx (Unit {0})
unfolding update_node sync_running
mark_node_running topic node now db =
    ok (tt, sync_running topic node now (set_nodes (update_node topic node (start_row now)) db))

-- `currentNode == nil || *currentNode != nodeID`, where a blank current node is nil.
abbrev pub switches : GoString → Option GoString → Bool
switches node none = true
switches node (some current) = is_empty (trim_space current) || not (current =? node)

abbrev pub worked : GoString → ℕ → TopicControlState → TopicControlState
worked node now t = record t {
  last_worked_node_id = some node;
  last_worked_at = some now;
  current_node_id = some node;
  switch_count = t.switch_count + (if switches node t.current_node_id then 1 else 0);
  updated_at = now;
}

abbrev pub finish_row : NodeStatus → ℕ → NodeQueueState → NodeQueueState
finish_row status now row = record row {
  status = status;
  last_worked_at = some now;
  updated_at = now;
}

-- `MarkNodeFinished`
unfoldable pub mark_node_finished : GoString → GoString → NodeStatus → ℕ → Tx (Unit {0})
unfolding update_node sync_running find_topic update_topic trim_space
mark_node_finished topic node status now db =
    let db' =
      sync_running topic [] now (set_nodes (update_node topic node (finish_row status now)) db) in
    or_fail (find_topic topic db'.topics) not_found >>= λ t.
    ok (tt, set_topics (update_topic topic (worked node now)) db')

-- `RecordDispatch`
unfoldable pub record_dispatch : DispatchRecord → Tx (Unit {0})
record_dispatch r db = ok (tt, record db { history = db.history ++ r ∷ [] })

-- The statuses that `HasRunnableNodes` does not count.
abbrev pub is_runnable : NodeStatus → Bool
unfolding status_is_terminal status_blocks_dispatch
is_runnable status = not (status_is_terminal status) && not (status_blocks_dispatch status)

-- `HasRunnableNodes`
unfoldable pub has_runnable_nodes : GoString → RuntimeDb → Bool
unfolding status_is_terminal status_blocks_dispatch is_runnable
has_runnable_nodes topic db =
    ltb 0 (count (λ row. (row.topic_id =? topic) && is_runnable row.status) db.nodes)

abbrev pub to_topic_node : NodeQueueState → TopicNode
to_topic_node row = record {
  node_id = row.node_id;
  name = row.name;
  priority = record { label = row.priority_label; rank = row.priority_rank };
  status = row.status;
  entered_priority_at = row.entered_priority_at;
  last_worked_at = row.last_worked_at;
}

abbrev pub to_runtime_state : TopicControlState → TopicRuntimeState
to_runtime_state t = record {
  topic_id = t.topic_id;
  active_priority = none;
  current_node_id = t.current_node_id;
  running_node_ids = t.running_node_ids;
  last_worked_node_id = t.last_worked_node_id;
  last_worked_at = t.last_worked_at;
  switch_count = pos t.switch_count;
  priority_dirty = t.priority_dirty;
}

abbrev pub to_snapshot : TopicControlState → List NodeQueueState → TopicSnapshot
to_snapshot t rows = record {
  topic_id = t.topic_id;
  queue_level = t.queue_level;
  nodes = map to_topic_node rows;
  runtime = to_runtime_state t;
}

-- `BuildTopicSnapshot`
unfoldable pub build_topic_snapshot : GoString → ℕ → RuntimeDb → Result RuntimeError TopicSnapshot
unfolding get_topic list_nodes normalize_snapshot validate_snapshot
build_topic_snapshot topic now db = get_topic topic db >>= λ t.
    let snapshot = normalize_snapshot now (to_snapshot t (list_nodes topic db)) in
    checked (validate_snapshot snapshot) snapshot
