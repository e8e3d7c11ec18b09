-- ===== src/Schedule/Runtime/Topics.antt =====
-- runtime_store.go: the statements on `topic_runtime`.
use openmate.Base.{
  ℕ, GoString, ◌=?◌, is_empty, Option, none, some, List, [], ◌∷◌, ◌++◌, Bool, true, false,
  if◌then◌else◌, leb, ◌==◌, any, Result, ok, err, ◌>>=◌, or_fail, ◌+◌,
}
use openmate.Schedule.Types.{
  TopicQueueLevel, l0, l1, l2, l3, other_level, empty_topic_id, Checked, validate_level,
}
use openmate.Schedule.Runtime.{
  TopicControlState, RuntimeDb, RuntimeError, invalid, not_found, Tx, nullable_to_string,
  nullable_string, find_topic, update_topic, set_topics,
}

abbrev pub has_topic : GoString → List TopicControlState → Bool
has_topic id = any (λ t. t.topic_id =? id)

abbrev pub new_topic : GoString → ℕ → TopicControlState
new_topic id now = record {
  topic_id = id;
  queue_level = l0;
  priority_dirty = true;
  priority_node_id = none;
  priority_plan_version = 0;
  last_priority_error = none;
  last_served_at = none;
  current_node_id = none;
  last_worked_node_id = none;
  last_worked_at = none;
  switch_count = 0;
  running_node_ids = [];
  updated_at = now;
}

-- `EnsureTopic`
unfoldable pub ensure_topic : GoString → ℕ → Tx (Unit {0})
ensure_topic id now db =
    if is_empty id
    then err (invalid empty_topic_id)
    else if has_topic id db.topics
    then ok (tt, db)
    else ok (tt, set_topics (λ rows. rows ++ new_topic id now ∷ []) db)

abbrev pub checked : {A : Type 0} → Checked → A → Result RuntimeError A
checked (ok u) a = ok a
checked (err e) a = err (invalid e)

-- `scanTopic`: a text column that is blank is null.
unfoldable pub scan_topic : TopicControlState → Result RuntimeError TopicControlState
unfolding validate_level nullable_to_string
scan_topic row = checked (validate_level row.queue_level) (record row {
  priority_node_id = nullable_to_string row.priority_node_id;
  last_priority_error = nullable_to_string row.last_priority_error;
  current_node_id = nullable_to_string row.current_node_id;
  last_worked_node_id = nullable_to_string row.last_worked_node_id;
})

-- `GetTopic` and `getTopicTx`
unfoldable pub get_topic : GoString → RuntimeDb → Result RuntimeError TopicControlState
unfolding scan_topic find_topic
get_topic id db = or_fail (find_topic id db.topics) not_found >>= scan_topic

unfoldable pub scan_topics : List TopicControlState → Result RuntimeError (List TopicControlState)
unfolding scan_topic
scan_topics [] = ok []
scan_topics (row ∷ rows) = scan_topic row >>= λ t. scan_topics rows >>= λ ts. ok (t ∷ ts)

-- `ListTopics`
abbrev pub list_topics : RuntimeDb → Result RuntimeError (List TopicControlState)
list_topics db = scan_topics db.topics

-- `SetTopicPriorityNode`
unfoldable pub set_topic_priority_node : GoString → GoString → ℕ → Tx (Unit {0})
unfolding update_topic
set_topic_priority_node topic node now db = ok (
  tt,
  set_topics (update_topic topic (λ t. record t { priority_node_id = some node; updated_at = now }))
      db,
)

-- `ClearPriorityDirty`
unfoldable pub clear_priority_dirty : GoString → Option GoString → ℕ → Tx (Unit {0})
unfolding update_topic nullable_string
clear_priority_dirty topic last_error now db = ok (
  tt,
  set_topics
      (update_topic topic (λ t. record t {
        priority_dirty = false;
        last_priority_error = nullable_string last_error;
        updated_at = now;
      }))
      db,
)

-- `EnsurePriorityDirty`
unfoldable pub ensure_priority_dirty : GoString → GoString → ℕ → Tx (Unit {0})
unfolding update_topic
ensure_priority_dirty topic reason now db = ok (
  tt,
  set_topics
      (update_topic topic (λ t. record t {
        priority_dirty = true;
        last_priority_error = some reason;
        updated_at = now;
      }))
      db,
)

-- `SetTopicQueueLevel`
unfoldable pub set_topic_queue_level : GoString → TopicQueueLevel → ℕ → Tx (Unit {0})
unfolding validate_level update_topic
set_topic_queue_level topic level now db = checked (validate_level level) (
  tt,
  set_topics (update_topic topic (λ t. record t { queue_level = level; updated_at = now })) db,
)

-- `TouchTopicServed`
unfoldable pub touch_topic_served : GoString → ℕ → Tx (Unit {0})
unfolding update_topic
touch_topic_served topic now db = ok (
  tt,
  set_topics (update_topic topic (λ t. record t { last_served_at = some now; updated_at = now }))
      db,
)

unfoldable pub promote_level : TopicQueueLevel → TopicQueueLevel
promote_level l3 = l2
promote_level l2 = l1
promote_level l1 = l0
promote_level _ = l0

unfoldable pub demote_level : TopicQueueLevel → TopicQueueLevel
demote_level l0 = l1
demote_level l1 = l2
demote_level l2 = l3
demote_level _ = l3

-- `queueLevelOrder` of engine.go
unfoldable pub queue_level_order : TopicQueueLevel → ℕ
queue_level_order l0 = 0
queue_level_order l1 = 1
queue_level_order l2 = 2
queue_level_order _ = 3

-- `level == topic.QueueLevel`
unfoldable pub same_level : TopicQueueLevel → TopicQueueLevel → Bool
same_level l0 l0 = true
same_level l1 l1 = true
same_level l2 l2 = true
same_level l3 l3 = true
same_level (other_level a) (other_level b) = a =? b
same_level _ _ = false

unfoldable pub move_topic : (TopicQueueLevel → TopicQueueLevel) → GoString → ℕ → Tx (Unit {0})
unfolding get_topic same_level set_topic_queue_level
move_topic move id now db = get_topic id db >>= λ topic.
    if same_level (move topic.queue_level) topic.queue_level
    then ok (tt, db)
    else set_topic_queue_level id (move topic.queue_level) now db

-- `PromoteTopic`
unfoldable pub promote_topic : GoString → ℕ → Tx (Unit {0})
unfolding promote_level move_topic
promote_topic = move_topic promote_level

-- `DemoteTopic`
unfoldable pub demote_topic : GoString → ℕ → Tx (Unit {0})
unfolding demote_level move_topic
demote_topic = move_topic demote_level

-- The topic has waited: `now.Sub(*topic.LastServedAt) >= threshold`.
unfoldable pub is_aged : ℕ → ℕ → Option ℕ → Bool
is_aged threshold now none = false
is_aged threshold now (some served) = leb (served + threshold) now

-- The loop over the topics; a promotion that fails ends it, and those before it stay.
unfoldable pub promote_all :
    ℕ → ℕ → List TopicControlState → RuntimeDb → Result RuntimeError (Unit {0}) × RuntimeDb
unfolding is_aged promote_topic
promote_all threshold now [] db = (ok tt, db)
promote_all threshold now (topic ∷ topics) db = elim (is_aged threshold now topic.last_served_at) [
  | false ↦ promote_all threshold now topics db
  | true ↦ elim (promote_topic topic.topic_id now db) [
    | ok (u, db') ↦ promote_all threshold now topics db'
    | err e ↦ (err e, db)
  ]
]

-- `PromoteAgedTopics`, at a threshold that is not negative.
unfoldable pub promote_aged_topics : ℕ → ℕ → RuntimeDb → Result RuntimeError (Unit {0}) × RuntimeDb
unfolding promote_all scan_topics
promote_aged_topics threshold now db =
    if threshold == 0 then (ok tt, db) else elim (list_topics db) [
      | ok topics ↦ promote_all threshold now topics db
      | err e ↦ (err e, db)
    ]
