-- ===== src/Schedule/Runtime/Kept.antt =====
-- runtime_store.go: every statement keeps the running ids and the rows in agreement.
pub mod Requests
use openmate.Base.{
  ℕ, GoString, ◌=?◌, is_empty, Option, none, some, List, [], ◌∷◌, Bool, true, false, not, ◌≡◌, refl,
  ◌||◌, arith, Bool-cases, Result-cases, subst, ◌==◌, inl, inr, any-append, Result, ok, err, ◌>>=◌,
  or_fail, guard,
}
use openmate.Schedule.Types.{Checked, NodeStatus, TopicQueueLevel, validate_level}
use openmate.Schedule.Runtime.{
  AgentSpec, TopicControlState, EnqueueRequest, WorkerPriorityAssignment, DispatchRecord, RuntimeDb,
  RuntimeError, not_found, Tx, run_tx, update_topic, update_node, set_topics, set_nodes, find_topic,
}
use openmate.Schedule.Runtime.Topics.{
  has_topic, new_topic, ensure_topic, checked, get_topic, set_topic_priority_node,
  clear_priority_dirty, set_topic_queue_level, touch_topic_served, move_topic, promote_topic,
  promote_level, same_level, promote_all, promote_aged_topics, is_aged, list_topics,
}
use openmate.Schedule.Runtime.Nodes.{
  has_node, enqueued_row, requeued, mark_dirty, ensure_rank_mapping, enqueue_tx, validate_enqueue,
  upsert_enqueue_node, place, place_priority, succeed_priority_node, planned_topic, succeed_row,
  as_priority_row, priority_row, upsert_priority_node, mark_priority_node_ready, assign, assign_all,
  apply_priority_plan,
}
use openmate.Schedule.Runtime.Work.{
  set_node_session_id, sync_running, mark_node_running, mark_node_finished, start_row, finish_row,
  worked, record_dispatch,
}
use openmate.Schedule.Runtime.Running.{
  IsConsistent, KeepsIds, StopsOrKeeps, set_topics-IsConsistent, set_nodes-IsConsistent,
  add_node-IsConsistent, add_topic-IsConsistent,
}
use openmate.Schedule.Runtime.Running.Synced.{sync_running-IsConsistent, set_nodes-OtherTopics}

-- What a transaction leaves, if it is committed.
abbrev pub After : {A : Type 0} → Result RuntimeError (A × RuntimeDb) → Type 0
After (ok (a, db)) = IsConsistent db
After (err e) = Unit

abbrev pub Kept : {A : Type 0} → Tx A → Type 0
Kept tx = (db : RuntimeDb) → IsConsistent db → After (tx db)

committed :
    {A : Type 0} (r : Result RuntimeError (A × RuntimeDb)) (db : RuntimeDb)
    → IsConsistent db
    → After r
    → IsConsistent
        (elim r as (λ _. Result RuntimeError A × RuntimeDb) [
          | ok (a, db') ↦ (ok a, db')
          | err e ↦ (err e, db)
        ]).1
committed (ok (a, db')) db c h = h
committed (err e) db c h = c

pub run_tx-IsConsistent :
    {A : Type 0} (fault : Option GoString) (tx : Tx A) (db : RuntimeDb)
    → After (tx db)
    → IsConsistent db
    → IsConsistent (run_tx fault tx db).1
unfolding run_tx
run_tx-IsConsistent (some text) tx db h c = c
run_tx-IsConsistent none tx db h c = committed (tx db) db c h

-- After the first part of a transaction, the rest.
pub After-bind :
    {A B : Type 0} (r : Result RuntimeError (A × RuntimeDb))
    (next : A × RuntimeDb → Result RuntimeError (B × RuntimeDb))
    → After r
    → ((p : A × RuntimeDb) → IsConsistent p.1 → After (next p))
    → After (r >>= next)
After-bind (ok p) next h k = k p h
After-bind (err e) next h k = tt

-- After a part that only reads.
pub After-read :
    {A B : Type 0} (r : Result RuntimeError A) (next : A → Result RuntimeError (B × RuntimeDb))
    → ((a : A) → After (next a))
    → After (r >>= next)
After-read (ok a) next k = k a
After-read (err e) next k = tt

After-checked :
    {A : Type 0} (r : Checked) (p : A × RuntimeDb) → IsConsistent p.1 → After (checked r p)
After-checked (ok u) p c = c
After-checked (err e) p c = tt

pub ensure_topic-Kept : (id : GoString) (now : ℕ) → Kept (ensure_topic id now)
unfolding ensure_topic
ensure_topic-Kept id now db c = elim (Bool-cases (is_empty id)) [
  | inl e ↦ rw e tt
  | inr e ↦ elim (Bool-cases (has_topic id db.topics)) [
    | inl h ↦ rw (e, h) c
    | inr h ↦ rw (e, h) (add_topic-IsConsistent (new_topic id now) db refl h c)
  ]
]

pub set_topic_priority_node-Kept :
    (topic node : GoString) (now : ℕ) → Kept (set_topic_priority_node topic node now)
unfolding set_topic_priority_node
set_topic_priority_node-Kept topic node now = set_topics-IsConsistent topic _ (λ t. (refl, refl))

pub clear_priority_dirty-Kept :
    (topic : GoString) (text : Option GoString) (now : ℕ)
    → Kept (clear_priority_dirty topic text now)
unfolding clear_priority_dirty
clear_priority_dirty-Kept topic text now = set_topics-IsConsistent topic _ (λ t. (refl, refl))

pub touch_topic_served-Kept : (topic : GoString) (now : ℕ) → Kept (touch_topic_served topic now)
unfolding touch_topic_served
touch_topic_served-Kept topic now = set_topics-IsConsistent topic _ (λ t. (refl, refl))

pub set_topic_queue_level-Kept :
    (topic : GoString) (level : TopicQueueLevel) (now : ℕ)
    → Kept (set_topic_queue_level topic level now)
unfolding set_topic_queue_level
set_topic_queue_level-Kept topic level now db c =
    After-checked (validate_level level) (tt, set_topics (update_topic topic _) db)
      (set_topics-IsConsistent topic _ (λ t. (refl, refl)) db c)

pub move_topic-Kept :
    (move : TopicQueueLevel → TopicQueueLevel) (id : GoString) (now : ℕ)
    → Kept (move_topic move id now)
unfolding move_topic
move_topic-Kept move id now db c = After-read (get_topic id db) _ (λ t.
    elim (Bool-cases (same_level (move t.queue_level) t.queue_level)) [
      | inl e ↦ rw e c
      | inr e ↦ rw e (set_topic_queue_level-Kept id (move t.queue_level) now db c)
    ])

pub set_node_session_id-Kept :
    (topic node session : GoString) (now : ℕ) → Kept (set_node_session_id topic node session now)
unfolding set_node_session_id
set_node_session_id-Kept topic node session now =
    set_nodes-IsConsistent topic node _ (λ row. (refl, refl)) (λ row h. h)

pub record_dispatch-Kept : (r : DispatchRecord) → Kept (record_dispatch r)
unfolding record_dispatch
record_dispatch-Kept r db c = c

pub mark_node_running-Kept :
    (topic node : GoString) (now : ℕ) → Kept (mark_node_running topic node now)
unfolding mark_node_running
mark_node_running-Kept topic node now db c =
    sync_running-IsConsistent topic node now (set_nodes (update_node topic node (start_row now)) db)
      (set_nodes-OtherTopics topic node _ (λ row. (refl, refl)) db c)

pub mark_node_finished-Kept :
    (topic node : GoString) (status : NodeStatus) (now : ℕ)
    → Kept (mark_node_finished topic node status now)
unfolding mark_node_finished
mark_node_finished-Kept topic node status now db c =
    let db' = set_nodes (update_node topic node (finish_row status now)) db in
    let db'' = sync_running topic [] now db' in
    After-read (or_fail (find_topic topic db''.topics) not_found) _ (λ t.
      set_topics-IsConsistent topic (worked node now) (λ u. (refl, refl)) db''
        (sync_running-IsConsistent topic [] now db'
          (set_nodes-OtherTopics topic node (finish_row status now) (λ row. (refl, refl)) db c)))

pub mark_priority_node_ready-Kept :
    (topic : GoString) (now : ℕ) → Kept (mark_priority_node_ready topic now)
unfolding mark_priority_node_ready
mark_priority_node_ready-Kept topic now db c = After-read (get_topic topic db) _ (λ t.
    After-read (or_fail t.priority_node_id _) _ (λ node.
      set_nodes-IsConsistent topic node _ (λ row. (refl, refl)) (λ row h. ground (arith, h)) db c))
