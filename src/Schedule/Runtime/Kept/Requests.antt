-- ===== src/Schedule/Runtime/Kept/Requests.antt =====
-- runtime_store.go: requests, priority nodes and plans keep the running ids and the rows in agreement.
use openmate.Base.{
  ℕ, GoString, ◌=?◌, is_empty, Option, none, some, List, [], ◌∷◌, Bool, true, false, ◌≡◌, refl,
  ◌||◌, arith, Bool-cases, Result-cases, subst, ◌==◌, inl, inr, any-append, ok,
}
use openmate.Schedule.Runtime.{
  run_tx, AgentSpec, TopicControlState, EnqueueRequest, WorkerPriorityAssignment, RuntimeDb,
  update_topic, update_node, set_topics, set_nodes,
}
use openmate.Schedule.Runtime.Topics.{
  set_topic_priority_node, has_topic, new_topic, ensure_topic, get_topic, promote_topic,
  promote_level, promote_all, promote_aged_topics, is_aged, list_topics,
}
use openmate.Schedule.Runtime.Nodes.{
  after_statement, insert_priority_node, Statement, has_node, enqueued_row, requeued, mark_dirty,
  ensure_rank_mapping, enqueue_tx, validate_enqueue, upsert_enqueue_node, place, place_priority,
  succeed_priority_node, planned_topic, succeed_row, as_priority_row, priority_row,
  upsert_priority_node, assign, assign_all, apply_priority_plan,
}
use openmate.Schedule.Runtime.Running.{
  IsConsistent, KeepsIds, StopsOrKeeps, set_topics-IsConsistent, set_nodes-IsConsistent,
  add_node-IsConsistent,
}
use openmate.Schedule.Runtime.Kept.{
  After, Kept, run_tx-IsConsistent, After-read, ensure_topic-Kept, set_topic_priority_node-Kept,
  move_topic-Kept,
}

assign-KeepsIds : (a : WorkerPriorityAssignment) (now : ℕ) → KeepsIds (assign a now)
assign-KeepsIds a now row = ground arith

assign-StopsOrKeeps : (a : WorkerPriorityAssignment) (now : ℕ) → StopsOrKeeps (assign a now)
assign-StopsOrKeeps a now row h = ground (arith, h)

assign_all-IsConsistent :
    (topic : GoString) (plan : List WorkerPriorityAssignment) (now : ℕ) (db : RuntimeDb)
    → IsConsistent db
    → IsConsistent (set_nodes (assign_all topic plan now) db)
unfolding assign_all
assign_all-IsConsistent topic [] now db c = c
assign_all-IsConsistent topic (a ∷ plan) now db c = elim (Bool-cases (is_empty a.node_id)) [
  | inl e ↦ rw e (assign_all-IsConsistent topic plan now db c)
  | inr e ↦ rw e (
      assign_all-IsConsistent topic plan now
        (set_nodes (update_node topic a.node_id (assign a now)) db)
        (set_nodes-IsConsistent topic a.node_id (assign a now) (assign-KeepsIds a now)
          (assign-StopsOrKeeps a now) db c))
]

succeed_priority_node-IsConsistent :
    (topic : GoString) (now : ℕ) (node : Option GoString) (db : RuntimeDb)
    → IsConsistent db
    → IsConsistent (succeed_priority_node topic now node db)
unfolding succeed_priority_node
succeed_priority_node-IsConsistent topic now none db c = c
succeed_priority_node-IsConsistent topic now (some node) db c =
    set_nodes-IsConsistent topic node (succeed_row now) (λ row. (refl, refl))
      (λ row h. ground (arith, h)) db c

pub apply_priority_plan-Kept :
    (topic : GoString) (plan : List WorkerPriorityAssignment) (now : ℕ)
    → Kept (apply_priority_plan topic plan now)
unfolding apply_priority_plan
apply_priority_plan-Kept topic plan now db c =
    let db' = record (set_nodes (assign_all topic plan now) db) {
      topics = update_topic topic (planned_topic now) db.topics;
    } in
    let c' =
      set_topics-IsConsistent topic (planned_topic now) (λ t. (refl, refl))
        (set_nodes (assign_all topic plan now) db) (assign_all-IsConsistent topic plan now db c) in
    After-read (get_topic topic db') _
      (λ t. succeed_priority_node-IsConsistent topic now t.priority_node_id db' c')

mark_dirty-IsConsistent :
    (request : EnqueueRequest) (now : ℕ) (db : RuntimeDb)
    → IsConsistent db
    → IsConsistent (set_topics (mark_dirty request now) db)
unfolding mark_dirty
mark_dirty-IsConsistent request now db c = elim (Bool-cases request.mark_priority_dirty) [
  | inl e ↦ rw e (set_topics-IsConsistent request.topic_id _ (λ t. (refl, refl)) db c)
  | inr e ↦ rw e c
]

place-IsConsistent :
    (request : EnqueueRequest) (now : ℕ) (old : Bool) (db : RuntimeDb)
    → has_topic request.topic_id db.topics ≡ true
    → IsConsistent db
    → IsConsistent (set_nodes (place request now old) db)
unfolding place
place-IsConsistent request now true db there c =
    set_nodes-IsConsistent request.topic_id request.node_id (requeued request now)
      (λ row. (refl, refl)) (λ row h. ground (arith, h)) db c
place-IsConsistent request now false db there c =
    add_node-IsConsistent (enqueued_row request now) db refl there c

enqueue_tx-After :
    (request : EnqueueRequest) (now : ℕ) (db : RuntimeDb)
    → has_topic request.topic_id db.topics ≡ true
    → IsConsistent db
    → After (enqueue_tx request now db)
unfolding enqueue_tx
enqueue_tx-After request now db there c =
    let old = has_node request.topic_id request.node_id db.nodes in
    After-read (ensure_rank_mapping request.topic_id request.node_id request.priority db) _ (λ u.
      mark_dirty-IsConsistent request now (set_nodes (place request now old) db)
        (place-IsConsistent request now old db there c))

ensure_topic-has_topic :
    (id : GoString) (now : ℕ) (db : RuntimeDb) (p : Unit {0} × RuntimeDb)
    → ensure_topic id now db ≡ ok p
    → has_topic id p.1.topics ≡ true
unfolding ensure_topic
ensure_topic-has_topic id now db p e =
    ground (arith, any-append (λ t. t.topic_id =? id) db.topics (new_topic id now ∷ []), e)

pub upsert_enqueue_node-IsConsistent :
    (topic_fault fault : Option GoString) (request : EnqueueRequest) (topic_now now : ℕ)
    (db : RuntimeDb)
    → IsConsistent db
    → IsConsistent (upsert_enqueue_node topic_fault fault request topic_now now db).1
unfolding upsert_enqueue_node run_tx
upsert_enqueue_node-IsConsistent (some text) fault request topic_now now db c =
    elim (Result-cases (validate_enqueue request)) [
      | inl (e, h) ↦ rw (h, upsert_enqueue_node) c
      | inr (u, h) ↦ rw (h, upsert_enqueue_node) c
    ]
upsert_enqueue_node-IsConsistent none fault request topic_now now db c =
    elim (Result-cases (validate_enqueue request)) [
      | inl (e, h) ↦ rw (h, upsert_enqueue_node) c
      | inr (u, h) ↦ elim (Result-cases (ensure_topic request.topic_id topic_now db)) [
        | inl (e, k) ↦ rw (h, k, upsert_enqueue_node, run_tx) c
        | inr (p, k) ↦
            let c' : After (ensure_topic request.topic_id topic_now db) =
              ensure_topic-Kept request.topic_id topic_now db c in
            let c'' : IsConsistent p.1 = subst After k c' in
            rw (h, k, upsert_enqueue_node, run_tx)
              (run_tx-IsConsistent fault (enqueue_tx request now) p.1
                (enqueue_tx-After request now p.1
                  (ensure_topic-has_topic request.topic_id topic_now db p k) c'')
                c'')
      ]
    ]

place_priority-IsConsistent :
    (topic node : GoString) (spec : AgentSpec) (now : ℕ) (old : Bool) (db : RuntimeDb)
    → has_topic topic db.topics ≡ true
    → IsConsistent db
    → IsConsistent (set_nodes (place_priority topic node spec now old) db)
unfolding place_priority
place_priority-IsConsistent topic node spec now true db there c =
    set_nodes-IsConsistent topic node (as_priority_row spec now) (λ row. (refl, refl)) (λ row h. h)
      db c
place_priority-IsConsistent topic node spec now false db there c =
    add_node-IsConsistent (priority_row topic node spec now) db refl there c

-- From the row on, where the topic is there.
rest-IsConsistent :
    (insert link : Statement) (topic node : GoString) (spec : AgentSpec) (db : RuntimeDb)
    → has_topic topic db.topics ≡ true
    → IsConsistent db
    → IsConsistent
        (after_statement link.0
          (set_topic_priority_node topic node link.1)
          (run_tx insert.0 (insert_priority_node topic node spec insert.1) db)).1
unfolding run_tx insert_priority_node
rest-IsConsistent (some text, now) link topic node spec db there c = c
rest-IsConsistent (none, now) link topic node spec db there c =
    let rows = has_node topic node db.nodes in
    let c' = place_priority-IsConsistent topic node spec now rows db there c in
    let db' = set_nodes (place_priority topic node spec now rows) db in
    run_tx-IsConsistent link.0 (set_topic_priority_node topic node link.1) db'
      (set_topic_priority_node-Kept topic node link.1 db' c') c'

pub upsert_priority_node-IsConsistent :
    (ensure insert link : Statement) (topic node : GoString) (spec : AgentSpec) (db : RuntimeDb)
    → IsConsistent db
    → IsConsistent (upsert_priority_node ensure insert link topic node spec db).1
unfolding upsert_priority_node run_tx
upsert_priority_node-IsConsistent (some text, now) insert link topic node spec db c =
    elim (Bool-cases (is_empty topic || is_empty node)) [
      | inl e ↦ rw (e, upsert_priority_node) c
      | inr e ↦ rw (e, upsert_priority_node) c
    ]
upsert_priority_node-IsConsistent (none, now) insert link topic node spec db c =
    elim (Bool-cases (is_empty topic || is_empty node)) [
      | inl e ↦ rw (e, upsert_priority_node) c
      | inr e ↦ elim (Result-cases (ensure_topic topic now db)) [
        | inl (f, k) ↦ rw (e, k, upsert_priority_node, run_tx) c
        | inr (p, k) ↦
            let c' : After (ensure_topic topic now db) = ensure_topic-Kept topic now db c in
            rw (e, k, upsert_priority_node, run_tx)
              (rest-IsConsistent insert link topic node spec p.1
                (ensure_topic-has_topic topic now db p k) (subst After k c'))
      ]
    ]

promote_all-IsConsistent :
    (threshold now : ℕ) (topics : List TopicControlState) (db : RuntimeDb)
    → IsConsistent db
    → IsConsistent (promote_all threshold now topics db).1
unfolding promote_all promote_topic
promote_all-IsConsistent threshold now [] db c = c
promote_all-IsConsistent threshold now (t ∷ topics) db c =
    elim (Bool-cases (is_aged threshold now t.last_served_at)) [
      | inr e ↦ rw (e, promote_all) (promote_all-IsConsistent threshold now topics db c)
      | inl e ↦ elim (Result-cases (promote_topic t.topic_id now db)) [
        | inl (f, k) ↦ rw (e, k, promote_all) c
        | inr (p, k) ↦
            rw (e, k, promote_all)
              (promote_all-IsConsistent threshold now topics p.1
                (subst After k (move_topic-Kept promote_level t.topic_id now db c)))
      ]
    ]

pub promote_aged_topics-IsConsistent :
    (threshold now : ℕ) (db : RuntimeDb)
    → IsConsistent db
    → IsConsistent (promote_aged_topics threshold now db).1
unfolding promote_aged_topics
promote_aged_topics-IsConsistent threshold now db c = elim (Bool-cases (threshold == 0)) [
  | inl e ↦ rw e c
  | inr e ↦ elim (Result-cases (list_topics db)) [
    | inl (f, k) ↦ rw (e, k) c
    | inr (ts, k) ↦ rw (e, k) (promote_all-IsConsistent threshold now ts db c)
  ]
]
