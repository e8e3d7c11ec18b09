-- ===== src/Schedule/Runtime/Lookup.antt =====
-- runtime_store.go: what is read back after it was written.
use openmate.Base.{
  ℕ, GoString, ◌=?◌, Option, none, some, List, [], ◌∷◌, ◌++◌, Bool, true, false, ◌≡◌, refl, sym,
  ◌&&◌, arith, Bool-cases, ok, err, inl, inr, subst, ap, ◌∙◌, or_fail, ◌>>=◌, Result-cases,
}
use openmate.Schedule.Types.{ready}
use openmate.Schedule.Runtime.{
  EnqueueRequest, NodeQueueState, RuntimeDb, RuntimeError, Tx, run_tx, not_found, find_node,
  update_node, is_row,
}
use openmate.Schedule.Runtime.Topics.{ensure_topic}
use openmate.Schedule.Runtime.Nodes.{
  has_node, place, enqueued_row, requeued, enqueue_tx, ensure_rank_mapping, validate_enqueue,
  upsert_enqueue_node,
}
use openmate.Schedule.Runtime.Work.{get_node, scan_node}

module _ (topic node : GoString) (f : NodeQueueState → NodeQueueState)
    (keeps : (row : NodeQueueState)
      → ((f row).topic_id ≡ row.topic_id) × ((f row).node_id ≡ row.node_id)) where
  first_updated :
      (r row : NodeQueueState)
      → is_row topic node r ≡ true
      → r ≡ row
      → (rest : List NodeQueueState) → find_node topic node (f r ∷ rest) ≡ some (f row)
  unfolding find_node
  first_updated r row k e rest =
      subst (λ q. find_node topic node (f r ∷ rest) ≡ some (f q)) e
        (ground (arith, k, (keeps r).0, (keeps r).1))

  -- An update is seen at its own key.
  pub find_node-updated :
      (rows : List NodeQueueState) (row : NodeQueueState)
      → find_node topic node rows ≡ some row
      → find_node topic node (update_node topic node f rows) ≡ some (f row)
  unfolding find_node update_node
  find_node-updated [] row h = absurd (ground (arith, h))
  find_node-updated (r ∷ rows) row h = elim (Bool-cases (is_row topic node r)) [
    | inl k ↦ rw k (first_updated r row k (ground (arith, h, k)) (update_node topic node f rows))
    | inr k ↦ rw (k, k) (find_node-updated rows row (ground (arith, h, k)))
  ]

  -- An update is not seen at any other key.
  pub find_node-other :
      (t n : GoString) (rows : List NodeQueueState)
      → ((topic =? t) && (node =? n)) ≡ false
      → find_node t n (update_node topic node f rows) ≡ find_node t n rows
  unfolding find_node update_node
  find_node-other t n [] h = refl
  find_node-other t n (r ∷ rows) h = elim (Bool-cases (is_row topic node r)) [
    | inl k ↦ rw (k, (keeps r).0, (keeps r).1) (ground (arith, h, k, find_node-other t n rows h))
    | inr k ↦ rw (k, find_node-other t n rows h) refl
  ]

find_node-append :
    (t n : GoString) (rows : List NodeQueueState) (row : NodeQueueState)
    → has_node t n rows ≡ false
    → is_row t n row ≡ true
    → find_node t n (rows ++ row ∷ []) ≡ some row
unfolding find_node
find_node-append t n [] row h k = rw k refl
find_node-append t n (r ∷ rows) row h k = ground (arith, h, find_node-append t n rows row)

find_node-append_other :
    (t n : GoString) (rows : List NodeQueueState) (row : NodeQueueState)
    → is_row t n row ≡ false
    → find_node t n (rows ++ row ∷ []) ≡ find_node t n rows
unfolding find_node
find_node-append_other t n [] row k = rw k refl
find_node-append_other t n (r ∷ rows) row k = ground (arith, find_node-append_other t n rows row k)

has-find_node :
    (t n : GoString) (rows : List NodeQueueState)
    → has_node t n rows ≡ true
    → (row : NodeQueueState) × (find_node t n rows ≡ some row)
unfolding find_node
has-find_node t n [] h = absurd (ground (arith, h))
has-find_node t n (r ∷ rows) h = elim (Bool-cases (is_row t n r)) [
  | inl k ↦ (r, rw k refl)
  | inr k ↦ rw k (has-find_node t n rows (ground (arith, h, k)))
]

-- What the row of a request must hold.
abbrev pub Holds : EnqueueRequest → NodeQueueState → Type 0
Holds request row =
    (row.name ≡ request.node_name)
    × (row.agent_spec ≡ request.agent_spec)
    × (row.priority_label ≡ request.priority.label)
    × (row.priority_rank ≡ request.priority.rank)
    × (row.idempotency_key ≡ request.idempotency_key)
    × (row.status ≡ ready)

place-Holds :
    (request : EnqueueRequest) (now : ℕ) (old : Bool) (rows : List NodeQueueState)
    → has_node request.topic_id request.node_id rows ≡ old
    → (row : NodeQueueState) × (find_node request.topic_id request.node_id
          (place request now old rows)
        ≡ some row)
      × Holds request row
unfolding place
place-Holds request now true rows h =
    let (row, found) = has-find_node request.topic_id request.node_id rows h in
    (
      requeued request now row,
      find_node-updated request.topic_id request.node_id (requeued request now) (λ r. (refl, refl))
          rows row found,
      (refl, refl, refl, refl, refl, refl),
    )
place-Holds request now false rows h = (
  enqueued_row request now,
  find_node-append request.topic_id request.node_id rows (enqueued_row request now) h
      (ground arith),
  (refl, refl, refl, refl, refl, refl),
)

place-other :
    (request : EnqueueRequest) (now : ℕ) (old : Bool) (t n : GoString) (rows : List NodeQueueState)
    → ((request.topic_id =? t) && (request.node_id =? n)) ≡ false
    → find_node t n (place request now old rows) ≡ find_node t n rows
unfolding place
place-other request now true t n rows h =
    find_node-other request.topic_id request.node_id (requeued request now) (λ r. (refl, refl)) t n
      rows h
place-other request now false t n rows h =
    find_node-append_other t n rows (enqueued_row request now) h

ensure_topic-nodes :
    (id : GoString) (now : ℕ) (db : RuntimeDb) (p : Unit {0} × RuntimeDb)
    → ensure_topic id now db ≡ ok p
    → p.1.nodes ≡ db.nodes
unfolding ensure_topic
ensure_topic-nodes id now db p e = ground (arith, e)

enqueue_tx-nodes :
    (request : EnqueueRequest) (now : ℕ) (db db' : RuntimeDb) (created : Bool)
    → enqueue_tx request now db ≡ ok (created, db')
    → db'.nodes ≡ place request now (has_node request.topic_id request.node_id db.nodes) db.nodes
unfolding enqueue_tx
enqueue_tx-nodes request now db db' created h =
    elim (Result-cases (ensure_rank_mapping request.topic_id request.node_id request.priority db)) [
      | inl (e, k) ↦ absurd (ground (arith, h, k))
      | inr (u, k) ↦ ground (arith, h, k)
    ]

upsert-run :
    (fault : Option GoString) (request : EnqueueRequest) (topic_now now : ℕ) (db : RuntimeDb)
    (u : Unit {0}) (p : Unit {0} × RuntimeDb)
    → validate_enqueue request ≡ ok u
    → ensure_topic request.topic_id topic_now db ≡ ok p
    → upsert_enqueue_node none fault request topic_now now db
      ≡ run_tx fault (enqueue_tx request now) p.1
unfolding upsert_enqueue_node
upsert-run fault request topic_now now db u p h k = rw (h, k, upsert_enqueue_node, run_tx) refl

upsert-refused :
    (fault : Option GoString) (request : EnqueueRequest) (topic_now now : ℕ) (db : RuntimeDb)
    (e : RuntimeError)
    → validate_enqueue request ≡ err e
    → upsert_enqueue_node none fault request topic_now now db ≡ (err e, db)
unfolding upsert_enqueue_node
upsert-refused fault request topic_now now db e h = rw (h, upsert_enqueue_node) refl

upsert-no_topic :
    (fault : Option GoString) (request : EnqueueRequest) (topic_now now : ℕ) (db : RuntimeDb)
    (u : Unit {0}) (e : RuntimeError)
    → validate_enqueue request ≡ ok u
    → ensure_topic request.topic_id topic_now db ≡ err e
    → upsert_enqueue_node none fault request topic_now now db ≡ (err e, db)
unfolding upsert_enqueue_node
upsert-no_topic fault request topic_now now db u e h k = rw (h, k, upsert_enqueue_node, run_tx) refl

run_tx-ok :
    {A : Type 0} (tx : Tx A) (db db' : RuntimeDb) (a : A)
    → run_tx none tx db ≡ (ok a, db')
    → tx db ≡ ok (a, db')
unfolding run_tx
run_tx-ok tx db db' a h = elim (Result-cases (tx db)) [
  | inl (e, k) ↦ absurd (ground (arith, h, k))
  | inr (p, k) ↦ k ∙ ap ok (ground (arith, h, k))
]

upsert-nodes :
    (request : EnqueueRequest) (topic_now now : ℕ) (db db' : RuntimeDb) (created : Bool)
    → upsert_enqueue_node none none request topic_now now db ≡ (ok created, db')
    → db'.nodes ≡ place request now (has_node request.topic_id request.node_id db.nodes) db.nodes
upsert-nodes request topic_now now db db' created h =
    elim (Result-cases (validate_enqueue request)) [
      | inl (e, k) ↦ absurd (ground (arith, h, upsert-refused none request topic_now now db e k))
      | inr (u, k) ↦ elim (Result-cases (ensure_topic request.topic_id topic_now db)) [
        | inl (e, l) ↦
            absurd (ground (arith, h, upsert-no_topic none request topic_now now db u e k l))
        | inr (p, l) ↦
            let run = sym (upsert-run none request topic_now now db u p k l) ∙ h in
            let nodes =
              enqueue_tx-nodes request now p.1 db' created
                (run_tx-ok (enqueue_tx request now) p.1 db' created run) in
            subst
              (λ rows.
                db'.nodes ≡ place request now (has_node request.topic_id request.node_id rows) rows)
              (ensure_topic-nodes request.topic_id topic_now db p l) nodes
      ]
    ]

-- If the store accepts a request and the database serves it, the node is read back afterwards
-- with the name, agent specification, priority and key of the request, and is ready.
pub get_node-upsert_enqueue_node :
    (request : EnqueueRequest) (topic_now now : ℕ) (db db' : RuntimeDb) (created : Bool)
    → upsert_enqueue_node none none request topic_now now db ≡ (ok created, db')
    → (row : NodeQueueState) × (get_node request.topic_id request.node_id db' ≡ ok row)
      × Holds request row
unfolding get_node scan_node
get_node-upsert_enqueue_node request topic_now now db db' created h =
    let nodes = upsert-nodes request topic_now now db db' created h in
    let old = has_node request.topic_id request.node_id db.nodes in
    let (row, found, holds) = place-Holds request now old db.nodes refl in
    (
      scan_node row,
      ap (λ o. or_fail o not_found >>= λ r. ok (scan_node r))
          (ap (find_node request.topic_id request.node_id) nodes ∙ found),
      holds,
    )

-- A request that the store accepted leaves every other node as it was.
pub get_node-upsert_other :
    (request : EnqueueRequest) (topic_now now : ℕ) (db db' : RuntimeDb) (created : Bool)
    (t n : GoString)
    → upsert_enqueue_node none none request topic_now now db ≡ (ok created, db')
    → ((request.topic_id =? t) && (request.node_id =? n)) ≡ false
    → get_node t n db' ≡ get_node t n db
unfolding get_node scan_node
get_node-upsert_other request topic_now now db db' created t n h other =
    let nodes = upsert-nodes request topic_now now db db' created h in
    let old = has_node request.topic_id request.node_id db.nodes in
    ap (λ o. or_fail o not_found >>= λ r. ok (scan_node r))
      (ap (find_node t n) nodes ∙ place-other request now old t n db.nodes other)
