-- ===== src/Schedule/Runtime/Running.antt =====
-- runtime_store.go: `running_node_ids_json` of a topic against the rows of its nodes.
pub mod Synced
use openmate.Base.{
  ℕ, GoString, ◌=?◌, List, [], ◌∷◌, ◌++◌, Bool, true, false, not, ◌≡◌, refl, ◌&&◌, ◌||◌, All, arith,
  ◌∙◌, sym, subst, Bool-cases, inl, inr, any-append,
}
use openmate.Schedule.Types.{has}
use openmate.Schedule.Runtime.{
  TopicControlState, NodeQueueState, RuntimeDb, is_row, update_topic, update_node, set_topics,
  set_nodes,
}
use openmate.Schedule.Runtime.Topics.{has_topic}
use openmate.Schedule.Runtime.Nodes.{has_node}
use openmate.Schedule.Runtime.Work.{is_running, running_ids, sync_running}
use openmate.Schedule.Runtime.Rows.{All-update_node, All-update_topic, All-append, All-map}

-- If the row is a running node of the topic, its id is listed.
abbrev pub covered : GoString → List GoString → NodeQueueState → Bool
covered topic ids row =
    not ((row.topic_id =? topic) && is_running row.status) || has row.node_id ids

abbrev pub Entry : List NodeQueueState → TopicControlState → Type 0
Entry nodes t =
    All (λ row. covered t.topic_id t.running_node_ids row ≡ true) nodes
    × All (λ id. has_node t.topic_id id nodes ≡ true) t.running_node_ids

-- Every running node is listed by its topic, a listed id is a node of the topic, and the topic of
-- every node is there.
abbrev pub IsConsistent : RuntimeDb → Type 0
IsConsistent db =
    All (Entry db.nodes) db.topics × All (λ row. has_topic row.topic_id db.topics ≡ true) db.nodes

abbrev pub KeepsTopic : (TopicControlState → TopicControlState) → Type 0
KeepsTopic f =
    (t : TopicControlState)
    → ((f t).topic_id ≡ t.topic_id) × ((f t).running_node_ids ≡ t.running_node_ids)

abbrev pub KeepsIds : (NodeQueueState → NodeQueueState) → Type 0
KeepsIds f =
    (row : NodeQueueState) → ((f row).topic_id ≡ row.topic_id) × ((f row).node_id ≡ row.node_id)

abbrev pub StopsOrKeeps : (NodeQueueState → NodeQueueState) → Type 0
StopsOrKeeps f =
    (row : NodeQueueState) → is_running (f row).status ≡ true → is_running row.status ≡ true

has_topic-update :
    (topic id : GoString) (f : TopicControlState → TopicControlState)
    → ((t : TopicControlState) → (f t).topic_id ≡ t.topic_id)
    → (rows : List TopicControlState) → has_topic id (update_topic topic f rows) ≡ has_topic id rows
unfolding update_topic
has_topic-update topic id f keeps [] = refl
has_topic-update topic id f keeps (t ∷ rows) = elim (Bool-cases (t.topic_id =? topic)) [
  | inl e ↦ rw (e, keeps t, has_topic-update topic id f keeps rows) refl
  | inr e ↦ rw (e, has_topic-update topic id f keeps rows) refl
]

has_node-update :
    (topic node t id : GoString) (f : NodeQueueState → NodeQueueState)
    → KeepsIds f
    → (rows : List NodeQueueState)
    → has_node t id (update_node topic node f rows) ≡ has_node t id rows
unfolding update_node
has_node-update topic node t id f keeps [] = refl
has_node-update topic node t id f keeps (row ∷ rows) = elim (Bool-cases (is_row topic node row)) [
  | inl e ↦ rw (e, (keeps row).0, (keeps row).1, has_node-update topic node t id f keeps rows) refl
  | inr e ↦ rw (e, has_node-update topic node t id f keeps rows) refl
]

-- A statement on the topics that leaves the ids.
pub set_topics-IsConsistent :
    (topic : GoString) (f : TopicControlState → TopicControlState)
    → KeepsTopic f
    → (db : RuntimeDb) → IsConsistent db
    → IsConsistent (set_topics (update_topic topic f) db)
set_topics-IsConsistent topic f keeps db c = (
  All-update_topic (Entry db.nodes) topic f (λ t h. rw ((keeps t).0, (keeps t).1) h) db.topics c.0,
  All-map (λ row. has_topic row.topic_id db.topics ≡ true)
      (λ row. has_topic row.topic_id (update_topic topic f db.topics) ≡ true)
      (λ row h. has_topic-update topic row.topic_id f (λ t. (keeps t).0) db.topics ∙ h) db.nodes
      c.1,
)

All-has_topic :
    (f : NodeQueueState → NodeQueueState)
    → KeepsIds f
    → (topic node : GoString) (topics : List TopicControlState) (rows : List NodeQueueState)
    → All (λ row. has_topic row.topic_id topics ≡ true) rows
    → All (λ row. has_topic row.topic_id topics ≡ true) (update_node topic node f rows)
All-has_topic f keeps topic node topics =
    All-update_node (λ row. has_topic row.topic_id topics ≡ true) topic node f
      (λ row h. rw (keeps row).0 h)

covered-update :
    (f : NodeQueueState → NodeQueueState)
    → KeepsIds f
    → StopsOrKeeps f
    → (t : GoString) (ids : List GoString) (row : NodeQueueState) → covered t ids row ≡ true
    → covered t ids (f row) ≡ true
covered-update f keeps stops t ids row h =
    rw ((keeps row).0, (keeps row).1) (ground (arith, h, stops row))

-- A statement on a node that leaves its ids and does not start it.
pub set_nodes-IsConsistent :
    (topic node : GoString) (f : NodeQueueState → NodeQueueState)
    → KeepsIds f
    → StopsOrKeeps f
    → (db : RuntimeDb) → IsConsistent db
    → IsConsistent (set_nodes (update_node topic node f) db)
set_nodes-IsConsistent topic node f keeps stops db c = (
  All-map (Entry db.nodes) (Entry (update_node topic node f db.nodes))
      (λ t h. (
        All-update_node (λ row. covered t.topic_id t.running_node_ids row ≡ true) topic node f
            (covered-update f keeps stops t.topic_id t.running_node_ids) db.nodes h.0,
        All-map (λ id. has_node t.topic_id id db.nodes ≡ true)
            (λ id. has_node t.topic_id id (update_node topic node f db.nodes) ≡ true)
            (λ id k. has_node-update topic node t.topic_id id f keeps db.nodes ∙ k)
            t.running_node_ids h.1,
      ))
      db.topics c.0,
  All-has_topic f keeps topic node db.topics db.nodes c.1,
)

-- A new row that does not run, of a topic that is there.
pub add_node-IsConsistent :
    (row : NodeQueueState) (db : RuntimeDb)
    → is_running row.status ≡ false
    → has_topic row.topic_id db.topics ≡ true
    → IsConsistent db
    → IsConsistent (set_nodes (λ rows. rows ++ row ∷ []) db)
add_node-IsConsistent row db still there c = (
  All-map (Entry db.nodes) (Entry (db.nodes ++ row ∷ []))
      (λ t h. (
        All-append (λ r. covered t.topic_id t.running_node_ids r ≡ true) db.nodes row h.0
            (ground (arith, still)),
        All-map (λ id. has_node t.topic_id id db.nodes ≡ true)
            (λ id. has_node t.topic_id id (db.nodes ++ row ∷ []) ≡ true)
            (λ id k. ground (arith, k, any-append (is_row t.topic_id id) db.nodes (row ∷ [])))
            t.running_node_ids h.1,
      ))
      db.topics c.0,
  All-append (λ r. has_topic r.topic_id db.topics ≡ true) db.nodes row c.1 there,
)

covered-new :
    (id : GoString) (topics : List TopicControlState) (rows : List NodeQueueState)
    → has_topic id topics ≡ false
    → All (λ row. has_topic row.topic_id topics ≡ true) rows
    → All (λ row. covered id [] row ≡ true) rows
covered-new id topics [] h a = tt
covered-new id topics (row ∷ rows) h a = (ground (arith, h, a.0), covered-new id topics rows h a.1)

-- A new topic, of which nothing runs.
pub add_topic-IsConsistent :
    (t : TopicControlState) (db : RuntimeDb)
    → t.running_node_ids ≡ []
    → has_topic t.topic_id db.topics ≡ false
    → IsConsistent db
    → IsConsistent (set_topics (λ rows. rows ++ t ∷ []) db)
add_topic-IsConsistent t db none_runs fresh c = (
  All-append (Entry db.nodes) db.topics t c.0
      (rw none_runs (covered-new t.topic_id db.topics db.nodes fresh c.1, tt)),
  All-map (λ row. has_topic row.topic_id db.topics ≡ true)
      (λ row. has_topic row.topic_id (db.topics ++ t ∷ []) ≡ true)
      (λ row h. ground (arith, h, any-append (λ u. u.topic_id =? row.topic_id) db.topics (t ∷ [])))
      db.nodes c.1,
)

covered-more :
    (topic id : GoString) (ids : List GoString) (rows : List NodeQueueState)
    → All (λ row. covered topic ids row ≡ true) rows
    → All (λ row. covered topic (id ∷ ids) row ≡ true) rows
covered-more topic id ids [] a = tt
covered-more topic id ids (row ∷ rows) a = (ground (arith, a.0), covered-more topic id ids rows a.1)
