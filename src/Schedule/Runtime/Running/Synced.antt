-- ===== src/Schedule/Runtime/Running/Synced.antt =====
-- runtime_store.go: `syncTopicRunningNodeIDsTx` makes the running ids and the rows agree.
use openmate.Base.{
  ℕ, GoString, ◌=?◌, List, [], ◌∷◌, true, false, ◌≡◌, refl, ◌&&◌, All, arith, ◌∙◌, sym, subst,
  Bool-cases, inl, inr,
}
use openmate.Schedule.Runtime.{
  TopicControlState, NodeQueueState, RuntimeDb, is_row, update_topic, update_node, set_nodes,
}
use openmate.Schedule.Runtime.Topics.{has_topic}
use openmate.Schedule.Runtime.Nodes.{has_node}
use openmate.Schedule.Runtime.Work.{is_running, running_ids, sync_running}
use openmate.Schedule.Runtime.Rows.{All-map}
use openmate.Schedule.Runtime.Running.{
  covered, Entry, IsConsistent, KeepsIds, has_topic-update, has_node-update, All-has_topic,
  covered-more,
}

running_ids-running :
    (topic : GoString) (row : NodeQueueState) (rows : List NodeQueueState)
    → ((row.topic_id =? topic) && is_running row.status) ≡ true
    → running_ids topic (row ∷ rows) ≡ row.node_id ∷ running_ids topic rows
unfolding running_ids
running_ids-running topic row rows e = rw e refl

running_ids-other :
    (topic : GoString) (row : NodeQueueState) (rows : List NodeQueueState)
    → ((row.topic_id =? topic) && is_running row.status) ≡ false
    → running_ids topic (row ∷ rows) ≡ running_ids topic rows
unfolding running_ids
running_ids-other topic row rows e = rw e refl

covered-running_ids :
    (topic : GoString) (rows : List NodeQueueState)
    → All (λ row. covered topic (running_ids topic rows) row ≡ true) rows
covered-running_ids topic [] = tt
covered-running_ids topic (row ∷ rows) =
    elim (Bool-cases ((row.topic_id =? topic) && is_running row.status)) [
      | inl e ↦
          subst (λ ids. All (λ r. covered topic ids r ≡ true) (row ∷ rows))
            (sym (running_ids-running topic row rows e))
            (
              ground arith,
              covered-more topic row.node_id (running_ids topic rows) rows
                  (covered-running_ids topic rows),
            )
      | inr e ↦
          subst (λ ids. All (λ r. covered topic ids r ≡ true) (row ∷ rows))
            (sym (running_ids-other topic row rows e))
            (ground (arith, e), covered-running_ids topic rows)
    ]

has_node-more :
    (topic : GoString) (row : NodeQueueState) (rows : List NodeQueueState) (ids : List GoString)
    → All (λ id. has_node topic id rows ≡ true) ids
    → All (λ id. has_node topic id (row ∷ rows) ≡ true) ids
has_node-more topic row rows ids =
    All-map (λ id. has_node topic id rows ≡ true) (λ id. has_node topic id (row ∷ rows) ≡ true)
      (λ id h. ground (arith, h)) ids

has_node-running_ids :
    (topic : GoString) (rows : List NodeQueueState)
    → All (λ id. has_node topic id rows ≡ true) (running_ids topic rows)
unfolding running_ids
has_node-running_ids topic [] = tt
has_node-running_ids topic (row ∷ rows) =
    let rest =
      has_node-more topic row rows (running_ids topic rows) (has_node-running_ids topic rows) in
    elim (Bool-cases ((row.topic_id =? topic) && is_running row.status)) [
      | inl e ↦ rw (running_ids-running topic row rows e) (ground (arith, e), rest)
      | inr e ↦ rw (running_ids-other topic row rows e) rest
    ]

-- As before for the topics with another id.
abbrev OtherTopics : GoString → RuntimeDb → Type 0
OtherTopics topic db =
    All (λ t. (t.topic_id =? topic) ≡ false → Entry db.nodes t) db.topics
    × All (λ row. has_topic row.topic_id db.topics ≡ true) db.nodes

same : (a b : GoString) → (a =? b) ≡ true → a ≡ b
same a b e = ground arith

synced :
    (topic : GoString) (f : TopicControlState → TopicControlState) (nodes : List NodeQueueState)
    → ((t : TopicControlState) → (f t).topic_id ≡ t.topic_id)
    → ((t : TopicControlState) → (f t).running_node_ids ≡ running_ids topic nodes)
    → (rows : List TopicControlState)
    → All (λ t. (t.topic_id =? topic) ≡ false → Entry nodes t) rows
    → All (Entry nodes) (update_topic topic f rows)
unfolding update_topic
synced topic f nodes id runs [] a = tt
synced topic f nodes id runs (t ∷ rows) a = elim (Bool-cases (t.topic_id =? topic)) [
  | inl e ↦ rw e (
    rw (id t, runs t, same t.topic_id topic e)
        (covered-running_ids topic nodes, has_node-running_ids topic nodes),
    synced topic f nodes id runs rows a.1,
  )
  | inr e ↦ rw e (a.0 e, synced topic f nodes id runs rows a.1)
]

-- Once the running nodes of a topic are read, the tables agree about it.
pub sync_running-IsConsistent :
    (topic current : GoString) (now : ℕ) (db : RuntimeDb)
    → OtherTopics topic db
    → IsConsistent (sync_running topic current now db)
unfolding sync_running
sync_running-IsConsistent topic current now db h = (
  synced topic _ db.nodes (λ t. refl) (λ t. refl) db.topics h.0,
  All-map (λ row. has_topic row.topic_id db.topics ≡ true)
      (λ row. has_topic row.topic_id (sync_running topic current now db).topics ≡ true)
      (λ row k. has_topic-update topic row.topic_id _ (λ t. refl) db.topics ∙ k) db.nodes h.1,
)

covered-other :
    (f : NodeQueueState → NodeQueueState)
    → KeepsIds f
    → (topic node t : GoString) (ids : List GoString) (rows : List NodeQueueState)
    → (t =? topic) ≡ false
    → All (λ row. covered t ids row ≡ true) rows
    → All (λ row. covered t ids row ≡ true) (update_node topic node f rows)
unfolding update_node
covered-other f keeps topic node t ids [] e a = tt
covered-other f keeps topic node t ids (row ∷ rows) e a =
    elim (Bool-cases (is_row topic node row)) [
      | inl k ↦ rw k (
        rw ((keeps row).0, (keeps row).1) (ground (arith, k, e)),
        covered-other f keeps topic node t ids rows e a.1,
      )
      | inr k ↦ rw k (a.0, covered-other f keeps topic node t ids rows e a.1)
    ]

-- A statement on a node of the topic does not concern the other topics.
pub set_nodes-OtherTopics :
    (topic node : GoString) (f : NodeQueueState → NodeQueueState)
    → KeepsIds f
    → (db : RuntimeDb) → IsConsistent db
    → OtherTopics topic (set_nodes (update_node topic node f) db)
set_nodes-OtherTopics topic node f keeps db c = (
  All-map (Entry db.nodes)
      (λ t. (t.topic_id =? topic) ≡ false → Entry (update_node topic node f db.nodes) t)
      (λ t h e. (
        covered-other f keeps topic node t.topic_id t.running_node_ids db.nodes e h.0,
        All-map (λ id. has_node t.topic_id id db.nodes ≡ true)
            (λ id. has_node t.topic_id id (update_node topic node f db.nodes) ≡ true)
            (λ id k. has_node-update topic node t.topic_id id f keeps db.nodes ∙ k)
            t.running_node_ids h.1,
      ))
      db.topics c.0,
  All-has_topic f keeps topic node db.topics db.nodes c.1,
)
