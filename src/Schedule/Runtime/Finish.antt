-- ===== src/Schedule/Runtime/Finish.antt =====
-- runtime_store.go: what a topic says after `MarkNodeFinished`.
use openmate.Base.{
  ℕ, ◌+◌, GoString, ◌=?◌, some, List, [], ◌∷◌, true, ◌≡◌, refl, sym, arith, Bool-cases, ok, inl,
  inr, subst, ap, ◌∙◌, Option, none, Bool, false, not, is_empty, trim_space, if◌then◌else◌, or_fail,
  ◌>>=◌,
}
use openmate.Schedule.Types.{NodeStatus, running, has}
use openmate.Schedule.Runtime.{
  TopicControlState, NodeQueueState, RuntimeDb, not_found, is_row, find_node, update_node,
  find_topic, update_topic, set_nodes, set_topics,
}
use openmate.Schedule.Runtime.Work.{
  sync_running, running_ids, is_running, mark_node_finished, finish_row, worked, switches,
}
use openmate.Schedule.Runtime.Lookup.{find_node-updated}

module _ (topic : GoString) (f : TopicControlState → TopicControlState)
    (keeps : (t : TopicControlState) → (f t).topic_id ≡ t.topic_id) where
  first_topic :
      (r t : TopicControlState)
      → (r.topic_id =? topic) ≡ true
      → r ≡ t
      → (rest : List TopicControlState) → find_topic topic (f r ∷ rest) ≡ some (f t)
  unfolding find_topic
  first_topic r t k e rest =
      subst (λ q. find_topic topic (f r ∷ rest) ≡ some (f q)) e (ground (arith, k, keeps r))

  pub find_topic-updated :
      (rows : List TopicControlState) (t : TopicControlState)
      → find_topic topic rows ≡ some t
      → find_topic topic (update_topic topic f rows) ≡ some (f t)
  unfolding find_topic update_topic
  find_topic-updated [] t h = absurd (ground (arith, h))
  find_topic-updated (r ∷ rows) t h = elim (Bool-cases (r.topic_id =? topic)) [
    | inl k ↦ rw k (first_topic r t k (ground (arith, h, k)) (update_topic topic f rows))
    | inr k ↦ rw (k, k) (find_topic-updated rows t (ground (arith, h, k)))
  ]

synced_topic :
    GoString → GoString → NodeStatus → ℕ → RuntimeDb → TopicControlState → TopicControlState
synced_topic topic node status now db t = record t {
  running_node_ids = running_ids topic (update_node topic node (finish_row status now) db.nodes);
  updated_at = now;
}

-- What a node that does not run any more leaves behind: its topic does not list it.
running_ids-stopped :
    (topic node : GoString) (status : NodeStatus) (now : ℕ) (rows : List NodeQueueState)
    → is_running status ≡ false
    → has node (running_ids topic (update_node topic node (finish_row status now) rows)) ≡ false
unfolding running_ids update_node
running_ids-stopped topic node status now [] h = refl
running_ids-stopped topic node status now (r ∷ rows) h =
    let rest = running_ids-stopped topic node status now rows h in
    elim (Bool-cases (is_row topic node r)) [
      | inl k ↦ rw k (ground (arith, h, k, rest))
      | inr k ↦ rw k (ground (arith, k, rest))
    ]

running_ids-kept :
    (topic node : GoString) (status : NodeStatus) (now : ℕ) (rows : List NodeQueueState)
    (row : NodeQueueState)
    → is_running status ≡ true
    → find_node topic node rows ≡ some row
    → has node (running_ids topic (update_node topic node (finish_row status now) rows)) ≡ true
unfolding running_ids update_node find_node
running_ids-kept topic node status now [] row s h = absurd (ground (arith, h))
running_ids-kept topic node status now (r ∷ rows) row s h =
    elim (Bool-cases (is_row topic node r)) [
      | inl k ↦ rw k (ground (arith, s, k))
      | inr k ↦
          let rest = running_ids-kept topic node status now rows row s (ground (arith, h, k)) in
          rw k (ground (arith, rest))
    ]

-- The status of a node that its topic lists as running.
abbrev pub runs : NodeStatus → Bool
runs running = true
runs _ = false

running_ids-finished :
    (topic node : GoString) (status : NodeStatus) (now : ℕ) (rows : List NodeQueueState)
    (row : NodeQueueState)
    → find_node topic node rows ≡ some row
    → has node (running_ids topic (update_node topic node (finish_row status now) rows))
      ≡ runs status
running_ids-finished topic node status now rows row h = elim (Bool-cases (is_running status)) [
  | inl e ↦ running_ids-kept topic node status now rows row e h ∙ ground (arith, e)
  | inr e ↦ running_ids-stopped topic node status now rows e ∙ ground (arith, e)
]

-- The node is the current one.
abbrev pub is_current : GoString → Option GoString → Bool
is_current node none = false
is_current node (some current) = current =? node

switches-is_current :
    (node : GoString) (current : Option GoString)
    → is_empty (trim_space node) ≡ false
    → switches node current ≡ not (is_current node current)
switches-is_current node none h = refl
switches-is_current node (some current) h = elim (Bool-cases (current =? node)) [
  | inl e ↦
      let same : current ≡ node = ground (arith, e) in
      subst (λ (c : GoString). switches node (some c) ≡ not (is_current node (some c))) (sym same)
        (rw h (ground arith))
  | inr e ↦ rw e (ground (arith, e))
]

finish-run :
    (topic node : GoString) (status : NodeStatus) (now : ℕ) (db : RuntimeDb) (t : TopicControlState)
    → find_topic topic db.topics ≡ some t
    → (db' : RuntimeDb) × (mark_node_finished topic node status now db ≡ ok (tt, db'))
      × (db'.nodes ≡ update_node topic node (finish_row status now) db.nodes)
      × (find_topic topic db'.topics
          ≡ some (worked node now (synced_topic topic node status now db t)))
      × (db'.history ≡ db.history)
unfolding mark_node_finished sync_running synced_topic
finish-run topic node status now db t h =
    let mid =
      sync_running topic [] now (set_nodes (update_node topic node (finish_row status now)) db) in
    let found : find_topic topic mid.topics ≡ some (synced_topic topic node status now db t) =
      find_topic-updated topic _ (λ u. refl) db.topics t h in
    (
      set_topics (update_topic topic (worked node now)) mid,
      ap
          (λ o. or_fail o not_found >>= λ u.
            ok (tt, set_topics (update_topic topic (worked node now)) mid))
          found,
      refl,
      find_topic-updated topic (worked node now) (λ u. refl) mid.topics _ found,
      refl,
    )

-- If the topic and the node are there and the id of the node is not blank, finishing the work on
-- the node succeeds: the node has the new status and the time as that of its last work; the
-- topic lists exactly its running rows, and the node among them only if its new status is
-- running; the node is the current and the last worked one; a switch has been counted unless it
-- was current before; and the history is as it was.
pub mark_node_finished-topic :
    (topic node : GoString) (status : NodeStatus) (now : ℕ) (db : RuntimeDb) (t : TopicControlState)
    (row : NodeQueueState)
    → find_topic topic db.topics ≡ some t
    → find_node topic node db.nodes ≡ some row
    → is_empty (trim_space node) ≡ false
    → (db' : RuntimeDb) × (t' : TopicControlState) × (row' : NodeQueueState) × (mark_node_finished
          topic node status now db
        ≡ ok (tt, db'))
      × (find_node topic node db'.nodes ≡ some row')
      × (row'.status ≡ status)
      × (row'.last_worked_at ≡ some now)
      × (find_topic topic db'.topics ≡ some t')
      × (t'.running_node_ids ≡ running_ids topic db'.nodes)
      × (has node t'.running_node_ids ≡ runs status)
      × (t'.current_node_id ≡ some node)
      × (t'.last_worked_node_id ≡ some node)
      × (t'.switch_count
          ≡ (if is_current node t.current_node_id then t.switch_count else t.switch_count + 1))
      × (db'.history ≡ db.history)
unfolding synced_topic
mark_node_finished-topic topic node status now db t row h k named =
    let (db', run, nodes, found, history) = finish-run topic node status now db t h in
    (
      db',
      worked node now (synced_topic topic node status now db t),
      finish_row status now row,
      run,
      ap (find_node topic node) nodes
          ∙ find_node-updated topic node (finish_row status now) (λ r. (refl, refl)) db.nodes row k,
      refl,
      refl,
      found,
      ap (running_ids topic) (sym nodes),
      running_ids-finished topic node status now db.nodes row k,
      refl,
      refl,
      rw (switches-is_current node t.current_node_id named) (ground arith),
      history,
    )
