-- ===== src/Schedule/Engine/Failure.antt =====
-- engine.go: dispatches that fail, and ticks that do nothing.
use openmate.Base.{
  ℕ, GoString, none, some, List, [], ◌∷◌, Bool, true, ◌≡◌, refl, arith, Bool-cases, Option-cases,
  Result, ok, err, inl, inr, ap, ◌∙◌,
}
use openmate.Base.Int.{ℤ, pos, ltb_ℤ}
use openmate.Schedule.Types.{has}
use openmate.Schedule.Runtime.{
  NodeQueueState, TopicControlState, RuntimeDb, RuntimeError, run_tx, find_node, update_node,
  is_row, set_nodes,
}
use openmate.Schedule.Runtime.Work.{
  get_node, mark_node_running, running_ids, start_row, sync_running,
}
use openmate.Schedule.Engine.{
  EngineError, bad_limit, session_error, Step, ◌>>=◌, ◌>>◌, continue, Call, write, query, ask,
  check,
}
use openmate.Schedule.Engine.Selection.{select_topic}
use openmate.Schedule.Engine.Dispatch.{DispatchAnswers, dispatch_one}
use openmate.Schedule.Engine.Tick.{
  EngineConfig, TickAnswers, tick, serve_chosen, serve_topic, serve_when, tick_result, waiting,
  dispatch_limit, age_topics,
}

pub bind-run :
    {A B : Type 0} (first : Step A) (next : A → Step B) (db mid : RuntimeDb)
    (r : Result EngineError A)
    → first db ≡ (r, mid)
    → (first >>= next) db ≡ continue next (r, mid)
unfolding ◌>>=◌
bind-run first next db mid r h = ap (continue next) h

-- Once a node is marked, it is one of the running nodes.
has-running_ids :
    (topic node : GoString) (now : ℕ) (rows : List NodeQueueState) (row : NodeQueueState)
    → find_node topic node rows ≡ some row
    → has node (running_ids topic (update_node topic node (start_row now) rows)) ≡ true
unfolding running_ids update_node find_node
has-running_ids topic node now [] row h = absurd (ground (arith, h))
has-running_ids topic node now (r ∷ rows) row h = elim (Bool-cases (is_row topic node r)) [
  | inl k ↦ rw k (ground (arith, k))
  | inr k ↦
      let rest = has-running_ids topic node now rows row (ground (arith, h, k)) in
      rw k (ground (arith, rest))
]

get_node-found :
    (topic node : GoString) (db : RuntimeDb) (row : NodeQueueState)
    → get_node topic node db ≡ ok row
    → (r : NodeQueueState) × (find_node topic node db.nodes ≡ some r)
unfolding get_node
get_node-found topic node db row h = elim (Option-cases (find_node topic node db.nodes)) [
  | inl e ↦ absurd (ground (arith, h, e))
  | inr found ↦ found
]

unfoldable pub marked : GoString → GoString → ℕ → RuntimeDb → RuntimeDb
marked topic node now db =
    sync_running topic node now (set_nodes (update_node topic node (start_row now)) db)

pub mark_running-run :
    (call : Call) (topic node : GoString) (db : RuntimeDb)
    → call.fault ≡ none
    → write call (mark_node_running topic node) db ≡ (ok tt, marked topic node call.now db)
unfolding write run_tx mark_node_running marked
mark_running-run call topic node db h = rw h refl

pub query-run :
    {A : Type 0} (call : Call) (read : RuntimeDb → Result RuntimeError A) (db : RuntimeDb) (a : A)
    → call.fault ≡ none
    → read db ≡ ok a
    → query call read db ≡ (ok a, db)
query-run call read db a h k = rw (h, k) refl

marked_run :
    (a : DispatchAnswers) (timeout : ℤ) (topic node text : GoString) (row : NodeQueueState)
    (db : RuntimeDb)
    → a.load_node.fault ≡ none
    → a.mark_running.fault ≡ none
    → a.ensure_session ≡ err text
    → get_node topic node db ≡ ok row
    → dispatch_one a timeout topic node db
      ≡ (err (session_error text), marked topic node a.mark_running.now db)
unfolding dispatch_one
marked_run a timeout topic node text row db load mark session found =
    bind-run (query a.load_node (get_node topic node)) _ db db (ok row)
      (query-run a.load_node (get_node topic node) db row load found)
    ∙ bind-run (write a.mark_running (mark_node_running topic node)) _ db
        (marked topic node a.mark_running.now db) (ok tt)
        (mark_running-run a.mark_running topic node db mark)
    ∙ bind-run (ask session_error a.ensure_session) _ (marked topic node a.mark_running.now db)
        (marked topic node a.mark_running.now db) (err (session_error text)) (rw session refl)

-- If the row of the node is found and marked as running and the session cannot be ensured, the
-- dispatch fails with that error and the node stays among the running nodes of its topic.
pub dispatch_one-session_error :
    (a : DispatchAnswers) (timeout : ℤ) (topic node text : GoString) (row : NodeQueueState)
    (db : RuntimeDb)
    → a.load_node.fault ≡ none
    → a.mark_running.fault ≡ none
    → a.ensure_session ≡ err text
    → get_node topic node db ≡ ok row
    → ((dispatch_one a timeout topic node db).0 ≡ err (session_error text))
      × (has node (running_ids topic (dispatch_one a timeout topic node db).1.nodes) ≡ true)
unfolding marked sync_running
dispatch_one-session_error a timeout topic node text row db load mark session found =
    let run = marked_run a timeout topic node text row db load mark session found in
    let (r, there) = get_node-found topic node db row found in
    (
      ap (λ p. p.0) run,
      ap (λ p. has node (running_ids topic p.1.nodes)) run
          ∙ has-running_ids topic node a.mark_running.now db.nodes r there,
    )

check-run : (b : Bool) (e : EngineError) (db : RuntimeDb) → b ≡ true → check b e db ≡ (ok tt, db)
check-run b e db h = rw h refl

-- If the limit is positive, the promotion of the aged topics succeeds, and the topic that is
-- then selected has dirty priorities and running nodes, the tick dispatches nothing, reports
-- that it waits, and leaves the tables as the promotion left them.
pub tick-waits :
    (config : EngineConfig) (a : TickAnswers) (max : ℤ) (db aged : RuntimeDb)
    (t : TopicControlState) (id : GoString) (ids : List GoString)
    → ltb_ℤ (pos 0) (dispatch_limit config max) ≡ true
    → age_topics config.aging_threshold a.age db ≡ (ok tt, aged)
    → a.select.fault ≡ none
    → select_topic aged ≡ ok (some t)
    → t.priority_dirty ≡ true
    → t.running_node_ids ≡ id ∷ ids
    → tick config a max db ≡ (ok (tick_result t [] (waiting ∷ [])), aged)
unfolding tick serve_chosen serve_topic serve_when
tick-waits config a max db aged t id ids limit age select chosen dirty run =
    let allowed = check (ltb_ℤ (pos 0) (dispatch_limit config max)) bad_limit in
    let start = allowed >> age_topics config.aging_threshold a.age in
    let first =
      bind-run allowed (λ _. age_topics config.aging_threshold a.age) db db (ok tt)
        (check-run _ _ db limit)
      ∙ age in
    let second =
      bind-run start (λ _. query a.select select_topic) db aged (ok tt) first
      ∙ query-run a.select select_topic aged (some t) select chosen in
    bind-run (start >> query a.select select_topic) _ db aged (ok (some t)) second
    ∙ rw (dirty, run) refl
