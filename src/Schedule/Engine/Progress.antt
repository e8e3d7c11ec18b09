-- ===== src/Schedule/Engine/Progress.antt =====
-- engine.go: a dispatch whose calls are all served comes to its end.
use openmate.Base.{
  ℕ, GoString, ◌=?◌, codes, none, some, [], ◌∷◌, ◌++◌, false, ◌≡◌, refl, Bool-cases, Option-cases,
  ok, inl, inr, ap, ◌∙◌, true, arith, sym, subst, is_empty, trim_space, List,
}
use openmate.Schedule.Types.{has, NodeStatus, ready, retry_cooldown, failed}
use openmate.Base.Int.{ℤ}
use openmate.Schedule.Runtime.{
  NodeQueueState, TopicControlState, DispatchRecord, RuntimeDb, Tx, run_tx, find_topic, set_nodes,
  update_node, find_node,
}
use openmate.Schedule.Runtime.Work.{
  get_node, mark_node_running, set_node_session_id, mark_node_finished, record_dispatch,
  sync_running, start_row,
}
use openmate.Schedule.Runtime.Lookup.{find_node-updated}
use openmate.Schedule.Runtime.Finish.{find_topic-updated, mark_node_finished-topic, runs}
use openmate.Schedule.Engine.{
  session_error, event_error, Step, ◌>>=◌, Call, lift, write, query, ask,
}
use openmate.Schedule.Engine.Dispatch.{
  DispatchAnswers, WorkerExecuteRequest, WorkerExecuteResponse, dispatch_one, persist_session,
  candidates_for, execute_or_fail, finish_dispatch, finish_priority, resolve_node_status,
  dispatch_record, worker_request,
}
use openmate.Schedule.Engine.Failure.{bind-run, query-run, marked, mark_running-run}

-- The database serves every call, and the gateways answer.
pub record IsServed (a : DispatchAnswers) : Type 0 where
  pub session : GoString
  pub event : GoString
  pub response : WorkerExecuteRequest → WorkerExecuteResponse
  pub load : a.load_node.fault ≡ none
  pub running : a.mark_running.fault ≡ none
  pub session_given : a.ensure_session ≡ ok session
  pub stored : a.set_session.fault ≡ none
  pub authorized : a.authorize ≡ ok event
  pub answers : (request : WorkerExecuteRequest) → a.execute request ≡ ok (response request)
  pub finished : a.mark_finished.fault ≡ none
  pub recorded : a.record_result.fault ≡ none

-- The status that an answer of the worker gives a node of the business.
pub data Settles : WorkerExecuteResponse → NodeStatus → Type 0 where
  asked :
      {answer : WorkerExecuteResponse} {status : NodeStatus}
      → answer.next_node_status ≡ some status
      → Settles answer status
  again :
      {answer : WorkerExecuteResponse}
      → answer.next_node_status ≡ none
      → answer.status ≡ codes "succeeded"
      → Settles answer ready
  later :
      {answer : WorkerExecuteResponse}
      → answer.next_node_status ≡ none
      → ¬ (answer.status ≡ codes "succeeded")
      → answer.retryable ≡ true
      → Settles answer retry_cooldown
  given_up :
      {answer : WorkerExecuteResponse}
      → answer.next_node_status ≡ none
      → ¬ (answer.status ≡ codes "succeeded")
      → answer.retryable ≡ false
      → Settles answer failed

resolve_node_status-Settles :
    (row : NodeQueueState) (answer : WorkerExecuteResponse)
    → row.is_priority_node ≡ false
    → Settles answer (resolve_node_status row answer)
unfolding resolve_node_status
resolve_node_status-Settles row answer business = elim (Option-cases answer.next_node_status) [
  | inr (status, e) ↦
      let is : resolve_node_status row answer ≡ status = ground (arith, e) in
      subst (Settles answer) (sym is) (asked e)
  | inl e ↦ elim (Bool-cases (answer.status =? codes "succeeded")) [
    | inl s ↦
        let is : resolve_node_status row answer ≡ ready = ground (arith, e, s, business) in
        subst (Settles answer) (sym is) (again e (ground (arith, s)))
    | inr s ↦ elim (Bool-cases answer.retryable) [
      | inl r ↦
          let is : resolve_node_status row answer ≡ retry_cooldown =
            ground (arith, e, s, r, business) in
          subst (Settles answer) (sym is) (later e (ground (arith, s)) r)
      | inr r ↦
          let is : resolve_node_status row answer ≡ failed = ground (arith, e, s, r, business) in
          subst (Settles answer) (sym is) (given_up e (ground (arith, s)) r)
    ]
  ]
]

committed-run :
    {A : Type 0} (tx : Tx A) (db db' : RuntimeDb) (a : A)
    → tx db ≡ ok (a, db')
    → run_tx none tx db ≡ (ok a, db')
unfolding run_tx
committed-run tx db db' a h = rw (h, run_tx) refl

write-run :
    {A : Type 0} (call : Call) (tx : ℕ → Tx A) (db db' : RuntimeDb) (a : A)
    → call.fault ≡ none
    → tx call.now db ≡ ok (a, db')
    → write call tx db ≡ (ok a, db')
unfolding write
write-run call tx db db' a h k =
    ap lift (ap (λ f. run_tx f (tx call.now) db) h ∙ committed-run (tx call.now) db db' a k)

-- A step that succeeds with what `Q` says.
abbrev Reaches : {A : Type 0} → (A → RuntimeDb → Type 0) → Step A → RuntimeDb → Type 0
Reaches {A} Q step db = (a : A) × (db' : RuntimeDb) × (step db ≡ (ok a, db')) × Q a db'

bind-known :
    {A B : Type 0} (Q : B → RuntimeDb → Type 0) (first : Step A) (next : A → Step B)
    (db mid : RuntimeDb) (a : A)
    → first db ≡ (ok a, mid)
    → Reaches Q (next a) mid
    → Reaches Q (first >>= next) db
bind-known Q first next db mid a run (b, db', rest, q) =
    (b, db', bind-run first next db mid (ok a) run ∙ rest, q)

-- The rows of the topic and the node are there, and the history is the given one.
abbrev Tracked : GoString → GoString → List DispatchRecord → RuntimeDb → Type 0
Tracked topic node history db =
    (t : TopicControlState) × (row : NodeQueueState) × (find_topic topic db.topics ≡ some t)
    × (find_node topic node db.nodes ≡ some row)
    × (db.history ≡ history)

-- The request that a dispatch sends to the worker.
pub record IsAsked (topic node session event : GoString) (q : WorkerExecuteRequest) : Type 0 where
  pub topic_lem : q.topic_id ≡ topic
  pub node_lem : q.node_id ≡ node
  pub kind_lem : q.node_kind ≡ codes "normal"
  pub session_lem : q.session_id ≡ session
  pub event_lem : q.event_id ≡ event
  pub alone : q.priority_candidates ≡ []

-- What the record of a dispatch tells of the answer of the worker.
pub record Tells (topic node session event : GoString) (answer : WorkerExecuteResponse)
    (r : DispatchRecord) : Type 0 where
  pub topic_lem : r.topic_id ≡ topic
  pub node_lem : r.node_id ≡ node
  pub session_lem : r.session_id ≡ session
  pub event_lem : r.event_id ≡ event
  pub status_lem : r.status ≡ answer.status
  pub retryable_lem : r.retryable ≡ answer.retryable
  pub error_lem : r.error ≡ answer.error
  pub duration_lem : r.duration_ms ≡ answer.duration_ms

-- After the dispatch: the history ends with the record, the node has the status that the answer
-- gives it, and its topic lists it only if that is running, with the node as the current one.
abbrev pub Completed :
    GoString
    → GoString
    → GoString
    → GoString
    → List DispatchRecord
    → WorkerExecuteResponse
    → DispatchRecord
    → RuntimeDb
    → Type 0
Completed topic node session event history answer r db' =
    Tells topic node session event answer r
    × (db'.history ≡ history ++ r ∷ [])
    × (row : NodeQueueState) × (t : TopicControlState) × (find_node topic node db'.nodes ≡ some row)
    × Settles answer row.status
    × (find_topic topic db'.topics ≡ some t)
    × (has node t.running_node_ids ≡ runs row.status)
    × (t.current_node_id ≡ some node)

persist-run :
    (call : Call) (topic node : GoString) (row : NodeQueueState) (session : GoString)
    (history : List DispatchRecord) (db : RuntimeDb)
    → call.fault ≡ none
    → Tracked topic node history db
    → Reaches
        (λ u db'. Tracked topic node history db')
        (persist_session call topic node row session)
        db
unfolding persist_session set_node_session_id
persist-run call topic node row session history db h (t, r, there, here, past) =
    let change : NodeQueueState → NodeQueueState =
      λ q. record q { session_id = some session; updated_at = call.now } in
    let run =
      write-run call (set_node_session_id topic node session) db
        (set_nodes (update_node topic node change) db) tt h refl in
    let found = find_node-updated topic node change (λ q. (refl, refl)) db.nodes r here in
    let stored : Reaches (λ u db'. Tracked topic node history db')
        (write call (set_node_session_id topic node session)) db =
      (tt, set_nodes (update_node topic node change) db, run, (t, change r, there, found, past)) in
    elim (Option-cases row.session_id) [
      | inl e ↦ rw (e, persist_session) stored
      | inr (known, e) ↦ elim (Bool-cases (known =? session)) [
        | inl k ↦ rw (e, k, persist_session) (tt, db, refl, (t, r, there, here, past))
        | inr k ↦ rw (e, k, persist_session) stored
      ]
    ]

finish-Reaches :
    (a : DispatchAnswers) (topic node : GoString) (row : NodeQueueState)
    (session request event : GoString) (answer : WorkerExecuteResponse)
    (history : List DispatchRecord) (db : RuntimeDb)
    → IsServed a
    → row.is_priority_node ≡ false
    → is_empty (trim_space node) ≡ false
    → Tracked topic node history db
    → Reaches
        (Completed topic node session event history answer)
        (finish_dispatch a topic node row session request event answer)
        db
unfolding finish_dispatch record_dispatch finish_priority
finish-Reaches a topic node row session request event answer history db s business named
      (t, r, there, here, past) =
    let status = resolve_node_status row answer in
    let result = dispatch_record topic node row session request event answer in
    let Q = Completed topic node session event history answer in
    let (
      db1, t', row', run, found, is, worked_at, topic', ids, listed, current, last, count, same,
    ) =
      mark_node_finished-topic topic node status a.mark_finished.now db t r there here named in
    let db2 = record db1 { history = db1.history ++ result ∷ [] } in
    bind-known Q (write a.mark_finished (mark_node_finished topic node status)) _ db db1 tt
      (write-run a.mark_finished (mark_node_finished topic node status) db db1 tt s.finished run)
      (bind-known Q (finish_priority a.finish_plan topic row answer) _ db1 db1 tt
        (rw (business, finish_priority) refl)
        (bind-known Q (write a.record_result (λ now. record_dispatch result)) _ db1 db2 tt
          (write-run a.record_result (λ now. record_dispatch result) db1 db2 tt s.recorded refl)
          (
            result,
            db2,
            refl,
            (
              record {
                topic_lem = refl;
                node_lem = refl;
                session_lem = refl;
                event_lem = refl;
                status_lem = refl;
                retryable_lem = refl;
                error_lem = refl;
                duration_lem = refl;
              },
              ap (λ h. h ++ result ∷ []) (same ∙ past),
              row',
              t',
              found,
              subst (Settles answer) (sym is) (resolve_node_status-Settles row answer business),
              topic',
              listed ∙ ap runs (sym is),
              current,
            ),
          )))

marked-Tracked :
    (topic node : GoString) (now : ℕ) (history : List DispatchRecord) (db : RuntimeDb)
    → Tracked topic node history db
    → Tracked topic node history (marked topic node now db)
unfolding marked sync_running
marked-Tracked topic node now history db (t, r, there, here, past) = (
  _,
  _,
  find_topic-updated topic _ (λ u. refl) db.topics t there,
  find_node-updated topic node (start_row now) (λ q. (refl, refl)) db.nodes r here,
  past,
)

get_node-row :
    (topic node : GoString) (row : NodeQueueState) (db : RuntimeDb)
    → get_node topic node db ≡ ok row
    → (r : NodeQueueState) × (find_node topic node db.nodes ≡ some r)
unfolding get_node
get_node-row topic node row db h = elim (Option-cases (find_node topic node db.nodes)) [
  | inl e ↦ absurd (ground (arith, h, e))
  | inr found ↦ found
]

-- If the rows of a topic and of one of its nodes are there, the id of the node is not blank and
-- it is not a priority node, the database serves every call, and the gateways and the worker
-- answer, then the dispatch asks the worker for that node under the session and the event that
-- it was given, and succeeds: its record tells the answer and ends the history, the node has the
-- status that the answer gives it, and its topic has the node as the current one and lists it
-- only if that status is running.
pub dispatch_one-completes :
    (a : DispatchAnswers) (timeout : ℤ) (topic node : GoString) (row : NodeQueueState)
    (t : TopicControlState) (db : RuntimeDb) (s : IsServed a)
    → get_node topic node db ≡ ok row
    → row.is_priority_node ≡ false
    → is_empty (trim_space node) ≡ false
    → find_topic topic db.topics ≡ some t
    → (q : WorkerExecuteRequest) × (r : DispatchRecord) × (db' : RuntimeDb) × IsAsked topic node
        s.session s.event q
      × (dispatch_one a timeout topic node db ≡ (ok r, db'))
      × Completed topic node s.session s.event db.history (s.response q) r db'
unfolding dispatch_one candidates_for execute_or_fail
dispatch_one-completes a timeout topic node row t db s found business named there =
    let (r, here) = get_node-row topic node row db found in
    let id = node ++ codes "-" ++ a.stamp in
    let q = worker_request timeout topic node row s.session id s.event [] in
    let Q = Completed topic node s.session s.event db.history (s.response q) in
    let db1 = marked topic node a.mark_running.now db in
    let kept : Tracked topic node db.history db = (t, r, there, here, refl) in
    let (u, db2, run, kept') =
      persist-run a.set_session topic node row s.session db.history db1 s.stored
        (marked-Tracked topic node a.mark_running.now db.history db kept) in
    let (result, db', done, completed) =
      bind-known Q (query a.load_node (get_node topic node)) _ db db row
        (query-run a.load_node (get_node topic node) db row s.load found)
        (bind-known Q (write a.mark_running (mark_node_running topic node)) _ db db1 tt
          (mark_running-run a.mark_running topic node db s.running)
          (bind-known Q (ask session_error a.ensure_session) _ db1 db1 s.session
            (rw s.session_given refl)
            (bind-known Q (persist_session a.set_session topic node row s.session) _ db1 db2 tt run
              (bind-known Q (ask event_error a.authorize) _ db2 db2 s.event (rw s.authorized refl) (
                bind-known Q (candidates_for a.list_candidates topic row) _ db2 db2 []
                  (rw (business, candidates_for) refl)
                  (bind-known Q (execute_or_fail a topic node q) _ db2 db2 (s.response q)
                    (rw (s.answers q, execute_or_fail) refl)
                    (finish-Reaches a topic node row s.session id s.event (s.response q) db.history
                      db2 s business named kept'))))))) in
    (
      q,
      result,
      db',
      record {
        topic_lem = refl;
        node_lem = refl;
        kind_lem = rw business refl;
        session_lem = refl;
        event_lem = refl;
        alone = refl;
      },
      done,
      completed,
    )
