-- ===== src/Schedule/Engine/Invariant.antt =====
-- engine.go: what the tables hold after an operation of the engine, also when it fails.
pub mod Ticks
use openmate.Base.{
  ℕ, suc, GoString, ◌=?◌, Option, none, some, List, [], ◌∷◌, ◌++◌, codes, Bool, true, false,
  Bool-cases, Option-cases, inl, inr, Result, ok, err, Result-cases,
}
use openmate.Base.Int.{ℤ}
use openmate.Schedule.Types.{failed, ValidationError, DispatchPlan}
use openmate.Schedule.Planner.{plan_topic_dispatch}
use openmate.Schedule.Runtime.{
  NodeQueueState, TopicControlState, RuntimeDb, RuntimeError, Tx, run_tx,
}
use openmate.Schedule.Runtime.Topics.{
  get_topic, demote_level, promote_aged_topics, touch_topic_served, clear_priority_dirty,
  demote_topic,
}
use openmate.Schedule.Runtime.Nodes.{
  apply_priority_plan, mark_priority_node_ready, upsert_priority_node,
}
use openmate.Schedule.Runtime.Work.{
  get_node, mark_node_finished, mark_node_running, set_node_session_id, record_dispatch,
  build_topic_snapshot,
}
use openmate.Schedule.Runtime.Running.{IsConsistent}
use openmate.Schedule.Runtime.Kept.{
  Kept, run_tx-IsConsistent, move_topic-Kept, clear_priority_dirty-Kept, touch_topic_served-Kept,
  set_node_session_id-Kept, record_dispatch-Kept, mark_node_running-Kept, mark_node_finished-Kept,
  mark_priority_node_ready-Kept,
}
use openmate.Schedule.Runtime.Kept.Requests.{
  apply_priority_plan-Kept, promote_aged_topics-IsConsistent,
}
use openmate.Schedule.Engine.{
  EngineError, bad_limit, priority_node_error, session_error, event_error, Step, ◌>>=◌, return,
  Call, continue, lift, write, query, ask, check,
}
use openmate.Schedule.Engine.Selection.{select_topic}
use openmate.Schedule.Engine.Dispatch.{
  DispatchAnswers, WorkerExecuteRequest, WorkerExecuteResponse, persist_session, candidates_for,
  execute_or_fail, finish_priority, is_success, failure_message, resolve_node_status,
  dispatch_record, finish_dispatch, dispatch_one,
}
use openmate.Schedule.Engine.Tick.{
  TickAnswers, EngineConfig, priority_spec, ensure_priority_node, dispatch_all, finish_tick,
  dispatch_topic, prepare_priority, serve_topic, age_topics, planned, dispatch_plan, demote_if,
  serve_when, serve_chosen, dispatch_limit, known_or_created, tick,
}

-- A step keeps the agreement, whatever it answers.
pub record Keeps {A : Type 0} (step : Step A) : Type 0 where
  pub keeps : (db : RuntimeDb) → IsConsistent db → IsConsistent (step db).1

continue-IsConsistent :
    {A B : Type 0} (next : A → Step B) (r : Result EngineError A × RuntimeDb)
    → ((a : A) → Keeps (next a))
    → IsConsistent r.1
    → IsConsistent (continue next r).1
continue-IsConsistent next (ok a, db) k c = (k a).keeps db c
continue-IsConsistent next (err e, db) k c = c

pub bind-Keeps :
    {A B : Type 0} (first : Step A) (next : A → Step B)
    → Keeps first
    → ((a : A) → Keeps (next a))
    → Keeps (first >>= next)
unfolding ◌>>=◌
bind-Keeps first next h k = record {
  keeps = λ db c. continue-IsConsistent next (first db) k (h.keeps db c);
}

pub lift-IsConsistent :
    {A : Type 0} (r : Result RuntimeError A × RuntimeDb)
    → IsConsistent r.1
    → IsConsistent (lift r).1
lift-IsConsistent (ok a, db) c = c
lift-IsConsistent (err e, db) c = c

pub write-Keeps :
    {A : Type 0} (call : Call) (tx : ℕ → Tx A) → Kept (tx call.now) → Keeps (write call tx)
unfolding write
write-Keeps call tx k = record {
  keeps = λ db c.
      lift-IsConsistent (run_tx call.fault (tx call.now) db)
        (run_tx-IsConsistent call.fault (tx call.now) db (k db c) c);
}

pub query-Keeps :
    {A : Type 0} (call : Call) (read : RuntimeDb → Result RuntimeError A) → Keeps (query call read)
query-Keeps call read = record { keeps = λ db c. c }

pub return-Keeps : {A : Type 0} (a : A) → Keeps (return a)
return-Keeps a = record { keeps = λ db c. c }

pub ask-Keeps :
    {A : Type 0} (failure : GoString → EngineError) (r : Result GoString A) → Keeps (ask failure r)
ask-Keeps failure r = record { keeps = λ db c. c }

finish_priority-Keeps :
    (call : Call) (topic : GoString) (row : NodeQueueState) (response : WorkerExecuteResponse)
    → Keeps (finish_priority call topic row response)
unfolding finish_priority
finish_priority-Keeps call topic row response = elim (Bool-cases row.is_priority_node) [
  | inr e ↦ rw (e, finish_priority) (return-Keeps tt)
  | inl e ↦ elim (Bool-cases (is_success response)) [
    | inl s ↦
        rw (e, s, finish_priority)
          (write-Keeps call (apply_priority_plan topic response.priority_plan)
            (apply_priority_plan-Kept topic response.priority_plan call.now))
    | inr s ↦
        rw (e, s, finish_priority)
          (write-Keeps call (clear_priority_dirty topic (some (failure_message response)))
            (clear_priority_dirty-Kept topic (some (failure_message response)) call.now))
  ]
]

finish_dispatch-Keeps :
    (a : DispatchAnswers) (topic node : GoString) (row : NodeQueueState)
    (session request event : GoString) (response : WorkerExecuteResponse)
    → Keeps (finish_dispatch a topic node row session request event response)
unfolding finish_dispatch
finish_dispatch-Keeps a topic node row session request event response =
    bind-Keeps _ _
      (write-Keeps a.mark_finished
        (mark_node_finished topic node (resolve_node_status row response))
        (mark_node_finished-Kept topic node (resolve_node_status row response) a.mark_finished.now))
      (λ u. bind-Keeps _ _ (finish_priority-Keeps a.finish_plan topic row response) (λ v.
        bind-Keeps _ _
          (write-Keeps a.record_result
            (λ now. record_dispatch (dispatch_record topic node row session request event response))
            (record_dispatch-Kept (dispatch_record topic node row session request event response)))
          (λ w. return-Keeps _)))

persist_session-Keeps :
    (call : Call) (topic node : GoString) (row : NodeQueueState) (session : GoString)
    → Keeps (persist_session call topic node row session)
unfolding persist_session
persist_session-Keeps call topic node row session =
    let stored =
      write-Keeps call (set_node_session_id topic node session)
        (set_node_session_id-Kept topic node session call.now) in
    elim (Option-cases row.session_id) [
      | inl e ↦ rw (e, persist_session) stored
      | inr (known, e) ↦ elim (Bool-cases (known =? session)) [
        | inl k ↦ rw (e, k, persist_session) (return-Keeps tt)
        | inr k ↦ rw (e, k, persist_session) stored
      ]
    ]

candidates_for-Keeps :
    (call : Call) (topic : GoString) (row : NodeQueueState) → Keeps (candidates_for call topic row)
unfolding candidates_for
candidates_for-Keeps call topic row = elim (Bool-cases row.is_priority_node) [
  | inl e ↦ rw (e, candidates_for) (query-Keeps call _)
  | inr e ↦ rw (e, candidates_for) (return-Keeps [])
]

execute_or_fail-Keeps :
    (a : DispatchAnswers) (topic node : GoString) (request : WorkerExecuteRequest)
    → Keeps (execute_or_fail a topic node request)
unfolding execute_or_fail
execute_or_fail-Keeps a topic node request = record {
  keeps = λ db c. elim (Result-cases (a.execute request)) [
    | inr (response, e) ↦ rw (e, execute_or_fail) c
    | inl (text, e) ↦
        rw (e, execute_or_fail)
          (run_tx-IsConsistent a.mark_finished.fault
            (mark_node_finished topic node failed a.mark_finished.now) db
            (mark_node_finished-Kept topic node failed a.mark_finished.now db c) c)
  ];
}

dispatch_one-Keeps :
    (a : DispatchAnswers) (timeout : ℤ) (topic node : GoString)
    → Keeps (dispatch_one a timeout topic node)
unfolding dispatch_one
dispatch_one-Keeps a timeout topic node =
    bind-Keeps _ _ (query-Keeps a.load_node (get_node topic node)) (λ row.
      bind-Keeps _ _
        (write-Keeps a.mark_running (mark_node_running topic node)
          (mark_node_running-Kept topic node a.mark_running.now))
        (λ _. bind-Keeps _ _ (ask-Keeps session_error a.ensure_session) (λ session.
          bind-Keeps _ _ (persist_session-Keeps a.set_session topic node row session) (λ _.
            bind-Keeps _ _ (ask-Keeps event_error a.authorize) (λ event.
              bind-Keeps _ _ (candidates_for-Keeps a.list_candidates topic row) (λ candidates.
                bind-Keeps _ _ (execute_or_fail-Keeps a topic node _) (λ response.
                  finish_dispatch-Keeps a topic node row session (node ++ codes "-" ++ a.stamp)
                    event response)))))))
