-- ===== src/Schedule/Engine/Invariant/Ticks.antt =====
-- engine.go: a tick keeps the running ids and the rows in agreement.
use openmate.Base.{
  ℕ, suc, GoString, Option, none, some, List, [], ◌∷◌, Bool, true, false, Option-cases, inl, inr,
  Result, ok, err,
}
use openmate.Base.Int.{ℤ}
use openmate.Schedule.Types.{ValidationError, DispatchPlan}
use openmate.Schedule.Planner.{plan_topic_dispatch}
use openmate.Schedule.Runtime.{TopicControlState, RuntimeDb}
use openmate.Schedule.Runtime.Topics.{
  get_topic, demote_level, promote_aged_topics, touch_topic_served, demote_topic,
}
use openmate.Schedule.Runtime.Nodes.{mark_priority_node_ready, upsert_priority_node}
use openmate.Schedule.Runtime.Work.{build_topic_snapshot}
use openmate.Schedule.Runtime.Running.{IsConsistent}
use openmate.Schedule.Runtime.Kept.{
  move_topic-Kept, touch_topic_served-Kept, mark_priority_node_ready-Kept,
}
use openmate.Schedule.Runtime.Kept.Requests.{
  upsert_priority_node-IsConsistent, promote_aged_topics-IsConsistent,
}
use openmate.Schedule.Engine.{EngineError, bad_limit, priority_node_error, Call, check}
use openmate.Schedule.Engine.Selection.{select_topic}
use openmate.Schedule.Engine.Dispatch.{DispatchAnswers}
use openmate.Schedule.Engine.Tick.{
  TickAnswers, EngineConfig, statement, priority_spec, ensure_priority_node, dispatch_all,
  finish_tick, dispatch_topic, prepare_priority, serve_topic, age_topics, planned, dispatch_plan,
  demote_if, serve_when, serve_chosen, dispatch_limit, known_or_created, tick,
}
use openmate.Schedule.Engine.Invariant.{
  Keeps, bind-Keeps, lift-IsConsistent, write-Keeps, query-Keeps, return-Keeps, ask-Keeps,
  dispatch_one-Keeps,
}

dispatch_all-Keeps :
    (answers : ℕ → DispatchAnswers) (timeout : ℤ) (topic : GoString) (i : ℕ) (nodes : List GoString)
    → Keeps (dispatch_all answers timeout topic i nodes)
unfolding dispatch_all
dispatch_all-Keeps answers timeout topic i [] = return-Keeps []
dispatch_all-Keeps answers timeout topic i (node ∷ nodes) =
    bind-Keeps _ _ (dispatch_one-Keeps (answers i) timeout topic node) (λ r.
      bind-Keeps _ _ (dispatch_all-Keeps answers timeout topic (suc i) nodes)
        (λ rs. return-Keeps (r ∷ rs)))

known_or_created-Keeps :
    (a : TickAnswers) (topic : GoString) (node : Option GoString)
    → Keeps (known_or_created a topic node)
unfolding known_or_created
known_or_created-Keeps a topic (some node) = return-Keeps tt
known_or_created-Keeps a topic none =
    bind-Keeps _ _ (ask-Keeps priority_node_error a.ensure_priority_node) (λ node. record {
      keeps = λ db c.
          lift-IsConsistent
            (upsert_priority_node (statement a.ensure_topic) (statement a.insert_priority)
              (statement a.link_priority) topic node priority_spec db)
            (upsert_priority_node-IsConsistent (statement a.ensure_topic)
              (statement a.insert_priority) (statement a.link_priority) topic node priority_spec db
              c);
    })

ensure_priority_node-Keeps :
    (a : TickAnswers) (topic : GoString) → Keeps (ensure_priority_node a topic)
unfolding ensure_priority_node
ensure_priority_node-Keeps a topic =
    bind-Keeps _ _ (query-Keeps a.load_topic (get_topic topic))
      (λ t. known_or_created-Keeps a topic t.priority_node_id)

prepare_priority-Keeps : (a : TickAnswers) (topic : GoString) → Keeps (prepare_priority a topic)
unfolding prepare_priority
prepare_priority-Keeps a topic = bind-Keeps _ _ (ensure_priority_node-Keeps a topic) (λ u.
    write-Keeps a.mark_ready (mark_priority_node_ready topic)
      (mark_priority_node_ready-Kept topic a.mark_ready.now))

demote_if-Keeps :
    (a : TickAnswers) (topic : GoString) (runnable : Bool) → Keeps (demote_if a topic runnable)
unfolding demote_if demote_topic
demote_if-Keeps a topic true =
    write-Keeps a.demote (demote_topic topic) (move_topic-Kept demote_level topic a.demote.now)
demote_if-Keeps a topic false = return-Keeps tt

finish_tick-Keeps : (a : TickAnswers) (topic : GoString) → Keeps (finish_tick a topic)
unfolding finish_tick
finish_tick-Keeps a topic =
    bind-Keeps _ _
      (write-Keeps a.touch (touch_topic_served topic) (touch_topic_served-Kept topic a.touch.now))
      (λ u.
        bind-Keeps _ _ (query-Keeps a.count_runnable _)
          (λ runnable. demote_if-Keeps a topic runnable))

planned-Keeps : (r : Result ValidationError DispatchPlan) → Keeps (planned r)
planned-Keeps (ok plan) = return-Keeps plan
planned-Keeps (err e) = record { keeps = λ db c. c }

dispatch_plan-Keeps :
    (config : EngineConfig) (a : TickAnswers) (t : TopicControlState)
    (reasons nodes : List GoString)
    → Keeps (dispatch_plan config a t reasons nodes)
unfolding dispatch_plan
dispatch_plan-Keeps config a t reasons [] = return-Keeps _
dispatch_plan-Keeps config a t reasons (node ∷ nodes) =
    bind-Keeps _ _
      (dispatch_all-Keeps a.dispatch config.default_timeout_ms t.topic_id 0 (node ∷ nodes))
      (λ records. bind-Keeps _ _ (finish_tick-Keeps a t.topic_id) (λ u. return-Keeps _))

dispatch_topic-Keeps :
    (config : EngineConfig) (a : TickAnswers) (limit : ℤ) (t : TopicControlState)
    → Keeps (dispatch_topic config a limit t)
unfolding dispatch_topic
dispatch_topic-Keeps config a limit t =
    bind-Keeps _ _ (query-Keeps a.snapshot (build_topic_snapshot t.topic_id a.snapshot.now))
      (λ snapshot.
        bind-Keeps _ _ (planned-Keeps (plan_topic_dispatch snapshot limit))
          (λ plan. dispatch_plan-Keeps config a t plan.reasons plan.dispatch_node_ids))

serve_dirty-Keeps :
    (config : EngineConfig) (a : TickAnswers) (limit : ℤ) (t : TopicControlState) (dirty : Bool)
    (running : List GoString)
    → Keeps (serve_when config a limit t dirty running)
unfolding serve_when
serve_dirty-Keeps config a limit t false running = dispatch_topic-Keeps config a limit t
serve_dirty-Keeps config a limit t true (id ∷ ids) = return-Keeps _
serve_dirty-Keeps config a limit t true [] =
    bind-Keeps _ _ (prepare_priority-Keeps a t.topic_id)
      (λ u. dispatch_topic-Keeps config a limit t)

age_topics-Keeps : (threshold : ℕ) (call : Call) → Keeps (age_topics threshold call)
unfolding age_topics
age_topics-Keeps threshold call = record {
  keeps = λ db c. elim (Option-cases call.fault) [
    | inl e ↦
        rw (e, age_topics)
          (lift-IsConsistent (promote_aged_topics threshold call.now db)
            (promote_aged_topics-IsConsistent threshold call.now db c))
    | inr (text, e) ↦ rw (e, age_topics) c
  ];
}

serve_chosen-Keeps :
    (config : EngineConfig) (a : TickAnswers) (limit : ℤ) (chosen : Option TopicControlState)
    → Keeps (serve_chosen config a limit chosen)
unfolding serve_chosen serve_topic
serve_chosen-Keeps config a limit none = return-Keeps _
serve_chosen-Keeps config a limit (some t) =
    serve_dirty-Keeps config a limit t t.priority_dirty t.running_node_ids

pub check-Keeps : (b : Bool) (e : EngineError) → Keeps (check b e)
check-Keeps true e = return-Keeps tt
check-Keeps false e = record { keeps = λ db c. c }

tick-Keeps : (config : EngineConfig) (a : TickAnswers) (max : ℤ) → Keeps (tick config a max)
unfolding tick
tick-Keeps config a max =
    bind-Keeps _ _
      (bind-Keeps _ _
        (bind-Keeps _ _ (check-Keeps _ bad_limit)
          (λ u. age_topics-Keeps config.aging_threshold a.age))
        (λ u. query-Keeps a.select select_topic))
      (λ chosen. serve_chosen-Keeps config a (dispatch_limit config max) chosen)

pub tick-IsConsistent :
    (config : EngineConfig) (a : TickAnswers) (max : ℤ) (db : RuntimeDb)
    → IsConsistent db
    → IsConsistent (tick config a max db).1
tick-IsConsistent config a max = (tick-Keeps config a max).keeps
