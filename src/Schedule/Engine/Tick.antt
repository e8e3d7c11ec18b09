-- ===== src/Schedule/Engine/Tick.antt =====
-- engine.go: `Tick`. With an error its callers drop the result.
use openmate.Base.{
  ℕ, suc, GoString, codes, Option, none, some, List, [], ◌∷◌, Bool, true, false, if◌then◌else◌,
  ◌==◌, Result, ok, err,
}
use openmate.Base.Int.{ℤ, pos, ltb_ℤ}
use openmate.Schedule.Types.{TopicQueueLevel, ValidationError, DispatchPlan}
use openmate.Schedule.Planner.{plan_topic_dispatch}
use openmate.Schedule.Runtime.{AgentSpec, TopicControlState, DispatchRecord, database_fault}
use openmate.Schedule.Runtime.Topics.{
  get_topic, touch_topic_served, demote_topic, promote_aged_topics,
}
use openmate.Schedule.Runtime.Nodes.{Statement, upsert_priority_node, mark_priority_node_ready}
use openmate.Schedule.Runtime.Work.{has_runnable_nodes, build_topic_snapshot}
use openmate.Schedule.Engine.Selection.{select_topic}
use openmate.Schedule.Engine.{
  store_error, refused, bad_limit, priority_node_error, Step, ◌>>=◌, ◌>>◌, return, fail, Call, lift,
  write, query, ask, check,
}
use openmate.Schedule.Engine.Dispatch.{DispatchAnswers, dispatch_one}

pub record TickResult : Type 0 where
  pub selected_topic_id : GoString
  pub queue_level : Option TopicQueueLevel
  pub dispatched : List DispatchRecord
  pub reasons : List GoString

-- What the calls of a tick are answered; the dispatches have answers by their position.
pub record TickAnswers : Type 0 where
  pub age : Call
  pub select : Call
  pub load_topic : Call
  pub ensure_priority_node : Result GoString GoString
  pub ensure_topic : Call
  pub insert_priority : Call
  pub link_priority : Call
  pub mark_ready : Call
  pub snapshot : Call
  pub dispatch : ℕ → DispatchAnswers
  pub touch : Call
  pub count_runnable : Call
  pub demote : Call

pub record EngineConfig : Type 0 where
  pub max_dispatch_per_tick : ℤ
  pub default_timeout_ms : ℤ
  pub aging_threshold : ℕ

-- `NewEngine`: what is not positive has a default; an age is in nanoseconds.
unfoldable pub new_config : EngineConfig → EngineConfig
new_config config = record config {
  max_dispatch_per_tick =
      if ltb_ℤ (pos 0) config.max_dispatch_per_tick then config.max_dispatch_per_tick else pos 1;
  default_timeout_ms =
      if ltb_ℤ (pos 0) config.default_timeout_ms then config.default_timeout_ms else pos 120000;
  aging_threshold = if config.aging_threshold == 0 then 600000000000 else config.aging_threshold;
}

abbrev pub priority_spec : AgentSpec
priority_spec = record {
  mode = codes "priority";
  workspace_root = [];
  pool_db_file = [];
  pool_model_config = [];
  pool_binary = [];
  api_id = [];
  vos_state_file = [];
  vos_session_db = [];
  vos_binary = [];
  use_session_event = false;
}

abbrev pub statement : Call → Statement
statement call = (call.fault, call.now)

unfoldable pub known_or_created : TickAnswers → GoString → Option GoString → Step (Unit {0})
unfolding upsert_priority_node
known_or_created a topic (some node) = return tt
known_or_created a topic none = ask priority_node_error a.ensure_priority_node >>= λ node. λ db.
    lift (
      upsert_priority_node (statement a.ensure_topic) (statement a.insert_priority)
        (statement a.link_priority) topic node priority_spec db)

-- `ensurePriorityNode`
unfoldable pub ensure_priority_node : TickAnswers → GoString → Step (Unit {0})
unfolding get_topic known_or_created
ensure_priority_node a topic =
    query a.load_topic (get_topic topic) >>= λ t. known_or_created a topic t.priority_node_id

-- The loop over `plan.DispatchNodeIDs`; `i` counts the dispatches.
unfoldable pub dispatch_all :
    (ℕ → DispatchAnswers) → ℤ → GoString → ℕ → List GoString → Step (List DispatchRecord)
unfolding dispatch_one
dispatch_all answers timeout topic i [] = return []
dispatch_all answers timeout topic i (node ∷ nodes) =
    dispatch_one (answers i) timeout topic node >>= λ r.
    dispatch_all answers timeout topic (suc i) nodes >>= λ rs. return (r ∷ rs)

abbrev pub tick_result : TopicControlState → List DispatchRecord → List GoString → TickResult
tick_result t records reasons = record {
  selected_topic_id = t.topic_id;
  queue_level = some t.queue_level;
  dispatched = records;
  reasons = reasons;
}

unfoldable pub demote_if : TickAnswers → GoString → Bool → Step (Unit {0})
unfolding write demote_topic
demote_if a topic true = write a.demote (demote_topic topic)
demote_if a topic false = return tt

-- After the dispatches: the topic was served, and goes down a level if it has runnable nodes.
unfoldable pub finish_tick : TickAnswers → GoString → Step (Unit {0})
unfolding write touch_topic_served has_runnable_nodes demote_if
finish_tick a topic = write a.touch (touch_topic_served topic) >>= λ _.
    query a.count_runnable (λ db. ok (has_runnable_nodes topic db)) >>= λ runnable.
    demote_if a topic runnable

abbrev pub planned : Result ValidationError DispatchPlan → Step DispatchPlan
planned (ok plan) = return plan
planned (err e) = fail (refused e)

unfoldable pub dispatch_plan :
    EngineConfig → TickAnswers → TopicControlState → List GoString → List GoString → Step TickResult
unfolding dispatch_all finish_tick
dispatch_plan config a t reasons [] = return (tick_result t [] reasons)
dispatch_plan config a t reasons (node ∷ nodes) =
    dispatch_all a.dispatch config.default_timeout_ms t.topic_id 0 (node ∷ nodes) >>= λ records.
    finish_tick a t.topic_id >>= λ _. return (tick_result t records reasons)

-- From the snapshot of the topic on.
unfoldable pub dispatch_topic : EngineConfig → TickAnswers → ℤ → TopicControlState → Step TickResult
unfolding build_topic_snapshot plan_topic_dispatch dispatch_plan
dispatch_topic config a limit t =
    query a.snapshot (build_topic_snapshot t.topic_id a.snapshot.now) >>= λ snapshot.
    planned (plan_topic_dispatch snapshot limit) >>= λ plan.
    dispatch_plan config a t plan.reasons plan.dispatch_node_ids

abbrev pub waiting : GoString
waiting = codes "priority_node waits until current sessionevent calls complete"

unfoldable pub prepare_priority : TickAnswers → GoString → Step (Unit {0})
unfolding write ensure_priority_node mark_priority_node_ready
prepare_priority a topic =
    ensure_priority_node a topic >> write a.mark_ready (mark_priority_node_ready topic)

-- A topic whose priorities are dirty waits for its running nodes, and then runs its priority node.
unfoldable pub serve_when :
    EngineConfig → TickAnswers → ℤ → TopicControlState → Bool → List GoString → Step TickResult
unfolding prepare_priority dispatch_topic
serve_when config a limit t false running = dispatch_topic config a limit t
serve_when config a limit t true (id ∷ ids) = return (tick_result t [] (waiting ∷ []))
serve_when config a limit t true [] =
    prepare_priority a t.topic_id >>= λ _. dispatch_topic config a limit t

-- The topic that was selected.
unfoldable pub serve_topic : EngineConfig → TickAnswers → ℤ → TopicControlState → Step TickResult
unfolding serve_when
serve_topic config a limit t = serve_when config a limit t t.priority_dirty t.running_node_ids

abbrev pub idle_tick : TickResult
idle_tick = record {
  selected_topic_id = [];
  queue_level = none;
  dispatched = [];
  reasons = codes "no runnable topic found" ∷ [];
}

unfoldable pub age_topics : ℕ → Call → Step (Unit {0})
unfolding promote_aged_topics
age_topics threshold call db = elim call.fault [
  | some text ↦ (err (store_error (database_fault text)), db)
  | none ↦ lift (promote_aged_topics threshold call.now db)
]

abbrev pub dispatch_limit : EngineConfig → ℤ → ℤ
dispatch_limit config max = if ltb_ℤ (pos 0) max then max else config.max_dispatch_per_tick

unfoldable pub serve_chosen :
    EngineConfig → TickAnswers → ℤ → Option TopicControlState → Step TickResult
unfolding serve_topic
serve_chosen config a limit none = return idle_tick
serve_chosen config a limit (some t) = serve_topic config a limit t

-- `Tick`
unfoldable pub tick : EngineConfig → TickAnswers → ℤ → Step TickResult
unfolding age_topics select_topic serve_chosen
tick config a max =
    check (ltb_ℤ (pos 0) (dispatch_limit config max)) bad_limit
    >> age_topics config.aging_threshold a.age
    >> query a.select select_topic
    >>= λ chosen. serve_chosen config a (dispatch_limit config max) chosen
