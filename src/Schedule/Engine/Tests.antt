-- ===== src/Schedule/Engine/Tests.antt =====
-- Runs of the engine, and the theorems at concrete inputs.
mod Runs
use openmate.Base.{
  GoString, str_dec, codes, none, some, [], ◌∷◌, length, Bool, true, false, ◌≡◌, refl, ◌≤◌, ◌+◌,
  ◌&&◌, All, In, Result, ok, err, if◌then◌else◌, ℕ_discrete,
}
use openmate.Base.Int.{pos}
use openmate.Schedule.Types.{has, ready, running, failed, l0, l1, TopicSnapshot, DispatchPlan}
use openmate.Schedule.Planner.{
  status_is_terminal, status_blocks_dispatch, plan_topic_dispatch, non_terminal_nodes, layer,
  highest_rank, sort_active_candidates, dispatchable, choose_current_node_id,
}
use openmate.Schedule.Runtime.{
  AgentSpec, EnqueueRequest, NodeQueueState, TopicControlState, DispatchRecord, RuntimeDb,
  RuntimeError, find_topic,
}
use openmate.Schedule.Runtime.Topics.{list_topics, scan_topics}
use openmate.Schedule.Runtime.Nodes.{upsert_enqueue_node}
use openmate.Schedule.Runtime.Work.{
  get_node, running_ids, has_runnable_nodes, to_snapshot, build_topic_snapshot, mark_node_finished,
  switches,
}
use openmate.Schedule.Runtime.Running.{IsConsistent}
use openmate.Schedule.Runtime.Lookup.{get_node-upsert_enqueue_node, Holds}
use openmate.Schedule.Engine.{EngineError, session_error, Call, ◌>>=◌}
use openmate.Schedule.Engine.Selection.{select_topic}
use openmate.Schedule.Engine.Enqueue.{enqueue, business}
use openmate.Schedule.Engine.Dispatch.{DispatchAnswers, dispatch_one, WorkerExecuteResponse}
use openmate.Schedule.Engine.Tick.{
  TickAnswers, EngineConfig, TickResult, tick, tick_result, waiting, idle_tick, age_topics,
}
use openmate.Schedule.Engine.Reachable.{
  created, enqueued, ticked, Reachable-IsConsistent, dispatched-not_running,
}
use openmate.Schedule.Engine.Choice.{topic_order, select_topic-some}
use openmate.Schedule.Engine.Outcome.{length-tick-dispatched}
use openmate.Schedule.Engine.Failure.{dispatch_one-session_error}

abbrev served : Call
served = record { fault = none; now = 100 }

abbrev spec : AgentSpec
spec = record {
  mode = [];
  workspace_root = [];
  pool_db_file = [];
  pool_model_config = [];
  pool_binary = [];
  api_id = [];
  vos_state_file = [];
  vos_session_db = [];
  vos_binary = [];
  use_session_event = false;
}

abbrev t1 : GoString
t1 = codes "t"

abbrev n1 : GoString
n1 = codes "n"

abbrev request : EnqueueRequest
request = record {
  topic_id = t1;
  node_id = n1;
  node_name = codes "work";
  session_id = [];
  agent_spec = spec;
  priority = business;
  idempotency_key = [];
  mark_priority_dirty = false;
}

abbrev empty_db : RuntimeDb
empty_db = record { topics = []; nodes = []; history = [] }

abbrev success : WorkerExecuteResponse
success = record {
  request_id = [];
  topic_id = t1;
  node_id = n1;
  session_id = [];
  event_id = [];
  status = codes "succeeded";
  next_node_status = none;
  output = [];
  error = [];
  retryable = false;
  duration_ms = pos 7;
  priority_plan = [];
}

abbrev answers : DispatchAnswers
answers = record {
  load_node = served;
  mark_running = served;
  ensure_session = ok (codes "s");
  set_session = served;
  stamp = codes "1";
  authorize = ok (codes "e");
  list_candidates = served;
  execute = λ _. ok success;
  mark_finished = served;
  finish_plan = served;
  record_result = served;
}

abbrev tick_answers : TickAnswers
tick_answers = record {
  age = served;
  select = served;
  load_topic = served;
  ensure_priority_node = ok (codes "p");
  ensure_topic = served;
  insert_priority = served;
  link_priority = served;
  mark_ready = served;
  snapshot = served;
  dispatch = λ _. answers;
  touch = served;
  count_runnable = served;
  demote = served;
}

abbrev config : EngineConfig
config = record {
  max_dispatch_per_tick = pos 2;
  default_timeout_ms = pos 1000;
  aging_threshold = 600;
}

Reachable-IsConsistent_example :
    IsConsistent
      (tick config tick_answers (pos 1) (enqueue served served served request empty_db).1).1
Reachable-IsConsistent_example =
    Reachable-IsConsistent
      (tick config tick_answers (pos 1) (enqueue served served served request empty_db).1).1
      (ticked config tick_answers (pos 1) (enqueue served served served request empty_db).1
        (enqueued served served served request empty_db created))

abbrev a_topic : TopicControlState
a_topic = record {
  topic_id = t1;
  queue_level = l0;
  priority_dirty = false;
  priority_node_id = none;
  priority_plan_version = 0;
  last_priority_error = none;
  last_served_at = none;
  current_node_id = none;
  last_worked_node_id = none;
  last_worked_at = none;
  switch_count = 0;
  running_node_ids = [];
  updated_at = 100;
}

abbrev a_node : NodeQueueState
a_node = record {
  topic_id = t1;
  node_id = n1;
  name = codes "work";
  is_priority_node = false;
  priority_label = codes "interactive";
  priority_rank = pos 1;
  status = ready;
  entered_priority_at = 100;
  last_worked_at = none;
  agent_spec = spec;
  session_id = none;
  idempotency_key = [];
  updated_at = 100;
}

abbrev two_topics : RuntimeDb
two_topics = record {
  topics = record a_topic { topic_id = codes "u"; queue_level = l1 } ∷ a_topic ∷ [];
  nodes = a_node ∷ record a_node { topic_id = codes "u" } ∷ [];
  history = [];
}

abbrev waiting_db : RuntimeDb
waiting_db = record {
  topics = record a_topic { priority_dirty = true; running_node_ids = n1 ∷ [] } ∷ [];
  nodes = record a_node { status = running } ∷ [];
  history = [];
}

two_listed : list_topics two_topics ≡ ok two_topics.topics
unfolding scan_topics
two_listed = refl

two_chosen : select_topic two_topics ≡ ok (some a_topic)
unfolding select_topic str_dec
two_chosen = refl

select_topic-some_example :
    (has_runnable_nodes t1 two_topics ≡ true)
    × In a_topic two_topics.topics
    × All
        (λ u. (has_runnable_nodes u.topic_id two_topics && topic_order u a_topic) ≡ false)
        two_topics.topics
select_topic-some_example =
    select_topic-some two_topics two_topics.topics a_topic two_listed two_chosen

abbrev or_else : {E A : Type 0} → A → Result E A → A
or_else a (ok r) = r
or_else a (err e) = a

abbrev one_tick : Result EngineError TickResult × RuntimeDb
one_tick = tick config tick_answers (pos 1) two_topics

one_tick_ok :
    tick config tick_answers (pos 1) two_topics ≡ (ok (or_else idle_tick one_tick.0), one_tick.1)
unfolding tick ◌>>=◌ str_dec non_terminal_nodes layer highest_rank sort_active_candidates
    dispatchable choose_current_node_id
one_tick_ok = refl

length-tick-dispatched_example : length (or_else idle_tick one_tick.0).dispatched ≤ 1
length-tick-dispatched_example =
    length-tick-dispatched config tick_answers (pos 1) two_topics one_tick.1
      (or_else idle_tick one_tick.0) one_tick_ok

a_node_found : get_node t1 n1 two_topics ≡ ok a_node
unfolding get_node str_dec
a_node_found = refl

a_topic_found : find_topic t1 two_topics.topics ≡ some a_topic
unfolding find_topic str_dec ℕ_discrete
a_topic_found = refl

abbrev accepted : Result RuntimeError Bool × RuntimeDb
accepted = upsert_enqueue_node none none request 300 300 two_topics

accepted_ok : upsert_enqueue_node none none request 300 300 two_topics ≡ (ok false, accepted.1)
unfolding upsert_enqueue_node str_dec
accepted_ok = refl

get_node-upsert_enqueue_node_example :
    (row : NodeQueueState) × (get_node t1 n1 accepted.1 ≡ ok row) × Holds request row
get_node-upsert_enqueue_node_example =
    get_node-upsert_enqueue_node request 300 300 two_topics accepted.1 false accepted_ok

abbrev broken : DispatchAnswers
broken = record answers { ensure_session = err (codes "no session") }

dispatch_one-session_error_example :
    ((dispatch_one broken (pos 1000) t1 n1 two_topics).0 ≡ err (session_error (codes "no session")))
    × (has n1 (running_ids t1 (dispatch_one broken (pos 1000) t1 n1 two_topics).1.nodes) ≡ true)
dispatch_one-session_error_example =
    dispatch_one-session_error broken (pos 1000) t1 n1 (codes "no session") a_node two_topics refl
      refl refl a_node_found

abbrev busy : TopicControlState
busy = record a_topic { priority_dirty = true; running_node_ids = n1 ∷ [] }

abbrev requested : RuntimeDb
requested = (enqueue served served served request empty_db).1

abbrev no_snapshot : TopicSnapshot
no_snapshot = to_snapshot a_topic []

abbrev requested_snapshot : TopicSnapshot
requested_snapshot = or_else no_snapshot (build_topic_snapshot t1 100 requested)

abbrev no_plan : DispatchPlan
no_plan = record {
  topic_id = [];
  active_priority = none;
  current_node_id = none;
  active_candidate_node_ids = [];
  dispatch_node_ids = [];
  stalled = false;
  reasons = [];
}

abbrev requested_plan : DispatchPlan
requested_plan = or_else no_plan (plan_topic_dispatch requested_snapshot (pos 1))

requested_snapshot_ok : build_topic_snapshot t1 100 requested ≡ ok requested_snapshot
unfolding build_topic_snapshot enqueue ◌>>=◌ str_dec
requested_snapshot_ok = refl

requested_plan_ok : plan_topic_dispatch requested_snapshot (pos 1) ≡ ok requested_plan
unfolding plan_topic_dispatch
requested_plan_ok = refl

requested_plan-has : has n1 requested_plan.dispatch_node_ids ≡ true
unfolding plan_topic_dispatch non_terminal_nodes build_topic_snapshot enqueue ◌>>=◌ str_dec
    status_is_terminal layer highest_rank sort_active_candidates dispatchable status_blocks_dispatch
    choose_current_node_id
requested_plan-has = refl

dispatched-not_running_example : has n1 (running_ids t1 requested.nodes) ≡ false
dispatched-not_running_example =
    dispatched-not_running requested t1 100 1 requested_snapshot requested_plan n1
      (enqueued served served served request empty_db created) requested_snapshot_ok
      requested_plan_ok requested_plan-has
