-- ===== src/Schedule/Engine/Dispatch.antt =====
-- engine.go: `dispatchOne`. `AppendDispatchResultEvent` answers an error that is ignored, and is
-- left out.
use openmate.Base.{
  GoString, codes, ◌=?◌, is_empty, Option, none, some, List, [], ◌++◌, Bool, if◌then◌else◌, Result,
  ok, err,
}
use openmate.Base.Int.{ℤ}
use openmate.Schedule.Types.{NodeStatus, ready, retry_cooldown, succeeded, failed}
use openmate.Schedule.Runtime.{
  AgentSpec, NodeQueueState, DispatchRecord, WorkerPriorityAssignment, run_tx,
}
use openmate.Schedule.Runtime.Topics.{clear_priority_dirty}
use openmate.Schedule.Runtime.Nodes.{apply_priority_plan}
use openmate.Schedule.Runtime.Work.{
  get_node, set_node_session_id, mark_node_running, mark_node_finished, record_dispatch,
}
use openmate.Schedule.Engine.Selection.{load_priority_candidates, WorkerCandidateNode}
use openmate.Schedule.Engine.{
  session_error, event_error, worker_error, Step, ◌>>=◌, ◌>>◌, return, Call, write, query, ask,
}

pub record WorkerExecuteRequest : Type 0 where
  pub request_id : GoString
  pub topic_id : GoString
  pub node_id : GoString
  pub node_name : GoString
  pub node_kind : GoString
  pub agent_spec : AgentSpec
  pub session_id : GoString
  pub event_id : GoString
  pub timeout_ms : ℤ
  pub cancel_token : GoString
  pub priority_candidates : List WorkerCandidateNode

pub record WorkerExecuteResponse : Type 0 where
  pub request_id : GoString
  pub topic_id : GoString
  pub node_id : GoString
  pub session_id : GoString
  pub event_id : GoString
  pub status : GoString
  pub next_node_status : Option NodeStatus
  pub output : GoString
  pub error : GoString
  pub retryable : Bool
  pub duration_ms : ℤ
  pub priority_plan : List WorkerPriorityAssignment

abbrev pub is_success : WorkerExecuteResponse → Bool
is_success response = response.status =? codes "succeeded"

unfoldable pub resolve_node_status : NodeQueueState → WorkerExecuteResponse → NodeStatus
resolve_node_status node response = elim response.next_node_status [
  | some status ↦ status
  | none ↦
      if node.is_priority_node
      then (if is_success response then succeeded else failed)
      else if is_success response
      then ready
      else if response.retryable
      then retry_cooldown
      else failed
]

-- What the calls of one dispatch are answered. `stamp` is the clock in nanoseconds, in decimal.
pub record DispatchAnswers : Type 0 where
  pub load_node : Call
  pub mark_running : Call
  pub ensure_session : Result GoString GoString
  pub set_session : Call
  pub stamp : GoString
  pub authorize : Result GoString GoString
  pub list_candidates : Call
  pub execute : WorkerExecuteRequest → Result GoString WorkerExecuteResponse
  pub mark_finished : Call
  pub finish_plan : Call
  pub record_result : Call

abbrev pub node_kind : NodeQueueState → GoString
node_kind node = if node.is_priority_node then codes "priority" else codes "normal"

-- The session is stored if it is not the one of the row.
unfoldable pub persist_session :
    Call → GoString → GoString → NodeQueueState → GoString → Step (Unit {0})
unfolding write set_node_session_id
persist_session call topic node row session = elim row.session_id [
  | none ↦ write call (set_node_session_id topic node session)
  | some known ↦
      if known =? session then return tt else write call (set_node_session_id topic node session)
]

unfoldable pub candidates_for : Call → GoString → NodeQueueState → Step (List WorkerCandidateNode)
unfolding load_priority_candidates
candidates_for call topic row =
    if row.is_priority_node
    then query call (λ db. ok (load_priority_candidates topic db))
    else return []

-- A failed call of the worker: the node is marked as failed, and a fault of that is ignored.
unfoldable pub execute_or_fail :
    DispatchAnswers → GoString → GoString → WorkerExecuteRequest → Step WorkerExecuteResponse
unfolding mark_node_finished run_tx
execute_or_fail a topic node request db = elim (a.execute request) [
  | ok response ↦ (ok response, db)
  | err text ↦ (
    err (worker_error text),
    (run_tx a.mark_finished.fault (mark_node_finished topic node failed a.mark_finished.now) db).1,
  )
]

abbrev pub failure_message : WorkerExecuteResponse → GoString
failure_message response =
    if is_empty response.error then codes "priority node execution failed" else response.error

-- After a priority node: its plan is applied, or the topic is no longer dirty.
unfoldable pub finish_priority :
    Call → GoString → NodeQueueState → WorkerExecuteResponse → Step (Unit {0})
unfolding write apply_priority_plan clear_priority_dirty
finish_priority call topic row response =
    if row.is_priority_node
    then (if is_success response
        then write call (apply_priority_plan topic response.priority_plan)
        else write call (clear_priority_dirty topic (some (failure_message response))))
    else return tt

abbrev pub worker_request :
    ℤ
    → GoString
    → GoString
    → NodeQueueState
    → GoString
    → GoString
    → GoString
    → List WorkerCandidateNode
    → WorkerExecuteRequest
worker_request timeout topic node row session request event candidates = record {
  request_id = request;
  topic_id = topic;
  node_id = node;
  node_name = row.name;
  node_kind = node_kind row;
  agent_spec = row.agent_spec;
  session_id = session;
  event_id = event;
  timeout_ms = timeout;
  cancel_token = [];
  priority_candidates = candidates;
}

abbrev pub dispatch_record :
    GoString
    → GoString
    → NodeQueueState
    → GoString
    → GoString
    → GoString
    → WorkerExecuteResponse
    → DispatchRecord
dispatch_record topic node row session request event response = record {
  request_id = request;
  topic_id = topic;
  node_id = node;
  node_kind = node_kind row;
  session_id = session;
  event_id = event;
  status = response.status;
  retryable = response.retryable;
  error = response.error;
  duration_ms = response.duration_ms;
}

-- The part of `dispatchOne` from the answer of the worker on.
unfoldable pub finish_dispatch :
    DispatchAnswers
    → GoString
    → GoString
    → NodeQueueState
    → GoString
    → GoString
    → GoString
    → WorkerExecuteResponse
    → Step DispatchRecord
unfolding write mark_node_finished resolve_node_status finish_priority record_dispatch
finish_dispatch a topic node row session request event response = do
  write a.mark_finished (mark_node_finished topic node (resolve_node_status row response))
  finish_priority a.finish_plan topic row response
  let result = dispatch_record topic node row session request event response
  write a.record_result (λ now. record_dispatch result)
  return result

-- `dispatchOne`
unfoldable pub dispatch_one : DispatchAnswers → ℤ → GoString → GoString → Step DispatchRecord
unfolding write get_node mark_node_running persist_session candidates_for execute_or_fail
    finish_dispatch
dispatch_one a timeout topic node = do
  row ← query a.load_node (get_node topic node)
  write a.mark_running (mark_node_running topic node)
  session ← ask session_error a.ensure_session
  persist_session a.set_session topic node row session
  let request = node ++ codes "-" ++ a.stamp
  event ← ask event_error a.authorize
  candidates ← candidates_for a.list_candidates topic row
  response ←
      execute_or_fail a topic node
        (worker_request timeout topic node row session request event candidates)
  finish_dispatch a topic node row session request event response
