-- ===== src/Schedule/Engine/Enqueue.antt =====
-- engine.go: `Enqueue`.
use openmate.Base.{
  GoString, codes, ◌=?◌, is_empty, Option, none, some, [], Bool, true, not, if◌then◌else◌, ◌&&◌,
}
use openmate.Base.Int.{pos, ◌==ℤ◌}
use openmate.Schedule.Types.{
  TopicQueueLevel, NodePriority, empty_topic_id, empty_node_id, validate_priority,
}
use openmate.Schedule.Runtime.{EnqueueRequest}
use openmate.Schedule.Runtime.Topics.{get_topic}
use openmate.Schedule.Runtime.Nodes.{upsert_enqueue_node}
use openmate.Schedule.Engine.{
  refused, fixed_priority, Step, ◌>>=◌, ◌>>◌, return, Call, lift, query, check, checked_step,
}

pub record EnqueueResult : Type 0 where
  pub topic_id : GoString
  pub node_id : GoString
  pub created : Bool
  pub priority_dirty : Bool
  pub priority_node_id : GoString
  pub queue_level : TopicQueueLevel
  pub idempotency_key : GoString

-- The label `BusinessNodePriorityLabel` and the rank `BusinessNodePriorityRank`.
abbrev pub business : NodePriority
business = record { label = codes "interactive"; rank = pos 1 }

abbrev pub with_defaults : EnqueueRequest → EnqueueRequest
with_defaults request = record request {
  node_name = if is_empty request.node_name then request.node_id else request.node_name;
  priority = if is_empty request.priority.label then business else request.priority;
}

unfoldable pub normalize_business_enqueue_request : EnqueueRequest → Step EnqueueRequest
unfolding validate_priority
normalize_business_enqueue_request request = do
  check (not (is_empty request.topic_id)) (refused empty_topic_id)
  check (not (is_empty request.node_id)) (refused empty_node_id)
  let r = with_defaults request
  checked_step (validate_priority r.priority)
  check ((r.priority.label =? business.label) && (r.priority.rank ==ℤ business.rank)) fixed_priority
  return (record r { mark_priority_dirty = true })

abbrev pub or_empty : Option GoString → GoString
or_empty none = []
or_empty (some text) = text

-- `Enqueue`; `ensure` and `upsert` are the statement and the transaction of `UpsertEnqueueNode`.
unfoldable pub enqueue : Call → Call → Call → EnqueueRequest → Step EnqueueResult
unfolding normalize_business_enqueue_request upsert_enqueue_node get_topic
enqueue ensure upsert load raw = normalize_business_enqueue_request raw >>= λ request.
    (λ db. lift (upsert_enqueue_node ensure.fault upsert.fault request ensure.now upsert.now db))
    >>= λ created. query load (get_topic request.topic_id) >>= λ topic. return (record {
      topic_id = request.topic_id;
      node_id = request.node_id;
      created = created;
      priority_dirty = topic.priority_dirty;
      priority_node_id = or_empty topic.priority_node_id;
      queue_level = topic.queue_level;
      idempotency_key = request.idempotency_key;
    })
