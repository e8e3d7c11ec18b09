-- ===== src/Schedule/Engine/Selection.antt =====
-- engine.go: the choice of the topic, and the candidates that a priority node is shown.
use openmate.Base.{
  ℕ, GoString, str_ltb, Option, none, some, List, Bool, not, if◌then◌else◌, ◌&&◌, ltb, ◌==◌, keep,
  map, Result, ok, err,
}
use openmate.Base.Int.{ltb_ℤ, ◌==ℤ◌}
use openmate.Base.Sorting.{sort_by, first_with}
use openmate.Schedule.Types.{NodeStatus, NodePriority}
use openmate.Schedule.Planner.{status_is_terminal}
use openmate.Schedule.Runtime.{TopicControlState, NodeQueueState, RuntimeDb, RuntimeError}
use openmate.Schedule.Runtime.Topics.{list_topics, scan_topics, same_level, queue_level_order}
use openmate.Schedule.Runtime.Work.{list_nodes, has_runnable_nodes}

pub record WorkerCandidateNode : Type 0 where
  pub node_id : GoString
  pub name : GoString
  pub status : NodeStatus
  pub current_priority : NodePriority
  pub entered_priority_at : ℕ
  pub last_worked_at : Option ℕ

abbrev to_candidate : NodeQueueState → WorkerCandidateNode
to_candidate row = record {
  node_id = row.node_id;
  name = row.name;
  status = row.status;
  current_priority = record { label = row.priority_label; rank = row.priority_rank };
  entered_priority_at = row.entered_priority_at;
  last_worked_at = row.last_worked_at;
}

-- The `less` function of `loadPriorityCandidates`.
unfoldable pub candidate_before : WorkerCandidateNode → WorkerCandidateNode → Bool
candidate_before a b =
    if a.current_priority.rank ==ℤ b.current_priority.rank
    then (if a.entered_priority_at == b.entered_priority_at
        then str_ltb a.node_id b.node_id
        else ltb a.entered_priority_at b.entered_priority_at)
    else ltb_ℤ a.current_priority.rank b.current_priority.rank

unfoldable pub load_priority_candidates : GoString → RuntimeDb → List WorkerCandidateNode
unfolding candidate_before list_nodes status_is_terminal sort_by
load_priority_candidates topic db = sort_by candidate_before (
    map to_candidate (
      keep (λ row. not row.is_priority_node && not (status_is_terminal row.status))
        (list_nodes topic db)))

-- A topic that was never served is as one served at the zero time.
abbrev pub served_at : TopicControlState → ℕ
served_at t = elim t.last_served_at [ none ↦ 0 | some time ↦ time ]

-- The `less` function of `selectTopic`.
unfoldable pub topic_before : TopicControlState → TopicControlState → Bool
unfolding same_level queue_level_order
topic_before a b =
    if same_level a.queue_level b.queue_level
    then (if served_at a == served_at b
        then str_ltb a.topic_id b.topic_id
        else ltb (served_at a) (served_at b))
    else ltb (queue_level_order a.queue_level) (queue_level_order b.queue_level)

abbrev pub has_work : RuntimeDb → TopicControlState → Bool
has_work db t = has_runnable_nodes t.topic_id db

unfoldable pub choose :
    RuntimeDb
    → Result RuntimeError (List TopicControlState)
    → Result RuntimeError (Option TopicControlState)
unfolding topic_before sort_by first_with has_runnable_nodes
choose db (err e) = err e
choose db (ok topics) = ok (first_with (has_work db) (sort_by topic_before topics))

-- `selectTopic`: the first topic in this order that has runnable nodes.
unfoldable pub select_topic : RuntimeDb → Result RuntimeError (Option TopicControlState)
unfolding choose scan_topics
select_topic db = choose db (list_topics db)
