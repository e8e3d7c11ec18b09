-- ===== src/Schedule/Snapshots/Tests.antt =====
-- The planner's topic of four nodes is valid.
use openmate.Base.{true, ok, ◌≡◌, refl, All, str_dec, ℕ_discrete}
use openmate.Schedule.Types.{
  has, validate_snapshot, validate_level, validate_runtime, validate_running, validate_nodes,
  validate_node, validate_priority, is_known, rank_label, validate_known_reference,
  validate_known_running,
}
use openmate.Schedule.Planner.{candidate_node_ids}
use openmate.Schedule.Planner.Filling.{Unique}
use openmate.Schedule.Planner.Tests.{topic}
use openmate.Schedule.Snapshots.{refers, validate_snapshot-refers}

topic_valid : validate_snapshot topic ≡ ok tt
unfolding validate_snapshot validate_level validate_runtime validate_running validate_nodes
    validate_node validate_priority is_known rank_label validate_known_reference
    validate_known_running str_dec ℕ_discrete
topic_valid = refl

validate_snapshot-refers_example :
    Unique (candidate_node_ids topic.nodes)
    × Unique topic.runtime.running_node_ids
    × All (λ id. has id (candidate_node_ids topic.nodes) ≡ true) topic.runtime.running_node_ids
    × (refers topic.runtime.current_node_id (candidate_node_ids topic.nodes) ≡ true)
    × (refers topic.runtime.last_worked_node_id (candidate_node_ids topic.nodes) ≡ true)
validate_snapshot-refers_example = validate_snapshot-refers topic topic_valid
