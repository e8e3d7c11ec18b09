-- ===== src/Schedule/Planner/Tests.antt =====
-- A topic of four nodes, its plan, and each theorem of the planner at it.
use Prim.Native.Nat.{min}
use openmate.Base.{
  ℕ, GoString, codes, List, [], ◌∷◌, true, false, not, ◌≡◌, refl, ◌↔◌, In, inl, inr, arith, none,
  some, ok, count, length, ◌=?◌, str_dec, ℕ_discrete,
}
use openmate.Base.Int.{pos}
use openmate.Schedule.Types.{
  TopicNode, TopicSnapshot, TopicRuntimeState, DispatchPlan, NodeStatus, ready, running, succeeded,
  l0, has,
}
use openmate.Schedule.Planner.{
  plan_topic_dispatch, candidate_node_ids, sort_active_candidates, candidate_less,
  status_is_terminal, status_blocks_dispatch, choose_current_node_id, non_terminal_nodes,
  highest_rank, layer, dispatchable, fill,
}
use openmate.Schedule.Planner.Sorting.{IsOrdered, SameMembers, sort_active_candidates_iff}
use openmate.Schedule.Planner.Layer.{Eligible, candidates, candidates_iff}
use openmate.Schedule.Planner.Dispatch.{plan-dispatch-Eligible}
use openmate.Schedule.Planner.Filling.{Unique, length-plan_dispatch}
use openmate.Schedule.Planner.Current.{plan_dispatch-Unique, plan_continues, plan_stalled_iff}

abbrev make_node : GoString → NodeStatus → ℕ → ℕ → TopicNode
make_node id status rank entered = record {
  node_id = id;
  name = id;
  priority = record { label = codes "p"; rank = pos rank };
  status = status;
  entered_priority_at = entered;
  last_worked_at = none;
}

abbrev node_a : TopicNode
node_a = make_node (codes "a") ready 1 20

abbrev node_b : TopicNode
node_b = make_node (codes "b") ready 1 10

abbrev node_c : TopicNode
node_c = make_node (codes "c") succeeded 0 5

abbrev node_d : TopicNode
node_d = make_node (codes "d") running 1 5

abbrev node_e : TopicNode
node_e = make_node (codes "e") ready 2 1

abbrev runtime : TopicRuntimeState
runtime = record {
  topic_id = codes "t";
  active_priority = none;
  current_node_id = some (codes "a");
  running_node_ids = codes "d" ∷ [];
  last_worked_node_id = none;
  last_worked_at = none;
  switch_count = pos 0;
  priority_dirty = false;
}

abbrev pub topic : TopicSnapshot
topic = record {
  topic_id = codes "t";
  queue_level = l0;
  nodes = node_a ∷ node_b ∷ node_c ∷ node_d ∷ node_e ∷ [];
  runtime = runtime;
}

abbrev plan : DispatchPlan
plan = record {
  topic_id = codes "t";
  active_priority = some (codes "p");
  current_node_id = some (codes "a");
  active_candidate_node_ids = codes "d" ∷ codes "b" ∷ codes "a" ∷ [];
  dispatch_node_ids = codes "a" ∷ codes "b" ∷ [];
  stalled = false;
  reasons =
      codes "active priority resolved to p" ∷ codes "continuation-first kept the current node" ∷ [];
}

plan_of_topic : plan_topic_dispatch topic (pos 2) ≡ ok plan
unfolding plan_topic_dispatch non_terminal_nodes status_is_terminal highest_rank layer dispatchable
    status_blocks_dispatch sort_active_candidates candidate_less choose_current_node_id fill
    candidate_node_ids str_dec ℕ_discrete
plan_of_topic = refl

node_a-Eligible : Eligible topic node_a
unfolding candidates non_terminal_nodes status_is_terminal highest_rank layer dispatchable
    status_blocks_dispatch sort_active_candidates candidate_less
node_a-Eligible = (candidates_iff topic node_a).0 (inr (inr (inl refl)))

topic-Unique : Unique (candidate_node_ids topic.nodes)
unfolding candidate_node_ids
topic-Unique id = ground arith

candidates_iff_example : In node_a (candidates topic) ↔ Eligible topic node_a
candidates_iff_example = candidates_iff topic node_a

plan-dispatch-Eligible_example :
    (n : TopicNode) × (n.node_id ≡ codes "b")
    × Eligible topic n
    × (has (codes "b") (codes "d" ∷ []) ≡ false)
unfolding str_dec ℕ_discrete
plan-dispatch-Eligible_example = plan-dispatch-Eligible topic 2 plan (codes "b") plan_of_topic refl

length-plan_dispatch_example :
    length plan.dispatch_node_ids
    ≡ min 2 (count (λ id. not (has id (codes "d" ∷ []))) plan.active_candidate_node_ids)
length-plan_dispatch_example = length-plan_dispatch topic 2 plan topic-Unique plan_of_topic

plan_dispatch-Unique_example : Unique plan.dispatch_node_ids
plan_dispatch-Unique_example = plan_dispatch-Unique topic 2 plan topic-Unique plan_of_topic

plan_continues_example :
    (plan.current_node_id ≡ some (codes "a"))
    × ((rest : List GoString) × (plan.dispatch_node_ids ≡ codes "a" ∷ rest))
unfolding str_dec ℕ_discrete
plan_continues_example =
    plan_continues topic 2 plan node_a plan_of_topic refl node_a-Eligible (omega arith) refl

plan_stalled_iff_example : (false ≡ true) ↔ (
    ((n : TopicNode) × In n topic.nodes × (status_is_terminal n.status ≡ false))
    × ((n : TopicNode) → ¬ Eligible topic n))
plan_stalled_iff_example = plan_stalled_iff topic 2 plan plan_of_topic

b_a : (codes "b" =? codes "a") ≡ false
unfolding str_dec ℕ_discrete
b_a = refl

sort_active_candidates_iff_example :
    (sort_active_candidates (node_b ∷ node_a ∷ []) ≡ sort_active_candidates (node_b ∷ node_a ∷ []))
    ↔ (IsOrdered (sort_active_candidates (node_b ∷ node_a ∷ []))
        × SameMembers (sort_active_candidates (node_b ∷ node_a ∷ [])) (node_b ∷ node_a ∷ []))
sort_active_candidates_iff_example =
    sort_active_candidates_iff (node_b ∷ node_a ∷ [])
      (sort_active_candidates (node_b ∷ node_a ∷ [])) ((b_a, tt), (tt, tt))
