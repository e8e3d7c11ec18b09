-- ===== src/Schedule/Planner/Shape.antt =====
-- The plan that `planTopicDispatch` returns, in terms of the ordered candidates.
use openmate.Base.{ℕ, GoString, List, [], ◌∷◌, ◌≡◌, refl, In, arith, subst, ok, In-keep_intro, ◌≢◌}
use openmate.Base.Int.{pos, ◌==ℤ◌}
use openmate.Schedule.Types.{TopicNode, TopicSnapshot, DispatchPlan}
use openmate.Schedule.Planner.{
  non_terminal_nodes, highest_rank, layer, dispatchable, sort_active_candidates, candidate_node_ids,
  choose_current_node_id, start, fill, plan_topic_dispatch, idle_plan, stalled_plan,
  plan_non_terminal, plan_layer, plan_candidates, active_plan,
}
use openmate.Schedule.Planner.Layer.{layer_candidates, candidates, highest_rank_reached_cons}

-- The dispatched ids of the loop, for ordered candidates.
unfoldable pub dispatched : TopicSnapshot → ℕ → List TopicNode → List GoString
dispatched topic slots cs =
    let current = choose_current_node_id cs topic.runtime in
    let running = topic.runtime.running_node_ids in
    fill current running slots cs (start current running slots)

pub record Shape (topic : TopicSnapshot) (slots : ℕ) (cs : List TopicNode) (plan : DispatchPlan)
    : Type 0 where
  pub active : plan.active_candidate_node_ids ≡ candidate_node_ids cs
  pub current : plan.current_node_id ≡ choose_current_node_id cs topic.runtime
  pub dispatch : plan.dispatch_node_ids ≡ dispatched topic slots cs

idle-Shape : (topic : TopicSnapshot) (slots : ℕ) → Shape topic slots [] (idle_plan topic)
unfolding idle_plan dispatched fill start choose_current_node_id candidate_node_ids
idle-Shape topic slots = ground arith

candidates-Shape :
    (topic : TopicSnapshot) (label : GoString) (slots : ℕ) (cs : List TopicNode)
    → Shape topic slots cs (plan_candidates topic label slots cs)
unfolding plan_candidates stalled_plan active_plan dispatched
candidates-Shape topic label slots [] =
    unfold fill start choose_current_node_id candidate_node_ids in ground arith
candidates-Shape topic label slots (c ∷ cs) = record {
  active = refl;
  current = refl;
  dispatch = refl;
}

layer-Shape :
    (topic : TopicSnapshot) (slots : ℕ) (l : List TopicNode)
    → l ≢ []
    → Shape topic slots (sort_active_candidates (dispatchable l)) (plan_layer topic slots l)
unfolding plan_layer
layer-Shape topic slots [] h = absurd (h refl)
layer-Shape topic slots (m ∷ l) h = candidates-Shape topic m.priority.label slots _

pub layer_ne :
    (m : TopicNode) (l : List TopicNode) → layer (highest_rank m.priority.rank l) (m ∷ l) ≢ []
unfolding layer
layer_ne m l e =
    let (k, i, top) = highest_rank_reached_cons m l in
    let ranks = λ (q : TopicNode). q.priority.rank ==ℤ highest_rank m.priority.rank l in
    subst (In k) e (In-keep_intro ranks k (m ∷ l) i (ground (arith, top)))

non_terminal-Shape :
    (topic : TopicSnapshot) (slots : ℕ) (l : List TopicNode)
    → Shape topic slots (layer_candidates l) (plan_non_terminal topic slots l)
unfolding plan_non_terminal layer_candidates
non_terminal-Shape topic slots [] = idle-Shape topic slots
non_terminal-Shape topic slots (m ∷ l) =
    layer-Shape topic slots (layer (highest_rank m.priority.rank l) (m ∷ l)) (layer_ne m l)

-- A plan is made from the ordered candidates, whatever branch made it.
pub plan-Shape :
    (topic : TopicSnapshot) (slots : ℕ) (plan : DispatchPlan)
    → plan_topic_dispatch topic (pos slots) ≡ ok plan
    → Shape topic slots (candidates topic) plan
unfolding plan_topic_dispatch candidates
plan-Shape topic slots plan h =
    subst (Shape topic slots _) (cc) (non_terminal-Shape topic slots (non_terminal_nodes topic))
