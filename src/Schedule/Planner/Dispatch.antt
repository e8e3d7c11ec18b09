-- ===== src/Schedule/Planner/Dispatch.antt =====
-- Which nodes a dispatch plan starts, and how many.
use openmate.Base.{
  ℕ, GoString, List, [], ◌∷◌, ◌++◌, true, false, ◌≡◌, refl, ◌⊎◌, inl, inr, In, arith, subst, Option,
  none, some, ok, Bool-cases, ◌=?◌, any-append,
}
use openmate.Base.Int.{pos}
use openmate.Schedule.Types.{TopicNode, TopicSnapshot, TopicRuntimeState, DispatchPlan, has}
use openmate.Schedule.Planner.{
  candidate_node_ids, choose_current_node_id, start, fill, plan_topic_dispatch, pick,
}
use openmate.Schedule.Planner.Layer.{Eligible, candidates, candidates_iff}
use openmate.Schedule.Planner.Shape.{dispatched, plan-Shape}

fill-has :
    (cur : Option GoString) (run : List GoString) (slots : ℕ) (ns : List TopicNode)
    (ids : List GoString) (id : GoString)
    → has id (fill cur run slots ns ids) ≡ true
    → (has id ids ≡ true) ⊎ ((has id (candidate_node_ids ns) ≡ true) × (has id run ≡ false))
unfolding fill candidate_node_ids
fill-has cur run slots [] ids id h = inl h
fill-has cur run slots (n ∷ ns) ids id h = ground (
  arith,
  fill-has cur run slots ns ids id,
  fill-has cur run slots ns (ids ++ n.node_id ∷ []) id,
  any-append (λ k. k =? id) ids (n.node_id ∷ []),
)

pick-has :
    (o : Option GoString) (ids : List GoString) (id : GoString)
    → pick o ids ≡ some id
    → has id ids ≡ true
unfolding pick
pick-has none ids id h = cc
pick-has (some c) ids id h = ground arith

-- The chosen current node is a candidate.
pub choose_current-has :
    (cs : List TopicNode) (r : TopicRuntimeState) (id : GoString)
    → choose_current_node_id cs r ≡ some id
    → has id (candidate_node_ids cs) ≡ true
unfolding choose_current_node_id candidate_node_ids
choose_current-has cs r id h = ground (
  arith,
  pick-has r.current_node_id (candidate_node_ids cs) id,
  pick-has r.last_worked_node_id (candidate_node_ids cs) id,
)

start-has :
    (cur : Option GoString) (run : List GoString) (slots : ℕ) (id : GoString)
    → has id (start cur run slots) ≡ true
    → (cur ≡ some id) × (has id run ≡ false)
unfolding start
start-has cur run slots id h = ground arith

pub has-candidate_node_ids :
    (id : GoString) (cs : List TopicNode)
    → has id (candidate_node_ids cs) ≡ true
    → (n : TopicNode) × In n cs × (n.node_id ≡ id)
unfolding candidate_node_ids
has-candidate_node_ids id [] h = cc
has-candidate_node_ids id (n ∷ cs) h = elim (Bool-cases (n.node_id =? id)) [
  | inl e ↦ (n, inl refl, ground arith)
  | inr e ↦ let (k, i, q) = has-candidate_node_ids id cs (ground arith) in (k, inr i, q)
]

dispatched-has :
    (topic : TopicSnapshot) (slots : ℕ) (cs : List TopicNode) (id : GoString)
    → has id (dispatched topic slots cs) ≡ true
    → (has id (candidate_node_ids cs) ≡ true) × (has id topic.runtime.running_node_ids ≡ false)
unfolding dispatched
dispatched-has topic slots cs id h =
    let current = choose_current_node_id cs topic.runtime in
    let running = topic.runtime.running_node_ids in
    ground (
      arith,
      fill-has current running slots cs (start current running slots) id h,
      start-has current running slots id,
      choose_current-has cs topic.runtime id,
    )

-- Every id that a plan dispatches belongs to a node of the topic that is eligible (not terminal,
-- not blocked, and of the highest priority, that is of the least rank, among the nodes that are
-- not terminal), and is not already running.
pub plan-dispatch-Eligible :
    (topic : TopicSnapshot) (slots : ℕ) (plan : DispatchPlan) (id : GoString)
    → plan_topic_dispatch topic (pos slots) ≡ ok plan
    → has id plan.dispatch_node_ids ≡ true
    → (n : TopicNode) × (n.node_id ≡ id)
      × Eligible topic n
      × (has id topic.runtime.running_node_ids ≡ false)
plan-dispatch-Eligible topic slots plan id h k =
    let shape = plan-Shape topic slots plan h in
    let (listed, idle) =
      dispatched-has topic slots (candidates topic) id
        (subst (λ ids. has id ids ≡ true) shape.dispatch k) in
    let (n, i, e) = has-candidate_node_ids id (candidates topic) listed in
    (n, e, (candidates_iff topic n).0 i, idle)
