-- ===== src/Schedule/Planner/Current.antt =====
-- Continuation first, no id twice, and when a topic stalls.
use openmate.Base.{
  ℕ, suc, GoString, List, [], ◌∷◌, ◌++◌, true, false, not, if◌then◌else◌, ◌≡◌, refl, inl, inr, In,
  arith, ap, subst, ◌↔◌, Option, some, ok, Bool-cases, ◌=?◌, ◌∙◌, count, length, ◌+◌, ◌≤◌, ◌<◌,
  ◌||◌, ◌&&◌, leb, count-append, ◌≢◌,
}
use openmate.Base.Int.{pos}
use openmate.Schedule.Types.{TopicNode, TopicSnapshot, TopicRuntimeState, DispatchPlan, has}
use openmate.Schedule.Planner.{
  candidate_node_ids, choose_current_node_id, start, fill, plan_topic_dispatch, same_id,
  status_is_terminal, non_terminal_nodes, layer, dispatchable, sort_active_candidates, highest_rank,
  plan_non_terminal, plan_layer, plan_candidates, idle_plan, stalled_plan, active_plan,
}
use openmate.Schedule.Planner.Layer.{
  Eligible, candidates, candidates_iff, layer_candidates, live_nodes, live_nodes_intro,
}
use openmate.Schedule.Planner.Shape.{dispatched, plan-Shape, layer_ne}
use openmate.Schedule.Planner.Filling.{Unique, candidates-Unique, count-candidate_node_ids}

fill-count :
    (cur : Option GoString) (run : List GoString) (slots : ℕ) (ns : List TopicNode)
    (ids : List GoString) (id : GoString)
    → count (λ k. k =? id) (fill cur run slots ns ids)
      ≤ count (λ k. k =? id) ids + count (λ n. not (same_id cur n.node_id) && (n.node_id =? id)) ns
unfolding fill
fill-count cur run slots [] ids id = omega arith
fill-count cur run slots (n ∷ ns) ids id = ground (
  arith,
  fill-count cur run slots ns ids id,
  fill-count cur run slots ns (ids ++ n.node_id ∷ []) id,
  count-append (λ k. k =? id) ids (n.node_id ∷ []),
)

others-le :
    (cur : Option GoString) (ns : List TopicNode) (id : GoString)
    → count (λ n. not (same_id cur n.node_id) && (n.node_id =? id)) ns
      ≤ (if same_id cur id then 0 else count (λ n. n.node_id =? id) ns)
unfolding same_id
others-le cur [] id = ground arith
others-le cur (n ∷ ns) id = ground (arith, others-le cur ns id)

start-count :
    (cur : Option GoString) (run : List GoString) (slots : ℕ) (id : GoString)
    → count (λ k. k =? id) (start cur run slots) ≤ (if same_id cur id then 1 else 0)
unfolding start same_id
start-count cur run slots id = ground arith

-- For a topic with distinct node ids, a plan dispatches no node twice.
pub plan_dispatch-Unique :
    (topic : TopicSnapshot) (slots : ℕ) (plan : DispatchPlan)
    → Unique (candidate_node_ids topic.nodes)
    → plan_topic_dispatch topic (pos slots) ≡ ok plan
    → Unique plan.dispatch_node_ids
unfolding dispatched
plan_dispatch-Unique topic slots plan unique h id =
    let cs = candidates topic in
    let cur = choose_current_node_id cs topic.runtime in
    let run = topic.runtime.running_node_ids in
    rw ((plan-Shape topic slots plan h).dispatch) (
      ground (
        arith,
        fill-count cur run slots cs (start cur run slots) id,
        others-le cur cs id,
        start-count cur run slots id,
        candidates-Unique topic unique id,
        count-candidate_node_ids (λ k. k =? id) cs,
      ))

has_of_In :
    (n : TopicNode) (cs : List TopicNode) → In n cs → has n.node_id (candidate_node_ids cs) ≡ true
unfolding candidate_node_ids
has_of_In n [] h = absurd h
has_of_In n (m ∷ cs) (inl e) = ground (arith, ap (λ (k : TopicNode). k.node_id) e)
has_of_In n (m ∷ cs) (inr i) = ground (arith, has_of_In n cs i)

fill-cons :
    (cur : Option GoString) (run : List GoString) (slots : ℕ) (ns : List TopicNode) (c : GoString)
    (ids : List GoString)
    → (rest : List GoString) × (fill cur run slots ns (c ∷ ids) ≡ c ∷ rest)
unfolding fill
fill-cons cur run slots [] c ids = (ids, refl)
fill-cons cur run slots (n ∷ ns) c ids = elim (Bool-cases (leb slots (suc (length ids)))) [
  | inl full ↦ (ids, rw full)
  | inr room ↦ elim (Bool-cases (same_id cur n.node_id || has n.node_id run)) [
    | inl skip ↦ let (rest, e) = fill-cons cur run slots ns c ids in (rest, rw (room, skip) e)
    | inr take ↦
        let (rest, e) = fill-cons cur run slots ns c (ids ++ n.node_id ∷ []) in
        (rest, rw (room, take) e)
  ]
]

choose_continues :
    (cs : List TopicNode) (r : TopicRuntimeState) (c : GoString)
    → r.current_node_id ≡ some c
    → has c (candidate_node_ids cs) ≡ true
    → choose_current_node_id cs r ≡ some c
unfolding choose_current_node_id
choose_continues cs r c e h = ground arith

dispatched_first :
    (topic : TopicSnapshot) (slots : ℕ) (cs : List TopicNode) (c : GoString)
    → choose_current_node_id cs topic.runtime ≡ some c
    → 0 < slots
    → has c topic.runtime.running_node_ids ≡ false
    → (rest : List GoString) × (dispatched topic slots cs ≡ c ∷ rest)
unfolding dispatched start
dispatched_first topic slots cs c e room idle =
    let (rest, q) = fill-cons (some c) topic.runtime.running_node_ids slots cs c [] in
    (rest, rw (e, idle) (ground (arith, q)))

-- With a free slot, the current node of a topic, while it is eligible and does not run, stays
-- the current node of the plan and is dispatched first.
pub plan_continues :
    (topic : TopicSnapshot) (slots : ℕ) (plan : DispatchPlan) (n : TopicNode)
    → plan_topic_dispatch topic (pos slots) ≡ ok plan
    → topic.runtime.current_node_id ≡ some n.node_id
    → Eligible topic n
    → 0 < slots
    → has n.node_id topic.runtime.running_node_ids ≡ false
    → (plan.current_node_id ≡ some n.node_id)
      × ((rest : List GoString) × (plan.dispatch_node_ids ≡ n.node_id ∷ rest))
plan_continues topic slots plan n h current eligible room idle =
    let shape = plan-Shape topic slots plan h in
    let listed = has_of_In n (candidates topic) ((candidates_iff topic n).1 eligible) in
    let chosen = choose_continues (candidates topic) topic.runtime n.node_id current listed in
    let (rest, e) = dispatched_first topic slots (candidates topic) n.node_id chosen room idle in
    (shape.current ∙ chosen, (rest, shape.dispatch ∙ e))

candidates_stalled :
    (topic : TopicSnapshot) (label : GoString) (slots : ℕ) (cs : List TopicNode)
    → ((plan_candidates topic label slots cs).stalled ≡ true) ↔ (cs ≡ [])
unfolding plan_candidates stalled_plan active_plan
candidates_stalled topic label slots [] = (λ _. refl, λ _. refl)
candidates_stalled topic label slots (c ∷ cs) = (λ e. cc, λ e. cc)

layer_stalled :
    (topic : TopicSnapshot) (slots : ℕ) (l : List TopicNode)
    → l ≢ []
    → ((plan_layer topic slots l).stalled ≡ true) ↔ (sort_active_candidates (dispatchable l) ≡ [])
unfolding plan_layer
layer_stalled topic slots [] h = absurd (h refl)
layer_stalled topic slots (m ∷ l) h = candidates_stalled topic m.priority.label slots _

non_terminal_stalled :
    (topic : TopicSnapshot) (slots : ℕ) (l : List TopicNode)
    → ((plan_non_terminal topic slots l).stalled ≡ true) ↔ ((l ≢ []) × (layer_candidates l ≡ []))
unfolding plan_non_terminal layer_candidates idle_plan
non_terminal_stalled topic slots [] = (λ e. cc, λ h. absurd (h.0 refl))
non_terminal_stalled topic slots (m ∷ l) =
    let split =
      layer_stalled topic slots (layer (highest_rank m.priority.rank l) (m ∷ l)) (layer_ne m l) in
    (λ e. ((λ q. cc), split.0 e), λ h. split.1 h.1)

no_members : (l : List TopicNode) → ((n : TopicNode) → ¬ In n l) → l ≡ []
no_members [] h = refl
no_members (n ∷ l) h = absurd (h n (inl refl))

some_member : (l : List TopicNode) → l ≢ [] → (n : TopicNode) × In n l
some_member [] h = absurd (h refl)
some_member (n ∷ l) h = (n, inl refl)

stalled_live :
    (topic : TopicSnapshot)
    → (non_terminal_nodes topic ≢ []) × (candidates topic ≡ [])
    → ((n : TopicNode) × In n topic.nodes × (status_is_terminal n.status ≡ false))
      × ((n : TopicNode) → ¬ Eligible topic n)
stalled_live topic (filled, empty) =
    let (n, i) = some_member (non_terminal_nodes topic) filled in
    let (here, live) = live_nodes topic n i in
    ((n, here, live), λ k q. subst (In k) empty ((candidates_iff topic k).1 q))

live_stalled :
    (topic : TopicSnapshot)
    → ((n : TopicNode) × In n topic.nodes × (status_is_terminal n.status ≡ false))
      × ((n : TopicNode) → ¬ Eligible topic n)
    → (non_terminal_nodes topic ≢ []) × (candidates topic ≡ [])
live_stalled topic ((n, i, live), blocked) = (
  λ q. subst (In n) q (live_nodes_intro topic n i live),
  no_members (candidates topic) (λ k i'. blocked k ((candidates_iff topic k).0 i')),
)

plan_stalled_candidates :
    (topic : TopicSnapshot) (slots : ℕ) (plan : DispatchPlan)
    → plan_topic_dispatch topic (pos slots) ≡ ok plan
    → (plan.stalled ≡ true) ↔ ((non_terminal_nodes topic ≢ []) × (candidates topic ≡ []))
unfolding plan_topic_dispatch candidates
plan_stalled_candidates topic slots plan h =
    let e : plan_non_terminal topic slots (non_terminal_nodes topic) ≡ plan = cc in
    subst
      (λ (p : DispatchPlan).
        (p.stalled ≡ true)
        ↔ ((non_terminal_nodes topic ≢ []) × (layer_candidates (non_terminal_nodes topic) ≡ [])))
      e (non_terminal_stalled topic slots (non_terminal_nodes topic))

-- A plan is marked stalled exactly when some node of the topic is not terminal and no node is
-- eligible.
pub plan_stalled_iff :
    (topic : TopicSnapshot) (slots : ℕ) (plan : DispatchPlan)
    → plan_topic_dispatch topic (pos slots) ≡ ok plan
    → (plan.stalled ≡ true) ↔ (
        ((n : TopicNode) × In n topic.nodes × (status_is_terminal n.status ≡ false))
        × ((n : TopicNode) → ¬ Eligible topic n))
plan_stalled_iff topic slots plan h =
    let split = plan_stalled_candidates topic slots plan h in
    (λ s. stalled_live topic (split.0 s), λ l. split.1 (live_stalled topic l))
