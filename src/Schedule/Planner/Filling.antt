-- ===== src/Schedule/Planner/Filling.antt =====
-- The slots are filled: as many nodes start as there are slots and candidates that do not run, the
-- current node first, and none twice.
use Prim.Native.Nat.{min}
use openmate.Base.{
  ℕ, GoString, List, [], ◌∷◌, ◌++◌, Bool, true, not, if◌then◌else◌, ◌≡◌, refl, arith, ap, Option,
  none, some, ok, ◌=?◌, count, length, keep, length-append, ◌+◌, ◌≤◌, ◌||◌, ◌&&◌, ltb,
}
use openmate.Base.Int.{pos}
use openmate.Schedule.Types.{TopicNode, TopicSnapshot, TopicRuntimeState, DispatchPlan, has}
use openmate.Schedule.Planner.{
  candidate_node_ids, choose_current_node_id, start, fill, plan_topic_dispatch, same_id,
  status_is_terminal, non_terminal_nodes, layer, dispatchable,
}
use openmate.Schedule.Planner.Sorting.{count-sort_active_candidates}
use openmate.Schedule.Planner.Layer.{candidates, layer_candidates}
use openmate.Schedule.Planner.Shape.{dispatched, plan-Shape}
use openmate.Schedule.Planner.Dispatch.{choose_current-has}

-- No id stands twice.
abbrev pub Unique : List GoString → Type 0
Unique ids = (id : GoString) → count (λ k. k =? id) ids ≤ 1

pub count-candidate_node_ids :
    (p : GoString → Bool) (l : List TopicNode)
    → count p (candidate_node_ids l) ≡ count (λ n. p n.node_id) l
unfolding candidate_node_ids
count-candidate_node_ids p [] = refl
count-candidate_node_ids p (n ∷ l) = ground (arith, count-candidate_node_ids p l)

count-keep-le : (p q : TopicNode → Bool) (l : List TopicNode) → count p (keep q l) ≤ count p l
count-keep-le p q [] = omega arith
count-keep-le p q (n ∷ l) = ground (arith, count-keep-le p q l)

count-layer_candidates-le :
    (p : TopicNode → Bool) (l : List TopicNode) → count p (layer_candidates l) ≤ count p l
unfolding layer_candidates dispatchable layer
count-layer_candidates-le p [] = omega arith
count-layer_candidates-le p (n ∷ l) =
    rw (count-sort_active_candidates p) (grind (arith, count-keep-le p))

count-candidates-le :
    (p : TopicNode → Bool) (topic : TopicSnapshot)
    → count p (candidates topic) ≤ count p topic.nodes
unfolding candidates non_terminal_nodes
count-candidates-le p topic = omega (
  arith,
  count-layer_candidates-le p (non_terminal_nodes topic),
  count-keep-le p (λ n. not (status_is_terminal n.status)) topic.nodes,
)

fill-length :
    (cur : Option GoString) (run : List GoString) (slots : ℕ) (ns : List TopicNode)
    (ids : List GoString)
    → length ids ≤ slots
    → length (fill cur run slots ns ids)
      ≡ min slots (length ids + count (λ n. not (same_id cur n.node_id || has n.node_id run)) ns)
unfolding fill
fill-length cur run slots [] ids h = omega arith
fill-length cur run slots (n ∷ ns) ids h = ground (
  arith,
  fill-length cur run slots ns ids h,
  fill-length cur run slots ns (ids ++ n.node_id ∷ []),
  length-append ids (n.node_id ∷ []),
)

split_current :
    (c : GoString) (run : List GoString) (ns : List TopicNode)
    → count (λ n. not (has n.node_id run)) ns
      ≡ count (λ n. not (same_id (some c) n.node_id || has n.node_id run)) ns
        + (if has c run then 0 else count (λ n. n.node_id =? c) ns)
unfolding same_id
split_current c run [] = ground arith
split_current c run (n ∷ ns) = ground (arith, split_current c run ns, ap (λ id. has id run))

count_pos_of_has :
    (id : GoString) (ids : List GoString) → has id ids ≡ true → 1 ≤ count (λ k. k =? id) ids
count_pos_of_has id [] h = cc
count_pos_of_has id (k ∷ ids) h = ground (arith, count_pos_of_has id ids)

choose_none :
    (cs : List TopicNode) (r : TopicRuntimeState) → choose_current_node_id cs r ≡ none → cs ≡ []
unfolding choose_current_node_id candidate_node_ids
choose_none [] r h = refl
choose_none (n ∷ cs) r h = ground arith

-- The loop from its start, for an optional current node that is a candidate if it is there.
length-fill-start :
    (cur : Option GoString) (run : List GoString) (slots : ℕ) (cs : List TopicNode)
    → ((c : GoString) → cur ≡ some c → count (λ n. n.node_id =? c) cs ≡ 1)
    → (cur ≡ none → cs ≡ [])
    → length (fill cur run slots cs (start cur run slots))
      ≡ min slots (count (λ n. not (has n.node_id run)) cs)
unfolding start
length-fill-start none run slots cs one empty = rw (empty refl) (unfold fill in omega arith)
length-fill-start (some c) run slots cs one empty = ground (
  arith,
  one c refl,
  split_current c run cs,
  fill-length (some c) run slots cs (if ltb 0 slots && not (has c run) then c ∷ [] else []),
)

length-dispatched :
    (topic : TopicSnapshot) (slots : ℕ) (cs : List TopicNode)
    → Unique (candidate_node_ids cs)
    → length (dispatched topic slots cs)
      ≡ min slots
          (count (λ id. not (has id topic.runtime.running_node_ids)) (candidate_node_ids cs))
unfolding dispatched
length-dispatched topic slots cs unique =
    rw (count-candidate_node_ids (λ id. not (has id topic.runtime.running_node_ids)) cs) (
      length-fill-start (choose_current_node_id cs topic.runtime) topic.runtime.running_node_ids
        slots cs
        (λ c e. omega (
          arith,
          unique c,
          count-candidate_node_ids (λ k. k =? c) cs,
          count_pos_of_has c (candidate_node_ids cs) (choose_current-has cs topic.runtime c e),
        ))
        (choose_none cs topic.runtime))

pub candidates-Unique :
    (topic : TopicSnapshot)
    → Unique (candidate_node_ids topic.nodes)
    → Unique (candidate_node_ids (candidates topic))
candidates-Unique topic unique id = omega (
  arith,
  unique id,
  count-candidate_node_ids (λ k. k =? id) topic.nodes,
  count-candidate_node_ids (λ k. k =? id) (candidates topic),
  count-candidates-le (λ n. n.node_id =? id) topic,
)

-- For a topic with distinct node ids, a plan dispatches as many nodes as there are available
-- slots or active candidates that do not run, whichever is less.
pub length-plan_dispatch :
    (topic : TopicSnapshot) (slots : ℕ) (plan : DispatchPlan)
    → Unique (candidate_node_ids topic.nodes)
    → plan_topic_dispatch topic (pos slots) ≡ ok plan
    → length plan.dispatch_node_ids
      ≡ min slots
          (count (λ id. not (has id topic.runtime.running_node_ids)) plan.active_candidate_node_ids)
length-plan_dispatch topic slots plan unique h =
    let shape = plan-Shape topic slots plan h in
    rw (shape.dispatch, shape.active)
      (length-dispatched topic slots (candidates topic) (candidates-Unique topic unique))

fill-le :
    (cur : Option GoString) (run : List GoString) (slots : ℕ) (cs : List TopicNode)
    (ids : List GoString)
    → length ids ≤ slots
    → length (fill cur run slots cs ids) ≤ slots
unfolding fill
fill-le cur run slots [] ids h = h
fill-le cur run slots (c ∷ cs) ids h = ground (
  arith,
  fill-le cur run slots cs ids h,
  fill-le cur run slots cs (ids ++ c.node_id ∷ []),
  length-append ids (c.node_id ∷ []),
)

start-le :
    (cur : Option GoString) (run : List GoString) (slots : ℕ) → length (start cur run slots) ≤ slots
unfolding start
start-le none run slots = omega arith
start-le (some c) run slots = ground arith

-- A plan dispatches no more nodes than there are slots.
pub plan_dispatch-le :
    (topic : TopicSnapshot) (slots : ℕ) (plan : DispatchPlan)
    → plan_topic_dispatch topic (pos slots) ≡ ok plan
    → length plan.dispatch_node_ids ≤ slots
unfolding dispatched
plan_dispatch-le topic slots plan h =
    let cs = candidates topic in
    let cur = choose_current_node_id cs topic.runtime in
    let run = topic.runtime.running_node_ids in
    rw (plan-Shape topic slots plan h).dispatch
      (fill-le cur run slots cs (start cur run slots) (start-le cur run slots))
