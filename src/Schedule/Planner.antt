-- ===== src/Schedule/Planner.antt =====
-- internal/schedule/planner.go.
pub mod Sorting
pub mod Layer
pub mod Shape
pub mod Dispatch
pub mod Filling
pub mod Current
pub mod Tests
use openmate.Base.{
  ℕ, GoString, codes, ◌=?◌, str_ltb, Option, none, some, List, [], ◌∷◌, ◌++◌, map, Bool, true,
  false, not, if◌then◌else◌, ◌&&◌, ◌||◌, ltb, leb, ◌==◌, keep, length, Result, ok, err,
}
use openmate.Base.Int.{ℤ, pos, negsuc, ltb_ℤ, ◌==ℤ◌}
use openmate.Schedule.Types.{
  NodeStatus, blocked, retry_cooldown, waiting_external, succeeded, failed, cancelled, TopicNode,
  TopicRuntimeState, TopicSnapshot, DispatchPlan, ValidationError, negative_slots, has,
}

unfoldable pub status_is_terminal : NodeStatus → Bool
status_is_terminal succeeded = true
status_is_terminal failed = true
status_is_terminal cancelled = true
status_is_terminal _ = false

unfoldable pub status_blocks_dispatch : NodeStatus → Bool
status_blocks_dispatch blocked = true
status_blocks_dispatch retry_cooldown = true
status_blocks_dispatch waiting_external = true
status_blocks_dispatch _ = false

unfoldable pub non_terminal_nodes : TopicSnapshot → List TopicNode
non_terminal_nodes topic = keep (λ node. not (status_is_terminal node.status)) topic.nodes

-- The loop for `highestRank`: the smallest rank.
unfoldable pub highest_rank : ℤ → List TopicNode → ℤ
highest_rank best [] = best
highest_rank best (node ∷ nodes) =
    highest_rank (if ltb_ℤ node.priority.rank best then node.priority.rank else best) nodes

unfoldable pub layer : ℤ → List TopicNode → List TopicNode
layer rank = keep (λ node. node.priority.rank ==ℤ rank)

unfoldable pub dispatchable : List TopicNode → List TopicNode
dispatchable = keep (λ node. not (status_blocks_dispatch node.status))

-- The `less` function of `sortActiveCandidates`.
unfoldable pub candidate_less : TopicNode → TopicNode → Bool
candidate_less a b =
    if a.entered_priority_at == b.entered_priority_at
    then str_ltb a.node_id b.node_id
    else ltb a.entered_priority_at b.entered_priority_at

insert_candidate : TopicNode → List TopicNode → List TopicNode
insert_candidate node [] = node ∷ []
insert_candidate node (other ∷ rest) =
    if candidate_less other node then other ∷ insert_candidate node rest else node ∷ other ∷ rest

-- `sort.Slice` with that order.
unfoldable pub sort_active_candidates : List TopicNode → List TopicNode
unfolding insert_candidate
sort_active_candidates [] = []
sort_active_candidates (node ∷ nodes) = insert_candidate node (sort_active_candidates nodes)

unfoldable pub candidate_node_ids : List TopicNode → List GoString
candidate_node_ids = map (λ node. node.node_id)

-- The id, if it is there and a candidate.
pub pick : Option GoString → List GoString → Option GoString
pick none ids = none
pick (some id) ids = if has id ids then some id else none

pub or_else : Option GoString → Option GoString → Option GoString
or_else none other = other
or_else (some id) other = some id

first_id : List GoString → Option GoString
first_id [] = none
first_id (id ∷ ids) = some id

unfoldable pub choose_current_node_id : List TopicNode → TopicRuntimeState → Option GoString
unfolding pick or_else first_id candidate_node_ids
choose_current_node_id candidates runtime =
    let ids = candidate_node_ids candidates in
    or_else (pick runtime.current_node_id ids)
      (or_else (pick runtime.last_worked_node_id ids) (first_id ids))

pub same_id : Option GoString → GoString → Bool
same_id none id = false
same_id (some current) id = id =? current

-- The current node goes first, unless it runs or there is no slot.
pub start : Option GoString → List GoString → ℕ → List GoString
start none running slots = []
start (some current) running slots =
    if ltb 0 slots && not (has current running) then current ∷ [] else []

-- The loop over the ordered candidates, with `dispatchNodeIDs` as accumulator.
unfoldable pub fill :
    Option GoString → List GoString → ℕ → List TopicNode → List GoString → List GoString
unfolding same_id
fill current running slots [] ids = ids
fill current running slots (node ∷ nodes) ids =
    let rest = fill current running slots nodes in
    if leb slots (length ids)
    then ids
    else if same_id current node.node_id || has node.node_id running
    then rest ids
    else rest (ids ++ node.node_id ∷ [])

equal_ids : Option GoString → Option GoString → Bool
equal_ids (some a) (some b) = a =? b
equal_ids _ _ = false

selection_reason : Option GoString → TopicRuntimeState → GoString
unfolding equal_ids
selection_reason current runtime =
    if equal_ids current runtime.current_node_id
    then codes "continuation-first kept the current node"
    else if equal_ids current runtime.last_worked_node_id
    then codes "current node was reset to last_worked_node_id"
    else codes "current node was selected by stable queue order"

idle_plan : TopicSnapshot → DispatchPlan
idle_plan topic = record {
  topic_id = topic.topic_id;
  active_priority = none;
  current_node_id = none;
  active_candidate_node_ids = [];
  dispatch_node_ids = [];
  stalled = false;
  reasons = codes "topic has no non-terminal leaf nodes" ∷ [];
}

stalled_plan : TopicSnapshot → GoString → DispatchPlan
stalled_plan topic label = record {
  topic_id = topic.topic_id;
  active_priority = some label;
  current_node_id = none;
  active_candidate_node_ids = [];
  dispatch_node_ids = [];
  stalled = true;
  reasons =
      codes "highest priority layer has no runnable nodes"
      ∷ codes
          "lower priority layers stay blocked until the active layer is cleared or reprioritized"
      ∷ [];
}

active_plan : TopicSnapshot → GoString → ℕ → List TopicNode → DispatchPlan
unfolding start fill selection_reason
active_plan topic label slots ordered =
    let current = choose_current_node_id ordered topic.runtime in
    let running = topic.runtime.running_node_ids in
    record {
      topic_id = topic.topic_id;
      active_priority = some label;
      current_node_id = current;
      active_candidate_node_ids = candidate_node_ids ordered;
      dispatch_node_ids = fill current running slots ordered (start current running slots);
      stalled = false;
      reasons =
          (codes "active priority resolved to " ++ label)
          ∷ selection_reason current topic.runtime
          ∷ [];
    }

-- From the ordered candidates on.
plan_candidates : TopicSnapshot → GoString → ℕ → List TopicNode → DispatchPlan
unfolding stalled_plan active_plan
plan_candidates topic label slots [] = stalled_plan topic label
plan_candidates topic label slots (node ∷ nodes) = active_plan topic label slots (node ∷ nodes)

-- From the active layer on: its first node gives the label. The layer is never empty.
plan_layer : TopicSnapshot → ℕ → List TopicNode → DispatchPlan
unfolding plan_candidates
plan_layer topic slots [] = idle_plan topic
plan_layer topic slots (node ∷ nodes) =
    plan_candidates topic node.priority.label slots
      (sort_active_candidates (dispatchable (node ∷ nodes)))

pub plan_non_terminal : TopicSnapshot → ℕ → List TopicNode → DispatchPlan
unfolding plan_layer idle_plan
plan_non_terminal topic slots [] = idle_plan topic
plan_non_terminal topic slots (node ∷ nodes) =
    plan_layer topic slots (layer (highest_rank node.priority.rank nodes) (node ∷ nodes))

unfoldable pub plan_topic_dispatch : TopicSnapshot → ℤ → Result ValidationError DispatchPlan
unfolding plan_non_terminal
plan_topic_dispatch topic (negsuc _) = err negative_slots
plan_topic_dispatch topic (pos slots) =
    ok (plan_non_terminal topic slots (non_terminal_nodes topic))
