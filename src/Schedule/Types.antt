-- ===== src/Schedule/Types.antt =====
-- internal/schedule/types.go: the data of the scheduler, as structs without their JSON tags.
-- A nil slice and an empty one are one list; `time.Time` is the number of nanoseconds since the
-- zero time.
use openmate.Base.{
  ℕ, GoString, is_empty, ◌=?◌, Option, none, some, List, [], ◌∷◌, Bool, true, false, not,
  if◌then◌else◌, any, ◌==◌, Result, ok, err, ◌>>=◌, ◌>>◌, guard,
}
use openmate.Base.Int.{ℤ, pos, ltb_ℤ, ◌==ℤ◌}

-- A named string type has its constants, and any other text.
pub data TopicQueueLevel : Type 0 where
  l0 l1 l2 l3 : TopicQueueLevel
  other_level : GoString → TopicQueueLevel

pub data NodeStatus : Type 0 where
  pending ready running blocked retry_cooldown : NodeStatus
  waiting_external succeeded failed cancelled : NodeStatus
  other_status : GoString → NodeStatus

pub record NodePriority : Type 0 where
  pub label : GoString
  pub rank : ℤ

pub record TopicNode : Type 0 where
  pub node_id : GoString
  pub name : GoString
  pub priority : NodePriority
  pub status : NodeStatus
  pub entered_priority_at : ℕ
  pub last_worked_at : Option ℕ

pub record TopicRuntimeState : Type 0 where
  pub topic_id : GoString
  pub active_priority : Option GoString
  pub current_node_id : Option GoString
  pub running_node_ids : List GoString
  pub last_worked_node_id : Option GoString
  pub last_worked_at : Option ℕ
  pub switch_count : ℤ
  pub priority_dirty : Bool

pub record TopicSnapshot : Type 0 where
  pub topic_id : GoString
  pub queue_level : TopicQueueLevel
  pub nodes : List TopicNode
  pub runtime : TopicRuntimeState

pub record DispatchPlan : Type 0 where
  pub topic_id : GoString
  pub active_priority : Option GoString
  pub current_node_id : Option GoString
  pub active_candidate_node_ids : List GoString
  pub dispatch_node_ids : List GoString
  pub stalled : Bool
  pub reasons : List GoString

-- The messages of `ValidationError`, each with what it is formatted from.
pub data ValidationError : Type 0 where
  negative_slots empty_label negative_rank empty_node_id empty_runtime_topic : ValidationError
  negative_switch_count empty_running_id empty_topic_id topic_mismatch : ValidationError
  rank_label_conflict : ValidationError
  invalid_queue_level empty_name unknown_status duplicate_running_id : GoString → ValidationError
  duplicate_node_id unknown_current unknown_last_worked unknown_running : GoString → ValidationError

abbrev pub Checked : Type 0
Checked = Result ValidationError (Unit {0})

pub normalize_level : TopicQueueLevel → TopicQueueLevel
normalize_level (other_level []) = l0
normalize_level level = level

unfoldable pub validate_level : TopicQueueLevel → Checked
validate_level (other_level text) = err (invalid_queue_level text)
validate_level _ = ok tt

unfoldable pub is_known : NodeStatus → Bool
is_known (other_status _) = false
is_known _ = true

unfoldable pub validate_priority : NodePriority → Checked
validate_priority p = do
  guard (not (is_empty p.label)) empty_label
  guard (not (ltb_ℤ p.rank (pos 0))) negative_rank

normalize_status : NodeStatus → NodeStatus
normalize_status (other_status []) = ready
normalize_status status = status

-- `now` is what `time.Now` answers.
pub normalize_node : ℕ → TopicNode → TopicNode
unfolding normalize_status
normalize_node now node = record node {
  status = normalize_status node.status;
  entered_priority_at = if node.entered_priority_at == 0 then now else node.entered_priority_at;
}

unfoldable pub validate_node : TopicNode → Checked
unfolding validate_priority is_known
validate_node node = do
  guard (not (is_empty node.node_id)) empty_node_id
  guard (not (is_empty node.name)) (empty_name node.node_id)
  validate_priority node.priority
  guard (is_known node.status) (unknown_status node.node_id)

unfoldable pub normalize_optional_string : Option GoString → Option GoString
normalize_optional_string none = none
normalize_optional_string (some []) = none
normalize_optional_string (some text) = some text

unfoldable pub normalize_runtime : TopicRuntimeState → TopicRuntimeState
unfolding normalize_optional_string
normalize_runtime r = record r {
  active_priority = normalize_optional_string r.active_priority;
  current_node_id = normalize_optional_string r.current_node_id;
  last_worked_node_id = normalize_optional_string r.last_worked_node_id;
}

-- Membership in a set of strings, `_, exists := set[id]`.
abbrev pub has : GoString → List GoString → Bool
has id = any (λ known. known =? id)

unfoldable pub validate_running : List GoString → List GoString → Checked
validate_running [] seen = ok tt
validate_running (id ∷ ids) seen = do
  guard (not (is_empty id)) empty_running_id
  guard (not (has id seen)) (duplicate_running_id id)
  validate_running ids (id ∷ seen)

unfoldable pub validate_runtime : TopicRuntimeState → Checked
unfolding validate_running
validate_runtime r = do
  guard (not (is_empty r.topic_id)) empty_runtime_topic
  guard (not (ltb_ℤ r.switch_count (pos 0))) negative_switch_count
  validate_running r.running_node_ids []

unfoldable pub normalize_nodes : ℕ → List TopicNode → List TopicNode
unfolding normalize_node
normalize_nodes now [] = []
normalize_nodes now (node ∷ nodes) = normalize_node now node ∷ normalize_nodes now nodes

unfoldable pub normalize_snapshot : ℕ → TopicSnapshot → TopicSnapshot
unfolding normalize_level normalize_nodes normalize_runtime
normalize_snapshot now s = record s {
  queue_level = normalize_level s.queue_level;
  nodes = normalize_nodes now s.nodes;
  runtime = normalize_runtime s.runtime;
}

-- `rankToLabel[rank]`
unfoldable pub rank_label : ℤ → List (ℤ × GoString) → Option GoString
rank_label rank [] = none
rank_label rank ((r, label) ∷ ranks) = if r ==ℤ rank then some label else rank_label rank ranks

-- The loop over the nodes; it returns `knownNodeIDs`.
unfoldable pub validate_nodes :
    List TopicNode → List GoString → List (ℤ × GoString) → Result ValidationError (List GoString)
unfolding validate_node rank_label
validate_nodes [] known ranks = ok known
validate_nodes (node ∷ nodes) known ranks = do
  validate_node node
  guard (not (has node.node_id known)) (duplicate_node_id node.node_id)
  elim (rank_label node.priority.rank ranks) [
    | none ↦
        validate_nodes nodes (node.node_id ∷ known)
          ((node.priority.rank, node.priority.label) ∷ ranks)
    | some label ↦ guard (label =? node.priority.label) rank_label_conflict >>= λ _.
        validate_nodes nodes (node.node_id ∷ known) ranks
  ]

unfoldable pub validate_known_reference :
    (GoString → ValidationError) → Option GoString → List GoString → Checked
validate_known_reference unknown none known = ok tt
validate_known_reference unknown (some id) known = guard (has id known) (unknown id)

unfoldable pub validate_known_running : List GoString → List GoString → Checked
validate_known_running [] known = ok tt
validate_known_running (id ∷ ids) known = do
  guard (has id known) (unknown_running id)
  validate_known_running ids known

unfoldable pub validate_snapshot : TopicSnapshot → Checked
unfolding validate_level validate_runtime validate_nodes validate_known_reference
    validate_known_running
validate_snapshot s = do
  guard (not (is_empty s.topic_id)) empty_topic_id
  validate_level s.queue_level
  validate_runtime s.runtime
  guard (s.runtime.topic_id =? s.topic_id) topic_mismatch
  known ← validate_nodes s.nodes [] []
  validate_known_reference unknown_current s.runtime.current_node_id known
  validate_known_reference unknown_last_worked s.runtime.last_worked_node_id known
  validate_known_running s.runtime.running_node_ids known
