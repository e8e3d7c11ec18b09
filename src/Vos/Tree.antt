-- ===== src/Vos/Tree.antt =====
-- internal/vos/service/service.go: the operations on the tree. Each loads the state, changes it and
-- saves it; an error leaves what is saved as it was. Ids that the code draws are arguments.
pub mod Create
pub mod Maps
pub mod Links
pub mod Growth
pub mod Rooted
pub mod Cycle
pub mod Paths
pub mod Kept
mod Tests
use openmate.Base.{
  ℕ, suc, zero, GoString, codes, ◌=?◌, is_empty, trim_space, Option, none, some, List, [], ◌∷◌,
  ◌++◌, Bool, true, false, not, if◌then◌else◌, ◌&&◌, ◌||◌, Result, ok, err, ◌>>=◌, ◌>>◌, guard,
  or_fail, keep, length,
}
use openmate.Base.Json.{Json, text, object, Fields, empty_fields, field, lookup_field}
use openmate.Vos.Types.{
  NodeStatus, draft, ready, other_status, Topic, Node, VfsState, VosError, name_required,
  bad_status, root_cannot_move, root_cannot_be_deleted, across_topics, own_parent,
  would_create_cycle, different_topic, id_required, no_fuel, topic_not_found, node_not_found,
  duplicate_topic, duplicate_node, not_a_leaf, lookup, update, insert, remove, touch_node,
  touch_topic, is_valid,
}

abbrev pub Change : Type 0 → Type 0
Change A = VfsState → Result VosError (A × VfsState)

unfoldable pub require_topic : VfsState → GoString → Result VosError Topic
unfolding lookup
require_topic state id = or_fail (lookup id state.topics) (topic_not_found id)

unfoldable pub require_node : VfsState → GoString → Result VosError Node
unfolding lookup
require_node state id = or_fail (lookup id state.nodes) (node_not_found id)

-- The loop of `ensureNoCycle`; `cursor` goes up to the root.
unfoldable pub climb : ℕ → VfsState → GoString → Node → Result VosError (Unit {0})
unfolding require_node
climb zero state id cursor = err no_fuel
climb (suc fuel) state id cursor =
    if cursor.id =? id then err would_create_cycle else elim cursor.parent_id [
      | none ↦ ok tt
      | some parent ↦ require_node state parent >>= climb fuel state id
    ]

-- `ensureNoCycle`, with fuel for a path through every node.
unfoldable pub ensure_no_cycle : VfsState → GoString → GoString → Result VosError (Unit {0})
unfolding climb
ensure_no_cycle state id parent =
    guard (not (id =? parent)) own_parent
    >> (require_node state parent >>= climb (suc (length state.nodes)) state id)

unfoldable pub remove_child : List GoString → GoString → List GoString
remove_child children id = keep (λ child. not (child =? id)) children

abbrev pub is_leaf : Node → Bool
is_leaf node = elim node.children_ids [ [] ↦ true | _ ↦ false ]

abbrev pub without_child : GoString → ℕ → Node → Node
without_child id now node =
    touch_node now (record node { children_ids = remove_child node.children_ids id })

abbrev pub with_child : GoString → ℕ → Node → Node
with_child id now node =
    touch_node now (record node { children_ids = node.children_ids ++ id ∷ [] })

abbrev pub under : GoString → ℕ → Node → Node
under parent now node = touch_node now (record node { parent_id = some parent })

-- The changes of `MoveNode`: the old parent, the new parent and the node, in this order.
unfoldable pub relink : GoString → GoString → GoString → Node → Node → ℕ → VfsState → VfsState
unfolding update remove_child
relink id old new node parent now state = record state {
  nodes =
      update id (under parent.id now)
        (update new (with_child node.id now) (update old (without_child node.id now) state.nodes));
  topics = update node.topic_id (touch_topic now) state.topics;
}

abbrev pub is_parent : GoString → Node → Bool
is_parent parent node = elim node.parent_id [ none ↦ false | some known ↦ known =? parent ]

-- `MoveNode`
unfoldable pub move_node : GoString → GoString → ℕ → Change (Unit {0})
unfolding require_node require_topic ensure_no_cycle relink
move_node id new now state = do
  node ← require_node state id
  old ← or_fail node.parent_id root_cannot_move
  parent ← require_node state new
  guard (node.topic_id =? parent.topic_id) across_topics
  ensure_no_cycle state node.id parent.id
  (if old =? parent.id
      then ok (tt, state)
      else require_node state old >>= λ _. require_topic state node.topic_id >>= λ _.
          ok (tt, relink id old new node parent now state))

-- The changes of `DeleteNode`.
unfoldable pub unlink : GoString → Node → ℕ → VfsState → VfsState
unfolding update remove remove_child
unlink old node now state = record state {
  nodes = remove node.id (update old (without_child node.id now) state.nodes);
  topics = update node.topic_id (touch_topic now) state.topics;
}

-- `DeleteNode`
unfoldable pub delete_node : GoString → ℕ → Change Node
unfolding require_node require_topic unlink
delete_node id now state = do
  node ← require_node state id
  old ← or_fail node.parent_id root_cannot_be_deleted
  guard (is_leaf node) (not_a_leaf id)
  _ ← require_node state old
  _ ← require_topic state node.topic_id
  ok (node, unlink old node now state)
