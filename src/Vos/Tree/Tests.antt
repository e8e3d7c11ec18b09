-- ===== src/Vos/Tree/Tests.antt =====
-- Runs of the operations on the tree, and the theorems at concrete inputs.
use openmate.Base.{
  GoString, codes, Option, none, some, [], ◌≡◌, refl, ◌⊎◌, Result, ok, err, str_dec,
}
use openmate.Base.Json.{empty_fields}
use openmate.Vos.Types.{
  other_status, Topic, Node, VfsState, VosError, own_parent, would_create_cycle, lookup,
}
use openmate.Vos.Tree.{ensure_no_cycle, move_node}
use openmate.Vos.Tree.Create.{
  CreateTopicInput, CreateNodeInput, create_topic, create_node, new_topic, root_node,
}
use openmate.Vos.Tree.Rooted.{Clear}
use openmate.Vos.Tree.Cycle.{IsTree, Above, ensure_no_cycle-decides}
use openmate.Vos.Tree.Kept.{
  Reachable, empty, topic_created, node_created, node_moved, Reachable-IsTree,
}

abbrev start : VfsState
start = record { topics = []; nodes = [] }

abbrev after : {A : Type 0} → VfsState → Result VosError (A × VfsState) → VfsState
after state (ok (a, state')) = state'
after state (err e) = state

abbrev topic_input : CreateTopicInput
topic_input = record {
  topic_id = codes "t";
  name = codes "topic";
  description = none;
  metadata = empty_fields;
  tags = [];
  root_node_id = codes "r";
  root_node_name = none;
}

abbrev node_input : GoString → GoString → CreateNodeInput
node_input id parent = record {
  topic_id = codes "t";
  name = codes "node";
  parent_id = some parent;
  node_id = id;
  description = none;
  status = other_status [];
  memory = some empty_fields;
  input = empty_fields;
  output = empty_fields;
}

abbrev with_topic : VfsState
with_topic = after start (create_topic [] topic_input 1 start)

abbrev with_node : VfsState
with_node =
    after with_topic (create_node [] [] [] (node_input (codes "a") (codes "r")) 2 with_topic)

abbrev with_two : VfsState
with_two = after with_node (create_node [] [] [] (node_input (codes "b") (codes "a")) 3 with_node)

abbrev moved : VfsState
moved = after with_two (move_node (codes "b") (codes "r") 4 with_two)

abbrev result : {A : Type 0} → A → Result VosError (A × VfsState) → A
result a (ok (b, state)) = b
result a (err e) = a

abbrev no_topic : Topic
no_topic = new_topic [] topic_input 0

abbrev no_node : Node
no_node = root_node [] topic_input 0

topic_run :
    create_topic [] topic_input 1 start
    ≡ ok (result no_topic (create_topic [] topic_input 1 start), with_topic)
unfolding create_topic
topic_run = refl

abbrev create_a : Result VosError (Node × VfsState)
create_a = create_node [] [] [] (node_input (codes "a") (codes "r")) 2 with_topic

a_run : create_a ≡ ok (result no_node create_a, with_node)
unfolding create_node create_topic str_dec
a_run = refl

abbrev create_b : Result VosError (Node × VfsState)
create_b = create_node [] [] [] (node_input (codes "b") (codes "a")) 3 with_node

b_run : create_b ≡ ok (result no_node create_b, with_two)
unfolding create_node create_topic str_dec
b_run = refl

move_run : move_node (codes "b") (codes "r") 4 with_two ≡ ok (tt, moved)
unfolding move_node create_node create_topic str_dec
move_run = refl

two-Reachable : Reachable with_two
two-Reachable =
    node_created [] [] [] (node_input (codes "b") (codes "a")) 3 with_node with_two
      (result no_node create_b)
      (node_created [] [] [] (node_input (codes "a") (codes "r")) 2 with_topic with_node
        (result no_node create_a)
        (topic_created [] topic_input 1 start with_topic
          (result no_topic (create_topic [] topic_input 1 start)) empty topic_run)
        a_run)
      b_run

Reachable-IsTree_example : IsTree moved.nodes
Reachable-IsTree_example =
    Reachable-IsTree moved
      (node_moved (codes "b") (codes "r") 4 with_two moved two-Reachable move_run)

abbrev from : Option Node → Node
from none = no_node
from (some n) = n

-- The node "b", which stands below "a".
abbrev b_node : Node
b_node = from (lookup (codes "b") with_two.nodes)

b_found : lookup (codes "b") with_two.nodes ≡ some b_node
unfolding lookup create_node str_dec
b_found = refl

ensure_no_cycle-decides_example :
    ((ensure_no_cycle with_two (codes "a") (codes "b") ≡ err own_parent) × (codes "a" ≡ codes "b"))
    ⊎ (((ensure_no_cycle with_two (codes "a") (codes "b") ≡ ok tt)
          × Clear with_two.nodes (codes "a") (codes "b"))
        ⊎ ((ensure_no_cycle with_two (codes "a") (codes "b") ≡ err would_create_cycle)
            × Above with_two.nodes (codes "a") (codes "b")))
ensure_no_cycle-decides_example =
    ensure_no_cycle-decides with_two (codes "a") (codes "b") b_node
      (Reachable-IsTree with_two two-Reachable) b_found

cycle_test : ensure_no_cycle with_two (codes "a") (codes "b") ≡ err would_create_cycle
unfolding ensure_no_cycle str_dec create_node
cycle_test = refl
