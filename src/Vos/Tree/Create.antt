-- ===== src/Vos/Tree/Create.antt =====
-- service.go: `CreateTopic` and `CreateNode`.
use openmate.Base.{
  ℕ, GoString, codes, ◌=?◌, is_empty, trim_space, Option, none, some, List, [], ◌∷◌, ◌++◌, Bool,
  true, false, not, if◌then◌else◌, Result, ok, ◌>>=◌, ◌>>◌, guard,
}
use openmate.Base.Json.{Json, text, object, Fields, empty_fields, field, lookup_field}
use openmate.Vos.Types.{
  NodeStatus, draft, ready, other_status, Topic, Node, VfsState, VosError, name_required,
  bad_status, different_topic, duplicate_topic, duplicate_node, lookup, update, insert, touch_node,
  touch_topic, is_valid,
}
use openmate.Vos.Tree.{Change, require_topic, require_node}

pub record CreateTopicInput : Type 0 where
  pub topic_id : GoString
  pub name : GoString
  pub description : Option GoString
  pub metadata : Fields
  pub tags : List GoString
  pub root_node_id : GoString
  pub root_node_name : Option GoString

pub record CreateNodeInput : Type 0 where
  pub topic_id : GoString
  pub name : GoString
  pub parent_id : Option GoString
  pub node_id : GoString
  pub description : Option GoString
  pub status : NodeStatus
  pub memory : Option Fields
  pub input : Fields
  pub output : Fields

abbrev pub or_drawn : GoString → GoString → GoString
or_drawn drawn given = if is_empty given then drawn else given

-- The topic's id is the one that is given, or the one that is drawn.
abbrev pub topic_id_of : GoString → CreateTopicInput → GoString
topic_id_of drawn input = or_drawn drawn input.topic_id

abbrev pub root_id_of : GoString → CreateTopicInput → GoString
root_id_of drawn input = or_drawn (topic_id_of drawn input ++ codes ":root") input.root_node_id

unfoldable pub delete_field : GoString → Fields → Fields
delete_field key empty_fields = empty_fields
delete_field key (field name value rest) =
    if name =? key then delete_field key rest else field name value (delete_field key rest)

abbrev legacy_workspace : Option Json → Option GoString
legacy_workspace (some (text raw)) =
    if is_empty (trim_space raw) then none else some (trim_space raw)
legacy_workspace _ = none

-- `CreateTopic` builds the topic and normalizes it: a workspace in the metadata becomes the topic's.
abbrev pub new_topic : GoString → CreateTopicInput → ℕ → Topic
unfolding lookup_field delete_field trim_space
new_topic drawn input now = record {
  id = topic_id_of drawn input;
  name = input.name;
  root_node_id = root_id_of drawn input;
  workspace = legacy_workspace (lookup_field (codes "workspace_root") input.metadata);
  metadata = delete_field (codes "workspace_root") input.metadata;
  description = input.description;
  tags = input.tags;
  created_at = now;
  updated_at = now;
}

abbrev pub root_node : GoString → CreateTopicInput → ℕ → Node
root_node drawn input now = record {
  id = root_id_of drawn input;
  topic_id = topic_id_of drawn input;
  name = elim input.root_node_name [ none ↦ input.name | some name ↦ name ];
  description = input.description;
  parent_id = none;
  children_ids = [];
  session = [];
  memory = none;
  input = empty_fields;
  output = empty_fields;
  process_ids = [];
  status = ready;
  version = 1;
  created_at = now;
  updated_at = now;
}

abbrev pub absent : {A : Type 0} → GoString → List (GoString × A) → Bool
absent key entries = elim (lookup key entries) [ none ↦ true | some _ ↦ false ]

-- `CreateTopic`
unfoldable pub create_topic : GoString → CreateTopicInput → ℕ → Change Topic
unfolding lookup new_topic insert
create_topic drawn input now state = do
  guard (not (is_empty input.name)) name_required
  let topic = topic_id_of drawn input
  let root = root_id_of drawn input
  guard (absent topic state.topics) (duplicate_topic topic)
  guard (absent root state.nodes) (duplicate_node root)
  ok (
    new_topic drawn input now,
    record state {
      topics = insert topic (new_topic drawn input now) state.topics;
      nodes = insert root (root_node drawn input now) state.nodes;
    },
  )

abbrev pub trimmed_parent : Option GoString → Option GoString
unfolding trim_space
trimmed_parent none = none
trimmed_parent (some raw) = if is_empty (trim_space raw) then none else some (trim_space raw)

abbrev pub status_or_draft : NodeStatus → NodeStatus
status_or_draft (other_status []) = draft
status_or_draft status = status

-- The topic of a node without one is that of its parent, and a new one if it has no parent.
unfoldable pub inferred_topic : Option GoString → GoString → VfsState → Result VosError GoString
inferred_topic none topic state = ok topic
inferred_topic (some parent) topic state =
    if is_empty topic then (require_node state parent >>= λ node. ok node.topic_id) else ok topic

abbrev pub auto_topic : GoString → CreateTopicInput
unfolding trim_space
auto_topic name = record {
  topic_id = [];
  name = if is_empty (trim_space name) then codes "Untitled Topic" else trim_space name;
  description = none;
  metadata = empty_fields;
  tags = [];
  root_node_id = [];
  root_node_name = none;
}

-- A node without a topic has one created, which is saved on its own.
unfoldable pub ensured_topic : GoString → GoString → GoString → ℕ → Change GoString
unfolding create_topic
ensured_topic drawn name topic now state =
    if is_empty topic
    then (create_topic drawn (auto_topic name) now state >>= λ (t, state'). ok (t.id, state'))
    else ok (topic, state)

abbrev pub new_node : CreateNodeInput → NodeStatus → GoString → GoString → GoString → ℕ → Node
new_node input status id topic parent now = record {
  id = id;
  topic_id = topic;
  name = input.name;
  description = input.description;
  parent_id = some parent;
  children_ids = [];
  session = [];
  memory = input.memory;
  input = input.input;
  output = input.output;
  process_ids = [];
  status = status;
  version = 1;
  created_at = now;
  updated_at = now;
}

-- `childMemoryCacheKey`
abbrev cache_key : GoString
cache_key = codes "_child_memory_cache"

unfoldable pub set_field : GoString → Json → Fields → Fields
set_field key value empty_fields = field key value empty_fields
set_field key value (field name old rest) =
    if name =? key then field key value rest else field name old (set_field key value rest)

abbrev cached : Option Json → Fields
cached (some (object fields)) = fields
cached _ = empty_fields

-- `rememberChildMemory`; `stamp` is the child's instant of update, formatted.
unfoldable pub remember_child_memory : GoString → Node → Node → Node
unfolding set_field lookup_field
remember_child_memory stamp child parent = elim child.memory [
  | none ↦ parent
  | some memory ↦
      let held : Fields = elim parent.memory [ none ↦ empty_fields | some fields ↦ fields ] in
      let entry = field (codes "node_id") (text child.id) (
        field (codes "name") (text child.name) (
          field (codes "updated_at") (text stamp)
            (field (codes "memory") (object memory) empty_fields))) in
      let cache = set_field child.id (object entry) (cached (lookup_field cache_key held)) in
      record parent { memory = some (set_field cache_key (object cache) held) }
]

-- What becomes of the parent: the node is its last child.
unfoldable pub adopt : GoString → Node → ℕ → Node → Node
unfolding remember_child_memory
adopt stamp node now parent = touch_node now (
    remember_child_memory stamp node
      (record parent { children_ids = parent.children_ids ++ node.id ∷ [] }))

abbrev pub parent_key : Topic → Option GoString → GoString
parent_key topic none = topic.root_node_id
parent_key topic (some parent) = parent

-- The changes of `CreateNode`: the parent, which stands under its key, its topic and the node.
unfoldable pub attach : GoString → Node → GoString → ℕ → VfsState → VfsState
unfolding update insert adopt
attach key node stamp now state = record state {
  nodes = insert node.id node (update key (adopt stamp node now) state.nodes);
  topics = update node.topic_id (touch_topic now) state.topics;
}

-- From the topic of the node on.
unfoldable pub create_in_topic :
    GoString
    → GoString
    → CreateNodeInput
    → NodeStatus
    → Option GoString
    → ℕ
    → GoString
    → Change Node
unfolding require_topic require_node lookup attach
create_in_topic drawn stamp input status given now topic_id state = do
  topic ← require_topic state topic_id
  let key = parent_key topic given
  parent ← require_node state key
  guard (parent.topic_id =? topic_id) different_topic
  let id = or_drawn drawn input.node_id
  guard (absent id state.nodes) (duplicate_node id)
  let node = new_node input status id topic_id parent.id now
  ok (node, attach key node stamp now state)

-- `CreateNode`. A topic that is created for the node is saved before the rest, and stays also if
-- that fails: this is the change once everything succeeds.
unfoldable pub create_node : GoString → GoString → GoString → CreateNodeInput → ℕ → Change Node
unfolding is_valid inferred_topic ensured_topic create_in_topic trim_space
create_node drawn_topic drawn stamp input now state = do
  guard (not (is_empty input.name)) name_required
  let given = trimmed_parent input.parent_id
  let status = status_or_draft input.status
  guard (is_valid status) bad_status
  inferred ← inferred_topic given (trim_space input.topic_id) state
  (topic, state') ← ensured_topic drawn_topic input.name inferred now state
  create_in_topic drawn stamp input status given now topic state'
