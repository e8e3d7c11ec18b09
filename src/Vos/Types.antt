-- ===== src/Vos/Types.antt =====
-- internal/vos/domain/types.go and errors.go: the state of the service. A `map[string]*T` is a list
-- of keys with their values, where a nil value is no entry; an instant is a number.
use openmate.Base.{
  ℕ, GoString, ◌=?◌, Option, none, some, List, [], ◌∷◌, Bool, true, false, if◌then◌else◌, ◌+◌,
}
use openmate.Base.Json.{Fields}

pub data NodeStatus : Type 0 where
  draft ready active blocked done : NodeStatus
  other_status : GoString → NodeStatus

pub record Topic : Type 0 where
  pub id : GoString
  pub name : GoString
  pub root_node_id : GoString
  pub workspace : Option GoString
  pub metadata : Fields
  pub description : Option GoString
  pub tags : List GoString
  pub created_at : ℕ
  pub updated_at : ℕ

pub record Node : Type 0 where
  pub id : GoString
  pub topic_id : GoString
  pub name : GoString
  pub description : Option GoString
  pub parent_id : Option GoString
  pub children_ids : List GoString
  pub session : List GoString
  pub memory : Option Fields
  pub input : Fields
  pub output : Fields
  pub process_ids : List GoString
  pub status : NodeStatus
  pub version : ℕ
  pub created_at : ℕ
  pub updated_at : ℕ

pub record VfsState : Type 0 where
  pub topics : List (GoString × Topic)
  pub nodes : List (GoString × Node)

pub data VosError : Type 0 where
  name_required bad_status root_cannot_move root_cannot_be_deleted across_topics : VosError
  own_parent would_create_cycle different_topic id_required no_fuel : VosError
  topic_not_found node_not_found duplicate_topic duplicate_node not_a_leaf : GoString → VosError

-- `value, exists := entries[key]`
unfoldable pub lookup : {A : Type 0} → GoString → List (GoString × A) → Option A
lookup key [] = none
lookup key ((k, value) ∷ entries) = if k =? key then some value else lookup key entries

-- A change of the object that stands under the key.
unfoldable pub update :
    {A : Type 0} → GoString → (A → A) → List (GoString × A) → List (GoString × A)
update key f [] = []
update key f ((k, value) ∷ entries) =
    (k, (if k =? key then f value else value)) ∷ update key f entries

-- `entries[key] = value` at a key that is not there.
unfoldable pub insert : {A : Type 0} → GoString → A → List (GoString × A) → List (GoString × A)
insert key value entries = (key, value) ∷ entries

-- `delete(entries, key)`
unfoldable pub remove : {A : Type 0} → GoString → List (GoString × A) → List (GoString × A)
remove key [] = []
remove key ((k, value) ∷ entries) =
    if k =? key then remove key entries else (k, value) ∷ remove key entries

-- `touchNode`
abbrev pub touch_node : ℕ → Node → Node
touch_node now node = record node { version = node.version + 1; updated_at = now }

-- `touchTopic`
abbrev pub touch_topic : ℕ → Topic → Topic
touch_topic now topic = record topic { updated_at = now }

unfoldable pub is_valid : NodeStatus → Bool
is_valid (other_status _) = false
is_valid _ = true
