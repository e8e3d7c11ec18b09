-- ===== src/Vos/Tree/Kept.antt =====
-- service.go: the operations keep the nodes a tree.
use openmate.Base.{
  ℕ, GoString, ◌=?◌, is_empty, trim_space, Option, none, some, [], ◌∷◌, ◌++◌, Bool, true, false,
  not, ◌≡◌, refl, sym, ap, ◌∙◌, subst, arith, Bool-cases, Option-cases, inl, inr, Result, ok, err,
  ◌>>=◌, guard, or_fail,
}
use openmate.Schedule.Types.{has}
use openmate.Vos.Types.{
  is_valid, Node, NodeStatus, Topic, VfsState, VosError, lookup, root_cannot_move,
  root_cannot_be_deleted, not_a_leaf,
}
use openmate.Vos.Tree.{
  require_node, require_topic, ensure_no_cycle, relink, move_node, unlink, delete_node, is_leaf,
}
use openmate.Vos.Tree.Create.{
  CreateTopicInput, CreateNodeInput, topic_id_of, root_id_of, root_node, new_node, absent, or_drawn,
  adopt, remember_child_memory, attach, create_in_topic, parent_key, create_topic, create_node,
  inferred_topic, ensured_topic, auto_topic, status_or_draft, trimmed_parent,
}
use openmate.Vos.Tree.Maps.{has-append}
use openmate.Vos.Tree.Links.{Nodes, moved_nodes}
use openmate.Vos.Tree.Growth.{Adopts}
use openmate.Vos.Tree.Rooted.{require_node-ok, Clear}
use openmate.Vos.Tree.Cycle.{IsTree, ensure_no_cycle-decides}
use openmate.Vos.Tree.Paths.{moved-IsTree, removed-IsTree, grown-IsTree, planted-IsTree}

or_fail-some : {A : Type 0} (o : Option A) (a : A) (e : VosError) → or_fail o e ≡ ok a → o ≡ some a
or_fail-some none a e h = absurd (ground (arith, h))
or_fail-some (some b) a e h = ap some (ground (arith, h))

guard-true : (b : Bool) (e : VosError) (u : Unit {0}) → guard b e ≡ ok u → b ≡ true
guard-true true e u h = refl
guard-true false e u h = absurd (ground (arith, h))

relink-nodes :
    (id old new : GoString) (node parent : Node) (now : ℕ) (state : VfsState)
    → node.id ≡ id
    → parent.id ≡ new
    → (relink id old new node parent now state).nodes ≡ moved_nodes id old new now state.nodes
unfolding relink moved_nodes
relink-nodes id old new node parent now state e k = rw (e, k) refl

relink-IsTree :
    (id old new : GoString) (node parent : Node) (now : ℕ) (state : VfsState)
    → require_node state id ≡ ok node
    → node.parent_id ≡ some old
    → require_node state new ≡ ok parent
    → ensure_no_cycle state node.id parent.id ≡ ok tt
    → IsTree state.nodes
    → IsTree (relink id old new node parent now state).nodes
relink-IsTree id old new node parent now state h p k c tree =
    let ha = require_node-ok state id node h in
    let hw = require_node-ok state new parent k in
    let own = tree.linked.own_id id node ha in
    let own' = tree.linked.own_id new parent hw in
    let c' : ensure_no_cycle state id new ≡ ok tt =
      subst (λ j. ensure_no_cycle state j new ≡ ok tt) own
        (subst (λ j. ensure_no_cycle state node.id j ≡ ok tt) own' c) in
    let clear : Clear state.nodes id new =
      elim (ensure_no_cycle-decides state id new parent tree hw) [
        | inl (e, _) ↦ absurd (ground (arith, e, c'))
        | inr (inl (e, clear)) ↦ clear
        | inr (inr (e, _)) ↦ absurd (ground (arith, e, c'))
      ] in
    subst IsTree (sym (relink-nodes id old new node parent now state own own'))
      (moved-IsTree id old new now state.nodes node parent ha p hw clear tree)

-- What an operation leaves, if it succeeds.
abbrev pub Leaves : {A : Type 0} → Result VosError (A × VfsState) → Type 0
Leaves (ok (a, state)) = IsTree state.nodes
Leaves (err e) = Unit

read-Leaves :
    {A B : Type 0} (r : Result VosError A) (next : A → Result VosError (B × VfsState))
    → ((a : A) → r ≡ ok a → Leaves (next a))
    → Leaves (r >>= next)
read-Leaves (ok a) next k = k a refl
read-Leaves (err e) next k = tt

pub move_node-Leaves :
    (id new : GoString) (now : ℕ) (state : VfsState)
    → IsTree state.nodes
    → Leaves (move_node id new now state)
unfolding move_node
move_node-Leaves id new now state tree = read-Leaves (require_node state id) _ (λ node h.
    read-Leaves (or_fail node.parent_id root_cannot_move) _ (λ old p.
      read-Leaves (require_node state new) _ (λ parent k.
        read-Leaves (guard (node.topic_id =? parent.topic_id) _) _ (λ u g.
          read-Leaves (ensure_no_cycle state node.id parent.id) _ (λ v c.
            elim (Bool-cases (old =? parent.id)) [
              | inl e ↦ rw e tree
              | inr e ↦ rw e (
                  read-Leaves (require_node state old) _ (λ q m.
                    read-Leaves (require_topic state node.topic_id) _ (λ t l.
                      relink-IsTree id old new node parent now state h
                        (or_fail-some node.parent_id old _ p) k c tree)))
            ])))))

bare-leaf : (node : Node) → is_leaf node ≡ true → (c : GoString) → has c node.children_ids ≡ false
bare-leaf node h c = ground (arith, h)

unlink-IsTree :
    (id old : GoString) (node : Node) (now : ℕ) (state : VfsState)
    → require_node state id ≡ ok node
    → node.parent_id ≡ some old
    → is_leaf node ≡ true
    → IsTree state.nodes
    → IsTree (unlink old node now state).nodes
unfolding unlink
unlink-IsTree id old node now state h p leaf tree =
    let ha = require_node-ok state id node h in
    let own = tree.linked.own_id id node ha in
    removed-IsTree node.id old now state.nodes node
      (subst (λ j. lookup j state.nodes ≡ some node) (sym own) ha) (bare-leaf node leaf) tree p

pub delete_node-Leaves :
    (id : GoString) (now : ℕ) (state : VfsState)
    → IsTree state.nodes
    → Leaves (delete_node id now state)
unfolding delete_node
delete_node-Leaves id now state tree = read-Leaves (require_node state id) _ (λ node h.
    read-Leaves (or_fail node.parent_id root_cannot_be_deleted) _ (λ old p.
      read-Leaves (guard (is_leaf node) (not_a_leaf id)) _ (λ u g.
        read-Leaves (require_node state old) _ (λ q m.
          read-Leaves (require_topic state node.topic_id) _ (λ t l.
            unlink-IsTree id old node now state h (or_fail-some node.parent_id old _ p)
              (guard-true (is_leaf node) _ u g) tree)))))

remembered :
    (stamp : GoString) (child parent : Node)
    → ((remember_child_memory stamp child parent).id ≡ parent.id)
      × ((remember_child_memory stamp child parent).parent_id ≡ parent.parent_id)
      × ((remember_child_memory stamp child parent).children_ids ≡ parent.children_ids)
unfolding remember_child_memory
remembered stamp child parent = elim (Option-cases child.memory) [
  | inl e ↦ rw (e, remember_child_memory) (refl, refl, refl)
  | inr (m, e) ↦ rw (e, remember_child_memory) (refl, refl, refl)
]

adopt-Adopts : (stamp : GoString) (child : Node) (now : ℕ) → Adopts child.id (adopt stamp child now)
unfolding adopt
adopt-Adopts stamp child now = record {
  same_id =
      λ n. (remembered stamp child (record n { children_ids = n.children_ids ++ child.id ∷ [] })).0;
  same_parent =
      λ n. (remembered stamp child (record n { children_ids = n.children_ids ++ child.id ∷ [] })).1;
  lists = λ n c.
      ap (has c)
        (remembered stamp child (record n { children_ids = n.children_ids ++ child.id ∷ [] })).2
      ∙ has-append c child.id n.children_ids;
}

absent-none : (k : GoString) (nodes : Nodes) → absent k nodes ≡ true → lookup k nodes ≡ none
absent-none k nodes h = elim (Option-cases (lookup k nodes)) [
  | inl e ↦ e
  | inr (n, e) ↦ absurd (ground (arith, h, e))
]

attach-IsTree :
    (input : CreateNodeInput) (status : NodeStatus) (id topic key stamp : GoString) (parent : Node)
    (now : ℕ) (state : VfsState)
    → require_node state key ≡ ok parent
    → absent id state.nodes ≡ true
    → IsTree state.nodes
    → IsTree (attach key (new_node input status id topic parent.id now) stamp now state).nodes
unfolding attach
attach-IsTree input status id topic key stamp parent now state h fresh tree =
    let node = new_node input status id topic parent.id now in
    let hw = require_node-ok state key parent h in
    let own = tree.linked.own_id key parent hw in
    grown-IsTree id key (adopt stamp node now) state.nodes node parent
      (absent-none id state.nodes fresh) refl (λ c. refl) hw (ap some own)
      (adopt-Adopts stamp node now) tree

create_in_topic-Leaves :
    (drawn stamp : GoString) (input : CreateNodeInput) (status : NodeStatus)
    (given : Option GoString) (now : ℕ) (topic_id : GoString) (state : VfsState)
    → IsTree state.nodes
    → Leaves (create_in_topic drawn stamp input status given now topic_id state)
unfolding create_in_topic
create_in_topic-Leaves drawn stamp input status given now topic_id state tree =
    read-Leaves (require_topic state topic_id) _ (λ topic t.
      let key = parent_key topic given in
      read-Leaves (require_node state key) _ (λ parent h.
        read-Leaves (guard (parent.topic_id =? topic_id) _) _ (λ u g.
          read-Leaves (guard (absent (or_drawn drawn input.node_id) state.nodes) _) _ (λ v f.
            attach-IsTree input status (or_drawn drawn input.node_id) topic_id key stamp parent now
              state h (guard-true _ _ v f) tree))))

pub create_topic-Leaves :
    (drawn : GoString) (input : CreateTopicInput) (now : ℕ) (state : VfsState)
    → IsTree state.nodes
    → Leaves (create_topic drawn input now state)
unfolding create_topic
create_topic-Leaves drawn input now state tree =
    read-Leaves (guard (not (is_empty input.name)) _) _ (λ u g.
      read-Leaves (guard (absent (topic_id_of drawn input) state.topics) _) _ (λ v h.
        read-Leaves (guard (absent (root_id_of drawn input) state.nodes) _) _ (λ w f.
          planted-IsTree (root_id_of drawn input) state.nodes (root_node drawn input now)
            (absent-none (root_id_of drawn input) state.nodes (guard-true _ _ w f)) refl (λ c. refl)
            refl tree)))

bind-Leaves :
    {A B : Type 0} (r : Result VosError (A × VfsState))
    (next : A × VfsState → Result VosError (B × VfsState))
    → Leaves r
    → ((p : A × VfsState) → IsTree p.1.nodes → Leaves (next p))
    → Leaves (r >>= next)
bind-Leaves (ok p) next h k = k p h
bind-Leaves (err e) next h k = tt

ensured_topic-Leaves :
    (drawn name topic : GoString) (now : ℕ) (state : VfsState)
    → IsTree state.nodes
    → Leaves (ensured_topic drawn name topic now state)
unfolding ensured_topic
ensured_topic-Leaves drawn name topic now state tree = elim (Bool-cases (is_empty topic)) [
  | inl e ↦
      rw (e, ensured_topic)
        (bind-Leaves (create_topic drawn (auto_topic name) now state) _
          (create_topic-Leaves drawn (auto_topic name) now state tree) (λ p h. h))
  | inr e ↦ rw (e, ensured_topic) tree
]

pub create_node-Leaves :
    (drawn_topic drawn stamp : GoString) (input : CreateNodeInput) (now : ℕ) (state : VfsState)
    → IsTree state.nodes
    → Leaves (create_node drawn_topic drawn stamp input now state)
unfolding create_node
create_node-Leaves drawn_topic drawn stamp input now state tree =
    read-Leaves (guard (not (is_empty input.name)) _) _ (λ u g.
      read-Leaves (guard (is_valid (status_or_draft input.status)) _) _ (λ v h.
        read-Leaves
          (inferred_topic (trimmed_parent input.parent_id) (trim_space input.topic_id) state) _
          (λ topic t.
            bind-Leaves (ensured_topic drawn_topic input.name topic now state) _
              (ensured_topic-Leaves drawn_topic input.name topic now state tree)
              (λ p tree'.
                create_in_topic-Leaves drawn stamp input (status_or_draft input.status)
                  (trimmed_parent input.parent_id) now p.0 p.1 tree'))))

-- The states that the operations lead to from the empty one.
pub data Reachable : VfsState → Type 0 where
  empty : Reachable (record { topics = []; nodes = [] })
  topic_created :
      (drawn : GoString) (input : CreateTopicInput) (now : ℕ) (state state' : VfsState) (t : Topic)
      → Reachable state
      → create_topic drawn input now state ≡ ok (t, state')
      → Reachable state'
  node_created :
      (drawn_topic drawn stamp : GoString) (input : CreateNodeInput) (now : ℕ)
      (state state' : VfsState) (n : Node)
      → Reachable state
      → create_node drawn_topic drawn stamp input now state ≡ ok (n, state')
      → Reachable state'
  node_moved :
      (id new : GoString) (now : ℕ) (state state' : VfsState)
      → Reachable state
      → move_node id new now state ≡ ok (tt, state')
      → Reachable state'
  node_deleted :
      (id : GoString) (now : ℕ) (state state' : VfsState) (n : Node)
      → Reachable state
      → delete_node id now state ≡ ok (n, state')
      → Reachable state'

empty-IsTree : IsTree []
unfolding lookup
empty-IsTree = record {
  linked = record {
    own_id = λ k n h. absurd (ground (arith, h));
    up = λ k p n h e. absurd (ground (arith, h));
    down = λ p k q h e. absurd (ground (arith, h));
  };
  rooted = λ k n h. absurd (ground (arith, h));
}

-- In every state that topic creations, node creations, moves and deletions that succeed lead to
-- from the empty state, every node stands under its own id, a node with a parent is listed by
-- that parent, a listed child names its parent, and from every node the parents lead to a root.
pub Reachable-IsTree : (state : VfsState) → Reachable state → IsTree state.nodes
Reachable-IsTree _ empty = empty-IsTree
Reachable-IsTree _ (topic_created drawn input now state state' t r h) =
    subst Leaves h (create_topic-Leaves drawn input now state (Reachable-IsTree state r))
Reachable-IsTree _ (node_created drawn_topic drawn stamp input now state state' n r h) =
    subst Leaves h
      (create_node-Leaves drawn_topic drawn stamp input now state (Reachable-IsTree state r))
Reachable-IsTree _ (node_moved id new now state state' r h) =
    subst Leaves h (move_node-Leaves id new now state (Reachable-IsTree state r))
Reachable-IsTree _ (node_deleted id now state state' n r h) =
    subst Leaves h (delete_node-Leaves id now state (Reachable-IsTree state r))
