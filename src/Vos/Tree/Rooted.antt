-- ===== src/Vos/Tree/Rooted.antt =====
-- From every node the parents lead to a root, and `ensureNoCycle` goes up such a path.
pub mod Lengths
use openmate.Base.{
  ℕ, suc, zero, GoString, ◌=?◌, none, some, [], ◌∷◌, length, true, false, ◌≡◌, refl, sym, ap, ◌∙◌,
  subst, if◌then◌else◌, arith, Bool-cases, Option-cases, Result-cases, inl, inr, ok, err, ◌≤◌, ◌<◌,
}
use openmate.Vos.Types.{Node, VfsState, VosError, would_create_cycle, no_fuel, lookup, remove}
use openmate.Vos.Tree.{require_node, climb}
use openmate.Vos.Tree.Links.{
  Nodes, moved_nodes, lookup-moved, moved, moved-Moved, lookup_unique, is_same,
}
use openmate.Vos.Tree.Maps.{lookup-remove}

pub data Rooted (nodes : Nodes) : GoString → Type 0 where
  at_root :
      (k : GoString) (n : Node) → lookup k nodes ≡ some n → n.parent_id ≡ none → Rooted nodes k
  below :
      (k p : GoString) (n : Node)
      → lookup k nodes ≡ some n
      → n.parent_id ≡ some p
      → Rooted nodes p
      → Rooted nodes k

-- The path up from a node does not meet `a`.
pub data Clear (nodes : Nodes) (a : GoString) : GoString → Type 0 where
  clear_root :
      (k : GoString) (n : Node)
      → (k =? a) ≡ false
      → lookup k nodes ≡ some n
      → n.parent_id ≡ none
      → Clear nodes a k
  clear_below :
      (k p : GoString) (n : Node)
      → (k =? a) ≡ false
      → lookup k nodes ≡ some n
      → n.parent_id ≡ some p
      → Clear nodes a p
      → Clear nodes a k

pub require_node-ok :
    (state : VfsState) (k : GoString) (n : Node)
    → require_node state k ≡ ok n
    → lookup k state.nodes ≡ some n
unfolding require_node
require_node-ok state k n h = ground (arith, h)

pub require_node-found :
    (state : VfsState) (k : GoString) (n : Node)
    → lookup k state.nodes ≡ some n
    → require_node state k ≡ ok n
unfolding require_node
require_node-found state k n h = rw h refl

pub climb-step :
    (fuel : ℕ) (state : VfsState) (a p : GoString) (cursor next : Node)
    → (cursor.id =? a) ≡ false
    → cursor.parent_id ≡ some p
    → lookup p state.nodes ≡ some next
    → climb (suc fuel) state a cursor ≡ climb fuel state a next
unfolding climb
climb-step fuel state a p cursor next e h k =
    rw (e, h, climb, require_node-found state p next k) refl

climb-missing :
    (fuel : ℕ) (state : VfsState) (a p : GoString) (cursor : Node) (f : VosError)
    → (cursor.id =? a) ≡ false
    → cursor.parent_id ≡ some p
    → require_node state p ≡ err f
    → climb (suc fuel) state a cursor ≡ err f
unfolding climb
climb-missing fuel state a p cursor f e h k = rw (e, h, climb, k) refl

pub climb-met :
    (fuel : ℕ) (state : VfsState) (a : GoString) (cursor : Node)
    → (cursor.id =? a) ≡ true
    → climb (suc fuel) state a cursor ≡ err would_create_cycle
unfolding climb
climb-met fuel state a cursor e = rw (e, climb) refl

climb-zero :
    (state : VfsState) (a : GoString) (cursor : Node) → climb zero state a cursor ≡ err no_fuel
unfolding climb
climb-zero state a cursor = refl

pub climb-Clear :
    (fuel : ℕ) (state : VfsState) (a k : GoString) (cursor : Node)
    → cursor.id ≡ k
    → ((j : GoString) (n : Node) → lookup j state.nodes ≡ some n → n.id ≡ j)
    → lookup k state.nodes ≡ some cursor
    → climb fuel state a cursor ≡ ok tt
    → Clear state.nodes a k
climb-Clear zero state a k cursor id own h c = absurd (ground (arith, c, climb-zero state a cursor))
climb-Clear (suc fuel) state a k cursor id own h c = elim (Bool-cases (cursor.id =? a)) [
  | inl e ↦ absurd (ground (arith, c, climb-met fuel state a cursor e))
  | inr e ↦
      let other : (k =? a) ≡ false = subst (λ j. (j =? a) ≡ false) id e in
      elim (Option-cases cursor.parent_id) [
        | inl r ↦ clear_root k cursor other h r
        | inr (p, r) ↦ elim (Result-cases (require_node state p)) [
          | inl (f, m) ↦ absurd (ground (arith, c, climb-missing fuel state a p cursor f e r m))
          | inr (next, m) ↦
              let found = require_node-ok state p next m in
              clear_below k p cursor other h r (
                climb-Clear fuel state a p next (own p next found) own found
                  (sym (climb-step fuel state a p cursor next e r found) ∙ c))
        ]
      ]
]

apart : (a k : GoString) → (k =? a) ≡ false → (a =? k) ≡ false
apart a k e = ground (arith, e)

met : (a k : GoString) → (k =? a) ≡ true → (a =? k) ≡ true
met a k e = ground (arith, e)

-- A move to a node whose path does not meet the moved one keeps every path.
module _ (a o w : GoString) (now : ℕ) (nodes : Nodes) where
  moved-parent :
      (k : GoString) (n : Node) → (k =? a) ≡ false → (moved a o w k now n).parent_id ≡ n.parent_id
  moved-parent k n e =
      (moved-Moved a o w k now n).parent ∙ ap (λ b. if b then some w else n.parent_id) (apart a k e)

  Clear-Rooted : (k : GoString) → Clear nodes a k → Rooted (moved_nodes a o w now nodes) k
  Clear-Rooted _ (clear_root k n e h r) =
      at_root k (moved a o w k now n) (lookup-moved a o w k now nodes n h) (moved-parent k n e ∙ r)
  Clear-Rooted _ (clear_below k p n e h r c) =
      below k p (moved a o w k now n) (lookup-moved a o w k now nodes n h) (moved-parent k n e ∙ r)
        (Clear-Rooted p c)

  moved_self :
      Clear nodes a w
      → (k : GoString) (n : Node) → lookup k nodes ≡ some n
      → (k =? a) ≡ true
      → Rooted (moved_nodes a o w now nodes) k
  moved_self c k n h e =
      below k w (moved a o w k now n) (lookup-moved a o w k now nodes n h)
        ((moved-Moved a o w k now n).parent
          ∙ ap (λ b. if b then some w else n.parent_id) (met a k e))
        (Clear-Rooted w c)

  pub moved-Rooted :
      (node : Node)
      → lookup a nodes ≡ some node
      → Clear nodes a w
      → (k : GoString) → Rooted nodes k
      → Rooted (moved_nodes a o w now nodes) k
  moved-Rooted node ha c _ (at_root k n h r) = elim (Bool-cases (k =? a)) [
    | inl e ↦ moved_self c k n h e
    | inr e ↦
        at_root k (moved a o w k now n) (lookup-moved a o w k now nodes n h)
          (moved-parent k n e ∙ r)
  ]
  moved-Rooted node ha c _ (below k p n h r q) = elim (Bool-cases (k =? a)) [
    | inl e ↦ moved_self c k n h e
    | inr e ↦
        below k p (moved a o w k now n) (lookup-moved a o w k now nodes n h)
          (moved-parent k n e ∙ r) (moved-Rooted node ha c p q)
  ]

-- The number of nodes on the path.
unfoldable pub path_length : {nodes : Nodes} {k : GoString} → Rooted nodes k → ℕ
path_length (at_root k n h r) = 1
path_length (below k p n h r q) = suc (path_length q)
