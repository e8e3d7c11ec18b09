-- ===== src/Vos/Tree/Rooted/Lengths.antt =====
-- A path is no longer than the number of nodes.
use openmate.Base.{
  ℕ, suc, zero, GoString, ◌=?◌, none, some, [], ◌∷◌, length, false, ◌≡◌, refl, sym, ap, ◌∙◌, subst,
  arith, Bool-cases, inl, inr, ok, ◌≤◌, ◌<◌,
}
use openmate.Vos.Types.{Node, VfsState, lookup, remove}
use openmate.Vos.Tree.{climb}
use openmate.Vos.Tree.Links.{Nodes, lookup_unique, is_same}
use openmate.Vos.Tree.Maps.{lookup-remove}
use openmate.Vos.Tree.Rooted.{Rooted, at_root, below, path_length}

next_parent :
    (nodes : Nodes) (k k' : GoString) (n n' : Node)
    → k ≡ k'
    → lookup k nodes ≡ some n
    → lookup k' nodes ≡ some n'
    → n.parent_id ≡ n'.parent_id
next_parent nodes k k' n n' e h h' =
    ap (λ u. u.parent_id)
      (lookup_unique k' nodes n n' (subst (λ j. lookup j nodes ≡ some n) e h) h')

path_unique :
    (nodes : Nodes) (k k' : GoString) (q : Rooted nodes k) (q' : Rooted nodes k')
    → k ≡ k'
    → path_length q ≡ path_length q'
unfolding path_length
path_unique nodes _ _ (at_root k n h r) (at_root k' n' h' r') e = refl
path_unique nodes _ _ (at_root k n h r) (below k' p n' h' r' q') e =
    absurd (ground (arith, next_parent nodes k k' n n' e h h', r, r'))
path_unique nodes _ _ (below k p n h r q) (at_root k' n' h' r') e =
    absurd (ground (arith, next_parent nodes k k' n n' e h h', r, r'))
path_unique nodes _ _ (below k p n h r q) (below k' p' n' h' r' q') e =
    let same : p ≡ p' = ground (arith, next_parent nodes k k' n n' e h h', r, r') in
    ap suc (path_unique nodes p p' q q' same)

-- A path that is shorter than that of `k` does not meet `k`, and is there without `k` too.
without_node :
    (nodes : Nodes) (k : GoString) (whole : Rooted nodes k) (j : GoString) (q : Rooted nodes j)
    → path_length q < path_length whole
    → (q' : Rooted (remove k nodes) j) × (path_length q' ≡ path_length q)
unfolding path_length
without_node nodes k whole _ (at_root j n h r) less = elim (Bool-cases (k =? j)) [
  | inl e ↦
      absurd
        (omega (arith, less, path_unique nodes j k (at_root j n h r) whole (sym (is_same k j e))))
  | inr e ↦ (at_root j n (lookup-remove k j nodes e ∙ h) r, refl)
]
without_node nodes k whole _ (below j p n h r q) less = elim (Bool-cases (k =? j)) [
  | inl e ↦
      absurd
        (omega (arith, less, path_unique nodes j k (below j p n h r q) whole (sym (is_same k j e))))
  | inr e ↦
      let (q', same) = without_node nodes k whole p q (omega (arith, less)) in
      (below j p n (lookup-remove k j nodes e ∙ h) r q', ap suc same)
]

length-remove_le : (k : GoString) (nodes : Nodes) → length (remove k nodes) ≤ length nodes
unfolding remove
length-remove_le k [] = omega arith
length-remove_le k ((j, n) ∷ nodes) = ground (arith, length-remove_le k nodes)

length-remove_lt :
    (k : GoString) (nodes : Nodes) (n : Node)
    → lookup k nodes ≡ some n
    → length (remove k nodes) < length nodes
unfolding remove lookup
length-remove_lt k [] n h = absurd (ground (arith, h))
length-remove_lt k ((j, m) ∷ nodes) n h =
    ground (arith, length-remove_le k nodes, length-remove_lt k nodes n, h)

-- A path is no longer than the number of nodes.
pub path_length-le :
    (size : ℕ) (nodes : Nodes) (k : GoString) (q : Rooted nodes k)
    → path_length q ≡ size
    → size ≤ length nodes
unfolding path_length
path_length-le size nodes _ (at_root k n h r) e = omega (arith, e, length-remove_lt k nodes n h)
path_length-le zero nodes _ (below k p n h r q) e = omega arith
path_length-le (suc size) nodes _ (below k p n h r q) e =
    let (q', same) = without_node nodes k (below k p n h r q) p q (omega arith) in
    let rest = path_length-le size (remove k nodes) p q' (omega (arith, same, e)) in
    omega (arith, rest, length-remove_lt k nodes n h)

pub climb-top :
    (fuel : ℕ) (state : VfsState) (a : GoString) (cursor : Node)
    → (cursor.id =? a) ≡ false
    → cursor.parent_id ≡ none
    → climb (suc fuel) state a cursor ≡ ok tt
unfolding climb
climb-top fuel state a cursor e h = rw (e, h, climb) refl

pub Rooted-found :
    (nodes : Nodes) (k : GoString) → Rooted nodes k → (n : Node) × (lookup k nodes ≡ some n)
Rooted-found nodes _ (at_root k n h r) = (n, h)
Rooted-found nodes _ (below k p n h r q) = (n, h)
