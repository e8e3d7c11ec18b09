-- ===== src/Vos/Tree/Cycle.antt =====
-- service.go: `ensureNoCycle` decides whether a node lies on the path up from its new parent.
use openmate.Base.{
  ℕ, suc, zero, GoString, ◌=?◌, none, some, length, true, false, ◌≡◌, refl, sym, ap, ◌∙◌, arith,
  Bool-cases, inl, inr, ◌⊎◌, ok, err, ◌≤◌,
}
use openmate.Vos.Types.{Node, VfsState, own_parent, would_create_cycle, lookup}
use openmate.Vos.Tree.{climb, ensure_no_cycle}
use openmate.Vos.Tree.Links.{Nodes, IsLinked, lookup_unique, is_same}
use openmate.Vos.Tree.Rooted.{
  Rooted, at_root, below, Clear, clear_root, clear_below, path_length, climb-step, climb-met,
  require_node-found,
}
use openmate.Vos.Tree.Rooted.Lengths.{path_length-le, climb-top, Rooted-found}

pub record IsTree (nodes : Nodes) : Type 0 where
  pub linked : IsLinked nodes
  pub rooted : (k : GoString) (n : Node) → lookup k nodes ≡ some n → Rooted nodes k

-- The node `a` lies on the path up from a node.
pub data Above (nodes : Nodes) (a : GoString) : GoString → Type 0 where
  here : (k : GoString) → (k =? a) ≡ true → Above nodes a k
  higher :
      (k p : GoString) (n : Node)
      → lookup k nodes ≡ some n
      → n.parent_id ≡ some p
      → Above nodes a p
      → Above nodes a k

climb-decides :
    (fuel : ℕ) (state : VfsState) (a k : GoString) (cursor : Node)
    → ((j : GoString) (n : Node) → lookup j state.nodes ≡ some n → n.id ≡ j)
    → lookup k state.nodes ≡ some cursor
    → (q : Rooted state.nodes k) → path_length q ≤ fuel
    → ((climb fuel state a cursor ≡ ok tt) × Clear state.nodes a k)
      ⊎ ((climb fuel state a cursor ≡ err would_create_cycle) × Above state.nodes a k)
unfolding path_length
climb-decides zero state a _ cursor own h (at_root k n h' r) le = absurd (omega (arith, le))
climb-decides zero state a _ cursor own h (below k p n h' r q) le = absurd (omega (arith, le))
climb-decides (suc fuel) state a _ cursor own h (at_root k n h' r) le =
    let same : (cursor.id =? a) ≡ (k =? a) = ap (λ j. j =? a) (own k cursor h) in
    elim (Bool-cases (cursor.id =? a)) [
      | inl e ↦ inr (climb-met fuel state a cursor e, here k (sym same ∙ e))
      | inr e ↦
          let top : cursor.parent_id ≡ none =
            ap (λ u. u.parent_id) (lookup_unique k state.nodes cursor n h h') ∙ r in
          inl (climb-top fuel state a cursor e top, clear_root k cursor (sym same ∙ e) h top)
    ]
climb-decides (suc fuel) state a _ cursor own h (below k p n h' r q) le =
    let same : (cursor.id =? a) ≡ (k =? a) = ap (λ j. j =? a) (own k cursor h) in
    elim (Bool-cases (cursor.id =? a)) [
      | inl e ↦ inr (climb-met fuel state a cursor e, here k (sym same ∙ e))
      | inr e ↦
          let up : cursor.parent_id ≡ some p =
            ap (λ u. u.parent_id) (lookup_unique k state.nodes cursor n h h') ∙ r in
          let (next, found) = Rooted-found state.nodes p q in
          let step = climb-step fuel state a p cursor next e up found in
          elim (climb-decides fuel state a p next own found q (omega (arith, le))) [
            | inl (run, c) ↦ inl (step ∙ run, clear_below k p cursor (sym same ∙ e) h up c)
            | inr (run, above) ↦ inr (step ∙ run, higher k p cursor h up above)
          ]
    ]

own_parent-run :
    (state : VfsState) (a : GoString) (w : GoString)
    → (a =? w) ≡ true
    → ensure_no_cycle state a w ≡ err own_parent
unfolding ensure_no_cycle
own_parent-run state a w e = rw e refl

climb-run :
    (state : VfsState) (a w : GoString) (parent : Node)
    → (a =? w) ≡ false
    → lookup w state.nodes ≡ some parent
    → ensure_no_cycle state a w ≡ climb (suc (length state.nodes)) state a parent
unfolding ensure_no_cycle
climb-run state a w parent e h = rw (e, require_node-found state w parent h) refl

-- If the nodes form a tree and the new parent is there, the check of a move ends with one of
-- three answers: it refuses a node that is its own new parent, it accepts if the path from the
-- new parent up to the root does not meet the node, and it refuses if it does.
pub ensure_no_cycle-decides :
    (state : VfsState) (a w : GoString) (parent : Node)
    → IsTree state.nodes
    → lookup w state.nodes ≡ some parent
    → ((ensure_no_cycle state a w ≡ err own_parent) × (a ≡ w))
      ⊎ (((ensure_no_cycle state a w ≡ ok tt) × Clear state.nodes a w)
          ⊎ ((ensure_no_cycle state a w ≡ err would_create_cycle) × Above state.nodes a w))
ensure_no_cycle-decides state a w parent tree h = elim (Bool-cases (a =? w)) [
  | inl e ↦ inl (own_parent-run state a w e, is_same a w e)
  | inr e ↦
      let q = tree.rooted w parent h in
      let run = climb-run state a w parent e h in
      let enough = path_length-le (path_length q) state.nodes w q refl in
      elim (climb-decides (suc (length state.nodes)) state a w parent tree.linked.own_id h q
        (omega (arith, enough))) [
          | inl (c, clear) ↦ inr (inl (run ∙ c, clear))
          | inr (c, above) ↦ inr (inr (run ∙ c, above))
        ]
]
