-- ===== src/Vos/Tree/Paths.antt =====
-- The tree after each of the four changes of the nodes.
use openmate.Base.{
  ℕ, GoString, ◌=?◌, none, some, false, ◌≡◌, ap, ◌∙◌, subst, arith, Bool-cases, inl, inr,
}
use openmate.Schedule.Types.{has}
use openmate.Vos.Types.{Node, lookup, update, insert, remove}
use openmate.Vos.Tree.{without_child}
use openmate.Vos.Tree.Links.{
  Nodes, without-rest, lookup_unique, is_same, moved_nodes, moved_nodes-IsLinked, lookup-Moved_back,
}
use openmate.Vos.Tree.Growth.{
  removed-IsLinked, left-back, left-to, Adopts, grown-IsLinked, grown-to, grown-back, at-rest,
  planted-IsLinked, planted-to, planted-back,
}
use openmate.Vos.Tree.Rooted.{Rooted, at_root, below, Clear, moved-Rooted}
use openmate.Vos.Tree.Cycle.{IsTree}

pub moved-IsTree :
    (a o w : GoString) (now : ℕ) (nodes : Nodes) (node parent : Node)
    → lookup a nodes ≡ some node
    → node.parent_id ≡ some o
    → lookup w nodes ≡ some parent
    → Clear nodes a w
    → IsTree nodes
    → IsTree (moved_nodes a o w now nodes)
moved-IsTree a o w now nodes node parent ha ho hw clear tree = record {
  linked = moved_nodes-IsLinked a o w now nodes node parent ha ho hw tree.linked;
  rooted = λ k n' h.
      let (n, hn, m) = lookup-Moved_back a o w k now nodes n' h in
      moved-Rooted a o w now nodes node ha clear k (tree.rooted k n hn);
}

module _ (a o : GoString) (now : ℕ) (nodes : Nodes) (node : Node) (ha : lookup a nodes ≡ some node)
    (leaf : (c : GoString) → has c node.children_ids ≡ false) (tree : IsTree nodes)
    (ho : node.parent_id ≡ some o) where
  left-Rooted :
      (k : GoString)
      → Rooted nodes k
      → (a =? k) ≡ false
      → Rooted (remove a (update o (without_child a now) nodes)) k
  left-Rooted _ (at_root k n h r) e =
      at_root k _ (left-to a o now nodes node ha leaf tree.linked ho k n e h)
        ((without-rest a (o =? k) now n).1 ∙ r)
  left-Rooted _ (below k p n h r q) e = elim (Bool-cases (a =? p)) [
    | inl t ↦
        let (parent, hp, listed) = tree.linked.up k p n h r in
        let hp' = subst (λ j. lookup j nodes ≡ some node) (is_same a p t) ha in
        absurd (
          ground (
            arith,
            leaf k,
            ap (λ u. has k u.children_ids) (lookup_unique p nodes parent node hp hp'),
            listed,
          ))
    | inr t ↦
        below k p _ (left-to a o now nodes node ha leaf tree.linked ho k n e h)
          ((without-rest a (o =? k) now n).1 ∙ r) (left-Rooted p q t)
  ]

  pub removed-IsTree : IsTree (remove a (update o (without_child a now) nodes))
  removed-IsTree = record {
    linked = removed-IsLinked a o now nodes node ha leaf tree.linked ho;
    rooted = λ k n' h.
        let (n, e, hn, same) = left-back a o now nodes node ha leaf tree.linked ho k n' h in
        left-Rooted k (tree.rooted k n hn) e;
  }

module _ (a w : GoString) (f : Node → Node) (nodes : Nodes) (node parent : Node)
    (fresh : lookup a nodes ≡ none) (own : node.id ≡ a)
    (bare : (c : GoString) → has c node.children_ids ≡ false) (hw : lookup w nodes ≡ some parent)
    (pw : node.parent_id ≡ some w) (adopts : Adopts a f) (tree : IsTree nodes) where
  grown-Rooted : (k : GoString) → Rooted nodes k → Rooted (insert a node (update w f nodes)) k
  grown-Rooted _ (at_root k n h r) =
      at_root k _ (grown-to a w f nodes node parent fresh own bare hw pw adopts tree.linked k n h)
        ((at-rest a w f nodes node parent fresh own bare hw pw adopts tree.linked (w =? k) n).1 ∙ r)
  grown-Rooted _ (below k p n h r q) =
      below k p _ (grown-to a w f nodes node parent fresh own bare hw pw adopts tree.linked k n h)
        ((at-rest a w f nodes node parent fresh own bare hw pw adopts tree.linked (w =? k) n).1 ∙ r)
        (grown-Rooted p q)

  pub grown-IsTree : IsTree (insert a node (update w f nodes))
  grown-IsTree = record {
    linked = grown-IsLinked a w f nodes node parent fresh own bare hw pw adopts tree.linked;
    rooted = λ k n' h.
        elim (grown-back a w f nodes node parent fresh own bare hw pw adopts tree.linked k n' h) [
          | inl (s, same) ↦
              below k w n' h (ap (λ u. u.parent_id) same ∙ pw)
                (grown-Rooted w (tree.rooted w parent hw))
          | inr (n, s, hn, same) ↦ grown-Rooted k (tree.rooted k n hn)
        ];
  }

module _ (a : GoString) (nodes : Nodes) (node : Node) (fresh : lookup a nodes ≡ none)
    (own : node.id ≡ a) (bare : (c : GoString) → has c node.children_ids ≡ false)
    (top : node.parent_id ≡ none) (tree : IsTree nodes) where
  planted-Rooted : (k : GoString) → Rooted nodes k → Rooted (insert a node nodes) k
  planted-Rooted _ (at_root k n h r) =
      at_root k n (planted-to a nodes node fresh own bare top tree.linked k n h) r
  planted-Rooted _ (below k p n h r q) =
      below k p n (planted-to a nodes node fresh own bare top tree.linked k n h) r
        (planted-Rooted p q)

  pub planted-IsTree : IsTree (insert a node nodes)
  planted-IsTree = record {
    linked = planted-IsLinked a nodes node fresh own bare top tree.linked;
    rooted = λ k n' h. elim (planted-back a nodes node fresh own bare top tree.linked k n' h) [
      | inl (s, same) ↦ at_root k n' h (ap (λ u. u.parent_id) same ∙ top)
      | inr hn ↦ planted-Rooted k (tree.rooted k n' hn)
    ];
  }
