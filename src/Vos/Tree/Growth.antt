-- ===== src/Vos/Tree/Growth.antt =====
-- The links after a node is added or deleted.
use openmate.Base.{
  ℕ, GoString, ◌=?◌, none, some, Bool, true, false, ◌≡◌, refl, sym, ap, ◌∙◌, subst, ◌&&◌, ◌||◌,
  arith, Bool-cases, inl, inr, ◌⊎◌,
}
use openmate.Schedule.Types.{has}
use openmate.Vos.Types.{Node, lookup, update, insert, remove}
use openmate.Vos.Tree.{without_child}
use openmate.Vos.Tree.Maps.{
  map_at, lookup-update, lookup-update_back, lookup-remove, lookup-removed,
}
use openmate.Vos.Tree.Links.{
  Nodes, IsLinked, has-without, without-rest, lookup_unique, some_inj, is_same,
}

-- A leaf is deleted.
module _ (a o : GoString) (now : ℕ) (nodes : Nodes) (node : Node) (ha : lookup a nodes ≡ some node)
    (leaf : (c : GoString) → has c node.children_ids ≡ false) (l : IsLinked nodes)
    (ho : node.parent_id ≡ some o) where
  abbrev pub left : Nodes
  left = remove a (update o (without_child a now) nodes)

  pub left-back :
      (k : GoString) (n' : Node)
      → lookup k left ≡ some n'
      → (n : Node) × ((a =? k) ≡ false)
        × (lookup k nodes ≡ some n)
        × (n' ≡ map_at (o =? k) (without_child a now) n)
  left-back k n' h = elim (Bool-cases (a =? k)) [
    | inl s ↦
        let gone =
          subst (λ j. lookup j (remove a (update o (without_child a now) nodes)) ≡ none)
            (is_same a k s) (lookup-removed a _) in
        absurd (ground (arith, h, gone))
    | inr s ↦
        let (n, hn, e) =
          lookup-update_back o (without_child a now) k nodes n' (sym (lookup-remove a k _ s) ∙ h) in
        (n, s, hn, e)
  ]

  pub left-to :
      (k : GoString) (n : Node)
      → (a =? k) ≡ false
      → lookup k nodes ≡ some n
      → lookup k left ≡ some (map_at (o =? k) (without_child a now) n)
  left-to k n s h = lookup-remove a k _ s ∙ lookup-update o (without_child a now) k nodes n h

  pub removed-IsLinked : IsLinked (remove a (update o (without_child a now) nodes))
  removed-IsLinked = record {
    own_id = λ k n' h.
        let (n, s, hn, e) = left-back k n' h in
        ap (λ u. u.id) e ∙ (without-rest a (o =? k) now n).0 ∙ l.own_id k n hn;
    up = λ k p n' h e.
        let (n, s, hn, same) = left-back k n' h in
        let pn = sym (ap (λ u. u.parent_id) same ∙ (without-rest a (o =? k) now n).1) ∙ e in
        let (q, hq, listed) = l.up k p n hn pn in
        elim (Bool-cases (a =? p)) [
          | inl t ↦
              let hp = subst (λ j. lookup j nodes ≡ some node) (is_same a p t) ha in
              let eq = lookup_unique p nodes node q hp hq in
              let bad = ap (λ u. has k u.children_ids) eq ∙ listed in
              absurd (ground (arith, bad, leaf k))
          | inr t ↦ (
            map_at (o =? p) (without_child a now) q,
            left-to p q t hq,
            ground (arith, has-without a k (o =? p) now q, listed, s),
          )
        ];
    down = λ p k q' h e.
        let (q, s, hq, same) = left-back p q' h in
        let listed' =
          sym (has-without a k (o =? p) now q) ∙ ap (λ u. has k u.children_ids) (sym same) ∙ e in
        let (n, hn, pn) = l.down p k q hq (ground (arith, listed')) in
        elim (Bool-cases (a =? k)) [
          | inl t ↦
              let hk = subst (λ j. lookup j nodes ≡ some node) (is_same a k t) ha in
              let eq = lookup_unique k nodes n node hn hk in
              let back = some_inj p o node.parent_id (ap (λ u. u.parent_id) (sym eq) ∙ pn) ho in
              absurd (ground (arith, listed', t, back))
          | inr t ↦ (
            map_at (o =? k) (without_child a now) n,
            left-to k n t hn,
            (without-rest a (o =? k) now n).1 ∙ pn,
          )
        ];
  }

-- A node without children is added under a key that is not there; if it has a parent, that one
-- lists it.
pub record Adopts (a : GoString) (f : Node → Node) : Type 0 where
  pub same_id : (n : Node) → (f n).id ≡ n.id
  pub same_parent : (n : Node) → (f n).parent_id ≡ n.parent_id
  pub lists :
      (n : Node) (c : GoString) → has c (f n).children_ids ≡ (has c n.children_ids || (a =? c))

module _ (a w : GoString) (f : Node → Node) (nodes : Nodes) (node parent : Node)
    (fresh : lookup a nodes ≡ none) (own : node.id ≡ a)
    (bare : (c : GoString) → has c node.children_ids ≡ false) (hw : lookup w nodes ≡ some parent)
    (pw : node.parent_id ≡ some w) (adopts : Adopts a f) (l : IsLinked nodes) where
  abbrev pub grown : Nodes
  grown = insert a node (update w f nodes)

  pub grown-to :
      (k : GoString) (n : Node)
      → lookup k nodes ≡ some n
      → lookup k grown ≡ some (map_at (w =? k) f n)
  unfolding lookup insert
  grown-to k n h = elim (Bool-cases (a =? k)) [
    | inl s ↦ absurd (ground (arith, h, fresh, is_same a k s))
    | inr s ↦ rw s (lookup-update w f k nodes n h)
  ]

  pub grown-new : lookup a grown ≡ some node
  unfolding lookup insert
  grown-new = ground arith

  pub grown-back :
      (k : GoString) (n' : Node)
      → lookup k grown ≡ some n'
      → ((a ≡ k) × (n' ≡ node))
        ⊎ ((n : Node) × ((a =? k) ≡ false) × (lookup k nodes ≡ some n) × (n' ≡ map_at (w =? k) f n))
  unfolding lookup insert
  grown-back k n' h = elim (Bool-cases (a =? k)) [
    | inl s ↦ inl (is_same a k s, ground (arith, h, s))
    | inr s ↦
        let (n, hn, e) = lookup-update_back w f k nodes n' (ground (arith, h, s)) in
        inr (n, s, hn, e)
  ]

  pub at-rest :
      (b : Bool) (n : Node) → ((map_at b f n).id ≡ n.id) × ((map_at b f n).parent_id ≡ n.parent_id)
  at-rest true n = (adopts.same_id n, adopts.same_parent n)
  at-rest false n = (refl, refl)

  at-has :
      (b : Bool) (n : Node) (c : GoString)
      → has c (map_at b f n).children_ids ≡ (has c n.children_ids || (b && (a =? c)))
  at-has true n c = adopts.lists n c
  at-has false n c = ground arith

  grown-up :
      (k p : GoString) (n' : Node)
      → lookup k grown ≡ some n'
      → n'.parent_id ≡ some p
      → (q : Node) × (lookup p grown ≡ some q) × (has k q.children_ids ≡ true)
  grown-up k p n' h e = elim (grown-back k n' h) [
    | inl (s, same) ↦
        let pp : w ≡ p = some_inj w p node.parent_id pw (ap (λ u. u.parent_id) (sym same) ∙ e) in
        let hp = subst (λ j. lookup j nodes ≡ some parent) pp hw in
        (
          map_at (w =? p) f parent,
          grown-to p parent hp,
          ground (arith, at-has (w =? p) parent k, s, pp),
        )
    | inr (n, s, hn, same) ↦
        let pn = sym (ap (λ u. u.parent_id) same ∙ (at-rest (w =? k) n).1) ∙ e in
        let (q, hq, listed) = l.up k p n hn pn in
        (map_at (w =? p) f q, grown-to p q hq, ground (arith, at-has (w =? p) q k, listed))
  ]

  grown-down :
      (p k : GoString) (q' : Node)
      → lookup p grown ≡ some q'
      → has k q'.children_ids ≡ true
      → (n : Node) × (lookup k grown ≡ some n) × (n.parent_id ≡ some p)
  grown-down p k q' h e = elim (grown-back p q' h) [
    | inl (s, same) ↦ absurd (ground (arith, bare k, ap (λ u. has k u.children_ids) same, e))
    | inr (q, s, hq, same) ↦
        let listed = sym (at-has (w =? p) q k) ∙ ap (λ u. has k u.children_ids) (sym same) ∙ e in
        elim (Bool-cases (has k q.children_ids)) [
          | inl t ↦
              let (n, hn, pn) = l.down p k q hq t in
              (map_at (w =? k) f n, grown-to k n hn, (at-rest (w =? k) n).1 ∙ pn)
          | inr t ↦
              let new : a ≡ k = ground (arith, listed, t) in
              let at : w ≡ p = ground (arith, listed, t) in
              (node, subst (λ j. lookup j grown ≡ some node) new grown-new, pw ∙ ap some at)
        ]
  ]

  pub grown-IsLinked : IsLinked (insert a node (update w f nodes))
  grown-IsLinked = record {
    own_id = λ k n' h. elim (grown-back k n' h) [
      | inl (s, same) ↦ ap (λ u. u.id) same ∙ own ∙ s
      | inr (n, s, hn, same) ↦ ap (λ u. u.id) same ∙ (at-rest (w =? k) n).0 ∙ l.own_id k n hn
    ];
    up = grown-up;
    down = grown-down;
  }

-- A root without children is added under a key that is not there.
module _ (a : GoString) (nodes : Nodes) (node : Node) (fresh : lookup a nodes ≡ none)
    (own : node.id ≡ a) (bare : (c : GoString) → has c node.children_ids ≡ false)
    (top : node.parent_id ≡ none) (l : IsLinked nodes) where
  pub planted-to :
      (k : GoString) (n : Node) → lookup k nodes ≡ some n → lookup k (insert a node nodes) ≡ some n
  unfolding lookup insert
  planted-to k n h = elim (Bool-cases (a =? k)) [
    | inl s ↦ absurd (ground (arith, h, fresh, is_same a k s))
    | inr s ↦ rw s h
  ]

  pub planted-back :
      (k : GoString) (n' : Node)
      → lookup k (insert a node nodes) ≡ some n'
      → ((a ≡ k) × (n' ≡ node)) ⊎ (lookup k nodes ≡ some n')
  unfolding lookup insert
  planted-back k n' h = elim (Bool-cases (a =? k)) [
    | inl s ↦ inl (is_same a k s, ground (arith, h, s))
    | inr s ↦ inr (ground (arith, h, s))
  ]

  pub planted-IsLinked : IsLinked (insert a node nodes)
  planted-IsLinked = record {
    own_id = λ k n' h. elim (planted-back k n' h) [
      | inl (s, same) ↦ ap (λ u. u.id) same ∙ own ∙ s
      | inr hn ↦ l.own_id k n' hn
    ];
    up = λ k p n' h e. elim (planted-back k n' h) [
      | inl (s, same) ↦ absurd (ground (arith, top, ap (λ u. u.parent_id) same, e))
      | inr hn ↦ let (q, hq, listed) = l.up k p n' hn e in (q, planted-to p q hq, listed)
    ];
    down = λ p k q' h e. elim (planted-back p q' h) [
      | inl (s, same) ↦ absurd (ground (arith, bare k, ap (λ u. has k u.children_ids) same, e))
      | inr hq ↦ let (n, hn, pn) = l.down p k q' hq e in (n, planted-to k n hn, pn)
    ];
  }
