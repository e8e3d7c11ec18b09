-- ===== src/Vos/Tree/Links.antt =====
-- The links of the tree: a parent lists its children, and a listed child names its parent.
use openmate.Base.{
  ℕ, GoString, ◌=?◌, Option, some, List, Bool, true, false, not, ◌≡◌, refl, sym, ap, ◌∙◌, subst,
  if◌then◌else◌, ◌&&◌, ◌||◌, arith, Bool-cases, inl, inr,
}
use openmate.Schedule.Types.{has}
use openmate.Vos.Types.{Node, lookup, update}
use openmate.Vos.Tree.{without_child, with_child, under}
use openmate.Vos.Tree.Maps.{map_at, lookup-update, lookup-update_back, has-remove_child, has-append}

abbrev pub Nodes : Type 0
Nodes = List (GoString × Node)

pub record IsLinked (nodes : Nodes) : Type 0 where
  pub own_id : (k : GoString) (n : Node) → lookup k nodes ≡ some n → n.id ≡ k
  pub up :
      (k p : GoString) (n : Node)
      → lookup k nodes ≡ some n
      → n.parent_id ≡ some p
      → (q : Node) × (lookup p nodes ≡ some q) × (has k q.children_ids ≡ true)
  pub down :
      (p k : GoString) (q : Node)
      → lookup p nodes ≡ some q
      → has k q.children_ids ≡ true
      → (n : Node) × (lookup k nodes ≡ some n) × (n.parent_id ≡ some p)

-- What a move of `a` from `o` to `w` makes of the node under the key `k`.
abbrev moved_parent : GoString → GoString → GoString → Option GoString → Option GoString
moved_parent a w k parent = if a =? k then some w else parent

abbrev moved_has : GoString → GoString → GoString → GoString → GoString → Bool → Bool
moved_has a o w k c listed = (listed && not ((o =? k) && (a =? c))) || ((w =? k) && (a =? c))

pub record Moved (a o w k : GoString) (n n' : Node) : Type 0 where
  pub same_id : n'.id ≡ n.id
  pub parent : n'.parent_id ≡ moved_parent a w k n.parent_id
  pub children : (c : GoString) → has c n'.children_ids ≡ moved_has a o w k c (has c n.children_ids)

has-with :
    (a c : GoString) (b : Bool) (now : ℕ) (n : Node)
    → has c (map_at b (with_child a now) n).children_ids ≡ (has c n.children_ids || (b && (a =? c)))
has-with a c true now n = has-append c a n.children_ids
has-with a c false now n = ground arith

pub has-without :
    (a c : GoString) (b : Bool) (now : ℕ) (n : Node)
    → has c (map_at b (without_child a now) n).children_ids
      ≡ (has c n.children_ids && not (b && (a =? c)))
has-without a c true now n = ground (arith, has-remove_child c a n.children_ids)
has-without a c false now n = ground arith

under-parent :
    (w : GoString) (b : Bool) (now : ℕ) (n : Node)
    → (map_at b (under w now) n).parent_id ≡ (if b then some w else n.parent_id)
under-parent w true now n = refl
under-parent w false now n = refl

under-rest :
    (w : GoString) (b : Bool) (now : ℕ) (n : Node)
    → ((map_at b (under w now) n).id ≡ n.id)
      × ((map_at b (under w now) n).children_ids ≡ n.children_ids)
under-rest w true now n = (refl, refl)
under-rest w false now n = (refl, refl)

with-rest :
    (a : GoString) (b : Bool) (now : ℕ) (n : Node)
    → ((map_at b (with_child a now) n).id ≡ n.id)
      × ((map_at b (with_child a now) n).parent_id ≡ n.parent_id)
with-rest a true now n = (refl, refl)
with-rest a false now n = (refl, refl)

pub without-rest :
    (a : GoString) (b : Bool) (now : ℕ) (n : Node)
    → ((map_at b (without_child a now) n).id ≡ n.id)
      × ((map_at b (without_child a now) n).parent_id ≡ n.parent_id)
without-rest a true now n = (refl, refl)
without-rest a false now n = (refl, refl)

unfoldable pub moved_nodes : GoString → GoString → GoString → ℕ → Nodes → Nodes
moved_nodes a o w now nodes =
    update a (under w now) (update w (with_child a now) (update o (without_child a now) nodes))

module _ (a o w k : GoString) (now : ℕ) where
  moved1 : Node → Node
  moved1 = map_at (o =? k) (without_child a now)

  moved2 : Node → Node
  unfolding moved1
  moved2 n = map_at (w =? k) (with_child a now) (moved1 n)

  pub moved : Node → Node
  unfolding moved2
  moved n = map_at (a =? k) (under w now) (moved2 n)

  pub moved-Moved : (n : Node) → Moved a o w k n (moved n)
  unfolding moved moved2 moved1
  moved-Moved n =
      let n1 = map_at (o =? k) (without_child a now) n in
      let n2 = map_at (w =? k) (with_child a now) n1 in
      let u = under-rest w (a =? k) now n2 in
      let v = with-rest a (w =? k) now n1 in
      let x = without-rest a (o =? k) now n in
      record {
        same_id = u.0 ∙ v.0 ∙ x.0;
        parent = under-parent w (a =? k) now n2 ∙ ap (moved_parent a w k) (v.1 ∙ x.1);
        children = λ c.
            ap (has c) u.1
            ∙ has-with a c (w =? k) now n1
            ∙ ap (λ b. b || ((w =? k) && (a =? c))) (has-without a c (o =? k) now n);
      }

  pub lookup-moved :
      (nodes : Nodes) (n : Node)
      → lookup k nodes ≡ some n
      → lookup k (moved_nodes a o w now nodes) ≡ some (moved n)
  unfolding moved moved2 moved1 moved_nodes
  lookup-moved nodes n h =
      lookup-update a (under w now) k _ _ (
        lookup-update w (with_child a now) k _ _
          (lookup-update o (without_child a now) k nodes n h))

  pub lookup-Moved_back :
      (nodes : Nodes) (n' : Node)
      → lookup k (moved_nodes a o w now nodes) ≡ some n'
      → (n : Node) × (lookup k nodes ≡ some n) × Moved a o w k n n'
  unfolding moved moved2 moved1 moved_nodes
  lookup-Moved_back nodes n' h =
      let (n2, h2, e2) = lookup-update_back a (under w now) k _ n' h in
      let (n1, h1, e1) = lookup-update_back w (with_child a now) k _ n2 h2 in
      let (n, h0, e0) = lookup-update_back o (without_child a now) k nodes n1 h1 in
      let same : moved n ≡ n' = sym (
        e2
        ∙ ap (map_at (a =? k) (under w now)) (e1 ∙ ap (map_at (w =? k) (with_child a now)) e0)) in
      (n, h0, subst (Moved a o w k n) same (moved-Moved n))

pub lookup_unique :
    (k : GoString) (nodes : Nodes) (m n : Node)
    → lookup k nodes ≡ some m
    → lookup k nodes ≡ some n
    → m ≡ n
lookup_unique k nodes m n h l = ground (arith, h, l)

pub some_inj : (a b : GoString) (o : Option GoString) → o ≡ some a → o ≡ some b → a ≡ b
some_inj a b o h k = ground (arith, h, k)

pub is_same : (a b : GoString) → (a =? b) ≡ true → a ≡ b
is_same a b h = ground (arith, h)

-- A move keeps the links, from the parent that the node has.
module _ (a o w : GoString) (now : ℕ) (nodes : Nodes) (node parent : Node)
    (ha : lookup a nodes ≡ some node) (ho : node.parent_id ≡ some o)
    (hw : lookup w nodes ≡ some parent) (l : IsLinked nodes) where
  move-up :
      (k p : GoString) (n' : Node)
      → lookup k (moved_nodes a o w now nodes) ≡ some n'
      → n'.parent_id ≡ some p
      → (q : Node) × (lookup p (moved_nodes a o w now nodes) ≡ some q)
        × (has k q.children_ids ≡ true)
  move-up k p n' h e =
      let (n, h0, m) = lookup-Moved_back a o w k now nodes n' h in
      elim (Bool-cases (a =? k)) [
        | inl s ↦
            let same : w ≡ p =
              some_inj w p n'.parent_id (m.parent ∙ ap (λ b. if b then some w else n.parent_id) s)
                e in
            let hp : lookup p nodes ≡ some parent =
              subst (λ j. lookup j nodes ≡ some parent) same hw in
            let c = (moved-Moved a o w p now parent).children k in
            (
              moved a o w p now parent,
              lookup-moved a o w p now nodes parent hp,
              ground (arith, c, s, same),
            )
        | inr s ↦
            let kept : n.parent_id ≡ some p =
              sym (m.parent ∙ ap (λ b. if b then some w else n.parent_id) s) ∙ e in
            let (q, hq, listed) = l.up k p n h0 kept in
            let c = (moved-Moved a o w p now q).children k in
            (moved a o w p now q, lookup-moved a o w p now nodes q hq, ground (arith, c, s, listed))
      ]

  move-down :
      (p k : GoString) (q' : Node)
      → lookup p (moved_nodes a o w now nodes) ≡ some q'
      → has k q'.children_ids ≡ true
      → (n : Node) × (lookup k (moved_nodes a o w now nodes) ≡ some n) × (n.parent_id ≡ some p)
  move-down p k q' h e =
      let (q, h0, m) = lookup-Moved_back a o w p now nodes q' h in
      let c = m.children k in
      elim (Bool-cases (a =? k)) [
        | inl s ↦
            let hk : lookup k nodes ≡ some node =
              subst (λ j. lookup j nodes ≡ some node) (is_same a k s) ha in
            let at = moved-Moved a o w k now node in
            elim (Bool-cases (w =? p)) [
              | inl t ↦ (
                moved a o w k now node,
                lookup-moved a o w k now nodes node hk,
                at.parent
                    ∙ ap (λ b. if b then some w else node.parent_id) s
                    ∙ ap some (is_same w p t),
              )
              | inr t ↦
                  let listed : has k q.children_ids ≡ true = ground (arith, c, e, s, t) in
                  let (n, hn, pn) = l.down p k q h0 listed in
                  let same = lookup_unique k nodes n node hn hk in
                  let back : p ≡ o =
                    some_inj p o node.parent_id (ap (λ u. u.parent_id) (sym same) ∙ pn) ho in
                  absurd (ground (arith, c, e, s, t, back))
            ]
        | inr s ↦
            let listed : has k q.children_ids ≡ true = ground (arith, c, e, s) in
            let (n, hn, pn) = l.down p k q h0 listed in
            (
              moved a o w k now n,
              lookup-moved a o w k now nodes n hn,
              (moved-Moved a o w k now n).parent
                  ∙ ap (λ b. if b then some w else n.parent_id) s
                  ∙ pn,
            )
      ]

  pub moved_nodes-IsLinked : IsLinked (moved_nodes a o w now nodes)
  moved_nodes-IsLinked = record {
    own_id = λ k n' h.
        let (n, h0, m) = lookup-Moved_back a o w k now nodes n' h in m.same_id ∙ l.own_id k n h0;
    up = move-up;
    down = move-down;
  }
