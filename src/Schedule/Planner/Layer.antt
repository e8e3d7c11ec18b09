-- ===== src/Schedule/Planner/Layer.antt =====
-- Which nodes the planner considers: the layer of the best rank, and what of it can be dispatched.
use openmate.Base.{
  List, [], ◌∷◌, Bool, false, not, ◌≡◌, refl, ◌⊎◌, inl, inr, In, Bool-cases, arith, ap, sym, subst,
  ◌↔◌, In-keep, In-keep_intro,
}
use openmate.Base.Int.{ℤ, ltb_ℤ, ◌==ℤ◌, ◌≤ℤ◌, pos_part, neg_part}
use openmate.Schedule.Types.{TopicNode, TopicSnapshot}
use openmate.Schedule.Planner.{
  status_is_terminal, status_blocks_dispatch, non_terminal_nodes, highest_rank, layer, dispatchable,
  sort_active_candidates,
}
use openmate.Schedule.Planner.Sorting.{In-sort_active_candidates, In-sort_active_candidates_intro}

-- The best rank is reached by a node, and no node has a better one.
highest_rank-le_best : (best : ℤ) (l : List TopicNode) → highest_rank best l ≤ℤ best
unfolding highest_rank
highest_rank-le_best best [] = ground arith
highest_rank-le_best best (n ∷ l) =
    ground (arith, highest_rank-le_best n.priority.rank l, highest_rank-le_best best l)

highest_rank-le :
    (best : ℤ) (l : List TopicNode) (n : TopicNode)
    → In n l
    → highest_rank best l ≤ℤ n.priority.rank
unfolding highest_rank
highest_rank-le best [] n h = absurd h
highest_rank-le best (m ∷ l) n (inl h) = ground (
  arith,
  ap (λ (k : TopicNode). k.priority.rank) h,
  highest_rank-le_best m.priority.rank l,
  highest_rank-le_best best l,
)
highest_rank-le best (m ∷ l) n (inr h) =
    ground (arith, highest_rank-le m.priority.rank l n h, highest_rank-le best l n h)

highest_rank_reached :
    (best : ℤ) (l : List TopicNode)
    → (highest_rank best l ≡ best)
      ⊎ ((n : TopicNode) × In n l × (n.priority.rank ≡ highest_rank best l))
unfolding highest_rank
highest_rank_reached best [] = inl refl
highest_rank_reached best (m ∷ l) = elim (Bool-cases (ltb_ℤ m.priority.rank best)) [
  | inl e ↦ rw e (elim (highest_rank_reached m.priority.rank l) [
    | inl q ↦ inr (m, inl refl, rw q refl)
    | inr (n, i, q) ↦ inr (n, inr i, q)
  ])
  | inr e ↦
      rw e
        (elim (highest_rank_reached best l) [ inl q ↦ inl q | inr (n, i, q) ↦ inr (n, inr i, q) ])
]

abbrev is_live : TopicNode → Bool
is_live node = not (status_is_terminal node.status)

-- What the planner orders, of the nodes that are not finished.
unfoldable pub layer_candidates : List TopicNode → List TopicNode
layer_candidates [] = []
layer_candidates (n ∷ l) =
    sort_active_candidates (dispatchable (layer (highest_rank n.priority.rank l) (n ∷ l)))

unfoldable pub candidates : TopicSnapshot → List TopicNode
unfolding layer_candidates
candidates topic = layer_candidates (non_terminal_nodes topic)

-- A node of the topic that may be dispatched: it is not finished, nothing holds it back, and no
-- node that is not finished has a better rank.
pub record Eligible (topic : TopicSnapshot) (n : TopicNode) : Type 0 where
  pub present : In n topic.nodes
  pub live : status_is_terminal n.status ≡ false
  pub open_status : status_blocks_dispatch n.status ≡ false
  pub best :
      (m : TopicNode)
      → In m topic.nodes
      → status_is_terminal m.status ≡ false
      → n.priority.rank ≤ℤ m.priority.rank

-- Membership in the candidates of a list, split into its four conditions.
candidates_of_layer :
    (n m : TopicNode) (l : List TopicNode)
    → In n (layer_candidates (m ∷ l))
    → In n (m ∷ l)
      × (status_blocks_dispatch n.status ≡ false)
      × (n.priority.rank ≤ℤ highest_rank m.priority.rank l)
unfolding layer_candidates dispatchable layer
candidates_of_layer n m l h =
    let ranks = λ (k : TopicNode). k.priority.rank ==ℤ highest_rank m.priority.rank l in
    let opens = λ (k : TopicNode). not (status_blocks_dispatch k.status) in
    let sorted = In-sort_active_candidates n _ h in
    let (in_layer, is_open) =
      In-keep opens n (layer (highest_rank m.priority.rank l) (m ∷ l)) sorted in
    let (here, in_rank) = In-keep ranks n (m ∷ l) in_layer in
    (here, ground (arith, is_open), ground (arith, in_rank))

pub live_nodes :
    (topic : TopicSnapshot) (n : TopicNode)
    → In n (non_terminal_nodes topic)
    → In n topic.nodes × (status_is_terminal n.status ≡ false)
unfolding non_terminal_nodes
live_nodes topic n h =
    let (here, live) = In-keep is_live n topic.nodes h in (here, ground (arith, live))

pub live_nodes_intro :
    (topic : TopicSnapshot) (n : TopicNode)
    → In n topic.nodes
    → status_is_terminal n.status ≡ false
    → In n (non_terminal_nodes topic)
unfolding non_terminal_nodes
live_nodes_intro topic n h e = In-keep_intro is_live n topic.nodes h (ground arith)

highest_rank-le_cons :
    (m n : TopicNode) (l : List TopicNode)
    → In n (m ∷ l)
    → highest_rank m.priority.rank l ≤ℤ n.priority.rank
highest_rank-le_cons m n l (inl e) = omega (
  arith,
  highest_rank-le_best m.priority.rank l,
  ap (λ (k : TopicNode). pos_part k.priority.rank) e,
  ap (λ (k : TopicNode). neg_part k.priority.rank) e,
)
highest_rank-le_cons m n l (inr h) = highest_rank-le m.priority.rank l n h

pub highest_rank_reached_cons :
    (m : TopicNode) (l : List TopicNode)
    → (n : TopicNode) × In n (m ∷ l) × (n.priority.rank ≡ highest_rank m.priority.rank l)
highest_rank_reached_cons m l = elim (highest_rank_reached m.priority.rank l) [
  | inl e ↦ (m, inl refl, sym e)
  | inr (n, i, e) ↦ (n, inr i, e)
]

candidates_from :
    (topic : TopicSnapshot) (n : TopicNode) (l : List TopicNode)
    → non_terminal_nodes topic ≡ l
    → In n (layer_candidates l)
    → Eligible topic n
unfolding layer_candidates
candidates_from topic n [] e h = absurd h
candidates_from topic n (m ∷ l) e h =
    let (here, is_open, rank) = candidates_of_layer n m l h in
    let (present, live) = live_nodes topic n (subst (In n) (sym e) here) in
    record {
      present = present;
      live = live;
      open_status = is_open;
      best = λ k i live'. omega (
        arith,
        rank,
        highest_rank-le_cons m k l (subst (In k) e (live_nodes_intro topic k i live')),
      );
    }

candidates_into :
    (topic : TopicSnapshot) (n : TopicNode) (l : List TopicNode)
    → non_terminal_nodes topic ≡ l
    → Eligible topic n
    → In n (layer_candidates l)
unfolding layer_candidates dispatchable layer
candidates_into topic n [] e h = subst (In n) e (live_nodes_intro topic n h.present h.live)
candidates_into topic n (m ∷ l) e h =
    let here = subst (In n) e (live_nodes_intro topic n h.present h.live) in
    let (k, i, top) = highest_rank_reached_cons m l in
    let (k_present, k_live) = live_nodes topic k (subst (In k) (sym e) i) in
    let ranks = λ (q : TopicNode). q.priority.rank ==ℤ highest_rank m.priority.rank l in
    let opens = λ (q : TopicNode). not (status_blocks_dispatch q.status) in
    let in_layer =
      In-keep_intro ranks n (m ∷ l) here
        (ground (arith, top, h.best k k_present k_live, highest_rank-le_cons m n l here)) in
    In-sort_active_candidates_intro n _ (
      In-keep_intro opens n (layer (highest_rank m.priority.rank l) (m ∷ l)) in_layer
        (ground (arith, h.open_status)))

-- The candidates of a topic are exactly its eligible nodes.
pub candidates_iff :
    (topic : TopicSnapshot) (n : TopicNode) → In n (candidates topic) ↔ Eligible topic n
unfolding candidates
candidates_iff topic n = (
  candidates_from topic n (non_terminal_nodes topic) refl,
  candidates_into topic n (non_terminal_nodes topic) refl,
)
