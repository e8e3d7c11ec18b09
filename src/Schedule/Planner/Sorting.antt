-- ===== src/Schedule/Planner/Sorting.antt =====
-- `sortActiveCandidates`: what any sort of the candidates answers.
use openmate.Base.{
  str_ltb, str_ltb_irrefl, str_ltb_trans, str_ltb_total, ◌=?◌, List, [], ◌∷◌, Bool, true, false,
  ◌&&◌, ◌||◌, ltb, ◌==◌, ◌≡◌, refl, sym, subst, inl, inr, ◌↔◌, In, All, All-In, count, Bool-cases,
  arith, ◌∙◌,
}
use openmate.Schedule.Types.{TopicNode}
use openmate.Schedule.Planner.{candidate_less, insert_candidate, sort_active_candidates}

-- The node entered its priority earlier, or at the same time with a smaller id.
abbrev pub precedes : TopicNode → TopicNode → Bool
precedes a b =
    ltb a.entered_priority_at b.entered_priority_at
    || ((a.entered_priority_at == b.entered_priority_at) && str_ltb a.node_id b.node_id)

candidate_less-precedes : (a b : TopicNode) → candidate_less a b ≡ precedes a b
unfolding candidate_less
candidate_less-precedes a b = ground arith

precedes_irrefl : (a : TopicNode) → precedes a a ≡ false
precedes_irrefl a = ground (arith, str_ltb_irrefl a.node_id)

precedes_trans :
    (a b c : TopicNode) → precedes a b ≡ true → precedes b c ≡ true → precedes a c ≡ true
precedes_trans a b c h k = ground (arith, str_ltb_trans a.node_id b.node_id c.node_id)

precedes_total :
    (a b : TopicNode)
    → (a.node_id =? b.node_id) ≡ false
    → precedes b a ≡ false
    → precedes a b ≡ true
precedes_total a b h k = ground (arith, str_ltb_total a.node_id b.node_id)

-- Each node precedes all that stand behind it.
abbrev pub IsOrdered : List TopicNode → Type 0
IsOrdered [] = Unit {0}
IsOrdered (a ∷ rest) = All (λ b. precedes a b ≡ true) rest × IsOrdered rest

-- No two nodes have the same id.
abbrev pub IsDistinct : List TopicNode → Type 0
IsDistinct [] = Unit {0}
IsDistinct (a ∷ rest) = All (λ b. (a.node_id =? b.node_id) ≡ false) rest × IsDistinct rest

All-insert_candidate :
    (P : TopicNode → Type 0) (a : TopicNode) (l : List TopicNode)
    → P a
    → All P l
    → All P (insert_candidate a l)
unfolding insert_candidate
All-insert_candidate P a [] h k = (h, tt)
All-insert_candidate P a (b ∷ l) h k = ground (arith, All-insert_candidate P a l h)

All-precedes :
    (a b : TopicNode) (l : List TopicNode)
    → precedes a b ≡ true
    → All (λ c. precedes b c ≡ true) l
    → All (λ c. precedes a c ≡ true) l
All-precedes a b [] h k = tt
All-precedes a b (c ∷ l) h k = (precedes_trans a b c h k.0, All-precedes a b l h k.1)

insert_candidate-IsOrdered :
    (a : TopicNode) (l : List TopicNode)
    → All (λ b. (a.node_id =? b.node_id) ≡ false) l
    → IsOrdered l
    → IsOrdered (insert_candidate a l)
unfolding insert_candidate
insert_candidate-IsOrdered a [] d o = (tt, tt)
insert_candidate-IsOrdered a (b ∷ l) d o =
    let same = candidate_less-precedes b a in
    elim (Bool-cases (precedes b a)) [
      | inl e ↦
          rw (same, e)
            (
              All-insert_candidate (λ c. precedes b c ≡ true) a l e o.0,
              insert_candidate-IsOrdered a l d.1 o.1,
            )
      | inr e ↦
          let first = precedes_total a b d.0 e in
          rw (same, e) ((first, All-precedes a b l first o.0), o)
    ]

All-sort_active_candidates :
    (P : TopicNode → Type 0) (l : List TopicNode) → All P l → All P (sort_active_candidates l)
unfolding sort_active_candidates
All-sort_active_candidates P [] h = tt
All-sort_active_candidates P (a ∷ l) h =
    All-insert_candidate P a (sort_active_candidates l) h.0 (All-sort_active_candidates P l h.1)

sort_active_candidates-IsOrdered :
    (l : List TopicNode) → IsDistinct l → IsOrdered (sort_active_candidates l)
unfolding sort_active_candidates
sort_active_candidates-IsOrdered [] d = tt
sort_active_candidates-IsOrdered (a ∷ l) d =
    insert_candidate-IsOrdered a (sort_active_candidates l)
      (All-sort_active_candidates (λ b. (a.node_id =? b.node_id) ≡ false) l d.0)
      (sort_active_candidates-IsOrdered l d.1)

In-insert_candidate :
    (x a : TopicNode) (l : List TopicNode) → In x (insert_candidate a l) → In x (a ∷ l)
unfolding insert_candidate
In-insert_candidate x a [] h = h
In-insert_candidate x a (b ∷ l) h = ground (arith, In-insert_candidate x a l)

In-insert_candidate_intro :
    (x a : TopicNode) (l : List TopicNode) → In x (a ∷ l) → In x (insert_candidate a l)
unfolding insert_candidate
In-insert_candidate_intro x a [] h = h
In-insert_candidate_intro x a (b ∷ l) h = ground (arith, In-insert_candidate_intro x a l)

pub In-sort_active_candidates :
    (x : TopicNode) (l : List TopicNode) → In x (sort_active_candidates l) → In x l
unfolding sort_active_candidates
In-sort_active_candidates x [] h = h
In-sort_active_candidates x (a ∷ l) h =
    ground
      (arith, In-insert_candidate x a (sort_active_candidates l), In-sort_active_candidates x l)

pub In-sort_active_candidates_intro :
    (x : TopicNode) (l : List TopicNode) → In x l → In x (sort_active_candidates l)
unfolding sort_active_candidates
In-sort_active_candidates_intro x [] h = h
In-sort_active_candidates_intro x (a ∷ l) h = ground (
  arith,
  In-insert_candidate_intro x a (sort_active_candidates l),
  In-sort_active_candidates_intro x l,
)

count-insert_candidate :
    (p : TopicNode → Bool) (a : TopicNode) (l : List TopicNode)
    → count p (insert_candidate a l) ≡ count p (a ∷ l)
unfolding insert_candidate
count-insert_candidate p a [] = refl
count-insert_candidate p a (b ∷ l) = ground (arith, count-insert_candidate p a l)

-- Every test counts as many nodes after the sort as before.
pub count-sort_active_candidates :
    (p : TopicNode → Bool) (l : List TopicNode) → count p (sort_active_candidates l) ≡ count p l
unfolding sort_active_candidates
count-sort_active_candidates p [] = refl
count-sort_active_candidates p (a ∷ l) =
    ground (
      arith,
      count-insert_candidate p a (sort_active_candidates l),
      count-sort_active_candidates p l,
    )

-- The members of two lists are the same.
abbrev pub SameMembers : List TopicNode → List TopicNode → Type 0
SameMembers l m = (x : TopicNode) → In x l ↔ In x m

same_first :
    (a b : TopicNode) (l m : List TopicNode)
    → All (λ c. precedes a c ≡ true) l
    → All (λ c. precedes b c ≡ true) m
    → In a (b ∷ m)
    → In b (a ∷ l)
    → a ≡ b
same_first a b l m h k (inl e) q = e
same_first a b l m h k (inr i) (inl e) = sym e
same_first a b l m h k (inr i) (inr j) =
    let back = All-In (λ c. precedes b c ≡ true) a m k i in
    let forth = All-In (λ c. precedes a c ≡ true) b l h j in
    absurd (ground (arith, precedes_trans a b a forth back, precedes_irrefl a))

-- Behind the first nodes, which are the same, a member of one list is one of the other.
behind_first :
    (a b x : TopicNode) (l m : List TopicNode)
    → a ≡ b
    → All (λ c. precedes a c ≡ true) l
    → In x l
    → In x (b ∷ m)
    → In x m
behind_first a b x l m e h i (inr j) = j
behind_first a b x l m e h i (inl q) =
    let after = All-In (λ c. precedes a c ≡ true) x l h i in
    let itself : precedes a a ≡ true = subst (λ y. precedes a y ≡ true) (q ∙ sym e) after in
    absurd (ground (arith, itself, precedes_irrefl a))

IsOrdered-unique : (l m : List TopicNode) → IsOrdered l → IsOrdered m → SameMembers l m → l ≡ m
IsOrdered-unique [] [] o p s = refl
IsOrdered-unique [] (b ∷ m) o p s = absurd ((s b).1 (inl refl))
IsOrdered-unique (a ∷ l) [] o p s = absurd ((s a).0 (inl refl))
IsOrdered-unique (a ∷ l) (b ∷ m) o p s =
    let e = same_first a b l m o.0 p.0 ((s a).0 (inl refl)) ((s b).1 (inl refl)) in
    let rest = IsOrdered-unique l m o.1 p.1 (λ x. (
      (λ i. behind_first a b x l m e o.0 i ((s x).0 (inr i))),
      (λ i. behind_first b a x m l (sym e) p.0 i ((s x).1 (inr i))),
    )) in
    λ i. e i ∷ rest i

-- Of nodes with distinct ids, a list is the sorted one exactly when it has the same members and
-- each node in it precedes all behind it: by the time at which it entered its priority, and then
-- by its id.
pub sort_active_candidates_iff :
    (l m : List TopicNode)
    → IsDistinct l
    → (m ≡ sort_active_candidates l) ↔ (IsOrdered m × SameMembers m l)
sort_active_candidates_iff l m d =
    let sorted = sort_active_candidates-IsOrdered l d in
    let same : SameMembers (sort_active_candidates l) l =
      λ x. (In-sort_active_candidates x l, In-sort_active_candidates_intro x l) in
    (
      (λ e. (subst IsOrdered (sym e) sorted, subst (λ k. SameMembers k l) (sym e) same)),
      (λ (o, s).
          IsOrdered-unique m (sort_active_candidates l) o sorted
            (λ x. ((λ i. (same x).1 ((s x).0 i)), (λ i. (s x).1 ((same x).0 i))))),
    )
