-- ===== src/Schedule/Engine/Choice.antt =====
-- engine.go: the topic that `selectTopic` chooses.
use openmate.Base.{
  str_ltb, str_ltb_irrefl, str_ltb_trans, str_ltb_total, Option, none, some, List, [], ◌∷◌, Bool,
  true, false, ◌≡◌, refl, sym, ◌&&◌, any, All, In, arith, Bool-cases, Result, ok, inl, inr, ◌⊎◌,
  subst, Result-cases, ap, ◌∙◌, if◌then◌else◌, ltb, ◌==◌,
}
use openmate.Base.Sorting.{
  sort_by, first_with, sort_by-IsSorted, first_with-least, first_with-none, any-sort_by,
  All-sort_back, All-sort, All-self, sort_agree, first_with-found,
}
use openmate.Schedule.Types.{TopicQueueLevel, other_level, validate_level}
use openmate.Schedule.Runtime.{TopicControlState, RuntimeDb, RuntimeError}
use openmate.Schedule.Runtime.Topics.{
  scan_topic, scan_topics, list_topics, same_level, queue_level_order,
}
use openmate.Schedule.Runtime.Work.{has_runnable_nodes}
use openmate.Schedule.Engine.Selection.{topic_before, served_at, has_work, choose, select_topic}

-- The order of the topics by level, then by the time they were served, then by id.
unfoldable pub topic_order : TopicControlState → TopicControlState → Bool
unfolding queue_level_order
topic_order a b =
    if queue_level_order a.queue_level == queue_level_order b.queue_level
    then (if served_at a == served_at b
        then str_ltb a.topic_id b.topic_id
        else ltb (served_at a) (served_at b))
    else ltb (queue_level_order a.queue_level) (queue_level_order b.queue_level)

topic_order_asym : (a b : TopicControlState) → topic_order a b ≡ true → topic_order b a ≡ false
unfolding topic_order
topic_order_asym a b h =
    ground (arith, h, str_ltb_trans a.topic_id b.topic_id a.topic_id, str_ltb_irrefl a.topic_id)

topic_order_weak :
    (a b c : TopicControlState)
    → topic_order a c ≡ true
    → (topic_order a b ≡ true) ⊎ (topic_order b c ≡ true)
unfolding topic_order
topic_order_weak a b c h =
    ground (
      arith,
      h,
      str_ltb_total a.topic_id b.topic_id,
      str_ltb_trans b.topic_id a.topic_id c.topic_id,
    )

known_level : TopicQueueLevel → Bool
known_level (other_level _) = false
known_level _ = true

same_level_order :
    (a b : TopicQueueLevel)
    → known_level a ≡ true
    → known_level b ≡ true
    → same_level a b ≡ (queue_level_order a == queue_level_order b)
unfolding same_level queue_level_order known_level
same_level_order a b h k = ground (arith, h, k)

before_order :
    (a b : TopicControlState)
    → known_level a.queue_level ≡ true
    → known_level b.queue_level ≡ true
    → topic_before a b ≡ topic_order a b
unfolding topic_before topic_order
before_order a b h k = rw (same_level_order a.queue_level b.queue_level h k) refl

scan_topic-known :
    (row t : TopicControlState) → scan_topic row ≡ ok t → known_level t.queue_level ≡ true
unfolding scan_topic validate_level known_level
scan_topic-known row t h = ground (arith, h)

scan_topics-known :
    (rows ts : List TopicControlState)
    → scan_topics rows ≡ ok ts
    → All (λ t. known_level t.queue_level ≡ true) ts
unfolding scan_topics
scan_topics-known [] ts h =
    let e : [] ≡ ts = ground (arith, h) in subst (All (λ t. known_level t.queue_level ≡ true)) e tt
scan_topics-known (row ∷ rows) ts h = elim (Result-cases (scan_topic row)) [
  | inl (e, k) ↦ absurd (ground (arith, h, k))
  | inr (t, k) ↦ elim (Result-cases (scan_topics rows)) [
    | inl (e, l) ↦ absurd (ground (arith, h, k, l))
    | inr (us, l) ↦
        let e : t ∷ us ≡ ts = ground (arith, h, k, l) in
        subst (All (λ v. known_level v.queue_level ≡ true)) e
          (scan_topic-known row t k, scan_topics-known rows us l)
  ]
]

ok_inj :
    (a b : Option TopicControlState) (r : Result RuntimeError (Option TopicControlState))
    → r ≡ ok a
    → r ≡ ok b
    → a ≡ b
ok_inj a b r h k = ground (arith, h, k)

select_topic-first :
    (db : RuntimeDb) (ts : List TopicControlState) (chosen : Option TopicControlState)
    → list_topics db ≡ ok ts
    → select_topic db ≡ ok chosen
    → first_with (has_work db) (sort_by topic_order ts) ≡ chosen
unfolding select_topic choose
select_topic-first db ts chosen h k =
    let agree =
      sort_agree topic_before topic_order (λ t. known_level t.queue_level) before_order ts
        (scan_topics-known db.topics ts h) in
    let k' : choose db (ok ts) ≡ ok chosen = subst (λ r. choose db r ≡ ok chosen) h k in
    ap (first_with (has_work db)) (sym agree) ∙ ok_inj _ chosen (choose db (ok ts)) refl k'

behind :
    (db : RuntimeDb) (t : TopicControlState) (ts : List TopicControlState)
    → All (λ u. has_work db u ≡ true → topic_order u t ≡ false) ts
    → All (λ u. (has_runnable_nodes u.topic_id db && topic_order u t) ≡ false) ts
behind db t [] a = tt
behind db t (u ∷ ts) a = elim (Bool-cases (has_runnable_nodes u.topic_id db)) [
  | inl e ↦ rw e (a.0 e, behind db t ts a.1)
  | inr e ↦ rw e (refl, behind db t ts a.1)
]

-- If the topics can be listed and a topic is chosen, it is one of them and has runnable nodes,
-- and no topic with runnable nodes comes before it in the order of levels, then of the times of
-- the last service, then of ids.
pub select_topic-some :
    (db : RuntimeDb) (ts : List TopicControlState) (t : TopicControlState)
    → list_topics db ≡ ok ts
    → select_topic db ≡ ok (some t)
    → (has_runnable_nodes t.topic_id db ≡ true)
      × In t ts
      × All (λ u. (has_runnable_nodes u.topic_id db && topic_order u t) ≡ false) ts
select_topic-some db ts t h k =
    let e = select_topic-first db ts (some t) h k in
    let (work, member) =
      first_with-found topic_order (has_work db) (λ u. In u ts) t (sort_by topic_order ts)
        (All-sort topic_order (λ u. In u ts) ts (All-self ts)) e in
    (
      work,
      member,
      behind db t ts (
          All-sort_back topic_order (λ u. has_work db u ≡ true → topic_order u t ≡ false) ts
            (first_with-least topic_order topic_order_asym topic_order_weak (has_work db) t
              (sort_by topic_order ts)
              (sort_by-IsSorted topic_order topic_order_asym topic_order_weak ts) e)),
    )

-- Nothing is chosen only if no topic has runnable nodes.
pub select_topic-none :
    (db : RuntimeDb) (ts : List TopicControlState)
    → list_topics db ≡ ok ts
    → select_topic db ≡ ok none
    → any (λ u. has_runnable_nodes u.topic_id db) ts ≡ false
select_topic-none db ts h k =
    sym (any-sort_by topic_order (has_work db) ts)
    ∙ first_with-none topic_order (has_work db) (sort_by topic_order ts)
        (select_topic-first db ts none h k)
