-- ===== src/Schedule/Runtime/Snapshot.antt =====
-- runtime_store.go: what the snapshot of a topic says about the nodes that run.
use openmate.Base.{
  ℕ, GoString, ◌=?◌, some, List, [], ◌∷◌, true, ◌≡◌, sym, All, arith, Bool-cases, ok, err, or_fail,
  inl, inr, subst, Result-cases, Option-cases, ap, ◌>>=◌,
}
use openmate.Schedule.Types.{
  has, Checked, normalize_runtime, validate_level, TopicSnapshot, normalize_snapshot,
  validate_snapshot,
}
use openmate.Schedule.Runtime.{NodeQueueState, TopicControlState, RuntimeDb, not_found, find_topic}
use openmate.Schedule.Runtime.Topics.{get_topic, checked, scan_topic}
use openmate.Schedule.Runtime.Work.{running_ids, list_nodes, to_snapshot, build_topic_snapshot}
use openmate.Schedule.Runtime.Running.{Entry, covered}

pub covered-has :
    (topic id : GoString) (ids : List GoString) (rows : List NodeQueueState)
    → All (λ row. covered topic ids row ≡ true) rows
    → has id (running_ids topic rows) ≡ true
    → has id ids ≡ true
unfolding running_ids
covered-has topic id ids [] a h = ground (arith, h)
covered-has topic id ids (row ∷ rows) a h =
    ground (arith, h, a.0, covered-has topic id ids rows a.1)

pub find_topic-Entry :
    (topic : GoString) (nodes : List NodeQueueState) (rows : List TopicControlState)
    (t : TopicControlState)
    → All (Entry nodes) rows
    → find_topic topic rows ≡ some t
    → All (λ row. covered topic t.running_node_ids row ≡ true) nodes
unfolding find_topic
find_topic-Entry topic nodes [] t a e = absurd (ground (arith, e))
find_topic-Entry topic nodes (row ∷ rows) t a e = elim (Bool-cases (row.topic_id =? topic)) [
  | inl k ↦
      let e' : row ≡ t = ground (arith, e, k) in
      let i : row.topic_id ≡ topic = ground (arith, k) in
      subst (λ u. All (λ r. covered topic u.running_node_ids r ≡ true) nodes) e'
        (subst (λ id. All (λ r. covered id row.running_node_ids r ≡ true) nodes) i a.0.0)
  | inr k ↦ find_topic-Entry topic nodes rows t a.1 (ground (arith, e, k))
]

checked-ok : {A : Type 0} (r : Checked) (a b : A) → checked r a ≡ ok b → a ≡ b
checked-ok (ok u) a b h = ground (arith, h)
checked-ok (err e) a b h = absurd (ground (arith, h))

pub get_topic-running :
    (topic : GoString) (db : RuntimeDb) (t : TopicControlState)
    → get_topic topic db ≡ ok t
    → (row : TopicControlState) × (find_topic topic db.topics ≡ some row)
      × (t.running_node_ids ≡ row.running_node_ids)
unfolding get_topic scan_topic
get_topic-running topic db t h = elim (Option-cases (find_topic topic db.topics)) [
  | inl e ↦ absurd (ground (arith, h, e))
  | inr (row, e) ↦
      let h' : scan_topic row ≡ ok t =
        subst (λ o. (or_fail o not_found >>= scan_topic) ≡ ok t) e h in
      (
        row,
        e,
        sym (ap (λ u. u.running_node_ids) (checked-ok (validate_level row.queue_level) _ t h')),
      )
]

pub snapshot-running :
    (topic : GoString) (now : ℕ) (db : RuntimeDb) (s : TopicSnapshot)
    → build_topic_snapshot topic now db ≡ ok s
    → (t : TopicControlState) × (get_topic topic db ≡ ok t)
      × (s.runtime.running_node_ids ≡ t.running_node_ids)
unfolding build_topic_snapshot normalize_snapshot normalize_runtime
snapshot-running topic now db s h = elim (Result-cases (get_topic topic db)) [
  | inl (f, e) ↦ absurd (
      ground (
        arith,
        subst
            (λ r.
              (r >>= λ u.
              let s0 = normalize_snapshot now (to_snapshot u (list_nodes topic db)) in
              checked (validate_snapshot s0) s0)
              ≡ ok s)
            e h,
      ))
  | inr (t, e) ↦
      let s0 = normalize_snapshot now (to_snapshot t (list_nodes topic db)) in
      let h' : checked (validate_snapshot s0) s0 ≡ ok s =
        subst
          (λ r.
            (r >>= λ u.
            let s0 = normalize_snapshot now (to_snapshot u (list_nodes topic db)) in
            checked (validate_snapshot s0) s0)
            ≡ ok s)
          e h in
      (t, e, sym (ap (λ u. u.runtime.running_node_ids) (checked-ok (validate_snapshot s0) s0 s h')))
]
