-- ===== src/Schedule/Snapshots.antt =====
-- What `TopicSnapshot.Validate` of internal/schedule/types.go establishes for the planner.
mod Tests
use openmate.Base.{
  ℕ, suc, GoString, ◌=?◌, is_empty, Option, none, some, List, [], ◌∷◌, Bool, true, false, not,
  if◌then◌else◌, ◌||◌, any, count, All, Result, ok, err, ◌>>=◌, ◌>>◌, guard, ◌≡◌, refl, ◌+◌, ◌≤◌,
  arith, Bool-cases, Option-cases, Result-cases, inl, inr, subst, ap,
}
use openmate.Base.Int.{ℤ}
use openmate.Schedule.Types.{
  TopicNode, TopicSnapshot, ValidationError, validate_node, rank_label, validate_nodes, has,
  validate_running, validate_runtime, validate_known_reference, validate_known_running,
  validate_snapshot, validate_level, unknown_current, unknown_last_worked,
}
use openmate.Schedule.Planner.{candidate_node_ids}
use openmate.Schedule.Planner.Filling.{Unique}

-- What the loop over the nodes returns: the ids seen, none of which was there before.
record Collected (nodes : List TopicNode) (known known' : List GoString) : Type 0 where
  pub distinct :
      (id : GoString)
      → count (λ k. k =? id) (candidate_node_ids nodes) + (if has id known then 1 else 0) ≤ 1
  pub known_ids :
      (id : GoString) → has id known' ≡ has id known || has id (candidate_node_ids nodes)

Collected-cons :
    (node : TopicNode) (nodes : List TopicNode) (known known' : List GoString)
    → has node.node_id known ≡ false
    → Collected nodes (node.node_id ∷ known) known'
    → Collected (node ∷ nodes) known known'
unfolding candidate_node_ids
Collected-cons node nodes known known' new c = record {
  distinct = λ id. ground (arith, c.distinct id, new);
  known_ids = λ id. ground (arith, c.known_ids id);
}

validate_nodes-Collected :
    (nodes : List TopicNode) (known known' : List GoString) (ranks : List (ℤ × GoString))
    → validate_nodes nodes known ranks ≡ ok known'
    → Collected nodes known known'
unfolding validate_nodes candidate_node_ids
validate_nodes-Collected [] known known' ranks h =
    let same : known ≡ known' = cc in
    record { distinct = λ id. ground arith; known_ids = λ id. ground (arith, ap (has id) same) }
validate_nodes-Collected (node ∷ nodes) known known' ranks h =
    elim (Result-cases (validate_node node)) [
      | inl (x, e₁) ↦ absurd (ground (arith, e₁, h))
      | inr (u, e₁) ↦ elim (Bool-cases (has node.node_id known)) [
        | inl e₂ ↦ absurd (ground (arith, e₁, e₂, h))
        | inr e₂ ↦ elim (Option-cases (rank_label node.priority.rank ranks)) [
          | inl e₃ ↦ Collected-cons node nodes known known' e₂ (
              validate_nodes-Collected nodes (node.node_id ∷ known) known'
                ((node.priority.rank, node.priority.label) ∷ ranks) (ground (arith, e₁, e₂, e₃, h)))
          | inr (label, e₃) ↦ elim (Bool-cases (label =? node.priority.label)) [
            | inl e₄ ↦ Collected-cons node nodes known known' e₂ (
                validate_nodes-Collected nodes (node.node_id ∷ known) known' ranks
                  (ground (arith, e₁, e₂, e₃, e₄, h)))
            | inr e₄ ↦ absurd (ground (arith, e₁, e₂, e₃, e₄, h))
          ]
        ]
      ]
    ]

validate_running-distinct :
    (ids seen : List GoString) (u : Unit {0})
    → validate_running ids seen ≡ ok u
    → (id : GoString) → count (λ k. k =? id) ids + (if has id seen then 1 else 0) ≤ 1
unfolding validate_running
validate_running-distinct [] seen u h id = ground arith
validate_running-distinct (k ∷ ids) seen u h id = elim (Bool-cases (is_empty k)) [
  | inl e₁ ↦ absurd (ground (arith, e₁, h))
  | inr e₁ ↦ elim (Bool-cases (has k seen)) [
    | inl e₂ ↦ absurd (ground (arith, e₁, e₂, h))
    | inr e₂ ↦
        ground
          (arith, e₂, validate_running-distinct ids (k ∷ seen) u (ground (arith, e₁, e₂, h)) id)
  ]
]

validate_known_running-All :
    (ids known : List GoString) (u : Unit {0})
    → validate_known_running ids known ≡ ok u
    → All (λ id. has id known ≡ true) ids
unfolding validate_known_running
validate_known_running-All [] known u h = tt
validate_known_running-All (id ∷ ids) known u h = elim (Bool-cases (has id known)) [
  | inl e ↦ (e, validate_known_running-All ids known u (ground (arith, e, h)))
  | inr e ↦ absurd (ground (arith, e, h))
]

-- A reference to a node, where there is one, is to a node of the list.
abbrev pub refers : Option GoString → List GoString → Bool
refers none ids = true
refers (some id) ids = has id ids

validate_known_reference-refers :
    (unknown : GoString → ValidationError) (reference : Option GoString) (known : List GoString)
    (u : Unit {0})
    → validate_known_reference unknown reference known ≡ ok u
    → refers reference known ≡ true
unfolding validate_known_reference
validate_known_reference-refers unknown none known u h = refl
validate_known_reference-refers unknown (some id) known u h = ground (arith, h)

-- The checks of a snapshot, one by one.
record Checks (s : TopicSnapshot) : Type 0 where
  pub known : List GoString
  pub running : validate_running s.runtime.running_node_ids [] ≡ ok tt
  pub nodes : validate_nodes s.nodes [] [] ≡ ok known
  pub current : validate_known_reference unknown_current s.runtime.current_node_id known ≡ ok tt
  pub last_worked :
      validate_known_reference unknown_last_worked s.runtime.last_worked_node_id known ≡ ok tt
  pub known_running : validate_known_running s.runtime.running_node_ids known ≡ ok tt

validate_runtime-running :
    (s : TopicSnapshot) (u : Unit {0})
    → validate_runtime s.runtime ≡ ok u
    → validate_running s.runtime.running_node_ids [] ≡ ok tt
unfolding validate_runtime
validate_runtime-running s u h = ground (arith, h)

validate_snapshot-Checks : (s : TopicSnapshot) → validate_snapshot s ≡ ok tt → Checks s
unfolding validate_snapshot
validate_snapshot-Checks s h = elim (Bool-cases (is_empty s.topic_id)) [
  | inl e₁ ↦ absurd (ground (arith, e₁, h))
  | inr e₁ ↦ elim (Result-cases (validate_level s.queue_level)) [
    | inl (x, e₂) ↦ absurd (ground (arith, e₁, e₂, h))
    | inr (u₂, e₂) ↦ elim (Result-cases (validate_runtime s.runtime)) [
      | inl (x, e₃) ↦ absurd (ground (arith, e₁, e₂, e₃, h))
      | inr (u₃, e₃) ↦ elim (Bool-cases (s.runtime.topic_id =? s.topic_id)) [
        | inr e₄ ↦ absurd (ground (arith, e₁, e₂, e₃, e₄, h))
        | inl e₄ ↦ elim (Result-cases (validate_nodes s.nodes [] [])) [
          | inl (x, e₅) ↦ absurd (ground (arith, e₁, e₂, e₃, e₄, e₅, h))
          | inr (known, e₅) ↦
              elim (Result-cases
                (validate_known_reference unknown_current s.runtime.current_node_id known)) [
                  | inl (x, e₆) ↦ absurd (ground (arith, e₁, e₂, e₃, e₄, e₅, e₆, h))
                  | inr (u₆, e₆) ↦
                      elim (Result-cases (
                        validate_known_reference unknown_last_worked s.runtime.last_worked_node_id
                          known)) [
                            | inl (x, e₇) ↦ absurd (ground (arith, e₁, e₂, e₃, e₄, e₅, e₆, e₇, h))
                            | inr (u₇, e₇) ↦ record {
                              known = known;
                              running = validate_runtime-running s u₃ e₃;
                              nodes = e₅;
                              current = e₆;
                              last_worked = e₇;
                              known_running = ground (arith, e₁, e₂, e₃, e₄, e₅, e₆, e₇, h);
                            }
                          ]
                ]
        ]
      ]
    ]
  ]
]

-- A snapshot that is valid has distinct node ids and distinct running ids; every running id, the
-- current node and the last worked node are nodes of the topic.
pub validate_snapshot-refers :
    (s : TopicSnapshot)
    → validate_snapshot s ≡ ok tt
    → Unique (candidate_node_ids s.nodes)
      × Unique s.runtime.running_node_ids
      × All (λ id. has id (candidate_node_ids s.nodes) ≡ true) s.runtime.running_node_ids
      × (refers s.runtime.current_node_id (candidate_node_ids s.nodes) ≡ true)
      × (refers s.runtime.last_worked_node_id (candidate_node_ids s.nodes) ≡ true)
validate_snapshot-refers s h =
    let v = validate_snapshot-Checks s h in
    let c = validate_nodes-Collected s.nodes [] v.known [] v.nodes in
    (
      (λ id. ground (arith, c.distinct id)),
      (λ id.
          ground (arith, validate_running-distinct s.runtime.running_node_ids [] tt v.running id)),
      All-known v.known (candidate_node_ids s.nodes) s.runtime.running_node_ids c.known_ids
          (validate_known_running-All s.runtime.running_node_ids v.known tt v.known_running),
      refers-known v.known (candidate_node_ids s.nodes) s.runtime.current_node_id c.known_ids (
          validate_known_reference-refers unknown_current s.runtime.current_node_id v.known tt
            v.current),
      refers-known v.known (candidate_node_ids s.nodes) s.runtime.last_worked_node_id c.known_ids (
          validate_known_reference-refers unknown_last_worked s.runtime.last_worked_node_id v.known
            tt v.last_worked),
    )
  where
    All-known :
        (known nodes ids : List GoString)
        → ((id : GoString) → has id known ≡ has id nodes)
        → All (λ id. has id known ≡ true) ids
        → All (λ id. has id nodes ≡ true) ids
    All-known known nodes [] e a = tt
    All-known known nodes (id ∷ ids) e a =
        (ground (arith, e id, a.0), All-known known nodes ids e a.1)

    refers-known :
        (known nodes : List GoString) (reference : Option GoString)
        → ((id : GoString) → has id known ≡ has id nodes)
        → refers reference known ≡ true
        → refers reference nodes ≡ true
    refers-known known nodes none e h' = refl
    refers-known known nodes (some id) e h' = ground (arith, e id, h')
