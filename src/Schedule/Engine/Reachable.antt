-- ===== src/Schedule/Engine/Reachable.antt =====
-- engine.go: the tables that any sequence of requests and ticks leads to.
use openmate.Base.{ℕ, GoString, [], true, false, ◌≡◌, arith, Bool-cases, ok, err, inl, inr}
use openmate.Base.Int.{ℤ, pos}
use openmate.Schedule.Types.{has, Checked, TopicSnapshot, DispatchPlan}
use openmate.Schedule.Planner.{plan_topic_dispatch}
use openmate.Schedule.Planner.Dispatch.{plan-dispatch-Eligible}
use openmate.Schedule.Runtime.{EnqueueRequest, RuntimeDb}
use openmate.Schedule.Runtime.Nodes.{upsert_enqueue_node}
use openmate.Schedule.Runtime.Work.{running_ids, build_topic_snapshot}
use openmate.Schedule.Runtime.Running.{IsConsistent}
use openmate.Schedule.Runtime.Snapshot.{
  covered-has, find_topic-Entry, get_topic-running, snapshot-running,
}
use openmate.Schedule.Runtime.Kept.Requests.{upsert_enqueue_node-IsConsistent}
use openmate.Schedule.Engine.{Call, checked_step}
use openmate.Schedule.Engine.Enqueue.{enqueue, normalize_business_enqueue_request}
use openmate.Schedule.Engine.Tick.{EngineConfig, TickAnswers, tick}
use openmate.Schedule.Engine.Invariant.{
  Keeps, bind-Keeps, query-Keeps, return-Keeps, lift-IsConsistent,
}
use openmate.Schedule.Engine.Invariant.Ticks.{check-Keeps, tick-IsConsistent}

checked_step-Keeps : (r : Checked) → Keeps (checked_step r)
checked_step-Keeps (ok u) = record { keeps = λ db c. c }
checked_step-Keeps (err e) = record { keeps = λ db c. c }

normalize-Keeps : (request : EnqueueRequest) → Keeps (normalize_business_enqueue_request request)
unfolding normalize_business_enqueue_request
normalize-Keeps request = bind-Keeps _ _ (check-Keeps _ _) (λ a.
    bind-Keeps _ _ (check-Keeps _ _) (λ b.
      bind-Keeps _ _ (checked_step-Keeps _)
        (λ c. bind-Keeps _ _ (check-Keeps _ _) (λ d. return-Keeps _))))

enqueue-Keeps :
    (ensure upsert load : Call) (request : EnqueueRequest)
    → Keeps (enqueue ensure upsert load request)
unfolding enqueue
enqueue-Keeps ensure upsert load raw = bind-Keeps _ _ (normalize-Keeps raw) (λ request.
    bind-Keeps _ _
      (record {
        keeps = λ db c.
            lift-IsConsistent
              (upsert_enqueue_node ensure.fault upsert.fault request ensure.now upsert.now db)
              (upsert_enqueue_node-IsConsistent ensure.fault upsert.fault request ensure.now
                upsert.now db c);
      })
      (λ created. bind-Keeps _ _ (query-Keeps load _) (λ t. return-Keeps _)))

-- The calls of the engine, one after the other, from the empty tables.
pub data Reachable : RuntimeDb → Type 0 where
  created : Reachable (record { topics = []; nodes = []; history = [] })
  enqueued :
      (ensure upsert load : Call) (request : EnqueueRequest) (db : RuntimeDb)
      → Reachable db
      → Reachable (enqueue ensure upsert load request db).1
  ticked :
      (config : EngineConfig) (a : TickAnswers) (max : ℤ) (db : RuntimeDb)
      → Reachable db
      → Reachable (tick config a max db).1

-- In every state that a sequence of requests and ticks reaches from the empty tables, whatever
-- faults, gateway errors and worker answers they meet, every running node is listed by its
-- topic, every id that a topic lists is a node of it, and the topic of every node is there.
pub Reachable-IsConsistent : (db : RuntimeDb) → Reachable db → IsConsistent db
Reachable-IsConsistent _ created = (tt, tt)
Reachable-IsConsistent _ (enqueued ensure upsert load request db r) =
    (enqueue-Keeps ensure upsert load request).keeps db (Reachable-IsConsistent db r)
Reachable-IsConsistent _ (ticked config a max db r) =
    tick-IsConsistent config a max db (Reachable-IsConsistent db r)

-- In every state that the engine reaches, if the snapshot of a topic can be built and planned,
-- the plan dispatches no node that is running.
pub dispatched-not_running :
    (db : RuntimeDb) (topic : GoString) (now slots : ℕ) (s : TopicSnapshot) (plan : DispatchPlan)
    (id : GoString)
    → Reachable db
    → build_topic_snapshot topic now db ≡ ok s
    → plan_topic_dispatch s (pos slots) ≡ ok plan
    → has id plan.dispatch_node_ids ≡ true
    → has id (running_ids topic db.nodes) ≡ false
dispatched-not_running db topic now slots s plan id r h k m =
    let (t, e, same) = snapshot-running topic now db s h in
    let (row, found, also) = get_topic-running topic db t e in
    let (n, e', eligible, idle) = plan-dispatch-Eligible s slots plan id k m in
    let covers =
      find_topic-Entry topic db.nodes db.topics row (Reachable-IsConsistent db r).0 found in
    let listed = covered-has topic id row.running_node_ids db.nodes covers in
    elim (Bool-cases (has id (running_ids topic db.nodes))) [
      | inr f ↦ f
      | inl b ↦ absurd (ground (arith, listed b, idle, same, also))
    ]
