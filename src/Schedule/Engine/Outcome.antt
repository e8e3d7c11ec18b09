-- ===== src/Schedule/Engine/Outcome.antt =====
-- engine.go: what a dispatch and a tick that succeed have done, and what one that fails leaves.
use openmate.Base.{
  ℕ, suc, GoString, Option, none, some, List, [], ◌∷◌, length, Bool, true, false, ◌≡◌, refl, sym,
  arith, Result, ok, err, subst, ap, ◌∙◌, ◌≤◌,
}
use openmate.Base.Int.{ℤ, pos, negsuc, pos_part}
use openmate.Schedule.Types.{ValidationError, DispatchPlan, TopicSnapshot}
use openmate.Schedule.Planner.{plan_topic_dispatch}
use openmate.Schedule.Planner.Filling.{plan_dispatch-le}
use openmate.Schedule.Runtime.{TopicControlState, DispatchRecord, RuntimeDb}
use openmate.Schedule.Runtime.Work.{build_topic_snapshot}
use openmate.Schedule.Engine.{EngineError, Step, ◌>>=◌, continue, return, query}
use openmate.Schedule.Engine.Dispatch.{DispatchAnswers, dispatch_one}
use openmate.Schedule.Engine.Tick.{
  EngineConfig, TickAnswers, TickResult, tick, serve_chosen, serve_topic, serve_when,
  prepare_priority, dispatch_topic, dispatch_plan, dispatch_all, tick_result, waiting,
  dispatch_limit, planned, idle_tick, finish_tick,
}

-- A step that succeeds, and where it gets to.
abbrev pub Gives : {A : Type 0} → Step A → RuntimeDb → A → RuntimeDb → Type 0
Gives step db a db' = step db ≡ (ok a, db')

continue-ok :
    {A B : Type 0} (next : A → Step B) (r : Result EngineError A × RuntimeDb) (b : B)
    (db' : RuntimeDb)
    → continue next r ≡ (ok b, db')
    → (a : A) × (db : RuntimeDb) × (r ≡ (ok a, db)) × Gives (next a) db b db'
continue-ok next (ok a, db) b db' h = (a, db, refl, h)
continue-ok next (err e, db) b db' h = absurd (ground (arith, h))

bind-ok :
    {A B : Type 0} (first : Step A) (next : A → Step B) (db db' : RuntimeDb) (b : B)
    → Gives (first >>= next) db b db'
    → (a : A) × (mid : RuntimeDb) × Gives first db a mid × Gives (next a) mid b db'
unfolding ◌>>=◌
bind-ok first next db db' b h = continue-ok next (first db) b db' h

return-ok : {A : Type 0} (a b : A) (db db' : RuntimeDb) → Gives (return a) db b db' → a ≡ b
return-ok a b db db' h = ground (arith, h)

dispatch_all-length :
    (answers : ℕ → DispatchAnswers) (timeout : ℤ) (topic : GoString) (i : ℕ) (nodes : List GoString)
    (db db' : RuntimeDb) (records : List DispatchRecord)
    → Gives (dispatch_all answers timeout topic i nodes) db records db'
    → length records ≡ length nodes
unfolding dispatch_all
dispatch_all-length answers timeout topic i [] db db' records h =
    ap length (sym (return-ok [] records db db' h))
dispatch_all-length answers timeout topic i (node ∷ nodes) db db' records h =
    let (r, db1, e, h1) =
      bind-ok (dispatch_one (answers i) timeout topic node) _ db db' records h in
    let (rs, db2, e2, h2) =
      bind-ok (dispatch_all answers timeout topic (suc i) nodes) _ db1 db' records h1 in
    let last = return-ok (r ∷ rs) records db2 db' h2 in
    let rest = dispatch_all-length answers timeout topic (suc i) nodes db1 db2 rs e2 in
    ap length (sym last) ∙ ap suc rest

dispatch_plan-length :
    (config : EngineConfig) (a : TickAnswers) (t : TopicControlState)
    (reasons nodes : List GoString) (db db' : RuntimeDb) (result : TickResult)
    → Gives (dispatch_plan config a t reasons nodes) db result db'
    → length result.dispatched ≡ length nodes
unfolding dispatch_plan
dispatch_plan-length config a t reasons [] db db' result h =
    ap (λ r. length r.dispatched) (sym (return-ok (tick_result t [] reasons) result db db' h))
dispatch_plan-length config a t reasons (node ∷ nodes) db db' result h =
    let all = dispatch_all a.dispatch config.default_timeout_ms t.topic_id 0 (node ∷ nodes) in
    let (records, db1, e, h1) = bind-ok all _ db db' result h in
    let (u, db2, e2, h2) = bind-ok (finish_tick a t.topic_id) _ db1 db' result h1 in
    ap (λ r. length r.dispatched)
      (sym (return-ok (tick_result t records reasons) result db2 db' h2))
    ∙ dispatch_all-length a.dispatch config.default_timeout_ms t.topic_id 0 (node ∷ nodes) db db1
        records e

-- No more than the limit are dispatched.
AtMost : ℤ → TickResult → Type 0
AtMost limit result = length result.dispatched ≤ pos_part limit

planned-ok :
    (r : Result ValidationError DispatchPlan) (plan : DispatchPlan) (db db' : RuntimeDb)
    → Gives (planned r) db plan db'
    → r ≡ ok plan
planned-ok (ok q) plan db db' h = ap ok (ground (arith, h))
planned-ok (err e) plan db db' h = absurd (ground (arith, h))

planned-le :
    (limit : ℤ) (s : TopicSnapshot) (plan : DispatchPlan) (db db' : RuntimeDb)
    → Gives (planned (plan_topic_dispatch s limit)) db plan db'
    → length plan.dispatch_node_ids ≤ pos_part limit
unfolding plan_topic_dispatch
planned-le (negsuc n) s plan db db' h = absurd (ground (arith, h))
planned-le (pos slots) s plan db db' h =
    plan_dispatch-le s slots plan (planned-ok (plan_topic_dispatch s (pos slots)) plan db db' h)

dispatch_topic-AtMost :
    (config : EngineConfig) (a : TickAnswers) (limit : ℤ) (t : TopicControlState)
    (db db' : RuntimeDb) (result : TickResult)
    → Gives (dispatch_topic config a limit t) db result db'
    → AtMost limit result
unfolding dispatch_topic AtMost
dispatch_topic-AtMost config a limit t db db' result h =
    let (s, db1, e, h1) =
      bind-ok (query a.snapshot (build_topic_snapshot t.topic_id a.snapshot.now)) _ db db' result
        h in
    let (plan, db2, e2, h2) = bind-ok (planned (plan_topic_dispatch s limit)) _ db1 db' result h1 in
    let same =
      dispatch_plan-length config a t plan.reasons plan.dispatch_node_ids db2 db' result h2 in
    rw same (planned-le limit s plan db1 db2 e2)

serve_when-AtMost :
    (config : EngineConfig) (a : TickAnswers) (limit : ℤ) (t : TopicControlState) (dirty : Bool)
    (run : List GoString) (db db' : RuntimeDb) (result : TickResult)
    → Gives (serve_when config a limit t dirty run) db result db'
    → AtMost limit result
unfolding serve_when AtMost
serve_when-AtMost config a limit t false run db db' result h =
    dispatch_topic-AtMost config a limit t db db' result h
serve_when-AtMost config a limit t true (id ∷ ids) db db' result h =
    subst (AtMost limit) (return-ok (tick_result t [] (waiting ∷ [])) result db db' h) (omega arith)
serve_when-AtMost config a limit t true [] db db' result h =
    let (u, db1, e, h1) = bind-ok (prepare_priority a t.topic_id) _ db db' result h in
    dispatch_topic-AtMost config a limit t db1 db' result h1

serve_chosen-AtMost :
    (config : EngineConfig) (a : TickAnswers) (limit : ℤ) (chosen : Option TopicControlState)
    (db db' : RuntimeDb) (result : TickResult)
    → Gives (serve_chosen config a limit chosen) db result db'
    → AtMost limit result
unfolding serve_chosen serve_topic AtMost
serve_chosen-AtMost config a limit none db db' result h =
    subst (AtMost limit) (return-ok idle_tick result db db' h) (omega arith)
serve_chosen-AtMost config a limit (some t) db db' result h =
    serve_when-AtMost config a limit t t.priority_dirty t.running_node_ids db db' result h

-- A tick that succeeds has dispatched no more nodes than its limit.
pub length-tick-dispatched :
    (config : EngineConfig) (a : TickAnswers) (max : ℤ) (db db' : RuntimeDb) (result : TickResult)
    → tick config a max db ≡ (ok result, db')
    → length result.dispatched ≤ pos_part (dispatch_limit config max)
unfolding tick AtMost
length-tick-dispatched config a max db db' result h =
    let (chosen, db1, e, h1) =
      bind-ok _ (λ chosen. serve_chosen config a (dispatch_limit config max) chosen) db db' result
        h in
    serve_chosen-AtMost config a (dispatch_limit config max) chosen db1 db' result h1
