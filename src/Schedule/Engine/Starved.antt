-- ===== src/Schedule/Engine/Starved.antt =====
-- cli.go, engine.go: ticks on a topic that waits for its running nodes.
use openmate.Base.{
  ℕ, zero, suc, ◌+◌, ◌<◌, GoString, Option, none, some, List, [], ◌∷◌, All, true, false, ◌≡◌, refl,
  arith, ok,
}
use openmate.Base.Int.{pos, ltb_ℤ}
use openmate.Schedule.Runtime.{TopicControlState, RuntimeDb}
use openmate.Schedule.Runtime.Topics.{list_topics, is_aged, promote_all, promote_aged_topics}
use openmate.Schedule.Engine.{Call}
use openmate.Schedule.Engine.Selection.{select_topic}
use openmate.Schedule.Engine.Tick.{
  EngineConfig, TickAnswers, tick, tick_result, waiting, dispatch_limit, age_topics,
}
use openmate.Schedule.Engine.Loop.{RunFlags, run_loop, ends_after}
use openmate.Schedule.Engine.Failure.{tick-waits}

-- The topic was never served, or less than the threshold ago.
abbrev pub Rests : ℕ → ℕ → Option ℕ → Type 0
Rests threshold now none = Unit {0}
Rests threshold now (some time) = now < time + threshold

Rests-is_aged :
    (threshold now : ℕ) (time : Option ℕ)
    → Rests threshold now time
    → is_aged threshold now time ≡ false
unfolding is_aged
Rests-is_aged threshold now none h = refl
Rests-is_aged threshold now (some time) h = ground arith

promote_all-none :
    (threshold now : ℕ) (ts : List TopicControlState) (db : RuntimeDb)
    → All (λ t. Rests threshold now t.last_served_at) ts
    → promote_all threshold now ts db ≡ (ok tt, db)
unfolding promote_all
promote_all-none threshold now [] db h = refl
promote_all-none threshold now (t ∷ ts) db h =
    rw (Rests-is_aged threshold now t.last_served_at h.0, promote_all)
      (promote_all-none threshold now ts db h.1)

age_topics-none :
    (threshold : ℕ) (call : Call) (ts : List TopicControlState) (db : RuntimeDb)
    → call.fault ≡ none
    → list_topics db ≡ ok ts
    → All (λ t. Rests threshold call.now t.last_served_at) ts
    → age_topics threshold call db ≡ (ok tt, db)
unfolding age_topics promote_aged_topics
age_topics-none threshold call ts db served listed rests =
    let kept = promote_all-none threshold call.now ts db rests in
    rw (served, listed, kept) (ground arith)

-- The same result, so many times.
abbrev pub replicate : {A : Type 0} → ℕ → A → List A
replicate zero a = []
replicate (suc n) a = a ∷ replicate n a

-- What the ticks of a run are answered: the database serves the promotion and the choice of a
-- topic, and no topic has waited for the threshold.
pub record IsIdle (config : EngineConfig) (ts : List TopicControlState) (a : TickAnswers)
    : Type 0 where
  pub age : a.age.fault ≡ none
  pub select : a.select.fault ≡ none
  pub rests : All (λ t. Rests config.aging_threshold a.age.now t.last_served_at) ts

module _ (config : EngineConfig) (flags : RunFlags) (answers : ℕ → TickAnswers) (db : RuntimeDb)
    (ts : List TopicControlState) (t : TopicControlState) (id : GoString) (ids : List GoString)
    (limit : ltb_ℤ (pos 0) (dispatch_limit config flags.max_dispatch) ≡ true)
    (endless : flags.until_idle ≡ false) (listed : list_topics db ≡ ok ts)
    (chosen : select_topic db ≡ ok (some t)) (dirty : t.priority_dirty ≡ true)
    (busy : t.running_node_ids ≡ id ∷ ids) where
  tick-again :
      (i : ℕ)
      → IsIdle config ts (answers i)
      → tick config (answers i) flags.max_dispatch db ≡ (ok (tick_result t [] (waiting ∷ [])), db)
  tick-again i idle =
      tick-waits config (answers i) flags.max_dispatch db db t id ids limit
        (age_topics-none config.aging_threshold (answers i).age ts db idle.age listed idle.rests)
        idle.select chosen dirty busy

  run_loop-rest :
      (n i : ℕ)
      → flags.max_ticks ≡ pos (i + suc n)
      → ((j : ℕ) → j < i + suc n → IsIdle config ts (answers j))
      → run_loop config flags answers (suc n) i db
        ≡ (some (ok (replicate (suc n) (tick_result t [] (waiting ∷ [])))), db)
  unfolding run_loop
  run_loop-rest zero i h idle =
      let run = tick-again i (idle i (omega arith)) in
      let last : ends_after flags i (tick_result t [] (waiting ∷ [])) ≡ true =
        ground (arith, h, endless) in
      rw (run, last) refl
  run_loop-rest (suc n) i h idle =
      let run = tick-again i (idle i (omega arith)) in
      let more : ends_after flags i (tick_result t [] (waiting ∷ [])) ≡ false =
        ground (arith, h, endless) in
      let next : flags.max_ticks ≡ pos (suc i + suc n) = ground (arith, h) in
      rw (run, more, run_loop-rest n (suc i) next (λ j less. idle j (omega arith))) refl

-- If the limit of a tick is positive, a run does not stop when it is idle but after `n + 1`
-- ticks, the topic that is selected at its start has dirty priorities and lists a running node,
-- and at each of its ticks the database serves the promotion and the choice and no topic has
-- waited for the threshold, then every tick of the run selects that same topic, dispatches
-- nothing and reports that it waits, and the run ends with the tables as they were.
pub run_loop-starves :
    (config : EngineConfig) (flags : RunFlags) (answers : ℕ → TickAnswers) (db : RuntimeDb)
    (ts : List TopicControlState) (t : TopicControlState) (id : GoString) (ids : List GoString)
    (n : ℕ)
    → ltb_ℤ (pos 0) (dispatch_limit config flags.max_dispatch) ≡ true
    → flags.until_idle ≡ false
    → flags.max_ticks ≡ pos (suc n)
    → list_topics db ≡ ok ts
    → select_topic db ≡ ok (some t)
    → t.priority_dirty ≡ true
    → t.running_node_ids ≡ id ∷ ids
    → ((j : ℕ) → j < suc n → IsIdle config ts (answers j))
    → run_loop config flags answers (suc n) 0 db
      ≡ (some (ok (replicate (suc n) (tick_result t [] (waiting ∷ [])))), db)
run_loop-starves config flags answers db ts t id ids n limit endless ticks listed chosen dirty busy
      idle =
    run_loop-rest config flags answers db ts t id ids limit endless listed chosen dirty busy n 0
      (ground (arith, ticks)) (λ j less. idle j (omega arith))
