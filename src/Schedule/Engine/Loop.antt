-- ===== src/Schedule/Engine/Loop.antt =====
-- cli.go: the loop of `openmate-schedule run`. The answers and the clock of each tick are given by
-- its number; no other process writes to the tables between two ticks.
use openmate.Base.{
  ℕ, zero, suc, Option, none, some, List, [], ◌∷◌, Bool, true, false, not, ◌&&◌, ◌||◌, Result, ok,
  err,
}
use openmate.Base.Int.{ℤ, pos, ltb_ℤ}
use openmate.Schedule.Runtime.{DispatchRecord, RuntimeDb}
use openmate.Schedule.Engine.{EngineError}
use openmate.Schedule.Engine.Tick.{EngineConfig, TickAnswers, TickResult, tick}

pub record RunFlags : Type 0 where
  pub max_dispatch : ℤ
  pub max_ticks : ℤ
  pub until_idle : Bool

-- What the loop has come to: `none` while it still runs.
abbrev pub Outcome : Type 0
Outcome = Option (Result EngineError (List TickResult)) × RuntimeDb

abbrev pub has_dispatched : List DispatchRecord → Bool
has_dispatched [] = false
has_dispatched (r ∷ rs) = true

-- The loop ends after the result of tick number `i`.
abbrev pub ends_after : RunFlags → ℕ → TickResult → Bool
ends_after flags i result =
    (flags.until_idle && not (has_dispatched result.dispatched))
    || (ltb_ℤ (pos 0) flags.max_ticks && not (ltb_ℤ (pos (suc i)) flags.max_ticks))

-- `results = append(results, result)`, ahead of what the later ticks append.
abbrev pub ahead : TickResult → Outcome → Outcome
ahead result (some (ok results), db) = (some (ok (result ∷ results)), db)
ahead result (some (err e), db) = (some (err e), db)
ahead result (none, db) = (none, db)

abbrev pub end_or : Bool → TickResult → (RuntimeDb → Outcome) → RuntimeDb → Outcome
end_or true result rest db = (some (ok (result ∷ [])), db)
end_or false result rest db = ahead result (rest db)

-- The body of the loop: an error ends it, and so may the result.
abbrev pub after_tick :
    RunFlags → ℕ → (RuntimeDb → Outcome) → Result EngineError TickResult × RuntimeDb → Outcome
after_tick flags i rest (err e, db) = (some (err e), db)
after_tick flags i rest (ok result, db) = end_or (ends_after flags i result) result rest db

-- `runLoop`, from tick number `i` on, for as many ticks as there is fuel.
unfoldable pub run_loop : EngineConfig → RunFlags → (ℕ → TickAnswers) → ℕ → ℕ → RuntimeDb → Outcome
unfolding tick
run_loop config flags answers zero i db = (none, db)
run_loop config flags answers (suc fuel) i db =
    after_tick flags i (run_loop config flags answers fuel (suc i))
      (tick config (answers i) flags.max_dispatch db)
