-- ===== src/Schedule/Engine/Ends.antt =====
-- cli.go: a run with a limit comes to its end.
use openmate.Base.{
  ℕ, zero, suc, ◌+◌, ◌≤◌, Option, none, some, List, [], ◌∷◌, length, Bool, true, false, ◌≡◌, refl,
  subst, sym, arith, Result, ok, err, Bool-cases, inl, inr,
}
use openmate.Base.Int.{pos}
use openmate.Schedule.Runtime.{RuntimeDb, DispatchRecord}
use openmate.Schedule.Engine.{EngineError}
use openmate.Schedule.Engine.Tick.{EngineConfig, TickAnswers, TickResult, tick}
use openmate.Schedule.Engine.Loop.{
  RunFlags, Outcome, run_loop, has_dispatched, ends_after, end_or, after_tick, ahead,
}

-- A tick of a run after which the run goes on, if it stops when it is idle.
abbrev pub GoesOn : Bool → TickResult → Type 0
GoesOn false result = Unit {0}
GoesOn true result =
    (first : DispatchRecord) × (rest : List DispatchRecord) × (result.dispatched ≡ first ∷ rest)

-- All ticks but the last let the run go on.
abbrev pub AllButLast : Bool → List TickResult → Type 0
AllButLast until_idle [] = Unit {0}
AllButLast until_idle (result ∷ []) = Unit {0}
AllButLast until_idle (result ∷ next ∷ rest) =
    GoesOn until_idle result × AllButLast until_idle (next ∷ rest)

-- The run has ended, with an error or with one to `n` results.
abbrev pub HasEnded : Bool → ℕ → Option (Result EngineError (List TickResult)) → Type 0
HasEnded until_idle n none = ⊥
HasEnded until_idle n (some (err e)) = Unit {0}
HasEnded until_idle n (some (ok results)) =
    (1 ≤ length results) × (length results ≤ n) × AllButLast until_idle results

ahead-HasEnded :
    (until_idle : Bool) (n : ℕ) (result : TickResult) (o : Outcome)
    → GoesOn until_idle result
    → HasEnded until_idle n o.0
    → HasEnded until_idle (suc n) (ahead result o).0
ahead-HasEnded until_idle n result (none, db) g h = absurd h
ahead-HasEnded until_idle n result (some (err e), db) g h = tt
ahead-HasEnded until_idle n result (some (ok []), db) g h = absurd (omega (arith, h.0))
ahead-HasEnded until_idle n result (some (ok (r ∷ rs)), db) g h =
    (omega arith, omega (arith, h.1), (g, h.2))

first_dispatched :
    (l : List DispatchRecord)
    → has_dispatched l ≡ true
    → (first : DispatchRecord) × (rest : List DispatchRecord) × (l ≡ first ∷ rest)
first_dispatched [] h = absurd (ground (arith, h))
first_dispatched (first ∷ rest) h = (first, rest, refl)

goes_on :
    (flags : RunFlags) (i : ℕ) (result : TickResult)
    → ends_after flags i result ≡ false
    → GoesOn flags.until_idle result
goes_on flags i result h = elim (Bool-cases flags.until_idle) [
  | inr e ↦ subst (λ b. GoesOn b result) (sym e) tt
  | inl e ↦
      subst (λ b. GoesOn b result) (sym e)
        (first_dispatched result.dispatched (ground (arith, h, e)))
]

after_tick-HasEnded :
    (flags : RunFlags) (i n : ℕ) (rest : RuntimeDb → Outcome)
    (r : Result EngineError TickResult × RuntimeDb)
    → ((db : RuntimeDb) (result : TickResult)
        → ends_after flags i result ≡ false
        → HasEnded flags.until_idle n (rest db).0)
    → HasEnded flags.until_idle (suc n) (after_tick flags i rest r).0
after_tick-HasEnded flags i n rest (err e, db) h = tt
after_tick-HasEnded flags i n rest (ok result, db) h =
    elim (Bool-cases (ends_after flags i result)) [
      | inl e ↦
          subst (λ b. HasEnded flags.until_idle (suc n) (end_or b result rest db).0) (sym e)
            (omega arith, omega arith, tt)
      | inr e ↦
          subst (λ b. HasEnded flags.until_idle (suc n) (end_or b result rest db).0) (sym e)
            (ahead-HasEnded flags.until_idle n result (rest db) (goes_on flags i result e)
              (h db result e))
    ]

run_loop-rest :
    (config : EngineConfig) (flags : RunFlags) (answers : ℕ → TickAnswers) (n i : ℕ)
    (db : RuntimeDb)
    → flags.max_ticks ≡ pos (i + suc n)
    → HasEnded flags.until_idle (suc n) (run_loop config flags answers (suc n) i db).0
unfolding run_loop
run_loop-rest config flags answers zero i db h =
    after_tick-HasEnded flags i 0 (run_loop config flags answers 0 (suc i))
      (tick config (answers i) flags.max_dispatch db)
      (λ db' result e. absurd (ground (arith, h, e)))
run_loop-rest config flags answers (suc n) i db h =
    after_tick-HasEnded flags i (suc n) (run_loop config flags answers (suc n) (suc i))
      (tick config (answers i) flags.max_dispatch db)
      (λ db' result e. run_loop-rest config flags answers n (suc i) db' (ground (arith, h)))

-- A run that may make `n + 1` ticks ends within them, whatever the calls are answered: with an
-- error, or with the results of one to `n + 1` ticks, of which all but the last have dispatched
-- something if the run stops when it is idle.
pub run_loop-HasEnded :
    (config : EngineConfig) (flags : RunFlags) (answers : ℕ → TickAnswers) (n : ℕ) (db : RuntimeDb)
    → flags.max_ticks ≡ pos (suc n)
    → HasEnded flags.until_idle (suc n) (run_loop config flags answers (suc n) 0 db).0
run_loop-HasEnded config flags answers n db h =
    run_loop-rest config flags answers n 0 db (ground (arith, h))
