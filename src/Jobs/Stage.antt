-- ===== src/Jobs/Stage.antt =====
-- apps/api/src/jobs/gc-stage.ts and gc-budget.ts, with the one row of
-- apps/api/src/persistence/gc-cursor.repository.ts that a stage has. What a page does is an argument
-- (`step`), and so are the parser of a stored cursor and the serialisation, which are those of JSON. The
-- log of warnings is left out.
use storix.Base.{
  ℕ, zero, suc, ◌+◌, max, String, Bool, true, false, Option, none, some, leb, if◌then◌else◌,
}

-- `used` of a budget after `consume`.
unfoldable pub consume : (units used : ℕ) → ℕ
consume units used = used + max 1 units

unfoldable pub is_exhausted : (limit used : ℕ) → Bool
is_exhausted limit used = leb limit used

-- The repository of cursors, if there is one, with the position that the stage has stored.
abbrev pub Cursors : Type 0
Cursors = Option (Option String)

unfoldable pub write : String → Cursors → Cursors
write position none = none
write position (some _) = some (some position)

unfoldable pub clear : Cursors → Cursors
clear none = none
clear (some _) = some none

-- `W` is what the pages change and `C` a position. A page gives the next position, `none` at the end, and
-- the number of rows it read.
pub record Stage (C W : Type 0) : Type 0 where
  pub parse : String → Option C
  pub print : C → String
  pub step : Option C → W → Option C × ℕ × W

-- How a stage came to its end: what it leaves, and whether the budget was exhausted first.
pub record Outcome (W : Type 0) : Type 0 where
  pub world : W
  pub cursors : Cursors
  pub exhausted : Bool

-- After an execution: another one, where the budget was exhausted before the end of the stage.
abbrev pub next_execution :
    {W : Type 0} → (Cursors → W → Option (Outcome W)) → Option (Outcome W) → Option (Outcome W)
next_execution again none = none
next_execution again (some out) = if out.exhausted then again out.cursors out.world else some out

module _ {C W : Type 0} (stage : Stage C W) where
  unfoldable pub read_cursor : Cursors → Option C
  read_cursor none = none
  read_cursor (some none) = none
  read_cursor (some (some stored)) = stage.parse stored

  -- The loop of `runCursorStage`. It has fuel; where that runs out there is no outcome.
  unfoldable pub stage_loop : (fuel limit used : ℕ) → Option C → Cursors → W → Option (Outcome W)
  unfolding consume is_exhausted write clear
  stage_loop zero limit used cursor cursors w = none
  stage_loop (suc fuel) limit used cursor cursors w =
      let (next, examined, w') = stage.step cursor w in
      let used' = consume examined used in
      elim next [
        | none ↦ some (record { world = w'; cursors = clear cursors; exhausted = false })
        | some c ↦
            let rest = stage_loop fuel limit used' (some c) cursors w' in
            if is_exhausted limit used'
            then some
                (record { world = w'; cursors = write (stage.print c) cursors; exhausted = true })
            else rest
      ]

  unfoldable pub run_cursor_stage : (limit : ℕ) → Cursors → W → Option (Outcome W)
  unfolding stage_loop read_cursor
  run_cursor_stage limit cursors w =
      stage_loop (max 1 limit) limit 0 (read_cursor cursors) cursors w

  -- Executions of the job one after the other, until one of them comes to the end of the stage.
  unfoldable pub run_executions : (executions limit : ℕ) → Cursors → W → Option (Outcome W)
  unfolding run_cursor_stage
  run_executions zero limit cursors w = none
  run_executions (suc n) limit cursors w =
      next_execution (run_executions n limit) (run_cursor_stage limit cursors w)

  -- All pages from a position to the end, in one go.
  unfoldable pub sweep : (pages : ℕ) → Option C → W → Option W
  sweep zero cursor w = none
  sweep (suc pages) cursor w =
      let (next, examined, w') = stage.step cursor w in
      elim next [ none ↦ some w' | some c ↦ sweep pages (some c) w' ]

-- `runBudgetedStage`: `step` gives whether it is done. The answer is what it leaves, and whether the
-- budget was exhausted.
module _ {W : Type 0} (step : W → Bool × ℕ × W) where
  unfoldable pub budgeted_loop : (fuel limit used : ℕ) → W → Option (W × Bool)
  unfolding consume is_exhausted
  budgeted_loop zero limit used w = none
  budgeted_loop (suc fuel) limit used w =
      let (finished, examined, w') = step w in
      let used' = consume examined used in
      let rest = budgeted_loop fuel limit used' w' in
      if finished
      then some (w', false)
      else if is_exhausted limit used'
      then some (w', true)
      else rest

  unfoldable pub run_budgeted_stage : (limit : ℕ) → W → Option (W × Bool)
  unfolding budgeted_loop
  run_budgeted_stage limit w = budgeted_loop (max 1 limit) limit 0 w
