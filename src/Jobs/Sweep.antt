-- ===== src/Jobs/Sweep.antt =====
-- About the stages of the clean-up job: they end, and executions one after the other do the work of one.
use storix.Base.{
  ℕ, zero, suc, ◌+◌, ◌≤◌, ◌<◌, max, String, Bool, true, false, Option, none, some, ◌≡◌, refl, inl,
  inr, Bool-cases, Option-cases, arith, subst, leb,
}
use storix.Jobs.Stage.{
  consume, is_exhausted, Cursors, write, clear, Stage, Outcome, read_cursor, stage_loop,
  run_cursor_stage, next_execution, run_executions, sweep, budgeted_loop, run_budgeted_stage,
}

module _ {C W : Type 0} (stage : Stage C W) where
  -- Where an execution stops early, less is left than before; otherwise all was done.
  abbrev Left : (pages : ℕ) → (v : W) → Outcome W → Bool → Type 0
  Left pages v out false = (out.world ≡ v) × (out.cursors ≡ some none) × (out.exhausted ≡ false)
  Left pages v out true =
      (c : C) × (rest : ℕ) × (out.cursors ≡ some (some (stage.print c)))
      × (rest < pages)
      × (sweep stage rest (some c) out.world ≡ some v)

  abbrev Progress : (pages : ℕ) → W → Option (Outcome W) → Type 0
  Progress pages v none = ⊥
  Progress pages v (some out) = Left pages v out out.exhausted

  Left-more :
      (pages : ℕ) (v : W) (out : Outcome W) (b : Bool)
      → Left pages v out b
      → Left (suc pages) v out b
  Left-more pages v out false h = h
  Left-more pages v out true (c, rest, at, less, left) = (c, rest, at, omega (arith, less), left)

  Progress-more :
      (pages : ℕ) (v : W) (r : Option (Outcome W)) → Progress pages v r → Progress (suc pages) v r
  Progress-more pages v none h = h
  Progress-more pages v (some out) h = Left-more pages v out out.exhausted h

  stage_loop-Progress :
      (fuel limit used pages : ℕ) (cursor : Option C) (position : Option String) (w v : W)
      → limit ≤ used + fuel
      → 0 < fuel
      → sweep stage pages cursor w ≡ some v
      → Progress pages v (stage_loop stage fuel limit used cursor (some position) w)
  unfolding stage_loop sweep consume is_exhausted write clear
  stage_loop-Progress zero limit used pages cursor position w v enough more e =
      absurd (omega (arith, more))
  stage_loop-Progress (suc fuel) limit used zero cursor position w v enough more e =
      absurd (none_some v e)
    where
      none_some : (v : W) → none ≡ some v → ⊥
      none_some v e = cc
  stage_loop-Progress (suc fuel) limit used (suc pages) cursor position w v enough more e =
      elim (Option-cases (stage.step cursor w).0) [
        | inl none' ↦ rw (Progress, none') (some-inj _ v (rw (sweep, none') at e), refl, refl)
        | inr (c, next) ↦
            let left = rw (sweep, next) at e in
            elim (Bool-cases (leb limit (used + max 1 (stage.step cursor w).1))) [
              | inl yes' ↦ rw (Progress, next, yes') (c, pages, refl, omega arith, left)
              | inr no' ↦
                  rw (Progress, next, no')
                    (Progress-more pages v _ (
                      stage_loop-Progress fuel limit (used + max 1 (stage.step cursor w).1) pages
                        (some c) position (stage.step cursor w).2 v (omega arith) (ground arith)
                        left))
            ]
      ]
    where
      some-inj : (a b : W) → some a ≡ some b → a ≡ b
      some-inj a b h = cc

  run_executions-at :
      (executions limit pages : ℕ) (position : Option String) (w v : W)
      → ((c : C) → stage.parse (stage.print c) ≡ some c)
      → pages ≤ executions
      → sweep stage pages (read_cursor stage (some position)) w ≡ some v
      → (out : Outcome W) × (run_executions stage executions limit (some position) w ≡ some out)
        × (out.world ≡ v)
        × (out.cursors ≡ some none)
  unfolding run_executions run_cursor_stage read_cursor sweep
  run_executions-at zero limit (suc pages) position w v same enough e =
      absurd (omega (arith, enough))
  run_executions-at zero limit zero position w v same enough e = absurd (none_some v e)
    where
      none_some : (v : W) → none ≡ some v → ⊥
      none_some v e = cc
  run_executions-at (suc n) limit pages position w v same enough e =
      at (λ rest stored w' less left. run_executions-at n limit rest stored w' v same less left)
        (run_cursor_stage stage limit (some position) w)
        (stage_loop-Progress (max 1 limit) limit 0 pages (read_cursor stage (some position))
          position w v (omega arith) (omega arith) e)
    where
      at :
          ((rest : ℕ) (stored : Option String) (w' : W)
            → rest ≤ n
            → sweep stage rest (read_cursor stage (some stored)) w' ≡ some v
            → (out : Outcome W) × (run_executions stage n limit (some stored) w' ≡ some out)
              × (out.world ≡ v)
              × (out.cursors ≡ some none))
          → (r : Option (Outcome W)) → Progress pages v r
          → (out : Outcome W) × (next_execution (run_executions stage n limit) r ≡ some out)
            × (out.world ≡ v)
            × (out.cursors ≡ some none)
      at again none h = absurd h
      at again (some out) h = elim (Bool-cases out.exhausted) [
        | inl yes' ↦
            let (c, rest, stored, less, left) = subst (Left pages v out) yes' h in
            rw (yes', stored)
              (again rest (some (stage.print c)) out.world (omega (arith, less, enough))
                (rw (same c) left))
        | inr no' ↦
            let (done', cleared, _) = subst (Left pages v out) no' h in
            rw no' (
              record { world = out.world; cursors = out.cursors; exhausted = false },
              refl,
              done',
              cleared,
            )
      ]

-- However small the budget, a stage comes to its end: where a walk over all its pages from the first one has
-- an end, as many executions as that walk has pages are enough, with nothing else in between, if each stored
-- position is read back as it was written. They then leave what the walk leaves, and no stored position.
pub run_executions-sweep :
    {C W : Type 0} (stage : Stage C W) (pages limit : ℕ) (w v : W)
    → ((c : C) → stage.parse (stage.print c) ≡ some c)
    → sweep stage pages none w ≡ some v
    → (out : Outcome W) × (run_executions stage pages limit (some none) w ≡ some out)
      × (out.world ≡ v)
      × (out.cursors ≡ some none)
unfolding read_cursor
run_executions-sweep stage pages limit w v same e =
    run_executions-at stage pages limit pages none w v same (omega arith) e

-- One execution of either kind of stage ends after at most as many rounds as its budget has rows, or after
-- one round where the budget is 0.
module _ {C W : Type 0} (stage : Stage C W) where
  stage_loop-ends :
      (fuel limit used : ℕ) (cursor : Option C) (cursors : Cursors) (w : W)
      → limit ≤ used + fuel
      → 0 < fuel
      → (out : Outcome W) × (stage_loop stage fuel limit used cursor cursors w ≡ some out)
  unfolding stage_loop consume is_exhausted
  stage_loop-ends zero limit used cursor cursors w enough more = absurd (omega (arith, more))
  stage_loop-ends (suc fuel) limit used cursor cursors w enough more =
      elim (Option-cases (stage.step cursor w).0) [
        | inl none' ↦ rw (stage_loop, none') (_, refl)
        | inr (c, next) ↦ elim (Bool-cases (leb limit (used + max 1 (stage.step cursor w).1))) [
          | inl yes' ↦ rw (stage_loop, next, yes') (_, refl)
          | inr no' ↦
              rw (stage_loop, next, no')
                (stage_loop-ends fuel limit (used + max 1 (stage.step cursor w).1) (some c) cursors
                  (stage.step cursor w).2 (omega arith) (ground arith))
        ]
      ]

module _ {W : Type 0} (step : W → Bool × ℕ × W) where
  budgeted_loop-ends :
      (fuel limit used : ℕ) (w : W)
      → limit ≤ used + fuel
      → 0 < fuel
      → (r : W × Bool) × (budgeted_loop step fuel limit used w ≡ some r)
  unfolding budgeted_loop consume is_exhausted
  budgeted_loop-ends zero limit used w enough more = absurd (omega (arith, more))
  budgeted_loop-ends (suc fuel) limit used w enough more = elim (Bool-cases (step w).0) [
    | inl yes' ↦ rw (budgeted_loop, yes') (_, refl)
    | inr no' ↦ elim (Bool-cases (leb limit (used + max 1 (step w).1))) [
      | inl full ↦ rw (budgeted_loop, no', full) (_, refl)
      | inr left ↦
          rw (budgeted_loop, no', left)
            (budgeted_loop-ends fuel limit (used + max 1 (step w).1) (step w).2 (omega arith)
              (ground arith))
    ]
  ]

-- One execution of a stage with a cursor, and one of a stage without, come to an end whatever their pages
-- do: after at most as many pages as the budget has rows, or after one page where the budget is 0.
pub run_stage_ends :
    {C W : Type 0} (stage : Stage C W) (step : W → Bool × ℕ × W) (limit : ℕ) (cursors : Cursors)
    (w : W)
    → ((out : Outcome W) × (run_cursor_stage stage limit cursors w ≡ some out))
      × ((r : W × Bool) × (run_budgeted_stage step limit w ≡ some r))
unfolding run_cursor_stage run_budgeted_stage
run_stage_ends stage step limit cursors w = (
  stage_loop-ends stage (max 1 limit) limit 0 (read_cursor stage cursors) cursors w (omega arith)
      (omega arith),
  budgeted_loop-ends step (max 1 limit) limit 0 w (omega arith) (omega arith),
)
