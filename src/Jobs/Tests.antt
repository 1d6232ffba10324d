-- ===== src/Jobs/Tests.antt =====
-- A stage of three pages with one row in each, and a stage that is never done.
use storix.Base.{
  ℕ, String, Bool, true, false, Option, none, some, List, [], ◌∷◌, ◌++◌, if◌then◌else◌, ◌≡◌, refl,
  str_eq,
}
use storix.Jobs.Stage.{Stage, Outcome, run_cursor_stage, run_budgeted_stage, run_executions, sweep}
use storix.Jobs.Sweep.{run_executions-sweep, run_stage_ends}

-- Two positions, the second one of which is followed by the last page.
abbrev parse : String → Option Bool
parse text =
    if str_eq text "second" then some true else if str_eq text "first" then some false else none

abbrev print : Bool → String
print true = "second"
print false = "first"

abbrev visit : Option Bool → List ℕ → Option Bool × ℕ × List ℕ
visit none rows = (some false, 1, rows ++ 0 ∷ [])
visit (some false) rows = (some true, 1, rows ++ 1 ∷ [])
visit (some true) rows = (none, 1, rows ++ 2 ∷ [])

abbrev three_pages : Stage Bool (List ℕ)
three_pages = record { parse = parse; print = print; step = visit }

-- With a budget of two rows the first execution stops after two pages.
two_of_three :
    run_cursor_stage three_pages 2 (some none) []
    ≡ some (record { world = 0 ∷ 1 ∷ []; cursors = some (some "second"); exhausted = true })
unfolding run_cursor_stage
two_of_three = refl

read_back : (c : Bool) → parse (print c) ≡ some c
read_back true = refl
read_back false = refl

run_executions-sweep_example :
    (out : Outcome (List ℕ)) × (run_executions three_pages 3 1 (some none) [] ≡ some out)
    × (out.world ≡ 0 ∷ 1 ∷ 2 ∷ [])
    × (out.cursors ≡ some none)
unfolding sweep
run_executions-sweep_example =
    run_executions-sweep three_pages 3 1 [] (0 ∷ 1 ∷ 2 ∷ []) read_back refl

abbrev never_done : List ℕ → Bool × ℕ × List ℕ
never_done rows = (false, 0, 9 ∷ rows)

run_stage_ends_example :
    ((out : Outcome (List ℕ)) × (run_cursor_stage three_pages 2 (some none) [] ≡ some out))
    × ((r : List ℕ × Bool) × (run_budgeted_stage never_done 2 [] ≡ some r))
run_stage_ends_example = run_stage_ends three_pages never_done 2 (some none) []
