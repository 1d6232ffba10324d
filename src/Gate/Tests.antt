-- ===== src/Gate/Tests.antt =====
-- Runs of the gate and of the runners.
use storix.Base.{
  ℕ, ◌||◌, ◌==◌, ◌≡◌, ◌++◌, refl, true, false, none, List, [], ◌∷◌, if◌then◌else◌, length, has,
}
use storix.Gate.Queue.{Event, arrives, expires, releases, run, new_gate, remove_first}
use storix.Gate.Order.{without, run_in_order}
use storix.Gate.Runner.{
  Purpose, transaction, statement, Runners, Call, comes, goes_on, expires, commits, rolls_back,
  calls,
}
use storix.Gate.Lock.{free, reading, lock_calls, Implements}
use storix.Gate.Nesting.{calls-Implements}

-- The second waiter gives up.
abbrev events : List Event
events = arrives 1 ∷ arrives 2 ∷ arrives 3 ∷ arrives 4 ∷ expires 3 ∷ releases ∷ releases ∷ []

run-events : (run events new_gate).granted ≡ 1 ∷ 2 ∷ 4 ∷ []
unfolding run has remove_first
run-events = refl

run_in_order_example :
    (length (run events new_gate).holders ≡ (if (run events new_gate).gate.locked then 1 else 0))
    × ((run events new_gate).gate.locked ≡ false → (run events new_gate).gate.waiters ≡ [])
    × ((run events new_gate).granted ++ (run events new_gate).gate.waiters
        ≡ without (run events new_gate).expired (run events new_gate).arrived)
run_in_order_example = run_in_order events

abbrev runners : Runners
runners = record {
  gate = record { locked = false; waiters = [] };
  owner = none;
  depth = λ r. 0;
  resumed = [];
  running = [];
}

-- Calls 1, 2 and 5 start transactions of the runners 1 and 2, and the others are queries of runner 3.
abbrev made : ℕ → Purpose
made id =
    if id == 1 || id == 5 then transaction 1 else if id == 2 then transaction 2 else statement 3

-- A transaction with a savepoint, while another and a query wait; the rollback of a runner that does not
-- hold the gate, and the commit, which hands the gate over.
abbrev session : List Call
session =
    comes 1 true
    ∷ goes_on 1 true
    ∷ comes 2 true
    ∷ comes 3 true
    ∷ goes_on 2 true
    ∷ comes 5 true
    ∷ rolls_back 2 true false
    ∷ commits 1 true true false
    ∷ expires 2
    ∷ commits 1 true false false
    ∷ goes_on 3 true
    ∷ []

session_lock : lock_calls made session (free, []) ≡ (reading 3, [])
unfolding lock_calls has remove_first
session_lock = refl

session_running : (calls made session runners).running ≡ 3 ∷ []
unfolding calls has remove_first
session_running = refl

calls-Implements_example :
    Implements (calls made session runners) (lock_calls made session (free, []))
calls-Implements_example =
    calls-Implements made session runners (free, []) (refl, refl, λ r. refl, refl, refl)
