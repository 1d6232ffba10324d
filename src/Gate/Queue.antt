-- ===== src/Gate/Queue.antt =====
-- `QueryGate` of apps/api/src/persistence/sqlite-gate.ts. A call of `acquire` is known by a number, which
-- stands for its waiter. The right is given when the promise of `acquire` is resolved.
use storix.Base.{
  ℕ, Bool, true, false, not, Option, none, some, List, [], ◌∷◌, ◌++◌, ◌==◌, if◌then◌else◌, has,
}

pub record QueryGate : Type 0 where
  pub locked : Bool
  pub waiters : List ℕ

-- Whether the promise is resolved at once.
unfoldable pub acquire : ℕ → QueryGate → Bool × QueryGate
acquire id gate =
    if not gate.locked
    then (true, record gate { locked = true })
    else (false, record gate { waiters = gate.waiters ++ id ∷ [] })

unfoldable pub remove_first : ℕ → List ℕ → List ℕ
remove_first id [] = []
remove_first id (x ∷ xs) = if x == id then xs else x ∷ remove_first id xs

abbrev pub drop_last : List ℕ → List ℕ
drop_last [] = []
drop_last (x ∷ []) = []
drop_last (x ∷ y ∷ ys) = x ∷ drop_last (y ∷ ys)

-- `splice(indexOf(waiter), 1)`: an index of -1 takes the last element.
unfoldable pub splice_waiter : ℕ → List ℕ → List ℕ
unfolding has remove_first
splice_waiter id xs = if has xs id then remove_first id xs else drop_last xs

-- The timer of a waiter runs out.
unfoldable pub time_out : ℕ → QueryGate → QueryGate
unfolding splice_waiter
time_out id gate = record gate { waiters = splice_waiter id gate.waiters }

abbrev pub shift_waiter : List ℕ → QueryGate → Option ℕ × QueryGate
shift_waiter [] gate = (none, record gate { locked = false })
shift_waiter (next ∷ rest) gate = (some next, record gate { waiters = rest })

-- The waiter that the right is handed to.
unfoldable pub release : QueryGate → Option ℕ × QueryGate
release gate = shift_waiter gate.waiters gate

-- The gate with the calls of its life: those that have come, those whose timer ran out, those that
-- were given the right, in this order, and those that have it now.
pub record Calls : Type 0 where
  pub gate : QueryGate
  pub arrived : List ℕ
  pub expired : List ℕ
  pub granted : List ℕ
  pub holders : List ℕ

pub data Event : Type 0 where
  arrives expires : ℕ → Event
  releases : Event

abbrev pub arrive : ℕ → Bool × QueryGate → Calls → Calls
arrive id (true, gate) calls = record calls {
  gate = gate;
  arrived = calls.arrived ++ id ∷ [];
  granted = calls.granted ++ id ∷ [];
  holders = id ∷ calls.holders;
}
arrive id (false, gate) calls = record calls { gate = gate; arrived = calls.arrived ++ id ∷ [] }

abbrev pub hand_over : Option ℕ × QueryGate → (rest : List ℕ) → Calls → Calls
hand_over (none, gate) rest calls = record calls { gate = gate; holders = rest }
hand_over (some next, gate) rest calls = record calls {
  gate = gate;
  granted = calls.granted ++ next ∷ [];
  holders = next ∷ rest;
}

abbrev pub release_by : List ℕ → Calls → Calls
release_by [] calls = calls
release_by (holder ∷ rest) calls = hand_over (release calls.gate) rest calls

-- Each call is a new one; a timer only runs out while its waiter is in the queue, because a grant
-- clears it; and only a call that has the right gives it back.
unfoldable pub step : Event → Calls → Calls
unfolding acquire time_out release has
step (arrives id) calls =
    if has calls.arrived id then calls else arrive id (acquire id calls.gate) calls
step (expires id) calls =
    if has calls.gate.waiters id
    then record calls { gate = time_out id calls.gate; expired = id ∷ calls.expired }
    else calls
step releases calls = release_by calls.holders calls

unfoldable pub run : List Event → Calls → Calls
unfolding step
run [] calls = calls
run (event ∷ rest) calls = run rest (step event calls)

abbrev pub new_gate : Calls
new_gate = record {
  gate = record { locked = false; waiters = [] };
  arrived = [];
  expired = [];
  granted = [];
  holders = [];
}
