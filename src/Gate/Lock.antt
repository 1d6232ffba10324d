-- ===== src/Gate/Lock.antt =====
-- The lock that the gate is meant to be, apart from the code: it is in one state at a time, and has a
-- queue of calls.
use storix.Base.{
  ℕ, zero, suc, ◌≡◌, Bool, true, false, ◌&&◌, not, Option, none, some, List, [], ◌∷◌, ◌++◌, ◌==◌,
  if◌then◌else◌, has,
}
use storix.Gate.Queue.{remove_first}
use storix.Gate.Runner.{
  Purpose, transaction, statement, Runners, Call, comes, goes_on, ends, expires, commits,
  rolls_back,
}

-- Free, given to a call that has not gone on yet, taken by a query, held by a transaction with so many
-- savepoints inside, or stuck with a transaction that the connection did not close.
pub data Lock : Type 0 where
  free : Lock
  given reading : (call : ℕ) → Lock
  held : (runner savepoints : ℕ) → Lock
  stuck : (runner : ℕ) → Lock

-- The first in the queue gets the lock.
abbrev pub hand_over : List ℕ → Lock × List ℕ
hand_over [] = (free, [])
hand_over (next ∷ rest) = (given next, rest)

abbrev pub enter : (call : ℕ) → Lock → List ℕ → Lock × List ℕ
enter call free queue = (given call, queue)
enter call lock queue = (lock, queue ++ call ∷ [])

-- A transaction is asked for: one inside that of the same runner is a savepoint.
abbrev pub start : (call runner : ℕ) → (fine : Bool) → Lock → List ℕ → Lock × List ℕ
start call runner fine free queue = enter call free queue
start call runner fine (given other) queue = enter call (given other) queue
start call runner fine (reading other) queue = enter call (reading other) queue
start call runner fine (held owner n) queue =
    if owner == runner
    then ((if fine then held owner (suc n) else held owner n), queue)
    else enter call (held owner n) queue
start call runner fine (stuck owner) queue =
    if owner == runner
    then ((if fine then held owner 0 else stuck owner), queue)
    else enter call (stuck owner) queue

-- A query is asked for: one of the runner that holds the lock changes nothing.
abbrev pub read : (call runner : ℕ) → Lock → List ℕ → Lock × List ℕ
read call runner free queue = enter call free queue
read call runner (given other) queue = enter call (given other) queue
read call runner (reading other) queue = enter call (reading other) queue
read call runner (held owner n) queue =
    if owner == runner then (held owner n, queue) else enter call (held owner n) queue
read call runner (stuck owner) queue =
    if owner == runner then (stuck owner, queue) else enter call (stuck owner) queue

-- The call that was given the lock takes it; a BEGIN that fails hands it over.
abbrev pub take : (call : ℕ) → (fine : Bool) → Purpose → List ℕ → Lock × List ℕ
take call fine (transaction runner) queue = if fine then (held runner 0, queue) else hand_over queue
take call fine (statement runner) queue = (reading call, queue)

-- The end of the outermost transaction hands the lock over.
abbrev pub end : (runner : ℕ) → (in_transaction closes : Bool) → List ℕ → Lock × List ℕ
end runner in_transaction closes queue =
    if in_transaction && not closes then (stuck runner, queue) else hand_over queue

abbrev pub finish : (runner : ℕ) → (in_transaction closes : Bool) → Lock → List ℕ → Lock × List ℕ
finish runner in_transaction closes free queue = (free, queue)
finish runner in_transaction closes (given call) queue = (given call, queue)
finish runner in_transaction closes (reading call) queue = (reading call, queue)
finish runner in_transaction closes (held owner zero) queue =
    if owner == runner then end owner in_transaction closes queue else (held owner 0, queue)
finish runner in_transaction closes (held owner (suc n)) queue =
    (held owner (if owner == runner then n else suc n), queue)
finish runner in_transaction closes (stuck owner) queue =
    if owner == runner then end owner in_transaction closes queue else (stuck owner, queue)

module _ (made : ℕ → Purpose) where
  abbrev pub come : (call : ℕ) → (fine : Bool) → Purpose → Lock → List ℕ → Lock × List ℕ
  come call fine (transaction runner) lock queue = start call runner fine lock queue
  come call fine (statement runner) lock queue = read call runner lock queue

  abbrev pub go_on : (call : ℕ) → (fine : Bool) → Lock → List ℕ → Lock × List ℕ
  go_on call fine (given next) queue =
      if next == call then take call fine (made call) queue else (given next, queue)
  go_on call fine lock queue = (lock, queue)

  abbrev pub stop : (call : ℕ) → Lock → List ℕ → Lock × List ℕ
  stop call (reading reader) queue =
      if reader == call then hand_over queue else (reading reader, queue)
  stop call lock queue = (lock, queue)

  unfoldable pub lock_call : Call → Lock → List ℕ → Lock × List ℕ
  unfolding has remove_first
  lock_call (comes call fine) lock queue = come call fine (made call) lock queue
  lock_call (goes_on call fine) lock queue = go_on call fine lock queue
  lock_call (ends call) lock queue = stop call lock queue
  lock_call (expires call) lock queue =
      (lock, if has queue call then remove_first call queue else queue)
  lock_call (commits runner fine in_transaction closes) lock queue =
      if fine then finish runner in_transaction closes lock queue else (lock, queue)
  lock_call (rolls_back runner in_transaction closes) lock queue =
      finish runner in_transaction closes lock queue

  unfoldable pub lock_calls : List Call → Lock × List ℕ → Lock × List ℕ
  unfolding lock_call
  lock_calls [] l = l
  lock_calls (c ∷ rest) (lock, queue) = lock_calls rest (lock_call c lock queue)

abbrev pub is_taken : Lock → Bool
is_taken free = false
is_taken _ = true

abbrev pub owner_of : Lock → Option ℕ
owner_of (held runner n) = some runner
owner_of (stuck runner) = some runner
owner_of _ = none

abbrev pub depth_of : Lock → ℕ → ℕ
depth_of (held runner n) r = if r == runner then suc n else 0
depth_of _ r = 0

abbrev pub resumed_of : Lock → List ℕ
resumed_of (given call) = call ∷ []
resumed_of _ = []

abbrev pub running_of : Lock → List ℕ
running_of (reading call) = call ∷ []
running_of _ = []

-- The runners and the gate are in the state that the lock says: so at most one of a transaction, a query
-- outside it and a call on its way has the gate, and the gate is locked exactly then.
abbrev pub Implements : Runners → Lock × List ℕ → Type 0
Implements s (lock, queue) =
    (s.gate ≡ record { locked = is_taken lock; waiters = queue })
    × (s.owner ≡ owner_of lock)
    × ((r : ℕ) → s.depth r ≡ depth_of lock r)
    × (s.resumed ≡ resumed_of lock)
    × (s.running ≡ running_of lock)
