-- ===== src/Gate/Runner.antt =====
-- `GatedQueryRunner` of apps/api/src/persistence/sqlite-gate.ts: which runner has the gate, how deep its
-- transactions are nested, and the calls that wait for the gate or go on after it. A call of `query` or
-- `startTransaction` is known by a number, which is also that of its waiter, and `made` says what it is.
-- What TypeORM and the connection answer are arguments: whether BEGIN, SAVEPOINT or COMMIT succeeded
-- (`fine`), whether the connection is in a transaction afterwards (`in_transaction`), and whether a
-- ROLLBACK sent to it closes that (`closes`). The fields of TypeORM that `leaveTransaction` resets, and
-- the asynchronous scope, are left out.
use storix.Base.{
  ℕ, suc, ◌-◌, Bool, true, false, ◌&&◌, not, Option, none, some, List, [], ◌∷◌, ◌==◌, ltb,
  if◌then◌else◌, has,
}
use storix.Gate.Queue.{QueryGate, acquire, remove_first, time_out, release}

pub data Purpose : Type 0 where
  transaction statement : (runner : ℕ) → Purpose

-- `resumed` are the calls whose promise of `acquire` is resolved and that have not gone on yet, and
-- `running` the queries that run with the gate, outside a transaction.
pub record Runners : Type 0 where
  pub gate : QueryGate
  pub owner : Option ℕ
  pub depth : ℕ → ℕ
  pub resumed : List ℕ
  pub running : List ℕ

abbrev pub owns : Option ℕ → ℕ → Bool
owns none runner = false
owns (some owner) runner = owner == runner

abbrev pub set_depth : ℕ → ℕ → (ℕ → ℕ) → ℕ → ℕ
set_depth runner d depth r = if r == runner then d else depth r

-- `acquire`, with the call that it may resume at once.
abbrev pub acquired : (call : ℕ) → Bool × QueryGate → Runners → Runners
acquired call (true, gate) s = record s { gate = gate; resumed = call ∷ s.resumed }
acquired call (false, gate) s = record s { gate = gate }

-- `release`, with the call that it resumes.
abbrev pub released : Option ℕ × QueryGate → Runners → Runners
released (none, gate) s = record s { gate = gate }
released (some next, gate) s = record s { gate = gate; resumed = next ∷ s.resumed }

unfoldable pub release_ownership : ℕ → Runners → Runners
unfolding release
release_ownership runner s =
    if owns s.owner runner then released (release s.gate) (record s { owner = none }) else s

-- `startTransaction` up to the promise that it waits for; a runner that has the gate sets a savepoint.
unfoldable pub start_transaction : (call runner : ℕ) → (fine : Bool) → Runners → Runners
unfolding acquire
start_transaction call runner fine s =
    if owns s.owner runner
    then (if fine then record s { depth = set_depth runner (suc (s.depth runner)) s.depth } else s)
    else acquired call (acquire call s.gate) s

-- `startTransaction` after the promise.
unfoldable pub begin_transaction : (runner : ℕ) → (fine : Bool) → Runners → Runners
unfolding release_ownership
begin_transaction runner fine s =
    let taken = record s { owner = some runner } in
    if fine
    then record taken { depth = set_depth runner 1 taken.depth }
    else release_ownership runner taken

-- `query`: that of the runner which has the gate runs, or is refused, at once.
unfoldable pub query : (call runner : ℕ) → Runners → Runners
unfolding acquire
query call runner s = if owns s.owner runner then s else acquired call (acquire call s.gate) s

-- The end of a query outside a transaction, also where it fails.
unfoldable pub end_query : (call : ℕ) → Runners → Runners
unfolding release remove_first
end_query call s = released (release s.gate) (record s { running = remove_first call s.running })

unfoldable pub leave_transaction : (runner : ℕ) → (in_transaction closes : Bool) → Runners → Runners
unfolding release_ownership
leave_transaction runner in_transaction closes s =
    if not (owns s.owner runner)
    then s
    else (let left = record s { depth = set_depth runner (s.depth runner - 1) s.depth } in
        if ltb 0 (s.depth runner - 1)
        then left
        else if in_transaction && not closes
        then left
        else release_ownership runner left)

unfoldable pub commit_transaction :
    (runner : ℕ) → (fine in_transaction closes : Bool) → Runners → Runners
unfolding leave_transaction
commit_transaction runner fine in_transaction closes s =
    if fine then leave_transaction runner in_transaction closes s else s

-- A rollback counts, whether or not it succeeded.
unfoldable pub rollback_transaction :
    (runner : ℕ) → (in_transaction closes : Bool) → Runners → Runners
unfolding leave_transaction
rollback_transaction = leave_transaction

-- `comes` is the call itself, `goes_on` what follows on its promise, and `ends` the end of a query.
pub data Call : Type 0 where
  comes goes_on : (call : ℕ) (fine : Bool) → Call
  ends expires : (call : ℕ) → Call
  commits : (runner : ℕ) (fine in_transaction closes : Bool) → Call
  rolls_back : (runner : ℕ) (in_transaction closes : Bool) → Call

module _ (made : ℕ → Purpose) where
  abbrev pub comes_for : (call : ℕ) → (fine : Bool) → Purpose → Runners → Runners
  comes_for call fine (transaction runner) s = start_transaction call runner fine s
  comes_for call fine (statement runner) s = query call runner s

  abbrev pub goes_on_for : (call : ℕ) → (fine : Bool) → Purpose → Runners → Runners
  goes_on_for call fine (transaction runner) s = begin_transaction runner fine s
  goes_on_for call fine (statement runner) s = record s { running = call ∷ s.running }

  -- A call goes on only when its promise is resolved, a query ends only while it runs, and the timer of a
  -- waiter runs out only while it waits.
  unfoldable pub call : Call → Runners → Runners
  unfolding start_transaction begin_transaction query end_query commit_transaction
      rollback_transaction time_out has remove_first
  call (comes id fine) s = comes_for id fine (made id) s
  call (goes_on id fine) s =
      if has s.resumed id
      then goes_on_for id fine (made id) (record s { resumed = remove_first id s.resumed })
      else s
  call (ends id) s = if has s.running id then end_query id s else s
  call (expires id) s = if has s.gate.waiters id then record s { gate = time_out id s.gate } else s
  call (commits runner fine in_transaction closes) s =
      commit_transaction runner fine in_transaction closes s
  call (rolls_back runner in_transaction closes) s =
      rollback_transaction runner in_transaction closes s

  unfoldable pub calls : List Call → Runners → Runners
  unfolding call
  calls [] s = s
  calls (c ∷ rest) s = calls rest (call c s)
