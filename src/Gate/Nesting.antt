-- ===== src/Gate/Nesting.antt =====
-- About the gate and the nesting of transactions in `GatedQueryRunner`, against an abstract lock.
use storix.Base.{
  ℕ, zero, suc, ltb, ◌-◌, ◌==◌, ◌≡◌, refl, ap, inl, inr, Bool, true, false, List, [], ◌∷◌,
  if◌then◌else◌, has, none, some, ==→eq, ◌&&◌, not, Bool-cases, ==_self, arith,
}
use storix.Gate.Queue.{acquire, release, remove_first, splice_waiter, time_out}
use storix.Gate.Runner.{
  owns, Purpose, transaction, statement, Runners, acquired, released, release_ownership,
  start_transaction, begin_transaction, query, end_query, leave_transaction, commit_transaction,
  rollback_transaction, Call, comes, goes_on, ends, expires, commits, rolls_back, goes_on_for,
  comes_for, set_depth, call, calls,
}
use storix.Gate.Lock.{
  Lock, free, given, reading, held, stuck, hand_over, enter, start, read, take, end, finish, come,
  go_on, stop, lock_call, lock_calls, Implements,
}

-- A runner state with nobody on the way, given as the fields that the lock names.
released-Implements :
    (queue : List ℕ) (s : Runners)
    → s.gate ≡ record { locked = true; waiters = queue }
    → s.owner ≡ none
    → ((r : ℕ) → s.depth r ≡ 0)
    → s.resumed ≡ []
    → s.running ≡ []
    → Implements (released (release s.gate) s) (hand_over queue)
unfolding release
released-Implements [] s g o d w q = rw g (refl, o, d, w, q)
released-Implements (next ∷ rest) s g o d w q = rw (g, w) (refl, o, d, refl, q)

-- A call at a lock that is not free waits, and at a free one is given it.
acquired-Implements :
    (id : ℕ) (s : Runners) (lock : Lock) (queue : List ℕ)
    → Implements s (lock, queue)
    → Implements (acquired id (acquire id s.gate) s) (enter id lock queue)
unfolding acquire
acquired-Implements id s free queue (g, o, d, w, q) = rw (g, w) (refl, o, d, refl, q)
acquired-Implements id s (given other) queue (g, o, d, w, q) = rw g (refl, o, d, w, q)
acquired-Implements id s (reading other) queue (g, o, d, w, q) = rw g (refl, o, d, w, q)
acquired-Implements id s (held owner n) queue (g, o, d, w, q) = rw g (refl, o, d, w, q)
acquired-Implements id s (stuck owner) queue (g, o, d, w, q) = rw g (refl, o, d, w, q)

start_transaction-Implements :
    (id runner : ℕ) (fine : Bool) (s : Runners) (lock : Lock) (queue : List ℕ)
    → Implements s (lock, queue)
    → Implements (start_transaction id runner fine s) (start id runner fine lock queue)
unfolding start_transaction
start_transaction-Implements id runner fine s free queue h =
    rw (ap (λ o. owns o runner) h.1) (acquired-Implements id s free queue h)
start_transaction-Implements id runner fine s (given other) queue h =
    rw (ap (λ o. owns o runner) h.1) (acquired-Implements id s (given other) queue h)
start_transaction-Implements id runner fine s (reading other) queue h =
    rw (ap (λ o. owns o runner) h.1) (acquired-Implements id s (reading other) queue h)
start_transaction-Implements id runner fine s (held owner n) queue h =
    elim (Bool-cases (owner == runner)) [
      | inr other ↦
          rw (ap (λ o. owns o runner) h.1, other) (acquired-Implements id s (held owner n) queue h)
      | inl own ↦ savepoint fine h own
    ]
  where
    savepoint :
        (fine : Bool)
        → Implements s (held owner n, queue)
        → (owner == runner) ≡ true
        → Implements
            (start_transaction id runner fine s)
            (start id runner fine (held owner n) queue)
    savepoint true (g, o, d, w, q) own =
        rw (ap (λ x. owns x runner) o, own) (g, o, λ r. ground (arith, d r, d runner), w, q)
    savepoint false (g, o, d, w, q) own = rw (ap (λ x. owns x runner) o, own) (g, o, d, w, q)
start_transaction-Implements id runner fine s (stuck owner) queue h =
    elim (Bool-cases (owner == runner)) [
      | inr other ↦
          rw (ap (λ o. owns o runner) h.1, other) (acquired-Implements id s (stuck owner) queue h)
      | inl own ↦ savepoint fine h own
    ]
  where
    savepoint :
        (fine : Bool)
        → Implements s (stuck owner, queue)
        → (owner == runner) ≡ true
        → Implements (start_transaction id runner fine s) (start id runner fine (stuck owner) queue)
    savepoint true (g, o, d, w, q) own =
        rw (ap (λ x. owns x runner) o, own) (g, o, λ r. ground (arith, d r, d runner), w, q)
    savepoint false (g, o, d, w, q) own = rw (ap (λ x. owns x runner) o, own) (g, o, d, w, q)

query-Implements :
    (id runner : ℕ) (s : Runners) (lock : Lock) (queue : List ℕ)
    → Implements s (lock, queue)
    → Implements (query id runner s) (read id runner lock queue)
unfolding query
query-Implements id runner s free queue h =
    rw (ap (λ o. owns o runner) h.1) (acquired-Implements id s free queue h)
query-Implements id runner s (given other) queue h =
    rw (ap (λ o. owns o runner) h.1) (acquired-Implements id s (given other) queue h)
query-Implements id runner s (reading other) queue h =
    rw (ap (λ o. owns o runner) h.1) (acquired-Implements id s (reading other) queue h)
query-Implements id runner s (held owner n) queue h = elim (Bool-cases (owner == runner)) [
  | inr other ↦
      rw (ap (λ o. owns o runner) h.1, other) (acquired-Implements id s (held owner n) queue h)
  | inl own ↦ rw (ap (λ o. owns o runner) h.1, own) h
]
query-Implements id runner s (stuck owner) queue h = elim (Bool-cases (owner == runner)) [
  | inr other ↦
      rw (ap (λ o. owns o runner) h.1, other) (acquired-Implements id s (stuck owner) queue h)
  | inl own ↦ rw (ap (λ o. owns o runner) h.1, own) h
]

-- The outermost end of a transaction.
end-Implements :
    (runner : ℕ) (in_transaction closes : Bool) (queue : List ℕ) (s : Runners)
    → s.gate ≡ record { locked = true; waiters = queue }
    → s.owner ≡ some runner
    → ((r : ℕ) → s.depth r ≡ 0)
    → s.resumed ≡ []
    → s.running ≡ []
    → Implements
        (if in_transaction && not closes
          then s
          else released (release s.gate) (record s { owner = none }))
        (end runner in_transaction closes queue)
end-Implements runner in_transaction closes queue s g o d w q =
    elim (Bool-cases (in_transaction && not closes)) [
      | inl open' ↦ rw open' (g, o, d, w, q)
      | inr shut ↦ rw shut (released-Implements queue (record s { owner = none }) g refl d w q)
    ]

leave_transaction-Implements :
    (runner : ℕ) (in_transaction closes : Bool) (s : Runners) (lock : Lock) (queue : List ℕ)
    → Implements s (lock, queue)
    → Implements
        (leave_transaction runner in_transaction closes s)
        (finish runner in_transaction closes lock queue)
unfolding leave_transaction release_ownership
leave_transaction-Implements runner in_transaction closes s free queue h =
    rw (ap (λ o. owns o runner) h.1) h
leave_transaction-Implements runner in_transaction closes s (given other) queue h =
    rw (ap (λ o. owns o runner) h.1) h
leave_transaction-Implements runner in_transaction closes s (reading other) queue h =
    rw (ap (λ o. owns o runner) h.1) h
leave_transaction-Implements runner in_transaction closes s (held owner zero) queue
      (g, o, d, w, q) =
    elim (Bool-cases (owner == runner)) [
      | inr other ↦ rw (ap (λ x. owns x runner) o, other) (g, o, d, w, q)
      | inl own ↦
          let same = ==→eq owner runner own in
          let now : s.depth runner ≡ 1 = ground (arith, d runner) in
          rw (ap (λ x. owns x runner) o, own, now, same)
            (end-Implements runner in_transaction closes queue
              (record s { depth = set_depth runner 0 s.depth }) g (rw (← same) o)
              (λ r. ground (arith, d r)) w q)
    ]
leave_transaction-Implements runner in_transaction closes s (held owner (suc n)) queue
      (g, o, d, w, q) =
    elim (Bool-cases (owner == runner)) [
      | inr other ↦ rw (ap (λ x. owns x runner) o, other) (g, o, d, w, q)
      | inl own ↦
          let inside : ltb 0 (s.depth runner - 1) ≡ true = ground (arith, d runner) in
          rw (ap (λ x. owns x runner) o, own, inside)
            (g, o, λ r. ground (arith, d r, d runner), w, q)
    ]
leave_transaction-Implements runner in_transaction closes s (stuck owner) queue (g, o, d, w, q) =
    elim (Bool-cases (owner == runner)) [
      | inr other ↦ rw (ap (λ x. owns x runner) o, other) (g, o, d, w, q)
      | inl own ↦
          let same = ==→eq owner runner own in
          rw (ap (λ x. owns x runner) o, own, d runner, same)
            (end-Implements runner in_transaction closes queue
              (record s { depth = set_depth runner 0 s.depth }) g (rw (← same) o)
              (λ r. ground (arith, d r)) w q)
    ]

begin_transaction-Implements :
    (runner : ℕ) (fine : Bool) (queue : List ℕ) (s : Runners)
    → s.gate ≡ record { locked = true; waiters = queue }
    → ((r : ℕ) → s.depth r ≡ 0)
    → s.resumed ≡ []
    → s.running ≡ []
    → Implements
        (begin_transaction runner fine s)
        (if fine then (held runner 0, queue) else hand_over queue)
unfolding begin_transaction release_ownership
begin_transaction-Implements runner true queue s g d w q = (g, refl, λ r. ground (arith, d r), w, q)
begin_transaction-Implements runner false queue s g d w q =
    rw (==_self runner) (released-Implements queue (record s { owner = none }) g refl d w q)

module _ (made : ℕ → Purpose) where
  goes_on_for-Implements :
      (id : ℕ) (fine : Bool) (purpose : Purpose) (queue : List ℕ) (s : Runners)
      → s.gate ≡ record { locked = true; waiters = queue }
      → s.owner ≡ none
      → ((r : ℕ) → s.depth r ≡ 0)
      → s.resumed ≡ []
      → s.running ≡ []
      → Implements (goes_on_for made id fine purpose s) (take id fine purpose queue)
  goes_on_for-Implements id fine (transaction runner) queue s g o d w q =
      begin_transaction-Implements runner fine queue s g d w q
  goes_on_for-Implements id fine (statement runner) queue s g o d w q =
      (g, o, d, w, ap (λ xs. id ∷ xs) q)

  goes_on-Implements :
      (id : ℕ) (fine : Bool) (s : Runners) (lock : Lock) (queue : List ℕ)
      → Implements s (lock, queue)
      → Implements (call made (goes_on id fine) s) (go_on made id fine lock queue)
  unfolding call has remove_first
  goes_on-Implements id fine s free queue h = rw (ap (λ xs. has xs id) h.3) h
  goes_on-Implements id fine s (reading other) queue h = rw (ap (λ xs. has xs id) h.3) h
  goes_on-Implements id fine s (held owner n) queue h = rw (ap (λ xs. has xs id) h.3) h
  goes_on-Implements id fine s (stuck owner) queue h = rw (ap (λ xs. has xs id) h.3) h
  goes_on-Implements id fine s (given next) queue (g, o, d, w, q) = elim (Bool-cases (next == id)) [
    | inr other ↦ rw (ap (λ xs. has xs id) w, other) (g, o, d, w, q)
    | inl own ↦
        rw (ap (λ xs. has xs id) w, own)
          (goes_on_for-Implements id fine (made id) queue
            (record s { resumed = remove_first id s.resumed }) g o d (rw (w, own) refl) q)
  ]

  ends-Implements :
      (id : ℕ) (s : Runners) (lock : Lock) (queue : List ℕ)
      → Implements s (lock, queue)
      → Implements (call made (ends id) s) (stop made id lock queue)
  unfolding call has remove_first end_query
  ends-Implements id s free queue h = rw (ap (λ xs. has xs id) h.4) h
  ends-Implements id s (given other) queue h = rw (ap (λ xs. has xs id) h.4) h
  ends-Implements id s (held owner n) queue h = rw (ap (λ xs. has xs id) h.4) h
  ends-Implements id s (stuck owner) queue h = rw (ap (λ xs. has xs id) h.4) h
  ends-Implements id s (reading reader) queue (g, o, d, w, q) = elim (Bool-cases (reader == id)) [
    | inr other ↦ rw (ap (λ xs. has xs id) q, other) (g, o, d, w, q)
    | inl own ↦
        rw (ap (λ xs. has xs id) q, own)
          (released-Implements queue (record s { running = remove_first id s.running }) g o d w
            (rw (q, own) refl))
  ]

  expires-Implements :
      (id : ℕ) (s : Runners) (lock : Lock) (queue : List ℕ)
      → Implements s (lock, queue)
      → Implements (call made (expires id) s) (lock_call made (expires id) lock queue)
  unfolding call lock_call time_out splice_waiter
  expires-Implements id s lock queue (g, o, d, w, q) = elim (Bool-cases (has queue id)) [
    | inl waits ↦ rw (g, waits) (refl, o, d, w, q)
    | inr no' ↦ rw (ap (λ x. has x.waiters id) g, no') (g, o, d, w, q)
  ]

  comes_for-Implements :
      (id : ℕ) (fine : Bool) (purpose : Purpose) (s : Runners) (lock : Lock) (queue : List ℕ)
      → Implements s (lock, queue)
      → Implements (comes_for made id fine purpose s) (come made id fine purpose lock queue)
  comes_for-Implements id fine (transaction runner) = start_transaction-Implements id runner fine
  comes_for-Implements id fine (statement runner) = query-Implements id runner

  call-Implements :
      (c : Call) (s : Runners) (lock : Lock) (queue : List ℕ)
      → Implements s (lock, queue)
      → Implements (call made c s) (lock_call made c lock queue)
  unfolding lock_call call commit_transaction rollback_transaction
  call-Implements (comes id fine) s lock queue h =
      comes_for-Implements id fine (made id) s lock queue h
  call-Implements (goes_on id fine) s lock queue h = goes_on-Implements id fine s lock queue h
  call-Implements (ends id) s lock queue h = ends-Implements id s lock queue h
  call-Implements (expires id) s lock queue h = expires-Implements id s lock queue h
  call-Implements (commits runner true in_transaction closes) s lock queue h =
      leave_transaction-Implements runner in_transaction closes s lock queue h
  call-Implements (commits runner false in_transaction closes) s lock queue h = h
  call-Implements (rolls_back runner in_transaction closes) s lock queue h =
      leave_transaction-Implements runner in_transaction closes s lock queue h

-- The gate of SQLite is an exclusive lock with a queue. Under every sequence of transactions and queries
-- that are asked for on any runners, that go on once their promise is resolved, that end, or whose timer
-- runs out, and of commits and rollbacks of any runner, the gate, its owner, the depths of all runners, the
-- calls given the gate and the queries that run with it are those of the lock, where they are so at the
-- start. At most one of a transaction, a query outside it and a call on its way has the gate; a
-- transaction keeps it from its BEGIN to its outermost end, whatever other runners ask for or roll back;
-- the first in the queue gets it then, unless the connection stays in the transaction.
pub calls-Implements :
    (made : ℕ → Purpose) (cs : List Call) (s : Runners) (l : Lock × List ℕ)
    → Implements s l
    → Implements (calls made cs s) (lock_calls made cs l)
unfolding calls lock_calls
calls-Implements made [] s l h = h
calls-Implements made (c ∷ rest) s (lock, queue) h =
    calls-Implements made rest (call made c s) (lock_call made c lock queue)
      (call-Implements made c s lock queue h)
