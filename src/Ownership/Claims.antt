-- ===== src/Ownership/Claims.antt =====
-- About the claims of the cleanup under every sequence of the repository's operations.
use storix.Base.{
  ℕ, String, str_eq, ◌≡◌, refl, sym, ◌∙◌, ==→eq, subst, inl, inr, Bool, true, false, Option, none,
  some, List, [], ◌∷◌, ◌==◌, Result, ok, err, Bool-cases, arith,
}
use storix.Ownership.Tables.{
  Execution, StorageKey, Attempt, Tables, is_some, is_stopped, has_execution, find_key, is_claimed,
  has_attempt, has_attempt_on, has_writer,
}
use storix.Ownership.Operations.{
  OwnershipError, being_reclaimed, register_execution, ensure_key, insert_attempt, begin_put,
  settle_attempt, settle_put, confirm_rows, confirm_execution_stopped, set_claim, is_held,
  claim_row, claim_for_gc, clear_claim, release_gc_claim,
}

-- One call of the repository; one that throws leaves the tables.
pub data Operation : Type 0 where
  registers settles : ℕ → Operation
  begins : (key execution_id attempt_id : ℕ) → Operation
  confirms : (execution_id now : ℕ) → (evidence : String) → Operation
  claims : (key claim_id execution_id : ℕ) → Operation
  releases : (key claim_id : ℕ) → Operation

abbrev or_same : Tables → Result OwnershipError Tables → Tables
or_same db (err e) = db
or_same db (ok db') = db'

abbrev or_same_confirmed : Tables → Result OwnershipError (Bool × Tables) → Tables
or_same_confirmed db (err e) = db
or_same_confirmed db (ok (stopped, db')) = db'

unfoldable pub exec : Operation → Tables → Tables
unfolding register_execution settle_put begin_put confirm_execution_stopped claim_for_gc
    release_gc_claim
exec (registers id) db = register_execution id db
exec (settles id) db = settle_put id db
exec (begins key execution_id attempt_id) db = or_same db (begin_put key execution_id attempt_id db)
exec (confirms id now evidence) db =
    or_same_confirmed db (confirm_execution_stopped id now evidence db)
exec (claims key claim_id execution_id) db = (claim_for_gc key claim_id execution_id db).1
exec (releases key claim_id) db = release_gc_claim key claim_id db

unfoldable pub run : List Operation → Tables → Tables
unfolding exec
run [] db = db
run (operation ∷ rest) db = run rest (exec operation db)

-- A key that the cleanup has claimed has no writer.
abbrev pub IsExclusive : Tables → Type 0
IsExclusive db =
    (key : ℕ) → is_claimed key db.keys ≡ true → has_writer db.executions key db.attempts ≡ false

has_writer-more_stopped :
    (es es' : List Execution) (key : ℕ) (attempts : List Attempt)
    → ((id : ℕ) → is_stopped es id ≡ true → is_stopped es' id ≡ true)
    → has_writer es key attempts ≡ false
    → has_writer es' key attempts ≡ false
unfolding has_writer
has_writer-more_stopped es es' key [] more h = refl
has_writer-more_stopped es es' key (a ∷ rest) more h =
    elim (Bool-cases (is_stopped es a.execution_id)) [
      | inl stopped ↦
          ground (arith, more a.execution_id stopped, has_writer-more_stopped es es' key rest more)
      | inr running ↦ ground (arith, has_writer-more_stopped es es' key rest more)
    ]

is_stopped-absent :
    (es : List Execution) (id : ℕ) → has_execution es id ≡ false → is_stopped es id ≡ false
unfolding is_stopped has_execution
is_stopped-absent [] id h = refl
is_stopped-absent (e ∷ es) id h = ground (arith, is_stopped-absent es id)

is_stopped-confirm_rows :
    (id now : ℕ) (evidence : String) (es : List Execution) (i : ℕ)
    → is_stopped es i ≡ true
    → is_stopped (confirm_rows id now evidence es) i ≡ true
unfolding is_stopped confirm_rows
is_stopped-confirm_rows id now evidence [] i h = h
is_stopped-confirm_rows id now evidence (e ∷ es) i h =
    ground (arith, is_stopped-confirm_rows id now evidence es i)

has_writer-settle_attempt :
    (es : List Execution) (key id : ℕ) (attempts : List Attempt)
    → has_writer es key attempts ≡ false
    → has_writer es key (settle_attempt id attempts) ≡ false
unfolding has_writer settle_attempt
has_writer-settle_attempt es key id [] h = refl
has_writer-settle_attempt es key id (a ∷ rest) h =
    ground (arith, has_writer-settle_attempt es key id rest)

is_claimed-ensure_key :
    (key k : ℕ) (rows : List StorageKey)
    → is_claimed k (ensure_key key rows) ≡ true
    → is_claimed k rows ≡ true
unfolding is_claimed ensure_key
is_claimed-ensure_key key k rows h = ground arith

is_claimed-set_claim :
    (key k claim execution : ℕ) (rows : List StorageKey)
    → ¬ (k ≡ key)
    → is_claimed k (set_claim key (some claim) (some execution) rows) ≡ is_claimed k rows
unfolding is_claimed set_claim
is_claimed-set_claim key k claim execution [] ne = refl
is_claimed-set_claim key k claim execution (row ∷ rows) ne =
    ground (arith, is_claimed-set_claim key k claim execution rows ne)

is_claimed-clear_claim :
    (key claim k : ℕ) (rows : List StorageKey)
    → is_claimed k (clear_claim key claim rows) ≡ true
    → is_claimed k rows ≡ true
unfolding is_claimed clear_claim
is_claimed-clear_claim key claim k [] h = h
is_claimed-clear_claim key claim k (row ∷ rows) h =
    ground (arith, is_claimed-clear_claim key claim k rows)

register_execution-IsExclusive :
    (id : ℕ) (db : Tables) → IsExclusive db → IsExclusive (register_execution id db)
unfolding register_execution is_stopped
register_execution-IsExclusive id db h key c = elim (Bool-cases (has_execution db.executions id)) [
  | inl old ↦ rw old (h key (rw old at c))
  | inr new ↦ rw new (
      has_writer-more_stopped db.executions _ key db.attempts
        (λ i e. ground (arith, is_stopped-absent db.executions id new)) (h key (rw new at c)))
]

insert_attempt-IsExclusive :
    (key execution attempt : ℕ) (claim : Option ℕ) (before db : Tables)
    → IsExclusive before
    → IsExclusive db
    → (is_claimed key db.keys ≡ true → is_some claim ≡ true)
    → IsExclusive (or_same before (insert_attempt key execution attempt claim db))
unfolding insert_attempt has_writer
insert_attempt-IsExclusive key execution attempt (some claim) before db h₀ h free k c = h₀ k c
insert_attempt-IsExclusive key execution attempt none before db h₀ h free k c =
    elim (Bool-cases (has_attempt db.attempts attempt)) [
      | inl old ↦ rw old (h₀ k (rw old at c))
      | inr new ↦
          let c' : is_claimed k db.keys ≡ true = rw new at c in
          rw new (ground (arith, h k c', free))
    ]

row_claimed :
    (key : ℕ) (rows : List StorageKey) (row : StorageKey)
    → find_key key rows ≡ some row
    → is_claimed key rows ≡ true
    → is_some row.gc_claim_id ≡ true
unfolding is_claimed
row_claimed key rows row e c = rw e at c

begin_put-IsExclusive :
    (key execution attempt : ℕ) (db : Tables)
    → IsExclusive db
    → IsExclusive (or_same db (begin_put key execution attempt db))
unfolding begin_put
begin_put-IsExclusive key execution attempt db h =
    let db' = record db { keys = ensure_key key db.keys } in at (find_key key db'.keys) refl
  where
    ensured : IsExclusive (record db { keys = ensure_key key db.keys })
    ensured k c = h k (is_claimed-ensure_key key k db.keys c)

    at :
        (row : Option StorageKey)
        → find_key key (ensure_key key db.keys) ≡ row
        → IsExclusive (
            or_same db (elim row [
              | none ↦ err being_reclaimed
              | some r ↦
                  insert_attempt key execution attempt r.gc_claim_id
                    (record db { keys = ensure_key key db.keys })
            ]))
    at none e = h
    at (some r) e =
        insert_attempt-IsExclusive key execution attempt r.gc_claim_id db
          (record db { keys = ensure_key key db.keys }) h ensured
          (row_claimed key (ensure_key key db.keys) r e)

confirm-IsExclusive :
    (id now : ℕ) (evidence : String) (db : Tables)
    → IsExclusive db
    → IsExclusive (or_same_confirmed db (confirm_execution_stopped id now evidence db))
unfolding confirm_execution_stopped
confirm-IsExclusive id now evidence db h key c = elim (Bool-cases (str_eq evidence "")) [
  | inl empty ↦ rw empty (h key (rw empty at c))
  | inr given ↦ rw given (
      has_writer-more_stopped db.executions _ key db.attempts
        (is_stopped-confirm_rows id now evidence db.executions) (h key (rw given at c)))
]

claim_row-IsExclusive :
    (key claim execution : ℕ) (found : Option StorageKey) (db : Tables)
    → IsExclusive db
    → IsExclusive (claim_row key claim execution found db).1
unfolding claim_row
claim_row-IsExclusive key claim execution none db h = h
claim_row-IsExclusive key claim execution (some row) db h =
    elim (Bool-cases (is_held db.executions row)) [
      | inl held ↦ subst (λ t. IsExclusive t) (ground arith) h
      | inr free ↦ elim (Bool-cases (has_attempt_on key db.attempts)) [
        | inr nothing ↦ subst (λ t. IsExclusive t) (ground arith) h
        | inl some' ↦ elim (Bool-cases (has_writer db.executions key db.attempts)) [
          | inl writer ↦ subst (λ t. IsExclusive t) (ground arith) h
          | inr idle ↦ subst (λ t. IsExclusive t) (ground arith) (taken idle)
        ]
      ]
    ]
  where
    taken :
        has_writer db.executions key db.attempts ≡ false
        → IsExclusive (record db { keys = set_claim key (some claim) (some execution) db.keys })
    taken idle k c = elim (Bool-cases (k == key)) [
      | inl same ↦
          subst (λ x. has_writer db.executions x db.attempts ≡ false) (sym (==→eq k key same)) idle
      | inr other ↦
          h k (sym (is_claimed-set_claim key k claim execution db.keys (λ q. ground arith)) ∙ c)
    ]

exec-IsExclusive :
    (operation : Operation) (db : Tables) → IsExclusive db → IsExclusive (exec operation db)
unfolding exec settle_put release_gc_claim claim_for_gc
exec-IsExclusive (registers id) db h = register_execution-IsExclusive id db h
exec-IsExclusive (settles id) db h =
    λ key c. has_writer-settle_attempt db.executions key id db.attempts (h key c)
exec-IsExclusive (begins key execution_id attempt_id) db h =
    begin_put-IsExclusive key execution_id attempt_id db h
exec-IsExclusive (confirms id now evidence) db h = confirm-IsExclusive id now evidence db h
exec-IsExclusive (claims key claim_id execution_id) db h =
    claim_row-IsExclusive key claim_id execution_id (find_key key db.keys) db h
exec-IsExclusive (releases key claim_id) db h =
    λ k c. h k (is_claimed-clear_claim key claim_id k db.keys c)

-- Under every sequence of operations a key that the cleanup has claimed has no writer: each attempt
-- on it is settled or its execution is confirmed to have stopped, where this was so at the start.
pub run-IsExclusive :
    (operations : List Operation) (db : Tables) → IsExclusive db → IsExclusive (run operations db)
unfolding run
run-IsExclusive [] db h = h
run-IsExclusive (operation ∷ rest) db h =
    run-IsExclusive rest (exec operation db) (exec-IsExclusive operation db h)
