-- ===== src/Ownership/Operations.antt =====
-- The operations of `StoragePutOwnershipRepository`. Each is a transaction, or one statement.
use storix.Base.{
  ℕ, String, str_eq, Bool, true, false, ◌&&◌, not, Option, none, some, List, [], ◌∷◌, ◌==◌,
  if◌then◌else◌, Result, ok, err,
}
use storix.Ownership.Tables.{
  Execution, StorageKey, Attempt, Tables, is_some, is_stopped, has_execution, find_key, has_attempt,
  has_attempt_on, has_writer,
}

-- `being_reclaimed` is the error of `beginPut`, `duplicate_attempt` the primary key of the table.
pub data OwnershipError : Type 0 where
  being_reclaimed duplicate_attempt evidence_required : OwnershipError

pub data StoragePutGcClaimResult : Type 0 where
  unknown protected claimed : StoragePutGcClaimResult

unfoldable pub register_execution : (execution_id : ℕ) → Tables → Tables
unfolding has_execution
register_execution id db = if has_execution db.executions id then db else record db {
  executions =
      (record { id = id; stopped_confirmed_at = none; stopped_confirmation_evidence = none })
      ∷ db.executions;
}

unfoldable pub ensure_key : ℕ → List StorageKey → List StorageKey
unfolding find_key
ensure_key key rows =
    if is_some (find_key key rows)
    then rows
    else (record { key = key; gc_claim_id = none; gc_execution_id = none }) ∷ rows

-- `claim` is that of the key's row behind `ensureKey`.
unfoldable pub insert_attempt :
    (key execution_id attempt_id : ℕ) → (claim : Option ℕ) → Tables → Result OwnershipError Tables
unfolding has_attempt
insert_attempt key execution_id attempt_id (some claim) db = err being_reclaimed
insert_attempt key execution_id attempt_id none db =
    if has_attempt db.attempts attempt_id
    then err duplicate_attempt
    else ok (record db {
      attempts =
          (record {
            id = attempt_id;
            execution_id = execution_id;
            storage_key = key;
            settled = false;
          })
          ∷ db.attempts;
    })

unfoldable pub begin_put : (key execution_id attempt_id : ℕ) → Tables → Result OwnershipError Tables
unfolding ensure_key insert_attempt
begin_put key execution_id attempt_id db =
    let db' = record db { keys = ensure_key key db.keys } in
    elim (find_key key db'.keys) [
      | none ↦ err being_reclaimed
      | some row ↦ insert_attempt key execution_id attempt_id row.gc_claim_id db'
    ]

unfoldable pub settle_attempt : ℕ → List Attempt → List Attempt
settle_attempt id [] = []
settle_attempt id (a ∷ rest) =
    (if a.id == id then record a { settled = true } else a) ∷ settle_attempt id rest

unfoldable pub settle_put : (attempt_id : ℕ) → Tables → Tables
unfolding settle_attempt
settle_put id db = record db { attempts = settle_attempt id db.attempts }

-- COALESCE
abbrev pub or_else : Option ℕ → ℕ → Option ℕ
or_else none now = some now
or_else (some at) now = some at

unfoldable pub confirm_rows : (id now : ℕ) → (evidence : String) → List Execution → List Execution
confirm_rows id now evidence [] = []
confirm_rows id now evidence (e ∷ es) =
    (if e.id == id && not (is_some e.stopped_confirmation_evidence)
      then record e {
        stopped_confirmed_at = or_else e.stopped_confirmed_at now;
        stopped_confirmation_evidence = some evidence;
      }
      else e)
    ∷ confirm_rows id now evidence es

-- `evidence` is the trimmed text. The answer is whether the execution is stopped now.
unfoldable pub confirm_execution_stopped :
    (id now : ℕ) → (evidence : String) → Tables → Result OwnershipError (Bool × Tables)
unfolding confirm_rows is_stopped
confirm_execution_stopped id now evidence db =
    let executions = confirm_rows id now evidence db.executions in
    if str_eq evidence ""
    then err evidence_required
    else ok (is_stopped executions id, record db { executions = executions })

unfoldable pub set_claim :
    (key : ℕ) → (claim execution : Option ℕ) → List StorageKey → List StorageKey
set_claim key claim execution [] = []
set_claim key claim execution (row ∷ rows) =
    (if row.key == key
      then record row { gc_claim_id = claim; gc_execution_id = execution }
      else row)
    ∷ set_claim key claim execution rows

-- A claim that is there protects the key, until its execution is known to have stopped.
unfoldable pub is_held : List Execution → StorageKey → Bool
unfolding is_stopped
is_held executions row = elim row.gc_claim_id [
  | none ↦ false
  | some _ ↦ elim row.gc_execution_id [ none ↦ true | some id ↦ not (is_stopped executions id) ]
]

-- What follows on the read of the key's row.
unfoldable pub claim_row :
    (key claim_id execution_id : ℕ) → Option StorageKey → Tables → StoragePutGcClaimResult × Tables
unfolding is_held has_attempt_on has_writer set_claim
claim_row key claim_id execution_id none db = (unknown, db)
claim_row key claim_id execution_id (some row) db =
    if is_held db.executions row
    then (protected, db)
    else if not (has_attempt_on key db.attempts)
    then (unknown, db)
    else if has_writer db.executions key db.attempts
    then (protected, db)
    else (claimed, record db { keys = set_claim key (some claim_id) (some execution_id) db.keys })

unfoldable pub claim_for_gc :
    (key claim_id execution_id : ℕ) → Tables → StoragePutGcClaimResult × Tables
unfolding find_key claim_row
claim_for_gc key claim_id execution_id db =
    claim_row key claim_id execution_id (find_key key db.keys) db

abbrev pub is_claim : Option ℕ → ℕ → Bool
is_claim none id = false
is_claim (some claim) id = claim == id

-- The UPDATE with the key and the claim in its condition.
unfoldable pub clear_claim : (key claim_id : ℕ) → List StorageKey → List StorageKey
clear_claim key claim_id [] = []
clear_claim key claim_id (row ∷ rows) =
    (if row.key == key && is_claim row.gc_claim_id claim_id
      then record row { gc_claim_id = none; gc_execution_id = none }
      else row)
    ∷ clear_claim key claim_id rows

unfoldable pub release_gc_claim : (key claim_id : ℕ) → Tables → Tables
unfolding clear_claim
release_gc_claim key claim_id db = record db { keys = clear_claim key claim_id db.keys }
