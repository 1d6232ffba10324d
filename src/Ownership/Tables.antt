-- ===== src/Ownership/Tables.antt =====
-- The three tables of apps/api/src/persistence/storage-put-ownership.repository.ts. Keys and ids are
-- only compared, and are numbers. The times of creation, of settling and of the claim are never
-- read and are left out.
use storix.Base.{
  ℕ, String, Bool, true, false, ◌&&◌, ◌||◌, not, Option, none, some, List, [], ◌∷◌, ◌==◌,
  if◌then◌else◌,
}

pub record Execution : Type 0 where
  pub id : ℕ
  pub stopped_confirmed_at : Option ℕ
  pub stopped_confirmation_evidence : Option String

pub record StorageKey : Type 0 where
  pub key : ℕ
  pub gc_claim_id : Option ℕ
  pub gc_execution_id : Option ℕ

-- `settled` is the state: SETTLED or ACTIVE.
pub record Attempt : Type 0 where
  pub id : ℕ
  pub execution_id : ℕ
  pub storage_key : ℕ
  pub settled : Bool

pub record Tables : Type 0 where
  pub executions : List Execution
  pub keys : List StorageKey
  pub attempts : List Attempt

abbrev pub is_some {ℓ} : {A : Type ℓ} → Option A → Bool
is_some none = false
is_some (some _) = true

-- The confirmation of the execution is there: a missing row joins as NULL.
unfoldable pub is_stopped : List Execution → ℕ → Bool
is_stopped [] id = false
is_stopped (e ∷ es) id = if e.id == id then is_some e.stopped_confirmed_at else is_stopped es id

unfoldable pub has_execution : List Execution → ℕ → Bool
has_execution [] id = false
has_execution (e ∷ es) id = e.id == id || has_execution es id

unfoldable pub find_key : ℕ → List StorageKey → Option StorageKey
find_key key [] = none
find_key key (row ∷ rows) = if row.key == key then some row else find_key key rows

abbrev pub is_claimed_row : Option StorageKey → Bool
is_claimed_row none = false
is_claimed_row (some row) = is_some row.gc_claim_id

unfoldable pub is_claimed : ℕ → List StorageKey → Bool
unfolding find_key
is_claimed key rows = is_claimed_row (find_key key rows)

unfoldable pub has_attempt : List Attempt → ℕ → Bool
has_attempt [] id = false
has_attempt (a ∷ rest) id = a.id == id || has_attempt rest id

unfoldable pub has_attempt_on : ℕ → List Attempt → Bool
has_attempt_on key [] = false
has_attempt_on key (a ∷ rest) = a.storage_key == key || has_attempt_on key rest

-- Some attempt on the key is neither settled nor of a stopped execution.
unfoldable pub has_writer : List Execution → ℕ → List Attempt → Bool
unfolding is_stopped
has_writer executions key [] = false
has_writer executions key (a ∷ rest) =
    a.storage_key == key && (not a.settled && not (is_stopped executions a.execution_id))
    || has_writer executions key rest
