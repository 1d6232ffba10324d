-- ===== src/Ownership/Tests.antt =====
-- Runs of the ownership records, and the theorems at concrete tables.
use storix.Base.{◌≡◌, ◌↔◌, refl, true, false, none, some, List, [], ◌∷◌, err}
use storix.Base.Rows.{row_of, AllRows, AnyRow}
use storix.Ownership.Tables.{StorageKey, Tables, has_writer}
use storix.Ownership.Operations.{claimed, being_reclaimed, begin_put, claim_for_gc}
use storix.Ownership.Claims.{
  Operation, registers, settles, begins, confirms, claims, run, IsExclusive, run-IsExclusive,
}
use storix.Ownership.Reclaiming.{IsUnheld, IsIdle, claim_for_gc_iff, begin_put-claim_for_gc}

abbrev no_rows : Tables
no_rows = record { executions = []; keys = []; attempts = [] }

-- Two executions upload to one key; one attempt is settled and the other is of a stopped execution.
abbrev operations : List Operation
operations =
    registers 1
    ∷ registers 2
    ∷ begins 7 1 10
    ∷ begins 7 2 11
    ∷ settles 10
    ∷ claims 7 20 1
    ∷ confirms 2 99 "host is gone"
    ∷ []

abbrev idle : Tables
idle = record {
  executions =
      (record {
        id = 2;
        stopped_confirmed_at = some 99;
        stopped_confirmation_evidence = some "host is gone";
      })
      ∷ (record { id = 1; stopped_confirmed_at = none; stopped_confirmation_evidence = none })
      ∷ [];
  keys = (record { key = 7; gc_claim_id = none; gc_execution_id = none }) ∷ [];
  attempts =
      (record { id = 11; execution_id = 2; storage_key = 7; settled = false })
      ∷ (record { id = 10; execution_id = 1; storage_key = 7; settled = true })
      ∷ [];
}

run-operations : run operations no_rows ≡ idle
unfolding run
run-operations = refl

claim_idle : (claim_for_gc 7 21 1 idle).0 ≡ claimed
unfolding claim_for_gc
claim_idle = refl

run-IsExclusive_example : IsExclusive (run operations no_rows)
unfolding has_writer
run-IsExclusive_example = run-IsExclusive operations no_rows (λ key c. refl)

claim_for_gc_iff_example : (claim_for_gc 7 21 1 idle).0 ≡ claimed ↔ (
    (row : StorageKey) × (row_of StorageKey.key 7 idle.keys ≡ some row)
    × IsUnheld idle.executions row
    × AnyRow (λ a. a.storage_key ≡ 7) idle.attempts
    × AllRows (IsIdle idle.executions 7) idle.attempts)
claim_for_gc_iff_example = claim_for_gc_iff 7 21 1 idle

begin_put-claim_for_gc_example : begin_put 7 3 12 (claim_for_gc 7 21 1 idle).1 ≡ err being_reclaimed
begin_put-claim_for_gc_example = begin_put-claim_for_gc 7 21 1 3 12 idle claim_idle
