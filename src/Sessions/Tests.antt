-- ===== src/Sessions/Tests.antt =====
-- A session of two parts in one namespace, from its creation to its end, on concrete tables.
mod Commits
use storix.Base.{
  ℕ, ◌<◌, ◌≤◌, Bool, true, false, Option, none, some, [], ◌∷◌, ◌≡◌, ◌≢◌, ◌↔◌, refl, subst, Result,
  ok, err, arith,
}
use storix.Base.Rows.{row_of, update_row}
use storix.Base.Int.{◌+ℤ◌}
use storix.Upload.Policy.{UploadPolicyCaps, stored, is_stored}
use storix.Sessions.Tables.{
  opened, finalizing, completed, Part, Session, Store, SessionError, counter_check, claim_lost,
  find_session, is_past, has_namespace, lock_usage, insert_tombstone, assert_namespace_active,
  is_lease_live,
}
use storix.Sessions.Books.{IsBalanced, IsAccounted}
use storix.Sessions.Parts.{
  ReserveUploadPartResult, reserved_part, reserve_part, commit_part, new_part, reserve_current,
  reserve_admitted,
}
use storix.Sessions.Lifecycle.{
  CreateUploadSessionInput, new_session, renew_finalize, fail_finalize, release_finalize,
  fence_and_complete, fence_finalize, complete_finalize,
}
use storix.Sessions.Finalize.{claim_finalize, has_digest, leased}
use storix.Sessions.Queries.{find_stored_part_with_expiry}
use storix.Sessions.Runs.{Call, creates, reserves, commits, claims, Run, done, step, exec}
use storix.Sessions.Usage.{
  new_store, Run-IsBalanced, exec-counter_check, Run-IsAccounted, new_store-IsAccounted,
}
use storix.Sessions.Reserving.{reserve_part-caps}
use storix.Sessions.Claiming.{claim_finalize-claimed}
use storix.Sessions.Runs.{reclaims, releases_part}
use storix.Sessions.Staging.{find_tombstone}
use storix.Sessions.Tables.{Tombstone}
use storix.Sessions.Cleanup.{
  cleanup_settled_reservation, cleanup_expired_reservation, cleanup_stored_part, cleanup_tombstone,
}
use storix.Sessions.Covering.{Covers}
use storix.Sessions.Refunding.{cleanup-Covers, cleanup_tombstone-settled}
use storix.Sessions.Runs.{finishes}
use storix.Sessions.Tables.{is_active, cancelled}
use storix.Sessions.Parts.{closed}
use storix.Sessions.Lifecycle.{claim_terminal_transition, renew_session}
use storix.Sessions.Finalize.{complete}
use storix.Sessions.Ending.{find_session-ended}
use storix.Sessions.Acknowledging.{commit_part-find_stored_part_with_expiry}

abbrev caps : UploadPolicyCaps
caps = record {
  global = record { max_staged_bytes = 100; max_active_sessions = 5 };
  namespace = record { max_staged_bytes = 50; max_active_sessions = 2 };
}

abbrev input : CreateUploadSessionInput
input = record {
  id = 10;
  namespace_id = 1;
  scope = "s";
  creation_key = 7;
  fingerprint = "f";
  size_bytes = 30;
  part_count = 2;
  expires_at = 1000;
  max_expires_at = 9000;
}

abbrev empty : Store
empty = new_store ((1, true) ∷ [])

abbrev create : Call
create = creates input caps

abbrev reserve_first : Call
reserve_first = reserves 10 0 20 100 caps 60 10

abbrev commit_first : Call
commit_first = commits 10 0 "d0" none (some 100) (some 5) 20

abbrev reserve_second : Call
reserve_second = reserves 10 1 10 101 caps 60 30

abbrev commit_second : Call
commit_second = commits 10 1 "d1" none (some 101) none 40

abbrev claim_call : Call
claim_call = claims 1 10 77 500 50 51

-- The tables after each call.
abbrev after_create : Store
after_create = (exec create empty).1

abbrev after_reserve : Store
after_reserve = (exec reserve_first after_create).1

abbrev after_commit : Store
after_commit = (exec commit_first after_reserve).1

abbrev pub after_parts : Store
after_parts = (exec commit_second (exec reserve_second after_commit).1).1

abbrev pub after_claim : Store
after_claim = (exec claim_call after_parts).1

run_of_parts : Run empty after_parts
unfolding exec lock_usage assert_namespace_active ◌+ℤ◌ reserve_current reserve_admitted update_row
run_of_parts = step create tt (
    step reserve_first tt
      (step commit_first tt (step reserve_second tt (step commit_second tt (done after_parts)))))

all_stored : (after_parts.usage (some 1)).staged_bytes ≡ 30
unfolding exec lock_usage assert_namespace_active ◌+ℤ◌ reserve_current reserve_admitted update_row
all_stored = refl

Run-IsBalanced_example : IsBalanced after_parts
Run-IsBalanced_example = Run-IsBalanced ((1, true) ∷ []) after_parts run_of_parts

exec-counter_check_example : ¬ ((exec claim_call after_parts).0 ≡ some counter_check)
exec-counter_check_example =
    exec-counter_check ((1, true) ∷ []) after_parts claim_call run_of_parts tt

abbrev pub first_part : Part
first_part = record {
  part_index = 0;
  size_bytes = 20;
  staging_key = 100;
  digest = some "d0";
  encryption_iv = none;
  state = stored;
  object_deleted_at = none;
  lease_expires_at = some 60010;
}

abbrev pub second_part : Part
second_part = record {
  part_index = 1;
  size_bytes = 10;
  staging_key = 101;
  digest = some "d1";
  encryption_iv = none;
  state = stored;
  object_deleted_at = none;
  lease_expires_at = some 60030;
}

-- The row once both parts are stored.
abbrev pub full : Session
full = record (new_session input) { expires_at = 5020; parts = second_part ∷ first_part ∷ [] }

abbrev is_reservation : Result SessionError (ReserveUploadPartResult × Store) → Bool
is_reservation (ok (reserved_part p, s)) = true
is_reservation _ = false

abbrev store_of : {A : Type 0} → Result SessionError (A × Store) → Store
store_of (ok (_, s)) = s
store_of (err e) = empty

full_row : find_session 10 after_parts ≡ some full
unfolding exec find_session lock_usage assert_namespace_active ◌+ℤ◌ reserve_current reserve_admitted
    update_row
full_row = refl

reserve_part-caps_example : (20 ≤ 100) × (20 ≤ 50) × (0 < 2) × (30 ≤ 100) × (30 ≤ 50)
unfolding exec reserve_part find_session lock_usage assert_namespace_active ◌+ℤ◌ reserve_current
    reserve_admitted update_row
reserve_part-caps_example =
    reserve_part-caps 10 0 20 100 caps 60 10 (new_session input) after_create after_reserve
      (new_part 0 20 100 60010) refl refl

commit_part-find_stored_part_with_expiry_example :
    (p : Part) × (find_stored_part_with_expiry 10 0 100 after_commit ≡ some (p, 5020))
    × (p.state ≡ stored)
    × (p.digest ≡ some "d0")
    × (p.encryption_iv ≡ none)
unfolding exec commit_part lock_usage assert_namespace_active ◌+ℤ◌ reserve_current reserve_admitted
    update_row
commit_part-find_stored_part_with_expiry_example =
    commit_part-find_stored_part_with_expiry 10 0 "d0" none 100 (some 5) 20 5020 after_reserve
      after_commit refl

pub parts-IsAccounted : IsAccounted after_parts
parts-IsAccounted = Run-IsAccounted run_of_parts (new_store-IsAccounted ((1, true) ∷ []))

claim_finalize-claimed_example :
    (find_session 10 after_parts ≡ some full)
    × (full.namespace_id ≡ 1)
    × (full.state ≡ opened)
    × (is_past full 51 ≡ false)
    × ((index : ℕ)
        → index < 2
        → (p : Part) × (row_of Part.part_index index full.parts ≡ some p)
          × (is_stored p.state ≡ true)
          × (has_digest p.digest ≡ true))
    × (find_session 10 after_claim ≡ some (leased 77 551 full))
unfolding exec claim_finalize lock_usage assert_namespace_active ◌+ℤ◌ reserve_current
    reserve_admitted update_row
claim_finalize-claimed_example =
    claim_finalize-claimed 1 10 77 500 50 51 77 full (first_part ∷ second_part ∷ []) after_parts
      after_claim parts-IsAccounted refl

cleanup-Covers_example :
    Covers after_reserve (cleanup_settled_reservation 10 0 100 70000 false (λ s. s) after_reserve).1
    × Covers after_reserve (cleanup_stored_part 10 0 100 70000 false (λ s. s) after_reserve).1
    × Covers after_reserve (cleanup_tombstone 100 70000 false (λ s. s) after_reserve).1
    × Covers after_reserve
        (cleanup_expired_reservation 10 0 100 70000 true (λ n. false) (λ s. s) after_reserve).1
cleanup-Covers_example =
    cleanup-Covers 10 0 100 70000 true (λ n. false) (λ s. s) after_reserve (λ s' key. omega arith)

-- The reservation runs out and is reclaimed; then its PUT settles, with an object.
abbrev after_retire : Store
after_retire = (exec (reclaims 10 0 100 70000) after_reserve).1

abbrev after_settle : Store
after_settle = (exec (releases_part 10 0 true 70010 (some 100)) after_retire).1

abbrev after_refund : Store
after_refund = (cleanup_tombstone 100 70020 true (λ s. s) after_settle).1

cleanup_tombstone-settled_example :
    (true ≡ true)
    × ((time : ℕ) × ((t : Tombstone) × (find_tombstone 100 after_settle ≡ some t)
          × (t.put_settled_at ≡ some time))
        × ((t : Tombstone) × (find_tombstone 100 after_settle ≡ some t)
            × (t.put_settled_at ≡ some time)))
unfolding exec cleanup_tombstone lock_usage assert_namespace_active ◌+ℤ◌ reserve_current
    reserve_admitted update_row insert_tombstone
cleanup_tombstone-settled_example =
    cleanup_tombstone-settled 100 70020 true (λ s. s) after_settle (some 1) (λ k. omega arith)
      (omega arith)

abbrev after_finish : Store
after_finish = (exec (finishes 1 10 77 500 60 201 "done" 61) after_claim).1

abbrev ended_row : Session
ended_row = record full { state = completed; terminal_at = some 61; response = some (201, "done") }

find_session-ended_example :
    (reserve_part 10 0 5 200 caps 60 100 after_finish ≡ ok (closed, after_finish))
    × (commit_part 10 0 "d" none none none 100 after_finish ≡ ok (none, after_finish))
    × (claim_terminal_transition 1 10 cancelled 100 after_finish ≡ ok (false, after_finish))
    × (renew_session 1 10 200 100 after_finish ≡ ok (none, after_finish))
    × (renew_finalize 1 10 77 60000 100 after_finish ≡ ok (false, after_finish))
    × (fail_finalize 1 10 77 "late" 100 after_finish ≡ ok (false, after_finish))
    × (release_finalize 1 10 77 "late" 100 after_finish ≡ ok (false, after_finish))
    × (fence_finalize 1 10 77 60000 100 after_finish ≡ err claim_lost)
    × (complete_finalize 1 10 77 500 "late" 100 after_finish ≡ err claim_lost)
    × (claim_finalize 1 10 77 60000 100 101 after_finish ≡ ok (complete ended_row, after_finish))
unfolding exec find_session has_namespace is_active claim_finalize fence_and_complete fence_finalize
    complete_finalize lock_usage insert_tombstone assert_namespace_active ◌+ℤ◌ reserve_current
    reserve_admitted update_row
find_session-ended_example =
    find_session-ended 10 0 5 200 caps 60 100 "d" "late" none none none cancelled 77 200 60000 101
      500 ended_row after_finish refl refl refl refl refl
