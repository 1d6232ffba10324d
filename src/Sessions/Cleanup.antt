-- ===== src/Sessions/Cleanup.antt =====
-- apps/api/src/vfs/upload-staging-cleanup.ts, whole: the deletion of a staging object around the
-- statements of the repository. Whether `storage.delete` succeeds is an argument, and so is what other
-- calls do to the tables while it runs (`meanwhile`). Each call of the repository is a transaction of its
-- own, so an error leaves what was done before it.
use storix.Base.{ℕ, Bool, not, Option, none, some, if◌then◌else◌, Result, ok, err}
use storix.Upload.Policy.{PartState}
use storix.Sessions.Tables.{Store, SessionError}
use storix.Sessions.Staging.{
  Accounting, retire_expired_part_reservation, release_part_reservation, mark_tombstone_deleted,
  mark_staging_object_deleted,
}
use storix.Sessions.Queries.{find_cleanup_part, find_cleanup_tombstone}

pub data SkipReason : Type 0 where
  reservation_not_retired target_not_found : SkipReason

-- `threw` and `aborted` are the exceptions of the repository and of the signal.
pub data CleanupResult : Type 0 where
  deleted_object : (accounting_recorded : Bool) → (refunded_bytes : ℕ) → CleanupResult
  delete_failed : CleanupResult
  skipped : SkipReason → CleanupResult
  threw : SessionError → CleanupResult
  aborted : CleanupResult

abbrev pub recorded : Accounting → CleanupResult
recorded accounting = deleted_object accounting.applied accounting.refunded_bytes

-- One call of the repository, and what follows it.
abbrev pub after_call :
    {A : Type 0}
    → Store
    → (A → Store → CleanupResult × Store)
    → Result SessionError (A × Store)
    → CleanupResult × Store
after_call s k (err e) = (threw e, s)
after_call s k (ok (a, s')) = k a s'

unfoldable pub cleanup_settled_reservation :
    (id index key now : ℕ)
    → (deletes : Bool) → (meanwhile : Store → Store) → Store
    → CleanupResult × Store
unfolding release_part_reservation
cleanup_settled_reservation id index key now deletes meanwhile s =
    after_call (meanwhile s)
      (λ accounting s'. (if deletes then recorded accounting else delete_failed, s'))
      (release_part_reservation id index (not deletes) now (some key) (meanwhile s))

-- `aborts n` is whether the signal is aborted at the n-th look at it.
unfoldable pub cleanup_expired_reservation :
    (id index key now : ℕ)
    → (deletes : Bool) → (aborts : ℕ → Bool) → (meanwhile : Store → Store) → Store
    → CleanupResult × Store
unfolding retire_expired_part_reservation mark_tombstone_deleted
cleanup_expired_reservation id index key now deletes aborts meanwhile s =
    if aborts 0
    then (aborted, s)
    else after_call s
        (λ retired s'.
          if aborts 1
          then (aborted, s')
          else if not retired
          then (skipped reservation_not_retired, s')
          else if aborts 2
          then (aborted, meanwhile s')
          else if not deletes
          then (delete_failed, meanwhile s')
          else after_call (meanwhile s')
              (λ accounting s''. (if aborts 3 then aborted else recorded accounting, s''))
              (mark_tombstone_deleted key none now (meanwhile s')))
        (retire_expired_part_reservation id index key now s)

abbrev pub stored_observed :
    (id index key now : ℕ)
    → (deletes : Bool) → (s later : Store) → Option PartState
    → CleanupResult × Store
stored_observed id index key now deletes s later none = (skipped target_not_found, s)
stored_observed id index key now deletes s later (some state) =
    if not deletes
    then (delete_failed, later)
    else after_call later (λ accounting s'. (recorded accounting, s'))
        (mark_staging_object_deleted id index key state now later)

unfoldable pub cleanup_stored_part :
    (id index key now : ℕ)
    → (deletes : Bool) → (meanwhile : Store → Store) → Store
    → CleanupResult × Store
unfolding find_cleanup_part mark_staging_object_deleted
cleanup_stored_part id index key now deletes meanwhile s =
    stored_observed id index key now deletes s (meanwhile s) (find_cleanup_part id index key s)

-- `observed` is the time at which the PUT settled, read before the DELETE.
abbrev pub tombstone_observed :
    (key now : ℕ) → (deletes : Bool) → (s later : Store) → Option (Option ℕ) → CleanupResult × Store
tombstone_observed key now deletes s later none = (skipped target_not_found, s)
tombstone_observed key now deletes s later (some observed) =
    if not deletes
    then (delete_failed, later)
    else after_call later (λ accounting s'. (recorded accounting, s'))
        (mark_tombstone_deleted key observed now later)

unfoldable pub cleanup_tombstone :
    (key now : ℕ) → (deletes : Bool) → (meanwhile : Store → Store) → Store → CleanupResult × Store
unfolding find_cleanup_tombstone mark_tombstone_deleted
cleanup_tombstone key now deletes meanwhile s =
    tombstone_observed key now deletes s (meanwhile s) (find_cleanup_tombstone key s)
