-- ===== src/Sessions/Runs.antt =====
-- About every sequence of calls of the repository. A statement outside a transaction, such as those
-- of `recoverStaleFinalizingLeases` and `pruneTerminalSessions`, is a call of its own, with any list of
-- ids, since other calls may run between a SELECT and the statement that uses it.
use storix.Base.{ℕ, String, Bool, Option, none, some, List, Result, ok, err}
use storix.Upload.Policy.{PartState, UploadPolicyCaps}
use storix.Sessions.Tables.{cancelled, expired, Store, SessionError}
use storix.Sessions.Parts.{reserve_part, commit_part}
use storix.Sessions.Staging.{
  renew_part_lease, retire_expired_part_reservation, release_part_reservation,
  mark_tombstone_deleted, mark_staging_object_deleted,
}
use storix.Sessions.Lifecycle.{
  CreateUploadSessionInput, create_session, claim_terminal_transition, renew_finalize,
  fence_and_complete, fail_finalize, release_finalize, renew_session,
}
use storix.Sessions.Finalize.{
  claim_finalize, recover_stale_finalizing_leases, prune_session, delete_settled_sessions,
}
use storix.Sessions.Kept.Lifecycle.{IsNew}

-- One call; `cancels` and `expires` are the two uses of `claimTerminalTransition`.
pub data Call : Type 0 where
  creates : CreateUploadSessionInput → UploadPolicyCaps → Call
  reserves : (id index amount key : ℕ) → UploadPolicyCaps → (lease_seconds now : ℕ) → Call
  commits : (id index : ℕ) → String → Option String → (key inactivity : Option ℕ) → (now : ℕ) → Call
  renews_part : (id index key lease_seconds now : ℕ) → Call
  reclaims : (id index key now : ℕ) → Call
  releases_part : (id index : ℕ) → Bool → ℕ → Option ℕ → Call
  confirms_tombstone : ℕ → Option ℕ → ℕ → Call
  confirms_part : (id index key : ℕ) → PartState → ℕ → Call
  cancels expires : (ns id now : ℕ) → Call
  claims : (ns id token duration_ms now claim_now : ℕ) → Call
  renews_claim : (ns id token duration_ms now : ℕ) → Call
  finishes : (ns id token duration_ms now status : ℕ) → String → (then_now : ℕ) → Call
  fails : (ns id token : ℕ) → String → (now : ℕ) → Call
  releases_claim : (ns id token : ℕ) → String → (time : ℕ) → Call
  renews : (ns id inactivity_seconds now : ℕ) → Call
  recovers : List ℕ → ℕ → Call
  prunes : (before id : ℕ) → Call
  clears : ℕ → Call

-- The store after a transaction, which is the old one where it threw.
abbrev pub outcome :
    {A : Type 0} → Store → Result SessionError (A × Store) → Option SessionError × Store
outcome s (ok (a, s')) = (none, s')
outcome s (err e) = (some e, s)

-- The error that was thrown, if any, and the new store.
unfoldable pub exec : Call → Store → Option SessionError × Store
unfolding create_session reserve_part commit_part renew_part_lease retire_expired_part_reservation
    release_part_reservation mark_tombstone_deleted mark_staging_object_deleted
    claim_terminal_transition claim_finalize renew_finalize fence_and_complete fail_finalize
    release_finalize renew_session recover_stale_finalizing_leases prune_session
    delete_settled_sessions
exec (creates input caps) s = outcome s (create_session input caps s)
exec (reserves id index amount key caps lease_seconds now) s =
    outcome s (reserve_part id index amount key caps lease_seconds now s)
exec (commits id index digest iv key inactivity now) s =
    outcome s (commit_part id index digest iv key inactivity now s)
exec (renews_part id index key lease_seconds now) s =
    outcome s (renew_part_lease id index key lease_seconds now s)
exec (reclaims id index key now) s = outcome s (retire_expired_part_reservation id index key now s)
exec (releases_part id index object_may_exist now key) s =
    outcome s (release_part_reservation id index object_may_exist now key s)
exec (confirms_tombstone key observed now) s = outcome s (mark_tombstone_deleted key observed now s)
exec (confirms_part id index key expected_state now) s =
    outcome s (mark_staging_object_deleted id index key expected_state now s)
exec (cancels ns id now) s = outcome s (claim_terminal_transition ns id cancelled now s)
exec (expires ns id now) s = outcome s (claim_terminal_transition ns id expired now s)
exec (claims ns id token duration_ms now claim_now) s =
    outcome s (claim_finalize ns id token duration_ms now claim_now s)
exec (renews_claim ns id token duration_ms now) s =
    outcome s (renew_finalize ns id token duration_ms now s)
exec (finishes ns id token duration_ms now status body then_now) s =
    outcome s (fence_and_complete ns id token duration_ms now status body then_now s)
exec (fails ns id token body now) s = outcome s (fail_finalize ns id token body now s)
exec (releases_claim ns id token code time) s = outcome s (release_finalize ns id token code time s)
exec (renews ns id inactivity_seconds now) s =
    outcome s (renew_session ns id inactivity_seconds now s)
exec (recovers ids now) s = outcome s (recover_stale_finalizing_leases ids now s)
exec (prunes before id) s = outcome s (prune_session before id s)
exec (clears ns) s = outcome s (delete_settled_sessions ns s)

-- The id of a new session is not that of an old one which has tombstones.
abbrev pub IsFresh : Call → Store → Type 0
IsFresh (creates input caps) s = IsNew input.id s
IsFresh _ s = Unit

-- The stores that calls lead to.
pub data Run : Store → Store → Type 0 where
  done : (s : Store) → Run s s
  step : (call : Call) {s s' : Store} → IsFresh call s → Run (exec call s).1 s' → Run s s'
