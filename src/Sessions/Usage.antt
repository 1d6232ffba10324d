-- ===== src/Sessions/Usage.antt =====
-- About the usage counters under every sequence of calls.
use storix.Base.{ℕ, Bool, Option, none, some, List, [], ◌≡◌, refl, Result, ok, err, subst}
use storix.Sessions.Tables.{
  cancelled, expired, Store, SessionError, counter_check, active_sessions, staged_bytes,
}
use storix.Sessions.Books.{IsBalanced, IsAccounted, IsRefused, Keeps}
use storix.Sessions.Finalize.{recover_stale_finalizing_leases}
use storix.Sessions.Runs.{
  Call, creates, reserves, commits, renews_part, reclaims, releases_part, confirms_tombstone,
  confirms_part, cancels, expires, claims, renews_claim, finishes, fails, releases_claim, renews,
  recovers, prunes, clears, outcome, exec, IsFresh, Run, done, step,
}
use storix.Sessions.Kept.Commit.{commit_part-Keeps}
use storix.Sessions.Kept.Reserve.{reserve_part-Keeps}
use storix.Sessions.Kept.Staging.{renew_part_lease-Keeps, retire_expired_part_reservation-Keeps}
use storix.Sessions.Kept.Refunds.{
  release_part_reservation-Keeps, mark_tombstone_deleted-Keeps, mark_staging_object_deleted-Keeps,
}
use storix.Sessions.Kept.Lifecycle.{
  create_session-Keeps, claim_terminal_transition-Keeps, renew_finalize-Keeps,
  fence_and_complete-Keeps, fail_finalize-Keeps, release_finalize-Keeps, renew_session-Keeps,
}
use storix.Sessions.Kept.Finalize.{
  claim_finalize-Keeps, recover_stale_finalizing_leases-Keeps, prune_session-Keeps,
  delete_settled_sessions-Keeps,
}

-- Accounts that are kept, and a CHECK that is not violated.
abbrev IsSound : Option SessionError × Store → Type 0
IsSound (none, s) = IsAccounted s
IsSound (some e, s) = IsRefused e × IsAccounted s

outcome-IsSound :
    {A : Type 0} (s : Store) (r : Result SessionError (A × Store))
    → IsAccounted s
    → Keeps r
    → IsSound (outcome s r)
outcome-IsSound s (ok (a, s')) h k = k
outcome-IsSound s (err e) h k = (k, h)

exec-IsSound : (call : Call) (s : Store) → IsFresh call s → IsAccounted s → IsSound (exec call s)
unfolding exec
exec-IsSound (creates input caps) s f h =
    outcome-IsSound s _ h (create_session-Keeps input caps s f h)
exec-IsSound (reserves id index amount key caps lease_seconds now) s f h =
    outcome-IsSound s _ h (reserve_part-Keeps id index amount key caps lease_seconds now s h)
exec-IsSound (commits id index digest iv key inactivity now) s f h =
    outcome-IsSound s _ h (commit_part-Keeps id index key inactivity now digest iv s h)
exec-IsSound (renews_part id index key lease_seconds now) s f h =
    outcome-IsSound s _ h (renew_part_lease-Keeps id index key lease_seconds now s h)
exec-IsSound (reclaims id index key now) s f h =
    outcome-IsSound s _ h (retire_expired_part_reservation-Keeps id index key now s h)
exec-IsSound (releases_part id index may now key) s f h =
    outcome-IsSound s _ h (release_part_reservation-Keeps id index may now key s h)
exec-IsSound (confirms_tombstone key observed now) s f h =
    outcome-IsSound s _ h (mark_tombstone_deleted-Keeps key observed now s h)
exec-IsSound (confirms_part id index key expected_state now) s f h =
    outcome-IsSound s _ h (mark_staging_object_deleted-Keeps id index key expected_state now s h)
exec-IsSound (cancels ns id now) s f h =
    outcome-IsSound s _ h (claim_terminal_transition-Keeps ns id s h cancelled now refl)
exec-IsSound (expires ns id now) s f h =
    outcome-IsSound s _ h (claim_terminal_transition-Keeps ns id s h expired now refl)
exec-IsSound (claims ns id token duration_ms now claim_now) s f h =
    outcome-IsSound s _ h (claim_finalize-Keeps ns id token duration_ms now claim_now s h)
exec-IsSound (renews_claim ns id token duration_ms now) s f h =
    outcome-IsSound s _ h (renew_finalize-Keeps ns id s h token duration_ms now)
exec-IsSound (finishes ns id token duration_ms now status body then_now) s f h =
    outcome-IsSound s _ h
      (fence_and_complete-Keeps ns id s token duration_ms now status body then_now h)
exec-IsSound (fails ns id token body now) s f h =
    outcome-IsSound s _ h (fail_finalize-Keeps ns id s h token body now)
exec-IsSound (releases_claim ns id token code time) s f h =
    outcome-IsSound s _ h (release_finalize-Keeps ns id s h token code time)
exec-IsSound (renews ns id inactivity_seconds now) s f h =
    outcome-IsSound s _ h (renew_session-Keeps ns id s h inactivity_seconds now)
exec-IsSound (recovers ids now) s f h =
    outcome-IsSound s (recover_stale_finalizing_leases ids now s) h
      (recover_stale_finalizing_leases-Keeps ids now s h)
exec-IsSound (prunes before id) s f h = outcome-IsSound s _ h (prune_session-Keeps before id s h)
exec-IsSound (clears ns) s f h = outcome-IsSound s _ h (delete_settled_sessions-Keeps ns s h)

IsSound-IsAccounted : (r : Option SessionError × Store) → IsSound r → IsAccounted r.1
IsSound-IsAccounted (none, s) h = h
IsSound-IsAccounted (some e, s) h = h.1

IsSound-checked : (r : Option SessionError × Store) → IsSound r → ¬ (r.0 ≡ some counter_check)
IsSound-checked (none, s) h e = cc
IsSound-checked (some e', s) h e = subst (λ o. refused o) e h.0
  where
    refused : Option SessionError → Type 0
    refused none = Unit
    refused (some e) = IsRefused e

pub Run-IsAccounted : {s s' : Store} → Run s s' → IsAccounted s → IsAccounted s'
Run-IsAccounted (done s) h = h
Run-IsAccounted (step call {s} {s'} f run) h =
    Run-IsAccounted run (IsSound-IsAccounted (exec call s) (exec-IsSound call s f h))

-- The tables of a new database.
abbrev pub new_store : List (ℕ × Bool) → Store
new_store namespaces = record {
  sessions = [];
  tombstones = [];
  usage = λ key. record { active_sessions = 0; staged_bytes = 0 };
  namespaces = namespaces;
}

pub new_store-IsAccounted : (namespaces : List (ℕ × Bool)) → IsAccounted (new_store namespaces)
new_store-IsAccounted namespaces = ((tt, tt, tt, tt), at)
  where
    at : IsBalanced (new_store namespaces)
    at active_sessions key = refl
    at staged_bytes key = refl

-- After any calls on a new database, the counters of the whole service and those of every namespace are
-- the number of sessions OPEN or FINALIZING, and the bytes of the parts not DELETED and of the tombstones.
pub Run-IsBalanced :
    (namespaces : List (ℕ × Bool)) (s : Store) → Run (new_store namespaces) s → IsBalanced s
Run-IsBalanced namespaces s run = (Run-IsAccounted run (new_store-IsAccounted namespaces)).1

-- After any calls on a new database, no further call would take a counter below zero.
pub exec-counter_check :
    (namespaces : List (ℕ × Bool)) (s : Store) (call : Call)
    → Run (new_store namespaces) s
    → IsFresh call s
    → ¬ ((exec call s).0 ≡ some counter_check)
exec-counter_check namespaces s call run fresh =
    IsSound-checked (exec call s)
      (exec-IsSound call s fresh (Run-IsAccounted run (new_store-IsAccounted namespaces)))
