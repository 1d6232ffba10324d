-- ===== src/Sessions/Finalize.antt =====
-- `claimFinalize`, and the statements on many sessions: recovery of stale claims, the removal of ended
-- sessions.
use storix.Base.{
  ℕ, suc, ◌+◌, String, Bool, true, false, not, ◌&&◌, ◌||◌, Option, none, some, List, [], ◌∷◌, ltb,
  ◌==◌, str_eq, if◌then◌else◌, ok, has, length, map,
}
use storix.Base.Rows.{rows_where, update_where, delete_row}
use storix.Base.Sort.{sort_by, take}
use storix.Upload.Policy.{is_stored}
use storix.Sessions.Tables.{
  SessionState, opened, finalizing, completed, cancelled, expired, failed, Part, Session, Tombstone,
  Store, M, on_affected, ◌>>=◌, ◌>>◌, pure, is_open, is_finalizing, is_live, is_deleted,
  lease_stale, is_past, lock_usage, assert_namespace_active, find_session, update_session,
}
use storix.Sessions.Lifecycle.{in_namespace, some_or}

pub data ClaimFinalizeResult : Type 0 where
  claimed : (token : ℕ) → Session → List Part → ClaimFinalizeResult
  not_found incomplete busy closed : ClaimFinalizeResult
  complete : Session → ClaimFinalizeResult

-- The stored parts by their index.
unfoldable pub stored_parts : List Part → List Part
unfolding rows_where sort_by
stored_parts parts =
    sort_by (λ a b. ltb a.part_index b.part_index) (rows_where (λ p. is_stored p.state) parts)

-- `!!part.digest`
abbrev pub has_digest : Option String → Bool
has_digest none = false
has_digest (some digest) = not (str_eq digest "")

-- No part, from an index on, has another index or no digest.
unfoldable pub in_sequence : ℕ → List Part → Bool
in_sequence index [] = true
in_sequence index (part ∷ rest) =
    (part.part_index == index && has_digest part.digest) && in_sequence (suc index) rest

unfoldable pub is_all_stored : Session → Bool
unfolding stored_parts in_sequence
is_all_stored x =
    length (stored_parts x.parts) == x.part_count && in_sequence 0 (stored_parts x.parts)

abbrev pub leased : (token lease_expires_at : ℕ) → Session → Session
leased token lease_expires_at x = record x {
  state = finalizing;
  lease_token = some token;
  lease_expires_at = some lease_expires_at;
  last_complete_failure = none;
}

-- `now` is read before the parts, `claim_now` after.
module _ (ns id token duration_ms now claim_now : ℕ) where
  abbrev pub claim_open : Session → M ClaimFinalizeResult
  claim_open x =
      if is_past x now
      then pure closed
      else if not (is_all_stored x)
      then pure incomplete
      else if is_past x claim_now
      then pure closed
      else update_session id
          (λ y. y.namespace_id == ns && (is_open y.state && not (is_past y claim_now)))
          (leased token (claim_now + duration_ms))
        >>= on_affected (pure (claimed token x (stored_parts x.parts))) (pure busy)

  abbrev pub claim_state : SessionState → Session → M ClaimFinalizeResult
  claim_state completed x = pure (complete x)
  claim_state failed x = pure (complete x)
  claim_state finalizing x = pure busy
  claim_state opened x = claim_open x
  claim_state cancelled x = pure closed
  claim_state expired x = pure closed

  unfoldable pub claim_finalize : M ClaimFinalizeResult
  unfolding find_session update_session is_all_stored
  claim_finalize s =
      some_or (in_namespace ns (find_session id s)) (pure not_found)
        (λ _. lock_usage ns >>= λ usage. assert_namespace_active ns >> λ s'.
          some_or (in_namespace ns (find_session id s')) (pure not_found)
            (λ x. claim_state x.state x) s')
        s

-- The SELECT of `recoverStaleFinalizingLeases`.
abbrev pub is_stale : ℕ → Session → Bool
is_stale now x = is_finalizing x.state && lease_stale x.lease_expires_at now

unfoldable pub find_stale : (now batch_size : ℕ) → Store → List ℕ
unfolding take sort_by rows_where
find_stale now batch_size s =
    map Session.id
      (take batch_size (sort_by (λ a b. ltb a.id b.id) (rows_where (is_stale now) s.sessions)))

unfoldable pub reopen : Session → Session
reopen x = record x { state = opened; lease_token = none; lease_expires_at = none }

-- Its UPDATE on the ids that the SELECT gave, with the number of rows.
unfoldable pub recover_stale_finalizing_leases : (ids : List ℕ) → (now : ℕ) → M ℕ
unfolding update_where rows_where reopen
recover_stale_finalizing_leases ids now s =
    let test = λ (x : Session). has ids x.id && is_stale now x in
    ok (
      length (rows_where test s.sessions),
      record s { sessions = update_where test reopen s.sessions },
    )

-- Whether a part still has an object, and whether a session has a tombstone.
unfoldable pub has_object : List Part → Bool
has_object [] = false
has_object (part ∷ rest) = not (is_deleted part.state) || has_object rest

unfoldable pub has_tombstone : (id : ℕ) → List Tombstone → Bool
has_tombstone id [] = false
has_tombstone id (t ∷ rest) = t.session_id == id || has_tombstone id rest

abbrev pub is_before : Option ℕ → ℕ → Bool
is_before none before = false
is_before (some time) before = ltb time before

abbrev pub is_prunable : ℕ → Session → Bool
is_prunable before x = not (is_live x.state) && is_before x.terminal_at before

-- The SELECT of `pruneTerminalSessions`.
unfoldable pub find_prunable : (before batch_size : ℕ) → Store → List ℕ
unfolding take sort_by rows_where has_object has_tombstone
find_prunable before batch_size s =
    map Session.id (take batch_size (sort_by earlier (rows_where test s.sessions)))
  where
    time : Option ℕ → ℕ
    time none = 0
    time (some t) = t

    earlier : Session → Session → Bool
    earlier a b =
        ltb (time a.terminal_at) (time b.terminal_at)
        || time a.terminal_at == time b.terminal_at && ltb a.id b.id

    test : Session → Bool
    test x =
        is_prunable before x && (not (has_object x.parts) && not (has_tombstone x.id s.tombstones))

-- One round of its loop, a transaction of its own.
unfoldable pub prune_session : (before id : ℕ) → M Bool
unfolding find_session has_object delete_row
prune_session before id s =
    some_or (find_session id s) (pure false)
      (λ x. if has_object x.parts || not (is_prunable before x) then pure false else λ s'.
        ok (true, record s' { sessions = delete_row Session.id id s'.sessions }))
      s

abbrev pub is_settled : ℕ → Store → Session → Bool
is_settled ns s x =
    (x.namespace_id == ns && not (is_live x.state))
    && (not (has_object x.parts) && not (has_tombstone x.id s.tombstones))

unfoldable pub delete_settled_sessions : (ns : ℕ) → M ℕ
unfolding has_object has_tombstone rows_where
delete_settled_sessions ns = lock_usage ns >>= λ usage s. ok (
  length (rows_where (is_settled ns s) s.sessions),
  record s { sessions = rows_where (λ x. not (is_settled ns s x)) s.sessions },
)
