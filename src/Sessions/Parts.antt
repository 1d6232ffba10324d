-- ===== src/Sessions/Parts.antt =====
-- The operations on the parts of a session and on their staging objects. `now` is the clock that the
-- transaction reads once it holds the lock. A transaction runs alone, so what it reads twice is the same.
use storix.Base.{
  ℕ, ◌+◌, ◌-◌, ◌*◌, ◌^◌, min, String, Bool, true, false, not, ◌&&◌, ◌||◌, Option, none, some, List,
  [], ◌∷◌, ltb, leb, ◌==◌, if◌then◌else◌, ok,
}
use storix.Base.Int.{pos}
use storix.Upload.Policy.{
  reserved, stored, UploadPolicyCaps, UploadPartAdmission, assess_upload_part_admission,
}
use storix.Sessions.Tables.{
  Part, Session, Tombstone, UsageCounters, part_changed, M, on_affected, ◌>>=◌, ◌>>◌, pure, throw,
  is_open, is_reserved, is_deleted, is_lease_live, is_past, is_none, lock_usage,
  assert_namespace_active, staged_bytes, change_usage, find_session, find_part_row, update_session,
  update_part_where, delete_part_where, insert_part,
}

pub data ReserveUploadPartResult : Type 0 where
  reserved_part exists : Part → ReserveUploadPartResult
  limit closed invalid in_progress file_too_large : ReserveUploadPartResult

abbrev pub max_part_index : ℕ
max_part_index = 2 ^ 53 - 1

-- COUNT of the tombstones of a part whose object is not yet deleted.
unfoldable pub pending_deletes : (session_id index : ℕ) → List Tombstone → ℕ
pending_deletes session_id index [] = 0
pending_deletes session_id index (t ∷ rest) =
    (if t.session_id == session_id && (t.part_index == index && is_none t.deleted_at) then 1 else 0)
    + pending_deletes session_id index rest

abbrev pub new_part : (index amount key lease : ℕ) → Part
new_part index amount key lease = record {
  part_index = index;
  size_bytes = amount;
  staging_key = key;
  digest = none;
  encryption_iv = none;
  state = reserved;
  object_deleted_at = none;
  lease_expires_at = some lease;
}

-- `existing && (state !== 'DELETED' || objectDeletedAt === null)`
abbrev pub blocks : Part → Bool
blocks part = not (is_deleted part.state) || is_none part.object_deleted_at

abbrev pub has_key : Option Part → ℕ → Bool
has_key none key = false
has_key (some part) key = part.staging_key == key

-- `if (existing) await parts.delete({ sessionId, partIndex, state: 'DELETED' })`
abbrev pub delete_existing : ℕ → ℕ → Option Part → M Bool
delete_existing id index none = pure false
delete_existing id index (some part) = delete_part_where id index (λ p. is_deleted p.state)

module _ (id index amount key : ℕ) (caps : UploadPolicyCaps) (lease_seconds now : ℕ) where
  -- From the DELETE of the old row on.
  unfoldable pub insert_reservation : ℕ → Option Part → M ReserveUploadPartResult
  unfolding delete_part_where insert_part change_usage
  insert_reservation ns existing =
      let part = new_part index amount key (now + lease_seconds * 1000) in
      delete_existing id index existing >>= λ _.
      insert_part id part >> change_usage ns staged_bytes (pos amount) >> pure (reserved_part part)

  -- From the count of the pending deletions on.
  unfoldable pub reserve_admitted :
      UsageCounters × UsageCounters → Session → Option Part → M ReserveUploadPartResult
  unfolding pending_deletes insert_reservation assess_upload_part_admission
  reserve_admitted (global, own) current existing s =
      if not (pending_deletes id index s.tombstones == 0)
      then ok (in_progress, s)
      else if has_key existing key
      then ok (invalid, s)
      else if leb current.part_count index
      then ok (invalid, s)
      else elim (assess_upload_part_admission current.size_bytes amount caps (record {
        global_staged_bytes = global.staged_bytes;
        namespace_staged_bytes = own.staged_bytes;
      })) [
        | UploadPartAdmission.allowed ↦ insert_reservation current.namespace_id existing s
        | UploadPartAdmission.file_too_large size max ↦ ok (file_too_large, s)
        | UploadPartAdmission.limit ↦ ok (limit, s)
      ]

  abbrev pub reserve_existing :
      UsageCounters × UsageCounters → Session → Option Part → M ReserveUploadPartResult
  reserve_existing usage current none = reserve_admitted usage current none
  reserve_existing usage current (some part) =
      if blocks part then pure (exists part) else reserve_admitted usage current (some part)

  -- From the second read of the session on.
  unfoldable pub reserve_current :
      UsageCounters × UsageCounters → Option Session → M ReserveUploadPartResult
  unfolding find_part_row
  reserve_current usage none = pure closed
  reserve_current usage (some current) =
      if not (is_open current.state) || is_past current now
      then pure closed
      else reserve_existing usage current (find_part_row index current)

  abbrev pub reserve_found : Option Session → M ReserveUploadPartResult
  reserve_found none = pure closed
  reserve_found (some x) =
      if not (is_open x.state)
      then pure closed
      else lock_usage x.namespace_id >>= λ usage.
          assert_namespace_active x.namespace_id >> λ s. reserve_current usage (find_session id s) s

  unfoldable pub reserve_part : M ReserveUploadPartResult
  unfolding find_session
  reserve_part s =
      if amount == 0 || ltb max_part_index index
      then ok (invalid, s)
      else reserve_found (find_session id s) s

-- Whether the condition of `commitPart` on the part holds.
abbrev pub matches : Option ℕ → ℕ → Bool
matches none key = true
matches (some expected) key = key == expected

abbrev pub store_part : String → Option String → Part → Part
store_part digest iv part = record part { state = stored; digest = some digest; encryption_iv = iv }

module _ (id index : ℕ) (digest : String) (iv : Option String) (key inactivity : Option ℕ)
    (now : ℕ) where
  abbrev pub mark_stored : (expires_at : ℕ) → M (Option ℕ)
  mark_stored expires_at =
      update_part_where id index (λ p. is_reserved p.state && matches key p.staging_key)
        (store_part digest iv)
      >>= on_affected (pure (some expires_at)) (throw part_changed)

  -- `expiresAt` moves only where `inactivitySeconds` is given.
  unfoldable pub commit_renewed : Option ℕ → Session → M (Option ℕ)
  unfolding update_session update_part_where
  commit_renewed none current = mark_stored current.expires_at
  commit_renewed (some seconds) current =
      let expires_at = min (now + seconds * 1000) current.max_expires_at in
      update_session id (λ x. is_open x.state && not (is_past x now))
        (λ x. record x { expires_at = expires_at })
      >>= on_affected (mark_stored expires_at) (pure none)

  abbrev pub commit_found : Session → Option Part → M (Option ℕ)
  commit_found current none = pure none
  commit_found current (some part) =
      if is_reserved part.state
        && (is_lease_live part.lease_expires_at now && matches key part.staging_key)
      then commit_renewed inactivity current
      else pure none

  abbrev pub commit_current : Option Session → M (Option ℕ)
  commit_current none = pure none
  commit_current (some current) =
      if not (is_open current.state) || is_past current now
      then pure none
      else commit_found current (find_part_row index current)

  abbrev pub commit_session : Option Session → M (Option ℕ)
  commit_session none = pure none
  commit_session (some x) =
      lock_usage x.namespace_id >>= λ usage s. commit_current (find_session id s) s

  -- The answer is the time at which the session expires.
  unfoldable pub commit_part : M (Option ℕ)
  unfolding find_session find_part_row commit_renewed
  commit_part s = commit_session (find_session id s) s
