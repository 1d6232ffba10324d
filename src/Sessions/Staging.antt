-- ===== src/Sessions/Staging.antt =====
-- The operations on the reservations of parts and on what is left of them: leases, reclaimed
-- reservations, releases, and the deletions that the cleanup job reports. `now` is the clock that the
-- transaction reads.
use storix.Base.{
  ℕ, ◌+◌, ◌*◌, Bool, true, false, not, ◌&&◌, ◌||◌, Option, none, some, ◌==◌, if◌then◌else◌, ok,
}
use storix.Base.Int.{ℤ, pos, sub_ℕ}
use storix.Base.Rows.{row_of}
use storix.Upload.Policy.{PartState, cleanup, deleted}
use storix.Sessions.Tables.{
  Part, Session, Tombstone, Store, M, on_affected, ◌>>=◌, ◌>>◌, pure, is_open, is_reserved,
  is_cleanup, is_deleted, same_state, is_lease_live, is_none, is_equal, lock_usage, staged_bytes,
  change_usage, find_session, find_part, update_part_where, delete_part_where, update_tombstone,
  delete_tombstone, insert_tombstone,
}
use storix.Sessions.Parts.{matches}

-- -BigInt(sizeBytes)
abbrev pub minus : ℕ → ℤ
minus n = sub_ℕ 0 n

abbrev pub some_part : Option Part → (Part → M Bool) → M Bool
some_part none f = pure false
some_part (some part) f = f part

abbrev pub some_session : Option Session → (Session → M Bool) → M Bool
some_session none f = pure false
some_session (some x) f = f x

-- `lease_expires_at IS NULL OR lease_expires_at <= now`
abbrev pub is_lapsed : Option ℕ → ℕ → Bool
is_lapsed lease now = not (is_lease_live lease now)

module _ (id index key : ℕ) where
  unfoldable pub renew_part_lease : (lease_seconds now : ℕ) → M Bool
  unfolding find_part update_part_where
  renew_part_lease lease_seconds now s =
      some_part (find_part id index s)
        (λ part.
          if part.staging_key == key
            && (is_reserved part.state && is_lease_live part.lease_expires_at now)
          then update_part_where id index
              (λ p.
                p.staging_key == key
                && (is_reserved p.state && is_lease_live p.lease_expires_at now))
              (λ p. record p { lease_expires_at = some (now + lease_seconds * 1000) })
          else pure false)
        s

  abbrev pub tombstone_of : Session → Part → Tombstone
  tombstone_of x part = record {
    staging_key = key;
    session_id = id;
    part_index = index;
    namespace_id = x.namespace_id;
    size_bytes = part.size_bytes;
    deleted_at = none;
    put_settled_at = none;
  }

  abbrev pub retires : ℕ → Part → Bool
  retires now part =
      part.staging_key == key && (is_reserved part.state && is_lapsed part.lease_expires_at now)

  abbrev pub retire_part : ℕ → Session → Part → M Bool
  retire_part now x part =
      if retires now part
      then delete_part_where id index (retires now)
        >>= on_affected (insert_tombstone (tombstone_of x part) >> pure true) (pure false)
      else pure false

  unfoldable pub retire_expired_part_reservation : (now : ℕ) → M Bool
  unfolding find_session find_part delete_part_where
  retire_expired_part_reservation now s =
      some_session (find_session id s)
        (λ x. lock_usage x.namespace_id >>= λ usage s'.
          some_part (find_part id index s') (retire_part now x) s')
        s

-- `UploadStagingAccountingResult`
pub record Accounting : Type 0 where
  pub applied : Bool
  pub refunded_bytes : ℕ

abbrev pub nothing : Accounting
nothing = record { applied = false; refunded_bytes = 0 }

abbrev pub refunding : ℕ → Accounting
refunding n = record { applied = true; refunded_bytes = n }

abbrev pub put_settled : ℕ → Tombstone → Tombstone
put_settled now t = record t { put_settled_at = some now }

-- The tombstone of a key, if it is of the part.
unfoldable pub find_tombstone : ℕ → Store → Option Tombstone
unfolding row_of
find_tombstone key s = row_of Tombstone.staging_key key s.tombstones

module _ (id index : ℕ) (object_may_exist : Bool) (now : ℕ) where
  abbrev pub is_tombstone_of : Tombstone → Bool
  is_tombstone_of t = t.session_id == id && t.part_index == index

  abbrev pub release_tombstone : Session → ℕ → Option Tombstone → M Accounting
  release_tombstone x key none = pure nothing
  release_tombstone x key (some old) =
      if not (is_tombstone_of old)
      then pure nothing
      else if object_may_exist
      then update_tombstone key (put_settled now) >> pure (refunding 0)
      else delete_tombstone key
        >> change_usage x.namespace_id staged_bytes (minus old.size_bytes)
        >> pure (refunding old.size_bytes)

  -- The part is absent or has another key.
  abbrev pub release_missing : Session → Option ℕ → M Accounting
  release_missing x none s = ok (nothing, s)
  release_missing x (some key) s = release_tombstone x key (find_tombstone key s) s

  -- A part in state DELETED: an object that came late is charged again.
  abbrev pub restore_part : Session → Option ℕ → Part → M Accounting
  restore_part x none part = pure nothing
  restore_part x (some key) part =
      if not object_may_exist || is_none part.object_deleted_at
      then pure nothing
      else update_part_where id index (λ p. p.staging_key == key && is_deleted p.state)
          (λ p. record p { state = cleanup; object_deleted_at = none })
        >>= on_affected
            (change_usage x.namespace_id staged_bytes (pos part.size_bytes) >> pure (refunding 0))
            (pure nothing)

  abbrev pub release_reserved : Session → Part → M Accounting
  release_reserved x part =
      if object_may_exist
      then update_part_where id index (λ p. true) (λ p. record p { state = cleanup })
        >>= (λ _. pure (refunding 0))
      else delete_part_where id index (λ p. true) >>= (λ _.
        change_usage x.namespace_id staged_bytes (minus part.size_bytes)
        >> pure (refunding part.size_bytes))

  abbrev pub release_found : Session → Option ℕ → Option Part → M Accounting
  release_found x key none = release_missing x key
  release_found x key (some part) =
      if not (matches key part.staging_key)
      then release_missing x key
      else if is_deleted part.state
      then restore_part x key part
      else if not (is_reserved part.state)
      then pure nothing
      else release_reserved x part

  abbrev pub release_session : Option ℕ → Option Session → M Accounting
  release_session key none = pure nothing
  release_session key (some x) =
      lock_usage x.namespace_id >>= λ usage s'. release_found x key (find_part id index s') s'

  -- `releasePartReservationAccounting`
  unfoldable pub release_part_reservation : Option ℕ → M Accounting
  unfolding find_session find_part find_tombstone update_part_where delete_part_where
      update_tombstone delete_tombstone change_usage
  release_part_reservation key s = release_session key (find_session id s) s

abbrev pub same_time : Option ℕ → Option ℕ → Bool
same_time (some a) b = is_equal b a
same_time none b = false

abbrev pub confirm_tombstone : (key now : ℕ) → Option ℕ → Tombstone → M Accounting
confirm_tombstone key now observed current =
    if same_time observed current.put_settled_at
    then delete_tombstone key
      >> change_usage current.namespace_id staged_bytes (minus current.size_bytes)
      >> pure (refunding current.size_bytes)
    else update_tombstone key (λ t. record t { deleted_at = some now }) >> pure (refunding 0)

abbrev pub mark_tombstone : (key now : ℕ) → Option ℕ → Option Tombstone → M Accounting
mark_tombstone key now observed none = pure nothing
mark_tombstone key now observed (some old) =
    lock_usage old.namespace_id >>= λ usage. confirm_tombstone key now observed old

-- `markTombstoneDeletedDetailed`
unfoldable pub mark_tombstone_deleted : (key : ℕ) → (observed : Option ℕ) → (now : ℕ) → M Accounting
unfolding find_tombstone update_tombstone delete_tombstone change_usage
mark_tombstone_deleted key observed now s = mark_tombstone key now observed (find_tombstone key s) s

module _ (id index key : ℕ) (expected_state : PartState) (now : ℕ) where
  abbrev pub is_expected : Part → Bool
  is_expected part = same_state part.state expected_state && part.staging_key == key

  abbrev pub mark_part : Session → Option Part → M Accounting
  mark_part x none = pure nothing
  mark_part x (some part) =
      if not (is_expected part) || is_open x.state && not (is_cleanup expected_state)
      then pure nothing
      else update_part_where id index is_expected
          (λ p. record p { state = deleted; object_deleted_at = some now })
        >>= on_affected
            (change_usage x.namespace_id staged_bytes (minus part.size_bytes)
              >> pure (refunding part.size_bytes))
            (pure nothing)

  abbrev pub mark_session : Option Session → M Accounting
  mark_session none = pure nothing
  mark_session (some x) =
      lock_usage x.namespace_id >>= λ usage s'. mark_part x (find_part id index s') s'

  -- `markStagingObjectDeletedDetailed`
  unfoldable pub mark_staging_object_deleted : M Accounting
  unfolding find_session find_part update_part_where change_usage
  mark_staging_object_deleted s =
      if is_deleted expected_state || is_reserved expected_state
      then ok (nothing, s)
      else mark_session (find_session id s) s
