-- ===== src/Sessions/Refunding.antt =====
-- About the bytes that the cleanup gives back.
use storix.Base.{
  ℕ, ◌<◌, Bool, true, false, not, Option, none, some, if◌then◌else◌, ◌≡◌, refl, Result, ok, err,
  inl, inr, Bool-cases, Option-cases, arith, ap, ==→eq,
}
use storix.Upload.Policy.{PartState}
use storix.Sessions.Tables.{
  Tombstone, Store, SessionError, lock_usage, has_namespace, update_tombstone,
}
use storix.Sessions.Staging.{
  Accounting, retire_expired_part_reservation, find_tombstone, release_part_reservation, same_time,
  mark_tombstone, mark_tombstone_deleted,
}
use storix.Sessions.Queries.{find_cleanup_part, find_cleanup_tombstone}
use storix.Sessions.Cleanup.{
  CleanupResult, delete_failed, skipped, aborted, reservation_not_retired, recorded, after_call,
  cleanup_settled_reservation, cleanup_expired_reservation, stored_observed, cleanup_stored_part,
  tombstone_observed, cleanup_tombstone,
}
use storix.Sessions.Covering.{
  Covers, CoversAfter, self-Covers, release_part_reservation-CoversAfter,
  retire_expired_part_reservation-CoversAfter, mark_tombstone_deleted-CoversAfter,
}

-- What a call of the service did to the counters.
after_call-Covers :
    {A : Type 0} (s0 s : Store) (k : A → Store → CleanupResult × Store)
    (r : Result SessionError (A × Store))
    → Covers s0 s
    → CoversAfter s r
    → ((a : A) (s' : Store) → Covers s0 s' → Covers s0 (k a s').1)
    → Covers s0 (after_call s k r).1
after_call-Covers s0 s k (err e) h c f = h
after_call-Covers s0 s k (ok (a, s')) h c f = f a s' (λ key. omega (arith, h key, c key))

cleanup_settled_reservation-Covers :
    (id index key now : ℕ) (meanwhile : Store → Store) (s : Store)
    → ((s' : Store) → Covers s' (meanwhile s'))
    → Covers s (cleanup_settled_reservation id index key now false meanwhile s).1
unfolding cleanup_settled_reservation
cleanup_settled_reservation-Covers id index key now meanwhile s kept =
    after_call-Covers s (meanwhile s) _
      (release_part_reservation id index true now (some key) (meanwhile s)) (kept s)
      (release_part_reservation-CoversAfter id index now (some key) (meanwhile s)) (λ _ s' h. h)

cleanup_stored_part-Covers :
    (id index key now : ℕ) (meanwhile : Store → Store) (s : Store)
    → ((s' : Store) → Covers s' (meanwhile s'))
    → Covers s (cleanup_stored_part id index key now false meanwhile s).1
unfolding cleanup_stored_part
cleanup_stored_part-Covers id index key now meanwhile s kept = at (find_cleanup_part id index key s)
  where
    at :
        (observed : Option PartState)
        → Covers s (stored_observed id index key now false s (meanwhile s) observed).1
    at none = self-Covers s
    at (some state) = kept s

cleanup_tombstone-Covers :
    (key now : ℕ) (meanwhile : Store → Store) (s : Store)
    → ((s' : Store) → Covers s' (meanwhile s'))
    → Covers s (cleanup_tombstone key now false meanwhile s).1
unfolding cleanup_tombstone
cleanup_tombstone-Covers key now meanwhile s kept = at (find_cleanup_tombstone key s)
  where
    at :
        (observed : Option (Option ℕ))
        → Covers s (tombstone_observed key now false s (meanwhile s) observed).1
    at none = self-Covers s
    at (some time) = kept s

cleanup_expired_reservation-Covers :
    (id index key now : ℕ) (deletes : Bool) (aborts : ℕ → Bool) (meanwhile : Store → Store)
    (s : Store)
    → ((s' : Store) → Covers s' (meanwhile s'))
    → Covers s (cleanup_expired_reservation id index key now deletes aborts meanwhile s).1
unfolding cleanup_expired_reservation
cleanup_expired_reservation-Covers id index key now deletes aborts meanwhile s kept =
    elim (Bool-cases (aborts 0)) [
      | inl yes' ↦ rw yes' (self-Covers s)
      | inr no' ↦ rw no' (
          after_call-Covers s s _ (retire_expired_part_reservation id index key now s)
            (self-Covers s) (retire_expired_part_reservation-CoversAfter id index key now s) at)
    ]
  where
    later : (s' : Store) → Covers s s' → Covers s (meanwhile s')
    later s' h k = omega (arith, h k, kept s' k)

    at :
        (retired : Bool) (s' : Store)
        → Covers s s'
        → Covers s
            (if aborts 1
              then (aborted, s')
              else if not retired
              then (skipped reservation_not_retired, s')
              else if aborts 2
              then (aborted, meanwhile s')
              else if not deletes
              then (delete_failed, meanwhile s')
              else after_call
                  (meanwhile s')
                  (λ accounting s''. (if aborts 3 then aborted else recorded accounting, s''))
                  (mark_tombstone_deleted key none now (meanwhile s'))).1
    at retired s' h = elim (Bool-cases (aborts 1)) [
      | inl yes' ↦ rw yes' h
      | inr first ↦ elim (Bool-cases retired) [
        | inr no' ↦ rw (first, no') h
        | inl done' ↦ elim (Bool-cases (aborts 2)) [
          | inl yes' ↦ rw (first, done', yes') (later s' h)
          | inr second ↦ elim (Bool-cases deletes) [
            | inr no' ↦ rw (first, done', second, no') (later s' h)
            | inl gone ↦
                rw (first, done', second, gone)
                  (after_call-Covers s (meanwhile s') _
                    (mark_tombstone_deleted key none now (meanwhile s')) (later s' h)
                    (mark_tombstone_deleted-CoversAfter id index key now (meanwhile s'))
                    (λ _ s'' l. l))
          ]
        ]
      ]
    ]

-- While the deletion of a staging object is not confirmed its bytes stay charged: where `storage.delete`
-- fails and what other calls do in the meantime lowers no counter of staged bytes, none of the cleanups of
-- a settled reservation, of a stored part and of a tombstone lowers one. The cleanup of an expired
-- reservation lowers none even where the deletion succeeds.
pub cleanup-Covers :
    (id index key now : ℕ) (deletes : Bool) (aborts : ℕ → Bool) (meanwhile : Store → Store)
    (s : Store)
    → ((s' : Store) → Covers s' (meanwhile s'))
    → Covers s (cleanup_settled_reservation id index key now false meanwhile s).1
      × Covers s (cleanup_stored_part id index key now false meanwhile s).1
      × Covers s (cleanup_tombstone key now false meanwhile s).1
      × Covers s (cleanup_expired_reservation id index key now deletes aborts meanwhile s).1
cleanup-Covers id index key now deletes aborts meanwhile s kept = (
  cleanup_settled_reservation-Covers id index key now meanwhile s kept,
  cleanup_stored_part-Covers id index key now meanwhile s kept,
  cleanup_tombstone-Covers key now meanwhile s kept,
  cleanup_expired_reservation-Covers id index key now deletes aborts meanwhile s kept,
)

-- What a lower counter of staged bytes is a reason for.
abbrev LowersFor : Type 0 → (before after : Store) → Type 0
LowersFor P before after =
    (k : Option ℕ) → (after.usage k).staged_bytes < (before.usage k).staged_bytes → P

abbrev LowersAfter : Type 0 → Store → Result SessionError (Accounting × Store) → Type 0
LowersAfter P s (ok (a, s')) = LowersFor P s s'
LowersAfter P s (err e) = Unit

given :
    (P : Type 0) (s : Store) (r : Result SessionError (Accounting × Store)) → P → LowersAfter P s r
given P s (ok (a, s')) p = λ k less. p
given P s (err e) p = tt

mark_tombstone-LowersAfter :
    (P : Type 0) (key now : ℕ) (observed : Option ℕ) (found : Option Tombstone) (s : Store)
    → ((t : Tombstone) → found ≡ some t → same_time observed t.put_settled_at ≡ true → P)
    → LowersAfter P s (mark_tombstone key now observed found s)
unfolding lock_usage update_tombstone
mark_tombstone-LowersAfter P key now observed none s why = λ k less. absurd (omega (arith, less))
mark_tombstone-LowersAfter P key now observed (some t) s why =
    elim (Bool-cases (has_namespace t.namespace_id s.namespaces)) [
      | inr no' ↦ rw no' tt
      | inl there ↦ elim (Bool-cases (same_time observed t.put_settled_at)) [
        | inl same ↦ rw (there, same) (given P s _ (why t refl same))
        | inr other ↦ rw (there, other) (λ k less. absurd (omega (arith, less)))
      ]
    ]

after_call-LowersFor :
    (P : Type 0) (before s : Store) (r : Result SessionError (Accounting × Store))
    → Covers before s
    → LowersAfter P s r
    → LowersFor P before (after_call s (λ accounting s'. (recorded accounting, s')) r).1
after_call-LowersFor P before s (ok (a, s')) c h = λ k less. h k (omega (arith, c k, less))
after_call-LowersFor P before s (err e) c h = λ k less. absurd (omega (arith, c k, less))

same_time-eq :
    (observed current : Option ℕ)
    → same_time observed current ≡ true
    → (time : ℕ) × (observed ≡ some time) × (current ≡ some time)
same_time-eq none current h = cc
same_time-eq (some a) none h = cc
same_time-eq (some a) (some b) h = (a, refl, ap some (==→eq b a h))

-- Where the cleanup of a tombstone leaves a counter of staged bytes lower than it was, and what other calls
-- do in the meantime lowers none, `storage.delete` succeeded, the PUT of the tombstone was seen to have
-- settled before the DELETE began, and the tombstone still has that time of settlement when the deletion is
-- noted.
pub cleanup_tombstone-settled :
    (key now : ℕ) (deletes : Bool) (meanwhile : Store → Store) (s : Store) (k : Option ℕ)
    → Covers s (meanwhile s)
    → ((cleanup_tombstone key now deletes meanwhile s).1.usage k).staged_bytes
      < (s.usage k).staged_bytes
    → (deletes ≡ true)
      × ((time : ℕ) × ((t : Tombstone) × (find_tombstone key s ≡ some t)
            × (t.put_settled_at ≡ some time))
          × ((t : Tombstone) × (find_tombstone key (meanwhile s) ≡ some t)
              × (t.put_settled_at ≡ some time)))
unfolding cleanup_tombstone find_cleanup_tombstone mark_tombstone_deleted
cleanup_tombstone-settled key now deletes meanwhile s k kept =
    elim (Option-cases (find_tombstone key s)) [
      | inl none' ↦ rw none' (λ less. absurd (omega (arith, less)))
      | inr (t, seen) ↦ elim (Bool-cases deletes) [
        | inr no' ↦ rw (seen, no') (λ less. absurd (omega (arith, kept k, less)))
        | inl gone ↦
            rw (seen, gone)
              (after_call-LowersFor _ s (meanwhile s)
                (mark_tombstone key now t.put_settled_at (find_tombstone key (meanwhile s))
                  (meanwhile s))
                kept
                (mark_tombstone-LowersAfter _ key now t.put_settled_at
                  (find_tombstone key (meanwhile s)) (meanwhile s)
                  (λ t' found same.
                    let (time, before, after) =
                      same_time-eq t.put_settled_at t'.put_settled_at same in
                    (refl, (time, (t, refl, before), (t', found, after)))))
                k)
      ]
    ]
