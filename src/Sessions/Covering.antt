-- ===== src/Sessions/Covering.antt =====
-- The operations that lower no counter of staged bytes.
use storix.Base.{
  ℕ, ◌+◌, ◌≤◌, Bool, true, false, Option, none, some, if◌then◌else◌, ◌≡◌, refl, Result, ok, err,
  inl, inr, Bool-cases, Option-cases, arith, ap, ==→eq,
}
use storix.Base.Int.{pos}
use storix.Base.Rows.{row_of}
use storix.Sessions.Tables.{
  Part, Session, Tombstone, UsageCounters, Store, SessionError, M, ◌>>=◌, ◌>>◌, then_do, pure,
  on_affected, is_deleted, is_reserved, is_none, lock_usage, has_namespace, staged_bytes,
  change_row, change_usage, find_session, find_part, update_part_where, delete_part_where,
  update_tombstone, insert_tombstone, same_key, set_field,
}
use storix.Sessions.Parts.{matches}
use storix.Sessions.Reserving.{pos_+ℤ}
use storix.Sessions.Staging.{
  nothing, refunding, some_part, some_session, retires, tombstone_of, retire_part,
  retire_expired_part_reservation, find_tombstone, is_tombstone_of, release_missing, restore_part,
  release_found, release_part_reservation, mark_tombstone, mark_tombstone_deleted,
}

-- No counter of staged bytes is lower.
abbrev pub Covers : (before after : Store) → Type 0
Covers before after =
    (key : Option ℕ) → (before.usage key).staged_bytes ≤ (after.usage key).staged_bytes

abbrev pub CoversAfter : {A : Type 0} → Store → Result SessionError (A × Store) → Type 0
CoversAfter s (ok (_, s')) = Covers s s'
CoversAfter s (err e) = Unit

pub self-Covers : (s : Store) → Covers s s
self-Covers s key = omega arith

CoversAfter-bind :
    {A B : Type 0} (s : Store) (r : Result SessionError (A × Store)) (f : A → M B)
    → CoversAfter s r
    → ((a : A) (s' : Store) → CoversAfter s' (f a s'))
    → CoversAfter s (then_do f r)
CoversAfter-bind {A} {B} s (err e) f h k = tt
CoversAfter-bind {A} {B} s (ok (a, s')) f h k = both (f a s') (k a s')
  where
    both : (r : Result SessionError (B × Store)) → CoversAfter s' r → CoversAfter s r
    both (err e) l = tt
    both (ok (b, s'')) l = λ key. omega (arith, h key, l key)

lock_usage-CoversAfter :
    {A : Type 0} (ns : ℕ) (f : UsageCounters × UsageCounters → M A) (s : Store)
    → CoversAfter s (f (s.usage none, s.usage (some ns)) s)
    → CoversAfter s ((lock_usage ns >>= f) s)
unfolding lock_usage
lock_usage-CoversAfter ns f s h = elim (Bool-cases (has_namespace ns s.namespaces)) [
  | inl yes' ↦ rw yes' h
  | inr no' ↦ rw no' tt
]

same_key-eq : (a b : Option ℕ) → same_key a b ≡ true → a ≡ b
same_key-eq none none h = refl
same_key-eq none (some b) h = cc
same_key-eq (some a) none h = cc
same_key-eq (some a) (some b) h = ap some (==→eq a b h)

change_row-CoversAfter :
    (key : Option ℕ) (n : ℕ) (s : Store) → CoversAfter s (change_row key staged_bytes (pos n) s)
unfolding change_row
change_row-CoversAfter key n s = rw (pos_+ℤ (s.usage key).staged_bytes n) at
  where
    at :
        (k : Option ℕ)
        → (s.usage k).staged_bytes
          ≤ (if same_key k key
              then set_field staged_bytes ((s.usage key).staged_bytes + n) (s.usage k)
              else s.usage k).staged_bytes
    at k = elim (Bool-cases (same_key k key)) [
      | inl same ↦ rw (same, same_key-eq k key same) (omega arith)
      | inr other ↦ rw other (omega arith)
    ]

change_usage-CoversAfter :
    (ns n : ℕ) (s : Store) → CoversAfter s (change_usage ns staged_bytes (pos n) s)
unfolding change_usage
change_usage-CoversAfter ns n s =
    CoversAfter-bind s (change_row none staged_bytes (pos n) s)
      (λ _. change_row (some ns) staged_bytes (pos n)) (change_row-CoversAfter none n s)
      (λ _ s'. change_row-CoversAfter (some ns) n s')

update_part_where-CoversAfter :
    (id index : ℕ) (test : Part → Bool) (f : Part → Part) (s : Store)
    → CoversAfter s (update_part_where id index test f s)
unfolding update_part_where
update_part_where-CoversAfter id index test f s = elim (Option-cases (find_part id index s)) [
  | inl none' ↦ rw none' (self-Covers s)
  | inr (p, e) ↦ elim (Bool-cases (test p)) [
    | inl yes' ↦ rw (e, yes') (self-Covers s)
    | inr no' ↦ rw (e, no') (self-Covers s)
  ]
]

delete_part_where-CoversAfter :
    (id index : ℕ) (test : Part → Bool) (s : Store)
    → CoversAfter s (delete_part_where id index test s)
unfolding delete_part_where
delete_part_where-CoversAfter id index test s = elim (Option-cases (find_part id index s)) [
  | inl none' ↦ rw none' (self-Covers s)
  | inr (p, e) ↦ elim (Bool-cases (test p)) [
    | inl yes' ↦ rw (e, yes') (self-Covers s)
    | inr no' ↦ rw (e, no') (self-Covers s)
  ]
]

-- A release whose object may exist.
module _ (id index now : ℕ) (x : Session) (s : Store) where
  release_missing-CoversAfter :
      (key : Option ℕ) → CoversAfter s (release_missing id index true now x key s)
  unfolding find_tombstone update_tombstone
  release_missing-CoversAfter none = self-Covers s
  release_missing-CoversAfter (some key) =
      elim (Option-cases (row_of Tombstone.staging_key key s.tombstones)) [
        | inl none' ↦ rw none' (self-Covers s)
        | inr (t, there) ↦ elim (Bool-cases (is_tombstone_of id index true now t)) [
          | inl yes' ↦ rw (there, yes') (self-Covers s)
          | inr no' ↦ rw (there, no') (self-Covers s)
        ]
      ]

  restore_part-CoversAfter :
      (key : Option ℕ) (p : Part) → CoversAfter s (restore_part id index true now x key p s)
  restore_part-CoversAfter none p = self-Covers s
  restore_part-CoversAfter (some key) p = elim (Bool-cases (is_none p.object_deleted_at)) [
    | inl yes' ↦ rw yes' (self-Covers s)
    | inr no' ↦ rw no' (
        CoversAfter-bind s (update_part_where id index _ _ s) _
          (update_part_where-CoversAfter id index _ _ s) at)
  ]
    where
      at :
          (restored : Bool) (s' : Store)
          → CoversAfter s' (
              on_affected
                (change_usage x.namespace_id staged_bytes (pos p.size_bytes) >> pure (refunding 0))
                (pure nothing)
                restored
                s')
      at true s' =
          CoversAfter-bind s' (change_usage x.namespace_id staged_bytes (pos p.size_bytes) s') _
            (change_usage-CoversAfter x.namespace_id p.size_bytes s') (λ _ s''. self-Covers s'')
      at false s' = self-Covers s'

  release_found-CoversAfter :
      (key : Option ℕ) (found : Option Part)
      → CoversAfter s (release_found id index true now x key found s)
  release_found-CoversAfter key none = release_missing-CoversAfter key
  release_found-CoversAfter key (some p) = elim (Bool-cases (matches key p.staging_key)) [
    | inr other ↦ rw other (release_missing-CoversAfter key)
    | inl same ↦ elim (Bool-cases (is_deleted p.state)) [
      | inl gone ↦ rw (same, gone) (restore_part-CoversAfter key p)
      | inr kept ↦ elim (Bool-cases (is_reserved p.state)) [
        | inr no' ↦ rw (same, kept, no') (self-Covers s)
        | inl yes' ↦
            rw (same, kept, yes')
              (CoversAfter-bind s (update_part_where id index _ _ s) _
                (update_part_where-CoversAfter id index _ _ s) (λ _ s'. self-Covers s'))
      ]
    ]
  ]

pub release_part_reservation-CoversAfter :
    (id index now : ℕ) (key : Option ℕ) (s : Store)
    → CoversAfter s (release_part_reservation id index true now key s)
unfolding release_part_reservation
release_part_reservation-CoversAfter id index now key s = elim (Option-cases (find_session id s)) [
  | inl none' ↦ rw none' (self-Covers s)
  | inr (x, found) ↦ rw found (
      lock_usage-CoversAfter x.namespace_id _ s
        (release_found-CoversAfter id index now x s key (find_part id index s)))
]

-- A reclaimed reservation stays charged.
insert_tombstone-CoversAfter : (t : Tombstone) (s : Store) → CoversAfter s (insert_tombstone t s)
unfolding insert_tombstone
insert_tombstone-CoversAfter t s =
    elim (Bool-cases (is_none (row_of Tombstone.staging_key t.staging_key s.tombstones))) [
      | inl yes' ↦ rw yes' (self-Covers s)
      | inr no' ↦ rw no' tt
    ]

module _ (id index key now : ℕ) where
  retire_part-CoversAfter :
      (x : Session) (p : Part) (s : Store) → CoversAfter s (retire_part id index key now x p s)
  retire_part-CoversAfter x p s = elim (Bool-cases (retires id index key now p)) [
    | inr no' ↦ rw no' (self-Covers s)
    | inl yes' ↦ rw yes' (
        CoversAfter-bind s (delete_part_where id index (retires id index key now) s) _
          (delete_part_where-CoversAfter id index _ s) at)
  ]
    where
      at :
          (removed : Bool) (s' : Store)
          → CoversAfter s' (
              on_affected
                (insert_tombstone (tombstone_of id index key x p) >> pure true)
                (pure false)
                removed
                s')
      at true s' =
          CoversAfter-bind s' (insert_tombstone (tombstone_of id index key x p) s') (λ _. pure true)
            (insert_tombstone-CoversAfter (tombstone_of id index key x p) s')
            (λ _ s''. self-Covers s'')
      at false s' = self-Covers s'

  pub retire_expired_part_reservation-CoversAfter :
      (s : Store) → CoversAfter s (retire_expired_part_reservation id index key now s)
  unfolding retire_expired_part_reservation
  retire_expired_part_reservation-CoversAfter s = at (find_session id s)
    where
      on_part :
          (x : Session) (found : Option Part)
          → CoversAfter s (some_part found (retire_part id index key now x) s)
      on_part x none = self-Covers s
      on_part x (some p) = retire_part-CoversAfter x p s

      at :
          (found : Option Session)
          → CoversAfter s (
              some_session found
                (λ x. lock_usage x.namespace_id >>= λ usage s'.
                  some_part (find_part id index s') (retire_part id index key now x) s')
                s)
      at none = self-Covers s
      at (some x) = lock_usage-CoversAfter x.namespace_id _ s (on_part x (find_part id index s))

  -- `markTombstoneDeleted` without a settlement that was observed only notes the deletion.
  pub mark_tombstone_deleted-CoversAfter :
      (s : Store) → CoversAfter s (mark_tombstone_deleted key none now s)
  unfolding mark_tombstone_deleted update_tombstone
  mark_tombstone_deleted-CoversAfter s = at (find_tombstone key s)
    where
      at : (found : Option Tombstone) → CoversAfter s (mark_tombstone key now none found s)
      at none = self-Covers s
      at (some t) = lock_usage-CoversAfter t.namespace_id _ s (self-Covers s)
