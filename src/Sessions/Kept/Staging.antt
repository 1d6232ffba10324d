-- ===== src/Sessions/Kept/Staging.antt =====
-- Leases, reclaimed reservations, releases and confirmed deletions, and the counters.
use storix.Base.{
  ℕ, Bool, true, ◌&&◌, Option, none, some, ◌==◌, ◌≡◌, refl, inl, inr, Bool-cases, Option-cases,
  arith, ap,
}
use storix.Base.Int.{sub_ℕ, sub_ℕ_parts}
use storix.Base.Rows.{AllRows, AllRows-map, row_of, delete_row}
use storix.Base.Keys.{AllRows-only, AllRows-update_row}
use storix.Sessions.Tables.{
  Part, Session, Tombstone, Store, M, is_lease_live, ◌>>◌, is_reserved, staged_bytes, find_session,
  find_part, delete_part_where, set_parts, pure, insert_tombstone,
}
use storix.Sessions.Books.{IsKeyed, IsAccounted, Keeps, Owes, SameHome}
use storix.Sessions.Rows.{insert_tombstone-IsKeyed, insert_tombstone-IsBalanced}
use storix.Sessions.Charges.{
  lock_usage-then, update_part_where-Keeps, reserved-weight, delete_part-Charged, find_part-row,
}
use storix.Sessions.Staging.{
  some_part, some_session, renew_part_lease, retires, tombstone_of, retire_part,
  retire_expired_part_reservation,
}

some_part-Keeps :
    (found : Option Part) (f : Part → M Bool) (s : Store)
    → IsAccounted s
    → ((p : Part) → found ≡ some p → Keeps (f p s))
    → Keeps (some_part found f s)
some_part-Keeps none f s h k = h
some_part-Keeps (some p) f s h k = k p refl

some_session-Keeps :
    (found : Option Session) (f : Session → M Bool) (s : Store)
    → IsAccounted s
    → ((x : Session) → found ≡ some x → Keeps (f x s))
    → Keeps (some_session found f s)
some_session-Keeps none f s h k = h
some_session-Keeps (some x) f s h k = k x refl

module _ (id index key : ℕ) where
  pub renew_part_lease-Keeps :
      (lease_seconds now : ℕ) (s : Store)
      → IsAccounted s
      → Keeps (renew_part_lease id index key lease_seconds now s)
  unfolding renew_part_lease
  renew_part_lease-Keeps lease_seconds now s h =
      some_part-Keeps (find_part id index s) _ s h λ p found.
        elim (Bool-cases
          (p.staging_key == key && (is_reserved p.state && is_lease_live p.lease_expires_at now))) [
            | inl yes' ↦
                rw yes' (update_part_where-Keeps id index _ _ s (λ q. refl) (λ q ok'. refl) h)
            | inr no' ↦ rw no' h
          ]

  -- The tombstone takes over the charge of the part.
  insert_tombstone-Keeps :
      (t : Tombstone) (s : Store)
      → IsKeyed s
      → AllRows (SameHome t) s.sessions
      → Owes t.namespace_id staged_bytes (sub_ℕ 0 t.size_bytes) s
      → Keeps ((insert_tombstone t >> pure true) s)
  unfolding insert_tombstone
  insert_tombstone-Keeps t s keyed home owes =
      elim (Option-cases (row_of Tombstone.staging_key t.staging_key s.tombstones)) [
        | inl new ↦
            rw new
              (insert_tombstone-IsKeyed s t new home keyed, insert_tombstone-IsBalanced s t owes)
        | inr (old, e) ↦ rw e tt
      ]

  retire_part-Keeps :
      (now : ℕ) (x : Session) (p : Part) (s : Store)
      → IsAccounted s
      → find_session id s ≡ some x
      → find_part id index s ≡ some p
      → Keeps (retire_part id index key now x p s)
  unfolding find_session delete_part_where
  retire_part-Keeps now x p s h found e = elim (Bool-cases (retires id index key now p)) [
    | inr no' ↦ rw no' h
    | inl yes' ↦
        let t = tombstone_of id index key x p in
        let weighs = reserved-weight p (ground arith) in
        let (keyed, owes) =
          delete_part-Charged s id index x p (sub_ℕ 0 p.size_bytes) h
            (find_part-row s id index x p found e)
            (omega (arith, weighs, sub_ℕ_parts 0 p.size_bytes)) in
        let home =
          AllRows-update_row Session.id (SameHome t) s.sessions id
            (set_parts (delete_row Part.part_index index)) (λ y k. k)
            (AllRows-map _ (SameHome t) s.sessions
              (λ y only same. ap Session.namespace_id (only same))
              (AllRows-only Session.id s.sessions id x h.0.0 found)) in
        rw (yes', e, yes') (insert_tombstone-Keeps t _ keyed home owes)
  ]

  pub retire_expired_part_reservation-Keeps :
      (now : ℕ) (s : Store)
      → IsAccounted s
      → Keeps (retire_expired_part_reservation id index key now s)
  unfolding retire_expired_part_reservation
  retire_expired_part_reservation-Keeps now s h =
      some_session-Keeps (find_session id s) _ s h λ x found. lock_usage-then x.namespace_id _ s (
        some_part-Keeps (find_part id index s) _ s h
          λ p there. retire_part-Keeps now x p s h found there)
