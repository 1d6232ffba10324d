-- ===== src/Sessions/Kept/Refunds.antt =====
-- Releases and confirmed deletions, and the counters.
use storix.Base.{
  ℕ, Bool, true, false, not, ◌&&◌, ◌||◌, Option, none, some, ◌==◌, ◌≡◌, refl, inl, inr, Bool-cases,
  Option-cases, arith, sym, ◌∙◌,
}
use storix.Base.Int.{pos, sub_ℕ_parts}
use storix.Base.Rows.{row_of, row_of-key}
use storix.Base.Keys.{AllRows-row_of}
use storix.Upload.Policy.{PartState, reserved, stored, cleanup, deleted}
use storix.Sessions.Tables.{
  Part, Session, Tombstone, Store, ◌>>◌, is_reserved, is_deleted, staged_bytes, change_usage,
  find_session, is_cleanup, is_none, same_state, find_part, update_part_where, delete_part_where,
  pure, is_open, update_tombstone, delete_tombstone,
}
use storix.Sessions.Books.{IsAccounted, Keeps, SameHome, change_usage-Keeps}
use storix.Sessions.Rows.{
  Owes-IsBalanced, update_tombstone-IsAccounted, delete_tombstone-IsKeyed, delete_tombstone-Owes,
}
use storix.Sessions.Charges.{
  Keeps-pure, lock_usage-then, reserved-weight, update_part-Charged, delete_part-Charged,
  charge-Keeps, Found, find_part-row,
}
use storix.Sessions.Parts.{matches}
use storix.Sessions.Staging.{
  minus, nothing, refunding, find_tombstone, put_settled, is_tombstone_of, release_missing,
  restore_part, release_reserved, release_found, release_part_reservation, same_time,
  confirm_tombstone, mark_tombstone_deleted, is_expected, mark_part, mark_session,
  mark_staging_object_deleted,
}

-- A tombstone of a session is in its namespace.
tombstone_home :
    (s : Store) (id key : ℕ) (x : Session) (t : Tombstone)
    → IsAccounted s
    → row_of Session.id id s.sessions ≡ some x
    → row_of Tombstone.staging_key key s.tombstones ≡ some t
    → t.session_id ≡ id
    → t.namespace_id ≡ x.namespace_id
tombstone_home s id key x t h found there same =
    let homes = AllRows-row_of Tombstone.staging_key _ s.tombstones key t h.0.3 there in
    sym (
      AllRows-row_of Session.id (SameHome t) s.sessions id x homes found
        (row_of-key Session.id s.sessions id x found ∙ sym same))

-- A tombstone goes, and its bytes are given back to its namespace.
refund_tombstone-Keeps :
    {A : Type 0} (s : Store) (key ns : ℕ) (t : Tombstone) (a : A)
    → IsAccounted s
    → row_of Tombstone.staging_key key s.tombstones ≡ some t
    → t.namespace_id ≡ ns
    → Keeps
        ((delete_tombstone key >> change_usage ns staged_bytes (minus t.size_bytes) >> pure a) s)
unfolding delete_tombstone
refund_tombstone-Keeps s key ns t a h there home =
    Keeps-pure (change_usage ns staged_bytes (minus t.size_bytes) _) (λ _. a)
      (change_usage-Keeps ns staged_bytes (minus t.size_bytes) _
        (delete_tombstone-IsKeyed s key t h.0) (delete_tombstone-Owes s key t ns home h there))

touch_tombstone-Keeps :
    {A : Type 0} (s : Store) (key : ℕ) (t : Tombstone) (f : Tombstone → Tombstone) (a : A)
    → ((y : Tombstone) → (f y).staging_key ≡ y.staging_key)
    → ((y : Tombstone) → (f y).namespace_id ≡ y.namespace_id)
    → ((y : Tombstone) → (f y).session_id ≡ y.session_id)
    → ((y : Tombstone) → (f y).size_bytes ≡ y.size_bytes)
    → IsAccounted s
    → row_of Tombstone.staging_key key s.tombstones ≡ some t
    → Keeps ((update_tombstone key f >> pure a) s)
unfolding update_tombstone
touch_tombstone-Keeps s key t f a k n i z h there =
    update_tombstone-IsAccounted s key t f k n i z h there

module _ (id index : ℕ) (object_may_exist : Bool) (now : ℕ) (x : Session) (s : Store) where
  release_missing-Keeps :
      (key : Option ℕ)
      → IsAccounted s
      → row_of Session.id id s.sessions ≡ some x
      → Keeps (release_missing id index object_may_exist now x key s)
  unfolding find_tombstone
  release_missing-Keeps none h found = h
  release_missing-Keeps (some key) h found =
      elim (Option-cases (row_of Tombstone.staging_key key s.tombstones)) [
        | inl none' ↦ rw none' h
        | inr (t, there) ↦ elim (Bool-cases (is_tombstone_of id index object_may_exist now t)) [
          | inr no' ↦ rw (there, no') h
          | inl yes' ↦ elim (Bool-cases object_may_exist) [
            | inl may ↦
                rw (there, yes', may)
                  (touch_tombstone-Keeps s key t (put_settled now) (refunding 0) (λ y. refl)
                    (λ y. refl) (λ y. refl) (λ y. refl) h there)
            | inr gone ↦
                rw (there, yes', gone)
                  (refund_tombstone-Keeps s key x.namespace_id t (refunding t.size_bytes) h there
                    (tombstone_home s id key x t h found there (ground arith)))
          ]
        ]
      ]

  restore_part-Keeps :
      (key : Option ℕ) (p : Part)
      → IsAccounted s
      → find_session id s ≡ some x
      → find_part id index s ≡ some p
      → is_deleted p.state ≡ true
      → Keeps (restore_part id index object_may_exist now x key p s)
  unfolding update_part_where
  restore_part-Keeps none p h found e gone = h
  restore_part-Keeps (some key) p h found e gone =
      elim (Bool-cases (not object_may_exist || is_none p.object_deleted_at)) [
        | inl yes' ↦ rw yes' h
        | inr no' ↦
            rw (no', e)
              (charge-Keeps s id index x p (λ q. q.staging_key == key && is_deleted q.state) _
                (pos p.size_bytes) (refunding 0) nothing h
                (λ _.
                  update_part-Charged s id index x p _ (pos p.size_bytes) (λ q. refl) h
                    (find_part-row s id index x p found e) (rw gone (omega arith))))
      ]

  release_reserved-Keeps :
      (p : Part)
      → IsAccounted s
      → find_session id s ≡ some x
      → find_part id index s ≡ some p
      → is_reserved p.state ≡ true
      → Keeps (release_reserved id index object_may_exist now x p s)
  unfolding update_part_where delete_part_where
  release_reserved-Keeps p h found e held = elim (Bool-cases object_may_exist) [
    | inl may ↦
        let (keyed, owes) =
          update_part-Charged s id index x p (λ q. record q { state = cleanup }) (pos 0) (λ q. refl)
            h at_p (rw (reserved-weight p held) refl) in
        rw (may, e) (keyed, Owes-IsBalanced x.namespace_id staged_bytes _ owes)
    | inr gone ↦
        let (keyed, owes) =
          delete_part-Charged s id index x p (minus p.size_bytes) h at_p
            (omega (arith, reserved-weight p held, sub_ℕ_parts 0 p.size_bytes)) in
        rw (gone, e)
          (Keeps-pure (change_usage x.namespace_id staged_bytes (minus p.size_bytes) _)
            (λ _. refunding p.size_bytes)
            (change_usage-Keeps x.namespace_id staged_bytes (minus p.size_bytes) _ keyed owes))
  ]
    where
      at_p : Found s id index x p
      at_p = find_part-row s id index x p found e

  release_found-Keeps :
      (key : Option ℕ)
      → IsAccounted s
      → find_session id s ≡ some x
      → Keeps (release_found id index object_may_exist now x key (find_part id index s) s)
  unfolding find_session
  release_found-Keeps key h found = elim (Option-cases (find_part id index s)) [
    | inl none' ↦ rw none' (release_missing-Keeps key h found)
    | inr (p, e) ↦ elim (Bool-cases (matches key p.staging_key)) [
      | inr other ↦ rw (e, other) (release_missing-Keeps key h found)
      | inl same ↦ elim (Bool-cases (is_deleted p.state)) [
        | inl gone ↦ rw (e, same, gone) (restore_part-Keeps key p h found e gone)
        | inr kept ↦ elim (Bool-cases (is_reserved p.state)) [
          | inr no' ↦ rw (e, same, kept, no') h
          | inl yes' ↦ rw (e, same, kept, yes') (release_reserved-Keeps p h found e yes')
        ]
      ]
    ]
  ]

pub release_part_reservation-Keeps :
    (id index : ℕ) (object_may_exist : Bool) (now : ℕ) (key : Option ℕ) (s : Store)
    → IsAccounted s
    → Keeps (release_part_reservation id index object_may_exist now key s)
unfolding release_part_reservation
release_part_reservation-Keeps id index object_may_exist now key s h =
    elim (Option-cases (find_session id s)) [
      | inl none' ↦ rw none' h
      | inr (x, found) ↦ rw found (
          lock_usage-then x.namespace_id _ s
            (release_found-Keeps id index object_may_exist now x s key h found))
    ]

pub mark_tombstone_deleted-Keeps :
    (key : ℕ) (observed : Option ℕ) (now : ℕ) (s : Store)
    → IsAccounted s
    → Keeps (mark_tombstone_deleted key observed now s)
unfolding mark_tombstone_deleted find_tombstone
mark_tombstone_deleted-Keeps key observed now s h =
    elim (Option-cases (row_of Tombstone.staging_key key s.tombstones)) [
      | inl none' ↦ rw none' h
      | inr (t, there) ↦ rw there (lock_usage-then t.namespace_id _ s (at t there))
    ]
  where
    at :
        (t : Tombstone)
        → row_of Tombstone.staging_key key s.tombstones ≡ some t
        → Keeps (confirm_tombstone key now observed t s)
    at t there = elim (Bool-cases (same_time observed t.put_settled_at)) [
      | inl same ↦
          rw same
            (refund_tombstone-Keeps s key t.namespace_id t (refunding t.size_bytes) h there refl)
      | inr other ↦ rw other (
          touch_tombstone-Keeps s key t (λ y. record y { deleted_at = some now }) (refunding 0)
            (λ y. refl) (λ y. refl) (λ y. refl) (λ y. refl) h there)
    ]

same_state-kept :
    (a b : PartState) → same_state a b ≡ true → is_deleted b ≡ false → is_deleted a ≡ false
same_state-kept reserved b h k = refl
same_state-kept stored b h k = refl
same_state-kept cleanup b h k = refl
same_state-kept deleted b h k = cc

module _ (id index key : ℕ) (expected_state : PartState) (now : ℕ) where
  mark_part-Keeps :
      (x : Session) (p : Part) (s : Store)
      → IsAccounted s
      → is_deleted expected_state ≡ false
      → find_session id s ≡ some x
      → find_part id index s ≡ some p
      → Keeps (mark_part id index key expected_state now x (some p) s)
  unfolding update_part_where
  mark_part-Keeps x p s h kept found e =
      elim (Bool-cases (
        not (is_expected id index key expected_state now p)
        || is_open x.state && not (is_cleanup expected_state))) [
          | inl yes' ↦ rw yes' h
          | inr no' ↦
              rw (no', e)
                (charge-Keeps s id index x p (is_expected id index key expected_state now) _
                  (minus p.size_bytes) (refunding p.size_bytes) nothing h
                  (λ yes'.
                    update_part-Charged s id index x p _ (minus p.size_bytes) (λ q. refl) h
                      (find_part-row s id index x p found e)
                      (rw (same_state-kept p.state expected_state (ground arith) kept)
                        (omega (arith, sub_ℕ_parts 0 p.size_bytes)))))
        ]

  pub mark_staging_object_deleted-Keeps :
      (s : Store)
      → IsAccounted s
      → Keeps (mark_staging_object_deleted id index key expected_state now s)
  unfolding mark_staging_object_deleted
  mark_staging_object_deleted-Keeps s h =
      elim (Bool-cases (is_deleted expected_state || is_reserved expected_state)) [
        | inl yes' ↦ rw yes' h
        | inr no' ↦ rw no' (at (find_session id s) refl (ground arith))
      ]
    where
      on_part :
          (x : Session) (found : Option Part)
          → find_part id index s ≡ found
          → find_session id s ≡ some x
          → is_deleted expected_state ≡ false
          → Keeps (mark_part id index key expected_state now x found s)
      on_part x none e found kept = h
      on_part x (some p) e found kept = mark_part-Keeps x p s h kept found e

      at :
          (found : Option Session)
          → find_session id s ≡ found
          → is_deleted expected_state ≡ false
          → Keeps (mark_session id index key expected_state now found s)
      at none e kept = h
      at (some x) e kept =
          lock_usage-then x.namespace_id _ s (on_part x (find_part id index s) refl e kept)
