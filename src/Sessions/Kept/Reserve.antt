-- ===== src/Sessions/Kept/Reserve.antt =====
-- `reservePart` and the counters.
use storix.Base.{
  ℕ, ◌+◌, ◌*◌, Bool, false, not, ◌||◌, Option, none, some, ◌∷◌, ◌==◌, ◌≡◌, refl, Result, ok, err,
  inl, inr, Bool-cases, Option-cases, arith, subst, ltb, leb,
}
use storix.Base.Int.{pos}
use storix.Base.Rows.{row_of, delete_row}
use storix.Base.Keys.{AllRows-row_of, row_of-update_row}
use storix.Upload.Policy.{UploadPolicyCaps, UploadPartAdmission, assess_upload_part_admission}
use storix.Sessions.Tables.{
  Part, Session, UsageCounters, Store, SessionError, ◌>>◌, then_do, is_deleted, lock_usage,
  assert_namespace_active, staged_bytes, change_usage, find_session, find_part_row, find_part,
  delete_part_where, set_parts, insert_part, put_parts, is_key_used, pure, is_open, is_past,
}
use storix.Sessions.Books.{IsAccounted, Keeps, change_usage-Keeps}
use storix.Sessions.Rows.{parts-IsKeyed_at, Owes-IsBalanced, parts-Owes}
use storix.Sessions.Parts.{
  ReserveUploadPartResult, new_part, reserved_part, delete_existing, insert_reservation,
  reserve_admitted, reserve_existing, reserve_current, reserve_found, reserve_part, pending_deletes,
  max_part_index, blocks, has_key,
}
use storix.Sessions.Charges.{
  Keeps-bind, Keeps-pure, lock_usage-Keeps, assert_namespace_active-Keeps, delete_part-Charged,
}

module _ (s : Store) (id : ℕ) (part : Part) (x : Session) where
  insert_part-Keeps :
      IsAccounted s
      → row_of Session.id id s.sessions ≡ some x
      → is_deleted part.state ≡ false
      → Keeps (
          (insert_part id part
              >> change_usage x.namespace_id staged_bytes (pos part.size_bytes)
              >> pure (reserved_part part))
            s)
  unfolding insert_part put_parts find_part find_session find_part_row
  insert_part-Keeps h found live = elim (Bool-cases (is_key_used part.staging_key s.sessions)) [
    | inl yes' ↦ rw yes' tt
    | inr no' ↦ elim (Option-cases (row_of Part.part_index part.part_index x.parts)) [
      | inr (old, e) ↦ rw (no', found, e) tt
      | inl new ↦
          let keyed =
            parts-IsKeyed_at s id (λ ps. part ∷ ps) x found
              (new, AllRows-row_of Session.id _ s.sessions id x h.0.1 found) h.0 in
          let owes =
            parts-Owes s id (λ y. y) x (λ ps. part ∷ ps) (pos part.size_bytes) h found
              (rw live (omega arith)) in
          rw (no', found, new)
            (Keeps-pure (change_usage x.namespace_id staged_bytes (pos part.size_bytes) _)
              (λ _. reserved_part part)
              (change_usage-Keeps x.namespace_id staged_bytes (pos part.size_bytes) _ keyed owes))
    ]
  ]

-- The session stands, in its namespace, once the old row of the part is deleted.
abbrev Stands : ℕ → Session → Store → Type 0
Stands id x s =
    IsAccounted s
    × ((x' : Session) × (row_of Session.id id s.sessions ≡ some x')
        × (x'.namespace_id ≡ x.namespace_id))

abbrev StandsAfter : ℕ → Session → Result SessionError (Bool × Store) → Type 0
StandsAfter id x (ok (_, s)) = Stands id x s
StandsAfter id x (err e) = ⊥

delete_existing-Stands :
    (id index : ℕ) (x : Session) (existing : Option Part) (s : Store)
    → IsAccounted s
    → row_of Session.id id s.sessions ≡ some x
    → StandsAfter id x (delete_existing id index existing s)
unfolding delete_part_where find_part find_session find_part_row
delete_existing-Stands id index x none s h found = (h, (x, found, refl))
delete_existing-Stands id index x (some old) s h found =
    elim (Option-cases (row_of Part.part_index index x.parts)) [
      | inl none' ↦ rw (found, none') (h, (x, found, refl))
      | inr (p, there) ↦ elim (Bool-cases (is_deleted p.state)) [
        | inr no' ↦ rw (found, there, no') (h, (x, found, refl))
        | inl yes' ↦
            let (keyed, owes) =
              delete_part-Charged s id index x p (pos 0) h (found, there) (rw yes' refl) in
            let stands =
              row_of-update_row Session.id s.sessions id
                (set_parts (delete_row Part.part_index index)) x (λ y. refl) found in
            rw (found, there, yes')
              (
                (keyed, Owes-IsBalanced x.namespace_id staged_bytes _ owes),
                (set_parts (delete_row Part.part_index index) x, stands, refl),
              )
      ]
    ]

module _ (id index amount key : ℕ) (caps : UploadPolicyCaps) (lease_seconds now : ℕ) where
  insert_reservation-Keeps :
      (x : Session) (existing : Option Part) (s : Store)
      → IsAccounted s
      → row_of Session.id id s.sessions ≡ some x
      → Keeps
          (insert_reservation id index amount key caps lease_seconds now x.namespace_id existing s)
  unfolding insert_reservation
  insert_reservation-Keeps x existing s h found =
      at (delete_existing id index existing s)
        (delete_existing-Stands id index x existing s h found)
    where
      part : Part
      part = new_part index amount key (now + lease_seconds * 1000)

      at :
          (r : Result SessionError (Bool × Store))
          → StandsAfter id x r
          → Keeps (
              then_do
                (λ _.
                  insert_part id part
                  >> change_usage x.namespace_id staged_bytes (pos amount)
                  >> pure (reserved_part part))
                r)
      at (err e) h = absurd h
      at (ok (_, s')) (h', (x', found', home)) =
          subst
            (λ n. Keeps (
              (insert_part id part
                  >> change_usage n staged_bytes (pos amount)
                  >> pure (reserved_part part))
                s'))
            home (insert_part-Keeps s' id part x' h' found' refl)

  reserve_admitted-Keeps :
      (usage : UsageCounters × UsageCounters) (x : Session) (existing : Option Part) (s : Store)
      → IsAccounted s
      → row_of Session.id id s.sessions ≡ some x
      → Keeps (reserve_admitted id index amount key caps lease_seconds now usage x existing s)
  unfolding reserve_admitted
  reserve_admitted-Keeps (global, own) x existing s h found =
      elim (Bool-cases (not (pending_deletes id index s.tombstones == 0))) [
        | inl yes' ↦ rw yes' h
        | inr settled ↦ elim (Bool-cases (has_key existing key)) [
          | inl yes' ↦ rw (settled, yes') h
          | inr other ↦ elim (Bool-cases (leb x.part_count index)) [
            | inl yes' ↦ rw (settled, other, yes') h
            | inr inside ↦
                rw (settled, other, inside)
                  (at (
                    assess_upload_part_admission x.size_bytes amount caps (record {
                      global_staged_bytes = global.staged_bytes;
                      namespace_staged_bytes = own.staged_bytes;
                    })))
          ]
        ]
      ]
    where
      at :
          (admission : UploadPartAdmission)
          → Keeps (elim admission [
            | UploadPartAdmission.allowed ↦
                insert_reservation id index amount key caps lease_seconds now x.namespace_id
                  existing s
            | UploadPartAdmission.file_too_large size max ↦
                ok (ReserveUploadPartResult.file_too_large, s)
            | UploadPartAdmission.limit ↦ ok (ReserveUploadPartResult.limit, s)
          ])
      at UploadPartAdmission.allowed = insert_reservation-Keeps x existing s h found
      at (UploadPartAdmission.file_too_large size max) = h
      at UploadPartAdmission.limit = h

  reserve_current-Keeps :
      (usage : UsageCounters × UsageCounters) (s : Store)
      → IsAccounted s
      → Keeps
          (reserve_current id index amount key caps lease_seconds now usage (find_session id s) s)
  unfolding reserve_current find_session
  reserve_current-Keeps usage s h = elim (Option-cases (row_of Session.id id s.sessions)) [
    | inl none' ↦ rw none' h
    | inr (x, found) ↦ elim (Bool-cases (not (is_open x.state) || is_past x now)) [
      | inl yes' ↦ rw (found, yes') h
      | inr no' ↦ rw (found, no') (at x found (find_part_row index x))
    ]
  ]
    where
      at :
          (x : Session)
          → row_of Session.id id s.sessions ≡ some x
          → (existing : Option Part)
          → Keeps (reserve_existing id index amount key caps lease_seconds now usage x existing s)
      at x found none = reserve_admitted-Keeps usage x none s h found
      at x found (some part) = elim (Bool-cases (blocks part)) [
        | inl yes' ↦ rw yes' h
        | inr no' ↦ rw no' (reserve_admitted-Keeps usage x (some part) s h found)
      ]

  pub reserve_part-Keeps :
      (s : Store)
      → IsAccounted s
      → Keeps (reserve_part id index amount key caps lease_seconds now s)
  unfolding reserve_part
  reserve_part-Keeps s h = elim (Bool-cases (amount == 0 || ltb max_part_index index)) [
    | inl yes' ↦ rw yes' h
    | inr no' ↦ rw no' (at (find_session id s))
  ]
    where
      at :
          (found : Option Session)
          → Keeps (reserve_found id index amount key caps lease_seconds now found s)
      at none = h
      at (some x) = elim (Bool-cases (not (is_open x.state))) [
        | inl yes' ↦ rw yes' h
        | inr no' ↦ rw no' (
            Keeps-bind (lock_usage x.namespace_id s) _ (lock_usage-Keeps x.namespace_id s h)
              λ usage s' h'.
                Keeps-bind (assert_namespace_active x.namespace_id s') _
                  (assert_namespace_active-Keeps x.namespace_id s' h')
                  λ _ s'' h''. reserve_current-Keeps usage s'' h'')
      ]
