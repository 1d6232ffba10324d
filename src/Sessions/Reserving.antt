-- ===== src/Sessions/Reserving.antt =====
-- About the limits on staged bytes when a part is reserved, and about a release whose object may exist.
use storix.Base.{
  ℕ, ◌+◌, ◌*◌, ◌≤◌, ◌<◌, Bool, not, ◌||◌, Option, none, some, ◌==◌, ltb, leb, ◌≡◌, refl, Result, ok,
  err, inl, inr, Bool-cases, Option-cases, arith, subst, ◌∙◌, ==_self,
}
use storix.Base.Int.{pos, ◌+ℤ◌}
use storix.Upload.Policy.{
  UploadPolicyCaps, UploadPartAdmission, Usage, assess_upload_part_admission,
  effective_max_staged_bytes,
}
use storix.Sessions.Tables.{
  Part, Session, UsageCounters, Store, SessionError, ◌>>◌, then_do, pure, is_open, is_past, is_none,
  is_deleted, has_namespace, is_active, lock_usage, assert_namespace_active, staged_bytes,
  change_row, change_usage, find_session, find_part_row, find_part, delete_part_where, insert_part,
  put_parts, is_key_used,
}
use storix.Sessions.Parts.{
  ReserveUploadPartResult, reserved_part, new_part, max_part_index, pending_deletes, blocks,
  has_key, delete_existing, insert_reservation, reserve_admitted, reserve_existing, reserve_current,
  reserve_part,
}

pub pos_+ℤ : (a n : ℕ) → pos a +ℤ pos n ≡ pos (a + n)
unfolding ◌+ℤ◌
pos_+ℤ a n = ground arith

assess-allowed :
    (size amount : ℕ) (caps : UploadPolicyCaps) (usage : Usage)
    → assess_upload_part_admission size amount caps usage ≡ UploadPartAdmission.allowed
    → (usage.global_staged_bytes + amount ≤ caps.global.max_staged_bytes)
      × (usage.namespace_staged_bytes + amount ≤ caps.namespace.max_staged_bytes)
      × (size ≤ caps.global.max_staged_bytes)
      × (size ≤ caps.namespace.max_staged_bytes)
unfolding assess_upload_part_admission effective_max_staged_bytes
assess-allowed size amount caps usage e = (ground arith, ground arith, ground arith, ground arith)

-- The counters of two rows after a charge, by the counters before.
abbrev Charges : ℕ → ℕ → (Option ℕ → UsageCounters) → Store → Type 0
Charges ns n usage s =
    ((s.usage none).staged_bytes ≡ (usage none).staged_bytes + n)
    × ((s.usage (some ns)).staged_bytes ≡ (usage (some ns)).staged_bytes + n)

-- A result that reserved a part has charged it.
abbrev Reserves :
    (ns n : ℕ)
    → (Option ℕ → UsageCounters)
    → Result SessionError (ReserveUploadPartResult × Store)
    → Type 0
Reserves ns n usage (ok (reserved_part p, s)) = Charges ns n usage s
Reserves ns n usage _ = Unit

charged :
    (ns n : ℕ) (p : Part) (s : Store)
    → Reserves ns n s.usage ((change_usage ns staged_bytes (pos n) >> pure (reserved_part p)) s)
unfolding change_usage change_row
charged ns n p s =
    rw (pos_+ℤ (s.usage none).staged_bytes n, pos_+ℤ (s.usage (some ns)).staged_bytes n, ==_self ns)
      (refl, refl)

-- The DELETE and the INSERT leave the counters.
abbrev SameUsage : {A : Type 0} → Store → Result SessionError (A × Store) → Type 0
SameUsage s (ok (_, s')) = s'.usage ≡ s.usage
SameUsage s (err e) = Unit

delete_existing-SameUsage :
    (id index : ℕ) (existing : Option Part) (s : Store)
    → SameUsage s (delete_existing id index existing s)
unfolding delete_part_where
delete_existing-SameUsage id index none s = refl
delete_existing-SameUsage id index (some part) s = elim (Option-cases (find_part id index s)) [
  | inl none' ↦ rw none' refl
  | inr (p, e) ↦ elim (Bool-cases (is_deleted p.state)) [
    | inl yes' ↦ rw (e, yes') refl
    | inr no' ↦ rw (e, no') refl
  ]
]

insert_part-SameUsage : (id : ℕ) (part : Part) (s : Store) → SameUsage s (insert_part id part s)
unfolding insert_part put_parts
insert_part-SameUsage id part s =
    elim (Bool-cases
      (is_key_used part.staging_key s.sessions || not (is_none (find_part id part.part_index s)))) [
        | inl yes' ↦ rw yes' tt
        | inr no' ↦ rw no' refl
      ]

module _ (id index amount key : ℕ) (caps : UploadPolicyCaps) (lease_seconds now : ℕ) where
  insert_reservation-Reserves :
      (ns : ℕ) (existing : Option Part) (s : Store)
      → Reserves ns amount s.usage
          (insert_reservation id index amount key caps lease_seconds now ns existing s)
  unfolding insert_reservation
  insert_reservation-Reserves ns existing s =
      deleted (delete_existing id index existing s) (delete_existing-SameUsage id index existing s)
    where
      part : Part
      part = new_part index amount key (now + lease_seconds * 1000)

      inserted :
          (s' : Store) (r : Result SessionError (Unit × Store))
          → s'.usage ≡ s.usage
          → SameUsage s' r
          → Reserves ns amount s.usage (
              then_do
                (λ _. pure (reserved_part part))
                (then_do (λ _. change_usage ns staged_bytes (pos amount)) r))
      inserted s' (err e) same k = tt
      inserted s' (ok (_, s'')) same k =
          subst
            (λ u.
              Reserves ns amount u
                ((change_usage ns staged_bytes (pos amount) >> pure (reserved_part part)) s''))
            (k ∙ same) (charged ns amount part s'')

      deleted :
          (r : Result SessionError (Bool × Store))
          → SameUsage s r
          → Reserves ns amount s.usage (
              then_do
                (λ _.
                  insert_part id part
                  >> change_usage ns staged_bytes (pos amount)
                  >> pure (reserved_part part))
                r)
      deleted (err e) k = tt
      deleted (ok (_, s')) k =
          inserted s' (insert_part id part s') k (insert_part-SameUsage id part s')

  -- What is within the limits, and the part that was asked for is one of the session's.
  abbrev Within : Session → Result SessionError (ReserveUploadPartResult × Store) → Type 0
  Within x (ok (reserved_part p, s)) =
      ((s.usage none).staged_bytes ≤ caps.global.max_staged_bytes)
      × ((s.usage (some x.namespace_id)).staged_bytes ≤ caps.namespace.max_staged_bytes)
      × (index < x.part_count)
      × (x.size_bytes ≤ caps.global.max_staged_bytes)
      × (x.size_bytes ≤ caps.namespace.max_staged_bytes)
  Within x _ = Unit

  abbrev Fits : Session → (Option ℕ → UsageCounters) → Type 0
  Fits x usage =
      ((usage none).staged_bytes + amount ≤ caps.global.max_staged_bytes)
      × ((usage (some x.namespace_id)).staged_bytes + amount ≤ caps.namespace.max_staged_bytes)
      × (index < x.part_count)
      × (x.size_bytes ≤ caps.global.max_staged_bytes)
      × (x.size_bytes ≤ caps.namespace.max_staged_bytes)

  Reserves-Within :
      (x : Session) (s : Store) (r : Result SessionError (ReserveUploadPartResult × Store))
      → Fits x s.usage
      → Reserves x.namespace_id amount s.usage r
      → Within x r
  Reserves-Within x s (err e) f k = tt
  Reserves-Within x s (ok (reserved_part p, s')) (g, n, i, z, z') (k, l) =
      (omega (arith, k, g), omega (arith, l, n), i, z, z')
  Reserves-Within x s (ok (ReserveUploadPartResult.exists p, s')) f k = tt
  Reserves-Within x s (ok (ReserveUploadPartResult.limit, s')) f k = tt
  Reserves-Within x s (ok (ReserveUploadPartResult.closed, s')) f k = tt
  Reserves-Within x s (ok (ReserveUploadPartResult.invalid, s')) f k = tt
  Reserves-Within x s (ok (ReserveUploadPartResult.in_progress, s')) f k = tt
  Reserves-Within x s (ok (ReserveUploadPartResult.file_too_large, s')) f k = tt

  reserve_admitted-Within :
      (x : Session) (existing : Option Part) (s : Store)
      → Within x (
          reserve_admitted id index amount key caps lease_seconds now
            (s.usage none, s.usage (some x.namespace_id))
            x
            existing
            s)
  unfolding reserve_admitted
  reserve_admitted-Within x existing s =
      elim (Bool-cases (not (pending_deletes id index s.tombstones == 0))) [
        | inl yes' ↦ rw yes' tt
        | inr settled ↦ elim (Bool-cases (has_key existing key)) [
          | inl yes' ↦ rw (settled, yes') tt
          | inr other ↦ elim (Bool-cases (leb x.part_count index)) [
            | inl yes' ↦ rw (settled, other, yes') tt
            | inr inside ↦
                rw (settled, other, inside)
                  (at (assess_upload_part_admission x.size_bytes amount caps charged_usage) refl
                    (ground arith))
          ]
        ]
      ]
    where
      charged_usage : Usage
      charged_usage = record {
        global_staged_bytes = (s.usage none).staged_bytes;
        namespace_staged_bytes = (s.usage (some x.namespace_id)).staged_bytes;
      }

      at :
          (admission : UploadPartAdmission)
          → assess_upload_part_admission x.size_bytes amount caps charged_usage ≡ admission
          → index < x.part_count
          → Within x (elim admission [
            | UploadPartAdmission.allowed ↦
                insert_reservation id index amount key caps lease_seconds now x.namespace_id
                  existing s
            | UploadPartAdmission.file_too_large size max ↦
                ok (ReserveUploadPartResult.file_too_large, s)
            | UploadPartAdmission.limit ↦ ok (ReserveUploadPartResult.limit, s)
          ])
      at UploadPartAdmission.allowed e inside =
          let (g, n, z, z') = assess-allowed x.size_bytes amount caps charged_usage e in
          Reserves-Within x s _ (g, n, inside, z, z')
            (insert_reservation-Reserves x.namespace_id existing s)
      at (UploadPartAdmission.file_too_large size max) e inside = tt
      at UploadPartAdmission.limit e inside = tt

  reserve_existing-Within :
      (x : Session) (existing : Option Part) (s : Store)
      → Within x (
          reserve_existing id index amount key caps lease_seconds now
            (s.usage none, s.usage (some x.namespace_id))
            x
            existing
            s)
  reserve_existing-Within x none s = reserve_admitted-Within x none s
  reserve_existing-Within x (some part) s = elim (Bool-cases (blocks part)) [
    | inl yes' ↦ rw yes' tt
    | inr no' ↦ rw no' (reserve_admitted-Within x (some part) s)
  ]

  reserve_part-Within :
      (x : Session) (s : Store)
      → find_session id s ≡ some x
      → Within x (reserve_part id index amount key caps lease_seconds now s)
  unfolding reserve_part reserve_current lock_usage assert_namespace_active
  reserve_part-Within x s found = elim (Bool-cases (amount == 0 || ltb max_part_index index)) [
    | inl yes' ↦ rw yes' tt
    | inr sane ↦ elim (Bool-cases (not (is_open x.state))) [
      | inl yes' ↦ rw (sane, found, yes') tt
      | inr opened' ↦ elim (Bool-cases (has_namespace x.namespace_id s.namespaces)) [
        | inr no' ↦ rw (sane, found, opened', no') tt
        | inl there ↦ elim (Bool-cases (is_active x.namespace_id s.namespaces)) [
          | inr no' ↦ rw (sane, found, opened', there, no') tt
          | inl active ↦ elim (Bool-cases (is_past x now)) [
            | inl yes' ↦ rw (sane, found, opened', there, active, found, opened', yes') tt
            | inr no' ↦
                rw (sane, found, opened', there, active, found, opened', no')
                  (reserve_existing-Within x (find_part_row index x) s)
          ]
        ]
      ]
    ]
  ]

  -- Where a part is reserved in a session, the staged bytes of the service and of the namespace are within
  -- both limits after it, its index is one of the session's, and the file fits the limits too.
  pub reserve_part-caps :
      (x : Session) (s s' : Store) (p : Part)
      → find_session id s ≡ some x
      → reserve_part id index amount key caps lease_seconds now s ≡ ok (reserved_part p, s')
      → ((s'.usage none).staged_bytes ≤ caps.global.max_staged_bytes)
        × ((s'.usage (some x.namespace_id)).staged_bytes ≤ caps.namespace.max_staged_bytes)
        × (index < x.part_count)
        × (x.size_bytes ≤ caps.global.max_staged_bytes)
        × (x.size_bytes ≤ caps.namespace.max_staged_bytes)
  reserve_part-caps x s s' p found e = subst (Within x) e (reserve_part-Within x s found)
