-- ===== src/Sessions/Acknowledging.antt =====
-- About a PUT whose answer was lost: the read that looks for the committed part.
use storix.Base.{
  ℕ, ◌+◌, ◌*◌, min, true, not, ◌&&◌, ◌||◌, Option, none, some, ◌==◌, String, ◌≡◌, refl, Result, ok,
  inl, inr, Bool-cases, Option-cases, arith, subst,
}
use storix.Base.Rows.{row_of, update_row}
use storix.Base.Keys.{row_of-update_row}
use storix.Upload.Policy.{stored}
use storix.Sessions.Tables.{
  Part, Session, Store, SessionError, is_open, is_past, is_reserved, is_lease_live, lock_usage,
  has_namespace, find_session, find_part_row, find_part, update_session, update_part_where,
  set_parts,
}
use storix.Sessions.Parts.{store_part, mark_stored, commit_renewed, commit_found, commit_part}
use storix.Sessions.Queries.{find_stored_part_with_expiry}

module _ (id index : ℕ) (digest : String) (iv : Option String) (key : ℕ) (inactivity : Option ℕ)
    (now : ℕ) where
  -- What the read finds after a commit that went through.
  abbrev Reads : Result SessionError (Option ℕ × Store) → Type 0
  Reads (ok (some time, s)) =
      (p : Part) × (find_stored_part_with_expiry id index key s ≡ some (p, time))
      × (p.state ≡ stored)
      × (p.digest ≡ some digest)
      × (p.encryption_iv ≡ iv)
  Reads _ = Unit

  mark_stored-Reads :
      (x : Session) (s : Store)
      → find_session id s ≡ some x
      → Reads (mark_stored id index digest iv (some key) inactivity now x.expires_at s)
  unfolding find_session find_part find_part_row update_part_where find_stored_part_with_expiry
  mark_stored-Reads x s found = elim (Option-cases (row_of Part.part_index index x.parts)) [
    | inl none' ↦ rw (found, none') tt
    | inr (p, there) ↦ elim (Bool-cases (is_reserved p.state && p.staging_key == key)) [
      | inr no' ↦ rw (found, there, no') tt
      | inl held ↦
          let after =
            row_of-update_row Session.id s.sessions id
              (set_parts (update_row Part.part_index index (store_part digest iv))) x (λ y. refl)
              found in
          let part_after =
            row_of-update_row Part.part_index x.parts index (store_part digest iv) p (λ y. refl)
              there in
          let same : (p.staging_key == key) ≡ true = ground arith in
          rw (found, there, held, after, part_after, same)
            (store_part digest iv p, refl, refl, refl, refl)
    ]
  ]

  commit_renewed-Reads :
      (x : Session) (s : Store)
      → find_session id s ≡ some x
      → (seconds : Option ℕ)
      → Reads (commit_renewed id index digest iv (some key) inactivity now seconds x s)
  unfolding commit_renewed update_session find_session
  commit_renewed-Reads x s found none = mark_stored-Reads x s found
  commit_renewed-Reads x s found (some seconds) =
      elim (Bool-cases (is_open x.state && not (is_past x now))) [
        | inr no' ↦ rw (found, no') tt
        | inl yes' ↦
            let time = min (now + seconds * 1000) x.max_expires_at in
            let after =
              row_of-update_row Session.id s.sessions id (λ y. record y { expires_at = time }) x
                (λ y. refl) found in
            rw (found, yes') (mark_stored-Reads (record x { expires_at = time }) _ after)
      ]

  commit_found-Reads :
      (x : Session) (s : Store)
      → find_session id s ≡ some x
      → (part : Option Part)
      → Reads (commit_found id index digest iv (some key) inactivity now x part s)
  commit_found-Reads x s found none = tt
  commit_found-Reads x s found (some p) =
      elim (Bool-cases
        (is_reserved p.state && (is_lease_live p.lease_expires_at now && p.staging_key == key))) [
          | inl yes' ↦ rw yes' (commit_renewed-Reads x s found inactivity)
          | inr no' ↦ rw no' tt
        ]

  commit_part-Reads :
      (s : Store) → Reads (commit_part id index digest iv (some key) inactivity now s)
  unfolding commit_part lock_usage
  commit_part-Reads s = elim (Option-cases (find_session id s)) [
    | inl none' ↦ rw none' tt
    | inr (x, found) ↦ elim (Bool-cases (has_namespace x.namespace_id s.namespaces)) [
      | inr no' ↦ rw (found, no') tt
      | inl there ↦ elim (Bool-cases (not (is_open x.state) || is_past x now)) [
        | inl yes' ↦ rw (found, there, found, yes') tt
        | inr no' ↦
            rw (found, there, found, no') (commit_found-Reads x s found (find_part_row index x))
      ]
    ]
  ]

-- What a commit of a part wrote is what the recovery read finds: where `commitPart` with a staging key gave
-- a time of expiry, `findStoredPartWithExpiry` for that key gives the part, STORED with the committed digest
-- and vector, and the same time.
pub commit_part-find_stored_part_with_expiry :
    (id index : ℕ) (digest : String) (iv : Option String) (key : ℕ) (inactivity : Option ℕ)
    (now time : ℕ) (s s' : Store)
    → commit_part id index digest iv (some key) inactivity now s ≡ ok (some time, s')
    → (p : Part) × (find_stored_part_with_expiry id index key s' ≡ some (p, time))
      × (p.state ≡ stored)
      × (p.digest ≡ some digest)
      × (p.encryption_iv ≡ iv)
commit_part-find_stored_part_with_expiry id index digest iv key inactivity now time s s' e =
    subst (Reads id index digest iv key inactivity now) e
      (commit_part-Reads id index digest iv key inactivity now s)
