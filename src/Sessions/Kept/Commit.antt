-- ===== src/Sessions/Kept/Commit.antt =====
-- `commitPart` and the counters.
use storix.Base.{
  ℕ, ◌+◌, ◌*◌, min, Bool, true, false, not, ◌&&◌, ◌||◌, Option, none, some, String, refl, err, inl,
  inr, Bool-cases, arith, sym,
}
use storix.Sessions.Tables.{
  Part, Session, Store, SessionError, is_lease_live, is_reserved, lock_usage, find_session,
  find_part_row, update_part_where, pure, on_affected, update_session, is_open, is_past,
}
use storix.Sessions.Books.{IsAccounted, Keeps}
use storix.Sessions.Parts.{
  matches, store_part, commit_part, mark_stored, commit_renewed, commit_found, commit_current,
  commit_session,
}
use storix.Sessions.Columns.{update_session-Keeps}
use storix.Sessions.Charges.{Keeps-bind, lock_usage-Keeps, update_part_where-Keeps, reserved-weight}

module _ (id index : ℕ) (key inactivity : Option ℕ) (now : ℕ) (digest : String)
    (iv : Option String) where
  mark_stored-Keeps :
      (time : ℕ) (s : Store)
      → IsAccounted s
      → Keeps (mark_stored id index digest iv key inactivity now time s)
  mark_stored-Keeps time s h =
      Keeps-bind
        (update_part_where id index (λ p. is_reserved p.state && matches key p.staging_key)
          (store_part digest iv) s)
        _
        (update_part_where-Keeps id index _ (store_part digest iv) s (λ q. refl)
          (λ q yes'. sym (reserved-weight q (ground arith))) h)
        λ affected s' h'. at affected s' h'
    where
      at :
          (affected : Bool) (s' : Store)
          → IsAccounted s'
          → Keeps (on_affected (pure (some time)) (λ _. err SessionError.part_changed) affected s')
      at true s' h' = h'
      at false s' h' = tt

  commit_renewed-Keeps :
      (seconds : Option ℕ) (current : Session) (s : Store)
      → IsAccounted s
      → Keeps (commit_renewed id index digest iv key inactivity now seconds current s)
  unfolding commit_renewed
  commit_renewed-Keeps none current s h = mark_stored-Keeps current.expires_at s h
  commit_renewed-Keeps (some seconds) current s h =
      Keeps-bind
        (update_session id (λ x. is_open x.state && not (is_past x now))
          (λ x. record x { expires_at = min (now + seconds * 1000) current.max_expires_at }) s)
        _ (update_session-Keeps id _ _ (λ y. (refl, refl, refl)) s (λ y yes'. refl) h) at
    where
      at :
          (affected : Bool) (s' : Store)
          → IsAccounted s'
          → Keeps (
              on_affected
                (mark_stored id index digest iv key inactivity now
                  (min (now + seconds * 1000) current.max_expires_at))
                (pure none)
                affected
                s')
      at true s' h' = mark_stored-Keeps _ s' h'
      at false s' h' = h'

  commit_current-Keeps :
      (found : Option Session) (s : Store)
      → IsAccounted s
      → Keeps (commit_current id index digest iv key inactivity now found s)
  commit_current-Keeps none s h = h
  commit_current-Keeps (some current) s h =
      elim (Bool-cases (not (is_open current.state) || is_past current now)) [
        | inl yes' ↦ rw yes' h
        | inr no' ↦ rw no' (at (find_part_row index current))
      ]
    where
      at :
          (part : Option Part)
          → Keeps (commit_found id index digest iv key inactivity now current part s)
      at none = h
      at (some part) =
          elim (Bool-cases (
            is_reserved part.state
            && (is_lease_live part.lease_expires_at now && matches key part.staging_key))) [
              | inl yes' ↦ rw yes' (commit_renewed-Keeps inactivity current s h)
              | inr no' ↦ rw no' h
            ]

  pub commit_part-Keeps :
      (s : Store) → IsAccounted s → Keeps (commit_part id index digest iv key inactivity now s)
  unfolding commit_part
  commit_part-Keeps s h = at (find_session id s)
    where
      at :
          (found : Option Session)
          → Keeps (commit_session id index digest iv key inactivity now found s)
      at none = h
      at (some x) =
          Keeps-bind (lock_usage x.namespace_id s) _ (lock_usage-Keeps x.namespace_id s h)
            λ usage s' h'. commit_current-Keeps (find_session id s') s' h'
