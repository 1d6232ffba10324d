-- ===== src/Sessions/Kept/Finalize.antt =====
-- The claim to finish, the recovery of stale claims and the removal of ended sessions, and the counters.
use storix.Base.{
  ℕ, ◌+◌, Bool, true, false, not, ◌&&◌, ◌||◌, Option, some, List, [], ◌∷◌, ◌≡◌, refl, inl, inr,
  Bool-cases, Option-cases, arith, sym, has,
}
use storix.Base.Rows.{
  sum_of, AllRows-map, row_of, rows_where, update_where, delete_row, sum_of-update_where,
  sum_of-rows_where, sum_of-delete_row, AllRows-rows_where, AllRows-update_where,
}
use storix.Base.Keys.{AllRows-delete_row, HasKey-update_where, HasKey-rows_where, HasKey-delete_row}
use storix.Sessions.Tables.{
  SessionState, opened, finalizing, completed, cancelled, expired, failed, Part, Session, Store,
  pure, on_affected, is_live, is_past, UsageField, read_field, active_sessions, staged_bytes,
  find_session, update_session,
}
use storix.Sessions.Books.{
  live_weight, part_weight, staged_weight, IsAccounted, IsBalanced, SameHome, Keeps, total,
}
use storix.Sessions.Rows.{with_sessions}
use storix.Sessions.Charges.{Keeps-bind, lock_usage-then, assert_namespace_active-then}
use storix.Sessions.Columns.{update_session-Keeps}
use storix.Sessions.Lifecycle.{in_namespace}
use storix.Sessions.Finalize.{
  ClaimFinalizeResult, stored_parts, is_all_stored, leased, claim_open, claim_state, claim_finalize,
  is_stale, reopen, recover_stale_finalizing_leases, has_object, is_prunable, prune_session,
  is_settled, delete_settled_sessions,
}
use storix.Sessions.Kept.Lifecycle.{some_or-Keeps, open_live, finalizing_live}

module _ (ns id token duration_ms now claim_now : ℕ) (s : Store) (h : IsAccounted s) where
  claim_open-Keeps : (x : Session) → Keeps (claim_open ns id token duration_ms now claim_now x s)
  claim_open-Keeps x = elim (Bool-cases (is_past x now)) [
    | inl yes' ↦ rw yes' h
    | inr early ↦ elim (Bool-cases (is_all_stored x)) [
      | inr no' ↦ rw (early, no') h
      | inl all ↦ elim (Bool-cases (is_past x claim_now)) [
        | inl yes' ↦ rw (early, all, yes') h
        | inr no' ↦
            rw (early, all, no')
              (Keeps-bind (update_session id _ _ s) _
                (update_session-Keeps id _ (leased token (claim_now + duration_ms))
                  (λ y. (refl, refl, refl)) s (λ y yes'. sym (open_live y.state (ground arith))) h)
                at)
      ]
    ]
  ]
    where
      at :
          (affected : Bool) (s' : Store)
          → IsAccounted s'
          → Keeps (
              on_affected
                (pure (ClaimFinalizeResult.claimed token x (stored_parts x.parts)))
                (pure ClaimFinalizeResult.busy)
                affected
                s')
      at true s' h' = h'
      at false s' h' = h'

  claim_state-Keeps :
      (state : SessionState) (x : Session)
      → Keeps (claim_state ns id token duration_ms now claim_now state x s)
  claim_state-Keeps opened x = claim_open-Keeps x
  claim_state-Keeps finalizing x = h
  claim_state-Keeps completed x = h
  claim_state-Keeps cancelled x = h
  claim_state-Keeps expired x = h
  claim_state-Keeps failed x = h

  pub claim_finalize-Keeps : Keeps (claim_finalize ns id token duration_ms now claim_now s)
  unfolding claim_finalize
  claim_finalize-Keeps =
      some_or-Keeps (in_namespace ns (find_session id s)) ClaimFinalizeResult.not_found _ s h λ _.
        lock_usage-then ns _ s (
          assert_namespace_active-then ns _ s (
            some_or-Keeps (in_namespace ns (find_session id s)) ClaimFinalizeResult.not_found _ s h
              λ x. claim_state-Keeps x.state x))

pub recover_stale_finalizing_leases-Keeps :
    (ids : List ℕ) (now : ℕ) (s : Store)
    → IsAccounted s
    → Keeps (recover_stale_finalizing_leases ids now s)
unfolding recover_stale_finalizing_leases reopen
recover_stale_finalizing_leases-Keeps ids now s ((keys, parts, tombs, homes), balanced) = (
  (
    HasKey-update_where Session.id test reopen s.sessions (λ x. refl) keys,
    AllRows-update_where _ test reopen s.sessions (λ x k. k) parts,
    tombs,
    AllRows-map _ _ s.tombstones
        (λ t home. AllRows-update_where (SameHome t) test reopen s.sessions (λ x k. k) home) homes,
  ),
  at,
)
  where
    test : Session → Bool
    test x = has ids x.id && is_stale now x

    at :
        (field : UsageField) (key : Option ℕ)
        → read_field field (s.usage key)
          ≡ total field key (record s { sessions = update_where test reopen s.sessions })
    at active_sessions key =
        rw
          (sum_of-update_where (live_weight key) test reopen s.sessions
            (λ x yes'. rw (finalizing_live x.state (ground arith)) refl))
          (balanced active_sessions key)
    at staged_bytes key =
        rw (sum_of-update_where (staged_weight key) test reopen s.sessions (λ x yes'. refl))
          (balanced staged_bytes key)

-- An ended session whose parts have no objects weighs nothing.
ended-weight : (key : Option ℕ) (x : Session) → is_live x.state ≡ false → live_weight key x ≡ 0
ended-weight key x over = rw over (ground arith)

has_object-weight : (parts : List Part) → has_object parts ≡ false → sum_of part_weight parts ≡ 0
unfolding has_object
has_object-weight [] h = refl
has_object-weight (p ∷ rest) h = ground (arith, has_object-weight rest)

empty-weight : (key : Option ℕ) (x : Session) → has_object x.parts ≡ false → staged_weight key x ≡ 0
empty-weight key x none' = rw (has_object-weight x.parts none') (ground arith)

-- One session is deleted, or all that a test picks.
deleted-IsAccounted :
    (s : Store) (id : ℕ) (x : Session)
    → IsAccounted s
    → row_of Session.id id s.sessions ≡ some x
    → is_live x.state ≡ false
    → has_object x.parts ≡ false
    → IsAccounted (with_sessions (delete_row Session.id id s.sessions) s)
deleted-IsAccounted s id x ((keys, parts, tombs, homes), balanced) e over none' = (
  (
    HasKey-delete_row Session.id s.sessions id keys,
    AllRows-delete_row Session.id _ s.sessions id parts,
    tombs,
    AllRows-map _ _ s.tombstones
        (λ t home. AllRows-delete_row Session.id (SameHome t) s.sessions id home) homes,
  ),
  at,
)
  where
    at : IsBalanced (with_sessions (delete_row Session.id id s.sessions) s)
    at active_sessions key = omega (
      arith,
      balanced active_sessions key,
      ended-weight key x over,
      sum_of-delete_row Session.id (live_weight key) s.sessions id x keys e,
    )
    at staged_bytes key = omega (
      arith,
      balanced staged_bytes key,
      empty-weight key x none',
      sum_of-delete_row Session.id (staged_weight key) s.sessions id x keys e,
    )

rows_where-IsAccounted :
    (s : Store) (test : Session → Bool)
    → IsAccounted s
    → ((x : Session) → test x ≡ false → (is_live x.state ≡ false) × (has_object x.parts ≡ false))
    → IsAccounted (with_sessions (rows_where test s.sessions) s)
rows_where-IsAccounted s test ((keys, parts, tombs, homes), balanced) gone = (
  (
    HasKey-rows_where Session.id test s.sessions keys,
    AllRows-rows_where _ test s.sessions parts,
    tombs,
    AllRows-map _ _ s.tombstones (λ t home. AllRows-rows_where (SameHome t) test s.sessions home)
        homes,
  ),
  at,
)
  where
    at : IsBalanced (with_sessions (rows_where test s.sessions) s)
    at active_sessions key = omega (
      arith,
      balanced active_sessions key,
      sum_of-rows_where (live_weight key) test s.sessions
          (λ x no'. ended-weight key x (gone x no').0),
    )
    at staged_bytes key = omega (
      arith,
      balanced staged_bytes key,
      sum_of-rows_where (staged_weight key) test s.sessions
          (λ x no'. empty-weight key x (gone x no').1),
    )

pub prune_session-Keeps :
    (before id : ℕ) (s : Store) → IsAccounted s → Keeps (prune_session before id s)
unfolding prune_session find_session
prune_session-Keeps before id s h = elim (Option-cases (row_of Session.id id s.sessions)) [
  | inl none' ↦ rw none' h
  | inr (x, e) ↦ elim (Bool-cases (has_object x.parts || not (is_prunable before x))) [
    | inl yes' ↦ rw (e, yes') h
    | inr no' ↦ rw (e, no') (deleted-IsAccounted s id x h e (ground arith) (ground arith))
  ]
]

pub delete_settled_sessions-Keeps :
    (ns : ℕ) (s : Store) → IsAccounted s → Keeps (delete_settled_sessions ns s)
unfolding delete_settled_sessions
delete_settled_sessions-Keeps ns s h = lock_usage-then ns _ s (
    rows_where-IsAccounted s (λ x. not (is_settled ns s x)) h
      (λ x no'. (ground arith, ground arith)))
