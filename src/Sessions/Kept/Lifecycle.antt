-- ===== src/Sessions/Kept/Lifecycle.antt =====
-- The operations on a whole session, and the counters.
use storix.Base.{
  ℕ, ◌+◌, ◌*◌, min, Bool, true, false, not, ◌||◌, Option, none, some, String, str_eq, ◌≡◌, ◌≢◌,
  refl, inl, inr, Bool-cases, Option-cases, arith, ==→eq, sym, leb,
}
use storix.Base.Int.{pos, negsuc}
use storix.Base.Rows.{AllRows, row_of}
use storix.Upload.Policy.{UploadPolicyCaps}
use storix.Sessions.Tables.{
  SessionState, opened, finalizing, completed, cancelled, expired, failed, Session, UsageCounters,
  Store, SessionError, M, ◌>>◌, pure, throw, on_affected, is_open, is_finalizing, is_live, is_past,
  active_sessions, change_usage, find_session, update_session,
}
use storix.Sessions.Books.{IsAccounted, Keeps, change_usage-Keeps}
use storix.Sessions.Rows.{insert_session-IsKeyed, insert_session-Owes}
use storix.Sessions.Charges.{Keeps-bind, Keeps-pure, lock_usage-then, assert_namespace_active-then}
use storix.Sessions.Columns.{update_session-Keeps, update_session-ends, one_less-Keeps}
use storix.Sessions.Lifecycle.{
  CreateUploadSessionInput, created, find_by_creation_key, new_session, insert_session,
  create_absent, create_session, ended, answered, one_less, in_namespace, some_or,
  claim_terminal_transition, holds_claim, holds_live_claim, renew_finalize, fence_finalize,
  complete_finalize, fail_finalize, reopened, release_finalize, renew_session, fence_and_complete,
}

pub some_or-Keeps :
    {A : Type 0} (found : Option Session) (a : A) (f : Session → M A) (s : Store)
    → IsAccounted s
    → ((x : Session) → Keeps (f x s))
    → Keeps (some_or found (pure a) f s)
some_or-Keeps none a f s h k = h
some_or-Keeps (some x) a f s h k = k x

-- No tombstone names the session.
abbrev pub IsNew : ℕ → Store → Type 0
IsNew id s = AllRows (λ t. t.session_id ≢ id) s.tombstones

module _ (input : CreateUploadSessionInput) (caps : UploadPolicyCaps) where
  inserted-Keeps :
      (s : Store)
      → IsNew input.id s
      → IsAccounted s
      → Keeps (
          (insert_session (new_session input)
              >> change_usage input.namespace_id active_sessions (pos 1)
              >> pure (created (new_session input)))
            s)
  unfolding insert_session find_session
  inserted-Keeps s fresh h = elim (Option-cases (row_of Session.id input.id s.sessions)) [
    | inr (x, e) ↦ rw e tt
    | inl new ↦ rw new (
        Keeps-pure (change_usage input.namespace_id active_sessions (pos 1) _)
          (λ _. created (new_session input))
          (change_usage-Keeps input.namespace_id active_sessions (pos 1) _
            (insert_session-IsKeyed s (new_session input) new refl fresh h.0)
            (insert_session-Owes s (new_session input) refl refl h.1)))
  ]

  create_absent-Keeps :
      (usage : UsageCounters × UsageCounters) (existing : Option Session) (s : Store)
      → IsNew input.id s
      → IsAccounted s
      → Keeps (create_absent input caps usage existing s)
  create_absent-Keeps (global, own) (some x) s fresh h =
      elim (Bool-cases (str_eq x.fingerprint input.fingerprint)) [
        | inl yes' ↦ rw yes' h
        | inr no' ↦ rw no' h
      ]
  create_absent-Keeps (global, own) none s fresh h =
      elim (Bool-cases (
        leb caps.global.max_active_sessions global.active_sessions
        || leb caps.namespace.max_active_sessions own.active_sessions)) [
          | inl yes' ↦ rw yes' h
          | inr no' ↦ rw no' (inserted-Keeps s fresh h)
        ]

  pub create_session-Keeps :
      (s : Store) → IsNew input.id s → IsAccounted s → Keeps (create_session input caps s)
  unfolding create_session
  create_session-Keeps s fresh h = lock_usage-then input.namespace_id _ s (
      assert_namespace_active-then input.namespace_id _ s (
        create_absent-Keeps (s.usage none, s.usage (some input.namespace_id))
          (find_by_creation_key input.namespace_id input.scope input.creation_key s.sessions) s
          fresh h))

pub open_live : (state : SessionState) → is_open state ≡ true → is_live state ≡ true
open_live opened h = refl
open_live finalizing h = refl
open_live completed h = h
open_live cancelled h = h
open_live expired h = h
open_live failed h = h

pub finalizing_live : (state : SessionState) → is_finalizing state ≡ true → is_live state ≡ true
finalizing_live opened h = refl
finalizing_live finalizing h = refl
finalizing_live completed h = h
finalizing_live cancelled h = h
finalizing_live expired h = h
finalizing_live failed h = h

claim_live :
    (ns id token : ℕ) (y : Session)
    → holds_claim ns id token y ≡ true
    → (y.namespace_id ≡ ns) × (is_live y.state ≡ true)
claim_live ns id token y h =
    (==→eq y.namespace_id ns (ground arith), finalizing_live y.state (ground arith))

module _ (ns id : ℕ) (s : Store) (h : IsAccounted s) where
  pub claim_terminal_transition-Keeps :
      (next : SessionState) (now : ℕ)
      → is_live next ≡ false
      → Keeps (claim_terminal_transition ns id next now s)
  unfolding claim_terminal_transition
  claim_terminal_transition-Keeps next now over = lock_usage-then ns _ s (
      some_or-Keeps (in_namespace ns (find_session id s)) false _ s h λ x.
        elim (Bool-cases (not (is_open x.state))) [
          | inl yes' ↦ rw yes' h
          | inr no' ↦ rw no' (
              update_session-ends id _ (ended next now) (λ y. (refl, refl, refl)) s ns
                (one_less ns >> pure true) (pure false)
                (λ y yes'.
                  (==→eq y.namespace_id ns (ground arith), open_live y.state (ground arith), over))
                (λ s' keyed owes. one_less-Keeps ns true s' keyed owes) h h)
        ])

  pub renew_finalize-Keeps :
      (token duration_ms now : ℕ) → Keeps (renew_finalize ns id token duration_ms now s)
  unfolding renew_finalize
  renew_finalize-Keeps token duration_ms now = some_or-Keeps (find_session id s) false _ s h λ x.
      elim (Bool-cases (holds_live_claim ns id token now x)) [
        | inl yes' ↦
            rw yes' (update_session-Keeps id _ _ (λ y. (refl, refl, refl)) s (λ y _. refl) h)
        | inr no' ↦ rw no' h
      ]

  pub fence_finalize-Keeps :
      (token duration_ms now : ℕ) → Keeps (fence_finalize ns id token duration_ms now s)
  unfolding fence_finalize
  fence_finalize-Keeps token duration_ms now = lock_usage-then ns _ s (
      Keeps-bind (update_session id (holds_live_claim ns id token now) _ s) _
        (update_session-Keeps id _ _ (λ y. (refl, refl, refl)) s (λ y _. refl) h) at)
    where
      at :
          (affected : Bool) (s' : Store)
          → IsAccounted s'
          → Keeps (on_affected (pure tt) (throw SessionError.claim_lost) affected s')
      at true s' h' = h'
      at false s' h' = tt

  pub complete_finalize-Keeps :
      (token status : ℕ) (body : String) (now : ℕ)
      → Keeps (complete_finalize ns id token status body now s)
  unfolding complete_finalize
  complete_finalize-Keeps token status body now =
      update_session-ends id _ (answered completed now status body) (λ y. (refl, refl, refl)) s ns _
        _ (λ y yes'. (let (home, live) = claim_live ns id token y yes' in (home, live, refl)))
        (λ s' keyed owes.
          lock_usage-then ns _ s' (change_usage-Keeps ns active_sessions (negsuc 0) s' keyed owes))
        tt h

  pub fail_finalize-Keeps :
      (token : ℕ) (body : String) (now : ℕ) → Keeps (fail_finalize ns id token body now s)
  unfolding fail_finalize
  fail_finalize-Keeps token body now = lock_usage-then ns _ s (
      update_session-ends id _ (answered failed now 422 body) (λ y. (refl, refl, refl)) s ns _ _
        (λ y yes'.
          (let (home, live) = claim_live ns id token y (ground arith) in (home, live, refl)))
        (λ s' keyed owes. one_less-Keeps ns true s' keyed owes) h h)

  pub release_finalize-Keeps :
      (token : ℕ) (code : String) (time : ℕ) → Keeps (release_finalize ns id token code time s)
  unfolding release_finalize
  release_finalize-Keeps token code time =
      update_session-Keeps id (holds_claim ns id token) (reopened ns id code time)
        (λ y. (refl, refl, refl)) s (λ y yes'. sym (claim_live ns id token y yes').1) h

  pub renew_session-Keeps :
      (inactivity_seconds now : ℕ) → Keeps (renew_session ns id inactivity_seconds now s)
  unfolding renew_session
  renew_session-Keeps seconds now = lock_usage-then ns _ s (
      assert_namespace_active-then ns _ s (
        some_or-Keeps (in_namespace ns (find_session id s)) none _ s h λ x.
          elim (Bool-cases (not (is_open x.state) || is_past x now)) [
            | inl yes' ↦ rw yes' h
            | inr no' ↦ rw no' (
                Keeps-bind (update_session id _ _ s) _
                  (update_session-Keeps id _ _ (λ y. (refl, refl, refl)) s (λ y _. refl) h)
                  (at (min (now + seconds * 1000) x.max_expires_at)))
          ]))
    where
      at :
          (time : ℕ) (affected : Bool) (s' : Store)
          → IsAccounted s'
          → Keeps (on_affected (pure (some time)) (pure none) affected s')
      at time true s' h' = h'
      at time false s' h' = h'

pub fence_and_complete-Keeps :
    (ns id : ℕ) (s : Store) (token duration_ms now status : ℕ) (body : String) (then_now : ℕ)
    → IsAccounted s
    → Keeps (fence_and_complete ns id token duration_ms now status body then_now s)
unfolding fence_and_complete
fence_and_complete-Keeps ns id s token duration_ms now status body then_now h =
    Keeps-bind (fence_finalize ns id token duration_ms now s) _
      (fence_finalize-Keeps ns id s h token duration_ms now)
      (λ _ s' h'. complete_finalize-Keeps ns id s' h' token status body then_now)
