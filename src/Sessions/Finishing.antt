-- ===== src/Sessions/Finishing.antt =====
-- About the claim to finish an upload: who may commit, and what a claim needs.
use storix.Base.{
  ℕ, ◌+◌, true, false, Option, none, some, List, String, ◌≡◌, ◌≢◌, refl, Result, ok, err, inl, inr,
  Bool-cases, Option-cases, arith, subst, sym, ap, ==→eq, ==_self,
}
use storix.Base.Int.{ℤ, pos, negsuc, ◌+ℤ◌}
use storix.Base.Rows.{row_of, update_row}
use storix.Base.Keys.{row_of-update_row}
use storix.Sessions.Tables.{
  SessionState, finalizing, completed, Session, Store, SessionError, claim_lost, counter_check,
  then_do, is_finalizing, is_equal, is_lease_live, has_namespace, lock_usage, UsageField,
  active_sessions, read_field, set_counter, change_row, change_usage, find_session, update_session,
}
use storix.Sessions.Books.{IsAccounted, IsRefused, Keeps}
use storix.Sessions.Rows.{with_sessions}
use storix.Sessions.Lifecycle.{
  answered, holds_claim, holds_live_claim, leased_until, fence_finalize, complete_finalize,
  fence_and_complete, renew_finalize, fail_finalize, release_finalize,
}
use storix.Sessions.Kept.Lifecycle.{fence_and_complete-Keeps}

-- The counters leave the sessions, and nothing but the CHECK fails.
abbrev Pays : List Session → Result SessionError (Unit {0} × Store) → Type 0
Pays xs (ok (_, s)) = s.sessions ≡ xs
Pays xs (err e) = e ≡ counter_check

set_counter-Pays :
    (key : Option ℕ) (field : UsageField) (amount : ℤ) (s : Store)
    → Pays s.sessions (set_counter key field amount s)
set_counter-Pays key field (pos n) s = refl
set_counter-Pays key field (negsuc n) s = refl

change_usage-Pays :
    (ns : ℕ) (field : UsageField) (amount : ℤ) (s : Store)
    → Pays s.sessions (change_usage ns field amount s)
unfolding change_usage change_row
change_usage-Pays ns field amount s =
    at (set_counter none field (pos (read_field field (s.usage none)) +ℤ amount) s)
      (set_counter-Pays none field _ s)
  where
    at :
        (r : Result SessionError (Unit {0} × Store))
        → Pays s.sessions r
        → Pays s.sessions (then_do (λ _. change_row (some ns) field amount) r)
    at (err e) h = h
    at (ok (_, s')) h =
        subst
          (λ xs. Pays xs (
            set_counter (some ns) field (pos (read_field field (s'.usage (some ns))) +ℤ amount) s'))
          h (set_counter-Pays (some ns) field _ s')

module _ (ns id token duration_ms now status : ℕ) (body : String) (then_now : ℕ) (s : Store) where
  abbrev answer : Session → Session
  answer x = answered completed then_now status body (leased_until ns id (now + duration_ms) x)

  abbrev Finished : Session → Result SessionError (Unit {0} × Store) → Type 0
  Finished x (ok (_, s')) = find_session id s' ≡ some (answer x)
  Finished x (err e) = e ≡ counter_check

  fence_and_complete-Finished :
      (x : Session)
      → has_namespace ns s.namespaces ≡ true
      → find_session id s ≡ some x
      → holds_live_claim ns id token now x ≡ true
      → Finished x (fence_and_complete ns id token duration_ms now status body then_now s)
  unfolding fence_and_complete fence_finalize complete_finalize lock_usage update_session
      find_session
  fence_and_complete-Finished x there found held =
      let fenced =
        row_of-update_row Session.id s.sessions id (leased_until ns id (now + duration_ms)) x
          (λ y. refl) found in
      let claim : holds_claim ns id token (leased_until ns id (now + duration_ms) x) ≡ true =
        ground arith in
      rw (there, found, held, fenced, claim, there)
        (at _ _
          (row_of-update_row Session.id _ id (answered completed then_now status body) _ (λ y. refl)
            fenced)
          (change_usage-Pays ns active_sessions (negsuc 0) (
            with_sessions
              (update_row Session.id id (answered completed then_now status body)
                (update_row Session.id id (leased_until ns id (now + duration_ms)) s.sessions))
              s)))
    where
      at :
          (xs : List Session) (r : Result SessionError (Unit {0} × Store))
          → row_of Session.id id xs ≡ some (answer x)
          → Pays xs r
          → Finished x r
      at xs (err e) last pays = pays
      at xs (ok (_, s')) last pays =
          subst (λ ys. row_of Session.id id ys ≡ some (answer x)) (sym pays) last

  -- The commit throws `claim_lost` where the claim is not held.
  pub fence_and_complete-lost_at :
      (found : Option Session)
      → find_session id s ≡ found
      → ((x : Session) → found ≡ some x → holds_live_claim ns id token now x ≡ false)
      → has_namespace ns s.namespaces ≡ true
      → fence_and_complete ns id token duration_ms now status body then_now s ≡ err claim_lost
  unfolding fence_and_complete fence_finalize lock_usage update_session
  fence_and_complete-lost_at none e free there = rw (there, e) refl
  fence_and_complete-lost_at (some x) e free there = rw (there, e, free x refl) refl

  -- So does the fence of the commit alone.
  pub fence_finalize-lost_at :
      (found : Option Session)
      → find_session id s ≡ found
      → ((x : Session) → found ≡ some x → holds_live_claim ns id token now x ≡ false)
      → has_namespace ns s.namespaces ≡ true
      → fence_finalize ns id token duration_ms now s ≡ err claim_lost
  unfolding fence_finalize lock_usage update_session
  fence_finalize-lost_at none e free there = rw (there, e) refl
  fence_finalize-lost_at (some x) e free there = rw (there, e, free x refl) refl

  fence_and_complete_ok :
      (r : Result SessionError (Unit {0} × Store)) (x : Session)
      → Keeps r
      → Finished x r
      → (s' : Store) × (r ≡ ok (tt, s')) × (find_session id s' ≡ some (answer x))
  fence_and_complete_ok (ok (_, s')) x k f = (s', refl, f)
  fence_and_complete_ok (err e) x k f = absurd (subst (λ o. IsRefused o) f k)

finalizing_state : (state : SessionState) → is_finalizing state ≡ true → state ≡ finalizing
finalizing_state finalizing h = refl
finalizing_state SessionState.opened h = cc
finalizing_state completed h = cc
finalizing_state SessionState.cancelled h = cc
finalizing_state SessionState.expired h = cc
finalizing_state SessionState.failed h = cc

equal_token : (held : Option ℕ) (token : ℕ) → is_equal held token ≡ true → held ≡ some token
equal_token none token h = cc
equal_token (some t) token h = ap some (==→eq t token h)

-- The fence and the answer go through only for a worker that holds the session: it is in state FINALIZING
-- in the namespace with the worker's token and a lease that has not run out at the fence.
pub fence_and_complete-held :
    (ns id token duration_ms now status : ℕ) (body : String) (then_now : ℕ) (s s' : Store)
    → has_namespace ns s.namespaces ≡ true
    → fence_and_complete ns id token duration_ms now status body then_now s ≡ ok (tt, s')
    → (x : Session) × (find_session id s ≡ some x)
      × (x.namespace_id ≡ ns)
      × (x.state ≡ finalizing)
      × (x.lease_token ≡ some token)
      × (is_lease_live x.lease_expires_at now ≡ true)
fence_and_complete-held ns id token duration_ms now status body then_now s s' there went =
    elim (Option-cases (find_session id s)) [
      | inl none' ↦ absurd (refused none none' (λ x e. cc) went)
      | inr (x, found) ↦ elim (Bool-cases (holds_live_claim ns id token now x)) [
        | inl held ↦ (
          x,
          found,
          ==→eq x.namespace_id ns (ground arith),
          finalizing_state x.state (ground arith),
          equal_token x.lease_token token (ground arith),
          ground arith,
        )
        | inr free ↦ absurd (
            refused (some x) found
              (λ y e. subst (λ z. holds_live_claim ns id token now z ≡ false) (some-inj x y e) free)
              went)
      ]
    ]
  where
    some-inj : (x y : Session) → some x ≡ some y → x ≡ y
    some-inj x y e = cc

    refused :
        (found : Option Session) {s' : Store}
        → find_session id s ≡ found
        → ((x : Session) → found ≡ some x → holds_live_claim ns id token now x ≡ false)
        → fence_and_complete ns id token duration_ms now status body then_now s ≡ ok (tt, s')
        → ⊥
    refused found e free went =
        let lost =
          fence_and_complete-lost_at ns id token duration_ms now status body then_now s found e free
            there in
        cc

-- In accounted tables they do go through for such a worker, and leave the session COMPLETED with no claim
-- and with the answer.
pub fence_and_complete-completed :
    (ns id token duration_ms now status : ℕ) (body : String) (then_now : ℕ) (s : Store)
    (x : Session)
    → IsAccounted s
    → has_namespace ns s.namespaces ≡ true
    → find_session id s ≡ some x
    → x.namespace_id ≡ ns
    → x.state ≡ finalizing
    → x.lease_token ≡ some token
    → is_lease_live x.lease_expires_at now ≡ true
    → (s' : Store) × (fence_and_complete ns id token duration_ms now status body then_now s
        ≡ ok (tt, s'))
      × ((z : Session) × (find_session id s' ≡ some z)
          × (z.state ≡ completed)
          × (z.lease_token ≡ none)
          × (z.response ≡ some (status, body)))
fence_and_complete-completed ns id token duration_ms now status body then_now s x h there found home
      state own live =
    let held : holds_live_claim ns id token now x ≡ true =
      rw (home, state, own, ==_self ns, ==_self token, live) refl in
    let (s', went, last) =
      fence_and_complete_ok ns id token duration_ms now status body then_now s _ x
        (fence_and_complete-Keeps ns id s token duration_ms now status body then_now h)
        (fence_and_complete-Finished ns id token duration_ms now status body then_now s x there
          found held) in
    (
      s',
      went,
      (answer ns id token duration_ms now status body then_now s x, last, refl, refl, refl),
    )

-- A worker whose token is not the one in the row of the session, because its claim was taken back or is
-- another's, changes nothing: its renewal, its failure and its release answer false and leave the tables,
-- and the fence of its commit throws `claim_lost`.
pub fence_finalize-late_worker :
    (ns id token duration_ms now : ℕ) (body code : String) (s : Store)
    → has_namespace ns s.namespaces ≡ true
    → ((x : Session) → find_session id s ≡ some x → x.lease_token ≢ some token)
    → (renew_finalize ns id token duration_ms now s ≡ ok (false, s))
      × (fail_finalize ns id token body now s ≡ ok (false, s))
      × (release_finalize ns id token code now s ≡ ok (false, s))
      × (fence_finalize ns id token duration_ms now s ≡ err claim_lost)
unfolding renew_finalize fail_finalize release_finalize update_session lock_usage
fence_finalize-late_worker ns id token duration_ms now body code s there late =
    at (find_session id s) refl
  where
    free : (x : Session) → find_session id s ≡ some x → is_equal x.lease_token token ≡ false
    free x found = elim (Bool-cases (is_equal x.lease_token token)) [
      | inl same ↦ absurd (late x found (equal_token x.lease_token token same))
      | inr other ↦ other
    ]

    at :
        (found : Option Session)
        → find_session id s ≡ found
        → (renew_finalize ns id token duration_ms now s ≡ ok (false, s))
          × (fail_finalize ns id token body now s ≡ ok (false, s))
          × (release_finalize ns id token code now s ≡ ok (false, s))
          × (fence_finalize ns id token duration_ms now s ≡ err claim_lost)
    at none e = (
      rw e refl,
      rw (there, e) refl,
      rw e refl,
      fence_finalize-lost_at ns id token duration_ms now 0 body 0 s none e (λ x n. cc) there,
    )
    at (some x) e =
        let not_held : holds_claim ns id token x ≡ false = ground (arith, free x e) in
        let not_live : holds_live_claim ns id token now x ≡ false = ground (arith, free x e) in
        (
          rw (e, not_live) refl,
          rw (there, e, not_live) refl,
          rw (e, not_held) refl,
          fence_finalize-lost_at ns id token duration_ms now 0 body 0 s (some x) e
              (λ y n. subst (λ o. at_most o) n not_live) there,
        )
      where
        at_most : Option Session → Type 0
        at_most none = Unit
        at_most (some z) = holds_live_claim ns id token now z ≡ false
