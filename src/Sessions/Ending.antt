-- ===== src/Sessions/Ending.antt =====
-- About calls on a session that has ended.
use storix.Base.{
  ℕ, String, true, false, ◌||◌, Option, none, some, ◌==◌, ◌≡◌, refl, ok, err, arith, ==_self, ltb,
  subst,
}
use storix.Upload.Policy.{UploadPolicyCaps}
use storix.Sessions.Tables.{
  SessionState, opened, finalizing, completed, cancelled, expired, failed, Session, Store,
  claim_lost, is_open, is_finalizing, is_live, has_namespace, is_active, lock_usage,
  assert_namespace_active, find_session, update_session,
}
use storix.Sessions.Parts.{closed, max_part_index, reserve_part, commit_part}
use storix.Sessions.Lifecycle.{
  holds_claim, holds_live_claim, claim_terminal_transition, renew_finalize, fail_finalize,
  release_finalize, renew_session, fence_finalize, complete_finalize,
}
use storix.Sessions.Finalize.{ClaimFinalizeResult, complete, claim_state, claim_finalize}
use storix.Sessions.Finishing.{fence_finalize-lost_at}

-- The answer to a claim: the stored one, or that the session is closed.
abbrev pub end_answer : SessionState → Session → ClaimFinalizeResult
end_answer completed x = complete x
end_answer failed x = complete x
end_answer _ x = ClaimFinalizeResult.closed

ended_open : (state : SessionState) → is_live state ≡ false → is_open state ≡ false
ended_open opened h = h
ended_open finalizing h = refl
ended_open completed h = refl
ended_open cancelled h = refl
ended_open expired h = refl
ended_open failed h = refl

ended_finalizing : (state : SessionState) → is_live state ≡ false → is_finalizing state ≡ false
ended_finalizing opened h = refl
ended_finalizing finalizing h = h
ended_finalizing completed h = refl
ended_finalizing cancelled h = refl
ended_finalizing expired h = refl
ended_finalizing failed h = refl

ended-claim_state :
    (ns id token duration_ms now claim_now : ℕ) (state : SessionState) (x : Session) (s : Store)
    → is_live state ≡ false
    → claim_state ns id token duration_ms now claim_now state x s ≡ ok (end_answer state x, s)
ended-claim_state ns id token duration_ms now claim_now opened x s h = cc
ended-claim_state ns id token duration_ms now claim_now finalizing x s h = cc
ended-claim_state ns id token duration_ms now claim_now completed x s h = refl
ended-claim_state ns id token duration_ms now claim_now cancelled x s h = refl
ended-claim_state ns id token duration_ms now claim_now expired x s h = refl
ended-claim_state ns id token duration_ms now claim_now failed x s h = refl

-- An ended session stays as it is: in its namespace, which is active, no part is reserved or committed, it
-- is not cancelled, expired or renewed, a worker can neither renew, fail nor release its claim, the fence
-- and the answer of its commit throw that the claim is lost, and a claim gives the stored answer of a
-- COMPLETED or FAILED session, and that it is closed otherwise. All but the two that throw leave the tables
-- as their result.
pub find_session-ended :
    (id index amount key : ℕ) (caps : UploadPolicyCaps) (lease_seconds now : ℕ)
    (digest body : String) (iv : Option String) (expected inactivity : Option ℕ)
    (next : SessionState) (token inactivity_seconds duration_ms claim_now status : ℕ) (x : Session)
    (s : Store)
    → find_session id s ≡ some x
    → is_live x.state ≡ false
    → has_namespace x.namespace_id s.namespaces ≡ true
    → is_active x.namespace_id s.namespaces ≡ true
    → (amount == 0 || ltb max_part_index index) ≡ false
    → (reserve_part id index amount key caps lease_seconds now s ≡ ok (closed, s))
      × (commit_part id index digest iv expected inactivity now s ≡ ok (none, s))
      × (claim_terminal_transition x.namespace_id id next now s ≡ ok (false, s))
      × (renew_session x.namespace_id id inactivity_seconds now s ≡ ok (none, s))
      × (renew_finalize x.namespace_id id token duration_ms now s ≡ ok (false, s))
      × (fail_finalize x.namespace_id id token body now s ≡ ok (false, s))
      × (release_finalize x.namespace_id id token body now s ≡ ok (false, s))
      × (fence_finalize x.namespace_id id token duration_ms now s ≡ err claim_lost)
      × (complete_finalize x.namespace_id id token status body now s ≡ err claim_lost)
      × (claim_finalize x.namespace_id id token duration_ms now claim_now s
          ≡ ok (end_answer x.state x, s))
unfolding reserve_part commit_part claim_terminal_transition renew_session renew_finalize
    fail_finalize release_finalize complete_finalize claim_finalize lock_usage
    assert_namespace_active update_session
find_session-ended id index amount key caps lease_seconds now digest body iv expected inactivity
      next token inactivity_seconds duration_ms claim_now status x s found over there active sane =
    let shut = ended_open x.state over in
    let idle = ended_finalizing x.state over in
    let own = ==_self x.namespace_id in
    let not_held : holds_claim x.namespace_id id token x ≡ false = ground arith in
    let not_live : holds_live_claim x.namespace_id id token now x ≡ false = ground arith in
    (
      rw (sane, found, shut) refl,
      rw (found, there, found, shut) refl,
      rw (there, found, own, shut) refl,
      rw (there, active, found, own, shut) refl,
      rw (found, not_live) refl,
      rw (there, found, not_live) refl,
      rw (found, not_held) refl,
      fence_finalize-lost_at x.namespace_id id token duration_ms now 0 body 0 s (some x) found
          (λ y n. subst at_most n not_live) there,
      rw (found, not_held) refl,
      rw (found, own, there, active, found, own)
          (ended-claim_state x.namespace_id id token duration_ms now claim_now x.state x s over),
    )
  where
    at_most : Option Session → Type 0
    at_most none = Unit
    at_most (some z) = holds_live_claim x.namespace_id id token now z ≡ false
