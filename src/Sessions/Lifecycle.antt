-- ===== src/Sessions/Lifecycle.antt =====
-- The operations on a whole session: its creation, the claim to finish it and the end of the claim,
-- renewal, cancellation and expiry, and the removal of settled sessions. `now` is the clock that the
-- transaction reads; a new lease token is an argument.
use storix.Base.{
  ℕ, ◌+◌, ◌*◌, min, String, Bool, true, false, not, ◌&&◌, ◌||◌, Option, none, some, List, [], ◌∷◌,
  leb, ◌==◌, str_eq, if◌then◌else◌, ok, err,
}
use storix.Base.Int.{pos, negsuc}
use storix.Upload.Policy.{UploadPolicyCaps}
use storix.Sessions.Tables.{
  SessionState, opened, completed, expired, failed, Session, UsageCounters, claim_lost, constraint,
  M, on_affected, ◌>>=◌, ◌>>◌, pure, throw, is_open, is_finalizing, is_lease_live, is_equal,
  is_past, is_none, lock_usage, assert_namespace_active, active_sessions, change_usage,
  find_session, update_session,
}

pub record CreateUploadSessionInput : Type 0 where
  pub id : ℕ
  pub namespace_id : ℕ
  pub scope : String
  pub creation_key : ℕ
  pub fingerprint : String
  pub size_bytes : ℕ
  pub part_count : ℕ
  pub expires_at : ℕ
  pub max_expires_at : ℕ

pub data CreateUploadSessionResult : Type 0 where
  created replay : Session → CreateUploadSessionResult
  conflict limit : CreateUploadSessionResult

unfoldable pub find_by_creation_key :
    (ns : ℕ) → (scope : String) → (key : ℕ) → List Session → Option Session
find_by_creation_key ns scope key [] = none
find_by_creation_key ns scope key (x ∷ rest) =
    if x.namespace_id == ns && (str_eq x.scope scope && x.creation_key == key)
    then some x
    else find_by_creation_key ns scope key rest

abbrev pub new_session : CreateUploadSessionInput → Session
new_session input = record {
  id = input.id;
  namespace_id = input.namespace_id;
  scope = input.scope;
  creation_key = input.creation_key;
  fingerprint = input.fingerprint;
  size_bytes = input.size_bytes;
  part_count = input.part_count;
  state = opened;
  lease_expires_at = none;
  lease_token = none;
  expires_at = input.expires_at;
  max_expires_at = input.max_expires_at;
  terminal_at = none;
  response = none;
  last_complete_failure = none;
  parts = [];
}

-- The primary key of the table.
unfoldable pub insert_session : Session → M (Unit {0})
unfolding find_session
insert_session x s =
    if is_none (find_session x.id s)
    then ok (tt, record s { sessions = x ∷ s.sessions })
    else err constraint

module _ (input : CreateUploadSessionInput) (caps : UploadPolicyCaps) where
  abbrev pub create_absent :
      UsageCounters × UsageCounters → Option Session → M CreateUploadSessionResult
  create_absent usage (some existing) =
      if str_eq existing.fingerprint input.fingerprint
      then pure (replay existing)
      else pure conflict
  create_absent (global, own) none =
      if leb caps.global.max_active_sessions global.active_sessions
        || leb caps.namespace.max_active_sessions own.active_sessions
      then pure limit
      else insert_session (new_session input)
        >> change_usage input.namespace_id active_sessions (pos 1)
        >> pure (created (new_session input))

  unfoldable pub create_session : M CreateUploadSessionResult
  unfolding find_by_creation_key insert_session change_usage
  create_session = lock_usage input.namespace_id >>= λ usage.
      assert_namespace_active input.namespace_id >> λ s.
      create_absent usage
        (find_by_creation_key input.namespace_id input.scope input.creation_key s.sessions) s

-- How a claim ends and how a session does.
abbrev pub ended : SessionState → (now : ℕ) → Session → Session
ended next now x = record x {
  state = next;
  terminal_at = some now;
  lease_expires_at = none;
  lease_token = none;
  last_complete_failure = none;
}

abbrev pub answered : SessionState → (now status : ℕ) → (body : String) → Session → Session
answered next now status body x = record x {
  state = next;
  terminal_at = some now;
  lease_expires_at = none;
  lease_token = none;
  last_complete_failure = none;
  response = some (status, body);
}

-- `one_less` is changeUsage by -1n after a statement that affected the row.
abbrev pub one_less : ℕ → M (Unit {0})
one_less ns = change_usage ns active_sessions (negsuc 0)

abbrev pub is_expired_state : SessionState → Bool
is_expired_state expired = true
is_expired_state _ = false

-- `findOneBy({ id, namespaceId })`
abbrev pub in_namespace : ℕ → Option Session → Option Session
in_namespace ns none = none
in_namespace ns (some x) = if x.namespace_id == ns then some x else none

abbrev pub some_or : {A : Type 0} → Option Session → A → (Session → A) → A
some_or none a f = a
some_or (some x) a f = f x

module _ (ns id : ℕ) where
  -- `next` is CANCELLED or EXPIRED.
  unfoldable pub claim_terminal_transition : (next : SessionState) → (now : ℕ) → M Bool
  unfolding find_session update_session change_usage
  claim_terminal_transition next now = lock_usage ns >>= λ usage s.
      some_or (in_namespace ns (find_session id s)) (pure false)
        (λ x.
          if not (is_open x.state)
          then pure false
          else update_session id
              (λ y.
                y.namespace_id == ns
                && (is_open y.state && (not (is_expired_state next) || is_past y now)))
              (ended next now)
            >>= on_affected (one_less ns >> pure true) (pure false))
        s

  abbrev pub holds_claim : ℕ → Session → Bool
  holds_claim token x =
      x.namespace_id == ns && (is_finalizing x.state && is_equal x.lease_token token)

  abbrev pub holds_live_claim : (token now : ℕ) → Session → Bool
  holds_live_claim token now x = holds_claim token x && is_lease_live x.lease_expires_at now

  abbrev pub leased_until : ℕ → Session → Session
  leased_until time x = record x { lease_expires_at = some time }

  unfoldable pub renew_finalize : (token duration_ms now : ℕ) → M Bool
  unfolding find_session update_session
  renew_finalize token duration_ms now s =
      some_or (find_session id s) (pure false)
        (λ x.
          if holds_live_claim token now x
          then update_session id (holds_live_claim token now) (leased_until (now + duration_ms))
          else pure false)
        s

  -- Runs in the transaction of the caller, as does `complete_finalize`.
  unfoldable pub fence_finalize : (token duration_ms now : ℕ) → M (Unit {0})
  unfolding update_session
  fence_finalize token duration_ms now = lock_usage ns >>= λ usage.
      update_session id (holds_live_claim token now) (leased_until (now + duration_ms))
      >>= on_affected (pure tt) (throw claim_lost)

  unfoldable pub complete_finalize : (token status : ℕ) → (body : String) → (now : ℕ) → M (Unit {0})
  unfolding update_session change_usage
  complete_finalize token status body now =
      update_session id (holds_claim token) (answered completed now status body)
      >>= on_affected (lock_usage ns >>= λ usage. one_less ns) (throw claim_lost)

  unfoldable pub fail_finalize : (token : ℕ) → (body : String) → (now : ℕ) → M Bool
  unfolding update_session change_usage
  fail_finalize token body now = lock_usage ns >>= λ usage.
      update_session id (holds_live_claim token now) (answered failed now 422 body)
      >>= on_affected (one_less ns >> pure true) (pure false)

  abbrev pub reopened : (code : String) → (time : ℕ) → Session → Session
  reopened code time x = record x {
    state = opened;
    lease_token = none;
    lease_expires_at = none;
    last_complete_failure = some (code, time);
  }

  unfoldable pub release_finalize : (token : ℕ) → (code : String) → (time : ℕ) → M Bool
  unfolding update_session
  release_finalize token code time = update_session id (holds_claim token) (reopened code time)

  abbrev pub renewed : (inactivity_seconds now : ℕ) → Session → M (Option ℕ)
  renewed inactivity_seconds now x =
      let expires_at = min (now + inactivity_seconds * 1000) x.max_expires_at in
      update_session id (λ y. y.namespace_id == ns && (is_open y.state && not (is_past y now)))
        (λ y. record y { expires_at = expires_at })
      >>= on_affected (pure (some expires_at)) (pure none)

  -- The answer is the time at which the session expires.
  unfoldable pub renew_session : (inactivity_seconds now : ℕ) → M (Option ℕ)
  unfolding find_session update_session
  renew_session inactivity_seconds now = lock_usage ns >>= λ usage.
      assert_namespace_active ns >> λ s.
      some_or (in_namespace ns (find_session id s)) (pure none)
        (λ x.
          if not (is_open x.state) || is_past x now
          then pure none
          else renewed inactivity_seconds now x)
        s

  -- `fenceFinalize` and then `completeFinalize`, with no other call between: what a commit that goes
  -- through does to the tables of sessions. Sessions/Commit has the whole transaction.
  unfoldable pub fence_and_complete :
      (token duration_ms now status : ℕ) → (body : String) → (then_now : ℕ) → M (Unit {0})
  unfolding fence_finalize complete_finalize
  fence_and_complete token duration_ms now status body then_now =
      fence_finalize token duration_ms now >> complete_finalize token status body then_now
