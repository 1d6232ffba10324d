-- ===== src/Sessions/Committing.antt =====
-- About the transaction that commits a finished upload.
use storix.Base.{
  ℕ, true, false, none, some, String, ◌≡◌, ◌≢◌, ◌↔◌, refl, Result, ok, err, subst, ap,
}
use storix.Vfs.State.{Db}
use storix.Vfs.Mutation.{VfsError, Tx, M, pure, ◌>>=◌, ◌>>◌}
use storix.Vfs.Commit.{Limits, open_root, new_tx, finish, committed, within, with_mutation}
use storix.Sessions.Tables.{
  completed, finalizing, Session, Store, SessionError, claim_lost, has_namespace, find_session,
  is_lease_live, then_do,
}
use storix.Sessions.Books.{IsAccounted}
use storix.Sessions.Lifecycle.{
  fence_finalize, complete_finalize, fence_and_complete, renew_finalize, fail_finalize,
  release_finalize,
}
use storix.Sessions.Commit.{
  in_nodes, in_sessions, Committed, completed_as, bumped, put_done, fenced, opened_for, commit,
}
use storix.Sessions.Finishing.{
  fence_and_complete-held, fence_and_complete-completed, fence_finalize-late_worker,
}

-- The session is COMPLETED, has no claim, and has the answer.
abbrev pub IsCompletedWith : (id : ℕ) → (answer : ℕ × String) → Store → Type 0
IsCompletedWith id answer s =
    (x : Session) × (find_session id s ≡ some x)
    × (x.state ≡ completed)
    × (x.lease_token ≡ none)
    × (x.response ≡ some answer)

-- The worker holds the session: it is in state FINALIZING with the worker's token, and a lease that has
-- not run out.
abbrev pub IsHeld : (ns id token now : ℕ) → Store → Type 0
IsHeld ns id token now s =
    (x : Session) × (find_session id s ≡ some x)
    × (x.namespace_id ≡ ns)
    × (x.state ≡ finalizing)
    × (x.lease_token ≡ some token)
    × (is_lease_live x.lease_expires_at now ≡ true)

module _ {A : Type 0} (limits : Limits) (root_id : ℕ) (put : M A) (answer_of : A → Db → ℕ × String)
    (ns id token duration_ms now then_now : ℕ) (s : Store) where
  abbrev Completes : Store → Type 0
  Completes fence =
      (value : A) (db : Db)
      → (s' : Store) × (complete_finalize ns id token (answer_of value db).0 (answer_of value db).1
            then_now fence
          ≡ ok (tt, s'))
        × IsCompletedWith id (answer_of value db) s'

  -- What the commit is where the mutation alone is so: `Follows r c`.
  abbrev Follows : Result VfsError (A × Db) → Committed A → Type 0
  Follows (err e) c = c ≡ err (in_nodes e)
  Follows (ok (value, db)) c =
      (s' : Store) × (c ≡ ok (value, db, s')) × IsCompletedWith id (answer_of value db) s'

  bumped-Follows :
      (fence : Store) (value : A) (r : Result VfsError (Unit {0} × Tx))
      → Completes fence
      → Follows
          (committed (elim r [ err e ↦ err e | ok (_, tx) ↦ ok (value, tx) ]))
          (bumped limits root_id put answer_of ns id token duration_ms now then_now value fence r)
  bumped-Follows fence value (err e) k = refl
  bumped-Follows fence value (ok (_, tx)) k =
      let (s', e, h) = k value tx.db in
      (
        s',
        ap
            (completed_as limits root_id put answer_of ns id token duration_ms now then_now value
              tx.db)
            e,
        h,
      )

  put_done-Follows :
      (fence : Store) (r : Result VfsError (A × Tx))
      → Completes fence
      → Follows
          (committed (elim r [
            | err e ↦ err e
            | ok (value, tx) ↦ elim (finish limits tx) [
              | err e ↦ err e
              | ok (_, tx') ↦ ok (value, tx')
            ]
          ]))
          (put_done limits root_id put answer_of ns id token duration_ms now then_now fence r)
  put_done-Follows fence (err e) k = refl
  put_done-Follows fence (ok (value, tx)) k = bumped-Follows fence value (finish limits tx) k

  opened_for-Follows :
      (db : Db) (fence : Store) (r : Result VfsError (Unit {0}))
      → fence_finalize ns id token duration_ms now s ≡ ok (tt, fence)
      → Completes fence
      → Follows
          (within r
            (committed ((do value ← put; finish limits; pure tt; pure value) (new_tx db root_id))))
          (opened_for limits root_id put answer_of ns id token duration_ms now then_now db s r)
  opened_for-Follows db fence (err e) f k = refl
  opened_for-Follows db fence (ok _) f k = rw f (put_done-Follows fence (put (new_tx db root_id)) k)

  fence-Completes :
      (r : Result SessionError (Unit {0} × Store))
      → fence_finalize ns id token duration_ms now s ≡ r
      → ((status : ℕ) (body : String)
          → (s' : Store) × (then_do (λ _. complete_finalize ns id token status body then_now) r
              ≡ ok (tt, s'))
            × ((x : Session) × (find_session id s' ≡ some x)
                × (x.state ≡ completed)
                × (x.lease_token ≡ none)
                × (x.response ≡ some (status, body))))
      → (fence : Store) × (fence_finalize ns id token duration_ms now s ≡ ok (tt, fence))
        × Completes fence
  fence-Completes (err e) f k = let (s', went, _) = k 0 "" in cc
  fence-Completes (ok (_, fence)) f k =
      (fence, f, λ value db. k (answer_of value db).0 (answer_of value db).1)

  commit-Follows :
      (db : Db)
      → IsAccounted s
      → has_namespace ns s.namespaces ≡ true
      → IsHeld ns id token now s
      → Follows
          (with_mutation limits false root_id put (λ _. pure tt) db)
          (commit limits root_id put answer_of ns id token duration_ms now then_now db s)
  unfolding commit with_mutation fence_and_complete
  commit-Follows db h there (x, found, home, state, own, live) =
      let (fence, f, k) =
        fence-Completes (fence_finalize ns id token duration_ms now s) refl (λ status body.
          fence_and_complete-completed ns id token duration_ms now status body then_now s x h there
            found home state own live) in
      opened_for-Follows db fence (open_root false root_id db) f k

  -- A commit that goes through is that of a worker which holds the session, and does to the tables of
  -- sessions what the fence and the answer do without the mutation of the nodes between.
  abbrev NeedsHold : Committed A → Type 0
  NeedsHold (err e) = Unit
  NeedsHold (ok (value, db, s')) =
      IsHeld ns id token now s
      × (fence_and_complete ns id token duration_ms now (answer_of value db).0
            (answer_of value db).1 then_now s
          ≡ ok (tt, s'))

  commit-NeedsHold :
      (db : Db)
      → has_namespace ns s.namespaces ≡ true
      → NeedsHold (commit limits root_id put answer_of ns id token duration_ms now then_now db s)
  unfolding commit fence_and_complete
  commit-NeedsHold db there = at_root (open_root false root_id db)
    where
      at_answer :
          (fence : Store) (value : A) (tx : Tx) (r : Result SessionError (Unit {0} × Store))
          → fence_finalize ns id token duration_ms now s ≡ ok (tt, fence)
          → complete_finalize ns id token
              (answer_of value tx.db).0
              (answer_of value tx.db).1
              then_now
              fence
            ≡ r
          → NeedsHold (
              completed_as limits root_id put answer_of ns id token duration_ms now then_now value
                tx.db r)
      at_answer fence value tx (err e) f c = tt
      at_answer fence value tx (ok (_, s')) f c =
          let went : fence_and_complete ns id token duration_ms now (answer_of value tx.db).0
                (answer_of value tx.db).1 then_now s
              ≡ ok (tt, s') =
            rw f c in
          (
            fence_and_complete-held ns id token duration_ms now (answer_of value tx.db).0
                (answer_of value tx.db).1 then_now s s' there went,
            went,
          )

      at_bump :
          (fence : Store) (value : A) (r : Result VfsError (Unit {0} × Tx))
          → fence_finalize ns id token duration_ms now s ≡ ok (tt, fence)
          → NeedsHold (
              bumped limits root_id put answer_of ns id token duration_ms now then_now value fence
                r)
      at_bump fence value (err e) f = tt
      at_bump fence value (ok (_, tx)) f = at_answer fence value tx _ f refl

      at_put :
          (fence : Store) (r : Result VfsError (A × Tx))
          → fence_finalize ns id token duration_ms now s ≡ ok (tt, fence)
          → NeedsHold
              (put_done limits root_id put answer_of ns id token duration_ms now then_now fence r)
      at_put fence (err e) f = tt
      at_put fence (ok (value, tx)) f = at_bump fence value (finish limits tx) f

      at_fence :
          (r : Result SessionError (Unit {0} × Store))
          → fence_finalize ns id token duration_ms now s ≡ r
          → NeedsHold
              (fenced limits root_id put answer_of ns id token duration_ms now then_now db r)
      at_fence (err e) f = tt
      at_fence (ok (_, fence)) f = at_put fence (put (new_tx db root_id)) f

      at_root :
          (r : Result VfsError (Unit {0}))
          → NeedsHold
              (opened_for limits root_id put answer_of ns id token duration_ms now then_now db s r)
      at_root (err e) = tt
      at_root (ok _) = at_fence (fence_finalize ns id token duration_ms now s) refl

-- In accounted tables with the namespace, the commit of a finished upload goes through with a value and
-- the nodes, and leaves the session COMPLETED with no claim and with the answer for these, exactly when the
-- session is in state FINALIZING in the namespace with the worker's token and a lease that has not run out
-- at the fence, and the mutation of the nodes alone, its checks of the namespace, the root, the counters
-- and the quota included, goes through with the same value and nodes.
pub commit_iff :
    {A : Type 0} (limits : Limits) (root_id : ℕ) (put : M A) (answer_of : A → Db → ℕ × String)
    (ns id token duration_ms now then_now : ℕ) (db db' : Db) (value : A) (s : Store)
    → IsAccounted s
    → has_namespace ns s.namespaces ≡ true
    → ((s' : Store) × (commit limits root_id put answer_of ns id token duration_ms now then_now db s
          ≡ ok (value, db', s'))
        × IsCompletedWith id (answer_of value db') s')
      ↔ (IsHeld ns id token now s
          × (with_mutation limits false root_id put (λ _. pure tt) db ≡ ok (value, db')))
commit_iff {A = A} limits root_id put answer_of ns id token duration_ms now then_now db db' value s
      h there =
    (
      λ (s', went, _).
          let (held, _) =
            subst (NeedsHold limits root_id put answer_of ns id token duration_ms now then_now s)
              went
              (commit-NeedsHold limits root_id put answer_of ns id token duration_ms now then_now s
                db there) in
          (
            held,
            same s' _ went (
                commit-Follows limits root_id put answer_of ns id token duration_ms now then_now s
                  db h there held),
          ),
      λ (held, went).
          subst
            (λ r.
              Follows limits root_id put answer_of ns id token duration_ms now then_now s r
                (commit limits root_id put answer_of ns id token duration_ms now then_now db s))
            went
            (commit-Follows limits root_id put answer_of ns id token duration_ms now then_now s db h
              there held),
    )
  where
    same :
        (s' : Store) (r : Result VfsError (A × Db))
        → commit limits root_id put answer_of ns id token duration_ms now then_now db s
          ≡ ok (value, db', s')
        → Follows limits root_id put answer_of ns id token duration_ms now then_now s r
            (commit limits root_id put answer_of ns id token duration_ms now then_now db s)
        → r ≡ ok (value, db')
    same s' (err e) went f = cc
    same s' (ok (v, d)) went (s'', f, _) = cc

-- A worker whose token is not the one in the row of the session, because its claim was taken back or is
-- another's, changes nothing: its renewal, its failure and its release answer false and leave the tables,
-- and its commit, where the namespace is active and the root is found, throws that the claim is lost.
pub commit-late_worker :
    {A : Type 0} (limits : Limits) (root_id : ℕ) (put : M A) (answer_of : A → Db → ℕ × String)
    (ns id token duration_ms now then_now : ℕ) (body code : String) (db : Db) (s : Store)
    → has_namespace ns s.namespaces ≡ true
    → open_root false root_id db ≡ ok tt
    → ((x : Session) → find_session id s ≡ some x → x.lease_token ≢ some token)
    → (renew_finalize ns id token duration_ms now s ≡ ok (false, s))
      × (fail_finalize ns id token body now s ≡ ok (false, s))
      × (release_finalize ns id token code now s ≡ ok (false, s))
      × (commit limits root_id put answer_of ns id token duration_ms now then_now db s
          ≡ err (in_sessions claim_lost))
unfolding commit
commit-late_worker limits root_id put answer_of ns id token duration_ms now then_now body code db s
      there open' late =
    let (renews, fails, releases, lost) =
      fence_finalize-late_worker ns id token duration_ms now body code s there late in
    (renews, fails, releases, rw (open', lost) refl)
