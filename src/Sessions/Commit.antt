-- ===== src/Sessions/Commit.antt =====
-- The transaction that commits a finished upload, the callbacks of `withMutation` in `finalize` of
-- apps/api/src/vfs/upload-session-finalize.service.ts: on the nodes of the namespace and on the tables of
-- sessions at once. `put` is what `putConditionalContent` does to the nodes, and `answer_of` the status and
-- the body that the answer gets from its value and the nodes; the statements hold whatever they are.
use storix.Base.{ℕ, false, String, Result, ok, err}
use storix.Vfs.State.{Db}
use storix.Vfs.Mutation.{VfsError, Tx, M}
use storix.Vfs.Commit.{Limits, open_root, new_tx, finish}
use storix.Sessions.Tables.{Store, SessionError}
use storix.Sessions.Lifecycle.{fence_finalize, complete_finalize}

pub data CommitError : Type 0 where
  in_nodes : VfsError → CommitError
  in_sessions : SessionError → CommitError

-- An error anywhere leaves both as they were.
abbrev pub Committed : Type 0 → Type 0
Committed A = Result CommitError (A × Db × Store)

module _ {A : Type 0} (limits : Limits) (root_id : ℕ) (put : M A) (answer_of : A → Db → ℕ × String)
    (ns id token duration_ms now then_now : ℕ) where
  abbrev pub completed_as : A → Db → Result SessionError (Unit {0} × Store) → Committed A
  completed_as value db (err e) = err (in_sessions e)
  completed_as value db (ok (_, s)) = ok (value, db, s)

  -- The callback behind the versions.
  abbrev pub bumped : A → Store → Result VfsError (Unit {0} × Tx) → Committed A
  bumped value s (err e) = err (in_nodes e)
  bumped value s (ok (_, tx)) =
      let (status, body) = answer_of value tx.db in
      completed_as value tx.db (complete_finalize ns id token status body then_now s)

  abbrev pub put_done : Store → Result VfsError (A × Tx) → Committed A
  put_done s (err e) = err (in_nodes e)
  put_done s (ok (value, tx)) = bumped value s (finish limits tx)

  -- The callback of the mutation: the fence, and the content.
  abbrev pub fenced : Db → Result SessionError (Unit {0} × Store) → Committed A
  fenced db (err e) = err (in_sessions e)
  fenced db (ok (_, s)) = put_done s (put (new_tx db root_id))

  abbrev pub opened_for : Db → Store → Result VfsError (Unit {0}) → Committed A
  opened_for db s (err e) = err (in_nodes e)
  opened_for db s (ok _) = fenced db (fence_finalize ns id token duration_ms now s)

  unfoldable pub commit : Db → Store → Committed A
  unfolding open_root finish fence_finalize complete_finalize
  commit db s = opened_for db s (open_root false root_id db)
