-- ===== src/Sessions/Tests/Commits.antt =====
-- The commit of a finished upload, at concrete tables and a concrete namespace.
use storix.Base.{
  ℕ, ◌≡◌, ◌≢◌, ◌↔◌, refl, subst, String, true, false, Option, none, some, [], ◌∷◌, has, Result, ok,
  err, arith,
}
use storix.Base.Int.{◌+ℤ◌}
use storix.Base.Rows.{update_row}
use storix.Vfs.State.{
  directory, Db, find_by_id, find_root, find_child, find_blob, update_node, update_blob,
}
use storix.Vfs.Mutation.{VfsError, M, ◌>>=◌, pure, is_changed, add_delta, delta_of}
use storix.Vfs.Files.{put_file_content}
use storix.Vfs.Commit.{Limits, with_mutation, open_root}
use storix.Sessions.Tables.{
  Session, Store, claim_lost, find_session, has_namespace, lock_usage, assert_namespace_active,
}
use storix.Sessions.Parts.{reserve_current, reserve_admitted}
use storix.Sessions.Lifecycle.{renew_finalize, fail_finalize, release_finalize}
use storix.Sessions.Finalize.{claim_finalize}
use storix.Sessions.Runs.{exec}
use storix.Sessions.Commit.{in_sessions, commit}
use storix.Sessions.Committing.{IsCompletedWith, IsHeld, commit_iff, commit-late_worker}
use storix.Sessions.Claiming.{claim_finalize-commit}
use storix.Sessions.Tests.{
  after_parts, after_claim, full, first_part, second_part, parts-IsAccounted,
}

abbrev upload_db : Db
upload_db = record {
  namespace = record {
    active = true;
    live_node_count = 0;
    max_live_nodes = none;
    max_files_per_folder = none;
    live_file_byte_count = 0;
    retained_snapshot_byte_count = 0;
    retained_trash_byte_count = 0;
    exclude_trash_from_quota = false;
    exclude_snapshots_from_quota = false;
    max_total_logical_bytes = none;
  };
  nodes =
      (record {
        id = 1;
        parent_id = none;
        type = directory;
        name = "";
        blob_id = none;
        size = none;
        mime_type = none;
        child_file_count = 0;
        expires_at = none;
        version = 1;
      })
      ∷ [];
  blobs = [];
  next_id = 2;
  clock = 50;
}

abbrev server_limits : Limits
server_limits = record {
  default_max_total_logical_bytes = 1000;
  max_total_logical_bytes = 1000;
  default_max_files_per_folder = 10;
  max_files_per_folder = 10;
  default_max_live_nodes = 10;
  max_live_nodes = 10;
}

-- The file of thirty bytes appears in the root.
abbrev put : M ℕ
put =
    put_file_content [] "f" false
      (record { storage_key = "k"; size = 30; mime_type = "text/plain"; sha256 = "s" }) none false
      none
    >>= λ outcome. pure 201

abbrev answer_of : ℕ → Db → ℕ × String
answer_of status db = (status, "done")

abbrev db_of : Result VfsError (ℕ × Db) → Db
db_of (ok (value, db)) = db
db_of (err e) = upload_db

abbrev after_put : Db
after_put = db_of (with_mutation server_limits false 1 put (λ _. pure tt) upload_db)

put_went : with_mutation server_limits false 1 put (λ _. pure tt) upload_db ≡ ok (201, after_put)
unfolding with_mutation put_file_content find_root find_child has find_by_id is_changed ◌+ℤ◌
    add_delta update_node delta_of find_blob update_blob
put_went = refl

claim_finalize-commit_example :
    (s'' : Store) × (commit server_limits 1 put answer_of 1 10 77 60000 550 560 upload_db
        after_claim
      ≡ ok (201, after_put, s''))
    × IsCompletedWith 10 (201, "done") s''
unfolding exec claim_finalize lock_usage assert_namespace_active ◌+ℤ◌ reserve_current
    reserve_admitted update_row
claim_finalize-commit_example =
    claim_finalize-commit server_limits 1 put answer_of 1 10 77 500 50 51 77 full
      (first_part ∷ second_part ∷ []) after_parts after_claim 60000 550 560 upload_db after_put 201
      parts-IsAccounted refl (omega arith) put_went

commit_iff_example :
    ((s' : Store) × (commit server_limits 1 put answer_of 1 10 77 60000 60 61 upload_db after_parts
        ≡ ok (201, after_put, s'))
      × IsCompletedWith 10 (201, "done") s')
    ↔ (IsHeld 1 10 77 60 after_parts
        × (with_mutation server_limits false 1 put (λ _. pure tt) upload_db ≡ ok (201, after_put)))
unfolding exec has_namespace lock_usage assert_namespace_active ◌+ℤ◌ reserve_current
    reserve_admitted update_row
commit_iff_example =
    commit_iff server_limits 1 put answer_of 1 10 77 60000 60 61 upload_db after_put 201 after_parts
      parts-IsAccounted refl

held_by_other : (x : Session) → find_session 10 after_claim ≡ some x → x.lease_token ≢ some 78
unfolding exec find_session lock_usage assert_namespace_active ◌+ℤ◌ reserve_current reserve_admitted
    update_row
held_by_other x e t = ground (arith, subst token_is e refl, t)
  where
    token_is : Option Session → Type 0
    token_is none = Unit
    token_is (some z) = z.lease_token ≡ some 77

commit-late_worker_example :
    (renew_finalize 1 10 78 500 60 after_claim ≡ ok (false, after_claim))
    × (fail_finalize 1 10 78 "late" 60 after_claim ≡ ok (false, after_claim))
    × (release_finalize 1 10 78 "late" 60 after_claim ≡ ok (false, after_claim))
    × (commit server_limits 1 put answer_of 1 10 78 500 60 61 upload_db after_claim
        ≡ err (in_sessions claim_lost))
unfolding exec has_namespace lock_usage assert_namespace_active ◌+ℤ◌ reserve_current
    reserve_admitted update_row open_root find_root
commit-late_worker_example =
    commit-late_worker server_limits 1 put answer_of 1 10 78 500 60 61 "late" "late" upload_db
      after_claim refl refl held_by_other
