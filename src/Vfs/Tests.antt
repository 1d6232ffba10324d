-- ===== src/Vfs/Tests.antt =====
-- Runs of the mutations on a small namespace, and the theorems at concrete databases.
use storix.Base.{
  ok, ℕ, ◌≡◌, ◌≤◌, ◌≢◌, refl, true, false, none, some, List, [], ◌∷◌, has, err, arith,
}
use storix.Base.Int.{pos, ◌+ℤ◌}
use storix.Vfs.State.{
  directory, Node, Db, find_by_id, find_root, find_child, find_blob, update_node, update_blob,
}
use storix.Vfs.Mutation.{Tx, is_changed, add_delta, delta_of, BlobData, diverges, quota_exceeded}
use storix.Vfs.Files.{put_file_content}
use storix.Vfs.Bounds.{node_limit, enforced_bytes, quota, finish_within_limits}
use storix.Vfs.Commit.{finish, is_positive, enforced_delta, new_tx, Limits, with_mutation}
use storix.Vfs.Balance.{IsConsistent}
use storix.Vfs.Requests.{
  Request, ensure, touch, put, mutate, answer, answer-ne-diverges, serve_all,
  serve_all-IsConsistent,
}

abbrev root_node : Node
root_node = record {
  id = 1;
  parent_id = none;
  type = directory;
  name = "";
  blob_id = none;
  size = none;
  mime_type = none;
  child_file_count = 0;
  expires_at = none;
  version = 1;
}

abbrev empty_db : Db
empty_db = record {
  namespace = record {
    active = true;
    live_node_count = 0;
    max_live_nodes = some 4;
    max_files_per_folder = none;
    live_file_byte_count = 0;
    retained_snapshot_byte_count = 0;
    retained_trash_byte_count = 0;
    exclude_trash_from_quota = false;
    exclude_snapshots_from_quota = false;
    max_total_logical_bytes = some 100;
  };
  nodes = root_node ∷ [];
  blobs = [];
  next_id = 2;
  clock = 50;
}

abbrev limits : Limits
limits = record {
  default_max_total_logical_bytes = 1000;
  max_total_logical_bytes = 1000;
  default_max_files_per_folder = 10;
  max_files_per_folder = 10;
  default_max_live_nodes = 10;
  max_live_nodes = 10;
}

abbrev content : ℕ → BlobData
content size = record { storage_key = "k"; size = size; mime_type = "text/plain"; sha256 = "s" }

abbrev requests : List Request
requests =
    put ("a" ∷ "b" ∷ []) "f" true (content 60) none false none
    ∷ put ("a" ∷ "b" ∷ []) "f" false (content 90) (some 1) false none
    ∷ put ("a" ∷ "b" ∷ []) "f" false (content 101) none true none
    ∷ touch ("a" ∷ []) "g" false (some (content 0))
    ∷ ensure ("a" ∷ "c" ∷ []) false
    ∷ []

abbrev counters : Db → ℕ × ℕ
counters db = (db.namespace.live_node_count, db.namespace.live_file_byte_count)

-- The third request breaks the quota and the last the limit of nodes.
served : counters (serve_all limits 1 requests empty_db) ≡ (4, 90)
unfolding serve_all find_root find_child has find_by_id is_changed ◌+ℤ◌ add_delta update_node
    find_blob update_blob delta_of
served = refl

over_quota :
    mutate limits 1 (put_file_content [] "f" false (content 101) none false none) empty_db
    ≡ err (quota_exceeded 100 101)
unfolding with_mutation put_file_content find_root find_child has find_by_id is_changed ◌+ℤ◌
    add_delta update_node
over_quota = refl

empty_db-IsConsistent : IsConsistent empty_db
unfolding find_by_id delta_of
empty_db-IsConsistent = record {
  distinct = (refl, tt);
  tree = (λ id. 0, λ id. omega arith, (tt, tt), (tt, tt));
  known = ((omega arith, tt, tt), tt);
  live_nodes = refl;
  live_bytes = refl;
  in_folders = λ folder n found dir. ground arith;
  keys = tt;
  keys_below = tt;
}

serve_all-IsConsistent_example : IsConsistent (serve_all limits 1 requests empty_db)
serve_all-IsConsistent_example =
    serve_all-IsConsistent limits 1 requests empty_db empty_db-IsConsistent

answer-ne-diverges_example :
    answer limits 1 (put ("a" ∷ "b" ∷ []) "f" true (content 60) none false none) empty_db
    ≢ err diverges
answer-ne-diverges_example =
    answer-ne-diverges limits 1 (put ("a" ∷ "b" ∷ []) "f" true (content 60) none false none)
      empty_db empty_db-IsConsistent

-- Two nodes and fifty bytes more, with the version of the root.
abbrev grown : Tx
grown = record (new_tx empty_db 1) {
  changed = (1, true) ∷ [];
  live_node_delta = pos 2;
  live_file_byte_delta = pos 50;
}

abbrev grown_and_finished : Tx
grown_and_finished = record grown {
  db = record empty_db {
    namespace = record empty_db.namespace { live_node_count = 2; live_file_byte_count = 50 };
    nodes = record root_node { version = 2 } ∷ [];
  };
}

finish-grown : finish limits grown ≡ ok (tt, grown_and_finished)
unfolding finish find_by_id update_node ◌+ℤ◌
finish-grown = refl

finish_within_limits_example :
    (is_positive grown.live_node_delta ≡ true
      → grown_and_finished.db.namespace.live_node_count ≤ node_limit limits grown.db.namespace)
    × (is_positive (enforced_delta grown.db.namespace grown) ≡ true
        → (q : ℕ) × (quota limits grown.db.namespace ≡ ok q)
          × (enforced_bytes grown_and_finished.db.namespace ≤ q))
finish_within_limits_example = finish_within_limits limits grown grown_and_finished finish-grown
