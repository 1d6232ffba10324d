-- ===== src/Vfs/Commit.antt =====
-- `withMutation` of apps/api/src/persistence/vfs-node.repository.core.ts and what it does after the
-- callback: the node counters, the quota and the versions. The limits of the server are those that
-- its constructor reads from the configuration.
use storix.Base.{
  ℕ, suc, ◌+◌, String, Bool, true, false, ◌&&◌, ◌||◌, not, Option, none, some, List, [], ◌∷◌, ltb,
  ◌==◌, if◌then◌else◌, Result, ok, err,
}
use storix.Base.Int.{ℤ, pos, negsuc, ◌+ℤ◌}
use storix.Vfs.State.{
  Namespace, Db, is_directory, max_vfs_version, find_by_id, find_root, update_node,
}
use storix.Vfs.Mutation.{
  VfsError, node_not_found, namespace_not_found, revision_exhausted, quota_exceeded,
  folder_file_limit_exceeded, node_limit_exceeded, internal, Tx, M, ◌>>=◌, ◌>>◌, pure, is_zero,
}

pub record Limits : Type 0 where
  pub default_max_total_logical_bytes : ℕ
  pub max_total_logical_bytes : ℕ
  pub default_max_files_per_folder : ℕ
  pub max_files_per_folder : ℕ
  pub default_max_live_nodes : ℕ
  pub max_live_nodes : ℕ

-- `override === null ? default : min(override, ceiling)`
unfoldable pub effective_limit : Option ℕ → (default ceiling : ℕ) → ℕ
effective_limit none default ceiling = default
effective_limit (some n) default ceiling = if ltb n ceiling then n else ceiling

abbrev pub is_positive : ℤ → Bool
is_positive (pos n) = ltb 0 n
is_positive (negsuc n) = false

-- A sum that has become negative is an error of the code's own.
abbrev pub non_negative : ℤ → String → Result VfsError ℕ
non_negative (pos n) what = ok n
non_negative (negsuc n) what = err (internal what)

-- A counter after its delta, refused above the limit when it grows.
unfoldable pub next_count : (count : ℕ) → ℤ → (limit : ℕ) → (ℕ → ℕ → VfsError) → Result VfsError ℕ
next_count count delta limit refused =
    elim (non_negative (pos count +ℤ delta) "counter became negative") [
      | err e ↦ err e
      | ok next ↦ if is_positive delta && ltb limit next then err (refused limit next) else ok next
    ]

unfoldable pub store_live_nodes : Result VfsError ℕ → M (Unit {0})
store_live_nodes (err e) tx = err e
store_live_nodes (ok next) tx = ok (
  tt,
  record tx { db = record tx.db { namespace = record tx.db.namespace { live_node_count = next } } },
)

unfoldable pub apply_live_nodes : Limits → M (Unit {0})
unfolding next_count effective_limit store_live_nodes
apply_live_nodes limits tx =
    let ns = tx.db.namespace in
    let limit =
      effective_limit ns.max_live_nodes limits.default_max_live_nodes limits.max_live_nodes in
    if is_zero tx.live_node_delta
    then ok (tt, tx)
    else store_live_nodes
        (next_count ns.live_node_count tx.live_node_delta limit node_limit_exceeded) tx

-- A folder that is gone is passed over when it lost files.
unfoldable pub missing_folder : ℤ → M (Unit {0})
missing_folder (pos _) tx = err (internal "parent is missing")
missing_folder (negsuc _) tx = ok (tt, tx)

unfoldable pub store_child_count : (folder : ℕ) → Result VfsError ℕ → M (Unit {0})
store_child_count folder (err e) tx = err e
store_child_count folder (ok next) tx = ok (
  tt,
  record tx {
    db = record tx.db {
      nodes = update_node folder (λ n. record n { child_file_count = next }) tx.db.nodes;
    };
  },
)

-- One round of the loop over the folders.
unfoldable pub apply_folder : (limit folder : ℕ) → ℤ → M (Unit {0})
unfolding next_count missing_folder store_child_count
apply_folder limit folder delta tx = elim (find_by_id folder tx.db.nodes) [
  | none ↦ missing_folder delta tx
  | some parent ↦
      if not (is_directory parent.type)
      then missing_folder delta tx
      else store_child_count folder
          (next_count parent.child_file_count delta limit folder_file_limit_exceeded) tx
]

unfoldable pub apply_folders : (limit : ℕ) → List (ℕ × ℤ) → M (Unit {0})
unfolding apply_folder
apply_folders limit [] = pure tt
apply_folders limit ((folder, delta) ∷ rest) =
    if is_zero delta
    then apply_folders limit rest
    else (do apply_folder limit folder delta; apply_folders limit rest)

-- Where no counter changes, nothing is read; the loops then do nothing.
unfoldable pub apply_node_counters : Limits → M (Unit {0})
unfolding apply_live_nodes apply_folders effective_limit
apply_node_counters limits tx =
    (do
      apply_live_nodes limits
      apply_folders
          (effective_limit tx.db.namespace.max_files_per_folder limits.default_max_files_per_folder
            limits.max_files_per_folder)
          tx.folder_file_deltas)
      tx

-- `resolveEnforcedLogicalBytes` of apps/api/src/vfs/namespace-quota.ts.
unfoldable pub resolve_enforced_logical_bytes :
    (live trash snapshot : ℕ) → (exclude_trash exclude_snapshots : Bool) → ℕ
resolve_enforced_logical_bytes live trash snapshot exclude_trash exclude_snapshots =
    live + (if exclude_trash then 0 else trash) + (if exclude_snapshots then 0 else snapshot)

abbrev pub max_int64 : ℕ
max_int64 = 9223372036854775807

-- `resolveNamespaceQuota`, with the check of `parsePositiveLimit` on the column.
unfoldable pub resolve_namespace_quota : Option ℕ → (ceiling default : ℕ) → Result VfsError ℕ
resolve_namespace_quota none ceiling default = ok default
resolve_namespace_quota (some limit) ceiling default =
    if limit == 0 || ltb max_int64 limit
    then err (internal "Invalid total logical byte limit")
    else ok (if ltb limit ceiling then limit else ceiling)

abbrev pub enforced_delta : Namespace → Tx → ℤ
enforced_delta ns tx =
    tx.live_file_byte_delta
    +ℤ (if ns.exclude_trash_from_quota then pos 0 else tx.trash_byte_delta)
    +ℤ (if ns.exclude_snapshots_from_quota then pos 0 else tx.snapshot_byte_delta)

-- The quota is asked only of a mutation that takes more.
unfoldable pub check_quota :
    Limits → Namespace → (grows : Bool) → (enforced : ℕ) → Result VfsError (Unit {0})
unfolding resolve_namespace_quota
check_quota limits ns false enforced = ok tt
check_quota limits ns true enforced =
    elim (resolve_namespace_quota ns.max_total_logical_bytes limits.max_total_logical_bytes
      limits.default_max_total_logical_bytes) [
        | err e ↦ err e
        | ok limit ↦ if ltb limit enforced then err (quota_exceeded limit enforced) else ok tt
      ]

unfoldable pub store_live_bytes : (live : ℕ) → Result VfsError (Unit {0}) → M (Unit {0})
store_live_bytes live (err e) tx = err e
store_live_bytes live (ok _) tx = ok (
  tt,
  record tx {
    db = record tx.db { namespace = record tx.db.namespace { live_file_byte_count = live } };
  },
)

unfoldable pub take_live_bytes : Limits → Result VfsError ℕ → M (Unit {0})
unfolding resolve_enforced_logical_bytes check_quota store_live_bytes
take_live_bytes limits (err e) tx = err e
take_live_bytes limits (ok live) tx =
    let ns = tx.db.namespace in
    let enforced =
      resolve_enforced_logical_bytes live ns.retained_trash_byte_count
        ns.retained_snapshot_byte_count ns.exclude_trash_from_quota
        ns.exclude_snapshots_from_quota in
    if ltb max_int64 live
    then err (internal "live bytes out of range")
    else store_live_bytes live (check_quota limits ns (is_positive (enforced_delta ns tx)) enforced)
        tx

unfoldable pub apply_logical_byte_quota : Limits → M (Unit {0})
unfolding take_live_bytes
apply_logical_byte_quota limits tx =
    if is_zero tx.live_file_byte_delta
      && (is_zero tx.trash_byte_delta && is_zero tx.snapshot_byte_delta)
    then ok (tt, tx)
    else take_live_bytes limits
        (non_negative (pos tx.db.namespace.live_file_byte_count +ℤ tx.live_file_byte_delta)
          "live bytes out of range")
        tx

-- The UPDATE of `bumpAndReadChangedNodes`, for all chunks at once: a node that is gone or at the last
-- version makes the count of affected rows fall short. The revisions that it then reads change
-- nothing and are left out.
unfoldable pub increment_ids : List (ℕ × Bool) → List ℕ
increment_ids [] = []
increment_ids ((id, increment) ∷ rest) =
    if increment then id ∷ increment_ids rest else increment_ids rest

unfoldable pub bump_nodes : List ℕ → M (Unit {0})
bump_nodes [] tx = ok (tt, tx)
bump_nodes (id ∷ rest) tx = elim (find_by_id id tx.db.nodes) [
  | none ↦ err revision_exhausted
  | some node ↦
      let next = bump_nodes rest (record tx {
        db = record tx.db {
          nodes = update_node id (λ n. record n { version = suc n.version }) tx.db.nodes;
        };
      }) in
      if ltb node.version max_vfs_version then next else err revision_exhausted
]

unfoldable pub bump_changed_nodes : M (Unit {0})
unfolding increment_ids bump_nodes
bump_changed_nodes tx = bump_nodes (increment_ids tx.changed) tx

-- Where the root is gone, an inactive namespace is the error that is reported.
unfoldable pub no_root : (allow_inactive active : Bool) → Result VfsError (Unit {0})
no_root allow_inactive active =
    if allow_inactive || active then err (node_not_found "/") else err (namespace_not_found "")

-- `lockNamespaceRoot`, the check of the namespace's state and that of the starting node.
unfoldable pub open_root : (allow_inactive : Bool) → (root_id : ℕ) → Db → Result VfsError (Unit {0})
unfolding no_root
open_root allow_inactive root_id db = elim (find_root db.nodes) [
  | none ↦ no_root allow_inactive db.namespace.active
  | some root ↦
      if not (is_directory root.type)
      then no_root allow_inactive db.namespace.active
      else if not (allow_inactive || db.namespace.active)
      then err (namespace_not_found "")
      else if root.id == root_id
      then ok tt
      else elim (find_by_id root_id db.nodes) [
        | none ↦ err (node_not_found "/")
        | some start ↦ if is_directory start.type then ok tt else err (node_not_found "/")
      ]
]

abbrev pub new_tx : Db → (root_id : ℕ) → Tx
new_tx db root_id = record {
  db = db;
  root_id = root_id;
  changed = [];
  ancestor_chain_marked = [];
  live_file_byte_delta = pos 0;
  logical_byte_delta = pos 0;
  live_node_delta = pos 0;
  folder_file_deltas = [];
  trash_byte_delta = pos 0;
  snapshot_byte_delta = pos 0;
}

unfoldable pub finish : Limits → M (Unit {0})
unfolding apply_node_counters apply_logical_byte_quota bump_changed_nodes
finish limits = do apply_node_counters limits; apply_logical_byte_quota limits; bump_changed_nodes

abbrev pub committed : {A : Type 0} → Result VfsError (A × Tx) → Result VfsError (A × Db)
committed (err e) = err e
committed (ok (value, tx)) = ok (value, tx.db)

abbrev pub within :
    {A : Type 0} → Result VfsError (Unit {0}) → Result VfsError A → Result VfsError A
within (err e) r = err e
within (ok _) r = r

-- The transaction: an error anywhere leaves no new state. `after_bump` is the callback that stores
-- the receipt of a conditional mutation; the other callers pass one that does nothing.
unfoldable pub with_mutation :
    {A : Type 0}
    → Limits
    → (allow_inactive : Bool) → (root_id : ℕ) → (work : M A) → (after_bump : A → M (Unit {0})) → Db
    → Result VfsError (A × Db)
unfolding open_root finish
with_mutation limits allow_inactive root_id work after_bump db =
    within (open_root allow_inactive root_id db) (
      committed
        ((do value ← work; finish limits; after_bump value; pure value) (new_tx db root_id)))
