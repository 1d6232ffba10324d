-- ===== src/Vfs/State.antt =====
-- The rows of one namespace: apps/api/src/persistence/entities/{vfs-node,namespace,blob}.entity.ts.
-- Every query of the modelled code names the namespace, so the model holds the rows of one. Ids are
-- numbers, handed out in order by `next_id`: the database creates a new UUID for each row. `bigint`
-- columns are natural numbers, as their CHECK constraints demand. Time stamps of creation and update
-- are left out.
use storix.Base.{
  ℕ, String, Bool, true, false, ◌&&◌, Option, none, some, List, [], ◌∷◌, ◌==◌, str_eq,
  if◌then◌else◌,
}

pub data NodeType : Type 0 where
  file directory : NodeType

pub record Node : Type 0 where
  pub id : ℕ
  pub parent_id : Option ℕ
  pub type : NodeType
  pub name : String
  pub blob_id : Option ℕ
  pub size : Option ℕ
  pub mime_type : Option String
  pub child_file_count : ℕ
  pub expires_at : Option ℕ
  pub version : ℕ

pub record Blob : Type 0 where
  pub id : ℕ
  pub storage_key : String
  pub size : ℕ
  pub mime_type : String
  pub sha256 : String
  pub reference_count : ℕ
  pub zero_since : Option ℕ

pub record Namespace : Type 0 where
  pub active : Bool
  pub live_node_count : ℕ
  pub max_live_nodes : Option ℕ
  pub max_files_per_folder : Option ℕ
  pub live_file_byte_count : ℕ
  pub retained_snapshot_byte_count : ℕ
  pub retained_trash_byte_count : ℕ
  pub exclude_trash_from_quota : Bool
  pub exclude_snapshots_from_quota : Bool
  pub max_total_logical_bytes : Option ℕ

-- `clock` is CURRENT_TIMESTAMP of the transaction.
pub record Db : Type 0 where
  pub namespace : Namespace
  pub nodes : List Node
  pub blobs : List Blob
  pub next_id : ℕ
  pub clock : ℕ

-- Number.MAX_SAFE_INTEGER
abbrev pub max_vfs_version : ℕ
max_vfs_version = 9007199254740991

abbrev pub is_directory : NodeType → Bool
is_directory file = false
is_directory directory = true

-- `column = :value`, which a NULL column does not meet.
abbrev pub is_value : Option ℕ → ℕ → Bool
is_value none v = false
is_value (some u) v = u == v

unfoldable pub find_by_id : ℕ → List Node → Option Node
find_by_id id [] = none
find_by_id id (n ∷ ns) = if n.id == id then some n else find_by_id id ns

unfoldable pub find_child : (parent_id : ℕ) → (name : String) → List Node → Option Node
find_child parent_id name [] = none
find_child parent_id name (n ∷ ns) =
    if is_value n.parent_id parent_id && str_eq n.name name
    then some n
    else find_child parent_id name ns

-- The namespace's root has no parent.
unfoldable pub find_root : List Node → Option Node
find_root [] = none
find_root (n ∷ ns) = elim n.parent_id [ none ↦ some n | some _ ↦ find_root ns ]

-- UPDATE of the row with the given id.
unfoldable pub update_node : ℕ → (Node → Node) → List Node → List Node
update_node id f [] = []
update_node id f (n ∷ ns) = (if n.id == id then f n else n) ∷ update_node id f ns

unfoldable pub find_blob : ℕ → List Blob → Option Blob
find_blob id [] = none
find_blob id (b ∷ bs) = if b.id == id then some b else find_blob id bs

unfoldable pub update_blob : ℕ → (Blob → Blob) → List Blob → List Blob
update_blob id f [] = []
update_blob id f (b ∷ bs) = (if b.id == id then f b else b) ∷ update_blob id f bs

-- `resolvePathInManager`: every step asks the node before it to be a directory.
resolve_from : List Node → List String → Option Node → Option Node
resolve_from nodes [] node = node
resolve_from nodes (segment ∷ rest) none = none
resolve_from nodes (segment ∷ rest) (some node) =
    if is_directory node.type
    then resolve_from nodes rest (find_child node.id segment nodes)
    else none

unfoldable pub resolve_path : List Node → (root_id : ℕ) → List String → Option Node
unfolding resolve_from
resolve_path nodes root_id segments = resolve_from nodes segments (find_by_id root_id nodes)
