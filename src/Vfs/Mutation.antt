-- ===== src/Vfs/Mutation.antt =====
-- The state of a mutation (`MutationTx` of apps/api/src/persistence/vfs-node.repository.types.ts), the
-- errors, and the single statements that the mutations are made of. A mutation that throws is rolled
-- back, so an error carries no state. Row locks are left out: the lock on the namespace's root, or
-- the query gate of SQLite, already puts the mutations of one namespace in a row. The model is of a
-- namespace whose change feed has no checkpoint, where `feedBefore` is null and nothing is recorded.
use Prim.Native.String
use storix.Base.{
  ℕ, suc, ◌-◌, String, Bool, true, false, Option, none, some, List, [], ◌∷◌, ◌++◌, ltb, ◌==◌,
  if◌then◌else◌, Result, ok, err,
}
use storix.Base.Int.{ℤ, pos, negsuc, ◌+ℤ◌}
use storix.Vfs.State.{
  file, directory, Node, Blob, Db, find_child, update_node, update_blob, find_blob,
}

-- apps/api/src/vfs/vfs.errors.ts, those that the modelled code throws, by what they carry. `internal`
-- is a plain `Error`, `db_failure` a violated CHECK constraint; `diverges` is the model's own, for a
-- walk that runs out of fuel.
pub data VfsError : Type 0 where
  node_not_found namespace_not_found not_directory already_exists is_directory_error :
      String → VfsError
  version_conflict invalid_operation : String → VfsError
  revision_exhausted : VfsError
  quota_exceeded folder_file_limit_exceeded node_limit_exceeded : (limit required : ℕ) → VfsError
  internal : String → VfsError
  db_failure : VfsError
  diverges : VfsError

-- Every error but that of the model.
abbrev pub IsHalt : VfsError → Type 0
IsHalt diverges = ⊥
IsHalt _ = Unit

-- The counters that a mutation collects, beside the rows.
pub record Tx : Type 0 where
  pub db : Db
  pub root_id : ℕ
  pub changed : List (ℕ × Bool)
  pub ancestor_chain_marked : List ℕ
  pub live_file_byte_delta : ℤ
  pub logical_byte_delta : ℤ
  pub live_node_delta : ℤ
  pub folder_file_deltas : List (ℕ × ℤ)
  pub trash_byte_delta : ℤ
  pub snapshot_byte_delta : ℤ

abbrev pub M : Type 0 → Type 0
M A = Tx → Result VfsError (A × Tx)

infixl 5 ◌>>=◌ ◌>>◌
abbrev pub ◌>>=◌ : {A B : Type 0} → M A → (A → M B) → M B
◌>>=◌ m f tx = elim (m tx) [ err e ↦ err e | ok (a, tx') ↦ f a tx' ]

abbrev pub ◌>>◌ : {B : Type 0} → M (Unit {0}) → M B → M B
m >> k = m >>= λ _. k

abbrev pub pure : {A : Type 0} → A → M A
pure a tx = ok (a, tx)

abbrev pub throw : {A : Type 0} → VfsError → M A
throw e tx = err e

abbrev slash_join : List String → String
slash_join [] = ""
slash_join (s ∷ []) = s
slash_join (s ∷ rest) = String.◌++◌ s (String.◌++◌ "/" (slash_join rest))

-- `joinSegments`
unfoldable pub join_segments : List String → String
join_segments segments = String.◌++◌ "/" (slash_join segments)

-- The three `record…Delta` methods.
unfoldable pub record_live_byte_delta : ℤ → M (Unit {0})
record_live_byte_delta delta tx = ok (
  tt,
  record tx {
    live_file_byte_delta = tx.live_file_byte_delta +ℤ delta;
    logical_byte_delta = tx.logical_byte_delta +ℤ delta;
  },
)

unfoldable pub delta_of : ℕ → List (ℕ × ℤ) → ℤ
delta_of id [] = pos 0
delta_of id ((key, delta) ∷ rest) = if key == id then delta else delta_of id rest

-- `map.set(id, (map.get(id) ?? 0n) + delta)`
unfoldable pub add_delta : ℕ → ℤ → List (ℕ × ℤ) → List (ℕ × ℤ)
add_delta id delta [] = (id, delta) ∷ []
add_delta id delta ((key, old) ∷ rest) =
    if key == id then (key, old +ℤ delta) ∷ rest else (key, old) ∷ add_delta id delta rest

abbrev pub is_zero : ℤ → Bool
is_zero (pos n) = n == 0
is_zero (negsuc n) = false

unfoldable pub record_folder_file_delta : (parent_id : ℕ) → ℤ → M (Unit {0})
record_folder_file_delta parent_id delta tx =
    if is_zero delta
    then ok (tt, tx)
    else ok (tt, record tx { folder_file_deltas = add_delta parent_id delta tx.folder_file_deltas })

unfoldable pub record_live_node_delta : ℤ → M (Unit {0})
record_live_node_delta delta tx =
    ok (tt, record tx { live_node_delta = tx.live_node_delta +ℤ delta })

unfoldable pub is_changed : ℕ → List (ℕ × Bool) → Bool
is_changed id [] = false
is_changed id ((key, _) ∷ rest) = if key == id then true else is_changed id rest

-- `markChanged`: the first mark of a node stays.
unfoldable pub mark_changed : ℕ → Bool → M (Unit {0})
mark_changed id increment tx =
    if is_changed id tx.changed
    then ok (tt, tx)
    else ok (tt, record tx { changed = tx.changed ++ (id, increment) ∷ [] })

-- `findOneBy` and `lockTargetNode` on a child.
unfoldable pub read_child : (parent_id : ℕ) → (name : String) → M (Option Node)
read_child parent_id name tx = ok (find_child parent_id name tx.db.nodes, tx)

-- `nodeRepo.save(nodeRepo.create({…}))`: the row is made from the id that the database gives it.
unfoldable pub insert_node : (ℕ → Node) → M Node
insert_node make tx =
    let db = tx.db in
    let node = make db.next_id in
    ok (node, record tx { db = record db { nodes = node ∷ db.nodes; next_id = suc db.next_id } })

abbrev pub new_directory : (parent_id : ℕ) → (name : String) → ℕ → Node
new_directory parent_id name id = record {
  id = id;
  parent_id = some parent_id;
  type = directory;
  name = name;
  blob_id = none;
  size = none;
  mime_type = none;
  child_file_count = 0;
  expires_at = none;
  version = 1;
}

-- What a mutation stores of an uploaded content (`BlobData`), without the initialisation vector.
pub record BlobData : Type 0 where
  pub storage_key : String
  pub size : ℕ
  pub mime_type : String
  pub sha256 : String

abbrev pub new_file :
    (parent_id : ℕ)
    → (name : String) → (blob_id : ℕ) → BlobData
    → (expires_at : Option ℕ) → ℕ
    → Node
new_file parent_id name blob_id blob expires_at id = record {
  id = id;
  parent_id = some parent_id;
  type = file;
  name = name;
  blob_id = some blob_id;
  size = some blob.size;
  mime_type = some blob.mime_type;
  child_file_count = 0;
  expires_at = expires_at;
  version = 1;
}

-- `nodeRepo.save(existing)` on a row that was read: its columns, and the version one up.
unfoldable pub save_node : Node → M Node
save_node node tx =
    let db = tx.db in
    let saved = record node { version = suc node.version } in
    ok (saved, record tx { db = record db { nodes = update_node node.id (λ _. saved) db.nodes } })

-- `blobRepo.save(blobRepo.create({…, referenceCount: 1}))`, the id of the new row.
unfoldable pub insert_blob : BlobData → M ℕ
insert_blob blob tx =
    let db = tx.db in
    let row : Blob = record {
      id = db.next_id;
      storage_key = blob.storage_key;
      size = blob.size;
      mime_type = blob.mime_type;
      sha256 = blob.sha256;
      reference_count = 1;
      zero_since = none;
    } in
    ok (
      db.next_id,
      record tx { db = record db { blobs = row ∷ db.blobs; next_id = suc db.next_id } },
    )

-- `decrementReferenceCount`; a row that would go below 0 violates its CHECK constraint.
abbrev pub decremented : (count clock : ℕ) → Blob → Blob
decremented count clock blob = record blob {
  reference_count = blob.reference_count - count;
  zero_since = if blob.reference_count - count == 0 then some clock else blob.zero_since;
}

unfoldable pub decrement_reference_count : (blob_id count : ℕ) → M (Unit {0})
decrement_reference_count blob_id count tx =
    let db = tx.db in
    elim (find_blob blob_id db.blobs) [
      | none ↦ ok (tt, tx)
      | some blob ↦
          if ltb blob.reference_count count
          then err db_failure
          else ok (
            tt,
            record tx {
              db = record db { blobs = update_blob blob_id (decremented count db.clock) db.blobs };
            },
          )
    ]
