-- ===== src/Vfs/Files.antt =====
-- `ensureDirectory`, `touchFile` and `putFileContent` of
-- apps/api/src/persistence/vfs-node.repository.file-mutations.ts, inside a mutation. `path` and
-- `name` are the segments but the last, and the last: the callers refuse the path of the root.
use storix.Base.{
  ℕ, suc, String, Bool, true, false, ◌&&◌, ◌||◌, not, Option, none, some, List, [], ◌∷◌, ◌++◌, leb,
  ◌==◌, if◌then◌else◌, ok, err,
}
use storix.Base.Int.{pos, sub_ℕ}
use storix.Vfs.State.{Node, NodeType, directory, is_directory, max_vfs_version, update_node}
use storix.Vfs.Mutation.{
  node_not_found, not_directory, already_exists, is_directory_error, version_conflict,
  revision_exhausted, internal, M, ◌>>=◌, ◌>>◌, pure, throw, join_segments, record_live_byte_delta,
  record_folder_file_delta, record_live_node_delta, mark_changed, read_child, insert_node,
  new_directory, BlobData, new_file, save_node, insert_blob, decrement_reference_count,
}
use storix.Vfs.Chain.{mark_ancestor_chain, lock_parent_chain}

abbrev is_empty {ℓ} : {A : Type ℓ} → List A → Bool
is_empty [] = true
is_empty (_ ∷ _) = false

-- One round of the loop of `ensureDirectory`, with the node that the name leads to and whether it was
-- created here.
unfoldable pub ensure_child :
    (parents is_last : Bool)
    → (above segments : List String) → (parent_id : ℕ) → (name : String) → Option Node
    → M (Node × Bool)
unfolding insert_node record_live_node_delta mark_changed
ensure_child parents is_last above segments parent_id name (some child) =
    if is_last && (not (is_directory child.type) || not parents)
    then throw (already_exists (join_segments segments))
    else pure (child, false)
ensure_child parents is_last above segments parent_id name none =
    if not is_last && not parents then throw (node_not_found (join_segments above)) else do
      child ← insert_node (new_directory parent_id name)
      record_live_node_delta (pos 1)
      mark_ancestor_chain parent_id
      mark_changed child.id false
      pure (child, is_last)

unfoldable pub ensure_from :
    (parents : Bool)
    → (segments above rest : List String) → (parent_id : ℕ) → NodeType
    → Option Node × Bool
    → M (Option Node × Bool)
unfolding ensure_child read_child
ensure_from parents segments above [] parent_id parent_type result = pure result
ensure_from parents segments above (name ∷ rest) parent_id parent_type result =
    if not (is_directory parent_type) then throw (not_directory (join_segments above)) else do
      found ← read_child parent_id name
      (child, created) ←
          ensure_child parents (is_empty rest) (above ++ name ∷ []) segments parent_id name found
      ensure_from parents segments (above ++ name ∷ []) rest child.id child.type
          (some child, created)

-- With no segment the source reads a field of null and throws.
unfoldable pub or_null : Option Node × Bool → M (Node × Bool)
or_null (none, created) = throw (internal "TypeError")
or_null (some node, created) = pure (node, created)

unfoldable pub ensure_directory : (segments : List String) → (parents : Bool) → M (Node × Bool)
unfolding ensure_from or_null
ensure_directory segments parents tx =
    (do
      result ← ensure_from parents segments [] segments tx.root_id directory (none, false)
      or_null result)
      tx

pub data TouchFileOutcome : Type 0 where
  created replaced : Node → TouchFileOutcome
  absent : TouchFileOutcome

-- A new FILE with its blob, as `touchFile` and `putFileContent` make it.
unfoldable pub create_file :
    (parent_id : ℕ) → (name : String) → BlobData → (expires_at : Option ℕ) → M Node
unfolding insert_blob insert_node mark_changed record_live_byte_delta record_folder_file_delta
    record_live_node_delta
create_file parent_id name blob expires_at = do
  blob_id ← insert_blob blob
  node ← insert_node (new_file parent_id name blob_id blob expires_at)
  mark_changed node.id false
  record_live_byte_delta (pos blob.size)
  record_folder_file_delta parent_id (pos 1)
  record_live_node_delta (pos 1)
  pure node

-- The UPDATE of `touchFile` and the read behind it: the version goes up, unless it is the last one.
unfoldable pub bump_version : Node → M Node
bump_version node tx =
    let db = tx.db in
    let raise = λ (row : Node). record row { version = suc row.version } in
    if leb max_vfs_version node.version
    then err revision_exhausted
    else ok
        (raise node, record tx { db = record db { nodes = update_node node.id raise db.nodes } })

unfoldable pub touch_existing : (segments : List String) → Node → M TouchFileOutcome
unfolding bump_version mark_changed
touch_existing segments existing =
    if is_directory existing.type
    then throw (is_directory_error (join_segments segments))
    else do touched ← bump_version existing; mark_changed touched.id false; pure (replaced touched)

unfoldable pub touch_target :
    (parent_id : ℕ)
    → (segments : List String) → (name : String) → Option BlobData
    → Option Node
    → M TouchFileOutcome
unfolding touch_existing create_file
touch_target parent_id segments name empty_blob (some existing) = touch_existing segments existing
touch_target parent_id segments name none none = pure absent
touch_target parent_id segments name (some blob) none = do
  node ← create_file parent_id name blob none
  pure (created node)

-- With no blob only an existing FILE is touched.
unfoldable pub touch_file :
    (path : List String) → (name : String) → (parents : Bool) → Option BlobData → M TouchFileOutcome
unfolding touch_target read_child lock_parent_chain
touch_file path name parents empty_blob tx =
    (do
      parent_id ← lock_parent_chain tx.root_id path parents true
      existing ← read_child parent_id name
      touch_target parent_id (path ++ name ∷ []) name empty_blob existing)
      tx

-- With `If-Match` the version has to be the present one, whatever `force` says.
abbrev pub version_matches : Option ℕ → Bool → ℕ → Bool
version_matches none force version = force
version_matches (some wanted) force version = wanted == version

-- The content of a FILE is replaced. A FILE with no blob or no size breaks a CHECK constraint.
unfoldable pub replace_content : Node → BlobData → Option ℕ → Option ℕ → M Node
unfolding insert_blob save_node mark_changed record_live_byte_delta decrement_reference_count
replace_content existing blob none previous_size = throw (internal "FILE node has no blobId")
replace_content existing blob (some previous_blob_id) none =
    throw (internal "FILE node has no size")
replace_content existing blob (some previous_blob_id) (some previous_size) = do
  blob_id ← insert_blob blob
  saved ← save_node (record existing {
    blob_id = some blob_id;
    size = some blob.size;
    mime_type = some blob.mime_type;
  })
  mark_changed saved.id false
  record_live_byte_delta (sub_ℕ blob.size previous_size)
  decrement_reference_count previous_blob_id 1
  pure saved

unfoldable pub put_existing :
    (segments : List String) → BlobData → Option ℕ → (force : Bool) → Node → M TouchFileOutcome
unfolding replace_content
put_existing segments blob if_match force existing =
    if is_directory existing.type
    then throw (is_directory_error (join_segments segments))
    else if leb max_vfs_version existing.version
    then throw revision_exhausted
    else if not (version_matches if_match force existing.version)
    then throw (version_conflict (join_segments segments))
    else do
      saved ← replace_content existing blob existing.blob_id existing.size
      pure (replaced saved)

-- An `If-Match` on a FILE that is not there fails too.
unfoldable pub put_target :
    (parent_id : ℕ)
    → (segments : List String) → (name : String) → BlobData
    → Option ℕ
    → (force : Bool) → (expires_at : Option ℕ) → Option Node
    → M TouchFileOutcome
unfolding put_existing create_file
put_target parent_id segments name blob if_match force expires_at (some existing) =
    put_existing segments blob if_match force existing
put_target parent_id segments name blob (some wanted) force expires_at none =
    throw (version_conflict (join_segments segments))
put_target parent_id segments name blob none force expires_at none = do
  node ← create_file parent_id name blob expires_at
  pure (created node)

unfoldable pub put_file_content :
    (path : List String)
    → (name : String) → (parents : Bool) → BlobData
    → (if_match : Option ℕ) → (force : Bool) → (expires_at : Option ℕ) → M TouchFileOutcome
unfolding put_target read_child lock_parent_chain
put_file_content path name parents blob if_match force expires_at tx =
    (do
      parent_id ← lock_parent_chain tx.root_id path parents true
      existing ← read_child parent_id name
      put_target parent_id (path ++ name ∷ []) name blob if_match force expires_at existing)
      tx
