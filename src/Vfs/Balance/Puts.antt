-- ===== src/Vfs/Balance/Puts.antt =====
-- The balance under `putFileContent` and `touchFile`.
use storix.Base.{
  ℕ, suc, ◌≡◌, refl, inl, inr, String, Bool, true, false, Option, none, some, List, [], ◌∷◌, ◌++◌,
  ltb, leb, Bool-cases, Option-cases,
}
use storix.Base.Int.{pos, ◌+ℤ◌, sub_ℕ}
use storix.Vfs.State.{
  NodeType, file, directory, Node, Blob, is_directory, max_vfs_version, find_by_id, find_child,
  find_blob,
}
use storix.Vfs.Mutation.{
  Tx, ◌>>◌, pure, read_child, BlobData, new_file, mark_changed, insert_blob, insert_node, save_node,
  record_live_byte_delta, record_folder_file_delta, record_live_node_delta, add_delta,
  decrement_reference_count,
}
use storix.Vfs.Chain.{lock_parent_chain}
use storix.Vfs.Files.{
  created, replaced, create_file, bump_version, touch_existing, touch_target, touch_file,
  version_matches, replace_content, put_existing, put_target, put_file_content,
}
use storix.Vfs.Weights.{find_by_id-find_child}
use storix.Vfs.Tree.{HasRow}
use storix.Vfs.Ensures.{Ensures, Ensures-bind, Ledger, At, mark_changed-At}
use storix.Vfs.Balance.{Balanced}
use storix.Vfs.Balance.Steps.{create_file-Balanced, replace_content-Balanced, bump_version-Balanced}
use storix.Vfs.Balance.Chains.{IsBalanced, lock_parent_chain-Balanced}

create_file_lem :
    (parent_id : ℕ) (name : String) (blob : BlobData) (expires_at : Option ℕ) (tx : Tx)
    → IsBalanced tx
    → HasRow parent_id tx.db.nodes
    → Ensures (λ _ tx'. IsBalanced tx') (create_file parent_id name blob expires_at tx)
unfolding create_file insert_blob insert_node record_live_byte_delta record_folder_file_delta
    record_live_node_delta
create_file_lem parent_id name blob expires_at tx h below =
    let row : Blob = record {
      id = tx.db.next_id;
      storage_key = blob.storage_key;
      size = blob.size;
      mime_type = blob.mime_type;
      sha256 = blob.sha256;
      reference_count = 1;
      zero_since = none;
    } in
    let tx₁ = record tx {
      db = record tx.db {
        nodes =
            new_file parent_id name tx.db.next_id blob expires_at (suc tx.db.next_id) ∷ tx.db.nodes;
        blobs = row ∷ tx.db.blobs;
        next_id = suc (suc tx.db.next_id);
      };
    } in
    Ensures-bind (λ _ tx'. At P tx') (λ _ tx'. IsBalanced tx')
      (mark_changed (suc tx.db.next_id) false) _ tx₁
      (mark_changed-At P (suc tx.db.next_id) false tx₁
        (create_file-Balanced h parent_id name blob expires_at _ below))
      (λ _ tx' k. k)
  where
    P : Ledger
    P db nodes bytes folders =
        Balanced db (nodes +ℤ pos 1) (bytes +ℤ pos blob.size) (add_delta parent_id (pos 1) folders)

-- The blobs are not counted.
blobs-Balanced :
    (tx : Tx) (blobs : List Blob)
    → IsBalanced tx
    → IsBalanced (record tx { db = record tx.db { blobs = blobs } })
blobs-Balanced tx blobs h = record {
  distinct = h.distinct;
  tree = h.tree;
  known = h.known;
  live_nodes = h.live_nodes;
  live_bytes = h.live_bytes;
  in_folders = h.in_folders;
  keys = h.keys;
  keys_below = h.keys_below;
}

decrement_reference_count_lem :
    (blob_id : ℕ) (tx : Tx)
    → IsBalanced tx
    → Ensures (λ _ tx'. IsBalanced tx') (decrement_reference_count blob_id 1 tx)
unfolding decrement_reference_count
decrement_reference_count_lem blob_id tx h = elim (Option-cases (find_blob blob_id tx.db.blobs)) [
  | inl e ↦ rw (Ensures, decrement_reference_count, e) h
  | inr (blob, e) ↦ elim (Bool-cases (ltb blob.reference_count 1)) [
    | inl short ↦ rw (Ensures, decrement_reference_count, e, short) tt
    | inr enough ↦ rw (Ensures, decrement_reference_count, e, enough) (blobs-Balanced tx _ h)
  ]
]

-- The ledger of a replaced content, before its delta is recorded.
abbrev Replaced : (size previous : ℕ) → Ledger
Replaced size previous db nodes bytes folders =
    Balanced db nodes (bytes +ℤ sub_ℕ size previous) folders

replaced_lem :
    (saved : Node) (size previous previous_blob : ℕ) (tx : Tx)
    → At (Replaced size previous) tx
    → Ensures
        (λ _ tx'. IsBalanced tx')
        ((do
          mark_changed saved.id false
          record_live_byte_delta (sub_ℕ size previous)
          decrement_reference_count previous_blob 1
          pure saved)
          tx)
unfolding record_live_byte_delta
replaced_lem saved size previous previous_blob tx h =
    Ensures-bind (λ _ tx'. At (Replaced size previous) tx') (λ _ tx'. IsBalanced tx')
      (mark_changed saved.id false) _ tx
      (mark_changed-At (Replaced size previous) saved.id false tx h)
      (λ _ tx' k.
        Ensures-bind (λ _ tx'. IsBalanced tx') (λ _ tx'. IsBalanced tx')
          (decrement_reference_count previous_blob 1) (λ _. pure saved) _
          (decrement_reference_count_lem previous_blob _ k) (λ _ _ k'. k'))

replace_content_lem :
    (existing : Node) (blob : BlobData) (blob_id size : Option ℕ) (tx : Tx)
    → IsBalanced tx
    → find_by_id existing.id tx.db.nodes ≡ some existing
    → existing.type ≡ file
    → existing.size ≡ size
    → Ensures (λ _ tx'. IsBalanced tx') (replace_content existing blob blob_id size tx)
unfolding replace_content insert_blob save_node
replace_content_lem existing blob none size tx h found is_file sized = tt
replace_content_lem existing blob (some previous_blob) none tx h found is_file sized = tt
replace_content_lem existing blob (some previous_blob) (some previous) tx h found is_file sized =
    replaced_lem _ blob.size previous previous_blob _
      (replace_content-Balanced h existing blob _ previous found is_file sized)

bump_version_lem :
    (node : Node) (tx : Tx)
    → IsBalanced tx
    → find_by_id node.id tx.db.nodes ≡ some node
    → Ensures (λ _ tx'. IsBalanced tx') (bump_version node tx)
unfolding bump_version
bump_version_lem node tx h found = elim (Bool-cases (leb max_vfs_version node.version)) [
  | inl last ↦ rw last tt
  | inr more ↦ rw more (bump_version-Balanced h node.id node found)
]

touch_existing_lem :
    (segments : List String) (node : Node) (tx : Tx)
    → IsBalanced tx
    → find_by_id node.id tx.db.nodes ≡ some node
    → Ensures (λ _ tx'. IsBalanced tx') (touch_existing segments node tx)
unfolding touch_existing
touch_existing_lem segments node tx h found = elim (Bool-cases (is_directory node.type)) [
  | inl dir ↦ rw dir tt
  | inr is_file ↦ rw is_file (
      Ensures-bind (λ _ tx'. IsBalanced tx') (λ _ tx'. IsBalanced tx') (bump_version node) _ tx
        (bump_version_lem node tx h found)
        (λ touched tx' k.
          Ensures-bind (λ _ tx'. IsBalanced tx') (λ _ tx'. IsBalanced tx')
            (mark_changed touched.id false) (λ _. pure (replaced touched)) tx'
            (mark_changed-At Balanced touched.id false tx' k) (λ _ _ k'. k')))
]

touch_target_lem :
    (parent_id : ℕ) (segments : List String) (name : String) (blob : Option BlobData) (tx : Tx)
    → IsBalanced tx
    → HasRow parent_id tx.db.nodes
    → Ensures
        (λ _ tx'. IsBalanced tx')
        (touch_target parent_id segments name blob (find_child parent_id name tx.db.nodes) tx)
unfolding touch_target
touch_target_lem parent_id segments name blob tx h below =
    elim (Option-cases (find_child parent_id name tx.db.nodes)) [
      | inr (node, e) ↦ rw e (
          touch_existing_lem segments node tx h
            (find_by_id-find_child tx.db.nodes parent_id name node h.distinct e))
      | inl e ↦ rw e (absent blob)
    ]
  where
    absent :
        (blob : Option BlobData)
        → Ensures (λ _ tx'. IsBalanced tx') (touch_target parent_id segments name blob none tx)
    absent none = h
    absent (some blob) =
        Ensures-bind (λ _ tx'. IsBalanced tx') (λ _ tx'. IsBalanced tx')
          (create_file parent_id name blob none) (λ node. pure (created node)) tx
          (create_file_lem parent_id name blob none tx h below) (λ _ _ k. k)

pub touch_file-Balanced :
    (path : List String) (name : String) (parents : Bool) (blob : Option BlobData) (tx : Tx)
    → IsBalanced tx
    → HasRow tx.root_id tx.db.nodes
    → Ensures (λ _ tx'. IsBalanced tx') (touch_file path name parents blob tx)
unfolding touch_file read_child
touch_file-Balanced path name parents blob tx h below =
    Ensures-bind (λ id tx'. IsBalanced tx' × (HasRow id tx'.db.nodes)) (λ _ tx'. IsBalanced tx')
      (lock_parent_chain tx.root_id path parents true) _ tx
      (lock_parent_chain-Balanced tx.root_id path parents tx h below)
      (λ id tx' k. touch_target_lem id (path ++ name ∷ []) name blob tx' k.0 k.1)

put_existing_lem :
    (segments : List String) (blob : BlobData) (if_match : Option ℕ) (force : Bool) (node : Node)
    (tx : Tx)
    → IsBalanced tx
    → find_by_id node.id tx.db.nodes ≡ some node
    → Ensures (λ _ tx'. IsBalanced tx') (put_existing segments blob if_match force node tx)
unfolding put_existing
put_existing_lem segments blob if_match force node tx h found =
    elim (Bool-cases (is_directory node.type)) [
      | inl dir ↦ rw dir tt
      | inr is_file ↦ elim (Bool-cases (leb max_vfs_version node.version)) [
        | inl last ↦ rw (is_file, last) tt
        | inr more ↦ elim (Bool-cases (version_matches if_match force node.version)) [
          | inr stale ↦ rw (is_file, more, stale) tt
          | inl fresh ↦
              rw (is_file, more, fresh)
                (Ensures-bind (λ _ tx'. IsBalanced tx') (λ _ tx'. IsBalanced tx')
                  (replace_content node blob node.blob_id node.size)
                  (λ saved. pure (replaced saved)) tx
                  (replace_content_lem node blob node.blob_id node.size tx h found
                    (file_of node.type is_file) refl)
                  (λ _ _ k. k))
        ]
      ]
    ]
  where
    file_of : (type : NodeType) → is_directory type ≡ false → type ≡ file
    file_of file e = refl
    file_of directory e = cc

put_target_lem :
    (parent_id : ℕ) (segments : List String) (name : String) (blob : BlobData) (if_match : Option ℕ)
    (force : Bool) (expires_at : Option ℕ) (tx : Tx)
    → IsBalanced tx
    → HasRow parent_id tx.db.nodes
    → Ensures
        (λ _ tx'. IsBalanced tx')
        (put_target parent_id segments name blob if_match force expires_at
          (find_child parent_id name tx.db.nodes)
          tx)
unfolding put_target
put_target_lem parent_id segments name blob if_match force expires_at tx h below =
    elim (Option-cases (find_child parent_id name tx.db.nodes)) [
      | inr (node, e) ↦ rw e (
          put_existing_lem segments blob if_match force node tx h
            (find_by_id-find_child tx.db.nodes parent_id name node h.distinct e))
      | inl e ↦ rw e (absent if_match)
    ]
  where
    absent :
        (if_match : Option ℕ)
        → Ensures
            (λ _ tx'. IsBalanced tx')
            (put_target parent_id segments name blob if_match force expires_at none tx)
    absent (some wanted) = tt
    absent none =
        Ensures-bind (λ _ tx'. IsBalanced tx') (λ _ tx'. IsBalanced tx')
          (create_file parent_id name blob expires_at) (λ node. pure (created node)) tx
          (create_file_lem parent_id name blob expires_at tx h below) (λ _ _ k. k)

pub put_file_content-Balanced :
    (path : List String) (name : String) (parents : Bool) (blob : BlobData) (if_match : Option ℕ)
    (force : Bool) (expires_at : Option ℕ) (tx : Tx)
    → IsBalanced tx
    → HasRow tx.root_id tx.db.nodes
    → Ensures
        (λ _ tx'. IsBalanced tx')
        (put_file_content path name parents blob if_match force expires_at tx)
unfolding put_file_content read_child
put_file_content-Balanced path name parents blob if_match force expires_at tx h below =
    Ensures-bind (λ id tx'. IsBalanced tx' × (HasRow id tx'.db.nodes)) (λ _ tx'. IsBalanced tx')
      (lock_parent_chain tx.root_id path parents true) _ tx
      (lock_parent_chain-Balanced tx.root_id path parents tx h below)
      (λ id tx' k.
        put_target_lem id (path ++ name ∷ []) name blob if_match force expires_at tx' k.0 k.1)
