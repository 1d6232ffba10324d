-- ===== src/Vfs/Balance/Steps.antt =====
-- The balance under the single steps of the mutations.
use storix.Base.{
  ℕ, suc, ◌+◌, ◌<◌, ◌≡◌, refl, inl, inr, String, Option, none, some, List, [], ◌∷◌, ◌==◌,
  if◌then◌else◌, ==→eq, Bool-cases, arith,
}
use storix.Base.Int.{ℤ, pos, pos_part, neg_part, ◌+ℤ◌, +ℤ_parts, zero-+ℤ, sub_ℕ, sub_ℕ_parts}
use storix.Vfs.State.{
  NodeType, file, directory, Node, Blob, Db, is_directory, is_value, find_by_id, update_node,
}
use storix.Vfs.Mutation.{delta_of, add_delta, new_directory, new_file, BlobData}
use storix.Vfs.Weights.{
  total, is_live, bytes_of, file_in, AllNodes, AllNodes-map, AllNodes-find, AllNodes-update,
  total-update, find-update_self, find-update_ne, Distinct-update, find-fresh, total-file_in_fresh,
  KeepsId,
}
use storix.Vfs.Tree.{HasRow, IsTree-update}
use storix.Vfs.Balance.{
  BelowOption, IsKnown, KeysBelow, IsAbsent, DistinctKeys, FoldersBalanced, Balanced,
}
use storix.Vfs.Balance.Tree.{HasRow-below, IsTree-cons}

pub delta_of-add_delta :
    (id folder : ℕ) (d : ℤ) (fs : List (ℕ × ℤ))
    → delta_of folder (add_delta id d fs)
      ≡ (if id == folder then delta_of folder fs +ℤ d else delta_of folder fs)
unfolding delta_of add_delta
delta_of-add_delta id folder d [] = ground (arith, zero-+ℤ d)
delta_of-add_delta id folder d ((key, old) ∷ rest) =
    ground (arith, delta_of-add_delta id folder d rest)

delta_of-absent :
    (folder : ℕ) (fs : List (ℕ × ℤ)) → KeysBelow folder fs → delta_of folder fs ≡ pos 0
unfolding delta_of
delta_of-absent folder [] h = refl
delta_of-absent folder ((key, d) ∷ rest) (h, hs) = ground (arith, delta_of-absent folder rest hs)

KeysBelow-suc : (next : ℕ) (fs : List (ℕ × ℤ)) → KeysBelow next fs → KeysBelow (suc next) fs
KeysBelow-suc next [] h = tt
KeysBelow-suc next ((key, d) ∷ rest) (h, hs) = (omega arith, KeysBelow-suc next rest hs)

KeysBelow-add_delta :
    (next id : ℕ) (d : ℤ) (fs : List (ℕ × ℤ))
    → id < next
    → KeysBelow next fs
    → KeysBelow next (add_delta id d fs)
unfolding add_delta
KeysBelow-add_delta next id d [] h ks = (h, tt)
KeysBelow-add_delta next id d ((key, old) ∷ rest) h (k, ks) =
    ground (arith, KeysBelow-add_delta next id d rest h ks)

IsAbsent-add_delta :
    (key id : ℕ) (d : ℤ) (fs : List (ℕ × ℤ))
    → ¬ (id ≡ key)
    → IsAbsent key fs
    → IsAbsent key (add_delta id d fs)
unfolding add_delta
IsAbsent-add_delta key id d [] h a = (h, tt)
IsAbsent-add_delta key id d ((other, old) ∷ rest) h (a, as') = elim (Bool-cases (other == id)) [
  | inl same ↦ rw same (a, as')
  | inr new ↦ rw new (a, IsAbsent-add_delta key id d rest h as')
]

DistinctKeys-add_delta :
    (id : ℕ) (d : ℤ) (fs : List (ℕ × ℤ)) → DistinctKeys fs → DistinctKeys (add_delta id d fs)
unfolding add_delta
DistinctKeys-add_delta id d [] h = (tt, tt)
DistinctKeys-add_delta id d ((key, old) ∷ rest) (a, h) = elim (Bool-cases (key == id)) [
  | inl same ↦ rw same (a, h)
  | inr new ↦
      rw new
        (IsAbsent-add_delta key id d rest (λ e. ground arith) a, DistinctKeys-add_delta id d rest h)
]

BelowOption-suc : (next : ℕ) (o : Option ℕ) → BelowOption next o → BelowOption (suc next) o
BelowOption-suc next none h = tt
BelowOption-suc next (some id) h = omega arith

IsKnown-suc : (next : ℕ) (n : Node) → IsKnown next n → IsKnown (suc next) n
IsKnown-suc next n (h, p, b) =
    (omega arith, BelowOption-suc next n.parent_id p, BelowOption-suc next n.blob_id b)

file_in-fresh : (next : ℕ) (n : Node) → IsKnown next n → file_in next n ≡ 0
file_in-fresh next n (h, p, b) = go n.type n.parent_id p
  where
    go :
        (t : NodeType) (o : Option ℕ)
        → BelowOption next o
        → ◌≡◌ {A = ℕ} (if is_directory t then 0 else if is_value o next then 1 else 0) 0
    go directory o q = refl
    go file none q = refl
    go file (some id) q = ground arith

nothing_in_fresh :
    (next : ℕ) (nodes : List Node) → AllNodes (IsKnown next) nodes → total (file_in next) nodes ≡ 0
nothing_in_fresh next nodes h =
    total-file_in_fresh nodes next
      (AllNodes-map (IsKnown next) (λ n. file_in next n ≡ 0) nodes (file_in-fresh next) h)

-- A new row with a fresh id below what is known.
fresh-absent :
    (next : ℕ) (nodes : List Node) → AllNodes (IsKnown next) nodes → find_by_id next nodes ≡ none
fresh-absent next nodes h =
    find-fresh nodes next (AllNodes-map (IsKnown next) (λ n. n.id < next) nodes (λ n k. k.0) h)

module _ {db : Db} {nodes bytes : ℤ} {folders : List (ℕ × ℤ)}
    (h : Balanced db nodes bytes folders) where
  pub create_directory-Balanced :
      (parent_id : ℕ) (name : String)
      → HasRow parent_id db.nodes
      → Balanced
          (record db {
            nodes = new_directory parent_id name db.next_id ∷ db.nodes;
            next_id = suc db.next_id;
          })
          (nodes +ℤ pos 1)
          bytes
          folders
  unfolding find_by_id
  create_directory-Balanced parent_id name row =
      let below = HasRow-below parent_id db.next_id db.nodes h.known row in
      record {
        distinct = (fresh-absent db.next_id db.nodes h.known, h.distinct);
        tree =
            IsTree-cons db.next_id db.nodes (new_directory parent_id name db.next_id) parent_id
              h.known refl refl below row h.tree;
        known = (
          (omega arith, omega arith, tt),
          AllNodes-map (IsKnown db.next_id) (IsKnown (suc db.next_id)) db.nodes
              (IsKnown-suc db.next_id) h.known,
        );
        live_nodes = omega (arith, h.live_nodes, +ℤ_parts nodes (pos 1));
        live_bytes = omega (arith, h.live_bytes);
        in_folders = in_folders';
        keys = h.keys;
        keys_below = KeysBelow-suc db.next_id folders h.keys_below;
      }
    where
      in_folders' : FoldersBalanced (new_directory parent_id name db.next_id ∷ db.nodes) folders
      in_folders' folder n found dir = elim (Bool-cases (db.next_id == folder)) [
        | inl same ↦ ground (
          arith,
          nothing_in_fresh db.next_id db.nodes h.known,
          delta_of-absent db.next_id folders h.keys_below,
        )
        | inr other ↦ ground (arith, h.in_folders folder n)
      ]

  pub create_file-Balanced :
      (parent_id : ℕ) (name : String) (blob : BlobData) (expires_at : Option ℕ) (blobs : List Blob)
      → HasRow parent_id db.nodes
      → Balanced
          (record db {
            nodes = new_file parent_id name db.next_id blob expires_at (suc db.next_id) ∷ db.nodes;
            blobs = blobs;
            next_id = suc (suc db.next_id);
          })
          (nodes +ℤ pos 1)
          (bytes +ℤ pos blob.size)
          (add_delta parent_id (pos 1) folders)
  unfolding find_by_id
  create_file-Balanced parent_id name blob expires_at blobs row =
      let below = HasRow-below parent_id db.next_id db.nodes h.known row in
      record {
        distinct = (absent, h.distinct);
        tree =
            IsTree-cons (suc db.next_id) db.nodes
              (new_file parent_id name db.next_id blob expires_at (suc db.next_id)) parent_id known₁
              refl refl (omega arith) row h.tree;
        known = ((omega arith, omega arith, omega arith), known₂);
        live_nodes = omega (arith, h.live_nodes, +ℤ_parts nodes (pos 1));
        live_bytes = omega (arith, h.live_bytes, +ℤ_parts bytes (pos blob.size));
        in_folders = in_folders';
        keys = DistinctKeys-add_delta parent_id (pos 1) folders h.keys;
        keys_below =
            KeysBelow-add_delta (suc (suc db.next_id)) parent_id (pos 1) folders (omega arith) (
              KeysBelow-suc (suc db.next_id) folders
                (KeysBelow-suc db.next_id folders h.keys_below));
      }
    where
      known₁ : AllNodes (IsKnown (suc db.next_id)) db.nodes
      known₁ =
          AllNodes-map (IsKnown db.next_id) (IsKnown (suc db.next_id)) db.nodes
            (IsKnown-suc db.next_id) h.known

      known₂ : AllNodes (IsKnown (suc (suc db.next_id))) db.nodes
      known₂ =
          AllNodes-map (IsKnown (suc db.next_id)) (IsKnown (suc (suc db.next_id))) db.nodes
            (IsKnown-suc (suc db.next_id)) known₁

      absent : find_by_id (suc db.next_id) db.nodes ≡ none
      absent = fresh-absent (suc db.next_id) db.nodes known₁

      in_folders' :
          FoldersBalanced
            (new_file parent_id name db.next_id blob expires_at (suc db.next_id) ∷ db.nodes)
            (add_delta parent_id (pos 1) folders)
      in_folders' folder n found dir = elim (Bool-cases (suc db.next_id == folder)) [
        | inl same ↦ absurd (ground arith)
        | inr other ↦ ground (
          arith,
          h.in_folders folder n,
          delta_of-add_delta parent_id folder (pos 1) folders,
          +ℤ_parts (delta_of folder folders) (pos 1),
        )
      ]

  -- An update of one row that keeps its place, its type and its counter.
  update-Balanced :
      (id : ℕ) (f : Node → Node) (n : Node) (bytes' : ℤ) (blobs : List Blob) (next : ℕ)
      → KeepsId id f
      → find_by_id id db.nodes ≡ some n
      → (f n).type ≡ n.type
      → (f n).parent_id ≡ n.parent_id
      → (n.type ≡ directory → (f n).child_file_count ≡ n.child_file_count)
      → bytes_of (f n) + neg_part bytes' + pos_part bytes
        ≡ bytes_of n + neg_part bytes + pos_part bytes'
      → AllNodes (IsKnown next) (update_node id f db.nodes)
      → KeysBelow next folders
      → Balanced
          (record db { nodes = update_node id f db.nodes; blobs = blobs; next_id = next })
          nodes
          bytes'
          folders
  update-Balanced id f n bytes' blobs next keep found type parent count moved known below = record {
    distinct = Distinct-update db.nodes id f keep h.distinct;
    tree = IsTree-update db.nodes id f n h.distinct found keep parent h.tree;
    known = known;
    live_nodes =
        let same : is_live (f n) ≡ is_live n = rw parent refl in
        omega (arith, h.live_nodes, total-update is_live db.nodes id f n h.distinct found);
    live_bytes =
        omega (arith, h.live_bytes, moved, total-update bytes_of db.nodes id f n h.distinct found);
    in_folders = in_folders';
    keys = h.keys;
    keys_below = below;
  }
    where
      same_in : (folder : ℕ) → file_in folder (f n) ≡ file_in folder n
      same_in folder = rw (type, parent) refl

      in_folders' : FoldersBalanced (update_node id f db.nodes) folders
      in_folders' folder m found' dir = elim (Bool-cases (id == folder)) [
        | inl same ↦
            let e = ==→eq id folder same in
            ground (
              arith,
              find-update_self db.nodes id f n keep found,
              count,
              h.in_folders folder n,
              total-update (file_in folder) db.nodes id f n h.distinct found,
              same_in folder,
            )
        | inr other ↦ ground (
          arith,
          find-update_ne db.nodes id folder f keep (λ e. ground arith),
          h.in_folders folder m,
          total-update (file_in folder) db.nodes id f n h.distinct found,
          same_in folder,
        )
      ]

  pub replace_content-Balanced :
      (existing : Node) (blob : BlobData) (blobs : List Blob) (previous : ℕ)
      → find_by_id existing.id db.nodes ≡ some existing
      → existing.type ≡ file
      → existing.size ≡ some previous
      → Balanced
          (record db {
            nodes =
                update_node existing.id
                  (λ _. record existing {
                    blob_id = some db.next_id;
                    size = some blob.size;
                    mime_type = some blob.mime_type;
                    version = suc existing.version;
                  })
                  db.nodes;
            blobs = blobs;
            next_id = suc db.next_id;
          })
          nodes
          (bytes +ℤ sub_ℕ blob.size previous)
          folders
  replace_content-Balanced existing blob blobs previous found is_file sized =
      let is_previous : bytes_of existing ≡ previous = rw sized refl in
      let (id_known, parent_known, _) =
        AllNodes-find (IsKnown db.next_id) db.nodes existing.id existing h.known found in
      update-Balanced existing.id _ existing (bytes +ℤ sub_ℕ blob.size previous) blobs
        (suc db.next_id) (λ _ _. refl) found refl refl (λ _. refl)
        (omega (
          arith,
          is_previous,
          +ℤ_parts bytes (sub_ℕ blob.size previous),
          sub_ℕ_parts blob.size previous,
        ))
        (AllNodes-update (IsKnown (suc db.next_id)) db.nodes existing.id _
          (λ _ _.
            (omega arith, BelowOption-suc db.next_id existing.parent_id parent_known, omega arith))
          (AllNodes-map (IsKnown db.next_id) (IsKnown (suc db.next_id)) db.nodes
            (IsKnown-suc db.next_id) h.known))
        (KeysBelow-suc db.next_id folders h.keys_below)

  -- A row's version is not counted.
  pub bump_version-Balanced :
      (id : ℕ) (n : Node)
      → find_by_id id db.nodes ≡ some n
      → Balanced
          (record db {
            nodes = update_node id (λ row. record row { version = suc row.version }) db.nodes;
          })
          nodes
          bytes
          folders
  bump_version-Balanced id n found =
      update-Balanced id (λ row. record row { version = suc row.version }) n bytes db.blobs
        db.next_id (λ m e. e) found refl refl (λ _. refl) (omega arith)
        (AllNodes-update (IsKnown db.next_id) db.nodes id
          (λ row. record row { version = suc row.version }) (λ m k. k) h.known)
        h.keys_below
