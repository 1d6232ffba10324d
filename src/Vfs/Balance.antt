-- ===== src/Vfs/Balance.antt =====
-- The counters of a namespace against its rows, up to the deltas that a mutation has collected.
pub mod Tree
pub mod Steps
pub mod Chains
pub mod Directories
pub mod Puts
pub mod Folders
pub mod Commits
use storix.Base.{ℕ, ◌+◌, ◌<◌, ◌≡◌, Option, none, some, List, [], ◌∷◌}
use storix.Base.Int.{ℤ, pos, pos_part, neg_part}
use storix.Vfs.State.{Node, directory, Db, find_by_id}
use storix.Vfs.Mutation.{delta_of}
use storix.Vfs.Weights.{total, is_live, bytes_of, file_in, Distinct, AllNodes}
use storix.Vfs.Tree.{IsTree}

abbrev pub BelowOption : ℕ → Option ℕ → Type 0
BelowOption next none = Unit
BelowOption next (some id) = id < next

-- The ids that a row names were handed out before.
abbrev pub IsKnown : ℕ → Node → Type 0
IsKnown next n = (n.id < next) × BelowOption next n.parent_id × BelowOption next n.blob_id

abbrev pub KeysBelow : ℕ → List (ℕ × ℤ) → Type 0
KeysBelow next [] = Unit
KeysBelow next ((key, _) ∷ rest) = (key < next) × KeysBelow next rest

abbrev pub IsAbsent : ℕ → List (ℕ × ℤ) → Type 0
IsAbsent key [] = Unit
IsAbsent key ((other, _) ∷ rest) = ¬ (other ≡ key) × IsAbsent key rest

abbrev pub DistinctKeys : List (ℕ × ℤ) → Type 0
DistinctKeys [] = Unit
DistinctKeys ((key, _) ∷ rest) = IsAbsent key rest × DistinctKeys rest

-- The counter of each directory, up to the deltas of the folders.
abbrev pub FoldersBalanced : List Node → List (ℕ × ℤ) → Type 0
FoldersBalanced nodes folders =
    (folder : ℕ) (n : Node)
    → find_by_id folder nodes ≡ some n
    → n.type ≡ directory
    → total (file_in folder) nodes + neg_part (delta_of folder folders)
      ≡ n.child_file_count + pos_part (delta_of folder folders)

pub record Balanced (db : Db) (nodes bytes : ℤ) (folders : List (ℕ × ℤ)) : Type 0 where
  pub distinct : Distinct db.nodes
  pub tree : IsTree db.nodes
  pub known : AllNodes (IsKnown db.next_id) db.nodes
  pub live_nodes :
      total is_live db.nodes + neg_part nodes ≡ db.namespace.live_node_count + pos_part nodes
  pub live_bytes :
      total bytes_of db.nodes + neg_part bytes ≡ db.namespace.live_file_byte_count + pos_part bytes
  pub in_folders : FoldersBalanced db.nodes folders
  pub keys : DistinctKeys folders
  pub keys_below : KeysBelow db.next_id folders

-- The stored counters are those of the rows: the live nodes, the bytes of the files, and the files of
-- each directory.
abbrev pub IsConsistent : Db → Type 0
IsConsistent db = Balanced db (pos 0) (pos 0) []
