-- ===== src/Vfs/Balance/Folders.antt =====
-- The balance under the loop of `applyNodeCounters` over the folders.
use storix.Base.{
  ℕ, ◌+◌, ◌≡◌, refl, subst, inl, inr, String, true, ◌&&◌, some, List, [], ◌∷◌, ltb, ◌==◌,
  if◌then◌else◌, Bool-cases, Option-cases, Result, ok, err, arith,
}
use storix.Base.Int.{ℤ, pos, negsuc, pos_part, neg_part, ◌+ℤ◌, +ℤ_parts}
use storix.Vfs.State.{NodeType, file, directory, Node, Db, is_directory, find_by_id, update_node}
use storix.Vfs.Mutation.{VfsError, folder_file_limit_exceeded, IsHalt, Tx, is_zero, delta_of}
use storix.Vfs.Commit.{
  next_count, non_negative, is_positive, missing_folder, store_child_count, apply_folder,
  apply_folders,
}
use storix.Vfs.Weights.{
  is_live, bytes_of, file_in, AllNodes-update, total-update, find-update_self, find-update_ne,
  Distinct-update,
}
use storix.Vfs.Tree.{IsTree-update}
use storix.Vfs.Ensures.{Ensures, Ensures-bind}
use storix.Vfs.Balance.{IsKnown, IsAbsent, Balanced}

delta_of-IsAbsent :
    (folder : ℕ) (fs : List (ℕ × ℤ)) → IsAbsent folder fs → delta_of folder fs ≡ pos 0
unfolding delta_of
delta_of-IsAbsent folder [] h = refl
delta_of-IsAbsent folder ((key, d) ∷ rest) (h, hs) =
    ground (arith, delta_of-IsAbsent folder rest hs)

pub is_zero_lem : (d : ℤ) → is_zero d ≡ true → d ≡ pos 0
is_zero_lem d h = ground arith

-- A counter after its delta.
pub next_count_lem :
    (count : ℕ) (delta : ℤ) (limit next : ℕ) (refused : ℕ → ℕ → VfsError)
    → next_count count delta limit refused ≡ ok next
    → next + neg_part delta ≡ count + pos_part delta
unfolding next_count
next_count_lem count delta limit next refused e = ground (arith, +ℤ_parts (pos count) delta)

-- No error of a result is that of the model.
abbrev pub Halts : {A : Type 0} → Result VfsError A → Type 0
Halts (ok a) = Unit
Halts (err e) = IsHalt e

pub non_negative-Halts : (i : ℤ) (what : String) → Halts (non_negative i what)
non_negative-Halts (pos n) what = tt
non_negative-Halts (negsuc n) what = tt

pub next_count-Halts :
    (count : ℕ) (delta : ℤ) (limit : ℕ) (refused : ℕ → ℕ → VfsError)
    → ((l r : ℕ) → IsHalt (refused l r))
    → Halts (next_count count delta limit refused)
unfolding next_count
next_count-Halts count delta limit refused halt = at (pos count +ℤ delta)
  where
    at :
        (i : ℤ)
        → Halts (elim (non_negative i "counter became negative") [
          | err e ↦ err e
          | ok next ↦
              if is_positive delta && ltb limit next then err (refused limit next) else ok next
        ])
    at (negsuc n) = tt
    at (pos next) = elim (Bool-cases (is_positive delta && ltb limit next)) [
      | inl above ↦ rw above (halt limit next)
      | inr within' ↦ rw within' tt
    ]

module _ {db : Db} {nodes bytes : ℤ} {folder : ℕ} {delta : ℤ} {rest : List (ℕ × ℤ)}
    (h : Balanced db nodes bytes ((folder, delta) ∷ rest)) where
  -- The folder's delta is nothing, or there is no such folder.
  drop_folder-Balanced :
      ((n : Node) → find_by_id folder db.nodes ≡ some n → n.type ≡ directory → delta ≡ pos 0)
      → Balanced db nodes bytes rest
  unfolding delta_of
  drop_folder-Balanced nothing = record {
    distinct = h.distinct;
    tree = h.tree;
    known = h.known;
    live_nodes = h.live_nodes;
    live_bytes = h.live_bytes;
    in_folders = λ other n found dir. elim (Bool-cases (folder == other)) [
      | inl same ↦
          ground (arith, h.in_folders other n, nothing n, delta_of-IsAbsent folder rest h.keys.0)
      | inr new ↦ ground (arith, h.in_folders other n)
    ];
    keys = h.keys.1;
    keys_below = h.keys_below.1;
  }

  set_count-Balanced :
      (parent : Node) (next : ℕ)
      → find_by_id folder db.nodes ≡ some parent
      → next + neg_part delta ≡ parent.child_file_count + pos_part delta
      → parent.type ≡ directory
      → Balanced
          (record db {
            nodes = update_node folder (λ n. record n { child_file_count = next }) db.nodes;
          })
          nodes
          bytes
          rest
  unfolding delta_of
  set_count-Balanced parent next found sum dir =
      let f = λ (n : Node). record n { child_file_count = next } in
      record {
        distinct = Distinct-update db.nodes folder f (λ m e. e) h.distinct;
        tree = IsTree-update db.nodes folder f parent h.distinct found (λ m e. e) refl h.tree;
        known = AllNodes-update (IsKnown db.next_id) db.nodes folder f (λ m k. k) h.known;
        live_nodes =
            omega
              (arith, h.live_nodes, total-update is_live db.nodes folder f parent h.distinct found);
        live_bytes =
            omega (
              arith,
              h.live_bytes,
              total-update bytes_of db.nodes folder f parent h.distinct found,
            );
        in_folders = λ other n found' dir'. elim (Bool-cases (folder == other)) [
          | inl same ↦ ground (
            arith,
            find-update_self db.nodes folder f parent (λ m e. e) found,
            h.in_folders folder parent found dir,
            delta_of-IsAbsent folder rest h.keys.0,
            total-update (file_in folder) db.nodes folder f parent h.distinct found,
          )
          | inr new ↦ ground (
            arith,
            find-update_ne db.nodes folder other f (λ m e. e) (λ e. ground arith),
            h.in_folders other n,
            total-update (file_in other) db.nodes folder f parent h.distinct found,
          )
        ];
        keys = h.keys.1;
        keys_below = h.keys_below.1;
      }

abbrev pub Paid : (nodes bytes : ℤ) → List (ℕ × ℤ) → Tx → Type 0
Paid nodes bytes folders tx = Balanced tx.db nodes bytes folders × (tx.live_file_byte_delta ≡ bytes)

missing_folder_lem :
    (folder : ℕ) (delta : ℤ) (rest : List (ℕ × ℤ)) (nodes bytes : ℤ) (tx : Tx)
    → Paid nodes bytes ((folder, delta) ∷ rest) tx
    → ((n : Node) → find_by_id folder tx.db.nodes ≡ some n → n.type ≡ directory → delta ≡ pos 0)
    → Ensures (λ _ tx'. Paid nodes bytes rest tx') (missing_folder delta tx)
unfolding missing_folder
missing_folder_lem folder (pos d) rest nodes bytes tx h nothing = tt
missing_folder_lem folder (negsuc d) rest nodes bytes tx (h, e) nothing =
    (drop_folder-Balanced h nothing, e)

store_child_count_lem :
    (folder : ℕ) (delta : ℤ) (rest : List (ℕ × ℤ)) (nodes bytes : ℤ) (tx : Tx) (parent : Node)
    (limit : ℕ)
    → Paid nodes bytes ((folder, delta) ∷ rest) tx
    → find_by_id folder tx.db.nodes ≡ some parent
    → parent.type ≡ directory
    → Ensures
        (λ _ tx'. Paid nodes bytes rest tx')
        (store_child_count folder
          (next_count parent.child_file_count delta limit folder_file_limit_exceeded)
          tx)
unfolding store_child_count
store_child_count_lem folder delta rest nodes bytes tx parent limit h found dir =
    store (next_count parent.child_file_count delta limit folder_file_limit_exceeded) refl
  where
    store :
        (r : Result VfsError ℕ)
        → next_count parent.child_file_count delta limit folder_file_limit_exceeded ≡ r
        → Ensures (λ _ tx'. Paid nodes bytes rest tx') (store_child_count folder r tx)
    store (err e) same = subst Halts same (
        next_count-Halts parent.child_file_count delta limit folder_file_limit_exceeded (λ _ _. tt))
    store (ok next) e = (
      set_count-Balanced h.0 parent next found
          (next_count_lem parent.child_file_count delta limit next folder_file_limit_exceeded e)
          dir,
      h.1,
    )

is_directory_lem : (type : NodeType) → is_directory type ≡ true → type ≡ directory
is_directory_lem file e = cc
is_directory_lem directory e = refl

apply_folder_lem :
    (limit folder : ℕ) (delta : ℤ) (rest : List (ℕ × ℤ)) (nodes bytes : ℤ) (tx : Tx)
    → Paid nodes bytes ((folder, delta) ∷ rest) tx
    → Ensures (λ _ tx'. Paid nodes bytes rest tx') (apply_folder limit folder delta tx)
unfolding apply_folder
apply_folder_lem limit folder delta rest nodes bytes tx h =
    elim (Option-cases (find_by_id folder tx.db.nodes)) [
      | inl e ↦
          rw (Ensures, apply_folder, e)
            (missing_folder_lem folder delta rest nodes bytes tx h (λ n e' dir. cc))
      | inr (parent, e) ↦ elim (Bool-cases (is_directory parent.type)) [
        | inr other ↦
            rw (Ensures, apply_folder, e, other)
              (missing_folder_lem folder delta rest nodes bytes tx h (λ n e' dir. ground arith))
        | inl dir ↦
            rw (Ensures, apply_folder, e, dir)
              (store_child_count_lem folder delta rest nodes bytes tx parent limit h e
                (is_directory_lem parent.type dir))
      ]
    ]

pub apply_folders_lem :
    (limit : ℕ) (folders : List (ℕ × ℤ)) (nodes bytes : ℤ) (tx : Tx)
    → Paid nodes bytes folders tx
    → Ensures (λ _ tx'. Paid nodes bytes [] tx') (apply_folders limit folders tx)
unfolding apply_folders
apply_folders_lem limit [] nodes bytes tx h = h
apply_folders_lem limit ((folder, delta) ∷ rest) nodes bytes tx h =
    elim (Bool-cases (is_zero delta)) [
      | inl zero' ↦ rw zero' (
          apply_folders_lem limit rest nodes bytes tx
            (drop_folder-Balanced h.0 (λ _ _ _. is_zero_lem delta zero'), h.1))
      | inr moved ↦ rw moved (
          Ensures-bind (λ _ tx'. Paid nodes bytes rest tx') (λ _ tx'. Paid nodes bytes [] tx')
            (apply_folder limit folder delta) (λ _. apply_folders limit rest) tx
            (apply_folder_lem limit folder delta rest nodes bytes tx h)
            (λ _ tx' k. apply_folders_lem limit rest nodes bytes tx' k))
    ]
