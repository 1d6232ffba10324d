-- ===== src/Vfs/Requests.antt =====
-- Mutations one after the other, as the callers of the repository ask for them: each runs in a
-- transaction of its own, and one that throws leaves the database as it was.
use storix.Base.{
  ==→eq, ==_self, ℕ, ◌≡◌, ◌≢◌, refl, subst, inl, inr, String, Bool, true, false, Option, none, some,
  List, [], ◌∷◌, ◌==◌, Bool-cases, Option-cases, Result, ok, err, arith,
}
use storix.Vfs.State.{Node, Db, find_by_id, find_root, is_directory}
use storix.Vfs.Mutation.{VfsError, diverges, IsHalt, Tx, M, ◌>>=◌, ◌>>◌, pure, BlobData}
use storix.Vfs.Files.{ensure_directory, touch_file, put_file_content}
use storix.Vfs.Commit.{Limits, no_root, open_root, committed, within, new_tx, finish, with_mutation}
use storix.Vfs.Weights.{Distinct, AllNodes}
use storix.Vfs.Tree.{HasRow}
use storix.Vfs.Ensures.{Ensures, Ensures-bind}
use storix.Vfs.Balance.{IsConsistent}
use storix.Vfs.Balance.Chains.{IsBalanced}
use storix.Vfs.Balance.Directories.{ensure_directory-Balanced}
use storix.Vfs.Balance.Puts.{touch_file-Balanced, put_file_content-Balanced}
use storix.Vfs.Balance.Folders.{Halts}
use storix.Vfs.Balance.Commits.{finish-IsConsistent}

-- The arguments of the three methods. `path` and `name` are the segments but the last, and the last.
pub data Request : Type 0 where
  ensure : (segments : List String) (parents : Bool) → Request
  touch :
      (path : List String) (name : String) (parents : Bool) (empty_blob : Option BlobData) → Request
  put :
      (path : List String) (name : String) (parents : Bool) (blob : BlobData) (if_match : Option ℕ)
      (force : Bool) (expires_at : Option ℕ)
      → Request

-- The mutation with no callback behind the versions.
abbrev pub mutate : {A : Type 0} → Limits → (root_id : ℕ) → M A → Db → Result VfsError (A × Db)
mutate limits root_id work db = with_mutation limits false root_id work (λ _. pure tt) db

abbrev answered : {A : Type 0} → Result VfsError (A × Db) → Result VfsError Db
answered (err e) = err e
answered (ok (value, db)) = ok db

unfoldable pub answer : Limits → (root_id : ℕ) → Request → Db → Result VfsError Db
unfolding with_mutation ensure_directory touch_file put_file_content
answer limits root_id (ensure segments parents) db =
    answered (mutate limits root_id (ensure_directory segments parents) db)
answer limits root_id (touch path name parents empty_blob) db =
    answered (mutate limits root_id (touch_file path name parents empty_blob) db)
answer limits root_id (put path name parents blob if_match force expires_at) db =
    answered
      (mutate limits root_id (put_file_content path name parents blob if_match force expires_at) db)

unfoldable pub serve : Limits → (root_id : ℕ) → Request → Db → Db
unfolding answer
serve limits root_id request db = elim (answer limits root_id request db) [
  | err e ↦ db
  | ok db' ↦ db'
]

unfoldable pub serve_all : Limits → (root_id : ℕ) → List Request → Db → Db
unfolding serve
serve_all limits root_id [] db = db
serve_all limits root_id (request ∷ rest) db =
    serve_all limits root_id rest (serve limits root_id request db)

find_root-AllNodes :
    (P : Node → Type 0) (ns : List Node) (root : Node)
    → AllNodes P ns
    → find_root ns ≡ some root
    → P root
unfolding find_root
find_root-AllNodes P [] root h e = cc
find_root-AllNodes P (n ∷ ns) root (h, hs) e = at n.parent_id e (find_root-AllNodes P ns root hs)
  where
    at :
        (o : Option ℕ)
        → elim o [ none ↦ some n | some _ ↦ find_root ns ] ≡ some root
        → (find_root ns ≡ some root → P root)
        → P root
    at none e' k = let same : n ≡ root = cc in subst P same h
    at (some p) e' k = k e'

find_by_id-find_root :
    (ns : List Node) (root : Node)
    → Distinct ns
    → find_root ns ≡ some root
    → find_by_id root.id ns ≡ some root
unfolding find_root find_by_id
find_by_id-find_root [] root d e = cc
find_by_id-find_root (n ∷ ns) root (new, d) e = at n.parent_id e (find_by_id-find_root ns root d)
  where
    at :
        (o : Option ℕ)
        → elim o [ none ↦ some n | some _ ↦ find_root ns ] ≡ some root
        → (find_root ns ≡ some root → find_by_id root.id ns ≡ some root)
        → find_by_id root.id (n ∷ ns) ≡ some root
    at none e' k = let same : n ≡ root = cc in rw (same, ==_self root.id) refl
    at (some p) e' k = elim (Bool-cases (n.id == root.id)) [
      | inr other ↦ rw other (k e')
      | inl own ↦
          let later = k e' in
          let gone : find_by_id root.id ns ≡ none = rw (← ==→eq n.id root.id own) new in cc
    ]

-- The node that a mutation starts at is a row.
open_root_lem :
    (root_id : ℕ) (db : Db)
    → IsConsistent db
    → open_root false root_id db ≡ ok tt
    → HasRow root_id db.nodes
unfolding open_root no_root
open_root_lem root_id db h e = elim (Option-cases (find_root db.nodes)) [
  | inl none' ↦ absurd (ground arith)
  | inr (root, found) ↦ elim (Bool-cases (root.id == root_id)) [
    | inl same ↦ (
      root,
      subst (λ id. find_by_id id db.nodes ≡ some root) (==→eq root.id root_id same)
          (find_by_id-find_root db.nodes root h.distinct found),
    )
    | inr below ↦ elim (Option-cases (find_by_id root_id db.nodes)) [
      | inl gone ↦ absurd (ground arith)
      | inr (start, found') ↦ (start, found')
    ]
  ]
]

no_root-Halts : (active : Bool) → Halts (no_root false active)
unfolding no_root
no_root-Halts true = tt
no_root-Halts false = tt

open_root-Halts : (root_id : ℕ) (db : Db) → Halts (open_root false root_id db)
unfolding open_root
open_root-Halts root_id db = elim (Option-cases (find_root db.nodes)) [
  | inl gone ↦ rw (Halts, open_root, gone) (no_root-Halts db.namespace.active)
  | inr (root, found) ↦ elim (Bool-cases (is_directory root.type)) [
    | inr other ↦ rw (Halts, open_root, found, other) (no_root-Halts db.namespace.active)
    | inl dir ↦ elim (Bool-cases db.namespace.active) [
      | inr inactive ↦ rw (Halts, open_root, found, dir, inactive) tt
      | inl active ↦ elim (Bool-cases (root.id == root_id)) [
        | inl same ↦ rw (Halts, open_root, found, dir, active, same) tt
        | inr below ↦ elim (Option-cases (find_by_id root_id db.nodes)) [
          | inl missing ↦ rw (Halts, open_root, found, dir, active, below, missing) tt
          | inr (start, found') ↦ elim (Bool-cases (is_directory start.type)) [
            | inl dir' ↦ rw (Halts, open_root, found, dir, active, below, found', dir') tt
            | inr other ↦ rw (Halts, open_root, found, dir, active, below, found', other) tt
          ]
        ]
      ]
    ]
  ]
]

-- A mutation that is through leaves consistent counters, and one that throws has not run out of fuel.
abbrev IsServed : {A : Type 0} → Result VfsError (A × Db) → Type 0
IsServed (err e) = IsHalt e
IsServed (ok (value, db)) = IsConsistent db

committed-IsServed :
    {A : Type 0} (r : Result VfsError (A × Tx))
    → Ensures (λ _ tx. IsConsistent tx.db) r
    → IsServed (committed r)
committed-IsServed (err e) k = k
committed-IsServed (ok (value, tx)) k = k

mutate-IsServed :
    {A : Type 0} (limits : Limits) (root_id : ℕ) (work : M A) (db : Db)
    → IsConsistent db
    → ((tx : Tx)
        → IsBalanced tx
        → HasRow tx.root_id tx.db.nodes
        → Ensures (λ _ tx'. IsBalanced tx') (work tx))
    → IsServed (mutate limits root_id work db)
unfolding with_mutation
mutate-IsServed limits root_id work db h keeps =
    opened (open_root false root_id db) refl (open_root-Halts root_id db)
  where
    opened :
        (r : Result VfsError (Unit {0}))
        → open_root false root_id db ≡ r
        → Halts r
        → IsServed (
            within r (
              committed
                ((do value ← work; finish limits; pure tt; pure value) (new_tx db root_id))))
    opened (err e) _ halts = halts
    opened (ok _) e halts = committed-IsServed _ (
        Ensures-bind (λ _ tx'. IsBalanced tx') (λ _ tx'. IsConsistent tx'.db) work _
          (new_tx db root_id) (keeps (new_tx db root_id) h (open_root_lem root_id db h e))
          (λ value tx' k.
            Ensures-bind (λ _ tx₁. IsConsistent tx₁.db) (λ _ tx₁. IsConsistent tx₁.db)
              (finish limits) (λ _. pure tt >> pure value) tx' (finish-IsConsistent limits tx' k)
              (λ _ _ k'. k')))

abbrev IsAnswered : Result VfsError Db → Type 0
IsAnswered (err e) = IsHalt e
IsAnswered (ok db) = IsConsistent db

answered-IsServed :
    {A : Type 0} (r : Result VfsError (A × Db)) → IsServed r → IsAnswered (answered r)
answered-IsServed (err e) h = h
answered-IsServed (ok (value, db)) h = h

answer-IsAnswered :
    (limits : Limits) (root_id : ℕ) (request : Request) (db : Db)
    → IsConsistent db
    → IsAnswered (answer limits root_id request db)
unfolding answer
answer-IsAnswered limits root_id (ensure segments parents) db h = answered-IsServed _ (
    mutate-IsServed limits root_id (ensure_directory segments parents) db h
      (ensure_directory-Balanced segments parents))
answer-IsAnswered limits root_id (touch path name parents empty_blob) db h = answered-IsServed _ (
    mutate-IsServed limits root_id (touch_file path name parents empty_blob) db h
      (touch_file-Balanced path name parents empty_blob))
answer-IsAnswered limits root_id (put path name parents blob if_match force expires_at) db h =
    answered-IsServed _ (
      mutate-IsServed limits root_id
        (put_file_content path name parents blob if_match force expires_at) db h
        (put_file_content-Balanced path name parents blob if_match force expires_at))

-- On a consistent namespace no request runs out of the fuel of the walk to the root.
pub answer-ne-diverges :
    (limits : Limits) (root_id : ℕ) (request : Request) (db : Db)
    → IsConsistent db
    → answer limits root_id request db ≢ err diverges
answer-ne-diverges limits root_id request db h e =
    subst IsAnswered e (answer-IsAnswered limits root_id request db h)

-- After any requests, served or refused, the counters are those of the rows, where they were so
-- before: the live nodes, the bytes of the files and the files of each directory; no id stands
-- twice, the parent of each row is a row and no chain of parents comes back to where it began, so that the
-- parents lead to a root, and every id that a row names was handed out.
pub serve_all-IsConsistent :
    (limits : Limits) (root_id : ℕ) (requests : List Request) (db : Db)
    → IsConsistent db
    → IsConsistent (serve_all limits root_id requests db)
unfolding serve_all serve
serve_all-IsConsistent limits root_id [] db h = h
serve_all-IsConsistent limits root_id (request ∷ rest) db h =
    serve_all-IsConsistent limits root_id rest _
      (kept _ (answer-IsAnswered limits root_id request db h))
  where
    kept :
        (r : Result VfsError Db)
        → IsAnswered r
        → IsConsistent (elim r [ err e ↦ db | ok db' ↦ db' ])
    kept (err e) k = h
    kept (ok db') k = k
