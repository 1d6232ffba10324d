-- ===== src/Vfs/Balance/Directories.antt =====
-- The balance under `ensureDirectory`.
use storix.Base.{
  ℕ, inl, inr, String, Bool, false, not, ◌&&◌, ◌||◌, Option, none, some, List, [], ◌∷◌, ◌++◌,
  Bool-cases, Option-cases,
}
use storix.Vfs.State.{NodeType, file, directory, Node, is_directory, find_child}
use storix.Vfs.Mutation.{Tx, pure, read_child}
use storix.Vfs.Files.{ensure_child, ensure_from, or_null, ensure_directory}
use storix.Vfs.Tree.{HasRow}
use storix.Vfs.Ensures.{Ensures, Ensures-bind}
use storix.Vfs.Balance.Chains.{IsBalanced, find_child-known, made_directory-Balanced}

ensure_child-Balanced :
    (parents is_last : Bool) (above segments : List String) (parent_id : ℕ) (name : String)
    (tx : Tx)
    → IsBalanced tx
    → HasRow parent_id tx.db.nodes
    → Ensures
        (λ found tx'. IsBalanced tx' × (HasRow found.0.id tx'.db.nodes))
        (ensure_child parents is_last above segments parent_id name
          (find_child parent_id name tx.db.nodes)
          tx)
unfolding ensure_child
ensure_child-Balanced parents is_last above segments parent_id name tx h below =
    elim (Option-cases (find_child parent_id name tx.db.nodes)) [
      | inr (child, e) ↦
          elim (Bool-cases (is_last && (not (is_directory child.type) || not parents))) [
            | inl refused ↦ rw (e, refused) tt
            | inr taken ↦ rw (e, taken) (h, find_child-known parent_id name child tx h e)
          ]
      | inl e ↦ elim (Bool-cases (not is_last && not parents)) [
        | inl refused ↦ rw (e, refused) tt
        | inr taken ↦
            rw (e, taken)
              (made_directory-Balanced parent_id name (λ child. pure (child, is_last))
                (λ found tx'. IsBalanced tx' × (HasRow found.0.id tx'.db.nodes)) tx h below
                (λ child tx' b k. (b, k)))
      ]
    ]

ensure_from-Balanced :
    (parents : Bool) (segments above rest : List String) (parent_id : ℕ) (type : NodeType)
    (result : Option Node × Bool) (tx : Tx)
    → IsBalanced tx
    → HasRow parent_id tx.db.nodes
    → Ensures
        (λ _ tx'. IsBalanced tx')
        (ensure_from parents segments above rest parent_id type result tx)
unfolding ensure_from read_child
ensure_from-Balanced parents segments above [] parent_id type result tx h below = h
ensure_from-Balanced parents segments above (name ∷ rest) parent_id file result tx h below = tt
ensure_from-Balanced parents segments above (name ∷ rest) parent_id directory result tx h below =
    Ensures-bind (λ found tx'. IsBalanced tx' × (HasRow found.0.id tx'.db.nodes))
      (λ _ tx'. IsBalanced tx')
      (ensure_child parents _ (above ++ name ∷ []) segments parent_id name
        (find_child parent_id name tx.db.nodes))
      _ tx (ensure_child-Balanced parents _ (above ++ name ∷ []) segments parent_id name tx h below)
      (λ (child, created) tx' k.
        ensure_from-Balanced parents segments (above ++ name ∷ []) rest child.id child.type
          (some child, created) tx' k.0 k.1)

or_null-Balanced :
    (result : Option Node × Bool) (tx : Tx)
    → IsBalanced tx
    → Ensures (λ _ tx'. IsBalanced tx') (or_null result tx)
unfolding or_null
or_null-Balanced (none, created) tx k = tt
or_null-Balanced (some node, created) tx k = k

pub ensure_directory-Balanced :
    (segments : List String) (parents : Bool) (tx : Tx)
    → IsBalanced tx
    → HasRow tx.root_id tx.db.nodes
    → Ensures (λ _ tx'. IsBalanced tx') (ensure_directory segments parents tx)
unfolding ensure_directory
ensure_directory-Balanced segments parents tx h below =
    Ensures-bind (λ _ tx'. IsBalanced tx') (λ _ tx'. IsBalanced tx')
      (ensure_from parents segments [] segments tx.root_id directory (none, false)) _ tx
      (ensure_from-Balanced parents segments [] segments tx.root_id directory (none, false) tx h
        below)
      (λ result tx' k. or_null-Balanced result tx' k)
