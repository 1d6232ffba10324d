-- ===== src/Vfs/Balance/Chains.antt =====
-- The balance under the walks along a path.
use storix.Base.{
  ℕ, suc, ◌≡◌, inl, inr, String, Bool, true, false, some, List, [], ◌∷◌, ◌++◌, Bool-cases,
  Option-cases, ==_self, refl,
}
use storix.Base.Int.{pos, ◌+ℤ◌}
use storix.Vfs.State.{NodeType, file, directory, Node, find_child, find_by_id}
use storix.Vfs.Mutation.{
  Tx, M, ◌>>=◌, ◌>>◌, pure, mark_changed, read_child, insert_node, new_directory,
  record_live_node_delta,
}
use storix.Vfs.Chain.{
  mark_ancestor_chain, step_into, walk_parents, locked_parent, lock_parent_chain,
}
use storix.Vfs.Weights.{find_by_id-find_child}
use storix.Vfs.Tree.{HasRow}
use storix.Vfs.Ensures.{Ensures, Ensures-bind, Ledger, At, mark_changed-At, mark_ancestor_chain-At}
use storix.Vfs.Balance.{Balanced}
use storix.Vfs.Balance.Steps.{create_directory-Balanced}

abbrev pub IsBalanced : Tx → Type 0
IsBalanced tx = Balanced tx.db tx.live_node_delta tx.live_file_byte_delta tx.folder_file_deltas

-- Balanced, and the id is that of a row.
abbrev pub BalancedAt : ℕ → Ledger
BalancedAt id db nodes bytes folders = Balanced db nodes bytes folders × HasRow id db.nodes

pub find_child-known :
    (folder : ℕ) (name : String) (child : Node) (tx : Tx)
    → IsBalanced tx
    → find_child folder name tx.db.nodes ≡ some child
    → HasRow child.id tx.db.nodes
find_child-known folder name child tx h e =
    (child, find_by_id-find_child tx.db.nodes folder name child h.distinct e)

-- The new directory with its marks, as both walks make it.
abbrev pub made_directory : {A : Type 0} → (parent_id : ℕ) → (name : String) → (Node → M A) → M A
made_directory parent_id name k = do
  child ← insert_node (new_directory parent_id name)
  record_live_node_delta (pos 1)
  mark_ancestor_chain parent_id
  mark_changed child.id false
  k child

pub made_directory-Balanced :
    {A : Type 0} (parent_id : ℕ) (name : String) (k : Node → M A) (Q : A → Tx → Type 0) (tx : Tx)
    → IsBalanced tx
    → HasRow parent_id tx.db.nodes
    → ((child : Node) (tx' : Tx)
        → IsBalanced tx'
        → HasRow child.id tx'.db.nodes
        → Ensures Q (k child tx'))
    → Ensures Q (made_directory parent_id name k tx)
unfolding insert_node record_live_node_delta find_by_id
made_directory-Balanced parent_id name k Q tx h below next =
    let child = new_directory parent_id name tx.db.next_id in
    let tx₁ = record tx {
      db = record tx.db { nodes = child ∷ tx.db.nodes; next_id = suc tx.db.next_id };
      live_node_delta = tx.live_node_delta +ℤ pos 1;
    } in
    let own : find_by_id child.id (child ∷ tx.db.nodes) ≡ some child = rw (==_self child.id) refl in
    let created = create_directory-Balanced h parent_id name below in
    let P = BalancedAt child.id in
    Ensures-bind (λ _ tx'. At P tx') Q (mark_ancestor_chain parent_id)
      (λ _. mark_changed child.id false >> k child) tx₁
      (mark_ancestor_chain-At P parent_id tx₁ created.tree (created, (child, own)))
      (λ _ tx₂ h₂.
        Ensures-bind (λ _ tx'. At P tx') Q (mark_changed child.id false) (λ _. k child) tx₂
          (mark_changed-At P child.id false tx₂ h₂) (λ _ tx₃ h₃. next child tx₃ h₃.0 h₃.1))

step_into-Balanced :
    (parents : Bool) (segments : List String) (parent_id : ℕ) (name : String) (tx : Tx)
    → IsBalanced tx
    → HasRow parent_id tx.db.nodes
    → Ensures
        (λ child tx'. IsBalanced tx' × (HasRow child.id tx'.db.nodes))
        (step_into parents segments parent_id name (find_child parent_id name tx.db.nodes) tx)
unfolding step_into
step_into-Balanced parents segments parent_id name tx h below =
    elim (Option-cases (find_child parent_id name tx.db.nodes)) [
      | inr (child, e) ↦ rw e (h, find_child-known parent_id name child tx h e)
      | inl e ↦ elim (Bool-cases parents) [
        | inl yes' ↦
            rw (e, yes')
              (made_directory-Balanced parent_id name pure
                (λ child tx'. IsBalanced tx' × (HasRow child.id tx'.db.nodes)) tx h below
                (λ child tx' b k. (b, k)))
        | inr no' ↦ rw (e, no') tt
      ]
    ]

pub walk_parents-Balanced :
    (parents : Bool) (above rest : List String) (parent_id : ℕ) (type : NodeType) (tx : Tx)
    → IsBalanced tx
    → HasRow parent_id tx.db.nodes
    → Ensures
        (λ found tx'. IsBalanced tx' × (HasRow found.0 tx'.db.nodes))
        (walk_parents parents above rest parent_id type tx)
unfolding walk_parents read_child
walk_parents-Balanced parents above [] parent_id type tx h below = (h, below)
walk_parents-Balanced parents above (name ∷ rest) parent_id file tx h below = tt
walk_parents-Balanced parents above (name ∷ rest) parent_id directory tx h below =
    Ensures-bind (λ child tx'. IsBalanced tx' × (HasRow child.id tx'.db.nodes))
      (λ found tx'. IsBalanced tx' × (HasRow found.0 tx'.db.nodes))
      (step_into parents (above ++ name ∷ []) parent_id name
        (find_child parent_id name tx.db.nodes))
      (λ child. walk_parents parents (above ++ name ∷ []) rest child.id child.type) tx
      (step_into-Balanced parents (above ++ name ∷ []) parent_id name tx h below)
      (λ child tx' k.
        walk_parents-Balanced parents (above ++ name ∷ []) rest child.id child.type tx' k.0 k.1)

locked_parent-Balanced :
    (path : List String) (found : ℕ × NodeType) (tx : Tx)
    → IsBalanced tx
    → HasRow found.0 tx.db.nodes
    → Ensures
        (λ id tx'. IsBalanced tx' × (HasRow id tx'.db.nodes))
        (locked_parent path true found tx)
unfolding locked_parent
locked_parent-Balanced path (id, file) tx h below = tt
locked_parent-Balanced path (id, directory) tx h below =
    Ensures-bind (λ _ tx'. At (BalancedAt id) tx')
      (λ id tx'. IsBalanced tx' × (HasRow id tx'.db.nodes)) (mark_ancestor_chain id) (λ _. pure id)
      tx (mark_ancestor_chain-At (BalancedAt id) id tx h.tree (h, below)) (λ _ _ k. k)

pub lock_parent_chain-Balanced :
    (root_id : ℕ) (path : List String) (parents : Bool) (tx : Tx)
    → IsBalanced tx
    → HasRow root_id tx.db.nodes
    → Ensures
        (λ id tx'. IsBalanced tx' × (HasRow id tx'.db.nodes))
        (lock_parent_chain root_id path parents true tx)
unfolding lock_parent_chain
lock_parent_chain-Balanced root_id path parents tx h below =
    Ensures-bind (λ found tx'. IsBalanced tx' × (HasRow found.0 tx'.db.nodes))
      (λ id tx'. IsBalanced tx' × (HasRow id tx'.db.nodes))
      (walk_parents parents [] path root_id directory) (locked_parent path true) tx
      (walk_parents-Balanced parents [] path root_id directory tx h below)
      (λ found tx' k. locked_parent-Balanced path found tx' k.0 k.1)
