-- ===== src/Vfs/Chain.antt =====
-- `markAncestorChain` and `lockParentChain` of apps/api/src/persistence/vfs-node.repository.core.ts.
use storix.Base.{
  ℕ, zero, suc, String, Bool, true, false, not, Option, none, some, List, [], ◌∷◌, ◌++◌,
  if◌then◌else◌, ok, err, has, length,
}
use storix.Base.Int.{pos}
use storix.Vfs.State.{Node, NodeType, directory, is_directory, find_by_id}
use storix.Vfs.Mutation.{
  node_not_found, not_directory, diverges, M, ◌>>=◌, ◌>>◌, pure, throw, join_segments,
  record_live_node_delta, mark_changed, read_child, insert_node, new_directory,
}

-- The walk from a node towards the root. It stops above the root or at a node that is marked, and
-- returns the nodes that it walked. Each round goes up one edge, so that one round more than there
-- are nodes is enough fuel in a tree.
unfoldable pub mark_from : (fuel : ℕ) → Option ℕ → (walked : List ℕ) → M (List ℕ)
unfolding mark_changed
mark_from zero current walked tx = err diverges
mark_from (suc fuel) none walked tx = ok (walked, tx)
mark_from (suc fuel) (some id) walked tx =
    if has tx.ancestor_chain_marked id then ok (walked, tx) else elim (find_by_id id tx.db.nodes) [
      | none ↦ err (node_not_found "/")
      | some node ↦ (mark_changed id true >> mark_from fuel node.parent_id (id ∷ walked)) tx
    ]

-- The walked nodes are recorded only when the walk is over.
unfoldable pub mark_ancestor_chain : ℕ → M (Unit {0})
unfolding mark_from
mark_ancestor_chain id tx =
    (do
      walked ← mark_from (suc (length tx.db.nodes)) (some id) []
      λ after.
          ok (tt, record after { ancestor_chain_marked = walked ++ after.ancestor_chain_marked }))
      tx

-- What the loop does with the child of a name: the child that is there, or a new directory.
unfoldable pub step_into :
    (parents : Bool)
    → (segments : List String) → (parent_id : ℕ) → (name : String) → Option Node
    → M Node
unfolding mark_ancestor_chain mark_changed insert_node record_live_node_delta
step_into parents segments parent_id name (some child) = pure child
step_into parents segments parent_id name none =
    if not parents then throw (node_not_found (join_segments segments)) else do
      child ← insert_node (new_directory parent_id name)
      record_live_node_delta (pos 1)
      mark_ancestor_chain parent_id
      mark_changed child.id false
      pure child

-- The loop over `segments.slice(0, -1)`: `above` are the segments that it has passed.
unfoldable pub walk_parents :
    (parents : Bool) → (above rest : List String) → (parent_id : ℕ) → NodeType → M (ℕ × NodeType)
unfolding step_into read_child
walk_parents parents above [] parent_id parent_type = pure (parent_id, parent_type)
walk_parents parents above (name ∷ rest) parent_id parent_type =
    if not (is_directory parent_type) then throw (not_directory (join_segments above)) else do
      found ← read_child parent_id name
      child ← step_into parents (above ++ name ∷ []) parent_id name found
      walk_parents parents (above ++ name ∷ []) rest child.id child.type

-- What the loop ends with has to be a directory.
unfoldable pub locked_parent : (path : List String) → (mark_ancestors : Bool) → ℕ × NodeType → M ℕ
unfolding mark_ancestor_chain
locked_parent path mark_ancestors (parent_id, parent_type) =
    if not (is_directory parent_type)
    then throw (not_directory (join_segments path))
    else if mark_ancestors
    then (do mark_ancestor_chain parent_id; pure parent_id)
    else pure parent_id

-- `path` is `segments.slice(0, -1)`: the callers have refused a path with no segment.
unfoldable pub lock_parent_chain :
    (root_id : ℕ) → (path : List String) → (parents mark_ancestors : Bool) → M ℕ
unfolding walk_parents locked_parent
lock_parent_chain root_id path parents mark_ancestors = do
  found ← walk_parents parents [] path root_id directory
  locked_parent path mark_ancestors found
