-- ===== src/Vfs/Balance/Tree.antt =====
-- The tree under a new row.
use storix.Base.{
  ℕ, subst, suc, ◌<◌, ◌≡◌, sym, Option, none, some, List, [], ◌∷◌, ◌==◌, if◌then◌else◌, arith,
}
use storix.Vfs.State.{Node}
use storix.Vfs.Weights.{AllNodes, AllNodes-find, find-id}
use storix.Vfs.Tree.{
  HasParentUnder, IsUnder, IsTree, HasRow, HasRow-cons, HasParentRow-all, HasParentRow,
}
use storix.Vfs.Balance.{BelowOption, IsKnown}

-- The id of a row was handed out.
pub HasRow-below :
    (id next : ℕ) (nodes : List Node) → AllNodes (IsKnown next) nodes → HasRow id nodes → id < next
HasRow-below id next nodes h (n, found) =
    let (known, _, _) = AllNodes-find (IsKnown next) nodes id n h found in
    let own = find-id nodes id n found in omega (arith, known, own)

-- A new row under a node that has a rank.
pub IsTree-cons :
    (next : ℕ) (nodes : List Node) (n : Node) (parent : ℕ)
    → AllNodes (IsKnown next) nodes
    → n.parent_id ≡ some parent
    → n.id ≡ next
    → parent < next
    → HasRow parent nodes
    → IsTree nodes
    → IsTree (n ∷ nodes)
IsTree-cons next nodes n parent known is_parent is_id below row (rank, bound, under, rows) = (
  rank',
  λ id. ground (arith, bound id, bound parent),
  (rw (is_parent, is_id) (ground (arith)), keep_all nodes known under),
  (
    subst (HasParentRow (n ∷ nodes)) (sym is_parent) (HasRow-cons n nodes parent row),
    HasParentRow-all nodes (n ∷ nodes) nodes (HasRow-cons n nodes) rows,
  ),
)
  where
    rank' : ℕ → ℕ
    rank' id = if id == next then suc (rank parent) else rank id

    keeps :
        (o : Option ℕ) (id : ℕ)
        → id < next
        → BelowOption next o
        → HasParentUnder rank id o
        → HasParentUnder rank' id o
    keeps none id h b u = tt
    keeps (some p) id h b u = ground arith

    keep_all :
        (ns : List Node)
        → AllNodes (IsKnown next) ns
        → AllNodes (IsUnder rank) ns
        → AllNodes (IsUnder rank') ns
    keep_all [] k u = tt
    keep_all (m ∷ ns) ((k, p, _), ks) (u, us) = (keeps m.parent_id m.id k p u, keep_all ns ks us)
