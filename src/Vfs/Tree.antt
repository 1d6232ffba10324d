-- ===== src/Vfs/Tree.antt =====
-- The tree of the nodes: the parents of the rows lead to a root.
use storix.Base.{
  ℕ, ◌∙◌, sym, ◌<◌, ◌≡◌, refl, inl, inr, Option, none, some, List, [], ◌∷◌, ◌==◌, length, ==→eq,
  Bool-cases, arith,
}
use storix.Vfs.State.{Node, find_by_id, update_node}
use storix.Vfs.Weights.{
  Distinct, AllNodes, AllNodes-map, AllNodes-find, KeepsId, find-id, update_node-absent,
  find-update_self, find-update_ne,
}

-- The parent of a row has a smaller rank than the row.
abbrev pub HasParentUnder : (rank : ℕ → ℕ) → (own : ℕ) → Option ℕ → Type 0
HasParentUnder rank own none = Unit
HasParentUnder rank own (some parent) = rank parent < rank own

abbrev pub IsUnder : (ℕ → ℕ) → Node → Type 0
IsUnder rank n = HasParentUnder rank n.id n.parent_id

abbrev pub HasRow : ℕ → List Node → Type 0
HasRow id nodes = (n : Node) × (find_by_id id nodes ≡ some n)

abbrev pub HasParentRow : List Node → Option ℕ → Type 0
HasParentRow nodes none = Unit
HasParentRow nodes (some parent) = HasRow parent nodes

-- The parents lead to a root: the parent of a row is a row, ranks go down along the parents, and there are
-- fewer ranks than rows.
abbrev pub IsTree : List Node → Type 0
IsTree nodes =
    (rank : ℕ → ℕ) × ((id : ℕ) → rank id < length nodes)
    × AllNodes (IsUnder rank) nodes
    × AllNodes (λ n. HasParentRow nodes n.parent_id) nodes

HasParentRow-map :
    (ns ms : List Node) (o : Option ℕ)
    → ((id : ℕ) → HasRow id ns → HasRow id ms)
    → HasParentRow ns o
    → HasParentRow ms o
HasParentRow-map ns ms none f h = tt
HasParentRow-map ns ms (some parent) f h = f parent h

-- The rows of a longer table, or of a changed one, still have their parents.
pub HasParentRow-all :
    (ns ms rest : List Node)
    → ((id : ℕ) → HasRow id ns → HasRow id ms)
    → AllNodes (λ n. HasParentRow ns n.parent_id) rest
    → AllNodes (λ n. HasParentRow ms n.parent_id) rest
HasParentRow-all ns ms rest f =
    AllNodes-map (λ n. HasParentRow ns n.parent_id) (λ n. HasParentRow ms n.parent_id) rest
      (λ n. HasParentRow-map ns ms n.parent_id f)

pub HasRow-cons : (n : Node) (ns : List Node) (id : ℕ) → HasRow id ns → HasRow id (n ∷ ns)
unfolding find_by_id
HasRow-cons n ns id (m, found) = elim (Bool-cases (n.id == id)) [
  | inl same ↦ rw same (n, refl)
  | inr other ↦ rw other (m, found)
]

HasRow-update :
    (ns : List Node) (id : ℕ) (f : Node → Node) (j : ℕ)
    → KeepsId id f
    → HasRow j ns
    → HasRow j (update_node id f ns)
HasRow-update ns id f j k (n, found) = elim (Bool-cases (id == j)) [
  | inl same ↦
      let e = ==→eq id j same in (f n, rw (← e) (find-update_self ns id f n k (rw e found)))
  | inr other ↦ (n, find-update_ne ns id j f k (λ e. ground arith) ∙ found)
]

pub length-update_node :
    (ns : List Node) (id : ℕ) (f : Node → Node) → length (update_node id f ns) ≡ length ns
unfolding update_node
length-update_node [] id f = refl
length-update_node (n ∷ ns) id f = omega (arith, length-update_node ns id f)

AllNodes-update_found :
    (P : Node → Type 0) (ns : List Node) (id : ℕ) (f : Node → Node) (n : Node)
    → Distinct ns
    → find_by_id id ns ≡ some n
    → P (f n)
    → AllNodes P ns
    → AllNodes P (update_node id f ns)
unfolding find_by_id update_node
AllNodes-update_found P [] id f n d e p h = cc
AllNodes-update_found P (m ∷ ns) id f n (new, d) e p (h, hs) = elim (Bool-cases (m.id == id)) [
  | inl same ↦
      let row : m ≡ n = ground arith in
      let gone = update_node-absent ns id f (rw (← ==→eq m.id id same) new) in
      rw (same, gone, row) (p, hs)
  | inr other ↦ rw other (h, AllNodes-update_found P ns id f n d (ground arith) p hs)
]

pub IsTree-update :
    (ns : List Node) (id : ℕ) (f : Node → Node) (n : Node)
    → Distinct ns
    → find_by_id id ns ≡ some n
    → KeepsId id f
    → (f n).parent_id ≡ n.parent_id
    → IsTree ns
    → IsTree (update_node id f ns)
IsTree-update ns id f n d found keep parent (rank, bound, under, rows) =
    let own = find-id ns id n found in
    let same : (f n).id ≡ n.id = keep n own ∙ sym own in
    let In = λ (m : Node). HasParentRow ns m.parent_id in
    (
      rank,
      λ id'. omega (arith, bound id', length-update_node ns id f),
      AllNodes-update_found (IsUnder rank) ns id f n d found
          (rw (same, parent) (AllNodes-find (IsUnder rank) ns id n under found)) under,
      HasParentRow-all ns (update_node id f ns) (update_node id f ns)
          (λ j. HasRow-update ns id f j keep)
          (AllNodes-update_found In ns id f n d found
            (rw parent (AllNodes-find In ns id n rows found)) rows),
    )
