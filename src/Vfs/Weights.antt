-- ===== src/Vfs/Weights.antt =====
-- Sums over the rows, and how the statements on single rows change them.
use storix.Base.{
  ℕ, ◌+◌, ◌<◌, ◌≡◌, ◌≢◌, refl, subst, inl, inr, String, true, none, some, List, [], ◌∷◌, ◌==◌,
  if◌then◌else◌, ==→eq, Bool-cases, arith,
}
use storix.Vfs.State.{Node, is_directory, is_value, find_by_id, find_child, update_node}

abbrev pub total : (Node → ℕ) → List Node → ℕ
total w [] = 0
total w (n ∷ ns) = w n + total w ns

-- A row that is not the root of the namespace.
abbrev pub is_live : Node → ℕ
is_live n = elim n.parent_id [ none ↦ 0 | some _ ↦ 1 ]

abbrev pub bytes_of : Node → ℕ
bytes_of n = elim n.size [ none ↦ 0 | some size ↦ size ]

abbrev pub file_in : ℕ → Node → ℕ
file_in folder n = if is_directory n.type then 0 else if is_value n.parent_id folder then 1 else 0

abbrev pub refers_to : ℕ → Node → ℕ
refers_to blob n = if is_value n.blob_id blob then 1 else 0

-- No id stands twice.
abbrev pub Distinct : List Node → Type 0
Distinct [] = Unit
Distinct (n ∷ ns) = (find_by_id n.id ns ≡ none) × Distinct ns

abbrev pub AllNodes : (Node → Type 0) → List Node → Type 0
AllNodes P [] = Unit
AllNodes P (n ∷ ns) = P n × AllNodes P ns

pub AllNodes-map :
    (P Q : Node → Type 0) (ns : List Node)
    → ((n : Node) → P n → Q n)
    → AllNodes P ns
    → AllNodes Q ns
AllNodes-map P Q [] f h = tt
AllNodes-map P Q (n ∷ ns) f (h, hs) = (f n h, AllNodes-map P Q ns f hs)

pub AllNodes-find :
    (P : Node → Type 0) (ns : List Node) (id : ℕ) (n : Node)
    → AllNodes P ns
    → find_by_id id ns ≡ some n
    → P n
unfolding find_by_id
AllNodes-find P [] id n h e = cc
AllNodes-find P (m ∷ ns) id n (h, hs) e = elim (Bool-cases (m.id == id)) [
  | inl same ↦ subst P (head_found same) h
  | inr other ↦ AllNodes-find P ns id n hs (ground (arith))
]
  where
    head_found : (m.id == id) ≡ true → m ≡ n
    head_found same = ground arith

pub AllNodes-update :
    (P : Node → Type 0) (ns : List Node) (id : ℕ) (f : Node → Node)
    → ((n : Node) → P n → P (f n))
    → AllNodes P ns
    → AllNodes P (update_node id f ns)
unfolding update_node
AllNodes-update P [] id f k h = tt
AllNodes-update P (n ∷ ns) id f k (h, hs) = elim (Bool-cases (n.id == id)) [
  | inl same ↦ rw same (k n h, AllNodes-update P ns id f k hs)
  | inr other ↦ rw other (h, AllNodes-update P ns id f k hs)
]

-- The update keeps the id of the row.
abbrev pub KeepsId : ℕ → (Node → Node) → Type 0
KeepsId id f = (n : Node) → n.id ≡ id → (f n).id ≡ id

pub find-id : (ns : List Node) (id : ℕ) (n : Node) → find_by_id id ns ≡ some n → n.id ≡ id
unfolding find_by_id
find-id [] id n e = cc
find-id (m ∷ ns) id n e = ground (arith, find-id ns id n)

pub update_node-absent :
    (ns : List Node) (id : ℕ) (f : Node → Node) → find_by_id id ns ≡ none → update_node id f ns ≡ ns
unfolding find_by_id update_node
update_node-absent [] id f e = refl
update_node-absent (m ∷ ns) id f e = ground (arith, update_node-absent ns id f)

-- An update of one row moves a sum by that row's part.
pub total-update :
    (w : Node → ℕ) (ns : List Node) (id : ℕ) (f : Node → Node) (n : Node)
    → Distinct ns
    → find_by_id id ns ≡ some n
    → total w (update_node id f ns) + w n ≡ total w ns + w (f n)
unfolding find_by_id update_node
total-update w [] id f n d e = cc
total-update w (m ∷ ns) id f n (new, d) e = elim (Bool-cases (m.id == id)) [
  | inl same ↦
      let gone = update_node-absent ns id f (rw (← ==→eq m.id id same) new) in ground (arith, gone)
  | inr other ↦ ground (arith, total-update w ns id f n d)
]

pub find-update_self :
    (ns : List Node) (id : ℕ) (f : Node → Node) (n : Node)
    → KeepsId id f
    → find_by_id id ns ≡ some n
    → find_by_id id (update_node id f ns) ≡ some (f n)
unfolding find_by_id update_node
find-update_self [] id f n k e = cc
find-update_self (m ∷ ns) id f n k e = ground (arith, k m, find-update_self ns id f n k)

pub find-update_ne :
    (ns : List Node) (id j : ℕ) (f : Node → Node)
    → KeepsId id f
    → id ≢ j
    → find_by_id j (update_node id f ns) ≡ find_by_id j ns
unfolding find_by_id update_node
find-update_ne [] id j f k h = refl
find-update_ne (m ∷ ns) id j f k h = ground (arith, k m, find-update_ne ns id j f k h)

find-update_none :
    (ns : List Node) (id j : ℕ) (f : Node → Node)
    → KeepsId id f
    → find_by_id j ns ≡ none
    → find_by_id j (update_node id f ns) ≡ none
unfolding find_by_id update_node
find-update_none [] id j f k e = refl
find-update_none (m ∷ ns) id j f k e = ground (arith, k m, find-update_none ns id j f k)

pub Distinct-update :
    (ns : List Node) (id : ℕ) (f : Node → Node)
    → KeepsId id f
    → Distinct ns
    → Distinct (update_node id f ns)
unfolding update_node
Distinct-update [] id f k d = tt
Distinct-update (m ∷ ns) id f k (new, d) = elim (Bool-cases (m.id == id)) [
  | inl same ↦
      let e = ==→eq m.id id same in
      rw same
        (rw (k m e) (find-update_none ns id id f k (rw e at new)), Distinct-update ns id f k d)
  | inr other ↦ rw other (find-update_none ns id m.id f k new, Distinct-update ns id f k d)
]

-- The child of a name is the row of its own id.
pub find_by_id-find_child :
    (ns : List Node) (folder : ℕ) (name : String) (n : Node)
    → Distinct ns
    → find_child folder name ns ≡ some n
    → find_by_id n.id ns ≡ some n
unfolding find_by_id find_child
find_by_id-find_child [] folder name n d e = cc
find_by_id-find_child (m ∷ ns) folder name n (new, d) e =
    ground (arith, find_by_id-find_child ns folder name n d)

-- Where the ids and the parents stand below `next`, nothing is in a folder at or above it.
pub total-file_in_fresh :
    (ns : List Node) (folder : ℕ)
    → AllNodes (λ n. file_in folder n ≡ 0) ns
    → total (file_in folder) ns ≡ 0
total-file_in_fresh [] folder h = refl
total-file_in_fresh (n ∷ ns) folder (h, hs) = omega (arith, total-file_in_fresh ns folder hs)

pub find-fresh : (ns : List Node) (id : ℕ) → AllNodes (λ n. n.id < id) ns → find_by_id id ns ≡ none
unfolding find_by_id
find-fresh [] id h = refl
find-fresh (n ∷ ns) id (h, hs) = ground (arith, find-fresh ns id hs)
