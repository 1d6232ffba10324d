-- ===== src/Vfs/Ensures.antt =====
-- Postconditions of mutations: what holds of the result and the new state when nothing was thrown,
-- and that no walk runs out of fuel.
use storix.Base.{
  ℕ, zero, suc, ◌<◌, inl, inr, Bool, true, Option, none, some, List, [], ◌∷◌, ◌++◌, Result, ok, err,
  has, length, Bool-cases, Option-cases, arith,
}
use storix.Base.Int.{ℤ}
use storix.Vfs.State.{Db, find_by_id}
use storix.Vfs.Mutation.{VfsError, IsHalt, Tx, M, ◌>>=◌, is_changed, mark_changed}
use storix.Vfs.Weights.{AllNodes, AllNodes-find, find-id}
use storix.Vfs.Tree.{HasParentUnder, IsUnder, IsTree}
use storix.Vfs.Chain.{mark_from, mark_ancestor_chain}

abbrev pub Ensures : {A : Type 0} → (A → Tx → Type 0) → Result VfsError (A × Tx) → Type 0
Ensures Q (ok (a, tx)) = Q a tx
Ensures Q (err e) = IsHalt e

pub Ensures-bind :
    {A B : Type 0} (Q : A → Tx → Type 0) (R : B → Tx → Type 0) (m : M A) (f : A → M B) (tx : Tx)
    → Ensures Q (m tx)
    → ((a : A) (tx' : Tx) → Q a tx' → Ensures R (f a tx'))
    → Ensures R ((m >>= f) tx)
Ensures-bind Q R m f tx h k = at (m tx) h
  where
    at :
        (r : Result VfsError (_ × Tx))
        → Ensures Q r
        → Ensures R (elim r [ err e ↦ err e | ok (a, tx') ↦ f a tx' ])
    at (ok (a, tx')) q = k a tx' q
    at (err e) q = q

-- A property of the rows and of the deltas of a mutation.
abbrev pub Ledger : Type 1
Ledger = Db → (nodes bytes : ℤ) → (folders : List (ℕ × ℤ)) → Type 0

abbrev pub At : Ledger → Tx → Type 0
At P tx = P tx.db tx.live_node_delta tx.live_file_byte_delta tx.folder_file_deltas

-- The marks change neither rows nor deltas.
module _ (P : Ledger) where
  pub mark_changed-At :
      (id : ℕ) (increment : Bool) (tx : Tx)
      → At P tx
      → Ensures (λ _ tx'. At P tx') (mark_changed id increment tx)
  unfolding mark_changed
  mark_changed-At id increment tx h = elim (Bool-cases (is_changed id tx.changed)) [
    | inl old ↦ rw old h
    | inr new ↦ rw new h
  ]

-- Where the parents lead to a root, one round more than the rank of the node is enough.
module _ (P : Ledger) (rank : ℕ → ℕ) where
  abbrev Under : Ledger
  Under db nodes bytes folders = P db nodes bytes folders × AllNodes (IsUnder rank) db.nodes

  abbrev Reaches : ℕ → Option ℕ → Type 0
  Reaches fuel none = 0 < fuel
  Reaches fuel (some id) = suc (rank id) < fuel

  Reaches-parent :
      (fuel own : ℕ) (o : Option ℕ)
      → HasParentUnder rank own o
      → suc (rank own) < suc fuel
      → Reaches fuel o
  Reaches-parent fuel own none under reach = omega arith
  Reaches-parent fuel own (some parent) under reach = omega arith

  mark_from-At :
      (fuel : ℕ) (current : Option ℕ) (walked : List ℕ) (tx : Tx)
      → At Under tx
      → Reaches fuel current
      → Ensures (λ _ tx'. At Under tx') (mark_from fuel current walked tx)
  unfolding mark_from
  mark_from-At zero none walked tx h r = absurd (omega arith)
  mark_from-At zero (some id) walked tx h r = absurd (omega arith)
  mark_from-At (suc fuel) none walked tx h r = h
  mark_from-At (suc fuel) (some id) walked tx h r =
      elim (Bool-cases (has tx.ancestor_chain_marked id)) [
        | inl old ↦ rw old h
        | inr new ↦ elim (Option-cases (find_by_id id tx.db.nodes)) [
          | inl e ↦ rw (new, e) tt
          | inr (node, e) ↦
              rw (new, e)
                (Ensures-bind (λ _ tx'. At Under tx') (λ _ tx'. At Under tx') (mark_changed id true)
                  (λ _. mark_from fuel node.parent_id (id ∷ walked)) tx
                  (mark_changed-At Under id true tx h)
                  (λ _ tx' h'. mark_from-At fuel node.parent_id (id ∷ walked) tx' h' (
                    Reaches-parent fuel node.id node.parent_id
                      (AllNodes-find (IsUnder rank) tx.db.nodes id node h.1 e)
                      (rw (find-id tx.db.nodes id node e) r))))
        ]
      ]

pub mark_ancestor_chain-At :
    (P : Ledger) (id : ℕ) (tx : Tx)
    → IsTree tx.db.nodes
    → At P tx
    → Ensures (λ _ tx'. At P tx') (mark_ancestor_chain id tx)
unfolding mark_ancestor_chain
mark_ancestor_chain-At P id tx (rank, bound, under, rows) h =
    Ensures-bind (λ _ tx'. At (Under P rank) tx') (λ _ tx'. At P tx')
      (mark_from (suc (length tx.db.nodes)) (some id) [])
      (λ walked after.
        ok (tt, record after { ancestor_chain_marked = walked ++ after.ancestor_chain_marked }))
      tx
      (mark_from-At P rank (suc (length tx.db.nodes)) (some id) [] tx (h, under)
        (omega (arith, bound id)))
      (λ _ _ h'. h'.0)
