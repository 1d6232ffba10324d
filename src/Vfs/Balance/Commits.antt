-- ===== src/Vfs/Balance/Commits.antt =====
-- The balance under what `withMutation` does after its callback.
use storix.Base.{
  ℕ, ◌+◌, ◌≡◌, refl, subst, inl, inr, String, Bool, true, false, ◌&&◌, ◌||◌, Option, none, some,
  List, [], ◌∷◌, ltb, ◌==◌, if◌then◌else◌, Bool-cases, Option-cases, Result, ok, err, arith,
}
use storix.Base.Int.{ℤ, pos, pos_part, neg_part, ◌+ℤ◌, +ℤ_parts}
use storix.Vfs.State.{Namespace, max_vfs_version, find_by_id}
use storix.Vfs.Mutation.{VfsError, node_limit_exceeded, quota_exceeded, Tx, is_zero}
use storix.Vfs.Commit.{
  Limits, next_count, non_negative, store_live_nodes, apply_live_nodes, apply_node_counters,
  check_quota, resolve_namespace_quota, store_live_bytes, take_live_bytes, max_int64,
  apply_logical_byte_quota, increment_ids, bump_nodes, bump_changed_nodes, finish,
}
use storix.Vfs.Ensures.{Ensures, Ensures-bind}
use storix.Vfs.Balance.{Balanced, IsConsistent}
use storix.Vfs.Balance.Steps.{bump_version-Balanced}
use storix.Vfs.Balance.Chains.{IsBalanced}
use storix.Vfs.Balance.Folders.{
  is_zero_lem, next_count_lem, Halts, non_negative-Halts, next_count-Halts, Paid, apply_folders_lem,
}

store_live_nodes_lem :
    (r : Result VfsError ℕ) (limit : ℕ) (tx : Tx)
    → IsBalanced tx
    → next_count tx.db.namespace.live_node_count tx.live_node_delta limit node_limit_exceeded ≡ r
    → Ensures
        (λ _ tx'. Paid (pos 0) tx.live_file_byte_delta tx.folder_file_deltas tx')
        (store_live_nodes r tx)
unfolding store_live_nodes
store_live_nodes_lem (err e) limit tx h same = subst Halts same (
    next_count-Halts tx.db.namespace.live_node_count tx.live_node_delta limit node_limit_exceeded
      (λ _ _. tt))
store_live_nodes_lem (ok next) limit tx h e = (
  record {
    distinct = h.distinct;
    tree = h.tree;
    known = h.known;
    live_nodes = omega (
      arith,
      h.live_nodes,
      next_count_lem tx.db.namespace.live_node_count tx.live_node_delta limit next
          node_limit_exceeded e,
    );
    live_bytes = h.live_bytes;
    in_folders = h.in_folders;
    keys = h.keys;
    keys_below = h.keys_below;
  },
  refl,
)

apply_live_nodes_lem :
    (limits : Limits) (tx : Tx)
    → IsBalanced tx
    → Ensures
        (λ _ tx'. Paid (pos 0) tx.live_file_byte_delta tx.folder_file_deltas tx')
        (apply_live_nodes limits tx)
unfolding apply_live_nodes
apply_live_nodes_lem limits tx h = elim (Bool-cases (is_zero tx.live_node_delta)) [
  | inl still ↦ rw still (
    subst (λ d. Balanced tx.db d tx.live_file_byte_delta tx.folder_file_deltas)
        (is_zero_lem tx.live_node_delta still) h,
    refl,
  )
  | inr moved ↦ rw moved (store_live_nodes_lem _ _ tx h refl)
]

-- The sum of the rows' bytes is stored.
store_live_bytes_lem :
    (live : ℕ) (r : Result VfsError (Unit {0})) (tx : Tx)
    → Balanced tx.db (pos 0) tx.live_file_byte_delta []
    → live + neg_part tx.live_file_byte_delta
      ≡ tx.db.namespace.live_file_byte_count + pos_part tx.live_file_byte_delta
    → Halts r
    → Ensures (λ _ tx'. IsConsistent tx'.db) (store_live_bytes live r tx)
unfolding store_live_bytes
store_live_bytes_lem live (err e) tx h sum halts = halts
store_live_bytes_lem live (ok _) tx h sum halts = record {
  distinct = h.distinct;
  tree = h.tree;
  known = h.known;
  live_nodes = h.live_nodes;
  live_bytes = omega (arith, h.live_bytes);
  in_folders = h.in_folders;
  keys = h.keys;
  keys_below = h.keys_below;
}

non_negative_lem :
    (count : ℕ) (delta : ℤ) (what : String) (next : ℕ)
    → non_negative (pos count +ℤ delta) what ≡ ok next
    → next + neg_part delta ≡ count + pos_part delta
non_negative_lem count delta what next e = ground (arith, +ℤ_parts (pos count) delta)

check_quota-Halts :
    (limits : Limits) (ns : Namespace) (grows : Bool) (enforced : ℕ)
    → Halts (check_quota limits ns grows enforced)
unfolding check_quota resolve_namespace_quota
check_quota-Halts limits ns false enforced = tt
check_quota-Halts limits ns true enforced = at ns.max_total_logical_bytes
  where
    bounded :
        (limit : ℕ)
        → Halts (if ltb limit enforced then err (quota_exceeded limit enforced) else ok (tt {0}))
    bounded limit = elim (Bool-cases (ltb limit enforced)) [
      | inl above ↦ rw above tt
      | inr fits ↦ rw fits tt
    ]

    at :
        (o : Option ℕ)
        → Halts
            (elim (resolve_namespace_quota o limits.max_total_logical_bytes
              limits.default_max_total_logical_bytes) [
                | err e ↦ err e
                | ok limit ↦
                    if ltb limit enforced then err (quota_exceeded limit enforced) else ok (tt {0})
              ])
    at none = bounded limits.default_max_total_logical_bytes
    at (some limit) = elim (Bool-cases (limit == 0 || ltb max_int64 limit)) [
      | inl bad ↦ rw bad tt
      | inr good ↦ rw good (bounded _)
    ]

take_live_bytes_lem :
    (limits : Limits) (r : Result VfsError ℕ) (tx : Tx)
    → Balanced tx.db (pos 0) tx.live_file_byte_delta []
    → non_negative
        (pos tx.db.namespace.live_file_byte_count +ℤ tx.live_file_byte_delta)
        "live bytes out of range"
      ≡ r
    → Ensures (λ _ tx'. IsConsistent tx'.db) (take_live_bytes limits r tx)
unfolding take_live_bytes
take_live_bytes_lem limits (err e) tx h same = subst Halts same (non_negative-Halts _ _)
take_live_bytes_lem limits (ok live) tx h e = elim (Bool-cases (ltb max_int64 live)) [
  | inl large ↦ rw large tt
  | inr fits ↦ rw fits (
      store_live_bytes_lem live _ tx h
        (non_negative_lem tx.db.namespace.live_file_byte_count tx.live_file_byte_delta _ live e)
        (check_quota-Halts limits tx.db.namespace _ _))
]

apply_logical_byte_quota_lem :
    (limits : Limits) (tx : Tx)
    → Balanced tx.db (pos 0) tx.live_file_byte_delta []
    → Ensures (λ _ tx'. IsConsistent tx'.db) (apply_logical_byte_quota limits tx)
unfolding apply_logical_byte_quota
apply_logical_byte_quota_lem limits tx h =
    elim (Bool-cases (
      is_zero tx.live_file_byte_delta
      && (is_zero tx.trash_byte_delta && is_zero tx.snapshot_byte_delta))) [
        | inl still ↦ rw still (
            subst (λ d. Balanced tx.db (pos 0) d [])
              (is_zero_lem tx.live_file_byte_delta (ground arith)) h)
        | inr moved ↦ rw moved (take_live_bytes_lem limits _ tx h refl)
      ]

bump_nodes_lem :
    (ids : List ℕ) (tx : Tx)
    → IsConsistent tx.db
    → Ensures (λ _ tx'. IsConsistent tx'.db) (bump_nodes ids tx)
unfolding bump_nodes
bump_nodes_lem [] tx h = h
bump_nodes_lem (id ∷ rest) tx h = elim (Option-cases (find_by_id id tx.db.nodes)) [
  | inl e ↦ rw (Ensures, bump_nodes, e) tt
  | inr (node, e) ↦ elim (Bool-cases (ltb node.version max_vfs_version)) [
    | inr last ↦ rw (Ensures, bump_nodes, e, last) tt
    | inl more ↦
        rw (Ensures, bump_nodes, e, more)
          (bump_nodes_lem rest _ (bump_version-Balanced h id node e))
  ]
]

pub finish-IsConsistent :
    (limits : Limits) (tx : Tx)
    → IsBalanced tx
    → Ensures (λ _ tx'. IsConsistent tx'.db) (finish limits tx)
unfolding finish apply_node_counters bump_changed_nodes
finish-IsConsistent limits tx h =
    Ensures-bind (λ _ tx'. Paid (pos 0) tx.live_file_byte_delta [] tx')
      (λ _ tx'. IsConsistent tx'.db) (apply_node_counters limits) _ tx
      (Ensures-bind (λ _ tx'. Paid (pos 0) tx.live_file_byte_delta tx.folder_file_deltas tx')
        (λ _ tx'. Paid (pos 0) tx.live_file_byte_delta [] tx') (apply_live_nodes limits) _ tx
        (apply_live_nodes_lem limits tx h)
        (λ _ tx' k.
          apply_folders_lem _ tx.folder_file_deltas (pos 0) tx.live_file_byte_delta tx' k))
      (λ _ tx₁ k.
        Ensures-bind (λ _ tx'. IsConsistent tx'.db) (λ _ tx'. IsConsistent tx'.db)
          (apply_logical_byte_quota limits) (λ _. bump_changed_nodes) tx₁
          (apply_logical_byte_quota_lem limits tx₁ (rw k.1 k.0))
          (λ _ tx₂ k₂. bump_nodes_lem (increment_ids tx₂.changed) tx₂ k₂))
