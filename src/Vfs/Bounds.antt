-- ===== src/Vfs/Bounds.antt =====
-- About the limits and the quota that `withMutation` checks behind its callback.
use storix.Base.{
  ℕ, suc, ◌≤◌, ◌≡◌, refl, sym, ◌∙◌, ap, subst, inl, inr, true, ◌&&◌, List, [], ◌∷◌, ltb,
  if◌then◌else◌, Bool-cases, Option-cases, Result, ok, err, arith,
}
use storix.Base.Int.{ℤ, pos, ◌+ℤ◌}
use storix.Vfs.State.{Namespace, find_by_id, update_node}
use storix.Vfs.Mutation.{VfsError, Tx, M, ◌>>=◌, is_zero, quota_exceeded}
use storix.Vfs.Commit.{
  Limits, effective_limit, next_count, non_negative, is_positive, store_live_nodes,
  apply_live_nodes, missing_folder, store_child_count, apply_folder, apply_folders,
  apply_node_counters, max_int64, resolve_namespace_quota, resolve_enforced_logical_bytes,
  check_quota, enforced_delta, store_live_bytes, take_live_bytes, apply_logical_byte_quota,
  bump_nodes, bump_changed_nodes, finish,
}

bind_ok :
    {A B : Type 0} (m : M A) (f : A → M B) (tx tx' : Tx) (b : B)
    → (m >>= f) tx ≡ ok (b, tx')
    → (a : A) × (mid : Tx) × (m tx ≡ ok (a, mid)) × (f a mid ≡ ok (b, tx'))
bind_ok m f tx tx' b e = at (m tx) refl e
  where
    at :
        (r : Result VfsError (_ × Tx))
        → m tx ≡ r
        → elim r [ err x ↦ err x | ok (a, mid) ↦ f a mid ] ≡ ok (b, tx')
        → (a : _) × (mid : Tx) × (m tx ≡ ok (a, mid)) × (f a mid ≡ ok (b, tx'))
    at (err x) same q = cc
    at (ok (a, mid)) same q = (a, mid, same, q)

-- What the quota is asked of: the namespace and the deltas of bytes.
abbrev Same : Tx → Tx → Type 0
Same tx tx' =
    (tx'.db.namespace ≡ tx.db.namespace)
    × (tx'.live_file_byte_delta ≡ tx.live_file_byte_delta)
    × (tx'.trash_byte_delta ≡ tx.trash_byte_delta)
    × (tx'.snapshot_byte_delta ≡ tx.snapshot_byte_delta)

Same-trans : (a b c : Tx) → Same a b → Same b c → Same a c
Same-trans a b c (n, l, t, s) (n', l', t', s') = (n' ∙ n, l' ∙ l, t' ∙ t, s' ∙ s)

Same-enforced_delta :
    (a b : Tx) → Same a b → enforced_delta b.db.namespace b ≡ enforced_delta a.db.namespace a
Same-enforced_delta a b (n, l, t, s) = rw (n, l, t, s) refl

apply_folder-Same :
    (limit folder : ℕ) (delta : ℤ) (tx tx' : Tx) (u : Unit {0})
    → apply_folder limit folder delta tx ≡ ok (u, tx')
    → Same tx tx'
unfolding apply_folder missing_folder store_child_count
apply_folder-Same limit folder delta tx tx' u e =
    (ground arith, ground arith, ground arith, ground arith)

apply_folders-Same :
    (limit : ℕ) (folders : List (ℕ × ℤ)) (tx tx' : Tx) (u : Unit {0})
    → apply_folders limit folders tx ≡ ok (u, tx')
    → Same tx tx'
unfolding apply_folders
apply_folders-Same limit [] tx tx' u e = (ground arith, ground arith, ground arith, ground arith)
apply_folders-Same limit ((folder, delta) ∷ rest) tx tx' u e = elim (Bool-cases (is_zero delta)) [
  | inl still ↦ apply_folders-Same limit rest tx tx' u (rw still at e)
  | inr moved ↦
      let (_, mid, first, others) =
        bind_ok (apply_folder limit folder delta) (λ _. apply_folders limit rest) tx tx' u
          (rw moved at e) in
      Same-trans tx mid tx' (apply_folder-Same limit folder delta tx mid _ first)
        (apply_folders-Same limit rest mid tx' u others)
]

bump_nodes-Same :
    (ids : List ℕ) (tx tx' : Tx) (u : Unit {0}) → bump_nodes ids tx ≡ ok (u, tx') → Same tx tx'
unfolding bump_nodes
bump_nodes-Same [] tx tx' u e = (ground arith, ground arith, ground arith, ground arith)
bump_nodes-Same (id ∷ rest) tx tx' u e = elim (Option-cases (find_by_id id tx.db.nodes)) [
  | inl gone ↦ absurd (ground arith)
  | inr (node, found) ↦
      let raised = record tx {
        db = record tx.db {
          nodes = update_node id (λ n. record n { version = suc n.version }) tx.db.nodes;
        };
      } in
      bump_nodes-Same rest raised tx' u (ground arith)
]

-- The limit of nodes of a namespace.
abbrev pub node_limit : Limits → Namespace → ℕ
node_limit limits ns =
    effective_limit ns.max_live_nodes limits.default_max_live_nodes limits.max_live_nodes

abbrev pub enforced_bytes : Namespace → ℕ
enforced_bytes ns =
    resolve_enforced_logical_bytes ns.live_file_byte_count ns.retained_trash_byte_count
      ns.retained_snapshot_byte_count ns.exclude_trash_from_quota ns.exclude_snapshots_from_quota

abbrev pub quota : Limits → Namespace → Result VfsError ℕ
quota limits ns =
    resolve_namespace_quota ns.max_total_logical_bytes limits.max_total_logical_bytes
      limits.default_max_total_logical_bytes

-- A commit of the live nodes that grow meets their limit, and changes nothing that the quota reads.
apply_live_nodes_lem :
    (limits : Limits) (tx tx' : Tx) (u : Unit {0})
    → apply_live_nodes limits tx ≡ ok (u, tx')
    → (is_positive tx.live_node_delta ≡ true
        → tx'.db.namespace.live_node_count ≤ node_limit limits tx.db.namespace)
      × (quota limits tx'.db.namespace ≡ quota limits tx.db.namespace)
      × (enforced_delta tx'.db.namespace tx' ≡ enforced_delta tx.db.namespace tx)
unfolding apply_live_nodes store_live_nodes next_count
apply_live_nodes_lem limits tx tx' u e = (λ grows. ground arith, ground arith, ground arith)

check_quota_lem :
    (limits : Limits) (ns : Namespace) (enforced : ℕ) (u : Unit {0})
    → check_quota limits ns true enforced ≡ ok u
    → (q : ℕ) × (quota limits ns ≡ ok q) × (enforced ≤ q)
unfolding check_quota
check_quota_lem limits ns enforced u e = at (quota limits ns) refl e
  where
    at :
        (r : Result VfsError ℕ)
        → quota limits ns ≡ r
        → elim r [
          | err x ↦ err x
          | ok limit ↦
              if ltb limit enforced then err (quota_exceeded limit enforced) else ok (tt {0})
        ]
          ≡ ok u
        → (q : ℕ) × (quota limits ns ≡ ok q) × (enforced ≤ q)
    at (err x) same k = cc
    at (ok q) same k = (q, same, ground arith)

still_lem :
    (ns : Namespace) (tx : Tx)
    → (is_zero tx.live_file_byte_delta
        && (is_zero tx.trash_byte_delta && is_zero tx.snapshot_byte_delta))
      ≡ true
    → is_positive (enforced_delta ns tx) ≡ true
    → ⊥
unfolding ◌+ℤ◌
still_lem ns tx still grows = ground arith

take_live_bytes_lem :
    (limits : Limits) (r : Result VfsError ℕ) (tx tx' : Tx) (u : Unit {0})
    → take_live_bytes limits r tx ≡ ok (u, tx')
    → is_positive (enforced_delta tx.db.namespace tx) ≡ true
    → (q : ℕ) × (quota limits tx.db.namespace ≡ ok q) × (enforced_bytes tx'.db.namespace ≤ q)
unfolding take_live_bytes store_live_bytes
take_live_bytes_lem limits (err x) tx tx' u e grows = cc
take_live_bytes_lem limits (ok live) tx tx' u e grows = elim (Bool-cases (ltb max_int64 live)) [
  | inl large ↦ absurd (ground arith)
  | inr fits ↦
      let e' = rw (fits, grows) at e in
      stored
        (check_quota limits tx.db.namespace true
          (enforced_bytes (record tx.db.namespace { live_file_byte_count = live })))
        refl e'
]
  where
    stored :
        (r : Result VfsError (Unit {0}))
        → check_quota limits tx.db.namespace true
            (enforced_bytes (record tx.db.namespace { live_file_byte_count = live }))
          ≡ r
        → store_live_bytes live r tx ≡ ok (u, tx')
        → (q : ℕ) × (quota limits tx.db.namespace ≡ ok q) × (enforced_bytes tx'.db.namespace ≤ q)
    stored (err x) same k = absurd (ground arith)
    stored (ok done) same k =
        let (q, is_quota, fits) = check_quota_lem limits tx.db.namespace _ done same in
        let next : record tx.db.namespace { live_file_byte_count = live } ≡ tx'.db.namespace =
          ground arith in
        (q, is_quota, subst (λ ns. enforced_bytes ns ≤ q) next fits)

-- Where a mutation takes bytes, the quota is there and is met.
apply_logical_byte_quota_lem :
    (limits : Limits) (tx tx' : Tx) (u : Unit {0})
    → apply_logical_byte_quota limits tx ≡ ok (u, tx')
    → is_positive (enforced_delta tx.db.namespace tx) ≡ true
    → (q : ℕ) × (quota limits tx.db.namespace ≡ ok q) × (enforced_bytes tx'.db.namespace ≤ q)
unfolding apply_logical_byte_quota
apply_logical_byte_quota_lem limits tx tx' u e grows =
    elim (Bool-cases (
      is_zero tx.live_file_byte_delta
      && (is_zero tx.trash_byte_delta && is_zero tx.snapshot_byte_delta))) [
        | inl still ↦ absurd (still_lem tx.db.namespace tx still grows)
        | inr moved ↦
            take_live_bytes_lem limits
              (non_negative (pos tx.db.namespace.live_file_byte_count +ℤ tx.live_file_byte_delta)
                "live bytes out of range")
              tx tx' u (rw moved at e) grows
      ]

apply_logical_byte_quota-nodes :
    (limits : Limits) (tx tx' : Tx) (u : Unit {0})
    → apply_logical_byte_quota limits tx ≡ ok (u, tx')
    → tx'.db.namespace.live_node_count ≡ tx.db.namespace.live_node_count
unfolding apply_logical_byte_quota take_live_bytes store_live_bytes
apply_logical_byte_quota-nodes limits tx tx' u e = ground arith

-- A mutation that is committed meets the limit of nodes where it adds nodes, and the quota where the
-- bytes that the quota counts grow.
pub finish_within_limits :
    (limits : Limits) (tx tx' : Tx)
    → finish limits tx ≡ ok (tt, tx')
    → (is_positive tx.live_node_delta ≡ true
        → tx'.db.namespace.live_node_count ≤ node_limit limits tx.db.namespace)
      × (is_positive (enforced_delta tx.db.namespace tx) ≡ true
          → (q : ℕ) × (quota limits tx.db.namespace ≡ ok q) × (enforced_bytes tx'.db.namespace ≤ q))
unfolding finish apply_node_counters bump_changed_nodes
finish_within_limits limits tx tx' e =
    let (_, counted, counts, e₁) = bind_ok (apply_node_counters limits) _ tx tx' tt e in
    let (_, paid, pays, bumps) = bind_ok (apply_logical_byte_quota limits) _ counted tx' tt e₁ in
    let (_, noded, nodes, folders) = bind_ok (apply_live_nodes limits) _ tx counted _ counts in
    let (within, same_quota, same_delta) = apply_live_nodes_lem limits tx noded _ nodes in
    let (same, same_live, same_trash, same_snapshot) =
      apply_folders-Same _ tx.folder_file_deltas noded counted _ folders in
    let (bumped, _, _, _) = bump_nodes-Same _ paid tx' _ bumps in
    let count =
      ap (λ (ns : Namespace). ns.live_node_count) bumped
      ∙ apply_logical_byte_quota-nodes limits counted paid _ pays
      ∙ ap (λ (ns : Namespace). ns.live_node_count) same in
    let counted_delta =
      Same-enforced_delta noded counted (same, same_live, same_trash, same_snapshot) ∙ same_delta in
    let counted_quota = ap (quota limits) same ∙ same_quota in
    (
      λ grows. subst (λ k. k ≤ node_limit limits tx.db.namespace) (sym count) (within grows),
      λ grows.
          let (q, is_quota, fits) =
            apply_logical_byte_quota_lem limits counted paid _ pays
              (subst (λ d. is_positive d ≡ true) (sym counted_delta) grows) in
          (q, sym counted_quota ∙ is_quota, subst (λ ns. enforced_bytes ns ≤ q) (sym bumped) fits),
    )
