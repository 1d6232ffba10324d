-- ===== src/Upload/Staging.antt =====
-- About the staging diagnosis of apps/api/src/vfs/upload-session-policy.ts.
use storix.Base.{
  ℕ, ◌<◌, ◌≡◌, ◌↔◌, ◌⊎◌, sym, ◌∙◌, true, List, [], ◌∷◌, length, has, has-add, has-empty,
  add-IsSetBelow, IsSetBelow, length-count_below, count_below-full, count_below_of_full, arith,
}
use storix.Upload.Policy.{
  ResolvedUploadSessionPolicy, UploadSessionPolicySnapshot, UploadPartPolicySnapshot, PartState,
  stored, parts_stored, is_stored, collect_part, collect_parts, staging_status,
}

-- Some part with the index `i` is stored.
abbrev pub HasStored : ℕ → List UploadPartPolicySnapshot → Type 0
HasStored i [] = ⊥
HasStored i (part ∷ parts) = ((part.part_index ≡ i) × (part.state ≡ stored)) ⊎ HasStored i parts

is_stored_iff : (s : PartState) → (is_stored s ≡ true) ↔ (s ≡ stored)
is_stored_iff s = ground arith

module _ (count now : ℕ) where
  collect_part-IsSetBelow :
      (part : UploadPartPolicySnapshot) (ss rs : List ℕ)
      → IsSetBelow count ss
      → IsSetBelow count (collect_part count now part (ss, rs)).0
  unfolding collect_part
  collect_part-IsSetBelow part ss rs h = ground (arith, add-IsSetBelow count part.part_index ss)

  collect_parts-IsSetBelow :
      (parts : List UploadPartPolicySnapshot) (ss rs : List ℕ)
      → IsSetBelow count ss
      → IsSetBelow count (collect_parts count now parts (ss, rs)).0
  unfolding collect_parts
  collect_parts-IsSetBelow [] ss rs h = h
  collect_parts-IsSetBelow (part ∷ parts) ss rs h =
      let (ss', rs') = collect_part count now part (ss, rs) in
      collect_parts-IsSetBelow parts ss' rs' (collect_part-IsSetBelow part ss rs h)

  has-collect_part :
      (part : UploadPartPolicySnapshot) (ss rs : List ℕ) (i : ℕ)
      → i < count
      → (has (collect_part count now part (ss, rs)).0 i ≡ true)
        ↔ ((has ss i ≡ true) ⊎ ((part.part_index ≡ i) × (part.state ≡ stored)))
  unfolding collect_part
  has-collect_part part ss rs i h =
      ground (arith, has-add part.part_index i ss, is_stored_iff part.state)

  has-collect_parts :
      (parts : List UploadPartPolicySnapshot) (ss rs : List ℕ) (i : ℕ)
      → i < count
      → (has (collect_parts count now parts (ss, rs)).0 i ≡ true)
        ↔ ((has ss i ≡ true) ⊎ HasStored i parts)
  unfolding collect_parts
  has-collect_parts [] ss rs i h = ground arith
  has-collect_parts (part ∷ parts) ss rs i h =
      let (ss', rs') = collect_part count now part (ss, rs) in
      ground (arith, has-collect_part part ss rs i h, has-collect_parts parts ss' rs' i h)

module _ (session : UploadSessionPolicySnapshot) (parts : List UploadPartPolicySnapshot)
    (policy : ResolvedUploadSessionPolicy) (now : ℕ) where
  stored_set : List ℕ
  stored_set = (collect_parts session.part_count now parts ([], [])).0

  stored_set-full :
      (length stored_set ≡ session.part_count)
      ↔ ((i : ℕ) → i < session.part_count → has stored_set i ≡ true)
  unfolding stored_set
  stored_set-full =
      let size =
        length-count_below session.part_count stored_set
          (collect_parts-IsSetBelow session.part_count now parts [] [] tt) in
      (
        λ e. count_below-full stored_set session.part_count (sym size ∙ e),
        λ all. size ∙ count_below_of_full stored_set session.part_count all,
      )

  stored_set-HasStored :
      (i : ℕ) → i < session.part_count → (has stored_set i ≡ true) ↔ HasStored i parts
  unfolding stored_set
  stored_set-HasStored i h =
      ground (arith, has-collect_parts session.part_count now parts [] [] i h, has-empty i)

  staging_status-parts_stored :
      (staging_status session parts policy now ≡ parts_stored)
      ↔ (length stored_set ≡ session.part_count)
  unfolding staging_status stored_set
  staging_status-parts_stored = ground arith

  -- The diagnosis is `PARTS_STORED` exactly when every index of the session has a stored part,
  -- however many rows the parts have, in whatever order, with repeated or foreign indices.
  pub staging_status-parts_stored_iff :
      (staging_status session parts policy now ≡ parts_stored)
      ↔ ((i : ℕ) → i < session.part_count → HasStored i parts)
  staging_status-parts_stored_iff = (
    λ e i h. (stored_set-HasStored i h).0 (stored_set-full.0 (staging_status-parts_stored.0 e) i h),
    λ all.
        staging_status-parts_stored.1
          (stored_set-full.1 (λ i h. (stored_set-HasStored i h).1 (all i h))),
  )
