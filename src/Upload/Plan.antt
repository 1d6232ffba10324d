-- ===== src/Upload/Plan.antt =====
-- About the plan of a new session, the assessment of its file and the admission of its parts, of
-- apps/api/src/vfs/upload-session-policy.ts.
use storix.Base.{
  ℕ, ◌+◌, ◌-◌, ◌*◌, ◌/◌, ◌≤◌, ◌<◌, String, ◌≡◌, ◌≢◌, ◌↔◌, ◌⊎◌, inl, inr, refl, Bool-cases, ltb,
  ltb→lt, arith,
}
use storix.Upload.Policy.{
  UploadSessionPolicy, ResolvedUploadSessionPolicy, PlannedUpload, NewUploadFileAssessment, planned,
  part_count_overflow, UploadPolicyCaps, Usage, UploadPartAdmission, max_part_count,
  resolve_upload_session_policy, assess_new_upload_file, plan_new_upload_session,
  assess_upload_part_admission,
}

-- The parts of `count` cover the file and the last one is not empty.
pub record Covers (size part_size count : ℕ) : Type 0 where
  pub enough : size ≤ count * part_size
  pub least : count * part_size < size + part_size

div_ceil-Covers : (size part : ℕ) → 0 < part → Covers size part ((size + part - 1) / part)
div_ceil-Covers size part h = record { enough = grind arith; least = grind arith }

-- A plan is made with the least number of parts that cover the file, at most 2^31 - 1, and with the
-- two expiry times counted from `now`; it is refused only for a file that 2^31 - 1 parts do not
-- cover. The part size of the policy is not 0.
pub plan_new_upload_session_lem :
    (size : ℕ) (policy : ResolvedUploadSessionPolicy) (now : ℕ)
    → 0 < policy.part_size_bytes
    → ((p : PlannedUpload) × (plan_new_upload_session size policy now ≡ planned p)
        × Covers size policy.part_size_bytes p.part_count
        × (p.part_count ≤ max_part_count)
        × (p.part_size_bytes ≡ policy.part_size_bytes)
        × (p.expires_at ≡ now + policy.inactivity_seconds * 1000)
        × (p.max_expires_at ≡ now + policy.max_lifetime_seconds * 1000))
      ⊎ ((plan_new_upload_session size policy now ≡ part_count_overflow)
          × (max_part_count * policy.part_size_bytes < size))
unfolding plan_new_upload_session
plan_new_upload_session_lem size policy now h =
    let count = (size + policy.part_size_bytes - 1) / policy.part_size_bytes in
    let covers = div_ceil-Covers size policy.part_size_bytes h in
    elim (Bool-cases (ltb max_part_count count)) [
      | inl over ↦ inr (ground arith, grind (arith, ltb→lt max_part_count count over, covers.least))
      | inr fits ↦ inl (
        record {
          part_size_bytes = policy.part_size_bytes;
          part_count = count;
          expires_at = now + policy.inactivity_seconds * 1000;
          max_expires_at = now + policy.max_lifetime_seconds * 1000;
        },
        ground arith,
        covers,
        ground arith,
        refl,
        refl,
        refl,
      )
    ]

-- A part is admitted exactly when the whole file fits into both staging caps and the part fits into
-- what each of them has left.
pub assess_upload_part_admission_iff :
    (size amount : ℕ) (caps : UploadPolicyCaps) (usage : Usage)
    → (assess_upload_part_admission size amount caps usage ≡ UploadPartAdmission.allowed) ↔ (
        (size ≤ caps.global.max_staged_bytes)
        × (size ≤ caps.namespace.max_staged_bytes)
        × (usage.global_staged_bytes + amount ≤ caps.global.max_staged_bytes)
        × (usage.namespace_staged_bytes + amount ≤ caps.namespace.max_staged_bytes))
unfolding assess_upload_part_admission
assess_upload_part_admission_iff size amount caps usage = ground arith

-- A file that is accepted for a new session is never refused for its size when its parts are
-- reserved under the same policy.
pub accepted-ne-file_too_large :
    (policy : UploadSessionPolicy) (namespace_id : String) (size max_file amount : ℕ)
    (usage : Usage)
    → assess_new_upload_file size max_file (resolve_upload_session_policy policy namespace_id)
      ≡ NewUploadFileAssessment.allowed
    → (shown most : ℕ)
    → assess_upload_part_admission size amount
        (resolve_upload_session_policy policy namespace_id).caps
        usage
      ≢ UploadPartAdmission.file_too_large shown most
unfolding resolve_upload_session_policy assess_new_upload_file assess_upload_part_admission
accepted-ne-file_too_large policy namespace_id size max_file amount usage h shown most e =
    ground arith
