-- ===== src/Upload/Tests.antt =====
-- Runs of the upload policy, and the theorems at concrete inputs.
use storix.Base.{ℕ, ◌+◌, ◌*◌, ◌≤◌, ◌<◌, ◌≡◌, ◌≢◌, ◌↔◌, ◌⊎◌, refl, some, List, [], ◌∷◌, arith}
use storix.Base.{has, add}
use storix.Upload.Policy.{
  UploadSessionPolicy, ResolvedUploadSessionPolicy, PlannedUpload, planned, part_count_overflow,
  UploadSessionPolicySnapshot, UploadPartPolicySnapshot, PartState, stored, reserved, parts_stored,
  parts_in_progress, UploadPartAdmission, max_part_count, resolve_upload_session_policy,
  assess_new_upload_file, plan_new_upload_session, assess_upload_part_admission, staging_status,
}
use storix.Upload.Plan.{
  Covers, plan_new_upload_session_lem, assess_upload_part_admission_iff, accepted-ne-file_too_large,
}
use storix.Upload.Staging.{HasStored, staging_status-parts_stored_iff}

abbrev settings : UploadSessionPolicy
settings = record {
  global = record {
    limits = record { max_staged_bytes = 1000; max_active_sessions = 4 };
    part_size_bytes = 100;
    inactivity_seconds = 60;
    max_lifetime_seconds = 600;
  };
  namespaces =
      (
        "ns",
        record {
          limits = record { max_staged_bytes = 250; max_active_sessions = 2 };
          part_size_bytes = some 40;
        },
      )
      ∷ [];
}

abbrev resolved : ResolvedUploadSessionPolicy
resolved = record {
  caps = record {
    global = record { max_staged_bytes = 1000; max_active_sessions = 4 };
    namespace = record { max_staged_bytes = 250; max_active_sessions = 2 };
  };
  effective_max_staged_bytes = 250;
  part_size_bytes = 40;
  inactivity_seconds = 60;
  max_lifetime_seconds = 600;
}

resolve_runs : resolve_upload_session_policy settings "ns" ≡ resolved
unfolding resolve_upload_session_policy
resolve_runs = refl

abbrev session : UploadSessionPolicySnapshot
session = record {
  state = "OPEN";
  size_bytes = 81;
  part_count = 3;
  expires_at = 90;
  max_expires_at = 99;
}

abbrev part : ℕ → PartState → UploadPartPolicySnapshot
part i s = record { part_index = i; state = s; lease_expires_at = some 50 }

abbrev shuffled : List UploadPartPolicySnapshot
shuffled = part 2 stored ∷ part 0 stored ∷ part 7 stored ∷ part 2 stored ∷ part 1 stored ∷ []

abbrev leased : List UploadPartPolicySnapshot
leased = part 2 stored ∷ part 0 stored ∷ part 1 reserved ∷ []

in_progress : staging_status session leased resolved 20 ≡ parts_in_progress
unfolding staging_status has add
in_progress = refl

plan_new_upload_session_lem_example :
    ((p : PlannedUpload) × (plan_new_upload_session 81 resolved 5 ≡ planned p)
      × Covers 81 40 p.part_count
      × (p.part_count ≤ max_part_count)
      × (p.part_size_bytes ≡ 40)
      × (p.expires_at ≡ 5 + 60 * 1000)
      × (p.max_expires_at ≡ 5 + 600 * 1000))
    ⊎ ((plan_new_upload_session 81 resolved 5 ≡ part_count_overflow) × (max_part_count * 40 < 81))
plan_new_upload_session_lem_example = plan_new_upload_session_lem 81 resolved 5 (omega arith)

assess_upload_part_admission_iff_example :
    (assess_upload_part_admission 81 40 resolved.caps
        (record { global_staged_bytes = 900; namespace_staged_bytes = 10 })
      ≡ UploadPartAdmission.allowed)
    ↔ ((81 ≤ 1000) × (81 ≤ 250) × (900 + 40 ≤ 1000) × (10 + 40 ≤ 250))
assess_upload_part_admission_iff_example =
    assess_upload_part_admission_iff 81 40 resolved.caps
      (record { global_staged_bytes = 900; namespace_staged_bytes = 10 })

accepted-ne-file_too_large_example :
    assess_upload_part_admission 81 40
      (resolve_upload_session_policy settings "ns").caps
      (record { global_staged_bytes = 990; namespace_staged_bytes = 10 })
    ≢ UploadPartAdmission.file_too_large 81 250
unfolding resolve_upload_session_policy assess_new_upload_file
accepted-ne-file_too_large_example =
    accepted-ne-file_too_large settings "ns" 81 500 40
      (record { global_staged_bytes = 990; namespace_staged_bytes = 10 }) refl 81 250

staging_status-parts_stored_iff_example :
    (staging_status session shuffled resolved 20 ≡ parts_stored)
    ↔ ((i : ℕ) → i < 3 → HasStored i shuffled)
staging_status-parts_stored_iff_example =
    staging_status-parts_stored_iff session shuffled resolved 20
