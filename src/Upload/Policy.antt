-- ===== src/Upload/Policy.antt =====
-- apps/api/src/vfs/upload-session-policy.ts, whole: the limits that apply to a namespace, the
-- admission of a file and of a part, the plan of a new session, and the staging diagnosis.
-- Byte counts and indices are natural numbers (`bigint` and safe integers that are not negative), a
-- `Date` is its number of milliseconds. The types of the settings are those of
-- apps/api/src/vfs/upload-session-config.ts.
use storix.Base.{
  ℕ, suc, ◌+◌, ◌-◌, ◌*◌, ◌/◌, String, Bool, true, false, not, ◌&&◌, ◌||◌, Option, none, some, List,
  [], ◌∷◌, ltb, leb, ◌==◌, str_eq, if◌then◌else◌, length, has, add,
}

pub record UploadSessionLimits : Type 0 where
  pub max_staged_bytes : ℕ
  pub max_active_sessions : ℕ

pub record UploadSessionNamespacePolicy : Type 0 where
  pub limits : UploadSessionLimits
  pub open limits use *
  pub part_size_bytes : Option ℕ

pub record GlobalPolicy : Type 0 where
  pub limits : UploadSessionLimits
  pub open limits use *
  pub part_size_bytes : ℕ
  pub inactivity_seconds : ℕ
  pub max_lifetime_seconds : ℕ

-- `namespaces` is an object with the namespace ids as its keys.
pub record UploadSessionPolicy : Type 0 where
  pub global : GlobalPolicy
  pub namespaces : List (String × UploadSessionNamespacePolicy)

pub record UploadPolicyCaps : Type 0 where
  pub global : UploadSessionLimits
  pub namespace : UploadSessionLimits

pub record ResolvedUploadSessionPolicy : Type 0 where
  pub caps : UploadPolicyCaps
  pub effective_max_staged_bytes : ℕ
  pub part_size_bytes : ℕ
  pub inactivity_seconds : ℕ
  pub max_lifetime_seconds : ℕ

pub data NewUploadFileAssessment : Type 0 where
  allowed : NewUploadFileAssessment
  file_too_large : (max_file_size_bytes : ℕ) → NewUploadFileAssessment
  staging_file_too_large : (size_bytes max_staged_bytes : ℕ) → NewUploadFileAssessment

pub record PlannedUpload : Type 0 where
  pub part_size_bytes : ℕ
  pub part_count : ℕ
  pub expires_at : ℕ
  pub max_expires_at : ℕ

-- `division_by_zero` is the `RangeError` of a `bigint` division, which throws.
pub data NewUploadSessionPlan : Type 0 where
  planned : PlannedUpload → NewUploadSessionPlan
  part_count_overflow : NewUploadSessionPlan
  division_by_zero : NewUploadSessionPlan

pub record UploadSessionPolicySnapshot : Type 0 where
  pub state : String
  pub size_bytes : ℕ
  pub part_count : ℕ
  pub expires_at : ℕ
  pub max_expires_at : ℕ

pub data PartState : Type 0 where
  reserved stored cleanup deleted : PartState

pub record UploadPartPolicySnapshot : Type 0 where
  pub part_index : ℕ
  pub state : PartState
  pub lease_expires_at : Option ℕ

pub data UploadSessionStagingStatus : Type 0 where
  parts_stored parts_in_progress file_too_large within_limit : UploadSessionStagingStatus

pub record Staging : Type 0 where
  pub max_staged_bytes : ℕ
  pub status : UploadSessionStagingStatus

pub record UploadSessionStagingDiagnosis : Type 0 where
  pub expired : Bool
  pub staging : Option Staging

pub data UploadPartAdmission : Type 0 where
  allowed : UploadPartAdmission
  file_too_large : (size_bytes max_staged_bytes : ℕ) → UploadPartAdmission
  limit : UploadPartAdmission

pub record Usage : Type 0 where
  pub global_staged_bytes : ℕ
  pub namespace_staged_bytes : ℕ

abbrev pub max_part_count : ℕ
max_part_count = 2147483647

unfoldable pub effective_max_staged_bytes : ℕ → ℕ → ℕ
effective_max_staged_bytes global_max namespace_max =
    if ltb global_max namespace_max then global_max else namespace_max

-- `policy.namespaces[namespaceId]`, `none` for `undefined`.
unfoldable pub namespace_policy :
    String → List (String × UploadSessionNamespacePolicy) → Option UploadSessionNamespacePolicy
namespace_policy id [] = none
namespace_policy id ((key, p) ∷ rest) = if str_eq key id then some p else namespace_policy id rest

-- The two `??` of the function: a setting of the namespace, or the global one.
abbrev pub limits_or :
    UploadSessionLimits → Option UploadSessionNamespacePolicy → UploadSessionLimits
limits_or global none = global
limits_or global (some p) = p.limits

abbrev pub size_or : ℕ → Option ℕ → ℕ
size_or global none = global
size_or global (some n) = n

abbrev pub part_size_or : ℕ → Option UploadSessionNamespacePolicy → ℕ
part_size_or global none = global
part_size_or global (some p) = size_or global p.part_size_bytes

unfoldable pub resolve_upload_session_policy :
    UploadSessionPolicy → String → ResolvedUploadSessionPolicy
unfolding effective_max_staged_bytes namespace_policy
resolve_upload_session_policy policy namespace_id =
    let global = policy.global in
    let found = namespace_policy namespace_id policy.namespaces in
    let namespace_limits = limits_or global.limits found in
    record {
      caps = record { global = global.limits; namespace = namespace_limits };
      effective_max_staged_bytes =
          effective_max_staged_bytes global.limits.max_staged_bytes
            namespace_limits.max_staged_bytes;
      part_size_bytes = part_size_or global.part_size_bytes found;
      inactivity_seconds = global.inactivity_seconds;
      max_lifetime_seconds = global.max_lifetime_seconds;
    }

unfoldable pub assess_new_upload_file :
    (size_bytes max_file_size_bytes : ℕ) → ResolvedUploadSessionPolicy → NewUploadFileAssessment
assess_new_upload_file size_bytes max_file_size_bytes policy =
    if ltb max_file_size_bytes size_bytes
    then file_too_large max_file_size_bytes
    else if ltb policy.effective_max_staged_bytes size_bytes
    then staging_file_too_large size_bytes policy.effective_max_staged_bytes
    else allowed

-- `(sizeBytes + partSize - 1n) / partSize`; a part size of 0 throws whatever the dividend.
unfoldable pub plan_new_upload_session :
    (size_bytes : ℕ) → ResolvedUploadSessionPolicy → (now : ℕ) → NewUploadSessionPlan
plan_new_upload_session size_bytes policy now =
    let part_size = policy.part_size_bytes in
    let part_count = (size_bytes + part_size - 1) / part_size in
    if part_size == 0
    then division_by_zero
    else if ltb max_part_count part_count
    then part_count_overflow
    else planned (record {
      part_size_bytes = policy.part_size_bytes;
      part_count = part_count;
      expires_at = now + policy.inactivity_seconds * 1000;
      max_expires_at = now + policy.max_lifetime_seconds * 1000;
    })

abbrev pub is_stored : PartState → Bool
is_stored stored = true
is_stored _ = false

-- `state === 'RESERVED' && leaseExpiresAt !== null && leaseExpiresAt > now`
abbrev pub has_live_lease : PartState → Option ℕ → ℕ → Bool
has_live_lease reserved (some lease) now = ltb now lease
has_live_lease _ _ now = false

-- One round of the loop over the parts, on the two sets that it fills.
unfoldable pub collect_part :
    (count now : ℕ) → UploadPartPolicySnapshot → List ℕ × List ℕ → List ℕ × List ℕ
collect_part count now part (stored_set, reserved_set) =
    if leb count part.part_index then (stored_set, reserved_set) else (
      if is_stored part.state then add part.part_index stored_set else stored_set,
      if has_live_lease part.state part.lease_expires_at now
          then add part.part_index reserved_set
          else reserved_set,
    )

unfoldable pub collect_parts :
    (count now : ℕ) → List UploadPartPolicySnapshot → List ℕ × List ℕ → List ℕ × List ℕ
unfolding collect_part
collect_parts count now [] sets = sets
collect_parts count now (part ∷ parts) sets =
    collect_parts count now parts (collect_part count now part sets)

-- The loop that counts `reservedMissing`.
unfoldable pub reserved_missing : (stored_set reserved_set : List ℕ) → ℕ
reserved_missing stored_set [] = 0
reserved_missing stored_set (index ∷ rest) =
    if has stored_set index
    then reserved_missing stored_set rest
    else suc (reserved_missing stored_set rest)

unfoldable pub staging_status :
    UploadSessionPolicySnapshot
    → List UploadPartPolicySnapshot
    → ResolvedUploadSessionPolicy
    → ℕ
    → UploadSessionStagingStatus
unfolding collect_parts reserved_missing
staging_status session parts policy now =
    let (stored_set, reserved_set) = collect_parts session.part_count now parts ([], []) in
    if length stored_set == session.part_count
    then parts_stored
    else if length stored_set + reserved_missing stored_set reserved_set == session.part_count
    then parts_in_progress
    else if ltb policy.effective_max_staged_bytes session.size_bytes
    then file_too_large
    else within_limit

is_expired : UploadSessionPolicySnapshot → ℕ → Bool
is_expired session now =
    str_eq session.state "OPEN" && (leb session.expires_at now || leb session.max_expires_at now)

-- `policy` is `none` when the setting was removed.
unfoldable pub diagnose_upload_session_staging :
    UploadSessionPolicySnapshot
    → List UploadPartPolicySnapshot
    → Option ResolvedUploadSessionPolicy
    → ℕ
    → UploadSessionStagingDiagnosis
unfolding is_expired staging_status
diagnose_upload_session_staging session parts none now = record {
  expired = is_expired session now;
  staging = none;
}
diagnose_upload_session_staging session parts (some policy) now =
    let expired = is_expired session now in
    if not (str_eq session.state "OPEN") || expired
    then record { expired = expired; staging = none }
    else record {
      expired = expired;
      staging = some (record {
        max_staged_bytes = policy.effective_max_staged_bytes;
        status = staging_status session parts policy now;
      });
    }

unfoldable pub assess_upload_part_admission :
    (size_bytes amount_bytes : ℕ) → UploadPolicyCaps → Usage → UploadPartAdmission
unfolding effective_max_staged_bytes
assess_upload_part_admission size_bytes amount_bytes caps usage =
    let max_staged =
      effective_max_staged_bytes caps.global.max_staged_bytes caps.namespace.max_staged_bytes in
    if ltb max_staged size_bytes
    then file_too_large size_bytes max_staged
    else if ltb caps.global.max_staged_bytes (usage.global_staged_bytes + amount_bytes)
    then limit
    else if ltb caps.namespace.max_staged_bytes (usage.namespace_staged_bytes + amount_bytes)
    then limit
    else allowed
