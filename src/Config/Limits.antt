-- ===== src/Config/Limits.antt =====
-- The resolution of defaults and ceilings in apps/api/src/common/resource-limit.ts,
-- apps/api/src/vfs/namespace-quota.ts and file-expiry-policy.ts. A variable is its number, behind the check
-- of its text, or `none` where it is absent or empty.
use storix.Base.{
  ℕ, ◌*◌, ◌≤◌, ◌≡◌, ◌↔◌, Option, none, some, ltb, if◌then◌else◌, Result, ok, err, min, arith,
}

pub data ConfigError : Type 0 where
  default_exceeds_ceiling ceiling_exceeds_maximum : ConfigError

-- `CountLimits`, `FileSizeLimits` and `LogicalByteLimits`.
pub record Resolved : Type 0 where
  pub default_value : ℕ
  pub ceiling_value : ℕ

-- `a ?? b`
abbrev pub or_value : Option ℕ → ℕ → ℕ
or_value none b = b
or_value (some a) b = a

abbrev pub or_option : Option ℕ → Option ℕ → Option ℕ
or_option none b = b
or_option (some a) b = some a

unfoldable pub resolve_limits :
    (default ceiling : Option ℕ) → (built_in : ℕ) → Result ConfigError Resolved
resolve_limits default ceiling built_in =
    let default_value = or_value (or_option default ceiling) built_in in
    let ceiling_value = or_value ceiling default_value in
    if ltb ceiling_value default_value
    then err default_exceeds_ceiling
    else ok (record { default_value = default_value; ceiling_value = ceiling_value })

unfoldable pub resolve_count_limits :
    (default ceiling : Option ℕ) → (built_in : ℕ) → Result ConfigError Resolved
unfolding resolve_limits
resolve_count_limits = resolve_limits

abbrev pub built_in_max_total_logical_bytes : ℕ
built_in_max_total_logical_bytes = 53687091200

unfoldable pub resolve_global_total_logical_byte_limits :
    (default ceiling : Option ℕ) → Result ConfigError Resolved
unfolding resolve_limits
resolve_global_total_logical_byte_limits default ceiling =
    resolve_limits default ceiling built_in_max_total_logical_bytes

-- 16 MiB in at most 10,000 parts.
abbrev pub max_object_bytes : ℕ
max_object_bytes = 16 * 1024 * 1024 * 10000

abbrev pub default_max_file_size_bytes : ℕ
default_max_file_size_bytes = 5368709120

abbrev pub at_most : ℕ → Result ConfigError Resolved → Result ConfigError Resolved
at_most maximum (err e) = err e
at_most maximum (ok limits) =
    if ltb maximum limits.ceiling_value then err ceiling_exceeds_maximum else ok limits

unfoldable pub resolve_file_size_limits : (default ceiling : Option ℕ) → Result ConfigError Resolved
unfolding resolve_limits
resolve_file_size_limits default ceiling =
    at_most max_object_bytes (resolve_limits default ceiling default_max_file_size_bytes)

-- The override of a namespace.
unfoldable pub resolve_effective_limit : Option ℕ → (ceiling default : ℕ) → ℕ
resolve_effective_limit none ceiling default = default
resolve_effective_limit (some value) ceiling default = min value ceiling

unfoldable pub resolve_max_file_size_bytes : Option ℕ → (global default : ℕ) → ℕ
unfolding resolve_effective_limit
resolve_max_file_size_bytes = resolve_effective_limit

pub data ExpiryError : Type 0 where
  maximum_exceeds_integer minimum_exceeds_maximum invalid_expiry : ExpiryError

pub record FileExpiryBounds : Type 0 where
  pub min_seconds : ℕ
  pub max_seconds : ℕ

abbrev pub max_file_expiry_seconds : ℕ
max_file_expiry_seconds = 2147483647

unfoldable pub resolve_file_expiry_bounds :
    (minimum maximum : Option ℕ) → Result ExpiryError FileExpiryBounds
resolve_file_expiry_bounds minimum maximum =
    let max_seconds = or_value maximum 2592000 in
    let min_seconds = or_value minimum 60 in
    if ltb max_file_expiry_seconds max_seconds
    then err maximum_exceeds_integer
    else if ltb max_seconds min_seconds
    then err minimum_exceeds_maximum
    else ok (record { min_seconds = min_seconds; max_seconds = max_seconds })

-- On a number that is not negative.
unfoldable pub parse_expiry_seconds : ℕ → Result ExpiryError ℕ
parse_expiry_seconds value =
    if ltb value 1
    then err invalid_expiry
    else if ltb max_file_expiry_seconds value
    then err invalid_expiry
    else ok value

abbrev pub within_bounds : FileExpiryBounds → Result ExpiryError ℕ → Result ExpiryError ℕ
within_bounds bounds (err e) = err e
within_bounds bounds (ok seconds) =
    if ltb seconds bounds.min_seconds
    then err invalid_expiry
    else if ltb bounds.max_seconds seconds
    then err invalid_expiry
    else ok seconds

unfoldable pub assert_expiry_seconds : ℕ → FileExpiryBounds → Result ExpiryError ℕ
unfolding parse_expiry_seconds
assert_expiry_seconds value bounds = within_bounds bounds (parse_expiry_seconds value)

-- Whatever the environment sets and whatever a namespace overrides, where the server starts the file size that
-- applies to a namespace is at most the ceiling, and an object of that size can be stored.
pub resolve_max_file_size_bytes-le :
    (default ceiling override : Option ℕ) (limits : Resolved)
    → resolve_file_size_limits default ceiling ≡ ok limits
    → (resolve_max_file_size_bytes override limits.ceiling_value limits.default_value
        ≤ limits.ceiling_value)
      × (limits.ceiling_value ≤ max_object_bytes)
unfolding resolve_file_size_limits resolve_limits resolve_max_file_size_bytes
resolve_max_file_size_bytes-le default ceiling none limits e = (ground arith, ground arith)
resolve_max_file_size_bytes-le default ceiling (some value) limits e = (ground arith, ground arith)

-- Where the server takes the bounds of the environment, a number of seconds is accepted exactly when it is
-- not 0 and between them; the column of 32 bits refuses none of these.
pub assert_expiry_seconds_iff :
    (minimum maximum : Option ℕ) (bounds : FileExpiryBounds) (value : ℕ)
    → resolve_file_expiry_bounds minimum maximum ≡ ok bounds
    → (assert_expiry_seconds value bounds ≡ ok value)
      ↔ ((1 ≤ value) × (bounds.min_seconds ≤ value) × (value ≤ bounds.max_seconds))
unfolding resolve_file_expiry_bounds assert_expiry_seconds parse_expiry_seconds
assert_expiry_seconds_iff minimum maximum bounds value e =
    (λ f. (ground arith, ground arith, ground arith), λ (above, from, to). ground arith)
