-- ===== src/Config/Tests.antt =====
-- Limits at concrete settings.
use storix.Base.{◌≤◌, ◌≡◌, ◌↔◌, refl, none, some, ok}
use storix.Config.Limits.{
  Resolved, resolve_file_size_limits, resolve_max_file_size_bytes, max_object_bytes,
  resolve_max_file_size_bytes-le, FileExpiryBounds, resolve_file_expiry_bounds,
  assert_expiry_seconds, assert_expiry_seconds_iff,
}

abbrev sizes : Resolved
sizes = record { default_value = 100; ceiling_value = 2000 }

resolve_sizes : resolve_file_size_limits (some 100) (some 2000) ≡ ok sizes
unfolding resolve_file_size_limits
resolve_sizes = refl

resolve_max_file_size_bytes-le_example :
    (resolve_max_file_size_bytes (some 3000) 2000 100 ≤ 2000) × (2000 ≤ max_object_bytes)
resolve_max_file_size_bytes-le_example =
    resolve_max_file_size_bytes-le (some 100) (some 2000) (some 3000) sizes resolve_sizes

abbrev bounds : FileExpiryBounds
bounds = record { min_seconds = 60; max_seconds = 90 }

resolve_bounds : resolve_file_expiry_bounds none (some 90) ≡ ok bounds
unfolding resolve_file_expiry_bounds
resolve_bounds = refl

assert_expiry_seconds_iff_example :
    (assert_expiry_seconds 70 bounds ≡ ok 70) ↔ ((1 ≤ 70) × (60 ≤ 70) × (70 ≤ 90))
assert_expiry_seconds_iff_example =
    assert_expiry_seconds_iff none (some 90) bounds 70 resolve_bounds
