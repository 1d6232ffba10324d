-- ===== src/Content/ArchiveGate.antt =====
-- `ArchiveGate` of apps/api/src/vfs/archive-gate.ts. A lease is known by its place among all leases; the
-- flag of each says whether it was released.
use storix.Base.{
  ℕ, zero, suc, ◌+◌, ◌-◌, ◌≤◌, ◌≡◌, refl, Bool, true, false, Option, none, some, List, [], ◌∷◌,
  ◌++◌, leb, ltb, if◌then◌else◌, arith, length,
}

pub record Gate : Type 0 where
  pub limit : ℕ
  pub active : ℕ
  pub released : List Bool

-- The constructor refuses a limit below 1.
unfoldable pub new_gate : (limit : ℕ) → Option Gate
new_gate limit =
    if ltb limit 1 then none else some (record { limit = limit; active = 0; released = [] })

-- The place of the new lease, or none without waiting.
unfoldable pub try_acquire : Gate → Option ℕ × Gate
try_acquire gate = if leb gate.limit gate.active then (none, gate) else (
  some (length gate.released),
  record gate { active = suc gate.active; released = gate.released ++ false ∷ [] },
)

unfoldable pub is_released : List Bool → ℕ → Bool
is_released [] i = true
is_released (r ∷ rs) zero = r
is_released (r ∷ rs) (suc i) = is_released rs i

unfoldable pub set_released : List Bool → ℕ → List Bool
set_released [] i = []
set_released (r ∷ rs) zero = true ∷ rs
set_released (r ∷ rs) (suc i) = r ∷ set_released rs i

-- `release` of a lease: only the first call counts.
unfoldable pub release : ℕ → Gate → Gate
unfolding is_released set_released
release lease gate =
    if is_released gate.released lease
    then gate
    else record gate { active = gate.active - 1; released = set_released gate.released lease }

pub data Use : Type 0 where
  acquires : Use
  releases : (lease : ℕ) → Use

unfoldable pub use_gate : List Use → Gate → Gate
unfolding try_acquire release
use_gate [] gate = gate
use_gate (acquires ∷ rest) gate = use_gate rest (try_acquire gate).1
use_gate (releases lease ∷ rest) gate = use_gate rest (release lease gate)

abbrev pub held_leases : List Bool → ℕ
held_leases [] = 0
held_leases (r ∷ rs) = (if r then 0 else 1) + held_leases rs

abbrev pub IsCounted : Gate → Type 0
IsCounted gate = (gate.active ≡ held_leases gate.released) × (gate.active ≤ gate.limit)

held_leases-append : (rs : List Bool) → held_leases (rs ++ false ∷ []) ≡ suc (held_leases rs)
held_leases-append [] = refl
held_leases-append (r ∷ rs) = ground (arith, held_leases-append rs)

held_leases-set_released :
    (rs : List Bool) (i : ℕ)
    → is_released rs i ≡ false
    → suc (held_leases (set_released rs i)) ≡ held_leases rs
unfolding is_released set_released
held_leases-set_released [] i e = cc
held_leases-set_released (r ∷ rs) zero e = ground arith
held_leases-set_released (r ∷ rs) (suc i) e = ground (arith, held_leases-set_released rs i e)

try_acquire-IsCounted : (gate : Gate) → IsCounted gate → IsCounted (try_acquire gate).1
unfolding try_acquire
try_acquire-IsCounted gate (same, below) =
    (ground (arith, held_leases-append gate.released), ground arith)

release-IsCounted : (lease : ℕ) (gate : Gate) → IsCounted gate → IsCounted (release lease gate)
unfolding release
release-IsCounted lease gate (same, below) =
    (ground (arith, held_leases-set_released gate.released lease), ground arith)

-- Under every sequence of requests and releases, repeated releases included, the count of active requests is
-- that of the leases that were not released, and stays within the limit, where it was so at the start.
pub use_gate-IsCounted :
    (uses : List Use) (gate : Gate) → IsCounted gate → IsCounted (use_gate uses gate)
unfolding use_gate
use_gate-IsCounted [] gate h = h
use_gate-IsCounted (acquires ∷ rest) gate h =
    use_gate-IsCounted rest (try_acquire gate).1 (try_acquire-IsCounted gate h)
use_gate-IsCounted (releases lease ∷ rest) gate h =
    use_gate-IsCounted rest (release lease gate) (release-IsCounted lease gate h)
