-- ===== src/Receipt/Claim.antt =====
-- `claim` and `tryClaim` of apps/api/src/persistence/vfs-mutation-receipt.repository.ts. The
-- statements of `tryClaim` are not one transaction: what other requests do to the row between two
-- of them is an argument.
use storix.Base.{ℕ, zero, suc, ◌+◌, ◌-◌, ◌/◌, max, Option, none, some, leb, if◌then◌else◌}
use storix.Receipt.Statements.{ReceiptState, Row, Slot, insert_claim, take_over, delete_expired}

pub data ReceiptClaim : Type 0 where
  owner : (generation : ℕ) → ReceiptClaim
  complete : Row → ReceiptClaim
  busy : (retry_after_seconds : ℕ) → ReceiptClaim

-- The database clock at the two statements that read it, and the changes that other requests make
-- after the first, the second and the third statement.
pub record Interference : Type 0 where
  pub insert_at : ℕ
  pub take_over_at : ℕ
  pub after_insert : Slot → Slot
  pub after_take_over : Slot → Slot
  pub after_read : Slot → Slot

abbrev pub max_claim_attempts : ℕ
max_claim_attempts = 3

-- `Math.max(1, Math.ceil((lease - now) / 1000))`; a lease in the past gives 1.
unfoldable pub retry_after_seconds : Option ℕ → ℕ → ℕ
retry_after_seconds none now = 1
retry_after_seconds (some lease) now = max 1 ((lease - now + 999) / 1000)

-- The row that is read after a takeover.
abbrev owner_of : Slot → Option ReceiptClaim
owner_of none = none
owner_of (some row) = some (owner row.generation)

-- The branches on the row that is read where neither statement took effect.
settle : ReceiptState → (now : ℕ) → (Slot → Slot) → Row → Slot → Option ReceiptClaim × Slot
unfolding retry_after_seconds
settle ReceiptState.complete now after_read row slot =
    if leb row.expires_at now
    then (none, (delete_expired now (after_read slot)).1)
    else (some (ReceiptClaim.complete row), slot)
settle ReceiptState.reserved now after_read row slot =
    (some (busy (retry_after_seconds row.lease_expires_at now)), slot)

reread : (now : ℕ) → (Slot → Slot) → Slot → Option ReceiptClaim × Slot
unfolding settle
reread now after_read none = (none, none)
reread now after_read (some row) = settle row.state now after_read row (some row)

unfoldable pub try_claim : (lease now : ℕ) → Interference → Slot → Option ReceiptClaim × Slot
unfolding reread insert_claim take_over delete_expired
try_claim lease now others slot =
    let (inserted, slot₁) = insert_claim lease now others.insert_at slot in
    if inserted
    then (some (owner 1), slot₁)
    else (let (taken, slot₂) = take_over lease others.take_over_at (others.after_insert slot₁) in
        let slot₃ = others.after_take_over slot₂ in
        if taken then (owner_of slot₃, slot₃) else reread now others.after_read slot₃)

-- The loop of `claim` over the attempts that are left, each with its own interference.
claim_from : (attempts : ℕ) → (lease now : ℕ) → (ℕ → Interference) → Slot → ReceiptClaim × Slot
claim_from zero lease now others slot = (busy 1, slot)
claim_from (suc attempts) lease now others slot =
    let (result, slot') = try_claim lease now (others attempts) slot in
    elim result [ some c ↦ (c, slot') | none ↦ claim_from attempts lease now others slot' ]

unfoldable pub claim : (lease now : ℕ) → (ℕ → Interference) → Slot → ReceiptClaim × Slot
unfolding claim_from try_claim
claim = claim_from max_claim_attempts
