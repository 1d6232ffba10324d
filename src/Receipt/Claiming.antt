-- ===== src/Receipt/Claiming.antt =====
-- About `claim` when no other request touches the row.
use storix.Base.{ℕ, ◌+◌, ◌≡◌, refl, none, some, if◌then◌else◌, leb, arith}
use storix.Receipt.Statements.{
  ReceiptState, Row, Slot, receipt_ms, lease_expired, insert_claim, take_over, delete_expired,
}
use storix.Receipt.Claim.{ReceiptClaim, owner, busy, Interference, retry_after_seconds, claim}

abbrev pub quiet : ℕ → ℕ → Interference
quiet db_now attempts = record {
  insert_at = db_now;
  take_over_at = db_now;
  after_insert = λ slot. slot;
  after_take_over = λ slot. slot;
  after_read = λ slot. slot;
}

abbrev pub fresh_row : (lease now db_now : ℕ) → Row
fresh_row lease now db_now = record {
  state = ReceiptState.reserved;
  generation = 1;
  lease_expires_at = some (db_now + lease);
  expires_at = now + receipt_ms;
  stored = none;
}

-- What the documentation of `claim` promises for each state of the row.
abbrev pub claim_of : (lease now db_now : ℕ) → Slot → ReceiptClaim × Slot
claim_of lease now db_now none = (owner 1, some (fresh_row lease now db_now))
claim_of lease now db_now (some row) = by_state row.state
  where
    by_state : ReceiptState → ReceiptClaim × Slot
    by_state ReceiptState.reserved =
        if lease_expired row.lease_expires_at db_now
        then (
          owner (row.generation + 1),
          some (record row {
            generation = row.generation + 1;
            lease_expires_at = some (db_now + lease);
          }),
        )
        else (busy (retry_after_seconds row.lease_expires_at now), some row)
    by_state ReceiptState.complete =
        if leb row.expires_at now
        then (owner 1, some (fresh_row lease now db_now))
        else (ReceiptClaim.complete row, some row)

-- Without interference `claim` answers within its three attempts, on every state of the row: a free
-- key and a complete receipt past its retention are claimed with generation 1, an expired lease is
-- taken over with the next generation, a live lease answers busy and leaves the row, and a complete
-- receipt is returned and left as it is.
pub claim-quiet :
    (lease now db_now : ℕ) (slot : Slot)
    → claim lease now (quiet db_now) slot ≡ claim_of lease now db_now slot
unfolding claim insert_claim take_over delete_expired
claim-quiet lease now db_now none = refl
claim-quiet lease now db_now (some row) = ground arith
