-- ===== src/Receipt/Statements.antt =====
-- The SQL statements of apps/api/src/persistence/vfs-mutation-receipt.repository.ts, each atomic.
-- (namespace_id, scope, idempotency_key) is the primary key of the table and every statement names
-- it, so the model is the row of one key, or its absence. `db_now` is the clock of the database at
-- the statement and `now` the clock of the server, both in milliseconds; the lease is given in
-- milliseconds too. The stored response is kept whole, as one value; its serialisation and the
-- column `updated_at` are left out.
use storix.Base.{
  ℕ, ◌+◌, ◌*◌, Bool, true, false, ◌&&◌, ◌||◌, Option, none, some, leb, ltb, ◌==◌, if◌then◌else◌,
  String,
}

pub data ReceiptState : Type 0 where
  reserved complete : ReceiptState

-- What `completeWith` stores beside the state.
pub record Stored : Type 0 where
  pub method : String
  pub fingerprint : String
  pub status : ℕ
  pub body : String
  pub headers : String
  pub request_body_bytes : Option ℕ

pub record Row : Type 0 where
  pub state : ReceiptState
  pub generation : ℕ
  pub lease_expires_at : Option ℕ
  pub expires_at : ℕ
  pub stored : Option Stored

abbrev pub Slot : Type 0
Slot = Option Row

-- RECEIPT_DAYS * 86400_000
abbrev pub receipt_ms : ℕ
receipt_ms = 30 * 86400000

abbrev pub is_reserved : ReceiptState → Bool
is_reserved reserved = true
is_reserved complete = false

abbrev pub is_complete : ReceiptState → Bool
is_complete reserved = false
is_complete complete = true

-- `lease_expires_at <= now` and `lease_expires_at > now`: a comparison with NULL is not true.
abbrev pub lease_expired : Option ℕ → ℕ → Bool
lease_expired none db_now = false
lease_expired (some lease) db_now = leb lease db_now

abbrev pub lease_live : Option ℕ → ℕ → Bool
lease_live none db_now = false
lease_live (some lease) db_now = ltb db_now lease

-- Each statement returns whether it affected the row.
unfoldable pub insert_claim : (lease now db_now : ℕ) → Slot → Bool × Slot
insert_claim lease now db_now none = (
  true,
  some (record {
    state = reserved;
    generation = 1;
    lease_expires_at = some (db_now + lease);
    expires_at = now + receipt_ms;
    stored = none;
  }),
)
insert_claim lease now db_now (some row) = (false, some row)

unfoldable pub take_over : (lease db_now : ℕ) → Slot → Bool × Slot
take_over lease db_now none = (false, none)
take_over lease db_now (some row) =
    if is_reserved row.state && lease_expired row.lease_expires_at db_now
    then (
      true,
      some (record row {
        generation = row.generation + 1;
        lease_expires_at = some (db_now + lease);
      }),
    )
    else (false, some row)

unfoldable pub renew : (lease generation db_now : ℕ) → Slot → Bool × Slot
renew lease generation db_now none = (false, none)
renew lease generation db_now (some row) =
    if is_reserved row.state && row.generation == generation
    then (true, some (record row { lease_expires_at = some (db_now + lease) }))
    else (false, some row)

-- `completeWith` throws `claim lost` where the statement affects no row.
unfoldable pub complete_with : (generation : ℕ) → Stored → (db_now : ℕ) → Slot → Bool × Slot
complete_with generation response db_now none = (false, none)
complete_with generation response db_now (some row) =
    if is_reserved row.state
      && (row.generation == generation && lease_live row.lease_expires_at db_now)
    then (
      true,
      some (record row {
        state = complete;
        lease_expires_at = none;
        expires_at = db_now + receipt_ms;
        stored = some response;
      }),
    )
    else (false, some row)

unfoldable pub release : (generation : ℕ) → Slot → Bool × Slot
release generation none = (false, none)
release generation (some row) =
    if is_reserved row.state && row.generation == generation
    then (true, none)
    else (false, some row)

-- The DELETE of `tryClaim` on a receipt that has passed its retention.
unfoldable pub delete_expired : (now : ℕ) → Slot → Bool × Slot
delete_expired now none = (false, none)
delete_expired now (some row) =
    if is_complete row.state && leb row.expires_at now then (true, none) else (false, some row)

-- The DELETE of `pruneExpired` on one row that it selected.
unfoldable pub prune : (now db_now : ℕ) → Slot → Bool × Slot
prune now db_now none = (false, none)
prune now db_now (some row) =
    if is_complete row.state && leb row.expires_at now
      || is_reserved row.state
        && (leb row.expires_at now && lease_expired row.lease_expires_at db_now)
    then (true, none)
    else (false, some row)
