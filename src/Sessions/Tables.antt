-- ===== src/Sessions/Tables.antt =====
-- The tables behind apps/api/src/persistence/vfs-upload-session.repository.ts
-- (apps/api/src/persistence/entities/vfs-upload-*.entity.ts), transactions on them, and the usage
-- counters. Ids, staging keys, lease tokens and namespaces are numbers, a `Date` is its number of
-- milliseconds. Columns that are written at creation and only handed back are left out: the target,
-- the checksum, the MIME type, the condition, the request ids and the time stamps of creation and update.
-- Parts stand in their session, since the foreign key deletes them with it.
use storix.Base.{
  ℕ, String, Bool, true, false, not, ◌||◌, Option, none, some, List, [], ◌∷◌, ltb, leb, ◌==◌,
  if◌then◌else◌, Result, ok, err,
}
use storix.Base.Int.{ℤ, pos, negsuc, ◌+ℤ◌}
use storix.Base.Rows.{row_of, update_row, delete_row}
use storix.Upload.Policy.{PartState, reserved, stored, cleanup, deleted}

pub data SessionState : Type 0 where
  opened finalizing completed cancelled expired failed : SessionState

pub record Part : Type 0 where
  pub part_index : ℕ
  pub size_bytes : ℕ
  pub staging_key : ℕ
  pub digest : Option String
  pub encryption_iv : Option String
  pub state : PartState
  pub object_deleted_at : Option ℕ
  pub lease_expires_at : Option ℕ

pub record Session : Type 0 where
  pub id : ℕ
  pub namespace_id : ℕ
  pub scope : String
  pub creation_key : ℕ
  pub fingerprint : String
  pub size_bytes : ℕ
  pub part_count : ℕ
  pub state : SessionState
  pub lease_expires_at : Option ℕ
  pub lease_token : Option ℕ
  pub expires_at : ℕ
  pub max_expires_at : ℕ
  pub terminal_at : Option ℕ
  pub response : Option (ℕ × String)
  pub last_complete_failure : Option (String × ℕ)
  pub parts : List Part

-- A row of vfs_upload_staging_cleanup.
pub record Tombstone : Type 0 where
  pub staging_key : ℕ
  pub session_id : ℕ
  pub part_index : ℕ
  pub namespace_id : ℕ
  pub size_bytes : ℕ
  pub deleted_at : Option ℕ
  pub put_settled_at : Option ℕ

pub record UsageCounters : Type 0 where
  pub active_sessions : ℕ
  pub staged_bytes : ℕ

-- The usage rows by their key: `none` is 'global', `some n` is 'ns:n'. The row of a namespace is
-- inserted with zeros where it is absent, which here is no difference. `namespaces` are the ids with
-- whether the status is ACTIVE.
pub record Store : Type 0 where
  pub sessions : List Session
  pub tombstones : List Tombstone
  pub usage : Option ℕ → UsageCounters
  pub namespaces : List (ℕ × Bool)

-- `counter_check` is the CHECK that a counter is not negative, `constraint` a primary, unique or
-- foreign key, the rest the errors that the code throws.
pub data SessionError : Type 0 where
  namespace_not_found : ℕ → SessionError
  claim_lost part_changed counter_check constraint : SessionError

-- A transaction; one that throws is rolled back.
abbrev pub M : Type 0 → Type 0
M A = Store → Result SessionError (A × Store)

abbrev pub then_do :
    {A B : Type 0} → (A → M B) → Result SessionError (A × Store) → Result SessionError (B × Store)
then_do f (err e) = err e
then_do f (ok (a, s)) = f a s

infixl 5 ◌>>=◌ ◌>>◌
abbrev pub ◌>>=◌ : {A B : Type 0} → M A → (A → M B) → M B
◌>>=◌ m f s = then_do f (m s)

abbrev pub ◌>>◌ : {B : Type 0} → M (Unit {0}) → M B → M B
m >> k = m >>= λ _. k

abbrev pub pure : {A : Type 0} → A → M A
pure a s = ok (a, s)

abbrev pub throw : {A : Type 0} → SessionError → M A
throw e s = err e

-- What follows a statement: where it affected its row, and where it did not.
abbrev pub on_affected : {A : Type 0} → M A → M A → Bool → M A
on_affected m k true = m
on_affected m k false = k

abbrev pub is_open : SessionState → Bool
is_open opened = true
is_open _ = false

abbrev pub is_finalizing : SessionState → Bool
is_finalizing finalizing = true
is_finalizing _ = false

-- OPEN or FINALIZING, and the four other states.
abbrev pub is_live : SessionState → Bool
is_live opened = true
is_live finalizing = true
is_live _ = false

abbrev pub is_reserved : PartState → Bool
is_reserved reserved = true
is_reserved _ = false

abbrev pub is_cleanup : PartState → Bool
is_cleanup cleanup = true
is_cleanup _ = false

abbrev pub is_deleted : PartState → Bool
is_deleted deleted = true
is_deleted _ = false

abbrev pub same_state : PartState → PartState → Bool
same_state reserved b = is_reserved b
same_state stored stored = true
same_state stored _ = false
same_state cleanup b = is_cleanup b
same_state deleted b = is_deleted b

-- `lease > now` and `lease <= now` on a nullable column: a comparison with NULL is not true.
abbrev pub is_lease_live : Option ℕ → ℕ → Bool
is_lease_live none now = false
is_lease_live (some lease) now = ltb now lease

abbrev pub lease_stale : Option ℕ → ℕ → Bool
lease_stale none now = false
lease_stale (some lease) now = leb lease now

abbrev pub is_equal : Option ℕ → ℕ → Bool
is_equal none token = false
is_equal (some held) token = held == token

-- `expiresAt <= now || maxExpiresAt <= now`
abbrev pub is_past : Session → ℕ → Bool
is_past x now = leb x.expires_at now || leb x.max_expires_at now

unfoldable pub has_namespace : ℕ → List (ℕ × Bool) → Bool
has_namespace ns [] = false
has_namespace ns ((id, active) ∷ rest) = if id == ns then true else has_namespace ns rest

unfoldable pub is_active : ℕ → List (ℕ × Bool) → Bool
is_active ns [] = false
is_active ns ((id, active) ∷ rest) = if id == ns then active else is_active ns rest

-- The INSERT of a usage row fails on a namespace that does not exist. The rows read are 'global' and
-- that of the namespace.
unfoldable pub lock_usage : ℕ → M (UsageCounters × UsageCounters)
unfolding has_namespace
lock_usage ns s =
    if has_namespace ns s.namespaces
    then ok ((s.usage none, s.usage (some ns)), s)
    else err constraint

unfoldable pub assert_namespace_active : ℕ → M (Unit {0})
unfolding is_active
assert_namespace_active ns s =
    if is_active ns s.namespaces then ok (tt, s) else err (namespace_not_found ns)

pub data UsageField : Type 0 where
  active_sessions staged_bytes : UsageField

abbrev pub read_field : UsageField → UsageCounters → ℕ
read_field active_sessions u = u.active_sessions
read_field staged_bytes u = u.staged_bytes

abbrev pub set_field : UsageField → ℕ → UsageCounters → UsageCounters
set_field active_sessions n u = record u { active_sessions = n }
set_field staged_bytes n u = record u { staged_bytes = n }

abbrev pub same_key : Option ℕ → Option ℕ → Bool
same_key none none = true
same_key (some a) (some b) = a == b
same_key _ _ = false

abbrev pub set_counter : Option ℕ → UsageField → ℤ → M (Unit {0})
set_counter key field (negsuc n) s = err counter_check
set_counter key field (pos n) s = ok (
  tt,
  record s { usage = λ k. if same_key k key then set_field field n (s.usage k) else s.usage k },
)

-- `column = column + amount` on one row.
unfoldable pub change_row : Option ℕ → UsageField → ℤ → M (Unit {0})
change_row key field amount s =
    set_counter key field (pos (read_field field (s.usage key)) +ℤ amount) s

unfoldable pub change_usage : ℕ → UsageField → ℤ → M (Unit {0})
unfolding change_row
change_usage ns field amount = change_row none field amount >> change_row (some ns) field amount

unfoldable pub find_session : ℕ → Store → Option Session
unfolding row_of
find_session id s = row_of Session.id id s.sessions

unfoldable pub find_part_row : ℕ → Session → Option Part
unfolding row_of
find_part_row index x = row_of Part.part_index index x.parts

-- UPDATE of one session, by its id and a condition, with whether it affected a row.
abbrev pub update_found : ℕ → Option Session → (Session → Bool) → (Session → Session) → M Bool
update_found id none test f s = ok (false, s)
update_found id (some x) test f s =
    if test x
    then ok (true, record s { sessions = update_row Session.id id f s.sessions })
    else ok (false, s)

unfoldable pub update_session : ℕ → (Session → Bool) → (Session → Session) → M Bool
unfolding find_session
update_session id test f s = update_found id (find_session id s) test f s

-- The statements on a part, which stands in its session.
abbrev pub set_parts : (List Part → List Part) → Session → Session
set_parts f x = record x { parts = f x.parts }

unfoldable pub put_parts : ℕ → (List Part → List Part) → M (Unit {0})
put_parts id f s =
    ok (tt, record s { sessions = update_row Session.id id (set_parts f) s.sessions })

-- UPDATE and DELETE of one part by its key and a condition, with whether it affected a row.
abbrev pub found_part : ℕ → Option Session → Option Part
found_part index none = none
found_part index (some x) = find_part_row index x

abbrev pub change_found : ℕ → (Part → Bool) → (List Part → List Part) → Option Part → M Bool
change_found id test f none s = ok (false, s)
change_found id test f (some part) s =
    if test part
    then ok (true, record s { sessions = update_row Session.id id (set_parts f) s.sessions })
    else ok (false, s)

unfoldable pub find_part : ℕ → ℕ → Store → Option Part
unfolding find_session find_part_row
find_part id index s = found_part index (find_session id s)

unfoldable pub update_part_where : ℕ → ℕ → (Part → Bool) → (Part → Part) → M Bool
unfolding find_part
update_part_where id index test f s =
    change_found id test (update_row Part.part_index index f) (find_part id index s) s

unfoldable pub delete_part_where : ℕ → ℕ → (Part → Bool) → M Bool
unfolding find_part
delete_part_where id index test s =
    change_found id test (delete_row Part.part_index index) (find_part id index s) s

unfoldable pub has_staging_key : ℕ → List Part → Bool
has_staging_key key [] = false
has_staging_key key (part ∷ rest) = part.staging_key == key || has_staging_key key rest

unfoldable pub is_key_used : ℕ → List Session → Bool
unfolding has_staging_key
is_key_used key [] = false
is_key_used key (x ∷ rest) = has_staging_key key x.parts || is_key_used key rest

abbrev pub is_none {ℓ} : {A : Type ℓ} → Option A → Bool
is_none none = true
is_none (some a) = false

-- The primary key is the session and the index, and the staging key is unique in the table.
unfoldable pub insert_part : ℕ → Part → M (Unit {0})
unfolding put_parts is_key_used find_part
insert_part id part s =
    if is_key_used part.staging_key s.sessions || not (is_none (find_part id part.part_index s))
    then err constraint
    else put_parts id (λ ps. part ∷ ps) s

unfoldable pub update_tombstone : ℕ → (Tombstone → Tombstone) → M (Unit {0})
update_tombstone key f s =
    ok (tt, record s { tombstones = update_row Tombstone.staging_key key f s.tombstones })

unfoldable pub delete_tombstone : ℕ → M (Unit {0})
delete_tombstone key s =
    ok (tt, record s { tombstones = delete_row Tombstone.staging_key key s.tombstones })

-- The primary key of the table.
unfoldable pub insert_tombstone : Tombstone → M (Unit {0})
insert_tombstone t s =
    if is_none (row_of Tombstone.staging_key t.staging_key s.tombstones)
    then ok (tt, record s { tombstones = t ∷ s.tombstones })
    else err constraint
