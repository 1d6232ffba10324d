-- ===== src/Sessions/Queries.antt =====
-- The reads of the repository. A page is the first `batch_size` rows after a cursor, in the order of the
-- query.
use storix.Base.{
  ℕ, Bool, true, false, not, ◌&&◌, ◌||◌, Option, none, some, List, [], ◌∷◌, ◌++◌, ltb, ◌==◌,
  if◌then◌else◌, length, map,
}
use storix.Base.Rows.{rows_where}
use storix.Base.Sort.{sort_by, take}
use storix.Upload.Policy.{PartState, is_stored}
use storix.Sessions.Tables.{
  Part, Session, Tombstone, UsageCounters, Store, is_open, is_live, is_reserved, is_cleanup,
  is_deleted, is_past, is_none, find_session, find_part, has_staging_key,
}
use storix.Sessions.Staging.{find_tombstone, is_lapsed}
use storix.Sessions.Lifecycle.{in_namespace}
use storix.Sessions.Finalize.{stored_parts}

abbrev with_parts : (List Part → List Part) → Option Session → Option (Session × List Part)
with_parts f none = none
with_parts f (some x) = some (x, f x.parts)

unfoldable pub find_for_status : (ns id : ℕ) → Store → Option (Session × List Part)
unfolding find_session stored_parts
find_for_status ns id s = with_parts stored_parts (in_namespace ns (find_session id s))

unfoldable pub find_status_snapshot : (ns id : ℕ) → Store → Option (Session × List Part)
unfolding find_session sort_by
find_status_snapshot ns id s =
    with_parts (sort_by (λ a b. ltb a.part_index b.part_index))
      (in_namespace ns (find_session id s))

-- The condition of the join in `findStoredPartWithExpiry`.
abbrev pub is_stored_as : ℕ → Part → Bool
is_stored_as key part =
    part.staging_key == key && (is_stored part.state && not (is_none part.digest))

abbrev pub stored_in : (key : ℕ) → Option Session → Option Part → Option (Part × ℕ)
stored_in key (some x) (some part) =
    if is_stored_as key part then some (part, x.expires_at) else none
stored_in key _ _ = none

-- The part, and the time at which its session expires.
unfoldable pub find_stored_part_with_expiry : (id index key : ℕ) → Store → Option (Part × ℕ)
unfolding find_session find_part
find_stored_part_with_expiry id index key s =
    stored_in key (find_session id s) (find_part id index s)

abbrev pub Cursor : Type 0
Cursor = Option (ℕ × ℕ)

-- `a > after.a OR (a = after.a AND b > after.b)`, and no condition without a cursor.
abbrev pub is_after : Cursor → ℕ → ℕ → Bool
is_after none a b = true
is_after (some (x, y)) a b = ltb x a || a == x && ltb y b

abbrev pub in_order : ℕ → ℕ → ℕ → ℕ → Bool
in_order a b a' b' = ltb a a' || a == a' && ltb b b'

unfoldable pub find_expired_open_sessions : (now batch_size : ℕ) → Cursor → Store → List Session
unfolding take sort_by rows_where
find_expired_open_sessions now batch_size after s = take batch_size (
    sort_by (λ a b. in_order a.expires_at a.id b.expires_at b.id)
      (rows_where (λ x. (is_open x.state && is_past x now) && is_after after x.expires_at x.id)
        s.sessions))

-- Every part with the id of its session and whether that has ended.
unfoldable pub all_parts : List Session → List (ℕ × Bool × Part)
all_parts [] = []
all_parts (x ∷ rest) = map (λ p. (x.id, not (is_live x.state), p)) x.parts ++ all_parts rest

abbrev needs_cleanup : Bool → Part → Bool
needs_cleanup ended part = is_cleanup part.state || ended && is_stored part.state

unfoldable pub find_cleanup_parts : (batch_size : ℕ) → Cursor → Store → List (ℕ × Part)
unfolding take sort_by rows_where all_parts
find_cleanup_parts batch_size after s =
    map (λ (id, _, p). (id, p))
      (take batch_size (
        sort_by (λ (a, _, p) (b, _, q). in_order a p.part_index b q.part_index)
          (rows_where (λ (id, ended, p). needs_cleanup ended p && is_after after id p.part_index)
            (all_parts s.sessions))))

abbrev cleanup_state : ℕ → Option Session → Option Part → Option PartState
cleanup_state key (some x) (some p) =
    if p.staging_key == key && needs_cleanup (not (is_live x.state)) p then some p.state else none
cleanup_state key _ _ = none

unfoldable pub find_cleanup_part : (id index key : ℕ) → Store → Option PartState
unfolding find_session find_part
find_cleanup_part id index key s = cleanup_state key (find_session id s) (find_part id index s)

unfoldable pub find_expired_reserved_parts : (now batch_size : ℕ) → Cursor → Store → List (ℕ × Part)
unfolding take sort_by rows_where all_parts
find_expired_reserved_parts now batch_size after s =
    map (λ (id, _, p). (id, p))
      (take batch_size (
        sort_by (λ (a, _, p) (b, _, q). in_order a p.part_index b q.part_index)
          (rows_where
            (λ (id, _, p).
              (is_reserved p.state && is_lapsed p.lease_expires_at now)
              && is_after after id p.part_index)
            (all_parts s.sessions))))

abbrev key_after : Option ℕ → ℕ → Bool
key_after none key = true
key_after (some after) key = ltb after key

unfoldable pub find_cleanup_tombstones :
    (batch_size : ℕ) → (after : Option ℕ) → Store → List Tombstone
unfolding take sort_by rows_where
find_cleanup_tombstones batch_size after s = take batch_size (
    sort_by (λ a b. ltb a.staging_key b.staging_key)
      (rows_where (λ t. key_after after t.staging_key) s.tombstones))

abbrev settled_of : Option Tombstone → Option (Option ℕ)
settled_of none = none
settled_of (some t) = some t.put_settled_at

unfoldable pub find_cleanup_tombstone : (key : ℕ) → Store → Option (Option ℕ)
unfolding find_tombstone
find_cleanup_tombstone key s = settled_of (find_tombstone key s)

-- The members of a page that a part not DELETED or a tombstone has; the chunks of 1000 make no
-- difference to the set.
unfoldable pub owns_key : ℕ → List Session → Bool
unfolding has_staging_key rows_where
owns_key key [] = false
owns_key key (x ∷ rest) =
    has_staging_key key (rows_where (λ p. not (is_deleted p.state)) x.parts) || owns_key key rest

unfoldable pub find_known_staging_keys : List ℕ → Store → List ℕ
unfolding owns_key rows_where find_tombstone
find_known_staging_keys keys s =
    rows_where (λ key. owns_key key s.sessions || not (is_none (find_tombstone key s))) keys

unfoldable pub find_open_session_ids : (ns : ℕ) → Store → List ℕ
unfolding rows_where
find_open_session_ids ns s =
    map Session.id (rows_where (λ x. x.namespace_id == ns && is_open x.state) s.sessions)

unfoldable pub count_live_sessions : (ns : ℕ) → Store → ℕ
unfolding rows_where
count_live_sessions ns s =
    length (rows_where (λ x. x.namespace_id == ns && is_live x.state) s.sessions)

unfoldable pub count_sessions : (ns : ℕ) → Store → ℕ
unfolding rows_where
count_sessions ns s = length (rows_where (λ x. x.namespace_id == ns) s.sessions)

-- All tombstones, and those whose PUT has not settled.
unfoldable pub count_tombstones : (ns : ℕ) → Store → ℕ × ℕ
unfolding rows_where
count_tombstones ns s = (
  length (rows_where (λ t. t.namespace_id == ns) s.tombstones),
  length (rows_where (λ t. t.namespace_id == ns && is_none t.put_settled_at) s.tombstones),
)

unfoldable pub read_namespace_usage : (ns : ℕ) → Store → UsageCounters
read_namespace_usage ns s = s.usage (some ns)
