-- ===== src/Sessions/Rows.antt =====
-- Changes of rows: they keep the keys, and move the totals by what a namespace then owes.
use storix.Base.{
  ℕ, ◌+◌, Bool, true, Option, none, some, List, [], ◌∷◌, if◌then◌else◌, ◌≡◌, ◌≢◌, refl, inl, inr,
  Bool-cases, arith, sym, ◌∙◌,
}
use storix.Base.Int.{ℤ, pos, pos_part, neg_part, sub_ℕ, sub_ℕ_parts}
use storix.Base.Rows.{
  sum_of, AllRows, HasKey, AllRows-map, row_of, update_row, delete_row, sum_of-update_row,
  sum_of-delete_row,
}
use storix.Base.Keys.{
  HasKey-update_row, HasKey-delete_row, AllRows-update_row, AllRows-delete_row,
  AllRows-update_row_at,
}
use storix.Sessions.Tables.{
  Part, Session, Tombstone, Store, is_live, UsageField, active_sessions, staged_bytes, set_parts,
}
use storix.Sessions.Books.{
  covers, hits, live_weight, part_weight, staged_weight, tombstone_weight, SameHome, IsKeyed,
  IsBalanced, IsAccounted, Owes,
}

abbrev pub with_sessions : List Session → Store → Store
with_sessions xs s = record s { sessions = xs }

abbrev pub with_tombstones : List Tombstone → Store → Store
with_tombstones ts s = record s { tombstones = ts }

-- A part of a sum that one session has.
abbrev pub session_weight : UsageField → Option ℕ → Session → ℕ
session_weight active_sessions key x = live_weight key x
session_weight staged_bytes key x = staged_weight key x

-- An amount is a difference: `before` and `amount` are `after`.
abbrev pub Differ : (before after : ℕ) → ℤ → Type 0
Differ before after amount = before + pos_part amount ≡ after + neg_part amount

pub Owes-IsBalanced :
    (ns : ℕ) (field : UsageField) (s : Store) → Owes ns field (pos 0) s → IsBalanced s
Owes-IsBalanced ns field s owes f key = elim (Bool-cases (hits field ns f key)) [
  | inl yes' ↦ omega (arith, rw yes' at (owes f key))
  | inr no' ↦ omega (arith, rw no' at (owes f key))
]

module _ (s : Store) (id : ℕ) (f : Session → Session) where
  pub update_row-IsKeyed :
      ((x : Session) → (f x).id ≡ x.id)
      → ((x : Session) → (f x).namespace_id ≡ x.namespace_id)
      → ((x : Session) → HasKey Part.part_index x.parts → HasKey Part.part_index (f x).parts)
      → IsKeyed s
      → IsKeyed (with_sessions (update_row Session.id id f s.sessions) s)
  update_row-IsKeyed same_id same_ns keep (ids, parts, keys, homes) = (
    HasKey-update_row Session.id s.sessions id f same_id ids,
    AllRows-update_row Session.id _ s.sessions id f keep parts,
    keys,
    AllRows-map _ _ s.tombstones
        (λ t home.
          AllRows-update_row Session.id (SameHome t) s.sessions id f
            (λ x h e. same_ns x ∙ h (sym (same_id x) ∙ e)) home)
        homes,
  )

  module _ (x : Session) (ns : ℕ) (field : UsageField) (amount : ℤ) where
    update_row-Owes :
        IsAccounted s
        → row_of Session.id id s.sessions ≡ some x
        → ((g : UsageField) (key : Option ℕ)
            → session_weight g key x + (if hits field ns g key then pos_part amount else 0)
              ≡ session_weight g key (f x) + (if hits field ns g key then neg_part amount else 0))
        → Owes ns field amount (with_sessions (update_row Session.id id f s.sessions) s)
    update_row-Owes (keyed, balanced) found moved active_sessions key = omega (
      arith,
      balanced active_sessions key,
      moved active_sessions key,
      sum_of-update_row Session.id (live_weight key) s.sessions id f x keyed.0 found,
    )
    update_row-Owes (keyed, balanced) found moved staged_bytes key = omega (
      arith,
      balanced staged_bytes key,
      moved staged_bytes key,
      sum_of-update_row Session.id (staged_weight key) s.sessions id f x keyed.0 found,
    )

abbrev pub one_if : Bool → ℕ
one_if b = if b then 1 else 0

-- A session's own columns: its namespace is charged for the change of its state.
module _ (s : Store) (id : ℕ) (f : Session → Session) (x : Session) where
  pub session-Owes :
      (amount : ℤ)
      → ((y : Session) → (f y).namespace_id ≡ y.namespace_id)
      → ((y : Session) → (f y).parts ≡ y.parts)
      → IsAccounted s
      → row_of Session.id id s.sessions ≡ some x
      → Differ (one_if (is_live x.state)) (one_if (is_live (f x).state)) amount
      → Owes x.namespace_id active_sessions amount
          (with_sessions (update_row Session.id id f s.sessions) s)
  session-Owes amount same_ns same_parts h found moved =
      update_row-Owes s id f x x.namespace_id active_sessions amount h found at
    where
      at :
          (g : UsageField) (key : Option ℕ)
          → session_weight g key x
              + (if hits active_sessions x.namespace_id g key then pos_part amount else 0)
            ≡ session_weight g key (f x)
              + (if hits active_sessions x.namespace_id g key then neg_part amount else 0)
      at active_sessions key = rw (same_ns x) (elim (Bool-cases (covers key x.namespace_id)) [
        | inl yes' ↦ rw yes' moved
        | inr no' ↦ rw no' refl
      ])
      at staged_bytes key = rw (same_ns x, same_parts x) refl

  -- The parts of a session: its namespace is charged for their bytes.
  pub parts-Owes :
      (g : List Part → List Part) (amount : ℤ)
      → IsAccounted s
      → row_of Session.id id s.sessions ≡ some x
      → Differ (sum_of part_weight x.parts) (sum_of part_weight (g x.parts)) amount
      → Owes x.namespace_id staged_bytes amount
          (with_sessions (update_row Session.id id (set_parts g) s.sessions) s)
  parts-Owes g amount h found moved =
      update_row-Owes s id (set_parts g) x x.namespace_id staged_bytes amount h found at
    where
      at :
          (f' : UsageField) (key : Option ℕ)
          → session_weight f' key x
              + (if hits staged_bytes x.namespace_id f' key then pos_part amount else 0)
            ≡ session_weight f' key (set_parts g x)
              + (if hits staged_bytes x.namespace_id f' key then neg_part amount else 0)
      at active_sessions key = refl
      at staged_bytes key = elim (Bool-cases (covers key x.namespace_id)) [
        | inl yes' ↦ rw yes' moved
        | inr no' ↦ rw no' refl
      ]

pub parts-IsKeyed :
    (s : Store) (id : ℕ) (g : List Part → List Part)
    → ((ps : List Part) → HasKey Part.part_index ps → HasKey Part.part_index (g ps))
    → IsKeyed s
    → IsKeyed (with_sessions (update_row Session.id id (set_parts g) s.sessions) s)
parts-IsKeyed s id g keep keyed =
    update_row-IsKeyed s id (set_parts g) (λ x. refl) (λ x. refl) (λ x. keep x.parts) keyed

-- A tombstone: the namespace in its row is charged.
module _ (s : Store) (key : ℕ) (t : Tombstone) where
  pub update_tombstone-IsAccounted :
      (f : Tombstone → Tombstone)
      → ((y : Tombstone) → (f y).staging_key ≡ y.staging_key)
      → ((y : Tombstone) → (f y).namespace_id ≡ y.namespace_id)
      → ((y : Tombstone) → (f y).session_id ≡ y.session_id)
      → ((y : Tombstone) → (f y).size_bytes ≡ y.size_bytes)
      → IsAccounted s
      → row_of Tombstone.staging_key key s.tombstones ≡ some t
      → IsAccounted (with_tombstones (update_row Tombstone.staging_key key f s.tombstones) s)
  update_tombstone-IsAccounted f same_key same_ns same_id same_size
        ((ids, parts, keys, homes), balanced) found =
      (
        (
          ids,
          parts,
          HasKey-update_row Tombstone.staging_key s.tombstones key f same_key keys,
          AllRows-update_row Tombstone.staging_key _ s.tombstones key f
              (λ y h. rw (same_id y, same_ns y) h) homes,
        ),
        at,
      )
    where
      at : IsBalanced (with_tombstones (update_row Tombstone.staging_key key f s.tombstones) s)
      at active_sessions k = balanced active_sessions k
      at staged_bytes k = omega (
        arith,
        balanced staged_bytes k,
        (rw (same_ns t, same_size t) at
            (sum_of-update_row Tombstone.staging_key (tombstone_weight k) s.tombstones key f t keys
              found)),
      )

  pub delete_tombstone-IsKeyed :
      IsKeyed s → IsKeyed (with_tombstones (delete_row Tombstone.staging_key key s.tombstones) s)
  delete_tombstone-IsKeyed (ids, parts, keys, homes) = (
    ids,
    parts,
    HasKey-delete_row Tombstone.staging_key s.tombstones key keys,
    AllRows-delete_row Tombstone.staging_key _ s.tombstones key homes,
  )

  pub delete_tombstone-Owes :
      (ns : ℕ)
      → t.namespace_id ≡ ns
      → IsAccounted s
      → row_of Tombstone.staging_key key s.tombstones ≡ some t
      → Owes ns staged_bytes
          (sub_ℕ 0 t.size_bytes)
          (with_tombstones (delete_row Tombstone.staging_key key s.tombstones) s)
  delete_tombstone-Owes ns home (keyed, balanced) found active_sessions k =
      omega (arith, balanced active_sessions k)
  delete_tombstone-Owes ns home (keyed, balanced) found staged_bytes k =
      let sums = rw home at (
        sum_of-delete_row Tombstone.staging_key (tombstone_weight k) s.tombstones key t keyed.2
          found) in
      elim (Bool-cases (covers k ns)) [
        | inl yes' ↦
            rw yes'
              (omega (arith, balanced staged_bytes k, rw yes' at sums, sub_ℕ_parts 0 t.size_bytes))
        | inr no' ↦ rw no' (omega (arith, balanced staged_bytes k, rw no' at sums))
      ]

pub insert_tombstone-IsKeyed :
    (s : Store) (t : Tombstone)
    → row_of Tombstone.staging_key t.staging_key s.tombstones ≡ none
    → AllRows (SameHome t) s.sessions
    → IsKeyed s
    → IsKeyed (with_tombstones (t ∷ s.tombstones) s)
insert_tombstone-IsKeyed s t new home (ids, parts, keys, homes) =
    (ids, parts, (new, keys), (home, homes))

-- The charge of a part that was deleted goes over to its tombstone.
pub insert_tombstone-IsBalanced :
    (s : Store) (t : Tombstone)
    → Owes t.namespace_id staged_bytes (sub_ℕ 0 t.size_bytes) s
    → IsBalanced (with_tombstones (t ∷ s.tombstones) s)
insert_tombstone-IsBalanced s t owes active_sessions k = omega (arith, owes active_sessions k)
insert_tombstone-IsBalanced s t owes staged_bytes k = elim (Bool-cases (covers k t.namespace_id)) [
  | inl yes' ↦ rw yes' (omega (arith, rw yes' at (owes staged_bytes k), sub_ℕ_parts 0 t.size_bytes))
  | inr no' ↦ rw no' (omega (arith, rw no' at (owes staged_bytes k)))
]

-- A new session, which has no parts.
pub insert_session-IsKeyed :
    (s : Store) (x : Session)
    → row_of Session.id x.id s.sessions ≡ none
    → x.parts ≡ []
    → AllRows (λ t. t.session_id ≢ x.id) s.tombstones
    → IsKeyed s
    → IsKeyed (with_sessions (x ∷ s.sessions) s)
insert_session-IsKeyed s x new empty fresh (ids, parts, keys, homes) =
    ((new, ids), (rw empty tt, parts), keys, both s.tombstones fresh homes)
  where
    both :
        (ts : List Tombstone)
        → AllRows (λ t. t.session_id ≢ x.id) ts
        → AllRows (λ t. AllRows (SameHome t) s.sessions) ts
        → AllRows (λ t. AllRows (SameHome t) (x ∷ s.sessions)) ts
    both [] f h = tt
    both (t ∷ ts) (f, fs) (h, hs) = ((λ e. absurd (f (sym e)), h), both ts fs hs)

pub insert_session-Owes :
    (s : Store) (x : Session)
    → x.parts ≡ []
    → is_live x.state ≡ true
    → IsBalanced s
    → Owes x.namespace_id active_sessions (pos 1) (with_sessions (x ∷ s.sessions) s)
insert_session-Owes s x empty live balanced active_sessions k =
    elim (Bool-cases (covers k x.namespace_id)) [
      | inl yes' ↦ rw (yes', live) (omega (arith, balanced active_sessions k))
      | inr no' ↦ rw no' (omega (arith, balanced active_sessions k))
    ]
insert_session-Owes s x empty live balanced staged_bytes k =
    rw empty (ground (arith, balanced staged_bytes k))

-- The parts of one session, whose keys stay apart.
pub parts-IsKeyed_at :
    (s : Store) (id : ℕ) (g : List Part → List Part) (x : Session)
    → row_of Session.id id s.sessions ≡ some x
    → HasKey Part.part_index (g x.parts)
    → IsKeyed s
    → IsKeyed (with_sessions (update_row Session.id id (set_parts g) s.sessions) s)
parts-IsKeyed_at s id g x found keep (ids, parts, keys, homes) = (
  HasKey-update_row Session.id s.sessions id (set_parts g) (λ y. refl) ids,
  AllRows-update_row_at Session.id _ s.sessions id (set_parts g) x ids found keep parts,
  keys,
  AllRows-map _ _ s.tombstones
      (λ t home.
        AllRows-update_row Session.id (SameHome t) s.sessions id (set_parts g) (λ y h. h) home)
      homes,
)
