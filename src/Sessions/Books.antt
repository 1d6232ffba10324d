-- ===== src/Sessions/Books.antt =====
-- What the usage counters stand for, and how a change of the rows and a change of the counters meet.
use storix.Base.{
  ℕ, ◌+◌, Bool, true, false, ◌&&◌, Option, none, some, ◌==◌, if◌then◌else◌, ◌≡◌, refl, Result, ok,
  err, inl, inr, Bool-cases, arith, ==_self, ==→eq, sym, subst,
}
use storix.Base.Int.{ℤ, pos, pos_part, neg_part, ◌+ℤ◌}
use storix.Base.Rows.{sum_of, AllRows, HasKey}
use storix.Sessions.Tables.{
  Part, Session, Tombstone, UsageCounters, Store, SessionError, counter_check, is_live, is_deleted,
  UsageField, active_sessions, staged_bytes, read_field, set_field, same_key, change_row,
  change_usage,
}

-- The row 'global' counts every namespace.
abbrev pub covers : Option ℕ → ℕ → Bool
covers none ns = true
covers (some own) ns = own == ns

abbrev pub same_field : UsageField → UsageField → Bool
same_field active_sessions active_sessions = true
same_field staged_bytes staged_bytes = true
same_field _ _ = false

abbrev pub live_weight : Option ℕ → Session → ℕ
live_weight key x = if covers key x.namespace_id && is_live x.state then 1 else 0

abbrev pub part_weight : Part → ℕ
part_weight p = if is_deleted p.state then 0 else p.size_bytes

abbrev pub staged_weight : Option ℕ → Session → ℕ
staged_weight key x = if covers key x.namespace_id then sum_of part_weight x.parts else 0

abbrev pub tombstone_weight : Option ℕ → Tombstone → ℕ
tombstone_weight key t = if covers key t.namespace_id then t.size_bytes else 0

-- The sessions OPEN or FINALIZING; the bytes of the parts not DELETED and of the tombstones.
abbrev pub total : UsageField → Option ℕ → Store → ℕ
total active_sessions key s = sum_of (live_weight key) s.sessions
total staged_bytes key s =
    sum_of (staged_weight key) s.sessions + sum_of (tombstone_weight key) s.tombstones

-- A tombstone is in the namespace of its session, while that stands.
abbrev pub SameHome : Tombstone → Session → Type 0
SameHome t x = x.id ≡ t.session_id → x.namespace_id ≡ t.namespace_id

abbrev pub IsKeyed : Store → Type 0
IsKeyed s =
    HasKey Session.id s.sessions
    × AllRows (λ x. HasKey Part.part_index x.parts) s.sessions
    × HasKey Tombstone.staging_key s.tombstones
    × AllRows (λ t. AllRows (SameHome t) s.sessions) s.tombstones

abbrev pub IsBalanced : Store → Type 0
IsBalanced s =
    (field : UsageField) (key : Option ℕ) → read_field field (s.usage key) ≡ total field key s

abbrev pub IsAccounted : Store → Type 0
IsAccounted s = IsKeyed s × IsBalanced s

-- The invariant where no error was thrown, and that the CHECK on the counters was not violated.
abbrev pub IsRefused : SessionError → Type 0
IsRefused counter_check = ⊥
IsRefused _ = Unit

abbrev pub Keeps : {A : Type 0} → Result SessionError (A × Store) → Type 0
Keeps (ok (a, s)) = IsAccounted s
Keeps (err e) = IsRefused e

abbrev pub hits : UsageField → ℕ → UsageField → Option ℕ → Bool
hits field ns f key = same_field f field && covers key ns

-- The rows of a store, less the counters of another, by an amount that a namespace owes.
abbrev pub Owes : ℕ → UsageField → ℤ → Store → Type 0
Owes ns field amount s =
    (f : UsageField) (key : Option ℕ)
    → read_field f (s.usage key) + (if hits field ns f key then pos_part amount else 0)
      ≡ total f key s + (if hits field ns f key then neg_part amount else 0)

read_field-set_field :
    (f field : UsageField) (n : ℕ) (u : UsageCounters)
    → read_field f (set_field field n u) ≡ (if same_field f field then n else read_field f u)
read_field-set_field active_sessions active_sessions n u = refl
read_field-set_field active_sessions staged_bytes n u = refl
read_field-set_field staged_bytes active_sessions n u = refl
read_field-set_field staged_bytes staged_bytes n u = refl

new_value :
    (a t : ℕ) (amount : ℤ) → a + pos_part amount ≡ t + neg_part amount → pos a +ℤ amount ≡ pos t
unfolding ◌+ℤ◌
new_value a t amount h = ground arith

same_field_self : (f : UsageField) → same_field f f ≡ true
same_field_self active_sessions = refl
same_field_self staged_bytes = refl

total-usage :
    (f : UsageField) (key : Option ℕ) (s : Store) (u : Option ℕ → UsageCounters)
    → total f key (record s { usage = u }) ≡ total f key s
total-usage active_sessions key s u = refl
total-usage staged_bytes key s u = refl

-- The counter of a row that covers the namespace becomes the total, any other one is it.
module _ (ns : ℕ) (amount : ℤ) (s : Store) where
  paid :
      (field : UsageField) (key : Option ℕ)
      → Owes ns field amount s
      → covers key ns ≡ true
      → pos (read_field field (s.usage key)) +ℤ amount ≡ pos (total field key s)
  paid field key owes c =
      new_value (read_field field (s.usage key)) (total field key s) amount
        (rw (same_field_self field, c) at (owes field key))

  settled :
      (field f : UsageField) (key : Option ℕ)
      → Owes ns field amount s
      → read_field f (set_field field (total field key s) (s.usage key)) ≡ total f key s
  settled active_sessions active_sessions key owes = refl
  settled active_sessions staged_bytes key owes = omega (arith, owes staged_bytes key)
  settled staged_bytes active_sessions key owes = omega (arith, owes active_sessions key)
  settled staged_bytes staged_bytes key owes = refl

  untouched :
      (field f : UsageField) (key : Option ℕ)
      → Owes ns field amount s
      → covers key ns ≡ false
      → read_field f (s.usage key) ≡ total f key s
  untouched active_sessions active_sessions key owes c =
      omega (arith, rw c at (owes active_sessions key))
  untouched active_sessions staged_bytes key owes c = omega (arith, owes staged_bytes key)
  untouched staged_bytes active_sessions key owes c = omega (arith, owes active_sessions key)
  untouched staged_bytes staged_bytes key owes c = omega (arith, rw c at (owes staged_bytes key))

pub change_usage-Keeps :
    (ns : ℕ) (field : UsageField) (amount : ℤ) (s : Store)
    → IsKeyed s
    → Owes ns field amount s
    → Keeps (change_usage ns field amount s)
unfolding change_usage change_row
change_usage-Keeps ns field amount s keyed owes =
    rw (paid ns amount s field none owes refl, paid ns amount s field (some ns) owes (==_self ns))
      (keyed, λ f key. rw (total-usage f key s _) (at f key))
  where
    at :
        (f : UsageField) (key : Option ℕ)
        → read_field f (
            if same_key key (some ns)
            then set_field field (total field (some ns) s) (
                if same_key key none
                then set_field field (total field none s) (s.usage key)
                else s.usage key)
            else (if same_key key none
                then set_field field (total field none s) (s.usage key)
                else s.usage key))
          ≡ total f key s
    at f none = settled ns amount s field f none owes
    at f (some own) = elim (Bool-cases (own == ns)) [
      | inl same ↦
          subst
            (λ n.
              read_field f (
                if n == ns
                then set_field field (total field (some ns) s) (s.usage (some n))
                else s.usage (some n))
              ≡ total f (some n) s)
            (sym (==→eq own ns same)) (rw (==_self ns) (settled ns amount s field f (some ns) owes))
      | inr other ↦ rw other (untouched ns amount s field f (some own) owes other)
    ]
