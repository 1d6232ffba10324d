-- ===== src/Sessions/Charges.antt =====
-- The statements on parts, and the locks, keep the counters equal to the rows.
use storix.Base.{
  ℕ, Bool, true, none, some, List, if◌then◌else◌, ◌≡◌, refl, Result, ok, err, inl, inr, Bool-cases,
  Option-cases, arith,
}
use storix.Base.Int.{ℤ, pos}
use storix.Base.Rows.{HasKey, row_of, update_row, delete_row, sum_of-update_row, sum_of-delete_row}
use storix.Base.Keys.{HasKey-update_row, HasKey-delete_row, AllRows-row_of}
use storix.Upload.Policy.{PartState, reserved, stored, cleanup, deleted}
use storix.Sessions.Tables.{
  Part, Session, UsageCounters, Store, SessionError, M, ◌>>=◌, ◌>>◌, then_do, is_reserved,
  is_deleted, lock_usage, assert_namespace_active, has_namespace, is_active, staged_bytes,
  change_usage, find_session, find_part_row, find_part, change_found, update_part_where, set_parts,
  pure, on_affected,
}
use storix.Sessions.Books.{part_weight, IsKeyed, IsAccounted, Keeps, Owes, change_usage-Keeps}
use storix.Sessions.Rows.{with_sessions, Differ, Owes-IsBalanced, parts-Owes, parts-IsKeyed}

pub Keeps-bind :
    {A B : Type 0} (r : Result SessionError (A × Store)) (f : A → M B)
    → Keeps r
    → ((a : A) (s : Store) → IsAccounted s → Keeps (f a s))
    → Keeps (then_do f r)
Keeps-bind (ok (a, s)) f h k = k a s h
Keeps-bind (err e) f h k = h

pub Keeps-pure :
    {A B : Type 0} (r : Result SessionError (A × Store)) (b : A → B)
    → Keeps r
    → Keeps (then_do (λ a. pure (b a)) r)
Keeps-pure (ok (a, s)) b h = h
Keeps-pure (err e) b h = h

pub lock_usage-Keeps : (ns : ℕ) (s : Store) → IsAccounted s → Keeps (lock_usage ns s)
unfolding lock_usage
lock_usage-Keeps ns s h = elim (Bool-cases (has_namespace ns s.namespaces)) [
  | inl yes' ↦ rw yes' h
  | inr no' ↦ rw no' tt
]

pub lock_usage-then :
    {A : Type 0} (ns : ℕ) (f : UsageCounters × UsageCounters → M A) (s : Store)
    → Keeps (f (s.usage none, s.usage (some ns)) s)
    → Keeps ((lock_usage ns >>= f) s)
unfolding lock_usage
lock_usage-then ns f s h = elim (Bool-cases (has_namespace ns s.namespaces)) [
  | inl yes' ↦ rw yes' h
  | inr no' ↦ rw no' tt
]

pub assert_namespace_active-Keeps :
    (ns : ℕ) (s : Store) → IsAccounted s → Keeps (assert_namespace_active ns s)
unfolding assert_namespace_active
assert_namespace_active-Keeps ns s h = elim (Bool-cases (is_active ns s.namespaces)) [
  | inl yes' ↦ rw yes' h
  | inr no' ↦ rw no' tt
]

pub assert_namespace_active-then :
    {A : Type 0} (ns : ℕ) (m : M A) (s : Store)
    → Keeps (m s)
    → Keeps ((assert_namespace_active ns >> m) s)
unfolding assert_namespace_active
assert_namespace_active-then ns m s h = elim (Bool-cases (is_active ns s.namespaces)) [
  | inl yes' ↦ rw yes' h
  | inr no' ↦ rw no' tt
]

-- One part of one session changes.
module _ (s : Store) (id index : ℕ) (x : Session) (p : Part) where
  abbrev pub Found : Type 0
  Found =
      (row_of Session.id id s.sessions ≡ some x) × (row_of Part.part_index index x.parts ≡ some p)

  abbrev pub Charged : (List Part → List Part) → ℤ → Type 0
  Charged g amount =
      IsKeyed (with_sessions (update_row Session.id id (set_parts g) s.sessions) s)
      × Owes x.namespace_id staged_bytes amount
          (with_sessions (update_row Session.id id (set_parts g) s.sessions) s)

  part_keys : IsAccounted s → Found → HasKey Part.part_index x.parts
  part_keys h (at_x, at_p) = AllRows-row_of Session.id _ s.sessions id x h.0.1 at_x

  pub update_part-Charged :
      (f : Part → Part) (amount : ℤ)
      → ((q : Part) → (f q).part_index ≡ q.part_index)
      → IsAccounted s
      → Found
      → Differ (part_weight p) (part_weight (f p)) amount
      → Charged (update_row Part.part_index index f) amount
  update_part-Charged f amount same h found moved = (
    parts-IsKeyed s id (update_row Part.part_index index f)
        (λ ps. HasKey-update_row Part.part_index ps index f same) h.0,
    parts-Owes s id (λ y. y) x (update_row Part.part_index index f) amount h found.0
        (omega (
          arith,
          moved,
          sum_of-update_row Part.part_index part_weight x.parts index f p (part_keys h found)
              found.1,
        )),
  )

  pub delete_part-Charged :
      (amount : ℤ)
      → IsAccounted s
      → Found
      → Differ (part_weight p) 0 amount
      → Charged (delete_row Part.part_index index) amount
  delete_part-Charged amount h found moved = (
    parts-IsKeyed s id (delete_row Part.part_index index)
        (λ ps. HasKey-delete_row Part.part_index ps index) h.0,
    parts-Owes s id (λ y. y) x (delete_row Part.part_index index) amount h found.0
        (omega (
          arith,
          moved,
          sum_of-delete_row Part.part_index part_weight x.parts index p (part_keys h found) found.1,
        )),
  )

  -- The statement, and what the operations do after it.
  pub charge-Keeps :
      {A : Type 0} (test : Part → Bool) (g : List Part → List Part) (amount : ℤ) (a b : A)
      → IsAccounted s
      → (test p ≡ true → Charged g amount)
      → Keeps (
          (change_found id test g (some p)
              >>= on_affected (change_usage x.namespace_id staged_bytes amount >> pure a) (pure b))
            s)
  charge-Keeps test g amount a b h charged = elim (Bool-cases (test p)) [
    | inl yes' ↦
        let (keyed, owes) = charged yes' in
        rw yes' (
          Keeps-pure (change_usage x.namespace_id staged_bytes amount _) (λ _. a)
            (change_usage-Keeps x.namespace_id staged_bytes amount _ keyed owes))
    | inr no' ↦ rw no' h
  ]

  -- Without a charge.
  pub free-Keeps :
      (test : Part → Bool) (g : List Part → List Part)
      → IsAccounted s
      → (test p ≡ true → Charged g (pos 0))
      → Keeps (change_found id test g (some p) s)
  free-Keeps test g h charged = elim (Bool-cases (test p)) [
    | inl yes' ↦
        let (keyed, owes) = charged yes' in
        rw yes' (keyed, Owes-IsBalanced x.namespace_id staged_bytes _ owes)
    | inr no' ↦ rw no' h
  ]

-- The rows that `find_part` found.
pub find_part-Found :
    (s : Store) (id index : ℕ) (p : Part)
    → find_part id index s ≡ some p
    → (x : Session) × Found s id index x p
unfolding find_part find_session find_part_row
find_part-Found s id index p e = elim (Option-cases (row_of Session.id id s.sessions)) [
  | inl none' ↦ absurd (ground (arith, e, none'))
  | inr (x, found) ↦ (x, (found, rw found at e))
]

pub find_part-row :
    (s : Store) (id index : ℕ) (x : Session) (p : Part)
    → find_session id s ≡ some x
    → find_part id index s ≡ some p
    → Found s id index x p
unfolding find_part find_session find_part_row
find_part-row s id index x p found e = (found, rw found at e)

pub reserved-weight : (p : Part) → is_reserved p.state ≡ true → part_weight p ≡ p.size_bytes
reserved-weight p e = at p.state e
  where
    at :
        (state : PartState)
        → is_reserved state ≡ true
        → (if is_deleted state then 0 else p.size_bytes) ≡ p.size_bytes
    at reserved h = refl
    at stored h = refl
    at cleanup h = refl
    at deleted h = cc

-- A statement that leaves the charge of the part.
pub update_part_where-Keeps :
    (id index : ℕ) (test : Part → Bool) (f : Part → Part) (s : Store)
    → ((q : Part) → (f q).part_index ≡ q.part_index)
    → ((q : Part) → test q ≡ true → part_weight (f q) ≡ part_weight q)
    → IsAccounted s
    → Keeps (update_part_where id index test f s)
unfolding update_part_where
update_part_where-Keeps id index test f s same weighs h =
    elim (Option-cases (find_part id index s)) [
      | inl none' ↦ rw none' h
      | inr (p, e) ↦
          let (x, found) = find_part-Found s id index p e in
          rw e (
            free-Keeps s id index x p test (update_row Part.part_index index f) h (λ yes'.
              update_part-Charged s id index x p f (pos 0) same h found
                (omega (arith, weighs p yes'))))
    ]
