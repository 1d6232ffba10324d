-- ===== src/Ownership/Reclaiming.antt =====
-- About `claimForGc` and `beginPut` on one key. The conditions of a claim are stated on the rows of the
-- tables, apart from the tests of the code.
use storix.Base.{
  ◌⊎◌, ℕ, ◌≡◌, ◌↔◌, inl, inr, false, some, List, [], ◌∷◌, err, Option-cases, arith, Bool-cases,
  ==→eq, ap, none, Option, true, not, refl, ◌≢◌, ◌==◌, if◌then◌else◌,
}
use storix.Base.Rows.{row_of, AllRows, AnyRow}
use storix.Ownership.Tables.{
  Execution, Attempt, is_some, is_stopped, StorageKey, Tables, find_key, is_claimed, has_attempt_on,
  has_writer,
}
use storix.Ownership.Operations.{
  being_reclaimed, claimed, ensure_key, insert_attempt, begin_put, set_claim, is_held, claim_row,
  claim_for_gc,
}

-- The execution has a row, in which it is confirmed to have stopped.
abbrev pub IsStopped : List Execution → ℕ → Type 0
IsStopped executions id =
    (e : Execution) × (row_of Execution.id id executions ≡ some e)
    × ((time : ℕ) × (e.stopped_confirmed_at ≡ some time))

-- The row has no claim, or that of a stopped execution.
abbrev pub IsUnheld : List Execution → StorageKey → Type 0
IsUnheld executions row =
    (row.gc_claim_id ≡ none)
    ⊎ ((id : ℕ) × (row.gc_execution_id ≡ some id) × IsStopped executions id)

-- An attempt which is on another key, or settled, or of a stopped execution.
abbrev pub IsIdle : List Execution → ℕ → Attempt → Type 0
IsIdle executions key a =
    (a.storage_key ≢ key) ⊎ ((a.settled ≡ true) ⊎ IsStopped executions a.execution_id)

is_stopped_iff :
    (executions : List Execution) (id : ℕ)
    → is_stopped executions id ≡ true ↔ IsStopped executions id
unfolding is_stopped row_of
is_stopped_iff [] id = (λ e. cc, λ (e, found, _). absurd (ground arith))
is_stopped_iff (x ∷ xs) id = elim (Bool-cases (x.id == id)) [
  | inr other ↦ rw other (is_stopped_iff xs id)
  | inl here ↦ rw here (
    λ e. let (time, t) = is_some_time x.stopped_confirmed_at e in (x, refl, (time, t)),
    λ (y, same, (time, t)).
        let same' : x ≡ y = cc in
        let t' : x.stopped_confirmed_at ≡ some time = rw same' t in rw t' refl,
  )
]
  where
    is_some_time : (o : Option ℕ) → is_some o ≡ true → (time : ℕ) × (o ≡ some time)
    is_some_time none e = cc
    is_some_time (some time) e = (time, refl)

is_held_iff :
    (executions : List Execution) (row : StorageKey)
    → is_held executions row ≡ false ↔ IsUnheld executions row
unfolding is_held
is_held_iff executions row = at row.gc_claim_id row.gc_execution_id
  where
    at :
        (claim execution : Option ℕ)
        → (elim claim [
          | none ↦ false
          | some _ ↦ elim execution [ none ↦ true | some id ↦ not (is_stopped executions id) ]
        ])
            ≡ false
          ↔ ((claim ≡ none) ⊎ ((id : ℕ) × (execution ≡ some id) × IsStopped executions id))
    at none execution = (λ e. inl refl, λ h. refl)
    at (some claim) none = (λ e. cc, λ h. elim h [ inl h ↦ cc | inr (id, e, _) ↦ cc ])
    at (some claim) (some id) = (
      λ e. inr (id, refl, (is_stopped_iff executions id).0 (ground arith)),
      λ h. elim h [
        | inl h ↦ cc
        | inr (id', e, stopped) ↦
            let same : id ≡ id' = cc in
            let stops = (is_stopped_iff executions id').1 stopped in rw (same, stops) refl
      ],
    )

has_attempt_on_iff :
    (key : ℕ) (attempts : List Attempt)
    → has_attempt_on key attempts ≡ true ↔ AnyRow (λ a. a.storage_key ≡ key) attempts
unfolding has_attempt_on
has_attempt_on_iff key [] = (λ e. cc, λ h. absurd h)
has_attempt_on_iff key (a ∷ rest) = elim (Bool-cases (a.storage_key == key)) [
  | inl here ↦ rw here (λ e. inl (==→eq a.storage_key key here), λ h. refl)
  | inr other ↦ rw other (
    λ e. inr ((has_attempt_on_iff key rest).0 e),
    λ h. elim h [
      | inl same ↦ absurd (ground arith)
      | inr later ↦ (has_attempt_on_iff key rest).1 later
    ],
  )
]

has_writer_iff :
    (executions : List Execution) (key : ℕ) (attempts : List Attempt)
    → has_writer executions key attempts ≡ false ↔ AllRows (IsIdle executions key) attempts
unfolding has_writer
has_writer_iff executions key [] = (λ e. tt, λ h. refl)
has_writer_iff executions key (a ∷ rest) =
    let (to, from) = has_writer_iff executions key rest in
    let (stop, stopped) = is_stopped_iff executions a.execution_id in
    elim (Bool-cases (a.storage_key == key)) [
      | inr other ↦ rw other (λ e. (inl (λ same. ground arith), to e), λ (_, h). from h)
      | inl here ↦ elim (Bool-cases a.settled) [
        | inl done' ↦ rw (here, done') (λ e. (inr (inl refl), to e), λ (_, h). from h)
        | inr active ↦ elim (Bool-cases (is_stopped executions a.execution_id)) [
          | inl halted ↦
              rw (here, active, halted) (λ e. (inr (inr (stop halted)), to e), λ (_, h). from h)
          | inr runs ↦
              rw (here, active, runs)
                (
                  λ e. cc,
                  λ (h, _). elim h [
                    | inl away ↦ absurd (away (==→eq a.storage_key key here))
                    | inr (inl settled) ↦ cc
                    | inr (inr halted) ↦ let h' = stopped halted in cc
                  ],
                )
        ]
      ]
    ]

find_key-row_of :
    (key : ℕ) (rows : List StorageKey) → find_key key rows ≡ row_of StorageKey.key key rows
unfolding find_key row_of
find_key-row_of key [] = refl
find_key-row_of key (row ∷ rows) =
    ap (λ rest. if row.key == key then some row else rest) (find_key-row_of key rows)

-- The tests that a claim passes.
claim_for_gc-tests :
    (key claim execution : ℕ) (db : Tables)
    → (claim_for_gc key claim execution db).0 ≡ claimed ↔ (
        (row : StorageKey) × (find_key key db.keys ≡ some row)
        × (is_held db.executions row ≡ false)
        × (has_attempt_on key db.attempts ≡ true)
        × (has_writer db.executions key db.attempts ≡ false))
unfolding claim_for_gc claim_row
claim_for_gc-tests key claim execution db = (
  λ e. elim (Option-cases (find_key key db.keys)) [
    | inl none' ↦ absurd (ground arith)
    | inr (row, found) ↦ (row, found, ground arith, ground arith, ground arith)
  ],
  λ (row, found, free, some', idle). ground arith,
)

-- The cleanup gets a key exactly when the key has a row with no claim, or with that of an execution which
-- is confirmed to have stopped, when some attempt was made on the key, and when each attempt on it is
-- settled or of an execution which is confirmed to have stopped.
pub claim_for_gc_iff :
    (key claim execution : ℕ) (db : Tables)
    → (claim_for_gc key claim execution db).0 ≡ claimed ↔ (
        (row : StorageKey) × (row_of StorageKey.key key db.keys ≡ some row)
        × IsUnheld db.executions row
        × AnyRow (λ a. a.storage_key ≡ key) db.attempts
        × AllRows (IsIdle db.executions key) db.attempts)
claim_for_gc_iff key claim execution db =
    let (to, from) = claim_for_gc-tests key claim execution db in
    (
      λ e.
          let (row, found, free, some', idle) = to e in
          (
            row,
            rw⁻¹ (find_key-row_of key db.keys) found,
            (is_held_iff db.executions row).0 free,
            (has_attempt_on_iff key db.attempts).0 some',
            (has_writer_iff db.executions key db.attempts).0 idle,
          ),
      λ (row, found, free, some', idle). from (
        row,
        rw (find_key-row_of key db.keys) found,
        (is_held_iff db.executions row).1 free,
        (has_attempt_on_iff key db.attempts).1 some',
        (has_writer_iff db.executions key db.attempts).1 idle,
      ),
    )

is_claimed-set_claim_self :
    (key claim execution : ℕ) (rows : List StorageKey) (row : StorageKey)
    → find_key key rows ≡ some row
    → is_claimed key (set_claim key (some claim) (some execution) rows) ≡ true
unfolding is_claimed set_claim
is_claimed-set_claim_self key claim execution [] row e = cc
is_claimed-set_claim_self key claim execution (r ∷ rows) row e =
    ground (arith, is_claimed-set_claim_self key claim execution rows row)

begin_put-is_claimed :
    (key execution attempt : ℕ) (db : Tables)
    → is_claimed key db.keys ≡ true
    → begin_put key execution attempt db ≡ err being_reclaimed
unfolding is_claimed begin_put ensure_key insert_attempt
begin_put-is_claimed key execution attempt db c = ground arith

-- No upload begins on a key that the cleanup has just got.
pub begin_put-claim_for_gc :
    (key claim execution execution' attempt : ℕ) (db : Tables)
    → (claim_for_gc key claim execution db).0 ≡ claimed
    → begin_put key execution' attempt (claim_for_gc key claim execution db).1 ≡ err being_reclaimed
unfolding claim_for_gc claim_row
begin_put-claim_for_gc key claim execution execution' attempt db e =
    let (row, found, free, some', idle) = (claim_for_gc-tests key claim execution db).0 e in
    rw (found, free, some', idle)
      (begin_put-is_claimed key execution' attempt _
        (is_claimed-set_claim_self key claim execution db.keys row found))
