-- ===== src/Receipt/Fencing.antt =====
-- About the statements on a receipt row under every interleaving of requests.
use storix.Base.{
  ℕ, ◌+◌, ◌≤◌, ◌<◌, ◌≡◌, ◌≢◌, refl, Bool, true, false, none, some, List, [], ◌∷◌, if◌then◌else◌,
  arith,
}
use storix.Receipt.Statements.{
  reserved, complete, Stored, Row, Slot, is_complete, insert_claim, take_over, renew, complete_with,
  release, delete_expired, prune,
}

-- One statement of some request, with its parameters and clocks.
pub data Statement : Type 0 where
  inserts : (lease now db_now : ℕ) → Statement
  takes_over : (lease db_now : ℕ) → Statement
  renews : (lease generation db_now : ℕ) → Statement
  completes : (generation : ℕ) → Stored → (db_now : ℕ) → Statement
  releases : (generation : ℕ) → Statement
  deletes_expired : (now : ℕ) → Statement
  prunes : (now db_now : ℕ) → Statement

unfoldable pub exec : Statement → Slot → Bool × Slot
unfolding insert_claim take_over renew complete_with release delete_expired prune
exec (inserts lease now db_now) slot = insert_claim lease now db_now slot
exec (takes_over lease db_now) slot = take_over lease db_now slot
exec (renews lease generation db_now) slot = renew lease generation db_now slot
exec (completes generation response db_now) slot = complete_with generation response db_now slot
exec (releases generation) slot = release generation slot
exec (deletes_expired now) slot = delete_expired now slot
exec (prunes now db_now) slot = prune now db_now slot

unfoldable pub run : List Statement → Slot → Slot
unfolding exec
run [] slot = slot
run (s ∷ rest) slot = run rest (exec s slot).1

abbrev pub bit : Bool → ℕ
bit true = 1
bit false = 0

-- 1 for a row that is complete, 0 for another or none.
abbrev pub completed : Slot → ℕ
completed none = 0
completed (some row) = bit (is_complete row.state)

abbrev is_completion : Statement → Bool
is_completion (completes _ _ _) = true
is_completion _ = false

-- The successful completions of a run.
unfoldable pub completions : List Statement → Slot → ℕ
unfolding exec
completions [] slot = 0
completions (s ∷ rest) slot =
    let (done, slot') = exec s slot in
    (if is_completion s then bit done else 0) + completions rest slot'

-- The deletions of complete rows of a run.
unfoldable pub completed_deletions : List Statement → Slot → ℕ
unfolding exec
completed_deletions [] slot = 0
completed_deletions (s ∷ rest) slot =
    let slot' = (exec s slot).1 in
    elim slot' [ none ↦ completed slot | some _ ↦ 0 ] + completed_deletions rest slot'

completed-step :
    (s : Statement) (slot : Slot)
    → completed slot + (if is_completion s then bit (exec s slot).0 else 0)
      ≡ completed (exec s slot).1 + elim (exec s slot).1 [ none ↦ completed slot | some _ ↦ 0 ]
unfolding exec
completed-step (inserts _ _ _) none = refl
completed-step s none = ground arith
completed-step s (some row) = ground arith

-- Whatever the requests interleave, the successful completions, and a row that was complete at the
-- start, are as many as the deletions of complete rows and a row that is complete at the end.
pub completions_balance :
    (run_of : List Statement) (slot : Slot)
    → completed slot + completions run_of slot
      ≡ completed (run run_of slot) + completed_deletions run_of slot
unfolding run completions completed_deletions
completions_balance [] slot = omega arith
completions_balance (s ∷ rest) slot =
    omega (arith, completed-step s slot, completions_balance rest (exec s slot).1)

-- The clocks at which a statement may delete a complete row are before `expires_at`.
abbrev pub IsBefore : ℕ → Statement → Type 0
IsBefore expires_at (deletes_expired now) = now < expires_at
IsBefore expires_at (prunes now _) = now < expires_at
IsBefore expires_at _ = Unit

abbrev pub AllBefore : ℕ → List Statement → Type 0
AllBefore expires_at [] = Unit
AllBefore expires_at (s ∷ rest) = IsBefore expires_at s × AllBefore expires_at rest

complete-step :
    (s : Statement) (row : Row)
    → row.state ≡ complete
    → IsBefore row.expires_at s
    → exec s (some row) ≡ (false, some row)
unfolding exec
complete-step (inserts _ _ _) row c h = refl
complete-step s row c h = ground arith

-- A complete receipt stays as it is, the stored response included, under every interleaving of
-- requests whose deletions read a clock before its retention ends.
pub complete_stays :
    (run_of : List Statement) (row : Row)
    → row.state ≡ complete
    → AllBefore row.expires_at run_of
    → run run_of (some row) ≡ some row
unfolding run
complete_stays [] row c h = refl
complete_stays (s ∷ rest) row c (h, hs) =
    rw (complete-step s row c h) (complete_stays rest row c hs)

-- No statement of the run deletes the row.
abbrev pub KeepsRow : List Statement → Slot → Type 0
KeepsRow [] slot = Unit
KeepsRow (s ∷ rest) slot = ((exec s slot).1 ≢ none) × KeepsRow rest (exec s slot).1

-- The row is there and its generation is above `g`.
abbrev pub IsPast : ℕ → Slot → Type 0
IsPast g none = ⊥
IsPast g (some row) = g < row.generation

IsPast-step :
    (s : Statement) (g : ℕ) (slot : Slot)
    → IsPast g slot
    → (exec s slot).1 ≢ none
    → IsPast g (exec s slot).1
unfolding exec
IsPast-step s g none h k = elim h [ ]
IsPast-step (inserts _ _ _) g (some row) h k = h
IsPast-step s g (some row) h k = ground arith

IsPast-run :
    (run_of : List Statement) (g : ℕ) (slot : Slot)
    → IsPast g slot
    → KeepsRow run_of slot
    → IsPast g (run run_of slot)
unfolding run
IsPast-run [] g slot h k = h
IsPast-run (s ∷ rest) g slot h (k, ks) =
    IsPast-run rest g (exec s slot).1 (IsPast-step s g slot h k) ks

IsPast-blocks :
    (g lease db_now : ℕ) (response : Stored) (slot : Slot)
    → IsPast g slot
    → (exec (completes g response db_now) slot ≡ (false, slot))
      × (exec (renews lease g db_now) slot ≡ (false, slot))
      × (exec (releases g) slot ≡ (false, slot))
unfolding exec
IsPast-blocks g lease db_now response none h = elim h [ ]
IsPast-blocks g lease db_now response (some row) h = ground arith

-- After a takeover has raised the generation above `g`, the owner of `g` can neither complete nor
-- renew nor release the row, under every interleaving that does not delete the row.
pub stale_owner_blocked :
    (run_of : List Statement) (g lease db_now : ℕ) (response : Stored) (slot : Slot)
    → IsPast g slot
    → KeepsRow run_of slot
    → (exec (completes g response db_now) (run run_of slot) ≡ (false, run run_of slot))
      × (exec (renews lease g db_now) (run run_of slot) ≡ (false, run run_of slot))
      × (exec (releases g) (run run_of slot) ≡ (false, run run_of slot))
stale_owner_blocked run_of g lease db_now response slot h k =
    IsPast-blocks g lease db_now response (run run_of slot) (IsPast-run run_of g slot h k)

-- The condition that no statement deletes the row is needed. A first claim with generation 1 expires
-- and is taken over; the second owner releases its claim and a third request claims the key anew,
-- again with generation 1: then the first owner completes the claim of the third, whatever the rows
-- and clocks are.
pub stale_owner_completes_after_release :
    (lease t₁ t₂ t₃ now : ℕ) (response : Stored) (row : Row) (expired : ℕ)
    → row.state ≡ reserved
    → row.generation ≡ 1
    → row.lease_expires_at ≡ some expired
    → expired ≤ t₁
    → t₃ < t₂ + lease
    → (exec
        (completes 1 response t₃)
        (run (takes_over lease t₁ ∷ releases 2 ∷ inserts lease now t₂ ∷ []) (some row))).0
      ≡ true
unfolding run exec
stale_owner_completes_after_release lease t₁ t₂ t₃ now response row expired r g e h k = ground arith
