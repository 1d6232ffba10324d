-- ===== src/Gate/Order.antt =====
-- About `QueryGate`: who has the right, and in which order.
use storix.Base.{
  ℕ, ◌≡◌, refl, sym, ◌∙◌, ap, subst, inl, inr, Bool, true, false, ◌||◌, List, [], ◌∷◌, ◌++◌, ◌==◌,
  if◌then◌else◌, has, length, ==→eq, Bool-cases, arith,
}
use storix.Gate.Queue.{
  acquire, remove_first, release, Calls, Event, arrives, expires, releases, arrive, release_by,
  step, run, new_gate,
}

-- The calls without those whose timer ran out.
unfoldable pub without : (expired calls : List ℕ) → List ℕ
without expired [] = []
without expired (x ∷ xs) = if has expired x then without expired xs else x ∷ without expired xs

abbrev pub AllDistinct : List ℕ → Type 0
AllDistinct [] = Unit
AllDistinct (x ∷ xs) = (has xs x ≡ false) × AllDistinct xs

-- The right is one: the gate is locked while some call has it, and then a single one; only then others
-- wait.
abbrev pub IsExclusive : Calls → Type 0
IsExclusive calls =
    (length calls.holders ≡ (if calls.gate.locked then 1 else 0))
    × (calls.gate.locked ≡ false → calls.gate.waiters ≡ [])

pub record IsFair (calls : Calls) : Type 0 where
  pub exclusive : IsExclusive calls
  -- Whoever came and has not given up was given the right or waits, in the order of arrival.
  pub in_order : calls.granted ++ calls.gate.waiters ≡ without calls.expired calls.arrived
  pub distinct : AllDistinct (calls.granted ++ calls.gate.waiters)
  pub expired_arrived : (id : ℕ) → has calls.arrived id ≡ false → has calls.expired id ≡ false

has-append : (xs ys : List ℕ) (id : ℕ) → has (xs ++ ys) id ≡ (has xs id || has ys id)
unfolding has
has-append [] ys id = refl
has-append (x ∷ xs) ys id = ground (arith, has-append xs ys id)

has-without :
    (expired xs : List ℕ) (id : ℕ) → has xs id ≡ false → has (without expired xs) id ≡ false
unfolding has without
has-without expired [] id h = refl
has-without expired (x ∷ xs) id h = ground (arith, has-without expired xs id)

without-append :
    (expired xs : List ℕ) (id : ℕ)
    → has expired id ≡ false
    → without expired (xs ++ id ∷ []) ≡ without expired xs ++ id ∷ []
unfolding without
without-append expired [] id h = rw h refl
without-append expired (x ∷ xs) id h = ground (arith, without-append expired xs id h)

AllDistinct-append :
    (xs : List ℕ) (id : ℕ) → has xs id ≡ false → AllDistinct xs → AllDistinct (xs ++ id ∷ [])
unfolding has
AllDistinct-append [] id h d = (refl, tt)
AllDistinct-append (x ∷ xs) id h (new, d) =
    (ground (arith, has-append xs (id ∷ []) x), AllDistinct-append xs id (ground arith) d)

remove_first-absent : (xs : List ℕ) (id : ℕ) → has xs id ≡ false → remove_first id xs ≡ xs
unfolding has remove_first
remove_first-absent [] id h = refl
remove_first-absent (x ∷ xs) id h = ground (arith, remove_first-absent xs id)

remove_first-append :
    (xs ys : List ℕ) (id : ℕ)
    → has xs id ≡ false
    → remove_first id (xs ++ ys) ≡ xs ++ remove_first id ys
unfolding has remove_first
remove_first-append [] ys id h = refl
remove_first-append (x ∷ xs) ys id h = ground (arith, remove_first-append xs ys id)

has-remove_first :
    (xs : List ℕ) (id other : ℕ) → has xs other ≡ false → has (remove_first id xs) other ≡ false
unfolding has remove_first
has-remove_first [] id other h = refl
has-remove_first (x ∷ xs) id other h = ground (arith, has-remove_first xs id other)

AllDistinct-remove_first :
    (xs : List ℕ) (id : ℕ) → AllDistinct xs → AllDistinct (remove_first id xs)
unfolding remove_first
AllDistinct-remove_first [] id d = tt
AllDistinct-remove_first (x ∷ xs) id (new, d) = elim (Bool-cases (x == id)) [
  | inl same ↦ rw same d
  | inr other ↦ rw other (has-remove_first xs id x new, AllDistinct-remove_first xs id d)
]

-- One more timer that ran out takes its call out of the order.
without-cons :
    (expired xs : List ℕ) (id : ℕ)
    → AllDistinct (without expired xs)
    → without (id ∷ expired) xs ≡ remove_first id (without expired xs)
unfolding without has remove_first
without-cons expired [] id d = refl
without-cons expired (x ∷ xs) id d = elim (Bool-cases (has expired x)) [
  | inl gone ↦ ground (arith, without-cons expired xs id)
  | inr stays ↦
      let d' : (has (without expired xs) x ≡ false) × AllDistinct (without expired xs) =
        rw stays at d in
      ground (
        arith,
        without-cons expired xs id d'.1,
        remove_first-absent (without expired xs) x d'.0,
        ==→eq x id,
      )
]

-- No call that was given the right waits.
granted-ne-waiting :
    (granted waiters : List ℕ) (id : ℕ)
    → AllDistinct (granted ++ waiters)
    → has waiters id ≡ true
    → has granted id ≡ false
unfolding has
granted-ne-waiting [] waiters id d h = refl
granted-ne-waiting (x ∷ xs) waiters id (new, d) h =
    ground (arith, granted-ne-waiting xs waiters id d h, has-append xs waiters x)

append-cons : (xs ys : List ℕ) (y : ℕ) → (xs ++ y ∷ []) ++ ys ≡ xs ++ y ∷ ys
append-cons [] ys y = refl
append-cons (x ∷ xs) ys y = ap (λ zs. x ∷ zs) (append-cons xs ys y)

append-nil : (xs : List ℕ) → xs ++ [] ≡ xs
append-nil [] = refl
append-nil (x ∷ xs) = ap (λ ys. x ∷ ys) (append-nil xs)

append-append : (xs ys zs : List ℕ) → xs ++ (ys ++ zs) ≡ (xs ++ ys) ++ zs
append-append [] ys zs = refl
append-append (x ∷ xs) ys zs = ap (λ us. x ∷ us) (append-append xs ys zs)

module _ (arrived expired granted : List ℕ) where
  abbrev calls_of : (locked : Bool) → (waiters holders : List ℕ) → Calls
  calls_of locked waiters holders = record {
    gate = record { locked = locked; waiters = waiters };
    arrived = arrived;
    expired = expired;
    granted = granted;
    holders = holders;
  }

  -- The gate hands the right over.
  release-IsFair :
      (locked : Bool) (waiters holders : List ℕ)
      → IsFair (calls_of locked waiters holders)
      → IsFair (release_by holders (calls_of locked waiters holders))
  unfolding release
  release-IsFair locked waiters [] fair = fair
  release-IsFair locked [] (holder ∷ rest) fair = record {
    exclusive = (ground (arith, fair.exclusive.0), λ _. refl);
    in_order = fair.in_order;
    distinct = fair.distinct;
    expired_arrived = fair.expired_arrived;
  }
  release-IsFair locked (next ∷ waiters) (holder ∷ rest) fair = record {
    exclusive = (fair.exclusive.0, λ e. let none' = fair.exclusive.1 e in cc);
    in_order = append-cons granted waiters next ∙ fair.in_order;
    distinct = subst AllDistinct (sym (append-cons granted waiters next)) fair.distinct;
    expired_arrived = fair.expired_arrived;
  }

  absent :
      {locked : Bool} {waiters holders : List ℕ} (id : ℕ)
      → has arrived id ≡ false
      → IsFair (calls_of locked waiters holders)
      → has (granted ++ waiters) id ≡ false
  absent id new fair = rw fair.in_order (has-without expired arrived id new)

  arrive-IsFair :
      (id : ℕ) (locked : Bool) (waiters holders : List ℕ)
      → has arrived id ≡ false
      → IsFair (calls_of locked waiters holders)
      → IsFair (
          arrive id
            (acquire id (record { locked = locked; waiters = waiters }))
            (calls_of locked waiters holders))
  unfolding acquire
  arrive-IsFair id true waiters holders new fair = record {
    exclusive = (fair.exclusive.0, λ e. cc);
    in_order =
        append-append granted waiters (id ∷ [])
        ∙ ap (λ xs. xs ++ id ∷ []) fair.in_order
        ∙ sym (without-append expired arrived id (fair.expired_arrived id new));
    distinct =
        rw (append-append granted waiters (id ∷ []))
          (AllDistinct-append (granted ++ waiters) id (absent id new fair) fair.distinct);
    expired_arrived = λ i h. ground (arith, has-append arrived (id ∷ []) i, fair.expired_arrived i);
  }
  arrive-IsFair id false waiters holders new fair = record {
    exclusive = (ground (arith, fair.exclusive.0), λ e. cc);
    in_order =
        let all =
          subst (λ ws. granted ++ ws ≡ without expired arrived) (fair.exclusive.1 refl)
            fair.in_order in
        let sum = without-append expired arrived id (fair.expired_arrived id new) in
        rw (fair.exclusive.1 refl, sum, append-nil (granted ++ id ∷ []))
          (ap (λ xs. xs ++ id ∷ []) (sym (append-nil granted) ∙ all));
    distinct =
        let one = subst (λ ws. AllDistinct (granted ++ ws)) (fair.exclusive.1 refl) fair.distinct in
        rw (fair.exclusive.1 refl, append-nil (granted ++ id ∷ []))
          (AllDistinct-append granted id
            (ground (arith, absent id new fair, has-append granted waiters id))
            (subst AllDistinct (append-nil granted) one));
    expired_arrived = λ i h. ground (arith, has-append arrived (id ∷ []) i, fair.expired_arrived i);
  }

  expire-IsFair :
      (id : ℕ) (locked : Bool) (waiters holders : List ℕ)
      → has waiters id ≡ true
      → IsFair (calls_of locked waiters holders)
      → IsFair (record (calls_of locked waiters holders) {
        gate = record { locked = locked; waiters = remove_first id waiters };
        expired = id ∷ expired;
      })
  unfolding remove_first has
  expire-IsFair id locked waiters holders waits fair = record {
    exclusive = (
      fair.exclusive.0,
      λ e. subst (λ ws. remove_first id ws ≡ []) (sym (fair.exclusive.1 e)) refl,
    );
    in_order =
        sym (
          remove_first-append granted waiters id
            (granted-ne-waiting granted waiters id fair.distinct waits))
        ∙ ap (remove_first id) fair.in_order
        ∙ sym (without-cons expired arrived id (subst AllDistinct fair.in_order fair.distinct));
    distinct =
        subst AllDistinct
          (remove_first-append granted waiters id
            (granted-ne-waiting granted waiters id fair.distinct waits))
          (AllDistinct-remove_first (granted ++ waiters) id fair.distinct);
    expired_arrived = λ i h.
        ground (arith, fair.expired_arrived i h, absent i h fair, has-append granted waiters i);
  }

step-IsFair : (event : Event) (calls : Calls) → IsFair calls → IsFair (step event calls)
unfolding step
step-IsFair (arrives id) calls fair = elim (Bool-cases (has calls.arrived id)) [
  | inl old ↦ rw old fair
  | inr new ↦ rw new (
      arrive-IsFair calls.arrived calls.expired calls.granted id calls.gate.locked
        calls.gate.waiters calls.holders new fair)
]
step-IsFair (expires id) calls fair = elim (Bool-cases (has calls.gate.waiters id)) [
  | inl waits ↦ rw waits (
      expire-IsFair calls.arrived calls.expired calls.granted id calls.gate.locked
        calls.gate.waiters calls.holders waits fair)
  | inr gone ↦ rw gone fair
]
step-IsFair releases calls fair =
    release-IsFair calls.arrived calls.expired calls.granted calls.gate.locked calls.gate.waiters
      calls.holders fair

run-IsFair : (events : List Event) (calls : Calls) → IsFair calls → IsFair (run events calls)
unfolding run
run-IsFair [] calls fair = fair
run-IsFair (event ∷ rest) calls fair =
    run-IsFair rest (step event calls) (step-IsFair event calls fair)

new_gate-IsFair : IsFair new_gate
unfolding without has
new_gate-IsFair = record {
  exclusive = (refl, λ _. refl);
  in_order = refl;
  distinct = tt;
  expired_arrived = λ id h. refl;
}

-- From a new gate, under every sequence of calls, timeouts and releases: exactly one call has the right
-- while the gate is locked and none otherwise, nobody waits at an open gate, and the calls that
-- were given the right, followed by those that wait, are all that came and did not time out, in
-- the order in which they came.
pub run_in_order :
    (events : List Event)
    → (length (run events new_gate).holders ≡ (if (run events new_gate).gate.locked then 1 else 0))
      × ((run events new_gate).gate.locked ≡ false → (run events new_gate).gate.waiters ≡ [])
      × ((run events new_gate).granted ++ (run events new_gate).gate.waiters
          ≡ without (run events new_gate).expired (run events new_gate).arrived)
run_in_order events =
    let fair = run-IsFair events new_gate new_gate-IsFair in
    (fair.exclusive.0, fair.exclusive.1, fair.in_order)
