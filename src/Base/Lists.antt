-- ===== src/Base/Lists.antt =====
-- Lists measured by native numbers, and finite sets of numbers kept as lists without repetition.
use Prim.Native.Nat.{ℕ, zero, suc, ◌+◌, ◌≤◌, ◌<◌}
use mathlib.Core.Path.{◌≡◌, refl, sym}
use mathlib.Core.Logic.{inl, inr}
use mathlib.Core.Bool.{Bool, true, false, ◌||◌}
use mathlib.Core.List.{List, [], ◌∷◌, ◌++◌}
use native.Mathlib.Omega.{arith}
use storix.Base.Tests.{◌==◌, if◌then◌else◌, Bool-cases}

module _ {ℓ} {A : Type ℓ} where
  abbrev pub length : List A → ℕ
  length [] = 0
  length (x ∷ xs) = suc (length xs)

  pub length-append : (xs ys : List A) → length (xs ++ ys) ≡ length xs + length ys
  length-append [] ys = omega arith
  length-append (x ∷ xs) ys = omega (arith, length-append xs ys)

-- `Set.has` on a set of numbers.
unfoldable pub has : List ℕ → ℕ → Bool
has [] a = false
has (x ∷ xs) a = x == a || has xs a

-- `Set.add`: a member is not added again.
unfoldable pub add : ℕ → List ℕ → List ℕ
unfolding has
add a xs = if has xs a then xs else a ∷ xs

-- The members of a set below `n`, counted.
unfoldable pub count_below : List ℕ → ℕ → ℕ
count_below xs zero = 0
count_below xs (suc n) = (if has xs n then 1 else 0) + count_below xs n

-- Without repetition, all members below `n`.
abbrev pub IsSetBelow : ℕ → List ℕ → Type 0
IsSetBelow n [] = Unit
IsSetBelow n (x ∷ xs) = (x < n) × (has xs x ≡ false) × IsSetBelow n xs

pub has-empty : (a : ℕ) → has [] a ≡ false
unfolding has
has-empty a = refl

pub has-add : (a b : ℕ) (xs : List ℕ) → has (add a xs) b ≡ (a == b || has xs b)
unfolding add
has-add a b xs = elim (Bool-cases (has xs a)) [
  | inl old ↦ rw old (ground (arith, same old))
  | inr new ↦ rw new refl
]
  where
    same : has xs a ≡ true → (a == b) ≡ true → has xs b ≡ true
    same old e = ground arith

pub add-IsSetBelow : (n a : ℕ) (xs : List ℕ) → a < n → IsSetBelow n xs → IsSetBelow n (add a xs)
unfolding add
add-IsSetBelow n a xs lt h = ground arith

-- One more member below `n` is one more in the count.
count_below-absent : (x n : ℕ) (xs : List ℕ) → n ≤ x → count_below (x ∷ xs) n ≡ count_below xs n
unfolding count_below has
count_below-absent x zero xs h = refl
count_below-absent x (suc n) xs h = ground (arith, count_below-absent x n xs)

count_below-cons :
    (x n : ℕ) (xs : List ℕ)
    → x < n
    → has xs x ≡ false
    → count_below (x ∷ xs) n ≡ 1 + count_below xs n
unfolding count_below has
count_below-cons x zero xs lt new = absurd (omega arith)
count_below-cons x (suc n) xs lt new = elim (Bool-cases (x == n)) [
  | inl e ↦ ground (arith, count_below-absent x n xs)
  | inr e ↦ ground (arith, count_below-cons x n xs)
]

count_below-empty : (n : ℕ) → count_below [] n ≡ 0
unfolding count_below has
count_below-empty zero = refl
count_below-empty (suc n) = omega (arith, count_below-empty n)

-- The size of a set below `n` is the count of the numbers below `n` that it has.
pub length-count_below : (n : ℕ) (xs : List ℕ) → IsSetBelow n xs → length xs ≡ count_below xs n
unfolding count_below
length-count_below n [] h = sym (count_below-empty n)
length-count_below n (x ∷ xs) (lt, new, h) =
    omega (arith, length-count_below n xs h, count_below-cons x n xs lt new)

count_below-le : (xs : List ℕ) (n : ℕ) → count_below xs n ≤ n
unfolding count_below
count_below-le xs zero = omega arith
count_below-le xs (suc n) = ground (arith, count_below-le xs n)

pub count_below-full :
    (xs : List ℕ) (n : ℕ) → count_below xs n ≡ n → (i : ℕ) → i < n → has xs i ≡ true
unfolding count_below
count_below-full xs zero e i h = absurd (omega arith)
count_below-full xs (suc n) e i h = elim (Bool-cases (i == n)) [
  | inl same ↦ ground (arith, count_below-le xs n)
  | inr other ↦ count_below-full xs n (ground (arith, count_below-le xs n)) i (ground arith)
]

pub count_below_of_full :
    (xs : List ℕ) (n : ℕ) → ((i : ℕ) → i < n → has xs i ≡ true) → count_below xs n ≡ n
unfolding count_below
count_below_of_full xs zero all = refl
count_below_of_full xs (suc n) all =
    ground (arith, all n (omega arith), count_below_of_full xs n (λ i h. all i (omega arith)))
