-- ===== src/Base/Rows.antt =====
-- Tables as lists of rows, with the statements that read and change the row of one key, and the sums
-- over the rows.
use Prim.Native.Nat.{ℕ, ◌+◌}
use mathlib.Core.Path.{◌≡◌, refl, subst}
use mathlib.Core.Logic.{◌⊎◌, inl, inr}
use mathlib.Core.Bool.{Bool, true, false}
use mathlib.Core.Option.{Option, none, some}
use mathlib.Core.List.{List, [], ◌∷◌}
use native.Mathlib.Omega.{arith}
use storix.Base.Tests.{◌==◌, if◌then◌else◌, ==→eq, Bool-cases}

module _ {A : Type 0} where
  -- The sum of a weight over the rows.
  abbrev pub sum_of : (A → ℕ) → List A → ℕ
  sum_of w [] = 0
  sum_of w (x ∷ xs) = w x + sum_of w xs

  abbrev pub AllRows : (A → Type 0) → List A → Type 0
  AllRows P [] = Unit
  AllRows P (x ∷ xs) = P x × AllRows P xs

  -- Some row has the property.
  abbrev pub AnyRow : (A → Type 0) → List A → Type 0
  AnyRow P [] = ⊥
  AnyRow P (x ∷ xs) = P x ⊎ AnyRow P xs

  pub AllRows-map :
      (P Q : A → Type 0) (xs : List A) → ((x : A) → P x → Q x) → AllRows P xs → AllRows Q xs
  AllRows-map P Q [] f h = tt
  AllRows-map P Q (x ∷ xs) f (h, hs) = (f x h, AllRows-map P Q xs f hs)

  -- SELECT, UPDATE and DELETE by a condition.
  unfoldable pub rows_where : (A → Bool) → List A → List A
  rows_where test [] = []
  rows_where test (x ∷ xs) = if test x then x ∷ rows_where test xs else rows_where test xs

  unfoldable pub update_where : (A → Bool) → (A → A) → List A → List A
  update_where test f [] = []
  update_where test f (x ∷ xs) = (if test x then f x else x) ∷ update_where test f xs

  pub sum_of-update_where :
      (w : A → ℕ) (test : A → Bool) (f : A → A) (xs : List A)
      → ((x : A) → test x ≡ true → w (f x) ≡ w x)
      → sum_of w (update_where test f xs) ≡ sum_of w xs
  unfolding update_where
  sum_of-update_where w test f [] same = refl
  sum_of-update_where w test f (x ∷ xs) same = elim (Bool-cases (test x)) [
    | inl yes' ↦ rw yes' (omega (arith, same x yes', sum_of-update_where w test f xs same))
    | inr no' ↦ rw no' (omega (arith, sum_of-update_where w test f xs same))
  ]

  pub sum_of-rows_where :
      (w : A → ℕ) (test : A → Bool) (xs : List A)
      → ((x : A) → test x ≡ false → w x ≡ 0)
      → sum_of w (rows_where test xs) ≡ sum_of w xs
  unfolding rows_where
  sum_of-rows_where w test [] gone = refl
  sum_of-rows_where w test (x ∷ xs) gone = elim (Bool-cases (test x)) [
    | inl yes' ↦ rw yes' (omega (arith, sum_of-rows_where w test xs gone))
    | inr no' ↦ rw no' (omega (arith, gone x no', sum_of-rows_where w test xs gone))
  ]

  pub AllRows-rows_where :
      (P : A → Type 0) (test : A → Bool) (xs : List A)
      → AllRows P xs
      → AllRows P (rows_where test xs)
  unfolding rows_where
  AllRows-rows_where P test [] h = tt
  AllRows-rows_where P test (x ∷ xs) (h, hs) = elim (Bool-cases (test x)) [
    | inl yes' ↦ rw yes' (h, AllRows-rows_where P test xs hs)
    | inr no' ↦ rw no' (AllRows-rows_where P test xs hs)
  ]

  pub AllRows-update_where :
      (P : A → Type 0) (test : A → Bool) (f : A → A) (xs : List A)
      → ((x : A) → P x → P (f x))
      → AllRows P xs
      → AllRows P (update_where test f xs)
  unfolding update_where
  AllRows-update_where P test f [] k h = tt
  AllRows-update_where P test f (x ∷ xs) k (h, hs) = elim (Bool-cases (test x)) [
    | inl yes' ↦ rw yes' (k x h, AllRows-update_where P test f xs k hs)
    | inr no' ↦ rw no' (h, AllRows-update_where P test f xs k hs)
  ]

module _ {A : Type 0} (key : A → ℕ) where
  unfoldable pub row_of : ℕ → List A → Option A
  row_of id [] = none
  row_of id (x ∷ xs) = if key x == id then some x else row_of id xs

  unfoldable pub update_row : ℕ → (A → A) → List A → List A
  update_row id f [] = []
  update_row id f (x ∷ xs) = (if key x == id then f x else x) ∷ update_row id f xs

  unfoldable pub delete_row : ℕ → List A → List A
  delete_row id [] = []
  delete_row id (x ∷ xs) = if key x == id then delete_row id xs else x ∷ delete_row id xs

  -- A primary key.
  abbrev pub HasKey : List A → Type 0
  HasKey [] = Unit
  HasKey (x ∷ xs) = (row_of (key x) xs ≡ none) × HasKey xs

  pub row_of-key : (xs : List A) (id : ℕ) (x : A) → row_of id xs ≡ some x → key x ≡ id
  unfolding row_of
  row_of-key [] id x e = cc
  row_of-key (y ∷ ys) id x e = elim (Bool-cases (key y == id)) [
    | inl same ↦ let it : y ≡ x = ground arith in subst (λ z. key z ≡ id) it (==→eq (key y) id same)
    | inr other ↦ row_of-key ys id x (ground arith)
  ]

  pub update_row-absent :
      (xs : List A) (id : ℕ) (f : A → A) → row_of id xs ≡ none → update_row id f xs ≡ xs
  unfolding row_of update_row
  update_row-absent [] id f e = refl
  update_row-absent (x ∷ xs) id f e = elim (Bool-cases (key x == id)) [
    | inl same ↦ absurd (ground arith)
    | inr other ↦ rw other (rw (update_row-absent xs id f (ground arith)) refl)
  ]

  pub delete_row-absent : (xs : List A) (id : ℕ) → row_of id xs ≡ none → delete_row id xs ≡ xs
  unfolding row_of delete_row
  delete_row-absent [] id e = refl
  delete_row-absent (x ∷ xs) id e = elim (Bool-cases (key x == id)) [
    | inl same ↦ absurd (ground arith)
    | inr other ↦ rw other (rw (delete_row-absent xs id (ground arith)) refl)
  ]

  -- An update of one row moves a sum by that row's part.
  pub sum_of-update_row :
      (w : A → ℕ) (xs : List A) (id : ℕ) (f : A → A) (x : A)
      → HasKey xs
      → row_of id xs ≡ some x
      → sum_of w (update_row id f xs) + w x ≡ sum_of w xs + w (f x)
  unfolding row_of update_row
  sum_of-update_row w [] id f x d e = cc
  sum_of-update_row w (y ∷ ys) id f x (new, d) e = elim (Bool-cases (key y == id)) [
    | inl same ↦
        let it : y ≡ x = ground arith in
        let gone =
          update_row-absent ys id f (subst (λ k. row_of k ys ≡ none) (==→eq (key y) id same) new) in
        rw (same, gone, it) (omega arith)
    | inr other ↦ rw other (omega (arith, sum_of-update_row w ys id f x d (ground arith)))
  ]

  pub sum_of-delete_row :
      (w : A → ℕ) (xs : List A) (id : ℕ) (x : A)
      → HasKey xs
      → row_of id xs ≡ some x
      → sum_of w (delete_row id xs) + w x ≡ sum_of w xs
  unfolding row_of delete_row
  sum_of-delete_row w [] id x d e = cc
  sum_of-delete_row w (y ∷ ys) id x (new, d) e = elim (Bool-cases (key y == id)) [
    | inl same ↦
        let it : y ≡ x = ground arith in
        let gone =
          delete_row-absent ys id (subst (λ k. row_of k ys ≡ none) (==→eq (key y) id same) new) in
        rw (same, gone, it) (omega arith)
    | inr other ↦ rw other (omega (arith, sum_of-delete_row w ys id x d (ground arith)))
  ]
