-- ===== src/Base/Keys.antt =====
-- The keys of the rows, and properties of all rows, under the statements on tables.
use Prim.Native.Nat.{ℕ}
use mathlib.Core.Path.{◌≡◌, refl, sym, subst}
use mathlib.Core.Logic.{inl, inr}
use mathlib.Core.Bool.{Bool}
use mathlib.Core.Option.{none, some}
use mathlib.Core.List.{List, [], ◌∷◌}
use native.Mathlib.Omega.{arith}
use storix.Base.Tests.{◌==◌, ==→eq, Bool-cases}
use storix.Base.Rows.{
  AllRows, rows_where, update_where, row_of, update_row, delete_row, HasKey, update_row-absent,
}

module _ {A : Type 0} (key : A → ℕ) where
  pub row_of-update_row-none :
      (xs : List A) (id j : ℕ) (f : A → A)
      → ((x : A) → key (f x) ≡ key x)
      → row_of key j xs ≡ none
      → row_of key j (update_row key id f xs) ≡ none
  unfolding row_of update_row
  row_of-update_row-none [] id j f k e = refl
  row_of-update_row-none (x ∷ xs) id j f k e = elim (Bool-cases (key x == j)) [
    | inl same ↦ absurd (ground arith)
    | inr other ↦ elim (Bool-cases (key x == id)) [
      | inl here ↦ rw (here, k x, other) (row_of-update_row-none xs id j f k (ground arith))
      | inr there ↦ rw (there, other) (row_of-update_row-none xs id j f k (ground arith))
    ]
  ]

  pub HasKey-update_row :
      (xs : List A) (id : ℕ) (f : A → A)
      → ((x : A) → key (f x) ≡ key x)
      → HasKey key xs
      → HasKey key (update_row key id f xs)
  unfolding update_row
  HasKey-update_row [] id f k d = tt
  HasKey-update_row (x ∷ xs) id f k (new, d) = elim (Bool-cases (key x == id)) [
    | inl same ↦
        rw (same, k x) (row_of-update_row-none xs id (key x) f k new, HasKey-update_row xs id f k d)
    | inr other ↦
        rw other (row_of-update_row-none xs id (key x) f k new, HasKey-update_row xs id f k d)
  ]

  row_of-delete_row-none :
      (xs : List A) (id j : ℕ) → row_of key j xs ≡ none → row_of key j (delete_row key id xs) ≡ none
  unfolding row_of delete_row
  row_of-delete_row-none [] id j e = refl
  row_of-delete_row-none (x ∷ xs) id j e = elim (Bool-cases (key x == j)) [
    | inl same ↦ absurd (ground arith)
    | inr other ↦ elim (Bool-cases (key x == id)) [
      | inl here ↦ rw here (row_of-delete_row-none xs id j (ground arith))
      | inr there ↦ rw (there, other) (row_of-delete_row-none xs id j (ground arith))
    ]
  ]

  pub HasKey-delete_row : (xs : List A) (id : ℕ) → HasKey key xs → HasKey key (delete_row key id xs)
  unfolding delete_row
  HasKey-delete_row [] id d = tt
  HasKey-delete_row (x ∷ xs) id (new, d) = elim (Bool-cases (key x == id)) [
    | inl same ↦ rw same (HasKey-delete_row xs id d)
    | inr other ↦ rw other (row_of-delete_row-none xs id (key x) new, HasKey-delete_row xs id d)
  ]

  pub AllRows-row_of :
      (P : A → Type 0) (xs : List A) (id : ℕ) (x : A)
      → AllRows P xs
      → row_of key id xs ≡ some x
      → P x
  unfolding row_of
  AllRows-row_of P [] id x h e = cc
  AllRows-row_of P (y ∷ ys) id x (h, hs) e = elim (Bool-cases (key y == id)) [
    | inl same ↦ let it : y ≡ x = ground arith in subst P it h
    | inr other ↦ AllRows-row_of P ys id x hs (ground arith)
  ]

  pub AllRows-update_row :
      (P : A → Type 0) (xs : List A) (id : ℕ) (f : A → A)
      → ((x : A) → P x → P (f x))
      → AllRows P xs
      → AllRows P (update_row key id f xs)
  unfolding update_row
  AllRows-update_row P [] id f k h = tt
  AllRows-update_row P (x ∷ xs) id f k (h, hs) = elim (Bool-cases (key x == id)) [
    | inl yes' ↦ rw yes' (k x h, AllRows-update_row P xs id f k hs)
    | inr no' ↦ rw no' (h, AllRows-update_row P xs id f k hs)
  ]

  pub AllRows-delete_row :
      (P : A → Type 0) (xs : List A) (id : ℕ) → AllRows P xs → AllRows P (delete_row key id xs)
  unfolding delete_row
  AllRows-delete_row P [] id h = tt
  AllRows-delete_row P (x ∷ xs) id (h, hs) = elim (Bool-cases (key x == id)) [
    | inl yes' ↦ rw yes' (AllRows-delete_row P xs id hs)
    | inr no' ↦ rw no' (h, AllRows-delete_row P xs id hs)
  ]

  row_of-update_where-none :
      (test : A → Bool) (f : A → A) (xs : List A) (j : ℕ)
      → ((x : A) → key (f x) ≡ key x)
      → row_of key j xs ≡ none
      → row_of key j (update_where test f xs) ≡ none
  unfolding row_of update_where
  row_of-update_where-none test f [] j k e = refl
  row_of-update_where-none test f (x ∷ xs) j k e = elim (Bool-cases (key x == j)) [
    | inl same ↦ absurd (ground arith)
    | inr other ↦ elim (Bool-cases (test x)) [
      | inl here ↦ rw (here, k x, other) (row_of-update_where-none test f xs j k (ground arith))
      | inr there ↦ rw (there, other) (row_of-update_where-none test f xs j k (ground arith))
    ]
  ]

  pub HasKey-update_where :
      (test : A → Bool) (f : A → A) (xs : List A)
      → ((x : A) → key (f x) ≡ key x)
      → HasKey key xs
      → HasKey key (update_where test f xs)
  unfolding update_where
  HasKey-update_where test f [] k d = tt
  HasKey-update_where test f (x ∷ xs) k (new, d) = elim (Bool-cases (test x)) [
    | inl same ↦
        rw (same, k x)
          (row_of-update_where-none test f xs (key x) k new, HasKey-update_where test f xs k d)
    | inr other ↦
        rw other
          (row_of-update_where-none test f xs (key x) k new, HasKey-update_where test f xs k d)
  ]

  row_of-rows_where-none :
      (test : A → Bool) (xs : List A) (j : ℕ)
      → row_of key j xs ≡ none
      → row_of key j (rows_where test xs) ≡ none
  unfolding row_of rows_where
  row_of-rows_where-none test [] j e = refl
  row_of-rows_where-none test (x ∷ xs) j e = elim (Bool-cases (key x == j)) [
    | inl same ↦ absurd (ground arith)
    | inr other ↦ elim (Bool-cases (test x)) [
      | inl here ↦ rw (here, other) (row_of-rows_where-none test xs j (ground arith))
      | inr there ↦ rw there (row_of-rows_where-none test xs j (ground arith))
    ]
  ]

  pub HasKey-rows_where :
      (test : A → Bool) (xs : List A) → HasKey key xs → HasKey key (rows_where test xs)
  unfolding rows_where
  HasKey-rows_where test [] d = tt
  HasKey-rows_where test (x ∷ xs) (new, d) = elim (Bool-cases (test x)) [
    | inl here ↦ rw here (row_of-rows_where-none test xs (key x) new, HasKey-rows_where test xs d)
    | inr there ↦ rw there (HasKey-rows_where test xs d)
  ]

  pub AllRows-update_row_at :
      (P : A → Type 0) (xs : List A) (id : ℕ) (f : A → A) (x : A)
      → HasKey key xs
      → row_of key id xs ≡ some x
      → P (f x)
      → AllRows P xs
      → AllRows P (update_row key id f xs)
  unfolding row_of update_row
  AllRows-update_row_at P [] id f x d e p h = cc
  AllRows-update_row_at P (y ∷ ys) id f x (new, d) e p (h, hs) = elim (Bool-cases (key y == id)) [
    | inl same ↦
        let it : y ≡ x = ground arith in
        let gone =
          update_row-absent key ys id f
            (subst (λ k. row_of key k ys ≡ none) (==→eq (key y) id same) new) in
        rw (same, gone) (subst (λ z. P (f z)) (sym it) p, hs)
    | inr other ↦ rw other (h, AllRows-update_row_at P ys id f x d (ground arith) p hs)
  ]

  pub row_of-update_row :
      (xs : List A) (id : ℕ) (f : A → A) (x : A)
      → ((y : A) → key (f y) ≡ key y)
      → row_of key id xs ≡ some x
      → row_of key id (update_row key id f xs) ≡ some (f x)
  unfolding row_of update_row
  row_of-update_row [] id f x same e = cc
  row_of-update_row (y ∷ ys) id f x same e = elim (Bool-cases (key y == id)) [
    | inl here ↦ let it : y ≡ x = ground arith in rw (here, same y, here, it) refl
    | inr other ↦ rw (other, other) (row_of-update_row ys id f x same (ground arith))
  ]

  pub row_of-delete_row : (xs : List A) (id : ℕ) → row_of key id (delete_row key id xs) ≡ none
  unfolding row_of delete_row
  row_of-delete_row [] id = refl
  row_of-delete_row (y ∷ ys) id = elim (Bool-cases (key y == id)) [
    | inl here ↦ rw here (row_of-delete_row ys id)
    | inr other ↦ rw (other, other) (row_of-delete_row ys id)
  ]

  -- No other row has the key of a row.
  pub AllRows-only :
      (xs : List A) (id : ℕ) (x : A)
      → HasKey key xs
      → row_of key id xs ≡ some x
      → AllRows (λ y. key y ≡ id → y ≡ x) xs
  unfolding row_of
  AllRows-only [] id x d e = tt
  AllRows-only (y ∷ ys) id x (new, d) e = elim (Bool-cases (key y == id)) [
    | inl same ↦
        let here = ==→eq (key y) id same in
        (λ _. ground arith, AllRows-absent ys id x (subst (λ k. row_of key k ys ≡ none) here new))
    | inr other ↦ (λ h. absurd (ground arith), AllRows-only ys id x d (ground arith))
  ]
    where
      AllRows-absent :
          (ys : List A) (id : ℕ) (x : A)
          → row_of key id ys ≡ none
          → AllRows (λ y. key y ≡ id → y ≡ x) ys
      AllRows-absent [] id x e = tt
      AllRows-absent (y ∷ ys) id x e = elim (Bool-cases (key y == id)) [
        | inl same ↦ absurd (ground arith)
        | inr other ↦ (λ h. absurd (ground arith), AllRows-absent ys id x (ground arith))
      ]
