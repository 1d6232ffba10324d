-- ===== src/Sessions/Storing.antt =====
-- About stored parts: what a commit leaves for the reads, and what a claim to finish needs.
use storix.Base.{
  ℕ, suc, ◌+◌, ◌<◌, ◌≤◌, Bool, true, none, some, List, [], ◌∷◌, ◌==◌, length, ◌≡◌, refl, inl, inr,
  Bool-cases, arith, subst, sym, ◌∙◌, ==_self, ==→eq,
}
use storix.Base.Rows.{AllRows, HasKey, row_of, rows_where, AllRows-map}
use storix.Base.Sort.{insert_by, sort_by}
use storix.Upload.Policy.{is_stored}
use storix.Sessions.Tables.{Part, Session}
use storix.Sessions.Finalize.{has_digest, in_sequence, stored_parts, is_all_stored}

-- A property of the rows goes through a sort.
AllRows-insert_by :
    {A : Type 0} (P : A → Type 0) (before : A → A → Bool) (x : A) (xs : List A)
    → P x
    → AllRows P xs
    → AllRows P (insert_by before x xs)
unfolding insert_by
AllRows-insert_by P before x [] p h = (p, tt)
AllRows-insert_by P before x (y ∷ ys) p (q, h) = elim (Bool-cases (before y x)) [
  | inl yes' ↦ rw yes' (q, AllRows-insert_by P before x ys p h)
  | inr no' ↦ rw no' (p, (q, h))
]

AllRows-sort_by :
    {A : Type 0} (P : A → Type 0) (before : A → A → Bool) (xs : List A)
    → AllRows P xs
    → AllRows P (sort_by before xs)
unfolding sort_by
AllRows-sort_by P before [] h = tt
AllRows-sort_by P before (x ∷ xs) (p, h) =
    AllRows-insert_by P before x (sort_by before xs) p (AllRows-sort_by P before xs h)

AllRows-where :
    {A : Type 0} (P : A → Type 0) (test : A → Bool) (xs : List A)
    → AllRows P xs
    → AllRows (λ x. P x × (test x ≡ true)) (rows_where test xs)
unfolding rows_where
AllRows-where P test [] h = tt
AllRows-where P test (x ∷ xs) (p, h) = elim (Bool-cases (test x)) [
  | inl yes' ↦ rw yes' ((p, yes'), AllRows-where P test xs h)
  | inr no' ↦ rw no' (AllRows-where P test xs h)
]

-- Every row is found by its key.
AllRows-own :
    (ps : List Part)
    → HasKey Part.part_index ps
    → AllRows (λ p. row_of Part.part_index p.part_index ps ≡ some p) ps
unfolding row_of
AllRows-own [] d = tt
AllRows-own (p ∷ ps) (new, d) = (
  rw (==_self p.part_index) refl,
  AllRows-map (λ q. row_of Part.part_index q.part_index ps ≡ some q)
      (λ q. row_of Part.part_index q.part_index (p ∷ ps) ≡ some q) ps
      (λ q own. elim (Bool-cases (p.part_index == q.part_index)) [
        | inl same ↦ absurd (
            none_some q (
              sym (
                subst (λ k. row_of Part.part_index k ps ≡ none)
                  (==→eq p.part_index q.part_index same) new)
              ∙ own))
        | inr other ↦ rw other own
      ])
      (AllRows-own ps d),
)
  where
    none_some : (q : Part) → none ≡ some q → ⊥
    none_some q e = cc

-- A part of the list that is stored.
abbrev IsStoredIn : List Part → Part → Type 0
IsStoredIn ps p = (row_of Part.part_index p.part_index ps ≡ some p) × (is_stored p.state ≡ true)

stored_parts-IsStoredIn :
    (ps : List Part) → HasKey Part.part_index ps → AllRows (IsStoredIn ps) (stored_parts ps)
unfolding stored_parts
stored_parts-IsStoredIn ps d =
    AllRows-sort_by (IsStoredIn ps) _ (rows_where (λ p. is_stored p.state) ps)
      (AllRows-where _ (λ p. is_stored p.state) ps (AllRows-own ps d))

in_sequence-row_of :
    (ps found : List Part) (first index : ℕ)
    → AllRows (IsStoredIn ps) found
    → in_sequence first found ≡ true
    → first ≤ index
    → index < first + length found
    → (p : Part) × (row_of Part.part_index index ps ≡ some p)
      × (is_stored p.state ≡ true)
      × (has_digest p.digest ≡ true)
unfolding in_sequence
in_sequence-row_of ps [] first index h e low high = absurd (omega arith)
in_sequence-row_of ps (p ∷ rest) first index ((own, kept), h) e low high =
    elim (Bool-cases (first == index)) [
      | inl same ↦
          let here : p.part_index ≡ index = ground arith in
          (p, subst (λ k. row_of Part.part_index k ps ≡ some p) here own, kept, ground arith)
      | inr other ↦
          in_sequence-row_of ps rest (suc first) index h (ground arith) (ground arith)
            (ground arith)
    ]

-- A session whose parts are all stored has each of them, in state STORED and with a digest.
pub is_all_stored-row_of :
    (x : Session)
    → HasKey Part.part_index x.parts
    → is_all_stored x ≡ true
    → (index : ℕ) → index < x.part_count
    → (p : Part) × (row_of Part.part_index index x.parts ≡ some p)
      × (is_stored p.state ≡ true)
      × (has_digest p.digest ≡ true)
unfolding is_all_stored
is_all_stored-row_of x d all index inside =
    in_sequence-row_of x.parts (stored_parts x.parts) 0 index (stored_parts-IsStoredIn x.parts d)
      (ground arith) (omega arith) (ground arith)
