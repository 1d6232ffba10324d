-- ===== src/Sessions/Columns.antt =====
-- The statement on one session keeps the counters equal to the rows, with the charge where the
-- session comes to its end.
use storix.Base.{ℕ, Bool, true, false, some, ◌≡◌, refl, inl, inr, Bool-cases, Option-cases, subst}
use storix.Base.Int.{ℤ, pos, negsuc}
use storix.Base.Rows.{row_of, update_row}
use storix.Sessions.Tables.{
  Session, Store, M, ◌>>=◌, ◌>>◌, pure, on_affected, is_live, active_sessions, change_usage,
  find_session, update_session,
}
use storix.Sessions.Books.{IsKeyed, IsAccounted, Keeps, Owes, change_usage-Keeps}
use storix.Sessions.Rows.{
  with_sessions, Differ, one_if, Owes-IsBalanced, session-Owes, update_row-IsKeyed,
}
use storix.Sessions.Charges.{Keeps-pure}

-- A change that leaves the keys, the namespace and the parts of a session.
abbrev pub IsOwn : (Session → Session) → Type 0
IsOwn f =
    (y : Session)
    → ((f y).id ≡ y.id) × ((f y).namespace_id ≡ y.namespace_id) × ((f y).parts ≡ y.parts)

module _ (id : ℕ) (test : Session → Bool) (f : Session → Session) (own : IsOwn f) (s : Store) where
  abbrev changed : Store
  changed = with_sessions (update_row Session.id id f s.sessions) s

  own-IsKeyed : IsAccounted s → IsKeyed changed
  own-IsKeyed h =
      update_row-IsKeyed s id f (λ y. (own y).0) (λ y. (own y).1) (λ y k. rw (own y).2 k) h.0

  own-Owes :
      (x : Session) (amount : ℤ)
      → IsAccounted s
      → row_of Session.id id s.sessions ≡ some x
      → Differ (one_if (is_live x.state)) (one_if (is_live (f x).state)) amount
      → Owes x.namespace_id active_sessions amount changed
  own-Owes x amount h found moved =
      session-Owes s id f x amount (λ y. (own y).1) (λ y. (own y).2) h found moved

  pub update_session-Keeps :
      ((y : Session) → test y ≡ true → is_live (f y).state ≡ is_live y.state)
      → IsAccounted s
      → Keeps (update_session id test f s)
  unfolding update_session find_session
  update_session-Keeps live h = elim (Option-cases (row_of Session.id id s.sessions)) [
    | inl none' ↦ rw none' h
    | inr (x, e) ↦ elim (Bool-cases (test x)) [
      | inl yes' ↦
          rw (e, yes')
            (
              own-IsKeyed h,
              Owes-IsBalanced x.namespace_id active_sessions changed
                  (own-Owes x (pos 0) h e (rw (live x yes') refl)),
            )
      | inr no' ↦ rw (e, no') h
    ]
  ]

  -- A session that was OPEN or FINALIZING ends, and its namespace owes one.
  pub update_session-ends :
      {A : Type 0} (ns : ℕ) (m k : M A)
      → ((y : Session)
          → test y ≡ true
          → (y.namespace_id ≡ ns) × (is_live y.state ≡ true) × (is_live (f y).state ≡ false))
      → ((s' : Store) → IsKeyed s' → Owes ns active_sessions (negsuc 0) s' → Keeps (m s'))
      → Keeps (k s)
      → IsAccounted s
      → Keeps ((update_session id test f >>= on_affected m k) s)
  unfolding update_session find_session
  update_session-ends ns m k ends pays kept h =
      elim (Option-cases (row_of Session.id id s.sessions)) [
        | inl none' ↦ rw none' kept
        | inr (x, e) ↦ elim (Bool-cases (test x)) [
          | inl yes' ↦
              let (home, live, over) = ends x yes' in
              let owes = own-Owes x (negsuc 0) h e (rw (live, over) refl) in
              rw (e, yes')
                (pays changed (own-IsKeyed h)
                  (subst (λ n. Owes n active_sessions (negsuc 0) changed) home owes))
          | inr no' ↦ rw (e, no') kept
        ]
      ]

-- The counter of the namespace goes down by one.
pub one_less-Keeps :
    {A : Type 0} (ns : ℕ) (a : A) (s : Store)
    → IsKeyed s
    → Owes ns active_sessions (negsuc 0) s
    → Keeps ((change_usage ns active_sessions (negsuc 0) >> pure a) s)
one_less-Keeps ns a s keyed owes =
    Keeps-pure (change_usage ns active_sessions (negsuc 0) s) (λ _. a)
      (change_usage-Keeps ns active_sessions (negsuc 0) s keyed owes)
