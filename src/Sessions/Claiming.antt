-- ===== src/Sessions/Claiming.antt =====
-- About `claimFinalize`: what a claim needs, what it leaves, and that the claim can be used.
use storix.Base.{
  ℕ, ◌+◌, ◌<◌, true, false, some, List, ◌==◌, String, ◌≡◌, refl, Result, ok, inl, inr, Bool-cases,
  Option-cases, arith, subst, ==→eq,
}
use storix.Base.Rows.{row_of}
use storix.Base.Keys.{AllRows-row_of, row_of-update_row}
use storix.Upload.Policy.{is_stored}
use storix.Sessions.Tables.{
  SessionState, opened, finalizing, completed, cancelled, expired, failed, Part, Session, Store,
  SessionError, is_open, is_past, lock_usage, assert_namespace_active, has_namespace, is_active,
  find_session, update_session,
}
use storix.Sessions.Books.{IsAccounted, Keeps}
use storix.Sessions.Finalize.{
  ClaimFinalizeResult, claimed, has_digest, stored_parts, is_all_stored, leased, claim_open,
  claim_state, claim_finalize,
}
use storix.Sessions.Storing.{is_all_stored-row_of}
use storix.Sessions.Kept.Finalize.{claim_finalize-Keeps}
use storix.Sessions.Commit.{commit}
use storix.Sessions.Committing.{IsCompletedWith, commit_iff}
use storix.Vfs.State.{Db}
use storix.Vfs.Mutation.{M, pure}
use storix.Vfs.Commit.{Limits, with_mutation}

module _ (ns id token duration_ms now claim_now : ℕ) (s : Store) where
  -- What is so where the answer is a claim.
  abbrev Claims : Result SessionError (ClaimFinalizeResult × Store) → Type 0
  Claims (ok (claimed t x ps, s')) =
      (t ≡ token)
      × (has_namespace ns s'.namespaces ≡ true)
      × (find_session id s ≡ some x)
      × (x.namespace_id ≡ ns)
      × (x.state ≡ opened)
      × (is_past x claim_now ≡ false)
      × (is_all_stored x ≡ true)
      × (ps ≡ stored_parts x.parts)
      × (find_session id s' ≡ some (leased token (claim_now + duration_ms) x))
  Claims _ = Unit

  claim_open-Claims :
      (x : Session)
      → has_namespace ns s.namespaces ≡ true
      → find_session id s ≡ some x
      → x.namespace_id ≡ ns
      → x.state ≡ opened
      → Claims (claim_open ns id token duration_ms now claim_now x s)
  unfolding find_session update_session
  claim_open-Claims x there found home state = elim (Bool-cases (is_past x now)) [
    | inl yes' ↦ rw yes' tt
    | inr early ↦ elim (Bool-cases (is_all_stored x)) [
      | inr no' ↦ rw (early, no') tt
      | inl all ↦ elim (Bool-cases (is_past x claim_now)) [
        | inl yes' ↦ rw (early, all, yes') tt
        | inr no' ↦
            let own : (x.namespace_id == ns) ≡ true = ground arith in
            let is_opened : is_open x.state ≡ true = rw state refl in
            let after =
              row_of-update_row Session.id s.sessions id (leased token (claim_now + duration_ms)) x
                (λ y. refl) found in
            rw (early, all, no', found, own, is_opened, no')
              (refl, there, found, home, state, no', all, refl, after)
      ]
    ]
  ]

  claim_state-Claims :
      (state : SessionState) (x : Session)
      → x.state ≡ state
      → has_namespace ns s.namespaces ≡ true
      → find_session id s ≡ some x
      → x.namespace_id ≡ ns
      → Claims (claim_state ns id token duration_ms now claim_now state x s)
  claim_state-Claims opened x e there found home = claim_open-Claims x there found home e
  claim_state-Claims finalizing x e there found home = tt
  claim_state-Claims completed x e there found home = tt
  claim_state-Claims cancelled x e there found home = tt
  claim_state-Claims expired x e there found home = tt
  claim_state-Claims failed x e there found home = tt

  claim_finalize-Claims : Claims (claim_finalize ns id token duration_ms now claim_now s)
  unfolding claim_finalize lock_usage assert_namespace_active
  claim_finalize-Claims = elim (Option-cases (find_session id s)) [
    | inl none' ↦ rw none' tt
    | inr (x, found) ↦ elim (Bool-cases (x.namespace_id == ns)) [
      | inr no' ↦ rw (found, no') tt
      | inl own ↦ elim (Bool-cases (has_namespace ns s.namespaces)) [
        | inr no' ↦ rw (found, own, no') tt
        | inl there ↦ elim (Bool-cases (is_active ns s.namespaces)) [
          | inr no' ↦ rw (found, own, there, no') tt
          | inl active ↦
              rw (found, own, there, active, found, own)
                (claim_state-Claims x.state x refl there found (==→eq x.namespace_id ns own))
        ]
      ]
    ]
  ]

-- In accounted tables, a session is claimed only if it is OPEN in the namespace, has not expired, and has
-- every part from the first to the last stored with a digest. The claim then stands in its row, with the
-- new token and a lease of the asked length.
pub claim_finalize-claimed :
    (ns id token duration_ms now claim_now t : ℕ) (x : Session) (ps : List Part) (s s' : Store)
    → IsAccounted s
    → claim_finalize ns id token duration_ms now claim_now s ≡ ok (claimed t x ps, s')
    → (find_session id s ≡ some x)
      × (x.namespace_id ≡ ns)
      × (x.state ≡ opened)
      × (is_past x claim_now ≡ false)
      × ((index : ℕ)
          → index < x.part_count
          → (p : Part) × (row_of Part.part_index index x.parts ≡ some p)
            × (is_stored p.state ≡ true)
            × (has_digest p.digest ≡ true))
      × (find_session id s' ≡ some (leased t (claim_now + duration_ms) x))
unfolding find_session
claim_finalize-claimed ns id token duration_ms now claim_now t x ps s s' h e =
    let (same, there, found, home, state, early, all, list, after) =
      subst (Claims ns id token duration_ms now claim_now s) e
        (claim_finalize-Claims ns id token duration_ms now claim_now s) in
    (
      found,
      home,
      state,
      early,
      is_all_stored-row_of x (AllRows-row_of Session.id _ s.sessions id x h.0.1 found) all,
      rw same after,
    )

-- A claimed session can be finished: in accounted tables, once `claimFinalize` has given a claim, the
-- commit with its token at any time before the lease runs out, if no other call came between, goes through
-- wherever the mutation of the nodes alone does, its checks of the namespace, the root, the counters and
-- the quota included, and the session is COMPLETED with the worker's answer.
pub claim_finalize-commit :
    {A : Type 0} (limits : Limits) (root_id : ℕ) (put : M A) (answer_of : A → Db → ℕ × String)
    (ns id token duration_ms now claim_now t : ℕ) (x : Session) (ps : List Part) (s s' : Store)
    (lease_ms later end_now : ℕ) (db db' : Db) (value : A)
    → IsAccounted s
    → claim_finalize ns id token duration_ms now claim_now s ≡ ok (claimed t x ps, s')
    → later < claim_now + duration_ms
    → with_mutation limits false root_id put (λ _. pure tt) db ≡ ok (value, db')
    → (s'' : Store) × (commit limits root_id put answer_of ns id t lease_ms later end_now db s'
        ≡ ok (value, db', s''))
      × IsCompletedWith id (answer_of value db') s''
claim_finalize-commit limits root_id put answer_of ns id token duration_ms now claim_now t x ps s s'
      lease_ms later end_now db db' value h e soon went =
    let (same, there, found, home, state, early, all, list, after) =
      subst (Claims ns id token duration_ms now claim_now s) e
        (claim_finalize-Claims ns id token duration_ms now claim_now s) in
    let h' : IsAccounted s' =
      subst (λ r. Keeps r) e (claim_finalize-Keeps ns id token duration_ms now claim_now s h) in
    (commit_iff limits root_id put answer_of ns id t lease_ms later end_now db db' value s' h'
        there).1
      ((leased t (claim_now + duration_ms) x, rw same after, home, refl, refl, ground arith), went)
