-- ===== src/Receipt/Tests.antt =====
-- Runs of the receipt statements, and the theorems at concrete inputs.
use storix.Base.{◌+◌, ◌≡◌, refl, none, some, List, [], ◌∷◌, true, false, arith}
use storix.Receipt.Statements.{reserved, complete, Row, Stored}
use storix.Receipt.Claim.{busy, claim}
use storix.Receipt.Claiming.{quiet, claim_of, claim-quiet}
use storix.Receipt.Fencing.{
  Statement, inserts, takes_over, renews, completes, releases, prunes, exec, run, completed,
  completions, completed_deletions, completions_balance, complete_stays, stale_owner_blocked,
  stale_owner_completes_after_release,
}

abbrev answer : Stored
answer = record {
  method = "POST";
  fingerprint = "f";
  status = 201;
  body = "{}";
  headers = "{}";
  request_body_bytes = none;
}

abbrev abandoned : Row
abandoned = record {
  state = reserved;
  generation = 1;
  lease_expires_at = some 60;
  expires_at = 1000;
  stored = none;
}

abbrev finished : Row
finished = record {
  state = complete;
  generation = 2;
  lease_expires_at = none;
  expires_at = 1000;
  stored = some answer;
}

abbrev requests : List Statement
requests =
    inserts 60 0 70
    ∷ takes_over 60 70
    ∷ completes 1 answer 80
    ∷ completes 2 answer 80
    ∷ completes 2 answer 81
    ∷ []

one_completion : completions requests (some abandoned) ≡ 1
unfolding completions
one_completion = refl

busy_runs : (claim 60 10 (quiet 10) (some abandoned)).0 ≡ busy 1
unfolding claim
busy_runs = refl

claim-quiet_example : claim 60 70 (quiet 70) (some abandoned) ≡ claim_of 60 70 70 (some abandoned)
claim-quiet_example = claim-quiet 60 70 70 (some abandoned)

completions_balance_example :
    completed (some abandoned) + completions requests (some abandoned)
    ≡ completed (run requests (some abandoned)) + completed_deletions requests (some abandoned)
completions_balance_example = completions_balance requests (some abandoned)

complete_stays_example :
    run (prunes 999 0 ∷ renews 60 2 0 ∷ releases 2 ∷ []) (some finished) ≡ some finished
complete_stays_example =
    complete_stays (prunes 999 0 ∷ renews 60 2 0 ∷ releases 2 ∷ []) finished refl (omega arith)

stale_owner_blocked_example :
    (exec
        (completes 1 answer 80)
        (run (renews 60 2 0 ∷ []) (some (record abandoned { generation = 2 })))
      ≡ (false, run (renews 60 2 0 ∷ []) (some (record abandoned { generation = 2 }))))
    × (exec (renews 60 1 80) (run (renews 60 2 0 ∷ []) (some (record abandoned { generation = 2 })))
        ≡ (false, run (renews 60 2 0 ∷ []) (some (record abandoned { generation = 2 }))))
    × (exec (releases 1) (run (renews 60 2 0 ∷ []) (some (record abandoned { generation = 2 })))
        ≡ (false, run (renews 60 2 0 ∷ []) (some (record abandoned { generation = 2 }))))
unfolding exec
stale_owner_blocked_example =
    stale_owner_blocked (renews 60 2 0 ∷ []) 1 60 80 answer
      (some (record abandoned { generation = 2 })) (omega arith) ((λ e. cc), tt)

stale_owner_completes_after_release_example :
    (exec
      (completes 1 answer 90)
      (run (takes_over 60 70 ∷ releases 2 ∷ inserts 60 0 75 ∷ []) (some abandoned))).0
    ≡ true
stale_owner_completes_after_release_example =
    stale_owner_completes_after_release 60 70 75 90 0 answer abandoned 60 refl refl refl
      (omega arith) (omega arith)
