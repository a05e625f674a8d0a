-- ===== src/Examples/Attempts.antt =====
-- The theorems on the fencing of attempts, at the tables of Runs.
use doublangu.Prelude.{◌≡◌, refl, true, false, ◌⊎◌, inl, some, ok, err, pos, arith}
use doublangu.Jobs.Types.{Job, Db, Lease, is_active, lease_lost}
use doublangu.Jobs.Enqueue.{find_id, new_row, enqueue}
use doublangu.Jobs.Dependencies.{add_dependency, ancestors, closure, visit, targets}
use doublangu.Jobs.Claim.{take_lease, claim_matching}
use doublangu.Jobs.Lease.{valid_error_code, holds_attempt, heartbeat, verify_lease}
use doublangu.Jobs.Finish.{set_succeeded, set_failed, complete, fail}
use doublangu.Jobs.Cancel.{cancel_active, cancel}
use doublangu.Jobs.Fencing.Leased.{claim_matching-complete}
use doublangu.Jobs.Fencing.Stale.{claim_matching-fences, superseded_never_completes}
use doublangu.Jobs.Fencing.Repeated.{complete-complete, fail-fail}
use doublangu.Jobs.Fencing.Canceled.{cancel-observed}
use doublangu.Jobs.Fencing.Retry.{IsRetried, IsExhausted, fail-schedules}
use doublangu.Jobs.Scheduler.{empty_db, here}
use doublangu.Examples.Runs.{
  leaves, env, at_time, chained, chained-Inv, leased_once, leased_twice, failed_once,
  leased_once_row, leased_twice_row, leased_row, leased_again, leased_twice-Reach, leased_once-Inv,
}

code_valid : valid_error_code "v1.x" ≡ true
unfolding valid_error_code
code_valid = refl

held : holds_attempt env.hash_token 1 "t" leased_row ≡ true
unfolding holds_attempt take_lease new_row
held = refl

active : is_active leased_row.state ≡ true
unfolding take_lease
active = refl

abbrev first_lease : Lease
first_lease = record { job = leased_row; lease_token = "t" }

leases_first :
    claim_matching env.hash_token "t" "macos" "w" (λ _. true) (at_time 20) chained
    ≡ (ok first_lease, leased_once)
unfolding enqueue add_dependency claim_matching take_lease new_row ancestors closure visit targets
leases_first = refl

claim_matching-complete_example :
    (verify_lease env.hash_token 1 1 "t" "w" 40 leased_once ≡ ok leased_row)
    × ((complete env.hash_token 1 1 "t" (at_time 40) leased_once).0 ≡ ok tt)
    × (find_id 1 (complete env.hash_token 1 1 "t" (at_time 40) leased_once).1.jobs
        ≡ some (set_succeeded (at_time 40) leased_row))
unfolding take_lease new_row
claim_matching-complete_example =
    claim_matching-complete env.hash_token "t" "macos" "w" (λ _. true) (at_time 20) (at_time 40)
      empty_db chained leased_once first_lease chained-Inv leases_first refl refl refl (omega arith)

-- the next attempt, and a guessed token
claim_matching-fences_example :
    (complete env.hash_token 1 2 "g" (at_time 40) leased_once ≡ (err lease_lost, leased_once))
    × (fail env.hash_token 1 2 "g" "v1.x" true (at_time 40) leased_once
        ≡ (err lease_lost, leased_once))
    × (heartbeat env.hash_token 1 2 "g" (pos 50) (at_time 40) leased_once
        ≡ (err lease_lost, leased_once))
    × (verify_lease env.hash_token 1 2 "g" "w" 40 leased_once ≡ err lease_lost)
unfolding take_lease new_row
claim_matching-fences_example =
    claim_matching-fences env.hash_token "t" "macos" "w" (λ _. true) (at_time 20) (at_time 40)
      empty_db chained leased_once first_lease 2 "g" "v1.x" "w" true (pos 50) chained-Inv
      leases_first (inl (λ e. absurd (omega (arith, e)))) refl code_valid refl

superseded_never_completes_example :
    complete env.hash_token 1 1 "t" (at_time 9_010) leased_twice ≡ (err lease_lost, leased_twice)
unfolding take_lease set_failed new_row
superseded_never_completes_example =
    superseded_never_completes env 1 1 "t" leased_twice leased_twice leased_again (at_time 9_010)
      leaves leased_twice-Reach here leased_twice_row (omega arith) refl

abbrev completed_once : Db
completed_once = (complete env.hash_token 1 1 "t" (at_time 40) leased_once).1

completes : complete env.hash_token 1 1 "t" (at_time 40) leased_once ≡ (ok tt, completed_once)
unfolding enqueue add_dependency claim_matching complete ancestors closure visit targets
completes = refl

complete-complete_example :
    complete env.hash_token 1 1 "t" (at_time 900_000) completed_once ≡ (ok tt, completed_once)
complete-complete_example =
    complete-complete env.hash_token 1 1 "t" (at_time 40) (at_time 900_000) leased_once
      completed_once completes

fails : fail env.hash_token 1 1 "t" "v1.x" true (at_time 30) leased_once ≡ (ok tt, failed_once)
unfolding enqueue add_dependency claim_matching fail ancestors closure visit targets
fails = refl

fail-fail_example :
    fail env.hash_token 1 1 "t" "v1.x" false (at_time 35) failed_once ≡ (ok tt, failed_once)
fail-fail_example =
    fail-fail env.hash_token 1 1 "t" "v1.x" "v1.x" true false (at_time 30) (at_time 35) leased_once
      failed_once leased_row leased_once_row active code_valid code_valid fails

cancel-observed_example :
    let db' = (cancel 1 "v1.x" 25 leased_once).1 in
    ((cancel 1 "v1.x" 25 leased_once).0 ≡ ok tt)
    × (heartbeat env.hash_token 1 1 "t" (pos 50) (at_time 30) db'
        ≡ (ok (record { cancel_requested = true; job = cancel_active "v1.x" 25 leased_row }), db'))
    × (complete env.hash_token 1 1 "t" (at_time 30) db' ≡ (err lease_lost, db'))
cancel-observed_example =
    cancel-observed env.hash_token 1 1 "t" "v1.x" 25 (pos 50) (at_time 30) leased_once leased_row
      leased_once-Inv refl code_valid refl refl leased_once_row active held

fail-schedules_example :
    (j' : Job) × (find_id 1
        (fail env.hash_token 1 1 "t" "v1.x" true (at_time 30) leased_once).1.jobs
      ≡ some j')
    × (IsRetried 1 true (at_time 30) j'
        ⊎ IsExhausted 1 leased_row.max_attempts true (at_time 30) j')
fail-schedules_example =
    fail-schedules env.hash_token 1 1 "t" "v1.x" true (at_time 30) leased_once leased_row
      leased_once-Inv code_valid refl leased_once_row active held
