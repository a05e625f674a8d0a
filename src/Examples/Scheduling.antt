-- ===== src/Examples/Scheduling.antt =====
-- The theorems on admission, order, dependencies and the invariant, at the tables of Runs.
use doublangu.Prelude.{
  ℕ, ◌≡◌, ◌↔◌, ◌≤◌, refl, true, false, [], ◌∷◌, ok, err, All, map, arith, count_where, exists_where,
  is_blank,
}
use doublangu.Jobs.Types.{Job, Db, State, queued, leased, failed, conflict, is_zero}
use doublangu.Jobs.Enqueue.{get_active_owner_job_tx, new_row, enqueue, enqueue_tx}
use doublangu.Jobs.Enqueue.Repeated.{enqueue_tx-enqueue_tx}
use doublangu.Jobs.Dependencies.{
  add_dependency, ancestors, closure, visit, targets, reaches, insert_edge,
}
use doublangu.Jobs.Dependencies.Graph.{Reaches, Acyclic}
use doublangu.Jobs.Dependencies.Search.{reaches_iff}
use doublangu.Jobs.Dependencies.Acyclic.{add_dependency-Acyclic}
use doublangu.Jobs.Dependencies.Accepted.{HasRow, add_dependency-Acyclic_iff}
use doublangu.Jobs.Reconcile.{is_doomed, reconcile}
use doublangu.Jobs.Reconcile.Fixpoint.{reconcile-IsSettled}
use doublangu.Jobs.Claim.{valid_claim, claim_matching, claim_matching_capability}
use doublangu.Jobs.Claim.Best.{ClaimOutcome, claim_matching-outcome}
use doublangu.Jobs.Claim.Exclusive.{leases_held, claim_matching_capability-AtMostOne}
use doublangu.Jobs.Cancel.{cancel}
use doublangu.Jobs.Finish.{fail}
use doublangu.Jobs.Recover.{recover_expired}
use doublangu.Jobs.Recover.Complete.{NoneExpired, recover_expired-NoneExpired}
use doublangu.Jobs.Invariant.{IsWf}
use doublangu.Jobs.Invariant.Rules.{UniqueIds, Evolves}
use doublangu.Jobs.Scheduler.Reachable.{Reach-Inv, Reach-history}
use doublangu.Jobs.Scheduler.{empty_db, claims, here, then}
use doublangu.Examples.Runs.{
  leaves, env, at_time, request, one_job, two_jobs, chained, leased_once, leased_twice,
  chained-Reach, leased_twice-Reach, two_jobs-Inv, chained-Inv, first_row,
}

-- The dependent job is not leased before the other has succeeded.
chained_states :
    map {B = ℕ × State × ℕ} (λ j. (j.id, j.state, j.attempt_count)) leased_twice.jobs
    ≡ (1, leased, 2) ∷ (2, queued, 0) ∷ []
unfolding enqueue add_dependency claim_matching fail ancestors closure visit targets is_blank
chained_states = refl

Reach-Inv_example :
    All IsWf leased_twice.jobs × UniqueIds leased_twice.jobs × Acyclic leased_twice.dependencies
Reach-Inv_example = Reach-Inv env leaves leased_twice-Reach

Reach-history_example : Evolves chained.jobs leased_once.jobs
Reach-history_example =
    Reach-history env leaves chained-Reach
      (then here (claims "t" "macos" "w" (λ _. true) (at_time 20)))

add_dependency-Acyclic_example : Acyclic (add_dependency 1 2 chained).1.dependencies
add_dependency-Acyclic_example = add_dependency-Acyclic 1 2 chained chained-Inv.acyclic

add_dependency-Acyclic_iff_example : ((add_dependency 1 2 chained).0 ≡ ok tt) ↔ (
    (is_zero 1 ≡ false)
    × (is_zero 2 ≡ false)
    × HasRow 1 chained.jobs
    × HasRow 2 chained.jobs
    × Acyclic (insert_edge 1 2 chained.dependencies))
add_dependency-Acyclic_iff_example =
    add_dependency-Acyclic_iff 1 2 chained chained-Inv.unique chained-Inv.acyclic

-- The edge back is refused.
cycle_refused : (add_dependency 1 2 chained).0 ≡ err conflict
unfolding enqueue add_dependency ancestors closure visit targets is_blank
cycle_refused = refl

reaches_iff_example : (reaches chained.dependencies 2 1 ≡ true) ↔ Reaches chained.dependencies 2 1
reaches_iff_example = reaches_iff chained.dependencies 2 1

abbrev canceled_first : Db
canceled_first = (cancel 1 "v1.stop" 15 chained).1

reconcile-IsSettled_example :
    All (λ j. is_doomed (reconcile 20 canceled_first) j ≡ false) (reconcile 20 canceled_first).jobs
reconcile-IsSettled_example = reconcile-IsSettled 20 canceled_first

-- and the dependent has failed
reconciled_states :
    map (λ j. j.state) (reconcile 20 canceled_first).jobs ≡ State.canceled ∷ failed ∷ []
unfolding enqueue add_dependency cancel reconcile ancestors closure visit targets is_blank
reconciled_states = refl

valid : valid_claim "macos" "w" ≡ true
unfolding valid_claim
valid = refl

claim_matching-outcome_example :
    ClaimOutcome "macos" "w" "t" "t"
      (λ _. true)
      (at_time 20)
      (reconcile 20 two_jobs)
      (claim_matching env.hash_token "t" "macos" "w" (λ _. true) (at_time 20) two_jobs).0
      (claim_matching env.hash_token "t" "macos" "w" (λ _. true) (at_time 20) two_jobs).1
claim_matching-outcome_example =
    claim_matching-outcome env.hash_token "t" "macos" "w" (λ _. true) (at_time 20) two_jobs
      two_jobs-Inv valid

none_held : leases_held "w" "tts.avspeech.v1" two_jobs ≤ 1
unfolding enqueue is_blank count_where exists_where
none_held = omega arith

claim_matching_capability-AtMostOne_example :
    leases_held "w" "tts.avspeech.v1"
      (claim_matching_capability env.hash_token "t" "macos" "w" "tts.avspeech.v1"
        (at_time 20)
        two_jobs).1
    ≤ 1
claim_matching_capability-AtMostOne_example =
    claim_matching_capability-AtMostOne "w" "tts.avspeech.v1" env.hash_token "t" "macos" "w"
      "tts.avspeech.v1" (at_time 20) _ two_jobs two_jobs-Inv none_held

one_recovered :
    recover_expired env.recovery 200_000 (λ _. 200_000) leased_once
    ≡ (ok 1, (recover_expired env.recovery 200_000 (λ _. 200_000) leased_once).1)
unfolding enqueue add_dependency claim_matching recover_expired ancestors closure visit targets
    is_blank
one_recovered = refl

recover_expired-NoneExpired_example :
    NoneExpired 200_000 (recover_expired env.recovery 200_000 (λ _. 200_000) leased_once).1
recover_expired-NoneExpired_example =
    recover_expired-NoneExpired env.recovery leaves 200_000 (λ _. 200_000) leased_once one_recovered

stored : enqueue_tx (request 1 "a") 9 (at_time 10) empty_db ≡ ok (first_row, one_job)
unfolding enqueue enqueue_tx new_row is_blank exists_where
stored = refl

enqueue_tx-enqueue_tx_example :
    enqueue_tx (request 3 "a") 8 (at_time 50) one_job ≡ ok (first_row, one_job)
enqueue_tx-enqueue_tx_example =
    enqueue_tx-enqueue_tx (request 1 "a") (request 3 "a") 9 8 (at_time 10) (at_time 50) empty_db
      one_job first_row stored refl

abbrev second_row : Job
second_row = new_row (request 2 "b") 9 (at_time 11)

found_newest : get_active_owner_job_tx "render" "r" "tts.avspeech.v1" two_jobs ≡ ok second_row
unfolding enqueue new_row is_blank exists_where get_active_owner_job_tx
found_newest = refl
