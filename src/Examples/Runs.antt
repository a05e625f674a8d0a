-- ===== src/Examples/Runs.antt =====
-- The tables of the examples, each reached by calls of the scheduler. Tokens hash to themselves.
use doublangu.Prelude.{ok, arith, ℕ, String, ◌≡◌, refl, true, none, some, pos}
use doublangu.Jobs.Types.{Job, Spec, Db, Times}
use doublangu.Jobs.Enqueue.{new_row, enqueue, find_id}
use doublangu.Jobs.Dependencies.{add_dependency, ancestors, closure, visit, targets}
use doublangu.Jobs.Claim.{take_lease, claim_matching}
use doublangu.Jobs.Finish.{set_failed, fail}
use doublangu.Jobs.Invariant.Rules.{Inv}
use doublangu.Jobs.Invariant.Recovery.{LeavesTables}
use doublangu.Jobs.Scheduler.{
  empty_db, Environment, enqueues, adds_dependency, claims, fails, Reach, here, then,
}
use doublangu.Jobs.Scheduler.Reachable.{Reach-keeps, empty_db-Inv}

abbrev pub env : Environment
env = record {
  json_valid = λ _. true;
  hash_token = λ token. token;
  recovery = some (λ item db. ok (tt, db));
}

-- The callback leaves the tables alone.
pub leaves : LeavesTables env.recovery
leaves item db db' e = ground arith

abbrev pub at_time : ℕ → Times
at_time n = record { now = n; wall = n; live = n }

abbrev pub request : ℕ → String → Spec
request id key = record {
  id = id;
  job_type = "tts.avspeech.v1";
  execution_target = "macos";
  owner_type = "render";
  owner_id = "r";
  idempotency_key = key;
  input_hash = "h";
  payload_json = "{}";
  priority = pos 0;
  max_attempts = pos 0;
  available_at = none;
}

-- two queued jobs
abbrev pub one_job : Db
one_job = (enqueue env.json_valid (request 1 "a") 9 (at_time 10) empty_db).1

abbrev pub two_jobs : Db
two_jobs = (enqueue env.json_valid (request 2 "b") 9 (at_time 11) one_job).1

-- the second waits for the first
abbrev pub chained : Db
chained = (add_dependency 2 1 two_jobs).1

-- the first is leased
abbrev pub leased_once : Db
leased_once = (claim_matching env.hash_token "t" "macos" "w" (λ _. true) (at_time 20) chained).1

-- its first attempt has failed, and it is leased again
abbrev pub failed_once : Db
failed_once = (fail env.hash_token 1 1 "t" "v1.x" true (at_time 30) leased_once).1

abbrev pub leased_twice : Db
leased_twice =
    (claim_matching env.hash_token "u" "macos" "w" (λ _. true) (at_time 9_000) failed_once).1

pub two_jobs-Reach : Reach env empty_db two_jobs
two_jobs-Reach =
    then (then here (enqueues (request 1 "a") 9 (at_time 10)))
      (enqueues (request 2 "b") 9 (at_time 11))

pub chained-Reach : Reach env empty_db chained
chained-Reach = then two_jobs-Reach (adds_dependency 2 1)

pub leased_once-Reach : Reach env empty_db leased_once
leased_once-Reach = then chained-Reach (claims "t" "macos" "w" (λ _. true) (at_time 20))

pub leased_twice-Reach : Reach env empty_db leased_twice
leased_twice-Reach =
    then (then leased_once-Reach (fails 1 1 "t" "v1.x" true (at_time 30)))
      (claims "u" "macos" "w" (λ _. true) (at_time 9_000))

pub two_jobs-Inv : Inv empty_db two_jobs
two_jobs-Inv = Reach-keeps env leaves two_jobs-Reach empty_db-Inv

pub chained-Inv : Inv empty_db chained
chained-Inv = Reach-keeps env leaves chained-Reach empty_db-Inv

pub leased_once-Inv : Inv empty_db leased_once
leased_once-Inv = Reach-keeps env leaves leased_once-Reach empty_db-Inv

abbrev pub first_row : Job
first_row = new_row (request 1 "a") 9 (at_time 10)

abbrev pub leased_row : Job
leased_row = take_lease "w" "t" (at_time 20) first_row

abbrev pub leased_again : Job
leased_again =
    take_lease "w" "u" (at_time 9_000) (set_failed 1 "v1.x" true (at_time 30) leased_row leased_row)

pub leased_once_row : find_id 1 leased_once.jobs ≡ some leased_row
unfolding enqueue add_dependency claim_matching find_id take_lease new_row ancestors closure visit
    targets
leased_once_row = refl

pub leased_twice_row : find_id 1 leased_twice.jobs ≡ some leased_again
unfolding enqueue add_dependency claim_matching fail find_id take_lease new_row set_failed ancestors
    closure visit targets
leased_twice_row = refl
