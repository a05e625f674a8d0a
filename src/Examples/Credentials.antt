-- ===== src/Examples/Credentials.antt =====
-- The theorems on revocation, at a table of two workers of which one holds a job.
use doublangu.Prelude.{
  String, ◌≡◌, refl, true, false, ◌==◌, if◌then◌else◌, pos, [], ◌∷◌, none, some, exists_where, ok,
  err,
}
use doublangu.Jobs.Types.{Ulid, Job, is_queued}
use doublangu.Jobs.Enqueue.{find_id, new_row}
use doublangu.Jobs.Claim.{take_lease, claim_matching, claim_matching_capability}
use doublangu.Workers.{
  Worker, Tables, unauthorized, authenticate, revoke, requeue, seen, is_leased_by,
}
use doublangu.Workers.Revoked.{authenticate-revoke}
use doublangu.Workers.Stranded.{Leases, revoke_strands}
use doublangu.Jobs.Invariant.Rules.{UniqueIds}
use doublangu.Examples.Runs.{request, at_time}

abbrev id_text : Ulid → String
id_text id = if id == 1 then "one" else "other"

abbrev worker : Ulid → String → Worker
worker id hash = record {
  id = id;
  token_hash = hash;
  revoked_at = none;
  last_seen_at = none;
  updated_at = 0;
  capabilities_json = "[]";
  llm_relay_capabilities_json = "[]";
  name = "n";
  protocol_version = "speech-worker.v1";
  software_version = "1";
  created_at = 0;
}

abbrev last_attempt : Job
last_attempt =
    take_lease "one" "t" (at_time 20)
      (new_row (record (request 1 "a") { max_attempts = pos 1 }) 9 (at_time 10))

abbrev tables : Tables
tables = record {
  tickets = [];
  workers = worker 1 "p" ∷ worker 2 "q" ∷ [];
  jobs = last_attempt ∷ [];
}

revoked_refused :
    (authenticate (λ s. s) (λ _. true) "p" 40 (revoke id_text 1 30 tables)).0 ≡ err unauthorized
unfolding authenticate revoke
revoked_refused = refl

other_accepted :
    (authenticate (λ s. s) (λ _. true) "q" 40 (revoke id_text 1 30 tables)).0
    ≡ ok (seen (λ s. s) (λ _. true) 40 (worker 2 "q"))
unfolding authenticate revoke
other_accepted = refl

authenticate-revoke_example : (2 == 1) ≡ false
authenticate-revoke_example =
    authenticate-revoke (λ s. s) (λ _. true) id_text 1 30 40 "q" tables
      (seen (λ s. s) (λ _. true) 40 (worker 2 "q")) other_accepted

held_by_one : is_leased_by (id_text 1) last_attempt ≡ true
unfolding take_lease new_row
held_by_one = refl

exhausted : last_attempt.attempt_count ≡ last_attempt.max_attempts
unfolding take_lease new_row
exhausted = refl

last_row : find_id 1 tables.jobs ≡ some last_attempt
unfolding find_id take_lease new_row
last_row = refl

one_row : UniqueIds tables.jobs
unfolding exists_where
one_row = (refl, tt)

revoke_strands_example :
    (find_id 1 (revoke id_text 1 30 tables).jobs ≡ some (requeue 30 last_attempt))
    × (is_queued (requeue 30 last_attempt).state ≡ true)
    × ¬ (
        Leases 1 (
          claim_matching
            (λ s. s)
            "u"
            "macos"
            "w"
            (λ _. true)
            (at_time 50)
            (record { jobs = (revoke id_text 1 30 tables).jobs; dependencies = [] })))
    × ¬ (
        Leases 1 (
          claim_matching_capability
            (λ s. s)
            "u"
            "macos"
            "w"
            "tts.avspeech.v1"
            (at_time 50)
            (record { jobs = (revoke id_text 1 30 tables).jobs; dependencies = [] })))
revoke_strands_example =
    revoke_strands id_text 1 1 30 tables [] last_attempt (λ s. s) "u" "macos" "w" "tts.avspeech.v1"
      (λ _. true) (at_time 50) one_row last_row held_by_one exhausted
