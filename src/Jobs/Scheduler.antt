-- ===== src/Jobs/Scheduler.antt =====
-- The tables under every sequence of scheduler calls: one step for each exported operation of
-- internal/jobs/jobs.go that writes. Two servers and any number of workers interleave their calls
-- at the database, which runs one transaction at a time; a sequence of steps is such an interleaving.
pub mod Reachable
use doublangu.Prelude.{ℕ, String, Bool, List, [], ℤ}
use doublangu.Jobs.Types.{Ulid, Job, Spec, Db, Times, TerminalRecovery}
use doublangu.Jobs.Enqueue.{enqueue}
use doublangu.Jobs.Dependencies.{add_dependency}
use doublangu.Jobs.Claim.{claim_matching, claim_matching_capability}
use doublangu.Jobs.Lease.{heartbeat}
use doublangu.Jobs.Finish.{complete, fail}
use doublangu.Jobs.Cancel.{cancel, cancel_owner_jobs}
use doublangu.Jobs.Recover.{recover_expired, recover_expired_job}

abbrev pub empty_db : Db
empty_db = record { jobs = []; dependencies = [] }

-- What the scheduler does not implement: JSON syntax, SHA-256, and the terminal callback.
pub record Environment : Type 0 where
  pub json_valid : String → Bool
  pub hash_token : String → String
  pub recovery : TerminalRecovery

module _ (env : Environment) where
  pub data Step (db : Db) : Db → Type 0 where
    enqueues :
        (spec : Spec) (fresh : Ulid) (t : Times)
        → Step db (enqueue env.json_valid spec fresh t db).1
    adds_dependency : (job dependency : Ulid) → Step db (add_dependency job dependency db).1
    claims :
        (token target owner : String) (matches : Job → Bool) (t : Times)
        → Step db (claim_matching env.hash_token token target owner matches t db).1
    claims_capability :
        (token target owner job_type : String) (t : Times)
        → Step db (claim_matching_capability env.hash_token token target owner job_type t db).1
    beats :
        (id : Ulid) (attempt : ℕ) (token : String) (progress : ℤ) (t : Times)
        → Step db (heartbeat env.hash_token id attempt token progress t db).1
    completes :
        (id : Ulid) (attempt : ℕ) (token : String) (t : Times)
        → Step db (complete env.hash_token id attempt token t db).1
    fails :
        (id : Ulid) (attempt : ℕ) (token code : String) (retry : Bool) (t : Times)
        → Step db (fail env.hash_token id attempt token code retry t db).1
    cancels : (id : Ulid) (code : String) (now : ℕ) → Step db (cancel id code now db).1
    cancels_owner :
        (owner_type owner_id job_type code : String) (now : ℕ)
        → Step db (cancel_owner_jobs owner_type owner_id job_type code now db).1
    recovers : (now : ℕ) (wall : Ulid → ℕ) → Step db (recover_expired env.recovery now wall db).1
    recovers_job :
        (id : Ulid) (now wall : ℕ) → Step db (recover_expired_job env.recovery id now wall db).1

  -- any number of calls
  pub data Reach (from : Db) : Db → Type 0 where
    here : Reach from from
    then : {db db' : Db} → Reach from db → Step db db' → Reach from db'
