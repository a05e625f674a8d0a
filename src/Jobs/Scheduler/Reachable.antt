-- ===== src/Jobs/Scheduler/Reachable.antt =====
-- Every table that the scheduler's calls can lead to satisfies the invariant.
use doublangu.Prelude.{[], All, exists_where}
use mathlib.Core.Bool.{false≢true}
use doublangu.Jobs.Types.{Ulid, Db}
use doublangu.Jobs.Finish.{completed, complete}
use doublangu.Jobs.Dependencies.Graph.{Reaches, edge, step, Acyclic}
use doublangu.Jobs.Invariant.{IsWf}
use doublangu.Jobs.Invariant.Rules.{UniqueIds, Evolves, Inv, Inv-restart}
use doublangu.Jobs.Invariant.Admission.{enqueue-Inv, add_dependency-Inv}
use doublangu.Jobs.Invariant.Claims.{claim_matching-Inv, claim_matching_capability-Inv}
use doublangu.Jobs.Invariant.Attempts.{
  heartbeat-Inv, finish-Inv, fail-Inv, cancel-Inv, cancel_owner_jobs-Inv,
}
use doublangu.Jobs.Invariant.Recovery.{LeavesTables, recover_expired-Inv, recover_expired_job-Inv}
use doublangu.Jobs.Scheduler.{
  empty_db, Environment, Step, enqueues, adds_dependency, claims, claims_capability, beats,
  completes, fails, cancels, cancels_owner, recovers, recovers_job, Reach, here, then,
}

no_path : {a b : Ulid} → Reaches [] a b → ⊥
unfolding exists_where
no_path (edge l) = false≢true l
no_path (step r l) = no_path r

pub empty_db-Inv : Inv empty_db empty_db
empty_db-Inv = record { rows = tt; unique = tt; acyclic = λ a. no_path; history = tt }

module _ (env : Environment) (leaves : LeavesTables env.recovery) where
  pub Step-Inv : {db db' : Db} → Step env db db' → {origin : Db} → Inv origin db → Inv origin db'
  Step-Inv {db} (enqueues spec fresh t) {origin} h =
      enqueue-Inv origin env.json_valid spec fresh t db h
  Step-Inv {db} (adds_dependency job dependency) {origin} h =
      add_dependency-Inv origin job dependency db h
  Step-Inv {db} (claims token target owner matches t) {origin} h =
      claim_matching-Inv origin env.hash_token token target owner matches t db h
  Step-Inv {db} (claims_capability token target owner job_type t) {origin} h =
      claim_matching_capability-Inv origin env.hash_token token target owner job_type t db h
  Step-Inv {db} (beats id attempt token progress t) {origin} h =
      heartbeat-Inv origin env.hash_token id attempt token progress t db h
  Step-Inv {db} (completes id attempt token t) {origin} h =
      unfold complete in finish-Inv origin env.hash_token id attempt token completed t db h
  Step-Inv {db} (fails id attempt token code retry t) {origin} h =
      fail-Inv origin env.hash_token id attempt token code retry t db h
  Step-Inv {db} (cancels id code now) {origin} h = cancel-Inv origin id code now db h
  Step-Inv {db} (cancels_owner owner_type owner_id job_type code now) {origin} h =
      cancel_owner_jobs-Inv origin owner_type owner_id job_type code now db h
  Step-Inv {db} (recovers now wall) {origin} h =
      recover_expired-Inv origin env.recovery leaves now wall db h
  Step-Inv {db} (recovers_job id now wall) {origin} h =
      recover_expired_job-Inv origin env.recovery leaves id now wall db h

  pub Reach-keeps : {from db : Db} → Reach env from db → Inv from from → Inv from db
  Reach-keeps here h = h
  Reach-keeps (then r s) h = Step-Inv s (Reach-keeps r h)

  -- After any sequence of scheduler calls from empty tables, by any callers and with any clock
  -- readings, job ids are unique, the dependency graph has no cycle, and every row is well formed:
  -- at most `max_attempts` of at most three attempts were made, a queued job has an attempt left,
  -- an active job has an owner, an expiry and an attempt, a lease time stands only on active and
  -- canceled jobs, a succeeded job is at 100 percent, and a terminal job has its completion time.
  -- Of the terminal callback it is assumed that it leaves the two tables alone.
  pub Reach-Inv :
      {db : Db}
      → Reach env empty_db db
      → All IsWf db.jobs × UniqueIds db.jobs × Acyclic db.dependencies
  Reach-Inv r = let h = Reach-keeps r empty_db-Inv in (h.rows, h.unique, h.acyclic)

  -- Between any two moments no job disappears or changes its place, its id, key, payload or limit
  -- of attempts, attempts are only added, and a job that has succeeded, failed or been canceled is
  -- the same row for ever. The terminal callback is assumed to leave the two tables alone.
  pub Reach-history :
      {db db' : Db} → Reach env empty_db db → Reach env db db' → Evolves db.jobs db'.jobs
  Reach-history r s = (Reach-keeps s (Inv-restart (Reach-keeps r empty_db-Inv))).history
