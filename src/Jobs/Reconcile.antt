-- ===== src/Jobs/Reconcile.antt =====
-- reconcileDependencyFailuresTx: queued jobs whose dependencies failed or were canceled fail too.
pub mod Fixpoint
use doublangu.Prelude.{
  ℕ, zero, suc, Bool, true, false, ◌&&◌, ◌||◌, List, Option, some, ◌==◌, length, exists_where,
  update_where, count_where,
}
use doublangu.Jobs.Types.{Ulid, State, failed, is_queued, is_failed, is_canceled, Job, Edge, Db}

-- EXISTS (SELECT 1 FROM job_dependency jd JOIN job d ON d.id = jd.dependency_job_id
--   WHERE jd.job_id = id AND p(d.state))
abbrev pub row_has : (State → Bool) → Ulid → Job → Bool
row_has p id d = d.id == id && p d.state

abbrev pub edge_to : (State → Bool) → List Job → Ulid → Edge → Bool
edge_to p jobs id e = e.job_id == id && exists_where (row_has p e.dependency_job_id) jobs

unfoldable pub has_dependency : (State → Bool) → Db → Ulid → Bool
unfolding exists_where
has_dependency p db id = exists_where (edge_to p db.jobs id) db.dependencies

-- d.state IN ('failed', 'canceled')
abbrev pub is_dead : State → Bool
is_dead s = is_failed s || is_canceled s

unfoldable pub is_doomed : Db → Job → Bool
unfolding has_dependency
is_doomed db j = is_queued j.state && has_dependency is_dead db j.id

unfoldable pub fail_dependency : ℕ → Job → Job
fail_dependency now j = record j {
  state = failed;
  error_code = "v1.job_dependency_failed";
  completed_at = some now;
  updated_at = now;
}

unfoldable pub reconcile_round : ℕ → Db → Db
unfolding fail_dependency update_where is_doomed
reconcile_round now db = record db {
  jobs = update_where (is_doomed db) (fail_dependency now) db.jobs;
}

-- `for { ...; if affected == 0 { return } }` with fuel
unfoldable pub reconcile_loop : ℕ → ℕ → Db → Db
unfolding reconcile_round count_where is_doomed
reconcile_loop zero now db = db
reconcile_loop (suc fuel) now db = elim (count_where (is_doomed db) db.jobs == 0) [
  | true ↦ reconcile_round now db
  | false ↦ reconcile_loop fuel now (reconcile_round now db)
]

-- Each round but the last fails a job, so one round for each job and one more is enough.
unfoldable pub reconcile : ℕ → Db → Db
unfolding reconcile_loop
reconcile now db = reconcile_loop (suc (length db.jobs)) now db
