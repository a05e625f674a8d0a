-- ===== src/Jobs/Cancel.antt =====
-- CancelTx, Cancel, CancelOwnerJobsTx and CancelOwnerJobs.
use doublangu.Prelude.{
  ℕ, ◌+◌, String, Bool, ◌&&◌, ◌||◌, not, none, some, Result, ok, err, ◌==◌, if◌then◌else◌, str_eq,
  is_blank, update_where, count_where,
}
use doublangu.Jobs.Types.{
  Ulid, is_zero, canceled, is_active, is_queued, is_canceled, Job, Db, JobError, validation,
  not_found, lease_lost, Tx, with_transaction,
}
use doublangu.Jobs.Enqueue.{find_id}
use doublangu.Jobs.Lease.{valid_error_code}

unfoldable pub cancel_queued : String → ℕ → Job → Job
cancel_queued code now j = record j {
  state = canceled;
  error_code = code;
  lease_owner = "";
  lease_token_hash = "";
  lease_expires_at = none;
  updated_at = now;
  completed_at = some now;
}

-- An active attempt keeps its owner, its token hash and its expiry.
unfoldable pub cancel_active : String → ℕ → Job → Job
cancel_active code now j = record j {
  state = canceled;
  error_code = code;
  updated_at = now;
  completed_at = some now;
}

abbrev pub queued_at : Ulid → Job → Bool
queued_at id j = j.id == id && is_queued j.state

abbrev pub active_at : Ulid → Job → Bool
active_at id j = j.id == id && is_active j.state

unfoldable pub cancel_rest : Ulid → Db → Result JobError (Unit {0} × Db)
unfolding find_id
cancel_rest id db = elim (find_id id db.jobs) [
  | none ↦ err not_found
  | some j ↦ if is_canceled j.state then ok (tt, db) else err lease_lost
]

unfoldable pub cancel_tx : Ulid → String → ℕ → Tx (Unit {0})
unfolding valid_error_code cancel_queued cancel_active cancel_rest update_where count_where
cancel_tx id code now db =
    if is_zero id || not (valid_error_code code)
    then err validation
    else let db1 = record db {
      jobs = update_where (queued_at id) (cancel_queued code now) db.jobs;
    } in
      if count_where (queued_at id) db.jobs == 1
      then ok (tt, db1)
      else let db2 = record db1 {
        jobs = update_where (active_at id) (cancel_active code now) db1.jobs;
      } in
        if count_where (active_at id) db1.jobs == 1 then ok (tt, db2) else cancel_rest id db2

unfoldable pub cancel : Ulid → String → ℕ → Db → Result JobError (Unit {0}) × Db
unfolding cancel_tx
cancel id code now db =
    if not (valid_error_code code)
    then (err validation, db)
    else with_transaction (cancel_tx id code now) db

-- owner_type = ? AND owner_id = ? AND job_type = ?
abbrev pub owned_by : String → String → String → Job → Bool
owned_by owner_type owner_id job_type j =
    str_eq j.owner_type owner_type && str_eq j.owner_id owner_id && str_eq j.job_type job_type

unfoldable pub cancel_owner_jobs_tx : String → String → String → String → ℕ → Tx ℕ
unfolding valid_error_code cancel_queued cancel_active update_where count_where
cancel_owner_jobs_tx owner_type owner_id job_type code now db =
    if is_blank owner_type || is_blank owner_id || is_blank job_type || not (valid_error_code code)
    then err validation
    else let is_queued_row =
        λ (j : Job). owned_by owner_type owner_id job_type j && is_queued j.state in
      let is_active_row =
        λ (j : Job). owned_by owner_type owner_id job_type j && is_active j.state in
      let jobs1 = update_where is_queued_row (cancel_queued code now) db.jobs in
      ok (
        count_where is_queued_row db.jobs + count_where is_active_row jobs1,
        record db { jobs = update_where is_active_row (cancel_active code now) jobs1 },
      )

unfoldable pub cancel_owner_jobs :
    String → String → String → String → ℕ → Db → Result JobError ℕ × Db
unfolding cancel_owner_jobs_tx
cancel_owner_jobs owner_type owner_id job_type code now db =
    if not (valid_error_code code)
    then (err validation, db)
    else with_transaction (cancel_owner_jobs_tx owner_type owner_id job_type code now) db
