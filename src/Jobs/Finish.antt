-- ===== src/Jobs/Finish.antt =====
-- Complete, Fail and finishTx.
use doublangu.Prelude.{
  ℕ, ◌+◌, String, Bool, ◌&&◌, ◌||◌, not, none, some, Result, ok, err, ltb, if◌then◌else◌, str_eq,
}
use doublangu.Jobs.Types.{
  Ulid, queued, succeeded, failed, is_active, is_queued, is_succeeded, is_failed, is_canceled, Job,
  Db, JobError, validation, not_found, lease_lost, lease_expired, Times, Tx, with_transaction,
}
use doublangu.Jobs.Enqueue.{find_id}
use doublangu.Jobs.Lease.{
  backoff_for_attempt, job_lease_live, valid_error_code, holds_attempt, update_held,
}

-- The arguments `success` and `failure` of finishTx: "code\x00retry" is the pair of the two.
pub data Outcome : Type 0 where
  completed : Outcome
  failure : String → Bool → Outcome

unfoldable pub set_succeeded : Times → Job → Job
set_succeeded t j = record j {
  state = succeeded;
  progress_percent = 100;
  error_code = "";
  lease_expires_at = none;
  completed_at = some t.now;
  updated_at = t.now;
}

-- The owner and the token hash of the attempt are kept.
unfoldable pub set_failed : ℕ → String → Bool → Times → Job → Job → Job
unfolding backoff_for_attempt
set_failed attempt code retry t found j =
    if retry && ltb attempt found.max_attempts
    then record j {
      state = queued;
      available_at = t.wall + backoff_for_attempt attempt;
      error_code = code;
      lease_expires_at = none;
      updated_at = t.now;
    }
    else record j {
      state = failed;
      available_at = t.now;
      error_code = code;
      lease_expires_at = none;
      updated_at = t.now;
      completed_at = some t.now;
    }

module _ (hash_token : String → String) (id : Ulid) (attempt : ℕ) (token : String) where
  unfoldable pub finish_row : Outcome → Times → Db → Job → Result JobError (Unit {0} × Db)
  unfolding holds_attempt job_lease_live update_held set_succeeded set_failed
  finish_row completed t db j =
      if not (holds_attempt hash_token attempt token j)
      then err lease_lost
      else if is_succeeded j.state
      then ok (tt, db)
      else if not (is_active j.state)
      then err lease_lost
      else if not (job_lease_live t.live j)
      then err lease_expired
      else ok (tt, update_held hash_token id attempt token (set_succeeded t) db)
  finish_row (failure code retry) t db j =
      if not (holds_attempt hash_token attempt token j)
      then err lease_lost
      else if is_failed j.state || is_canceled j.state || is_queued j.state
      then ok (tt, db)
      else ok (tt, update_held hash_token id attempt token (set_failed attempt code retry t j) db)

  unfoldable pub finish_tx : Outcome → Times → Tx (Unit {0})
  unfolding finish_row find_id
  finish_tx outcome t db =
      if str_eq token ""
      then err lease_lost
      else elim (find_id id db.jobs) [ none ↦ err not_found | some j ↦ finish_row outcome t db j ]

  unfoldable pub finish : Outcome → Times → Db → Result JobError (Unit {0}) × Db
  unfolding finish_tx
  finish outcome t db =
      if str_eq token "" then (err lease_lost, db) else with_transaction (finish_tx outcome t) db

  unfoldable pub complete : Times → Db → Result JobError (Unit {0}) × Db
  unfolding finish
  complete t db = finish completed t db

  unfoldable pub fail : String → Bool → Times → Db → Result JobError (Unit {0}) × Db
  unfolding finish valid_error_code
  fail code retry t db =
      if not (valid_error_code code) then (err validation, db) else finish (failure code retry) t db
