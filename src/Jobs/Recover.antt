-- ===== src/Jobs/Recover.antt =====
-- RecoverExpired and RecoverExpiredJob.
pub mod Complete
use doublangu.Prelude.{
  ℕ, ◌+◌, String, Bool, true, false, ◌&&◌, List, [], ◌∷◌, Option, none, some, not, Result, ok, err,
  ltb, leb, ◌==◌, if◌then◌else◌, update_where, count_where, select,
}
use doublangu.Jobs.Types.{
  Ulid, is_zero, State, queued, failed, is_active, is_failed, Job, Db, JobError, validation, Tx,
  with_transaction, ◌>>=◌, Recovered, TerminalRecovery,
}
use doublangu.Jobs.Enqueue.{find_id}
use doublangu.Jobs.Lease.{backoff_for_attempt}
use doublangu.Jobs.Reconcile.{reconcile}

abbrev pub lease_expired_error_code : String
lease_expired_error_code = "v1.job_lease_expired"

-- lease_expires_at <> '' AND lease_expires_at <= now
abbrev pub expired_by : ℕ → Option ℕ → Bool
expired_by now none = false
expired_by now (some at) = leb at now

-- lease_expires_at <= now, which holds of the empty text too
abbrev pub empty_or_expired_by : ℕ → Option ℕ → Bool
empty_or_expired_by now none = true
empty_or_expired_by now (some at) = leb at now

unfoldable pub is_expired : ℕ → Job → Bool
is_expired now j = is_active j.state && expired_by now j.lease_expires_at

abbrev pub next_state : Job → State
next_state item = if ltb item.attempt_count item.max_attempts then queued else failed

-- `item` is the row as it was selected, `wall` the time that is read for its backoff.
unfoldable pub set_expired : Job → ℕ → ℕ → Job → Job
unfolding backoff_for_attempt
set_expired item now wall j = record j {
  state = next_state item;
  available_at =
      if ltb item.attempt_count item.max_attempts
      then wall + backoff_for_attempt item.attempt_count
      else now;
  error_code = lease_expired_error_code;
  lease_owner = "";
  lease_token_hash = "";
  lease_expires_at = none;
  updated_at = now;
  completed_at = if is_failed (next_state item) then some now else j.completed_at;
}

abbrev pub may_expire : Ulid → ℕ → Job → Bool
may_expire id now j = j.id == id && is_active j.state && empty_or_expired_by now j.lease_expires_at

unfoldable pub expire_row : Job → ℕ → ℕ → Db → Db
unfolding set_expired update_where
expire_row item now wall db = record db {
  jobs = update_where (may_expire item.id now) (set_expired item now wall) db.jobs;
}

unfoldable pub recovered : Job → Recovered
recovered item = record {
  id = item.id;
  job_type = item.job_type;
  owner_type = item.owner_type;
  owner_id = item.owner_id;
  state = next_state item;
  attempt_count = item.attempt_count;
  max_attempts = item.max_attempts;
  error_code = lease_expired_error_code;
}

abbrev pub call_recovery : TerminalRecovery → Recovered → Db → Result JobError (Unit {0} × Db)
call_recovery none item db = ok (tt, db)
call_recovery (some f) item db = f item db

module _ (recovery : TerminalRecovery) where
  -- One row: the UPDATE, and the callback if it failed the job; the count of updated rows.
  unfoldable pub recover_row : ℕ → ℕ → Job → Db → Result JobError (ℕ × Db)
  unfolding expire_row count_where recovered
  recover_row now wall item db =
      let count = count_where (may_expire item.id now) db.jobs in
      let db' = expire_row item now wall db in
      if count == 1 && is_failed (next_state item)
      then call_recovery recovery (recovered item) db' >>= (λ (u, db''). ok (count, db''))
      else ok (count, db')

  -- `wall id` is the time read while the row `id` is handled.
  unfoldable pub recover_rows : ℕ → (Ulid → ℕ) → ℕ → List Job → Db → Result JobError (ℕ × Db)
  unfolding recover_row
  recover_rows now wall affected [] db = ok (affected, db)
  recover_rows now wall affected (item ∷ items) db =
      recover_row now (wall item.id) item db >>= λ (count, db').
      recover_rows now wall (affected + count) items db'

  unfoldable pub recover_expired_tx : ℕ → (Ulid → ℕ) → Tx ℕ
  unfolding recover_rows reconcile select is_expired
  recover_expired_tx now wall db =
      recover_rows now wall 0 (select (is_expired now) db.jobs) db >>= λ (affected, db').
      ok (affected, reconcile now db')

  unfoldable pub recover_expired : ℕ → (Ulid → ℕ) → Db → Result JobError ℕ × Db
  unfolding recover_expired_tx
  recover_expired now wall db = with_transaction (recover_expired_tx now wall) db

  unfoldable pub recover_found : ℕ → ℕ → Db → Job → Result JobError (Bool × Db)
  unfolding recover_row reconcile is_expired
  recover_found now wall db item =
      if not (is_expired now item)
      then ok (false, db)
      else recover_row now wall item db >>= λ (count, db').
          if count == 1 then ok (true, reconcile now db') else ok (false, db')

  unfoldable pub recover_expired_job_tx : Ulid → ℕ → ℕ → Tx Bool
  unfolding recover_found find_id
  recover_expired_job_tx id now wall db = elim (find_id id db.jobs) [
    | none ↦ ok (false, db)
    | some item ↦ recover_found now wall db item
  ]

  unfoldable pub recover_expired_job : Ulid → ℕ → ℕ → Db → Result JobError Bool × Db
  unfolding recover_expired_job_tx
  recover_expired_job id now wall db =
      if is_zero id
      then (err validation, db)
      else with_transaction (recover_expired_job_tx id now wall) db
