-- ===== src/Jobs/Invariant.antt =====
-- What holds of every row of the table `job` between two operations, and that the SET lists of the
-- UPDATE statements keep it.
pub mod Rows
pub mod History
pub mod Bodies
pub mod Rules
pub mod Admission
pub mod Claims
pub mod Attempts
pub mod Recovery
use doublangu.Prelude.{
  ℕ, ◌+◌, ◌≤◌, ◌<◌, String, ◌≡◌, ◌⊎◌, Bool, true, false, ◌&&◌, Option, none, some, arith, is_blank,
  All, ltb,
}
use doublangu.Jobs.Types.{
  State, queued, succeeded, failed, canceled, is_active, is_queued, is_succeeded, is_canceled, Job,
  Db, Spec, Times,
}
use doublangu.Jobs.Reconcile.{fail_dependency}
use doublangu.Jobs.Claim.{take_lease}
use doublangu.Jobs.Lease.{beat}
use doublangu.Jobs.Finish.{set_succeeded, set_failed}
use doublangu.Jobs.Cancel.{cancel_queued, cancel_active}
use doublangu.Jobs.Recover.{set_expired}

abbrev pub is_some {ℓ} : {A : Type ℓ} → Option A → Bool
is_some none = false
is_some (some a) = true

abbrev pub is_terminal : State → Bool
is_terminal succeeded = true
is_terminal failed = true
is_terminal canceled = true
is_terminal _ = false

pub record IsWf (j : Job) : Type 0 where
  -- a job has an attempt left as long as it is queued, and never makes more than three
  pub attempts_within : j.attempt_count ≤ j.max_attempts
  pub attempts_allowed : (1 ≤ j.max_attempts) × (j.max_attempts ≤ 3)
  pub queued_ready : is_queued j.state ≡ true → j.attempt_count < j.max_attempts
  pub progress_within : j.progress_percent ≤ 100
  pub succeeded_full : is_succeeded j.state ≡ true → j.progress_percent ≡ 100
  -- a lease is owned, expires, and is an attempt
  pub active_owned : is_active j.state ≡ true → is_blank j.lease_owner ≡ false
  pub active_expires : is_active j.state ≡ true → is_some j.lease_expires_at ≡ true
  pub active_attempted : is_active j.state ≡ true → 1 ≤ j.attempt_count
  pub expires_active :
      is_some j.lease_expires_at ≡ true → (is_active j.state ≡ true) ⊎ (is_canceled j.state ≡ true)
  pub terminal_completed : is_terminal j.state ≡ true → is_some j.completed_at ≡ true

-- How a row may differ from what it was: what identifies it and its limit of attempts stay,
-- attempts are only added, and a row in a terminal state stays as it is.
pub record Evolved (j j' : Job) : Type 0 where
  pub same_id : j'.id ≡ j.id
  pub same_key : j'.idempotency_key ≡ j.idempotency_key
  pub same_payload : j'.payload_json ≡ j.payload_json
  pub same_limit : j'.max_attempts ≡ j.max_attempts
  pub attempts_grow : j.attempt_count ≤ j'.attempt_count
  pub frozen : is_terminal j.state ≡ true → j' ≡ j

-- A SET list that is allowed on a row.
pub record Moves (j j' : Job) : Type 0 where
  pub wf : IsWf j'
  pub evolved : Evolved j j'

module _ (j : Job) (w : IsWf j) where
  pub fail_dependency-Moves : (now : ℕ) → is_queued j.state ≡ true → Moves j (fail_dependency now j)
  unfolding fail_dependency
  fail_dependency-Moves now q = ground arith

  pub take_lease-Moves :
      (owner hash : String) (t : Times)
      → is_queued j.state ≡ true
      → is_blank owner ≡ false
      → Moves j (take_lease owner hash t j)
  unfolding take_lease
  take_lease-Moves owner hash t q o = ground arith

  pub beat-Moves :
      (t : Times) (progress : ℕ)
      → is_active j.state ≡ true
      → progress ≤ 100
      → Moves j (beat t progress j)
  unfolding beat
  beat-Moves t progress a p = ground arith

  pub set_succeeded-Moves : (t : Times) → is_active j.state ≡ true → Moves j (set_succeeded t j)
  unfolding set_succeeded
  set_succeeded-Moves t a = ground arith

  pub set_failed-Moves :
      (code : String) (retry : Bool) (t : Times) (found : Job)
      → is_active j.state ≡ true
      → found.max_attempts ≡ j.max_attempts
      → Moves j (set_failed j.attempt_count code retry t found j)
  unfolding set_failed
  set_failed-Moves code retry t found a same = ground arith

  pub cancel_queued-Moves :
      (code : String) (now : ℕ) → is_queued j.state ≡ true → Moves j (cancel_queued code now j)
  unfolding cancel_queued
  cancel_queued-Moves code now q = ground arith

  pub cancel_active-Moves :
      (code : String) (now : ℕ) → is_active j.state ≡ true → Moves j (cancel_active code now j)
  unfolding cancel_active
  cancel_active-Moves code now a = ground arith

  pub set_expired-Moves :
      (item : Job) (now wall : ℕ)
      → is_active j.state ≡ true
      → item.attempt_count ≡ j.attempt_count
      → item.max_attempts ≡ j.max_attempts
      → Moves j (set_expired item now wall j)
  unfolding set_expired
  set_expired-Moves item now wall a e f = ground arith
