-- ===== src/Jobs/Fencing/Retry.antt =====
-- What a reported failure schedules.
use doublangu.Prelude.{
  ℕ, ◌+◌, String, ◌≡◌, sym, subst, ◌∙◌, inl, inr, ◌⊎◌, Bool, true, false, ◌&&◌, some, arith, ok,
  str_eq, ltb, Bool-cases,
}
use doublangu.Jobs.Types.{Ulid, queued, failed, is_active, Job, Db, Times}
use doublangu.Jobs.Enqueue.{find_id}
use doublangu.Jobs.Lease.{holds_attempt, valid_error_code, update_held}
use doublangu.Jobs.Finish.{failure, set_failed, finish_row, fail}
use doublangu.Jobs.Fencing.{finish-found}
use doublangu.Jobs.Fencing.Repeated.{find_id-update_held, id-set_failed}
use doublangu.Jobs.Invariant.{IsWf}
use doublangu.Jobs.Invariant.Rules.{Inv, find_id-All}

-- Another attempt is scheduled.
pub record IsRetried (attempt : ℕ) (retry : Bool) (t : Times) (j : Job) : Type 0 where
  pub wanted : retry ≡ true
  pub requeued : j.state ≡ queued
  pub delay :
      ((attempt ≡ 1) × (j.available_at ≡ t.wall + 5_000))
      ⊎ ((attempt ≡ 2) × (j.available_at ≡ t.wall + 30_000))

-- The job has failed for good.
pub record IsExhausted (attempt limit : ℕ) (retry : Bool) (t : Times) (j : Job) : Type 0 where
  pub reason : (retry ≡ false) ⊎ (attempt ≡ limit)
  pub ended : j.state ≡ failed
  pub at : j.completed_at ≡ some t.now

set_failed_cases :
    (attempt : ℕ) (code : String) (retry : Bool) (t : Times) (j : Job)
    → IsWf j
    → is_active j.state ≡ true
    → j.attempt_count ≡ attempt
    → IsRetried attempt retry t (set_failed attempt code retry t j j)
      ⊎ IsExhausted attempt j.max_attempts retry t (set_failed attempt code retry t j j)
unfolding set_failed
set_failed_cases attempt code retry t j w a e =
    elim (Bool-cases (retry && ltb attempt j.max_attempts)) [
      | inl y ↦ inl (ground (arith, w.active_attempted a))
      | inr n ↦ inr (ground arith)
    ]

module _ (hash_token : String → String) (id : Ulid) (attempt : ℕ) (token : String) where
  fail_row :
      (code : String) (retry : Bool) (t : Times) (db : Db) (j : Job)
      → valid_error_code code ≡ true
      → str_eq token "" ≡ false
      → find_id id db.jobs ≡ some j
      → holds_attempt hash_token attempt token j ≡ true
      → is_active j.state ≡ true
      → fail hash_token id attempt token code retry t db
        ≡ (ok tt, update_held hash_token id attempt token (set_failed attempt code retry t j) db)
  unfolding fail
  fail_row code retry t db j v n at h a =
      (rw v)
      ∙ finish-found hash_token id attempt token j (failure code retry) t db n at
      ∙ (unfold finish_row in ground (arith, h, a))

  -- A failure that the holder of an active attempt reports, from tables that satisfy the invariant
  -- and with a valid code: either a retry is wanted and the job is queued again, five seconds after
  -- the first attempt or thirty after the second; or no retry is wanted or the attempt was the last
  -- one allowed, and the job has failed for good. The backoff of two minutes is never scheduled.
  pub fail-schedules :
      (code : String) (retry : Bool) (t : Times) {origin : Db} (db : Db) (j : Job)
      → Inv origin db
      → valid_error_code code ≡ true
      → str_eq token "" ≡ false
      → find_id id db.jobs ≡ some j
      → is_active j.state ≡ true
      → holds_attempt hash_token attempt token j ≡ true
      → (j' : Job) × (find_id id (fail hash_token id attempt token code retry t db).1.jobs
          ≡ some j')
        × (IsRetried attempt retry t j' ⊎ IsExhausted attempt j.max_attempts retry t j')
  fail-schedules code retry t db j i v n at a h = (
    set_failed attempt code retry t j j,
    subst (λ x. find_id id x.1.jobs ≡ some (set_failed attempt code retry t j j))
        (sym (fail_row code retry t db j v n at h a))
        (find_id-update_held hash_token id attempt token (set_failed attempt code retry t j) db j
          (id-set_failed hash_token id attempt token code retry t j) at h a),
    set_failed_cases attempt code retry t j (find_id-All IsWf id db.jobs i.rows at) a
        (unfold holds_attempt in ground arith),
  )
