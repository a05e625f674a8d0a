-- ===== src/Jobs/Fencing.antt =====
-- Who may change a leased job: its holder can finish it, everyone else is refused, acknowledgements
-- can be repeated, and a canceled attempt learns of it.
pub mod Leased
pub mod Stale
pub mod Repeated
pub mod Canceled
pub mod Retry
use doublangu.Prelude.{
  ℕ, String, ◌≡◌, sym, subst, ap, Bool, true, false, ◌&&◌, ◌||◌, not, Option, none, some, arith,
  Result, ok, err, ◌==◌, if◌then◌else◌, str_eq, eq_iff, ltb_ℤ, ℤ, pos, pos_part, Bool-cases,
}
use doublangu.Jobs.Types.{
  Ulid, Job, Db, JobError, validation, not_found, lease_lost, Times, commit, HeartbeatResult,
}
use doublangu.Jobs.Enqueue.{find_id}
use doublangu.Jobs.Lease.{
  holds_attempt, token_match, valid_error_code, heartbeat_row, heartbeat_tx, heartbeat,
}
use doublangu.Jobs.Finish.{
  Outcome, completed, failure, finish_row, finish_tx, finish, complete, fail,
}

module _ (hash_token : String → String) (id : Ulid) (attempt : ℕ) (token : String) (j : Job) where
  -- the guards before the row is read
  pub finish-found :
      (outcome : Outcome) (t : Times) (db : Db)
      → str_eq token "" ≡ false
      → find_id id db.jobs ≡ some j
      → finish hash_token id attempt token outcome t db
        ≡ commit db (finish_row hash_token id attempt token outcome t db j)
  unfolding finish finish_tx
  finish-found outcome t db n e = rw n (rw e)

  heartbeat_tx-found :
      (progress : ℕ) (t : Times) (db : Db)
      → find_id id db.jobs ≡ some j
      → heartbeat_tx hash_token id attempt token progress t db
        ≡ heartbeat_row hash_token id attempt token progress t db j
  unfolding heartbeat_tx
  heartbeat_tx-found progress t db e = rw (e, heartbeat_tx)

  pub heartbeat-found :
      (progress : ℤ) (t : Times) (db : Db)
      → str_eq token "" ≡ false
      → (ltb_ℤ progress (pos 0) || ltb_ℤ (pos 100) progress) ≡ false
      → find_id id db.jobs ≡ some j
      → heartbeat hash_token id attempt token progress t db
        ≡ commit db (heartbeat_row hash_token id attempt token (pos_part progress) t db j)
  unfolding heartbeat
  heartbeat-found progress t db n r e =
      subst
        (λ b.
          (if b
            then (err validation, db)
            else commit db (heartbeat_tx hash_token id attempt token (pos_part progress) t db))
          ≡ commit db (heartbeat_row hash_token id attempt token (pos_part progress) t db j))
        (sym (both_false r n)) (ap (commit db) (heartbeat_tx-found (pos_part progress) t db e))
    where
      both_false : {a b : Bool} → a ≡ false → b ≡ false → (a || b) ≡ false
      both_false h k = rw h k

pub finish-missing :
    (hash_token : String → String) (id : Ulid) (attempt : ℕ) (token : String) (outcome : Outcome)
    (t : Times) (db : Db)
    → str_eq token "" ≡ false
    → find_id id db.jobs ≡ none
    → finish hash_token id attempt token outcome t db ≡ (err not_found, db)
unfolding finish finish_tx
finish-missing hash_token id attempt token outcome t db n e = rw n (rw e)
