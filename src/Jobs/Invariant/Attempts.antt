-- ===== src/Jobs/Invariant/Attempts.antt =====
-- Heartbeat, Complete, Fail and the cancellations keep the invariant.
use doublangu.Prelude.{
  ℕ, ◌≤◌, String, ◌≡◌, refl, sym, ap, inl, inr, Bool, true, false, ◌&&◌, ◌||◌, not, Option, none,
  some, arith, ok, err, ◌==◌, if◌then◌else◌, ℤ, pos, negsuc, ltb_ℤ, pos_part, str_eq, is_blank,
  update_where, count_where, and-elim, or-false, Bool-cases,
}
use doublangu.Jobs.Types.{
  Ulid, is_zero, is_queued, is_active, is_canceled, is_failed, is_succeeded, Job, Db, validation,
  not_found, lease_lost, lease_expired, HeartbeatResult, Times,
}
use doublangu.Jobs.Enqueue.{find_id}
use doublangu.Jobs.Lease.{
  is_held, update_held, beat, beat_answer, heartbeat_row, heartbeat_tx, heartbeat, holds_attempt,
  job_lease_live, valid_error_code,
}
use doublangu.Jobs.Finish.{
  Outcome, completed, failure, set_succeeded, set_failed, finish_row, finish_tx, finish, fail,
}
use doublangu.Jobs.Cancel.{
  cancel_queued, cancel_active, queued_at, active_at, cancel_rest, cancel_tx, cancel, owned_by,
  cancel_owner_jobs_tx, cancel_owner_jobs,
}
use doublangu.Jobs.Invariant.{
  beat-Moves, set_succeeded-Moves, set_failed-Moves, cancel_queued-Moves, cancel_active-Moves,
}
use doublangu.Jobs.Invariant.Rules.{
  KeepsId, IsOnly, Inv, update-Inv, update-Inv_with, find_id-IsOnly, Ensures, commit-keeps,
  Ensures-if, Ensures-guard, Ensures-ok, Ensures-err, refuse-keeps, transaction-keeps,
}

module _ (origin : Db) where
  id-beat : (t : Times) (progress : ℕ) → KeepsId (beat t progress)
  unfolding beat
  id-beat t progress j = refl

  id-set_succeeded : (t : Times) → KeepsId (set_succeeded t)
  unfolding set_succeeded
  id-set_succeeded t j = refl

  id-set_failed :
      (attempt : ℕ) (code : String) (retry : Bool) (t : Times) (found : Job)
      → KeepsId (set_failed attempt code retry t found)
  unfolding set_failed
  id-set_failed attempt code retry t found j = ground arith

  id-cancel_queued : (code : String) (now : ℕ) → KeepsId (cancel_queued code now)
  unfolding cancel_queued
  id-cancel_queued code now j = refl

  id-cancel_active : (code : String) (now : ℕ) → KeepsId (cancel_active code now)
  unfolding cancel_active
  id-cancel_active code now j = refl

  progress_bound : (n : ℤ) → (ltb_ℤ n (pos 0) || ltb_ℤ (pos 100) n) ≡ false → pos_part n ≤ 100
  progress_bound (pos n) h = ground arith
  progress_bound (negsuc n) h = omega arith

  module _ (hash_token : String → String) (id : Ulid) (attempt : ℕ) (token : String) where
    held_active :
        (j : Job)
        → is_held hash_token id attempt token j ≡ true
        → ((j.id == id) ≡ true) × (j.attempt_count ≡ attempt) × (is_active j.state ≡ true)
    held_active j h = ground arith

    beat_answer-Ensures : (db : Db) → Inv origin db → Ensures (Inv origin) (beat_answer id db)
    beat_answer-Ensures db h = go (find_id id db.jobs)
      where
        go :
            (o : Option Job)
            → Ensures {A = HeartbeatResult} (Inv origin) (elim o [
              | none ↦ err not_found
              | some j ↦ ok (record { cancel_requested = false; job = j }, db)
            ])
        go none = Ensures-err not_found
        go (some j) = Ensures-ok (record { cancel_requested = false; job = j }) h

    heartbeat_row-Ensures :
        (progress : ℕ) (t : Times) (db : Db) (found : Job)
        → progress ≤ 100
        → Inv origin db
        → Ensures (Inv origin) (heartbeat_row hash_token id attempt token progress t db found)
    unfolding heartbeat_row
    heartbeat_row-Ensures progress t db found p h =
        Ensures-guard (not (holds_attempt hash_token attempt token found)) lease_lost λ _.
          Ensures-if (is_succeeded found.state)
            (λ _. Ensures-ok (record { cancel_requested = false; job = found }) h)
            λ _.
              Ensures-if (is_canceled found.state || is_failed found.state)
                (λ _. Ensures-ok (record { cancel_requested = true; job = found }) h)
                λ _. Ensures-guard (not (is_active found.state)) lease_lost λ _.
                  Ensures-guard (not (job_lease_live t.live found)) lease_expired λ _.
                    beat_answer-Ensures
                      (update_held hash_token id attempt token (beat t progress) db)
                      (unfold update_held in
                        update-Inv (is_held hash_token id attempt token) (beat t progress)
                          (id-beat t progress) db
                          (λ j e w. beat-Moves j w t progress (held_active j e).2 p) h)

    heartbeat_tx-Ensures :
        (progress : ℕ) (t : Times) (db : Db)
        → progress ≤ 100
        → Inv origin db
        → Ensures (Inv origin) (heartbeat_tx hash_token id attempt token progress t db)
    unfolding heartbeat_tx
    heartbeat_tx-Ensures progress t db p h = go (find_id id db.jobs)
      where
        go :
            (o : Option Job)
            → Ensures {A = HeartbeatResult} (Inv origin) (elim o [
              | none ↦ err not_found
              | some j ↦ heartbeat_row hash_token id attempt token progress t db j
            ])
        go none = Ensures-err not_found
        go (some j) = heartbeat_row-Ensures progress t db j p h

    pub heartbeat-Inv :
        (progress : ℤ) (t : Times) (db : Db)
        → Inv origin db
        → Inv origin (heartbeat hash_token id attempt token progress t db).1
    unfolding heartbeat
    heartbeat-Inv progress t db h =
        elim (Bool-cases (ltb_ℤ progress (pos 0) || ltb_ℤ (pos 100) progress || str_eq token "")) [
          | inl e ↦ rw e h
          | inr e ↦ rw e (
              commit-keeps db (heartbeat_tx hash_token id attempt token (pos_part progress) t db) h
                (heartbeat_tx-Ensures (pos_part progress) t db
                  (progress_bound progress (or-false _ _ e).0) h))
        ]

    finish_row-Ensures :
        (outcome : Outcome) (t : Times) (db : Db) (found : Job)
        → find_id id db.jobs ≡ some found
        → Inv origin db
        → Ensures (Inv origin) (finish_row hash_token id attempt token outcome t db found)
    unfolding finish_row
    finish_row-Ensures completed t db found f h =
        Ensures-guard (not (holds_attempt hash_token attempt token found)) lease_lost λ _.
          Ensures-if (is_succeeded found.state) (λ _. Ensures-ok tt h)
            λ _. Ensures-guard (not (is_active found.state)) lease_lost λ _.
              Ensures-guard (not (job_lease_live t.live found)) lease_expired λ _. Ensures-ok tt (
                update-Inv (is_held hash_token id attempt token) (set_succeeded t)
                  (id-set_succeeded t) db (λ j e w. set_succeeded-Moves j w t (held_active j e).2)
                  h)
    finish_row-Ensures (failure code retry) t db found f h =
        Ensures-guard (not (holds_attempt hash_token attempt token found)) lease_lost λ _.
          Ensures-if (is_failed found.state || is_canceled found.state || is_queued found.state)
            (λ _. Ensures-ok tt h)
            λ _. Ensures-ok tt (
              update-Inv_with (IsOnly id found) (is_held hash_token id attempt token)
                (set_failed attempt code retry t found) (id-set_failed attempt code retry t found)
                db
                (λ j e w only.
                  let (same_id, same_attempt, active) = held_active j e in
                  rw (← same_attempt) (
                    set_failed-Moves j w code retry t found active
                      (ap (λ (x : Job). x.max_attempts) (sym (only same_id)))))
                (find_id-IsOnly id db.jobs h.unique f) h)

    finish_tx-Ensures :
        (outcome : Outcome) (t : Times) (db : Db)
        → Inv origin db
        → Ensures (Inv origin) (finish_tx hash_token id attempt token outcome t db)
    unfolding finish_tx
    finish_tx-Ensures outcome t db h =
        Ensures-guard (str_eq token "") lease_lost (λ _. go (find_id id db.jobs) refl)
      where
        go :
            (o : Option Job)
            → find_id id db.jobs ≡ o
            → Ensures {A = Unit {0}} (Inv origin) (elim o [
              | none ↦ err not_found
              | some j ↦ finish_row hash_token id attempt token outcome t db j
            ])
        go none _ = Ensures-err not_found
        go (some j) e = finish_row-Ensures outcome t db j e h

    pub finish-Inv :
        (outcome : Outcome) (t : Times) (db : Db)
        → Inv origin db
        → Inv origin (finish hash_token id attempt token outcome t db).1
    unfolding finish
    finish-Inv outcome t db h =
        transaction-keeps (Inv origin) (str_eq token "") lease_lost db
          (finish_tx hash_token id attempt token outcome t db) h (finish_tx-Ensures outcome t db h)

    pub fail-Inv :
        (code : String) (retry : Bool) (t : Times) (db : Db)
        → Inv origin db
        → Inv origin (fail hash_token id attempt token code retry t db).1
    unfolding fail
    fail-Inv code retry t db h =
        refuse-keeps (Inv origin) (not (valid_error_code code)) validation db
          (finish hash_token id attempt token (failure code retry) t db) h
          (finish-Inv (failure code retry) t db h)

  cancel_rest-Ensures :
      (id : Ulid) (db : Db) → Inv origin db → Ensures (Inv origin) (cancel_rest id db)
  unfolding cancel_rest
  cancel_rest-Ensures id db h = go (find_id id db.jobs)
    where
      go :
          (o : Option Job)
          → Ensures {A = Unit {0}} (Inv origin) (elim o [
            | none ↦ err not_found
            | some j ↦ if is_canceled j.state then ok (tt, db) else err lease_lost
          ])
      go none = Ensures-err not_found
      go (some j) =
          Ensures-if (is_canceled j.state) (λ _. Ensures-ok tt h) (λ _. Ensures-err lease_lost)

  cancel_queued-Inv :
      (p : Job → Bool) (code : String) (now : ℕ) (db : Db)
      → ((j : Job) → p j ≡ true → is_queued j.state ≡ true)
      → Inv origin db
      → Inv origin (record db { jobs = update_where p (cancel_queued code now) db.jobs })
  cancel_queued-Inv p code now db q h =
      update-Inv p (cancel_queued code now) (id-cancel_queued code now) db
        (λ j e w. cancel_queued-Moves j w code now (q j e)) h

  cancel_active-Inv :
      (p : Job → Bool) (code : String) (now : ℕ) (db : Db)
      → ((j : Job) → p j ≡ true → is_active j.state ≡ true)
      → Inv origin db
      → Inv origin (record db { jobs = update_where p (cancel_active code now) db.jobs })
  cancel_active-Inv p code now db a h =
      update-Inv p (cancel_active code now) (id-cancel_active code now) db
        (λ j e w. cancel_active-Moves j w code now (a j e)) h

  module _ (id : Ulid) (code : String) (now : ℕ) (db : Db) (h : Inv origin db) where
    abbrev after_queued : Db
    after_queued = record db { jobs = update_where (queued_at id) (cancel_queued code now) db.jobs }

    abbrev after_active : Db
    after_active = record db {
      jobs = update_where (active_at id) (cancel_active code now) after_queued.jobs;
    }

    after_queued-Inv : Inv origin after_queued
    after_queued-Inv = cancel_queued-Inv (queued_at id) code now db (λ j e. (and-elim _ _ e).1) h

    after_active-Inv : Inv origin after_active
    after_active-Inv =
        cancel_active-Inv (active_at id) code now after_queued (λ j e. (and-elim _ _ e).1)
          after_queued-Inv

    cancel_tx-Ensures : Ensures (Inv origin) (cancel_tx id code now db)
    unfolding cancel_tx
    cancel_tx-Ensures = Ensures-guard (is_zero id || not (valid_error_code code)) validation λ _.
        Ensures-if (count_where (queued_at id) db.jobs == 1) (λ _. Ensures-ok tt after_queued-Inv)
          λ _.
            Ensures-if (count_where (active_at id) after_queued.jobs == 1)
              (λ _. Ensures-ok tt after_active-Inv)
              λ _. cancel_rest-Ensures id after_active after_active-Inv

  pub cancel-Inv :
      (id : Ulid) (code : String) (now : ℕ) (db : Db)
      → Inv origin db
      → Inv origin (cancel id code now db).1
  unfolding cancel
  cancel-Inv id code now db h =
      transaction-keeps (Inv origin) (not (valid_error_code code)) validation db
        (cancel_tx id code now db) h (cancel_tx-Ensures id code now db h)

  module _ (owner_type owner_id job_type code : String) (now : ℕ) (db : Db) where
    abbrev owned : Job → Bool
    owned = owned_by owner_type owner_id job_type

    cancel_owner_jobs_tx-Ensures :
        Inv origin db
        → Ensures (Inv origin) (cancel_owner_jobs_tx owner_type owner_id job_type code now db)
    unfolding cancel_owner_jobs_tx
    cancel_owner_jobs_tx-Ensures h =
        let queued_done =
          cancel_queued-Inv (λ j. owned j && is_queued j.state) code now db
            (λ j e. (and-elim _ _ e).1) h in
        Ensures-guard
          (is_blank owner_type
            || is_blank owner_id
            || is_blank job_type
            || not (valid_error_code code))
          validation
          λ _. Ensures-ok _ (
            cancel_active-Inv (λ j. owned j && is_active j.state) code now
              (record db {
                jobs =
                    update_where (λ j. owned j && is_queued j.state) (cancel_queued code now)
                      db.jobs;
              })
              (λ j e. (and-elim _ _ e).1) queued_done)

    pub cancel_owner_jobs-Inv :
        Inv origin db → Inv origin (cancel_owner_jobs owner_type owner_id job_type code now db).1
    unfolding cancel_owner_jobs
    cancel_owner_jobs-Inv h =
        transaction-keeps (Inv origin) (not (valid_error_code code)) validation db
          (cancel_owner_jobs_tx owner_type owner_id job_type code now db) h
          (cancel_owner_jobs_tx-Ensures h)
