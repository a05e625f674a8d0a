-- ===== src/Jobs/Invariant/Recovery.antt =====
-- RecoverExpired and RecoverExpiredJob keep the invariant.
use doublangu.Prelude.{
  ℕ, ◌+◌, ◌≡◌, refl, sym, subst, ap, inl, inr, Bool, true, false, ◌&&◌, not, List, [], ◌∷◌, Option,
  none, some, arith, Result, ok, err, ◌==◌, All, All-both, All-mono, All-select, All-update_where,
  Bool-cases, and-elim, select, count_where,
}
use doublangu.Jobs.Types.{
  Ulid, is_zero, is_active, is_failed, Job, Db, JobError, validation, Recovered, TerminalRecovery,
  ◌>>=◌,
}
use doublangu.Jobs.Enqueue.{find_id}
use doublangu.Jobs.Recover.{
  call_recovery, may_expire, is_expired, set_expired, expire_row, next_state, recovered,
  recover_row, recover_rows, recover_expired_tx, recover_expired, recover_found,
  recover_expired_job_tx, recover_expired_job,
}
use doublangu.Jobs.Invariant.{set_expired-Moves}
use doublangu.Jobs.Invariant.Rules.{
  KeepsId, IsOnly, UniqueIds, Inv, update-Inv_with, find_id-IsOnly, find_id-id, none_with_id,
  none_of_id, Ensures, Ensures-if, Ensures-ok, Ensures-bind, Ensures-then, commit-keeps,
  transaction-keeps,
}
use doublangu.Jobs.Invariant.Claims.{reconcile-Inv}

-- The callbacks of the program (speech.Store.ReconcileTerminalJobTx, or none) write no row of `job`
-- or `job_dependency`.
abbrev pub LeavesTables : TerminalRecovery → Type 0
LeavesTables none = Unit
LeavesTables (some f) = (item : Recovered) (db db' : Db) → f item db ≡ ok (tt, db') → db' ≡ db

-- a row of the item's id that is still leased is the attempt that was selected
abbrev pub SameAttempt : Job → Job → Type 0
SameAttempt item j =
    (j.id == item.id) ≡ true
    → is_active j.state ≡ true
    → (item.attempt_count ≡ j.attempt_count) × (item.max_attempts ≡ j.max_attempts)

module _ (origin : Db) where
  call_recovery-leaves :
      (recovery : TerminalRecovery)
      → LeavesTables recovery
      → (item : Recovered) (db db' : Db) (u : Unit {0})
      → call_recovery recovery item db ≡ ok (u, db')
      → db' ≡ db
  call_recovery-leaves none l item db db' u e = ground arith
  call_recovery-leaves (some f) l item db db' tt e = l item db db' e

  id-set_expired : (item : Job) (now wall : ℕ) → KeepsId (set_expired item now wall)
  unfolding set_expired
  id-set_expired item now wall j = refl

  pub expire_row-Inv :
      (item : Job) (now wall : ℕ) (db : Db)
      → All (SameAttempt item) db.jobs
      → Inv origin db
      → Inv origin (expire_row item now wall db)
  unfolding expire_row
  expire_row-Inv item now wall db same h =
      update-Inv_with (SameAttempt item) (may_expire item.id now) (set_expired item now wall)
        (id-set_expired item now wall) db
        (λ j e w s.
          let (known, _) = and-elim _ _ e in
          let (same_id, active) = and-elim _ _ known in
          let (attempts, max) = s same_id active in
          set_expired-Moves j w item now wall active attempts max)
        same h

  -- An expired row is leased no more, so what was known of the others stays true.
  expire_row-SameAttempt :
      (item other : Job) (now wall : ℕ) (db : Db)
      → All (SameAttempt other) db.jobs
      → All (SameAttempt other) (expire_row item now wall db).jobs
  unfolding expire_row
  expire_row-SameAttempt item other now wall db =
      All-update_where (SameAttempt other) (SameAttempt other) (may_expire item.id now)
        (set_expired item now wall)
        (λ j e s same_id active. absurd (unfold set_expired in ground arith)) (λ j e s. s) db.jobs

  UniqueIds-IsOnly :
      (jobs : List Job) → UniqueIds jobs → All (λ item. All (IsOnly item.id item) jobs) jobs
  UniqueIds-IsOnly [] u = tt
  UniqueIds-IsOnly (j ∷ js) u = (
    ((λ _. refl), none_with_id j.id j js u.0),
    All-mono (λ x. ((x.id == j.id) ≡ false) × All (IsOnly x.id x) js)
        (λ x. All (IsOnly x.id x) (j ∷ js)) (λ x k. ((λ e. absurd (ground (arith, k.0))), k.1)) js
        (All-both (λ x. (x.id == j.id) ≡ false) (λ x. All (IsOnly x.id x) js) js
          (none_of_id j.id js u.0) (UniqueIds-IsOnly js u.1)),
  )

  IsOnly-SameAttempt :
      (item : Job) (jobs : List Job) → All (IsOnly item.id item) jobs → All (SameAttempt item) jobs
  IsOnly-SameAttempt item = All-mono (IsOnly item.id item) (SameAttempt item) λ j only same_id _.
      let e = only same_id in
      (ap (λ (x : Job). x.attempt_count) (sym e), ap (λ (x : Job). x.max_attempts) (sym e))

  module _ (recovery : TerminalRecovery) (leaves : LeavesTables recovery) where
    -- Whatever the callback does, a row that was handled leaves the tables as its UPDATE did.
    pub recover_row-ok :
        (now wall : ℕ) (item : Job) (db : Db) {count : ℕ} {db' : Db}
        → recover_row recovery now wall item db ≡ ok (count, db')
        → (db' ≡ expire_row item now wall db)
          × (count ≡ count_where (may_expire item.id now) db.jobs)
    unfolding recover_row
    recover_row-ok now wall item db {count} {db'} e =
        elim (Bool-cases (rows == 1 && is_failed (next_state item))) [
          | inl y ↦ called (call_recovery recovery (recovered item) left) refl (rw y at e)
          | inr n ↦ plain (rw n at e)
        ]
      where
        rows : ℕ
        rows = count_where (may_expire item.id now) db.jobs

        left : Db
        left = expire_row item now wall db

        plain :
            ◌≡◌ {A = Result JobError (ℕ × Db)} (ok (rows, left)) (ok (count, db'))
            → (db' ≡ left) × (count ≡ rows)
        plain k = (ground arith, ground arith)

        called :
            (r : Result JobError (Unit {0} × Db))
            → call_recovery recovery (recovered item) left ≡ r
            → ◌≡◌ {A = Result JobError (ℕ × Db)}
                (r >>= (λ (u, db''). ok (rows, db'')))
                (ok (count, db'))
            → (db' ≡ left) × (count ≡ rows)
        called (err x) c k = absurd (cc k)
        called (ok (u, db'')) c k =
            let l = call_recovery-leaves recovery leaves (recovered item) left db'' u c in
            (ground (arith, l), ground arith)

    recover_rows-Ensures :
        (now : ℕ) (wall : Ulid → ℕ) (affected : ℕ) (items : List Job) (db : Db)
        → All (λ item. All (SameAttempt item) db.jobs) items
        → Inv origin db
        → Ensures (Inv origin) (recover_rows recovery now wall affected items db)
    unfolding recover_rows
    recover_rows-Ensures now wall affected [] db same h = Ensures-ok affected h
    recover_rows-Ensures now wall affected (item ∷ items) db same h =
        Ensures-bind (recover_row recovery now (wall item.id) item db) _ λ x e.
          let (left, _) = recover_row-ok now (wall item.id) item db {count = x.0} {db' = x.1} e in
          recover_rows-Ensures now wall (affected + x.0) items x.1
            (rw left (
              All-mono (λ other. All (SameAttempt other) db.jobs)
                (λ other. All (SameAttempt other) (expire_row item now (wall item.id) db).jobs)
                (λ other. expire_row-SameAttempt item other now (wall item.id) db) items same.1))
            (rw left (expire_row-Inv item now (wall item.id) db same.0 h))

    -- The selected rows are rows of the table.
    selected-SameAttempt :
        (now : ℕ) (db : Db)
        → UniqueIds db.jobs
        → All (λ item. All (SameAttempt item) db.jobs) (select (is_expired now) db.jobs)
    selected-SameAttempt now db u =
        All-select (λ item. All (SameAttempt item) db.jobs) (is_expired now) db.jobs
          (All-mono (λ item. All (IsOnly item.id item) db.jobs)
            (λ item. All (SameAttempt item) db.jobs) (λ item. IsOnly-SameAttempt item db.jobs)
            db.jobs (UniqueIds-IsOnly db.jobs u))

    recover_expired_tx-Ensures :
        (now : ℕ) (wall : Ulid → ℕ) (db : Db)
        → Inv origin db
        → Ensures (Inv origin) (recover_expired_tx recovery now wall db)
    unfolding recover_expired_tx
    recover_expired_tx-Ensures now wall db h =
        Ensures-then (recover_rows recovery now wall 0 (select (is_expired now) db.jobs) db) _
          (recover_rows-Ensures now wall 0 (select (is_expired now) db.jobs) db
            (selected-SameAttempt now db h.unique) h)
          λ x k. Ensures-ok x.0 (reconcile-Inv origin now x.1 k)

    pub recover_expired-Inv :
        (now : ℕ) (wall : Ulid → ℕ) (db : Db)
        → Inv origin db
        → Inv origin (recover_expired recovery now wall db).1
    unfolding recover_expired
    recover_expired-Inv now wall db h =
        commit-keeps db (recover_expired_tx recovery now wall db) h
          (recover_expired_tx-Ensures now wall db h)

    recover_found-Ensures :
        (now wall : ℕ) (db : Db) (item : Job)
        → All (IsOnly item.id item) db.jobs
        → Inv origin db
        → Ensures (Inv origin) (recover_found recovery now wall db item)
    unfolding recover_found
    recover_found-Ensures now wall db item only h =
        Ensures-if (not (is_expired now item)) (λ _. Ensures-ok false h)
          λ _. Ensures-bind (recover_row recovery now wall item db) _ λ x e.
            let (left, _) = recover_row-ok now wall item db {count = x.0} {db' = x.1} e in
            let kept : Inv origin x.1 =
              rw left (expire_row-Inv item now wall db (IsOnly-SameAttempt item db.jobs only) h) in
            Ensures-if (x.0 == 1) (λ _. Ensures-ok true (reconcile-Inv origin now x.1 kept))
              (λ _. Ensures-ok false kept)

    recover_expired_job_tx-Ensures :
        (id : Ulid) (now wall : ℕ) (db : Db)
        → Inv origin db
        → Ensures (Inv origin) (recover_expired_job_tx recovery id now wall db)
    unfolding recover_expired_job_tx
    recover_expired_job_tx-Ensures id now wall db h = go (find_id id db.jobs) refl
      where
        go :
            (o : Option Job)
            → find_id id db.jobs ≡ o
            → Ensures {A = Bool} (Inv origin) (elim o [
              | none ↦ ok (false, db)
              | some item ↦ recover_found recovery now wall db item
            ])
        go none _ = Ensures-ok false h
        go (some item) e =
            recover_found-Ensures now wall db item
              (subst (λ i. All (IsOnly i item) db.jobs) (sym (find_id-id id db.jobs e))
                (find_id-IsOnly id db.jobs h.unique e))
              h

    pub recover_expired_job-Inv :
        (id : Ulid) (now wall : ℕ) (db : Db)
        → Inv origin db
        → Inv origin (recover_expired_job recovery id now wall db).1
    unfolding recover_expired_job
    recover_expired_job-Inv id now wall db h =
        transaction-keeps (Inv origin) (is_zero id) validation db
          (recover_expired_job_tx recovery id now wall db) h
          (recover_expired_job_tx-Ensures id now wall db h)
