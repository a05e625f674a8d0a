-- ===== src/Jobs/Recover/Complete.antt =====
-- RecoverExpired misses no expired lease.
use doublangu.Prelude.{
  ℕ, zero, suc, ◌+◌, ◌≡◌, sym, subst, ap, refl, inl, inr, true, false, List, [], ◌∷◌, arith, Result,
  ok, err, ◌==◌, All, All-mono, All-update_where, length, select, exists_where, count_where,
  Bool-cases,
}
use doublangu.Jobs.Types.{Ulid, Job, Db, JobError, TerminalRecovery, commit}
use doublangu.Jobs.Enqueue.{has_id}
use doublangu.Jobs.Reconcile.{
  is_doomed, fail_dependency, reconcile_round, reconcile_loop, reconcile,
}
use doublangu.Jobs.Recover.{
  is_expired, may_expire, set_expired, expire_row, recover_row, recover_rows, recover_expired_tx,
  recover_expired,
}
use doublangu.Jobs.Invariant.Rules.{Ensures, Ensures-ok, Ensures-bind, Ensures-then}
use doublangu.Jobs.Invariant.Recovery.{LeavesTables, recover_row-ok}

abbrev pub NoneExpired : ℕ → Db → Type 0
NoneExpired now db = All (λ j. is_expired now j ≡ false) db.jobs

-- every expired row is still to be handled
abbrev Covered : ℕ → List Job → Job → Type 0
Covered now items j = is_expired now j ≡ true → exists_where (has_id j.id) items ≡ true

Covered-cons :
    (now : ℕ) (item : Job) (items : List Job) (j : Job)
    → Covered now items j
    → Covered now (item ∷ items) j
unfolding exists_where
Covered-cons now item items j h e = ground (arith, h e)

select-Covered : (now : ℕ) (jobs : List Job) → All (Covered now (select (is_expired now) jobs)) jobs
select-Covered now [] = tt
select-Covered now (j ∷ js) = elim (Bool-cases (is_expired now j)) [
  | inl e ↦
      subst (λ items. All (Covered now items) (j ∷ js)) (sym (taken e))
        (
          (λ _. (unfold exists_where in ground arith)),
          All-mono (Covered now rest) (Covered now (j ∷ rest)) (λ x. Covered-cons now j rest x) js
              (select-Covered now js),
        )
  | inr e ↦
      subst (λ items. All (Covered now items) (j ∷ js)) (sym (skipped e))
        ((λ t. absurd (ground arith)), select-Covered now js)
]
  where
    rest : List Job
    rest = select (is_expired now) js

    taken : is_expired now j ≡ true → select (is_expired now) (j ∷ js) ≡ j ∷ rest
    taken e = unfold select in rw e

    skipped : is_expired now j ≡ false → select (is_expired now) (j ∷ js) ≡ rest
    skipped e = unfold select in rw e

expire_row-Covered :
    (item : Job) (items : List Job) (now wall : ℕ) (db : Db)
    → All (Covered now (item ∷ items)) db.jobs
    → All (Covered now items) (expire_row item now wall db).jobs
unfolding expire_row
expire_row-Covered item items now wall db =
    All-update_where (Covered now (item ∷ items)) (Covered now items) (may_expire item.id now)
      (set_expired item now wall)
      (λ j e c x. absurd (unfold is_expired set_expired in ground arith))
      (λ j e c x. rest j e x (c x)) db.jobs
  where
    rest :
        (j : Job)
        → may_expire item.id now j ≡ false
        → is_expired now j ≡ true
        → exists_where (has_id j.id) (item ∷ items) ≡ true
        → exists_where (has_id j.id) items ≡ true
    rest j e x k = unfold is_expired exists_where in ground arith

reconcile_round-NoneExpired :
    (now t : ℕ) (db : Db) → NoneExpired now db → NoneExpired now (reconcile_round t db)
unfolding reconcile_round
reconcile_round-NoneExpired now t db =
    All-update_where (λ j. is_expired now j ≡ false) (λ j. is_expired now j ≡ false) (is_doomed db)
      (fail_dependency t) (λ j e h. (unfold is_expired fail_dependency in refl)) (λ j e h. h)
      db.jobs

reconcile_loop-NoneExpired :
    (fuel now t : ℕ) (db : Db) → NoneExpired now db → NoneExpired now (reconcile_loop fuel t db)
unfolding reconcile_loop
reconcile_loop-NoneExpired zero now t db h = h
reconcile_loop-NoneExpired (suc fuel) now t db h =
    elim (count_where (is_doomed db) db.jobs == 0)
      as (λ b. NoneExpired now (elim b [
        | true ↦ reconcile_round t db
        | false ↦ reconcile_loop fuel t (reconcile_round t db)
      ])) [
        | true ↦ reconcile_round-NoneExpired now t db h
        | false ↦
            reconcile_loop-NoneExpired fuel now t (reconcile_round t db)
              (reconcile_round-NoneExpired now t db h)
      ]

module _ (recovery : TerminalRecovery) (leaves : LeavesTables recovery) (now : ℕ)
    (wall : Ulid → ℕ) where
  recover_rows-NoneExpired :
      (affected : ℕ) (items : List Job) (db : Db)
      → All (Covered now items) db.jobs
      → Ensures (NoneExpired now) (recover_rows recovery now wall affected items db)
  unfolding recover_rows
  recover_rows-NoneExpired affected [] db c =
      Ensures-ok affected
        (All-mono (Covered now []) (λ j. is_expired now j ≡ false) (λ j k. uncovered j k) db.jobs c)
    where
      uncovered : (j : Job) → Covered now [] j → is_expired now j ≡ false
      uncovered j k = elim (Bool-cases (is_expired now j)) [
        | inl e ↦ absurd (unfold exists_where in ground (arith, k e))
        | inr e ↦ e
      ]
  recover_rows-NoneExpired affected (item ∷ items) db c =
      Ensures-bind (recover_row recovery now (wall item.id) item db) _ λ x e.
        let (left, _) =
          recover_row-ok db recovery leaves now (wall item.id) item db {count = x.0} {db' = x.1}
            e in
        recover_rows-NoneExpired (affected + x.0) items x.1 (
          subst (λ d. All (Covered now items) d.jobs) (sym left)
            (expire_row-Covered item items now (wall item.id) db c))

  recover_expired_tx-NoneExpired :
      (db : Db) → Ensures (NoneExpired now) (recover_expired_tx recovery now wall db)
  unfolding recover_expired_tx reconcile
  recover_expired_tx-NoneExpired db =
      Ensures-then (recover_rows recovery now wall 0 (select (is_expired now) db.jobs) db) _
        (recover_rows-NoneExpired 0 (select (is_expired now) db.jobs) db
          (select-Covered now db.jobs))
        λ x k. Ensures-ok x.0 (reconcile_loop-NoneExpired (suc (length x.1.jobs)) now now x.1 k)

  after_commit :
      (db : Db) (r : Result JobError (ℕ × Db))
      → Ensures (NoneExpired now) r
      → {n : ℕ} {db' : Db} → commit db r ≡ (ok n, db')
      → NoneExpired now db'
  after_commit db (ok (m, d)) h {n} {db'} e =
      subst (NoneExpired now) (ap (λ (x : Result JobError ℕ × Db). x.1) e) h.holds
  after_commit db (err x) h e = absurd (ground arith)

  -- When RecoverExpired answers without an error, no job is left whose lease had expired by then:
  -- each has been queued for its next attempt or failed. The terminal callback is assumed to leave
  -- the two tables alone.
  pub recover_expired-NoneExpired :
      (db : Db) {n : ℕ} {db' : Db}
      → recover_expired recovery now wall db ≡ (ok n, db')
      → NoneExpired now db'
  unfolding recover_expired
  recover_expired-NoneExpired db e =
      after_commit db (recover_expired_tx recovery now wall db) (recover_expired_tx-NoneExpired db)
        e
