-- ===== src/Jobs/Enqueue/Repeated.antt =====
-- Enqueueing one idempotency key twice.
use doublangu.Prelude.{
  String, ◌≡◌, sym, subst, ap, ◌∙◌, refl, inl, inr, true, List, [], ◌∷◌, some, arith, Result, ok,
  err, exists_where, Bool-cases, Option-cases,
}
use doublangu.Jobs.Types.{Ulid, Job, Spec, Db, JobError, Times}
use doublangu.Jobs.Enqueue.{has_key, new_row, insert_job, reread, find_key, enqueue_tx}

exists_of_find_key :
    (key : String) (jobs : List Job) {j : Job}
    → find_key key jobs ≡ some j
    → exists_where (has_key key) jobs ≡ true
unfolding find_key exists_where
exists_of_find_key key [] h = absurd (ground arith)
exists_of_find_key key (x ∷ xs) {j} h = elim (Bool-cases (has_key key x)) [
  | inl e ↦ rw e
  | inr e ↦ ground (arith, exists_of_find_key key xs {j = j} (ground arith))
]

-- what was returned stands in the tables
reread_found :
    (key : String) (r : Result JobError Db) {j : Job} {db' : Db}
    → reread key r ≡ ok (j, db')
    → find_key key db'.jobs ≡ some j
reread_found key (err e) h = absurd (cc h)
reread_found key (ok db) {j} {db'} h = elim (Option-cases (find_key key db.jobs)) [
  | inl e ↦ absurd (ground arith)
  | inr (k, e) ↦ ground arith
]

insert_job-existing :
    (row : Job) (db : Db)
    → exists_where (has_key row.idempotency_key) db.jobs ≡ true
    → insert_job row db ≡ ok db
unfolding insert_job
insert_job-existing row db h = rw h

-- EnqueueTx is idempotent by key: once it has returned a job, a second call with the same
-- idempotency key returns that same job and leaves the tables alone, whatever else the second
-- request says, whenever it comes and whatever id was drawn for it.
pub enqueue_tx-enqueue_tx :
    (spec spec' : Spec) (fresh fresh' : Ulid) (t t' : Times) (db db' : Db) (j : Job)
    → enqueue_tx spec fresh t db ≡ ok (j, db')
    → spec'.idempotency_key ≡ spec.idempotency_key
    → enqueue_tx spec' fresh' t' db' ≡ ok (j, db')
enqueue_tx-enqueue_tx spec spec' fresh fresh' t t' db db' j h same =
    let at : find_key spec'.idempotency_key db'.jobs ≡ some j =
      subst (λ k. find_key k db'.jobs ≡ some j) (sym same)
        (reread_found spec.idempotency_key (insert_job (new_row spec fresh t) db) {j = j}
          {db' = db'} (unfold enqueue_tx in h)) in
    again at
  where
    keyed : (new_row spec' fresh' t').idempotency_key ≡ spec'.idempotency_key
    keyed = unfold new_row in refl

    again :
        find_key spec'.idempotency_key db'.jobs ≡ some j
        → enqueue_tx spec' fresh' t' db' ≡ ok (j, db')
    again at =
        let kept = insert_job-existing (new_row spec' fresh' t') db' (
          subst (λ k. exists_where (has_key k) db'.jobs ≡ true) (sym keyed)
            (exists_of_find_key spec'.idempotency_key db'.jobs {j = j} at)) in
        let step : enqueue_tx spec' fresh' t' db' ≡ reread spec'.idempotency_key (ok db') =
          unfold enqueue_tx in ap (reread spec'.idempotency_key) kept in
        step ∙ (rw (at, reread) refl)
