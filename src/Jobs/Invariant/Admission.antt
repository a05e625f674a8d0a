-- ===== src/Jobs/Invariant/Admission.antt =====
-- Enqueue, AddDependency and the claims keep the invariant.
use doublangu.Prelude.{
  zero, suc, ◌≤◌, String, ◌≡◌, refl, inl, inr, Bool, true, false, ◌||◌, not, List, [], ◌∷◌, ◌++◌,
  Option, none, some, arith, Result, ok, err, if◌then◌else◌, All-append, ℤ, pos, negsuc, pos_part,
  ltb_ℤ, exists_where, Bool-cases,
}
use doublangu.Jobs.Types.{Ulid, Job, Spec, Db, JobError, validation, not_found, Times}
use doublangu.Jobs.Enqueue.{
  has_id, has_key, supported_job_type, supported_target, required_texts, default_attempts,
  validate_spec, new_row, insert_job, reread, find_key, enqueue_tx, enqueue_valid, enqueue,
}
use doublangu.Jobs.Dependencies.{add_dependency}
use doublangu.Jobs.Dependencies.Acyclic.{add_dependency-Acyclic, jobs-add_dependency}
use doublangu.Jobs.Invariant.{IsWf}
use doublangu.Jobs.Invariant.Rules.{
  UniqueIds, Evolves-append, Inv, Ensures, commit-keeps, Ensures-ok, Ensures-err,
}

abbrev pub HasAttempts : Spec → Type 0
HasAttempts spec =
    (1 ≤ pos_part (default_attempts spec.max_attempts))
    × (pos_part (default_attempts spec.max_attempts) ≤ 3)

module _ (origin : Db) where
  guard_ok {ℓ} :
      {A : Type ℓ} (b : Bool) (e : JobError) (m : Result JobError A) {a : A}
      → (if b then err e else m) ≡ ok a
      → (b ≡ false) × (m ≡ ok a)
  guard_ok true e m h = absurd (cc h)
  guard_ok false e m h = (refl, h)

  ok-injective {ℓ} : {A : Type ℓ} {a b : A} → ◌≡◌ {A = Result JobError A} (ok a) (ok b) → a ≡ b
  ok-injective h = cc

  default_attempts_bounds :
      (n : ℤ)
      → (ltb_ℤ n (pos 0) || ltb_ℤ (pos 3) n) ≡ false
      → (1 ≤ pos_part (default_attempts (default_attempts n)))
        × (pos_part (default_attempts (default_attempts n)) ≤ 3)
  unfolding default_attempts
  default_attempts_bounds (pos zero) h = omega arith
  default_attempts_bounds (pos (suc n)) h = ground arith
  default_attempts_bounds (negsuc n) h = ground arith

  pub validate_spec-HasAttempts :
      (json_valid : String → Bool) (spec : Spec) {checked : Spec}
      → validate_spec json_valid spec ≡ ok checked
      → HasAttempts checked
  unfolding validate_spec
  validate_spec-HasAttempts json_valid spec {checked} h =
      let a = guard_ok (not (supported_job_type spec.job_type)) validation _ h in
      let b = guard_ok (not (supported_target spec.execution_target)) validation _ a.1 in
      let c = guard_ok (not (required_texts spec)) validation _ b.1 in
      let d = guard_ok (not (json_valid spec.payload_json)) validation _ c.1 in
      let e =
        guard_ok (ltb_ℤ spec.max_attempts (pos 0) || ltb_ℤ (pos 3) spec.max_attempts) validation _
          d.1 in
      rw (← ok-injective e.1) (default_attempts_bounds spec.max_attempts e.0)

  exists_where-append {ℓ} :
      {A : Type ℓ} (p : A → Bool) (xs : List A) (x : A)
      → exists_where p (xs ++ x ∷ []) ≡ (exists_where p xs || p x)
  unfolding exists_where
  exists_where-append p [] x = ground arith
  exists_where-append p (y ∷ ys) x = ground (arith, exists_where-append p ys x)

  UniqueIds-append :
      (jobs : List Job) (row : Job)
      → exists_where (has_id row.id) jobs ≡ false
      → UniqueIds jobs
      → UniqueIds (jobs ++ row ∷ [])
  unfolding exists_where
  UniqueIds-append [] row h u = (refl, tt)
  UniqueIds-append (j ∷ js) row h u = (
    ground (arith, exists_where-append (has_id j.id) js row, u.0),
    UniqueIds-append js row (ground arith) u.1,
  )

  new_row-IsWf :
      (spec : Spec) (fresh : Ulid) (t : Times) → HasAttempts spec → IsWf (new_row spec fresh t)
  unfolding new_row
  new_row-IsWf spec fresh t h = ground arith

  insert_job-Inv :
      (row : Job) (db : Db)
      → IsWf row
      → Inv origin db
      → (db' : Db) → insert_job row db ≡ ok db'
      → Inv origin db'
  unfolding insert_job
  insert_job-Inv row db w h db' e =
      elim (Bool-cases (exists_where (has_key row.idempotency_key) db.jobs)) [
        | inl k ↦ rw (← ok-injective {a = db} {b = db'} (ground arith)) h
        | inr k ↦ elim (Bool-cases (exists_where (has_id row.id) db.jobs)) [
          | inl i ↦ absurd (ground arith)
          | inr i ↦
              rw
                (← ok-injective {a = record db { jobs = db.jobs ++ row ∷ [] }} {b = db'}
                  (ground arith))
                (record {
                  rows = All-append IsWf db.jobs (row ∷ []) h.rows (w, tt);
                  unique = UniqueIds-append db.jobs row i h.unique;
                  acyclic = h.acyclic;
                  history = Evolves-append origin.jobs db.jobs row h.history;
                })
        ]
      ]

  reread-Ensures :
      (key : String) (r : Result JobError Db)
      → ((db' : Db) → r ≡ ok db' → Inv origin db')
      → Ensures (Inv origin) (reread key r)
  reread-Ensures key (err e) h = Ensures-err e
  reread-Ensures key (ok db) h = go (find_key key db.jobs)
    where
      go :
          (o : Option Job)
          → Ensures {A = Job} (Inv origin) (elim o [ none ↦ err not_found | some j ↦ ok (j, db) ])
      go none = Ensures-err not_found
      go (some j) = Ensures-ok j (h db refl)

  pub enqueue_tx-Inv :
      (spec : Spec) (fresh : Ulid) (t : Times) (db : Db)
      → HasAttempts spec
      → Inv origin db
      → Ensures (Inv origin) (enqueue_tx spec fresh t db)
  unfolding enqueue_tx
  enqueue_tx-Inv spec fresh t db a h =
      reread-Ensures spec.idempotency_key (insert_job (new_row spec fresh t) db)
        (insert_job-Inv (new_row spec fresh t) db (new_row-IsWf spec fresh t a) h)

  pub enqueue-Inv :
      (json_valid : String → Bool) (spec : Spec) (fresh : Ulid) (t : Times) (db : Db)
      → Inv origin db
      → Inv origin (enqueue json_valid spec fresh t db).1
  unfolding enqueue
  enqueue-Inv json_valid spec fresh t db h = go (validate_spec json_valid spec) refl
    where
      go :
          (r : Result JobError Spec)
          → validate_spec json_valid spec ≡ r
          → Inv origin (enqueue_valid r fresh t db).1
      go (err e) _ = h
      go (ok checked) q =
          commit-keeps db (enqueue_tx checked fresh t db) h
            (enqueue_tx-Inv checked fresh t db (validate_spec-HasAttempts json_valid spec q) h)

  pub add_dependency-Inv :
      (job dependency : Ulid) (db : Db)
      → Inv origin db
      → Inv origin (add_dependency job dependency db).1
  add_dependency-Inv job dependency db h = record {
    rows = rw (jobs-add_dependency job dependency db) h.rows;
    unique = rw (jobs-add_dependency job dependency db) h.unique;
    acyclic = add_dependency-Acyclic job dependency db h.acyclic;
    history = rw (jobs-add_dependency job dependency db) h.history;
  }
