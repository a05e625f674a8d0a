-- ===== src/Workers/Stranded.antt =====
-- A revocation that meets a job on its last attempt: the job is queued, and the claims pass it by.
use doublangu.Prelude.{
  ℕ, zero, suc, String, ◌≡◌, ◌∙◌, refl, sym, subst, inl, inr, Bool, true, false, ◌&&◌, List, Option,
  none, some, arith, Result, ok, err, ◌==◌, ==_iff, ltb, first, first_sound, select, update_where,
  count_where, Bool-cases, Option-cases, length, All, All-both, All-select, All-update_where,
}
use doublangu.Jobs.Types.{Ulid, is_queued, Job, Edge, Db, Lease, JobError, Times, commit}
use doublangu.Jobs.Enqueue.{find_id}
use doublangu.Jobs.Reconcile.{
  is_doomed, fail_dependency, reconcile_round, reconcile_loop, reconcile,
}
use doublangu.Jobs.Claim.{
  is_claimable, is_claimable_capability, may_lease_capability, order_rows, take_lease,
  lease_candidate, lease_or_no_work, valid_claim, claim_tx, claim_matching, claim_capability_tx,
  claim_matching_capability,
}
use doublangu.Jobs.Claim.Order.{order_rows-All, select-All}
use doublangu.Jobs.Invariant.Rules.{
  UniqueIds, IsOnly, find_id-IsOnly, find_id-id, find_id-update_where,
}
use doublangu.Workers.{Tables, requeue, is_leased_by, revoke}

-- No row of this id has an attempt left.
abbrev IsSpent : Ulid → Job → Type 0
IsSpent id j = (j.id == id) ≡ true → ltb j.attempt_count j.max_attempts ≡ false

module _ (id : Ulid) where
  reconcile_round-IsSpent :
      (now : ℕ) (db : Db)
      → All (IsSpent id) db.jobs
      → All (IsSpent id) (reconcile_round now db).jobs
  unfolding reconcile_round fail_dependency
  reconcile_round-IsSpent now db h =
      All-update_where (IsSpent id) (IsSpent id) (is_doomed db) (fail_dependency now) (λ j e k. k)
        (λ j e k. k) db.jobs h

  reconcile_loop-IsSpent :
      (fuel now : ℕ) (db : Db)
      → All (IsSpent id) db.jobs
      → All (IsSpent id) (reconcile_loop fuel now db).jobs
  unfolding reconcile_loop
  reconcile_loop-IsSpent zero now db h = h
  reconcile_loop-IsSpent (suc fuel) now db h =
      elim (Bool-cases (count_where (is_doomed db) db.jobs == 0)) [
        | inl e ↦ rw (reconcile_loop, e) (reconcile_round-IsSpent now db h)
        | inr e ↦
            rw (reconcile_loop, e)
              (reconcile_loop-IsSpent fuel now (reconcile_round now db)
                (reconcile_round-IsSpent now db h))
      ]

  reconcile-IsSpent :
      (now : ℕ) (db : Db) → All (IsSpent id) db.jobs → All (IsSpent id) (reconcile now db).jobs
  unfolding reconcile
  reconcile-IsSpent now db h = reconcile_loop-IsSpent (suc (length db.jobs)) now db h

lease_candidate-id :
    (guard : Job → Bool) (set : Job → Job) (token : String) (id : Ulid) (db db' : Db) (l : Lease)
    → lease_candidate guard set token id db ≡ ok (some l, db')
    → l.job.id ≡ id
unfolding lease_candidate
lease_candidate-id guard set token id db db' l h =
    let after = update_where (λ j. j.id == id && guard j) set db.jobs in
    elim (Bool-cases (count_where (λ j. j.id == id && guard j) db.jobs == 1)) [
      | inl e ↦ elim (Option-cases (find_id id after)) [
        | inl n ↦ absurd (ground (arith, e, n, h))
        | inr (j, f) ↦
            let same : j ≡ l.job = ground (arith, e, f, h) in
            subst (λ x. x.id ≡ id) same (find_id-id id after f)
      ]
      | inr n ↦ absurd (ground (arith, n, h))
    ]

ok_of_lease :
    (r : Result JobError (Option Lease × Db)) (db : Db) (l : Lease)
    → (lease_or_no_work (commit db r)).0 ≡ ok l
    → (db' : Db) × (r ≡ ok (some l, db'))
ok_of_lease (err e) db l h = absurd (ground arith)
ok_of_lease (ok (none, db')) db l h = absurd (ground arith)
ok_of_lease (ok (some k, db')) db l h = (db', ground arith)

-- A claim that selects only rows with an attempt left does not lease the row of a spent id.
module _ (id : Ulid) (p guard m : Job → Bool) (set : Job → Job) (token : String) (ready : Db) where
  abbrev candidates : List Job
  candidates = order_rows (select p ready.jobs)

  choice-IsSpent :
      {c : Job}
      → ((j : Job) → p j ≡ true → ltb j.attempt_count j.max_attempts ≡ true)
      → All (IsSpent id) ready.jobs
      → first m candidates ≡ some c
      → (c.id == id) ≡ false
  choice-IsSpent {c} left spent e =
      let (k, _) =
        first_sound (λ j. IsSpent id j × (p j ≡ true)) m candidates {x = c} e
          (order_rows-All (λ j. IsSpent id j × (p j ≡ true)) (select p ready.jobs)
            (All-both (IsSpent id) (λ j. p j ≡ true) (select p ready.jobs)
              (All-select (IsSpent id) p ready.jobs spent) (select-All p ready.jobs))) in
      elim (Bool-cases (c.id == id)) [
        | inl y ↦ absurd (ground (arith, k.0 y, left c k.1))
        | inr n ↦ n
      ]

  claim_body-IsSpent :
      (choice : Option Job) (db : Db) (l : Lease)
      → first m candidates ≡ choice
      → ((j : Job) → p j ≡ true → ltb j.attempt_count j.max_attempts ≡ true)
      → All (IsSpent id) ready.jobs
      → (lease_or_no_work (
          commit db (elim choice as (λ _. Result JobError (Option Lease × Db)) [
            | none ↦ ok (none, ready)
            | some c ↦ lease_candidate guard set token c.id ready
          ]))).0
        ≡ ok l
      → (l.job.id == id) ≡ false
  claim_body-IsSpent none db l e left spent h = absurd (ground arith)
  claim_body-IsSpent (some c) db l e left spent h =
      let (db', q) = ok_of_lease (lease_candidate guard set token c.id ready) db l h in
      rw (lease_candidate-id guard set token c.id ready db' l q) (choice-IsSpent left spent e)

-- The answer is a lease of the job.
abbrev pub Leases : Ulid → Result JobError Lease × Db → Type 0
Leases id r = (l : Lease) × (r.0 ≡ ok l) × (l.job.id ≡ id)

module _ (hash_token : String → String) (token target owner : String) (t : Times) (id : Ulid)
    (db : Db) (spent : All (IsSpent id) db.jobs) where
  claim_matching-IsSpent :
      (matches : Job → Bool)
      → ¬ (Leases id (claim_matching hash_token token target owner matches t db))
  unfolding claim_matching claim_tx
  claim_matching-IsSpent matches (l, h, e) = elim (Bool-cases (valid_claim target owner)) [
    | inl v ↦
        let ready = reconcile t.now db in
        let other =
          claim_body-IsSpent id (is_claimable target t.now ready) (is_claimable target t.now ready)
            matches (take_lease owner (hash_token token) t) token ready
            (first matches (order_rows (select (is_claimable target t.now ready) ready.jobs))) db l
            refl (λ j k. unfold is_claimable in ground (arith, k))
            (reconcile-IsSpent id t.now db spent) (rw v at h) in
        ground (arith, other, (==_iff l.job.id id).1 e)
    | inr n ↦ absurd (ground (arith, n, h))
  ]

  claim_matching_capability-IsSpent :
      (job_type : String)
      → ¬ (Leases id (claim_matching_capability hash_token token target owner job_type t db))
  unfolding claim_matching_capability claim_capability_tx
  claim_matching_capability-IsSpent job_type (l, h, e) =
      elim (Bool-cases (valid_claim target owner)) [
        | inl v ↦
            let ready = reconcile t.now db in
            let p = is_claimable_capability target owner job_type t.now ready in
            let other =
              claim_body-IsSpent id p (may_lease_capability target owner job_type t.now ready)
                (λ _. true) (take_lease owner (hash_token token) t) token ready
                (first (λ _. true) (order_rows (select p ready.jobs))) db l refl
                (λ j k. unfold is_claimable_capability is_claimable in ground (arith, k))
                (reconcile-IsSpent id t.now db spent) (rw v at h) in
            ground (arith, other, (==_iff l.job.id id).1 e)
        | inr n ↦ absurd (ground (arith, n, h))
      ]

requeued-IsSpent :
    (owner : String) (id : Ulid) (now : ℕ) (jobs : List Job) (j : Job)
    → UniqueIds jobs
    → find_id id jobs ≡ some j
    → j.attempt_count ≡ j.max_attempts
    → All (IsSpent id) (update_where (is_leased_by owner) (requeue now) jobs)
unfolding requeue
requeued-IsSpent owner id now jobs j u at e =
    All-update_where (IsOnly id j) (IsSpent id) (is_leased_by owner) (requeue now)
      (λ x p only. λ same. spent x (only same)) (λ x p only. λ same. spent x (only same)) jobs
      (find_id-IsOnly id jobs u at)
  where
    exhausted : ltb j.attempt_count j.max_attempts ≡ false
    exhausted = ground (arith, e)

    spent : (x : Job) → x ≡ j → ltb x.attempt_count x.max_attempts ≡ false
    spent x same = subst (λ y. ltb y.attempt_count y.max_attempts ≡ false) (sym same) exhausted

-- Revoke queues the active jobs of the worker without a look at their attempts. In tables with
-- unique ids, one that was on its last attempt is queued with no attempt left, under no owner and
-- no token, and on the tables that Revoke leaves neither ClaimMatching nor ClaimMatchingCapability
-- leases it, whatever their arguments, the time and the dependencies are.
pub revoke_strands :
    (id_text : Ulid → String) (worker id : Ulid) (now : ℕ) (db : Tables) (edges : List Edge)
    (j : Job) (hash_token : String → String) (token target owner job_type : String)
    (matches : Job → Bool) (t : Times)
    → UniqueIds db.jobs
    → find_id id db.jobs ≡ some j
    → is_leased_by (id_text worker) j ≡ true
    → j.attempt_count ≡ j.max_attempts
    → (find_id id (revoke id_text worker now db).jobs ≡ some (requeue now j))
      × (is_queued (requeue now j).state ≡ true)
      × ¬ (
          Leases id (
            claim_matching hash_token token target owner matches t
              (record { jobs = (revoke id_text worker now db).jobs; dependencies = edges })))
      × ¬ (
          Leases id (
            claim_matching_capability hash_token token target owner job_type t
              (record { jobs = (revoke id_text worker now db).jobs; dependencies = edges })))
unfolding revoke
revoke_strands id_text worker id now db edges j hash_token token target owner job_type matches t u
      at held e =
    let spent = requeued-IsSpent (id_text worker) id now db.jobs j u at e in
    let after : Db = record { jobs = (revoke id_text worker now db).jobs; dependencies = edges } in
    (
      (unfold requeue in
            find_id-update_where id (is_leased_by (id_text worker)) (requeue now) (λ x. refl)
              db.jobs j at)
          ∙ rw held refl,
      unfold requeue in refl,
      claim_matching-IsSpent hash_token token target owner t id after spent matches,
      claim_matching_capability-IsSpent hash_token token target owner t id after spent job_type,
    )
