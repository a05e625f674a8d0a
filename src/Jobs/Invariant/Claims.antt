-- ===== src/Jobs/Invariant/Claims.antt =====
-- Reconciliation and the claims keep the invariant.
use doublangu.Prelude.{
  ℕ, zero, suc, String, ◌≡◌, refl, Bool, true, false, ◌&&◌, Option, none, some, arith, Result, ok,
  err, ◌==◌, if◌then◌else◌, first, select, update_where, count_where, and-elim, is_blank, length,
}
use doublangu.Jobs.Types.{Ulid, is_queued, Job, Db, JobError, validation, not_found, Times, Lease}
use doublangu.Jobs.Enqueue.{find_id}
use doublangu.Jobs.Reconcile.{
  is_doomed, fail_dependency, reconcile_round, reconcile_loop, reconcile,
}
use doublangu.Jobs.Claim.{
  is_claimable, may_lease_capability, is_claimable_capability, take_lease, lease_candidate,
  lease_or_no_work, valid_claim, claim_tx, claim_matching, claim_capability_tx,
  claim_matching_capability, order_rows,
}
use doublangu.Jobs.Invariant.{fail_dependency-Moves, take_lease-Moves}
use doublangu.Jobs.Invariant.Rules.{
  KeepsId, Inv, update-Inv, Ensures, commit-keeps, Ensures-if, Ensures-ok, Ensures-err,
}

module _ (origin : Db) where
  id-fail_dependency : (now : ℕ) → KeepsId (fail_dependency now)
  unfolding fail_dependency
  id-fail_dependency now j = refl

  is_doomed-queued : (db : Db) (j : Job) → is_doomed db j ≡ true → is_queued j.state ≡ true
  unfolding is_doomed
  is_doomed-queued db j h = (and-elim _ _ h).0

  pub reconcile_round-Inv :
      (now : ℕ) (db : Db) → Inv origin db → Inv origin (reconcile_round now db)
  unfolding reconcile_round
  reconcile_round-Inv now db h =
      update-Inv (is_doomed db) (fail_dependency now) (id-fail_dependency now) db
        (λ j e w. fail_dependency-Moves j w now (is_doomed-queued db j e)) h

  reconcile_loop-Inv :
      (fuel now : ℕ) (db : Db) → Inv origin db → Inv origin (reconcile_loop fuel now db)
  unfolding reconcile_loop
  reconcile_loop-Inv zero now db h = h
  reconcile_loop-Inv (suc fuel) now db h =
      elim (count_where (is_doomed db) db.jobs == 0)
        as (λ b. Inv origin (elim b [
          | true ↦ reconcile_round now db
          | false ↦ reconcile_loop fuel now (reconcile_round now db)
        ])) [
          | true ↦ reconcile_round-Inv now db h
          | false ↦
              reconcile_loop-Inv fuel now (reconcile_round now db) (reconcile_round-Inv now db h)
        ]

  pub reconcile-Inv : (now : ℕ) (db : Db) → Inv origin db → Inv origin (reconcile now db)
  unfolding reconcile
  reconcile-Inv now db h = reconcile_loop-Inv (suc (length db.jobs)) now db h

  id-take_lease : (owner hash : String) (t : Times) → KeepsId (take_lease owner hash t)
  unfolding take_lease
  id-take_lease owner hash t j = refl

  lease_candidate-Ensures :
      (guard : Job → Bool) (owner hash token : String) (t : Times) (id : Ulid) (db : Db)
      → ((j : Job) → guard j ≡ true → is_queued j.state ≡ true)
      → is_blank owner ≡ false
      → Inv origin db
      → Ensures (Inv origin) (lease_candidate guard (take_lease owner hash t) token id db)
  unfolding lease_candidate
  lease_candidate-Ensures guard owner hash token t id db queued o h =
      let db' = record db {
        jobs = update_where (λ j. j.id == id && guard j) (take_lease owner hash t) db.jobs;
      } in
      let kept =
        update-Inv (λ j. j.id == id && guard j) (take_lease owner hash t)
          (id-take_lease owner hash t) db
          (λ j e w. take_lease-Moves j w owner hash t (queued j (and-elim _ _ e).1) o) h in
      Ensures-if (count_where (λ j. j.id == id && guard j) db.jobs == 1)
        (λ _. found db' (find_id id db'.jobs) kept) (λ _. Ensures-ok none kept)
    where
      found :
          (db' : Db) (o : Option Job)
          → Inv origin db'
          → Ensures {A = Option Lease} (Inv origin) (elim o [
            | none ↦ err not_found
            | some j ↦ ok (some (record { job = j; lease_token = token }), db')
          ])
      found db' none k = Ensures-err not_found
      found db' (some j) k = Ensures-ok (some (record { job = j; lease_token = token })) k

  queued_of_claimable :
      (target : String) (now : ℕ) (db : Db) (j : Job)
      → is_claimable target now db j ≡ true
      → is_queued j.state ≡ true
  unfolding is_claimable
  queued_of_claimable target now db j h = ground arith

  queued_of_may_lease :
      (target owner job_type : String) (now : ℕ) (db : Db) (j : Job)
      → may_lease_capability target owner job_type now db j ≡ true
      → is_queued j.state ≡ true
  unfolding may_lease_capability
  queued_of_may_lease target owner job_type now db j h = ground arith

  -- Both claims have this form: reconcile, choose a row, and lease it under a guard.
  candidate-Ensures :
      (guard : Job → Bool) (owner hash token : String) (t : Times) (db : Db) (choice : Option Job)
      → ((j : Job) → guard j ≡ true → is_queued j.state ≡ true)
      → is_blank owner ≡ false
      → Inv origin db
      → Ensures {A = Option Lease} (Inv origin) (elim choice [
        | none ↦ ok (none, db)
        | some c ↦ lease_candidate guard (take_lease owner hash t) token c.id db
      ])
  candidate-Ensures guard owner hash token t db none q o h = Ensures-ok none h
  candidate-Ensures guard owner hash token t db (some c) q o h =
      lease_candidate-Ensures guard owner hash token t c.id db q o h

  lease_or_no_work-keeps :
      (r : Result JobError (Option Lease) × Db) → Inv origin r.1 → Inv origin (lease_or_no_work r).1
  lease_or_no_work-keeps (err e, db) h = h
  lease_or_no_work-keeps (ok none, db) h = h
  lease_or_no_work-keeps (ok (some l), db) h = h

  if_valid :
      (b : Bool) (db : Db) (m : Result JobError Lease × Db)
      → Inv origin db
      → (b ≡ true → Inv origin m.1)
      → Inv origin (if b then m else (err validation, db)).1
  if_valid true db m h k = k refl
  if_valid false db m h k = h

  module _ (hash_token : String → String) (token : String) where
    pub claim_matching-Inv :
        (target owner : String) (matches : Job → Bool) (t : Times) (db : Db)
        → Inv origin db
        → Inv origin (claim_matching hash_token token target owner matches t db).1
    unfolding claim_matching
    claim_matching-Inv target owner matches t db h = if_valid (valid_claim target owner) db _ h λ v.
        lease_or_no_work-keeps _ (
          commit-keeps db (claim_tx hash_token token target owner matches t db) h (
            unfold claim_tx valid_claim in
            let now_db = reconcile t.now db in
            candidate-Ensures (is_claimable target t.now now_db) owner (hash_token token) token t
              now_db
              (first matches (order_rows (select (is_claimable target t.now now_db) now_db.jobs)))
              (queued_of_claimable target t.now now_db) (ground arith) (reconcile-Inv t.now db h)))

    pub claim_matching_capability-Inv :
        (target owner job_type : String) (t : Times) (db : Db)
        → Inv origin db
        → Inv origin (claim_matching_capability hash_token token target owner job_type t db).1
    unfolding claim_matching_capability
    claim_matching_capability-Inv target owner job_type t db h =
        if_valid (valid_claim target owner) db _ h λ v. lease_or_no_work-keeps _ (
          commit-keeps db (claim_capability_tx hash_token token target owner job_type t db) h (
            unfold claim_capability_tx valid_claim in
            let now_db = reconcile t.now db in
            candidate-Ensures (may_lease_capability target owner job_type t.now now_db) owner
              (hash_token token) token t now_db
              (first (λ _. true)
                (order_rows (
                  select (is_claimable_capability target owner job_type t.now now_db) now_db.jobs)))
              (queued_of_may_lease target owner job_type t.now now_db) (ground arith)
              (reconcile-Inv t.now db h)))
