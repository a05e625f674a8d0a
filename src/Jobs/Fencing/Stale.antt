-- ===== src/Jobs/Fencing/Stale.antt =====
-- A caller that does not hold the current attempt of a job changes nothing.
use doublangu.Prelude.{
  ℕ, ◌<◌, String, ◌≡◌, ◌≢◌, refl, sym, ap, ◌⊎◌, ◌∙◌, inl, inr, is_blank, Bool, true, false, ◌||◌,
  some, arith, ok, err, ◌==◌, ==_iff, eq_iff, str_eq, ltb_ℤ, ℤ, pos, Bool-cases,
}
use doublangu.Jobs.Types.{Ulid, is_zero, Job, Db, Lease, lease_lost, Times}
use doublangu.Jobs.Claim.{take_lease, claim_matching}
use doublangu.Jobs.Fencing.Leased.{claim_matching-IsLeased}
use doublangu.Jobs.Invariant.Rules.{Inv}
use doublangu.Jobs.Enqueue.{find_id, get}
use doublangu.Jobs.Lease.{
  holds_attempt, token_match, valid_error_code, heartbeat_row, heartbeat, verify_row, verify_lease,
}
use doublangu.Jobs.Finish.{completed, failure, finish_row, complete, fail}
use doublangu.Jobs.Fencing.{finish-found, heartbeat-found}
use doublangu.Jobs.Invariant.Rules.{find_id-Evolves}
use doublangu.Jobs.Invariant.Recovery.{LeavesTables}
use doublangu.Jobs.Scheduler.{empty_db, Environment, Reach}
use doublangu.Jobs.Scheduler.Reachable.{Reach-history}

module _ (hash_token : String → String) (id : Ulid) (attempt : ℕ) (token : String) (db : Db)
    (j : Job) (named : str_eq token "" ≡ false) (at : find_id id db.jobs ≡ some j)
    (stale : holds_attempt hash_token attempt token j ≡ false) where
  complete-stale : (t : Times) → complete hash_token id attempt token t db ≡ (err lease_lost, db)
  unfolding complete
  complete-stale t =
      finish-found hash_token id attempt token j completed t db named at
      ∙ (unfold finish_row in rw stale)

  fail-stale :
      (code : String) (retry : Bool) (t : Times)
      → valid_error_code code ≡ true
      → fail hash_token id attempt token code retry t db ≡ (err lease_lost, db)
  unfolding fail
  fail-stale code retry t v =
      (rw v)
      ∙ finish-found hash_token id attempt token j (failure code retry) t db named at
      ∙ (unfold finish_row in rw stale)

  heartbeat-stale :
      (progress : ℤ) (t : Times)
      → (ltb_ℤ progress (pos 0) || ltb_ℤ (pos 100) progress) ≡ false
      → heartbeat hash_token id attempt token progress t db ≡ (err lease_lost, db)
  heartbeat-stale progress t r =
      heartbeat-found hash_token id attempt token j progress t db named r at
      ∙ (unfold heartbeat_row in rw stale)

  verify_lease-stale :
      (owner : String) (live : ℕ)
      → verify_lease hash_token id attempt token owner live db ≡ err lease_lost
  unfolding verify_lease
  verify_lease-stale owner live =
      elim (Bool-cases (is_zero id || attempt == 0 || str_eq token "" || is_blank owner)) [
        | inl y ↦ rw y
        | inr n ↦ rw n (rw (at, get) (unfold verify_row in rw stale))
      ]

-- The credentials differ from those of the lease.
differs-holds_attempt :
    (hash_token : String → String) (token owner other : String) (attempt : ℕ) (t : Times)
    (c j : Job)
    → j ≡ take_lease owner (hash_token token) t c
    → (attempt ≢ j.attempt_count) ⊎ (hash_token other ≢ hash_token token)
    → holds_attempt hash_token attempt other j ≡ false
unfolding holds_attempt token_match take_lease
differs-holds_attempt hash_token token owner other attempt t c j e (inl n) =
    elim (Bool-cases (j.attempt_count == attempt)) [
      | inl y ↦ absurd (n (sym ((==_iff j.attempt_count attempt).0 y)))
      | inr k ↦ rw k refl
    ]
differs-holds_attempt hash_token token owner other attempt t c j e (inr n) =
    elim (Bool-cases (str_eq (hash_token other) j.lease_token_hash)) [
      | inl y ↦
          absurd (
            n ((eq_iff (hash_token other) j.lease_token_hash).0 y ∙ ap (λ x. x.lease_token_hash) e))
      | inr k ↦ ground (arith, k)
    ]

-- A lease shuts out everyone else: after ClaimMatching, from tables that satisfy the invariant, has
-- leased a job, a caller with another attempt, or with a token of another hash, is refused. For a
-- token that is not empty, a valid code and a progress in range, Complete, Fail, Heartbeat and
-- VerifyLease answer ErrLeaseLost, and the first three leave the tables as the claim left them.
pub claim_matching-fences :
    (hash_token : String → String) (token target owner : String) (matches : Job → Bool)
    (t later : Times) (origin db db' : Db) (l : Lease) (attempt : ℕ) (other code caller : String)
    (retry : Bool) (progress : ℤ)
    → Inv origin db
    → claim_matching hash_token token target owner matches t db ≡ (ok l, db')
    → (attempt ≢ l.job.attempt_count) ⊎ (hash_token other ≢ hash_token token)
    → str_eq other "" ≡ false
    → valid_error_code code ≡ true
    → (ltb_ℤ progress (pos 0) || ltb_ℤ (pos 100) progress) ≡ false
    → (complete hash_token l.job.id attempt other later db' ≡ (err lease_lost, db'))
      × (fail hash_token l.job.id attempt other code retry later db' ≡ (err lease_lost, db'))
      × (heartbeat hash_token l.job.id attempt other progress later db' ≡ (err lease_lost, db'))
      × (verify_lease hash_token l.job.id attempt other caller later.live db' ≡ err lease_lost)
claim_matching-fences hash_token token target owner matches t later origin db db' l attempt other
      code caller retry progress h e d n v r =
    let (leased, _) = claim_matching-IsLeased hash_token token target owner matches t db h e in
    let at = leased.stored in
    let s =
      differs-holds_attempt hash_token token owner other attempt t leased.row l.job
        leased.leased_row d in
    (
      complete-stale hash_token l.job.id attempt other db' l.job n at s later,
      fail-stale hash_token l.job.id attempt other db' l.job n at s code retry later v,
      heartbeat-stale hash_token l.job.id attempt other db' l.job n at s progress later r,
      verify_lease-stale hash_token l.job.id attempt other db' l.job n at s caller later.live,
    )

superseded :
    (hash_token : String → String) (attempt : ℕ) (token : String) (j : Job)
    → attempt < j.attempt_count
    → holds_attempt hash_token attempt token j ≡ false
unfolding holds_attempt
superseded hash_token attempt token j lt = ground arith

-- A superseded attempt never comes back: once a job has begun a later attempt, no completion of the
-- earlier one is accepted at any later time, whatever calls the scheduler serves in between and
-- whatever token is shown. The terminal callback is assumed to leave the two tables alone.
pub superseded_never_completes :
    (env : Environment) (id : Ulid) (attempt : ℕ) (token : String) (db db' : Db) (j : Job)
    (t : Times)
    → LeavesTables env.recovery
    → Reach env empty_db db
    → Reach env db db'
    → find_id id db.jobs ≡ some j
    → attempt < j.attempt_count
    → str_eq token "" ≡ false
    → complete env.hash_token id attempt token t db' ≡ (err lease_lost, db')
superseded_never_completes env id attempt token db db' j t leaves r s at lt n =
    let (j', at', ev) = find_id-Evolves id db.jobs db'.jobs (Reach-history env leaves r s) at in
    complete-stale env.hash_token id attempt token db' j' n at'
      (superseded env.hash_token attempt token j' (omega (arith, ev.attempts_grow))) t
