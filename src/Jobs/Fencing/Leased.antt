-- ===== src/Jobs/Fencing/Leased.antt =====
-- What a claim gives its caller: until the lease expires the holder is accepted.
use doublangu.Prelude.{
  ℕ, ◌+◌, ◌<◌, String, ◌≡◌, refl, sym, subst, ap, ◌∙◌, Bool, true, false, some, arith, Result, ok,
  ◌==◌, ==_iff, str_eq, is_blank, Bool-cases, inl, inr, eq_iff,
}
use doublangu.Jobs.Types.{is_zero, is_active, is_succeeded, Job, Db, Lease, JobError, Times}
use doublangu.Jobs.Enqueue.{find_id, get}
use doublangu.Jobs.Claim.{lease_duration, is_claimable, take_lease, valid_claim, claim_matching}
use doublangu.Jobs.Claim.Best.{
  ClaimOutcome, leases, finds_none, claim_matching-outcome, find_id-update_where,
}
use doublangu.Jobs.Lease.{
  holds_attempt, token_match, job_lease_live, verify_row, verify_lease, is_held, update_held,
}
use doublangu.Jobs.Finish.{completed, set_succeeded, finish_row, complete}
use doublangu.Jobs.Reconcile.{reconcile}
use doublangu.Jobs.Fencing.{finish-found}
use doublangu.Jobs.Invariant.Rules.{KeepsId, Inv, find_id-update_where as update_found}

id-take_lease : (owner hash : String) (t : Times) → KeepsId (take_lease owner hash t)
unfolding take_lease
id-take_lease owner hash t j = refl

id-set_succeeded : (later : Times) → KeepsId (set_succeeded later)
unfolding set_succeeded
id-set_succeeded later j = refl

-- The row of a lease just after the claim.
pub record IsLeased (owner hash token : String) (t : Times) (db : Db) (l : Lease) : Type 0 where
  pub row : Job
  pub leased_row : l.job ≡ take_lease owner hash t row
  pub given : l.lease_token ≡ token
  pub stored : find_id l.job.id db.jobs ≡ some l.job

module _ (hash_token : String → String) (token target owner : String) (matches : Job → Bool)
    (t : Times) (db : Db) where
  row_of_outcome :
      {r : Result JobError Lease} {db' : Db} {l : Lease} (ready : Db)
      → ClaimOutcome target owner (hash_token token) token matches t ready r db'
      → r ≡ ok l
      → IsLeased owner (hash_token token) token t db' l
  row_of_outcome {db' = db'} {l = l} ready (leases c best e at) h =
      let taken = take_lease owner (hash_token token) t in
      let same : record { job = taken c; lease_token = token } ≡ l = ground (arith, e, h) in
      record {
        row = c;
        leased_row = ap (λ x. x.job) (sym same);
        given = ap (λ x. x.lease_token) (sym same);
        stored =
            subst (λ x. find_id x.job.id db'.jobs ≡ some x.job) same
              (rw at (
                unfold take_lease in
                find_id-update_where c.id (is_claimable target t.now ready) taken
                  (id-take_lease owner (hash_token token) t) ready.jobs c best.claimable
                  best.stored));
      }
  row_of_outcome ready (finds_none empty e same) h = absurd (ground (arith, e, h))

  pub claim_matching-IsLeased :
      {origin : Db} {l : Lease} {db' : Db}
      → Inv origin db
      → claim_matching hash_token token target owner matches t db ≡ (ok l, db')
      → IsLeased owner (hash_token token) token t db' l × (is_blank owner ≡ false)
  unfolding claim_matching valid_claim
  claim_matching-IsLeased {l = l} {db' = db'} h e = elim (Bool-cases (valid_claim target owner)) [
    | inl v ↦ (
      row_of_outcome (reconcile t.now db)
          (subst
            (λ x.
              ClaimOutcome target owner (hash_token token) token matches t (reconcile t.now db) x.0
                x.1)
            e (claim_matching-outcome hash_token token target owner matches t db h v))
          refl,
      ground (arith, v),
    )
    | inr n ↦ absurd (ground (arith, n, e))
  ]

module _ (hash_token : String → String) (token owner : String) (t : Times) (c : Job)
    (named : str_eq token "" ≡ false) (hashed : str_eq (hash_token token) "" ≡ false) where
  abbrev taken : Job
  taken = take_lease owner (hash_token token) t c

  taken-holds_attempt : holds_attempt hash_token taken.attempt_count token taken ≡ true
  unfolding take_lease holds_attempt token_match
  taken-holds_attempt =
      ground (arith, named, hashed, (eq_iff (hash_token token) (hash_token token)).1 refl)

  taken-live : (live : ℕ) → live < t.wall + lease_duration → job_lease_live live taken ≡ true
  unfolding take_lease job_lease_live
  taken-live live lt = ground arith

  taken-owned : str_eq taken.lease_owner owner ≡ true
  unfolding take_lease
  taken-owned = (eq_iff owner owner).1 refl

  taken-active : is_active taken.state ≡ true
  unfolding take_lease
  taken-active = refl

  taken-unfinished : is_succeeded taken.state ≡ false
  unfolding take_lease
  taken-unfinished = refl

  taken-attempted : (taken.attempt_count == 0) ≡ false
  unfolding take_lease
  taken-attempted = ground arith

  verify_row-taken :
      (live : ℕ)
      → live < t.wall + lease_duration
      → verify_row hash_token taken.attempt_count token owner live taken ≡ ok taken
  unfolding verify_row
  verify_row-taken live lt =
      rw (taken-holds_attempt, taken-active, taken-owned, taken-live live lt) refl

  verify_lease-taken :
      (live : ℕ) (db : Db)
      → is_zero taken.id ≡ false
      → is_blank owner ≡ false
      → find_id taken.id db.jobs ≡ some taken
      → live < t.wall + lease_duration
      → verify_lease hash_token taken.id taken.attempt_count token owner live db ≡ ok taken
  unfolding verify_lease get
  verify_lease-taken live db z b at lt =
      rw (z, taken-attempted, named, b, at) (verify_row-taken live lt)

  complete-taken :
      (later : Times) (db : Db)
      → find_id taken.id db.jobs ≡ some taken
      → later.live < t.wall + lease_duration
      → complete hash_token taken.id taken.attempt_count token later db ≡ (
        ok tt,
        update_held hash_token taken.id taken.attempt_count token (set_succeeded later) db,
      )
  unfolding complete
  complete-taken later db at lt =
      finish-found hash_token taken.id taken.attempt_count token taken completed later db named at
      ∙ (unfold finish_row in
          rw (taken-holds_attempt, taken-unfinished, taken-active, taken-live later.live lt) refl)

  taken-is_held : is_held hash_token taken.id taken.attempt_count token taken ≡ true
  unfolding take_lease
  taken-is_held = ground (
    arith,
    (eq_iff (hash_token token) (hash_token token)).1 refl,
    (==_iff c.id c.id).1 refl,
    (==_iff (c.attempt_count + 1) (c.attempt_count + 1)).1 refl,
  )

  completed-taken :
      (later : Times) (db : Db)
      → find_id taken.id db.jobs ≡ some taken
      → find_id taken.id
          (update_held hash_token taken.id taken.attempt_count token (set_succeeded later) db).jobs
        ≡ some (set_succeeded later taken)
  unfolding update_held
  completed-taken later db at =
      update_found taken.id (is_held hash_token taken.id taken.attempt_count token)
        (set_succeeded later) (id-set_succeeded later) db.jobs taken at
      ∙ rw taken-is_held refl

-- From tables that satisfy the invariant, what ClaimMatching leases its caller can finish: until the
-- lease expires VerifyLease answers with the leased row, and Complete succeeds and leaves the row
-- succeeded, with the attempt and the token of the lease. The id is not zero, and the token and its
-- hash are not empty.
pub claim_matching-complete :
    (hash_token : String → String) (token target owner : String) (matches : Job → Bool)
    (t later : Times) (origin db db' : Db) (l : Lease)
    → Inv origin db
    → claim_matching hash_token token target owner matches t db ≡ (ok l, db')
    → is_zero l.job.id ≡ false
    → str_eq token "" ≡ false
    → str_eq (hash_token token) "" ≡ false
    → later.live < t.wall + 90_000
    → (verify_lease hash_token l.job.id l.job.attempt_count l.lease_token owner later.live db'
        ≡ ok l.job)
      × ((complete hash_token l.job.id l.job.attempt_count l.lease_token later db').0 ≡ ok tt)
      × (find_id l.job.id
            (complete hash_token l.job.id l.job.attempt_count l.lease_token later db').1.jobs
          ≡ some (set_succeeded later l.job))
claim_matching-complete hash_token token target owner matches t later origin db db' l h e z n m lt =
    let (leased, b) = claim_matching-IsLeased hash_token token target owner matches t db h e in
    let row = leased.row in
    let at = rw leased.leased_row at leased.stored in
    let done = complete-taken hash_token token owner t row n m later db' at lt in
    rw (leased.given, leased.leased_row)
      (
        verify_lease-taken hash_token token owner t row n m later.live db'
            (rw leased.leased_row at z) b at lt,
        ap (λ x. x.0) done,
        ap (λ x. find_id (take_lease owner (hash_token token) t row).id x.1.jobs) done
            ∙ completed-taken hash_token token owner t row n m later db' at,
      )
