-- ===== src/Jobs/Claim.antt =====
-- Claim, ClaimMatching and ClaimMatchingCapability.
pub mod Order
pub mod Best
pub mod Exclusive
use doublangu.Prelude.{
  ℕ, ◌+◌, String, Bool, true, false, ◌&&◌, ◌||◌, not, List, [], ◌∷◌, Option, none, some, ltb_ℤ,
  pos_part, neg_part, Result, ok, err, ltb, leb, ◌==◌, if◌then◌else◌, str_eq, is_blank, first,
  select, exists_where, update_where, count_where,
}
use doublangu.Jobs.Types.{
  Ulid, State, leased, is_active, is_queued, is_succeeded, Job, Db, Lease, JobError, validation,
  not_found, no_work, Times, Tx, commit,
}
use doublangu.Jobs.Enqueue.{supported_target, find_id}
use doublangu.Jobs.Reconcile.{has_dependency, reconcile}

-- 90 seconds
abbrev pub lease_duration : ℕ
lease_duration = 90_000

abbrev pub not_succeeded : State → Bool
not_succeeded s = not (is_succeeded s)

-- WHERE execution_target = ? AND state = 'queued' AND available_at <= ? AND
-- attempt_count < max_attempts AND NOT EXISTS (a dependency that has not succeeded)
unfoldable pub is_claimable : String → ℕ → Db → Job → Bool
unfolding has_dependency
is_claimable target now db j =
    str_eq j.execution_target target
    && is_queued j.state
    && leb j.available_at now
    && ltb j.attempt_count j.max_attempts
    && not (has_dependency not_succeeded db j.id)

-- ORDER BY priority DESC, created_at ASC, id ASC: whether `a` stands strictly before `b`
unfoldable pub precedes : Job → Job → Bool
precedes a b =
    ltb_ℤ b.priority a.priority
    || not (ltb_ℤ a.priority b.priority)
      && (ltb a.created_at b.created_at || a.created_at == b.created_at && ltb a.id b.id)

unfoldable pub insert_sorted : Job → List Job → List Job
unfolding precedes
insert_sorted x [] = x ∷ []
insert_sorted x (y ∷ ys) = if precedes y x then y ∷ insert_sorted x ys else x ∷ y ∷ ys

unfoldable pub order_rows : List Job → List Job
unfolding insert_sorted
order_rows [] = []
order_rows (x ∷ xs) = insert_sorted x (order_rows xs)

-- SET state = 'leased', ...
unfoldable pub take_lease : String → String → Times → Job → Job
take_lease owner hash t j = record j {
  state = leased;
  attempt_count = j.attempt_count + 1;
  lease_owner = owner;
  lease_token_hash = hash;
  lease_expires_at = some (t.wall + lease_duration);
  progress_percent = 0;
  started_at = elim j.started_at [ none ↦ some t.now | some at ↦ some at ];
  updated_at = t.now;
}

-- The conditional UPDATE on the chosen row: exactly one row, or no work.
unfoldable pub lease_candidate :
    (Job → Bool) → (Job → Job) → String → Ulid → Db → Result JobError (Option Lease × Db)
unfolding update_where count_where find_id
lease_candidate guard set token id db =
    let db' = record db { jobs = update_where (λ j. j.id == id && guard j) set db.jobs } in
    if count_where (λ j. j.id == id && guard j) db.jobs == 1
    then elim (find_id id db'.jobs) [
      | none ↦ err not_found
      | some j ↦ ok (some (record { job = j; lease_token = token }), db')
    ]
    else ok (none, db')

-- What a claim returns: no candidate is ErrNoWork, and the transaction has committed.
abbrev pub lease_or_no_work : Result JobError (Option Lease) × Db → Result JobError Lease × Db
lease_or_no_work (err e, db) = (err e, db)
lease_or_no_work (ok none, db) = (err no_work, db)
lease_or_no_work (ok (some l), db) = (ok l, db)

unfoldable pub valid_claim : String → String → Bool
unfolding supported_target is_blank
valid_claim target owner = supported_target target && not (is_blank owner)

-- `hash_token` is the hexadecimal SHA-256 of a token; `token` is what randomToken drew.
module _ (hash_token : String → String) (token : String) where
  -- `matches` is the predicate on the payload, which accepts every row for nil.
  unfoldable pub claim_tx : String → String → (Job → Bool) → Times → Tx (Option Lease)
  unfolding first order_rows select is_claimable take_lease lease_candidate reconcile
  claim_tx target owner matches t db0 =
      let db = reconcile t.now db0 in
      elim (first matches (order_rows (select (is_claimable target t.now db) db.jobs))) [
        | none ↦ ok (none, db)
        | some c ↦
            lease_candidate (is_claimable target t.now db) (take_lease owner (hash_token token) t)
              token c.id db
      ]

  unfoldable pub claim_matching :
      String → String → (Job → Bool) → Times → Db → Result JobError Lease × Db
  unfolding valid_claim claim_tx
  claim_matching target owner matches t db =
      if valid_claim target owner
      then lease_or_no_work (commit db (claim_tx target owner matches t db))
      else (err validation, db)

  unfoldable pub claim : String → String → Times → Db → Result JobError Lease × Db
  unfolding claim_matching
  claim target owner t db = claim_matching target owner (λ _. true) t db

-- active.lease_owner = ? AND active.job_type = ? AND active.state IN ('leased', 'running')
abbrev pub holds_lease : String → String → Job → Bool
holds_lease owner job_type a =
    str_eq a.lease_owner owner && str_eq a.job_type job_type && is_active a.state

unfoldable pub is_claimable_capability : String → String → String → ℕ → Db → Job → Bool
unfolding is_claimable exists_where
is_claimable_capability target owner job_type now db j =
    is_claimable target now db j
    && str_eq j.job_type job_type
    && not (exists_where (holds_lease owner job_type) db.jobs)

-- The UPDATE of ClaimMatchingCapability, which has no condition on dependencies.
unfoldable pub may_lease_capability : String → String → String → ℕ → Db → Job → Bool
unfolding exists_where
may_lease_capability target owner job_type now db j =
    str_eq j.execution_target target
    && is_queued j.state
    && str_eq j.job_type job_type
    && leb j.available_at now
    && ltb j.attempt_count j.max_attempts
    && not (exists_where (λ a. holds_lease owner job_type a && not (a.id == j.id)) db.jobs)

module _ (hash_token : String → String) (token : String) where
  unfoldable pub claim_capability_tx : String → String → String → Times → Tx (Option Lease)
  unfolding first order_rows select is_claimable_capability may_lease_capability take_lease
      lease_candidate reconcile
  claim_capability_tx target owner job_type t db0 =
      let db = reconcile t.now db0 in
      elim (first (λ _. true)
        (order_rows (select (is_claimable_capability target owner job_type t.now db) db.jobs))) [
          | none ↦ ok (none, db)
          | some c ↦
              lease_candidate (may_lease_capability target owner job_type t.now db)
                (take_lease owner (hash_token token) t) token c.id db
        ]

  unfoldable pub claim_matching_capability :
      String → String → String → Times → Db → Result JobError Lease × Db
  unfolding valid_claim claim_capability_tx
  claim_matching_capability target owner job_type t db =
      if valid_claim target owner
      then lease_or_no_work (commit db (claim_capability_tx target owner job_type t db))
      else (err validation, db)
