-- ===== src/Jobs/Claim/Best.antt =====
-- Claim takes a best claimable job, or finds that there is none.
use doublangu.Prelude.{
  ℕ, String, ◌≡◌, refl, ap, inl, inr, Bool, true, false, ◌&&◌, List, [], ◌∷◌, Option, none, some,
  arith, Result, ok, err, ◌==◌, ==_iff, All, All-mono, All-both, All-select, first, first_sound,
  select, exists_where, update_where, count_where, Bool-cases,
}
use doublangu.Jobs.Types.{Ulid, Job, Db, Lease, JobError, no_work, Times, commit}
use doublangu.Jobs.Enqueue.{has_id, find_id}
use doublangu.Jobs.Reconcile.{reconcile}
use doublangu.Jobs.Claim.{
  is_claimable, precedes, order_rows, take_lease, lease_candidate, lease_or_no_work, valid_claim,
  claim_tx, claim_matching,
}
use doublangu.Jobs.Claim.Order.{
  order_rows-All, All-order_rows, order_rows-Sorted, first-best, first-none, select-All,
  All-of_select,
}
use doublangu.Jobs.Invariant.Claims.{reconcile-Inv}
use doublangu.Jobs.Invariant.Rules.{KeepsId, UniqueIds, none_of_id, Inv}

-- the UPDATE of a claim on the row of one id
abbrev pub is_row : Ulid → (Job → Bool) → Job → Bool
is_row id guard j = j.id == id && guard j

pub find_id-update_where :
    (id : Ulid) (guard : Job → Bool) (f : Job → Job)
    → KeepsId f
    → (jobs : List Job) (c : Job) → guard c ≡ true
    → find_id id jobs ≡ some c
    → find_id id (update_where (is_row id guard) f jobs) ≡ some (f c)
unfolding find_id update_where
find_id-update_where id guard f same [] c g h = ground arith
find_id-update_where id guard f same (j ∷ js) c g h = elim (Bool-cases (j.id == id)) [
  | inl e ↦
      let here : j ≡ c = ground arith in
      let g' : guard j ≡ true = rw here g in ground (arith, same j, ap f here)
  | inr e ↦ ground (arith, find_id-update_where id guard f same js c g)
]

pub count_none :
    (id : Ulid) (guard : Job → Bool) (jobs : List Job)
    → exists_where (has_id id) jobs ≡ false
    → count_where (is_row id guard) jobs ≡ 0
unfolding exists_where count_where
count_none id guard [] h = refl
count_none id guard (j ∷ js) h = ground (arith, count_none id guard js)

pub count_one :
    (id : Ulid) (guard : Job → Bool) (jobs : List Job) (c : Job)
    → UniqueIds jobs
    → guard c ≡ true
    → find_id id jobs ≡ some c
    → count_where (is_row id guard) jobs ≡ 1
unfolding find_id count_where
count_one id guard [] c u g h = ground arith
count_one id guard (j ∷ js) c u g h = elim (Bool-cases (j.id == id)) [
  | inl e ↦
      let here : j ≡ c = ground arith in
      let g' : guard j ≡ true = rw here g in
      let same : j.id ≡ id = (==_iff j.id id).0 e in
      ground (arith, count_none id guard js (rw same at u.0))
  | inr e ↦ ground (arith, count_one id guard js c u.1 g)
]

-- every row is the one that its id finds
abbrev IsStored : List Job → Job → Type 0
IsStored jobs j = find_id j.id jobs ≡ some j

UniqueIds-IsStored : (jobs : List Job) → UniqueIds jobs → All (IsStored jobs) jobs
UniqueIds-IsStored [] u = tt
UniqueIds-IsStored (j ∷ js) u = (
  unfold find_id in ground arith,
  All-mono (λ x. ((x.id == j.id) ≡ false) × IsStored js x) (IsStored (j ∷ js))
      (λ x k. found_later j js x k.0 k.1) js
      (All-both (λ x. (x.id == j.id) ≡ false) (IsStored js) js (none_of_id j.id js u.0)
        (UniqueIds-IsStored js u.1)),
)
  where
    found_later :
        (j : Job) (js : List Job) (x : Job)
        → (x.id == j.id) ≡ false
        → IsStored js x
        → IsStored (j ∷ js) x
    found_later j js x ne k = unfold find_id in ground arith

-- The conditional UPDATE on a stored row that passes the guard succeeds.
lease_candidate-succeeds :
    (guard : Job → Bool) (f : Job → Job) (token : String) (c : Job) (db : Db)
    → KeepsId f
    → UniqueIds db.jobs
    → guard c ≡ true
    → find_id c.id db.jobs ≡ some c
    → lease_candidate guard f token c.id db
      ≡ ok (
        some (record { job = f c; lease_token = token }),
        record db { jobs = update_where (is_row c.id guard) f db.jobs },
      )
unfolding lease_candidate
lease_candidate-succeeds guard f token c db same u g h = ground (
  arith,
  count_one c.id guard db.jobs c u g h,
  find_id-update_where c.id guard f same db.jobs c g h,
)

-- A row that may be taken and after which no other such row should have been taken.
pub record IsBest (target : String) (now : ℕ) (matches : Job → Bool) (db : Db) (c : Job)
    : Type 0 where
  pub stored : find_id c.id db.jobs ≡ some c
  pub claimable : is_claimable target now db c ≡ true
  pub accepted : matches c ≡ true
  pub best :
      All
        (λ j. is_claimable target now db j ≡ true → matches j ≡ true → precedes j c ≡ false)
        db.jobs

module _ (target : String) (now : ℕ) (matches : Job → Bool) (db : Db) where
  abbrev rows : List Job
  rows = select (is_claimable target now db) db.jobs

  choice-IsBest :
      {c : Job}
      → UniqueIds db.jobs
      → first matches (order_rows rows) ≡ some c
      → IsBest target now matches db c
  choice-IsBest {c} u e =
      let from_rows =
        first_sound (λ j. IsStored db.jobs j × (is_claimable target now db j ≡ true)) matches
          (order_rows rows) {x = c} e
          (order_rows-All (λ j. IsStored db.jobs j × (is_claimable target now db j ≡ true)) rows
            (All-both (IsStored db.jobs) (λ j. is_claimable target now db j ≡ true) rows
              (All-select (IsStored db.jobs) (is_claimable target now db) db.jobs
                (UniqueIds-IsStored db.jobs u))
              (select-All (is_claimable target now db) db.jobs))) in
      record {
        stored = from_rows.0.0;
        claimable = from_rows.0.1;
        accepted = from_rows.1;
        best =
            All-of_select (λ j. matches j ≡ true → precedes j c ≡ false)
              (is_claimable target now db) db.jobs
              (All-order_rows (λ j. matches j ≡ true → precedes j c ≡ false) rows
                (first-best matches (order_rows rows) (order_rows-Sorted rows) e));
      }

  -- Where no row is chosen, no row may be taken.
  no_choice :
      first matches (order_rows rows) ≡ none
      → All (λ j. is_claimable target now db j ≡ true → matches j ≡ false) db.jobs
  no_choice e =
      All-of_select (λ j. matches j ≡ false) (is_claimable target now db) db.jobs
        (All-order_rows (λ j. matches j ≡ false) rows (first-none matches (order_rows rows) e))

id-take_lease : (owner hash : String) (t : Times) → KeepsId (take_lease owner hash t)
unfolding take_lease
id-take_lease owner hash t j = refl

-- The two outcomes of a claim that passes validation, over the reconciled tables.
pub data ClaimOutcome (target owner hash token : String) (matches : Job → Bool) (t : Times)
    (ready : Db) : Result JobError Lease → Db → Type 0 where
  leases :
      {r : Result JobError Lease} {db' : Db} (c : Job)
      → IsBest target t.now matches ready c
      → r ≡ ok (record { job = take_lease owner hash t c; lease_token = token })
      → db' ≡ record ready {
        jobs =
            update_where
              (is_row c.id (is_claimable target t.now ready))
              (take_lease owner hash t)
              ready.jobs;
      }
      → ClaimOutcome target owner hash token matches t ready r db'
  finds_none :
      {r : Result JobError Lease} {db' : Db}
      → All (λ j. is_claimable target t.now ready j ≡ true → matches j ≡ false) ready.jobs
      → r ≡ err no_work
      → db' ≡ ready
      → ClaimOutcome target owner hash token matches t ready r db'

module _ (hash_token : String → String) (token target owner : String) (matches : Job → Bool)
    (t : Times) (db : Db) where
  abbrev ready : Db
  ready = reconcile t.now db

  abbrev hash : String
  hash = hash_token token

  outcome_of_choice :
      (choice : Option Job)
      → first matches (order_rows (rows target t.now matches ready)) ≡ choice
      → UniqueIds ready.jobs
      → (x : Result JobError (Option Lease) × Db)
      → commit db (elim choice as (λ _. Result JobError (Option Lease × Db)) [
        | none ↦ ok (none, ready)
        | some c ↦
            lease_candidate
              (is_claimable target t.now ready)
              (take_lease owner hash t)
              token
              c.id
              ready
      ])
        ≡ x
      → ClaimOutcome target owner hash token matches t ready
          (lease_or_no_work x).0
          (lease_or_no_work x).1
  outcome_of_choice none e u x h =
      finds_none (no_choice target t.now matches ready e) (rw (← h)) (rw (← h))
  outcome_of_choice (some c) e u x h =
      let b = choice-IsBest target t.now matches ready {c = c} u e in
      let done =
        lease_candidate-succeeds (is_claimable target t.now ready) (take_lease owner hash t) token c
          ready (id-take_lease owner hash t) u b.claimable b.stored in
      leases c b (rw (← h) (rw done)) (rw (← h) (rw done))

  -- ClaimMatching with valid arguments, from tables that satisfy the invariant: it first fails the
  -- jobs whose dependencies failed; then either it leases a claimable job that its predicate
  -- accepts and before which no other such job stands in the order of priority, age and id, with
  -- the attempt counted and the token's hash, owner and expiry set on that row alone; or there is
  -- no such job, it answers ErrNoWork, and the tables are the reconciled ones.
  pub claim_matching-outcome :
      {origin : Db}
      → Inv origin db
      → valid_claim target owner ≡ true
      → ClaimOutcome target owner
          (hash_token token)
          token
          matches
          t
          (reconcile t.now db)
          (claim_matching hash_token token target owner matches t db).0
          (claim_matching hash_token token target owner matches t db).1
  unfolding claim_matching claim_tx
  claim_matching-outcome {origin} h v = rw v (
      outcome_of_choice (first matches (order_rows (rows target t.now matches ready))) refl
        (reconcile-Inv origin t.now db h).unique _ refl)
