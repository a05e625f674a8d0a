-- ===== src/Jobs/Claim/Exclusive.antt =====
-- ClaimMatchingCapability: one active lease for each worker and job type.
use doublangu.Prelude.{
  ℕ, zero, suc, ◌+◌, ◌≤◌, String, ◌≡◌, sym, subst, ◌∙◌, refl, inl, inr, Bool, true, false, ◌&&◌,
  List, [], ◌∷◌, Option, none, some, arith, Result, ok, err, ◌==◌, if◌then◌else◌, str_eq, eq_iff,
  first, first_sound, length, select, exists_where, update_where, count_where, Bool-cases, and-elim,
}
use doublangu.Jobs.Types.{Ulid, Job, Db, JobError, Lease, Times, validation, not_found}
use doublangu.Jobs.Enqueue.{has_id, find_id}
use doublangu.Jobs.Reconcile.{
  is_doomed, fail_dependency, reconcile_round, reconcile_loop, reconcile,
}
use doublangu.Jobs.Claim.{
  holds_lease, is_claimable_capability, may_lease_capability, order_rows, take_lease,
  lease_candidate, lease_or_no_work, valid_claim, claim_capability_tx, claim_matching_capability,
}
use doublangu.Jobs.Claim.Order.{order_rows-All, select-All}
use doublangu.Jobs.Claim.Best.{is_row, count_none}
use doublangu.Jobs.Invariant.Claims.{reconcile-Inv}
use doublangu.Jobs.Invariant.Rules.{
  UniqueIds, Inv, Ensures, Ensures-ok, Ensures-err, Ensures-if, commit-keeps,
}

-- the active leases of a worker for a job type
abbrev pub leases_held : String → String → Db → ℕ
leases_held owner job_type db = count_where (holds_lease owner job_type) db.jobs

-- An UPDATE of rows that are not counted adds at most its own rows.
count_where-update_le :
    (h p : Job → Bool) (f : Job → Job)
    → ((j : Job) → p j ≡ true → h j ≡ false)
    → (jobs : List Job)
    → count_where h (update_where p f jobs) ≤ count_where h jobs + count_where p jobs
unfolding update_where count_where
count_where-update_le h p f idle [] = omega arith
count_where-update_le h p f idle (j ∷ js) = elim (Bool-cases (p j)) [
  | inl e ↦ ground (arith, e, idle j e, count_where-update_le h p f idle js)
  | inr e ↦ ground (arith, e, count_where-update_le h p f idle js)
]

count_where-update_eq :
    (h p : Job → Bool) (f : Job → Job)
    → ((j : Job) → p j ≡ true → h j ≡ false)
    → ((j : Job) → p j ≡ true → h (f j) ≡ false)
    → (jobs : List Job) → count_where h (update_where p f jobs) ≡ count_where h jobs
unfolding update_where count_where
count_where-update_eq h p f idle still [] = refl
count_where-update_eq h p f idle still (j ∷ js) = elim (Bool-cases (p j)) [
  | inl e ↦ ground (arith, e, idle j e, still j e, count_where-update_eq h p f idle still js)
  | inr e ↦ ground (arith, e, count_where-update_eq h p f idle still js)
]

count_le_one :
    (id : Ulid) (guard : Job → Bool) (jobs : List Job)
    → UniqueIds jobs
    → count_where (is_row id guard) jobs ≤ 1
unfolding count_where
count_le_one id guard [] u = omega arith
count_le_one id guard (j ∷ js) u = elim (Bool-cases (j.id == id)) [
  | inl e ↦
      let none =
        count_none id guard js
          (subst (λ k. exists_where (has_id k) js ≡ false) (ground arith) u.0) in
      ground (arith, e, none)
  | inr e ↦ ground (arith, e, count_le_one id guard js u.1)
]

sum_le_one : {a b c : ℕ} → a ≤ b + c → b ≡ 0 → c ≤ 1 → a ≤ 1
sum_le_one step nobody one = omega arith

count_of_none :
    (h : Job → Bool) (jobs : List Job) → exists_where h jobs ≡ false → count_where h jobs ≡ 0
unfolding exists_where count_where
count_of_none h [] e = refl
count_of_none h (j ∷ js) e = ground (arith, count_of_none h js)

module _ (worker kind : String) where
  round-leases :
      (now : ℕ) (db : Db)
      → leases_held worker kind (reconcile_round now db) ≡ leases_held worker kind db
  unfolding reconcile_round
  round-leases now db =
      count_where-update_eq (holds_lease worker kind) (is_doomed db) (fail_dependency now)
        (λ j e. (unfold is_doomed in ground arith))
        (λ j e. (unfold fail_dependency in ground arith)) db.jobs

  loop-leases :
      (fuel now : ℕ) (db : Db)
      → leases_held worker kind (reconcile_loop fuel now db) ≡ leases_held worker kind db
  unfolding reconcile_loop
  loop-leases zero now db = refl
  loop-leases (suc fuel) now db =
      elim (count_where (is_doomed db) db.jobs == 0)
        as (λ b.
          leases_held worker kind (elim b [
            | true ↦ reconcile_round now db
            | false ↦ reconcile_loop fuel now (reconcile_round now db)
          ])
          ≡ leases_held worker kind db) [
            | true ↦ round-leases now db
            | false ↦ loop-leases fuel now (reconcile_round now db) ∙ round-leases now db
          ]

  reconcile-leases :
      (now : ℕ) (db : Db) → leases_held worker kind (reconcile now db) ≡ leases_held worker kind db
  unfolding reconcile
  reconcile-leases now db = loop-leases (suc (length db.jobs)) now db

  abbrev AtMostOne : Db → Type 0
  AtMostOne db = leases_held worker kind db ≤ 1

  module _ (target owner job_type hash : String) (t : Times) (db : Db) (c : Job)
      (u : UniqueIds db.jobs) where
    abbrev guard : Job → Bool
    guard = may_lease_capability target owner job_type t.now db

    -- The row that is leased was queued, so it was not counted.
    idle : (j : Job) → is_row c.id guard j ≡ true → holds_lease worker kind j ≡ false
    unfolding may_lease_capability
    idle j e = ground arith

    -- The lease is another worker's or of another type.
    other :
        (str_eq owner worker && str_eq job_type kind) ≡ false
        → (j : Job) → is_row c.id guard j ≡ true
        → holds_lease worker kind (take_lease owner hash t j) ≡ false
    unfolding may_lease_capability take_lease
    other d j e =
        ground (arith, eq_iff j.job_type job_type, eq_iff j.job_type kind, eq_iff job_type kind)

    unleased :
        str_eq owner worker ≡ true
        → str_eq job_type kind ≡ true
        → is_claimable_capability target owner job_type t.now db c ≡ true
        → exists_where (holds_lease worker kind) db.jobs ≡ false
    unfolding is_claimable_capability
    unleased e f h =
        let w : owner ≡ worker = (eq_iff owner worker).0 e in
        let k : job_type ≡ kind = (eq_iff job_type kind).0 f in
        let x : exists_where (holds_lease owner job_type) db.jobs ≡ false = ground arith in
        subst (λ k. exists_where (holds_lease worker k) db.jobs ≡ false) k
          (subst (λ w. exists_where (holds_lease w job_type) db.jobs ≡ false) w x)

    leased-AtMostOne :
        is_claimable_capability target owner job_type t.now db c ≡ true
        → AtMostOne db
        → AtMostOne (record db {
          jobs = update_where (is_row c.id guard) (take_lease owner hash t) db.jobs;
        })
    leased-AtMostOne h m = elim (Bool-cases (str_eq owner worker && str_eq job_type kind)) [
      | inl e ↦
          let nobody : leases_held worker kind db ≡ 0 =
            count_of_none (holds_lease worker kind) db.jobs
              (unleased (and-elim _ _ e).0 (and-elim _ _ e).1 h) in
          let one = count_le_one c.id guard db.jobs u in
          let step =
            count_where-update_le (holds_lease worker kind) (is_row c.id guard)
              (take_lease owner hash t) idle db.jobs in
          sum_le_one step nobody one
      | inr d ↦
          subst (λ n. n ≤ 1)
            (sym (
              count_where-update_eq (holds_lease worker kind) (is_row c.id guard)
                (take_lease owner hash t) idle (other d) db.jobs))
            m
    ]

  lease_candidate-AtMostOne :
      (guard : Job → Bool) (set : Job → Job) (token : String) (id : Ulid) (db : Db)
      → AtMostOne (record db { jobs = update_where (is_row id guard) set db.jobs })
      → Ensures AtMostOne (lease_candidate guard set token id db)
  unfolding lease_candidate
  lease_candidate-AtMostOne guard set token id db m =
      let db' = record db { jobs = update_where (is_row id guard) set db.jobs } in
      Ensures-if (count_where (is_row id guard) db.jobs == 1)
        (λ _. found db' (find_id id db'.jobs) m) (λ _. Ensures-ok none m)
    where
      found :
          (db' : Db) (o : Option Job)
          → AtMostOne db'
          → Ensures {A = Option Lease} AtMostOne (elim o [
            | none ↦ err not_found
            | some j ↦ ok (some (record { job = j; lease_token = token }), db')
          ])
      found db' none k = Ensures-err not_found
      found db' (some j) k = Ensures-ok (some (record { job = j; lease_token = token })) k

  module _ (target owner job_type hash token : String) (t : Times) (db : Db)
      (u : UniqueIds db.jobs) where
    choice-AtMostOne :
        (choice : Option Job)
        → first
            (λ _. true)
            (order_rows (select (is_claimable_capability target owner job_type t.now db) db.jobs))
          ≡ choice
        → AtMostOne db
        → Ensures {A = Option Lease} AtMostOne (elim choice [
          | none ↦ ok (none, db)
          | some c ↦
              lease_candidate
                (may_lease_capability target owner job_type t.now db)
                (take_lease owner hash t)
                token
                c.id
                db
        ])
    choice-AtMostOne none e m = Ensures-ok none m
    choice-AtMostOne (some c) e m =
        let able =
          first_sound (λ j. is_claimable_capability target owner job_type t.now db j ≡ true)
            (λ _. true)
            (order_rows (select (is_claimable_capability target owner job_type t.now db) db.jobs))
            {x = c} e
            (order_rows-All (λ j. is_claimable_capability target owner job_type t.now db j ≡ true) _
              (select-All (is_claimable_capability target owner job_type t.now db) db.jobs)) in
        lease_candidate-AtMostOne (may_lease_capability target owner job_type t.now db)
          (take_lease owner hash t) token c.id db
          (leased-AtMostOne target owner job_type hash t db c u able.0 m)

  lease_or_no_work-AtMostOne :
      (r : Result JobError (Option Lease) × Db) → AtMostOne r.1 → AtMostOne (lease_or_no_work r).1
  lease_or_no_work-AtMostOne (err e, db) h = h
  lease_or_no_work-AtMostOne (ok none, db) h = h
  lease_or_no_work-AtMostOne (ok (some l), db) h = h

  if_valid-AtMostOne :
      (b : Bool) (db : Db) (m : Result JobError Lease × Db)
      → AtMostOne db
      → AtMostOne m.1
      → AtMostOne (if b then m else (err validation, db)).1
  if_valid-AtMostOne true db m h k = k
  if_valid-AtMostOne false db m h k = h

  -- ClaimMatchingCapability admits one active lease for each worker and job type: from tables that
  -- satisfy the invariant, if a worker has at most one leased or running job of a type before the
  -- call, it has at most one after it, whoever claims and for whatever type, and also when the
  -- call fails.
  pub claim_matching_capability-AtMostOne :
      (hash_token : String → String) (token target owner job_type : String) (t : Times)
      (origin db : Db)
      → Inv origin db
      → leases_held worker kind db ≤ 1
      → leases_held worker kind
          (claim_matching_capability hash_token token target owner job_type t db).1
        ≤ 1
  unfolding claim_matching_capability
  claim_matching_capability-AtMostOne hash_token token target owner job_type t origin db h m =
      if_valid-AtMostOne (valid_claim target owner) db _ m (
        lease_or_no_work-AtMostOne _ (
          commit-keeps db (claim_capability_tx hash_token token target owner job_type t db) m (
            unfold claim_capability_tx in
            let ready = reconcile t.now db in
            choice-AtMostOne target owner job_type (hash_token token) token t ready
              (reconcile-Inv origin t.now db h).unique
              (first (λ _. true)
                (order_rows
                  (select (is_claimable_capability target owner job_type t.now ready) ready.jobs)))
              refl (subst (λ n. n ≤ 1) (sym (reconcile-leases t.now db)) m))))
