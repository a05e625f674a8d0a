-- ===== src/Jobs/Fencing/Canceled.antt =====
-- Cancel on a leased job: the worker can still be told, and can no longer complete.
use doublangu.Prelude.{
  ℕ, String, ◌≡◌, sym, subst, ◌∙◌, refl, inl, inr, Bool, true, false, ◌||◌, List, [], ◌∷◌, some,
  arith, ok, err, ◌==◌, ==_iff, str_eq, ℤ, pos, ltb_ℤ, exists_where, update_where, count_where,
  Bool-cases,
}
use doublangu.Jobs.Types.{
  Ulid, is_zero, is_active, is_queued, is_canceled, Job, Db, lease_lost, Times,
}
use doublangu.Jobs.Enqueue.{has_id, find_id}
use doublangu.Jobs.Lease.{holds_attempt, valid_error_code, heartbeat_row, heartbeat}
use doublangu.Jobs.Finish.{completed, finish_row, complete}
use doublangu.Jobs.Cancel.{cancel_queued, cancel_active, queued_at, active_at, cancel_tx, cancel}
use doublangu.Jobs.Claim.Best.{is_row, count_none, count_one}
use doublangu.Jobs.Fencing.{finish-found, heartbeat-found}
use doublangu.Jobs.Invariant.Rules.{
  KeepsId, UniqueIds, UniqueIds-update_where, Inv, find_id-update_where, find_id-id,
}

count_zero :
    (id : Ulid) (guard : Job → Bool) (jobs : List Job) (c : Job)
    → UniqueIds jobs
    → guard c ≡ false
    → find_id id jobs ≡ some c
    → count_where (is_row id guard) jobs ≡ 0
unfolding find_id count_where
count_zero id guard [] c u g h = refl
count_zero id guard (j ∷ js) c u g h = elim (Bool-cases (j.id == id)) [
  | inl e ↦
      let here : j ≡ c = ground arith in
      let g' : guard j ≡ false = subst (λ x. guard x ≡ false) (sym here) g in
      let same : j.id ≡ id = (==_iff j.id id).0 e in
      ground
        (arith, count_none id guard js (subst (λ k. exists_where (has_id k) js ≡ false) same u.0))
  | inr e ↦ ground (arith, count_zero id guard js c u.1 g)
]

id-cancel_queued : (code : String) (now : ℕ) → KeepsId (cancel_queued code now)
unfolding cancel_queued
id-cancel_queued code now j = refl

id-cancel_active : (code : String) (now : ℕ) → KeepsId (cancel_active code now)
unfolding cancel_active
id-cancel_active code now j = refl

module _ (id : Ulid) (code : String) (now : ℕ) (db : Db) where
  abbrev first_update : Db
  first_update = record db { jobs = update_where (queued_at id) (cancel_queued code now) db.jobs }

  abbrev second_update : Db
  second_update = record db {
    jobs = update_where (active_at id) (cancel_active code now) first_update.jobs;
  }

  cancel_of_counts :
      is_zero id ≡ false
      → valid_error_code code ≡ true
      → count_where (queued_at id) db.jobs ≡ 0
      → count_where (active_at id) first_update.jobs ≡ 1
      → cancel id code now db ≡ (ok tt, second_update)
  unfolding cancel cancel_tx
  cancel_of_counts z v none_queued one_active = rw (v, z, none_queued, one_active)

  module _ (j : Job) (u : UniqueIds db.jobs) (at : find_id id db.jobs ≡ some j)
      (a : is_active j.state ≡ true) where
    not_queued : is_queued j.state ≡ false
    not_queued = ground arith

    found_first : find_id id first_update.jobs ≡ some j
    found_first =
        find_id-update_where id (queued_at id) (cancel_queued code now) (id-cancel_queued code now)
          db.jobs j at
        ∙ ground (arith, not_queued)

    cancel-active :
        is_zero id ≡ false
        → valid_error_code code ≡ true
        → cancel id code now db ≡ (ok tt, second_update)
    cancel-active z v =
        cancel_of_counts z v (count_zero id (λ x. is_queued x.state) db.jobs j u not_queued at) (
          count_one id (λ x. is_active x.state) first_update.jobs j
            (UniqueIds-update_where (queued_at id) (cancel_queued code now)
              (id-cancel_queued code now) db.jobs u)
            a found_first)

    found_second : find_id id second_update.jobs ≡ some (cancel_active code now j)
    found_second =
        find_id-update_where id (active_at id) (cancel_active code now) (id-cancel_active code now)
          first_update.jobs j found_first
        ∙ ground (arith, a, find_id-id id db.jobs {found = j} at)

module _ (hash_token : String → String) (id : Ulid) (attempt : ℕ) (token : String) where
  complete-canceled :
      (t : Times) (db : Db) (j : Job)
      → str_eq token "" ≡ false
      → find_id id db.jobs ≡ some j
      → holds_attempt hash_token attempt token j ≡ true
      → is_canceled j.state ≡ true
      → complete hash_token id attempt token t db ≡ (err lease_lost, db)
  unfolding complete
  complete-canceled t db j n at h c =
      finish-found hash_token id attempt token j completed t db n at
      ∙ (unfold finish_row in ground arith)

  heartbeat-canceled :
      (progress : ℤ) (t : Times) (db : Db) (j : Job)
      → str_eq token "" ≡ false
      → (ltb_ℤ progress (pos 0) || ltb_ℤ (pos 100) progress) ≡ false
      → find_id id db.jobs ≡ some j
      → holds_attempt hash_token attempt token j ≡ true
      → is_canceled j.state ≡ true
      → heartbeat hash_token id attempt token progress t db
        ≡ (ok (record { cancel_requested = true; job = j }), db)
  heartbeat-canceled progress t db j n r at h c =
      heartbeat-found hash_token id attempt token j progress t db n r at
      ∙ (unfold heartbeat_row in ground arith)

  holds-cancel_active :
      (code : String) (now : ℕ) (j : Job)
      → holds_attempt hash_token attempt token j ≡ true
      → holds_attempt hash_token attempt token (cancel_active code now j) ≡ true
  unfolding cancel_active holds_attempt
  holds-cancel_active code now j h = h

  -- Cancel of a job that an attempt holds succeeds, for a valid code and an id that is not zero. From
  -- then on that attempt's Heartbeat, in range, is told that cancellation was requested, its
  -- Complete is refused as ErrLeaseLost, and neither changes the tables.
  pub cancel-observed :
      (code : String) (now : ℕ) (progress : ℤ) (t : Times) {origin : Db} (db : Db) (j : Job)
      → Inv origin db
      → is_zero id ≡ false
      → valid_error_code code ≡ true
      → str_eq token "" ≡ false
      → (ltb_ℤ progress (pos 0) || ltb_ℤ (pos 100) progress) ≡ false
      → find_id id db.jobs ≡ some j
      → is_active j.state ≡ true
      → holds_attempt hash_token attempt token j ≡ true
      → let db' = (cancel id code now db).1 in
        ((cancel id code now db).0 ≡ ok tt)
        × (heartbeat hash_token id attempt token progress t db'
            ≡ (ok (record { cancel_requested = true; job = cancel_active code now j }), db'))
        × (complete hash_token id attempt token t db' ≡ (err lease_lost, db'))
  cancel-observed code now progress t db j h z v n r at a held =
      let done = cancel-active id code now db j h.unique at a z v in
      let at' = found_second id code now db j h.unique at a in
      let held' = holds-cancel_active code now j held in
      subst
        (λ x.
          (x.0 ≡ ok tt)
          × (heartbeat hash_token id attempt token progress t x.1
              ≡ (ok (record { cancel_requested = true; job = cancel_active code now j }), x.1))
          × (complete hash_token id attempt token t x.1 ≡ (err lease_lost, x.1)))
        (sym done)
        (
          refl,
          heartbeat-canceled progress t (second_update id code now db) (cancel_active code now j) n
              r at' held' (unfold cancel_active in refl),
          complete-canceled t (second_update id code now db) (cancel_active code now j) n at' held'
              (unfold cancel_active in refl),
        )
