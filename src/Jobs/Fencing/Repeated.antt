-- ===== src/Jobs/Fencing/Repeated.antt =====
-- Complete and Fail can be repeated by the attempt that made them.
use doublangu.Prelude.{
  ℕ, String, ◌≡◌, sym, subst, ap, ◌∙◌, refl, inl, inr, ◌⊎◌, Bool, true, false, ◌||◌, some, arith,
  Result, ok, err, if◌then◌else◌, str_eq, eq_iff, Bool-cases, Option-cases,
}
use doublangu.Jobs.Types.{
  Ulid, is_active, is_succeeded, is_failed, is_canceled, is_queued, Job, Db, JobError, Times,
  commit,
}
use doublangu.Jobs.Enqueue.{find_id}
use doublangu.Jobs.Lease.{holds_attempt, is_held, update_held, valid_error_code}
use doublangu.Jobs.Finish.{
  Outcome, completed, failure, set_succeeded, set_failed, finish_row, finish, complete, fail,
}
use doublangu.Jobs.Fencing.{finish-found, finish-missing}
use doublangu.Jobs.Invariant.Rules.{KeepsId, find_id-update_where, find_id-id}

commit-ok :
    {A : Type 0} (db : Db) (r : Result JobError (A × Db)) {a : A} {db' : Db}
    → commit db r ≡ (ok a, db')
    → r ≡ ok (a, db')
commit-ok db (ok (a, d)) h = cc h
commit-ok db (err e) h = ground arith

module _ (hash_token : String → String) (id : Ulid) (attempt : ℕ) (token : String) where
  -- the row was found and read
  finish_ok :
      (outcome : Outcome) (t : Times) (db : Db) {db' : Db}
      → finish hash_token id attempt token outcome t db ≡ (ok tt, db')
      → (j : Job) × (str_eq token "" ≡ false)
        × (find_id id db.jobs ≡ some j)
        × (finish_row hash_token id attempt token outcome t db j ≡ ok (tt, db'))
  finish_ok outcome t db {db'} h = elim (Bool-cases (str_eq token "")) [
    | inl y ↦ absurd (unfold finish in ground arith)
    | inr n ↦ elim (Option-cases (find_id id db.jobs)) [
      | inl e ↦ absurd (cc (finish-missing hash_token id attempt token outcome t db n e))
      | inr (j, e) ↦ (
        j,
        n,
        e,
        commit-ok db _ (sym (finish-found hash_token id attempt token j outcome t db n e) ∙ h),
      )
    ]
  ]

  held_of_holds :
      (j : Job)
      → holds_attempt hash_token attempt token j ≡ true
      → is_active j.state ≡ true
      → j.id ≡ id
      → is_held hash_token id attempt token j ≡ true
  unfolding holds_attempt
  held_of_holds j h a e = ground (
    arith,
    eq_iff (hash_token token) j.lease_token_hash,
    eq_iff j.lease_token_hash (hash_token token),
  )

  complete_cases :
      (t : Times) (db : Db) (j : Job) {db' : Db}
      → finish_row hash_token id attempt token completed t db j ≡ ok (tt, db')
      → (holds_attempt hash_token attempt token j ≡ true)
        × (((is_succeeded j.state ≡ true) × (db' ≡ db))
            ⊎ ((is_active j.state ≡ true)
                × (db' ≡ update_held hash_token id attempt token (set_succeeded t) db)))
  unfolding finish_row
  complete_cases t db j h = ground arith

  fail_cases :
      (code : String) (retry : Bool) (t : Times) (db : Db) (j : Job) {db' : Db}
      → finish_row hash_token id attempt token (failure code retry) t db j ≡ ok (tt, db')
      → (holds_attempt hash_token attempt token j ≡ true)
        × ((((is_failed j.state || is_canceled j.state || is_queued j.state) ≡ true) × (db' ≡ db))
            ⊎ (((is_failed j.state || is_canceled j.state || is_queued j.state) ≡ false)
                × (db'
                    ≡ update_held hash_token id attempt token
                        (set_failed attempt code retry t j)
                        db)))
  unfolding finish_row
  fail_cases code retry t db j h = ground arith

  finish_row-succeeded :
      (t : Times) (db : Db) (j : Job)
      → holds_attempt hash_token attempt token j ≡ true
      → is_succeeded j.state ≡ true
      → finish_row hash_token id attempt token completed t db j ≡ ok (tt, db)
  unfolding finish_row
  finish_row-succeeded t db j h s = rw (h, s)

  finish_row-settled :
      (code : String) (retry : Bool) (t : Times) (db : Db) (j : Job)
      → holds_attempt hash_token attempt token j ≡ true
      → (is_failed j.state || is_canceled j.state || is_queued j.state) ≡ true
      → finish_row hash_token id attempt token (failure code retry) t db j ≡ ok (tt, db)
  unfolding finish_row
  finish_row-settled code retry t db j h s = rw (h, s)

  pub find_id-update_held :
      (f : Job → Job) (db : Db) (j : Job)
      → KeepsId f
      → find_id id db.jobs ≡ some j
      → holds_attempt hash_token attempt token j ≡ true
      → is_active j.state ≡ true
      → find_id id (update_held hash_token id attempt token f db).jobs ≡ some (f j)
  unfolding update_held
  find_id-update_held f db j same at h a =
      find_id-update_where id (is_held hash_token id attempt token) f same db.jobs j at
      ∙ ap (λ b. some (if b then f j else j)) (held_of_holds j h a (find_id-id id db.jobs at))

  id-set_succeeded : (t : Times) → KeepsId (set_succeeded t)
  unfolding set_succeeded
  id-set_succeeded t j = refl

  complete_again :
      (t t' : Times) (db db' : Db) (j : Job)
      → str_eq token "" ≡ false
      → find_id id db'.jobs ≡ some j
      → holds_attempt hash_token attempt token j ≡ true
      → is_succeeded j.state ≡ true
      → complete hash_token id attempt token t' db' ≡ (ok tt, db')
  unfolding complete
  complete_again t t' db db' j n at h s =
      finish-found hash_token id attempt token j completed t' db' n at
      ∙ ap (commit db') (finish_row-succeeded t' db' j h s)

  -- Complete is idempotent: what it has accepted from an attempt it accepts again from the same
  -- attempt and token at any time, with no further change to the tables.
  pub complete-complete :
      (t t' : Times) (db db' : Db)
      → complete hash_token id attempt token t db ≡ (ok tt, db')
      → complete hash_token id attempt token t' db' ≡ (ok tt, db')
  complete-complete t t' db db' c =
      let (j, n, at, e) = finish_ok completed t db {db' = db'} (unfold complete in c) in
      let (h, cases) = complete_cases t db j {db' = db'} e in
      elim cases [
        | inl (s, same) ↦
            complete_again t t' db db' j n (subst (λ d. find_id id d.jobs ≡ some j) (sym same) at) h
              s
        | inr (a, new) ↦
            complete_again t t' db db' (set_succeeded t j) n
              (subst (λ d. find_id id d.jobs ≡ some (set_succeeded t j)) (sym new)
                (find_id-update_held (set_succeeded t) db j (id-set_succeeded t) at h a))
              (unfold set_succeeded holds_attempt in h) (unfold set_succeeded in refl)
      ]

  fail_again :
      (code : String) (retry : Bool) (t : Times) (db : Db) (j : Job)
      → valid_error_code code ≡ true
      → str_eq token "" ≡ false
      → find_id id db.jobs ≡ some j
      → holds_attempt hash_token attempt token j ≡ true
      → (is_failed j.state || is_canceled j.state || is_queued j.state) ≡ true
      → fail hash_token id attempt token code retry t db ≡ (ok tt, db)
  unfolding fail
  fail_again code retry t db j v n at h s =
      (rw v)
      ∙ finish-found hash_token id attempt token j (failure code retry) t db n at
      ∙ ap (commit db) (finish_row-settled code retry t db j h s)

  settled-set_failed :
      (code : String) (retry : Bool) (t : Times) (found j : Job)
      → (let s = (set_failed attempt code retry t found j).state in
          is_failed s || is_canceled s || is_queued s)
        ≡ true
  unfolding set_failed
  settled-set_failed code retry t found j = ground arith

  holds-set_failed :
      (code : String) (retry : Bool) (t : Times) (found j : Job)
      → holds_attempt hash_token attempt token j ≡ true
      → holds_attempt hash_token attempt token (set_failed attempt code retry t found j) ≡ true
  unfolding set_failed holds_attempt
  holds-set_failed code retry t found j h = ground arith

  pub id-set_failed :
      (code : String) (retry : Bool) (t : Times) (found : Job)
      → KeepsId (set_failed attempt code retry t found)
  unfolding set_failed
  id-set_failed code retry t found j = ground arith

  -- Fail is idempotent: a failure report of an active attempt that was accepted is accepted again
  -- from the same attempt and token, at any time and with any code and retry flag, with no further
  -- change to the tables, as long as no other call has changed the job.
  pub fail-fail :
      (code code' : String) (retry retry' : Bool) (t t' : Times) (db db' : Db) (j : Job)
      → find_id id db.jobs ≡ some j
      → is_active j.state ≡ true
      → valid_error_code code ≡ true
      → valid_error_code code' ≡ true
      → fail hash_token id attempt token code retry t db ≡ (ok tt, db')
      → fail hash_token id attempt token code' retry' t' db' ≡ (ok tt, db')
  fail-fail code code' retry retry' t t' db db' j at a v v' f =
      let (j0, n, at0, e) = finish_ok (failure code retry) t db {db' = db'} (accepted f) in
      let same : j ≡ j0 = cc (at, at0) in
      let a0 : is_active j0.state ≡ true = subst (λ x. is_active x.state ≡ true) same a in
      let (h, cases) = fail_cases code retry t db j0 {db' = db'} e in
      elim cases [
        | inl (settled, _) ↦ absurd (ground arith)
        | inr (_, new) ↦
            fail_again code' retry' t' db' (set_failed attempt code retry t j0 j0) v' n
              (subst (λ d. find_id id d.jobs ≡ some (set_failed attempt code retry t j0 j0))
                (sym new)
                (find_id-update_held (set_failed attempt code retry t j0) db j0
                  (id-set_failed code retry t j0) at0 h a0))
              (holds-set_failed code retry t j0 j0 h) (settled-set_failed code retry t j0 j0)
      ]
    where
      accepted :
          fail hash_token id attempt token code retry t db ≡ (ok tt, db')
          → finish hash_token id attempt token (failure code retry) t db ≡ (ok tt, db')
      accepted k = unfold fail in ground arith
