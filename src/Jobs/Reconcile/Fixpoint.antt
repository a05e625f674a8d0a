-- ===== src/Jobs/Reconcile/Fixpoint.antt =====
-- The loop of reconcileDependencyFailuresTx ends, and ends with nothing left to fail.
use doublangu.Prelude.{
  ℕ, zero, suc, ◌+◌, ◌≤◌, ◌<◌, ◌≡◌, sym, subst, ap, ◌∙◌, refl, inl, inr, Bool, true, false, List,
  [], ◌∷◌, arith, ◌==◌, ==_iff, All, length, update_where, count_where, Bool-cases,
}
use doublangu.Jobs.Types.{is_queued, Job, Db}
use doublangu.Jobs.Reconcile.{
  is_doomed, fail_dependency, reconcile_round, reconcile_loop, reconcile,
}

-- the rows that may still fail
abbrev waiting : Job → Bool
waiting j = is_queued j.state

count_where-update_where :
    (p : Job → Bool) (f : Job → Job)
    → ((j : Job) → p j ≡ true → waiting j ≡ true)
    → ((j : Job) → waiting (f j) ≡ false)
    → (jobs : List Job)
    → count_where waiting (update_where p f jobs) + count_where p jobs ≡ count_where waiting jobs
unfolding update_where count_where
count_where-update_where p f hit done [] = refl
count_where-update_where p f hit done (j ∷ js) = elim (Bool-cases (p j)) [
  | inl e ↦ ground (arith, e, hit j e, done j, count_where-update_where p f hit done js)
  | inr e ↦ ground (arith, e, count_where-update_where p f hit done js)
]

count_where-none :
    (p : Job → Bool) (f : Job → Job) (jobs : List Job)
    → count_where p jobs ≡ 0
    → update_where p f jobs ≡ jobs
unfolding update_where count_where
count_where-none p f [] h = refl
count_where-none p f (j ∷ js) h = elim (Bool-cases (p j)) [
  | inl e ↦ absurd (ground arith)
  | inr e ↦ ground (arith, e, count_where-none p f js)
]

All-none : (p : Job → Bool) (jobs : List Job) → count_where p jobs ≡ 0 → All (λ j. p j ≡ false) jobs
unfolding count_where
All-none p [] h = tt
All-none p (j ∷ js) h = elim (Bool-cases (p j)) [
  | inl e ↦ absurd (ground arith)
  | inr e ↦ (e, All-none p js (ground arith))
]

count_le_length : (p : Job → Bool) (jobs : List Job) → count_where p jobs ≤ length jobs
unfolding count_where
count_le_length p [] = omega arith
count_le_length p (j ∷ js) = ground (arith, count_le_length p js)

round_measure :
    (now : ℕ) (db : Db)
    → count_where waiting (reconcile_round now db).jobs + count_where (is_doomed db) db.jobs
      ≡ count_where waiting db.jobs
unfolding reconcile_round
round_measure now db =
    count_where-update_where (is_doomed db) (fail_dependency now)
      (λ j e. (unfold is_doomed in ground arith)) (λ j. (unfold fail_dependency in refl)) db.jobs

-- a round that has nothing to do
round_idle :
    (now : ℕ) (db : Db) → count_where (is_doomed db) db.jobs ≡ 0 → reconcile_round now db ≡ db
unfolding reconcile_round
round_idle now db h =
    ap (λ (js : List Job). record db { jobs = js })
      (count_where-none (is_doomed db) (fail_dependency now) db.jobs h)

abbrev IsSettled : Db → Type 0
IsSettled db = All (λ j. is_doomed db j ≡ false) db.jobs

reconcile_loop-IsSettled :
    (fuel now : ℕ) (db : Db)
    → count_where waiting db.jobs < fuel
    → IsSettled (reconcile_loop fuel now db)
unfolding reconcile_loop
reconcile_loop-IsSettled zero now db m = absurd (omega arith)
reconcile_loop-IsSettled (suc fuel) now db m =
    elim (Bool-cases (count_where (is_doomed db) db.jobs == 0)) [
      | inl e ↦
          let none : count_where (is_doomed db) db.jobs ≡ 0 =
            (==_iff (count_where (is_doomed db) db.jobs) 0).0 e in
          subst IsSettled (sym (stop e ∙ round_idle now db none))
            (All-none (is_doomed db) db.jobs none)
      | inr e ↦ subst IsSettled (sym (go_on e)) (
          reconcile_loop-IsSettled fuel now (reconcile_round now db)
            (ground (arith, round_measure now db)))
    ]
  where
    stop :
        (count_where (is_doomed db) db.jobs == 0) ≡ true
        → reconcile_loop (suc fuel) now db ≡ reconcile_round now db
    stop e = rw (e, reconcile_loop)

    go_on :
        (count_where (is_doomed db) db.jobs == 0) ≡ false
        → reconcile_loop (suc fuel) now db ≡ reconcile_loop fuel now (reconcile_round now db)
    go_on e = rw (e, reconcile_loop)

-- The reconciliation that starts every claim and ends every recovery terminates with its work
-- done, for any tables: one round for each row and one more is enough, and afterwards no queued
-- job depends on a job that has failed or been canceled.
pub reconcile-IsSettled :
    (now : ℕ) (db : Db) → All (λ j. is_doomed (reconcile now db) j ≡ false) (reconcile now db).jobs
unfolding reconcile
reconcile-IsSettled now db =
    reconcile_loop-IsSettled (suc (length db.jobs)) now db
      (omega (arith, count_le_length waiting db.jobs))
