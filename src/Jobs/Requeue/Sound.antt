-- ===== src/Jobs/Requeue/Sound.antt =====
-- A requeue keeps what holds of the rows, though it starts the attempts of a job anew.
use doublangu.Prelude.{
  ℕ, String, ◌≡◌, refl, Bool, true, false, ℤ, Result, ok, err, arith, All, All-update_where,
  update_where, ◌==◌,
}
use doublangu.Jobs.Types.{Ulid, Job, Spec, Db, JobError, Times, commit}
use doublangu.Jobs.Enqueue.{validate_spec}
use doublangu.Jobs.Requeue.{
  requeue_speech, is_spent, render_key, speech_spec, enqueue_checked, ensure_speech_job,
  requeue_analysis, reanalyze_job, is_finished,
}
use doublangu.Jobs.Dependencies.Graph.{Acyclic}
use doublangu.Jobs.Invariant.{IsWf}
use doublangu.Jobs.Invariant.Rules.{
  UniqueIds, KeepsId, UniqueIds-update_where, Evolves-refl, Inv, Ensures, Ensures-err,
}
use doublangu.Jobs.Invariant.Admission.{enqueue_tx-Inv, validate_spec-HasAttempts}

-- What Reach-Inv states of the tables.
abbrev pub Sound : Db → Type 0
Sound db = All IsWf db.jobs × UniqueIds db.jobs × Acyclic db.dependencies

Sound-Inv : (db : Db) → Sound db → Inv db db
Sound-Inv db s = record { rows = s.0; unique = s.1; acyclic = s.2; history = Evolves-refl db.jobs }

update-Sound :
    (p : Job → Bool) (f : Job → Job)
    → KeepsId f
    → ((j : Job) → IsWf j → IsWf (f j))
    → (db : Db) → Sound db
    → Sound (record db { jobs = update_where p f db.jobs })
update-Sound p f same keep db s = (
  All-update_where IsWf IsWf p f (λ j _ w. keep j w) (λ j _ w. w) db.jobs s.0,
  UniqueIds-update_where p f same db.jobs s.1,
  s.2,
)

requeue_speech-IsWf : (now : ℕ) (j : Job) → IsWf j → IsWf (requeue_speech now j)
unfolding requeue_speech
requeue_speech-IsWf now j w = ground arith

requeue_analysis-IsWf :
    (payload hash : String) (now : ℕ) (j : Job)
    → IsWf j
    → IsWf (requeue_analysis payload hash now j)
unfolding requeue_analysis
requeue_analysis-IsWf payload hash now j w = ground arith

id-requeue_speech : (now : ℕ) → KeepsId (requeue_speech now)
unfolding requeue_speech
id-requeue_speech now j = refl

id-requeue_analysis :
    (payload hash : String) (now : ℕ) → KeepsId (requeue_analysis payload hash now)
unfolding requeue_analysis
id-requeue_analysis payload hash now j = refl

enqueue_checked-Ensures :
    (origin : Db) (json_valid : String → Bool) (spec : Spec) (r : Result JobError Spec)
    (fresh : Ulid) (t : Times) (db : Db)
    → validate_spec json_valid spec ≡ r
    → Inv origin db
    → Ensures (Inv origin) (enqueue_checked r fresh t db)
enqueue_checked-Ensures origin json_valid spec (err e) fresh t db q h = Ensures-err e
enqueue_checked-Ensures origin json_valid spec (ok checked) fresh t db q h =
    enqueue_tx-Inv origin checked fresh t db (validate_spec-HasAttempts origin json_valid spec q) h

Inv-Sound : {origin db : Db} → Inv origin db → Sound db
Inv-Sound h = (h.rows, h.unique, h.acyclic)

commit-Sound :
    (before middle : Db) (r : Result JobError (Job × Db))
    → Sound before
    → Ensures (Inv middle) r
    → Sound (commit before r).1
commit-Sound before middle (err e) s h = s
commit-Sound before middle (ok (j, db)) s h = Inv-Sound h.holds

-- ensureSpeechJobTx, run in a transaction, keeps the tables sound: after it, as before, every row
-- is well formed, job ids are unique and no job waits for itself, whether it queues a finished job
-- again, inserts a new one, or is refused.
pub ensure_speech_job-Sound :
    (json_valid : String → Bool) (render_id request_hash render_state job_type payload : String)
    (priority : ℤ) (fresh : Ulid) (t : Times) (db : Db)
    → Sound db
    → Sound
        (commit db (
          ensure_speech_job json_valid render_id request_hash render_state job_type payload priority
            fresh t db)).1
unfolding ensure_speech_job
ensure_speech_job-Sound json_valid render_id request_hash render_state job_type payload priority
      fresh t db s =
    let middle = record db {
      jobs =
          update_where (is_spent (render_key request_hash) render_state) (requeue_speech t.now)
            db.jobs;
    } in
    let kept =
      update-Sound (is_spent (render_key request_hash) render_state) (requeue_speech t.now)
        (id-requeue_speech t.now) (requeue_speech-IsWf t.now) db s in
    let spec = speech_spec render_id request_hash job_type payload priority in
    commit-Sound db middle _ s (
      enqueue_checked-Ensures middle json_valid spec (validate_spec json_valid spec) fresh t middle
        refl (Sound-Inv middle kept))

-- The requeue of a reanalysis keeps the tables sound in the same sense, for every job that it finds.
pub reanalyze_job-Sound :
    (payload content_hash : String) (now : ℕ) (existing : Job) (db : Db)
    → Sound db
    → Sound (reanalyze_job payload content_hash now existing db)
unfolding reanalyze_job
reanalyze_job-Sound payload content_hash now existing db s =
    elim (is_finished existing)
      as (λ b. Sound (elim b [
        | true ↦ record db {
          jobs =
              update_where (λ j. j.id == existing.id) (requeue_analysis payload content_hash now)
                db.jobs;
        }
        | false ↦ db
      ])) [
        | true ↦
            update-Sound (λ j. j.id == existing.id) (requeue_analysis payload content_hash now)
              (id-requeue_analysis payload content_hash now)
              (requeue_analysis-IsWf payload content_hash now) db s
        | false ↦ s
      ]
