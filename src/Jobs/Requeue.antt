-- ===== src/Jobs/Requeue.antt =====
-- The two places outside internal/jobs that queue a finished job again: ensureSpeechJobTx of
-- internal/speech/store.go, and the reanalysis of an article in internal/reader/v2_store.go.
pub mod Sound
use doublangu.Prelude.{
  ℕ, String, Bool, true, false, ◌&&◌, ◌||◌, List, Option, none, some, ℤ, pos, Result, ok, err,
  str_eq, update_where, ◌==◌,
}
use Prim.Native.String.{◌++◌ as append}
use doublangu.Jobs.Types.{
  Ulid, queued, is_failed, is_canceled, is_succeeded, Job, Spec, Db, JobError, Times, Tx,
}
use doublangu.Jobs.Enqueue.{target_macos, validate_spec, enqueue_tx}

unfoldable pub requeue_speech : ℕ → Job → Job
requeue_speech now j = record j {
  state = queued;
  attempt_count = 0;
  error_code = "";
  available_at = now;
  lease_owner = "";
  lease_token_hash = "";
  lease_expires_at = none;
  completed_at = none;
  updated_at = now;
}

-- idempotency_key = ? AND (state IN ('canceled', 'failed') OR (state = 'succeeded' AND ? = 'queued'))
abbrev pub is_spent : String → String → Job → Bool
is_spent key render_state j =
    str_eq j.idempotency_key key
    && (is_canceled j.state
        || is_failed j.state
        || is_succeeded j.state && str_eq render_state "queued")

abbrev pub render_key : String → String
render_key request_hash = append "speech.render:" request_hash

-- `payload` is the encoded JobPayload.
abbrev pub speech_spec : String → String → String → String → ℤ → Spec
speech_spec render_id request_hash job_type payload priority = record {
  id = 0;
  job_type = job_type;
  execution_target = target_macos;
  owner_type = "audio_render";
  owner_id = render_id;
  idempotency_key = render_key request_hash;
  input_hash = request_hash;
  payload_json = payload;
  priority = priority;
  max_attempts = pos 0;
  available_at = none;
}

-- jobs.EnqueueTx
abbrev pub enqueue_checked : Result JobError Spec → Ulid → Times → Tx Job
enqueue_checked (err e) fresh t db = err e
enqueue_checked (ok spec) fresh t db = enqueue_tx spec fresh t db

module _ (json_valid : String → Bool) where
  unfoldable pub ensure_speech_job :
      String → String → String → String → String → ℤ → Ulid → Times → Tx Job
  unfolding requeue_speech update_where validate_spec enqueue_tx
  ensure_speech_job render_id request_hash render_state job_type payload priority fresh t db =
      enqueue_checked
        (validate_spec json_valid (speech_spec render_id request_hash job_type payload priority))
        fresh t
        (record db {
          jobs =
              update_where (is_spent (render_key request_hash) render_state) (requeue_speech t.now)
                db.jobs;
        })

-- The UPDATE of a reanalysis, on the job that its key found.
unfoldable pub requeue_analysis : String → String → ℕ → Job → Job
requeue_analysis payload content_hash now j = record j {
  state = queued;
  attempt_count = 0;
  available_at = now;
  lease_owner = "";
  lease_token_hash = "";
  lease_expires_at = none;
  progress_percent = 0;
  error_code = "";
  completed_at = none;
  payload_json = payload;
  input_hash = content_hash;
  updated_at = now;
}

abbrev pub is_finished : Job → Bool
is_finished j = is_failed j.state || is_canceled j.state || is_succeeded j.state

unfoldable pub reanalyze_job : String → String → ℕ → Job → Db → Db
unfolding requeue_analysis update_where
reanalyze_job payload content_hash now existing db = elim (is_finished existing) [
  | true ↦ record db {
    jobs =
        update_where (λ j. j.id == existing.id) (requeue_analysis payload content_hash now) db.jobs;
  }
  | false ↦ db
]
