-- ===== src/Examples/Requeue.antt =====
-- The theorems on requeues, at the tables of Runs.
use doublangu.Prelude.{ℕ, ◌≡◌, refl, pos, map, [], ◌∷◌, exists_where, is_blank}
use doublangu.Jobs.Types.{Db, State, queued, commit}
use doublangu.Jobs.Enqueue.{enqueue}
use doublangu.Jobs.Cancel.{cancel}
use doublangu.Jobs.Requeue.{ensure_speech_job}
use doublangu.Jobs.Requeue.Sound.{Sound, ensure_speech_job-Sound}
use doublangu.Jobs.Scheduler.{empty_db, enqueues, cancels, Reach, here, then}
use doublangu.Jobs.Scheduler.Reachable.{Reach-Inv}
use doublangu.Examples.Runs.{leaves, env, at_time, request}

-- a speech job that was canceled
abbrev queued_once : Db
queued_once = (enqueue env.json_valid (request 1 "speech.render:h") 9 (at_time 10) empty_db).1

abbrev canceled_once : Db
canceled_once = (cancel 1 "v1.x" 20 queued_once).1

canceled_once-Reach : Reach env empty_db canceled_once
canceled_once-Reach =
    then (then here (enqueues (request 1 "speech.render:h") 9 (at_time 10))) (cancels 1 "v1.x" 20)

abbrev ensured : Db
ensured =
    (commit canceled_once (
      ensure_speech_job env.json_valid "r" "h" "queued" "tts.avspeech.v1" "{}" (pos 0) 2
        (at_time 30) canceled_once)).1

-- It is queued again, and no second job is inserted.
ensured_states : map {B = ℕ × State} (λ j. (j.id, j.state)) ensured.jobs ≡ (1, queued) ∷ []
unfolding enqueue cancel ensure_speech_job is_blank exists_where
ensured_states = refl

ensure_speech_job-Sound_example : Sound ensured
ensure_speech_job-Sound_example =
    ensure_speech_job-Sound env.json_valid "r" "h" "queued" "tts.avspeech.v1" "{}" (pos 0) 2
      (at_time 30) canceled_once (Reach-Inv env leaves canceled_once-Reach)
