-- ===== src/Jobs/Enqueue.antt =====
-- Admission of jobs: validateSpec, Enqueue, enqueueTx and the reads by key, id and owner.
pub mod Repeated
pub mod Newest
use doublangu.Prelude.{
  ℕ, ◌+◌, String, Bool, true, false, ◌&&◌, ◌||◌, not, List, [], ◌∷◌, ◌++◌, Option, none, some, ℤ,
  pos, pos_part, ltb_ℤ, Result, ok, err, leb, ltb, ◌==◌, if◌then◌else◌, str_eq, is_blank, first,
  select, codes, length, exists_where,
}
use doublangu.Jobs.Types.{
  State, is_queued, is_active, Ulid, is_zero, State, queued, is_active, Job, Spec, Db, JobError,
  validation, not_found, storage, Times, Tx, with_transaction,
}

abbrev pub analysis_job_type : String
analysis_job_type = "reader.analysis.v2"

abbrev pub avspeech_job_type : String
avspeech_job_type = "tts.avspeech.v1"

abbrev pub chatterbox_job_type : String
chatterbox_job_type = "tts.chatterbox.v3"

abbrev pub llm_relay_job_type : String
llm_relay_job_type = "llm.relay.v1"

abbrev pub dictionary_job_type : String
dictionary_job_type = "reader.dictionary.v1"

abbrev pub sentence_translation_job_type : String
sentence_translation_job_type = "reader.sentence_translation.v1"

abbrev pub target_server : String
target_server = "server"

abbrev pub target_macos : String
target_macos = "macos"

unfoldable pub supported_job_type : String → Bool
supported_job_type t =
    str_eq t analysis_job_type
    || str_eq t avspeech_job_type
    || str_eq t chatterbox_job_type
    || str_eq t llm_relay_job_type
    || str_eq t dictionary_job_type
    || str_eq t sentence_translation_job_type

unfoldable pub supported_target : String → Bool
supported_target t = str_eq t target_server || str_eq t target_macos

-- The checks on the owner, the keys and the payload text.
unfoldable pub required_texts : Spec → Bool
required_texts spec = not (
    is_blank spec.owner_type
    || is_blank spec.owner_id
    || is_blank spec.idempotency_key
    || is_blank spec.input_hash
    || is_blank spec.payload_json)

-- max_attempts of 0 stands for 3.
unfoldable pub default_attempts : ℤ → ℤ
default_attempts n = elim n [ pos ℕ.zero ↦ pos 3 | other ↦ other ]

-- `json_valid` is json.Unmarshal into an empty interface: whether the text is JSON.
module _ (json_valid : String → Bool) where
  unfoldable pub validate_spec : Spec → Result JobError Spec
  unfolding supported_job_type supported_target required_texts default_attempts
  validate_spec spec =
      if not (supported_job_type spec.job_type)
      then err validation
      else if not (supported_target spec.execution_target)
      then err validation
      else if not (required_texts spec)
      then err validation
      else if not (json_valid spec.payload_json)
      then err validation
      else if ltb_ℤ spec.max_attempts (pos 0) || ltb_ℤ (pos 3) spec.max_attempts
      then err validation
      else ok (record spec { max_attempts = default_attempts spec.max_attempts })

abbrev pub has_id : Ulid → Job → Bool
has_id id j = j.id == id

abbrev pub has_key : String → Job → Bool
has_key key j = str_eq j.idempotency_key key

-- WHERE id = ?
unfoldable pub find_id : Ulid → List Job → Option Job
unfolding first
find_id id jobs = first (has_id id) jobs

-- WHERE idempotency_key = ?
unfoldable pub find_key : String → List Job → Option Job
unfolding first
find_key key jobs = first (has_key key) jobs

abbrev pub found : Option Job → Result JobError Job
found none = err not_found
found (some j) = ok j

-- Store.Get and Store.GetByIdempotencyKey
unfoldable pub get : Ulid → Db → Result JobError Job
unfolding find_id
get id db = found (find_id id db.jobs)

unfoldable pub get_by_idempotency_key : String → Db → Result JobError Job
unfolding find_key
get_by_idempotency_key key db = found (find_key key db.jobs)

-- The row that the INSERT of enqueueTx writes; `fresh` is library.NewULID().
unfoldable pub new_row : Spec → Ulid → Times → Job
unfolding default_attempts
new_row spec fresh t = record {
  id = if is_zero spec.id then fresh else spec.id;
  job_type = spec.job_type;
  execution_target = spec.execution_target;
  owner_type = spec.owner_type;
  owner_id = spec.owner_id;
  idempotency_key = spec.idempotency_key;
  input_hash = spec.input_hash;
  payload_json = spec.payload_json;
  state = queued;
  priority = spec.priority;
  attempt_count = 0;
  max_attempts = pos_part (default_attempts spec.max_attempts);
  available_at = elim spec.available_at [ none ↦ t.now | some at ↦ at ];
  lease_owner = "";
  lease_token_hash = "";
  lease_expires_at = none;
  progress_percent = 0;
  error_code = "";
  created_at = t.wall;
  updated_at = t.wall;
  started_at = none;
  completed_at = none;
  ailocals_result_sha256 = "";
}

-- ON CONFLICT(idempotency_key) DO NOTHING is tried first; a second row of one id is refused.
unfoldable pub insert_job : Job → Db → Result JobError Db
insert_job row db =
    if exists_where (has_key row.idempotency_key) db.jobs
    then ok db
    else if exists_where (has_id row.id) db.jobs
    then err storage
    else ok (record db { jobs = db.jobs ++ row ∷ [] })

abbrev pub reread : String → Result JobError Db → Result JobError (Job × Db)
reread key (err e) = err e
reread key (ok db) = elim (find_key key db.jobs) [ none ↦ err not_found | some j ↦ ok (j, db) ]

unfoldable pub enqueue_tx : Spec → Ulid → Times → Tx Job
unfolding new_row insert_job find_key
enqueue_tx spec fresh t db = reread spec.idempotency_key (insert_job (new_row spec fresh t) db)

abbrev pub enqueue_valid : Result JobError Spec → Ulid → Times → Db → Result JobError Job × Db
enqueue_valid (err e) fresh t db = (err e, db)
enqueue_valid (ok spec) fresh t db = with_transaction (enqueue_tx spec fresh t) db

unfoldable pub enqueue : (String → Bool) → Spec → Ulid → Times → Db → Result JobError Job × Db
unfolding validate_spec enqueue_tx
enqueue json_valid spec fresh t db = enqueue_valid (validate_spec json_valid spec) fresh t db

-- GetByIdempotencyKeyTx
unfoldable pub get_by_idempotency_key_tx : String → Db → Result JobError Job
unfolding is_blank find_key
get_by_idempotency_key_tx key db =
    if is_blank key then err validation else found (find_key key db.jobs)

abbrev pub is_unfinished : State → Bool
is_unfinished s = is_queued s || is_active s

-- ORDER BY created_at DESC, id DESC: whether `a` stands strictly before `b`
abbrev pub is_newer : Job → Job → Bool
is_newer a b = ltb b.created_at a.created_at || b.created_at == a.created_at && ltb b.id a.id

-- LIMIT 1
unfoldable pub newest : List Job → Option Job
newest [] = none
newest (j ∷ js) = elim (newest js) [
  | none ↦ some j
  | some k ↦ if is_newer j k then some j else some k
]

abbrev pub is_active_owner_job : String → String → String → Job → Bool
is_active_owner_job owner_type owner_id job_type j =
    str_eq j.owner_type owner_type
    && str_eq j.owner_id owner_id
    && str_eq j.job_type job_type
    && is_unfinished j.state

-- GetActiveOwnerJobTx
unfoldable pub get_active_owner_job_tx : String → String → String → Db → Result JobError Job
unfolding is_blank newest select
get_active_owner_job_tx owner_type owner_id job_type db =
    if is_blank owner_type || is_blank owner_id || is_blank job_type
    then err validation
    else found (newest (select (is_active_owner_job owner_type owner_id job_type) db.jobs))
