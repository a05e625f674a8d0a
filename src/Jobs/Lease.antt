-- ===== src/Jobs/Lease.antt =====
-- What the holder of a lease does: VerifyLease, Heartbeat, Complete and Fail.
use doublangu.Prelude.{
  ℕ, ◌+◌, ◌-◌, zero, suc, String, Bool, true, false, ◌&&◌, ◌||◌, not, List, [], ◌∷◌, none, some, ℤ,
  pos, ltb_ℤ, pos_part, Result, ok, err, ltb, leb, ◌==◌, if◌then◌else◌, str_eq, is_blank, codes,
  length, update_where,
}
use doublangu.Jobs.Types.{
  Ulid, is_zero, running, is_active, is_queued, is_succeeded, is_failed, is_canceled, Job, Db,
  HeartbeatResult, JobError, validation, not_found, lease_lost, lease_expired, Times, Tx,
  with_transaction,
}
use doublangu.Jobs.Enqueue.{find_id, get}
use doublangu.Jobs.Claim.{lease_duration}

-- 5 seconds, 30 seconds, 2 minutes
abbrev pub retry_backoff : ℕ → ℕ
retry_backoff zero = 5_000
retry_backoff (suc zero) = 30_000
retry_backoff (suc (suc n)) = 120_000

abbrev pub retry_backoff_length : ℕ
retry_backoff_length = 3

unfoldable pub backoff_for_attempt : ℕ → ℕ
backoff_for_attempt attempt =
    if attempt == 0
    then retry_backoff 0
    else if ltb retry_backoff_length attempt
    then retry_backoff (retry_backoff_length - 1)
    else retry_backoff (attempt - 1)

unfoldable pub job_lease_live : ℕ → Job → Bool
job_lease_live now j = elim j.lease_expires_at [ none ↦ false | some at ↦ ltb now at ]

abbrev pub is_code_char : ℕ → Bool
is_code_char c =
    c == b'.' || c == b'_' || c == b'-' || leb b'a' c && leb c b'z' || leb b'0' c && leb c b'9'

unfoldable pub all_code_chars : List ℕ → Bool
all_code_chars [] = true
all_code_chars (c ∷ s) = is_code_char c && all_code_chars s

abbrev pub has_v1_prefix : List ℕ → Bool
has_v1_prefix (a ∷ b ∷ c ∷ _) = a == b'v' && b == b'1' && c == b'.'
has_v1_prefix _ = false

-- Every accepted text is ASCII, so its code points are its bytes.
unfoldable pub valid_error_code : String → Bool
unfolding all_code_chars
valid_error_code code =
    let text = codes code in
    not (length text == 0) && leb (length text) 120 && has_v1_prefix text && all_code_chars text

unfoldable pub beat : Times → ℕ → Job → Job
beat t progress j = record j {
  state = running;
  lease_expires_at = some (t.wall + lease_duration);
  progress_percent = progress;
  updated_at = t.now;
}

abbrev pub beat_answer : Ulid → Db → Result JobError (HeartbeatResult × Db)
beat_answer id db = elim (find_id id db.jobs) [
  | none ↦ err not_found
  | some j ↦ ok (record { cancel_requested = false; job = j }, db)
]

module _ (hash_token : String → String) where
  unfoldable pub token_match : String → String → Bool
  token_match token expected =
      not (str_eq token "") && not (str_eq expected "") && str_eq (hash_token token) expected

  -- job.AttemptCount == attempt && constantTokenMatch(token, job.leaseTokenHash)
  unfoldable pub holds_attempt : ℕ → String → Job → Bool
  unfolding token_match
  holds_attempt attempt token j = j.attempt_count == attempt && token_match token j.lease_token_hash

  -- The tests of VerifyLease on the row that it found.
  unfoldable pub verify_row : ℕ → String → String → ℕ → Job → Result JobError Job
  unfolding holds_attempt job_lease_live
  verify_row attempt token owner live j =
      if not (holds_attempt attempt token j)
      then err lease_lost
      else if not (is_active j.state)
      then (if is_succeeded j.state
            || str_eq j.lease_owner owner
              && (is_canceled j.state || is_failed j.state || is_queued j.state)
          then ok j
          else err lease_lost)
      else if not (str_eq j.lease_owner owner)
      then err lease_lost
      else if not (job_lease_live live j)
      then err lease_expired
      else ok j

  unfoldable pub verify_lease : Ulid → ℕ → String → String → ℕ → Db → Result JobError Job
  unfolding get verify_row
  verify_lease id attempt token owner live db =
      if is_zero id || attempt == 0 || str_eq token "" || is_blank owner
      then err lease_lost
      else elim (get id db) [ err e ↦ err e | ok j ↦ verify_row attempt token owner live j ]

  -- WHERE id = ? AND attempt_count = ? AND lease_token_hash = ? AND state IN ('leased', 'running')
  abbrev pub is_held : Ulid → ℕ → String → Job → Bool
  is_held id attempt token j =
      j.id == id
      && j.attempt_count == attempt
      && str_eq j.lease_token_hash (hash_token token)
      && is_active j.state

  unfoldable pub update_held : Ulid → ℕ → String → (Job → Job) → Db → Db
  unfolding update_where
  update_held id attempt token set db = record db {
    jobs = update_where (is_held id attempt token) set db.jobs;
  }

  unfoldable pub heartbeat_row :
      Ulid → ℕ → String → ℕ → Times → Db → Job → Result JobError (HeartbeatResult × Db)
  unfolding holds_attempt job_lease_live update_held beat find_id
  heartbeat_row id attempt token progress t db j =
      if not (holds_attempt attempt token j)
      then err lease_lost
      else if is_succeeded j.state
      then ok (record { cancel_requested = false; job = j }, db)
      else if is_canceled j.state || is_failed j.state
      then ok (record { cancel_requested = true; job = j }, db)
      else if not (is_active j.state)
      then err lease_lost
      else if not (job_lease_live t.live j)
      then err lease_expired
      else beat_answer id (update_held id attempt token (beat t progress) db)

  unfoldable pub heartbeat_tx : Ulid → ℕ → String → ℕ → Times → Tx HeartbeatResult
  unfolding heartbeat_row
  heartbeat_tx id attempt token progress t db = elim (find_id id db.jobs) [
    | none ↦ err not_found
    | some j ↦ heartbeat_row id attempt token progress t db j
  ]

  unfoldable pub heartbeat :
      Ulid → ℕ → String → ℤ → Times → Db → Result JobError HeartbeatResult × Db
  unfolding heartbeat_tx
  heartbeat id attempt token progress t db =
      if ltb_ℤ progress (pos 0) || ltb_ℤ (pos 100) progress || str_eq token ""
      then (err validation, db)
      else with_transaction (heartbeat_tx id attempt token (pos_part progress) t) db
