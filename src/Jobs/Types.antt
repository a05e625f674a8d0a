-- ===== src/Jobs/Types.antt =====
-- The data of internal/jobs/jobs.go: a row of the table `job`, the table `job_dependency`, the
-- requests and answers of the scheduler, and its errors.
-- A ULID is the number that its 26 characters write: they all have one length and their order as
-- text is the order of the numbers; 0 is the zero ULID, which the empty text stands for too.
-- A time stamp is its count of milliseconds; the empty text that some columns hold is `none`.
use doublangu.Prelude.{ℕ, String, Bool, true, false, List, Option, ℤ, Result, ok, err, ◌==◌}

abbrev pub Ulid : Type 0
Ulid = ℕ

abbrev pub is_zero : Ulid → Bool
is_zero id = id == 0

-- the values that the CHECK of the column `state` admits
pub data State : Type 0 where
  queued leased running succeeded failed canceled : State

-- state IN ('leased', 'running')
abbrev pub is_active : State → Bool
is_active leased = true
is_active running = true
is_active _ = false

abbrev pub is_queued : State → Bool
is_queued queued = true
is_queued _ = false

abbrev pub is_succeeded : State → Bool
is_succeeded succeeded = true
is_succeeded _ = false

abbrev pub is_failed : State → Bool
is_failed failed = true
is_failed _ = false

abbrev pub is_canceled : State → Bool
is_canceled canceled = true
is_canceled _ = false

pub record Job : Type 0 where
  pub id : Ulid
  pub job_type : String
  pub execution_target : String
  pub owner_type : String
  pub owner_id : String
  pub idempotency_key : String
  pub input_hash : String
  pub payload_json : String
  pub state : State
  pub priority : ℤ
  pub attempt_count : ℕ
  pub max_attempts : ℕ
  pub available_at : ℕ
  pub lease_owner : String
  pub lease_token_hash : String
  pub lease_expires_at : Option ℕ
  pub progress_percent : ℕ
  pub error_code : String
  pub created_at : ℕ
  pub updated_at : ℕ
  pub started_at : Option ℕ
  pub completed_at : Option ℕ
  pub ailocals_result_sha256 : String

pub record Spec : Type 0 where
  pub id : Ulid
  pub job_type : String
  pub execution_target : String
  pub owner_type : String
  pub owner_id : String
  pub idempotency_key : String
  pub input_hash : String
  pub payload_json : String
  pub priority : ℤ
  pub max_attempts : ℤ
  pub available_at : Option ℕ

pub record Edge : Type 0 where
  pub job_id : Ulid
  pub dependency_job_id : Ulid

pub record Db : Type 0 where
  pub jobs : List Job
  pub dependencies : List Edge

pub record Lease : Type 0 where
  pub job : Job
  pub lease_token : String

pub record HeartbeatResult : Type 0 where
  pub cancel_requested : Bool
  pub job : Job

-- Validation errors carry no text here; `conflict` is the cycle found by the graph search, and
-- `storage` a uniqueness or CHECK failure that SQLite reports.
pub data JobError : Type 0 where
  validation not_found conflict no_work lease_lost lease_expired storage : JobError

-- What an operation reads of the clock: `now` is store.NowUTC() at its start, `wall` the later
-- time.Now() from which it computes expiries, `live` the time.Now() of jobLeaseLive.
pub record Times : Type 0 where
  pub now : ℕ
  pub wall : ℕ
  pub live : ℕ

-- A body that runs inside a transaction.
abbrev pub Tx : Type 0 → Type 0
Tx A = Db → Result JobError (A × Db)

-- store.DB.WithTransaction: an error rolls the database back.
abbrev pub commit {ℓ} : {A : Type ℓ} → Db → Result JobError (A × Db) → Result JobError A × Db
commit db (ok (a, db')) = (ok a, db')
commit db (err e) = (err e, db)

abbrev pub with_transaction : {A : Type 0} → Tx A → Db → Result JobError A × Db
with_transaction body db = commit db (body db)

-- The rest of a transaction's body, after a step that may fail.
infixl 5 ◌>>=◌
abbrev pub ◌>>=◌ :
    {A B : Type 0}
    → Result JobError (A × Db)
    → (A × Db → Result JobError (B × Db))
    → Result JobError (B × Db)
ok x >>= f = f x
err e >>= f = err e

-- The job that a terminal recovery callback is given: the fields that RecoverExpired fills.
pub record Recovered : Type 0 where
  pub id : Ulid
  pub job_type : String
  pub owner_type : String
  pub owner_id : String
  pub state : State
  pub attempt_count : ℕ
  pub max_attempts : ℕ
  pub error_code : String

-- TerminalJobRecovery; `none` where the store was made without one.
abbrev pub TerminalRecovery : Type 0
TerminalRecovery = Option (Recovered → Tx (Unit {0}))
