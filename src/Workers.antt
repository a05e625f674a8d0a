-- ===== src/Workers.antt =====
-- The credentials of speech workers, internal/workers/service.go: Authenticate, Revoke and
-- DeleteRevoked, over the tables `speech_worker` and `speech_worker_enrollment` and the table `job`
-- of internal/jobs. Of a worker's row the columns of internal/llmrelay's presence are left out.
pub mod Capabilities
pub mod Enrollment
pub mod Revoked
pub mod Stranded
use doublangu.Prelude.{
  ℕ, String, Bool, true, false, ◌&&◌, not, List, [], ◌∷◌, Option, none, some, Result, ok, err, ◌==◌,
  if◌then◌else◌, str_eq, is_blank, first, select, update_where,
}
use doublangu.Jobs.Types.{Ulid, queued, is_active, Job}
use doublangu.Jobs.Lease.{token_match}

pub record Worker : Type 0 where
  pub id : Ulid
  pub token_hash : String
  -- the empty text is `none`
  pub revoked_at : Option ℕ
  pub last_seen_at : Option ℕ
  pub updated_at : ℕ
  pub name : String
  pub protocol_version : String
  pub capabilities_json : String
  pub software_version : String
  pub llm_relay_capabilities_json : String
  pub created_at : ℕ

-- A row of `speech_worker_enrollment`.
pub record Ticket : Type 0 where
  pub id : Ulid
  pub token_hash : String
  pub expires_at : ℕ
  -- the empty text is `none`
  pub used_at : Option ℕ

pub record Tables : Type 0 where
  pub tickets : List Ticket
  pub workers : List Worker
  pub jobs : List Job

-- `malformed` is an error of encoding/json.
pub data WorkerError : Type 0 where
  unauthorized malformed worker_active protocol unbounded storage : WorkerError

-- revoked_at = ''
abbrev pub is_live : Worker → Bool
is_live w = elim w.revoked_at [ none ↦ true | some at ↦ false ]

abbrev pub worker_is : Ulid → Worker → Bool
worker_is id w = w.id == id

-- `decodes` tells whether encoding/json accepts the two capability columns.
module _ (hash_token : String → String) (decodes : Worker → Bool) where
  -- The loop over the rows: each row that matches replaces the one found before.
  unfoldable pub scan_workers :
      String → Option Worker → List Worker → Result WorkerError (Option Worker)
  unfolding token_match
  scan_workers token found [] = ok found
  scan_workers token found (w ∷ ws) =
      if token_match hash_token token w.token_hash
      then elim (decodes w) [ true ↦ scan_workers token (some w) ws | false ↦ err malformed ]
      else scan_workers token found ws

  abbrev pub seen : ℕ → Worker → Worker
  seen now w = record w { last_seen_at = some now; updated_at = now }

  -- The end of Authenticate, on what the loop found.
  abbrev pub admit :
      ℕ → Tables → Result WorkerError (Option Worker) → Result WorkerError Worker × Tables
  admit now db (err e) = (err e, db)
  admit now db (ok none) = (err unauthorized, db)
  admit now db (ok (some w)) = (
    ok (seen now w),
    record db { workers = update_where (λ x. x.id == w.id && is_live x) (seen now) db.workers },
  )

  unfoldable pub authenticate : String → ℕ → Tables → Result WorkerError Worker × Tables
  unfolding is_blank select scan_workers update_where
  authenticate token now db =
      if is_blank token
      then (err unauthorized, db)
      else admit now db (scan_workers token none (select is_live db.workers))

abbrev pub stamp_revoked : ℕ → Worker → Worker
stamp_revoked now w = record w { revoked_at = some now; updated_at = now }

-- The second UPDATE of Revoke.
unfoldable pub requeue : ℕ → Job → Job
requeue now j = record j {
  state = queued;
  lease_owner = "";
  lease_token_hash = "";
  lease_expires_at = none;
  error_code = "v1.worker_revoked";
  updated_at = now;
}

-- lease_owner = ? AND state IN ('leased', 'running')
abbrev pub is_leased_by : String → Job → Bool
is_leased_by owner j = str_eq j.lease_owner owner && is_active j.state

-- `id_text` is ULID.String, under which a worker leases jobs.
module _ (id_text : Ulid → String) where
  unfoldable pub revoke : Ulid → ℕ → Tables → Tables
  unfolding update_where requeue
  revoke id now db = record db {
    workers = update_where (λ w. w.id == id && is_live w) (stamp_revoked now) db.workers;
    jobs = update_where (is_leased_by (id_text id)) (requeue now) db.jobs;
  }

unfoldable pub delete_revoked : Ulid → Tables → Result WorkerError (Unit {0}) × Tables
unfolding first select
delete_revoked id db = elim (first (worker_is id) db.workers) [
  | none ↦ (ok tt, db)
  | some w ↦ if is_live w then (err worker_active, db) else (
    ok tt,
    record db { workers = select (λ x. not (x.id == id && not (is_live x))) db.workers },
  )
]
