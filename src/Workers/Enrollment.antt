-- ===== src/Workers/Enrollment.antt =====
-- CreateEnrollment and Enroll of internal/workers/service.go.
pub mod Once
use doublangu.Prelude.{
  ℕ, ◌+◌, String, Bool, true, false, ◌&&◌, ◌||◌, not, List, [], ◌∷◌, ◌++◌, Option, none, some, ℤ,
  pos, ltb_ℤ, Result, ok, err, ltb, leb, ◌==◌, if◌then◌else◌, str_eq, is_blank, trim_space, codes,
  length, first, select, exists_where, update_where,
}
use doublangu.Jobs.Types.{Ulid, Times}
use doublangu.Jobs.Lease.{token_match}
use doublangu.Workers.{Worker, Ticket, Tables, WorkerError, unauthorized, protocol, storage}
use doublangu.Workers.Capabilities.{
  TagParser, Capability, protocol_version, max_worker_name, relay_capability_bytes,
  validate_capabilities,
}

-- 30 minutes
abbrev pub enrollment_lifetime : ℕ
enrollment_lifetime = 1_800_000

pub record Ticketed : Type 0 where
  pub id : Ulid
  pub token : String
  pub expires_at : ℕ

-- The limits of a relay entry stand for llmrelay.RelayCapability.
pub record EnrollInput : Type 0 where
  pub name : String
  pub protocol_version : String
  pub capabilities : List Capability
  pub software_version : String
  pub llm_relay_capabilities : List ℤ

-- used_at = ''
abbrev pub is_unused : Ticket → Bool
is_unused e = elim e.used_at [ none ↦ true | some at ↦ false ]

abbrev pub is_open : ℕ → Ticket → Bool
is_open now e = is_unused e && ltb now e.expires_at

abbrev pub mark_used : ℕ → Ticket → Ticket
mark_used now e = record e { used_at = some now }

abbrev pub equal_ℤ : ℤ → ℤ → Bool
equal_ℤ a b = not (ltb_ℤ a b) && not (ltb_ℤ b a)

unfoldable pub validate_relay : List ℤ → Result WorkerError (Unit {0})
validate_relay [] = ok tt
validate_relay (c ∷ []) = if equal_ℤ c relay_capability_bytes then ok tt else err protocol
validate_relay (c ∷ d ∷ cs) = err protocol

unfoldable pub validate_enroll_input : TagParser → EnrollInput → Result WorkerError (Unit {0})
unfolding is_blank validate_capabilities
validate_enroll_input tags input =
    if not (str_eq input.protocol_version protocol_version)
      || is_blank input.name
      || ltb max_worker_name (length (codes input.name))
    then err protocol
    else validate_capabilities tags input.capabilities

-- The encoders are json.Marshal.
module _ (hash_token : String → String) (tags : TagParser) (encode : List Capability → String)
    (encode_relay : List ℤ → String) where
  -- `token` is what randomSecret drew; the columns `id` and `token_hash` are unique.
  unfoldable pub create_enrollment :
      Ulid → String → ℕ → Tables → Result WorkerError Ticketed × Tables
  unfolding exists_where
  create_enrollment fresh token now db =
      if exists_where (λ e. e.id == fresh || str_eq e.token_hash (hash_token token)) db.tickets
      then (err storage, db)
      else (
        ok (record { id = fresh; token = token; expires_at = now + enrollment_lifetime }),
        record db {
          tickets =
              db.tickets
              ++ (record {
                id = fresh;
                token_hash = hash_token token;
                expires_at = now + enrollment_lifetime;
                used_at = none;
              }
                  ∷ []);
        },
      )

  -- Relay capabilities are written as '[]' where there is none.
  abbrev pub relay_text : List ℤ → String
  relay_text [] = "[]"
  relay_text (c ∷ cs) = encode_relay (c ∷ cs)

  unfoldable pub new_worker : Ulid → String → EnrollInput → ℕ → Worker
  unfolding trim_space
  new_worker fresh secret input at = record {
    id = fresh;
    token_hash = hash_token secret;
    revoked_at = none;
    last_seen_at = none;
    updated_at = at;
    name = trim_space input.name;
    protocol_version = input.protocol_version;
    capabilities_json = encode input.capabilities;
    software_version = trim_space input.software_version;
    llm_relay_capabilities_json = relay_text input.llm_relay_capabilities;
    created_at = at;
  }

  -- The transaction of Enroll, on the ticket that its loop found; `secret` is the worker's token.
  unfoldable pub enroll_found :
      Ulid → String → EnrollInput → Times → Tables → Ticket → Result WorkerError Worker × Tables
  unfolding new_worker exists_where update_where
  enroll_found fresh secret input t db e =
      if leb e.expires_at t.wall || not (is_unused e)
      then (err unauthorized, db)
      else if exists_where (λ w. w.id == fresh || str_eq w.token_hash (hash_token secret))
          db.workers
      then (err storage, db)
      else (
        ok (new_worker fresh secret input t.live),
        record db {
          workers = db.workers ++ (new_worker fresh secret input t.live ∷ []);
          tickets = update_where (λ x. x.id == e.id && is_unused x) (mark_used t.live) db.tickets;
        },
      )

  unfoldable pub enroll_tx :
      String → Ulid → String → EnrollInput → Times → Tables → Result WorkerError Worker × Tables
  unfolding first select token_match enroll_found
  enroll_tx token fresh secret input t db =
      elim (first (λ e. token_match hash_token token e.token_hash)
        (select (is_open t.now) db.tickets)) [
          | none ↦ (err unauthorized, db)
          | some e ↦ enroll_found fresh secret input t db e
        ]

  abbrev pub after_checks :
      Result WorkerError (Unit {0})
      → Result WorkerError (Unit {0})
      → Tables
      → Result WorkerError Worker × Tables
      → Result WorkerError Worker × Tables
  after_checks (err e) r db next = (err e, db)
  after_checks (ok _) (err e) db next = (err e, db)
  after_checks (ok _) (ok _) db next = next

  unfoldable pub enroll :
      String → Ulid → String → EnrollInput → Times → Tables → Result WorkerError Worker × Tables
  unfolding validate_enroll_input validate_relay is_blank enroll_tx
  enroll token fresh secret input t db =
      after_checks (validate_enroll_input tags input) (validate_relay input.llm_relay_capabilities)
        db
        (if is_blank token then (err unauthorized, db) else enroll_tx token fresh secret input t db)
