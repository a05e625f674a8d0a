-- ===== src/Examples/Access.antt =====
-- The theorems on sessions, capabilities and enrollment, at small tables.
use doublangu.Prelude.{
  exists_where, ℕ, ◌+◌, String, ◌≡◌, refl, true, false, ◌&&◌, not, List, [], ◌∷◌, none, some, ok,
  err, pos, str_eq,
}
use doublangu.Sessions.{Session, Instant, is_after, rotate, validate, cleanup_expired}
use doublangu.Sessions.Answers.{validate-cleanup_expired, validate-rotate}
use doublangu.Workers.{Worker, Tables, WorkerError}
use doublangu.Workers.Capabilities.{
  TagParser, Capability, capabilities_subset, validate_capabilities,
}
use doublangu.Workers.Enrollment.{EnrollInput, new_worker, enroll}
use doublangu.Workers.Enrollment.Once.{enroll-enroll}
use doublangu.Examples.Runs.{at_time}

abbrev instant : ℕ → Instant
instant n = record { millis = n; rest = 0 }

abbrev sessions : List Session
sessions =
    record { token = "a"; expires_at = 100; user_agent = "" }
    ∷ record { token = "b"; expires_at = 500; user_agent = "" }
    ∷ []

-- `a` has expired and `b` has not
validate-cleanup_expired_example :
    (validate "a" (instant 200) (cleanup_expired (instant 200) sessions).1).0
    ≡ (validate "a" (instant 200) sessions).0
unfolding exists_where
validate-cleanup_expired_example =
    validate-cleanup_expired "a" (instant 200) sessions (refl, (refl, tt))

abbrev rotated : List Session
rotated = (rotate "c" "b" 1_000 "ua" (instant 200) (instant 200) sessions).1

rotates : rotate "c" "b" 1_000 "ua" (instant 200) (instant 200) sessions ≡ (ok "c", rotated)
unfolding rotate
rotates = refl

validate-rotate_example :
    ((validate "b" (instant 90) rotated).0 ≡ false)
    × ((validate "c" (instant 90) rotated).0
        ≡ (not (str_eq "c" "") && not (is_after (instant 90) (200 + 1_000))))
    × ((validate "a" (instant 90) rotated).0 ≡ (validate "a" (instant 90) sessions).0)
validate-rotate_example =
    validate-rotate "c" "b" 1_000 "ua" (instant 200) (instant 200) sessions rotated "c" rotates "a"
      (instant 90) refl refl refl refl

abbrev speech : ℕ → List String → Capability
speech bytes languages = record {
  engine = "avspeech";
  languages = languages;
  unit_kinds = "word" ∷ [];
  max_bytes = pos bytes;
  max_duration_ms = pos 0;
}

asked_covered : capabilities_subset (speech 5 ("de" ∷ []) ∷ []) (speech 9 ("*" ∷ []) ∷ []) ≡ true
unfolding capabilities_subset
asked_covered = refl

wide_covered : capabilities_subset (speech 9 ("*" ∷ []) ∷ []) (speech 0 ("*" ∷ []) ∷ []) ≡ true
unfolding capabilities_subset
wide_covered = refl

-- Every tag is its own canonical form here.
abbrev tags : TagParser
tags = record { parse = λ s. some s; reparse = λ s. s }

offered_valid : validate_capabilities tags (speech 9 ("de" ∷ []) ∷ []) ≡ ok tt
unfolding validate_capabilities
offered_valid = refl

abbrev input : EnrollInput
input = record {
  name = " mac ";
  protocol_version = "speech-worker.v1";
  capabilities = speech 9 ("de" ∷ []) ∷ [];
  software_version = "1";
  llm_relay_capabilities = [];
}

abbrev before : Tables
before = record {
  tickets = record { id = 1; token_hash = "t"; expires_at = 100; used_at = none } ∷ [];
  workers = [];
  jobs = [];
}

abbrev after : Tables
after =
    (enroll (λ s. s) tags (λ _. "[...]") (λ _. "[...]") "t" 7 "secret" input (at_time 50) before).1

abbrev enrolled : Worker
enrolled = new_worker (λ s. s) tags (λ _. "[...]") (λ _. "[...]") 7 "secret" input 50

enrolls :
    enroll (λ s. s) tags (λ _. "[...]") (λ _. "[...]") "t" 7 "secret" input (at_time 50) before
    ≡ (ok enrolled, after)
unfolding enroll
enrolls = refl

enroll-enroll_example :
    (e : WorkerError) × (enroll
        (λ s. s)
        tags
        (λ _. "[...]")
        (λ _. "[...]")
        "t"
        8
        "other"
        input
        (at_time 60)
        after
      ≡ (err e, after))
enroll-enroll_example =
    enroll-enroll (λ s. s) tags (λ _. "[...]") (λ _. "[...]") "t" "secret" "other" 7 8 input input
      (at_time 50) (at_time 60) before after enrolled (tt, tt) enrolls
