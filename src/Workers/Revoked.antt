-- ===== src/Workers/Revoked.antt =====
-- What a revocation leaves: no credential, and the jobs of the worker queued again.
use doublangu.Prelude.{
  ℕ, String, ◌≡◌, refl, inl, inr, Bool, true, false, ◌&&◌, not, List, [], ◌∷◌, Option, none, some,
  arith, Result, ok, err, ◌==◌, is_blank, first, select, update_where, Bool-cases, Option-cases,
  first_sound, All, subst,
}
use doublangu.Jobs.Types.{Ulid}
use doublangu.Jobs.Lease.{token_match}
use doublangu.Workers.{
  Worker, Tables, WorkerError, is_live, worker_is, scan_workers, admit, authenticate, stamp_revoked,
  requeue, is_leased_by, revoke, delete_revoked,
}

module _ (id : Ulid) (now : ℕ) where
  live_after_revocation :
      (ws : List Worker)
      → All
          (λ w. (w.id == id) ≡ false)
          (select is_live (update_where (λ w. w.id == id && is_live w) (stamp_revoked now) ws))
  unfolding select update_where
  live_after_revocation [] = tt
  live_after_revocation (w ∷ ws) = elim (Bool-cases (w.id == id)) [
    | inl e ↦ elim (Bool-cases (is_live w)) [
      | inl l ↦ ground (arith, e, l, live_after_revocation ws)
      | inr l ↦ ground (arith, e, l, live_after_revocation ws)
    ]
    | inr e ↦ elim (Bool-cases (is_live w)) [
      | inl l ↦ ground (arith, e, l, live_after_revocation ws)
      | inr l ↦ ground (arith, e, l, live_after_revocation ws)
    ]
  ]

option_value : {v w : Worker} → some v ≡ some w → v ≡ w
option_value e = cc e

module _ (hash_token : String → String) (decodes : Worker → Bool) where
  -- The loop returns one of the rows it read, or what it was given.
  scan_workers-All :
      (P : Worker → Type 0) (token : String) (ws : List Worker) (found : Option Worker) {w : Worker}
      → scan_workers hash_token decodes token found ws ≡ ok (some w)
      → ((v : Worker) → found ≡ some v → P v)
      → All P ws
      → P w
  unfolding scan_workers
  scan_workers-All P token [] found {w} e k h = k w (ground arith)
  scan_workers-All P token (x ∷ xs) found {w} e k h =
      elim (Bool-cases (token_match hash_token token x.token_hash)) [
        | inl m ↦ elim (Bool-cases (decodes x)) [
          | inl d ↦
              scan_workers-All P token xs (some x) {w = w} (ground (arith, e, m, d))
                (λ v q. subst P (option_value q) h.0) h.1
          | inr d ↦ absurd (ground (arith, e, m, d))
        ]
        | inr m ↦ scan_workers-All P token xs found {w = w} (ground (arith, e, m)) k h.1
      ]

  admit-All :
      (P : Ulid → Type 0) (later : ℕ) (db : Tables) (r : Result WorkerError (Option Worker))
      {w : Worker}
      → ((v : Worker) → r ≡ ok (some v) → P v.id)
      → (admit hash_token decodes later db r).0 ≡ ok w
      → P w.id
  admit-All P later db (err x) k e = absurd (ground arith)
  admit-All P later db (ok none) k e = absurd (ground arith)
  admit-All P later db (ok (some v)) {w} k e =
      let same : v.id ≡ w.id = ground arith in subst P same (k v refl)

  module _ (id_text : Ulid → String) where
    -- Once Revoke has been called for a worker, no token authenticates as it: whatever worker
    -- Authenticate answers with on the tables that Revoke left has another id.
    pub authenticate-revoke :
        (id : Ulid) (now later : ℕ) (token : String) (db : Tables) (w : Worker)
        → (authenticate hash_token decodes token later (revoke id_text id now db)).0 ≡ ok w
        → (w.id == id) ≡ false
    unfolding authenticate revoke
    authenticate-revoke id now later token db w e = elim (Bool-cases (is_blank token)) [
      | inl b ↦ absurd (ground (arith, b))
      | inr b ↦
          let rows = select is_live (revoke id_text id now db).workers in
          admit-All (λ n. (n == id) ≡ false) later (revoke id_text id now db)
            (scan_workers hash_token decodes token none rows) {w = w}
            (λ v q.
              scan_workers-All (λ x. (x.id == id) ≡ false) token rows none {w = v} q
                (λ x n. absurd (ground arith))
                (unfold revoke in live_after_revocation id now db.workers))
            (ground (arith, b))
    ]

abbrev revoked : Ulid → ℕ → List Worker → List Worker
revoked id now ws = update_where (λ w. w.id == id && is_live w) (stamp_revoked now) ws

module _ (id : Ulid) (now : ℕ) where
  revoked-All :
      (ws : List Worker) → All (λ w. (w.id == id) ≡ true → is_live w ≡ false) (revoked id now ws)
  unfolding update_where
  revoked-All [] = tt
  revoked-All (w ∷ ws) = elim (Bool-cases (is_live w)) [
    | inl l ↦ ground (arith, l, revoked-All ws)
    | inr l ↦ ground (arith, l, revoked-All ws)
  ]

  deleted :
      (ws : List Worker)
      → select (λ x. not (x.id == id && not (is_live x))) (revoked id now ws)
        ≡ select (λ w. not (w.id == id)) ws
  unfolding update_where select
  deleted [] = refl
  deleted (w ∷ ws) = elim (Bool-cases (w.id == id)) [
    | inl e ↦ elim (Bool-cases (is_live w)) [
      | inl l ↦ ground (arith, e, l, deleted ws)
      | inr l ↦ ground (arith, e, l, deleted ws)
    ]
    | inr e ↦ ground (arith, e, deleted ws)
  ]

  absent :
      (ws : List Worker)
      → first (worker_is id) (revoked id now ws) ≡ none
      → revoked id now ws ≡ select (λ w. not (w.id == id)) ws
  unfolding first update_where select
  absent [] h = refl
  absent (w ∷ ws) h = elim (Bool-cases (w.id == id)) [
    | inl e ↦ elim (Bool-cases (is_live w)) [
      | inl l ↦ absurd (ground (arith, e, l))
      | inr l ↦ absurd (ground (arith, e, l))
    ]
    | inr e ↦ ground (arith, e, absent ws)
  ]

-- Revoke and then DeleteRevoked succeed on every table: the worker's row is gone, every other
-- worker's row is untouched, and the jobs are as Revoke left them.
pub delete_revoked-revoke :
    (id_text : Ulid → String) (id : Ulid) (now : ℕ) (db : Tables)
    → delete_revoked id (revoke id_text id now db) ≡ (
      ok tt,
      record db {
        workers = select (λ w. not (w.id == id)) db.workers;
        jobs = update_where (is_leased_by (id_text id)) (requeue now) db.jobs;
      },
    )
unfolding revoke delete_revoked
delete_revoked-revoke id_text id now db =
    elim (Option-cases (first (worker_is id) (revoked id now db.workers))) [
      | inl e ↦ ground (arith, e, absent id now db.workers e)
      | inr (w, e) ↦
          let dead =
            first_sound (λ w. (w.id == id) ≡ true → is_live w ≡ false) (worker_is id)
              (revoked id now db.workers) {x = w} e (revoked-All id now db.workers) in
          let gone = dead.0 dead.1 in ground (arith, e, gone, deleted id now db.workers)
    ]
