-- ===== src/Workers/Enrollment/Once.antt =====
-- An enrollment token serves once.
use doublangu.Prelude.{
  ℕ, String, ◌≡◌, refl, sym, subst, ap, ◌∙◌, inl, inr, Bool, true, false, ◌&&◌, List, [], ◌∷◌, none,
  some, arith, ℤ, Result, ok, err, ◌==◌, if◌then◌else◌, str_eq, eq_iff, is_blank, first,
  first_sound, select, update_where, Bool-cases, Option-cases, All, All-select,
}
use mathlib.Core.Bool.{false≢true}
use doublangu.Jobs.Types.{Ulid, Times}
use doublangu.Jobs.Lease.{token_match}
use doublangu.Workers.{Worker, Ticket, Tables, WorkerError, unauthorized}
use doublangu.Workers.Capabilities.{TagParser, Capability}
use doublangu.Workers.Enrollment.{
  EnrollInput, is_unused, is_open, mark_used, validate_relay, validate_enroll_input, enroll_found,
  enroll_tx, after_checks, enroll,
}

-- the UNIQUE of the column `token_hash`
abbrev pub UniqueHashes : List Ticket → Type 0
UniqueHashes [] = Unit
UniqueHashes (e ∷ es) = All (λ x. str_eq x.token_hash e.token_hash ≡ false) es × UniqueHashes es

module _ (hash_token : String → String) (token : String) where
  abbrev opens : Ticket → Bool
  opens e = token_match hash_token token e.token_hash

  abbrev use_ticket : Ulid → ℕ → List Ticket → List Ticket
  use_ticket id at es = update_where (λ x. x.id == id && is_unused x) (mark_used at) es

  -- At most one hash matches a token.
  others :
      (e : Ticket) (es : List Ticket)
      → opens e ≡ true
      → All (λ x. str_eq x.token_hash e.token_hash ≡ false) es
      → All (λ x. opens x ≡ false) es
  others e [] h k = tt
  others e (x ∷ xs) h k = (
    unfold token_match in
        ground (
          arith,
          eq_iff (hash_token token) e.token_hash,
          eq_iff (hash_token token) x.token_hash,
          eq_iff x.token_hash e.token_hash,
          k.0,
        ),
    others e xs h k.1,
  )

  none-opens :
      (id : Ulid) (at now : ℕ) (es : List Ticket)
      → All (λ x. opens x ≡ false) es
      → first opens (select (is_open now) (use_ticket id at es)) ≡ none
  unfolding first select update_where
  none-opens id at now [] h = refl
  none-opens id at now (x ∷ xs) h = ground (arith, h.0, none-opens id at now xs h.1)

  used_up :
      (at now later : ℕ) (es : List Ticket) (c : Ticket)
      → UniqueHashes es
      → first opens (select (is_open now) es) ≡ some c
      → first opens (select (is_open later) (use_ticket c.id at es)) ≡ none
  unfolding first select update_where
  used_up at now later [] c u h = refl
  used_up at now later (e ∷ es) c u h = elim (Bool-cases (opens e)) [
    | inl m ↦
        let rest = none-opens c.id at later es (others e es m u.0) in
        elim (Bool-cases (is_open now e)) [
          | inl o ↦
              let same : e ≡ c = ground (arith, m, o) in
              let id : e.id ≡ c.id = ap (λ (x : Ticket). x.id) same in
              ground (arith, m, o, rest, id)
          | inr o ↦
              let late =
                first_sound (λ x. opens x ≡ false) opens (select (is_open now) es) {x = c}
                  (ground (arith, m, o))
                  (All-select (λ x. opens x ≡ false) (is_open now) es (others e es m u.0)) in
              absurd (false≢true (sym late.0 ∙ late.1))
        ]
    | inr m ↦ ground (arith, m, used_up at now later es c u.1)
  ]

module _ (hash_token : String → String) (tags : TagParser) (encode : List Capability → String)
    (encode_relay : List ℤ → String) where
  -- A call of Enroll on tables in which no open ticket matches enrolls nobody.
  enroll-refused :
      (token secret : String) (fresh : Ulid) (input : EnrollInput) (t : Times) (db : Tables)
      → first (λ e. token_match hash_token token e.token_hash) (select (is_open t.now) db.tickets)
        ≡ none
      → (e : WorkerError) × (enroll hash_token tags encode encode_relay token fresh secret input t
            db
          ≡ (err e, db))
  unfolding enroll enroll_tx
  enroll-refused token secret fresh input t db h =
      checked (validate_enroll_input tags input) (validate_relay input.llm_relay_capabilities)
    where
      refused :
          (b : Bool)
          → (if b
              then (err unauthorized, db)
              else enroll_tx hash_token tags encode encode_relay token fresh secret input t db)
            ≡ (err unauthorized, db)
      refused true = refl
      refused false = unfold enroll_tx in rw (h, enroll_tx) refl

      checked :
          (r s : Result WorkerError (Unit {0}))
          → (e : WorkerError) × (after_checks hash_token tags encode encode_relay r s db (
                if is_blank token
                then (err unauthorized, db)
                else enroll_tx hash_token tags encode encode_relay token fresh secret input t db)
              ≡ (err e, db))
      checked (err e) s = (e, refl)
      checked (ok _) (err e) = (e, refl)
      checked (ok _) (ok _) = (unauthorized, refused (is_blank token))

  -- What an accepted call leaves of the tickets.
  enroll-accepted :
      (token secret : String) (fresh : Ulid) (input : EnrollInput) (t : Times) (db db' : Tables)
      (w : Worker)
      → enroll hash_token tags encode encode_relay token fresh secret input t db ≡ (ok w, db')
      → (c : Ticket) × (first
            (λ e. token_match hash_token token e.token_hash)
            (select (is_open t.now) db.tickets)
          ≡ some c)
        × (db'.tickets ≡ use_ticket hash_token token c.id t.live db.tickets)
  unfolding enroll enroll_tx enroll_found
  enroll-accepted token secret fresh input t db db' w h =
      elim (Option-cases (
        first (λ e. token_match hash_token token e.token_hash)
          (select (is_open t.now) db.tickets))) [
            | inl e ↦
                let (x, r) = enroll-refused token secret fresh input t db e in
                absurd (ground (arith, r))
            | inr (c, e) ↦ (c, e, ground (arith, e))
          ]

  -- An enrollment token serves once: after a call of Enroll that was accepted, every further call
  -- with the same token is refused and changes nothing, at any time and with any input, and no
  -- worker is added. The hashes of the enrollments are different, as their column demands.
  pub enroll-enroll :
      (token secret secret' : String) (fresh fresh' : Ulid) (input input' : EnrollInput)
      (t t' : Times) (db db' : Tables) (w : Worker)
      → UniqueHashes db.tickets
      → enroll hash_token tags encode encode_relay token fresh secret input t db ≡ (ok w, db')
      → (e : WorkerError) × (enroll hash_token tags encode encode_relay token fresh' secret' input'
            t' db'
          ≡ (err e, db'))
  enroll-enroll token secret secret' fresh fresh' input input' t t' db db' w u h =
      let (c, found, after) = enroll-accepted token secret fresh input t db db' w h in
      let spent = used_up hash_token token t.live t.now t'.now db.tickets c u found in
      enroll-refused token secret' fresh' input' t' db' (
        subst
          (λ es.
            first (λ e. token_match hash_token token e.token_hash) (select (is_open t'.now) es)
            ≡ none)
          (sym after) spent)
