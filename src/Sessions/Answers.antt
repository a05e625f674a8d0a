-- ===== src/Sessions/Answers.antt =====
-- What Validate answers after the other operations.
use doublangu.Prelude.{
  ℕ, ◌+◌, String, ◌≡◌, refl, sym, subst, ap, ◌∙◌, inl, inr, Bool, true, false, ◌&&◌, not, List, [],
  ◌∷◌, Option, none, some, arith, ok, ltb, leb, str_eq, eq_iff, eq_refl, first, select,
  exists_where, Bool-cases, Option-cases,
}
use doublangu.Sessions.{
  Session, Instant, is_after, has_token, insert_session, remove_presented, rotate, validate,
  cleanup_expired,
}

-- the primary key
abbrev pub UniqueTokens : List Session → Type 0
UniqueTokens [] = Unit
UniqueTokens (s ∷ ss) = (exists_where (has_token s.token) ss ≡ false) × UniqueTokens ss

-- the answer to a token that is not empty, from the row that its query finds
abbrev accepts : Instant → Option Session → Bool
accepts t none = false
accepts t (some s) = not (is_after t s.expires_at)

validate_answer :
    (token : String) (t : Instant) (db : List Session)
    → (validate token t db).0 ≡ (not (str_eq token "") && accepts t (first (has_token token) db))
unfolding validate
validate_answer token t db = elim (Bool-cases (str_eq token "")) [
  | inl e ↦ rw e refl
  | inr e ↦ elim (Option-cases (first (has_token token) db)) [
    | inl f ↦ ground (arith, e, f)
    | inr (s, f) ↦ ground (arith, e, f)
  ]
]

absent_first :
    (token : String) (db : List Session)
    → exists_where (has_token token) db ≡ false
    → first (has_token token) db ≡ none
unfolding exists_where first
absent_first token [] h = refl
absent_first token (s ∷ ss) h = ground (arith, absent_first token ss)

select_absent :
    (token : String) (p : Session → Bool) (db : List Session)
    → exists_where (has_token token) db ≡ false
    → first (has_token token) (select p db) ≡ none
unfolding exists_where first select
select_absent token p [] h = refl
select_absent token p (s ∷ ss) h = ground (arith, select_absent token p ss)

cleanup-accepts :
    (token : String) (t : Instant) (db : List Session)
    → UniqueTokens db
    → accepts t (first (has_token token) (select (λ s. not (ltb s.expires_at t.millis)) db))
      ≡ accepts t (first (has_token token) db)
unfolding first select
cleanup-accepts token t [] u = refl
cleanup-accepts token t (s ∷ ss) u = elim (Bool-cases (has_token token s)) [
  | inl m ↦ elim (Bool-cases (ltb s.expires_at t.millis)) [
    | inl x ↦
        let same : s.token ≡ token = (eq_iff s.token token).0 m in
        let gone =
          select_absent token (λ s. not (ltb s.expires_at t.millis)) ss
            (subst (λ k. exists_where (has_token k) ss ≡ false) same u.0) in
        ground (arith, m, x, gone)
    | inr x ↦ ground (arith, m, x)
  ]
  | inr m ↦ ground (arith, m, cleanup-accepts token t ss u.1)
]

-- CleanupExpired is not seen by Validate: at the same reading of the clock every token has the same
-- answer before and after it. Tokens are different, as the primary key demands.
pub validate-cleanup_expired :
    (token : String) (t : Instant) (db : List Session)
    → UniqueTokens db
    → (validate token t (cleanup_expired t db).1).0 ≡ (validate token t db).0
unfolding cleanup_expired
validate-cleanup_expired token t db u =
    validate_answer token t (select (λ s. not (ltb s.expires_at t.millis)) db)
    ∙ ap (λ b. not (str_eq token "") && b) (cleanup-accepts token t db u)
    ∙ sym (validate_answer token t db)

deleted_first :
    (token : String) (db : List Session)
    → first (has_token token) (select (λ s. not (has_token token s)) db) ≡ none
unfolding first select
deleted_first token [] = refl
deleted_first token (s ∷ ss) = elim (Bool-cases (has_token token s)) [
  | inl m ↦ ground (arith, m, deleted_first token ss)
  | inr m ↦ ground (arith, m, deleted_first token ss)
]

-- A deletion of rows of another token changes no lookup.
other_first :
    (token : String) (p : Session → Bool) (db : List Session)
    → ((s : Session) → has_token token s ≡ true → p s ≡ true)
    → first (has_token token) (select p db) ≡ first (has_token token) db
unfolding first select
other_first token p [] k = refl
other_first token p (s ∷ ss) k = elim (Bool-cases (has_token token s)) [
  | inl m ↦ ground (arith, m, k s m)
  | inr m ↦ elim (Bool-cases (p s)) [
    | inl x ↦ ground (arith, m, x, other_first token p ss k)
    | inr x ↦ ground (arith, m, x, other_first token p ss k)
  ]
]

module _ (token presented : String) (max_age : ℕ) (user_agent : String) (expires_from now : Instant)
    (db db' : List Session) (drawn : String)
    (done : rotate token presented max_age user_agent expires_from now db ≡ (ok drawn, db')) where
  abbrev replacement : Session
  replacement = record {
    token = token;
    expires_at = expires_from.millis + max_age;
    user_agent = user_agent;
  }

  rotated : db' ≡ replacement ∷ remove_presented presented now.millis db
  unfolding rotate insert_session
  rotated =
      elim (Bool-cases
        (exists_where (has_token token) (remove_presented presented now.millis db))) [
          | inl e ↦ absurd (ground (arith, done, e))
          | inr e ↦ ground (arith, done, e)
        ]

  lookup_other :
      (other : String)
      → str_eq other token ≡ false
      → first (has_token other) db'
        ≡ first (has_token other) (remove_presented presented now.millis db)
  unfolding first
  lookup_other other n =
      let step : first (has_token other) (replacement ∷ remove_presented presented now.millis db)
          ≡ first (has_token other) (remove_presented presented now.millis db) =
        ground (arith, eq_iff token other, eq_iff other token) in
      ap (first (has_token other)) rotated ∙ step

  lookup_new : first (has_token token) db' ≡ some replacement
  unfolding first
  lookup_new =
      let step : first (has_token token) (replacement ∷ remove_presented presented now.millis db)
          ≡ some replacement =
        ground (arith, eq_refl token) in
      ap (first (has_token token)) rotated ∙ step

  removed_presented :
      str_eq presented "" ≡ false
      → first (has_token presented) (remove_presented presented now.millis db) ≡ none
  unfolding remove_presented
  removed_presented n = rw n (deleted_first presented _)

  kept_other :
      (other : String)
      → str_eq other presented ≡ false
      → first (has_token other) (remove_presented presented now.millis db)
        ≡ first (has_token other) db
  unfolding remove_presented
  kept_other other n = elim (Bool-cases (str_eq presented "")) [
    | inl e ↦ rw e refl
    | inr e ↦ rw e (
        other_first other (λ s. not (has_token presented s)) _ (apart other n)
        ∙ other_first other (λ s. not (has_token presented s && leb s.expires_at now.millis)) db
            (λ s m. let a = apart other n s m in ground (arith, a)))
  ]
    where
      apart :
          (other : String)
          → str_eq other presented ≡ false
          → (s : Session) → has_token other s ≡ true
          → not (has_token presented s) ≡ true
      apart other n s m =
          ground
            (arith, n, m, eq_iff s.token other, eq_iff s.token presented, eq_iff other presented)

  -- After an accepted Rotate the presented token is refused at every time, the new token is accepted
  -- until its expiry, and every other token has the answer it had before. The presented token is not
  -- empty, and the new one and the other token are different from it and from each other.
  pub validate-rotate :
      (other : String) (t : Instant)
      → str_eq presented "" ≡ false
      → str_eq presented token ≡ false
      → str_eq other presented ≡ false
      → str_eq other token ≡ false
      → ((validate presented t db').0 ≡ false)
        × ((validate token t db').0
            ≡ (not (str_eq token "") && not (is_after t (expires_from.millis + max_age))))
        × ((validate other t db').0 ≡ (validate other t db).0)
  validate-rotate other t n p q r = (
    validate_answer presented t db'
        ∙ ap (λ o. not (str_eq presented "") && accepts t o)
            (lookup_other presented p ∙ removed_presented n)
        ∙ (ground arith),
    validate_answer token t db' ∙ ap (λ o. not (str_eq token "") && accepts t o) lookup_new,
    validate_answer other t db'
        ∙ ap (λ o. not (str_eq other "") && accepts t o) (lookup_other other r ∙ kept_other other q)
        ∙ sym (validate_answer other t db),
  )
