-- ===== src/Sessions.antt =====
-- The sessions of the owner: SessionStore of internal/auth/session.go over the table `session`,
-- whose primary key is the token.
pub mod Answers
use doublangu.Prelude.{
  ℕ, ◌+◌, String, Bool, true, false, ◌&&◌, ◌||◌, not, List, [], ◌∷◌, ◌++◌, Option, none, some,
  Result, ok, err, ltb, leb, ◌==◌, if◌then◌else◌, str_eq, length, first, select, count_where,
  exists_where,
}

pub record Session : Type 0 where
  pub token : String
  pub expires_at : ℕ
  pub user_agent : String

-- A reading of the clock: the milliseconds that its format keeps, and the nanoseconds that it
-- drops.
pub record Instant : Type 0 where
  pub millis : ℕ
  pub rest : ℕ

-- time.Now().UTC().After(expiry), where the expiry is in whole milliseconds
abbrev pub is_after : Instant → ℕ → Bool
is_after t expiry = ltb expiry t.millis || expiry == t.millis && ltb 0 t.rest

-- `storage` is the refusal of a second row of one token.
pub data SessionError : Type 0 where
  storage : SessionError

abbrev pub has_token : String → Session → Bool
has_token token s = str_eq s.token token

unfoldable pub insert_session : Session → List Session → Result SessionError (List Session)
unfolding exists_where
insert_session s db = if exists_where (has_token s.token) db then err storage else ok (s ∷ db)

abbrev pub answer :
    String
    → List Session
    → Result SessionError (List Session)
    → Result SessionError String × List Session
answer token db (err e) = (err e, db)
answer token db (ok db') = (ok token, db')

-- `token` is what generateToken drew, `max_age` is in milliseconds.
unfoldable pub create :
    String → ℕ → String → Instant → List Session → Result SessionError String × List Session
unfolding insert_session
create token max_age user_agent t db = answer token db (
    insert_session
      (record { token = token; expires_at = t.millis + max_age; user_agent = user_agent }) db)

-- The two DELETE statements of Rotate.
unfoldable pub remove_presented : String → ℕ → List Session → List Session
unfolding select
remove_presented presented now db =
    if not (str_eq presented "")
    then select (λ s. not (has_token presented s))
        (select (λ s. not (has_token presented s && leb s.expires_at now)) db)
    else db

-- The clock is read twice: `expires_from` for the expiry, `now` for the comparison.
unfoldable pub rotate :
    String
    → String
    → ℕ
    → String
    → Instant
    → Instant
    → List Session
    → Result SessionError String × List Session
unfolding insert_session remove_presented
rotate token presented max_age user_agent expires_from now db = answer token db (
    insert_session
      (record {
        token = token;
        expires_at = expires_from.millis + max_age;
        user_agent = user_agent;
      })
      (remove_presented presented now.millis db))

unfoldable pub delete : String → List Session → List Session
unfolding select
delete token db = select (λ s. not (has_token token s)) db

unfoldable pub validate : String → Instant → List Session → Bool × List Session
unfolding first delete
validate token t db = if str_eq token "" then (false, db) else elim (first (has_token token) db) [
  | none ↦ (false, db)
  | some s ↦ if is_after t s.expires_at then (false, delete token db) else (true, db)
]

abbrev pub delete_all : List Session → List Session
delete_all db = []

-- The answer is the number of rows that were deleted.
unfoldable pub cleanup_expired : Instant → List Session → ℕ × List Session
unfolding select count_where
cleanup_expired t db = (
  count_where (λ s. ltb s.expires_at t.millis) db,
  select (λ s. not (ltb s.expires_at t.millis)) db,
)
