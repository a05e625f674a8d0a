-- ===== src/Jobs/Invariant/Bodies.antt =====
-- What holds of the tables after a transaction: one rule for each way to build its body.
use doublangu.Prelude.{◌≡◌, refl, Bool, true, false, Result, ok, err, if◌then◌else◌}
use doublangu.Jobs.Types.{Db, JobError, commit, ◌>>=◌}

abbrev EnsuresAt {κ} : {A : Type 0} → (Db → Type κ) → Result JobError (A × Db) → Type κ
EnsuresAt P (ok (a, db)) = P db
EnsuresAt P (err e) = Unit

-- What holds of the database that a body leaves, if it returns one.
pub record Ensures {κ} {A : Type 0} (P : Db → Type κ) (r : Result JobError (A × Db)) : Type κ where
  pub holds : EnsuresAt P r

module _ {κ} {A : Type 0} {P : Db → Type κ} where
  pub Ensures-ok : (a : A) {db : Db} → P db → Ensures P (ok (a, db))
  Ensures-ok a h = record { holds = h }

  pub Ensures-err : (e : JobError) → Ensures {A = A} P (err e)
  Ensures-err e = record { holds = tt }

  pub commit-keeps :
      (db : Db) (r : Result JobError (A × Db)) → P db → Ensures P r → P (commit db r).1
  commit-keeps db (ok (a, db')) h e = e.holds
  commit-keeps db (err e) h _ = h

  pub Ensures-if :
      (b : Bool) {m n : Result JobError (A × Db)}
      → (b ≡ true → Ensures P m)
      → (b ≡ false → Ensures P n)
      → Ensures P (if b then m else n)
  Ensures-if true hm hn = hm refl
  Ensures-if false hm hn = hn refl

  pub Ensures-bind :
      {B : Type 0} (m : Result JobError (B × Db)) (f : B × Db → Result JobError (A × Db))
      → ((x : B × Db) → m ≡ ok x → Ensures P (f x))
      → Ensures P (m >>= f)
  Ensures-bind (ok x) f k = k x refl
  Ensures-bind (err e) f k = Ensures-err e

  pub Ensures-then :
      {B : Type 0} (m : Result JobError (B × Db)) (f : B × Db → Result JobError (A × Db))
      → Ensures P m
      → ((x : B × Db) → P x.1 → Ensures P (f x))
      → Ensures P (m >>= f)
  Ensures-then (ok x) f h k = k x h.holds
  Ensures-then (err e) f h k = Ensures-err e

  -- `if b { return err }` before the rest
  pub Ensures-guard :
      (b : Bool) (e : JobError) {n : Result JobError (A × Db)}
      → (b ≡ false → Ensures P n)
      → Ensures P (if b then err e else n)
  Ensures-guard b e hn = Ensures-if b (λ _. Ensures-err e) hn

module _ {κ} {A : Type 0} (P : Db → Type κ) where
  -- an operation that refuses its arguments before it starts
  pub refuse-keeps :
      (b : Bool) (e : JobError) (db : Db) (m : Result JobError A × Db)
      → P db
      → P m.1
      → P (if b then (err e, db) else m).1
  refuse-keeps true e db m h k = h
  refuse-keeps false e db m h k = k

  -- the same before a transaction
  pub transaction-keeps :
      (b : Bool) (e : JobError) (db : Db) (r : Result JobError (A × Db))
      → P db
      → Ensures P r
      → P (if b then (err e, db) else commit db r).1
  transaction-keeps b e db r h k = refuse-keeps b e db (commit db r) h (commit-keeps db r h k)
