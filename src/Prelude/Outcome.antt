-- ===== src/Prelude/Outcome.antt =====
-- Go's `(value, error)` pairs: a value or an error, never both.
use mathlib.Core.Path.{◌≡◌, refl}
use mathlib.Core.Bool.{Bool, true, false}
use native.Mathlib.Omega.{arith}

pub data Result {ℓ κ} (E : Type ℓ) (A : Type κ) : Type (ℓ ⊔ κ) where
  ok : A → Result E A
  err : E → Result E A

abbrev pub Checked : Type 0 → Type 0
Checked E = Result E (Unit {0})

infixl 10 ◌>>=◌
unfoldable pub ◌>>=◌ : {E A B : Type 0} → Result E A → (A → Result E B) → Result E B
ok a >>= f = f a
err e >>= f = err e

infixl 10 ◌>>◌
unfoldable pub ◌>>◌ : {E A B : Type 0} → Result E A → Result E B → Result E B
ok a >> s = s
err e >> s = err e

-- if b { return e }
abbrev pub refuse : {E : Type 0} → Bool → E → Checked E
refuse true e = err e
refuse false e = ok tt

-- What a chain of checks accepts passed each of them.
pub bind_ok :
    {E A B : Type 0} (r : Result E A) (f : A → Result E B) {b : B}
    → (r >>= f) ≡ ok b
    → (a : A) × (r ≡ ok a) × (f a ≡ ok b)
unfolding ◌>>=◌
bind_ok (ok a) f h = (a, refl, h)
bind_ok (err e) f h = absurd (ground arith)

pub then_ok :
    {E B : Type 0} (r : Checked E) (s : Result E B) {b : B}
    → (r >> s) ≡ ok b
    → (r ≡ ok tt) × (s ≡ ok b)
unfolding ◌>>◌
then_ok (ok tt) s h = (refl, h)
then_ok (err e) s h = absurd (ground arith)

pub refuse_ok : {E : Type 0} (b : Bool) (e : E) → refuse b e ≡ ok tt → b ≡ false
refuse_ok true e h = absurd (ground arith)
refuse_ok false e h = refl
