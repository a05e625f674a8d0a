-- ===== src/Prelude/Lists.antt =====
-- Lists measured by native numbers, predicates on all elements, and the three shapes in which the
-- SQL statements of the program read a table: filter, first match, and update where.
use Prim.Native.Nat.{ℕ, suc, ◌+◌}
use mathlib.Core.Path.{◌≡◌, refl, ap}
use mathlib.Core.Logic.{inl, inr}
use mathlib.Core.Bool.{Bool, true, false, ◌&&◌}
use mathlib.Core.Option.{Option, none, some}
use mathlib.Core.List.{List, [], ◌∷◌, ◌++◌, Memᴰ}
use native.Mathlib.Omega.{arith}
use doublangu.Prelude.Tests.{if◌then◌else◌, Bool-cases}

abbrev pub All {ℓ κ} : {A : Type ℓ} → (A → Type κ) → List A → Type κ
All P [] = Unit
All P (x ∷ xs) = P x × All P xs

-- Every element is related to each that comes later.
abbrev pub Pairs {ℓ κ} : {A : Type ℓ} → (A → A → Type κ) → List A → Type κ
Pairs R [] = Unit
Pairs R (x ∷ xs) = All (R x) xs × Pairs R xs

module _ {ℓ} {A : Type ℓ} where
  abbrev pub length : List A → ℕ
  length [] = 0
  length (x ∷ xs) = suc (length xs)

  -- SELECT ... WHERE p
  unfoldable pub select : (A → Bool) → List A → List A
  select p [] = []
  select p (x ∷ xs) = if p x then x ∷ select p xs else select p xs

  -- the first row that a scan accepts
  unfoldable pub first : (A → Bool) → List A → Option A
  first p [] = none
  first p (x ∷ xs) = if p x then some x else first p xs

  -- UPDATE ... SET f WHERE p
  unfoldable pub update_where : (A → Bool) → (A → A) → List A → List A
  update_where p f [] = []
  update_where p f (x ∷ xs) = (if p x then f x else x) ∷ update_where p f xs

  -- the count of rows for which p holds: RowsAffected, COUNT(*)
  unfoldable pub count_where : (A → Bool) → List A → ℕ
  count_where p [] = 0
  count_where p (x ∷ xs) = (if p x then 1 else 0) + count_where p xs

  -- EXISTS (SELECT 1 ... WHERE p)
  unfoldable pub exists_where : (A → Bool) → List A → Bool
  exists_where p [] = false
  exists_where p (x ∷ xs) = if p x then true else exists_where p xs

  unfoldable pub all_where : (A → Bool) → List A → Bool
  all_where p [] = true
  all_where p (x ∷ xs) = p x && all_where p xs

  pub length-append : (xs ys : List A) → length (xs ++ ys) ≡ length xs + length ys
  length-append [] ys = omega arith
  length-append (x ∷ xs) ys = omega (arith, length-append xs ys)

  pub select-append : (p : A → Bool) (l m : List A) → select p (l ++ m) ≡ select p l ++ select p m
  unfolding select
  select-append p [] m = refl
  select-append p (x ∷ l) m = elim (Bool-cases (p x)) [
    | inl e ↦ rw e (ap (λ r. x ∷ r) (select-append p l m))
    | inr e ↦ rw e (select-append p l m)
  ]

  pub exists_where-Memᴰ :
      (p : A → Bool) (xs : List A) → exists_where p xs ≡ true → (x : A) × Memᴰ x xs × (p x ≡ true)
  unfolding exists_where
  exists_where-Memᴰ p [] h = absurd (ground arith)
  exists_where-Memᴰ p (x ∷ xs) h = elim (Bool-cases (p x)) [
    | inl e ↦ (x, Memᴰ.head refl, e)
    | inr e ↦ let (y, m, q) = exists_where-Memᴰ p xs (ground arith) in (y, Memᴰ.tail m, q)
  ]

  pub exists_where_none :
      (p : A → Bool) (xs : List A) → exists_where p xs ≡ false → All (λ x. p x ≡ false) xs
  unfolding exists_where
  exists_where_none p [] h = tt
  exists_where_none p (x ∷ xs) h = elim (Bool-cases (p x)) [
    | inl e ↦ absurd (ground arith)
    | inr e ↦ (e, exists_where_none p xs (ground arith))
  ]

module _ {ℓ κ} {A : Type ℓ} (P : A → Type κ) where
  pub All-mem : {x : A} {xs : List A} → Memᴰ x xs → All P xs → P x
  All-mem {x} (Memᴰ.head {x = y} e) h = elim_mem e h.0
    where
      elim_mem : {a b : A} → a ≡ b → P b → P a
      elim_mem e p = rw e p
  All-mem (Memᴰ.tail m) h = All-mem m h.1

  pub All-append : (xs ys : List A) → All P xs → All P ys → All P (xs ++ ys)
  All-append [] ys hx hy = hy
  All-append (x ∷ xs) ys hx hy = (hx.0, All-append xs ys hx.1 hy)

  pub All-select : (p : A → Bool) (xs : List A) → All P xs → All P (select p xs)
  unfolding select
  All-select p [] h = tt
  All-select p (x ∷ xs) h = elim (Bool-cases (p x)) [
    | inl e ↦ rw e (h.0, All-select p xs h.1)
    | inr e ↦ rw e (All-select p xs h.1)
  ]

  pub first_sound :
      (p : A → Bool) (xs : List A) {x : A} → first p xs ≡ some x → All P xs → P x × (p x ≡ true)
  unfolding first
  first_sound p [] e h = ground arith
  first_sound p (y ∷ xs) {x} e h = elim (Bool-cases (p y)) [
    | inl t ↦
        let q : some y ≡ some x = ground arith in
        let r : y ≡ x = ground arith in (rw (← r) h.0, rw (← r) t)
    | inr f ↦ first_sound p xs (ground arith) h.1
  ]

module _ {ℓ κ μ} {A : Type ℓ} (P : A → Type κ) (Q : A → Type μ) where
  pub All-both : (xs : List A) → All P xs → All Q xs → All (λ x. P x × Q x) xs
  All-both [] hp hq = tt
  All-both (x ∷ xs) hp hq = ((hp.0, hq.0), All-both xs hp.1 hq.1)

  pub All-mono : ((x : A) → P x → Q x) → (xs : List A) → All P xs → All Q xs
  All-mono f [] h = tt
  All-mono f (x ∷ xs) h = (f x h.0, All-mono f xs h.1)

  pub All-update_where :
      (p : A → Bool) (f : A → A)
      → ((x : A) → p x ≡ true → P x → Q (f x))
      → ((x : A) → p x ≡ false → P x → Q x)
      → (xs : List A) → All P xs
      → All Q (update_where p f xs)
  unfolding update_where
  All-update_where p f hit miss [] h = tt
  All-update_where p f hit miss (x ∷ xs) h = elim (Bool-cases (p x)) [
    | inl e ↦ (rw e (hit x e h.0), All-update_where p f hit miss xs h.1)
    | inr e ↦ (rw e (miss x e h.0), All-update_where p f hit miss xs h.1)
  ]
