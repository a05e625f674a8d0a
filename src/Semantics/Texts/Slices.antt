-- ===== src/Semantics/Texts/Slices.antt =====
-- Slices of a text, and the runs of spaces at its ends.
use doublangu.Prelude.{
  ℕ, zero, suc, ◌+◌, ◌-◌, ◌≤◌, ◌≡◌, refl, sym, subst, ap, ◌∙◌, Bool, true, ◌&&◌, List, [], ◌∷◌,
  ◌++◌, arith, ◌==◌, length, Bool-cases, inl, inr, is_space, and-intro, and-elim,
}
use doublangu.Hashing.{Text}
use doublangu.Semantics.Texts.{take, drop, slice, leading_run, trailing_run, is_blank_text}

suc_add : (m k : ℕ) → suc m + k ≡ suc (m + k)
suc_add m k = omega arith

module _ {A : Type 0} where
  take_nil : (n : ℕ) → take {A = A} n [] ≡ []
  take_nil zero = refl
  take_nil (suc n) = refl

  drop_nil : (n : ℕ) → drop {A = A} n [] ≡ []
  drop_nil zero = refl
  drop_nil (suc n) = refl

  pub take_add : (m k : ℕ) (s : List A) → take (m + k) s ≡ take m s ++ take k (drop m s)
  take_add zero k s = ap (λ n. take n s) (omega arith)
  take_add (suc m) k [] = take_nil (suc m + k) ∙ sym (take_nil k)
  take_add (suc m) k (c ∷ s) =
      ap (λ n. take n (c ∷ s)) (suc_add m k) ∙ ap (λ r. c ∷ r) (take_add m k s)

  pub drop_add : (m k : ℕ) (s : List A) → drop (m + k) s ≡ drop k (drop m s)
  drop_add zero k s = ap (λ n. drop n s) (omega arith)
  drop_add (suc m) k [] = drop_nil (suc m + k) ∙ sym (drop_nil k)
  drop_add (suc m) k (c ∷ s) = ap (λ n. drop n (c ∷ s)) (suc_add m k) ∙ drop_add m k s

  pub take-drop : (n : ℕ) (s : List A) → s ≡ take n s ++ drop n s
  take-drop zero s = refl
  take-drop (suc n) [] = refl
  take-drop (suc n) (c ∷ s) = ap (λ r. c ∷ r) (take-drop n s)

  pub length-take : (n : ℕ) (s : List A) → n ≤ length s → length (take n s) ≡ n
  length-take zero s h = refl
  length-take (suc n) [] h = absurd (omega arith)
  length-take (suc n) (c ∷ s) h = omega (arith, length-take n s (omega arith))

  pub length-drop : (n : ℕ) (s : List A) → length (drop n s) ≡ length s - n
  length-drop zero s = omega arith
  length-drop (suc n) [] = omega arith
  length-drop (suc n) (c ∷ s) = omega (arith, length-drop n s)

  pub length-slice : (s : List A) (a b : ℕ) → b ≤ length s → length (slice s a b) ≡ b - a
  length-slice s a b h = length-take (b - a) (drop a s) (omega (arith, length-drop a s))

  pub slice_join :
      (s : List A) (a b c : ℕ) → a ≤ b → b ≤ c → slice s a c ≡ slice s a b ++ slice s b c
  slice_join s a b c h k =
      let e : (b - a) + (c - b) ≡ c - a = omega arith in
      let f : a + (b - a) ≡ b = omega arith in
      sym (ap (λ n. take n (drop a s)) e)
      ∙ take_add (b - a) (c - b) (drop a s)
      ∙ ap (λ t. slice s a b ++ take (c - b) t) (sym (drop_add a (b - a) s) ∙ ap (λ n. drop n s) f)

  pub drop-slice : (s : List A) (a b : ℕ) → a ≤ b → drop a s ≡ slice s a b ++ drop b s
  drop-slice s a b h =
      let f : a + (b - a) ≡ b = omega arith in
      take-drop (b - a) (drop a s)
      ∙ ap (λ t. slice s a b ++ t) (sym (drop_add a (b - a) s) ∙ ap (λ n. drop n s) f)

  pub take-slice : (s : List A) (a b : ℕ) → a ≤ b → take b s ≡ take a s ++ slice s a b
  take-slice s a b h =
      let f : a + (b - a) ≡ b = omega arith in sym (ap (λ n. take n s) f) ∙ take_add a (b - a) s

  pub drop_all : (s : List A) → drop (length s) s ≡ []
  drop_all [] = refl
  drop_all (c ∷ s) = drop_all s

  pub leading_run_le : (p : A → Bool) (s : List A) → leading_run p s ≤ length s
  unfolding leading_run
  leading_run_le p [] = omega arith
  leading_run_le p (c ∷ s) = ground (arith, leading_run_le p s)

  pub trailing_run_le : (p : A → Bool) (s : List A) → trailing_run p s ≤ length s
  unfolding trailing_run
  trailing_run_le p [] = omega arith
  trailing_run_le p (c ∷ s) = ground (arith, trailing_run_le p s)

pub is_blank_text-append :
    (s t : Text) → is_blank_text s ≡ true → is_blank_text t ≡ true → is_blank_text (s ++ t) ≡ true
unfolding is_blank_text
is_blank_text-append [] t h k = k
is_blank_text-append (c ∷ s) t h k = ground (arith, is_blank_text-append s t)

-- The spaces that are trimmed at the start are blank, and so are those at the end.
pub leading_blank : (s : Text) → is_blank_text (take (leading_run is_space s) s) ≡ true
unfolding is_blank_text leading_run
leading_blank [] = refl
leading_blank (c ∷ s) = elim (Bool-cases (is_space c)) [
  | inl e ↦ rw e (ground (arith, leading_blank s))
  | inr e ↦ rw e refl
]

pub trailing_blank : (s : Text) → is_blank_text (drop (length s - trailing_run is_space s) s) ≡ true
unfolding is_blank_text trailing_run
trailing_blank [] = refl
trailing_blank (c ∷ s) = elim (Bool-cases ((trailing_run is_space s == length s) && is_space c)) [
  | inl e ↦
      let (p, q) = and-elim (trailing_run is_space s == length s) (is_space c) e in
      let z : length s - trailing_run is_space s ≡ 0 = ground arith in
      let w : suc (length s) - suc (trailing_run is_space s) ≡ 0 = ground arith in
      let ih : is_blank_text s ≡ true =
        subst (λ n. is_blank_text (drop n s) ≡ true) z (trailing_blank s) in
      rw (e, w) (and-intro q ih)
  | inr e ↦
      let w : suc (length s) - trailing_run is_space s ≡ suc (length s - trailing_run is_space s) =
        omega (arith, trailing_run_le is_space s) in
      rw (e, w) (trailing_blank s)
]
