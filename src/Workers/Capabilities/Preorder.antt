-- ===== src/Workers/Capabilities/Preorder.antt =====
-- Coverage of capabilities is a preorder, so that a request within a request that was covered is
-- covered.
use doublangu.Prelude.{
  String, ◌≡◌, refl, inl, inr, Bool, true, List, [], ◌∷◌, arith, ℤ, eq_iff, eq_refl, exists_where,
  all_where, Bool-cases, and-elim, and-intro, ok,
}
use doublangu.Workers.Capabilities.{
  TagParser, Capability, bounded_capacity, admits, list_subset, covers, capabilities_subset,
  valid_capability, validate_capabilities,
}

bounded_capacity_trans :
    (a b c : ℤ)
    → bounded_capacity a b ≡ true
    → bounded_capacity b c ≡ true
    → bounded_capacity a c ≡ true
unfolding bounded_capacity
bounded_capacity_trans a b c h k = ground arith

module _ {ℓ} {A : Type ℓ} where
  exists_where_mono :
      (p q : A → Bool)
      → ((x : A) → p x ≡ true → q x ≡ true)
      → (xs : List A) → exists_where p xs ≡ true
      → exists_where q xs ≡ true
  unfolding exists_where
  exists_where_mono p q f [] h = h
  exists_where_mono p q f (x ∷ xs) h = elim (Bool-cases (p x)) [
    | inl e ↦ ground (arith, f x e)
    | inr e ↦ ground (arith, e, exists_where_mono p q f xs)
  ]

  -- If every want is met in `ys` and each of `ys` in `zs`, every want is met in `zs`.
  module _ (r : A → A → Bool)
      (trans : (a b c : A) → r a b ≡ true → r b c ≡ true → r a c ≡ true) where
    met_trans :
        (w : A) (ys zs : List A)
        → exists_where (r w) ys ≡ true
        → all_where (λ y. exists_where (r y) zs) ys ≡ true
        → exists_where (r w) zs ≡ true
    unfolding exists_where all_where
    met_trans w [] zs h k = absurd (ground arith)
    met_trans w (y ∷ ys) zs h k = elim (Bool-cases (r w y)) [
      | inl e ↦ exists_where_mono (r y) (r w) (λ z. trans w y z e) zs (and-elim _ _ k).0
      | inr e ↦ met_trans w ys zs (ground (arith, e)) (and-elim _ _ k).1
    ]

    all_met_trans :
        (xs ys zs : List A)
        → all_where (λ x. exists_where (r x) ys) xs ≡ true
        → all_where (λ y. exists_where (r y) zs) ys ≡ true
        → all_where (λ x. exists_where (r x) zs) xs ≡ true
    unfolding all_where
    all_met_trans [] ys zs h k = refl
    all_met_trans (x ∷ xs) ys zs h k =
        let here = met_trans x ys zs (and-elim _ _ h).0 k in
        let later = all_met_trans xs ys zs (and-elim _ _ h).1 k in and-intro here later

  all_met_refl :
      (r : A → A → Bool) (good : A → Bool)
      → ((x : A) → good x ≡ true → r x x ≡ true)
      → (xs ys : List A) → all_where good xs ≡ true
      → ((x : A) → exists_where (r x) xs ≡ true → exists_where (r x) ys ≡ true)
      → all_where (λ x. exists_where (r x) ys) xs ≡ true
  unfolding all_where exists_where
  all_met_refl r good self [] ys h k = refl
  all_met_refl r good self (x ∷ xs) ys h k =
      let own = self x (and-elim _ _ h).0 in
      let here = k x (ground (arith, own)) in
      let later =
        all_met_refl r good self xs ys (and-elim _ _ h).1 (λ z m. k z (ground (arith, m))) in
      and-intro here later

  all_where-true : (xs : List A) → all_where (λ _. true) xs ≡ true
  unfolding all_where
  all_where-true [] = refl
  all_where-true (x ∷ xs) = all_where-true xs

admits_trans : (a b c : String) → admits a b ≡ true → admits b c ≡ true → admits a c ≡ true
admits_trans a b c h k =
    ground (arith, eq_iff b "*", eq_iff c "*", eq_iff b a, eq_iff c b, eq_iff c a)

list_subset_trans :
    (xs ys zs : List String)
    → list_subset xs ys ≡ true
    → list_subset ys zs ≡ true
    → list_subset xs zs ≡ true
unfolding list_subset
list_subset_trans xs ys zs h k = all_met_trans admits admits_trans xs ys zs h k

list_subset_refl : (xs : List String) → list_subset xs xs ≡ true
unfolding list_subset
list_subset_refl xs =
    all_met_refl admits (λ _. true) (λ x _. ground (arith, eq_refl x)) xs xs (all_where-true xs)
      (λ x m. m)

covers_trans : (a b c : Capability) → covers a b ≡ true → covers b c ≡ true → covers a c ≡ true
unfolding covers
covers_trans a b c h k = ground (
  arith,
  eq_iff b.engine a.engine,
  eq_iff c.engine b.engine,
  eq_iff c.engine a.engine,
  bounded_capacity_trans a.max_bytes b.max_bytes c.max_bytes,
  bounded_capacity_trans a.max_duration_ms b.max_duration_ms c.max_duration_ms,
  list_subset_trans a.languages b.languages c.languages,
  list_subset_trans a.unit_kinds b.unit_kinds c.unit_kinds,
)

-- Coverage of capabilities is transitive: what is covered by a list that an enrollment covers is
-- covered by the enrollment, with the wildcards and the limits of zero included.
pub capabilities_subset_trans :
    (xs ys zs : List Capability)
    → capabilities_subset xs ys ≡ true
    → capabilities_subset ys zs ≡ true
    → capabilities_subset xs zs ≡ true
unfolding capabilities_subset
capabilities_subset_trans xs ys zs h k = all_met_trans covers covers_trans xs ys zs h k

covers_self :
    (tags : TagParser) (c : Capability) → valid_capability tags c ≡ true → covers c c ≡ true
unfolding valid_capability covers bounded_capacity
covers_self tags c h =
    ground (arith, eq_refl c.engine, list_subset_refl c.languages, list_subset_refl c.unit_kinds)

-- A worker may ask for exactly what it enrolled: a list of capabilities that passes the checks of
-- the enrollment is covered by itself.
pub capabilities_subset_refl :
    (tags : TagParser) (cs : List Capability)
    → validate_capabilities tags cs ≡ ok tt
    → capabilities_subset cs cs ≡ true
unfolding capabilities_subset validate_capabilities
capabilities_subset_refl tags cs h =
    all_met_refl covers (valid_capability tags) (covers_self tags) cs cs (ground arith) (λ x m. m)
