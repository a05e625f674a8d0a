-- ===== src/Semantics/Dictionary/Apart.antt =====
-- Which lists of examples of a dictionary sense the loop of ValidateDictionary in
-- internal/semantics/dictionary.go accepts.
use doublangu.Prelude.{
  ℕ, ◌≡◌, refl, ◌↔◌, Bool, true, false, not, ◌&&◌, ◌||◌, List, [], ◌∷◌, ◌++◌, arith, ◌==◌,
  Bool-cases, inl, inr, exists_where, ok, err, Checked, ◌>>◌, then_ok, refuse_ok, All,
}
use doublangu.Hashing.{Text}
use doublangu.Hashing.Framing.{head_of, tail_of}
use doublangu.Semantics.Texts.{same_text, same_text_iff, Unicode}
use doublangu.Semantics.Senses.{safe_provider_text}
use doublangu.Semantics.Errors.{ResponseError}
use doublangu.Semantics.Dictionary.{
  DictionaryExample, safely, example_key, validate_dictionary_text, check_examples,
}

-- A text ends where the separator stands that it does not hold.
split_unique :
    (p : ℕ → Bool) (c : ℕ) (a b s t : Text)
    → p c ≡ true
    → exists_where p a ≡ false
    → exists_where p b ≡ false
    → a ++ c ∷ s ≡ b ++ c ∷ t
    → (a ≡ b) × (s ≡ t)
unfolding exists_where
split_unique p c [] [] s t h j k e = (refl, tail_of e)
split_unique p c [] (d ∷ b) s t h j k e = absurd (ground (arith, head_of e))
split_unique p c (d ∷ a) [] s t h j k e = absurd (ground (arith, head_of e))
split_unique p c (d ∷ a) (f ∷ b) s t h j k e =
    let (same, rest) = split_unique p c a b s t h (ground arith) (ground arith) (tail_of e) in
    (ground (arith, head_of e, same), rest)

abbrev pub IsAccepted : Unicode → DictionaryExample → Type 0
IsAccepted u e =
    (validate_dictionary_text u e.text_nl 240 true ≡ ok tt)
    × (validate_dictionary_text u e.translation_en 240 true ≡ ok tt)

abbrev pub IsRestated : DictionaryExample → DictionaryExample → Type 0
IsRestated e f = (e.text_nl ≡ f.text_nl) × (e.translation_en ≡ f.translation_en)

-- No example has the texts of another one.
abbrev pub IsApart : List DictionaryExample → Type 0
IsApart [] = Unit
IsApart (e ∷ rest) = All (λ f. ¬ (IsRestated f e)) rest × IsApart rest

abbrev Unseen : List Text → DictionaryExample → Type 0
Unseen seen e = exists_where (same_text (example_key e)) seen ≡ false

safely_ok : (r : Checked ResponseError) → safely r ≡ ok tt → r ≡ ok tt
safely_ok (ok tt) h = refl
safely_ok (err e) h = absurd (ground arith)

no_separator :
    (u : Unicode) (value : Text) (max : ℕ)
    → validate_dictionary_text u value max true ≡ ok tt
    → exists_where (λ r. u.is_control r && not (r == 10 || r == 13 || r == 9)) value ≡ false
unfolding validate_dictionary_text safe_provider_text
no_separator u value max h =
    let (safe, _) = then_ok _ _ h in
    let (_, rest) = then_ok _ _ (safely_ok _ safe) in
    let (clean, _) = then_ok _ _ rest in refuse_ok _ _ clean

module _ (u : Unicode) (separator : u.is_control 0x1f ≡ true) where
  key_unique :
      (e f : DictionaryExample)
      → IsAccepted u e
      → IsAccepted u f
      → example_key e ≡ example_key f
      → IsRestated e f
  unfolding example_key
  key_unique e f (a, _) (b, _) same =
      split_unique (λ r. u.is_control r && not (r == 10 || r == 13 || r == 9)) 0x1f e.text_nl
        f.text_nl e.translation_en f.translation_en (ground (arith, separator))
        (no_separator u e.text_nl 240 a) (no_separator u f.text_nl 240 b) same

  restated_key : (e f : DictionaryExample) → IsRestated e f → example_key e ≡ example_key f
  unfolding example_key
  restated_key e f (a, b) = rw (a, b) refl

  not_seen :
      (e f : DictionaryExample) (seen : List Text)
      → Unseen (example_key e ∷ seen) f
      → Unseen seen f × ¬ (IsRestated f e)
  unfolding exists_where
  not_seen e f seen h = (ground arith, λ r. ground (arith, matches r, h))
    where
      matches : IsRestated f e → same_text (example_key f) (example_key e) ≡ true
      matches r = (same_text_iff (example_key f) (example_key e)).1 (restated_key f e r)

  Unseen-cons :
      (e f : DictionaryExample) (seen : List Text)
      → IsAccepted u e
      → IsAccepted u f
      → Unseen seen f
      → ¬ (IsRestated f e)
      → Unseen (example_key e ∷ seen) f
  unfolding exists_where
  Unseen-cons e f seen a b h n = elim (Bool-cases (same_text (example_key f) (example_key e))) [
    | inl m ↦ absurd (n (key_unique f e b a ((same_text_iff (example_key f) (example_key e)).0 m)))
    | inr m ↦ ground (arith, m, h)
  ]

  all_not_seen :
      (e : DictionaryExample) (seen : List Text) (rest : List DictionaryExample)
      → All (Unseen (example_key e ∷ seen)) rest
      → All (Unseen seen) rest × All (λ f. ¬ (IsRestated f e)) rest
  all_not_seen e seen [] h = (tt, tt)
  all_not_seen e seen (f ∷ rest) (h, hs) =
      let (a, n) = not_seen e f seen h in
      let (xs, ns) = all_not_seen e seen rest hs in ((a, xs), (n, ns))

  All-Unseen-cons :
      (e : DictionaryExample) (seen : List Text) (rest : List DictionaryExample)
      → IsAccepted u e
      → All (IsAccepted u) rest
      → All (Unseen seen) rest
      → All (λ f. ¬ (IsRestated f e)) rest
      → All (Unseen (example_key e ∷ seen)) rest
  All-Unseen-cons e seen [] a bs hs ns = tt
  All-Unseen-cons e seen (f ∷ rest) a (b, bs) (h, hs) (n, ns) =
      (Unseen-cons e f seen a b h n, All-Unseen-cons e seen rest a bs hs ns)

  check_examples-IsApart :
      (seen : List Text) (examples : List DictionaryExample)
      → check_examples u seen examples ≡ ok tt
      → All (IsAccepted u) examples × All (Unseen seen) examples × IsApart examples
  unfolding check_examples
  check_examples-IsApart seen [] h = (tt, tt, tt)
  check_examples-IsApart seen (e ∷ rest) h =
      let (a, h1) = then_ok _ _ h in
      let (b, h2) = then_ok _ _ h1 in
      let (n, h3) = then_ok _ _ h2 in
      let (later, unseen, apart) = check_examples-IsApart (example_key e ∷ seen) rest h3 in
      let (earlier, different) = all_not_seen e seen rest unseen in
      (((a, b), later), (refuse_ok _ _ n, earlier), (different, apart))

  check_examples_of_apart :
      (seen : List Text) (examples : List DictionaryExample)
      → All (IsAccepted u) examples
      → All (Unseen seen) examples
      → IsApart examples
      → check_examples u seen examples ≡ ok tt
  unfolding check_examples ◌>>◌
  check_examples_of_apart seen [] xs us ds = refl
  check_examples_of_apart seen (e ∷ rest) ((a, b), xs) (n, ns) (d, ds) =
      rw (a, b, n)
        (check_examples_of_apart (example_key e ∷ seen) rest xs
          (All-Unseen-cons e seen rest (a, b) xs ns d) ds)

  none_seen : (examples : List DictionaryExample) → All (Unseen []) examples
  unfolding exists_where
  none_seen [] = tt
  none_seen (e ∷ rest) = (refl, none_seen rest)

  -- The loop over the examples of a sense accepts them exactly when both texts of each pass
  -- validateDictionaryText and no two have the same pair of texts, provided that the separator of
  -- the keys, U+001F, is a control character: no two different examples share a key.
  -- The texts are compared as they are, not by their normalized forms.
  pub check_examples_iff :
      (examples : List DictionaryExample)
      → (check_examples u [] examples ≡ ok tt) ↔ (All (IsAccepted u) examples × IsApart examples)
  check_examples_iff examples = (
    λ h. let (a, _, d) = check_examples-IsApart [] examples h in (a, d),
    λ (a, d). check_examples_of_apart [] examples a (none_seen examples) d,
  )
