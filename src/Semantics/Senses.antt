-- ===== src/Semantics/Senses.antt =====
-- The checks of internal/semantics/types.go on what the provider proposes: the senses.
use doublangu.Prelude.{
  ℕ, ◌-◌, String, Bool, true, false, not, ◌&&◌, ◌||◌, Option, none, some, List, [], ◌∷◌, ltb, ◌==◌,
  if◌then◌else◌, codes, is_space, length, exists_where, Result, ok, err, Checked, ◌>>=◌, ◌>>◌,
  refuse,
}
use doublangu.Hashing.{Text, NewSense}
use doublangu.Semantics.Texts.{
  same_text, is_empty, take, drop, leading_run, trailing_run, is_blank_text, Unicode,
  NormalizeError, normalize_form,
}
use doublangu.Semantics.Errors.{ResponseError}

abbrev pub max_alternatives : ℕ
max_alternatives = 3

abbrev pub max_shadow_scalars : ℕ
max_shadow_scalars = 160

abbrev pub max_pronunciation_scalars : ℕ
max_pronunciation_scalars = 640

abbrev pub max_note_scalars : ℕ
max_note_scalars = 1000

abbrev pub is_text : Text → String → Bool
is_text s literal = same_text s (codes literal)

-- Kind.Valid
unfoldable pub kind_valid : Text → Bool
kind_valid k =
    is_text k "word"
    || is_text k "phrase"
    || is_text k "idiom"
    || is_text k "expression"
    || is_text k "proverb"

-- strings.TrimSpace
unfoldable pub trim_text : Text → Text
unfolding leading_run trailing_run is_space
trim_text s = let t = drop (leading_run is_space s) s in take (length t - trailing_run is_space t) t

-- An element of a map that is filled in the order of a list: the last one that fits.
unfoldable pub last_where {ℓ} : {A : Type ℓ} → (A → Bool) → List A → Option A
last_where p [] = none
last_where p (x ∷ xs) =
    let later = last_where p xs in
    elim later [ some y ↦ some y | none ↦ if p x then some x else none ]

abbrev pub normalized : {A : Type 0} → Result NormalizeError A → Result ResponseError A
normalized (ok s) = ok s
normalized (err e) = err (ResponseError.not_normalized e)

module _ (u : Unicode) where
  unfoldable pub safe_provider_text : Text → ℕ → Checked ResponseError
  unfolding exists_where
  safe_provider_text value max = do
    refuse (exists_where (λ r. r == b'<' || r == b'>') value) ResponseError.markup
    refuse (exists_where (λ r. u.is_control r && not (r == 10 || r == 13 || r == 9)) value)
        ResponseError.control_character
    refuse (ltb 0 max && ltb max (length value)) ResponseError.too_long

  -- One field of a sense. Go visits the fields in an order of its own, so that of several errors
  -- another one may be reported.
  unfoldable pub check_field : Bool → ℕ → Text → Checked ResponseError
  unfolding safe_provider_text is_blank_text
  check_field required max value = do
    refuse (required && is_blank_text value) ResponseError.empty_field
    safe_provider_text value max

  unfoldable pub check_fields : NewSense → Checked ResponseError
  unfolding check_field safe_provider_text is_blank_text
  check_fields s = do
    check_field true max_note_scalars s.canonical_form
    check_field true max_note_scalars s.normalized_form
    check_field true max_note_scalars s.sense_discriminator
    check_field true max_note_scalars s.primary_translation
    check_field false max_note_scalars s.literal_translation
    check_field false max_note_scalars s.meaning_note
    check_field false max_note_scalars s.usage_note
    check_field false max_note_scalars s.parts_note
    check_field false max_pronunciation_scalars s.canonical_pronunciation_text

  -- The loop over the alternatives: `seen` are the trimmed ones before.
  unfoldable pub check_alternatives : List Text → List Text → Checked ResponseError
  unfolding safe_provider_text trim_text exists_where
  check_alternatives seen [] = ok tt
  check_alternatives seen (alternative ∷ rest) = do
    safe_provider_text alternative max_note_scalars
    refuse (is_empty (trim_text alternative)) ResponseError.empty_alternative
    refuse (exists_where (same_text (trim_text alternative)) seen)
        ResponseError.duplicate_alternative
    check_alternatives (trim_text alternative ∷ seen) rest

  unfoldable pub validate_sense : NewSense → Checked ResponseError
  unfolding kind_valid check_fields check_alternatives normalize_form
  validate_sense s = do
    refuse (not (kind_valid s.kind)) ResponseError.invalid_kind
    check_fields s
    canonical ← normalized (normalize_form u s.canonical_form)
    supplied ← normalized (normalize_form u s.normalized_form)
    refuse (not (same_text supplied canonical)) ResponseError.form_differs
    refuse (ltb max_alternatives (length s.alternatives)) ResponseError.too_many_alternatives
    check_alternatives [] s.alternatives
