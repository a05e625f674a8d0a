-- ===== src/Semantics/Translation.antt =====
-- The translation stage of internal/semantics/stages.go: ValidateTranslation and
-- MergeLinguisticTranslation.
pub mod Merge
pub mod Merged
use doublangu.Prelude.{
  ℕ, Bool, true, false, not, ◌&&◌, ◌||◌, Option, none, some, List, [], ◌∷◌, ◌++◌, map,
  if◌then◌else◌, ltb, ◌==◌, length, first, exists_where, Result, ok, err, Checked, ◌>>=◌, ◌>>◌,
  refuse, codes,
}
use doublangu.Hashing.{Text, Token, SenseCandidate, NewSense, PreparedChunk}
use doublangu.Semantics.Texts.{
  same_text, is_empty, is_blank_text, Unicode, NormalizeError, normalize_form,
}
use doublangu.Semantics.Errors.{ResponseError}
use doublangu.Semantics.Senses.{
  max_alternatives, max_shadow_scalars, max_note_scalars, is_text, last_where, normalized,
  safe_provider_text, check_alternatives,
}
use doublangu.Semantics.Results.{
  TokenResult, candidate_of, translation_of, shadow_form, is_copy, text_of,
}
use doublangu.Semantics.Members.{Construction, token_of, join_words, validate_construction_subtitle}
use doublangu.Semantics.Response.{Response}
use doublangu.Semantics.Linguistic.{
  LinguisticTokenResult, LinguisticNewSense, ValidatedLinguisticConstruction, ValidatedLinguistic,
  with_shadow, is_label,
}

pub record TranslationTokenResult : Type 0 where
  pub token_id : Text
  pub shadow_text : Text

pub record TranslationNewSense : Type 0 where
  pub ref : Text
  pub primary_translation : Text
  pub alternatives : List Text
  pub literal_translation : Text

pub record TranslationConstruction : Type 0 where
  pub construction_id : Text
  pub shadow_text : Text

pub record TranslationArtifact : Type 0 where
  pub version : Text
  pub tokens : List TranslationTokenResult
  pub new_senses : List TranslationNewSense
  pub constructions : List TranslationConstruction

pub data TranslationError : Type 0 where
  unsupported_version no_linguistic : TranslationError
  token_coverage repeated_token unknown_token omitted_token : TranslationError
  sense_coverage repeated_ref unknown_ref omitted_ref : TranslationError
  construction_coverage repeated_id unknown_id omitted_id : TranslationError
  unchanged_differs no_shadow empty_translation too_many_alternatives : TranslationError
  rejected : ResponseError → TranslationError

abbrev rejected_or : {A : Type 0} → Result ResponseError A → Result TranslationError A
rejected_or (ok a) = ok a
rejected_or (err e) = err (TranslationError.rejected e)

-- The maps of the stage, by their keys; an entry that comes later replaces one before.
unfoldable pub linguistic_token_of :
    List LinguisticTokenResult → Text → Option LinguisticTokenResult
unfolding last_where
linguistic_token_of rs id = last_where (λ r. same_text r.token_id id) rs

unfoldable pub linguistic_ref_of : List LinguisticNewSense → Text → Option LinguisticNewSense
unfolding last_where
linguistic_ref_of ss ref = last_where (λ s. same_text s.ref ref) ss

unfoldable pub translated_token_of :
    List TranslationTokenResult → Text → Option TranslationTokenResult
unfolding last_where
translated_token_of rs id = last_where (λ r. same_text r.token_id id) rs

unfoldable pub translated_ref_of : List TranslationNewSense → Text → Option TranslationNewSense
unfolding last_where
translated_ref_of ss ref = last_where (λ s. same_text s.ref ref) ss

unfoldable pub translated_construction_of :
    List TranslationConstruction → Text → Option TranslationConstruction
unfolding last_where
translated_construction_of cs id = last_where (λ c. same_text c.construction_id id) cs

unfoldable pub prior_of : List NewSense → Text → Option NewSense
unfolding last_where
prior_of ss ref = last_where (λ s. not (is_empty s.ref) && same_text s.ref ref) ss

-- The loop's search for the construction of an identifier
unfoldable pub matched_construction :
    List ValidatedLinguisticConstruction → Text → Option ValidatedLinguisticConstruction
unfolding first
matched_construction cs id = first (λ c. same_text c.construction_id id) cs

abbrev source_of : Option Token → Text
source_of none = []
source_of (some t) = t.source_text

abbrev translated_or_prior : Option TranslationNewSense → Option NewSense → Text
translated_or_prior (some s) p = s.primary_translation
translated_or_prior none (some s) = s.primary_translation
translated_or_prior none none = []

abbrev new_or_prior_form : Option LinguisticNewSense → Option NewSense → Text
new_or_prior_form (some s) p = s.canonical_form
new_or_prior_form none (some s) = s.canonical_form
new_or_prior_form none none = []

module _ (chunk : PreparedChunk) (l : ValidatedLinguistic) (artifact : TranslationArtifact) where
  unfoldable pub stage_translation_of : Text → Text → Text
  unfolding candidate_of translated_ref_of prior_of
  stage_translation_of id ref =
      if not (is_empty id)
      then translation_of (candidate_of chunk.candidates id)
      else translated_or_prior (translated_ref_of artifact.new_senses ref)
          (prior_of chunk.prior_validated_senses ref)

  unfoldable pub canonical_of : Text → Text → Text
  unfolding candidate_of linguistic_ref_of prior_of
  canonical_of id ref = elim (if is_empty id then none else candidate_of chunk.candidates id) [
    | some c ↦ c.canonical_form
    | none ↦
        if is_empty ref
        then []
        else new_or_prior_form (linguistic_ref_of l.new_senses ref)
            (prior_of chunk.prior_validated_senses ref)
  ]

abbrev is_known_ref : Option LinguisticNewSense → Bool
is_known_ref none = false
is_known_ref (some s) = true

-- The form is not empty and differs from the normal form of the source.
abbrev differs : Text → Result NormalizeError Text → Bool
differs form (err e) = false
differs form (ok source) = not (is_empty form) && not (same_text form source)

module _ (u : Unicode) where
  unfoldable pub validate_translated_subtitle : Text → Text → Text → Text → Checked TranslationError
  unfolding shadow_form is_copy normalize_form
  validate_translated_subtitle classification source shadow translation = do
    form ← rejected_or (normalized (shadow_form u shadow))
    if is_text classification "unchanged"
        then refuse (differs form (normalize_form u source)) TranslationError.unchanged_differs
        else if is_label classification
        then ok tt
        else refuse (is_empty form) TranslationError.no_shadow
          >> refuse (is_copy u form (normalize_form u source) translation)
              (TranslationError.rejected ResponseError.copies_source)

  unfoldable pub validate_translated_sense : TranslationNewSense → Checked TranslationError
  unfolding is_blank_text safe_provider_text check_alternatives
  validate_translated_sense s = do
    refuse (is_blank_text s.primary_translation) TranslationError.empty_translation
    rejected_or (safe_provider_text u s.primary_translation max_note_scalars)
    rejected_or (safe_provider_text u s.literal_translation max_note_scalars)
    refuse (ltb max_alternatives (length s.alternatives)) TranslationError.too_many_alternatives
    rejected_or (check_alternatives u [] s.alternatives)

  module _ (chunk : PreparedChunk) (l : ValidatedLinguistic) (artifact : TranslationArtifact) where
    unfoldable pub check_known :
        Option LinguisticTokenResult → TranslationTokenResult → Checked TranslationError
    unfolding safe_provider_text validate_translated_subtitle token_of stage_translation_of
    check_known none r = err TranslationError.unknown_token
    check_known (some t) r = do
      rejected_or (safe_provider_text u r.shadow_text max_shadow_scalars)
      validate_translated_subtitle t.classification (source_of (token_of chunk.tokens r.token_id))
          r.shadow_text (stage_translation_of chunk l artifact t.semantic_sense_id t.new_sense_ref)

    unfoldable pub check_translated_tokens :
        List Text → List TranslationTokenResult → Checked TranslationError
    unfolding exists_where linguistic_token_of check_known
    check_translated_tokens seen [] = ok tt
    check_translated_tokens seen (r ∷ rs) = do
      refuse (exists_where (same_text r.token_id) seen) TranslationError.repeated_token
      check_known (linguistic_token_of l.tokens r.token_id) r
      check_translated_tokens (r.token_id ∷ seen) rs

    unfoldable pub check_translated_senses :
        List Text → List TranslationNewSense → Checked TranslationError
    unfolding exists_where linguistic_ref_of validate_translated_sense
    check_translated_senses seen [] = ok tt
    check_translated_senses seen (s ∷ ss) = do
      refuse (exists_where (same_text s.ref) seen) TranslationError.repeated_ref
      refuse (not (is_known_ref (linguistic_ref_of l.new_senses s.ref)))
          TranslationError.unknown_ref
      validate_translated_sense s
      check_translated_senses (s.ref ∷ seen) ss

    -- What the subtitle of the construction must not copy.
    unfoldable pub translation_forbids : ValidatedLinguisticConstruction → List Text
    unfolding canonical_of join_words
    translation_forbids c =
        canonical_of chunk l artifact c.construction.semantic_sense_id c.construction.new_sense_ref
        ∷ join_words (map (λ id. source_of (token_of chunk.tokens id)) c.construction.token_ids)
        ∷ map (λ s. s.source_text) c.spans

    unfoldable pub check_matched :
        Option ValidatedLinguisticConstruction → TranslationConstruction → Checked TranslationError
    unfolding is_blank_text safe_provider_text validate_construction_subtitle translation_forbids
    check_matched none t = err TranslationError.unknown_id
    check_matched (some c) t = do
      refuse (is_blank_text t.shadow_text) TranslationError.no_shadow
      rejected_or (safe_provider_text u t.shadow_text max_shadow_scalars)
      rejected_or (validate_construction_subtitle u t.shadow_text (translation_forbids c))

    unfoldable pub check_translated_constructions :
        List Text → List TranslationConstruction → Checked TranslationError
    unfolding exists_where matched_construction check_matched
    check_translated_constructions seen [] = ok tt
    check_translated_constructions seen (t ∷ ts) = do
      refuse (exists_where (same_text t.construction_id) seen) TranslationError.repeated_id
      check_matched (matched_construction l.constructions t.construction_id) t
      check_translated_constructions (t.construction_id ∷ seen) ts
