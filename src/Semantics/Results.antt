-- ===== src/Semantics/Results.antt =====
-- validateSenseReference and validateTokenResult of internal/semantics/types.go.
use doublangu.Prelude.{
  Bool, false, not, ◌&&◌, ◌||◌, Option, none, some, List, [], if◌then◌else◌, first, Result, ok, err,
  Checked, ◌>>=◌, ◌>>◌, refuse, ℤ, pos, ltb_ℤ,
}
use doublangu.Hashing.{Text, Token, SenseCandidate, NewSense}
use doublangu.Semantics.Texts.{
  same_text, is_empty, is_blank_text, Unicode, NormalizeError, normalize_form,
}
use doublangu.Semantics.Errors.{ResponseError}
use doublangu.Semantics.Senses.{
  max_shadow_scalars, max_pronunciation_scalars, max_note_scalars, is_text, kind_valid, last_where,
  normalized, safe_provider_text,
}

-- validateSenseReference, with the maps of the candidates and of the new senses as their lists.
unfoldable pub candidate_of : List SenseCandidate → Text → Option SenseCandidate
unfolding last_where
candidate_of candidates id = last_where (λ c. not (is_empty c.id) && same_text c.id id) candidates

unfoldable pub sense_of : List NewSense → Text → Option NewSense
unfolding first
sense_of senses ref = first (λ s. same_text s.ref ref) senses

unfoldable pub check_candidate : Option SenseCandidate → Text → Text → Text → Checked ResponseError
check_candidate none kind source target = err ResponseError.unknown_candidate
check_candidate (some c) kind source target = do
  refuse (not (same_text c.kind kind)) ResponseError.candidate_kind
  refuse (not (same_text c.source_language source) || not (same_text c.target_language target))
      ResponseError.candidate_language

unfoldable pub check_new_sense : Option NewSense → Text → Checked ResponseError
check_new_sense none kind = err ResponseError.undefined_ref
check_new_sense (some s) kind = refuse (not (same_text s.kind kind)) ResponseError.ref_kind

unfoldable pub validate_sense_reference :
    Text → Text → Text → Text → Text → List SenseCandidate → List NewSense → Checked ResponseError
unfolding check_candidate check_new_sense candidate_of sense_of
validate_sense_reference id ref kind source target candidates senses =
    if is_empty id && is_empty ref
    then ok tt
    else if not (is_empty id)
    then check_candidate (candidate_of candidates id) kind source target
    else check_new_sense (sense_of senses ref) kind

pub record TokenResult : Type 0 where
  pub token_id : Text
  pub classification : Text
  pub kind : Text
  pub semantic_sense_id : Text
  pub new_sense_ref : Text
  pub shadow_text : Text
  pub canonical_pronunciation : Text
  pub context_pronunciation_key : Text
  pub confidence_milli : ℤ

abbrev pub out_of_range : ℤ → Bool
out_of_range n = ltb_ℤ n (pos 0) || ltb_ℤ (pos 1000) n

abbrev pub translation_of : Option SenseCandidate → Text
translation_of none = []
translation_of (some c) = c.primary_translation

abbrev new_translation_of : Option NewSense → Text
new_translation_of none = []
new_translation_of (some s) = s.primary_translation

unfoldable pub sense_translation : TokenResult → List SenseCandidate → List NewSense → Text
unfolding candidate_of sense_of
sense_translation r candidates senses =
    if not (is_empty r.semantic_sense_id)
    then translation_of (candidate_of candidates r.semantic_sense_id)
    else if not (is_empty r.new_sense_ref)
    then new_translation_of (sense_of senses r.new_sense_ref)
    else []

abbrev pub is_special : TokenResult → Bool
is_special r =
    is_text r.classification "proper_name"
    || is_text r.classification "number"
    || is_text r.classification "acronym"

abbrev pub text_of : Result NormalizeError Text → Text
text_of (ok s) = s
text_of (err e) = []

abbrev pub equals_normalized : Text → Result NormalizeError Text → Bool
equals_normalized s (ok t) = same_text s t
equals_normalized s (err e) = false

module _ (u : Unicode) where
  -- sameSpellingSense
  unfoldable pub same_spelling_sense : Text → Text → Bool
  unfolding normalize_form
  same_spelling_sense translation source = equals_normalized source (normalize_form u translation)

  -- The shadow is a copy of the source that its sense does not justify.
  unfoldable pub is_copy : Text → Result NormalizeError Text → Text → Bool
  unfolding same_spelling_sense
  is_copy shadow (err e) translation = false
  is_copy shadow (ok source) translation =
      same_text shadow source && not (same_spelling_sense translation source)

  unfoldable pub shadow_form : Text → Result NormalizeError Text
  unfolding normalize_form is_blank_text
  shadow_form s = if is_blank_text s then ok [] else normalize_form u s

  -- The switch on the classification.
  unfoldable pub check_shadow :
      TokenResult → Token → List SenseCandidate → List NewSense → Checked ResponseError
  unfolding normalize_form is_copy shadow_form sense_translation
  check_shadow r t candidates senses =
      if is_special r then normalized (shadow_form r.shadow_text) >> ok tt else do
        refuse (is_empty (text_of (shadow_form r.shadow_text))) ResponseError.no_shadow
        shadow ← normalized (shadow_form r.shadow_text)
        refuse
            (is_copy shadow (normalize_form u t.source_text)
              (sense_translation r candidates senses))
            ResponseError.copies_source

  unfoldable pub validate_token_result :
      TokenResult
      → Token
      → Text
      → Text
      → List SenseCandidate
      → List NewSense
      → Checked ResponseError
  unfolding safe_provider_text kind_valid is_blank_text check_shadow validate_sense_reference
  validate_token_result r t source target candidates senses = do
    refuse (is_empty r.classification) ResponseError.no_classification
    safe_provider_text u r.classification max_note_scalars
    refuse (not (kind_valid r.kind)) ResponseError.invalid_kind
    refuse (out_of_range r.confidence_milli) ResponseError.confidence_range
    safe_provider_text u r.shadow_text max_shadow_scalars
    safe_provider_text u r.canonical_pronunciation max_pronunciation_scalars
    safe_provider_text u r.context_pronunciation_key max_pronunciation_scalars
    refuse (not (is_empty r.semantic_sense_id) && not (is_empty r.new_sense_ref))
        ResponseError.two_references
    refuse (is_text r.classification "unchanged") ResponseError.unchanged
    refuse (is_empty r.semantic_sense_id && is_empty r.new_sense_ref && not (is_special r))
        ResponseError.no_reference
    refuse (not (is_special r) && is_blank_text r.shadow_text) ResponseError.no_shadow
    check_shadow r t candidates senses
    validate_sense_reference r.semantic_sense_id r.new_sense_ref r.kind source target candidates
        senses
