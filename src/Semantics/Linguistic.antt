-- ===== src/Semantics/Linguistic.antt =====
-- The linguistic stage of internal/semantics/stages.go: what ValidateLinguistic checks of senses and
-- token results.
pub mod Validate
use doublangu.Prelude.{
  ℕ, Bool, true, false, not, ◌&&◌, ◌||◌, Option, none, some, List, [], ◌∷◌, ◌++◌, if◌then◌else◌,
  first, exists_where, Result, ok, err, Checked, ◌>>=◌, ◌>>◌, refuse, ℤ,
}
use doublangu.Hashing.{Text, Token, SenseCandidate, NewSense, ResolvedSpan}
use doublangu.Semantics.Texts.{same_text, is_empty, is_blank_text, Unicode, normalize_form}
use doublangu.Semantics.Errors.{ResponseError}
use doublangu.Semantics.Senses.{
  max_pronunciation_scalars, max_note_scalars, is_text, kind_valid, normalized, safe_provider_text,
  check_field,
}
use doublangu.Semantics.Results.{candidate_of, check_candidate, out_of_range}
use doublangu.Semantics.Members.{SpanRef, Construction}

pub record LinguisticTokenResult : Type 0 where
  pub token_id : Text
  pub classification : Text
  pub kind : Text
  pub semantic_sense_id : Text
  pub new_sense_ref : Text
  pub canonical_pronunciation : Text
  pub context_pronunciation_key : Text
  pub confidence_milli : ℤ

pub record LinguisticNewSense : Type 0 where
  pub ref : Text
  pub kind : Text
  pub canonical_form : Text
  pub normalized_form : Text
  pub lemma : Text
  pub part_of_speech : Text
  pub sense_discriminator : Text
  pub meaning_note : Text
  pub usage_note : Text
  pub parts_note : Text
  pub canonical_pronunciation_text : Text

pub record LinguisticConstruction : Type 0 where
  pub kind : Text
  pub role : Text
  pub semantic_sense_id : Text
  pub new_sense_ref : Text
  pub canonical_pronunciation_text : Text
  pub context_pronunciation_key : Text
  pub confidence_milli : ℤ
  pub token_ids : List Text
  pub spans : List SpanRef

pub record LinguisticArtifact : Type 0 where
  pub version : Text
  pub tokens : List LinguisticTokenResult
  pub new_senses : List LinguisticNewSense
  pub constructions : List LinguisticConstruction

pub record ValidatedLinguisticConstruction : Type 0 where
  pub construction_id : Text
  pub construction : LinguisticConstruction
  pub spans : List ResolvedSpan

pub record ValidatedLinguistic : Type 0 where
  pub version : Text
  pub tokens : List LinguisticTokenResult
  pub new_senses : List LinguisticNewSense
  pub constructions : List ValidatedLinguisticConstruction

-- The construction of the v3 response that carries the subtitle `shadow`.
unfoldable pub with_shadow : LinguisticConstruction → Text → Construction
with_shadow c shadow = record {
  kind = c.kind;
  role = c.role;
  semantic_sense_id = c.semantic_sense_id;
  new_sense_ref = c.new_sense_ref;
  shadow_text = shadow;
  canonical_pronunciation_text = c.canonical_pronunciation_text;
  context_pronunciation_key = c.context_pronunciation_key;
  confidence_milli = c.confidence_milli;
  token_ids = c.token_ids;
  spans = c.spans;
}

-- The map `newByRef`: its keys with their senses, of which a prior one keeps no reference.
abbrev pub SenseMap : Type 0
SenseMap = List (Text × LinguisticNewSense)

unfoldable pub linguistic_of_prior : NewSense → LinguisticNewSense
linguistic_of_prior s = record {
  ref = [];
  kind = s.kind;
  canonical_form = s.canonical_form;
  normalized_form = s.normalized_form;
  lemma = s.lemma;
  part_of_speech = s.part_of_speech;
  sense_discriminator = s.sense_discriminator;
  meaning_note = [];
  usage_note = [];
  parts_note = [];
  canonical_pronunciation_text = s.canonical_pronunciation_text;
}

unfoldable pub has_key : SenseMap → Text → Bool
unfolding exists_where
has_key senses ref = exists_where (λ entry. same_text entry.0 ref) senses

abbrev sense_at : Option (Text × LinguisticNewSense) → Option LinguisticNewSense
sense_at none = none
sense_at (some entry) = some entry.1

unfoldable pub linguistic_sense_of : SenseMap → Text → Option LinguisticNewSense
unfolding first
linguistic_sense_of senses ref = sense_at (first (λ entry. same_text entry.0 ref) senses)

unfoldable pub check_linguistic_sense : Option LinguisticNewSense → Text → Checked ResponseError
check_linguistic_sense none kind = err ResponseError.undefined_ref
check_linguistic_sense (some s) kind = refuse (not (same_text s.kind kind)) ResponseError.ref_kind

unfoldable pub check_candidate_kind : Option SenseCandidate → Text → Checked ResponseError
check_candidate_kind none kind = err ResponseError.unknown_candidate
check_candidate_kind (some c) kind =
    refuse (not (same_text c.kind kind)) ResponseError.candidate_kind

unfoldable pub validate_linguistic_sense_reference :
    Text → Text → Text → Text → Text → List SenseCandidate → SenseMap → Checked ResponseError
unfolding check_candidate candidate_of check_linguistic_sense linguistic_sense_of
validate_linguistic_sense_reference id ref kind source target candidates senses =
    if is_empty id && is_empty ref
    then ok tt
    else if not (is_empty id)
    then check_candidate (candidate_of candidates id) kind source target
    else check_linguistic_sense (linguistic_sense_of senses ref) kind

-- The languages of the candidate are not compared.
unfoldable pub validate_linguistic_construction_reference :
    Text → Text → Text → List SenseCandidate → SenseMap → Checked ResponseError
unfolding check_candidate_kind candidate_of check_linguistic_sense linguistic_sense_of
validate_linguistic_construction_reference id ref kind candidates senses =
    if is_empty id && is_empty ref
    then ok tt
    else if not (is_empty id)
    then check_candidate_kind (candidate_of candidates id) kind
    else check_linguistic_sense (linguistic_sense_of senses ref) kind

abbrev pub is_label : Text → Bool
is_label classification =
    is_text classification "proper_name"
    || is_text classification "number"
    || is_text classification "acronym"

module _ (u : Unicode) where
  unfoldable pub validate_linguistic_new_sense : LinguisticNewSense → Checked ResponseError
  unfolding kind_valid check_field normalize_form
  validate_linguistic_new_sense s = do
    refuse (not (kind_valid s.kind)) ResponseError.invalid_kind
    check_field u true max_note_scalars s.canonical_form
    check_field u true max_note_scalars s.normalized_form
    check_field u true max_note_scalars s.sense_discriminator
    check_field u false max_note_scalars s.meaning_note
    check_field u false max_note_scalars s.usage_note
    check_field u false max_note_scalars s.parts_note
    check_field u false max_pronunciation_scalars s.canonical_pronunciation_text
    canonical ← normalized (normalize_form u s.canonical_form)
    supplied ← normalized (normalize_form u s.normalized_form)
    refuse (not (same_text supplied canonical)) ResponseError.form_differs

  unfoldable pub collect_prior : SenseMap → List NewSense → Result ResponseError SenseMap
  unfolding safe_provider_text has_key linguistic_of_prior
  collect_prior known [] = ok known
  collect_prior known (s ∷ ss) = do
    refuse (is_empty s.ref) ResponseError.no_ref
    safe_provider_text u s.ref 120
    refuse (has_key known s.ref) ResponseError.duplicate_ref
    collect_prior (known ++ (s.ref, linguistic_of_prior s) ∷ []) ss

  unfoldable pub collect_new : SenseMap → List LinguisticNewSense → Result ResponseError SenseMap
  unfolding safe_provider_text has_key validate_linguistic_new_sense
  collect_new known [] = ok known
  collect_new known (s ∷ ss) = do
    refuse (is_empty s.ref) ResponseError.no_ref
    safe_provider_text u s.ref 120
    refuse (has_key known s.ref) ResponseError.duplicate_ref
    validate_linguistic_new_sense s
    collect_new (known ++ (s.ref, s) ∷ []) ss

  unfoldable pub validate_linguistic_token_result :
      LinguisticTokenResult → Text → Text → List SenseCandidate → SenseMap → Checked ResponseError
  unfolding safe_provider_text kind_valid validate_linguistic_sense_reference
  validate_linguistic_token_result r source target candidates senses = do
    refuse (is_empty r.classification) ResponseError.no_classification
    safe_provider_text u r.classification max_note_scalars
    refuse (not (kind_valid r.kind)) ResponseError.invalid_kind
    refuse (out_of_range r.confidence_milli) ResponseError.confidence_range
    safe_provider_text u r.canonical_pronunciation max_pronunciation_scalars
    safe_provider_text u r.context_pronunciation_key max_pronunciation_scalars
    refuse (not (is_empty r.semantic_sense_id) && not (is_empty r.new_sense_ref))
        ResponseError.two_references
    refuse (is_text r.classification "unchanged") ResponseError.unchanged
    refuse
        (is_empty r.semantic_sense_id
          && is_empty r.new_sense_ref
          && not (is_label r.classification))
        ResponseError.no_reference
    validate_linguistic_sense_reference r.semantic_sense_id r.new_sense_ref r.kind source target
        candidates senses
