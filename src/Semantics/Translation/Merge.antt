-- ===== src/Semantics/Translation/Merge.antt =====
-- ValidateTranslation as a whole, and MergeLinguisticTranslation, of internal/semantics/stages.go.
use doublangu.Prelude.{
  Bool, not, Option, none, some, List, [], ◌∷◌, ◌==◌, length, exists_where, Result, ok, err,
  Checked, ◌>>=◌, ◌>>◌, refuse, codes,
}
use doublangu.Hashing.{NewSense, PreparedChunk}
use doublangu.Semantics.Texts.{same_text, is_empty, Unicode}
use doublangu.Semantics.Senses.{is_text}
use doublangu.Semantics.Results.{TokenResult}
use doublangu.Semantics.Members.{Construction}
use doublangu.Semantics.Response.{Response}
use doublangu.Semantics.Linguistic.{
  LinguisticTokenResult, LinguisticNewSense, ValidatedLinguisticConstruction, ValidatedLinguistic,
  with_shadow,
}
use doublangu.Semantics.Translation.{
  TranslationTokenResult, TranslationNewSense, TranslationConstruction, TranslationArtifact,
  TranslationError, translated_token_of, translated_ref_of, translated_construction_of,
  check_translated_tokens, check_translated_senses, check_translated_constructions,
}

unfoldable pub omits_result : List TranslationTokenResult → LinguisticTokenResult → Bool
unfolding exists_where
omits_result rs t = not (exists_where (λ r. same_text r.token_id t.token_id) rs)

unfoldable pub omits_ref : List TranslationNewSense → LinguisticNewSense → Bool
unfolding exists_where
omits_ref ss s = not (exists_where (λ t. same_text t.ref s.ref) ss)

unfoldable pub omits_construction :
    List TranslationConstruction → ValidatedLinguisticConstruction → Bool
unfolding exists_where
omits_construction ts c = not (exists_where (λ t. same_text t.construction_id c.construction_id) ts)

unfoldable pub validate_translation :
    Unicode → PreparedChunk → ValidatedLinguistic → TranslationArtifact → Checked TranslationError
unfolding exists_where check_translated_tokens omits_result check_translated_senses omits_ref
    check_translated_constructions omits_construction
validate_translation u chunk l artifact = do
  refuse (not (is_text artifact.version "reader.translation.v1"))
      TranslationError.unsupported_version
  refuse (is_empty l.tokens) TranslationError.no_linguistic
  refuse (not (length artifact.tokens == length l.tokens)) TranslationError.token_coverage
  check_translated_tokens u chunk l artifact [] artifact.tokens
  refuse (exists_where (omits_result artifact.tokens) l.tokens) TranslationError.omitted_token
  refuse (not (length artifact.new_senses == length l.new_senses)) TranslationError.sense_coverage
  check_translated_senses u chunk l artifact [] artifact.new_senses
  refuse (exists_where (omits_ref artifact.new_senses) l.new_senses) TranslationError.omitted_ref
  refuse (not (length artifact.constructions == length l.constructions))
      TranslationError.construction_coverage
  check_translated_constructions u chunk l artifact [] artifact.constructions
  refuse (exists_where (omits_construction artifact.constructions) l.constructions)
      TranslationError.omitted_id

abbrev pub merged_token :
    LinguisticTokenResult → Option TranslationTokenResult → Result TranslationError TokenResult
merged_token t none = err TranslationError.omitted_token
merged_token t (some r) = ok (record {
  token_id = t.token_id;
  classification = t.classification;
  kind = t.kind;
  semantic_sense_id = t.semantic_sense_id;
  new_sense_ref = t.new_sense_ref;
  shadow_text = r.shadow_text;
  canonical_pronunciation = t.canonical_pronunciation;
  context_pronunciation_key = t.context_pronunciation_key;
  confidence_milli = t.confidence_milli;
})

abbrev pub merged_sense :
    LinguisticNewSense → Option TranslationNewSense → Result TranslationError NewSense
merged_sense s none = err TranslationError.omitted_ref
merged_sense s (some t) = ok (record {
  ref = s.ref;
  kind = s.kind;
  canonical_form = s.canonical_form;
  normalized_form = s.normalized_form;
  lemma = s.lemma;
  part_of_speech = s.part_of_speech;
  sense_discriminator = s.sense_discriminator;
  primary_translation = t.primary_translation;
  alternatives = t.alternatives;
  literal_translation = t.literal_translation;
  meaning_note = s.meaning_note;
  usage_note = s.usage_note;
  parts_note = s.parts_note;
  canonical_pronunciation_text = s.canonical_pronunciation_text;
})

abbrev pub merged_construction :
    ValidatedLinguisticConstruction
    → Option TranslationConstruction
    → Result TranslationError Construction
merged_construction c none = err TranslationError.omitted_id
merged_construction c (some t) = ok (with_shadow c.construction t.shadow_text)

-- A loop that merges each element with its translation.
unfoldable pub merge_each :
    {A B : Type 0} → (A → Result TranslationError B) → List A → Result TranslationError (List B)
merge_each merge [] = ok []
merge_each merge (x ∷ xs) = do y ← merge x; ys ← merge_each merge xs; ok (y ∷ ys)

unfoldable pub merge_linguistic_translation :
    ValidatedLinguistic → TranslationArtifact → Result TranslationError Response
unfolding merge_each with_shadow translated_token_of translated_ref_of translated_construction_of
merge_linguistic_translation l artifact = do
  tokens ←
      merge_each (λ t. merged_token t (translated_token_of artifact.tokens t.token_id)) l.tokens
  senses ←
      merge_each (λ s. merged_sense s (translated_ref_of artifact.new_senses s.ref)) l.new_senses
  constructions ←
      merge_each
        (λ c.
          merged_construction c
            (translated_construction_of artifact.constructions c.construction_id))
        l.constructions
  ok (record {
    version = codes "reader.analysis.v3";
    tokens = tokens;
    new_senses = senses;
    constructions = constructions;
  })
