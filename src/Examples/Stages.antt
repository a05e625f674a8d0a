-- ===== src/Examples/Stages.antt =====
-- The theorem on the two stages, at a block of two tokens, with a test of the merged response.
use doublangu.Prelude.{◌≡◌, refl, [], ◌∷◌, map, ok, codes, pos, ◌>>=◌, ◌>>◌}
use doublangu.Hashing.{PreparedChunk}
use doublangu.Semantics.Response.{Response}
use doublangu.Semantics.Linguistic.{LinguisticArtifact, ValidatedLinguistic}
use doublangu.Semantics.Linguistic.Validate.{validate_linguistic}
use doublangu.Semantics.Translation.{TranslationArtifact}
use doublangu.Semantics.Translation.Merge.{validate_translation, merge_linguistic_translation}
use doublangu.Semantics.Translation.Merged.{
  token_part, sense_part, construction_part, validated_translation_merges,
}
use doublangu.Examples.Sentences.{ascii_tables}
use doublangu.Examples.Responses.{token, span, sentence, label, sense, on_time}

abbrev chunk : PreparedChunk
chunk = record {
  title = codes "t";
  source_language = codes "nl";
  target_language = codes "en";
  content_hash = [];
  block = record { block_index = pos 0; source_text = codes "op tijd" };
  tokens = token "b0:t0" 0 0 2 "op" ∷ token "b0:t1" 1 3 7 "tijd" ∷ [];
  candidates = [];
  prior_validated_senses = [];
  sentences = sentence 0 (span 0 7 "op tijd") ∷ [];
  input_hash = "";
}

abbrev artifact : LinguisticArtifact
artifact = record {
  version = codes "reader.linguistic.v1";
  tokens = token_part (label "b0:t0") ∷ token_part (label "b0:t1") ∷ [];
  new_senses = sense_part (sense "a" "op tijd" "on time") ∷ [];
  constructions = construction_part on_time ∷ [];
}

abbrev linguistic : ValidatedLinguistic
linguistic = record {
  version = codes "reader.linguistic.v1";
  tokens = artifact.tokens;
  new_senses = artifact.new_senses;
  constructions =
      record {
        construction_id = codes "b0:c0";
        construction = construction_part on_time;
        spans = span 0 7 "op tijd" ∷ [];
      }
      ∷ [];
}

is_linguistic : validate_linguistic ascii_tables chunk artifact ≡ ok linguistic
unfolding validate_linguistic ◌>>=◌ ◌>>◌
is_linguistic = refl

abbrev translation : TranslationArtifact
translation = record {
  version = codes "reader.translation.v1";
  tokens =
      record { token_id = codes "b0:t1"; shadow_text = codes "time" }
      ∷ record { token_id = codes "b0:t0"; shadow_text = [] }
      ∷ [];
  new_senses =
      record {
        ref = codes "a";
        primary_translation = codes "on time";
        alternatives = [];
        literal_translation = [];
      }
      ∷ [];
  constructions = record { construction_id = codes "b0:c0"; shadow_text = codes "on time" } ∷ [];
}

is_translation : validate_translation ascii_tables chunk linguistic translation ≡ ok tt
unfolding validate_translation ◌>>=◌ ◌>>◌
is_translation = refl

validated_translation_merges_example :
    (r : Response) × (merge_linguistic_translation linguistic translation ≡ ok r)
    × (map token_part r.tokens ≡ linguistic.tokens)
    × (map sense_part r.new_senses ≡ linguistic.new_senses)
    × (map construction_part r.constructions ≡ map (λ c. c.construction) linguistic.constructions)
validated_translation_merges_example =
    validated_translation_merges ascii_tables chunk linguistic translation is_translation

is_merged :
    merge_linguistic_translation linguistic translation
    ≡ ok (record {
      version = codes "reader.analysis.v3";
      tokens = label "b0:t0" ∷ record (label "b0:t1") { shadow_text = codes "time" } ∷ [];
      new_senses = sense "a" "op tijd" "on time" ∷ [];
      constructions = on_time ∷ [];
    })
unfolding merge_linguistic_translation ◌>>=◌ ◌>>◌
is_merged = refl
