-- ===== src/Examples/Responses.antt =====
-- The theorems on accepted responses, at a response of two contiguous constructions.
use doublangu.Prelude.{
  ℕ, String, ◌≡◌, refl, true, some, List, [], ◌∷◌, Memᴰ, ok, codes, pos, ◌↔◌, ◌>>=◌, ◌>>◌,
}
use doublangu.Hashing.{Text, Token, NewSense, ResolvedSpan, ResolvedSentence, PreparedArticle}
use doublangu.Semantics.Results.{TokenResult}
use doublangu.Semantics.Members.{Construction, token_of, in_span}
use doublangu.Semantics.Response.{
  Response, ResolvedToken, ResolvedConstruction, ValidatedResponse, validate_response,
}
use doublangu.Semantics.Response.Coverage.{IsCovered, validate_response-IsCovered}
use doublangu.Semantics.Response.Layers.{
  StandsBefore, contiguous_constructions_apart, contiguous_members_iff,
}
use doublangu.Examples.Sentences.{ascii_tables}

abbrev pub token : String → ℕ → ℕ → ℕ → String → Token
token id n start end word = record {
  id = codes id;
  block_index = pos 0;
  token_index = pos n;
  start_utf16 = pos start;
  end_utf16 = pos end;
  source_text = codes word;
  normalized_form = codes word;
  lemma = [];
}

abbrev pub span : ℕ → ℕ → String → ResolvedSpan
span start end text = record {
  block_index = pos 0;
  start_utf16 = pos start;
  end_utf16 = pos end;
  source_text = codes text;
}

abbrev pub sentence : ℕ → ResolvedSpan → ResolvedSentence
sentence n s = record { index = pos n; span = s }

abbrev article : PreparedArticle
article = record {
  title = codes "t";
  source_language = codes "nl";
  target_language = codes "en";
  content_hash = [];
  blocks = record { block_index = pos 0; source_text = codes "op tijd. ja nu" } ∷ [];
  tokens =
      token "b0:t0" 0 0 2 "op"
      ∷ token "b0:t1" 1 3 7 "tijd"
      ∷ token "b0:t2" 2 9 11 "ja"
      ∷ token "b0:t3" 3 12 14 "nu"
      ∷ [];
  candidates = [];
  sentences = sentence 0 (span 0 8 "op tijd.") ∷ sentence 1 (span 9 14 "ja nu") ∷ [];
}

abbrev pub label : String → TokenResult
label id = record {
  token_id = codes id;
  classification = codes "number";
  kind = codes "word";
  semantic_sense_id = [];
  new_sense_ref = [];
  shadow_text = [];
  canonical_pronunciation = [];
  context_pronunciation_key = [];
  confidence_milli = pos 0;
}

abbrev pub sense : String → String → String → NewSense
sense ref form translation = record {
  ref = codes ref;
  kind = codes "phrase";
  canonical_form = codes form;
  normalized_form = codes form;
  lemma = [];
  part_of_speech = [];
  sense_discriminator = codes "d";
  primary_translation = codes translation;
  alternatives = [];
  literal_translation = [];
  meaning_note = [];
  usage_note = [];
  parts_note = [];
  canonical_pronunciation_text = [];
}

abbrev pub phrase : String → String → List Text → String → Construction
phrase ref shadow ids text = record {
  kind = codes "phrase";
  role = codes "contiguous_construction";
  semantic_sense_id = [];
  new_sense_ref = codes ref;
  shadow_text = codes shadow;
  canonical_pronunciation_text = [];
  context_pronunciation_key = [];
  confidence_milli = pos 900;
  token_ids = ids;
  spans = record { block_index = pos 0; source_text = codes text; occurrence = pos 0 } ∷ [];
}

abbrev pub on_time : Construction
on_time = phrase "a" "on time" (codes "b0:t0" ∷ codes "b0:t1" ∷ []) "op tijd"

abbrev yes_now : Construction
yes_now = phrase "b" "yes now" (codes "b0:t2" ∷ codes "b0:t3" ∷ []) "ja nu"

abbrev response : Response
response = record {
  version = codes "reader.analysis.v3";
  tokens = label "b0:t1" ∷ label "b0:t0" ∷ label "b0:t2" ∷ label "b0:t3" ∷ [];
  new_senses = sense "a" "op tijd" "on time" ∷ sense "b" "ja nu" "yes now" ∷ [];
  constructions = on_time ∷ yes_now ∷ [];
}

abbrev left : ResolvedConstruction
left = record { construction = on_time; spans = span 0 7 "op tijd" ∷ [] }

abbrev right : ResolvedConstruction
right = record { construction = yes_now; spans = span 9 14 "ja nu" ∷ [] }

abbrev first_token : Token
first_token = token "b0:t0" 0 0 2 "op"

abbrev pair : Token → TokenResult → ResolvedToken
pair t r = record { token = t; result = r }

abbrev validated : ValidatedResponse
validated = record {
  response = response;
  sentences = article.sentences;
  tokens =
      pair (token "b0:t1" 1 3 7 "tijd") (label "b0:t1")
      ∷ pair first_token (label "b0:t0")
      ∷ pair (token "b0:t2" 2 9 11 "ja") (label "b0:t2")
      ∷ pair (token "b0:t3" 3 12 14 "nu") (label "b0:t3")
      ∷ [];
  constructions = left ∷ right ∷ [];
}

accepted : validate_response ascii_tables article response [] ≡ ok validated
unfolding validate_response ◌>>=◌ ◌>>◌
accepted = refl

validate_response-IsCovered_example : IsCovered article response validated
validate_response-IsCovered_example =
    validate_response-IsCovered ascii_tables article response [] validated accepted

contiguous_constructions_apart_example : ¬ Memᴰ (codes "b0:t0") right.construction.token_ids
contiguous_constructions_apart_example =
    contiguous_constructions_apart ascii_tables article response [] validated accepted
      (refl, (refl, (refl, (refl, tt)))) left right
      (StandsBefore.here (right ∷ []) (Memᴰ.head refl)) refl refl (codes "b0:t0") (Memᴰ.head refl)

first_token_known : token_of article.tokens first_token.id ≡ some first_token
unfolding token_of
first_token_known = refl

contiguous_members_iff_example :
    (s : ResolvedSpan) × (left.spans ≡ s ∷ [])
    × (Memᴰ first_token.id left.construction.token_ids ↔ (in_span s first_token ≡ true))
contiguous_members_iff_example =
    contiguous_members_iff ascii_tables article response [] validated accepted left (Memᴰ.head refl)
      refl first_token (Memᴰ.head refl) first_token_known
