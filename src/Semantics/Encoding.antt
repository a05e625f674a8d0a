-- ===== src/Semantics/Encoding.antt =====
-- The bytes of a text, under which the hashes of Hashing read a chunk, and `%d` of fmt.
use doublangu.Prelude.{ℕ, zero, suc, ◌+◌, [], ◌∷◌, ◌++◌, map, ltb, if◌then◌else◌, ℤ, pos, negsuc}
use Prim.Native.Nat.{◌/◌, ◌%◌}
use doublangu.Hashing.{
  Text, Block, Token, SenseCandidate, NewSense, ResolvedSentence, PreparedChunk,
}

-- UTF-8
unfoldable pub utf8_rune : ℕ → Text
utf8_rune r =
    if ltb r 0x80
    then r ∷ []
    else if ltb r 0x800
    then (0xc0 + r / 64) ∷ (0x80 + r % 64) ∷ []
    else if ltb r 0x10000
    then (0xe0 + r / 4096) ∷ (0x80 + r / 64 % 64) ∷ (0x80 + r % 64) ∷ []
    else (0xf0 + r / 262144) ∷ (0x80 + r / 4096 % 64) ∷ (0x80 + r / 64 % 64) ∷ (0x80 + r % 64) ∷ []

unfoldable pub utf8 : Text → Text
unfolding utf8_rune
utf8 [] = []
utf8 (r ∷ s) = utf8_rune r ++ utf8 s

unfoldable pub utf8_block : Block → Block
unfolding utf8
utf8_block b = record b { source_text = utf8 b.source_text }

unfoldable pub utf8_token : Token → Token
unfolding utf8
utf8_token t = record t {
  id = utf8 t.id;
  source_text = utf8 t.source_text;
  normalized_form = utf8 t.normalized_form;
  lemma = utf8 t.lemma;
}

unfoldable pub utf8_candidate : SenseCandidate → SenseCandidate
unfolding utf8
utf8_candidate c = record {
  id = utf8 c.id;
  semantic_item_id = utf8 c.semantic_item_id;
  source_language = utf8 c.source_language;
  target_language = utf8 c.target_language;
  kind = utf8 c.kind;
  canonical_form = utf8 c.canonical_form;
  normalized_form = utf8 c.normalized_form;
  lemma = utf8 c.lemma;
  part_of_speech = utf8 c.part_of_speech;
  primary_translation = utf8 c.primary_translation;
  sense_discriminator = utf8 c.sense_discriminator;
}

unfoldable pub utf8_sense : NewSense → NewSense
unfolding utf8
utf8_sense s = record {
  ref = utf8 s.ref;
  kind = utf8 s.kind;
  canonical_form = utf8 s.canonical_form;
  normalized_form = utf8 s.normalized_form;
  lemma = utf8 s.lemma;
  part_of_speech = utf8 s.part_of_speech;
  sense_discriminator = utf8 s.sense_discriminator;
  primary_translation = utf8 s.primary_translation;
  alternatives = map utf8 s.alternatives;
  literal_translation = utf8 s.literal_translation;
  meaning_note = utf8 s.meaning_note;
  usage_note = utf8 s.usage_note;
  parts_note = utf8 s.parts_note;
  canonical_pronunciation_text = utf8 s.canonical_pronunciation_text;
}

unfoldable pub utf8_sentence : ResolvedSentence → ResolvedSentence
unfolding utf8
utf8_sentence s = record s { span = record s.span { source_text = utf8 s.span.source_text } }

unfoldable pub utf8_chunk : PreparedChunk → PreparedChunk
unfolding utf8 utf8_block utf8_token utf8_candidate utf8_sense utf8_sentence
utf8_chunk c = record {
  title = utf8 c.title;
  source_language = utf8 c.source_language;
  target_language = utf8 c.target_language;
  content_hash = utf8 c.content_hash;
  block = utf8_block c.block;
  tokens = map utf8_token c.tokens;
  candidates = map utf8_candidate c.candidates;
  prior_validated_senses = map utf8_sense c.prior_validated_senses;
  sentences = map utf8_sentence c.sentences;
  input_hash = c.input_hash;
}

-- The digits of `n` before `rest`; `n` rounds and one more are enough.
unfoldable pub digits_before : ℕ → ℕ → Text → Text
digits_before zero n rest = rest
digits_before (suc fuel) n rest =
    let more = digits_before fuel (n / 10) ((48 + n % 10) ∷ rest) in
    if ltb n 10 then (48 + n) ∷ rest else more

unfoldable pub decimal : ℤ → Text
unfolding digits_before
decimal (pos n) = digits_before (suc n) n []
decimal (negsuc n) = 45 ∷ digits_before (suc (suc n)) (suc n) []
