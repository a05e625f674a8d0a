-- ===== src/Hashing.antt =====
-- The byte strings that are hashed to identities: internal/semantics/chunks.go over the records of
-- internal/semantics/types.go, and hashParts of internal/pipeline/types.go.
-- A Go string is the list of its bytes here. A function `write_…` takes the bytes that follow it,
-- so that a sequence of writes to one buffer is a composition.
pub mod Framing
pub mod Identities
use doublangu.Prelude.{
  ℕ, zero, suc, ◌+◌, ◌-◌, ◌*◌, String, List, [], ◌∷◌, ◌++◌, ℤ, pos, negsuc, length, codes,
}
use Prim.Native.Nat.{◌/◌, ◌%◌}

abbrev pub Text : Type 0
Text = List ℕ

pub record Block : Type 0 where
  pub block_index : ℤ
  pub source_text : Text

pub record Token : Type 0 where
  pub id : Text
  pub block_index : ℤ
  pub token_index : ℤ
  pub start_utf16 : ℤ
  pub end_utf16 : ℤ
  pub source_text : Text
  pub normalized_form : Text
  pub lemma : Text

pub record SenseCandidate : Type 0 where
  pub id : Text
  pub semantic_item_id : Text
  pub source_language : Text
  pub target_language : Text
  pub kind : Text
  pub canonical_form : Text
  pub normalized_form : Text
  pub lemma : Text
  pub part_of_speech : Text
  pub primary_translation : Text
  pub sense_discriminator : Text

pub record NewSense : Type 0 where
  pub ref : Text
  pub kind : Text
  pub canonical_form : Text
  pub normalized_form : Text
  pub lemma : Text
  pub part_of_speech : Text
  pub sense_discriminator : Text
  pub primary_translation : Text
  pub alternatives : List Text
  pub literal_translation : Text
  pub meaning_note : Text
  pub usage_note : Text
  pub parts_note : Text
  pub canonical_pronunciation_text : Text

pub record ResolvedSpan : Type 0 where
  pub block_index : ℤ
  pub start_utf16 : ℤ
  pub end_utf16 : ℤ
  pub source_text : Text

pub record ResolvedSentence : Type 0 where
  pub index : ℤ
  pub span : ResolvedSpan

pub record PreparedArticle : Type 0 where
  pub title : Text
  pub source_language : Text
  pub target_language : Text
  pub content_hash : Text
  pub blocks : List Block
  pub tokens : List Token
  pub candidates : List SenseCandidate
  pub sentences : List ResolvedSentence

pub record PreparedChunk : Type 0 where
  pub title : Text
  pub source_language : Text
  pub target_language : Text
  pub content_hash : Text
  pub block : Block
  pub tokens : List Token
  pub candidates : List SenseCandidate
  pub prior_validated_senses : List NewSense
  pub sentences : List ResolvedSentence
  pub input_hash : String

-- the bytes of an ASCII text
abbrev pub ascii : String → Text
ascii s = codes s

-- `count` bytes of `n`, the highest first, before `rest`
unfoldable pub big_endian : ℕ → ℕ → Text → Text
big_endian zero n rest = rest
big_endian (suc count) n rest = big_endian count (n / 256) (n % 256 ∷ rest)

abbrev pub two_to_64 : ℕ
two_to_64 = 18_446_744_073_709_551_616

-- uint64(value)
abbrev pub to_uint64 : ℤ → ℕ
to_uint64 (pos n) = n % two_to_64
to_uint64 (negsuc n) = two_to_64 - 1 - n % two_to_64

unfoldable pub write_hash_string : Text → Text → Text
unfolding big_endian
write_hash_string value rest = big_endian 8 (length value) (value ++ rest)

unfoldable pub write_hash_int : ℤ → Text → Text
unfolding big_endian
write_hash_int value rest = big_endian 8 (to_uint64 value) rest

-- a loop that writes each element
unfoldable pub write_each : {A : Type 0} → (A → Text → Text) → List A → Text → Text
write_each write [] rest = rest
write_each write (x ∷ xs) rest = write x (write_each write xs rest)

unfoldable pub write_block : Block → Text → Text
unfolding write_hash_string write_hash_int
write_block b rest = write_hash_int b.block_index (write_hash_string b.source_text rest)

unfoldable pub write_token : Token → Text → Text
unfolding write_hash_string write_hash_int
write_token t rest = write_hash_string t.id (
    write_hash_int t.block_index (
      write_hash_int t.token_index (
        write_hash_int t.start_utf16 (
          write_hash_int t.end_utf16 (
            write_hash_string t.source_text
              (write_hash_string t.normalized_form (write_hash_string t.lemma rest)))))))

unfoldable pub write_candidate_hash : SenseCandidate → Text → Text
unfolding write_hash_string write_each
write_candidate_hash c rest =
    write_each write_hash_string
      (c.id ∷ c.semantic_item_id ∷ c.source_language ∷ c.target_language ∷ c.kind ∷ c.canonical_form
        ∷ c.normalized_form ∷ c.lemma ∷ c.part_of_speech ∷ c.primary_translation
        ∷ c.sense_discriminator ∷ [])
      rest

unfoldable pub write_resolved_sentence_hash : ResolvedSentence → Text → Text
unfolding write_hash_string write_hash_int
write_resolved_sentence_hash s rest = write_hash_int s.span.block_index (
    write_hash_int s.index (
      write_hash_int s.span.start_utf16
        (write_hash_int s.span.end_utf16 (write_hash_string s.span.source_text rest))))

unfoldable pub write_sense_hash : NewSense → Text → Text
unfolding write_hash_string write_each
write_sense_hash s rest =
    write_each write_hash_string
      (s.ref ∷ s.kind ∷ s.canonical_form ∷ s.normalized_form ∷ s.lemma ∷ s.part_of_speech
        ∷ s.sense_discriminator ∷ s.primary_translation ∷ [])
      (write_each write_hash_string s.alternatives (
        write_each write_hash_string
          (s.literal_translation ∷ s.meaning_note ∷ s.usage_note ∷ s.parts_note
            ∷ s.canonical_pronunciation_text ∷ [])
          rest))

-- The buffers. A hash function applies `sum`, the hexadecimal SHA-256, to one of them.
unfoldable pub block_bytes : Block → Text
unfolding write_hash_string write_block
block_bytes b = write_hash_string (ascii "doublangu.analysis-block.v1") (write_block b [])

unfoldable pub carry_bytes : List NewSense → Text
unfolding write_hash_string write_sense_hash write_each
carry_bytes senses =
    write_hash_string (ascii "doublangu.analysis-carry.v1") (write_each write_sense_hash senses [])

unfoldable pub prepared_input_bytes : PreparedArticle → Text
unfolding write_each write_hash_string write_block write_token write_resolved_sentence_hash
    write_candidate_hash
prepared_input_bytes a =
    write_each write_hash_string
      (ascii "doublangu.prepared-input.v1"
        ∷ a.title
        ∷ a.source_language
        ∷ a.target_language
        ∷ a.content_hash
        ∷ [])
      (write_each write_block a.blocks (
        write_each write_token a.tokens (
          write_each write_resolved_sentence_hash a.sentences
            (write_each write_candidate_hash a.candidates []))))

unfoldable pub chunk_input_bytes : PreparedChunk → Text
unfolding write_each write_hash_string write_block write_token write_resolved_sentence_hash
    write_candidate_hash write_sense_hash
chunk_input_bytes c =
    write_each write_hash_string
      (ascii "doublangu.chunk-input.v1"
        ∷ c.title
        ∷ c.source_language
        ∷ c.target_language
        ∷ c.content_hash
        ∷ [])
      (write_block c.block (
        write_each write_token c.tokens (
          write_each write_resolved_sentence_hash c.sentences (
            write_each write_candidate_hash c.candidates
              (write_each write_sense_hash c.prior_validated_senses [])))))

-- the domain, a zero byte, and each payload after its length
unfoldable pub part_bytes : Text → List Text → Text
unfolding write_each write_hash_string
part_bytes domain payloads = domain ++ 0 ∷ write_each write_hash_string payloads []

module _ (sum : Text → String) where
  unfoldable pub block_hash : Block → String
  unfolding block_bytes
  block_hash b = sum (block_bytes b)

  unfoldable pub carry_hash : List NewSense → String
  unfolding carry_bytes
  carry_hash senses = sum (carry_bytes senses)

  unfoldable pub prepared_input_hash : PreparedArticle → String
  unfolding prepared_input_bytes
  prepared_input_hash a = sum (prepared_input_bytes a)

  unfoldable pub chunk_input_hash : PreparedChunk → String
  unfolding chunk_input_bytes
  chunk_input_hash c = sum (chunk_input_bytes c)

  unfoldable pub hash_parts : Text → List Text → String
  unfolding part_bytes
  hash_parts domain payloads = sum (part_bytes domain payloads)

  -- EffectivePromptVersion
  unfoldable pub effective_prompt_version : Text → Text → Text → Text → String
  unfolding hash_parts
  effective_prompt_version operation generation_content_hash correction_content_hash
        envelope_version =
      hash_parts (ascii "doublangu.prompt-execution.v1")
        (operation ∷ generation_content_hash ∷ correction_content_hash ∷ envelope_version ∷ [])
