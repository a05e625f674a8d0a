-- ===== src/Semantics/Chunks.antt =====
-- The chunks of an article, one for each block: PrepareChunk, PrepareChunks and
-- ValidateChunkResponse of internal/semantics/chunks.go.
use doublangu.Prelude.{
  ℕ, zero, suc, String, Bool, true, false, not, ◌&&◌, ◌||◌, none, some, List, [], ◌∷◌, pos, negsuc,
  ℤ, ltb_ℤ, ltb, length, select, exists_where, Result, ok, err, ◌>>=◌, ◌>>◌, refuse, str_eq,
  has_no_text,
}
use doublangu.Hashing.{
  Text, Block, Token, NewSense, PreparedArticle, PreparedChunk, chunk_input_hash,
}
use doublangu.Semantics.Texts.{same_text, is_empty, index, Unicode, normalize_form}
use doublangu.Semantics.Spans.{same_int}
use doublangu.Semantics.Anchors.{block_at}
use doublangu.Semantics.Errors.{ResponseError}
use doublangu.Semantics.Results.{text_of}
use doublangu.Semantics.Response.{
  Response, ResolvedConstruction, ValidatedResponse, validate_response,
}
use doublangu.Semantics.Encoding.{utf8_chunk}

pub data ChunkError : Type 0 where
  invalid_block hash_mismatch : ChunkError
  rejected : ResponseError → ChunkError
  crosses_block long_ref : ChunkError
  empty_prior_ref collides empty_ref long_namespaced same_namespaced : ChunkError
  chunk_count out_of_order stale_chunk merged_rejected : ChunkError

pub record ChunkResult : Type 0 where
  pub chunk : PreparedChunk
  pub response : Response

abbrev pub rejected_or : {A : Type 0} → Result ResponseError A → Result ChunkError A
rejected_or (ok a) = ok a
rejected_or (err e) = err (ChunkError.rejected e)

-- chunkInputHash of the bytes of a chunk; `sum` is the hexadecimal SHA-256.
unfoldable pub hash_of_chunk : (Text → String) → PreparedChunk → String
unfolding utf8_chunk chunk_input_hash
hash_of_chunk sum c = chunk_input_hash sum (utf8_chunk c)

unfoldable pub relevant_to_tokens : Text → Text → List Token → Bool
unfolding exists_where
relevant_to_tokens form lemma tokens =
    exists_where
      (λ t.
        exists_where
          (λ key. not (is_empty key) && (same_text key t.normalized_form || same_text key t.lemma))
          (form ∷ lemma ∷ []))
      tokens

-- make([]Block, n + 1) with the block at the end
unfoldable pub padded : ℕ → Block → List Block
padded zero b = b ∷ []
padded (suc n) b = record { block_index = pos 0; source_text = [] } ∷ padded n b

abbrev padded_blocks : Block → List Block
padded_blocks b = elim b.block_index [ pos n ↦ padded n b | negsuc n ↦ [] ]

unfoldable pub article_of_chunk : PreparedChunk → PreparedArticle
unfolding padded
article_of_chunk c = record {
  title = c.title;
  source_language = c.source_language;
  target_language = c.target_language;
  content_hash = c.content_hash;
  blocks = padded_blocks c.block;
  tokens = c.tokens;
  candidates = c.candidates;
  sentences = c.sentences;
}

-- A span or a member of the construction lies in another block.
unfoldable pub leaves_block : PreparedChunk → ResolvedConstruction → Bool
unfolding exists_where
leaves_block c r =
    exists_where (λ s. not (same_int s.block_index c.block.block_index)) r.spans
    || exists_where
        (λ id.
          exists_where (λ t. same_text t.id id && not (same_int t.block_index c.block.block_index))
            c.tokens)
        r.construction.token_ids

module _ (u : Unicode) where
  unfoldable pub normalized_for_relevance : Text → Text
  unfolding normalize_form
  normalized_for_relevance s = text_of (normalize_form u s)

  unfoldable pub relevant_canonical : Text → Text → Bool
  unfolding normalized_for_relevance index
  relevant_canonical canonical paragraph =
      not (is_empty (normalized_for_relevance canonical))
      && not (is_empty paragraph)
      && (elim (index paragraph (normalized_for_relevance canonical)) [
        | none ↦ false
        | some n ↦ true
      ])

  unfoldable pub is_relevant : Text → Text → Text → List Token → Text → Bool
  unfolding relevant_to_tokens relevant_canonical
  is_relevant form lemma canonical tokens paragraph =
      relevant_to_tokens form lemma tokens || relevant_canonical canonical paragraph

  module _ (sum : Text → String) where
    -- The chunk of the block `b`, which stands at `index`, before its hash is known.
    unfoldable pub chunk_of : PreparedArticle → ℤ → Block → List NewSense → PreparedChunk
    unfolding select is_relevant normalized_for_relevance
    chunk_of a index b prior =
        let tokens = select (λ t. same_int t.block_index index) a.tokens in
        let paragraph = normalized_for_relevance b.source_text in
        record {
          title = a.title;
          source_language = a.source_language;
          target_language = a.target_language;
          content_hash = a.content_hash;
          block = b;
          tokens = tokens;
          candidates =
              select (λ c. is_relevant c.normalized_form c.lemma c.canonical_form tokens paragraph)
                a.candidates;
          prior_validated_senses =
              select (λ s. is_relevant s.normalized_form s.lemma s.canonical_form tokens paragraph)
                prior;
          sentences = select (λ s. same_int s.span.block_index index) a.sentences;
          input_hash = "";
        }

    unfoldable pub hashed_chunk : PreparedChunk → PreparedChunk
    unfolding hash_of_chunk
    hashed_chunk c = record c { input_hash = hash_of_chunk sum c }

    unfoldable pub prepare_chunk :
        PreparedArticle → ℤ → List NewSense → Result ChunkError PreparedChunk
    unfolding chunk_of hashed_chunk
    prepare_chunk a index prior = elim (block_at a.blocks index) [
      | none ↦ err ChunkError.invalid_block
      | some b ↦ ok (hashed_chunk (chunk_of a index b prior))
    ]

    unfoldable pub prepare_chunks_from :
        PreparedArticle → ℕ → List Block → Result ChunkError (List PreparedChunk)
    unfolding prepare_chunk
    prepare_chunks_from a index [] = ok []
    prepare_chunks_from a index (b ∷ bs) = do
      c ← prepare_chunk a (pos index) []
      rest ← prepare_chunks_from a (suc index) bs
      ok (c ∷ rest)

    unfoldable pub prepare_chunks : PreparedArticle → Result ChunkError (List PreparedChunk)
    unfolding prepare_chunks_from
    prepare_chunks a = prepare_chunks_from a 0 a.blocks

  unfoldable pub validate_chunk_response :
      (Text → String) → PreparedChunk → Response → Result ChunkError ValidatedResponse
  unfolding hash_of_chunk validate_response article_of_chunk leaves_block exists_where
  validate_chunk_response sum c response = do
    refuse (ltb_ℤ c.block.block_index (pos 0)) ChunkError.invalid_block
    refuse (not (has_no_text c.input_hash) && not (str_eq c.input_hash (hash_of_chunk sum c)))
        ChunkError.hash_mismatch
    v ← rejected_or (validate_response u (article_of_chunk c) response c.prior_validated_senses)
    refuse (exists_where (λ s. not (same_int s.span.block_index c.block.block_index)) v.sentences)
        ChunkError.crosses_block
    refuse (exists_where (leaves_block c) v.constructions) ChunkError.crosses_block
    refuse (exists_where (λ s. ltb 96 (length s.ref)) response.new_senses) ChunkError.long_ref
    ok v
