-- ===== src/Semantics/Merging.antt =====
-- NamespaceChunkResponse and MergeChunks of internal/semantics/chunks.go.
pub mod Namespaced
use doublangu.Prelude.{
  ℕ, zero, suc, ◌+◌, String, Bool, true, false, not, ◌&&◌, ◌||◌, Option, none, some, List, [], ◌∷◌,
  ◌++◌, map, pos, negsuc, ℤ, ltb_ℤ, leb, ltb, ◌==◌, if◌then◌else◌, codes, length, select,
  exists_where, Result, ok, err, Checked, ◌>>=◌, ◌>>◌, refuse, str_eq, first, has_no_text,
}
use doublangu.Hashing.{
  Text, Block, Token, SenseCandidate, NewSense, ResolvedSpan, ResolvedSentence, PreparedArticle,
  PreparedChunk, chunk_input_hash,
}
use doublangu.Semantics.Texts.{same_text, is_empty, index, Unicode, normalize_form}
use doublangu.Semantics.Spans.{same_int}
use doublangu.Semantics.Anchors.{block_at}
use doublangu.Semantics.Errors.{ResponseError}
use doublangu.Semantics.Results.{TokenResult, text_of}
use doublangu.Semantics.Members.{Construction}
use doublangu.Semantics.Response.{
  Response, ResolvedConstruction, ValidatedResponse, validate_response,
}
use doublangu.Semantics.Encoding.{utf8_chunk, decimal}
use doublangu.Semantics.Chunks.{
  ChunkError, ChunkResult, rejected_or, prepare_chunk, validate_chunk_response,
}

-- fmt.Sprintf("b%d:%s", block, local)
unfoldable pub namespaced_ref : ℤ → Text → Text
unfolding decimal
namespaced_ref block local = b'b' ∷ (decimal block ++ b':' ∷ local)

-- rewrite[ref], or the reference itself
unfoldable pub rewrite_ref : List (Text × Text) → Text → Text
rewrite_ref [] ref = ref
rewrite_ref ((local, renamed) ∷ rest) ref =
    let later = rewrite_ref rest ref in if same_text local ref then renamed else later

unfoldable pub has_ref : List NewSense → Text → Bool
unfolding exists_where
has_ref prior ref = exists_where (λ s. same_text s.ref ref) prior

-- The loop over the new senses, which returns the map `rewrite`.
unfoldable pub rewrite_senses :
    ℤ → List NewSense → List (Text × Text) → List NewSense → Result ChunkError (List (Text × Text))
unfolding has_ref namespaced_ref exists_where
rewrite_senses block prior rewrite [] = ok rewrite
rewrite_senses block prior rewrite (s ∷ ss) = do
  refuse (has_ref prior s.ref) ChunkError.collides
  refuse (is_empty s.ref) ChunkError.empty_ref
  refuse (ltb 120 (length (namespaced_ref block s.ref))) ChunkError.long_namespaced
  refuse (has_ref prior (namespaced_ref block s.ref)) ChunkError.collides
  refuse (exists_where (λ entry. same_text entry.1 (namespaced_ref block s.ref)) rewrite)
      ChunkError.same_namespaced
  rewrite_senses block prior ((s.ref, namespaced_ref block s.ref) ∷ rewrite) ss

unfoldable pub renamed_sense : ℤ → NewSense → NewSense
unfolding namespaced_ref
renamed_sense block s = record s { ref = namespaced_ref block s.ref }

unfoldable pub rewritten_result : List (Text × Text) → TokenResult → TokenResult
unfolding rewrite_ref
rewritten_result rewrite r = record r { new_sense_ref = rewrite_ref rewrite r.new_sense_ref }

unfoldable pub rewritten_construction : List (Text × Text) → Construction → Construction
unfolding rewrite_ref
rewritten_construction rewrite c = record c { new_sense_ref = rewrite_ref rewrite c.new_sense_ref }

unfoldable pub renamed_response : ℤ → List (Text × Text) → Response → Response
unfolding renamed_sense rewritten_result rewritten_construction
renamed_response block rewrite response = record {
  version = response.version;
  tokens = map (rewritten_result rewrite) response.tokens;
  new_senses = map (renamed_sense block) response.new_senses;
  constructions = map (rewritten_construction rewrite) response.constructions;
}

unfoldable pub namespace_chunk_response : ℤ → Response → List NewSense → Result ChunkError Response
unfolding exists_where rewrite_senses renamed_response
namespace_chunk_response block response prior = do
  refuse (exists_where (λ s. is_empty s.ref) prior) ChunkError.empty_prior_ref
  rewrite ← rewrite_senses block prior [] response.new_senses
  ok (renamed_response block rewrite response)

abbrev append_response : Response → Response → Response
append_response merged r = record merged {
  tokens = merged.tokens ++ r.tokens;
  new_senses = merged.new_senses ++ r.new_senses;
  constructions = merged.constructions ++ r.constructions;
}

module _ (u : Unicode) (sum : Text → String) (a : PreparedArticle) where
  -- The loop of MergeChunks: `merged` is what has been merged; its new senses are `prior`.
  unfoldable pub merge_from : ℕ → Response → List ChunkResult → Result ChunkError Response
  unfolding prepare_chunk validate_chunk_response namespace_chunk_response
  merge_from index merged [] = ok merged
  merge_from index merged (item ∷ items) = do
    refuse (not (same_int item.chunk.block.block_index (pos index))) ChunkError.out_of_order
    expected ← prepare_chunk u sum a (pos index) merged.new_senses
    refuse (not (str_eq item.chunk.input_hash expected.input_hash)) ChunkError.stale_chunk
    v ← validate_chunk_response u sum expected item.response
    r ← namespace_chunk_response (pos index) v.response merged.new_senses
    merge_from (suc index) (append_response merged r) items

  abbrev empty_response : Response
  empty_response = record {
    version = codes "reader.analysis.v3";
    tokens = [];
    new_senses = [];
    constructions = [];
  }

  unfoldable pub merge_chunks : List ChunkResult → Result ChunkError Response
  unfolding merge_from validate_response
  merge_chunks chunks = do
    refuse (not (length chunks == length a.blocks)) ChunkError.chunk_count
    merged ← merge_from 0 empty_response chunks
    rejected_or (validate_response u a merged [])
    ok merged
