-- ===== src/Semantics/Linguistic/Validate.antt =====
-- ValidateLinguistic of internal/semantics/stages.go, with the order in which the constructions get
-- their identifiers. It checks spans and members as validateResponse does, by the same functions.
use doublangu.Prelude.{
  ℕ, suc, Bool, not, ◌&&◌, ◌||◌, none, List, [], ◌∷◌, ◌++◌, map, if◌then◌else◌, ltb, ◌==◌, length,
  exists_where, Result, ok, Checked, ◌>>=◌, ◌>>◌, refuse, ℤ, pos, ltb_ℤ,
}
use doublangu.Hashing.{Text, Token, ResolvedSpan, ResolvedSentence, PreparedArticle, PreparedChunk}
use doublangu.Semantics.Texts.{same_text, text_less, is_empty, Unicode}
use doublangu.Semantics.Spans.{same_int}
use doublangu.Semantics.Anchors.{validate_source_sentence_anchors}
use doublangu.Semantics.Errors.{ResponseError}
use doublangu.Semantics.Senses.{max_pronunciation_scalars, is_text, kind_valid, safe_provider_text}
use doublangu.Semantics.Results.{out_of_range}
use doublangu.Semantics.Members.{token_of, known_token, resolve_spans, check_members}
use doublangu.Semantics.Response.{
  is_contiguous, is_discontinuous, accepted_anchors, is_outside, no_members, check_shape,
  check_layers,
}
use doublangu.Semantics.Encoding.{decimal}
use doublangu.Semantics.Chunks.{article_of_chunk}
use doublangu.Semantics.Linguistic.{
  LinguisticTokenResult, LinguisticConstruction, LinguisticArtifact,
  ValidatedLinguisticConstruction, ValidatedLinguistic, with_shadow, SenseMap, collect_prior,
  collect_new, validate_linguistic_token_result, validate_linguistic_construction_reference,
}

-- linguisticResolvedConstruction
pub record ResolvedLinguistic : Type 0 where
  pub construction : LinguisticConstruction
  pub spans : List ResolvedSpan
  pub members : List Token

-- strings.Join(parts, "\x00")
abbrev join_zero : List Text → Text
join_zero [] = []
join_zero (s ∷ []) = s
join_zero (s ∷ t ∷ ts) = s ++ 0 ∷ join_zero (t ∷ ts)

abbrev first_index : List Token → ℤ
first_index [] = pos 0
first_index (t ∷ ts) = t.token_index

abbrev last_index : List Token → ℤ
last_index [] = pos 0
last_index (t ∷ []) = t.token_index
last_index (t ∷ s ∷ ts) = last_index (s ∷ ts)

unfoldable pub construction_sort_less : ResolvedLinguistic → ResolvedLinguistic → Bool
construction_sort_less l r =
    if not (same_int (first_index l.members) (first_index r.members))
    then ltb_ℤ (first_index l.members) (first_index r.members)
    else if not (same_int (last_index l.members) (last_index r.members))
    then ltb_ℤ (last_index l.members) (last_index r.members)
    else if not (same_text l.construction.role r.construction.role)
    then text_less l.construction.role r.construction.role
    else if not (same_text l.construction.kind r.construction.kind)
    then text_less l.construction.kind r.construction.kind
    else if not
        (same_text (join_zero l.construction.token_ids) (join_zero r.construction.token_ids))
    then text_less (join_zero l.construction.token_ids) (join_zero r.construction.token_ids)
    else text_less (join_zero (map (λ s. s.source_text) l.spans))
        (join_zero (map (λ s. s.source_text) r.spans))

-- sort.SliceStable
unfoldable pub insert_construction :
    ResolvedLinguistic → List ResolvedLinguistic → List ResolvedLinguistic
unfolding construction_sort_less
insert_construction x [] = x ∷ []
insert_construction x (y ∷ ys) =
    let rest = insert_construction x ys in
    if construction_sort_less y x then y ∷ rest else x ∷ y ∷ ys

unfoldable pub sort_constructions : List ResolvedLinguistic → List ResolvedLinguistic
unfolding insert_construction
sort_constructions [] = []
sort_constructions (x ∷ xs) = insert_construction x (sort_constructions xs)

-- fmt.Sprintf("b%d:c%d", block, index)
unfoldable pub identified : ℤ → ℕ → List ResolvedLinguistic → List ValidatedLinguisticConstruction
unfolding decimal
identified block index [] = []
identified block index (x ∷ xs) =
    record {
      construction_id = b'b' ∷ (decimal block ++ b':' ∷ b'c' ∷ decimal (pos index));
      construction = x.construction;
      spans = x.spans;
    }
    ∷ identified block (suc index) xs

module _ (u : Unicode) (a : PreparedArticle) (senses : SenseMap) where
  unfoldable pub check_linguistic_tokens :
      List Text → List LinguisticTokenResult → Checked ResponseError
  unfolding exists_where token_of validate_linguistic_token_result
  check_linguistic_tokens seen [] = ok tt
  check_linguistic_tokens seen (r ∷ rs) = do
    known_token (token_of a.tokens r.token_id)
    refuse (exists_where (same_text r.token_id) seen) ResponseError.repeated_token
    validate_linguistic_token_result u r a.source_language a.target_language a.candidates senses
    check_linguistic_tokens (r.token_id ∷ seen) rs

  -- The checks of a construction before its spans.
  unfoldable pub check_linguistic_construction : LinguisticConstruction → Checked ResponseError
  unfolding kind_valid safe_provider_text validate_linguistic_construction_reference with_shadow
  check_linguistic_construction c = do
    refuse (not (is_contiguous (with_shadow c [])) && not (is_discontinuous (with_shadow c [])))
        ResponseError.invalid_role
    refuse (not (kind_valid c.kind) || is_text c.kind "word") ResponseError.construction_kind
    refuse (not (is_empty c.semantic_sense_id) && not (is_empty c.new_sense_ref))
        ResponseError.two_references
    validate_linguistic_construction_reference c.semantic_sense_id c.new_sense_ref c.kind
        a.candidates senses
    safe_provider_text u c.canonical_pronunciation_text max_pronunciation_scalars
    safe_provider_text u c.context_pronunciation_key max_pronunciation_scalars
    refuse (out_of_range c.confidence_milli) ResponseError.confidence_range
    refuse (ltb (length c.spans) (if is_discontinuous (with_shadow c []) then 2 else 1))
        ResponseError.missing_spans
    refuse (is_empty c.token_ids) ResponseError.no_tokens
    refuse (is_contiguous (with_shadow c []) && not (length c.spans == 1)) ResponseError.extra_span

  unfoldable pub validate_linguistic_constructions :
      List ResolvedSentence
      → List LinguisticConstruction
      → Result ResponseError (List ResolvedLinguistic)
  unfolding check_linguistic_construction resolve_spans check_members check_shape with_shadow
  validate_linguistic_constructions anchors [] = ok []
  validate_linguistic_constructions anchors (c ∷ cs) = do
    check_linguistic_construction c
    spans ← resolve_spans a.blocks none c.spans
    members ← check_members a.tokens anchors spans no_members c.token_ids
    check_shape u a anchors [] (with_shadow c []) members spans
    rest ← validate_linguistic_constructions anchors cs
    ok (record { construction = c; spans = spans; members = members } ∷ rest)

unfoldable pub omits_token : List LinguisticTokenResult → Token → Bool
unfolding exists_where
omits_token results t = not (exists_where (λ r. same_text r.token_id t.id) results)

unfoldable pub validate_linguistic :
    Unicode → PreparedChunk → LinguisticArtifact → Result ResponseError ValidatedLinguistic
unfolding article_of_chunk collect_prior collect_new check_linguistic_tokens exists_where
    omits_token validate_source_sentence_anchors is_outside validate_linguistic_constructions
    check_layers with_shadow sort_constructions identified
validate_linguistic u chunk artifact = do
  refuse (not (is_text artifact.version "reader.linguistic.v1")) ResponseError.unsupported_version
  refuse (not (length artifact.tokens == length chunk.tokens)) ResponseError.token_coverage
  known ← collect_prior u [] chunk.prior_validated_senses
  senses ← collect_new u known artifact.new_senses
  check_linguistic_tokens u (article_of_chunk chunk) senses [] artifact.tokens
  refuse (exists_where (omits_token artifact.tokens) chunk.tokens) ResponseError.missing_token
  anchors ← accepted_anchors (validate_source_sentence_anchors (article_of_chunk chunk))
  refuse (exists_where (is_outside anchors) chunk.tokens) ResponseError.outside_anchors
  resolved ←
      validate_linguistic_constructions u (article_of_chunk chunk) senses anchors
        artifact.constructions
  check_layers (
      map
        (λ (x : ResolvedLinguistic). record {
          construction = with_shadow x.construction [];
          spans = x.spans;
        })
        resolved)
  ok (record {
    version = artifact.version;
    tokens = artifact.tokens;
    new_senses = artifact.new_senses;
    constructions = identified chunk.block.block_index 0 (sort_constructions resolved);
  })
