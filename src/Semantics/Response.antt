-- ===== src/Semantics/Response.antt =====
-- validateResponse of internal/semantics/types.go: the whole answer of the provider for one article.
pub mod Accepted
pub mod Coverage
pub mod Built
pub mod Layers
use doublangu.Prelude.{
  ℕ, suc, ◌+◌, Bool, true, false, not, ◌&&◌, ◌||◌, Option, none, some, List, [], ◌∷◌, ◌++◌, leb,
  ltb, ◌==◌, if◌then◌else◌, length, first, exists_where, Result, ok, err, Checked, ◌>>=◌, ◌>>◌,
  refuse, ℤ, pos, negsuc, ltb_ℤ,
}
use doublangu.Hashing.{
  Text, Block, Token, SenseCandidate, NewSense, ResolvedSpan, ResolvedSentence, PreparedArticle,
}
use doublangu.Semantics.Texts.{same_text, is_empty, is_blank_text, Unicode}
use doublangu.Semantics.Spans.{span_overlap}
use doublangu.Semantics.Anchors.{AnchorError, validate_source_sentence_anchors}
use doublangu.Semantics.Errors.{ResponseError}
use doublangu.Semantics.Senses.{
  is_text, kind_valid, last_where, max_shadow_scalars, max_pronunciation_scalars,
  safe_provider_text, validate_sense,
}
use doublangu.Semantics.Results.{
  TokenResult, out_of_range, validate_token_result, validate_sense_reference,
}
use doublangu.Semantics.Members.{
  Construction, Members, token_of, known_token, in_span, sentence_for_token, resolve_spans,
  check_members, member_run_count, construction_subtitle_forbids, validate_construction_subtitle,
}

pub record Response : Type 0 where
  pub version : Text
  pub tokens : List TokenResult
  pub new_senses : List NewSense
  pub constructions : List Construction

pub record ResolvedToken : Type 0 where
  pub token : Token
  pub result : TokenResult

pub record ResolvedConstruction : Type 0 where
  pub construction : Construction
  pub spans : List ResolvedSpan

pub record ValidatedResponse : Type 0 where
  pub response : Response
  pub sentences : List ResolvedSentence
  pub tokens : List ResolvedToken
  pub constructions : List ResolvedConstruction

abbrev pub is_contiguous : Construction → Bool
is_contiguous c = is_text c.role "contiguous_construction"

abbrev pub is_discontinuous : Construction → Bool
is_discontinuous c = is_text c.role "discontinuous_construction"

abbrev pub accepted_anchors : {A : Type 0} → Result AnchorError A → Result ResponseError A
accepted_anchors (ok a) = ok a
accepted_anchors (err e) = err (ResponseError.invalid_anchor e)

-- The map of the senses, grown in the order of a list; no reference comes twice.
unfoldable pub collect_senses :
    Unicode → List NewSense → List NewSense → Result ResponseError (List NewSense)
unfolding exists_where safe_provider_text validate_sense
collect_senses u known [] = ok known
collect_senses u known (s ∷ ss) = do
  refuse (is_empty s.ref) ResponseError.no_ref
  safe_provider_text u s.ref 120
  refuse (exists_where (λ k. same_text k.ref s.ref) known) ResponseError.duplicate_ref
  validate_sense u s
  collect_senses u (known ++ s ∷ []) ss

-- The loop over the token results.
unfoldable pub check_tokens :
    Unicode
    → PreparedArticle
    → List NewSense
    → List Text
    → List TokenResult
    → Result ResponseError (List ResolvedToken)
unfolding exists_where token_of validate_token_result
check_tokens u a senses seen [] = ok []
check_tokens u a senses seen (r ∷ rs) = do
  t ← known_token (token_of a.tokens r.token_id)
  refuse (exists_where (same_text r.token_id) seen) ResponseError.repeated_token
  validate_token_result u r t a.source_language a.target_language a.candidates senses
  rest ← check_tokens u a senses (r.token_id ∷ seen) rs
  ok (record { token = t; result = r } ∷ rest)

unfoldable pub is_missing : List TokenResult → Token → Bool
unfolding exists_where
is_missing results t = not (exists_where (λ r. same_text r.token_id t.id) results)

unfoldable pub is_outside : List ResolvedSentence → Token → Bool
unfolding sentence_for_token
is_outside anchors t = elim (sentence_for_token anchors t) [ none ↦ true | some n ↦ false ]

abbrev first_span : List ResolvedSpan → Option ResolvedSpan
first_span [] = none
first_span (s ∷ ss) = some s

-- The token lies in the container and is not among the members.
unfoldable pub is_omitted : Option ResolvedSpan → List Text → Token → Bool
unfolding exists_where
is_omitted none ids t = false
is_omitted (some s) ids t = in_span s t && not (exists_where (same_text t.id) ids)

abbrev pub no_members : Members
no_members = record { seen = []; last_block = negsuc 0; last_start = negsuc 0; sentence = none }

module _ (u : Unicode) (a : PreparedArticle) (anchors : List ResolvedSentence)
    (senses : List NewSense) where
  -- The checks of a construction before its spans.
  unfoldable pub check_construction : Construction → Checked ResponseError
  unfolding kind_valid safe_provider_text is_blank_text validate_sense_reference
  check_construction c = do
    refuse (not (is_contiguous c) && not (is_discontinuous c)) ResponseError.invalid_role
    refuse (not (kind_valid c.kind) || is_text c.kind "word") ResponseError.construction_kind
    refuse (not (is_empty c.semantic_sense_id) && not (is_empty c.new_sense_ref))
        ResponseError.two_references
    validate_sense_reference c.semantic_sense_id c.new_sense_ref c.kind a.source_language
        a.target_language a.candidates senses
    safe_provider_text u c.shadow_text max_shadow_scalars
    refuse (is_blank_text c.shadow_text) ResponseError.no_shadow
    safe_provider_text u c.canonical_pronunciation_text max_pronunciation_scalars
    safe_provider_text u c.context_pronunciation_key max_pronunciation_scalars
    refuse (out_of_range c.confidence_milli) ResponseError.confidence_range
    refuse (ltb (length c.spans) (if is_discontinuous c then 2 else 1)) ResponseError.missing_spans
    refuse (is_empty c.token_ids) ResponseError.no_tokens
    refuse (is_contiguous c && not (length c.spans == 1)) ResponseError.extra_span

  unfoldable pub check_shape : Construction → List Token → List ResolvedSpan → Checked ResponseError
  unfolding member_run_count exists_where is_omitted
  check_shape c members spans = do
    refuse (is_contiguous c && not (member_run_count members == 1)) ResponseError.not_one_run
    refuse (is_discontinuous c && ltb (member_run_count members) 2) ResponseError.too_few_runs
    refuse (is_contiguous c && exists_where (is_omitted (first_span spans) c.token_ids) a.tokens)
        ResponseError.omits_token

  unfoldable pub validate_construction : Construction → Result ResponseError ResolvedConstruction
  unfolding check_construction resolve_spans check_members check_shape construction_subtitle_forbids
      validate_construction_subtitle
  validate_construction c = do
    check_construction c
    spans ← resolve_spans a.blocks none c.spans
    members ← check_members a.tokens anchors spans no_members c.token_ids
    check_shape c members spans
    validate_construction_subtitle u c.shadow_text
        (construction_subtitle_forbids c members spans a.candidates senses)
    ok (record { construction = c; spans = spans })

  unfoldable pub validate_constructions :
      List Construction → Result ResponseError (List ResolvedConstruction)
  unfolding validate_construction
  validate_constructions [] = ok []
  validate_constructions (c ∷ cs) = do
    r ← validate_construction c
    rest ← validate_constructions cs
    ok (r ∷ rest)

-- The only span of a contiguous construction.
abbrev pub container_of : ResolvedConstruction → Option ResolvedSpan
container_of r =
    if not (is_contiguous r.construction) || not (length r.spans == 1)
    then none
    else first_span r.spans

unfoldable pub overlaps : Option ResolvedSpan → Option ResolvedSpan → Bool
unfolding span_overlap
overlaps none b = false
overlaps (some a) none = false
overlaps (some a) (some b) = span_overlap a b

-- The two loops over the pairs of constructions.
unfoldable pub check_layers : List ResolvedConstruction → Checked ResponseError
unfolding exists_where overlaps
check_layers [] = ok tt
check_layers (left ∷ rest) = do
  refuse (exists_where (λ right. overlaps (container_of left) (container_of right)) rest)
      ResponseError.overlap
  check_layers rest

-- ValidateResponseWithPrior; ValidateResponse has no prior senses.
unfoldable pub validate_response :
    Unicode → PreparedArticle → Response → List NewSense → Result ResponseError ValidatedResponse
unfolding collect_senses check_tokens exists_where is_missing validate_source_sentence_anchors
    is_outside validate_constructions check_layers
validate_response u a response prior = do
  refuse (not (is_text response.version "reader.analysis.v3")) ResponseError.unsupported_version
  refuse (not (length response.tokens == length a.tokens)) ResponseError.token_coverage
  known ← collect_senses u [] prior
  senses ← collect_senses u known response.new_senses
  tokens ← check_tokens u a senses [] response.tokens
  refuse (exists_where (is_missing response.tokens) a.tokens) ResponseError.missing_token
  anchors ← accepted_anchors (validate_source_sentence_anchors a)
  refuse (exists_where (is_outside anchors) a.tokens) ResponseError.outside_anchors
  constructions ← validate_constructions u a anchors senses response.constructions
  check_layers constructions
  ok (record {
    response = response;
    sentences = anchors;
    tokens = tokens;
    constructions = constructions;
  })
