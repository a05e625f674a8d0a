-- ===== src/Semantics/Members.antt =====
-- The spans and the member tokens of one construction: the loops of validateResponse over them, and
-- memberRunCount, constructionSubtitleForbids and validateConstructionSubtitle, of
-- internal/semantics/types.go.
use doublangu.Prelude.{
  ℕ, zero, suc, ◌+◌, Bool, true, false, not, ◌&&◌, ◌||◌, Option, none, some, List, [], ◌∷◌, ◌++◌,
  map, if◌then◌else◌, first, exists_where, Result, ok, err, Checked, ◌>>=◌, ◌>>◌, refuse, ℤ, pos,
  negsuc, ltb_ℤ,
}
use doublangu.Hashing.{Text, Block, Token, SenseCandidate, NewSense, ResolvedSpan, ResolvedSentence}
use doublangu.Semantics.Texts.{same_text, is_empty, Unicode, normalize_form}
use doublangu.Semantics.Spans.{SpanError, same_int, resolve_span}
use doublangu.Semantics.Anchors.{block_at}
use doublangu.Semantics.Errors.{ResponseError}
use doublangu.Semantics.Senses.{last_where, normalized}
use doublangu.Semantics.Results.{candidate_of, sense_of, equals_normalized, text_of}

pub record SpanRef : Type 0 where
  pub block_index : ℤ
  pub source_text : Text
  pub occurrence : ℤ

pub record Construction : Type 0 where
  pub kind : Text
  pub role : Text
  pub semantic_sense_id : Text
  pub new_sense_ref : Text
  pub shadow_text : Text
  pub canonical_pronunciation_text : Text
  pub context_pronunciation_key : Text
  pub confidence_milli : ℤ
  pub token_ids : List Text
  pub spans : List SpanRef

-- tokenByID[id]
unfoldable pub token_of : List Token → Text → Option Token
unfolding last_where
token_of tokens id = last_where (λ t. same_text t.id id) tokens

-- The token stands within the span.
abbrev pub in_span : ResolvedSpan → Token → Bool
in_span s t =
    same_int s.block_index t.block_index
    && not (ltb_ℤ t.start_utf16 s.start_utf16)
    && not (ltb_ℤ s.end_utf16 t.end_utf16)

abbrev index_of : Option ResolvedSentence → Option ℤ
index_of none = none
index_of (some s) = some s.index

-- sentenceForToken, `none` for -1
unfoldable pub sentence_for_token : List ResolvedSentence → Token → Option ℤ
unfolding first
sentence_for_token anchors t = index_of (first (λ s. in_span s.span t) anchors)

abbrev pub resolved {ℓ} : {A : Type ℓ} → Result SpanError A → Result ResponseError A
resolved (ok a) = ok a
resolved (err e) = err (ResponseError.not_resolved e)

abbrev resolve_in : Option Block → SpanRef → Result ResponseError ResolvedSpan
resolve_in none ref = err ResponseError.invalid_block
resolve_in (some b) ref = resolved (resolve_span b ref.source_text ref.occurrence)

abbrev follows_span : Option ResolvedSpan → ResolvedSpan → Bool
follows_span none s = true
follows_span (some p) s =
    same_int s.block_index p.block_index && not (ltb_ℤ s.start_utf16 p.end_utf16)

-- The loop over the spans of a construction.
unfoldable pub resolve_spans :
    List Block → Option ResolvedSpan → List SpanRef → Result ResponseError (List ResolvedSpan)
unfolding resolve_span
resolve_spans blocks previous [] = ok []
resolve_spans blocks previous (ref ∷ refs) = do
  span ← resolve_in (block_at blocks ref.block_index) ref
  refuse (not (follows_span previous span)) ResponseError.spans_out_of_order
  rest ← resolve_spans blocks (some span) refs
  ok (span ∷ rest)

-- The variables of the loop over the member tokens.
pub record Members : Type 0 where
  pub seen : List Text
  pub last_block : ℤ
  pub last_start : ℤ
  pub sentence : Option ℤ

abbrev pub known_token : Option Token → Result ResponseError Token
known_token none = err ResponseError.unknown_token
known_token (some t) = ok t

abbrev pub known_sentence : Option ℤ → Result ResponseError ℤ
known_sentence none = err ResponseError.outside_anchors
known_sentence (some n) = ok n

abbrev other_sentence : Option ℤ → ℤ → Bool
other_sentence none owner = false
other_sentence (some n) owner = not (same_int owner n)

module _ (tokens : List Token) (anchors : List ResolvedSentence) (spans : List ResolvedSpan) where
  unfoldable pub check_member : Members → Text → Result ResponseError Token
  unfolding exists_where sentence_for_token token_of
  check_member m id = do
    t ← known_token (token_of tokens id)
    refuse (exists_where (same_text id) m.seen) ResponseError.repeated_token
    refuse
        (not (ltb_ℤ m.last_block (pos 0))
          && (not (same_int t.block_index m.last_block) || not (ltb_ℤ m.last_start t.start_utf16)))
        ResponseError.members_out_of_order
    refuse (not (exists_where (λ s. in_span s t) spans)) ResponseError.outside_spans
    owner ← known_sentence (sentence_for_token anchors t)
    refuse (other_sentence m.sentence owner) ResponseError.crosses_sentence
    ok t

  unfoldable pub after_member : Members → Text → Token → Members
  unfolding sentence_for_token
  after_member m id t = record {
    seen = id ∷ m.seen;
    last_block = t.block_index;
    last_start = t.start_utf16;
    sentence = sentence_for_token anchors t;
  }

  unfoldable pub check_members : Members → List Text → Result ResponseError (List Token)
  unfolding check_member after_member
  check_members m [] = ok []
  check_members m (id ∷ ids) = do
    t ← check_member m id
    rest ← check_members (after_member m id t) ids
    ok (t ∷ rest)

abbrev succ_int : ℤ → ℤ
succ_int (pos n) = pos (suc n)
succ_int (negsuc zero) = pos 0
succ_int (negsuc (suc n)) = negsuc n

abbrev is_next : Token → Token → Bool
is_next p t =
    same_int t.block_index p.block_index && same_int t.token_index (succ_int p.token_index)

unfoldable pub runs_after : Token → List Token → ℕ
runs_after p [] = 0
runs_after p (t ∷ ts) = (if is_next p t then 0 else 1) + runs_after t ts

unfoldable pub member_run_count : List Token → ℕ
unfolding runs_after
member_run_count [] = 0
member_run_count (t ∷ ts) = suc (runs_after t ts)

-- strings.Join(parts, " ")
unfoldable pub join_words : List Text → Text
join_words [] = []
join_words (w ∷ []) = w
join_words (w ∷ v ∷ vs) = w ++ (32 ∷ join_words (v ∷ vs))

abbrev candidate_form : Option SenseCandidate → List Text
candidate_form none = []
candidate_form (some c) = c.canonical_form ∷ []

abbrev sense_form : Option NewSense → List Text
sense_form none = []
sense_form (some s) = s.canonical_form ∷ []

unfoldable pub construction_subtitle_forbids :
    Construction → List Token → List ResolvedSpan → List SenseCandidate → List NewSense → List Text
unfolding join_words candidate_of sense_of
construction_subtitle_forbids c members spans candidates senses =
    (if is_empty members then [] else join_words (map (λ t. t.source_text) members) ∷ [])
    ++ (map (λ s. s.source_text) spans
        ++ ((if is_empty c.semantic_sense_id
              then []
              else candidate_form (candidate_of candidates c.semantic_sense_id))
            ++ (if is_empty c.new_sense_ref
                then []
                else sense_form (sense_of senses c.new_sense_ref))))

unfoldable pub validate_construction_subtitle : Unicode → Text → List Text → Checked ResponseError
unfolding normalize_form exists_where
validate_construction_subtitle u shadow forbids = do
  form ← normalized (normalize_form u shadow)
  refuse
      (exists_where
        (λ f.
          not (is_empty (text_of (normalize_form u f)))
          && equals_normalized form (normalize_form u f))
        forbids)
      ResponseError.copies_source
