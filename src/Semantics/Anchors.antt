-- ===== src/Semantics/Anchors.antt =====
-- validateSourceSentenceAnchors of internal/semantics/types.go.
-- The map `byBlock` is the list of the sentences appended so far; its entry for a block is `select`.
pub mod Ordered
use doublangu.Prelude.{
  ℕ, zero, suc, Bool, true, false, not, ◌||◌, Option, none, some, List, [], ◌∷◌, ◌++◌, leb, ltb,
  ◌==◌, if◌then◌else◌, length, select, Result, Checked, ok, err, ℤ, pos, negsuc, ltb_ℤ,
}
use doublangu.Hashing.{Text, Block, ResolvedSpan, ResolvedSentence, PreparedArticle}
use doublangu.Semantics.Texts.{same_text}
use doublangu.Semantics.Spans.{SpanError, same_int, slice_for_utf16}

pub data AnchorError : Type 0 where
  invalid_block invalid_offsets mismatch not_sequential out_of_order : AnchorError
  not_sliced : SpanError → AnchorError

-- blocks[index], where it is in range
abbrev pub nth_block : List Block → ℕ → Option Block
nth_block [] n = none
nth_block (b ∷ bs) zero = some b
nth_block (b ∷ bs) (suc n) = nth_block bs n

abbrev pub block_at : List Block → ℤ → Option Block
block_at bs (pos n) = nth_block bs n
block_at bs (negsuc n) = none

abbrev pub in_block : ℤ → ResolvedSentence → Bool
in_block index s = same_int index s.span.block_index

-- the end of the last sentence of a block
abbrev pub previous_end : ℤ → List ResolvedSentence → ℤ
previous_end last [] = last
previous_end last (s ∷ ss) = previous_end s.span.end_utf16 ss

unfoldable pub check_place : List ResolvedSentence → ResolvedSentence → Checked AnchorError
check_place block s =
    if not (same_int s.index (pos (length block)))
    then err AnchorError.not_sequential
    else if ltb_ℤ s.span.start_utf16 (previous_end (pos 0) block)
    then err AnchorError.out_of_order
    else ok tt

unfoldable pub check_slice :
    Result SpanError Text → List ResolvedSentence → ResolvedSentence → Checked AnchorError
unfolding check_place
check_slice (err e) block s = err (AnchorError.not_sliced e)
check_slice (ok text) block s =
    if same_text text s.span.source_text then check_place block s else err AnchorError.mismatch

unfoldable pub check_anchor :
    Option Block → List ResolvedSentence → ResolvedSentence → Checked AnchorError
unfolding check_slice slice_for_utf16
check_anchor none block s = err AnchorError.invalid_block
check_anchor (some b) block s =
    if ltb_ℤ s.span.start_utf16 (pos 0) || not (ltb_ℤ s.span.start_utf16 s.span.end_utf16)
    then err AnchorError.invalid_offsets
    else check_slice (slice_for_utf16 b.source_text s.span.start_utf16 s.span.end_utf16) block s

-- The loop over the supplied sentences.
unfoldable pub check_anchors :
    List Block
    → List ResolvedSentence
    → List ResolvedSentence
    → Result AnchorError (List ResolvedSentence)
unfolding check_anchor
check_anchors blocks kept [] = ok kept
check_anchors blocks kept (s ∷ ss) =
    elim (check_anchor (block_at blocks s.span.block_index)
      (select (in_block s.span.block_index) kept) s) [
        | err e ↦ err e
        | ok u ↦ check_anchors blocks (kept ++ s ∷ []) ss
      ]

-- The loop that gathers the sentences block by block.
unfoldable pub gather : List ResolvedSentence → ℕ → List Block → List ResolvedSentence
unfolding select
gather kept index [] = []
gather kept index (b ∷ bs) = select (in_block (pos index)) kept ++ gather kept (suc index) bs

abbrev pub gathered :
    List Block
    → Result AnchorError (List ResolvedSentence)
    → Result AnchorError (List ResolvedSentence)
gathered blocks (err e) = err e
gathered blocks (ok kept) = ok (gather kept 0 blocks)

unfoldable pub validate_source_sentence_anchors :
    PreparedArticle → Result AnchorError (List ResolvedSentence)
unfolding check_anchors gather
validate_source_sentence_anchors a = gathered a.blocks (check_anchors a.blocks [] a.sentences)
