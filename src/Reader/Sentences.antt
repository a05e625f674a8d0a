-- ===== src/Reader/Sentences.antt =====
-- The sentences of a paragraph: internal/reader/sentences.go, with SegmentArticleSentences of
-- internal/reader/v2_store.go.
-- A byte offset is the number of code points before it. The text is valid UTF-8 by its type.
pub mod Cover
pub mod Scanned
pub mod Segmented
pub mod Passing
pub mod Anchored
use doublangu.Prelude.{
  ℕ, zero, suc, ◌+◌, ◌-◌, String, Bool, true, false, not, ◌&&◌, ◌||◌, Option, none, some, List, [],
  ◌∷◌, ◌++◌, leb, ltb, ◌==◌, if◌then◌else◌, codes, is_space, length, map, count_where, all_where,
  exists_where, pos, negsuc, ℤ,
}
use doublangu.Hashing.{Text, Block, ResolvedSpan, ResolvedSentence}
use doublangu.Semantics.Texts.{
  is_empty, take, drop, slice, leading_run, trailing_run, utf16_len, Unicode,
}
use doublangu.Reader.Periods.{is_terminator_punctuation, period_ends_sentence, closing_run}

pub record SentenceSpan : Type 0 where
  pub start_utf16 : ℕ
  pub end_utf16 : ℕ
  pub source_text : Text

pub record RawSpan : Type 0 where
  pub start : ℕ
  pub end : ℕ

-- The bounds of the unit from `unit_start` to `end` without the spaces at its edges.
unfoldable pub trimmed_start : Text → ℕ → ℕ → ℕ
unfolding leading_run is_space
trimmed_start text unit_start end = unit_start + leading_run is_space (slice text unit_start end)

unfoldable pub trimmed_end : Text → ℕ → ℕ → ℕ
unfolding trailing_run is_space
trimmed_end text start end = end - trailing_run is_space (slice text start end)

-- the closure `flush`
unfoldable pub flush : Text → ℕ → List RawSpan → ℕ → List RawSpan
unfolding trimmed_start trimmed_end
flush text unit_start spans end =
    let start = trimmed_start text unit_start end in
    let trailing = trimmed_end text start end in
    if ltb start trailing then spans ++ record { start = start; end = trailing } ∷ [] else spans

-- The variables of the loop of SegmentSentences: `at` is byteIndex.
pub record Scan : Type 0 where
  pub at : ℕ
  pub unit_start : ℕ
  pub saw_non_whitespace : Bool
  pub spans : List RawSpan

module _ (u : Unicode) where
  -- The end of the sentence whose terminator stands before `s`, `at` being the terminator's place.
  unfoldable pub sentence_end : Text → ℕ → ℕ
  unfolding closing_run
  sentence_end s at = suc at + closing_run u s

  unfoldable pub end_sentence : Text → Text → Scan → Scan
  unfolding flush sentence_end leading_run is_space
  end_sentence text s st =
      let end = sentence_end s st.at in
      record {
        at = end + leading_run is_space (drop end text);
        unit_start = end;
        saw_non_whitespace = false;
        spans = flush text st.unit_start st.spans end;
      }

  -- One round of the loop, at the code point `r` before `s`.
  unfoldable pub scan_rune : Text → ℕ → Text → Scan → Scan
  unfolding is_space is_terminator_punctuation period_ends_sentence end_sentence
  scan_rune text r s st =
      if is_space r
      then record st { at = suc st.at }
      else if not (is_terminator_punctuation r) || not st.saw_non_whitespace
      then record st { at = suc st.at; saw_non_whitespace = true }
      else if r == b'.' && not (period_ends_sentence u text st.at)
      then record st { at = suc st.at }
      else end_sentence text s st

  -- The loop, `none` where the fuel is short, and the flush behind it.
  unfoldable pub scan_runes : ℕ → Text → Scan → Option (List RawSpan)
  unfolding flush scan_rune
  scan_runes zero text st = none
  scan_runes (suc fuel) text st = elim (drop st.at text) [
    | [] ↦ some (flush text st.unit_start st.spans (length text))
    | r ∷ s ↦ scan_runes fuel text (scan_rune text r s st)
  ]

unfoldable pub sentence_span : Text → RawSpan → SentenceSpan
unfolding utf16_len
sentence_span text span = record {
  start_utf16 = utf16_len (take span.start text);
  end_utf16 = utf16_len (take span.start text) + utf16_len (slice text span.start span.end);
  source_text = slice text span.start span.end;
}

abbrev spans_of : Text → Option (List RawSpan) → Option (List SentenceSpan)
spans_of text none = none
spans_of text (some spans) = some (map (sentence_span text) spans)

unfoldable pub segment_sentences : Unicode → Text → Option (List SentenceSpan)
unfolding scan_runes sentence_span
segment_sentences u text = spans_of text (
    scan_runes u (suc (length text)) text
      (record { at = 0; unit_start = 0; saw_non_whitespace = false; spans = [] }))

-- SegmentArticleSentences
abbrev pub anchor_of : ℤ → ℕ → SentenceSpan → ResolvedSentence
anchor_of block_index n x = record {
  index = pos n;
  span = record {
    block_index = block_index;
    start_utf16 = pos x.start_utf16;
    end_utf16 = pos x.end_utf16;
    source_text = x.source_text;
  };
}

unfoldable pub anchor_from : ℤ → ℕ → List SentenceSpan → List ResolvedSentence
anchor_from block_index n [] = []
anchor_from block_index n (x ∷ xs) = anchor_of block_index n x ∷ anchor_from block_index (suc n) xs

abbrev pub append_anchors :
    ℤ → Option (List SentenceSpan) → Option (List ResolvedSentence) → Option (List ResolvedSentence)
append_anchors block_index none rest = none
append_anchors block_index (some xs) none = none
append_anchors block_index (some xs) (some rest) = some (anchor_from block_index 0 xs ++ rest)

unfoldable pub segment_article_sentences : Unicode → List Block → Option (List ResolvedSentence)
unfolding segment_sentences anchor_from
segment_article_sentences u [] = some []
segment_article_sentences u (b ∷ bs) =
    append_anchors b.block_index (segment_sentences u b.source_text)
      (segment_article_sentences u bs)
