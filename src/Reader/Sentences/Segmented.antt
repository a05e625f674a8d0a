-- ===== src/Reader/Sentences/Segmented.antt =====
-- What SegmentSentences returns: the sentences in order, and nothing but spaces around them.
use doublangu.Prelude.{
  ℕ, suc, ◌+◌, ◌≤◌, ◌<◌, ◌≡◌, refl, sym, subst, ap, ◌∙◌, true, false, some, List, [], ◌∷◌, ◌++◌,
  arith, length, map, inl, inr,
}
use doublangu.Hashing.{Text}
use doublangu.Semantics.Texts.{
  is_empty, List-cases, take, drop, slice, utf16_len, Unicode, is_blank_text, append_nil,
  utf16_len-append,
}
use doublangu.Semantics.Texts.Slices.{length-slice, drop-slice, drop_all, take-slice}
use doublangu.Reader.Sentences.{SentenceSpan, RawSpan, sentence_span, spans_of, segment_sentences}
use doublangu.Reader.Sentences.Cover.{IsCover}
use doublangu.Reader.Sentences.Scanned.{scan_runes-IsCover}

-- The sentences `xs` of the rest `text` of a paragraph, `from` being the code units before it: spaces
-- alone stand before each sentence and after the last, a sentence is not empty, its text stands in
-- the paragraph as it is, and its offsets are those of that text.
pub data IsSegmented : ℕ → Text → List SentenceSpan → Type 0 where
  blank : (from : ℕ) (text : Text) → is_blank_text text ≡ true → IsSegmented from text []
  sentence :
      (from : ℕ) (text gap rest : Text) (x : SentenceSpan) (xs : List SentenceSpan)
      → text ≡ gap ++ (x.source_text ++ rest)
      → is_blank_text gap ≡ true
      → is_empty x.source_text ≡ false
      → x.start_utf16 ≡ from + utf16_len gap
      → x.end_utf16 ≡ x.start_utf16 + utf16_len x.source_text
      → IsSegmented x.end_utf16 rest xs
      → IsSegmented from text (x ∷ xs)

blank_nothing : is_blank_text [] ≡ true
unfolding is_blank_text
blank_nothing = refl

nonempty_slice :
    (text : Text) (a b : ℕ) → a < b → b ≤ length text → is_empty (slice text a b) ≡ false
nonempty_slice text a b h k = elim (List-cases (slice text a b)) [
  | inl e ↦ absurd (omega (arith, length-slice text a b k, ap length e))
  | inr (c, s, e) ↦ rw e refl
]

cover_within : (text : Text) (from to : ℕ) (xs : List RawSpan) → IsCover text from xs to → from ≤ to
cover_within text from to [] h = h.0
cover_within text from to (x ∷ xs) (h, b, l, r) = omega (arith, cover_within text x.end to xs r)

cover-IsSegmented :
    (text : Text) (from : ℕ) (xs : List RawSpan)
    → IsCover text from xs (length text)
    → IsSegmented (utf16_len (take from text)) (drop from text) (map (sentence_span text) xs)
unfolding sentence_span
cover-IsSegmented text from [] (h, b) = IsSegmented.blank _ (drop from text) (
    subst (λ t. is_blank_text t ≡ true)
      (sym (
        drop-slice text from (length text) h
        ∙ ap (λ t. slice text from (length text) ++ t) (drop_all text)
        ∙ append_nil (slice text from (length text))))
      b)
cover-IsSegmented text from (x ∷ xs) (h, b, l, r) =
    let w : x.end ≤ length text = cover_within text x.end (length text) xs r in
    IsSegmented.sentence (utf16_len (take from text)) (drop from text) (slice text from x.start)
      (drop x.end text) (sentence_span text x) (map (sentence_span text) xs)
      (drop-slice text from x.start h
        ∙ ap (λ t. slice text from x.start ++ t) (drop-slice text x.start x.end (omega arith)))
      b (nonempty_slice text x.start x.end l w)
      (ap utf16_len (take-slice text from x.start h)
        ∙ utf16_len-append (take from text) (slice text from x.start))
      refl
      (subst (λ n. IsSegmented n (drop x.end text) (map (sentence_span text) xs))
        (ap utf16_len (take-slice text x.start x.end (omega arith))
          ∙ utf16_len-append (take x.start text) (slice text x.start x.end))
        (cover-IsSegmented text x.end xs r))

-- SegmentSentences answers for every text, and its sentences cover the text in order: only spaces
-- stand before, between and after them, no sentence is empty, and each is the exact slice of the
-- text that its UTF-16 offsets name.
pub segment_sentences-IsSegmented :
    (u : Unicode) (text : Text)
    → (xs : List SentenceSpan) × (segment_sentences u text ≡ some xs) × IsSegmented 0 text xs
unfolding segment_sentences
segment_sentences-IsSegmented u text =
    let (spans, e, c) =
      scan_runes-IsCover u (suc (length text)) text
        (record { at = 0; unit_start = 0; saw_non_whitespace = false; spans = [] })
        (record { unit = omega arith; within = omega arith; cover = (omega arith, blank_nothing) })
        (omega arith) in
    (map (sentence_span text) spans, ap (spans_of text) e, cover-IsSegmented text 0 spans c)
