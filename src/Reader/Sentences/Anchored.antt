-- ===== src/Reader/Sentences/Anchored.antt =====
-- The anchors of SegmentArticleSentences pass validateSourceSentenceAnchors.
use doublangu.Prelude.{
  ℕ, suc, ◌+◌, ◌≡◌, refl, sym, subst, ap, ◌∙◌, some, List, [], ◌∷◌, ◌++◌, arith, length, select, ok,
  pos, inl, inr, select-append, All, All-append, All-mono,
}
use doublangu.Hashing.{Block, ResolvedSentence, PreparedArticle}
use doublangu.Semantics.Texts.{Unicode, append_assoc, append_nil, utf16_len_nil}
use doublangu.Semantics.Anchors.{
  nth_block, in_block, check_anchors, gather, validate_source_sentence_anchors,
}
use doublangu.Reader.Sentences.{SentenceSpan, anchor_from, segment_article_sentences}
use doublangu.Reader.Sentences.Segmented.{IsSegmented, segment_sentences-IsSegmented}
use doublangu.Semantics.Prepare.Prepared.{IsIndexed}
use doublangu.Reader.Sentences.Passing.{
  InBlocks, select_others, select_own, run_passes, anchor_from-InBlocks,
}

-- The anchors of the blocks `bs`, the first of index `i`, pass after `pre` and are gathered again.
record Passes (all bs : List Block) (i : ℕ) (pre anchors : List ResolvedSentence) : Type 0 where
  checked : check_anchors all pre anchors ≡ ok (pre ++ anchors)
  gathered_again : gather (pre ++ anchors) i bs ≡ anchors
  later : All (InBlocks i (i + length bs)) anchors

select_middle :
    (i hi : ℕ) (pre run later : List ResolvedSentence)
    → All (InBlocks 0 i) pre
    → All (InBlocks i (suc i)) run
    → All (InBlocks (suc i) hi) later
    → select (in_block (pos i)) (pre ++ (run ++ later)) ≡ run
select_middle i hi pre run later hp hr hl =
    rw
      (
        select-append (in_block (pos i)) pre (run ++ later),
        select-append (in_block (pos i)) run later,
        select_others i 0 i pre (inr (ground arith)) hp,
        select_own i run hr,
        select_others i (suc i) hi later (inl (ground arith)) hl,
      )
      (append_nil run)

Passes-run :
    (all bs : List Block) (b : Block) (i : ℕ) (pre later : List ResolvedSentence)
    (xs : List SentenceSpan)
    → nth_block all i ≡ some b
    → All (InBlocks 0 i) pre
    → IsSegmented 0 b.source_text xs
    → Passes all bs (suc i) (pre ++ anchor_from (pos i) 0 xs) later
    → Passes all (b ∷ bs) i pre (anchor_from (pos i) 0 xs ++ later)
unfolding gather
Passes-run all bs b i pre later xs f hp seg h =
    let run = anchor_from (pos i) 0 xs in
    let hr : All (InBlocks i (suc i)) run = anchor_from-InBlocks i 0 xs in
    let bound : suc i + length bs ≡ i + suc (length bs) = omega arith in
    record {
      checked =
          ap (λ r. check_anchors all r (run ++ later)) (sym (append_nil pre))
          ∙ run_passes all b i 0 0 0 pre [] later [] b.source_text xs f hp tt refl refl refl
              (omega (arith, utf16_len_nil)) utf16_len_nil seg
          ∙ h.checked
          ∙ ap ok (append_assoc pre run later);
      gathered_again = rw (select_middle i (suc i + length bs) pre run later hp hr h.later) (
          ap (λ t. run ++ t)
            (subst (λ t. gather t (suc i) bs ≡ later) (append_assoc pre run later)
              h.gathered_again));
      later =
          All-append (InBlocks i (i + suc (length bs))) run later
            (All-mono (InBlocks i (suc i)) (InBlocks i (i + suc (length bs)))
              (λ s (j, e, a, b). (j, e, a, omega arith)) run hr)
            (All-mono (InBlocks (suc i) (suc i + length bs)) (InBlocks i (i + suc (length bs)))
              (λ s (j, e, a, b). (j, e, omega arith, omega arith)) later h.later);
    }

blocks_pass :
    (u : Unicode) (all bs : List Block) (i : ℕ) (pre : List ResolvedSentence)
    → ((m : ℕ) → nth_block bs m ≡ nth_block all (i + m))
    → IsIndexed i bs
    → All (InBlocks 0 i) pre
    → (anchors : List ResolvedSentence) × (segment_article_sentences u bs ≡ some anchors)
      × Passes all bs i pre anchors
unfolding segment_article_sentences gather check_anchors
blocks_pass u all [] i pre f x hp =
    ([], refl, record { checked = ap ok (sym (append_nil pre)); gathered_again = refl; later = tt })
blocks_pass u all (b ∷ bs) i pre f (e, x) hp =
    let (xs, q, seg) = segment_sentences-IsSegmented u b.source_text in
    let run = anchor_from (pos i) 0 xs in
    let hr : All (InBlocks i (suc i)) run = anchor_from-InBlocks i 0 xs in
    let below : All (InBlocks 0 (suc i)) (pre ++ run) =
      All-append (InBlocks 0 (suc i)) pre run
        (All-mono (InBlocks 0 i) (InBlocks 0 (suc i)) (λ s (j, e, a, b). (j, e, a, omega arith)) pre
          hp)
        (All-mono (InBlocks i (suc i)) (InBlocks 0 (suc i))
          (λ s (j, e, a, b). (j, e, omega arith, b)) run hr) in
    let (later, w, h) =
      blocks_pass u all bs (suc i) (pre ++ run) (λ m. f (suc m) ∙ ap (nth_block all) (omega arith))
        x below in
    let here : nth_block all i ≡ some b = ap (nth_block all) (omega arith) ∙ sym (f 0) in
    (run ++ later, rw (e, q, w) refl, Passes-run all bs b i pre later xs here hp seg h)

-- SegmentArticleSentences answers for all blocks that stand at their indexes, and an article that
-- has its answer as sentences passes validateSourceSentenceAnchors, which returns them unchanged.
pub segmented_anchors_accepted :
    (u : Unicode) (a : PreparedArticle)
    → IsIndexed 0 a.blocks
    → (anchors : List ResolvedSentence) × (segment_article_sentences u a.blocks ≡ some anchors)
      × (validate_source_sentence_anchors (record a { sentences = anchors }) ≡ ok anchors)
unfolding validate_source_sentence_anchors
segmented_anchors_accepted u a x =
    let (anchors, q, h) =
      blocks_pass u a.blocks a.blocks 0 [] (λ m. ap (nth_block a.blocks) (omega arith)) x tt in
    (anchors, q, rw h.checked (ap ok h.gathered_again))
