-- ===== src/Reader/Sentences/Passing.antt =====
-- The sentences of one block pass the checks of validateSourceSentenceAnchors.
use doublangu.Prelude.{
  ℕ, suc, ◌+◌, ◌≤◌, ◌<◌, ◌≡◌, refl, sym, ap, ◌∙◌, true, false, some, List, [], ◌∷◌, ◌++◌, arith,
  ltb, ◌==◌, length, select, ok, ℤ, pos, ltb_ℤ, ◌⊎◌, inr, select-append, All, All-append,
  length-append,
}
use doublangu.Hashing.{Text, Block, ResolvedSentence}
use doublangu.Semantics.Texts.{
  is_empty, utf16_len, append_assoc, append_nil, same_text, same_text_iff, utf16_len-append,
  utf16_len_pos,
}
use doublangu.Semantics.Spans.{slice_for_utf16, same_int}
use doublangu.Semantics.Spans.Exact.{slice_for_utf16-IsSlice}
use doublangu.Semantics.Anchors.{
  nth_block, block_at, in_block, previous_end, check_place, check_slice, check_anchor,
  check_anchors,
}
use doublangu.Reader.Sentences.{SentenceSpan, anchor_of, anchor_from}
use doublangu.Reader.Sentences.Segmented.{IsSegmented}

-- The block of the sentence is one of those from `lo` up to `hi`.
abbrev pub InBlocks : ℕ → ℕ → ResolvedSentence → Type 0
InBlocks lo hi s = (j : ℕ) × (s.span.block_index ≡ pos j) × (lo ≤ j) × (j < hi)

pub select_others :
    (i lo hi : ℕ) (l : List ResolvedSentence)
    → (ltb i lo ≡ true) ⊎ (ltb i hi ≡ false)
    → All (InBlocks lo hi) l
    → select (in_block (pos i)) l ≡ []
unfolding select
select_others i lo hi [] d h = refl
select_others i lo hi (s ∷ l) d ((j, e, a, b), h) =
    let n : (i == j) ≡ false = ground arith in
    let m : in_block (pos i) s ≡ false = rw e n in rw m (select_others i lo hi l d h)

pub select_own :
    (i : ℕ) (l : List ResolvedSentence)
    → All (InBlocks i (suc i)) l
    → select (in_block (pos i)) l ≡ l
unfolding select
select_own i [] h = refl
select_own i (s ∷ l) ((j, e, a, b), h) =
    let n : (i == j) ≡ true = ground arith in
    let m : in_block (pos i) s ≡ true = rw e n in rw m (ap (λ r. s ∷ r) (select_own i l h))

-- A sentence after the sentences `run` of its block passes the checks.
anchor_passes :
    (b : Block) (i n e : ℕ) (run : List ResolvedSentence) (before gap rest : Text)
    (x : SentenceSpan)
    → b.source_text ≡ before ++ (gap ++ (x.source_text ++ rest))
    → is_empty x.source_text ≡ false
    → x.start_utf16 ≡ utf16_len before + utf16_len gap
    → x.end_utf16 ≡ x.start_utf16 + utf16_len x.source_text
    → length run ≡ n
    → previous_end (pos 0) run ≡ pos e
    → e ≤ utf16_len before
    → check_anchor (some b) run (anchor_of (pos i) n x) ≡ ok tt
unfolding check_anchor check_slice check_place
anchor_passes b i n e run before gap rest x split ne starts ends l p q =
    let s : slice_for_utf16 b.source_text (pos x.start_utf16) (pos x.end_utf16) ≡ ok x.source_text =
      slice_for_utf16-IsSlice b.source_text x.source_text x.start_utf16 x.end_utf16
        (record {
          before = before ++ gap;
          after = rest;
          split = split ∙ sym (append_assoc before gap (x.source_text ++ rest));
          starts = starts ∙ sym (utf16_len-append before gap);
          ends =
              ends
              ∙ ap (λ k. k + utf16_len x.source_text) (starts ∙ sym (utf16_len-append before gap));
        })
        ne in
    let d : ltb_ℤ (pos x.start_utf16) (pos x.end_utf16) ≡ true =
      ground (arith, utf16_len_pos x.source_text ne) in
    let t : ltb_ℤ (pos x.start_utf16) (previous_end (pos 0) run) ≡ false = rw p (ground arith) in
    let y : same_text x.source_text x.source_text ≡ true =
      (same_text_iff x.source_text x.source_text).1 refl in
    let z : ltb_ℤ (pos x.start_utf16) (pos 0) ≡ false = ground arith in
    let w : same_int (pos n) (pos (length run)) ≡ true = ground arith in rw (z, d, s, y, w, t) refl

check_pass :
    (blocks : List Block) (kept : List ResolvedSentence) (s : ResolvedSentence)
    (ss : List ResolvedSentence)
    → check_anchor
        (block_at blocks s.span.block_index)
        (select (in_block s.span.block_index) kept)
        s
      ≡ ok tt
    → check_anchors blocks kept (s ∷ ss) ≡ check_anchors blocks (kept ++ s ∷ []) ss
unfolding check_anchors
check_pass blocks kept s ss h = ground (arith, h)

previous_end-append :
    (e : ℤ) (l : List ResolvedSentence) (s : ResolvedSentence)
    → previous_end e (l ++ s ∷ []) ≡ s.span.end_utf16
previous_end-append e [] s = refl
previous_end-append e (x ∷ l) s = previous_end-append x.span.end_utf16 l s

-- The sentences of one block pass after those of the blocks before it.
pub run_passes :
    (blocks : List Block) (b : Block) (i n e from : ℕ) (pre run more : List ResolvedSentence)
    (before text : Text) (xs : List SentenceSpan)
    → nth_block blocks i ≡ some b
    → All (InBlocks 0 i) pre
    → All (InBlocks i (suc i)) run
    → b.source_text ≡ before ++ text
    → length run ≡ n
    → previous_end (pos 0) run ≡ pos e
    → e ≤ utf16_len before
    → from ≡ utf16_len before
    → IsSegmented from text xs
    → check_anchors blocks (pre ++ run) (anchor_from (pos i) n xs ++ more)
      ≡ check_anchors blocks (pre ++ (run ++ anchor_from (pos i) n xs)) more
unfolding anchor_from
run_passes blocks b i n e from pre run more before text [] f hp hr split l p q o
      (IsSegmented.blank _ _ _) =
    ap (λ r. check_anchors blocks (pre ++ r) more) (sym (append_nil run))
run_passes blocks b i n e from pre run more before text (x ∷ xs) f hp hr split l p q o
      (IsSegmented.sentence _ _ gap rest _ _ t gb ne st en r) =
    let s = anchor_of (pos i) n x in
    let own : select (in_block (pos i)) (pre ++ run) ≡ run =
      rw (select-append (in_block (pos i)) pre run, select_others i 0 i pre (inr (ground arith)) hp)
        (select_own i run hr) in
    let full : b.source_text ≡ before ++ (gap ++ (x.source_text ++ rest)) =
      split ∙ ap (λ u. before ++ u) t in
    let passes : check_anchor (block_at blocks (pos i)) (select (in_block (pos i)) (pre ++ run)) s
        ≡ ok tt =
      rw (own, f)
        (anchor_passes b i n e run before gap rest x full ne (st ∙ ap (λ k. k + utf16_len gap) o) en
          l p q) in
    let m = utf16_len-append before (gap ++ x.source_text) in
    let k = utf16_len-append gap x.source_text in
    let at : x.end_utf16 ≡ utf16_len (before ++ (gap ++ x.source_text)) = omega arith in
    check_pass blocks (pre ++ run) s (anchor_from (pos i) (suc n) xs ++ more) passes
    ∙ ap (λ r. check_anchors blocks r (anchor_from (pos i) (suc n) xs ++ more))
        (append_assoc pre run (s ∷ []))
    ∙ run_passes blocks b i (suc n) x.end_utf16 x.end_utf16 pre (run ++ s ∷ []) more
        (before ++ (gap ++ x.source_text)) rest xs f hp
        (All-append (InBlocks i (suc i)) run (s ∷ []) hr ((i, refl, omega arith, omega arith), tt))
        (full
          ∙ ap (λ u. before ++ u) (sym (append_assoc gap x.source_text rest))
          ∙ sym (append_assoc before (gap ++ x.source_text) rest))
        (omega (arith, length-append run (s ∷ []))) (previous_end-append (pos 0) run s)
        (omega arith) at r
    ∙ ap (λ r. check_anchors blocks (pre ++ r) more)
        (append_assoc run (s ∷ []) (anchor_from (pos i) (suc n) xs))

pub anchor_from-InBlocks :
    (i n : ℕ) (xs : List SentenceSpan) → All (InBlocks i (suc i)) (anchor_from (pos i) n xs)
unfolding anchor_from
anchor_from-InBlocks i n [] = tt
anchor_from-InBlocks i n (x ∷ xs) =
    ((i, refl, omega arith, omega arith), anchor_from-InBlocks i (suc n) xs)
