-- ===== src/Semantics/Anchors/Ordered.antt =====
-- The anchors that validateSourceSentenceAnchors returns.
use doublangu.Prelude.{
  ℕ, suc, ◌+◌, ◌≡◌, refl, sym, subst, ap, ◌∙◌, true, false, some, List, [], ◌∷◌, ◌++◌, arith, ◌==◌,
  if◌then◌else◌, length, select, select-append, Result, ok, err, ℤ, pos, negsuc, ltb_ℤ, inl, inr,
  Bool-cases, Option-cases, ==_iff,
}
use doublangu.Hashing.{Text, Block, ResolvedSentence, PreparedArticle}
use doublangu.Semantics.Texts.{same_text_iff, append_nil}
use doublangu.Semantics.Spans.{SpanError, same_int, same_int_eq, same_int_refl, slice_for_utf16}
use doublangu.Semantics.Anchors.{
  AnchorError, nth_block, block_at, in_block, previous_end, check_place, check_slice, check_anchor,
  check_anchors, gather, gathered, validate_source_sentence_anchors,
}

-- The sentence `s` stands in block `b`, the block of index `i`, as sentence `n`, after `last`.
pub record IsAnchor (b : Block) (i n : ℕ) (last : ℤ) (s : ResolvedSentence) : Type 0 where
  pub block_index : s.span.block_index ≡ pos i
  pub index : s.index ≡ pos n
  pub starts : ltb_ℤ s.span.start_utf16 last ≡ false
  pub nonempty : ltb_ℤ s.span.start_utf16 s.span.end_utf16 ≡ true
  pub sliced :
      slice_for_utf16 b.source_text s.span.start_utf16 s.span.end_utf16 ≡ ok s.span.source_text

-- Sentences of one block: numbered from `n`, each after the last, each an exact slice.
abbrev pub IsRun : Block → ℕ → ℕ → ℤ → List ResolvedSentence → Type 0
IsRun b i n last [] = Unit
IsRun b i n last (s ∷ ss) = IsAnchor b i n last s × IsRun b i (suc n) s.span.end_utf16 ss

-- The runs of the blocks one after another.
pub data IsGrouped : ℕ → List Block → List ResolvedSentence → Type 0 where
  done : (i : ℕ) → IsGrouped i [] []
  group :
      (i : ℕ) (b : Block) (bs : List Block) (run rest : List ResolvedSentence)
      → IsRun b i 0 (pos 0) run
      → IsGrouped (suc i) bs rest
      → IsGrouped i (b ∷ bs) (run ++ rest)

IsRun-append :
    (b : Block) (i n : ℕ) (last : ℤ) (l : List ResolvedSentence) (s : ResolvedSentence)
    → IsRun b i n last l
    → IsAnchor b i (n + length l) (previous_end last l) s
    → IsRun b i n last (l ++ s ∷ [])
IsRun-append b i n last [] s h k = (subst (λ m. IsAnchor b i m last s) (omega arith) k, tt)
IsRun-append b i n last (t ∷ l) s h k = (
  h.0,
  IsRun-append b i (suc n) t.span.end_utf16 l s h.1
      (subst (λ m. IsAnchor b i m (previous_end t.span.end_utf16 l) s) (omega arith) k),
)

slice_checked :
    (r : Result SpanError Text) (block : List ResolvedSentence) (s : ResolvedSentence)
    → check_slice r block s ≡ ok tt
    → (t : Text) × (r ≡ ok t) × (check_slice (ok t) block s ≡ ok tt)
unfolding check_slice
slice_checked (err e) block s h = absurd (ground arith)
slice_checked (ok t) block s h = (t, refl, h)

place_checked :
    (block : List ResolvedSentence) (s : ResolvedSentence)
    → check_place block s ≡ ok tt
    → (same_int s.index (pos (length block)) ≡ true)
      × (ltb_ℤ s.span.start_utf16 (previous_end (pos 0) block) ≡ false)
unfolding check_place
place_checked block s h = ground arith

text_checked :
    (t : Text) (block : List ResolvedSentence) (s : ResolvedSentence)
    → check_slice (ok t) block s ≡ ok tt
    → (t ≡ s.span.source_text) × (check_place block s ≡ ok tt)
unfolding check_slice
text_checked t block s h = ground (arith, same_text_iff t s.span.source_text)

offsets_checked :
    (b : Block) (block : List ResolvedSentence) (s : ResolvedSentence)
    → check_anchor (some b) block s ≡ ok tt
    → (ltb_ℤ s.span.start_utf16 s.span.end_utf16 ≡ true)
      × (check_slice (slice_for_utf16 b.source_text s.span.start_utf16 s.span.end_utf16) block s
          ≡ ok tt)
unfolding check_anchor
offsets_checked b block s h = ground arith

checked :
    (b : Block) (i : ℕ) (block : List ResolvedSentence) (s : ResolvedSentence)
    → s.span.block_index ≡ pos i
    → check_anchor (some b) block s ≡ ok tt
    → IsAnchor b i (length block) (previous_end (pos 0) block) s
checked b i block s e h =
    let (nonempty, k) = offsets_checked b block s h in
    let (t, sliced, m) =
      slice_checked (slice_for_utf16 b.source_text s.span.start_utf16 s.span.end_utf16) block s k in
    let (same, p) = text_checked t block s m in
    let (index, starts) = place_checked block s p in
    record {
      block_index = e;
      index = same_int_eq s.index (pos (length block)) index;
      starts = starts;
      nonempty = nonempty;
      sliced = sliced ∙ ap ok same;
    }

-- What has been appended so far is a run in each block.
abbrev Runs : List Block → List ResolvedSentence → Type 0
Runs blocks kept =
    (i : ℕ) (b : Block)
    → nth_block blocks i ≡ some b
    → IsRun b i 0 (pos 0) (select (in_block (pos i)) kept)

select_one :
    (i : ℕ) (s : ResolvedSentence) (k : ℤ)
    → s.span.block_index ≡ k
    → select (in_block (pos i)) (s ∷ []) ≡ (if same_int (pos i) k then s ∷ [] else [])
unfolding select
select_one i s k e = rw e refl

Runs-same :
    (blocks : List Block) (kept : List ResolvedSentence) (s : ResolvedSentence) (j : ℕ) (c : Block)
    → Runs blocks kept
    → s.span.block_index ≡ pos j
    → nth_block blocks j ≡ some c
    → IsAnchor c j
        (length (select (in_block (pos j)) kept))
        (previous_end (pos 0) (select (in_block (pos j)) kept))
        s
    → IsRun c j 0 (pos 0) (select (in_block (pos j)) (kept ++ s ∷ []))
Runs-same blocks kept s j c h e f a =
    let l = select (in_block (pos j)) kept in
    rw
      (
        select-append (in_block (pos j)) kept (s ∷ []),
        select_one j s (pos j) e,
        same_int_refl (pos j),
      )
      (IsRun-append c j 0 (pos 0) l s (h j c f)
        (subst (λ m. IsAnchor c j m (previous_end (pos 0) l) s) (omega arith) a))

some_eq : {A : Type 0} {x y : A} → some x ≡ some y → x ≡ y
some_eq e = cc

Runs-step :
    (blocks : List Block) (kept : List ResolvedSentence) (s : ResolvedSentence) (j : ℕ) (c : Block)
    → Runs blocks kept
    → s.span.block_index ≡ pos j
    → nth_block blocks j ≡ some c
    → IsAnchor c j
        (length (select (in_block (pos j)) kept))
        (previous_end (pos 0) (select (in_block (pos j)) kept))
        s
    → Runs blocks (kept ++ s ∷ [])
Runs-step blocks kept s j c h e f a i b g = elim (Bool-cases (i == j)) [
  | inl t ↦
      let p : i ≡ j = (==_iff i j).0 t in
      let q : c ≡ b = some_eq (sym f ∙ subst (λ m. nth_block blocks m ≡ some b) p g) in
      subst (λ m. IsRun b m 0 (pos 0) (select (in_block (pos m)) (kept ++ s ∷ []))) (sym p)
        (subst (λ d. IsRun d j 0 (pos 0) (select (in_block (pos j)) (kept ++ s ∷ []))) q
          (Runs-same blocks kept s j c h e f a))
  | inr t ↦
      rw
        (
          select-append (in_block (pos i)) kept (s ∷ []),
          select_one i s (pos j) e,
          t,
          append_nil (select (in_block (pos i)) kept),
        )
        (h i b g)
]

-- A sentence that passes stands in one of the blocks.
anchor_block :
    (blocks : List Block) (k : ℤ) (block : List ResolvedSentence) (s : ResolvedSentence)
    → check_anchor (block_at blocks k) block s ≡ ok tt
    → (j : ℕ) × (c : Block) × (k ≡ pos j) × (nth_block blocks j ≡ some c)
unfolding check_anchor
anchor_block blocks (negsuc n) block s h = absurd (ground arith)
anchor_block blocks (pos j) block s h = elim (Option-cases (nth_block blocks j)) [
  | inl e ↦ absurd (ground arith)
  | inr (c, e) ↦ (j, c, refl, e)
]

anchor_passed :
    (blocks : List Block) (kept : List ResolvedSentence) (s : ResolvedSentence)
    (ss out : List ResolvedSentence)
    → check_anchors blocks kept (s ∷ ss) ≡ ok out
    → (u : Unit {0}) × (check_anchor
          (block_at blocks s.span.block_index)
          (select (in_block s.span.block_index) kept)
          s
        ≡ ok tt)
      × (check_anchors blocks (kept ++ s ∷ []) ss ≡ ok out)
unfolding check_anchors
anchor_passed blocks kept s ss out h = (tt, ground arith, ground arith)

kept_of :
    (blocks : List Block) (r : Result AnchorError (List ResolvedSentence))
    (out : List ResolvedSentence)
    → gathered blocks r ≡ ok out
    → (kept : List ResolvedSentence) × (r ≡ ok kept) × (gather kept 0 blocks ≡ out)
kept_of blocks (err e) out h = absurd (ground arith)
kept_of blocks (ok kept) out h = (kept, refl, ground arith)

check_anchors-Runs :
    (blocks : List Block) (kept ss out : List ResolvedSentence)
    → check_anchors blocks kept ss ≡ ok out
    → Runs blocks kept
    → Runs blocks out
unfolding check_anchors
check_anchors-Runs blocks kept [] out h r = subst (Runs blocks) (ground arith) r
check_anchors-Runs blocks kept (s ∷ ss) out h r =
    let (u, q, m) = anchor_passed blocks kept s ss out h in
    let (j, c, e, f) =
      anchor_block blocks s.span.block_index (select (in_block s.span.block_index) kept) s q in
    let k : check_anchor (some c) (select (in_block (pos j)) kept) s ≡ ok tt =
      subst (λ o. check_anchor o (select (in_block (pos j)) kept) s ≡ ok tt) f
        (subst (λ x. check_anchor (block_at blocks x) (select (in_block x) kept) s ≡ ok tt) e q) in
    check_anchors-Runs blocks (kept ++ s ∷ []) ss out m
      (Runs-step blocks kept s j c r e f (checked c j (select (in_block (pos j)) kept) s e k))

gather-IsGrouped :
    (all : List Block) (kept : List ResolvedSentence) (i : ℕ) (bs : List Block)
    → ((n : ℕ) → nth_block bs n ≡ nth_block all (i + n))
    → Runs all kept
    → IsGrouped i bs (gather kept i bs)
unfolding gather
gather-IsGrouped all kept i [] e r = IsGrouped.done i
gather-IsGrouped all kept i (b ∷ bs) e r =
    IsGrouped.group i b bs (select (in_block (pos i)) kept) (gather kept (suc i) bs)
      (r i b (subst (λ m. nth_block all m ≡ some b) (omega arith) (sym (e 0))))
      (gather-IsGrouped all kept (suc i) bs (λ n. e (suc n) ∙ ap (nth_block all) (omega arith)) r)

-- The anchors that validateSourceSentenceAnchors returns are grouped by block in the order of the
-- blocks; in each block they are numbered from zero, none starts before the end of the one before,
-- none is empty, and each is the exact slice of the block's text at its offsets.
pub validate_source_sentence_anchors-IsGrouped :
    (a : PreparedArticle) (anchors : List ResolvedSentence)
    → validate_source_sentence_anchors a ≡ ok anchors
    → IsGrouped 0 a.blocks anchors
unfolding validate_source_sentence_anchors
validate_source_sentence_anchors-IsGrouped a anchors h =
    let (kept, e, g) = kept_of a.blocks (check_anchors a.blocks [] a.sentences) anchors h in
    subst (IsGrouped 0 a.blocks) g (
      gather-IsGrouped a.blocks kept 0 a.blocks (λ n. ap (nth_block a.blocks) (omega arith))
        (check_anchors-Runs a.blocks [] a.sentences kept e (λ i b q. tt)))
