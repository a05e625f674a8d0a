-- ===== src/Semantics/Spans/Exact.antt =====
-- What resolveSpan and sliceForUTF16 find is the source text itself.
use doublangu.Prelude.{
  ℕ, zero, suc, ◌+◌, ◌-◌, ◌≤◌, ◌≡◌, refl, sym, subst, ap, ◌∙◌, false, Option, none, some, [], ◌∷◌,
  ◌++◌, arith, leb, length, ok, ℤ, pos, negsuc, inl, inr, Bool-cases, length-append, Option-cases,
}
use doublangu.Hashing.{Text, Block, ResolvedSpan}
use doublangu.Semantics.Texts.{
  is_empty, take, drop, index, rune_units, utf16_len, take-append, drop-append, append_assoc,
  utf16_len-append, rune_units_pos, index_sound,
}
use doublangu.Semantics.Spans.{
  find_occurrence, span_at, resolved_at, resolve_span, offset_from, byte_offset_for_utf16,
  slice_between, slice_for_utf16,
}

-- `value` stands in `text` between the code units `start` and `end`.
pub record IsSlice (text value : Text) (start end : ℕ) : Type 0 where
  pub before : Text
  pub after : Text
  pub split : text ≡ before ++ (value ++ after)
  pub starts : start ≡ utf16_len before
  pub ends : end ≡ utf16_len before + utf16_len value

pub offset_from-append :
    (s t : Text) (units at : ℕ)
    → offset_from (s ++ t) units at (units + utf16_len s) ≡ ok (at + length s)
unfolding offset_from utf16_len
offset_from-append [] [] units at = ground arith
offset_from-append [] (r ∷ t) units at = ground arith
offset_from-append (r ∷ s) t units at =
    ground (arith, rune_units_pos r, offset_from-append s t (units + rune_units r) (suc at))

byte_offset-prefix :
    (s t : Text) → byte_offset_for_utf16 (s ++ t) (pos (utf16_len s)) ≡ ok (length s)
unfolding byte_offset_for_utf16
byte_offset-prefix s t = ground (arith, offset_from-append s t 0 0)

nonempty_length : (v : Text) → is_empty v ≡ false → 1 ≤ length v
nonempty_length [] h = absurd (ground arith)
nonempty_length (r ∷ v) h = omega arith

slice_between_parts :
    (a v b : Text)
    → is_empty v ≡ false
    → slice_between (a ++ (v ++ b)) (ok (length a)) (ok (length a + length v)) ≡ ok v
slice_between_parts a v b h =
    let p : leb (length a + length v) (length a) ≡ false = ground (arith, nonempty_length v h) in
    let q : length a + length v - length a ≡ length v = omega arith in
    rw (p, q, drop-append a (v ++ b)) (ap ok (take-append v b))

pub slice_of_parts :
    (a v b : Text)
    → is_empty v ≡ false
    → slice_for_utf16 (a ++ (v ++ b)) (pos (utf16_len a)) (pos (utf16_len a + utf16_len v)) ≡ ok v
unfolding slice_for_utf16
slice_of_parts a v b h =
    let s : byte_offset_for_utf16 (a ++ (v ++ b)) (pos (utf16_len a)) ≡ ok (length a) =
      byte_offset-prefix a (v ++ b) in
    let e : byte_offset_for_utf16 (a ++ (v ++ b)) (pos (utf16_len a + utf16_len v))
        ≡ ok (length a + length v) =
      rw (← append_assoc a v b, ← utf16_len-append a v, ← length-append a v)
        (byte_offset-prefix (a ++ v) b) in
    rw (s, e) (slice_between_parts a v b h)

pub slice_for_utf16-IsSlice :
    (text v : Text) (start end : ℕ)
    → IsSlice text v start end
    → is_empty v ≡ false
    → slice_for_utf16 text (pos start) (pos end) ≡ ok v
slice_for_utf16-IsSlice text v start end c h =
    rw (c.split, c.starts, c.ends) (slice_of_parts c.before v c.after h)

abbrev Stands : Text → Text → ℕ → Type 0
Stands text v found = (a : Text) × (b : Text) × (text ≡ a ++ (v ++ b)) × (length a ≡ found)

-- One search of the rest of the text.
one_search :
    (text source before rest : Text) (relative : ℕ)
    → text ≡ before ++ rest
    → index (drop (length before) text) source ≡ some relative
    → Stands text source (length before + relative)
one_search text source before rest relative e h =
    let k : index rest source ≡ some relative =
      subst (λ t. index t source ≡ some relative) (drop-append before rest)
        (subst (λ t. index (drop (length before) t) source ≡ some relative) e h) in
    let (a, b, p, l) = index_sound rest source relative k in
    (
      before ++ a,
      b,
      e ∙ ap (λ t. before ++ t) p ∙ sym (append_assoc before a (source ++ b)),
      omega (arith, length-append before a),
    )

-- What the loop of ResolveSpan finds stands in the text.
find_occurrence_sound :
    (text source before rest : Text) (start more found : ℕ)
    → text ≡ before ++ rest
    → length before ≡ start
    → find_occurrence text source start more ≡ some found
    → Stands text source found
unfolding find_occurrence
find_occurrence_sound text source before rest start zero found e l h =
    elim (Option-cases (index (drop start text) source)) [
      | inl n ↦ absurd (ground arith)
      | inr (r, q) ↦
          let k : length before + r ≡ found = ground arith in
          subst (λ n. Stands text source n) k (one_search text source before rest r e (rw l q))
    ]
find_occurrence_sound text source before rest start (suc more) found e l h =
    elim (Option-cases (index (drop start text) source)) [
      | inl n ↦ absurd (ground arith)
      | inr (r, q) ↦
          let (a, b, p, m) = one_search text source before rest r e (rw l q) in
          find_occurrence_sound text source (a ++ source) b (start + r + length source) more found
            (p ∙ sym (append_assoc a source b)) (omega (arith, length-append a source))
            (ground arith)
    ]

-- The span stands in the block at its offsets: its text is the source, its length in code units
-- is that of the source, it ends within the block, and slicing the block there yields the source.
pub record IsExact (block : Block) (source : Text) (s : ResolvedSpan) : Type 0 where
  pub start : ℕ
  pub end : ℕ
  pub starts : s.start_utf16 ≡ pos start
  pub ends : s.end_utf16 ≡ pos end
  pub same_block : s.block_index ≡ block.block_index
  pub text : s.source_text ≡ source
  pub extent : end ≡ start + utf16_len source
  pub bounded : end ≤ utf16_len block.source_text
  pub sliced : slice_for_utf16 block.source_text s.start_utf16 s.end_utf16 ≡ ok source

span_at-IsExact :
    (block : Block) (source : Text) (found : ℕ)
    → is_empty source ≡ false
    → Stands block.source_text source found
    → IsExact block source (span_at block source found)
unfolding span_at
span_at-IsExact block source found ne (a, b, p, l) =
    let s : take found block.source_text ≡ a =
      rw (← l) (ap (take (length a)) p ∙ take-append a (source ++ b)) in
    let q : block.source_text ≡ (a ++ source) ++ b = p ∙ sym (append_assoc a source b) in
    let m : found + length source ≡ length (a ++ source) = omega (arith, length-append a source) in
    let e : take (found + length source) block.source_text ≡ a ++ source =
      rw m (ap (take (length (a ++ source))) q ∙ take-append (a ++ source) b) in
    let starts : pos (utf16_len (take found block.source_text)) ≡ pos (utf16_len a) =
      ap (λ t. pos (utf16_len t)) s in
    let ends : pos (utf16_len (take (found + length source) block.source_text))
        ≡ pos (utf16_len a + utf16_len source) =
      ap (λ t. pos (utf16_len t)) e ∙ ap pos (utf16_len-append a source) in
    record {
      start = utf16_len a;
      end = utf16_len a + utf16_len source;
      starts = starts;
      ends = ends;
      same_block = refl;
      text = refl;
      extent = refl;
      bounded =
          omega
            (arith, ap utf16_len p, utf16_len-append a (source ++ b), utf16_len-append source b);
      sliced =
          rw (starts, ends)
            (subst
              (λ t.
                slice_for_utf16 t (pos (utf16_len a)) (pos (utf16_len a + utf16_len source))
                ≡ ok source)
              (sym p) (slice_of_parts a source b ne));
    }

resolved_cases :
    (block : Block) (source : Text) (o : Option ℕ) (s : ResolvedSpan)
    → resolved_at block source o ≡ ok s
    → (found : ℕ) × (o ≡ some found) × (span_at block source found ≡ s)
resolved_cases block source none s h = absurd (ground arith)
resolved_cases block source (some found) s h = (found, refl, ground arith)

-- A span that ResolveSpan returns is in the block that was searched, its source text is the one
-- that was asked for, its length is the length of that text in UTF-16 code units, it ends within
-- the block, and sliceForUTF16 at its offsets yields that text.
pub resolve_span-IsExact :
    (block : Block) (source : Text) (occurrence : ℤ) (s : ResolvedSpan)
    → resolve_span block source occurrence ≡ ok s
    → IsExact block source s
unfolding resolve_span
resolve_span-IsExact block source (negsuc n) s h = absurd (ground arith)
resolve_span-IsExact block source (pos n) s h = elim (Bool-cases (is_empty source)) [
  | inl e ↦ absurd (ground arith)
  | inr ne ↦
      let (found, q, r) =
        resolved_cases block source (find_occurrence block.source_text source 0 n) s
          (ground arith) in
      subst (IsExact block source) r (
        span_at-IsExact block source found ne (
          find_occurrence_sound block.source_text source [] block.source_text 0 n found refl refl
            q))
]
