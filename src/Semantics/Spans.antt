-- ===== src/Semantics/Spans.antt =====
-- Spans of a source text: ResolveSpan, spanOverlap, sliceForUTF16 and byteOffsetForUTF16 of
-- internal/semantics/types.go.
pub mod Exact
use doublangu.Prelude.{
  ◌≡◌, ap, arith, ==_iff, ℕ, zero, suc, ◌+◌, ◌-◌, Bool, true, false, ◌&&◌, ◌||◌, Option, none, some,
  List, [], ◌∷◌, leb, ltb, ◌==◌, if◌then◌else◌, length, Result, ok, err, ℤ, pos, negsuc, ltb_ℤ,
}
use doublangu.Hashing.{Text, Block, ResolvedSpan}
use doublangu.Semantics.Texts.{is_empty, take, drop, index, rune_units, utf16_len}

pub data SpanError : Type 0 where
  invalid_span not_found negative splits_surrogate exceeds_text not_positive : SpanError

abbrev pub same_int : ℤ → ℤ → Bool
same_int (pos a) (pos b) = a == b
same_int (pos a) (negsuc b) = false
same_int (negsuc a) (pos b) = false
same_int (negsuc a) (negsuc b) = a == b

-- The loop of ResolveSpan: `more` rounds follow this one.
unfoldable pub find_occurrence : Text → Text → ℕ → ℕ → Option ℕ
unfolding index
find_occurrence text source start zero = elim (index (drop start text) source) [
  | none ↦ none
  | some relative ↦ some (start + relative)
]
find_occurrence text source start (suc more) = elim (index (drop start text) source) [
  | none ↦ none
  | some relative ↦ find_occurrence text source (start + relative + length source) more
]

unfoldable pub span_at : Block → Text → ℕ → ResolvedSpan
unfolding utf16_len
span_at block source found = record {
  block_index = block.block_index;
  start_utf16 = pos (utf16_len (take found block.source_text));
  end_utf16 = pos (utf16_len (take (found + length source) block.source_text));
  source_text = source;
}

abbrev pub resolved_at : Block → Text → Option ℕ → Result SpanError ResolvedSpan
resolved_at block source none = err SpanError.not_found
resolved_at block source (some found) = ok (span_at block source found)

unfoldable pub resolve_span : Block → Text → ℤ → Result SpanError ResolvedSpan
unfolding find_occurrence span_at
resolve_span block source (negsuc n) = err SpanError.invalid_span
resolve_span block source (pos occurrence) =
    if is_empty source
    then err SpanError.invalid_span
    else resolved_at block source (find_occurrence block.source_text source 0 occurrence)

unfoldable pub span_overlap : ResolvedSpan → ResolvedSpan → Bool
span_overlap a b =
    same_int a.block_index b.block_index
    && ltb_ℤ a.start_utf16 b.end_utf16
    && ltb_ℤ b.start_utf16 a.end_utf16

-- The loop of byteOffsetForUTF16 at the code point `at`, `units` code units into the text.
unfoldable pub offset_from : Text → ℕ → ℕ → ℕ → Result SpanError ℕ
unfolding rune_units
offset_from [] units at offset = if units == offset then ok at else err SpanError.exceeds_text
offset_from (r ∷ s) units at offset =
    let rest = offset_from s (units + rune_units r) (suc at) offset in
    if units == offset
    then ok at
    else if ltb offset (units + rune_units r)
    then err SpanError.splits_surrogate
    else rest

unfoldable pub byte_offset_for_utf16 : Text → ℤ → Result SpanError ℕ
unfolding offset_from
byte_offset_for_utf16 text (negsuc n) = err SpanError.negative
byte_offset_for_utf16 text (pos offset) = offset_from text 0 0 offset

abbrev pub slice_between : Text → Result SpanError ℕ → Result SpanError ℕ → Result SpanError Text
slice_between text (err e) b = err e
slice_between text (ok start) (err e) = err e
slice_between text (ok start) (ok end) =
    if leb end start then err SpanError.not_positive else ok (take (end - start) (drop start text))

unfoldable pub slice_for_utf16 : Text → ℤ → ℤ → Result SpanError Text
unfolding byte_offset_for_utf16
slice_for_utf16 text start end =
    slice_between text (byte_offset_for_utf16 text start) (byte_offset_for_utf16 text end)

pub same_int_eq : (a b : ℤ) → same_int a b ≡ true → a ≡ b
same_int_eq (pos a) (pos b) h = ap pos ((==_iff a b).0 h)
same_int_eq (pos a) (negsuc b) h = cc
same_int_eq (negsuc a) (pos b) h = cc
same_int_eq (negsuc a) (negsuc b) h = ap negsuc ((==_iff a b).0 h)

pub same_int_refl : (a : ℤ) → same_int a a ≡ true
same_int_refl (pos a) = ground arith
same_int_refl (negsuc a) = ground arith
