-- ===== src/Reader/Sentences/Scanned.antt =====
-- The loop of SegmentSentences ends within its fuel, and its spans cover the text.
use doublangu.Prelude.{
  ℕ, zero, suc, ◌+◌, ◌-◌, ◌≤◌, ◌<◌, ◌≡◌, refl, sym, ap, ◌∙◌, Bool, true, some, List, [], ◌∷◌, arith,
  is_space, length, inl, inr, if_both,
}
use doublangu.Hashing.{Text}
use doublangu.Semantics.Texts.{List-cases, drop, leading_run, Unicode}
use doublangu.Semantics.Texts.Slices.{length-drop, leading_run_le}
use doublangu.Reader.Periods.{closing_run}
use doublangu.Reader.Sentences.{
  RawSpan, Scan, flush, sentence_end, end_sentence, scan_rune, scan_runes,
}
use doublangu.Reader.Sentences.Cover.{IsCover, flush-IsCover}

pub record IsScan (text : Text) (st : Scan) : Type 0 where
  pub unit : st.unit_start ≤ st.at
  pub within : st.at ≤ length text
  pub cover : IsCover text 0 st.spans st.unit_start

-- The next state of the loop: the invariant, and that it moved on.
abbrev Moved : Text → ℕ → Scan → Type 0
Moved text at st = IsScan text st × (at < st.at)

closing_run_le : (u : Unicode) (s : Text) → closing_run u s ≤ length s
unfolding closing_run
closing_run_le u [] = omega arith
closing_run_le u (r ∷ s) = ground (arith, closing_run_le u s)

step_on :
    (text : Text) (st : Scan) (saw : Bool)
    → IsScan text st
    → st.at < length text
    → Moved text st.at (record st { at = suc st.at; saw_non_whitespace = saw })
step_on text st saw h k =
    (record { unit = omega (arith, h.unit); within = omega arith; cover = h.cover }, omega arith)

end_sentence-Moved :
    (u : Unicode) (text : Text) (r : ℕ) (s : Text) (st : Scan)
    → drop st.at text ≡ r ∷ s
    → IsScan text st
    → Moved text st.at (end_sentence u text s st)
unfolding end_sentence sentence_end
end_sentence-Moved u text r s st e h =
    let end = suc st.at + closing_run u s in
    let l : length text - st.at ≡ suc (length s) = sym (length-drop st.at text) ∙ ap length e in
    let k : end ≤ length text = omega (arith, closing_run_le u s) in
    let m : end + leading_run is_space (drop end text) ≤ length text =
      omega (arith, leading_run_le is_space (drop end text), length-drop end text) in
    (
      record {
        unit = omega arith;
        within = m;
        cover = flush-IsCover text 0 st.unit_start end st.spans (omega (arith, h.unit)) k h.cover;
      },
      omega arith,
    )

scan_rune-Moved :
    (u : Unicode) (text : Text) (r : ℕ) (s : Text) (st : Scan)
    → drop st.at text ≡ r ∷ s
    → IsScan text st
    → Moved text st.at (scan_rune u text r s st)
unfolding scan_rune
scan_rune-Moved u text r s st e h =
    let l : length text - st.at ≡ suc (length s) = sym (length-drop st.at text) ∙ ap length e in
    let k : st.at < length text = omega arith in
    if_both (Moved text st.at) (is_space r) (step_on text st st.saw_non_whitespace h k) (
      if_both (Moved text st.at) _ (step_on text st true h k) (
        if_both (Moved text st.at) _ (step_on text st st.saw_non_whitespace h k)
          (end_sentence-Moved u text r s st e h)))

scan_done :
    (u : Unicode) (fuel : ℕ) (text : Text) (st : Scan)
    → drop st.at text ≡ []
    → scan_runes u (suc fuel) text st ≡ some (flush text st.unit_start st.spans (length text))
unfolding scan_runes
scan_done u fuel text st e = rw (scan_runes, e) refl

scan_next :
    (u : Unicode) (fuel : ℕ) (text : Text) (r : ℕ) (s : Text) (st : Scan)
    → drop st.at text ≡ r ∷ s
    → scan_runes u (suc fuel) text st ≡ scan_runes u fuel text (scan_rune u text r s st)
unfolding scan_runes
scan_next u fuel text r s st e = ground (arith, e)

-- The loop ends within its fuel, and its spans cover the text.
pub scan_runes-IsCover :
    (u : Unicode) (fuel : ℕ) (text : Text) (st : Scan)
    → IsScan text st
    → length text < st.at + fuel
    → (spans : List RawSpan) × (scan_runes u fuel text st ≡ some spans)
      × IsCover text 0 spans (length text)
scan_runes-IsCover u zero text st h k = absurd (omega (arith, h.within))
scan_runes-IsCover u (suc fuel) text st h k = elim (List-cases (drop st.at text)) [
  | inl e ↦ (
    flush text st.unit_start st.spans (length text),
    scan_done u fuel text st e,
    flush-IsCover text 0 st.unit_start (length text) st.spans (omega (arith, h.unit, h.within))
        (omega arith) h.cover,
  )
  | inr (r, s, e) ↦
      let (next, on) = scan_rune-Moved u text r s st e h in
      let (spans, q, c) =
        scan_runes-IsCover u fuel text (scan_rune u text r s st) next (omega arith) in
      (spans, scan_next u fuel text r s st e ∙ q, c)
]
