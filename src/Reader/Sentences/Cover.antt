-- ===== src/Reader/Sentences/Cover.antt =====
-- The raw spans of SegmentSentences cover the text; `flush` keeps it so.
use doublangu.Prelude.{
  ℕ, ◌+◌, ◌-◌, ◌≤◌, ◌<◌, ◌≡◌, subst, true, List, [], ◌∷◌, ◌++◌, arith, ltb, is_space, length, inl,
  inr, Bool-cases,
}
use doublangu.Hashing.{Text}
use doublangu.Semantics.Texts.{
  take, drop, slice, leading_run, trailing_run, is_blank_text, take-append, drop-append,
}
use doublangu.Semantics.Texts.Slices.{
  length-slice, slice_join, leading_run_le, trailing_run_le, is_blank_text-append, leading_blank,
  trailing_blank,
}
use doublangu.Reader.Sentences.{RawSpan, trimmed_start, trimmed_end, flush}

-- The spans stand one after another in the text between `from` and `to`, with only spaces between
-- them.
abbrev pub IsCover : Text → ℕ → List RawSpan → ℕ → Type 0
IsCover text from [] to = (from ≤ to) × (is_blank_text (slice text from to) ≡ true)
IsCover text from (x ∷ xs) to =
    (from ≤ x.start)
    × (is_blank_text (slice text from x.start) ≡ true)
    × (x.start < x.end)
    × IsCover text x.end xs to

take_prefix : (n : ℕ) (s r : Text) (a : Text) → s ≡ a ++ r → length a ≡ n → take n s ≡ a
take_prefix n s r a e l = rw (e, ← l) (take-append a r)

drop_prefix : (n : ℕ) (s r : Text) (a : Text) → s ≡ a ++ r → length a ≡ n → drop n s ≡ r
drop_prefix n s r a e l = rw (e, ← l) (drop-append a r)

trim_start :
    (text : Text) (a b : ℕ)
    → a ≤ b
    → b ≤ length text
    → (a ≤ trimmed_start text a b)
      × (trimmed_start text a b ≤ b)
      × (is_blank_text (slice text a (trimmed_start text a b)) ≡ true)
unfolding trimmed_start
trim_start text a b h k =
    let n = leading_run is_space (slice text a b) in
    let l : n ≤ b - a =
      omega (arith, leading_run_le is_space (slice text a b), length-slice text a b k) in
    let p : a + n ≤ b = omega arith in
    let q : a ≤ a + n = omega arith in
    let m : length (slice text a (a + n)) ≡ n =
      omega (arith, length-slice text a (a + n) (omega arith)) in
    let e : take n (slice text a b) ≡ slice text a (a + n) =
      take_prefix n (slice text a b) (slice text (a + n) b) (slice text a (a + n))
        (slice_join text a (a + n) b q p) m in
    (q, p, subst (λ s. is_blank_text s ≡ true) e (leading_blank (slice text a b)))

trim_end :
    (text : Text) (a b : ℕ)
    → a ≤ b
    → b ≤ length text
    → (a ≤ trimmed_end text a b)
      × (trimmed_end text a b ≤ b)
      × (is_blank_text (slice text (trimmed_end text a b) b) ≡ true)
unfolding trimmed_end
trim_end text a b h k =
    let n = trailing_run is_space (slice text a b) in
    let l : n ≤ b - a =
      omega (arith, trailing_run_le is_space (slice text a b), length-slice text a b k) in
    let p : a ≤ b - n = omega arith in
    let q : b - n ≤ b = omega arith in
    let m : length (slice text a (b - n)) ≡ length (slice text a b) - n =
      omega (arith, length-slice text a (b - n) (omega arith), length-slice text a b k) in
    let e : drop (length (slice text a b) - n) (slice text a b) ≡ slice text (b - n) b =
      drop_prefix (length (slice text a b) - n) (slice text a b) (slice text (b - n) b)
        (slice text a (b - n)) (slice_join text a (b - n) b p q) m in
    (p, q, subst (λ s. is_blank_text s ≡ true) e (trailing_blank (slice text a b)))

blank_join :
    (text : Text) (a b c : ℕ)
    → a ≤ b
    → b ≤ c
    → is_blank_text (slice text a b) ≡ true
    → is_blank_text (slice text b c) ≡ true
    → is_blank_text (slice text a c) ≡ true
blank_join text a b c h k p q =
    rw (slice_join text a b c h k) (is_blank_text-append (slice text a b) (slice text b c) p q)

with_blank :
    (text : Text) (from to end : ℕ) (xs : List RawSpan)
    → IsCover text from xs to
    → to ≤ end
    → is_blank_text (slice text to end) ≡ true
    → IsCover text from xs end
with_blank text from to end [] (h, b) k c = (omega arith, blank_join text from to end h k b c)
with_blank text from to end (x ∷ xs) (h, b, l, r) k c =
    (h, b, l, with_blank text x.end to end xs r k c)

with_span :
    (text : Text) (from to end : ℕ) (xs : List RawSpan) (x : RawSpan)
    → IsCover text from xs to
    → to ≤ x.start
    → is_blank_text (slice text to x.start) ≡ true
    → x.start < x.end
    → x.end ≤ end
    → is_blank_text (slice text x.end end) ≡ true
    → IsCover text from (xs ++ x ∷ []) end
with_span text from to end [] x (h, b) k c l m d =
    (omega arith, blank_join text from to x.start h k b c, l, (m, d))
with_span text from to end (y ∷ xs) x (h, b, n, r) k c l m d =
    (h, b, n, with_span text y.end to end xs x r k c l m d)

pub flush-IsCover :
    (text : Text) (from unit_start end : ℕ) (xs : List RawSpan)
    → unit_start ≤ end
    → end ≤ length text
    → IsCover text from xs unit_start
    → IsCover text from (flush text unit_start xs end) end
unfolding flush
flush-IsCover text from a b xs h k c =
    let (p, q, r) = trim_start text a b h k in
    let s = trimmed_start text a b in
    let (v, w, z) = trim_end text s b q k in
    let t = trimmed_end text s b in
    elim (Bool-cases (ltb s t)) [
      | inl e ↦
          rw e (with_span text from a b xs (record { start = s; end = t }) c p r (ground arith) w z)
      | inr e ↦
          let same : t ≡ s = ground arith in
          rw e (
            with_blank text from a b xs c h (
              blank_join text a s b p q r
                (subst (λ n. is_blank_text (slice text n b) ≡ true) same z)))
    ]
