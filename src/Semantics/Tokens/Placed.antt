-- ===== src/Semantics/Tokens/Placed.antt =====
-- The tokens of a block stand in it in order, and hold all its letters and numbers.
use doublangu.Prelude.{
  ℕ, suc, ◌+◌, ◌-◌, ◌≡◌, refl, sym, ap, subst, ◌∙◌, Bool, true, false, not, ◌&&◌, ◌||◌, List, [],
  ◌∷◌, ◌++◌, pos, arith, length, all_where, Bool-cases, inl, inr, or-false, length-append,
}
use doublangu.Hashing.{Text, Token}
use doublangu.Semantics.Texts.{
  take, slice, is_empty, utf16_len, Unicode, normalize_form, append_assoc, append_nil, take-append,
  drop-append, utf16_len-append, utf16_len_nil,
}
use doublangu.Semantics.Results.{text_of}
use doublangu.Semantics.Tokens.{
  idle, started, is_word_rune, is_joiner, has_word_after, make_token, tokenize_from, tokenize,
}
use doublangu.Semantics.Tokens.Rounds.{round_start, round_idle, round_word, round_join, round_end}

-- No letter and no number.
abbrev pub is_wordless : Unicode → Text → Bool
is_wordless u s = all_where (λ r. not (is_word_rune u r)) s

-- The token of the text `word` with `before` standing in front of it in the block.
pub record IsToken (u : Unicode) (block from : ℕ) (word : Text) (t : Token) : Type 0 where
  pub block_index : t.block_index ≡ pos block
  pub source_text : t.source_text ≡ word
  pub normalized_form : t.normalized_form ≡ text_of (normalize_form u word)
  pub starts : t.start_utf16 ≡ pos from
  pub ends : t.end_utf16 ≡ pos (from + utf16_len word)

-- The tokens of the rest `text` of a block, `from` being the code units before it.
pub data IsTokenized (u : Unicode) (block : ℕ) : ℕ → Text → List Token → Type 0 where
  wordless : (from : ℕ) (text : Text) → is_wordless u text ≡ true → IsTokenized u block from text []
  token :
      (from : ℕ) (text gap word rest : Text) (t : Token) (ts : List Token)
      → text ≡ gap ++ (word ++ rest)
      → is_wordless u gap ≡ true
      → is_empty word ≡ false
      → IsToken u block (from + utf16_len gap) word t
      → IsTokenized u block (from + utf16_len gap + utf16_len word) rest ts
      → IsTokenized u block from text (t ∷ ts)

slice_parts :
    (a v b text : Text) (start end : ℕ)
    → text ≡ a ++ (v ++ b)
    → start ≡ length a
    → end ≡ length a + length v
    → (take start text ≡ a) × (slice text start end ≡ v)
slice_parts a v b text start end e p q =
    let n : length a + length v - length a ≡ length v = omega arith in
    (rw (e, p) (take-append a (v ++ b)), rw (e, p, q, n, drop-append a (v ++ b)) (take-append v b))

make_token-IsToken :
    (u : Unicode) (block : ℕ) (a v b text : Text) (start end : ℕ)
    → text ≡ a ++ (v ++ b)
    → start ≡ length a
    → end ≡ length a + length v
    → IsToken u block (utf16_len a) v (make_token u block text start end)
unfolding make_token
make_token-IsToken u block a v b text start end e p q =
    let (t, s) = slice_parts a v b text start end e p q in
    record {
      block_index = refl;
      source_text = s;
      normalized_form = ap (λ w. text_of (normalize_form u w)) s;
      starts = ap (λ w. pos (utf16_len w)) t;
      ends = rw (t, s) refl;
    }

wordless-append :
    (u : Unicode) (s t : Text)
    → is_wordless u s ≡ true
    → is_wordless u t ≡ true
    → is_wordless u (s ++ t) ≡ true
unfolding all_where
wordless-append u [] t h k = k
wordless-append u (c ∷ s) t h k = ground (arith, wordless-append u s t)

module _ (u : Unicode) (block : ℕ) (text : Text) where
  -- The loop between words: `gap` has been read since `before`.
  abbrev FromIdle : Text → Type 0
  FromIdle rest =
      (before gap : Text) (at : ℕ)
      → text ≡ before ++ (gap ++ rest)
      → at ≡ length before + length gap
      → is_wordless u gap ≡ true
      → IsTokenized u block (utf16_len before) (gap ++ rest)
          (tokenize_from u block text at idle rest)

  -- The loop within a word: `tail` has been read since the last letter of `word`.
  abbrev FromStarted : Text → Type 0
  FromStarted rest =
      (before gap word tail : Text) (start last at : ℕ)
      → text ≡ before ++ (gap ++ (word ++ (tail ++ rest)))
      → start ≡ length before + length gap
      → last ≡ start + length word
      → at ≡ last + length tail
      → is_wordless u gap ≡ true
      → is_empty word ≡ false
      → is_wordless u tail ≡ true
      → IsTokenized u block (utf16_len before) (gap ++ (word ++ (tail ++ rest)))
          (tokenize_from u block text at (started start last) rest)

  wordless_nothing : is_wordless u [] ≡ true
  unfolding all_where
  wordless_nothing = refl

  wordless_one : (r : ℕ) → is_word_rune u r ≡ false → is_wordless u (r ∷ []) ≡ true
  unfolding all_where
  wordless_one r e = rw e refl

  idle-cons : (r : ℕ) (rest : Text) → FromIdle rest → FromStarted rest → FromIdle (r ∷ rest)
  idle-cons r rest fi fs before gap at e p w = elim (Bool-cases (is_word_rune u r)) [
    | inl t ↦ rw (round_start u block text at r rest t) (
        fs before gap (r ∷ []) [] at (suc at) (suc at) e p (omega arith) (omega arith) w refl
          (wordless_nothing))
    | inr f ↦ rw (round_idle u block text at r rest f) (
        subst
          (λ s.
            IsTokenized u block (utf16_len before) s
              (tokenize_from u block text (suc at) idle rest))
          (append_assoc gap (r ∷ []) rest)
          (fi before (gap ++ r ∷ []) (suc at)
            (e ∙ ap (λ s. before ++ s) (sym (append_assoc gap (r ∷ []) rest)))
            (omega (arith, length-append gap (r ∷ [])))
            (wordless-append u gap (r ∷ []) w (wordless_one r f))))
  ]

  word_token :
      (before gap word rest : Text) (start last : ℕ) (ts : List Token)
      → text ≡ before ++ (gap ++ (word ++ rest))
      → start ≡ length before + length gap
      → last ≡ start + length word
      → is_wordless u gap ≡ true
      → is_empty word ≡ false
      → IsTokenized u block (utf16_len before + utf16_len gap + utf16_len word) rest ts
      → IsTokenized u block
          (utf16_len before)
          (gap ++ (word ++ rest))
          (make_token u block text start last ∷ ts)
  word_token before gap word rest start last ts e p q w ne h =
      let l = length-append before gap in
      let k : start ≡ length (before ++ gap) = omega arith in
      IsTokenized.token (utf16_len before) (gap ++ (word ++ rest)) gap word rest
        (make_token u block text start last) ts refl w ne
        (subst (λ n. IsToken u block n word (make_token u block text start last))
          (utf16_len-append before gap)
          (make_token-IsToken u block (before ++ gap) word rest text start last
            (e ∙ sym (append_assoc before gap (word ++ rest))) k (omega arith)))
        h

  -- The code point joins what has been read before it.
  joined : (s t : Text) (r : ℕ) (rest : Text) → (s ++ (t ++ r ∷ [])) ++ rest ≡ s ++ (t ++ r ∷ rest)
  joined s t r rest =
      append_assoc s (t ++ r ∷ []) rest ∙ ap (λ x. s ++ x) (append_assoc t (r ∷ []) rest)

  nonempty-append : (s t : Text) → is_empty s ≡ false → is_empty (s ++ t) ≡ false
  nonempty-append [] t h = absurd (ground arith)
  nonempty-append (c ∷ s) t h = refl

  not_word : (r : ℕ) → (is_word_rune u r || u.is_mark r) ≡ false → is_word_rune u r ≡ false
  not_word r e = (or-false (is_word_rune u r) (u.is_mark r) e).0

  started-cons : (r : ℕ) (rest : Text) → FromIdle rest → FromStarted rest → FromStarted (r ∷ rest)
  started-cons r rest fi fs before gap word tail start last at e p q s w ne v =
      elim (Bool-cases (is_word_rune u r || u.is_mark r)) [
        | inl t ↦
            let longer = joined word tail r rest in
            let m = length-append word (tail ++ r ∷ []) in
            let n = length-append tail (r ∷ []) in
            rw (round_word u block text at r rest start last t) (
              subst
                (λ x.
                  IsTokenized u block (utf16_len before) (gap ++ x)
                    (tokenize_from u block text (suc at) (started start (suc at)) rest))
                longer
                (fs before gap (word ++ (tail ++ r ∷ [])) [] start (suc at) (suc at)
                  (e ∙ ap (λ x. before ++ (gap ++ x)) (sym longer)) p (omega arith) (omega arith) w
                  (nonempty-append word (tail ++ r ∷ []) ne) wordless_nothing))
        | inr f ↦
            let further = append_assoc tail (r ∷ []) rest in
            let open_tail = wordless-append u tail (r ∷ []) v (wordless_one r (not_word r f)) in
            elim (Bool-cases (is_joiner r && has_word_after u rest)) [
              | inl j ↦ rw (round_join u block text at r rest start last f j) (
                  subst
                    (λ x.
                      IsTokenized u block (utf16_len before) (gap ++ (word ++ x))
                        (tokenize_from u block text (suc at) (started start last) rest))
                    further
                    (fs before gap word (tail ++ r ∷ []) start last (suc at)
                      (e ∙ ap (λ x. before ++ (gap ++ (word ++ x))) (sym further)) p q
                      (omega (arith, length-append tail (r ∷ []))) w ne open_tail))
              | inr j ↦
                  let done = before ++ (gap ++ word) in
                  let k : utf16_len done ≡ utf16_len before + utf16_len gap + utf16_len word =
                    omega
                      (arith, utf16_len-append before (gap ++ word), utf16_len-append gap word) in
                  let after : IsTokenized u block (utf16_len done) ((tail ++ r ∷ []) ++ rest)
                      (tokenize_from u block text (suc at) idle rest) =
                    fi done (tail ++ r ∷ []) (suc at)
                      (e
                        ∙ ap (λ x. before ++ (gap ++ (word ++ x))) (sym further)
                        ∙ ap (λ x. before ++ x)
                            (sym (append_assoc gap word ((tail ++ r ∷ []) ++ rest)))
                        ∙ sym (append_assoc before (gap ++ word) ((tail ++ r ∷ []) ++ rest)))
                      (omega (
                        arith,
                        length-append before (gap ++ word),
                        length-append gap word,
                        length-append tail (r ∷ []),
                      ))
                      open_tail in
                  rw (round_end u block text at r rest start last f (not_word r f) j) (
                    word_token before gap word (tail ++ r ∷ rest) start last
                      (tokenize_from u block text (suc at) idle rest) e p q w ne
                      (subst
                        (λ n.
                          IsTokenized u block n (tail ++ r ∷ rest)
                            (tokenize_from u block text (suc at) idle rest))
                        k
                        (subst
                          (λ x.
                            IsTokenized u block (utf16_len done) x
                              (tokenize_from u block text (suc at) idle rest))
                          further after)))
            ]
      ]

  idle-nil : FromIdle []
  unfolding tokenize_from
  idle-nil before gap at e p w =
      IsTokenized.wordless (utf16_len before) (gap ++ [])
        (subst (λ x. is_wordless u x ≡ true) (sym (append_nil gap)) w)

  started-nil : FromStarted []
  unfolding tokenize_from
  started-nil before gap word tail start last at e p q s w ne v =
      word_token before gap word (tail ++ []) start last [] e p q w ne (
        IsTokenized.wordless (utf16_len before + utf16_len gap + utf16_len word) (tail ++ [])
          (subst (λ x. is_wordless u x ≡ true) (sym (append_nil tail)) v))

  both : (rest : Text) → FromIdle rest × FromStarted rest
  both [] = (idle-nil, started-nil)
  both (r ∷ rest) = let (fi, fs) = both rest in (idle-cons r rest fi fs, started-cons r rest fi fs)

-- The tokens of a block stand in it in order, each the exact slice of the block that its UTF-16
-- offsets name and not empty, with its normal form; no letter and no number stands outside them.
pub tokenize-IsTokenized :
    (u : Unicode) (block : ℕ) (text : Text) → IsTokenized u block 0 text (tokenize u block text)
unfolding tokenize
tokenize-IsTokenized u block text =
    subst (λ n. IsTokenized u block n text (tokenize u block text)) (sym utf16_len_nil)
      ((both u block text text).0 [] [] 0 refl (omega arith) (wordless_nothing u block text))
