-- ===== src/Reader/Periods.antt =====
-- Where a sentence ends: periodEndsSentence, dottedWordStopsSentence and the classes of punctuation
-- of internal/reader/sentences.go.
use doublangu.Prelude.{
  ℕ, suc, ◌-◌, Bool, true, false, not, ◌&&◌, ◌||◌, List, [], ◌∷◌, leb, ◌==◌, if◌then◌else◌, codes,
  is_space, length, map, count_where, all_where, exists_where,
}
use doublangu.Hashing.{Text}
use doublangu.Semantics.Texts.{is_empty, take, drop, slice, leading_run, trailing_run, Unicode}

abbrev sentence_abbreviations : List Text
sentence_abbreviations = map codes (
    "dhr" ∷ "mevr" ∷ "dr" ∷ "mr" ∷ "prof" ∷ "ir" ∷ "ing" ∷ "st" ∷ "etc" ∷ "bijv" ∷ "ca" ∷ "nr"
    ∷ "fig" ∷ "m.a.w" ∷ "o.a" ∷ "t.a.v" ∷ [])

-- '.', '?', '!' and the ellipsis
unfoldable pub is_terminator_punctuation : ℕ → Bool
is_terminator_punctuation r = r == b'.' || r == b'?' || r == b'!' || r == 0x2026

unfoldable pub is_closing_quote_or_bracket : ℕ → Bool
is_closing_quote_or_bracket r =
    r == b')' || r == b']' || r == b'}' || r == 0x201d || r == 0xbb || r == b'"' || r == 0x2019

unfoldable pub is_opening_quote_or_bracket : ℕ → Bool
is_opening_quote_or_bracket r =
    r == b'('
    || r == b'['
    || r == b'{'
    || r == 0x201e
    || r == 0xab
    || r == 0x201c
    || r == 0x2018
    || r == b'"'

abbrev starts_with : (ℕ → Bool) → Text → Bool
starts_with p [] = false
starts_with p (r ∷ s) = p r

abbrev ends_with : (ℕ → Bool) → Text → Bool
ends_with p [] = false
ends_with p (r ∷ []) = p r
ends_with p (r ∷ q ∷ s) = ends_with p (q ∷ s)

-- strings.Split(s, ".")
abbrev push_rune : ℕ → List Text → List Text
push_rune r [] = (r ∷ []) ∷ []
push_rune r (part ∷ parts) = (r ∷ part) ∷ parts

unfoldable pub split_dots : Text → List Text
split_dots [] = [] ∷ []
split_dots (r ∷ s) = let parts = split_dots s in if r == b'.' then [] ∷ parts else push_rune r parts

-- strings.EqualFold
abbrev equal_fold : (ℕ → ℕ → Bool) → Text → Text → Bool
equal_fold same [] [] = true
equal_fold same [] (d ∷ t) = false
equal_fold same (c ∷ s) [] = false
equal_fold same (c ∷ s) (d ∷ t) = same c d && equal_fold same s t

module _ (u : Unicode) where
  unfoldable pub dotted_token_before : Text → ℕ → Text
  unfolding trailing_run
  dotted_token_before text dot =
      slice text (dot - trailing_run (λ r. r == b'.' || u.is_letter r) (take dot text)) dot

  -- an abbreviation, or a repeated initialism such as "J.S"
  unfoldable pub is_dotted_word : Text → Bool
  unfolding split_dots exists_where count_where all_where
  is_dotted_word token =
      exists_where (λ abbreviation. equal_fold u.same_fold token abbreviation)
        sentence_abbreviations
      || leb 2 (count_where (λ part. not (is_empty part)) (split_dots token))
        && all_where (λ part. is_empty part || length part == 1) (split_dots token)

  unfoldable pub past_spaces : Text → Text
  unfolding leading_run is_space
  past_spaces s = drop (leading_run is_space s) s

  -- the "J." in "J.S. Bach"
  unfoldable pub continues_initialism : Text → Bool
  unfolding past_spaces
  continues_initialism rest =
      starts_with u.is_letter (past_spaces rest)
      && starts_with (λ r. r == b'.') (past_spaces (drop 1 (past_spaces rest)))

  unfoldable pub dotted_word_stops_sentence : Text → ℕ → Bool
  unfolding dotted_token_before is_dotted_word continues_initialism
  dotted_word_stops_sentence text dot =
      not (is_empty (dotted_token_before text dot)) && is_dotted_word (dotted_token_before text dot)
      || continues_initialism (drop (suc dot) text)

  unfoldable pub after_closers : Text → Text
  unfolding leading_run is_closing_quote_or_bracket past_spaces
  after_closers s = past_spaces (drop (leading_run is_closing_quote_or_bracket s) s)

  unfoldable pub period_ends_sentence : Text → ℕ → Bool
  unfolding dotted_word_stops_sentence after_closers is_opening_quote_or_bracket
  period_ends_sentence text dot =
      if ends_with u.is_number (take dot text) && starts_with u.is_number (drop (suc dot) text)
      then false
      else if dotted_word_stops_sentence text dot
      then false
      else is_empty (after_closers (drop (suc dot) text))
        || starts_with (λ r. u.is_upper r || u.is_number r || is_opening_quote_or_bracket r)
            (after_closers (drop (suc dot) text))

  -- The repeated terminators and closing quotes or brackets after a terminator.
  unfoldable pub closing_run : Text → ℕ
  unfolding is_terminator_punctuation is_closing_quote_or_bracket
  closing_run [] = 0
  closing_run (r ∷ s) =
      let more = closing_run s in
      if is_terminator_punctuation r
      then suc more
      else if is_closing_quote_or_bracket r
      then (if r == 0x2019 && starts_with u.is_letter s then 0 else suc more)
      else 0
