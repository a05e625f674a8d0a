-- ===== src/Semantics/Tokens.antt =====
-- The tokens of a block: tokenize and makeToken of internal/semantics/types.go.
pub mod Rounds
pub mod Placed
use doublangu.Prelude.{
  ℕ, zero, suc, ◌+◌, Bool, true, false, not, ◌&&◌, ◌||◌, List, [], ◌∷◌, ◌++◌, ◌==◌, if◌then◌else◌,
  pos,
}
use doublangu.Hashing.{Text, Token}
use doublangu.Semantics.Texts.{take, slice, utf16_len, Unicode, normalize_form}
use doublangu.Semantics.Results.{text_of}

-- The variables of the loop: `start` < 0, or the start of a word and the end of its last letter.
pub data Word : Type 0 where
  idle : Word
  started : ℕ → ℕ → Word

unfoldable pub is_joiner : ℕ → Bool
is_joiner r = r == 39 || r == 0x2019 || r == 45 || r == 0x2010

module _ (u : Unicode) where
  unfoldable pub is_word_rune : ℕ → Bool
  is_word_rune r = u.is_letter r || u.is_number r

  -- hasWordAfter, on the text behind the code point
  unfoldable pub has_word_after : Text → Bool
  unfolding is_word_rune
  has_word_after [] = false
  has_word_after (r ∷ rest) = is_word_rune r

  unfoldable pub make_token : ℕ → Text → ℕ → ℕ → Token
  unfolding utf16_len normalize_form
  make_token block text start end = record {
    id = [];
    block_index = pos block;
    token_index = pos 0;
    start_utf16 = pos (utf16_len (take start text));
    end_utf16 = pos (utf16_len (take start text) + utf16_len (slice text start end));
    source_text = slice text start end;
    normalized_form = text_of (normalize_form u (slice text start end));
    lemma = [];
  }

  -- The code point `r` before `rest` ends the word that has started.
  unfoldable pub ends_word : ℕ → Text → Bool
  unfolding is_word_rune is_joiner has_word_after
  ends_word r rest = not (is_word_rune r || u.is_mark r) && not (is_joiner r && has_word_after rest)

  -- The state after the code point `r`, which stands at `at` before `rest`.
  unfoldable pub next_word : ℕ → ℕ → Text → Word → Word
  unfolding is_word_rune ends_word
  next_word at r rest idle = if is_word_rune r then started at (suc at) else idle
  next_word at r rest (started start last) =
      if is_word_rune r || u.is_mark r
      then started start (suc at)
      else if ends_word r rest
      then (if is_word_rune r then started at (suc at) else idle)
      else started start last

  unfoldable pub finished_token : ℕ → Text → ℕ → Text → Word → List Token
  unfolding make_token ends_word
  finished_token block text r rest idle = []
  finished_token block text r rest (started start last) =
      if ends_word r rest then make_token block text start last ∷ [] else []

  -- The loop at the rest of the text, `at` code points into it.
  unfoldable pub tokenize_from : ℕ → Text → ℕ → Word → Text → List Token
  unfolding make_token next_word finished_token
  tokenize_from block text at idle [] = []
  tokenize_from block text at (started start last) [] = make_token block text start last ∷ []
  tokenize_from block text at w (r ∷ rest) =
      finished_token block text r rest w
      ++ tokenize_from block text (suc at) (next_word at r rest w) rest

  unfoldable pub tokenize : ℕ → Text → List Token
  unfolding tokenize_from
  tokenize block text = tokenize_from block text 0 idle text
