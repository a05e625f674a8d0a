-- ===== src/Semantics/Tokens/Rounds.antt =====
-- One round of the loop of tokenize, by the code point that it meets.
use doublangu.Prelude.{ℕ, suc, ◌≡◌, refl, true, false, ◌&&◌, ◌||◌, ◌∷◌}
use doublangu.Hashing.{Text}
use doublangu.Semantics.Texts.{Unicode}
use doublangu.Semantics.Tokens.{
  idle, started, is_word_rune, is_joiner, has_word_after, make_token, ends_word, next_word,
  finished_token, tokenize_from,
}

-- The rounds of the loop, by the code point they meet.
module _ (u : Unicode) (block : ℕ) (text : Text) (at : ℕ) (r : ℕ) (rest : Text) where
  pub round_start :
      is_word_rune u r ≡ true
      → tokenize_from u block text at idle (r ∷ rest)
        ≡ tokenize_from u block text (suc at) (started at (suc at)) rest
  unfolding tokenize_from next_word finished_token
  round_start e = rw e refl

  pub round_idle :
      is_word_rune u r ≡ false
      → tokenize_from u block text at idle (r ∷ rest)
        ≡ tokenize_from u block text (suc at) idle rest
  unfolding tokenize_from next_word finished_token
  round_idle e = rw e refl

  pub round_word :
      (start last : ℕ)
      → (is_word_rune u r || u.is_mark r) ≡ true
      → tokenize_from u block text at (started start last) (r ∷ rest)
        ≡ tokenize_from u block text (suc at) (started start (suc at)) rest
  unfolding tokenize_from next_word finished_token ends_word
  round_word start last e = rw e refl

  pub round_join :
      (start last : ℕ)
      → (is_word_rune u r || u.is_mark r) ≡ false
      → (is_joiner r && has_word_after u rest) ≡ true
      → tokenize_from u block text at (started start last) (r ∷ rest)
        ≡ tokenize_from u block text (suc at) (started start last) rest
  unfolding tokenize_from next_word finished_token ends_word
  round_join start last e f = rw (e, f) refl

  pub round_end :
      (start last : ℕ)
      → (is_word_rune u r || u.is_mark r) ≡ false
      → is_word_rune u r ≡ false
      → (is_joiner r && has_word_after u rest) ≡ false
      → tokenize_from u block text at (started start last) (r ∷ rest)
        ≡ make_token u block text start last ∷ tokenize_from u block text (suc at) idle rest
  unfolding tokenize_from next_word finished_token ends_word
  round_end start last e g f = rw (e, f, g) refl
