-- ===== src/Semantics/Prepare.antt =====
-- Prepare and ContentHash of internal/semantics/types.go: a new article with its tokens.
pub mod Numbered
pub mod Prepared
use doublangu.Prelude.{
  ℕ, suc, String, Bool, true, false, not, ◌||◌, Option, none, some, List, [], ◌∷◌, ◌++◌, map, pos,
  ℤ, codes, length, Result, ok, err, ◌>>=◌, ◌>>◌, refuse,
}
use doublangu.Hashing.{
  Text, Block, Token, SenseCandidate, PreparedArticle, ascii, write_each, write_hash_string,
  write_block,
}
use doublangu.Workers.Capabilities.{TagParser, parse_bcp47}
use doublangu.Semantics.Texts.{is_empty, is_blank_text, Unicode}
use doublangu.Semantics.Spans.{same_int}
use doublangu.Semantics.Tokens.{tokenize}
use doublangu.Semantics.Encoding.{utf8, utf8_block, decimal}

pub data PrepareError : Type 0 where
  no_title invalid_language no_blocks invalid_block : PrepareError

-- The bytes that ContentHash hashes.
unfoldable pub content_bytes : Text → String → String → List Block → Text
unfolding utf8 utf8_block write_each write_hash_string write_block
content_bytes title source target blocks =
    write_each write_hash_string
      (ascii "doublangu.article-content.v1"
        ∷ utf8 title
        ∷ utf8 (codes source)
        ∷ utf8 (codes target)
        ∷ [])
      (write_each write_block (map utf8_block blocks) [])

-- fmt.Sprintf("b%d:t%d", index, number)
unfoldable pub token_id : ℕ → ℕ → Text
unfolding decimal
token_id index number = b'b' ∷ (decimal (pos index) ++ b':' ∷ b't' ∷ decimal (pos number))

unfoldable pub numbered_token : ℕ → ℕ → Token → Token
unfolding token_id
numbered_token index number t = record t { token_index = pos number; id = token_id index number }

unfoldable pub number_tokens : ℕ → ℕ → List Token → List Token
unfolding numbered_token
number_tokens index number [] = []
number_tokens index number (t ∷ ts) =
    numbered_token index number t ∷ number_tokens index (suc number) ts

-- The loop over the blocks, with the tokens of those before.
unfoldable pub prepare_blocks :
    Unicode → ℕ → List Token → List Block → Result PrepareError (List Token)
unfolding tokenize number_tokens
prepare_blocks u index tokens [] = ok tokens
prepare_blocks u index tokens (b ∷ bs) = do
  refuse (not (same_int b.block_index (pos index)) || is_empty b.source_text)
      PrepareError.invalid_block
  prepare_blocks u (suc index)
      (tokens ++ number_tokens index (length tokens) (tokenize u index b.source_text)) bs

abbrev language_or : Option String → Result PrepareError String
language_or none = err PrepareError.invalid_language
language_or (some tag) = ok tag

unfoldable pub prepare :
    Unicode
    → TagParser
    → (Text → String)
    → Text
    → String
    → String
    → List Block
    → List SenseCandidate
    → Result PrepareError PreparedArticle
unfolding is_blank_text parse_bcp47 prepare_blocks content_bytes
prepare u tags sum title source target blocks candidates = do
  refuse (is_blank_text title) PrepareError.no_title
  source_language ← language_or (parse_bcp47 tags source)
  target_language ← language_or (parse_bcp47 tags target)
  refuse (is_empty blocks) PrepareError.no_blocks
  tokens ← prepare_blocks u 0 [] blocks
  ok (record {
    title = title;
    source_language = codes source_language;
    target_language = codes target_language;
    content_hash = codes (sum (content_bytes title source_language target_language blocks));
    blocks = blocks;
    tokens = tokens;
    candidates = candidates;
    sentences = [];
  })
