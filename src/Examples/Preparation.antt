-- ===== src/Examples/Preparation.antt =====
-- The theorems on preparing an article and on namespacing a response, at short texts.
use doublangu.Prelude.{
  ℕ, String, ◌≡◌, refl, some, List, [], ◌∷◌, ◌++◌, map, ok, codes, pos, ◌>>=◌, ◌>>◌,
}
use doublangu.Hashing.{Text, Block, Token, NewSense, PreparedArticle}
use doublangu.Workers.Capabilities.{TagParser}
use doublangu.Semantics.Results.{sense_of}
use doublangu.Semantics.Tokens.{tokenize}
use doublangu.Semantics.Tokens.Placed.{IsTokenized, tokenize-IsTokenized}
use doublangu.Semantics.Prepare.{prepare}
use doublangu.Semantics.Prepare.Prepared.{IsPrepared, prepare-IsPrepared}
use doublangu.Semantics.Response.{Response}
use doublangu.Semantics.Merging.{namespace_chunk_response}
use doublangu.Semantics.Merging.Namespaced.{
  respelled, respelled_result, respelled_construction, named_after, namespace_chunk_response_keeps,
}
use doublangu.Examples.Sentences.{ascii_tables}
use doublangu.Examples.Responses.{sense, label, on_time}

-- A joiner belongs to a word only before a letter.
tokens_of_prose :
    map (λ t. t.source_text) (tokenize ascii_tables 0 (codes "'s Foto's, e-mail- 2x"))
    ≡ codes "s" ∷ codes "Foto's" ∷ codes "e-mail" ∷ codes "2x" ∷ []
unfolding tokenize
tokens_of_prose = refl

tokenize-IsTokenized_example :
    IsTokenized ascii_tables 3 0 (codes "e-mail, ja") (tokenize ascii_tables 3 (codes "e-mail, ja"))
tokenize-IsTokenized_example = tokenize-IsTokenized ascii_tables 3 (codes "e-mail, ja")

abbrev pub tags : TagParser
tags = record { parse = λ s. some s; reparse = λ s. s }

abbrev two_blocks : List Block
two_blocks =
    record { block_index = pos 0; source_text = codes "Ja." }
    ∷ record { block_index = pos 1; source_text = codes "Nee" }
    ∷ []

abbrev numbered : String → ℕ → ℕ → ℕ → String → Token
numbered id block n end word = record {
  id = codes id;
  block_index = pos block;
  token_index = pos n;
  start_utf16 = pos 0;
  end_utf16 = pos end;
  source_text = codes word;
  normalized_form = codes word;
  lemma = [];
}

abbrev prepared : PreparedArticle
prepared = record {
  title = codes "t";
  source_language = codes "nl";
  target_language = codes "en";
  content_hash = codes "digest";
  blocks = two_blocks;
  tokens = numbered "b0:t0" 0 0 2 "Ja" ∷ numbered "b1:t1" 1 1 3 "Nee" ∷ [];
  candidates = [];
  sentences = [];
}

abbrev digest : Text → String
digest s = "digest"

is_prepared : prepare ascii_tables tags digest (codes "t") "nl" "en" two_blocks [] ≡ ok prepared
unfolding prepare ◌>>=◌ ◌>>◌
is_prepared = refl

prepare-IsPrepared_example : IsPrepared prepared
prepare-IsPrepared_example =
    prepare-IsPrepared ascii_tables tags digest (codes "t") "nl" "en" two_blocks [] prepared
      is_prepared

abbrev prior : List NewSense
prior = sense "b0:a" "zo" "so" ∷ []

abbrev local : Response
local = record {
  version = codes "reader.analysis.v3";
  tokens = record (label "b1:t0") { new_sense_ref = codes "b0:a" } ∷ [];
  new_senses = sense "a" "op tijd" "on time" ∷ [];
  constructions = on_time ∷ [];
}

abbrev namespaced : Response
namespaced = record local {
  new_senses = sense "b1:a" "op tijd" "on time" ∷ [];
  constructions = record on_time { new_sense_ref = codes "b1:a" } ∷ [];
}

is_namespaced : namespace_chunk_response (pos 1) local prior ≡ ok namespaced
unfolding namespace_chunk_response ◌>>=◌ ◌>>◌
is_namespaced = refl

local_named :
    sense_of (prior ++ local.new_senses) (codes "a") ≡ some (sense "a" "op tijd" "on time")
unfolding sense_of
local_named = refl

namespace_chunk_response_keeps_example :
    (namespaced.tokens ≡ map (respelled_result (pos 1) local.new_senses) local.tokens)
    × (namespaced.constructions
        ≡ map (respelled_construction (pos 1) local.new_senses) local.constructions)
    × (sense_of (prior ++ namespaced.new_senses) (respelled (pos 1) local.new_senses (codes "a"))
        ≡ some (named_after (pos 1) prior (codes "a") (sense "a" "op tijd" "on time")))
namespace_chunk_response_keeps_example =
    namespace_chunk_response_keeps (pos 1) local prior namespaced (codes "a")
      (sense "a" "op tijd" "on time") is_namespaced local_named
