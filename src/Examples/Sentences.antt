-- ===== src/Examples/Sentences.antt =====
-- The theorems on sentences and spans, at short paragraphs.
use doublangu.Prelude.{
  ◌≡◌, refl, false, ◌&&◌, ◌||◌, none, some, Option, List, [], ◌∷◌, map, leb, ◌==◌, ok, codes, pos,
}
use doublangu.Hashing.{Text, Block, ResolvedSpan, ResolvedSentence, PreparedArticle}
use doublangu.Semantics.Texts.{Unicode}
use doublangu.Semantics.Spans.{resolve_span}
use doublangu.Semantics.Spans.Exact.{IsExact, resolve_span-IsExact}
use doublangu.Semantics.Anchors.{validate_source_sentence_anchors}
use doublangu.Semantics.Anchors.Ordered.{IsGrouped, validate_source_sentence_anchors-IsGrouped}
use doublangu.Reader.Sentences.{SentenceSpan, segment_sentences, segment_article_sentences}
use doublangu.Reader.Sentences.Segmented.{IsSegmented, segment_sentences-IsSegmented}
use doublangu.Reader.Sentences.Anchored.{segmented_anchors_accepted}

-- The Unicode tables, restricted to ASCII.
abbrev pub ascii_tables : Unicode
ascii_tables = record {
  is_letter = λ r. leb 65 r && leb r 90 || leb 97 r && leb r 122;
  is_number = λ r. leb 48 r && leb r 57;
  is_mark = λ r. false;
  is_upper = λ r. leb 65 r && leb r 90;
  is_control = λ r. leb r 31 || r == 127;
  same_fold = λ r s. r == s;
  nfc = λ s. s;
  fold = λ s. s;
}

abbrev sources : Option (List SentenceSpan) → List Text
sources none = []
sources (some xs) = map (λ x. x.source_text) xs

-- An abbreviation, an initialism, a number and a quote do not end a sentence.
sentences_of_prose :
    sources (segment_sentences ascii_tables (codes "Ga om 4.30 naar dr. J.S. Bach! \"Nee.\"  Ja"))
    ≡ codes "Ga om 4.30 naar dr. J.S. Bach!" ∷ codes "\"Nee.\"" ∷ codes "Ja" ∷ []
unfolding segment_sentences
sentences_of_prose = refl

abbrev pub paragraph : Block
paragraph = record { block_index = pos 0; source_text = codes "Ja. Nee" }

abbrev pub article : PreparedArticle
article = record {
  title = codes "t";
  source_language = codes "nl";
  target_language = codes "en";
  content_hash = [];
  blocks = paragraph ∷ [];
  tokens = [];
  candidates = [];
  sentences = [];
}

segment_sentences-IsSegmented_example :
    (xs : List SentenceSpan) × (segment_sentences ascii_tables (codes "Ja. Nee") ≡ some xs)
    × IsSegmented 0 (codes "Ja. Nee") xs
segment_sentences-IsSegmented_example = segment_sentences-IsSegmented ascii_tables (codes "Ja. Nee")

segmented_anchors_accepted_example :
    (anchors : List ResolvedSentence) × (segment_article_sentences ascii_tables article.blocks
      ≡ some anchors)
    × (validate_source_sentence_anchors (record article { sentences = anchors }) ≡ ok anchors)
segmented_anchors_accepted_example = segmented_anchors_accepted ascii_tables article (refl, tt)

abbrev pub anchors : List ResolvedSentence
anchors =
    record {
      index = pos 0;
      span = record {
        block_index = pos 0;
        start_utf16 = pos 0;
        end_utf16 = pos 3;
        source_text = codes "Ja.";
      };
    }
    ∷ record {
      index = pos 1;
      span = record {
        block_index = pos 0;
        start_utf16 = pos 4;
        end_utf16 = pos 7;
        source_text = codes "Nee";
      };
    }
    ∷ []

anchors_valid :
    validate_source_sentence_anchors (record article { sentences = anchors }) ≡ ok anchors
unfolding validate_source_sentence_anchors
anchors_valid = refl

validate_source_sentence_anchors-IsGrouped_example : IsGrouped 0 article.blocks anchors
validate_source_sentence_anchors-IsGrouped_example =
    validate_source_sentence_anchors-IsGrouped (record article { sentences = anchors }) anchors
      anchors_valid

abbrev repeated : Block
repeated = record { block_index = pos 2; source_text = codes "een en een" }

abbrev second : ResolvedSpan
second = record {
  block_index = pos 2;
  start_utf16 = pos 7;
  end_utf16 = pos 10;
  source_text = codes "een";
}

second_found : resolve_span repeated (codes "een") (pos 1) ≡ ok second
unfolding resolve_span
second_found = refl

resolve_span-IsExact_example : IsExact repeated (codes "een") second
resolve_span-IsExact_example =
    resolve_span-IsExact repeated (codes "een") (pos 1) second second_found
