-- ===== src/Examples/Dictionary.antt =====
-- The theorems on dictionary documents and hints, at a request for a Dutch word.
use doublangu.Prelude.{
  String, ◌≡◌, refl, ◌↔◌, List, [], ◌∷◌, leb, true, length, ok, codes, ◌>>=◌, ◌>>◌, All, Pairs,
}
use doublangu.Hashing.{Text}
use doublangu.Semantics.Texts.{normalize_form}
use doublangu.Semantics.Dictionary.{
  DictionaryInput, DictionaryExample, DictionarySense, DictionaryDocument, check_examples,
  validate_dictionary,
}
use doublangu.Semantics.Dictionary.Apart.{IsAccepted, IsApart, check_examples_iff}
use doublangu.Semantics.Dictionary.Hints.{sanitize_dictionary_hints}
use doublangu.Semantics.Dictionary.Increasing.{
  IsHint, IsBefore, sanitize_dictionary_hints-IsHygienic,
}
use doublangu.Semantics.Dictionary.Answers.{
  IsRepeated, IsSense, IsAnswer, validate_dictionary-IsAnswer,
}
use doublangu.Examples.Sentences.{ascii_tables}
use doublangu.Examples.Preparation.{tags}

abbrev example : String → String → DictionaryExample
example text translation = record { text_nl = codes text; translation_en = codes translation }

abbrev two_examples : List DictionaryExample
two_examples = example "Ik ben op tijd." "I am on time." ∷ example "Kom op tijd." "Be on time." ∷ []

check_examples_iff_example :
    (check_examples ascii_tables [] two_examples ≡ ok tt)
    ↔ (All (IsAccepted ascii_tables) two_examples × IsApart two_examples)
check_examples_iff_example = check_examples_iff ascii_tables refl two_examples

-- Examples that differ only in spacing are not told apart by normalization, and both are accepted.
abbrev respaced : List DictionaryExample
respaced = example "Kom op tijd." "Be on time." ∷ example "Kom op  tijd." "Be on time." ∷ []

same_form :
    normalize_form ascii_tables (codes "Kom op tijd.")
    ≡ normalize_form ascii_tables (codes "Kom op  tijd.")
unfolding normalize_form
same_form = refl

respaced_accepted : check_examples ascii_tables [] respaced ≡ ok tt
unfolding check_examples ◌>>=◌ ◌>>◌
respaced_accepted = refl

-- A blank hint, markup and a repetition are dropped, and the others are sorted.
abbrev hints : List Text
hints = codes " on time " ∷ codes "" ∷ codes "<b>" ∷ codes "in time" ∷ codes "on  time" ∷ []

sanitized : sanitize_dictionary_hints ascii_tables hints ≡ codes "in time" ∷ codes "on time" ∷ []
unfolding sanitize_dictionary_hints
sanitized = refl

sanitize_dictionary_hints-IsHygienic_example :
    (leb (length (sanitize_dictionary_hints ascii_tables hints)) 6 ≡ true)
    × All (IsHint ascii_tables) (sanitize_dictionary_hints ascii_tables hints)
    × Pairs (IsBefore ascii_tables) (sanitize_dictionary_hints ascii_tables hints)
sanitize_dictionary_hints-IsHygienic_example =
    sanitize_dictionary_hints-IsHygienic ascii_tables hints

abbrev input : DictionaryInput
input = record {
  version = codes "reader.dictionary.v1";
  lookup_form = codes "op tijd";
  lookup_kind = codes "expression";
  source_language = "nl";
  target_language = "en";
  known_translations = codes "on time" ∷ [];
}

abbrev sense : DictionarySense
sense = record {
  part_of_speech = codes "expression";
  translation_en = codes "on time";
  meaning_en = codes "not late";
  usage_en = [];
  pattern_nl = [];
  parts = record { source_nl = codes "tijd"; explanation_en = codes "time" } ∷ [];
  examples = two_examples;
}

abbrev document : DictionaryDocument
document = record {
  version = codes "reader.dictionary.v1";
  lookup_form = codes "op tijd";
  lookup_kind = codes "expression";
  source_language = "nl";
  target_language = "en";
  senses = sense ∷ record sense { meaning_en = codes "at the appointed hour" } ∷ [];
}

is_valid : validate_dictionary ascii_tables tags input document ≡ ok tt
unfolding validate_dictionary ◌>>=◌ ◌>>◌
is_valid = refl

validate_dictionary-IsAnswer_example :
    IsAnswer input document
    × All (IsSense ascii_tables) document.senses
    × Pairs (λ s t. ¬ (IsRepeated ascii_tables s t)) document.senses
validate_dictionary-IsAnswer_example =
    validate_dictionary-IsAnswer ascii_tables refl tags input document is_valid
