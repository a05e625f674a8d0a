-- ===== src/Semantics/Dictionary.antt =====
-- internal/semantics/dictionary.go: what a dictionary request and its document must satisfy. The
-- document is given decoded.
pub mod Apart
pub mod Answers
pub mod Hints
pub mod Increasing
use doublangu.Prelude.{
  ℕ, String, Bool, true, false, not, ◌&&◌, ◌||◌, Option, none, some, List, [], ◌∷◌, ◌++◌, ltb, ◌==◌,
  codes, is_space, length, exists_where, str_eq, Result, ok, err, Checked, ◌>>=◌, ◌>>◌, refuse,
}
use doublangu.Hashing.{Text}
use doublangu.Semantics.Texts.{
  same_text, index, is_blank_text, Unicode, NormalizeError, normalize_form,
}
use doublangu.Semantics.Errors.{ResponseError}
use doublangu.Semantics.Senses.{is_text, safe_provider_text}
use doublangu.Workers.Capabilities.{TagParser, parse_bcp47}

abbrev pub max_dictionary_lookup_scalars : ℕ
max_dictionary_lookup_scalars = 200

abbrev pub max_dictionary_translation_hints : ℕ
max_dictionary_translation_hints = 6

abbrev pub max_dictionary_hint_scalars : ℕ
max_dictionary_hint_scalars = 120

abbrev pub max_dictionary_parts : ℕ
max_dictionary_parts = 6

abbrev pub max_dictionary_examples : ℕ
max_dictionary_examples = 2

pub record DictionaryInput : Type 0 where
  pub version : Text
  pub lookup_form : Text
  pub lookup_kind : Text
  pub source_language : String
  pub target_language : String
  pub known_translations : List Text

pub record DictionaryPart : Type 0 where
  pub source_nl : Text
  pub explanation_en : Text

pub record DictionaryExample : Type 0 where
  pub text_nl : Text
  pub translation_en : Text

pub record DictionarySense : Type 0 where
  pub part_of_speech : Text
  pub translation_en : Text
  pub meaning_en : Text
  pub usage_en : Text
  pub pattern_nl : Text
  pub parts : List DictionaryPart
  pub examples : List DictionaryExample

pub record DictionaryDocument : Type 0 where
  pub version : Text
  pub lookup_form : Text
  pub lookup_kind : Text
  pub source_language : String
  pub target_language : String
  pub senses : List DictionarySense

pub data DictionaryError : Type 0 where
  input_version lookup_kind_unsupported invalid_language same_languages : DictionaryError
  too_many_hints : DictionaryError
  not_normalized : NormalizeError → DictionaryError
  unsafe_text : ResponseError → DictionaryError
  line_break blank markup_delimiter : DictionaryError
  document_version form_differs kind_differs languages_differ : DictionaryError
  part_of_speech_unsupported too_many_parts example_count : DictionaryError
  duplicate_example duplicate_sense : DictionaryError

abbrev pub dictionary_contract_version : String
dictionary_contract_version = "reader.dictionary.v1"

unfoldable pub dictionary_lookup_kind_valid : Text → Bool
dictionary_lookup_kind_valid kind = is_text kind "word" || is_text kind "expression"

-- dictionaryPartOfSpeech
unfoldable pub is_part_of_speech : Text → Bool
is_part_of_speech s =
    is_text s "noun"
    || is_text s "verb"
    || is_text s "adjective"
    || is_text s "adverb"
    || is_text s "pronoun"
    || is_text s "determiner"
    || is_text s "preposition"
    || is_text s "conjunction"
    || is_text s "interjection"
    || is_text s "numeral"
    || is_text s "proper_noun"
    || is_text s "expression"
    || is_text s "other"

-- strings.Contains
unfoldable pub contains_text : Text → String → Bool
unfolding index
contains_text s literal = elim (index s (codes literal)) [ none ↦ false | some n ↦ true ]

abbrev pub safely : Checked ResponseError → Checked DictionaryError
safely (ok tt) = ok tt
safely (err e) = err (DictionaryError.unsafe_text e)

abbrev pub normally : Result NormalizeError Text → Result DictionaryError Text
normally (ok s) = ok s
normally (err e) = err (DictionaryError.not_normalized e)

abbrev pub language_of : Option String → Result DictionaryError String
language_of none = err DictionaryError.invalid_language
language_of (some tag) = ok tag

-- DictionarySense.ExampleKey, at an index of the list
unfoldable pub example_key : DictionaryExample → Text
example_key e = e.text_nl ++ 0x1f ∷ e.translation_en

module _ (u : Unicode) where
  unfoldable pub validate_dictionary_text : Text → ℕ → Bool → Checked DictionaryError
  unfolding safe_provider_text is_blank_text contains_text exists_where
  validate_dictionary_text value max nonblank = do
    safely (safe_provider_text u value max)
    refuse (exists_where (λ r. r == 10 || r == 13 || r == 9) value) DictionaryError.line_break
    refuse (nonblank && is_blank_text value) DictionaryError.blank
    refuse (contains_text value "`" || contains_text value "](" || contains_text value "![")
        DictionaryError.markup_delimiter

  unfoldable pub check_parts : List DictionaryPart → Checked DictionaryError
  unfolding validate_dictionary_text
  check_parts [] = ok tt
  check_parts (part ∷ rest) = do
    validate_dictionary_text part.source_nl 120 true
    validate_dictionary_text part.explanation_en 300 true
    check_parts rest

  -- The loop over the examples: `seen` are the keys of those before.
  unfoldable pub check_examples : List Text → List DictionaryExample → Checked DictionaryError
  unfolding validate_dictionary_text example_key exists_where
  check_examples seen [] = ok tt
  check_examples seen (example ∷ rest) = do
    validate_dictionary_text example.text_nl 240 true
    validate_dictionary_text example.translation_en 240 true
    refuse (exists_where (same_text (example_key example)) seen) DictionaryError.duplicate_example
    check_examples (example_key example ∷ seen) rest

  unfoldable pub deduplication_key : DictionarySense → Result DictionaryError Text
  unfolding normalize_form
  deduplication_key s = do
    translation ← normally (normalize_form u s.translation_en)
    meaning ← normally (normalize_form u s.meaning_en)
    ok (s.part_of_speech ++ 0x1f ∷ (translation ++ 0x1f ∷ meaning))

  unfoldable pub check_sense : DictionarySense → Checked DictionaryError
  unfolding is_part_of_speech validate_dictionary_text check_parts check_examples
  check_sense s = do
    refuse (not (is_part_of_speech s.part_of_speech)) DictionaryError.part_of_speech_unsupported
    validate_dictionary_text s.translation_en 120 true
    validate_dictionary_text s.meaning_en 600 true
    validate_dictionary_text s.usage_en 400 false
    validate_dictionary_text s.pattern_nl 160 false
    refuse (ltb max_dictionary_parts (length s.parts)) DictionaryError.too_many_parts
    check_parts s.parts
    refuse (ltb (length s.examples) 1 || ltb max_dictionary_examples (length s.examples))
        DictionaryError.example_count
    check_examples [] s.examples

  -- The loop over the senses: `seen` are the keys of those before.
  unfoldable pub check_dictionary_senses :
      List Text → List DictionarySense → Checked DictionaryError
  unfolding check_sense deduplication_key exists_where
  check_dictionary_senses seen [] = ok tt
  check_dictionary_senses seen (s ∷ rest) = do
    check_sense s
    key ← deduplication_key s
    refuse (exists_where (same_text key) seen) DictionaryError.duplicate_sense
    check_dictionary_senses (key ∷ seen) rest

  unfoldable pub check_hints : List Text → Checked DictionaryError
  unfolding safe_provider_text
  check_hints [] = ok tt
  check_hints (hint ∷ rest) = do
    safely (safe_provider_text u hint max_dictionary_hint_scalars)
    check_hints rest

  module _ (tags : TagParser) where
    -- libraryParseAndCompare
    unfoldable pub parse_and_compare : String → String → Checked DictionaryError
    unfolding parse_bcp47
    parse_and_compare source_language target_language = do
      source ← language_of (parse_bcp47 tags source_language)
      target ← language_of (parse_bcp47 tags target_language)
      refuse (str_eq source target) DictionaryError.same_languages

    -- DictionaryInput.Validate
    unfoldable pub validate_input : DictionaryInput → Checked DictionaryError
    unfolding dictionary_lookup_kind_valid safe_provider_text normalize_form parse_and_compare
        check_hints
    validate_input input = do
      refuse (not (is_text input.version dictionary_contract_version)) DictionaryError.input_version
      refuse (not (dictionary_lookup_kind_valid input.lookup_kind))
          DictionaryError.lookup_kind_unsupported
      safely (safe_provider_text u input.lookup_form max_dictionary_lookup_scalars)
      form ← normally (normalize_form u input.lookup_form)
      parse_and_compare input.source_language input.target_language
      check_hints input.known_translations
      refuse (ltb max_dictionary_translation_hints (length input.known_translations))
          DictionaryError.too_many_hints

    unfoldable pub validate_dictionary :
        DictionaryInput → DictionaryDocument → Checked DictionaryError
    unfolding validate_input parse_and_compare check_dictionary_senses
    validate_dictionary input document = do
      validate_input input
      refuse (not (is_text document.version dictionary_contract_version))
          DictionaryError.document_version
      refuse (not (same_text document.lookup_form input.lookup_form)) DictionaryError.form_differs
      refuse (not (same_text document.lookup_kind input.lookup_kind)) DictionaryError.kind_differs
      refuse
          (not (str_eq document.source_language input.source_language)
            || not (str_eq document.target_language input.target_language))
          DictionaryError.languages_differ
      parse_and_compare document.source_language document.target_language
      check_dictionary_senses [] document.senses
