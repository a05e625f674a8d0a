-- ===== src/Workers/Capabilities.antt =====
-- What a worker can render: the checks of internal/workers/service.go on the capabilities of an
-- enrollment and of a request for work, and ParseBCP47 of internal/library/language.go.
pub mod Preorder
use doublangu.Prelude.{
  ℕ, String, Bool, true, false, ◌&&◌, ◌||◌, not, List, [], ◌∷◌, Option, none, some, ℤ, pos, ltb_ℤ,
  Result, ok, err, ltb, leb, ◌==◌, if◌then◌else◌, str_eq, is_space, is_blank, codes, length,
  exists_where, all_where,
}
use doublangu.Workers.{WorkerError, protocol, unbounded}

pub record Capability : Type 0 where
  pub engine : String
  pub languages : List String
  pub unit_kinds : List String
  pub max_bytes : ℤ
  pub max_duration_ms : ℤ

abbrev pub protocol_version : String
protocol_version = "speech-worker.v1"

abbrev pub avspeech_engine : String
avspeech_engine = "avspeech"

abbrev pub chatterbox_engine : String
chatterbox_engine = "chatterbox"

abbrev pub max_worker_name : ℕ
max_worker_name = 120

abbrev pub max_capabilities : ℕ
max_capabilities = 32

-- 2 << 20
abbrev pub relay_capability_bytes : ℤ
relay_capability_bytes = pos 2_097_152

abbrev pub is_letter : ℕ → Bool
is_letter c = leb 97 c && leb c 122 || leb 65 c && leb c 90

abbrev pub is_tag_char : ℕ → Bool
is_tag_char c = is_letter c || leb 48 c && leb c 57 || c == 45

-- The loop of ParseBCP47 over a trimmed text: `false` where it returns an error. An ASCII text has
-- as many bytes as characters, and another text is refused by the loop.
unfoldable pub is_tag_text : List ℕ → Bool
unfolding all_where
is_tag_text [] = false
is_tag_text (c ∷ []) = false
is_tag_text (c ∷ d ∷ s) = is_letter c && all_where is_tag_char (d ∷ s)

abbrev pub valid_unit_kind : String → Bool
valid_unit_kind kind =
    str_eq kind "*" || str_eq kind "word" || str_eq kind "phrase" || str_eq kind "sentence"

-- len(list) == 0 || len(list) > limit
abbrev pub has_bad_length : {A : Type 0} → ℕ → List A → Bool
has_bad_length limit xs = length xs == 0 || ltb limit (length xs)

-- golang.org/x/text/language: `parse` is Parse followed by Tag.String, `none` for an error and for
-- the root tag; `reparse` is the text of the tag that Parse returns, whether with an error or not.
pub record TagParser : Type 0 where
  pub parse : String → Option String
  pub reparse : String → String

-- A tag text neither is empty nor has a space at its ends.
module _ (tags : TagParser) where
  unfoldable pub parse_bcp47 : String → Option String
  unfolding is_tag_text
  parse_bcp47 input = if not (is_tag_text (codes input)) then none else elim (tags.parse input) [
    | none ↦ none
    | some canonical ↦ if str_eq (tags.reparse canonical) canonical then some canonical else none
  ]

  unfoldable pub valid_language : String → Bool
  unfolding parse_bcp47
  valid_language language =
      str_eq language "*"
      || (elim (parse_bcp47 language) [ none ↦ false | some canonical ↦ str_eq canonical language ])

  unfoldable pub valid_capability : Capability → Bool
  unfolding valid_language all_where
  valid_capability c =
      (str_eq c.engine avspeech_engine || str_eq c.engine chatterbox_engine)
      && not (
          has_bad_length 32 c.languages
          || has_bad_length 8 c.unit_kinds
          || ltb_ℤ c.max_bytes (pos 0)
          || ltb_ℤ c.max_duration_ms (pos 0))
      && all_where valid_language c.languages
      && all_where valid_unit_kind c.unit_kinds

  unfoldable pub validate_capabilities : List Capability → Result WorkerError (Unit {0})
  unfolding valid_capability all_where
  validate_capabilities cs =
      if has_bad_length max_capabilities cs
      then err unbounded
      else if all_where valid_capability cs
      then ok tt
      else err protocol

-- enrolled == 0 || requested > 0 && requested <= enrolled
unfoldable pub bounded_capacity : ℤ → ℤ → Bool
bounded_capacity requested enrolled =
    not (ltb_ℤ enrolled (pos 0)) && not (ltb_ℤ (pos 0) enrolled)
    || ltb_ℤ (pos 0) requested && not (ltb_ℤ enrolled requested)

abbrev pub admits : String → String → Bool
admits want have = str_eq have "*" || str_eq have want

unfoldable pub list_subset : List String → List String → Bool
unfolding all_where exists_where
list_subset requested enrolled = all_where (λ want. exists_where (admits want) enrolled) requested

unfoldable pub covers : Capability → Capability → Bool
unfolding bounded_capacity list_subset
covers want have =
    str_eq have.engine want.engine
    && bounded_capacity want.max_bytes have.max_bytes
    && bounded_capacity want.max_duration_ms have.max_duration_ms
    && list_subset want.languages have.languages
    && list_subset want.unit_kinds have.unit_kinds

unfoldable pub capabilities_subset : List Capability → List Capability → Bool
unfolding covers all_where exists_where
capabilities_subset requested enrolled =
    all_where (λ want. exists_where (covers want) enrolled) requested
