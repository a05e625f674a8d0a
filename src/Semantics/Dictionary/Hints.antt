-- ===== src/Semantics/Dictionary/Hints.antt =====
-- SanitizeDictionaryHints of internal/semantics/dictionary.go.
use doublangu.Prelude.{
  Bool, true, false, ◌||◌, List, [], ◌∷◌, map, if◌then◌else◌, ltb, ◌==◌, length, not, exists_where,
  ok, err,
}
use doublangu.Hashing.{Text}
use doublangu.Semantics.Texts.{same_text, text_less, is_empty, take, Unicode, normalize_form}
use doublangu.Semantics.Senses.{trim_text}
use doublangu.Semantics.Dictionary.{max_dictionary_translation_hints, max_dictionary_hint_scalars}

pub record NormalizedHint : Type 0 where
  pub normalized : Text
  pub original : Text

-- The conditions on the trimmed hint before its normalization.
unfoldable pub is_discarded : Text → Bool
unfolding exists_where
is_discarded t =
    is_empty t
    || exists_where (λ r. r == b'<' || r == b'>') t
    || exists_where (λ r. r == 0 || r == 0x7f) t
    || exists_where (λ r. ltb r 0x20) t
    || ltb max_dictionary_hint_scalars (length t)

-- The loop: `seen` are the normalized forms of what is kept already.
unfoldable pub keep_hints : Unicode → List Text → List Text → List NormalizedHint
unfolding is_discarded trim_text normalize_form exists_where
keep_hints u seen [] = []
keep_hints u seen (hint ∷ rest) = elim (is_discarded (trim_text hint)) [
  | true ↦ keep_hints u seen rest
  | false ↦ elim (normalize_form u (trim_text hint)) [
    | err e ↦ keep_hints u seen rest
    | ok n ↦ elim (exists_where (same_text n) seen) [
      | true ↦ keep_hints u seen rest
      | false ↦ record { normalized = n; original = trim_text hint } ∷ keep_hints u (n ∷ seen) rest
    ]
  ]
]

unfoldable pub hint_less : NormalizedHint → NormalizedHint → Bool
hint_less g h =
    if not (same_text g.normalized h.normalized)
    then text_less g.normalized h.normalized
    else text_less g.original h.original

-- sort.Slice; where the order is total its result does not depend on the algorithm.
unfoldable pub insert_hint : NormalizedHint → List NormalizedHint → List NormalizedHint
unfolding hint_less
insert_hint g [] = g ∷ []
insert_hint g (h ∷ hs) = if hint_less h g then h ∷ insert_hint g hs else g ∷ h ∷ hs

unfoldable pub sort_hints : List NormalizedHint → List NormalizedHint
unfolding insert_hint
sort_hints [] = []
sort_hints (h ∷ hs) = insert_hint h (sort_hints hs)

unfoldable pub sanitize_dictionary_hints : Unicode → List Text → List Text
unfolding keep_hints sort_hints
sanitize_dictionary_hints u hints =
    map (λ h. h.original)
      (take max_dictionary_translation_hints (sort_hints (keep_hints u [] hints)))
