-- ===== src/Semantics/Dictionary/Answers.antt =====
-- What ValidateDictionary of internal/semantics/dictionary.go accepts.
use doublangu.Prelude.{
  ◌≡◌, refl, true, false, List, [], ◌∷◌, arith, leb, length, codes, str_eq, exists_where, ok,
  bind_ok, then_ok, refuse_ok, All, Pairs, All-mono,
}
use doublangu.Hashing.{Text}
use doublangu.Semantics.Texts.{same_text, same_text_iff, Unicode, normalize_form}
use doublangu.Semantics.Dictionary.{
  DictionaryInput, DictionarySense, DictionaryDocument, is_part_of_speech, check_sense,
  deduplication_key, check_dictionary_senses, validate_dictionary,
}
use doublangu.Semantics.Dictionary.Apart.{IsAccepted, IsApart, check_examples_iff}
use doublangu.Workers.Capabilities.{TagParser}

abbrev pub IsRepeated : Unicode → DictionarySense → DictionarySense → Type 0
IsRepeated u s t =
    (s.part_of_speech ≡ t.part_of_speech)
    × (normalize_form u s.translation_en ≡ normalize_form u t.translation_en)
    × (normalize_form u s.meaning_en ≡ normalize_form u t.meaning_en)

abbrev pub IsSense : Unicode → DictionarySense → Type 0
IsSense u s =
    (is_part_of_speech s.part_of_speech ≡ true)
    × (leb (length s.parts) 6 ≡ true)
    × (leb 1 (length s.examples) ≡ true)
    × (leb (length s.examples) 2 ≡ true)
    × All (IsAccepted u) s.examples
    × IsApart s.examples

abbrev pub IsAnswer : DictionaryInput → DictionaryDocument → Type 0
IsAnswer input document =
    (document.version ≡ codes "reader.dictionary.v1")
    × (document.lookup_form ≡ input.lookup_form)
    × (document.lookup_kind ≡ input.lookup_kind)
    × (str_eq document.source_language input.source_language ≡ true)
    × (str_eq document.target_language input.target_language ≡ true)

IsNewSense : Unicode → List Text → DictionarySense → Type 0
IsNewSense u seen t =
    (k : Text) × (deduplication_key u t ≡ ok k) × (exists_where (same_text k) seen ≡ false)

same_key :
    (u : Unicode) (s t : DictionarySense)
    → IsRepeated u s t
    → deduplication_key u s ≡ deduplication_key u t
unfolding deduplication_key
same_key u s t (p, n, m) = rw (p, n, m) refl

IsNewSense-of_more :
    (u : Unicode) (k : Text) (seen : List Text) (t : DictionarySense)
    → IsNewSense u (k ∷ seen) t
    → IsNewSense u seen t
unfolding exists_where IsNewSense
IsNewSense-of_more u k seen t (l, e, w) = (l, e, ground (arith, w))

new_differs :
    (u : Unicode) (s t : DictionarySense) (k : Text) (seen : List Text)
    → deduplication_key u s ≡ ok k
    → IsNewSense u (k ∷ seen) t
    → ¬ (IsRepeated u s t)
unfolding exists_where IsNewSense
new_differs u s t k seen e (l, f, w) r = ground (arith, w, (same_text_iff l k).1 same)
  where
    same : l ≡ k
    same = ground (arith, e, f, same_key u s t r)

module _ (u : Unicode) (separator : u.is_control 0x1f ≡ true) where
  check_sense-IsSense : (s : DictionarySense) → check_sense u s ≡ ok tt → IsSense u s
  unfolding check_sense
  check_sense-IsSense s h =
      let (pos, h1) = then_ok _ _ h in
      let (_, h2) = then_ok _ _ h1 in
      let (_, h3) = then_ok _ _ h2 in
      let (_, h4) = then_ok _ _ h3 in
      let (_, h5) = then_ok _ _ h4 in
      let (few_parts, h6) = then_ok _ _ h5 in
      let (_, h7) = then_ok _ _ h6 in
      let (few, examples) = then_ok _ _ h7 in
      let (accepted, apart) = (check_examples_iff u separator s.examples).0 examples in
      (
        ground (arith, refuse_ok _ _ pos),
        ground (arith, refuse_ok _ _ few_parts),
        ground (arith, refuse_ok _ _ few),
        ground (arith, refuse_ok _ _ few),
        accepted,
        apart,
      )

  check_dictionary_senses_sound :
      (seen : List Text) (senses : List DictionarySense)
      → check_dictionary_senses u seen senses ≡ ok tt
      → All (IsSense u) senses
        × All (IsNewSense u seen) senses
        × Pairs (λ s t. ¬ (IsRepeated u s t)) senses
  unfolding check_dictionary_senses IsNewSense
  check_dictionary_senses_sound seen [] h = (tt, tt, tt)
  check_dictionary_senses_sound seen (s ∷ rest) h =
      let (c, h1) = then_ok _ _ h in
      let (k, e, h2) = bind_ok _ _ h1 in
      let (n, h3) = then_ok _ _ h2 in
      let (later, new, apart) = check_dictionary_senses_sound (k ∷ seen) rest h3 in
      (
        (check_sense-IsSense s c, later),
        (
          (k, e, refuse_ok _ _ n),
          All-mono (IsNewSense u (k ∷ seen)) (IsNewSense u seen) (IsNewSense-of_more u k seen) rest
              new,
        ),
        (
          All-mono (IsNewSense u (k ∷ seen)) (λ t. ¬ (IsRepeated u s t))
              (λ t. new_differs u s t k seen e) rest new,
          apart,
        ),
      )

  -- A document that ValidateDictionary accepts is of this version and has the form, the kind and the
  -- languages of the request; each sense has a known part of speech, at most six parts and one or
  -- two examples, whose texts pass validateDictionaryText and which differ; and no two senses agree
  -- in the part of speech and the normalized translation and meaning. U+001F is a control character
  -- here.
  pub validate_dictionary-IsAnswer :
      (tags : TagParser) (input : DictionaryInput) (document : DictionaryDocument)
      → validate_dictionary u tags input document ≡ ok tt
      → IsAnswer input document
        × All (IsSense u) document.senses
        × Pairs (λ s t. ¬ (IsRepeated u s t)) document.senses
  unfolding validate_dictionary
  validate_dictionary-IsAnswer tags input document h =
      let (_, h1) = then_ok _ _ h in
      let (version, h2) = then_ok _ _ h1 in
      let (form, h3) = then_ok _ _ h2 in
      let (kind, h4) = then_ok _ _ h3 in
      let (languages, h5) = then_ok _ _ h4 in
      let (_, senses) = then_ok _ _ h5 in
      let (all, _, apart) = check_dictionary_senses_sound [] document.senses senses in
      (
        (
          (same_text_iff document.version (codes "reader.dictionary.v1")).0
              (ground (arith, refuse_ok _ _ version)),
          (same_text_iff document.lookup_form input.lookup_form).0
              (ground (arith, refuse_ok _ _ form)),
          (same_text_iff document.lookup_kind input.lookup_kind).0
              (ground (arith, refuse_ok _ _ kind)),
          ground (arith, refuse_ok _ _ languages),
          ground (arith, refuse_ok _ _ languages),
        ),
        all,
        apart,
      )
