-- ===== src/Examples/Identities.antt =====
-- The theorems on hashed byte strings, at small values.
use doublangu.Prelude.{◌≡◌, ◌≢◌, refl, [], ◌∷◌, ◌++◌, arith, pos}
use doublangu.Hashing.{Text, Block, NewSense, ascii, carry_bytes}
use doublangu.Hashing.Identities.{part_bytes_unique, lengthened, shortened, carry_bytes_ambiguous}

abbrev block : Block
block = record { block_index = pos 3; source_text = ascii "Der Hund." }

part_bytes_unique_example :
    (ascii "d.v1" ≡ ascii "d." ++ ascii "v1")
    × (ascii "a" ∷ ascii "bc" ∷ [] ≡ (ascii "a" ∷ []) ++ ascii "bc" ∷ [])
part_bytes_unique_example =
    part_bytes_unique (ascii "d.v1") (ascii "d." ++ ascii "v1") (ascii "a" ∷ ascii "bc" ∷ [])
      ((ascii "a" ∷ []) ++ ascii "bc" ∷ [])
      (omega arith, (omega arith, (omega arith, (omega arith, tt))))
      (omega arith, (omega arith, (omega arith, (omega arith, tt))))
      (omega arith, (omega arith, tt)) (omega arith, (omega arith, tt)) refl

abbrev sense : Text → NewSense
sense form = record {
  ref = ascii "new:1";
  kind = ascii "word";
  canonical_form = form;
  normalized_form = form;
  lemma = form;
  part_of_speech = ascii "noun";
  sense_discriminator = [];
  primary_translation = ascii "dog";
  alternatives = [];
  literal_translation = [];
  meaning_note = [];
  usage_note = [];
  parts_note = [];
  canonical_pronunciation_text = [];
}

carry_bytes_ambiguous_example :
    let pool =
      sense (ascii "hund")
      ∷ record (sense (ascii "word")) { alternatives = ascii "term" ∷ [] }
      ∷ [] in
    let other =
      lengthened (sense (ascii "hund")) (sense (ascii "word"))
      ∷ shortened (sense (ascii "word")) (ascii "term") []
      ∷ [] in
    (carry_bytes pool ≡ carry_bytes other) × (pool ≢ other)
carry_bytes_ambiguous_example =
    carry_bytes_ambiguous (sense (ascii "hund")) (sense (ascii "word")) (ascii "term") []
