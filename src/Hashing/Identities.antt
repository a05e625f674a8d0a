-- ===== src/Hashing/Identities.antt =====
-- Which values the hashed byte strings tell apart.
use doublangu.Prelude.{
  ℕ, ◌<◌, ◌≡◌, ◌≢◌, refl, sym, ap, List, [], ◌∷◌, ◌++◌, arith, length, length-append, All,
}
use doublangu.Hashing.{
  big_endian, Text, Block, NewSense, ascii, write_hash_string, write_each, write_block,
  write_sense_hash, block_bytes, carry_bytes, part_bytes,
}
use doublangu.Hashing.Framing.{
  Fits, IsInt64, write_hash_string_unique, write_hash_int_unique, head_of, tail_of,
}

-- BlockHash hashes different bytes for different blocks: the bytes of a block determine its index
-- and its text. The index is a 64-bit integer, and the length of the text fits 64 bits.
pub block_bytes_unique :
    (b c : Block)
    → IsInt64 b.block_index
    → IsInt64 c.block_index
    → Fits b.source_text
    → Fits c.source_text
    → block_bytes b ≡ block_bytes c
    → b ≡ c
unfolding block_bytes write_block
block_bytes_unique b c i j f g e =
    let domain = ascii "doublangu.analysis-block.v1" in
    let (_, body) =
      write_hash_string_unique domain domain (write_block b []) (write_block c []) (omega arith)
        (omega arith) e in
    let (indices, texts) =
      write_hash_int_unique b.block_index c.block_index (write_hash_string b.source_text [])
        (write_hash_string c.source_text []) i j body in
    let (same, _) = write_hash_string_unique b.source_text c.source_text [] [] f g texts in
    ground (arith, indices, same)

some_bytes : (x : Text) (xs : List Text) → write_each write_hash_string (x ∷ xs) [] ≡ [] → ⊥
unfolding write_each write_hash_string big_endian
some_bytes x xs e = ground arith

frames_unique :
    (xs ys : List Text)
    → All Fits xs
    → All Fits ys
    → write_each write_hash_string xs [] ≡ write_each write_hash_string ys []
    → xs ≡ ys
unfolding write_each
frames_unique [] [] f g e = refl
frames_unique [] (y ∷ ys) f g e = absurd (some_bytes y ys (sym e))
frames_unique (x ∷ xs) [] f g e = absurd (some_bytes x xs e)
frames_unique (x ∷ xs) (y ∷ ys) f g e =
    let (same, rest) =
      write_hash_string_unique x y (write_each write_hash_string xs [])
        (write_each write_hash_string ys []) f.0 g.0 e in
    ground (arith, same, frames_unique xs ys f.1 g.1 rest)

-- a byte that is not zero, as all of a domain are
abbrev pub IsNonzero : ℕ → Type 0
IsNonzero c = 0 < c

domain_unique :
    (d e : Text) (xs ys : Text)
    → All IsNonzero d
    → All IsNonzero e
    → d ++ 0 ∷ xs ≡ e ++ 0 ∷ ys
    → (d ≡ e) × (xs ≡ ys)
domain_unique [] [] xs ys h k p = (refl, tail_of p)
domain_unique [] (b ∷ e) xs ys h k p = absurd (let q = head_of p in omega (arith, q, k.0))
domain_unique (a ∷ d) [] xs ys h k p = absurd (let q = head_of p in omega (arith, q, h.0))
domain_unique (a ∷ d) (b ∷ e) xs ys h k p =
    let (later, rest) = domain_unique d e xs ys h.1 k.1 (tail_of p) in
    (ground (arith, head_of p, later), rest)

-- hashParts hashes different bytes for different parts: the bytes determine the domain and the
-- list of payloads, their number included. Domains have no zero byte, and the length of every
-- payload fits 64 bits.
pub part_bytes_unique :
    (domain domain' : Text) (payloads payloads' : List Text)
    → All IsNonzero domain
    → All IsNonzero domain'
    → All Fits payloads
    → All Fits payloads'
    → part_bytes domain payloads ≡ part_bytes domain' payloads'
    → (domain ≡ domain') × (payloads ≡ payloads')
unfolding part_bytes
part_bytes_unique domain domain' payloads payloads' h k f g e =
    let (domains, rest) =
      domain_unique domain domain' (write_each write_hash_string payloads [])
        (write_each write_hash_string payloads' []) h k e in
    (domains, frames_unique payloads payloads' f g rest)

-- Two senses read otherwise: the first takes one alternative more, and every later text moves by one.
abbrev pub lengthened : NewSense → NewSense → NewSense
lengthened s u = record s {
  alternatives = s.alternatives ++ s.literal_translation ∷ [];
  literal_translation = s.meaning_note;
  meaning_note = s.usage_note;
  usage_note = s.parts_note;
  parts_note = s.canonical_pronunciation_text;
  canonical_pronunciation_text = u.ref;
}

abbrev pub shortened : NewSense → Text → List Text → NewSense
shortened u alternative rest = record u {
  ref = u.kind;
  kind = u.canonical_form;
  canonical_form = u.normalized_form;
  normalized_form = u.lemma;
  lemma = u.part_of_speech;
  part_of_speech = u.sense_discriminator;
  sense_discriminator = u.primary_translation;
  primary_translation = alternative;
  alternatives = rest;
}

write_each-snoc :
    (x : Text) (xs : List Text) (rest : Text)
    → write_each write_hash_string (xs ++ x ∷ []) rest
      ≡ write_each write_hash_string xs (write_hash_string x rest)
unfolding write_each
write_each-snoc x [] rest = refl
write_each-snoc x (y ∷ ys) rest = ap (write_hash_string y) (write_each-snoc x ys rest)

abbrev alternatives_of_first : List NewSense → List Text
alternatives_of_first [] = []
alternatives_of_first (s ∷ ss) = s.alternatives

longer : (x : Text) (xs : List Text) → xs ≡ xs ++ x ∷ [] → ⊥
longer x xs e =
    let lengths = ap length e in let sum = length-append xs (x ∷ []) in omega (arith, lengths, sum)

-- CarryHash does not tell all carry pools apart: the number of alternatives of a sense is not
-- written, so that for any two senses of which the second has an alternative there is another pool
-- of two senses with the same bytes, and so with the same hash.
pub carry_bytes_ambiguous :
    (s u : NewSense) (alternative : Text) (rest : List Text)
    → let pool = s ∷ record u { alternatives = alternative ∷ rest } ∷ [] in
      let other = lengthened s u ∷ shortened u alternative rest ∷ [] in
      (carry_bytes pool ≡ carry_bytes other) × (pool ≢ other)
unfolding carry_bytes write_sense_hash write_each
carry_bytes_ambiguous s u alternative rest =
    let after = write_sense_hash (record u { alternatives = alternative ∷ rest }) [] in
    let tail =
      write_each write_hash_string
        (s.meaning_note ∷ s.usage_note ∷ s.parts_note ∷ s.canonical_pronunciation_text ∷ [])
        after in
    (
      ap
          (λ t. write_hash_string (ascii "doublangu.analysis-carry.v1") (
            write_each write_hash_string
              (s.ref ∷ s.kind ∷ s.canonical_form ∷ s.normalized_form ∷ s.lemma ∷ s.part_of_speech
                ∷ s.sense_discriminator ∷ s.primary_translation ∷ [])
              t))
          (sym (write_each-snoc s.literal_translation s.alternatives tail)),
      λ e. longer s.literal_translation s.alternatives (ap alternatives_of_first e),
    )
