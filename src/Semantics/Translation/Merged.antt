-- ===== src/Semantics/Translation/Merged.antt =====
-- What ValidateTranslation accepts can be merged, and the merge keeps the linguistic stage.
use doublangu.Prelude.{
  ◌≡◌, refl, sym, ap, subst, ◌∙◌, Bool, true, false, some, List, [], ◌∷◌, map, arith, exists_where,
  Result, ok, ◌>>=◌, then_ok, refuse_ok, inl, inr, Bool-cases, Option-cases, All, exists_where_none,
  codes,
}
use doublangu.Hashing.{NewSense, PreparedChunk}
use doublangu.Semantics.Texts.{same_text, Unicode}
use doublangu.Semantics.Senses.{last_where}
use doublangu.Semantics.Results.{TokenResult}
use doublangu.Semantics.Members.{Construction}
use doublangu.Semantics.Response.{Response}
use doublangu.Semantics.Linguistic.{
  LinguisticTokenResult, LinguisticNewSense, LinguisticConstruction,
  ValidatedLinguisticConstruction, ValidatedLinguistic, with_shadow,
}
use doublangu.Semantics.Translation.{
  TranslationTokenResult, TranslationNewSense, TranslationConstruction, TranslationArtifact,
  TranslationError, translated_token_of, translated_ref_of, translated_construction_of,
}
use doublangu.Semantics.Translation.Merge.{
  omits_result, omits_ref, omits_construction, validate_translation, merged_token, merged_sense,
  merged_construction, merge_each, merge_linguistic_translation,
}

-- The linguistic parts of a response.
abbrev pub token_part : TokenResult → LinguisticTokenResult
token_part r = record {
  token_id = r.token_id;
  classification = r.classification;
  kind = r.kind;
  semantic_sense_id = r.semantic_sense_id;
  new_sense_ref = r.new_sense_ref;
  canonical_pronunciation = r.canonical_pronunciation;
  context_pronunciation_key = r.context_pronunciation_key;
  confidence_milli = r.confidence_milli;
}

abbrev pub sense_part : NewSense → LinguisticNewSense
sense_part s = record {
  ref = s.ref;
  kind = s.kind;
  canonical_form = s.canonical_form;
  normalized_form = s.normalized_form;
  lemma = s.lemma;
  part_of_speech = s.part_of_speech;
  sense_discriminator = s.sense_discriminator;
  meaning_note = s.meaning_note;
  usage_note = s.usage_note;
  parts_note = s.parts_note;
  canonical_pronunciation_text = s.canonical_pronunciation_text;
}

abbrev pub construction_part : Construction → LinguisticConstruction
construction_part c = record {
  kind = c.kind;
  role = c.role;
  semantic_sense_id = c.semantic_sense_id;
  new_sense_ref = c.new_sense_ref;
  canonical_pronunciation_text = c.canonical_pronunciation_text;
  context_pronunciation_key = c.context_pronunciation_key;
  confidence_milli = c.confidence_milli;
  token_ids = c.token_ids;
  spans = c.spans;
}

map_same : {A : Type 0} (xs : List A) → map (λ (x : A). x) xs ≡ xs
map_same [] = refl
map_same (x ∷ xs) = ap (λ ys. x ∷ ys) (map_same xs)

last_where_of_exists :
    {A : Type 0} (p : A → Bool) (xs : List A)
    → exists_where p xs ≡ true
    → (x : A) × (last_where p xs ≡ some x)
unfolding last_where exists_where
last_where_of_exists p [] h = absurd (ground arith)
last_where_of_exists p (y ∷ xs) h = elim (Option-cases (last_where p xs)) [
  | inr (x, e) ↦ (x, rw e refl)
  | inl e ↦ elim (Bool-cases (p y)) [
    | inl t ↦ (y, rw (e, t) refl)
    | inr f ↦ let (x, q) = last_where_of_exists p xs (ground arith) in (x, rw q refl)
  ]
]

-- A loop of merges succeeds where each merge does, and keeps what each keeps.
merge_each_keeps :
    {A B C : Type 0} (merge : A → Result TranslationError B) (before : A → C) (part : B → C)
    (P : A → Type 0)
    → ((x : A) → P x → (y : B) × (merge x ≡ ok y) × (part y ≡ before x))
    → (xs : List A) → All P xs
    → (ys : List B) × (merge_each merge xs ≡ ok ys) × (map part ys ≡ map before xs)
unfolding merge_each ◌>>=◌
merge_each_keeps merge before part P f [] h = ([], refl, refl)
merge_each_keeps merge before part P f (x ∷ xs) h =
    let (y, e, k) = f x h.0 in
    let (ys, q, l) = merge_each_keeps merge before part P f xs h.1 in
    (y ∷ ys, rw (e, q) refl, ap (λ z. z ∷ map part ys) k ∙ ap (λ zs. before x ∷ zs) l)

token_merges :
    (rs : List TranslationTokenResult) (t : LinguisticTokenResult)
    → omits_result rs t ≡ false
    → (y : TokenResult) × (merged_token t (translated_token_of rs t.token_id) ≡ ok y)
      × (token_part y ≡ t)
unfolding omits_result translated_token_of
token_merges rs t h =
    let (r, e) =
      last_where_of_exists (λ r. same_text r.token_id t.token_id) rs (ground (arith, h)) in
    subst (λ o. (y : TokenResult) × (merged_token t o ≡ ok y) × (token_part y ≡ t)) (sym e)
      (_, refl, refl)

sense_merges :
    (ss : List TranslationNewSense) (s : LinguisticNewSense)
    → omits_ref ss s ≡ false
    → (y : NewSense) × (merged_sense s (translated_ref_of ss s.ref) ≡ ok y) × (sense_part y ≡ s)
unfolding omits_ref translated_ref_of
sense_merges ss s h =
    let (r, e) = last_where_of_exists (λ t. same_text t.ref s.ref) ss (ground (arith, h)) in
    subst (λ o. (y : NewSense) × (merged_sense s o ≡ ok y) × (sense_part y ≡ s)) (sym e)
      (_, refl, refl)

construction_merges :
    (ts : List TranslationConstruction) (c : ValidatedLinguisticConstruction)
    → omits_construction ts c ≡ false
    → (y : Construction) × (merged_construction c (translated_construction_of ts c.construction_id)
        ≡ ok y)
      × (construction_part y ≡ c.construction)
unfolding omits_construction translated_construction_of with_shadow
construction_merges ts c h =
    let (r, e) =
      last_where_of_exists (λ t. same_text t.construction_id c.construction_id) ts
        (ground (arith, h)) in
    subst
      (λ o.
        (y : Construction) × (merged_construction c o ≡ ok y)
        × (construction_part y ≡ c.construction))
      (sym e) (_, refl, refl)

record OmitsNone (l : ValidatedLinguistic) (artifact : TranslationArtifact) : Type 0 where
  tokens : All (λ t. omits_result artifact.tokens t ≡ false) l.tokens
  senses : All (λ s. omits_ref artifact.new_senses s ≡ false) l.new_senses
  constructions : All (λ c. omits_construction artifact.constructions c ≡ false) l.constructions

validate_translation-OmitsNone :
    (u : Unicode) (chunk : PreparedChunk) (l : ValidatedLinguistic) (artifact : TranslationArtifact)
    → validate_translation u chunk l artifact ≡ ok tt
    → OmitsNone l artifact
unfolding validate_translation
validate_translation-OmitsNone u chunk l artifact h =
    let (_, h1) = then_ok _ _ h in
    let (_, h2) = then_ok _ _ h1 in
    let (_, h3) = then_ok _ _ h2 in
    let (_, h4) = then_ok _ _ h3 in
    let (tokens, h5) = then_ok _ _ h4 in
    let (_, h6) = then_ok _ _ h5 in
    let (_, h7) = then_ok _ _ h6 in
    let (senses, h8) = then_ok _ _ h7 in
    let (_, h9) = then_ok _ _ h8 in
    let (_, constructions) = then_ok _ _ h9 in
    record {
      tokens = exists_where_none (omits_result artifact.tokens) l.tokens (refuse_ok _ _ tokens);
      senses =
          exists_where_none (omits_ref artifact.new_senses) l.new_senses (refuse_ok _ _ senses);
      constructions =
          exists_where_none (omits_construction artifact.constructions) l.constructions
            (refuse_ok _ _ constructions);
    }

-- A translation that ValidateTranslation accepts is merged by MergeLinguisticTranslation without an
-- error, and the merged response has the token results, the new senses and the constructions of
-- the linguistic stage, in their order and unchanged but for the fields of the translation.
pub validated_translation_merges :
    (u : Unicode) (chunk : PreparedChunk) (l : ValidatedLinguistic) (artifact : TranslationArtifact)
    → validate_translation u chunk l artifact ≡ ok tt
    → (r : Response) × (merge_linguistic_translation l artifact ≡ ok r)
      × (map token_part r.tokens ≡ l.tokens)
      × (map sense_part r.new_senses ≡ l.new_senses)
      × (map construction_part r.constructions ≡ map (λ c. c.construction) l.constructions)
unfolding merge_linguistic_translation ◌>>=◌
validated_translation_merges u chunk l artifact h =
    let o = validate_translation-OmitsNone u chunk l artifact h in
    let (ts, t, tk) =
      merge_each_keeps (λ t. merged_token t (translated_token_of artifact.tokens t.token_id))
        (λ t. t) token_part (λ t. omits_result artifact.tokens t ≡ false)
        (λ t p. token_merges artifact.tokens t p) l.tokens o.tokens in
    let (ss, s, sk) =
      merge_each_keeps (λ s. merged_sense s (translated_ref_of artifact.new_senses s.ref)) (λ s. s)
        sense_part (λ s. omits_ref artifact.new_senses s ≡ false)
        (λ s p. sense_merges artifact.new_senses s p) l.new_senses o.senses in
    let (cs, c, ck) =
      merge_each_keeps
        (λ c.
          merged_construction c
            (translated_construction_of artifact.constructions c.construction_id))
        (λ c. c.construction) construction_part
        (λ c. omits_construction artifact.constructions c ≡ false)
        (λ c p. construction_merges artifact.constructions c p) l.constructions o.constructions in
    (
      record {
        version = codes "reader.analysis.v3";
        tokens = ts;
        new_senses = ss;
        constructions = cs;
      },
      rw (t, s, c) refl,
      tk ∙ map_same l.tokens,
      sk ∙ map_same l.new_senses,
      ck,
    )
