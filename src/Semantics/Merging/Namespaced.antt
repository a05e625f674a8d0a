-- ===== src/Semantics/Merging/Namespaced.antt =====
-- NamespaceChunkResponse keeps what each reference to a sense names.
use doublangu.Prelude.{
  ◌≡◌, refl, sym, ap, subst, ◌∙◌, Bool, true, false, some, List, [], ◌∷◌, ◌++◌, map, ℤ, arith,
  if◌then◌else◌, exists_where, first, ok, bind_ok, then_ok, refuse_ok, inl, inr, Bool-cases, All,
  exists_where-Memᴰ, All-mem,
}
use mathlib.Core.Bool.{true≢false}
use doublangu.Hashing.{Text, NewSense}
use doublangu.Semantics.Texts.{same_text, same_text_iff}
use doublangu.Semantics.Results.{TokenResult, sense_of}
use doublangu.Semantics.Members.{Construction}
use doublangu.Semantics.Response.{Response}
use doublangu.Semantics.Response.Accepted.{ok_eq}
use doublangu.Semantics.Encoding.{decimal}
use doublangu.Semantics.Merging.{
  namespaced_ref, rewrite_ref, has_ref, rewrite_senses, renamed_sense, rewritten_result,
  rewritten_construction, renamed_response, namespace_chunk_response,
}

module _ {A : Type 0} (p : A → Bool) where
  first-append_hit : (xs ys : List A) → exists_where p xs ≡ true → first p (xs ++ ys) ≡ first p xs
  unfolding first exists_where
  first-append_hit [] ys h = absurd (ground arith)
  first-append_hit (x ∷ xs) ys h = elim (Bool-cases (p x)) [
    | inl e ↦ rw e refl
    | inr e ↦ rw e (first-append_hit xs ys (ground arith))
  ]

  first-append_miss : (xs ys : List A) → exists_where p xs ≡ false → first p (xs ++ ys) ≡ first p ys
  unfolding first exists_where
  first-append_miss [] ys h = refl
  first-append_miss (x ∷ xs) ys h = elim (Bool-cases (p x)) [
    | inl e ↦ absurd (ground arith)
    | inr e ↦ rw e (first-append_miss xs ys (ground arith))
  ]

  first-exists_where : (xs : List A) (x : A) → first p xs ≡ some x → exists_where p xs ≡ true
  unfolding first exists_where
  first-exists_where [] x h = absurd (ground arith)
  first-exists_where (y ∷ xs) x h = elim (Bool-cases (p y)) [
    | inl e ↦ rw e refl
    | inr e ↦ rw e (first-exists_where xs x (ground arith))
  ]

same_text_prefix : (r s t : Text) → same_text (r ++ s) (r ++ t) ≡ same_text s t
same_text_prefix [] s t = refl
same_text_prefix (c ∷ r) s t = ground (arith, same_text_prefix r s t)

same_namespaced_ref :
    (block : ℤ) (s t : Text)
    → same_text (namespaced_ref block s) (namespaced_ref block t) ≡ same_text s t
unfolding namespaced_ref
same_namespaced_ref block s t =
    ground (arith, same_text_prefix (decimal block) (b':' ∷ s) (b':' ∷ t))

-- The namespaced references of new senses, and the references themselves, are not prior ones.
abbrev AreFresh : ℤ → List NewSense → List NewSense → Type 0
AreFresh block prior ss =
    All (λ s. (has_ref prior s.ref ≡ false) × (has_ref prior (namespaced_ref block s.ref) ≡ false))
      ss

-- Two orders of the same two tests.
swapped_tests :
    (b h : Bool) (x m n r : Text)
    → (b ≡ true → n ≡ m)
    → x ≡ (if h then m else if b then n else r)
    → x ≡ (if (if b then true else h) then m else r)
swapped_tests true true x m n r f e = e
swapped_tests true false x m n r f e = e ∙ f refl
swapped_tests false h x m n r f e = e

rewrite_senses_sound :
    (block : ℤ) (prior : List NewSense) (rewrite : List (Text × Text)) (ss : List NewSense)
    (out : List (Text × Text))
    → rewrite_senses block prior rewrite ss ≡ ok out
    → AreFresh block prior ss
      × ((ref : Text)
          → rewrite_ref out ref
            ≡ (if has_ref ss ref then namespaced_ref block ref else rewrite_ref rewrite ref))
unfolding rewrite_senses rewrite_ref has_ref
rewrite_senses_sound block prior rewrite [] out h =
    (tt, λ ref. ap (λ w. rewrite_ref w ref) (sym (ok_eq h)))
rewrite_senses_sound block prior rewrite (s ∷ ss) out h =
    let (a, h1) = then_ok _ _ h in
    let (_, h2) = then_ok _ _ h1 in
    let (_, h3) = then_ok _ _ h2 in
    let (b, h4) = then_ok _ _ h3 in
    let (_, h5) = then_ok _ _ h4 in
    let (fresh, names) =
      rewrite_senses_sound block prior ((s.ref, namespaced_ref block s.ref) ∷ rewrite) ss out h5 in
    (
      ((refuse_ok _ _ a, refuse_ok _ _ b), fresh),
      λ ref.
          swapped_tests (same_text s.ref ref) (has_ref ss ref) (rewrite_ref out ref)
            (namespaced_ref block ref) (namespaced_ref block s.ref) (rewrite_ref rewrite ref)
            (λ e. ap (namespaced_ref block) ((same_text_iff s.ref ref).0 e)) (names ref),
    )

sense_of-renamed :
    (block : ℤ) (ss : List NewSense) (ref : Text) {s : NewSense}
    → sense_of ss ref ≡ some s
    → sense_of (map (renamed_sense block) ss) (namespaced_ref block ref)
      ≡ some (renamed_sense block s)
unfolding sense_of first renamed_sense
sense_of-renamed block [] ref h = absurd (ground arith)
sense_of-renamed block (x ∷ ss) ref {s} h = elim (Bool-cases (same_text x.ref ref)) [
  | inl e ↦
      let q : x ≡ s = ground arith in
      rw (same_namespaced_ref block x.ref ref, e) (ap (λ y. some (renamed_sense block y)) q)
  | inr e ↦
      rw (same_namespaced_ref block x.ref ref, e) (sense_of-renamed block ss ref (ground arith))
]

-- The reference as it stands in the result: those of the new senses are namespaced.
abbrev pub respelled : ℤ → List NewSense → Text → Text
respelled block senses ref = if has_ref senses ref then namespaced_ref block ref else ref

abbrev pub respelled_result : ℤ → List NewSense → TokenResult → TokenResult
respelled_result block senses r = record r {
  new_sense_ref = respelled block senses r.new_sense_ref;
}

abbrev pub respelled_construction : ℤ → List NewSense → Construction → Construction
respelled_construction block senses c = record c {
  new_sense_ref = respelled block senses c.new_sense_ref;
}

-- The sense that a reference of the response names, as the result has it.
abbrev pub named_after : ℤ → List NewSense → Text → NewSense → NewSense
named_after block prior ref s = if has_ref prior ref then s else renamed_sense block s

map_pointwise :
    {A B : Type 0} (f g : A → B) → ((x : A) → f x ≡ g x) → (xs : List A) → map f xs ≡ map g xs
map_pointwise f g h [] = refl
map_pointwise f g h (x ∷ xs) =
    ap (λ y. y ∷ map f xs) (h x) ∙ ap (λ ys. g x ∷ ys) (map_pointwise f g h xs)

new_ref_fresh :
    (block : ℤ) (prior senses : List NewSense) (ref : Text)
    → AreFresh block prior senses
    → has_ref senses ref ≡ true
    → (has_ref prior ref ≡ false) × (has_ref prior (namespaced_ref block ref) ≡ false)
unfolding has_ref
new_ref_fresh block prior senses ref fresh h =
    let (x, m, e) = exists_where-Memᴰ (λ s. same_text s.ref ref) senses h in
    subst (λ r. (has_ref prior r ≡ false) × (has_ref prior (namespaced_ref block r) ≡ false))
      ((same_text_iff x.ref ref).0 e)
      (All-mem
        (λ s. (has_ref prior s.ref ≡ false) × (has_ref prior (namespaced_ref block s.ref) ≡ false))
        m fresh)

prior_ref_old :
    (block : ℤ) (prior senses : List NewSense) (ref : Text)
    → AreFresh block prior senses
    → has_ref prior ref ≡ true
    → has_ref senses ref ≡ false
prior_ref_old block prior senses ref fresh h = elim (Bool-cases (has_ref senses ref)) [
  | inl e ↦ absurd (true≢false (sym h ∙ (new_ref_fresh block prior senses ref fresh e).0))
  | inr e ↦ e
]

named_sense :
    (block : ℤ) (prior senses : List NewSense) (ref : Text) (s : NewSense)
    → AreFresh block prior senses
    → sense_of (prior ++ senses) ref ≡ some s
    → sense_of (prior ++ map (renamed_sense block) senses) (respelled block senses ref)
      ≡ some (named_after block prior ref s)
unfolding sense_of has_ref
named_sense block prior senses ref s fresh h =
    let p = λ (k : NewSense). same_text k.ref ref in
    elim (Bool-cases (has_ref prior ref)) [
      | inl e ↦
          rw (prior_ref_old block prior senses ref fresh e, e)
            (first-append_hit p prior (map (renamed_sense block) senses) e
              ∙ sym (first-append_hit p prior senses e)
              ∙ h)
      | inr e ↦
          let f : sense_of senses ref ≡ some s = sym (first-append_miss p prior senses e) ∙ h in
          let n : has_ref senses ref ≡ true = first-exists_where p senses s f in
          let (_, q) = new_ref_fresh block prior senses ref fresh n in
          rw (n, e)
            (first-append_miss (λ k. same_text k.ref (namespaced_ref block ref)) prior
                (map (renamed_sense block) senses) q
              ∙ sense_of-renamed block senses ref f)
    ]

-- NamespaceChunkResponse keeps what the references name: in the token results and the constructions
-- of its result the references to the new senses are namespaced and the others unchanged, and a
-- reference that names a sense, prior or new, names the same sense afterwards, which has its
-- namespaced reference if it is a new one.
pub namespace_chunk_response_keeps :
    (block : ℤ) (response : Response) (prior : List NewSense) (out : Response) (ref : Text)
    (s : NewSense)
    → namespace_chunk_response block response prior ≡ ok out
    → sense_of (prior ++ response.new_senses) ref ≡ some s
    → (out.tokens ≡ map (respelled_result block response.new_senses) response.tokens)
      × (out.constructions
          ≡ map (respelled_construction block response.new_senses) response.constructions)
      × (sense_of (prior ++ out.new_senses) (respelled block response.new_senses ref)
          ≡ some (named_after block prior ref s))
unfolding namespace_chunk_response renamed_response rewritten_result rewritten_construction
    rewrite_ref
namespace_chunk_response_keeps block response prior out ref s h k =
    let (_, h1) = then_ok _ _ h in
    let (rewrite, w, e) = bind_ok _ _ h1 in
    let (fresh, names) = rewrite_senses_sound block prior [] response.new_senses rewrite w in
    let made : renamed_response block rewrite response ≡ out = ok_eq e in
    (
      ap (λ r. r.tokens) (sym made)
          ∙ map_pointwise (rewritten_result rewrite) (respelled_result block response.new_senses)
              (λ r. ap (λ n. record r { new_sense_ref = n }) (names r.new_sense_ref))
              response.tokens,
      ap (λ r. r.constructions) (sym made)
          ∙ map_pointwise (rewritten_construction rewrite)
              (respelled_construction block response.new_senses)
              (λ c. ap (λ n. record c { new_sense_ref = n }) (names c.new_sense_ref))
              response.constructions,
      subst
          (λ l.
            sense_of (prior ++ l) (respelled block response.new_senses ref)
            ≡ some (named_after block prior ref s))
          (ap (λ r. r.new_senses) made) (named_sense block prior response.new_senses ref s fresh k),
    )
