-- ===== src/Semantics/Dictionary/Increasing.antt =====
-- What SanitizeDictionaryHints of internal/semantics/dictionary.go returns.
use doublangu.Prelude.{
  ℕ, suc, zero, ◌≡◌, refl, true, false, List, [], ◌∷◌, map, arith, leb, length, Bool-cases, inl,
  inr, ◌⊎◌, exists_where, Result, ok, err, All, All-mono, Pairs,
}
use doublangu.Hashing.{Text}
use doublangu.Semantics.Texts.{same_text, text_less, take, Unicode, NormalizeError, normalize_form}
use doublangu.Semantics.Senses.{trim_text}
use doublangu.Semantics.Dictionary.Hints.{
  NormalizedHint, is_discarded, keep_hints, hint_less, insert_hint, sort_hints,
  sanitize_dictionary_hints,
}

text_less_trans :
    (r s t : Text) → text_less r s ≡ true → text_less s t ≡ true → text_less r t ≡ true
text_less_trans r s [] h k = absurd (none_below s k)
  where
    none_below : (s : Text) → ¬ (text_less s [] ≡ true)
    none_below [] h = ground arith
    none_below (c ∷ s) h = ground arith
text_less_trans [] s (d ∷ t) h k = refl
text_less_trans (b ∷ r) [] (d ∷ t) h k = absurd (ground arith)
text_less_trans (b ∷ r) (c ∷ s) (d ∷ t) h k = grind (arith, text_less_trans r s t)

text_less_total :
    (s t : Text) → same_text s t ≡ false → text_less s t ≡ false → text_less t s ≡ true
text_less_total [] [] h k = absurd (ground arith)
text_less_total [] (d ∷ t) h k = absurd (ground arith)
text_less_total (c ∷ s) [] h k = refl
text_less_total (c ∷ s) (d ∷ t) h k = grind (arith, text_less_total s t)

-- The hint is trimmed, not discarded and has this normalized form.
IsKept : Unicode → NormalizedHint → Type 0
IsKept u h = (is_discarded h.original ≡ false) × (normalize_form u h.original ≡ ok h.normalized)

IsNew : List Text → NormalizedHint → Type 0
IsNew seen h = exists_where (same_text h.normalized) seen ≡ false

IsLess : NormalizedHint → NormalizedHint → Type 0
IsLess g h = text_less g.normalized h.normalized ≡ true

IsOther : NormalizedHint → NormalizedHint → Type 0
IsOther g h = same_text h.normalized g.normalized ≡ false

normal_or_not :
    (r : Result NormalizeError Text)
    → ((e : NormalizeError) × (r ≡ err e)) ⊎ ((n : Text) × (r ≡ ok n))
normal_or_not (ok n) = inr (n, refl)
normal_or_not (err e) = inl (e, refl)

IsNew-of_more :
    (g h : NormalizedHint) (seen : List Text) → IsNew (g.normalized ∷ seen) h → IsNew seen h
unfolding exists_where IsNew
IsNew-of_more g h seen w = ground (arith, w)

IsOther-of_new :
    (g h : NormalizedHint) (seen : List Text) → IsNew (g.normalized ∷ seen) h → IsOther g h
unfolding exists_where IsNew IsOther
IsOther-of_new g h seen w = ground (arith, w)

KeptSound : Unicode → List Text → List NormalizedHint → Type 0
KeptSound u seen hs = All (IsKept u) hs × All (IsNew seen) hs × Pairs IsOther hs

one_more :
    (u : Unicode) (seen : List Text) (g : NormalizedHint) (hs : List NormalizedHint)
    → IsKept u g
    → IsNew seen g
    → KeptSound u (g.normalized ∷ seen) hs
    → KeptSound u seen (g ∷ hs)
unfolding KeptSound
one_more u seen g hs k n (ks, ns, os) = (
  (k, ks),
  (n, All-mono (IsNew (g.normalized ∷ seen)) (IsNew seen) (λ h. IsNew-of_more g h seen) hs ns),
  (All-mono (IsNew (g.normalized ∷ seen)) (IsOther g) (λ h. IsOther-of_new g h seen) hs ns, os),
)

keep_hints-KeptSound :
    (u : Unicode) (seen hints : List Text) → KeptSound u seen (keep_hints u seen hints)
unfolding keep_hints KeptSound IsKept IsNew
keep_hints-KeptSound u seen [] = (tt, tt, tt)
keep_hints-KeptSound u seen (hint ∷ rest) = elim (Bool-cases (is_discarded (trim_text hint))) [
  | inl e ↦ rw (keep_hints, e) (keep_hints-KeptSound u seen rest)
  | inr e ↦ elim (normal_or_not (normalize_form u (trim_text hint))) [
    | inl (x, f) ↦ rw (keep_hints, e, f) (keep_hints-KeptSound u seen rest)
    | inr (n, f) ↦ elim (Bool-cases (exists_where (same_text n) seen)) [
      | inl g ↦ rw (keep_hints, e, f, g) (keep_hints-KeptSound u seen rest)
      | inr g ↦
          rw (keep_hints, e, f, g)
            (one_more u seen (record { normalized = n; original = trim_text hint })
              (keep_hints u (n ∷ seen) rest) (e, f) g (keep_hints-KeptSound u (n ∷ seen) rest))
    ]
  ]
]

module _ (P : NormalizedHint → Type 0) where
  All-insert_hint :
      (g : NormalizedHint) (hs : List NormalizedHint) → P g → All P hs → All P (insert_hint g hs)
  unfolding insert_hint
  All-insert_hint g [] p ps = (p, tt)
  All-insert_hint g (h ∷ hs) p (q, qs) = elim (Bool-cases (hint_less h g)) [
    | inl e ↦ rw e (q, All-insert_hint g hs p qs)
    | inr e ↦ rw e (p, (q, qs))
  ]

  All-sort_hints : (hs : List NormalizedHint) → All P hs → All P (sort_hints hs)
  unfolding sort_hints
  All-sort_hints [] ps = tt
  All-sort_hints (h ∷ hs) (p, ps) = All-insert_hint h (sort_hints hs) p (All-sort_hints hs ps)

not_after : (g h : NormalizedHint) → IsOther g h → hint_less h g ≡ false → IsLess g h
unfolding hint_less IsOther IsLess
not_after g h o e = text_less_total h.normalized g.normalized o (ground (arith, o, e))

before : (g h : NormalizedHint) → IsOther g h → hint_less h g ≡ true → IsLess h g
unfolding hint_less IsOther IsLess
before g h o e = ground (arith, o, e)

insert_hint-IsLess :
    (g : NormalizedHint) (hs : List NormalizedHint)
    → All (IsOther g) hs
    → Pairs IsLess hs
    → Pairs IsLess (insert_hint g hs)
unfolding insert_hint IsLess
insert_hint-IsLess g [] os ls = (tt, tt)
insert_hint-IsLess g (h ∷ hs) (o, os) (l, ls) = elim (Bool-cases (hint_less h g)) [
  | inl e ↦ rw e (All-insert_hint (IsLess h) g hs (before g h o e) l, insert_hint-IsLess g hs os ls)
  | inr e ↦ rw e ((not_after g h o e, All-mono (IsLess h) (IsLess g) (further e) hs l), (l, ls))
]
  where
    further : hint_less h g ≡ false → (k : NormalizedHint) → IsLess h k → IsLess g k
    further e k m = text_less_trans g.normalized h.normalized k.normalized (not_after g h o e) m

sort_hints-IsLess : (hs : List NormalizedHint) → Pairs IsOther hs → Pairs IsLess (sort_hints hs)
unfolding sort_hints
sort_hints-IsLess [] os = tt
sort_hints-IsLess (h ∷ hs) (o, os) =
    insert_hint-IsLess h (sort_hints hs) (All-sort_hints (IsOther h) hs o) (sort_hints-IsLess hs os)

All-take : {A : Type 0} (P : A → Type 0) (n : ℕ) (xs : List A) → All P xs → All P (take n xs)
All-take P zero xs ps = tt
All-take P (suc n) [] ps = tt
All-take P (suc n) (x ∷ xs) (p, ps) = (p, All-take P n xs ps)

Pairs-take :
    {A : Type 0} (R : A → A → Type 0) (n : ℕ) (xs : List A) → Pairs R xs → Pairs R (take n xs)
Pairs-take R zero xs ps = tt
Pairs-take R (suc n) [] ps = tt
Pairs-take R (suc n) (x ∷ xs) (p, ps) = (All-take (R x) n xs p, Pairs-take R n xs ps)

length-take_bound : {A : Type 0} (n : ℕ) (xs : List A) → leb (length (take n xs)) n ≡ true
length-take_bound zero xs = refl
length-take_bound (suc n) [] = ground arith
length-take_bound (suc n) (x ∷ xs) = ground (arith, length-take_bound n xs)

abbrev pub IsHint : Unicode → Text → Type 0
IsHint u t = (is_discarded t ≡ false) × ((n : Text) × (normalize_form u t ≡ ok n))

-- Both have a normalized form, and that of the first is less.
abbrev pub IsBefore : Unicode → Text → Text → Type 0
IsBefore u s t =
    (m : Text) × (n : Text) × (normalize_form u s ≡ ok m)
    × (normalize_form u t ≡ ok n)
    × (text_less m n ≡ true)

originals :
    (u : Unicode) (hs : List NormalizedHint)
    → All (IsKept u) hs
    → All (IsHint u) (map (λ h. h.original) hs)
unfolding IsKept
originals u [] ks = tt
originals u (h ∷ hs) ((d, n), ks) = ((d, (h.normalized, n)), originals u hs ks)

originals-IsBefore :
    (u : Unicode) (g : NormalizedHint) (hs : List NormalizedHint)
    → IsKept u g
    → All (IsKept u) hs
    → All (IsLess g) hs
    → All (IsBefore u g.original) (map (λ h. h.original) hs)
unfolding IsKept IsLess
originals-IsBefore u g [] k ks ls = tt
originals-IsBefore u g (h ∷ hs) k (j, ks) (l, ls) =
    ((g.normalized, h.normalized, k.1, j.1, l), originals-IsBefore u g hs k ks ls)

originals-Pairs :
    (u : Unicode) (hs : List NormalizedHint)
    → All (IsKept u) hs
    → Pairs IsLess hs
    → Pairs (IsBefore u) (map (λ h. h.original) hs)
originals-Pairs u [] ks ls = tt
originals-Pairs u (h ∷ hs) (k, ks) (l, ls) =
    (originals-IsBefore u h hs k ks l, originals-Pairs u hs ks ls)

length-originals : (hs : List NormalizedHint) → length (map (λ h. h.original) hs) ≡ length hs
length-originals [] = refl
length-originals (h ∷ hs) = omega (arith, length-originals hs)

-- SanitizeDictionaryHints returns at most six hints. Each is not empty, has at most 120
-- code points, no angle bracket and no ASCII control character, and has a normalized form; the
-- normalized forms increase strictly, so that no two hints share one.
pub sanitize_dictionary_hints-IsHygienic :
    (u : Unicode) (hints : List Text)
    → (leb (length (sanitize_dictionary_hints u hints)) 6 ≡ true)
      × All (IsHint u) (sanitize_dictionary_hints u hints)
      × Pairs (IsBefore u) (sanitize_dictionary_hints u hints)
unfolding sanitize_dictionary_hints KeptSound
sanitize_dictionary_hints-IsHygienic u hints =
    let kept = keep_hints u [] hints in
    let (ks, _, os) = keep_hints-KeptSound u [] hints in
    let sound = All-take (IsKept u) 6 (sort_hints kept) (All-sort_hints (IsKept u) kept ks) in
    let less = Pairs-take IsLess 6 (sort_hints kept) (sort_hints-IsLess kept os) in
    (
      rw (length-originals (take 6 (sort_hints kept))) (length-take_bound 6 (sort_hints kept)),
      originals u (take 6 (sort_hints kept)) sound,
      originals-Pairs u (take 6 (sort_hints kept)) sound less,
    )
