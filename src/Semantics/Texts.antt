-- ===== src/Semantics/Texts.antt =====
-- Texts by code points: comparison, slices, strings.Index, UTF-16 lengths and NormalizeForm of
-- internal/semantics/types.go. The Unicode tables and norm.NFC and cases.Fold of golang.org/x/text
-- are the parameter `Unicode`.
pub mod Slices
use doublangu.Prelude.{
  ℕ, zero, suc, ◌+◌, ◌-◌, String, ◌≡◌, refl, ap, ◌↔◌, Bool, true, false, not, ◌&&◌, ◌||◌, Option,
  none, some, List, [], ◌∷◌, ◌++◌, arith, leb, ltb, ◌==◌, if◌then◌else◌, codes, is_space, length,
  Bool-cases, inl, inr, ◌⊎◌, Result, ok, err, and-elim, ==_iff, sym,
}
use doublangu.Hashing.{Text}

-- s == t
abbrev pub same_text : Text → Text → Bool
same_text [] [] = true
same_text [] (d ∷ t) = false
same_text (c ∷ s) [] = false
same_text (c ∷ s) (d ∷ t) = c == d && same_text s t

-- s < t. UTF-8 keeps the order of the code points.
abbrev pub text_less : Text → Text → Bool
text_less [] [] = false
text_less [] (d ∷ t) = true
text_less (c ∷ s) [] = false
text_less (c ∷ s) (d ∷ t) = ltb c d || c == d && text_less s t

-- s == ""
abbrev pub is_empty {ℓ} : {A : Type ℓ} → List A → Bool
is_empty [] = true
is_empty (c ∷ s) = false

-- s[:n] and s[n:]
abbrev pub take {ℓ} : {A : Type ℓ} → ℕ → List A → List A
take zero s = []
take (suc n) [] = []
take (suc n) (c ∷ s) = c ∷ take n s

abbrev pub drop {ℓ} : {A : Type ℓ} → ℕ → List A → List A
drop zero s = s
drop (suc n) [] = []
drop (suc n) (c ∷ s) = drop n s

-- s[a:b]
abbrev pub slice {ℓ} : {A : Type ℓ} → List A → ℕ → ℕ → List A
slice s a b = take (b - a) (drop a s)

-- How many elements at the start, and at the end, satisfy `p`.
unfoldable pub leading_run {ℓ} : {A : Type ℓ} → (A → Bool) → List A → ℕ
leading_run p [] = 0
leading_run p (c ∷ s) = let more = leading_run p s in if p c then suc more else 0

unfoldable pub trailing_run {ℓ} : {A : Type ℓ} → (A → Bool) → List A → ℕ
trailing_run p [] = 0
trailing_run p (c ∷ s) =
    let more = trailing_run p s in if more == length s && p c then suc more else more

-- strings.HasPrefix
abbrev pub has_prefix : Text → Text → Bool
has_prefix s [] = true
has_prefix [] (d ∷ t) = false
has_prefix (c ∷ s) (d ∷ t) = c == d && has_prefix s t

-- strings.Index, `none` for -1
unfoldable pub index : Text → Text → Option ℕ
index [] t = if has_prefix [] t then some 0 else none
index (c ∷ s) t =
    let rest = index s t in
    if has_prefix (c ∷ s) t then some 0 else elim rest [ none ↦ none | some n ↦ some (suc n) ]

-- strings.TrimSpace(s) == ""
unfoldable pub is_blank_text : Text → Bool
unfolding is_space
is_blank_text [] = true
is_blank_text (c ∷ s) = is_space c && is_blank_text s

-- the code units of one code point in UTF-16
unfoldable pub rune_units : ℕ → ℕ
rune_units r = if ltb 0xffff r then 2 else 1

unfoldable pub utf16_len : Text → ℕ
unfolding rune_units
utf16_len [] = 0
utf16_len (r ∷ s) = rune_units r + utf16_len s

pub record Unicode : Type 0 where
  pub is_letter : ℕ → Bool
  pub is_number : ℕ → Bool
  pub is_mark : ℕ → Bool
  pub is_upper : ℕ → Bool
  pub is_control : ℕ → Bool
  pub same_fold : ℕ → ℕ → Bool
  pub nfc : Text → Text
  pub fold : Text → Text

pub data NormalizeError : Type 0 where
  control_character empty_text : NormalizeError

-- `out` is what the builder holds, and `pending` whether a space is due before the next letter.
unfoldable pub collapse : Unicode → Text → Bool → Text → Result NormalizeError Text
unfolding is_space
collapse u out pending [] = if is_empty out then err NormalizeError.empty_text else ok out
collapse u out pending (r ∷ s) = elim (is_space r) [
  | true ↦ collapse u out (not (is_empty out) || pending) s
  | false ↦ elim (u.is_control r) [
    | true ↦ err NormalizeError.control_character
    | false ↦ collapse u ((if pending then out ++ 32 ∷ [] else out) ++ r ∷ []) false s
  ]
]

abbrev pub map_ok {ℓ} : {E : Type ℓ} → (Text → Text) → Result E Text → Result E Text
map_ok f (ok s) = ok (f s)
map_ok f (err e) = err e

unfoldable pub normalize_form : Unicode → Text → Result NormalizeError Text
unfolding collapse
normalize_form u s = map_ok u.nfc (collapse u [] false (u.nfc (u.fold (u.nfc s))))

pub same_text_iff : (s t : Text) → (same_text s t ≡ true) ↔ (s ≡ t)
same_text_iff s t = (forth s t, λ e. rw e (same_self t))
  where
    same_self : (t : Text) → same_text t t ≡ true
    same_self [] = refl
    same_self (d ∷ t) = ground (arith, same_self t)

    forth : (s t : Text) → same_text s t ≡ true → s ≡ t
    forth [] [] h = refl
    forth [] (d ∷ t) h = cc
    forth (c ∷ s) [] h = cc
    forth (c ∷ s) (d ∷ t) h = ground (arith, forth s t)

pub List-cases : {A : Type 0} (s : List A) → (s ≡ []) ⊎ ((c : A) × (r : List A) × (s ≡ c ∷ r))
List-cases [] = inl refl
List-cases (c ∷ s) = inr (c, s, refl)

pub take-append : {A : Type 0} (s t : List A) → take (length s) (s ++ t) ≡ s
take-append [] t = refl
take-append (c ∷ s) t = ap (λ r. c ∷ r) (take-append s t)

pub drop-append : {A : Type 0} (s t : List A) → drop (length s) (s ++ t) ≡ t
drop-append [] t = refl
drop-append (c ∷ s) t = drop-append s t

pub append_assoc : {A : Type 0} (r s t : List A) → (r ++ s) ++ t ≡ r ++ (s ++ t)
append_assoc [] s t = refl
append_assoc (c ∷ r) s t = ap (λ x. c ∷ x) (append_assoc r s t)

pub append_nil : {A : Type 0} (s : List A) → s ++ [] ≡ s
append_nil [] = refl
append_nil (c ∷ s) = ap (λ x. c ∷ x) (append_nil s)

pub utf16_len-append : (s t : Text) → utf16_len (s ++ t) ≡ utf16_len s + utf16_len t
unfolding utf16_len
utf16_len-append [] t = omega arith
utf16_len-append (r ∷ s) t = omega (arith, utf16_len-append s t)

pub rune_units_pos : (r : ℕ) → leb 1 (rune_units r) ≡ true
unfolding rune_units
rune_units_pos r = ground arith

pub utf16_len_nil : 0 ≡ utf16_len []
unfolding utf16_len
utf16_len_nil = refl

pub utf16_len_pos : (s : Text) → is_empty s ≡ false → ltb 0 (utf16_len s) ≡ true
unfolding utf16_len
utf16_len_pos [] h = absurd (ground arith)
utf16_len_pos (r ∷ s) h = ground (arith, rune_units_pos r)

has_prefix-append : (s t : Text) → has_prefix s t ≡ true → (r : Text) × (s ≡ t ++ r)
has_prefix-append s [] h = (s, refl)
has_prefix-append [] (d ∷ t) h = absurd (ground arith)
has_prefix-append (c ∷ s) (d ∷ t) h =
    let (e, k) = and-elim (c == d) (has_prefix s t) h in
    let (r, q) = has_prefix-append s t k in (r, ground (arith, (==_iff c d).0 e, q))

abbrev Found : Text → Text → ℕ → Type 0
Found s t n = (a : Text) × (b : Text) × (s ≡ a ++ (t ++ b)) × (length a ≡ n)

one_further :
    (c : ℕ) (s t : Text) (n : ℕ) (o : Option ℕ)
    → ((m : ℕ) → o ≡ some m → Found s t m)
    → (elim o as (λ _. Option ℕ) [ none ↦ none | some m ↦ some (suc m) ]) ≡ some n
    → Found (c ∷ s) t n
one_further c s t n none ih k = absurd (ground arith)
one_further c s t n (some m) ih k =
    let (a, b, e, l) = ih m refl in (c ∷ a, b, ap (λ x. c ∷ x) e, ground arith)

-- What strings.Index finds stands there.
pub index_sound :
    (s t : Text) (n : ℕ)
    → index s t ≡ some n
    → (a : Text) × (b : Text) × (s ≡ a ++ (t ++ b)) × (length a ≡ n)
unfolding index
index_sound [] t n h = elim (Bool-cases (has_prefix [] t)) [
  | inl e ↦ let (b, q) = has_prefix-append [] t e in ([], b, q, ground arith)
  | inr e ↦ absurd (ground arith)
]
index_sound (c ∷ s) t n h = elim (Bool-cases (has_prefix (c ∷ s) t)) [
  | inl e ↦ let (b, q) = has_prefix-append (c ∷ s) t e in ([], b, q, ground arith)
  | inr e ↦ one_further c s t n (index s t) (λ m q. index_sound s t m q) (ground arith)
]
