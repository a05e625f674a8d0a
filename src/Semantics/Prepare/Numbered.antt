-- ===== src/Semantics/Prepare/Numbered.antt =====
-- The identifiers of numbered tokens are different: the number can be read off an identifier.
use doublangu.Prelude.{
  ℕ, zero, suc, ◌+◌, ◌-◌, ◌*◌, ◌≤◌, ◌<◌, ◌≡◌, refl, sym, ap, subst, ◌∙◌, true, false, none, some,
  List, [], ◌∷◌, ◌++◌, pos, Memᴰ, arith, ltb, ◌==◌, length, Bool-cases, inl, inr,
}
use Prim.Native.Nat.{◌/◌, ◌%◌}
use doublangu.Hashing.{Text, Token}
use doublangu.Semantics.Texts.{same_text, same_text_iff, drop}
use doublangu.Semantics.Senses.{last_where}
use doublangu.Semantics.Members.{token_of}
use doublangu.Semantics.Encoding.{digits_before, decimal}
use doublangu.Semantics.Prepare.{token_id, numbered_token, number_tokens}

-- The number that the digits `s` write, with `value` before them.
abbrev value_of : ℕ → Text → ℕ
value_of value [] = value
value_of value (c ∷ s) = value_of (value * 10 + (c - 48)) s

digits_before-value_of :
    (fuel n : ℕ) (rest : Text) → n < fuel → value_of 0 (digits_before fuel n rest) ≡ value_of n rest
unfolding digits_before
digits_before-value_of zero n rest h = absurd (omega arith)
digits_before-value_of (suc fuel) n rest h = elim (Bool-cases (ltb n 10)) [
  | inl e ↦ rw e (ap (λ v. value_of v rest) (omega arith))
  | inr e ↦
      let ih = digits_before-value_of fuel (n / 10) ((48 + n % 10) ∷ rest) (ground arith) in
      rw e (ih ∙ ap (λ v. value_of v rest) (omega arith))
]

decimal-value_of : (n : ℕ) → value_of 0 (decimal (pos n)) ≡ n
unfolding decimal
decimal-value_of n = digits_before-value_of (suc n) n [] (omega arith)

-- What stands behind the first colon and the letter after it.
abbrev behind_colon : Text → Text
behind_colon [] = []
behind_colon (c ∷ s) = elim (c == b':') [ true ↦ drop 1 s | false ↦ behind_colon s ]

digit_skipped : (d : ℕ) (s : Text) → d < 10 → behind_colon ((48 + d) ∷ s) ≡ behind_colon s
digit_skipped d s h = let e : (48 + d == b':') ≡ false = ground arith in ground (arith, e)

digits_before-behind_colon :
    (fuel n : ℕ) (rest s : Text)
    → n < fuel
    → behind_colon (digits_before fuel n rest ++ s) ≡ behind_colon (rest ++ s)
unfolding digits_before
digits_before-behind_colon zero n rest s h = absurd (omega arith)
digits_before-behind_colon (suc fuel) n rest s h = elim (Bool-cases (ltb n 10)) [
  | inl e ↦ rw e (digit_skipped n (rest ++ s) (ground arith))
  | inr e ↦ rw e (
      digits_before-behind_colon fuel (n / 10) ((48 + n % 10) ∷ rest) s (ground arith)
      ∙ digit_skipped (n % 10) (rest ++ s) (omega arith))
]

-- The number of a token, read off its identifier.
abbrev number_of : Text → ℕ
number_of id = value_of 0 (behind_colon id)

number_of-token_id : (index n : ℕ) → number_of (token_id index n) ≡ n
unfolding token_id decimal
number_of-token_id index n =
    ap (value_of 0) (
      digits_before-behind_colon (suc index) index [] (b':' ∷ b't' ∷ decimal (pos n)) (omega arith))
    ∙ decimal-value_of n

-- The tokens are numbered from `n` on, and their identifiers tell the numbers.
abbrev pub IsNumbered : ℕ → List Token → Type 0
IsNumbered n [] = Unit
IsNumbered n (t ∷ ts) = (t.token_index ≡ pos n) × (number_of t.id ≡ n) × IsNumbered (suc n) ts

pub number_tokens-IsNumbered :
    (index n : ℕ) (ts : List Token) → IsNumbered n (number_tokens index n ts)
unfolding number_tokens numbered_token
number_tokens-IsNumbered index n [] = tt
number_tokens-IsNumbered index n (t ∷ ts) =
    (refl, number_of-token_id index n, number_tokens-IsNumbered index (suc n) ts)

pub IsNumbered-append :
    (n : ℕ) (ss ts : List Token)
    → IsNumbered n ss
    → IsNumbered (n + length ss) ts
    → IsNumbered n (ss ++ ts)
IsNumbered-append n [] ts h k = subst (λ m. IsNumbered m ts) (omega arith) k
IsNumbered-append n (s ∷ ss) ts (a, b, h) k =
    (a, b, IsNumbered-append (suc n) ss ts h (subst (λ m. IsNumbered m ts) (omega arith) k))

-- A token of a smaller number than all of them has another identifier.
none_later :
    (n : ℕ) (ts : List Token) (id : Text)
    → IsNumbered n ts
    → number_of id < n
    → token_of ts id ≡ none
unfolding token_of last_where
none_later n [] id h l = refl
none_later n (t ∷ ts) id (a, b, h) l = elim (Bool-cases (same_text t.id id)) [
  | inl e ↦ absurd (omega (arith, b, ap number_of ((same_text_iff t.id id).0 e)))
  | inr e ↦ rw (none_later (suc n) ts id h (omega arith), e) refl
]

number_bound :
    (n : ℕ) (ts : List Token) (t : Token) → IsNumbered n ts → Memᴰ t ts → n ≤ number_of t.id
number_bound n [] t h m = elim m [ ]
number_bound n (s ∷ ts) t (a, b, h) (Memᴰ.head e) = omega (arith, b, ap (λ x. number_of x.id) e)
number_bound n (s ∷ ts) t (a, b, h) (Memᴰ.tail m) = omega (arith, number_bound (suc n) ts t h m)

-- A numbered token is the one that its identifier names.
pub token_of_numbered :
    (n : ℕ) (ts : List Token) (t : Token) → IsNumbered n ts → Memᴰ t ts → token_of ts t.id ≡ some t
unfolding token_of last_where
token_of_numbered n [] t h m = elim m [ ]
token_of_numbered n (s ∷ ts) t (a, b, h) (Memᴰ.head e) =
    let q : number_of t.id ≡ n = ap (λ x. number_of x.id) e ∙ b in
    rw
      (
        none_later (suc n) ts t.id h (omega arith),
        (same_text_iff s.id t.id).1 (ap (λ x. x.id) (sym e)),
      )
      (ap some (sym e))
token_of_numbered n (s ∷ ts) t (a, b, h) (Memᴰ.tail m) =
    rw (token_of_numbered (suc n) ts t h m) refl
