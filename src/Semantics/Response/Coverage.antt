-- ===== src/Semantics/Response/Coverage.antt =====
-- An accepted response has one result for each token, and each token in a sentence.
use doublangu.Prelude.{
  ◌≡◌, ◌≢◌, refl, ap, sym, ◌∙◌, subst, Bool, true, false, Option, none, some, List, [], ◌∷◌, map,
  Memᴰ, arith, length, first, exists_where, ok, bind_ok, then_ok, refuse_ok, inl, inr, Bool-cases,
  Option-cases, All, All-mono, exists_where-Memᴰ, exists_where_none, ==_iff, suc,
}
use doublangu.Hashing.{Text, Token, NewSense, ResolvedSentence, PreparedArticle}
use doublangu.Semantics.Texts.{Unicode, same_text, same_text_iff}
use doublangu.Semantics.Senses.{last_where}
use doublangu.Semantics.Results.{TokenResult}
use doublangu.Semantics.Members.{token_of, known_token, in_span, sentence_for_token}
use doublangu.Semantics.Response.{
  Response, ResolvedToken, ValidatedResponse, check_tokens, is_missing, is_outside,
  validate_response,
}
use doublangu.Semantics.Response.Accepted.{validate_response-IsAccepted, ok_eq}

-- No two results are for the same token.
abbrev pub AreDistinct : List TokenResult → Type 0
AreDistinct [] = Unit
AreDistinct (r ∷ rs) = All (λ s. s.token_id ≢ r.token_id) rs × AreDistinct rs

-- The resolved token pairs a token of the article with its result.
abbrev pub IsResolved : PreparedArticle → ResolvedToken → Type 0
IsResolved a r = Memᴰ r.token a.tokens × (r.token.id ≡ r.result.token_id)

abbrev pub HasResult : List ResolvedToken → Token → Type 0
HasResult rs t = (r : ResolvedToken) × Memᴰ r rs × (r.result.token_id ≡ t.id)

abbrev pub HasSentence : List ResolvedSentence → Token → Type 0
HasSentence anchors t = (s : ResolvedSentence) × Memᴰ s anchors × (in_span s.span t ≡ true)

pub record IsCovered (a : PreparedArticle) (response : Response) (v : ValidatedResponse)
    : Type 0 where
  pub all_results : map (λ r. r.result) v.tokens ≡ response.tokens
  pub resolved : All (IsResolved a) v.tokens
  pub distinct : AreDistinct response.tokens
  pub counted : length v.tokens ≡ length a.tokens
  pub complete : All (HasResult v.tokens) a.tokens
  pub placed : All (HasSentence v.sentences) a.tokens

pub last_where-Memᴰ :
    {A : Type 0} (p : A → Bool) (xs : List A) {x : A}
    → last_where p xs ≡ some x
    → Memᴰ x xs × (p x ≡ true)
unfolding last_where
last_where-Memᴰ p [] h = absurd (ground arith)
last_where-Memᴰ p (y ∷ xs) {x} h = elim (Option-cases (last_where p xs)) [
  | inl e ↦ elim (Bool-cases (p y)) [
    | inl t ↦ let q : y ≡ x = ground arith in (Memᴰ.head (sym q), subst (λ z. p z ≡ true) q t)
    | inr f ↦ absurd (ground arith)
  ]
  | inr (z, e) ↦
      let q : z ≡ x = ground arith in
      let (m, t) = last_where-Memᴰ p xs e in
      (subst (λ w. Memᴰ w (y ∷ xs)) q (Memᴰ.tail m), subst (λ w. p w ≡ true) q t)
]

pub token_of_sound :
    (tokens : List Token) (id : Text) {t : Token}
    → token_of tokens id ≡ some t
    → Memᴰ t tokens × (t.id ≡ id)
unfolding token_of
token_of_sound tokens id {t} h =
    let (m, e) = last_where-Memᴰ (λ t. same_text t.id id) tokens h in
    (m, (same_text_iff t.id id).0 e)

pub known_token_ok : (o : Option Token) (t : Token) → known_token o ≡ ok t → o ≡ some t
known_token_ok none t h = absurd (ground arith)
known_token_ok (some s) t h = ground arith

not_seen :
    (id : Text) (seen : List Text)
    → exists_where (same_text id) seen ≡ false
    → All (λ s. s ≢ id) seen
not_seen id seen h =
    All-mono (λ s. same_text id s ≡ false) (λ s. s ≢ id)
      (λ s e q. absurd (ground (arith, e, (same_text_iff id s).1 (sym q)))) seen
      (exists_where_none (same_text id) seen h)

-- One round of the loop over the results.
record CheckedToken (u : Unicode) (a : PreparedArticle) (senses : List NewSense) (seen : List Text)
    (r : TokenResult) (rs : List TokenResult) (out : List ResolvedToken) : Type 0 where
  token : Token
  rest : List ResolvedToken
  found : token_of a.tokens r.token_id ≡ some token
  fresh : All (λ s. s ≢ r.token_id) seen
  next : check_tokens u a senses (r.token_id ∷ seen) rs ≡ ok rest
  made : record { token = token; result = r } ∷ rest ≡ out

check_tokens_step :
    (u : Unicode) (a : PreparedArticle) (senses : List NewSense) (seen : List Text)
    (r : TokenResult) (rs : List TokenResult) (out : List ResolvedToken)
    → check_tokens u a senses seen (r ∷ rs) ≡ ok out
    → CheckedToken u a senses seen r rs out
unfolding check_tokens
check_tokens_step u a senses seen r rs out h =
    let (t, k, h1) = bind_ok _ _ h in
    let (n, h2) = then_ok _ _ h1 in
    let (_, h3) = then_ok _ _ h2 in
    let (rest, next, e) = bind_ok _ _ h3 in
    record {
      token = t;
      rest = rest;
      found = known_token_ok _ t k;
      fresh = not_seen r.token_id seen (refuse_ok _ _ n);
      next = next;
      made = ok_eq e;
    }

nothing_checked :
    (u : Unicode) (a : PreparedArticle) (senses : List NewSense) (seen : List Text)
    (out : List ResolvedToken)
    → check_tokens u a senses seen [] ≡ ok out
    → [] ≡ out
unfolding check_tokens
nothing_checked u a senses seen out h = ok_eq h

record AreSound (a : PreparedArticle) (seen : List Text) (rs : List TokenResult)
    (out : List ResolvedToken) : Type 0 where
  results : map (λ r. r.result) out ≡ rs
  resolved : All (IsResolved a) out
  fresh : All (λ r. All (λ s. s ≢ r.token_id) seen) rs
  distinct : AreDistinct rs

check_tokens-AreSound :
    (u : Unicode) (a : PreparedArticle) (senses : List NewSense) (seen : List Text)
    (rs : List TokenResult) (out : List ResolvedToken)
    → check_tokens u a senses seen rs ≡ ok out
    → AreSound a seen rs out
check_tokens-AreSound u a senses seen [] out h =
    let e : [] ≡ out = nothing_checked u a senses seen out h in
    subst (AreSound a seen []) e
      (record { results = refl; resolved = tt; fresh = tt; distinct = tt })
check_tokens-AreSound u a senses seen (r ∷ rs) out h =
    let c = check_tokens_step u a senses seen r rs out h in
    let ih = check_tokens-AreSound u a senses (r.token_id ∷ seen) rs c.rest c.next in
    let (m, e) = token_of_sound a.tokens r.token_id c.found in
    subst (AreSound a seen (r ∷ rs)) c.made (record {
      results = ap (λ l. r ∷ l) ih.results;
      resolved = ((m, e), ih.resolved);
      fresh = (
        c.fresh,
        All-mono (λ x. All (λ s. s ≢ x.token_id) (r.token_id ∷ seen))
            (λ x. All (λ s. s ≢ x.token_id) seen) (λ x p. p.1) rs ih.fresh,
      );
      distinct = (
        All-mono (λ x. All (λ s. s ≢ x.token_id) (r.token_id ∷ seen)) (λ x. x.token_id ≢ r.token_id)
            (λ x p q. p.0 (sym q)) rs ih.fresh,
        ih.distinct,
      );
    })

mem_map :
    {A B : Type 0} (f : A → B) (xs : List A) {y : B}
    → Memᴰ y (map f xs)
    → (x : A) × Memᴰ x xs × (f x ≡ y)
mem_map f [] m = elim m [ ]
mem_map f (x ∷ xs) (Memᴰ.head e) = (x, Memᴰ.head refl, sym e)
mem_map f (x ∷ xs) (Memᴰ.tail m) = let (z, n, e) = mem_map f xs m in (z, Memᴰ.tail n, e)

length-map : {A B : Type 0} (f : A → B) (xs : List A) → length (map f xs) ≡ length xs
length-map f [] = refl
length-map f (x ∷ xs) = ap (λ n. suc n) (length-map f xs)

has_result :
    (results : List TokenResult) (out : List ResolvedToken) (t : Token)
    → map (λ r. r.result) out ≡ results
    → is_missing results t ≡ false
    → HasResult out t
unfolding is_missing
has_result results out t e h =
    let (r, m, q) = exists_where-Memᴰ (λ r. same_text r.token_id t.id) results (ground arith) in
    let (x, n, p) = mem_map (λ r. r.result) out (subst (Memᴰ r) (sym e) m) in
    (x, n, ap (λ r. r.token_id) p ∙ (same_text_iff r.token_id t.id).0 q)

first-Memᴰ :
    {A : Type 0} (p : A → Bool) (xs : List A) {x : A}
    → first p xs ≡ some x
    → Memᴰ x xs × (p x ≡ true)
unfolding first
first-Memᴰ p [] h = absurd (ground arith)
first-Memᴰ p (y ∷ xs) {x} h = elim (Bool-cases (p y)) [
  | inl t ↦ let q : y ≡ x = ground arith in (Memᴰ.head (sym q), subst (λ z. p z ≡ true) q t)
  | inr f ↦ let (m, t) = first-Memᴰ p xs (ground arith) in (Memᴰ.tail m, t)
]

has_sentence :
    (anchors : List ResolvedSentence) (t : Token)
    → is_outside anchors t ≡ false
    → HasSentence anchors t
unfolding is_outside sentence_for_token
has_sentence anchors t h = elim (Option-cases (first (λ s. in_span s.span t) anchors)) [
  | inl e ↦ absurd (ground (arith, e))
  | inr (s, e) ↦ let (m, q) = first-Memᴰ (λ s. in_span s.span t) anchors e in (s, m, q)
]

-- A response that ValidateResponse accepts has exactly one result for each token of the article:
-- its results are those of the validated tokens, in order, each paired with a token of the
-- article of that id; no id comes twice, every token of the article has a result, there are as
-- many results as tokens, and every token lies within one of the returned sentences.
pub validate_response-IsCovered :
    (u : Unicode) (a : PreparedArticle) (response : Response) (prior : List NewSense)
    (v : ValidatedResponse)
    → validate_response u a response prior ≡ ok v
    → IsCovered a response v
validate_response-IsCovered u a response prior v h =
    let c = validate_response-IsAccepted u a response prior v h in
    let s = check_tokens-AreSound u a c.senses [] response.tokens v.tokens c.tokens in
    record {
      all_results = s.results;
      resolved = s.resolved;
      distinct = s.distinct;
      counted =
          sym (length-map (λ r. r.result) v.tokens)
          ∙ ap length s.results
          ∙ (==_iff (length response.tokens) (length a.tokens)).0 c.counted;
      complete =
          All-mono (λ t. is_missing response.tokens t ≡ false) (HasResult v.tokens)
            (λ t. has_result response.tokens v.tokens t s.results) a.tokens
            (exists_where_none (is_missing response.tokens) a.tokens c.none_missing);
      placed =
          All-mono (λ t. is_outside v.sentences t ≡ false) (HasSentence v.sentences)
            (λ t. has_sentence v.sentences t) a.tokens
            (exists_where_none (is_outside v.sentences) a.tokens c.none_outside);
    }
