-- ===== src/Semantics/Response/Layers.antt =====
-- The layers of the constructions of an accepted response.
use doublangu.Prelude.{
  ◌≡◌, ◌↔◌, refl, sym, ◌∙◌, subst, true, false, not, some, List, [], ◌∷◌, Memᴰ, arith, length,
  exists_where, ok, then_ok, refuse_ok, All, All-mem, exists_where-Memᴰ, exists_where_none,
  and-intro, ltb_ℤ, ℤ,
}
use mathlib.Core.Bool.{true≢false}
use doublangu.Hashing.{Text, Token, NewSense, ResolvedSpan, PreparedArticle}
use doublangu.Semantics.Texts.{Unicode, same_text, same_text_iff}
use doublangu.Semantics.Spans.{same_int, same_int_eq, same_int_refl, span_overlap}
use doublangu.Semantics.Members.{token_of, in_span}
use doublangu.Semantics.Response.{
  Response, ValidatedResponse, ResolvedConstruction, is_contiguous, is_omitted, first_span,
  container_of, overlaps, check_layers, validate_response,
}
use doublangu.Semantics.Response.Accepted.{validate_response-IsAccepted}
use doublangu.Semantics.Response.Coverage.{token_of_sound}
use doublangu.Semantics.Response.Built.{IsMember, IsBuilt, validate_constructions-IsBuilt}

-- `x` stands before `y` in the list.
pub data StandsBefore {A : Type 0} (x y : A) : List A → Type 0 where
  here : (xs : List A) → Memᴰ y xs → StandsBefore x y (x ∷ xs)
  there : (z : A) (xs : List A) → StandsBefore x y xs → StandsBefore x y (z ∷ xs)

single : {A : Type 0} (xs : List A) → length xs ≡ 1 → (x : A) × (xs ≡ x ∷ [])
single [] h = absurd (omega arith)
single (x ∷ []) h = (x, refl)
single (x ∷ y ∷ xs) h = absurd (omega arith)

some_eq : {A : Type 0} {x y : A} → some x ≡ some y → x ≡ y
some_eq e = cc

container :
    (r : ResolvedConstruction) (s : ResolvedSpan)
    → is_contiguous r.construction ≡ true
    → r.spans ≡ s ∷ []
    → container_of r ≡ some s
container r s c e = rw (c, e) refl

only_span :
    (s : ResolvedSpan) (t : Token)
    → exists_where (λ x. in_span x t) (s ∷ []) ≡ true
    → in_span s t ≡ true
unfolding exists_where
only_span s t h = ground (arith, h)

-- A member of a contiguous construction lies in its only span.
member_inside :
    (a : PreparedArticle) (r : ResolvedConstruction) (s : ResolvedSpan) (id : Text) (t : Token)
    → IsBuilt a r
    → r.spans ≡ s ∷ []
    → Memᴰ id r.construction.token_ids
    → token_of a.tokens id ≡ some t
    → in_span s t ≡ true
member_inside a r s id t b q n e =
    let (x, f, i) = All-mem (IsMember a.tokens r.spans) n b.members in
    let same : x ≡ t = some_eq (sym f ∙ e) in
    only_span s t (
      subst (λ y. exists_where (λ z. in_span z y) (s ∷ []) ≡ true) same
        (subst (λ l. exists_where (λ z. in_span z x) l ≡ true) q i))

omitted_member :
    (s : ResolvedSpan) (ids : List Text) (t : Token)
    → is_omitted (some s) ids t ≡ false
    → in_span s t ≡ true
    → Memᴰ t.id ids
unfolding is_omitted
omitted_member s ids t h i =
    let (y, m, e) = exists_where-Memᴰ (same_text t.id) ids (ground (arith, h, i)) in
    subst (λ z. Memᴰ z ids) (sym ((same_text_iff t.id y).0 e)) m

-- The members of a contiguous construction are the tokens in its container.
members_in_container :
    (a : PreparedArticle) (r : ResolvedConstruction) (t : Token)
    → IsBuilt a r
    → is_contiguous r.construction ≡ true
    → Memᴰ t a.tokens
    → token_of a.tokens t.id ≡ some t
    → (s : ResolvedSpan) × (r.spans ≡ s ∷ [])
      × (Memᴰ t.id r.construction.token_ids ↔ (in_span s t ≡ true))
unfolding is_omitted
members_in_container a r t b c m e =
    let (s, q) = single r.spans (b.one_span c) in
    let omit : All (λ t. is_omitted (some s) r.construction.token_ids t ≡ false) a.tokens =
      exists_where_none (is_omitted (some s) r.construction.token_ids) a.tokens (
        subst
          (λ l. exists_where (is_omitted (first_span l) r.construction.token_ids) a.tokens ≡ false)
          q (b.none_omitted c)) in
    (
      s,
      q,
      (
        λ n. member_inside a r s t.id t b q n e,
        λ i.
            omitted_member s r.construction.token_ids t
              (All-mem (λ x. is_omitted (some s) r.construction.token_ids x ≡ false) m omit) i,
      ),
    )

between :
    (s0 t0 t1 r1 : ℤ)
    → not (ltb_ℤ t0 s0) ≡ true
    → ltb_ℤ t0 t1 ≡ true
    → not (ltb_ℤ r1 t1) ≡ true
    → ltb_ℤ s0 r1 ≡ true
between s0 t0 t1 r1 h k l = ground arith

in_span_parts :
    (s : ResolvedSpan) (t : Token)
    → in_span s t ≡ true
    → (same_int s.block_index t.block_index ≡ true)
      × (not (ltb_ℤ t.start_utf16 s.start_utf16) ≡ true)
      × (not (ltb_ℤ s.end_utf16 t.end_utf16) ≡ true)
in_span_parts s t h = (ground arith, ground arith, ground arith)

overlapping :
    (s r : ResolvedSpan) (t : Token)
    → ltb_ℤ t.start_utf16 t.end_utf16 ≡ true
    → in_span s t ≡ true
    → in_span r t ≡ true
    → span_overlap s r ≡ true
unfolding span_overlap
overlapping s r t ne i j =
    let (sb, s2, s3) = in_span_parts s t i in
    let (rb, r2, r3) = in_span_parts r t j in
    let e : s.block_index ≡ r.block_index =
      same_int_eq s.block_index t.block_index sb
      ∙ sym (same_int_eq r.block_index t.block_index rb) in
    and-intro
      (and-intro (rw e (same_int_refl r.block_index))
        (between s.start_utf16 t.start_utf16 t.end_utf16 r.end_utf16 s2 ne r3))
      (between r.start_utf16 t.start_utf16 t.end_utf16 s.end_utf16 r2 ne s3)

layers_apart :
    (l r : ResolvedConstruction) (rs : List ResolvedConstruction)
    → check_layers rs ≡ ok tt
    → StandsBefore l r rs
    → overlaps (container_of l) (container_of r) ≡ false
unfolding check_layers
layers_apart l r _ h (StandsBefore.here xs m) =
    let (n, _) = then_ok _ _ h in
    All-mem (λ x. overlaps (container_of l) (container_of x) ≡ false) m
      (exists_where_none (λ x. overlaps (container_of l) (container_of x)) xs (refuse_ok _ _ n))
layers_apart l r _ h (StandsBefore.there z xs b) =
    let (_, k) = then_ok _ _ h in layers_apart l r xs k b

first-Memᴰ : {A : Type 0} {x y : A} {xs : List A} → StandsBefore x y xs → Memᴰ x xs
first-Memᴰ (StandsBefore.here xs m) = Memᴰ.head refl
first-Memᴰ (StandsBefore.there z xs b) = Memᴰ.tail (first-Memᴰ b)

second-Memᴰ : {A : Type 0} {x y : A} {xs : List A} → StandsBefore x y xs → Memᴰ y xs
second-Memᴰ (StandsBefore.here xs m) = Memᴰ.tail m
second-Memᴰ (StandsBefore.there z xs b) = Memᴰ.tail (second-Memᴰ b)

-- In a response that ValidateResponse accepts no token belongs to two contiguous constructions, if
-- every token of the article ends behind its start.
pub contiguous_constructions_apart :
    (u : Unicode) (a : PreparedArticle) (response : Response) (prior : List NewSense)
    (v : ValidatedResponse)
    → validate_response u a response prior ≡ ok v
    → All (λ t. ltb_ℤ t.start_utf16 t.end_utf16 ≡ true) a.tokens
    → (l r : ResolvedConstruction) → StandsBefore l r v.constructions
    → is_contiguous l.construction ≡ true
    → is_contiguous r.construction ≡ true
    → (id : Text) → Memᴰ id l.construction.token_ids
    → ¬ Memᴰ id r.construction.token_ids
unfolding overlaps
contiguous_constructions_apart u a response prior v h ne l r b cl cr id ml mr =
    let c = validate_response-IsAccepted u a response prior v h in
    let built =
      validate_constructions-IsBuilt u a v.sentences c.senses response.constructions v.constructions
        c.constructions in
    let bl = All-mem (IsBuilt a) (first-Memᴰ b) built in
    let br = All-mem (IsBuilt a) (second-Memᴰ b) built in
    let (s, p) = single l.spans (bl.one_span cl) in
    let (q, w) = single r.spans (br.one_span cr) in
    let (t, e, _) = All-mem (IsMember a.tokens l.spans) ml bl.members in
    let (m, _) = token_of_sound a.tokens id e in
    let o =
      overlapping s q t (All-mem (λ t. ltb_ℤ t.start_utf16 t.end_utf16 ≡ true) m ne)
        (member_inside a l s id t bl p ml e) (member_inside a r q id t br w mr e) in
    let n : span_overlap s q ≡ false =
      subst (λ x. overlaps x (some q) ≡ false) (container l s cl p)
        (subst (λ x. overlaps (container_of l) x ≡ false) (container r q cr w)
          (layers_apart l r v.constructions c.layers b)) in
    true≢false (sym o ∙ n)

-- In a response that ValidateResponse accepts a contiguous construction has a single span, and a
-- token of the article is one of its members exactly when it lies in that span, if no other
-- token of the article has the token's id.
pub contiguous_members_iff :
    (u : Unicode) (a : PreparedArticle) (response : Response) (prior : List NewSense)
    (v : ValidatedResponse)
    → validate_response u a response prior ≡ ok v
    → (r : ResolvedConstruction) → Memᴰ r v.constructions
    → is_contiguous r.construction ≡ true
    → (t : Token) → Memᴰ t a.tokens
    → token_of a.tokens t.id ≡ some t
    → (s : ResolvedSpan) × (r.spans ≡ s ∷ [])
      × (Memᴰ t.id r.construction.token_ids ↔ (in_span s t ≡ true))
contiguous_members_iff u a response prior v h r m c t n e =
    let k = validate_response-IsAccepted u a response prior v h in
    let built =
      validate_constructions-IsBuilt u a v.sentences k.senses response.constructions v.constructions
        k.constructions in
    members_in_container a r t (All-mem (IsBuilt a) m built) c n e
