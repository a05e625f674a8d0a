-- ===== src/Semantics/Response/Built.antt =====
-- What a construction that validateResponse accepts has passed.
use doublangu.Prelude.{
  suc, ◌≡◌, ap, sym, ◌∙◌, subst, true, false, not, ◌&&◌, Option, none, some, List, [], ◌∷◌, arith,
  ◌==◌, length, exists_where, ok, bind_ok, then_ok, refuse_ok, All,
}
use doublangu.Hashing.{
  Block, Text, Token, NewSense, ResolvedSpan, ResolvedSentence, PreparedArticle,
}
use doublangu.Semantics.Texts.{Unicode}
use doublangu.Semantics.Errors.{ResponseError}
use doublangu.Semantics.Members.{
  SpanRef, Construction, Members, token_of, in_span, resolve_spans, check_member, after_member,
  check_members,
}
use doublangu.Semantics.Response.{
  ResolvedConstruction, is_contiguous, no_members, check_construction, check_shape,
  validate_construction, validate_constructions, is_omitted, first_span,
}
use doublangu.Semantics.Response.Accepted.{ok_eq}
use doublangu.Semantics.Response.Coverage.{known_token_ok}

-- The member of that id is a token of the article within one of the spans.
abbrev pub IsMember : List Token → List ResolvedSpan → Text → Type 0
IsMember tokens spans id =
    (t : Token) × (token_of tokens id ≡ some t) × (exists_where (λ s. in_span s t) spans ≡ true)

checked_inside :
    (tokens : List Token) (anchors : List ResolvedSentence) (spans : List ResolvedSpan)
    (m : Members) (id : Text) (t : Token)
    → check_member tokens anchors spans m id ≡ ok t
    → IsMember tokens spans id
unfolding check_member
checked_inside tokens anchors spans m id t h =
    let (x, k, h1) = bind_ok _ _ h in
    let (_, h2) = then_ok _ _ h1 in
    let (_, h3) = then_ok _ _ h2 in
    let (inside, _) = then_ok _ _ h3 in
    let e =
      refuse_ok (not (exists_where (λ s. in_span s x) spans)) ResponseError.outside_spans inside in
    (x, known_token_ok _ x k, ground (arith, e))

check_members-IsMember :
    (tokens : List Token) (anchors : List ResolvedSentence) (spans : List ResolvedSpan)
    (m : Members) (ids : List Text) (out : List Token)
    → check_members tokens anchors spans m ids ≡ ok out
    → All (IsMember tokens spans) ids
unfolding check_members
check_members-IsMember tokens anchors spans m [] out h = tt
check_members-IsMember tokens anchors spans m (id ∷ ids) out h =
    let (t, k, h1) = bind_ok _ _ h in
    let (rest, n, _) = bind_ok _ _ h1 in
    (
      checked_inside tokens anchors spans m id t k,
      check_members-IsMember tokens anchors spans (after_member tokens anchors spans m id t) ids
          rest n,
    )

pub record IsBuilt (a : PreparedArticle) (r : ResolvedConstruction) : Type 0 where
  pub members : All (IsMember a.tokens r.spans) r.construction.token_ids
  pub one_span : is_contiguous r.construction ≡ true → length r.spans ≡ 1
  pub none_omitted :
      is_contiguous r.construction ≡ true
      → exists_where (is_omitted (first_span r.spans) r.construction.token_ids) a.tokens ≡ false

length-resolve_spans :
    (blocks : List Block) (p : Option ResolvedSpan) (refs : List SpanRef) (out : List ResolvedSpan)
    → resolve_spans blocks p refs ≡ ok out
    → length out ≡ length refs
unfolding resolve_spans
length-resolve_spans blocks p [] out h = ap length (sym (ok_eq h))
length-resolve_spans blocks p (ref ∷ refs) out h =
    let (s, _, h1) = bind_ok _ _ h in
    let (_, h2) = then_ok _ _ h1 in
    let (rest, n, e) = bind_ok _ _ h2 in
    ap length (sym (ok_eq e)) ∙ ap (λ k. suc k) (length-resolve_spans blocks (some s) refs rest n)

shape_checked :
    (u : Unicode) (a : PreparedArticle) (anchors : List ResolvedSentence) (senses : List NewSense)
    (c : Construction) (members : List Token) (spans : List ResolvedSpan)
    → check_shape u a anchors senses c members spans ≡ ok tt
    → is_contiguous c ≡ true
    → exists_where (is_omitted (first_span spans) c.token_ids) a.tokens ≡ false
unfolding check_shape
shape_checked u a anchors senses c members spans h k =
    let (_, h1) = then_ok _ _ h in
    let (_, h2) = then_ok _ _ h1 in
    let e =
      refuse_ok
        (is_contiguous c && exists_where (is_omitted (first_span spans) c.token_ids) a.tokens)
        ResponseError.omits_token h2 in
    ground (arith, e, k)

spans_counted :
    (u : Unicode) (a : PreparedArticle) (anchors : List ResolvedSentence) (senses : List NewSense)
    (c : Construction)
    → check_construction u a anchors senses c ≡ ok tt
    → is_contiguous c ≡ true
    → length c.spans ≡ 1
unfolding check_construction
spans_counted u a anchors senses c h k =
    let (_, h1) = then_ok _ _ h in
    let (_, h2) = then_ok _ _ h1 in
    let (_, h3) = then_ok _ _ h2 in
    let (_, h4) = then_ok _ _ h3 in
    let (_, h5) = then_ok _ _ h4 in
    let (_, h6) = then_ok _ _ h5 in
    let (_, h7) = then_ok _ _ h6 in
    let (_, h8) = then_ok _ _ h7 in
    let (_, h9) = then_ok _ _ h8 in
    let (_, h10) = then_ok _ _ h9 in
    let (_, h11) = then_ok _ _ h10 in
    let e = refuse_ok (is_contiguous c && not (length c.spans == 1)) ResponseError.extra_span h11 in
    ground (arith, e, k)

validate_construction-IsBuilt :
    (u : Unicode) (a : PreparedArticle) (anchors : List ResolvedSentence) (senses : List NewSense)
    (c : Construction) (r : ResolvedConstruction)
    → validate_construction u a anchors senses c ≡ ok r
    → IsBuilt a r
unfolding validate_construction
validate_construction-IsBuilt u a anchors senses c r h =
    let (first_checks, h1) = then_ok _ _ h in
    let (spans, s, h2) = bind_ok _ _ h1 in
    let (members, m, h3) = bind_ok _ _ h2 in
    let (shape, h4) = then_ok _ _ h3 in
    let (_, e) = then_ok _ _ h4 in
    subst (IsBuilt a) (ok_eq e) (record {
      members = check_members-IsMember a.tokens anchors spans no_members c.token_ids members m;
      one_span = λ k.
          length-resolve_spans a.blocks none c.spans spans s
          ∙ spans_counted u a anchors senses c first_checks k;
      none_omitted = shape_checked u a anchors senses c members spans shape;
    })

pub validate_constructions-IsBuilt :
    (u : Unicode) (a : PreparedArticle) (anchors : List ResolvedSentence) (senses : List NewSense)
    (cs : List Construction) (rs : List ResolvedConstruction)
    → validate_constructions u a anchors senses cs ≡ ok rs
    → All (IsBuilt a) rs
unfolding validate_constructions
validate_constructions-IsBuilt u a anchors senses [] rs h = subst (All (IsBuilt a)) (ok_eq h) tt
validate_constructions-IsBuilt u a anchors senses (c ∷ cs) rs h =
    let (r, k, h1) = bind_ok _ _ h in
    let (rest, n, e) = bind_ok _ _ h1 in
    subst (All (IsBuilt a)) (ok_eq e) (
      validate_construction-IsBuilt u a anchors senses c r k,
      validate_constructions-IsBuilt u a anchors senses cs rest n,
    )
