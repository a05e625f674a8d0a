-- ===== src/Semantics/Response/Accepted.antt =====
-- What a response that validateResponse accepts has passed.
use doublangu.Prelude.{
  ◌≡◌, ap, sym, ◌∙◌, subst, Bool, true, false, not, List, [], arith, ◌==◌, length, exists_where,
  Result, ok, err, bind_ok, then_ok, refuse_ok,
}
use doublangu.Hashing.{NewSense, PreparedArticle}
use doublangu.Semantics.Texts.{Unicode}
use doublangu.Semantics.Anchors.{AnchorError, validate_source_sentence_anchors}
use doublangu.Semantics.Response.{
  Response, ValidatedResponse, accepted_anchors, check_tokens, is_missing, is_outside,
  validate_constructions, check_layers, validate_response,
}

pub record IsAccepted (u : Unicode) (a : PreparedArticle) (response : Response)
    (v : ValidatedResponse) : Type 0 where
  pub senses : List NewSense
  pub counted : (length response.tokens == length a.tokens) ≡ true
  pub tokens : check_tokens u a senses [] response.tokens ≡ ok v.tokens
  pub none_missing : exists_where (is_missing response.tokens) a.tokens ≡ false
  pub anchors : validate_source_sentence_anchors a ≡ ok v.sentences
  pub none_outside : exists_where (is_outside v.sentences) a.tokens ≡ false
  pub constructions :
      validate_constructions u a v.sentences senses response.constructions ≡ ok v.constructions
  pub layers : check_layers v.constructions ≡ ok tt
  pub same_response : v.response ≡ response

anchors_ok : {A : Type 0} (r : Result AnchorError A) (a : A) → accepted_anchors r ≡ ok a → r ≡ ok a
anchors_ok (ok b) a h = ground arith
anchors_ok (err e) a h = absurd (ground arith)

pub ok_eq : {E A : Type 0} {a b : A} → ◌≡◌ {A = Result E A} (ok a) (ok b) → a ≡ b
ok_eq e = cc

of_negated : (b : Bool) → not b ≡ false → b ≡ true
of_negated b h = ground arith

pub validate_response-IsAccepted :
    (u : Unicode) (a : PreparedArticle) (response : Response) (prior : List NewSense)
    (v : ValidatedResponse)
    → validate_response u a response prior ≡ ok v
    → IsAccepted u a response v
unfolding validate_response
validate_response-IsAccepted u a response prior v h =
    let (_, h1) = then_ok _ _ h in
    let (counted, h2) = then_ok _ _ h1 in
    let (known, _, h3) = bind_ok _ _ h2 in
    let (senses, _, h4) = bind_ok _ _ h3 in
    let (tokens, t, h5) = bind_ok _ _ h4 in
    let (missing, h6) = then_ok _ _ h5 in
    let (anchors, n, h7) = bind_ok _ _ h6 in
    let (outside, h8) = then_ok _ _ h7 in
    let (constructions, c, h9) = bind_ok _ _ h8 in
    let (layers, e) = then_ok _ _ h9 in
    record {
      senses = senses;
      counted = of_negated (length response.tokens == length a.tokens) (refuse_ok _ _ counted);
      tokens = t ∙ ap (λ w. ok w.tokens) (ok_eq e);
      none_missing = refuse_ok _ _ missing;
      anchors = anchors_ok _ _ n ∙ ap (λ w. ok w.sentences) (ok_eq e);
      none_outside =
          subst (λ w. exists_where (is_outside w) a.tokens ≡ false)
            (ap (λ w. w.sentences) (ok_eq e)) (refuse_ok _ _ outside);
      constructions =
          subst
            (λ w.
              validate_constructions u a w.sentences senses response.constructions
              ≡ ok w.constructions)
            (ok_eq e) c;
      layers = subst (λ w. check_layers w ≡ ok tt) (ap (λ w. w.constructions) (ok_eq e)) layers;
      same_response = ap (λ w. w.response) (sym (ok_eq e));
    }
