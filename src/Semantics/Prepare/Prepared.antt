-- ===== src/Semantics/Prepare/Prepared.antt =====
-- The article that Prepare returns.
use doublangu.Prelude.{
  ℕ, suc, ◌+◌, ◌≡◌, refl, sym, ap, subst, ◌∙◌, String, true, false, not, some, List, [], ◌∷◌, ◌++◌,
  pos, ltb_ℤ, Memᴰ, arith, length, All, All-append, ok, bind_ok, then_ok, refuse_ok, or-false,
}
use doublangu.Hashing.{Text, Block, Token, SenseCandidate, PreparedArticle}
use doublangu.Workers.Capabilities.{TagParser}
use doublangu.Semantics.Texts.{
  is_empty, utf16_len, Unicode, append_assoc, utf16_len-append, utf16_len_pos, utf16_len_nil,
}
use doublangu.Semantics.Spans.{same_int, same_int_eq, slice_for_utf16}
use doublangu.Semantics.Spans.Exact.{slice_for_utf16-IsSlice}
use doublangu.Semantics.Anchors.{nth_block, block_at}
use doublangu.Semantics.Members.{token_of}
use doublangu.Semantics.Tokens.{tokenize}
use doublangu.Semantics.Tokens.Placed.{IsToken, IsTokenized, tokenize-IsTokenized}
use doublangu.Semantics.Response.Accepted.{ok_eq}
use doublangu.Semantics.Prepare.{numbered_token, number_tokens, prepare_blocks, prepare}
use doublangu.Semantics.Prepare.Numbered.{
  IsNumbered, number_tokens-IsNumbered, IsNumbered-append, token_of_numbered,
}

-- The blocks stand at their indexes.
abbrev pub IsIndexed : ℕ → List Block → Type 0
IsIndexed i [] = Unit
IsIndexed i (b ∷ bs) = (b.block_index ≡ pos i) × IsIndexed (suc i) bs

-- The token is the exact slice of its block at its offsets, and ends behind its start.
pub record IsSliced (blocks : List Block) (t : Token) : Type 0 where
  pub block : Block
  pub found : block_at blocks t.block_index ≡ some block
  pub nonempty : ltb_ℤ t.start_utf16 t.end_utf16 ≡ true
  pub sliced : slice_for_utf16 block.source_text t.start_utf16 t.end_utf16 ≡ ok t.source_text

pub record IsPrepared (a : PreparedArticle) : Type 0 where
  pub indexed : IsIndexed 0 a.blocks
  pub numbered : IsNumbered 0 a.tokens
  pub sliced : All (IsSliced a.blocks) a.tokens
  pub identified : (t : Token) → Memᴰ t a.tokens → token_of a.tokens t.id ≡ some t

-- One token of the block `b`, the `i`-th of all.
IsToken-IsSliced :
    (u : Unicode) (all : List Block) (i : ℕ) (b : Block) (before gap word rest : Text) (t : Token)
    → nth_block all i ≡ some b
    → b.source_text ≡ before ++ (gap ++ (word ++ rest))
    → is_empty word ≡ false
    → IsToken u i (utf16_len before + utf16_len gap) word t
    → IsSliced all t
IsToken-IsSliced u all i b before gap word rest t f e ne h =
    let g : utf16_len (before ++ gap) ≡ utf16_len before + utf16_len gap =
      utf16_len-append before gap in
    let from = utf16_len before + utf16_len gap in
    let cut : slice_for_utf16 b.source_text (pos from) (pos (from + utf16_len word)) ≡ ok word =
      slice_for_utf16-IsSlice b.source_text word from (from + utf16_len word)
        (record {
          before = before ++ gap;
          after = rest;
          split = e ∙ sym (append_assoc before gap (word ++ rest));
          starts = sym g;
          ends = ap (λ n. n + utf16_len word) (sym g);
        })
        ne in
    let longer : ltb_ℤ (pos from) (pos (from + utf16_len word)) ≡ true =
      ground (arith, utf16_len_pos word ne) in
    record {
      block = b;
      found = rw h.block_index f;
      nonempty = rw (h.starts, h.ends) longer;
      sliced = rw (h.starts, h.ends, h.source_text) cut;
    }

IsTokenized-IsSliced :
    (u : Unicode) (all : List Block) (i : ℕ) (b : Block) (before text : Text) (from : ℕ)
    (ts : List Token)
    → nth_block all i ≡ some b
    → b.source_text ≡ before ++ text
    → from ≡ utf16_len before
    → IsTokenized u i from text ts
    → All (IsSliced all) ts
IsTokenized-IsSliced u all i b before text from [] f e o (IsTokenized.wordless _ _ _) = tt
IsTokenized-IsSliced u all i b before text from (t ∷ ts) f e o
      (IsTokenized.token _ _ gap word rest _ _ s w ne h k) =
    let split : b.source_text ≡ before ++ (gap ++ (word ++ rest)) = e ∙ ap (λ x. before ++ x) s in
    (
      IsToken-IsSliced u all i b before gap word rest t f split ne
          (subst (λ n. IsToken u i (n + utf16_len gap) word t) o h),
      IsTokenized-IsSliced u all i b (before ++ (gap ++ word)) rest
          (from + utf16_len gap + utf16_len word) ts f
          (split
            ∙ ap (λ x. before ++ x) (sym (append_assoc gap word rest))
            ∙ sym (append_assoc before (gap ++ word) rest))
          (omega (arith, utf16_len-append before (gap ++ word), utf16_len-append gap word)) k,
    )

number_tokens-IsSliced :
    (all : List Block) (index n : ℕ) (ts : List Token)
    → All (IsSliced all) ts
    → All (IsSliced all) (number_tokens index n ts)
unfolding number_tokens numbered_token
number_tokens-IsSliced all index n [] h = tt
number_tokens-IsSliced all index n (t ∷ ts) (h, k) = (
  record { block = h.block; found = h.found; nonempty = h.nonempty; sliced = h.sliced },
  number_tokens-IsSliced all index (suc n) ts k,
)

record AreReady (all : List Block) (index : ℕ) (bs : List Block) (out : List Token) : Type 0 where
  indexed : IsIndexed index bs
  numbered : IsNumbered 0 out
  sliced : All (IsSliced all) out

prepare_blocks-AreReady :
    (u : Unicode) (all : List Block) (index : ℕ) (tokens : List Token) (bs : List Block)
    (out : List Token)
    → prepare_blocks u index tokens bs ≡ ok out
    → ((m : ℕ) → nth_block bs m ≡ nth_block all (index + m))
    → IsNumbered 0 tokens
    → All (IsSliced all) tokens
    → AreReady all index bs out
unfolding prepare_blocks
prepare_blocks-AreReady u all index tokens [] out h f n s =
    subst (AreReady all index []) (ok_eq h) (record { indexed = tt; numbered = n; sliced = s })
prepare_blocks-AreReady u all index tokens (b ∷ bs) out h f n s =
    let (c, h1) = then_ok _ _ h in
    let (i, _) =
      or-false (not (same_int b.block_index (pos index))) (is_empty b.source_text)
        (refuse_ok _ _ c) in
    let same : b.block_index ≡ pos index =
      same_int_eq b.block_index (pos index) (ground (arith, i)) in
    let here : nth_block all index ≡ some b = ap (nth_block all) (omega arith) ∙ sym (f 0) in
    let new = number_tokens index (length tokens) (tokenize u index b.source_text) in
    let cut =
      IsTokenized-IsSliced u all index b [] b.source_text 0 (tokenize u index b.source_text) here
        refl utf16_len_nil (tokenize-IsTokenized u index b.source_text) in
    let r =
      prepare_blocks-AreReady u all (suc index) (tokens ++ new) bs out h1
        (λ m. f (suc m) ∙ ap (nth_block all) (omega arith))
        (IsNumbered-append 0 tokens new n (
          subst (λ k. IsNumbered k new) (omega arith)
            (number_tokens-IsNumbered index (length tokens) (tokenize u index b.source_text))))
        (All-append (IsSliced all) tokens new s (
          number_tokens-IsSliced all index (length tokens) (tokenize u index b.source_text) cut)) in
    record { indexed = (same, r.indexed); numbered = r.numbered; sliced = r.sliced }

-- In an article that Prepare returns the blocks stand at their indexes, the tokens are numbered
-- through from zero and no two have the same identifier, and each token is the exact slice of its
-- block at its UTF-16 offsets and not empty.
pub prepare-IsPrepared :
    (u : Unicode) (tags : TagParser) (sum : Text → String) (title : Text) (source target : String)
    (blocks : List Block) (candidates : List SenseCandidate) (a : PreparedArticle)
    → prepare u tags sum title source target blocks candidates ≡ ok a
    → IsPrepared a
unfolding prepare
prepare-IsPrepared u tags sum title source target blocks candidates a h =
    let (_, h1) = then_ok _ _ h in
    let (s, _, h2) = bind_ok _ _ h1 in
    let (t, _, h3) = bind_ok _ _ h2 in
    let (_, h4) = then_ok _ _ h3 in
    let (tokens, p, e) = bind_ok _ _ h4 in
    let r =
      prepare_blocks-AreReady u blocks 0 [] blocks tokens p
        (λ m. ap (nth_block blocks) (omega arith)) tt tt in
    subst IsPrepared (ok_eq e) (record {
      indexed = r.indexed;
      numbered = r.numbered;
      sliced = r.sliced;
      identified = λ t m. token_of_numbered 0 tokens t r.numbered m;
    })
