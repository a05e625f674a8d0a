-- ===== src/Pipeline/Profiles.antt =====
-- What an accepted profile looks like.
use doublangu.Prelude.{
  String, ◌≡◌, refl, sym, subst, ap, ◌∙◌, inl, inr, ◌⊎◌, Bool, true, List, [], ◌∷◌, none, some,
  arith, pos, ltb_ℤ, Result, ok, err, ◌==◌, str_eq, eq_iff, length, Bool-cases,
}
use mathlib.Core.Bool.{false≢true}
use doublangu.Pipeline.Payload.{Codec, hash_sorted, snapshot_hash_of}
use doublangu.Pipeline.{
  stage_linguistic_analysis, stage_translation, is_registered, stage_contracts, BindingSnapshot,
  PromptSnapshot, ProfileSnapshot, PipelineError, stage_order, sort_bindings, validate_binding,
  check_bindings, validate_profile, finish_profile,
}

registered_cases :
    (id : String)
    → is_registered id ≡ true
    → (id ≡ stage_linguistic_analysis) ⊎ (id ≡ stage_translation)
unfolding is_registered
registered_cases id h = elim (Bool-cases (str_eq id stage_linguistic_analysis)) [
  | inl e ↦ inl ((eq_iff id stage_linguistic_analysis).0 e)
  | inr n ↦ inr ((eq_iff id stage_translation).0 (ground (arith, n)))
]

-- Only one pair of registered stages stands in the registered order.
ordered_stages :
    (a b : String)
    → is_registered a ≡ true
    → is_registered b ≡ true
    → ltb_ℤ (stage_order a b) (pos 0) ≡ true
    → (a ≡ stage_linguistic_analysis) × (b ≡ stage_translation)
unfolding stage_order
ordered_stages a b ra rb o = elim (registered_cases a ra) [
  | inl p ↦ elim (registered_cases b rb) [
    | inl q ↦ absurd (
        false≢true (
          subst (λ s. ltb_ℤ (stage_order s stage_linguistic_analysis) (pos 0) ≡ true) p
            (subst (λ s. ltb_ℤ (stage_order a s) (pos 0) ≡ true) q o)))
    | inr q ↦ (p, q)
  ]
  | inr p ↦ elim (registered_cases b rb) [
    | inl q ↦ absurd (
        false≢true (
          subst (λ s. ltb_ℤ (stage_order s stage_linguistic_analysis) (pos 0) ≡ true) p
            (subst (λ s. ltb_ℤ (stage_order a s) (pos 0) ≡ true) q o)))
    | inr q ↦ absurd (
        false≢true (
          subst (λ s. ltb_ℤ (stage_order s stage_translation) (pos 0) ≡ true) p
            (subst (λ s. ltb_ℤ (stage_order a s) (pos 0) ≡ true) q o)))
  ]
]

module _ (json_valid : String → Bool) where
  two_checked :
      (b c : BindingSnapshot) (seen : List String)
      → check_bindings json_valid [] none (b ∷ c ∷ []) ≡ ok seen
      → (is_registered b.stage_id ≡ true)
        × (is_registered c.stage_id ≡ true)
        × (ltb_ℤ (stage_order b.stage_id c.stage_id) (pos 0) ≡ true)
        × (validate_binding json_valid b ≡ ok tt)
        × (validate_binding json_valid c ≡ ok tt)
  unfolding check_bindings
  two_checked b c seen h = ground arith

  two_long :
      (bs : List BindingSnapshot)
      → (length bs == 2) ≡ true
      → (b : BindingSnapshot) × (c : BindingSnapshot) × (bs ≡ b ∷ c ∷ [])
  two_long [] h = absurd (ground arith)
  two_long (b ∷ []) h = absurd (ground arith)
  two_long (b ∷ c ∷ []) h = (b, c, refl)
  two_long (b ∷ c ∷ d ∷ ds) h = absurd (ground arith)

  finished :
      (prompts : List PromptSnapshot) (r : Result PipelineError (List String))
      → finish_profile json_valid prompts r ≡ ok tt
      → (seen : List String) × (r ≡ ok seen)
  finished prompts (err e) h = absurd (ground arith)
  finished prompts (ok seen) h = (seen, refl)

  accepted :
      (p : ProfileSnapshot)
      → validate_profile json_valid p ≡ ok tt
      → ((length p.bindings == 2) ≡ true)
        × ((seen : List String) × (check_bindings json_valid [] none p.bindings ≡ ok seen))
  unfolding validate_profile
  accepted p h = (
    ground arith,
    finished p.prompt_snapshots (check_bindings json_valid [] none p.bindings) (ground arith),
  )

  binding_versions :
      (b : BindingSnapshot)
      → validate_binding json_valid b ≡ ok tt
      → stage_contracts b.stage_id ≡ some (b.contract_version, b.prompt_version)
  unfolding validate_binding stage_contracts
  binding_versions b h = ground (
    arith,
    eq_iff b.contract_version "reader.linguistic.v1",
    eq_iff b.prompt_version "reader-linguistic-prompt.v3",
    eq_iff b.contract_version "reader.translation.v1",
    eq_iff b.prompt_version "reader-translation-prompt.v3",
  )

sorted_pair :
    (b c : BindingSnapshot)
    → b.stage_id ≡ stage_linguistic_analysis
    → c.stage_id ≡ stage_translation
    → (sort_bindings (b ∷ c ∷ []) ≡ ok (b ∷ c ∷ []))
      × (sort_bindings (c ∷ b ∷ []) ≡ ok (b ∷ c ∷ []))
unfolding sort_bindings
sorted_pair b c p q = (rw (p, q) refl, rw (p, q) refl)

abbrev first_stage : List BindingSnapshot → String
first_stage [] = ""
first_stage (b ∷ bs) = b.stage_id

abbrev second_stage : List BindingSnapshot → String
second_stage [] = ""
second_stage (b ∷ bs) = first_stage bs

-- What Validate accepts has two bindings, in the registered order, each with the contract and the
-- prompt version that its stage has.
pub record IsComplete (bindings : List BindingSnapshot) : Type 0 where
  pub first : BindingSnapshot
  pub second : BindingSnapshot
  pub both : bindings ≡ first ∷ second ∷ []
  pub analysis : first.stage_id ≡ stage_linguistic_analysis
  pub translation : second.stage_id ≡ stage_translation
  pub first_versions :
      stage_contracts first.stage_id ≡ some (first.contract_version, first.prompt_version)
  pub second_versions :
      stage_contracts second.stage_id ≡ some (second.contract_version, second.prompt_version)

-- ProfileSnapshot.Validate accepts only profiles of exactly two bindings, the first of the
-- linguistic analysis and the second of the translation, each with the contract and the prompt
-- version that are registered for its stage.
pub validate_profile-IsComplete :
    (json_valid : String → Bool) (p : ProfileSnapshot)
    → validate_profile json_valid p ≡ ok tt
    → IsComplete p.bindings
validate_profile-IsComplete json_valid p h =
    let (two, (seen, loop)) = accepted json_valid p h in
    let (b, c, both) = two_long json_valid p.bindings two in
    let (rb, rc, order, vb, vc) =
      two_checked json_valid b c seen
        (subst (λ bs. check_bindings json_valid [] none bs ≡ ok seen) both loop) in
    let (analysis, translation) = ordered_stages b.stage_id c.stage_id rb rc order in
    record {
      first = b;
      second = c;
      both = both;
      analysis = analysis;
      translation = translation;
      first_versions = binding_versions json_valid b vb;
      second_versions = binding_versions json_valid c vc;
    }

-- The hash of an accepted profile does not depend on the order of its bindings: with its two
-- bindings exchanged SnapshotHash gives the same answer.
pub snapshot_hash_of_exchanged :
    (codec : Codec) (p : ProfileSnapshot) (b c : BindingSnapshot)
    → validate_profile codec.json_valid p ≡ ok tt
    → p.bindings ≡ b ∷ c ∷ []
    → snapshot_hash_of codec (record p { bindings = c ∷ b ∷ [] }) ≡ snapshot_hash_of codec p
unfolding snapshot_hash_of
snapshot_hash_of_exchanged codec p b c h e =
    let whole = validate_profile-IsComplete codec.json_valid p h in
    let pair = sym e ∙ whole.both in
    let sorts =
      sorted_pair b c (ap first_stage pair ∙ whole.analysis)
        (ap second_stage pair ∙ whole.translation) in
    ap (hash_sorted codec p) (sorts.1 ∙ sym sorts.0 ∙ ap sort_bindings (sym e))
