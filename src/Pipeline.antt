-- ===== src/Pipeline.antt =====
-- The analysis pipeline's contract: the stages, bindings, prompt and profile snapshots of
-- internal/pipeline/types.go, and the job payload of internal/pipeline/jobpayload.go.
pub mod Payload
pub mod Profiles
use doublangu.Prelude.{
  ℕ, ◌+◌, String, Bool, true, false, ◌&&◌, ◌||◌, not, List, [], ◌∷◌, Option, none, some, ℤ, pos,
  negsuc, ltb_ℤ, Result, ok, err, ltb, leb, ◌==◌, if◌then◌else◌, str_eq, codes, is_blank,
  trim_space, length, exists_where, all_where,
}
use Prim.Native.Nat.{Ordering}
use Prim.Native.String.{compare}

abbrev pub analysis_contract_version : String
analysis_contract_version = "reader.analysis.v3"

abbrev pub pipeline_version : String
pipeline_version = "reader-analysis-pipeline.v1"

abbrev pub stage_linguistic_analysis : String
stage_linguistic_analysis = "linguistic_analysis"

abbrev pub stage_translation : String
stage_translation = "translation"

abbrev pub registered_stages : List String
registered_stages = stage_linguistic_analysis ∷ stage_translation ∷ []

-- StageID.Valid
unfoldable pub is_registered : String → Bool
is_registered id = str_eq id stage_linguistic_analysis || str_eq id stage_translation

-- the contract and the prompt version of a stage
unfoldable pub stage_contracts : String → Option (String × String)
stage_contracts id =
    if str_eq id stage_linguistic_analysis
    then some ("reader.linguistic.v1", "reader-linguistic-prompt.v3")
    else if str_eq id stage_translation
    then some ("reader.translation.v1", "reader-translation-prompt.v3")
    else none

pub record BindingSnapshot : Type 0 where
  pub stage_id : String
  pub provider_id : String
  pub provider_type : String
  pub provider_config_fingerprint : String
  pub model_id : String
  pub options : String
  pub options_hash : String
  pub contract_version : String
  pub prompt_version : String

pub record PromptSnapshot : Type 0 where
  pub type : String
  pub id : String
  pub version : ℤ
  pub content_hash : String
  pub instruction_text : String
  pub envelope_version : String

pub record ProfileSnapshot : Type 0 where
  pub id : String
  pub name : String
  pub bindings : List BindingSnapshot
  pub prompt_snapshots : List PromptSnapshot

-- One constructor for each message, without its text.
pub data PipelineError : Type 0 where
  profile_name profile_id binding_count unregistered duplicate misordered missing : PipelineError
  field_required versions options_json prompt_snapshot snapshot_hash contract : PipelineError

-- The bytes that UTF-8 takes for a code point.
abbrev pub utf8_width : ℕ → ℕ
utf8_width c = if ltb c 0x80 then 1 else if ltb c 0x800 then 2 else if ltb c 0x10000 then 3 else 4

abbrev pub byte_length : List ℕ → ℕ
byte_length [] = 0
byte_length (c ∷ s) = utf8_width c + byte_length s

-- PromptSnapshot.Validate
unfoldable pub valid_prompt : PromptSnapshot → Bool
unfolding is_blank trim_space
valid_prompt s = not (
    is_blank s.type
    || is_blank s.id
    || not (ltb_ℤ (pos 0) s.version)
    || not (byte_length (codes (trim_space s.content_hash)) == 64)
    || is_blank s.instruction_text
    || is_blank s.envelope_version)

-- strings.Compare, whose order of bytes is the order of code points
abbrev pub compare_texts : String → String → ℤ
compare_texts a b = elim (compare a b) [
  | Ordering.lt ↦ negsuc 0
  | Ordering.eq ↦ pos 0
  | Ordering.gt ↦ pos 1
]

unfoldable pub stage_order_in : List String → String → String → ℤ
stage_order_in [] left right = if str_eq left right then pos 0 else compare_texts left right
stage_order_in (id ∷ ids) left right =
    if str_eq id left && str_eq id right
    then pos 0
    else if str_eq id left
    then negsuc 0
    else if str_eq id right
    then pos 1
    else stage_order_in ids left right

unfoldable pub stage_order : String → String → ℤ
unfolding stage_order_in
stage_order left right = stage_order_in registered_stages left right

abbrev pub is_control : ℕ → Bool
is_control c = ltb c 0x20 || c == 0x7f

unfoldable pub valid_profile_name : String → Bool
unfolding is_blank trim_space exists_where
valid_profile_name name =
    not (is_blank name)
    && not (ltb 80 (length (codes (trim_space name))))
    && not (exists_where is_control (codes (trim_space name)))

-- SortBindings: a stable sort by the stage order, in which two neighbours of one stage are refused.
unfoldable pub insert_binding : BindingSnapshot → List BindingSnapshot → List BindingSnapshot
unfolding stage_order
insert_binding b [] = b ∷ []
insert_binding b (x ∷ xs) =
    if ltb_ℤ (stage_order x.stage_id b.stage_id) (pos 0)
    then x ∷ insert_binding b xs
    else b ∷ x ∷ xs

unfoldable pub sort_stable : List BindingSnapshot → List BindingSnapshot
unfolding insert_binding
sort_stable [] = []
sort_stable (b ∷ bs) = insert_binding b (sort_stable bs)

unfoldable pub has_twins : List BindingSnapshot → Bool
has_twins [] = false
has_twins (b ∷ []) = false
has_twins (a ∷ b ∷ bs) = str_eq a.stage_id b.stage_id || has_twins (b ∷ bs)

unfoldable pub sort_bindings : List BindingSnapshot → Result PipelineError (List BindingSnapshot)
unfolding sort_stable has_twins
sort_bindings bs = if has_twins (sort_stable bs) then err duplicate else ok (sort_stable bs)

-- `json_valid` is json.Valid.
module _ (json_valid : String → Bool) where
  abbrev pub has_blank_field : BindingSnapshot → Bool
  has_blank_field b =
      is_blank b.provider_id
      || is_blank b.provider_type
      || is_blank b.provider_config_fingerprint
      || is_blank b.model_id
      || is_blank b.options_hash
      || is_blank b.contract_version
      || is_blank b.prompt_version

  -- BindingSnapshot.Validate
  unfoldable pub validate_binding : BindingSnapshot → Result PipelineError (Unit {0})
  unfolding is_registered stage_contracts is_blank
  validate_binding b =
      if not (is_registered b.stage_id)
      then err unregistered
      else if has_blank_field b
      then err field_required
      else elim (stage_contracts b.stage_id) [
        | none ↦ err unregistered
        | some c ↦
            if not (str_eq b.contract_version c.0) || not (str_eq b.prompt_version c.1)
            then err versions
            else if is_blank b.options || not (json_valid b.options)
            then err options_json
            else ok tt
      ]

  abbrev pub was_seen : List String → String → Bool
  was_seen seen id = exists_where (str_eq id) seen

  abbrev pub follows : Option String → String → Bool
  follows none id = true
  follows (some previous) id = ltb_ℤ (stage_order previous id) (pos 0)

  abbrev pub then_check :
      Result PipelineError (Unit {0})
      → Result PipelineError (List String)
      → Result PipelineError (List String)
  then_check (err e) next = err e
  then_check (ok _) next = next

  -- The loop of ProfileSnapshot.Validate, which returns the stages that it saw.
  unfoldable pub check_bindings :
      List String → Option String → List BindingSnapshot → Result PipelineError (List String)
  unfolding is_registered exists_where stage_order validate_binding
  check_bindings seen previous [] = ok seen
  check_bindings seen previous (b ∷ bs) =
      let later = check_bindings (b.stage_id ∷ seen) (some b.stage_id) bs in
      if not (is_registered b.stage_id)
      then err unregistered
      else if was_seen seen b.stage_id
      then err duplicate
      else if not (follows previous b.stage_id)
      then err misordered
      else then_check (validate_binding b) later

  abbrev pub finish_profile :
      List PromptSnapshot → Result PipelineError (List String) → Result PipelineError (Unit {0})
  finish_profile prompts (err e) = err e
  finish_profile prompts (ok seen) =
      if not (all_where (was_seen seen) registered_stages)
      then err missing
      else if not (all_where valid_prompt prompts)
      then err prompt_snapshot
      else ok tt

  -- ProfileSnapshot.Validate
  unfoldable pub validate_profile : ProfileSnapshot → Result PipelineError (Unit {0})
  unfolding valid_profile_name is_blank check_bindings all_where valid_prompt exists_where
  validate_profile p =
      if not (valid_profile_name p.name)
      then err profile_name
      else if is_blank p.id
      then err profile_id
      else if not (length p.bindings == length registered_stages)
      then err binding_count
      else finish_profile p.prompt_snapshots (check_bindings [] none p.bindings)
