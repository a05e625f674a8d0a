-- ===== src/Pipeline/Payload.antt =====
-- SnapshotHash of internal/pipeline/types.go and the payload of internal/pipeline/jobpayload.go.
use doublangu.Prelude.{
  String, Bool, ◌||◌, not, List, [], ◌∷◌, Option, none, some, Result, ok, err, if◌then◌else◌,
  str_eq, is_blank,
}
use Prim.Native.String.{◌++◌ as append}
use doublangu.Hashing.{Text, ascii, hash_parts}
use doublangu.Pipeline.{
  analysis_contract_version, pipeline_version, BindingSnapshot, ProfileSnapshot, PipelineError,
  field_required, options_json, snapshot_hash, contract, sort_bindings, validate_profile,
}

pub record JobPayload : Type 0 where
  pub article_id : String
  pub content_hash : String
  pub analysis_contract_version : String
  pub pipeline_version : String
  pub fresh : Bool
  pub profile : ProfileSnapshot
  pub profile_snapshot_hash : String

-- encoding/json and crypto/sha256: json.Valid, json.Compact (`none` for an error), json.Marshal of a
-- profile, and the hexadecimal digest.
pub record Codec : Type 0 where
  pub json_valid : String → Bool
  pub compact : String → Option String
  pub encode : ProfileSnapshot → Text
  pub sum : Text → String

module _ (codec : Codec) where
  -- The loop that compacts the options of each binding.
  unfoldable pub compact_options :
      List BindingSnapshot → Result PipelineError (List BindingSnapshot)
  compact_options [] = ok []
  compact_options (b ∷ bs) = elim (codec.compact b.options) [
    | none ↦ err options_json
    | some options ↦ elim (compact_options bs) [
      | err e ↦ err e
      | ok later ↦ ok (record b { options = options } ∷ later)
    ]
  ]

  abbrev pub hash_valid :
      ProfileSnapshot → Result PipelineError (Unit {0}) → Result PipelineError String
  hash_valid p (err e) = err e
  hash_valid p (ok _) =
      ok (hash_parts codec.sum (ascii "doublangu.profile-snapshot.v1") (codec.encode p ∷ []))

  abbrev pub hash_normalized :
      ProfileSnapshot → Result PipelineError (List BindingSnapshot) → Result PipelineError String
  hash_normalized p (err e) = err e
  hash_normalized p (ok bs) =
      let normalized = record p { bindings = bs } in
      hash_valid normalized (validate_profile codec.json_valid normalized)

  abbrev pub hash_sorted :
      ProfileSnapshot → Result PipelineError (List BindingSnapshot) → Result PipelineError String
  hash_sorted p (err e) = err e
  hash_sorted p (ok bs) = hash_normalized p (compact_options bs)

  -- SnapshotHash
  unfoldable pub snapshot_hash_of : ProfileSnapshot → Result PipelineError String
  unfolding sort_bindings compact_options validate_profile hash_parts
  snapshot_hash_of p = hash_sorted p (sort_bindings p.bindings)

  abbrev pub compare_hash : String → Result PipelineError String → Result PipelineError (Unit {0})
  compare_hash expected (err e) = err e
  compare_hash expected (ok computed) =
      if str_eq computed expected then ok tt else err snapshot_hash

  abbrev pub check_hash :
      JobPayload → Result PipelineError (Unit {0}) → Result PipelineError (Unit {0})
  check_hash p (err e) = err e
  check_hash p (ok _) = compare_hash p.profile_snapshot_hash (snapshot_hash_of p.profile)

  -- JobPayload.Validate
  unfoldable pub validate_payload : JobPayload → Result PipelineError (Unit {0})
  unfolding is_blank validate_profile snapshot_hash_of
  validate_payload p =
      if is_blank p.article_id
        || is_blank p.content_hash
        || is_blank p.analysis_contract_version
        || is_blank p.pipeline_version
        || is_blank p.profile_snapshot_hash
      then err field_required
      else if not (str_eq p.analysis_contract_version analysis_contract_version)
      then err contract
      else if not (str_eq p.pipeline_version pipeline_version)
      then err contract
      else check_hash p (validate_profile codec.json_valid p.profile)

  abbrev pub suffix_of : JobPayload → String
  suffix_of p = append pipeline_version (
      append ":" (
        append p.profile_snapshot_hash (
          append ":" (
            append p.content_hash
              (append ":" (append (if p.fresh then "fresh" else "normal") ":request:"))))))

  -- NormalJobIdempotencySuffix
  unfoldable pub normal_job_idempotency_suffix : JobPayload → Result PipelineError String
  unfolding validate_payload
  normal_job_idempotency_suffix p = elim (validate_payload p) [
    | err e ↦ err e
    | ok _ ↦ ok (suffix_of p)
  ]
