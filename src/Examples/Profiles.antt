-- ===== src/Examples/Profiles.antt =====
-- The theorems on profiles, at a profile of two bindings.
use doublangu.Prelude.{String, ◌≡◌, refl, true, [], ◌∷◌, some, ok}
use doublangu.Hashing.{ascii}
use doublangu.Pipeline.{BindingSnapshot, ProfileSnapshot, validate_profile}
use doublangu.Pipeline.Payload.{Codec, snapshot_hash_of}
use doublangu.Pipeline.Profiles.{IsComplete, validate_profile-IsComplete}

abbrev bind : String → String → String → BindingSnapshot
bind stage contract prompt = record {
  stage_id = stage;
  provider_id = "p";
  provider_type = "t";
  provider_config_fingerprint = "f";
  model_id = "m";
  options = "{}";
  options_hash = "h";
  contract_version = contract;
  prompt_version = prompt;
}

abbrev analysis : BindingSnapshot
analysis = bind "linguistic_analysis" "reader.linguistic.v1" "reader-linguistic-prompt.v3"

abbrev translation : BindingSnapshot
translation = bind "translation" "reader.translation.v1" "reader-translation-prompt.v3"

abbrev profile : ProfileSnapshot
profile = record {
  id = "1";
  name = "n";
  bindings = analysis ∷ translation ∷ [];
  prompt_snapshots = [];
}

-- The encoding keeps the name alone, and the digest is a constant.
abbrev codec : Codec
codec = record {
  json_valid = λ _. true;
  compact = λ s. some s;
  encode = λ p. ascii p.name;
  sum = λ _. "digest";
}

profile_valid : validate_profile codec.json_valid profile ≡ ok tt
unfolding validate_profile
profile_valid = refl

validate_profile-IsComplete_example : IsComplete profile.bindings
validate_profile-IsComplete_example =
    validate_profile-IsComplete codec.json_valid profile profile_valid

hashes : snapshot_hash_of codec profile ≡ ok "digest"
unfolding snapshot_hash_of
hashes = refl
