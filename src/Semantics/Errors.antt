-- ===== src/Semantics/Errors.antt =====
-- The errors of the validation of internal/semantics/types.go, one for each text that the code
-- formats.
use doublangu.Semantics.Texts.{NormalizeError}
use doublangu.Semantics.Spans.{SpanError}
use doublangu.Semantics.Anchors.{AnchorError}

pub data ResponseError : Type 0 where
  markup control_character too_long : ResponseError
  invalid_kind empty_field form_differs too_many_alternatives : ResponseError
  empty_alternative duplicate_alternative : ResponseError
  not_normalized : NormalizeError → ResponseError
  unknown_candidate candidate_kind candidate_language undefined_ref ref_kind : ResponseError
  no_classification confidence_range two_references unchanged no_reference no_shadow : ResponseError
  copies_source : ResponseError
  unsupported_version token_coverage no_ref duplicate_ref : ResponseError
  unknown_token repeated_token missing_token outside_anchors : ResponseError
  invalid_anchor : AnchorError → ResponseError
  invalid_role construction_kind missing_spans no_tokens extra_span invalid_block : ResponseError
  not_resolved : SpanError → ResponseError
  spans_out_of_order members_out_of_order outside_spans crosses_sentence : ResponseError
  not_one_run too_few_runs omits_token overlap : ResponseError
