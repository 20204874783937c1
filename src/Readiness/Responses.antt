-- ===== src/Readiness/Responses.antt =====
-- The parsers of the preflight responses in src/echo_veil/protocol_compat.py: the shape of a response
-- before its receipt is verified, and the older unsigned response.
use echo_veil.Base.{
  Bool, true, false, ◌&&◌, ◌||◌, List, [], ◌∷◌, Result, ok, err, value_error, leb, if◌then◌else◌,
  length, all,
}
use echo_veil.Base.Texts.{Text, codes}
use echo_veil.Json.{Value, Fields, text, dict, names, elem, same_set}
use echo_veil.Receipts.{entry, preflight_receipt_schema}
use echo_veil.Receipts.Claims.{is_true, is_text}
use echo_veil.Readiness.{starts_with}
use echo_veil.Readiness.Parse.{is_false}

abbrev pub response_fields : List Text
response_fields =
    codes "authority_id"
    ∷ codes "context"
    ∷ codes "embedding_model_digest"
    ∷ codes "evidence"
    ∷ codes "host"
    ∷ codes "lifecycle_mutated"
    ∷ codes "memory_authority"
    ∷ codes "preflight_ready"
    ∷ codes "profile"
    ∷ codes "query_source"
    ∷ codes "receipt"
    ∷ codes "schema"
    ∷ codes "scope"
    ∷ codes "semantic"
    ∷ codes "telemetry"
    ∷ []

abbrev pub optional_response_fields : List Text
optional_response_fields = codes "broker_transport" ∷ []

abbrev pub legacy_response_fields : List Text
legacy_response_fields =
    codes "context"
    ∷ codes "host"
    ∷ codes "memory_authority"
    ∷ codes "preflight_ready"
    ∷ codes "profile"
    ∷ codes "query_source"
    ∷ codes "scope"
    ∷ codes "semantic"
    ∷ []

-- What the caller of a parser expects.
pub record Expected : Type 0 where
  pub expected_host : Text
  pub expected_profile : Text
  pub expected_scope : Text
  pub expected_query_source : Text

module _ {F : Type 0} where
  -- `isinstance(value, Mapping)`
  unfoldable pub is_mapping : Value F → Bool
  is_mapping (dict fs) = true
  is_mapping value = false

  -- The checks of `context` in both parsers.
  unfoldable pub is_context : Value F → Bool
  is_context (text s) =
      starts_with (codes "ECHO VEIL REQUIRED MEMORY PREFLIGHT") s && leb (length s) 16000
  is_context value = false

  -- The checks of a response that both parsers make.
  unfoldable pub binds : Expected → Fields F → Bool
  binds x r =
      is_true (entry (codes "preflight_ready") r)
      && is_text (codes "echo-veil") (entry (codes "memory_authority") r)
      && is_text x.expected_host (entry (codes "host") r)
      && is_text x.expected_profile (entry (codes "profile") r)
      && is_text x.expected_scope (entry (codes "scope") r)
      && is_text x.expected_query_source (entry (codes "query_source") r)
      && is_true (entry (codes "semantic") r)

  unfoldable pub is_response : Expected → Fields F → Bool
  unfolding binds is_mapping is_context
  is_response x r =
      all (λ k. elem k (names r)) response_fields
      && all (λ k. elem k response_fields || elem k optional_response_fields) (names r)
      && is_text preflight_receipt_schema (entry (codes "schema") r)
      && binds x r
      && is_false (entry (codes "lifecycle_mutated") r)
      && is_mapping (entry (codes "evidence") r)
      && is_mapping (entry (codes "receipt") r)
      && is_mapping (entry (codes "telemetry") r)
      && is_context (entry (codes "context") r)

  unfoldable pub is_legacy_response : Expected → Fields F → Bool
  unfolding binds is_context
  is_legacy_response x r =
      same_set (names r) legacy_response_fields
      && binds x r
      && is_context (entry (codes "context") r)

  -- `parse_preflight_v2_response_shape`
  unfoldable pub parse_preflight_response : Expected → Value F → Result (Fields F)
  unfolding is_response
  parse_preflight_response x (dict r) = if is_response x r then ok r else err value_error
  parse_preflight_response x value = err value_error

  -- `parse_legacy_preflight_response`
  unfoldable pub parse_legacy_response : Expected → Value F → Result (Fields F)
  unfolding is_legacy_response
  parse_legacy_response x (dict r) = if is_legacy_response x r then ok r else err value_error
  parse_legacy_response x value = err value_error
