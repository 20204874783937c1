-- ===== src/Samples/Responses.antt =====
-- A preflight response, and the theorem of protocol_compat.py's response parsers at it.
use echo_veil.Base.{◌≡◌, refl, true, false, ok, err, value_error}
use echo_veil.Base.Int.{ℤ}
use echo_veil.Base.Texts.{codes, text_eq}
use echo_veil.Json.{Fields, boolean, text, dict, field, end, names, member, elem}
use echo_veil.Receipts.{entry, preflight_receipt_schema}
use echo_veil.Receipts.Claims.{is_true, is_text}
use echo_veil.Readiness.{starts_with}
use echo_veil.Readiness.Parse.{is_false}
use echo_veil.Readiness.Responses.{
  Expected, is_mapping, is_context, binds, is_response, parse_preflight_response,
  parse_legacy_response,
}
use echo_veil.Readiness.Apart.{IsBound, parse_preflight_response-IsBound}

abbrev turn : Expected
turn = record {
  expected_host = codes "codex";
  expected_profile = codes "main";
  expected_scope = codes "repo";
  expected_query_source = codes "hook";
}

-- The same, from another host.
abbrev other_turn : Expected
other_turn = record turn { expected_host = codes "claude" }

abbrev response : Fields ℤ
response = field (codes "authority_id") (text (codes "sha256:00")) (
    field (codes "context") (text (codes "ECHO VEIL REQUIRED MEMORY PREFLIGHT: none")) (
      field (codes "embedding_model_digest") (text (codes "sha256:01")) (
        field (codes "evidence") (dict end) (
          field (codes "host") (text (codes "codex")) (
            field (codes "lifecycle_mutated") (boolean false) (
              field (codes "memory_authority") (text (codes "echo-veil")) (
                field (codes "preflight_ready") (boolean true) (
                  field (codes "profile") (text (codes "main")) (
                    field (codes "query_source") (text (codes "hook")) (
                      field (codes "receipt") (dict end) (
                        field (codes "schema") (text preflight_receipt_schema) (
                          field (codes "scope") (text (codes "repo")) (
                            field (codes "semantic") (boolean true)
                              (field (codes "telemetry") (dict end) end))))))))))))))

response_accepted : parse_preflight_response turn (dict response) ≡ ok response
unfolding parse_preflight_response is_response binds is_mapping is_context is_text is_true is_false
    elem names entry member text_eq starts_with
response_accepted = refl

parse_preflight_response-IsBound_example :
    IsBound turn response × (parse_legacy_response other_turn (dict response) ≡ err value_error)
parse_preflight_response-IsBound_example =
    parse_preflight_response-IsBound turn other_turn (dict response) response response_accepted
