-- ===== src/Readiness/Parse.antt =====
-- `parse_capabilities_v1` of src/echo_veil/protocol_compat.py: the readiness report as a host reads it.
use echo_veil.Base.{
  Bool, true, false, not, ◌&&◌, ◌||◌, List, [], ◌∷◌, Option, none, some, Result, ok, err,
  value_error, leb, ltb, if◌then◌else◌, length, all,
}
use echo_veil.Base.Int.{pos}
use echo_veil.Base.Texts.{Text, codes}
use echo_veil.Json.{
  Value, Fields, null, boolean, integer, text, seq, dict, member, names, elem, items,
}
use echo_veil.Receipts.{entry}
use echo_veil.Receipts.Claims.{is_true, is_text, is_null}
use echo_veil.Readiness.{starts_with}

abbrev pub capabilities_schema : Text
capabilities_schema = codes "echo-veil-capabilities-v1"

abbrev pub boolean_fields : List Text
boolean_fields =
    codes "artifact_verified"
    ∷ codes "at_rest_encrypted"
    ∷ codes "backup_verified"
    ∷ codes "embedding_identity_verified"
    ∷ codes "hardware_isolated"
    ∷ codes "host_boundary_verified"
    ∷ codes "host_compromise_protected"
    ∷ codes "implementation_healthy"
    ∷ codes "local_production_ready"
    ∷ codes "production_ready"
    ∷ codes "remotely_attested"
    ∷ codes "restore_verified"
    ∷ []

abbrev pub text_fields : List Text
text_fields =
    codes "key_custody"
    ∷ codes "protection_tier"
    ∷ codes "rollback_detection"
    ∷ codes "runtime_plaintext_exposure"
    ∷ []

abbrev pub required_fields : List Text
required_fields =
    codes "artifact_verified"
    ∷ codes "at_rest_encrypted"
    ∷ codes "backup_verified"
    ∷ codes "embedding_identity_verified"
    ∷ codes "hardware_isolated"
    ∷ codes "host_boundary_verified"
    ∷ codes "host_compromise_protected"
    ∷ codes "implementation_healthy"
    ∷ codes "key_custody"
    ∷ codes "local_production_ready"
    ∷ codes "production_ready"
    ∷ codes "protection_tier"
    ∷ codes "remotely_attested"
    ∷ codes "restore_verified"
    ∷ codes "rollback_detection"
    ∷ codes "runtime_plaintext_exposure"
    ∷ codes "schema"
    ∷ []

abbrev pub optional_fields : List Text
optional_fields = codes "generated_at_ms" ∷ codes "limitations" ∷ codes "remediation_codes" ∷ []

abbrev pub common_fields : List Text
common_fields =
    codes "artifact_verified"
    ∷ codes "at_rest_encrypted"
    ∷ codes "backup_verified"
    ∷ codes "embedding_identity_verified"
    ∷ codes "host_boundary_verified"
    ∷ codes "implementation_healthy"
    ∷ codes "restore_verified"
    ∷ []

module _ {F : Type 0} where
  unfoldable pub is_boolean : Value F → Bool
  is_boolean (boolean b) = true
  is_boolean value = false

  -- `value is False`
  unfoldable pub is_false : Value F → Bool
  is_false (boolean b) = not b
  is_false value = false

  -- `_bounded_text` with its maximum of 256
  unfoldable pub is_bounded : Value F → Bool
  is_bounded (text s) = ltb 0 (length s) && leb (length s) 256
  is_bounded value = false

  -- `_bounded_string_list`; a report is JSON, so that a `seq` is a list.
  unfoldable pub is_bounded_list : Value F → Bool
  unfolding is_bounded
  is_bounded_list (seq vs) = leb (length (items vs)) 64 && all is_bounded (items vs)
  is_bounded_list value = false

  unfoldable pub is_time : Value F → Bool
  is_time (integer (pos n)) = true
  is_time value = false

  -- `value == []`
  unfoldable pub is_empty_list : Value F → Bool
  is_empty_list (seq vs) = leb (length (items vs)) 0
  is_empty_list value = false

  unfoldable pub starts_text : Text → Value F → Bool
  starts_text p (text s) = starts_with p s
  starts_text p value = false

  -- A check of a field where the field is there.
  unfoldable pub optionally : (Value F → Bool) → Option (Value F) → Bool
  optionally test none = true
  optionally test (some v) = test v

  unfoldable pub common_ready : Fields F → Bool
  common_ready c = all (λ k. is_true (entry k c)) common_fields

  unfoldable pub no_remediations : Fields F → Bool
  unfolding is_empty_list
  no_remediations c =
      is_null (entry (codes "remediation_codes") c)
      || is_empty_list (entry (codes "remediation_codes") c)

  unfoldable pub local_consistent : Fields F → Bool
  unfolding is_false
  local_consistent c =
      common_ready c
      && is_text (codes "host-trusted-local") (entry (codes "protection_tier") c)
      && is_text (codes "transient-process-memory") (entry (codes "runtime_plaintext_exposure") c)
      && is_text (codes "macos-secure-enclave-v1") (entry (codes "key_custody") c)
      && is_false (entry (codes "hardware_isolated") c)
      && is_false (entry (codes "remotely_attested") c)
      && is_false (entry (codes "host_compromise_protected") c)
      && no_remediations c

  unfoldable pub enclave_consistent : Fields F → Bool
  unfolding starts_text
  enclave_consistent c =
      common_ready c
      && is_text (codes "attested-enclave") (entry (codes "protection_tier") c)
      && is_text (codes "attested-enclave-boundary") (entry (codes "runtime_plaintext_exposure") c)
      && starts_text (codes "attested-") (entry (codes "key_custody") c)
      && is_true (entry (codes "hardware_isolated") c)
      && is_true (entry (codes "remotely_attested") c)
      && is_true (entry (codes "host_compromise_protected") c)
      && no_remediations c

  unfoldable pub blocked_consistent : Fields F → Bool
  unfolding is_false
  blocked_consistent c =
      not (
        is_text (codes "host-trusted-local") (entry (codes "protection_tier") c)
        || is_text (codes "attested-enclave") (entry (codes "protection_tier") c))
      && is_false (entry (codes "hardware_isolated") c)
      && is_false (entry (codes "remotely_attested") c)
      && is_false (entry (codes "host_compromise_protected") c)

  -- `_capabilities_semantically_consistent`
  unfoldable pub is_consistent : Fields F → Bool
  is_consistent c =
      let local_ready = is_true (entry (codes "local_production_ready") c) in
      let enclave_ready = is_true (entry (codes "production_ready") c) in
      if local_ready && enclave_ready
      then false
      else if local_ready
      then local_consistent c
      else if enclave_ready
      then enclave_consistent c
      else blocked_consistent c

  -- The fields that a report must and may have.
  unfoldable pub has_fields : Fields F → Bool
  unfolding elem names
  has_fields c =
      all (λ k. elem k (names c)) required_fields
      && all (λ k. elem k required_fields || elem k optional_fields) (names c)

  -- The checks of `parse_capabilities_v1` on a mapping.
  unfoldable pub is_report : Fields F → Bool
  unfolding is_boolean is_bounded is_bounded_list is_time optionally
  is_report c =
      has_fields c
      && is_text capabilities_schema (entry (codes "schema") c)
      && all (λ k. is_boolean (entry k c)) boolean_fields
      && all (λ k. is_bounded (entry k c)) text_fields
      && optionally is_time (member (codes "generated_at_ms") c)
      && optionally is_bounded_list (member (codes "limitations") c)
      && optionally is_bounded_list (member (codes "remediation_codes") c)
      && is_consistent c

  -- `parse_capabilities_v1`: no report, or a valid one.
  unfoldable pub parse_capabilities : Value F → Result (Option (Fields F))
  unfolding is_report
  parse_capabilities null = ok none
  parse_capabilities (dict c) = if is_report c then ok (some c) else err value_error
  parse_capabilities value = err value_error
