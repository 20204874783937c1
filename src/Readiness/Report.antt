-- ===== src/Readiness/Report.antt =====
-- `build_capabilities_v1` of src/echo_veil/local_readiness.py.
use echo_veil.Base.{
  Bool, true, false, not, ◌&&◌, List, [], ◌∷◌, map, Option, none, some, Result, ok, err,
  runtime_error, eqb, if◌then◌else◌, length,
}
use echo_veil.Base.Texts.{Text, codes, text_eq}
use echo_veil.Json.{Value, Fields, boolean, text, seq, dict, field, end, to_items}
use echo_veil.Readiness.{State, readiness_failures, is_enclave_ready, local_production_mode}
use echo_veil.Readiness.Parse.{capabilities_schema, parse_capabilities}

-- Which of the protection classes is active.
unfoldable pub is_local_ready : State → Bool
is_local_ready s = eqb (length (readiness_failures s)) 0 && not (is_enclave_ready s)

unfoldable pub protection_tier : State → Text
protection_tier s =
    if is_enclave_ready s
    then codes "attested-enclave"
    else if is_local_ready s
    then codes "host-trusted-local"
    else if text_eq s.configured_mode local_production_mode
    then codes "local-production-blocked"
    else s.configured_mode

unfoldable pub runtime_exposure : Bool → Text
runtime_exposure true = codes "attested-enclave-boundary"
runtime_exposure false = codes "transient-process-memory"

unfoldable pub limitations : Bool → List Text
limitations true = []
limitations false =
    codes "No hardware-isolated execution boundary is active."
    ∷ codes "No remote attestation is active."
    ∷ codes "A compromised host account or process can access runtime plaintext."
    ∷ []

module _ {F : Type 0} where
  unfoldable pub texts : List Text → Value F
  texts ss = seq (to_items (map text ss))

  -- The rest of the report, from the evidence on.
  unfoldable pub report_evidence : State → Bool → Fields F
  unfolding texts
  report_evidence s enclave =
      field (codes "artifact_verified") (boolean s.evidence.artifact_verified) (
        field (codes "backup_verified") (boolean s.evidence.backup_verified) (
          field (codes "restore_verified") (boolean s.evidence.restore_verified) (
            field (codes "rollback_detection") (text s.evidence.rollback_detection) (
              field (codes "host_boundary_verified") (boolean s.evidence.host_boundary_verified) (
                field (codes "key_custody") (text s.evidence.key_custody) (
                  field (codes "embedding_identity_verified")
                    (boolean s.embedding_identity_verified)
                    (field (codes "remediation_codes")
                      (texts (if enclave then [] else readiness_failures s))
                      (field (codes "limitations") (texts (limitations enclave)) end))))))))

  -- The report before its self-validation.
  unfoldable pub report : State → Fields F
  unfolding report_evidence
  report s =
      let enclave = is_enclave_ready s in
      field (codes "schema") (text capabilities_schema) (
        field (codes "implementation_healthy") (boolean s.implementation_healthy) (
          field (codes "local_production_ready") (boolean (is_local_ready s)) (
            field (codes "production_ready") (boolean enclave) (
              field (codes "protection_tier") (text (protection_tier s)) (
                field (codes "at_rest_encrypted") (boolean s.at_rest_encrypted) (
                  field (codes "runtime_plaintext_exposure") (text (runtime_exposure enclave)) (
                    field (codes "hardware_isolated") (boolean enclave) (
                      field (codes "remotely_attested") (boolean enclave) (
                        field (codes "host_compromise_protected") (boolean enclave)
                          (report_evidence s enclave))))))))))

  unfoldable pub validated : Result (Option (Fields F)) → Result (Fields F)
  validated (err e) = err e
  validated (ok none) = err runtime_error
  validated (ok (some c)) = ok c

  -- `build_capabilities_v1`; the AssertionError of a report that parses to `None` counts as a
  -- RuntimeError.
  unfoldable pub build_capabilities : State → Result (Fields F)
  unfolding validated report
  build_capabilities s = validated (parse_capabilities (dict (report s)))
