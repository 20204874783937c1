-- ===== src/Samples/Readings.antt =====
-- The readiness report of local_readiness.py for a state, and its theorems at it.
use echo_veil.Base.{◌≡◌, ◌↔◌, refl, true, false, [], ok}
use echo_veil.Base.Int.{ℤ}
use echo_veil.Base.Texts.{codes, text_eq}
use echo_veil.Json.{Fields, dict, elem}
use echo_veil.Receipts.{entry}
use echo_veil.Receipts.Claims.{is_true}
use echo_veil.Readiness.{
  State, new_state, new_evidence, matches_custody, readiness_failures, is_enclave_ready,
}
use echo_veil.Readiness.Report.{report, build_capabilities}
use echo_veil.Readiness.Accepts.{build_capabilities-report, report_parses}
use echo_veil.Readiness.Honest.{IsHonest, parse_capabilities-IsHonest}

-- Everything verified, and no enclave.
abbrev verified : State
verified = record {
  configured_mode = codes "local-production";
  implementation_healthy = true;
  at_rest_encrypted = true;
  protected_semantic_state = true;
  embedding_identity_verified = true;
  profile_access_verified = true;
  reconciliation_backlog = 0;
  quarantined_records = 0;
  plaintext_fallback_attempts = 0;
  key_migration_complete = true;
  model_available = true;
  evidence = record {
    artifact_verified = true;
    backup_verified = true;
    restore_verified = true;
    host_boundary_verified = true;
    key_custody = codes "macos-secure-enclave-v1";
    rollback_detection = codes "none";
  };
  storage_healthy = true;
  enclave_production_ready = false;
  hardware_isolated = false;
  remotely_attested = false;
  host_compromise_protected = false;
}

verified_valid : new_state verified ≡ ok verified
unfolding new_state new_evidence matches_custody elem text_eq
verified_valid = refl

build_capabilities-report_example :
    (c : Fields ℤ) × (build_capabilities verified ≡ ok c)
    × ((is_true (entry (codes "local_production_ready") c) ≡ true)
        ↔ ((readiness_failures verified ≡ []) × (is_enclave_ready verified ≡ false)))
    × (is_true (entry (codes "production_ready") c) ≡ is_enclave_ready verified)
build_capabilities-report_example = build_capabilities-report verified verified_valid

parse_capabilities-IsHonest_example : IsHonest {F = ℤ} (report verified)
parse_capabilities-IsHonest_example =
    parse_capabilities-IsHonest (dict (report verified)) (report verified)
      (report_parses verified verified_valid)
