-- ===== src/Readiness.antt =====
-- src/echo_veil/local_readiness.py: the readiness report of a local deployment. It validates itself
-- with `parse_capabilities_v1` of src/echo_veil/protocol_compat.py, which stands in Parse; the other
-- parsers of that module stand in Responses.
pub mod Parse
pub mod Report
pub mod Responses
pub mod Authority
pub mod Store
pub mod Records
pub mod Kept
pub mod Written
pub mod Recorded
pub mod Confirmed
pub mod Drilled
pub mod Facts
pub mod Tiers
pub mod Apart
pub mod Shape
pub mod Consistent
pub mod Accepts
pub mod Honest
use echo_veil.Base.{
  ℕ, Bool, true, false, not, ◌&&◌, ◌||◌, List, [], ◌∷◌, Result, ok, err, ◌>>=◌, ◌>>◌, guard,
  value_error, leb, eqb, if◌then◌else◌, length, all,
}
use echo_veil.Base.Texts.{Text, codes, text_eq}
use echo_veil.Json.{elem}

abbrev pub local_production_mode : Text
local_production_mode = codes "local-production"

abbrev pub deployment_modes : List Text
deployment_modes =
    codes "local-staging"
    ∷ codes "local-production"
    ∷ codes "legacy-migration-only"
    ∷ codes "offline-read-only"
    ∷ []

abbrev pub rollback_tiers : List Text
rollback_tiers = codes "none" ∷ codes "local-best-effort" ∷ codes "external-monotonic" ∷ []

abbrev pub qualified_local_key_custody : Text
qualified_local_key_custody = codes "macos-secure-enclave-v1"

unfoldable pub is_lower_alphanumeric : ℕ → Bool
is_lower_alphanumeric c = (leb b'a' c && leb c b'z') || (leb b'0' c && leb c b'9')

-- `_KEY_CUSTODY_PATTERN.fullmatch`
unfoldable pub matches_custody : Text → Bool
unfolding is_lower_alphanumeric
matches_custody [] = false
matches_custody (c ∷ s) =
    is_lower_alphanumeric c
    && all (λ d. is_lower_alphanumeric d || eqb d b'-') s
    && leb (length s) 63

-- `LocalReadinessEvidence`, whose flags are bools.
pub record Evidence : Type 0 where
  pub artifact_verified : Bool
  pub backup_verified : Bool
  pub restore_verified : Bool
  pub host_boundary_verified : Bool
  pub key_custody : Text
  pub rollback_detection : Text

-- `LocalReadinessState`, whose flags are bools and whose counts are not negative.
pub record State : Type 0 where
  pub configured_mode : Text
  pub implementation_healthy : Bool
  pub at_rest_encrypted : Bool
  pub protected_semantic_state : Bool
  pub embedding_identity_verified : Bool
  pub profile_access_verified : Bool
  pub reconciliation_backlog : ℕ
  pub quarantined_records : ℕ
  pub plaintext_fallback_attempts : ℕ
  pub key_migration_complete : Bool
  pub model_available : Bool
  pub evidence : Evidence
  pub storage_healthy : Bool
  pub enclave_production_ready : Bool
  pub hardware_isolated : Bool
  pub remotely_attested : Bool
  pub host_compromise_protected : Bool

-- `LocalReadinessEvidence.__post_init__`
unfoldable pub new_evidence : Evidence → Result Evidence
unfolding matches_custody elem
new_evidence e = do
  guard (matches_custody e.key_custody) value_error
  guard (elem e.rollback_detection rollback_tiers) value_error
  ok e

-- `LocalReadinessState.__post_init__`, after that of its evidence.
unfoldable pub new_state : State → Result State
unfolding elem
new_state s = do
  e ← new_evidence s.evidence
  guard (elem s.configured_mode deployment_modes) value_error
  ok s

-- The checks of `_readiness_failures`, each with its code.
unfoldable pub readiness_checks : State → List (Bool × Text)
readiness_checks s =
    (text_eq s.configured_mode local_production_mode, codes "EV-LOCAL-MODE-NOT-CONFIGURED")
    ∷ (s.implementation_healthy, codes "EV-IMPLEMENTATION-UNHEALTHY")
    ∷ (s.at_rest_encrypted, codes "EV-AT-REST-UNPROTECTED")
    ∷ (s.protected_semantic_state, codes "EV-PROTECTED-STATE-INCOMPLETE")
    ∷ (s.embedding_identity_verified, codes "EV-EMBEDDING-IDENTITY-UNVERIFIED")
    ∷ (s.profile_access_verified, codes "EV-PROFILE-ACCESS-UNVERIFIED")
    ∷ (s.evidence.artifact_verified, codes "EV-ARTIFACT-UNVERIFIED")
    ∷ (s.evidence.backup_verified, codes "EV-BACKUP-UNVERIFIED")
    ∷ (s.evidence.restore_verified, codes "EV-RESTORE-UNVERIFIED")
    ∷ (s.evidence.host_boundary_verified, codes "EV-HOST-BOUNDARY-UNVERIFIED")
    ∷ (
      text_eq s.evidence.key_custody qualified_local_key_custody,
      codes "EV-KEY-CUSTODY-UNQUALIFIED",
    )
    ∷ (eqb s.reconciliation_backlog 0, codes "EV-RECONCILIATION-PENDING")
    ∷ (eqb s.quarantined_records 0, codes "EV-QUARANTINE-NONEMPTY")
    ∷ (eqb s.plaintext_fallback_attempts 0, codes "EV-PLAINTEXT-FALLBACK")
    ∷ (s.key_migration_complete, codes "EV-KEY-MIGRATION-INCOMPLETE")
    ∷ (s.model_available, codes "EV-MODEL-UNAVAILABLE")
    ∷ (s.storage_healthy, codes "EV-STORAGE-CAPACITY")
    ∷ []

unfoldable pub failed : List (Bool × Text) → List Text
failed [] = []
failed ((passed, code) ∷ checks) = let rest = failed checks in if passed then rest else code ∷ rest

-- `_readiness_failures`
unfoldable pub readiness_failures : State → List Text
unfolding readiness_checks failed
readiness_failures s = failed (readiness_checks s)

-- `text.startswith(prefix)`
unfoldable pub starts_with : Text → Text → Bool
starts_with [] s = true
starts_with (c ∷ p) [] = false
starts_with (c ∷ p) (d ∷ s) = eqb c d && starts_with p s

-- `enclave_ready` of `build_capabilities_v1`
unfoldable pub is_enclave_ready : State → Bool
unfolding starts_with
is_enclave_ready s =
    s.enclave_production_ready
    && s.implementation_healthy
    && s.at_rest_encrypted
    && s.protected_semantic_state
    && s.embedding_identity_verified
    && s.profile_access_verified
    && s.evidence.artifact_verified
    && s.evidence.backup_verified
    && s.evidence.restore_verified
    && s.evidence.host_boundary_verified
    && eqb s.reconciliation_backlog 0
    && eqb s.quarantined_records 0
    && eqb s.plaintext_fallback_attempts 0
    && s.key_migration_complete
    && s.model_available
    && s.storage_healthy
    && s.hardware_isolated
    && s.remotely_attested
    && s.host_compromise_protected
    && starts_with (codes "attested-") s.evidence.key_custody
