-- ===== src/Samples/Evidence.antt =====
-- A verified backup, and the theorems of readiness_store.py at it.
use echo_veil.Base.{false, ◌&&◌, [], if◌then◌else◌, ◌≡◌, refl, true, Option, none, some, ok}
use echo_veil.Base.Texts.{Text, codes, text_eq, text_eq_iff}
use echo_veil.Json.{elem}
use echo_veil.Json.Print.{print, sort_keys}
use echo_veil.Receipts.Encoding.{sha256_bytes}
use echo_veil.Readiness.Kept.{IsKeyring}
use echo_veil.Receipts.{Crypto, after_prefix, is_alphanumeric, matches_digest, matches_hex}
use echo_veil.Readiness.{Evidence, new_evidence, matches_custody}
use echo_veil.Readiness.Authority.{
  is_artifact, digests_claims, matches_version, matches_scope_id, optional_artifact,
  optional_boundary, Artifact,
}
use echo_veil.Readiness.Store.{
  Sealing, IsSealing, write, derived_key, unseal, is_envelope, is_small, is_known, is_attached,
  optional_receipt, Backup, Known, Stored, Surroundings, is_receipt, load_record, save,
  optional_digest, binds_artifact, matches_key_id, same_option, artifact_is_current, boundary_holds,
}
use echo_veil.Readiness.Records.{
  record_restore, same_manifest, with_restore, backup_valid, restore_valid, rollback_of, check_host,
  record_backup, record_artifact, with_artifact, with_backup, evidence, check_receipt,
  authority_digests, evidence_in, host_valid, receipt_record, artifact_digest_of, host_digest_of,
}
use echo_veil.Readiness.Kept.{answers_backup}
use echo_veil.Readiness.Recorded.{
  is_small_file, is_readable, Reached, created, installed, backed_up, Reached-load_record,
}
use echo_veil.Readiness.Confirmed.{record_backup-evidence}
use echo_veil.Readiness.Drilled.{IsDrilled, evidence-IsDrilled}

abbrev digest_a : Text
digest_a = codes "sha256:aaaaaaaaaaaaaaaaaaaaaaaaaaaaaaaaaaaaaaaaaaaaaaaaaaaaaaaaaaaaaaaa"

abbrev digest_b : Text
digest_b = codes "sha256:bbbbbbbbbbbbbbbbbbbbbbbbbbbbbbbbbbbbbbbbbbbbbbbbbbbbbbbbbbbbbbbb"

-- A digest that is always the same, and no keys.
instance abbrev constant_digest : Crypto
constant_digest = record {
  hexdigest = λ raw. codes "aaaaaaaaaaaaaaaaaaaaaaaaaaaaaaaaaaaaaaaaaaaaaaaaaaaaaaaaaaaaaaaa";
  public_bytes = λ k. k;
  sign = λ k raw. [];
  verifies = λ k signature raw. false;
  b64encode = λ raw. raw;
  b64decode = λ t. some t;
}

-- A sealed record that shows what it was sealed with.
abbrev Box : Type 0
Box = Text × Text × Text × Known

instance abbrev boxes : Sealing Box
boxes = record {
  seal = λ k key_id scope_id nonce r. (k, key_id, scope_id, r);
  open_sealed = λ k key_id scope_id c.
      if text_eq c.0 k && text_eq c.1 key_id && text_eq c.2 scope_id then some c.3 else none;
  size = λ key_id scope_id c. 2000;
}

same_text : (t : Text) → text_eq t t ≡ true
same_text t = (text_eq_iff t t).1 refl

boxes-IsSealing : IsSealing boxes
boxes-IsSealing = record {
  opens = λ k key_id scope_id nonce r. rw (same_text k, same_text key_id, same_text scope_id) refl;
}

abbrev one_key : Text → Text
one_key key_id = codes "k"

-- An installation that verifies.
abbrev here : Surroundings
here = record {
  envelope_v3 = true;
  active_key_id = codes "ev-0123456789abcdef";
  active_scope_id = codes "scope-00000000000000000000000000000000";
  active_profile_hash = digest_b;
  key_of = λ key_id. some (one_key key_id);
  nonce = [];
  custody_provider = codes "file-v1";
  current_time = 100;
  installed = some digest_a;
  preflight_authority = some digest_b;
}

abbrev wheel : Artifact
wheel = record {
  authority_id = digest_a;
  wheel_sha256 = digest_b;
  installed_source_sha256 = digest_b;
  version = codes "1.0.0";
  installed_files_verified = 40;
  agent_console_body_sha256 = digest_b;
  hook_console_body_sha256 = digest_b;
  runner_console_body_sha256 = digest_b;
  verified_at = 80;
}

abbrev backup_a : Backup
backup_a = record {
  backup_id = codes "00000000000000000000000000000001";
  generation = 1;
  manifest_sha256 = digest_a;
  profile_hash = digest_b;
  key_id = codes "ev-0123456789abcdef";
  rollback_detection = codes "local-best-effort";
  record_count = 3;
  artifact_digest = some digest_a;
  host_authority_digest = none;
  verified_at = 90;
}

here-IsKeyring : IsKeyring (codes "scope-00000000000000000000000000000000") one_key here
unfolding matches_key_id matches_hex
here-IsKeyring = record { own_scope = refl; key_form = refl; own_keys = λ key_id k h. cc h }

scope_form : matches_scope_id here.active_scope_id ≡ true
unfolding matches_scope_id after_prefix matches_hex
scope_form = refl

abbrev with_wheel : Option (Stored Box)
with_wheel = (record_artifact here wheel none).1

wheel-Reached : Reached here.active_scope_id one_key with_wheel
wheel-Reached = installed here wheel here-IsKeyring created

backup_a_valid : is_receipt backup_a ≡ true
unfolding is_receipt optional_digest binds_artifact matches_key_id matches_digest matches_hex elem
    text_eq
backup_a_valid = refl

backup_a_recorded : (record_backup here true backup_a with_wheel).0 ≡ ok tt
unfolding record_backup with_backup record_artifact with_artifact evidence check_receipt
    authority_digests evidence_in host_valid receipt_record artifact_digest_of host_digest_of save
    load_record same_option new_evidence matches_custody elem text_eq artifact_is_current
    boundary_holds write derived_key unseal is_envelope is_small is_artifact digests_claims
    matches_version matches_scope_id after_prefix is_alphanumeric is_known optional_artifact
    optional_boundary optional_receipt is_attached is_receipt optional_digest binds_artifact
    matches_key_id matches_digest matches_hex print sort_keys sha256_bytes check_host
backup_a_recorded = refl

backup_a_small : is_small_file (record_backup here true backup_a with_wheel).1 ≡ true
unfolding is_small_file record_backup with_backup record_artifact with_artifact evidence
    check_receipt authority_digests evidence_in host_valid receipt_record artifact_digest_of
    host_digest_of save load_record same_option new_evidence matches_custody elem text_eq
    artifact_is_current boundary_holds write derived_key unseal is_envelope is_small is_artifact
    digests_claims matches_version matches_scope_id after_prefix is_alphanumeric is_known
    optional_artifact optional_boundary optional_receipt is_attached is_receipt optional_digest
    binds_artifact matches_key_id matches_digest matches_hex print sort_keys sha256_bytes check_host
backup_a_small = refl

backup_a_readable : is_readable here (record_backup here true backup_a with_wheel).1 ≡ true
unfolding is_readable record_backup with_backup record_artifact with_artifact evidence check_receipt
    authority_digests evidence_in host_valid receipt_record artifact_digest_of host_digest_of save
    load_record same_option new_evidence matches_custody elem text_eq artifact_is_current
    boundary_holds write derived_key unseal is_envelope is_small is_artifact digests_claims
    matches_version matches_scope_id after_prefix is_alphanumeric is_known optional_artifact
    optional_boundary optional_receipt is_attached is_receipt optional_digest binds_artifact
    matches_key_id matches_digest matches_hex print sort_keys sha256_bytes check_host
backup_a_readable = refl

record_backup-evidence_example :
    (v : Evidence) × (evidence here none false (record_backup here true backup_a with_wheel).1
      ≡ ok v)
    × (v.backup_verified ≡ true)
    × (v.rollback_detection ≡ codes "local-best-effort")
record_backup-evidence_example =
    record_backup-evidence boxes-IsSealing here.active_scope_id one_key with_wheel here true
      backup_a scope_form wheel-Reached here-IsKeyring backup_a_valid backup_a_recorded
      backup_a_small

Reached-load_record_example :
    (r : Known) × (load_record here (record_backup here true backup_a with_wheel).1 ≡ ok r)
    × (answers_backup r.backup r.restore ≡ true)
Reached-load_record_example =
    Reached-load_record boxes-IsSealing here.active_scope_id one_key here scope_form
      (backed_up here true backup_a here-IsKeyring backup_a_valid wheel-Reached) here-IsKeyring refl
      backup_a_readable

-- The same backup, restored.
abbrev with_drill : Option (Stored Box)
with_drill = (record_restore here true backup_a (record_backup here true backup_a with_wheel).1).1

abbrev drilled_evidence : Evidence
drilled_evidence = record {
  artifact_verified = true;
  backup_verified = true;
  restore_verified = true;
  host_boundary_verified = false;
  key_custody = codes "file-v1";
  rollback_detection = codes "local-best-effort";
}

drilled_evidence_found : evidence here none false with_drill ≡ ok drilled_evidence
unfolding record_backup with_backup record_artifact with_artifact evidence check_receipt
    record_restore with_restore backup_valid restore_valid rollback_of check_host is_known
    is_attached optional_receipt is_receipt optional_digest binds_artifact matches_key_id
    matches_digest matches_hex load_record save text_eq authority_digests artifact_is_current
    new_evidence evidence_in host_valid boundary_holds same_manifest receipt_record
    artifact_digest_of host_digest_of same_option matches_custody elem write derived_key unseal
    is_envelope is_small is_artifact digests_claims matches_version matches_scope_id after_prefix
    is_alphanumeric optional_artifact optional_boundary print sort_keys sha256_bytes
drilled_evidence_found = refl

evidence-IsDrilled_example :
    (drilled_evidence.backup_verified ≡ true)
    × ((r : Known) × (load_record here with_drill ≡ ok r)
        × IsDrilled here.active_key_id r.backup r.restore)
evidence-IsDrilled_example =
    evidence-IsDrilled here none false with_drill drilled_evidence drilled_evidence_found refl
