-- ===== src/Readiness/Records.antt =====
-- The operations of `ReadinessEvidenceStore` of src/echo_veil/readiness_store.py: each loads the
-- record, and writes it back changed.
use echo_veil.Base.{
  Bool, true, false, ◌&&◌, Option, none, some, Result, ok, ◌>>=◌, ◌>>◌, guard, value_error,
  runtime_error, if◌then◌else◌,
}
use echo_veil.Base.Texts.{Text, codes, text_eq}
use echo_veil.Json.{elem}
use echo_veil.Readiness.{Evidence, new_evidence, matches_custody, rollback_tiers}
use echo_veil.Readiness.Authority.{Artifact, HostBoundary}
use echo_veil.Readiness.Store.{
  Backup, Known, Stored, Surroundings, Sealing, same_option, load_record, save, derived_key,
  artifact_is_current, boundary_holds,
}
use echo_veil.Receipts.{Crypto}

-- The match of the host in `evidence`.
unfoldable pub is_host : Option HostBoundary → Option Text → Bool
is_host (some h) (some expected) = text_eq h.host_id expected
is_host h expected = false

-- The digests of a valid artifact and of a valid host boundary.
unfoldable pub artifact_digest_of : Bool → Option Artifact → Option Text
artifact_digest_of true (some a) = some a.authority_id
artifact_digest_of valid a = none

unfoldable pub host_digest_of : Bool → Option HostBoundary → Option Text
host_digest_of true (some h) = some h.authority_id
host_digest_of valid h = none

-- `backup_valid` of `evidence`, for the digests of the current artifact and host boundary.
unfoldable pub backup_valid : Surroundings → Option Text → Option Text → Option Backup → Bool
backup_valid e artifact host none = false
backup_valid e artifact host (some b) =
    text_eq b.key_id e.active_key_id
    && text_eq b.profile_hash e.active_profile_hash
    && same_option b.artifact_digest artifact
    && same_option b.host_authority_digest host

-- `restore_valid` of `evidence`, where the backup is valid.
unfoldable pub restore_valid :
    Surroundings → Option Text → Option Text → Option Backup → Option Backup → Bool
restore_valid e artifact host (some b) (some d) =
    text_eq d.key_id e.active_key_id
    && text_eq d.manifest_sha256 b.manifest_sha256
    && same_option d.artifact_digest artifact
    && same_option d.host_authority_digest host
restore_valid e artifact host b d = false

unfoldable pub rollback_of : Bool → Option Backup → Text
rollback_of true (some b) = b.rollback_detection
rollback_of valid b = codes "none"

unfoldable pub check_host : Option Text → Result (Unit {0})
check_host none = ok tt
check_host (some h) = guard (matches_custody h) value_error

-- `_receipt_record`
unfoldable pub receipt_record : Backup → Result Backup
receipt_record b = guard (elem b.rollback_detection rollback_tiers) value_error >> ok b

-- A receipt with the same manifest.
unfoldable pub same_manifest : Option Backup → Backup → Bool
same_manifest none b = false
same_manifest (some d) b = text_eq d.manifest_sha256 b.manifest_sha256

unfoldable pub same_artifact : Option Artifact → Artifact → Bool
same_artifact none a = false
same_artifact (some p) a = text_eq p.authority_id a.authority_id

module _ ⦃cr : Crypto⦄ where
  unfoldable pub host_valid : Surroundings → Option Text → Bool → Known → Bool
  unfolding is_host
  host_valid e expected require r =
      boundary_holds e r.artifact r.host_boundary
      && (if require then is_host r.host_boundary expected else true)

  -- What `evidence` finds in the record, for the validity of the host boundary.
  unfoldable pub evidence_in : Surroundings → Known → Bool → Evidence
  unfolding artifact_digest_of host_digest_of backup_valid restore_valid rollback_of
  evidence_in e r host =
      let artifact = artifact_is_current e r.artifact in
      let artifact_id = artifact_digest_of artifact r.artifact in
      let host_id = host_digest_of host r.host_boundary in
      let backup = backup_valid e artifact_id host_id r.backup in
      record {
        artifact_verified = artifact;
        backup_verified = backup;
        restore_verified = backup && restore_valid e artifact_id host_id r.backup r.restore;
        host_boundary_verified = host;
        key_custody = e.custody_provider;
        rollback_detection = rollback_of backup r.backup;
      }

  module _ {C : Type 0} ⦃sl : Sealing C⦄ where
    -- `evidence`; the pattern of a host is that of a key custody.
    unfoldable pub evidence :
        Surroundings → Option Text → Bool → Option (Stored C) → Result Evidence
    unfolding check_host derived_key
    evidence e expected require s = do
      check_host expected
      r ← load_record e s
      current ← derived_key e e.active_key_id
      new_evidence (evidence_in e r (host_valid e expected require r))

    -- `authority_digests`
    unfoldable pub authority_digests :
        Surroundings → Option (Stored C) → Result (Option Text × Option Text)
    authority_digests e s = do
      r ← load_record e s
      v ← evidence e none false s
      ok (
        artifact_digest_of v.artifact_verified r.artifact,
        host_digest_of v.host_boundary_verified r.host_boundary,
      )

    -- `_validate_current_receipt`, of a receipt for the envelope version.
    unfoldable pub check_receipt :
        Surroundings → Option (Stored C) → Bool → Backup → Result (Unit {0})
    check_receipt e s v3 b = do
      guard v3 runtime_error
      current ← derived_key e e.active_key_id
      guard (text_eq b.key_id e.active_key_id && text_eq b.profile_hash e.active_profile_hash)
          runtime_error
      digests ← authority_digests e s
      guard
          (same_option b.artifact_digest digests.0 && same_option b.host_authority_digest digests.1)
          runtime_error

    unfoldable pub with_backup : Surroundings → Option (Stored C) → Bool → Backup → Result Known
    unfolding check_receipt receipt_record
    with_backup e s v3 b = do
      check_receipt e s v3 b
      r ← load_record e s
      kept ← receipt_record b
      ok (record r {
        backup = some kept;
        restore = if same_manifest r.restore b then r.restore else none;
      })

    unfoldable pub with_restore : Surroundings → Option (Stored C) → Bool → Backup → Result Known
    unfolding check_receipt receipt_record
    with_restore e s v3 b = do
      check_receipt e s v3 b
      r ← load_record e s
      guard (same_manifest r.backup b) runtime_error
      kept ← receipt_record b
      ok (record r { restore = some kept })

    unfoldable pub with_artifact : Surroundings → Option (Stored C) → Artifact → Result Known
    unfolding same_artifact
    with_artifact e s a = do
      guard (artifact_is_current e (some a)) runtime_error
      r ← load_record e s
      ok (record r {
        artifact = some a;
        host_boundary = if same_artifact r.artifact a then r.host_boundary else none;
      })

    unfoldable pub with_boundary : Surroundings → Option (Stored C) → HostBoundary → Result Known
    with_boundary e s h = do
      r ← load_record e s
      guard (artifact_is_current e r.artifact) runtime_error
      guard (boundary_holds e r.artifact (some h)) runtime_error
      ok (record r { host_boundary = some h })

    -- `record_backup`, `record_restore`, `record_artifact`, `record_host_boundary`
    unfoldable pub record_backup :
        Surroundings → Bool → Backup → Option (Stored C) → Result (Unit {0}) × Option (Stored C)
    unfolding with_backup
    record_backup e v3 b s = save e s (with_backup e s v3 b)

    unfoldable pub record_restore :
        Surroundings → Bool → Backup → Option (Stored C) → Result (Unit {0}) × Option (Stored C)
    unfolding with_restore
    record_restore e v3 b s = save e s (with_restore e s v3 b)

    unfoldable pub record_artifact :
        Surroundings → Artifact → Option (Stored C) → Result (Unit {0}) × Option (Stored C)
    unfolding with_artifact
    record_artifact e a s = save e s (with_artifact e s a)

    unfoldable pub record_host_boundary :
        Surroundings → HostBoundary → Option (Stored C) → Result (Unit {0}) × Option (Stored C)
    unfolding with_boundary
    record_host_boundary e h s = save e s (with_boundary e s h)

    unfoldable pub without_recovery : Surroundings → Option (Stored C) → Result Known
    without_recovery e s = do r ← load_record e s; ok (record r { backup = none; restore = none })

    -- `invalidate_recovery`
    unfoldable pub invalidate_recovery :
        Surroundings → Option (Stored C) → Result (Unit {0}) × Option (Stored C)
    unfolding without_recovery
    invalidate_recovery e none = (ok tt, none)
    invalidate_recovery e (some s) = save e (some s) (without_recovery e (some s))
