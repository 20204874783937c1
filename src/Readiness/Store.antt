-- ===== src/Readiness/Store.antt =====
-- `ReadinessEvidenceStore` of src/echo_veil/readiness_store.py: the verified evidence of a profile.
-- The file is the key id and the scope of its envelope, and the sealed record: its JSON text under
-- AES-GCM, whose associated data are the two. A `ReadinessEvidenceError`, a `KeyUnavailable` and a
-- `LocalAuthorityError` are RuntimeErrors, and so count the errors of reading the file.
use echo_veil.Base.{
  ℕ, ◌≡◌, Bool, true, false, ◌&&◌, ◌∷◌, Option, none, some, Result, ok, err, ◌>>=◌, ◌>>◌, guard,
  runtime_error, leb, ltb, eqb, if◌then◌else◌,
}
use echo_veil.Base.Floats.{fixed_point}
use echo_veil.Base.Texts.{Text, text_eq}
use echo_veil.Json.{elem}
use echo_veil.Receipts.{Bytes, Crypto, matches_hex, matches_digest}
use echo_veil.Readiness.Authority.{
  Artifact, HostBoundary, matches_scope_id, is_artifact, is_boundary, optional_artifact,
  optional_boundary,
}
use echo_veil.Readiness.{rollback_tiers}

-- What `_receipt_record` keeps of a verified backup.
pub record Backup : Type 0 where
  pub backup_id : Text
  pub generation : ℕ
  pub manifest_sha256 : Text
  pub profile_hash : Text
  pub key_id : Text
  pub rollback_detection : Text
  pub record_count : ℕ
  pub artifact_digest : Option Text
  pub host_authority_digest : Option Text
  pub verified_at : ℕ

-- The record that the file protects.
pub record Known : Type 0 where
  pub artifact : Option Artifact
  pub backup : Option Backup
  pub host_boundary : Option HostBoundary
  pub restore : Option Backup

-- The JSON text of a record under AES-GCM, with its encoding in the file: the key, the key id and the
-- scope of the associated data, the nonce and the record. Opening takes the key and the associated data
-- of the reader, and finds nothing where the authentication or the JSON text is wrong. `size` counts
-- the bytes of the file.
pub record Sealing (C : Type 0) : Type 0 where
  pub seal : Text → Text → Text → Bytes → Known → C
  pub open_sealed : Text → Text → Text → C → Option Known
  pub size : Text → Text → C → ℕ

-- What AES-GCM and JSON promise: what was sealed opens under the same key and associated data.
pub record IsSealing {C : Type 0} (sl : Sealing C) : Type 0 where
  pub opens :
      (key key_id scope_id : Text) (nonce : Bytes) (r : Known)
      → sl.open_sealed key key_id scope_id (sl.seal key key_id scope_id nonce r) ≡ some r

pub record Stored (C : Type 0) : Type 0 where
  pub key_id : Text
  pub scope_id : Text
  pub sealed : C

-- What a call finds around it: the keyring, with the key that `_key` derives for a key id or none where
-- it raises; random bytes; the clock; the digest of the installed artifact where it verifies; and the
-- identity of the receipt authority, or none where opening it raises, which counts as a RuntimeError.
pub record Surroundings : Type 0 where
  pub envelope_v3 : Bool
  pub active_key_id : Text
  pub active_scope_id : Text
  pub active_profile_hash : Text
  pub key_of : Text → Option Text
  pub custody_provider : Text
  pub nonce : Bytes
  pub current_time : ℕ
  pub installed : Option Text
  pub preflight_authority : Option Text

-- `_empty_record`
abbrev pub empty_record : Known
empty_record = record { artifact = none; backup = none; host_boundary = none; restore = none }

unfoldable pub same_option : Option Text → Option Text → Bool
same_option none none = true
same_option (some a) (some b) = text_eq a b
same_option a b = false

-- `_KEY_ID`
unfoldable pub matches_key_id : Text → Bool
matches_key_id (e ∷ v ∷ d ∷ s) = eqb e b'e' && eqb v b'v' && eqb d b'-' && matches_hex 16 s
matches_key_id s = false

unfoldable pub optional_digest : Option Text → Bool
optional_digest none = true
optional_digest (some d) = matches_digest d

-- A host authority comes with an artifact.
unfoldable pub binds_artifact : Option Text → Option Text → Bool
binds_artifact (some h) none = false
binds_artifact host artifact = true

-- `_validate_receipt_record`, on fields of the right types.
unfoldable pub is_receipt : Backup → Bool
unfolding matches_key_id optional_digest binds_artifact elem
is_receipt b =
    matches_hex 32 b.backup_id
    && matches_key_id b.key_id
    && matches_digest b.manifest_sha256
    && matches_digest b.profile_hash
    && elem b.rollback_detection rollback_tiers
    && optional_digest b.artifact_digest
    && optional_digest b.host_authority_digest
    && binds_artifact b.host_authority_digest b.artifact_digest

unfoldable pub optional_receipt : Option Backup → Bool
unfolding is_receipt
optional_receipt none = true
optional_receipt (some b) = is_receipt b

-- A host boundary stands with the artifact that it names.
unfoldable pub is_attached : Option Artifact → Option HostBoundary → Bool
is_attached a none = true
is_attached none (some h) = false
is_attached (some a) (some h) = text_eq a.authority_id h.echo_artifact_authority_id

module _ ⦃cr : Crypto⦄ where
  -- What `load_record` asks of the record.
  unfoldable pub is_known : Known → Bool
  unfolding optional_receipt is_attached optional_artifact optional_boundary
  is_known r =
      optional_artifact r.artifact
      && optional_boundary r.host_boundary
      && is_attached r.artifact r.host_boundary
      && optional_receipt r.backup
      && optional_receipt r.restore

  -- `artifact_record_is_current` of local_authority.py
  unfoldable pub artifact_is_current : Surroundings → Option Artifact → Bool
  unfolding same_option is_artifact
  artifact_is_current e none = false
  artifact_is_current e (some a) = is_artifact a && same_option (some a.authority_id) e.installed

  -- `host_boundary_record_is_current` of local_authority.py, where the bindings of the host are known.
  unfoldable pub host_is_current : Surroundings → Text → Option Text → HostBoundary → Bool
  unfolding is_boundary
  host_is_current e artifact none h = false
  host_is_current e artifact (some authority) h =
      is_boundary h
      && matches_digest artifact
      && matches_digest authority
      && matches_digest e.active_profile_hash
      && leb h.verified_at e.current_time
      && ltb e.current_time h.expires_at
      && text_eq h.echo_artifact_authority_id artifact
      && text_eq h.preflight_authority_id authority
      && text_eq h.profile_hash e.active_profile_hash
      && text_eq h.scope_id e.active_scope_id

  -- `host_valid` of `evidence`, before the match of the host.
  unfoldable pub boundary_holds : Surroundings → Option Artifact → Option HostBoundary → Bool
  unfolding artifact_is_current host_is_current
  boundary_holds e (some a) (some h) =
      artifact_is_current e (some a) && host_is_current e a.authority_id e.preflight_authority h
  boundary_holds e a h = false

-- `_key`: the key of a key id, which a keyring may have retired.
unfoldable pub derived_key : Surroundings → Text → Result Text
derived_key e key_id = elim (e.key_of key_id) [ none ↦ err runtime_error | some k ↦ ok k ]

module _ {C : Type 0} ⦃sl : Sealing C⦄ where
  -- The decryption and the JSON text in `load_record`.
  unfoldable pub unseal : Stored C → Text → Result Known
  unseal s k = elim (sl.open_sealed k s.key_id s.scope_id s.sealed) [
    | none ↦ err runtime_error
    | some r ↦ ok r
  ]

  -- The envelope, past its JSON text.
  unfoldable pub is_envelope : Surroundings → Stored C → Bool
  unfolding matches_key_id matches_scope_id
  is_envelope e s =
      matches_key_id s.key_id && matches_scope_id s.scope_id && text_eq s.scope_id e.active_scope_id

  -- The size that the reader allows.
  unfoldable pub is_small : Stored C → Bool
  is_small s = leb (sl.size s.key_id s.scope_id s.sealed) 65536

  -- `load_record`
  unfoldable pub load_record : ⦃cr : Crypto⦄ → Surroundings → Option (Stored C) → Result Known
  unfolding is_known derived_key unseal is_envelope is_small
  load_record e none = ok empty_record
  load_record e (some s) = do
    guard e.envelope_v3 runtime_error
    guard (is_small s) runtime_error
    guard (is_envelope e s) runtime_error
    k ← derived_key e s.key_id
    known ← unseal s k
    guard (is_known known) runtime_error
    ok known

  abbrev pub sealed_by : Surroundings → Text → Known → Stored C
  sealed_by e k r = record {
    key_id = e.active_key_id;
    scope_id = e.active_scope_id;
    sealed = sl.seal k e.active_key_id e.active_scope_id e.nonce r;
  }

  -- `_write_record`, after what it writes was computed, with the key that it found.
  unfoldable pub write :
      Surroundings → Option (Stored C) → Known → Result Text → Result (Unit {0}) × Option (Stored C)
  write e s r (err raised) = (err raised, s)
  write e s r (ok k) = (ok tt, some (sealed_by e k r))

  unfoldable pub save :
      Surroundings → Option (Stored C) → Result Known → Result (Unit {0}) × Option (Stored C)
  unfolding write derived_key
  save e s (err raised) = (err raised, s)
  save e s (ok r) =
      if e.envelope_v3 then write e s r (derived_key e e.active_key_id) else (err runtime_error, s)
