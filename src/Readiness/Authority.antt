-- ===== src/Readiness/Authority.antt =====
-- The receipts of src/echo_veil/local_authority.py that the evidence store keeps: the installed artifact
-- and the host boundary, with the checks that reading their records makes.
use echo_veil.Base.{
  ℕ, ◌+◌, Bool, true, false, ◌&&◌, ◌||◌, [], ◌∷◌, ◌++◌, Option, none, some, ok, err, leb, ltb, eqb,
  all, length,
}
use echo_veil.Base.Int.{ℤ, pos}
use echo_veil.Base.Floats.{fixed_point}
use echo_veil.Base.Texts.{Text, codes, text_eq}
use echo_veil.Json.{Value, text, integer, dict, field, end}
use echo_veil.Json.Print.{print, sort_keys}
use echo_veil.Receipts.{Crypto, matches_hex, matches_digest, after_prefix, is_alphanumeric}
use echo_veil.Receipts.Encoding.{sha256_bytes}
use echo_veil.Readiness.{is_lower_alphanumeric, matches_custody}

-- `VerifiedInstalledArtifact` of local_authority.py
pub record Artifact : Type 0 where
  pub authority_id : Text
  pub wheel_sha256 : Text
  pub installed_source_sha256 : Text
  pub version : Text
  pub installed_files_verified : ℕ
  pub agent_console_body_sha256 : Text
  pub hook_console_body_sha256 : Text
  pub runner_console_body_sha256 : Text
  pub verified_at : ℕ

-- `VerifiedHostBoundary` of local_authority.py
pub record HostBoundary : Type 0 where
  pub authority_id : Text
  pub host_id : Text
  pub boundary : Text
  pub host_artifact_authority_id : Text
  pub echo_artifact_authority_id : Text
  pub preflight_authority_id : Text
  pub profile_hash : Text
  pub scope_id : Text
  pub qualification_digest : Text
  pub verified_at : ℕ
  pub expires_at : ℕ

-- `_SCOPE_ID`
unfoldable pub matches_scope_id : Text → Bool
matches_scope_id s = elim (after_prefix (codes "scope-") s) [
  | none ↦ false
  | some rest ↦ matches_hex 32 rest
]

-- `_HOST_ID` is the pattern of a key custody; `_BOUNDARY_ID` and `_VERSION`
unfoldable pub matches_boundary_id : Text → Bool
unfolding is_lower_alphanumeric
matches_boundary_id [] = false
matches_boundary_id (c ∷ s) =
    is_lower_alphanumeric c
    && all (λ d. is_lower_alphanumeric d || eqb d b'.' || eqb d b'_' || eqb d b'-') s
    && leb (length s) 127

unfoldable pub matches_version : Text → Bool
unfolding is_alphanumeric
matches_version [] = false
matches_version (c ∷ s) =
    is_alphanumeric c
    && all (λ d. is_alphanumeric d || eqb d b'.' || eqb d b'+' || eqb d b'_' || eqb d b'-') s
    && leb (length s) 127

-- `stable_claims` of both receipts; no claim is a float, so that any type of floats does.
abbrev pub artifact_claims : Artifact → Value ℤ
artifact_claims a = dict (
    field (codes "agent_console_body_sha256") (text a.agent_console_body_sha256) (
      field (codes "distribution") (text (codes "echo-veil")) (
        field (codes "hook_console_body_sha256") (text a.hook_console_body_sha256) (
          field (codes "installed_files_verified") (integer (pos a.installed_files_verified)) (
            field (codes "installed_source_sha256") (text a.installed_source_sha256) (
              field (codes "runner_console_body_sha256") (text a.runner_console_body_sha256) (
                field (codes "schema") (text (codes "echo-veil-installed-artifact-v1")) (
                  field (codes "version") (text a.version)
                    (field (codes "wheel_sha256") (text a.wheel_sha256) end)))))))))

abbrev pub boundary_claims : HostBoundary → Value ℤ
boundary_claims h = dict (
    field (codes "boundary") (text h.boundary) (
      field (codes "echo_artifact_authority_id") (text h.echo_artifact_authority_id) (
        field (codes "expires_at") (integer (pos h.expires_at)) (
          field (codes "host_artifact_authority_id") (text h.host_artifact_authority_id) (
            field (codes "host_id") (text h.host_id) (
              field (codes "preflight_authority_id") (text h.preflight_authority_id) (
                field (codes "profile_hash") (text h.profile_hash) (
                  field (codes "qualification_digest") (text h.qualification_digest) (
                    field (codes "schema") (text (codes "echo-veil-host-boundary-v1")) (
                      field (codes "scope_id") (text h.scope_id)
                        (field (codes "verified_at") (integer (pos h.verified_at)) end)))))))))))

module _ ⦃cr : Crypto⦄ where
  -- The authority is the digest of a domain and of the claims, in canonical JSON.
  unfoldable pub digests_claims : Text → Value ℤ → Text → Bool
  digests_claims domain claims authority = elim (print true (sort_keys claims)) [
    | err e ↦ false
    | ok raw ↦ text_eq (sha256_bytes (domain ++ 0 ∷ raw)) authority
  ]

  -- `parse_artifact_record` on the fields of a record, each of its type.
  unfoldable pub is_artifact : Artifact → Bool
  unfolding matches_version digests_claims
  is_artifact a =
      matches_digest a.authority_id
      && matches_digest a.wheel_sha256
      && matches_digest a.installed_source_sha256
      && matches_version a.version
      && ltb 0 a.installed_files_verified
      && matches_digest a.agent_console_body_sha256
      && matches_digest a.hook_console_body_sha256
      && matches_digest a.runner_console_body_sha256
      && digests_claims (codes "echo-veil-installed-artifact-v1") (artifact_claims a) a.authority_id

  -- `parse_host_boundary_record` on the fields of a record, each of its type.
  unfoldable pub is_boundary : HostBoundary → Bool
  unfolding matches_boundary_id matches_scope_id digests_claims
  is_boundary h =
      matches_digest h.authority_id
      && matches_custody h.host_id
      && matches_boundary_id h.boundary
      && matches_digest h.host_artifact_authority_id
      && matches_digest h.echo_artifact_authority_id
      && matches_digest h.preflight_authority_id
      && matches_digest h.profile_hash
      && matches_scope_id h.scope_id
      && matches_digest h.qualification_digest
      && ltb h.verified_at h.expires_at
      && leb h.expires_at (h.verified_at + 604800)
      && digests_claims (codes "echo-veil-host-boundary-v1") (boundary_claims h) h.authority_id

  unfoldable pub optional_artifact : Option Artifact → Bool
  unfolding is_artifact
  optional_artifact none = true
  optional_artifact (some a) = is_artifact a

  unfoldable pub optional_boundary : Option HostBoundary → Bool
  unfolding is_boundary
  optional_boundary none = true
  optional_boundary (some h) = is_boundary h
