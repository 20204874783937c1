-- ===== src/Readiness/Facts.antt =====
-- What the checks of a readiness state say, for local_readiness.py.
use echo_veil.Base.{
  ◌≤◌, ◌≡◌, refl, subst, inl, inr, Bool, true, false, ◌&&◌, List, [], ◌∷◌, arith, ok, guard,
  >>=-eq-ok, guard-eq-ok, value_error, leb, ltb, length, all, Bool-cases, and-eq-true,
}
use echo_veil.Base.Texts.{Text, codes, text_eq, text_eq_iff}
use echo_veil.Json.{elem}
use echo_veil.Readiness.{
  State, new_evidence, new_state, matches_custody, deployment_modes, rollback_tiers,
  readiness_checks, failed, readiness_failures, is_enclave_ready, starts_with,
  qualified_local_key_custody,
}
use echo_veil.Readiness.Report.{is_local_ready, protection_tier}

-- What holds of every text of a list holds of one that it lists.
pub elem-all :
    (p : Text → Bool) (s : Text) (ks : List Text) → elem s ks ≡ true → all p ks ≡ true → p s ≡ true
unfolding elem
elem-all p s [] h k = cc
elem-all p s (j ∷ ks) h k = elim (Bool-cases (text_eq j s)) [
  | inl e ↦ subst (λ i. p i ≡ true) ((text_eq_iff j s).0 e) ((and-eq-true _ _ k).0)
  | inr e ↦ elem-all p s ks (rw e at h) ((and-eq-true _ _ k).1)
]

abbrev pub fits : Text → Bool
fits s = ltb 0 (length s) && leb (length s) 256

pub length-failed : (checks : List (Bool × Text)) → length (failed checks) ≤ length checks
unfolding failed
length-failed [] = omega arith
length-failed ((passed, code) ∷ checks) = ground (arith, length-failed checks)

pub fits-failed :
    (checks : List (Bool × Text))
    → all (λ c. fits c.1) checks ≡ true
    → all fits (failed checks) ≡ true
unfolding failed
fits-failed [] h = refl
fits-failed ((passed, code) ∷ checks) h = ground (arith, fits-failed checks)

-- The facts that a valid state brings.
pub new_state_valid :
    (s : State)
    → new_state s ≡ ok s
    → (matches_custody s.evidence.key_custody ≡ true)
      × (elem s.evidence.rollback_detection rollback_tiers ≡ true)
      × (elem s.configured_mode deployment_modes ≡ true)
unfolding new_state new_evidence
new_state_valid s h =
    let (e, first, rest) = >>=-eq-ok (new_evidence s.evidence) _ h in
    let (u, c, next) =
      >>=-eq-ok (guard (matches_custody s.evidence.key_custody) value_error) _ first in
    let (w, r, last) =
      >>=-eq-ok (guard (elem s.evidence.rollback_detection rollback_tiers) value_error) _ next in
    let (z, m, done) =
      >>=-eq-ok (guard (elem s.configured_mode deployment_modes) value_error) _ rest in
    (guard-eq-ok _ value_error c, guard-eq-ok _ value_error r, guard-eq-ok _ value_error m)

pub custody_fits : (s : Text) → matches_custody s ≡ true → fits s ≡ true
unfolding matches_custody
custody_fits [] h = cc
custody_fits (c ∷ s) h = ground arith

pub fits-protection_tier :
    (s : State) → elem s.configured_mode deployment_modes ≡ true → fits (protection_tier s) ≡ true
unfolding protection_tier
fits-protection_tier s h = ground (arith, elem-all fits s.configured_mode deployment_modes h refl)

-- What the enclave class asks of a state.
pub enclave_facts :
    (s : State)
    → is_enclave_ready s ≡ true
    → (s.evidence.artifact_verified ≡ true)
      × (s.at_rest_encrypted ≡ true)
      × (s.evidence.backup_verified ≡ true)
      × (s.embedding_identity_verified ≡ true)
      × (s.evidence.host_boundary_verified ≡ true)
      × (s.implementation_healthy ≡ true)
      × (s.evidence.restore_verified ≡ true)
      × (starts_with (codes "attested-") s.evidence.key_custody ≡ true)
unfolding is_enclave_ready
enclave_facts s h =
    let custody = and-eq-true _ _ h in
    let host = and-eq-true _ _ custody.0 in
    let remote = and-eq-true _ _ host.0 in
    let hardware = and-eq-true _ _ remote.0 in
    let storage = and-eq-true _ _ hardware.0 in
    let model = and-eq-true _ _ storage.0 in
    let migration = and-eq-true _ _ model.0 in
    let plaintext = and-eq-true _ _ migration.0 in
    let quarantine = and-eq-true _ _ plaintext.0 in
    let backlog = and-eq-true _ _ quarantine.0 in
    let boundary = and-eq-true _ _ backlog.0 in
    let restore = and-eq-true _ _ boundary.0 in
    let backup = and-eq-true _ _ restore.0 in
    let artifact = and-eq-true _ _ backup.0 in
    let profile = and-eq-true _ _ artifact.0 in
    let embedding = and-eq-true _ _ profile.0 in
    let semantic = and-eq-true _ _ embedding.0 in
    let at_rest = and-eq-true _ _ semantic.0 in
    let healthy = and-eq-true _ _ at_rest.0 in
    (artifact.1, at_rest.1, backup.1, embedding.1, boundary.1, healthy.1, restore.1, custody.1)

none_failed :
    (checks : List (Bool × Text)) → length (failed checks) ≡ 0 → all (λ c. c.0) checks ≡ true
unfolding failed
none_failed [] h = refl
none_failed ((passed, code) ∷ checks) h = ground (arith, none_failed checks)

-- What the local class asks of a state.
pub local_facts :
    (s : State)
    → is_local_ready s ≡ true
    → (is_enclave_ready s ≡ false) × (length (readiness_failures s) ≡ 0)
unfolding is_local_ready
local_facts s h = ground arith

pub local_gate_facts :
    (s : State)
    → length (readiness_failures s) ≡ 0
    → (s.evidence.artifact_verified ≡ true)
      × (s.at_rest_encrypted ≡ true)
      × (s.evidence.backup_verified ≡ true)
      × (s.embedding_identity_verified ≡ true)
      × (s.evidence.host_boundary_verified ≡ true)
      × (s.implementation_healthy ≡ true)
      × (s.evidence.restore_verified ≡ true)
      × (s.evidence.key_custody ≡ qualified_local_key_custody)
unfolding readiness_failures readiness_checks
local_gate_facts s h =
    let mode = and-eq-true _ _ (none_failed (readiness_checks s) h) in
    let healthy = and-eq-true _ _ mode.1 in
    let at_rest = and-eq-true _ _ healthy.1 in
    let semantic = and-eq-true _ _ at_rest.1 in
    let embedding = and-eq-true _ _ semantic.1 in
    let profile = and-eq-true _ _ embedding.1 in
    let artifact = and-eq-true _ _ profile.1 in
    let backup = and-eq-true _ _ artifact.1 in
    let restore = and-eq-true _ _ backup.1 in
    let boundary = and-eq-true _ _ restore.1 in
    let custody = and-eq-true _ _ boundary.1 in
    (
      artifact.0,
      at_rest.0,
      backup.0,
      embedding.0,
      boundary.0,
      healthy.0,
      restore.0,
      (text_eq_iff s.evidence.key_custody qualified_local_key_custody).0 custody.0,
    )

pub empty_of_length : (ss : List Text) → length ss ≡ 0 → ss ≡ []
empty_of_length [] h = refl
empty_of_length (t ∷ ss) h = absurd (omega arith)
