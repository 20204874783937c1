-- ===== src/Readiness/Confirmed.antt =====
-- The evidence of readiness_store.py right after a backup was recorded.
use echo_veil.Base.{
  ◌≡◌, refl, sym, ap, ◌∙◌, subst, inl, inr, Bool, true, false, ◌&&◌, Option, none, some, Result, ok,
  err, ok-injective, guard, >>=-eq-ok, >>-eq-ok, guard-eq-ok, value_error, runtime_error,
  Bool-cases, Result-cases, ◌>>◌, and-eq-true, if◌then◌else◌,
}
use echo_veil.Base.Texts.{Text, text_eq}
use echo_veil.Json.{elem}
use echo_veil.Readiness.{Evidence, new_evidence, matches_custody, rollback_tiers}
use echo_veil.Readiness.Authority.{matches_scope_id}
use echo_veil.Readiness.Store.{
  Backup, Known, Stored, Surroundings, same_option, is_receipt, load_record, save,
  artifact_is_current, derived_key, Sealing, IsSealing, sealed_by, write,
}
use echo_veil.Readiness.Records.{
  host_valid, artifact_digest_of, host_digest_of, backup_valid, rollback_of, evidence_in,
  check_host, evidence, authority_digests, check_receipt, receipt_record, same_manifest,
  with_backup, record_backup,
}
use echo_veil.Receipts.{Crypto}
use echo_veil.Readiness.Kept.{IsKeyring, unseal-same, derived_key-key_of}
use echo_veil.Readiness.Written.{with_backup-IsSound}
use echo_veil.Readiness.Recorded.{
  Reached, Reached-IsKept, read_stored, is_small_file, is_envelope_own,
}

pub new_evidence-inv :
    (x v : Evidence) → new_evidence x ≡ ok v → (matches_custody x.key_custody ≡ true) × (x ≡ v)
unfolding new_evidence
new_evidence-inv x v h =
    let (u, c, rest) = >>=-eq-ok (guard (matches_custody x.key_custody) value_error) _ h in
    (
      guard-eq-ok _ value_error c,
      ok-injective (>>-eq-ok (guard (elem x.rollback_detection rollback_tiers) value_error) _ rest),
    )

receipt_record-inv :
    (b kept : Backup)
    → receipt_record b ≡ ok kept
    → (elem b.rollback_detection rollback_tiers ≡ true) × (b ≡ kept)
unfolding receipt_record
receipt_record-inv b kept h =
    let (u, t, same) =
      >>=-eq-ok (guard (elem b.rollback_detection rollback_tiers) value_error) _ h in
    (guard-eq-ok _ value_error t, ok-injective same)

new_evidence-new :
    (x : Evidence)
    → matches_custody x.key_custody ≡ true
    → elem x.rollback_detection rollback_tiers ≡ true
    → new_evidence x ≡ ok x
unfolding new_evidence
new_evidence-new x h k = rw (h, k) refl

module _ ⦃cr : Crypto⦄ where
  -- The digests that a receipt must name, by the record that was loaded.
  abbrev artifact_now : Surroundings → Known → Option Text
  artifact_now e r = artifact_digest_of (artifact_is_current e r.artifact) r.artifact

  abbrev host_now : Surroundings → Known → Option Text
  host_now e r = host_digest_of (host_valid e none false r) r.host_boundary

  module _ {C : Type 0} ⦃sl : Sealing C⦄ where
    authority_digests-inv :
        (e : Surroundings) (s : Option (Stored C)) (r : Known) (d : Option Text × Option Text)
        → load_record e s ≡ ok r
        → authority_digests e s ≡ ok d
        → (matches_custody e.custody_provider ≡ true) × ((artifact_now e r, host_now e r) ≡ d)
    unfolding authority_digests evidence check_host evidence_in
    authority_digests-inv e s r d l h =
        let (v, n, digests) =
          >>=-eq-ok
            (derived_key e e.active_key_id
              >> new_evidence (evidence_in e r (host_valid e none false r)))
            _ (rw l at h) in
        let (custody, same) = new_evidence-inv _ v (>>-eq-ok (derived_key e e.active_key_id) _ n) in
        (
          custody,
          ap
                (λ x. (
                  artifact_digest_of x.artifact_verified r.artifact,
                  host_digest_of x.host_boundary_verified r.host_boundary,
                ))
                same
              ∙ ok-injective digests,
        )

    -- A receipt that is current makes a valid backup.
    check_receipt-inv :
        (e : Surroundings) (s : Option (Stored C)) (v3 : Bool) (b : Backup) (r : Known)
        (u : Unit {0})
        → load_record e s ≡ ok r
        → check_receipt e s v3 b ≡ ok u
        → (matches_custody e.custody_provider ≡ true)
          × (backup_valid e (artifact_now e r) (host_now e r) (some b) ≡ true)
    unfolding check_receipt backup_valid
    check_receipt-inv e s v3 b r u l h =
        let (w, k, rest) =
          >>=-eq-ok
            (guard
              (text_eq b.key_id e.active_key_id && text_eq b.profile_hash e.active_profile_hash)
              runtime_error)
            _
            (>>-eq-ok (derived_key e e.active_key_id) _ (>>-eq-ok (guard v3 runtime_error) _ h)) in
        let (d, digests, last) = >>=-eq-ok (authority_digests e s) _ rest in
        let (custody, same) = authority_digests-inv e s r d l digests in
        let key =
          and-eq-true (text_eq b.key_id e.active_key_id)
            (text_eq b.profile_hash e.active_profile_hash) (guard-eq-ok _ runtime_error k) in
        let bound =
          and-eq-true (same_option b.artifact_digest (artifact_now e r))
            (same_option b.host_authority_digest (host_now e r))
            (subst
              (λ x.
                same_option b.artifact_digest x.0 && same_option b.host_authority_digest x.1 ≡ true)
              (sym same) (guard-eq-ok _ runtime_error last)) in
        (custody, rw (key.0, key.1, bound.0, bound.1) refl)

    save-inv :
        (e : Surroundings) (s : Option (Stored C)) (w : Result Known)
        → (save e s w).0 ≡ ok tt
        → (r : Known) × (w ≡ ok r)
          × (e.envelope_v3 ≡ true)
          × ((k : Text) × (derived_key e e.active_key_id ≡ ok k)
              × ((save e s w).1 ≡ some (sealed_by e k r)))
    unfolding save write
    save-inv e s (err raised) h = cc
    save-inv e s (ok r) h = elim (Bool-cases e.envelope_v3) [
      | inl v ↦ elim (Result-cases (derived_key e e.active_key_id)) [
        | inl (k, d) ↦ (r, refl, v, (k, d, rw (v, d, write) refl))
        | inr (x, d) ↦ cc (rw (v, d, write) at h)
      ]
      | inr v ↦ cc (rw v at h)
    ]

    with_backup-inv :
        (e : Surroundings) (s : Option (Stored C)) (v3 : Bool) (b : Backup) (r : Known)
        → with_backup e s v3 b ≡ ok r
        → (loaded : Known) × (load_record e s ≡ ok loaded)
          × ((u : Unit {0}) × (check_receipt e s v3 b ≡ ok u))
          × (elem b.rollback_detection rollback_tiers ≡ true)
          × (record loaded {
            backup = some b;
            restore = if same_manifest loaded.restore b then loaded.restore else none;
          }
              ≡ r)
    unfolding with_backup
    with_backup-inv e s v3 b r h =
        let (u, c, next) = >>=-eq-ok (check_receipt e s v3 b) _ h in
        let (loaded, l, rest) = >>=-eq-ok (load_record e s) _ next in
        let (kept, k, written) = >>=-eq-ok (receipt_record b) _ rest in
        let (tier, same) = receipt_record-inv b kept k in
        (
          loaded,
          l,
          (u, c),
          tier,
          ap
                (λ x. record loaded {
                  backup = some x;
                  restore = if same_manifest loaded.restore b then loaded.restore else none;
                })
                same
              ∙ ok-injective written,
        )

    evidence-read :
        (e : Surroundings) (s : Option (Stored C)) (r : Known) (b : Backup) (k : Text)
        → load_record e s ≡ ok r
        → derived_key e e.active_key_id ≡ ok k
        → matches_custody e.custody_provider ≡ true
        → elem b.rollback_detection rollback_tiers ≡ true
        → r.backup ≡ some b
        → backup_valid e (artifact_now e r) (host_now e r) (some b) ≡ true
        → (v : Evidence) × (evidence e none false s ≡ ok v)
          × (v.backup_verified ≡ true)
          × (v.rollback_detection ≡ b.rollback_detection)
    unfolding evidence check_host evidence_in rollback_of host_valid
    evidence-read e s r b k l d custody tier known valid =
        let backup : backup_valid e (artifact_now e r) (host_now e r) r.backup ≡ true =
          rw known valid in
        let tier_here : (evidence_in e r (host_valid e none false r)).rollback_detection
            ≡ b.rollback_detection =
          rw (backup, known) refl in
        (
          evidence_in e r (host_valid e none false r),
          rw (l, d) (new_evidence-new _ custody (rw tier_here tier)),
          backup,
          tier_here,
        )

    -- Where what was sealed opens again, and the scope has the form of one: after a call of
    -- `record_backup` with a keyring of the profile that returns, with a receipt that is valid, the
    -- evidence under the same surroundings verifies the backup, with the rollback detection of the
    -- receipt, if the file is not too large.
    pub record_backup-evidence :
        (sealing : IsSealing sl) (scope : Text) (keys : Text → Text) (s : Option (Stored C))
        (e : Surroundings) (v3 : Bool) (b : Backup)
        → matches_scope_id scope ≡ true
        → Reached scope keys s
        → IsKeyring scope keys e
        → is_receipt b ≡ true
        → (record_backup e v3 b s).0 ≡ ok tt
        → is_small_file (record_backup e v3 b s).1 ≡ true
        → (v : Evidence) × (evidence e none false (record_backup e v3 b s).1 ≡ ok v)
          × (v.backup_verified ≡ true)
          × (v.rollback_detection ≡ b.rollback_detection)
    unfolding record_backup host_valid is_small_file
    record_backup-evidence sealing scope keys s e v3 b f p ring valid done small =
        let (r, w, on, (k, d, after)) = save-inv e s (with_backup e s v3 b) done in
        let (loaded, l, (u, c), tier, same) = with_backup-inv e s v3 b r w in
        let (custody, current) = check_receipt-inv e s v3 b loaded u l c in
        let sound =
          with_backup-IsSound sealing ring s (Reached-IsKept sealing scope keys p) v3 b r valid w in
        rw after (
          evidence-read e _ r b k
            (read_stored e (sealed_by e k r) k r on (rw after at small)
              (is_envelope_own e (sealed_by e k r)
                (subst (λ x. matches_scope_id x ≡ true) (sym ring.own_scope) f) ring.key_form refl)
              d
              (unseal-same sealing ring (sealed_by e k r) k e.nonce r
                (ap (λ j. sl.seal j e.active_key_id e.active_scope_id e.nonce r)
                  (ring.own_keys e.active_key_id k (derived_key-key_of e e.active_key_id k d)))
                d)
              sound)
            d custody tier (sym (ap (λ x. x.backup) same))
            (subst (λ x. backup_valid e (artifact_now e x) (host_now e x) (some b) ≡ true) same
              current))
