-- ===== src/Readiness/Written.antt =====
-- About what the operations of the evidence store of readiness_store.py write.
use echo_veil.Base.{
  ◌≡◌, refl, subst, Bool, true, Option, none, some, ok, ok-injective, guard, >>=-eq-ok, >>-eq-ok,
  guard-eq-ok, runtime_error, if◌then◌else◌,
}
use echo_veil.Base.Texts.{Text}
use echo_veil.Receipts.{Crypto}
use echo_veil.Readiness.Authority.{Artifact, HostBoundary}
use echo_veil.Readiness.Store.{
  Backup, Known, Stored, Surroundings, Sealing, IsSealing, is_receipt, optional_receipt,
  load_record, boundary_holds, artifact_is_current,
}
use echo_veil.Readiness.Records.{
  same_manifest, same_artifact, receipt_record, with_backup, with_restore, with_artifact,
  with_boundary, without_recovery, check_receipt,
}
use echo_veil.Readiness.Kept.{
  IsSound, IsKept, IsKeyring, answers_backup, load_record-IsSound, left_restore, left_boundary,
  kept_boundary, receipt_record_same, artifact_is_current-valid, boundary_holds-facts,
}

module _ ⦃cr : Crypto⦄ {C : Type 0} ⦃sl : Sealing C⦄ (sealing : IsSealing sl) {scope : Text}
    {keys : Text → Text} {e : Surroundings} (ring : IsKeyring scope keys e) (s : Option (Stored C))
    (k : IsKept scope keys s) where
  pub with_backup-IsSound :
      (v3 : Bool) (b : Backup) (r : Known)
      → is_receipt b ≡ true
      → with_backup e s v3 b ≡ ok r
      → IsSound r
  unfolding with_backup optional_receipt
  with_backup-IsSound v3 b r valid h =
      let (loaded, l, rest) =
        >>=-eq-ok (load_record e s) _ (>>-eq-ok (check_receipt e s v3 b) _ h) in
      let (kept, c, written) = >>=-eq-ok (receipt_record b) _ rest in
      let sound = load_record-IsSound sealing ring s loaded k l in
      let left = left_restore b loaded.restore sound.restore_valid in
      subst IsSound (ok-injective written) (
        subst
          (λ x. IsSound (record loaded {
            backup = some x;
            restore = if same_manifest loaded.restore b then loaded.restore else none;
          }))
          (receipt_record_same b kept c)
          (record {
            attached = sound.attached;
            artifact_valid = sound.artifact_valid;
            boundary_valid = sound.boundary_valid;
            backup_valid = valid;
            restore_valid = left.0;
            answered = left.1;
          }))

  pub with_restore-IsSound :
      (v3 : Bool) (b : Backup) (r : Known)
      → is_receipt b ≡ true
      → with_restore e s v3 b ≡ ok r
      → IsSound r
  unfolding with_restore optional_receipt answers_backup
  with_restore-IsSound v3 b r valid h =
      let (loaded, l, rest) =
        >>=-eq-ok (load_record e s) _ (>>-eq-ok (check_receipt e s v3 b) _ h) in
      let (u, m, next) = >>=-eq-ok (guard (same_manifest loaded.backup b) runtime_error) _ rest in
      let (kept, c, written) = >>=-eq-ok (receipt_record b) _ next in
      let sound = load_record-IsSound sealing ring s loaded k l in
      subst IsSound (ok-injective written) (
        subst (λ x. IsSound (record loaded { restore = some x })) (receipt_record_same b kept c)
          (record {
            attached = sound.attached;
            artifact_valid = sound.artifact_valid;
            boundary_valid = sound.boundary_valid;
            backup_valid = sound.backup_valid;
            restore_valid = valid;
            answered = guard-eq-ok _ runtime_error m;
          }))

  pub with_artifact-IsSound : (a : Artifact) (r : Known) → with_artifact e s a ≡ ok r → IsSound r
  unfolding with_artifact
  with_artifact-IsSound a r h =
      let (u, m, rest) = >>=-eq-ok (guard (artifact_is_current e (some a)) runtime_error) _ h in
      let (loaded, l, written) = >>=-eq-ok (load_record e s) _ rest in
      let sound = load_record-IsSound sealing ring s loaded k l in
      subst IsSound (ok-injective written) (record {
        attached = kept_boundary loaded.artifact a loaded.host_boundary sound.attached;
        artifact_valid = artifact_is_current-valid e a (guard-eq-ok _ runtime_error m);
        boundary_valid =
            left_boundary (same_artifact loaded.artifact a) loaded.host_boundary
              sound.boundary_valid;
        backup_valid = sound.backup_valid;
        restore_valid = sound.restore_valid;
        answered = sound.answered;
      })

  pub with_boundary-IsSound :
      (b : HostBoundary) (r : Known) → with_boundary e s b ≡ ok r → IsSound r
  unfolding with_boundary
  with_boundary-IsSound b r h =
      let (loaded, l, rest) = >>=-eq-ok (load_record e s) _ h in
      let (u, m, written) =
        >>=-eq-ok (guard (boundary_holds e loaded.artifact (some b)) runtime_error) _
          (>>-eq-ok (guard (artifact_is_current e loaded.artifact) runtime_error) _ rest) in
      let sound = load_record-IsSound sealing ring s loaded k l in
      let facts = boundary_holds-facts e loaded.artifact b (guard-eq-ok _ runtime_error m) in
      subst IsSound (ok-injective written) (record {
        attached = facts.0;
        artifact_valid = sound.artifact_valid;
        boundary_valid = facts.1;
        backup_valid = sound.backup_valid;
        restore_valid = sound.restore_valid;
        answered = sound.answered;
      })

  pub without_recovery-IsSound : (r : Known) → without_recovery e s ≡ ok r → IsSound r
  unfolding without_recovery optional_receipt answers_backup
  without_recovery-IsSound r h =
      let (loaded, l, written) = >>=-eq-ok (load_record e s) _ h in
      let sound = load_record-IsSound sealing ring s loaded k l in
      subst IsSound (ok-injective written) (record {
        attached = sound.attached;
        artifact_valid = sound.artifact_valid;
        boundary_valid = sound.boundary_valid;
        backup_valid = refl;
        restore_valid = refl;
        answered = refl;
      })
