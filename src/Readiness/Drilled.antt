-- ===== src/Readiness/Drilled.antt =====
-- What evidence of a restore drill in readiness_store.py rests on.
use echo_veil.Base.{
  ◌≡◌, refl, sym, subst, Bool, true, Option, none, some, ok, >>=-eq-ok, >>-eq-ok, and-eq-true,
}
use echo_veil.Base.Texts.{Text, text_eq_iff}
use echo_veil.Readiness.{Evidence}
use echo_veil.Receipts.{Crypto}
use echo_veil.Readiness.Store.{
  derived_key, Sealing, Backup, Known, Stored, Surroundings, load_record,
}
use echo_veil.Readiness.Records.{
  host_valid, backup_valid, restore_valid, evidence_in, check_host, evidence,
}
use echo_veil.Readiness.Confirmed.{new_evidence-inv}

-- A backup and a restore drill of the same archive, both under one key.
abbrev pub IsDrilled : Text → Option Backup → Option Backup → Type 0
IsDrilled key backup restore =
    (b : Backup) × (d : Backup) × (backup ≡ some b)
    × (restore ≡ some d)
    × (d.manifest_sha256 ≡ b.manifest_sha256)
    × (b.key_id ≡ key)
    × (d.key_id ≡ key)

valid-IsDrilled :
    (e : Surroundings) (artifact host : Option Text) (backup restore : Option Backup)
    → backup_valid e artifact host backup ≡ true
    → restore_valid e artifact host backup restore ≡ true
    → IsDrilled e.active_key_id backup restore
unfolding backup_valid restore_valid
valid-IsDrilled e artifact host none restore h k = cc
valid-IsDrilled e artifact host (some b) none h k = cc
valid-IsDrilled e artifact host (some b) (some d) h k =
    let hash = (and-eq-true _ _ (and-eq-true _ _ h).0).0 in
    let manifest = (and-eq-true _ _ (and-eq-true _ _ k).0).0 in
    (
      b,
      d,
      refl,
      refl,
      (text_eq_iff d.manifest_sha256 b.manifest_sha256).0 (and-eq-true _ _ manifest).1,
      (text_eq_iff b.key_id e.active_key_id).0 (and-eq-true _ _ hash).0,
      (text_eq_iff d.key_id e.active_key_id).0 (and-eq-true _ _ manifest).0,
    )

module _ ⦃cr : Crypto⦄ where
  evidence_in-IsDrilled :
      (e : Surroundings) (r : Known) (host : Bool)
      → (evidence_in e r host).restore_verified ≡ true
      → ((evidence_in e r host).backup_verified ≡ true)
        × IsDrilled e.active_key_id r.backup r.restore
  unfolding evidence_in
  evidence_in-IsDrilled e r host h =
      let (backup, restore) = and-eq-true _ _ h in
      (backup, valid-IsDrilled e _ _ r.backup r.restore backup restore)

  module _ {C : Type 0} ⦃sl : Sealing C⦄ where
    -- Evidence that verifies a restore drill verifies the backup, and the record that it was read from has
    -- a backup and a restore drill with the same manifest, both under the active key.
    pub evidence-IsDrilled :
        (e : Surroundings) (expected : Option Text) (require : Bool) (s : Option (Stored C))
        (v : Evidence)
        → evidence e expected require s ≡ ok v
        → v.restore_verified ≡ true
        → (v.backup_verified ≡ true)
          × ((r : Known) × (load_record e s ≡ ok r) × IsDrilled e.active_key_id r.backup r.restore)
    unfolding evidence
    evidence-IsDrilled e expected require s v h drilled =
        let (r, l, rest) = >>=-eq-ok (load_record e s) _ (>>-eq-ok (check_host expected) _ h) in
        let same = (new_evidence-inv _ v (>>-eq-ok (derived_key e e.active_key_id) _ rest)).1 in
        let (backup, found) =
          evidence_in-IsDrilled e r (host_valid e expected require r)
            (subst (λ x. x.restore_verified ≡ true) (sym same) drilled) in
        (subst (λ x. x.backup_verified ≡ true) same backup, (r, l, found))
