-- ===== src/Readiness/Kept.antt =====
-- What the evidence store of readiness_store.py writes: an invariant of its record.
use echo_veil.Base.{
  ◌≡◌, refl, sym, ap, ◌∙◌, subst, inl, inr, Bool, true, false, Option, none, some, Result, ok, err,
  ok-injective, guard, >>=-eq-ok, >>-eq-ok, runtime_error, Bool-cases, Option-cases, Result-cases,
  and-eq-true, if◌then◌else◌,
}
use echo_veil.Base.Texts.{Text, text_eq, text_eq_iff}
use echo_veil.Receipts.{Bytes, Crypto}
use echo_veil.Readiness.Authority.{
  Artifact, HostBoundary, is_boundary, optional_artifact, optional_boundary,
}
use echo_veil.Readiness.Store.{
  Backup, Known, Stored, Surroundings, Sealing, IsSealing, optional_receipt, is_attached, is_known,
  load_record, save, write, boundary_holds, artifact_is_current, host_is_current, empty_record,
  matches_key_id, derived_key, unseal, is_envelope, is_small,
}
use echo_veil.Readiness.Records.{same_manifest, same_artifact, receipt_record}

-- A restore drill is one of the backup.
unfoldable pub answers_backup : Option Backup → Option Backup → Bool
unfolding same_manifest
answers_backup backup none = true
answers_backup backup (some d) = same_manifest backup d

-- A keyring of a profile: its scope is the profile's, the id of its active key has the form of one, and
-- each key that it still has is the one that the profile ever had under its id.
pub record IsKeyring (scope : Text) (keys : Text → Text) (e : Surroundings) : Type 0 where
  pub own_scope : e.active_scope_id ≡ scope
  pub key_form : matches_key_id e.active_key_id ≡ true
  pub own_keys : (key_id k : Text) → e.key_of key_id ≡ some k → k ≡ keys key_id

same_manifest_swap :
    (d : Backup) (b : Backup) → same_manifest (some d) b ≡ true → same_manifest (some b) d ≡ true
unfolding same_manifest
same_manifest_swap d b h =
    (text_eq_iff b.manifest_sha256 d.manifest_sha256).1
      (sym ((text_eq_iff d.manifest_sha256 b.manifest_sha256).0 h))

-- The restore drill that a new backup leaves.
pub left_restore :
    (b : Backup) (d : Option Backup)
    → optional_receipt d ≡ true
    → (optional_receipt (if same_manifest d b then d else none) ≡ true)
      × (answers_backup (some b) (if same_manifest d b then d else none) ≡ true)
unfolding optional_receipt answers_backup same_manifest
left_restore b none h = (refl, refl)
left_restore b (some d) h = elim (Bool-cases (same_manifest (some d) b)) [
  | inl m ↦ rw m (h, same_manifest_swap d b m)
  | inr m ↦ rw m (refl, refl)
]

pub receipt_record_same : (b kept : Backup) → receipt_record b ≡ ok kept → b ≡ kept
unfolding receipt_record
receipt_record_same b kept h = ok-injective (>>-eq-ok _ _ h)

pub kept_boundary :
    (p : Option Artifact) (a : Artifact) (h : Option HostBoundary)
    → is_attached p h ≡ true
    → is_attached (some a) (if same_artifact p a then h else none) ≡ true
unfolding is_attached same_artifact
kept_boundary none a h k = refl
kept_boundary (some p) a none k = elim (Bool-cases (text_eq p.authority_id a.authority_id)) [
  | inl m ↦ rw m refl
  | inr m ↦ rw m refl
]
kept_boundary (some p) a (some h) k = elim (Bool-cases (text_eq p.authority_id a.authority_id)) [
  | inl m ↦ rw m (
      subst (λ x. text_eq x h.echo_artifact_authority_id ≡ true)
        ((text_eq_iff p.authority_id a.authority_id).0 m) k)
  | inr m ↦ rw m refl
]

pub derived_key-key_of :
    (e : Surroundings) (key_id k : Text) → derived_key e key_id ≡ ok k → e.key_of key_id ≡ some k
unfolding derived_key
derived_key-key_of e key_id k h = elim (Option-cases (e.key_of key_id)) [
  | inr (j, p) ↦ p ∙ ap some (ok-injective (rw (p, derived_key) at h))
  | inl p ↦ cc (rw (p, derived_key) at h)
]

module _ ⦃cr : Crypto⦄ where
  pub record IsSound (r : Known) : Type 0 where
    pub attached : is_attached r.artifact r.host_boundary ≡ true
    pub artifact_valid : optional_artifact r.artifact ≡ true
    pub boundary_valid : optional_boundary r.host_boundary ≡ true
    pub backup_valid : optional_receipt r.backup ≡ true
    pub restore_valid : optional_receipt r.restore ≡ true
    pub answered : answers_backup r.backup r.restore ≡ true

  empty-IsSound : IsSound empty_record
  unfolding is_attached optional_artifact optional_boundary optional_receipt answers_backup
  empty-IsSound = record {
    attached = refl;
    artifact_valid = refl;
    boundary_valid = refl;
    backup_valid = refl;
    restore_valid = refl;
    answered = refl;
  }

  pub left_boundary :
      (b : Bool) (h : Option HostBoundary)
      → optional_boundary h ≡ true
      → optional_boundary (if b then h else none) ≡ true
  unfolding optional_boundary
  left_boundary true h k = k
  left_boundary false h k = refl

  pub artifact_is_current-valid :
      (e : Surroundings) (a : Artifact)
      → artifact_is_current e (some a) ≡ true
      → optional_artifact (some a) ≡ true
  unfolding artifact_is_current optional_artifact
  artifact_is_current-valid e a h = (and-eq-true _ _ h).0

  host_is_current-facts :
      (e : Surroundings) (artifact : Text) (authority : Option Text) (h : HostBoundary)
      → host_is_current e artifact authority h ≡ true
      → (text_eq artifact h.echo_artifact_authority_id ≡ true) × (is_boundary h ≡ true)
  unfolding host_is_current
  host_is_current-facts e artifact none h k = cc
  host_is_current-facts e artifact (some authority) h k =
      let before_scope = (and-eq-true _ _ k).0 in
      let before_profile = (and-eq-true _ _ before_scope).0 in
      let before_preflight = (and-eq-true _ _ before_profile).0 in
      let named = and-eq-true _ _ before_preflight in
      let before_end = (and-eq-true _ _ named.0).0 in
      let before_start = (and-eq-true _ _ before_end).0 in
      let before_hash = (and-eq-true _ _ before_start).0 in
      let before_authority = (and-eq-true _ _ before_hash).0 in
      (
        (text_eq_iff artifact h.echo_artifact_authority_id).1
            (sym ((text_eq_iff h.echo_artifact_authority_id artifact).0 named.1)),
        (and-eq-true _ _ before_authority).0,
      )

  pub boundary_holds-facts :
      (e : Surroundings) (a : Option Artifact) (h : HostBoundary)
      → boundary_holds e a (some h) ≡ true
      → (is_attached a (some h) ≡ true) × (optional_boundary (some h) ≡ true)
  unfolding is_attached boundary_holds optional_boundary
  boundary_holds-facts e none h k = cc
  boundary_holds-facts e (some a) h k =
      host_is_current-facts e a.authority_id e.preflight_authority h (and-eq-true _ _ k).1

  module _ {C : Type 0} ⦃sl : Sealing C⦄ where
    -- The file of a profile with this scope and these keys: a sound record, sealed.
    unfoldable pub IsKept : Text → (Text → Text) → Option (Stored C) → Type 0
    IsKept scope keys none = Unit
    IsKept scope keys (some s) =
        (nonce : Bytes) × (r : Known) × (s.scope_id ≡ scope)
        × (matches_key_id s.key_id ≡ true)
        × (s.sealed ≡ sl.seal (keys s.key_id) s.key_id s.scope_id nonce r)
        × IsSound r

    module _ (sealing : IsSealing sl) {scope : Text} {keys : Text → Text} {e : Surroundings}
        (ring : IsKeyring scope keys e) where
      pub unseal-same :
          (s : Stored C) (k : Text) (nonce : Bytes) (r : Known)
          → s.sealed ≡ sl.seal (keys s.key_id) s.key_id s.scope_id nonce r
          → derived_key e s.key_id ≡ ok k
          → unseal s k ≡ ok r
      unfolding unseal
      unseal-same s k nonce r h d =
          let opened : sl.open_sealed k s.key_id s.scope_id s.sealed ≡ some r =
            subst (λ j. sl.open_sealed j s.key_id s.scope_id s.sealed ≡ some r)
              (sym (ring.own_keys s.key_id k (derived_key-key_of e s.key_id k d)))
              (ap (sl.open_sealed (keys s.key_id) s.key_id s.scope_id) h
                ∙ sealing.opens (keys s.key_id) s.key_id s.scope_id nonce r) in
          rw (opened, unseal) refl

      pub load_record-IsSound :
          (s : Option (Stored C)) (r : Known)
          → IsKept scope keys s
          → load_record e s ≡ ok r
          → IsSound r
      unfolding load_record IsKept
      load_record-IsSound none r k h = subst IsSound (ok-injective h) empty-IsSound
      load_record-IsSound (some s) r (nonce, known, own, form, sealed, sound) h =
          let h1 = >>-eq-ok (guard e.envelope_v3 runtime_error) _ h in
          let h2 = >>-eq-ok (guard (is_small s) runtime_error) _ h1 in
          let h3 = >>-eq-ok (guard (is_envelope e s) runtime_error) _ h2 in
          let (k, d, h4) = >>=-eq-ok (derived_key e s.key_id) _ h3 in
          let (found, u, h5) = >>=-eq-ok (unseal s k) _ h4 in
          let same = ok-injective (sym (unseal-same s k nonce known sealed d) ∙ u) in
          subst IsSound (same ∙ ok-injective (>>-eq-ok (guard (is_known found) runtime_error) _ h5))
            sound

      pub save-IsKept :
          (s : Option (Stored C)) (written : Result Known)
          → IsKept scope keys s
          → ((r : Known) → written ≡ ok r → IsSound r)
          → IsKept scope keys (save e s written).1
      unfolding save write IsKept
      save-IsKept s (err raised) k h = k
      save-IsKept s (ok r) k h = elim (Bool-cases e.envelope_v3) [
        | inr v ↦ rw v k
        | inl v ↦ elim (Result-cases (derived_key e e.active_key_id)) [
          | inr (x, d) ↦ rw (v, d) k
          | inl (x, d) ↦
              rw (v, d)
                (
                  e.nonce,
                  r,
                  ring.own_scope,
                  ring.key_form,
                  ap (λ j. sl.seal j e.active_key_id e.active_scope_id e.nonce r)
                      (ring.own_keys e.active_key_id x (derived_key-key_of e e.active_key_id x d)),
                  h r refl,
                )
        ]
      ]
