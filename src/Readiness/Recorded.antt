-- ===== src/Readiness/Recorded.antt =====
-- What the evidence store of readiness_store.py reads back of what it wrote.
use echo_veil.Base.{
  ◌≡◌, refl, sym, ◌∙◌, subst, Bool, true, false, ◌&&◌, Option, none, some, ok, Option-cases, inl,
  inr, and-eq-true,
}
use echo_veil.Base.Texts.{Text, text_eq_iff}
use echo_veil.Receipts.{Crypto}
use echo_veil.Readiness.Authority.{Artifact, HostBoundary, matches_scope_id}
use echo_veil.Readiness.Store.{
  Backup, Known, Stored, Surroundings, Sealing, IsSealing, is_receipt, is_known, load_record,
  is_small, is_envelope, derived_key, unseal, matches_key_id,
}
use echo_veil.Readiness.Records.{
  record_backup, record_restore, record_artifact, record_host_boundary, invalidate_recovery,
}
use echo_veil.Readiness.Kept.{IsSound, IsKept, IsKeyring, answers_backup, save-IsKept, unseal-same}
use echo_veil.Readiness.Written.{
  with_backup-IsSound, with_restore-IsSound, with_artifact-IsSound, with_boundary-IsSound,
  without_recovery-IsSound,
}

key_there :
    (e : Surroundings) (key_id : Text)
    → elim (e.key_of key_id) [ none ↦ false | some k ↦ true ] ≡ true
    → (k : Text) × (derived_key e key_id ≡ ok k)
unfolding derived_key
key_there e key_id h = elim (Option-cases (e.key_of key_id)) [
  | inl p ↦ cc (rw p at h)
  | inr (k, p) ↦ (k, rw (p, derived_key) refl)
]

IsSound-is_known : ⦃cr : Crypto⦄ (r : Known) → IsSound r → is_known r ≡ true
unfolding is_known
IsSound-is_known r h =
    rw (h.artifact_valid, h.boundary_valid, h.attached, h.backup_valid, h.restore_valid) refl

module _ ⦃cr : Crypto⦄ {C : Type 0} ⦃sl : Sealing C⦄ where
  -- The stores of a profile: the calls from its creation on, each with what is around it.
  pub data Reached (scope : Text) (keys : Text → Text) : Option (Stored C) → Type 0 where
    created : Reached scope keys none
    backed_up :
        {s : Option (Stored C)} (e : Surroundings) (v3 : Bool) (b : Backup)
        → IsKeyring scope keys e
        → is_receipt b ≡ true
        → Reached scope keys s
        → Reached scope keys (record_backup e v3 b s).1
    restored :
        {s : Option (Stored C)} (e : Surroundings) (v3 : Bool) (b : Backup)
        → IsKeyring scope keys e
        → is_receipt b ≡ true
        → Reached scope keys s
        → Reached scope keys (record_restore e v3 b s).1
    installed :
        {s : Option (Stored C)} (e : Surroundings) (a : Artifact)
        → IsKeyring scope keys e
        → Reached scope keys s
        → Reached scope keys (record_artifact e a s).1
    hosted :
        {s : Option (Stored C)} (e : Surroundings) (h : HostBoundary)
        → IsKeyring scope keys e
        → Reached scope keys s
        → Reached scope keys (record_host_boundary e h s).1
    invalidated :
        {s : Option (Stored C)} (e : Surroundings)
        → IsKeyring scope keys e
        → Reached scope keys s
        → Reached scope keys (invalidate_recovery e s).1

  -- The reader allows the size of the file, where there is one.
  unfoldable pub is_small_file : Option (Stored C) → Bool
  unfolding is_small
  is_small_file none = true
  is_small_file (some s) = is_small s

  -- The keyring still has the key of the file, whose size the reader allows.
  unfoldable pub is_readable : Surroundings → Option (Stored C) → Bool
  unfolding is_small
  is_readable e none = true
  is_readable e (some s) = is_small s && elim (e.key_of s.key_id) [ none ↦ false | some k ↦ true ]

  pub is_envelope_own :
      (e : Surroundings) (s : Stored C)
      → matches_scope_id s.scope_id ≡ true
      → matches_key_id s.key_id ≡ true
      → s.scope_id ≡ e.active_scope_id
      → is_envelope e s ≡ true
  unfolding is_envelope
  is_envelope_own e s f k h = rw (f, k, (text_eq_iff s.scope_id e.active_scope_id).1 h) refl

  pub read_stored :
      (e : Surroundings) (s : Stored C) (k : Text) (r : Known)
      → e.envelope_v3 ≡ true
      → is_small s ≡ true
      → is_envelope e s ≡ true
      → derived_key e s.key_id ≡ ok k
      → unseal s k ≡ ok r
      → IsSound r
      → load_record e (some s) ≡ ok r
  unfolding load_record
  read_stored e s k r v small f d u h = rw (v, small, f, d, u, IsSound-is_known r h) refl

  module _ (sealing : IsSealing sl) (scope : Text) (keys : Text → Text) where
    pub Reached-IsKept : {s : Option (Stored C)} → Reached scope keys s → IsKept scope keys s
    unfolding IsKept record_backup record_restore record_artifact record_host_boundary
        invalidate_recovery
    Reached-IsKept created = tt
    Reached-IsKept (backed_up {s} e v3 b ring valid p) =
        save-IsKept sealing ring s _ (Reached-IsKept p)
          (λ r. with_backup-IsSound sealing ring s (Reached-IsKept p) v3 b r valid)
    Reached-IsKept (restored {s} e v3 b ring valid p) =
        save-IsKept sealing ring s _ (Reached-IsKept p)
          (λ r. with_restore-IsSound sealing ring s (Reached-IsKept p) v3 b r valid)
    Reached-IsKept (installed {s} e a ring p) =
        save-IsKept sealing ring s _ (Reached-IsKept p)
          (λ r. with_artifact-IsSound sealing ring s (Reached-IsKept p) a r)
    Reached-IsKept (hosted {s} e b ring p) =
        save-IsKept sealing ring s _ (Reached-IsKept p)
          (λ r. with_boundary-IsSound sealing ring s (Reached-IsKept p) b r)
    Reached-IsKept (invalidated {s = none} e ring p) = tt
    Reached-IsKept (invalidated {s = some s} e ring p) =
        save-IsKept sealing ring (some s) _ (Reached-IsKept p)
          (λ r. without_recovery-IsSound sealing ring (some s) (Reached-IsKept p) r)

    -- Where what was sealed opens again, and the scope has the form of one: whatever was recorded and
    -- invalidated before with keyrings of the profile, with a receipt that is valid at each
    -- `record_backup` and `record_restore`, a keyring of the profile that has the envelope version and
    -- still has the key of the file reads the record, if the file is not too large; and its restore
    -- drill, where there is one, is of its backup.
    pub Reached-load_record :
        {s : Option (Stored C)} (e : Surroundings)
        → matches_scope_id scope ≡ true
        → Reached scope keys s
        → IsKeyring scope keys e
        → e.envelope_v3 ≡ true
        → is_readable e s ≡ true
        → (r : Known) × (load_record e s ≡ ok r) × (answers_backup r.backup r.restore ≡ true)
    unfolding load_record IsKept answers_backup is_readable
    Reached-load_record {s = none} e f p ring v small = (_, refl, refl)
    Reached-load_record {s = some s} e f p ring v readable =
        let (nonce, r, own, form, sealed, sound) = Reached-IsKept p in
        let (small, there) = and-eq-true _ _ readable in
        let (k, d) = key_there e s.key_id there in
        (
          r,
          read_stored e s k r v small
              (is_envelope_own e s (subst (λ x. matches_scope_id x ≡ true) (sym own) f) form
                (own ∙ sym ring.own_scope))
              d (unseal-same sealing ring s k nonce r sealed d) sound,
          sound.answered,
        )
