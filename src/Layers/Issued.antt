-- ===== src/Layers/Issued.antt =====
-- About the contracts that the functions of memory_layers.py issue, for the proofs of the siblings.
use echo_veil.Base.{
  ◌≡◌, refl, true, false, List, [], ◌∷◌, ◌++◌, ok, arith, All, All-append, All-map, >>=-eq-ok,
  leb→le,
}
use echo_veil.Base.Texts.{Text, codes, is_space}
use echo_veil.Base.Floats.{Float}
use echo_veil.Json.{Value}
use echo_veil.Layers.Validate.{
  Unicode, validate_timestamp, no_repeats, max_provenance_chars, max_promotion_reason_chars, texts,
}
use echo_veil.Layers.Words.{normalize}
use echo_veil.Layers.Contract.{Evidence, Contract}
use echo_veil.Layers.Clean.{Clean, provenance-Clean, provenance_accepts, bounded_text-Clean}
use echo_veil.Layers.Inversion.{promote-inv, Refresh-inv, new-inv, construct-provenance}
use echo_veil.Layers.Form.{WellFormed, IsEvent, construct-WellFormed}
use echo_veil.Layers.Moves.{
  given_provenance, promote, refresh_live, new_memory_contract, migrated_short_term_contract,
  additional_provenance,
}
use echo_veil.Layers.Moves.Dedupe.{dedupe-All, dedupe-no_repeats, dedupe_nonempty}

abbrev migration : List Text
migration = codes "migration:pre-layer-contract" ∷ []

-- The text of a migration is normal as it stands.
migration_normal : All (λ s. normalize s ≡ s) migration
unfolding normalize is_space
migration_normal = (refl, tt)

module _ {F : Type 0} ⦃fl : Float F⦄ ⦃uc : Unicode⦄ where
  extra-Clean :
      (v : Value F) {ss : List Text}
      → additional_provenance v ≡ ok ss
      → All (Clean max_provenance_chars) ss
  unfolding additional_provenance
  extra-Clean Value.null {ss = []} h = tt
  extra-Clean Value.null {ss = s ∷ ss} h = cc
  extra-Clean v h = (provenance-Clean true v h).0

  reasons :
      (es : List (Evidence F))
      → All IsEvent es
      → All (λ e. Clean max_promotion_reason_chars e.reason) es
  reasons es = All-map IsEvent (λ e. Clean max_promotion_reason_chars e.reason) es (λ e h. h.1)

  pub promote-WellFormed :
      (clock : F) (c : Contract F) {d : Contract F} (target reason provenance now : Value F)
      → WellFormed c
      → promote clock c target reason provenance now ≡ ok d
      → WellFormed d
  unfolding no_repeats
  promote-WellFormed clock c target reason provenance now w h =
      let p = promote-inv clock c target reason provenance now h in
      construct-WellFormed _ p.built
        (dedupe-All _ _ (All-append _ _ _ w.provenance_clean (extra-Clean provenance p.extra_eq)))
        (dedupe-no_repeats (c.provenance ++ p.extra))
        (dedupe_nonempty c.provenance p.extra w.provenance_some) (leb→le _ _ p.capped)
        (All-append _ _ _ (reasons _ w.events_valid)
          (bounded_text-Clean max_promotion_reason_chars reason p.words_eq, tt))
        tt refl (omega arith)

  pub refresh_live-WellFormed :
      (clock : F) (c : Contract F) {d : Contract F} (provenance expires_at now : Value F)
      → WellFormed c
      → refresh_live clock c provenance expires_at now ≡ ok d
      → WellFormed d
  unfolding no_repeats
  refresh_live-WellFormed clock c provenance expires_at now w h =
      let p = Refresh-inv clock c provenance expires_at now h in
      construct-WellFormed _ p.built
        (dedupe-All _ _ (All-append _ _ _ w.provenance_clean (extra-Clean provenance p.extra_eq)))
        (dedupe-no_repeats (c.provenance ++ p.extra))
        (dedupe_nonempty c.provenance p.extra w.provenance_some) (leb→le _ _ p.capped) tt tt refl
        (omega arith)

  pub new_memory_contract-WellFormed :
      (clock : F) {d : Contract F}
      (role provenance promotion_reason expires_at logic_kind related_ids now : Value F)
      → new_memory_contract clock role provenance promotion_reason expires_at logic_kind related_ids
          now
        ≡ ok d
      → WellFormed d
  new_memory_contract-WellFormed clock role provenance promotion_reason expires_at logic_kind
        related_ids now h =
      let f =
        new-inv clock role provenance promotion_reason expires_at logic_kind related_ids now h in
      let p = provenance-Clean _ (given_provenance provenance) f.clean_eq in
      construct-WellFormed _ f.built p.0 p.1 p.2 p.3 f.events_clean f.related_clean.0
        f.related_clean.1 f.related_clean.2

  pub migrated-WellFormed :
      (created_at : Value F) {d : Contract F}
      → migrated_short_term_contract created_at ≡ ok d
      → WellFormed d
  unfolding migrated_short_term_contract no_repeats
  migrated-WellFormed created_at h =
      let (t, e1, h1) = >>=-eq-ok (validate_timestamp created_at) _ h in
      let (ss, e2) = construct-provenance _ h1 in
      let accepted = provenance_accepts F false migration migration_normal e2 in
      let p = provenance-Clean false (let v : Value F = texts migration in v) accepted in
      construct-WellFormed _ h1 p.0 p.1 p.2 p.3 tt tt refl (omega arith)
